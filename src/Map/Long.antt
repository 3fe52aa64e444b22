-- ===== src/Map/Long.antt =====
-- spe_map.c: keys of 16 bytes and more, which `speMapItemCreate` cuts and `speMapSearch` does not.
use mathlib.Core.Path.{subst}
use spe.Base.{
  ℕ, ◌≤◌, ◌<◌, ◌≡◌, refl, sym, ap, none, some, List, [], ◌∷◌, arith, length, length-take, ◌==◌, All,
  Bool-cases, inl, inr,
}
use spe.Base.Text.{str_eq}
use spe.Map.{Item, Map, map_ok, find, index, search, get, set, set_found, add, create_item, obj_of}
use spe.Map.Represent.{str_eq-eq}

-- What fits into `key[SPE_MAP_KEYLEN]`.
abbrev pub IsCut : Item → Type 0
IsCut x = length x.key < 16

find-long : (key : List ℕ) (l : List Item) → 16 ≤ length key → All IsCut l → find key l ≡ none
unfolding find
find-long key [] h cut = refl
find-long key (x ∷ xs) h cut = elim (Bool-cases (str_eq x.key key)) [
  | inl q ↦ absurd (omega (arith, ap length (str_eq-eq x.key key q), cut.0))
  | inr q ↦ rw q (find-long key xs h cut.1)
]

get-cut :
    (m : Map) (key : List ℕ)
    → 16 ≤ length key
    → ((i : ℕ) → All IsCut (m.chains i))
    → get m key ≡ none
unfolding get search
get-cut m key h cut = ap obj_of (find-long key (m.chains (index m key)) h (cut (index m key)))

add-IsCut :
    (m : Map) (key : List ℕ) (obj a j : ℕ)
    → ((i : ℕ) → All IsCut (m.chains i))
    → (i : ℕ) → All IsCut ((add m j (create_item a key obj)).chains i)
unfolding add
add-IsCut m key obj a j cut i = elim (Bool-cases (i == j)) [
  | inl q ↦ rw q (omega (arith, length-take 15 key), cut i)
  | inr q ↦ rw q (cut i)
]

-- In a map whose items have keys of at most 15 bytes, as all have that `SpeMapSet` makes, `SpeMapSet`
-- of a key of 16 bytes or more, when calloc succeeds, reports success each time, also for a key that
-- was set before, and `SpeMapGet` of the key then finds nothing.
pub get-set_long :
    (m : Map) (key : List ℕ) (obj a : ℕ)
    → 16 ≤ length key
    → ((i : ℕ) → All IsCut (m.chains i))
    → ((set m key obj (some a)).0 ≡ map_ok)
      × (get (set m key obj (some a)).1 key ≡ none)
      × ((i : ℕ) → All IsCut ((set m key obj (some a)).1.chains i))
unfolding set search set_found
get-set_long m key obj a h cut =
    let missing : find key (m.chains (index m key)) ≡ none =
      find-long key (m.chains (index m key)) h (cut (index m key)) in
    let m' : Map = add m (index m key) (create_item a key obj) in
    let cut' = add-IsCut m key obj a (index m key) cut in
    subst
      (λ f.
        ((set_found m key obj (some a) f).0 ≡ map_ok)
        × (get (set_found m key obj (some a) f).1 key ≡ none)
        × ((i : ℕ) → All IsCut ((set_found m key obj (some a) f).1.chains i)))
      (sym missing) (refl, get-cut m' key h cut', cut')
