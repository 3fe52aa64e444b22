-- ===== src/Map/Represent.antt =====
-- spe_map.c: the chains and the list of items are two views of one list, the items in the order in
-- which they were added, newest first.
use mathlib.Core.List.{append-nil}
use spe.Base.{
  ℕ, ◌%◌, ◌<◌, ◌≡◌, refl, ap, ◌∙◌, inl, inr, true, false, Option, none, some, List, [], ◌∷◌, ◌++◌,
  arith, if◌then◌else◌, ◌==◌, ==_self, length, take, take_all, Bool-cases,
}
use spe.Base.Text.{str_eq}
use spe.Map.Hash.{hash_value}
use spe.Map.{
  Item, Map, find, index, search, add, set_found, without, unlink, destroy, del_found, obj_of,
}

pub str_eq-eq : (xs ys : List ℕ) → str_eq xs ys ≡ true → xs ≡ ys
unfolding str_eq
str_eq-eq [] [] h = refl
str_eq-eq [] (y ∷ ys) h = absurd (ground (arith, h))
str_eq-eq (x ∷ xs) [] h = absurd (ground (arith, h))
str_eq-eq (x ∷ xs) (y ∷ ys) h = elim (Bool-cases (x == y)) [
  | inl q ↦
      let same : x ≡ y = ground arith in
      let rest : xs ≡ ys = str_eq-eq xs ys (rw q at h) in ap (λ a. a ∷ xs) same ∙ ap (◌∷◌ y) rest
  | inr q ↦ absurd (ground (arith, rw q at h))
]

unfoldable pub rev : List Item → List Item
rev [] = []
rev (x ∷ xs) = rev xs ++ (x ∷ [])

-- The items that belong to the chain `i` of `n`.
unfoldable pub picked : ℕ → ℕ → List Item → List Item
picked n i [] = []
picked n i (x ∷ xs) = if (hash_value x.key % n) == i then x ∷ picked n i xs else picked n i xs

pub record Represents (m : Map) (l : List Item) : Type 0 where
  pub in_list : m.items ≡ rev l
  pub in_chains : (i : ℕ) → m.chains i ≡ picked m.size i l

find-picked :
    (n : ℕ) (key : List ℕ) (l : List Item) → find key (picked n (hash_value key % n) l) ≡ find key l
unfolding find picked
find-picked n key [] = refl
find-picked n key (x ∷ xs) = elim (Bool-cases (str_eq x.key key)) [
  | inl q ↦
      let same : x.key ≡ key = str_eq-eq x.key key q in
      let here : ((hash_value x.key % n) == (hash_value key % n)) ≡ true =
        ap (λ k. (hash_value k % n) == (hash_value key % n)) same ∙ ==_self (hash_value key % n) in
      rw (here, q) refl
  | inr q ↦ elim (Bool-cases ((hash_value x.key % n) == (hash_value key % n))) [
    | inl c ↦ rw (c, q) (find-picked n key xs)
    | inr c ↦ rw (c, q) (find-picked n key xs)
  ]
]

without-append : (a : ℕ) (xs ys : List Item) → without a (xs ++ ys) ≡ without a xs ++ without a ys
unfolding without
without-append a [] ys = refl
without-append a (x ∷ xs) ys = ground (arith, without-append a xs ys)

without-rev : (a : ℕ) (l : List Item) → without a (rev l) ≡ rev (without a l)
unfolding without rev
without-rev a [] = refl
without-rev a (x ∷ xs) = without-append a (rev xs) (x ∷ []) ∙ elim (Bool-cases (x.addr == a)) [
  | inl q ↦ rw q (append-nil (without a (rev xs)) ∙ without-rev a xs)
  | inr q ↦ rw q (ap (λ l. l ++ (x ∷ [])) (without-rev a xs))
]

without-picked : (a n i : ℕ) (l : List Item) → without a (picked n i l) ≡ picked n i (without a l)
unfolding without picked
without-picked a n i [] = refl
without-picked a n i (x ∷ xs) = ground (arith, without-picked a n i xs)

same_test : (a b : ℕ) → (a == b) ≡ (b == a)
same_test a b = ground arith

pub search-find :
    (m : Map) (l : List Item) (key : List ℕ) → Represents m l → search m key ≡ find key l
unfolding search index
search-find m l key r =
    ap (find key) (r.in_chains (hash_value key % m.size)) ∙ find-picked m.size key l

-- The map as a list, newest first.
unfoldable pub spec_set : List Item → List ℕ → ℕ → Option ℕ → Option Item → List Item
spec_set l key obj alloc (some item) = l
spec_set l key obj none none = l
spec_set l key obj (some a) none = record { addr = a; key = key; obj = obj } ∷ l

unfoldable pub spec_del : List Item → Option Item → List Item
spec_del l none = l
spec_del l (some item) = without item.addr l

unfoldable pub lookup : List Item → List ℕ → Option ℕ
lookup l key = obj_of (find key l)

pub set_found-Represents :
    (m : Map) (l : List Item) (key : List ℕ) (obj : ℕ) (alloc : Option ℕ) (found : Option Item)
    → length key < 16
    → Represents m l
    → Represents (set_found m key obj alloc found).1 (spec_set l key obj alloc found)
unfolding set_found spec_set add index picked rev
set_found-Represents m l key obj alloc (some item) h r = r
set_found-Represents m l key obj none none h r = r
set_found-Represents m l key obj (some a) none h r =
    let whole : take 15 key ≡ key = take_all 15 key (omega arith) in
    record {
      in_list = rw whole (ap (λ xs. xs ++ (item ∷ [])) r.in_list);
      in_chains = λ i. rw whole (in_chain i);
    }
  where
    hk : ℕ
    hk = hash_value key % m.size

    item : Item
    item = record { addr = a; key = key; obj = obj }

    in_chain :
        (i : ℕ)
        → (if i == hk then item ∷ m.chains i else m.chains i)
          ≡ (if hk == i then item ∷ picked m.size i l else picked m.size i l)
    in_chain i = elim (Bool-cases (i == hk)) [
      | inl q ↦
          let back : (hk == i) ≡ true = same_test hk i ∙ q in
          rw (q, back) (ap (◌∷◌ item) (r.in_chains i))
      | inr q ↦ let back : (hk == i) ≡ false = same_test hk i ∙ q in rw (q, back) (r.in_chains i)
    ]

unlink-Represents :
    (m : Map) (l : List Item) (a : ℕ) → Represents m l → Represents (unlink m a) (without a l)
unfolding unlink
unlink-Represents m l a r = record {
  in_list = ap (without a) r.in_list ∙ without-rev a l;
  in_chains = λ i. ap (without a) (r.in_chains i) ∙ without-picked a m.size i l;
}

module _ {S : Type 0} (handler : ℕ → S → S) where
  pub del_found-Represents :
      (m : Map) (l : List Item) (w : S) (found : Option Item)
      → Represents m l
      → Represents (del_found handler m w found).1 (spec_del l found)
  unfolding del_found destroy spec_del
  del_found-Represents m l w none r = r
  del_found-Represents m l w (some item) r =
      let u = unlink-Represents m l item.addr r in
      record { in_list = u.in_list; in_chains = u.in_chains }
