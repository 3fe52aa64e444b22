-- ===== src/Map.antt =====
-- src/spe_map.c and src/spe_map.h: a hash map from C strings to objects.
-- A C string is the list of its bytes before the NUL; the map and the keys are not NULL. An item is
-- known by its address. The list macros of spe_list.h are operations on lists.
pub mod Hash
pub mod Represent
pub mod Dictionary
pub mod Long
use spe.Base.{
  ℕ, zero, suc, ◌+◌, ◌-◌, ◌%◌, Bool, true, false, not, Option, none, some, List, [], ◌∷◌, ◌++◌,
  if◌then◌else◌, ◌==◌, take,
}
use spe.Base.Text.{str_eq}
use spe.Map.Hash.{hash_value}

-- `speMapItem_t`
pub record Item : Type 0 where
  pub addr : ℕ
  pub key : List ℕ
  pub obj : ℕ

-- `speMap_t`: the chains and the list of all items. The handler is a parameter below.
pub record Map : Type 0 where
  pub len : ℕ
  pub size : ℕ
  pub chains : ℕ → List Item
  pub items : List Item

-- SPE_MAP_OK, SPE_MAP_ERROR, SPE_MAP_CONFLICT
pub data SetCode : Type 0 where
  map_ok map_error map_conflict : SetCode

-- `SpeMapCreate`, when calloc succeeds
abbrev pub create : ℕ → Map
create n = record { len = 0; size = n; chains = λ i. []; items = [] }

-- strncpy of at most SPE_MAP_KEYLEN - 1 bytes, then a NUL
abbrev pub create_item : ℕ → List ℕ → ℕ → Item
create_item a key obj = record { addr = a; key = take 15 key; obj = obj }

-- list_del and hlist_del
unfoldable pub without : ℕ → List Item → List Item
without a [] = []
without a (x ∷ xs) = if x.addr == a then without a xs else x ∷ without a xs

-- The loop of `speMapSearch`.
unfoldable pub find : List ℕ → List Item → Option Item
find key [] = none
find key (x ∷ xs) = if str_eq x.key key then some x else find key xs

unfoldable pub index : Map → List ℕ → ℕ
unfolding hash_value
index m key = hash_value key % m.size

unfoldable pub search : Map → List ℕ → Option Item
unfolding index find
search m key = find key (m.chains (index m key))

-- `if (!item) return NULL; return item->obj;`
abbrev pub obj_of : Option Item → Option ℕ
obj_of none = none
obj_of (some item) = some item.obj

unfoldable pub get : Map → List ℕ → Option ℕ
unfolding search
get m key = obj_of (search m key)

-- list_add_tail and hlist_add_head, in the chain `i`
unfoldable pub add : Map → ℕ → Item → Map
add m i item = record m {
  len = m.len + 1;
  chains = λ j. if j == i then item ∷ m.chains j else m.chains j;
  items = m.items ++ (item ∷ []);
}

-- `SpeMapSet`; calloc gives an address or NULL.
unfoldable pub set_found : Map → List ℕ → ℕ → Option ℕ → Option Item → SetCode × Map
unfolding add index
set_found m key obj alloc (some item) = (map_conflict, m)
set_found m key obj none none = (map_error, m)
set_found m key obj (some a) none = (map_ok, add m (index m key) (create_item a key obj))

unfoldable pub set : Map → List ℕ → ℕ → Option ℕ → SetCode × Map
unfolding set_found search
set m key obj alloc = set_found m key obj alloc (search m key)

unfoldable pub unlink : Map → ℕ → Map
unfolding without
unlink m a = record m { chains = λ j. without a (m.chains j); items = without a m.items }

-- `SpeMapNext`, from the item at an address or from the start
pub next_from : ℕ → List Item → Option Item
next_from a [] = none
next_from a (x ∷ []) = none
next_from a (x ∷ y ∷ xs) = if x.addr == a then some y else next_from a (y ∷ xs)

pub next : Map → Option ℕ → Option Item
unfolding next_from
next m none = elim m.items [ [] ↦ none | x ∷ xs ↦ some x ]
next m (some a) = next_from a m.items

-- `handler` is the handler of the map with its test for NULL, on a state of its own.
module _ {S : Type 0} (handler : ℕ → S → S) where
  -- `speMapItemDestroy`
  unfoldable pub destroy : Map → S → Item → Map × S
  unfolding unlink
  destroy m w item = (unlink m item.addr, handler item.obj w)

  unfoldable pub del_found : Map → S → Option Item → Bool × Map × S
  unfolding destroy
  del_found m w none = (false, m, w)
  del_found m w (some item) =
      let r : Map × S = destroy m w item in (true, record (r.0) { len = m.len - 1 }, r.1)

  -- `SpeMapDel`
  unfoldable pub del : Map → S → List ℕ → Bool × Map × S
  unfolding del_found search
  del m w key = del_found m w (search m key)

  pub clean_chain : List Item → Map → S → Map × S
  unfolding destroy
  clean_chain [] m w = (m, w)
  clean_chain (x ∷ xs) m w = clean_chain xs (destroy m w x).0 (destroy m w x).1

  -- The chains from `i` on, `n` of them.
  pub clean_chains : ℕ → ℕ → Map → S → Map × S
  unfolding clean_chain
  clean_chains zero i m w = (m, w)
  clean_chains (suc n) i m w =
      let r : Map × S = clean_chain (m.chains i) m w in clean_chains n (suc i) r.0 r.1

  -- `SpeMapClean`
  pub clean : Map → S → Map × S
  unfolding clean_chains
  clean m w = let r : Map × S = clean_chains m.size 0 m w in (record (r.0) { len = 0 }, r.1)
