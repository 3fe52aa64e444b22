-- ===== src/Map/Dictionary.antt =====
-- spe_map.c: what the map promises, against a list of items.
use spe.Base.{ℕ, ◌<◌, ◌≡◌, sym, ap, Option, List, [], ◌∷◌, length, All}
use spe.Map.{Item, Map, search, find, get, set, del, obj_of}
use spe.Map.Represent.{
  Represents, search-find, spec_set, spec_del, lookup, set_found-Represents, del_found-Represents,
}

-- A call of the interface; the last argument of `sets` is what calloc gives.
pub data MapCall : Type 0 where
  sets : List ℕ → ℕ → Option ℕ → MapCall
  dels : List ℕ → MapCall

-- A key that fits into an item with its NUL.
abbrev pub IsShort : MapCall → Type 0
IsShort (sets key obj alloc) = length key < 16
IsShort (dels key) = Unit

unfoldable pub spec_run : List Item → List MapCall → List Item
unfolding spec_set spec_del
spec_run l [] = l
spec_run l (sets key obj alloc ∷ cs) = spec_run (spec_set l key obj alloc (find key l)) cs
spec_run l (dels key ∷ cs) = spec_run (spec_del l (find key l)) cs

module _ {S : Type 0} (handler : ℕ → S → S) where
  unfoldable pub run : Map → S → List MapCall → Map × S
  run m w [] = (m, w)
  run m w (sets key obj alloc ∷ cs) = run (set m key obj alloc).1 w cs
  run m w (dels key ∷ cs) = run (del handler m w key).1 (del handler m w key).2 cs

  run-Represents :
      (cs : List MapCall) (m : Map) (l : List Item) (w : S)
      → Represents m l
      → All IsShort cs
      → Represents (run m w cs).0 (spec_run l cs)
  unfolding run spec_run set del
  run-Represents [] m l w r short = r
  run-Represents (sets key obj alloc ∷ cs) m l w r short =
      run-Represents cs (set m key obj alloc).1 (spec_set l key obj alloc (find key l)) w
        (rw (sym (search-find m l key r))
          (set_found-Represents m l key obj alloc (search m key) short.0 r))
        short.1
  run-Represents (dels key ∷ cs) m l w r short =
      run-Represents cs (del handler m w key).1 (spec_del l (find key l)) (del handler m w key).2
        (rw (sym (search-find m l key r)) (del_found-Represents handler m l w (search m key) r))
        short.1

  -- From a map that stores the items of a list, after any sequence of `SpeMapSet` with keys of at
  -- most 15 bytes and `SpeMapDel` with any keys, `SpeMapGet` finds what a search through the list
  -- finds, on which the same calls add in front what is not found, and take out what is found.
  pub get-run :
      (cs : List MapCall) (m : Map) (l : List Item) (w : S) (key : List ℕ)
      → Represents m l
      → All IsShort cs
      → get (run m w cs).0 key ≡ lookup (spec_run l cs) key
  unfolding get lookup
  get-run cs m l w key r short =
      ap obj_of (search-find (run m w cs).0 (spec_run l cs) key (run-Represents cs m l w r short))
