-- ===== src/Tests/Maps.antt =====
-- spe_map.c at concrete inputs.
use spe.Base.{ℕ, ◌≡◌, refl, none, some, List, [], ◌∷◌, ◌++◌, arith, All}
use spe.Map.{Map, create, get}
use spe.Map.Represent.{Represents, rev, picked, lookup}
use spe.Map.Dictionary.{MapCall, sets, dels, IsShort, spec_run, run, get-run}

abbrev empty_map : Map
empty_map = create 4

empty_map-Represents : Represents empty_map []
unfolding rev picked
empty_map-Represents = record { in_list = refl; in_chains = λ i. refl }

abbrev map_calls : List MapCall
map_calls =
    sets (97 ∷ []) 1 (some 1000)
    ∷ sets (98 ∷ []) 2 none
    ∷ sets (98 ∷ []) 3 (some 2000)
    ∷ dels (97 ∷ [])
    ∷ []

map_calls-IsShort : All IsShort map_calls
map_calls-IsShort = (omega arith, (omega arith, (omega arith, (tt, tt))))

abbrev keep_log : ℕ → List ℕ → List ℕ
keep_log obj w = w ++ (obj ∷ [])

get-run_example :
    get (run keep_log empty_map [] map_calls).0 (98 ∷ []) ≡ lookup (spec_run [] map_calls) (98 ∷ [])
get-run_example =
    get-run keep_log map_calls empty_map [] [] (98 ∷ []) empty_map-Represents map_calls-IsShort
