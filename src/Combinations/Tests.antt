-- ===== src/Combinations/Tests.antt =====
-- The theorems on the iterator, at three of four oracles.
use rust_dlc.Base.{◌≡◌, refl, ok, some, [], ◌∷◌, ◌>>=◌, arith}
use rust_dlc.Combinations.{combinations_new, collect, get_index_for_combination}
use rust_dlc.Combinations.Enumeration.{collect-combinations}
use rust_dlc.Combinations.Index.{get_index_for_combination-get_elem?}

collect-combinations_example :
    (combinations_new 4 3 >>= collect 5)
    ≡ ok ((0 ∷ 1 ∷ 2 ∷ []) ∷ (0 ∷ 1 ∷ 3 ∷ []) ∷ (0 ∷ 2 ∷ 3 ∷ []) ∷ (1 ∷ 2 ∷ 3 ∷ []) ∷ [])
collect-combinations_example = collect-combinations 4 3 5 (omega arith) (omega arith) (omega arith)

get_index_for_combination-get_elem?_example :
    (combinations_new 4 3 >>= λ it. get_index_for_combination 5 it (0 ∷ 2 ∷ 3 ∷ [])) ≡ ok (some 2)
get_index_for_combination-get_elem?_example =
    get_index_for_combination-get_elem? 4 3 5 2 (0 ∷ 2 ∷ 3 ∷ []) (omega arith) (omega arith)
      (omega arith) refl
