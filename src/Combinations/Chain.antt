-- ===== src/Combinations/Chain.antt =====
-- The combinations of the reference follow one another as the iterator makes them.
use rust_dlc.Base.{
  ℕ, zero, suc, ◌+◌, ◌-◌, ◌==◌, if◌then◌else◌, none, some, List, [], ◌∷◌, ◌++◌, map, length, All,
  All-imp, ◌≡◌, refl, ◌≤◌, ◌<◌, arith,
}
use mathlib.Core.List.{append-nil}
use native.Mathlib.Decide.{dec_lt}
use rust_dlc.Combinations.{count_from}
use rust_dlc.Combinations.Step.{successor}
use rust_dlc.Combinations.Reference.{
  combinations, combinations_first, combinations_none, Fits, combinations-Fits,
}

-- Each selector is followed by its successor, and the last has none.
abbrev pub IsChain : ℕ → List (List ℕ) → Type 0
IsChain limit [] = ⊥
IsChain limit (c ∷ []) = successor limit c ≡ none
IsChain limit (c ∷ d ∷ rest) = (successor limit c ≡ some d) × IsChain limit (d ∷ rest)

successor-cons :
    (limit x : ℕ) (c d : List ℕ)
    → successor limit c ≡ some d
    → successor limit (x ∷ c) ≡ some (x ∷ d)
successor-cons limit x c d h = ground arith

successor-cons_none :
    (limit x : ℕ) (c : List ℕ)
    → successor limit c ≡ none
    → successor limit (x ∷ c)
      ≡ (if x == limit - 1 - length c then none else some (count_from (suc x) (suc (length c))))
successor-cons_none limit x c h = ground arith

-- A chain with `x` in front of each selector, and then what follows.
IsChain-last :
    (limit count x : ℕ) (chain : List (List ℕ))
    → IsChain limit chain
    → All (λ c. length c ≡ count) chain
    → limit ≡ suc (x + count)
    → IsChain limit (map (λ c. x ∷ c) chain)
IsChain-last limit count x (c ∷ []) h (l, _) e = rw (successor-cons_none limit x c h) (ground arith)
IsChain-last limit count x (c ∷ d ∷ rest) (h, hs) (l, ls) e =
    (successor-cons limit x c d h, IsChain-last limit count x (d ∷ rest) hs ls e)
IsChain-last limit count x [] h l e = absurd h

IsChain-append :
    (limit count x : ℕ) (chain rest : List (List ℕ))
    → IsChain limit chain
    → All (λ c. length c ≡ count) chain
    → suc (x + count) < limit
    → IsChain limit (count_from (suc x) (suc count) ∷ rest)
    → IsChain limit (map (λ c. x ∷ c) chain ++ count_from (suc x) (suc count) ∷ rest)
IsChain-append limit count x (c ∷ []) rest h (l, _) e r =
    (rw (successor-cons_none limit x c h) (ground arith), r)
IsChain-append limit count x (c ∷ d ∷ cs) rest (h, hs) (l, ls) e r =
    (successor-cons limit x c d h, IsChain-append limit count x (d ∷ cs) rest hs ls e r)
IsChain-append limit count x [] rest h l e r = absurd h

Fits-length : (start limit count : ℕ) (c : List ℕ) → Fits start limit count c → length c ≡ count
Fits-length start limit count [] h = omega arith
Fits-length start limit count (x ∷ c) h = h.0

combinations-length :
    (start total count : ℕ) → All (λ c. length c ≡ count) (combinations start total count)
combinations-length start total count =
    All-imp _ _ (Fits-length start (start + total) count) _ (combinations-Fits start total count)

pub combinations-IsChain :
    (start total count : ℕ)
    → count ≤ total
    → IsChain (start + total) (combinations start total count)
combinations-IsChain start total zero h = refl
combinations-IsChain start zero (suc count) h = absurd (omega arith)
combinations-IsChain start (suc total) (suc count) h =
    let shift : start + suc total ≡ suc start + total = omega arith in
    let with_start = combinations-IsChain (suc start) total count (omega arith) in
    let lengths = combinations-length (suc start) total count in
    rw shift (elim (dec_lt count total) [
      | yes p ↦
          let (rest, e) = combinations_first (suc start) total (suc count) p in
          let without = combinations-IsChain (suc start) total (suc count) p in
          rw e (
            IsChain-append (suc start + total) count start (combinations (suc start) total count)
              rest with_start lengths (omega arith) (rw e at without))
      | no p ↦
          rw (combinations_none (suc start) total (suc count) (omega arith), append-nil)
            (IsChain-last (suc start + total) count start (combinations (suc start) total count)
              with_start lengths (omega arith))
    ])
