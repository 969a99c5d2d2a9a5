-- ===== src/Combinations/Reference.antt =====
-- The combinations of `count` of the `spare + count` numbers from `start` on, by recursion.
use rust_dlc.Base.{
  ℕ, zero, suc, ◌+◌, ◌≤◌, ◌<◌, ◌≡◌, refl, arith, List, [], ◌∷◌, ◌++◌, map, length, All, All-append,
  All-map, All-imp,
}
use rust_dlc.Combinations.{count_from}

-- Of `total` numbers from `start` on: first the combinations with `start`, then those without.
abbrev pub combinations : ℕ → ℕ → ℕ → List (List ℕ)
combinations start total zero = [] ∷ []
combinations start zero (suc count) = []
combinations start (suc total) (suc count) =
    map (λ c. start ∷ c) (combinations (suc start) total count)
    ++ combinations (suc start) total (suc count)

-- The first combination is the first `count` numbers.
pub combinations_first :
    (start total count : ℕ)
    → count ≤ total
    → (rest : List (List ℕ)) × (combinations start total count ≡ count_from start count ∷ rest)
combinations_first start total zero h = ([], refl)
combinations_first start zero (suc count) h = absurd (omega arith)
combinations_first start (suc total) (suc count) h =
    let (rest, e) = combinations_first (suc start) total count (omega arith) in
    (map (λ c. start ∷ c) rest ++ combinations (suc start) total (suc count), rw e refl)

pub combinations_none :
    (start total count : ℕ) → total < count → combinations start total count ≡ []
combinations_none start total zero h = absurd (omega arith)
combinations_none start zero (suc count) h = refl
combinations_none start (suc total) (suc count) h = rw (
  combinations_none (suc start) total count (omega arith),
  combinations_none (suc start) total (suc count) (omega arith),
)

-- A combination has its length, and its first element is in range and leaves room for the others.
abbrev pub Fits : ℕ → ℕ → ℕ → List ℕ → Type 0
Fits start limit count [] = count ≡ 0
Fits start limit count (x ∷ xs) = (suc (length xs) ≡ count) × (start ≤ x) × (x + count ≤ limit)

Fits-cons :
    (start total count : ℕ) (c : List ℕ)
    → Fits (suc start) (suc start + total) count c
    → Fits start (start + suc total) (suc count) (start ∷ c)
Fits-cons start total count [] h = omega arith
Fits-cons start total count (x ∷ c) h = omega arith

Fits-skip :
    (start total count : ℕ) (c : List ℕ)
    → Fits (suc start) (suc start + total) count c
    → Fits start (start + suc total) count c
Fits-skip start total count [] h = h
Fits-skip start total count (x ∷ c) h = omega arith

pub combinations-Fits :
    (start total count : ℕ)
    → All (Fits start (start + total) count) (combinations start total count)
combinations-Fits start total zero = (refl, tt)
combinations-Fits start zero (suc count) = tt
combinations-Fits start (suc total) (suc count) =
    All-append _ (map (λ c. start ∷ c) (combinations (suc start) total count)) _
      (All-map _ _ (λ c. start ∷ c) (Fits-cons start total count) _
        (combinations-Fits (suc start) total count))
      (All-imp _ _ (Fits-skip start total (suc count)) _
        (combinations-Fits (suc start) total (suc count)))
