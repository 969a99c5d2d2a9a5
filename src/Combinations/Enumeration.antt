-- ===== src/Combinations/Enumeration.antt =====
-- The iterator gives the combinations of the reference, each once and in order, and ends.
use rust_dlc.Base.{
  ℕ, zero, suc, ◌+◌, leb, true, ok, ◌>>=◌, none, some, List, [], ◌∷◌, map, length, length-append,
  length-map, All, ◌∙◌, ◌≡◌, refl, ◌≤◌, ◌<◌, arith,
}
use rust_dlc.Combinations.{CombinationIterator, combinations_new, next, collect, count_from}
use rust_dlc.Combinations.Step.{at, successor, next-at}
use rust_dlc.Combinations.Selector.{position, raise, or_first}
use rust_dlc.Combinations.Chain.{IsChain, combinations-IsChain}
use rust_dlc.Combinations.Reference.{combinations, combinations_first, Fits, combinations-Fits}

-- The number of combinations, by Pascal's triangle.
abbrev pub choose : ℕ → ℕ → ℕ
choose total zero = 1
choose zero (suc count) = 0
choose (suc total) (suc count) = choose total count + choose total (suc count)

pub length-combinations :
    (start total count : ℕ) → length (combinations start total count) ≡ choose total count
length-combinations start total zero = refl
length-combinations start zero (suc count) = refl
length-combinations start (suc total) (suc count) = omega (
  arith,
  length-append {0} (map (λ c. start ∷ c) (combinations (suc start) total count))
      (combinations (suc start) total (suc count)),
  length-map {0, 0} (λ (c : List ℕ). start ∷ c) (combinations (suc start) total count),
  length-combinations (suc start) total count,
  length-combinations (suc start) total (suc count),
)

module _ (limit count : ℕ) where
  pub next_last :
      (c : List ℕ)
      → Fits 0 limit (suc count) c
      → successor limit c ≡ none
      → (it : CombinationIterator) × (next (at limit (suc count) c) ≡ ok (none, it))
  next_last [] f h = absurd (omega arith)
  next_last (x ∷ xs) f h =
      let l : suc (length xs) ≡ suc count = f.0 in
      (
        at limit (suc (length xs)) (raise (x ∷ xs) (or_first (position limit (x ∷ xs)))),
        rw (← l) (next-at limit x xs (omega arith) ∙ ground arith),
      )

  pub next-successor :
      (c d : List ℕ)
      → Fits 0 limit (suc count) c
      → successor limit c ≡ some d
      → next (at limit (suc count) c) ≡ ok (some d, at limit (suc count) d)
  next-successor [] d f h = absurd (omega arith)
  next-successor (x ∷ xs) d f h =
      let l : suc (length xs) ≡ suc count = f.0 in
      rw (← l) (next-at limit x xs (omega arith) ∙ ground arith)

-- From the selector in front of a chain on, the iterator gives the rest of the chain.
collect_chain :
    (limit count : ℕ) (c : List ℕ) (rest : List (List ℕ)) (fuel : ℕ)
    → IsChain limit (c ∷ rest)
    → All (Fits 0 limit (suc count)) (c ∷ rest)
    → length rest < fuel
    → collect fuel (at limit (suc count) c) ≡ ok rest
unfolding collect
collect_chain limit count c rest zero h f l = absurd (omega arith)
collect_chain limit count c [] (suc fuel) h (f, _) l = rw (next_last limit count c f h).1 refl
collect_chain limit count c (d ∷ rest) (suc fuel) (e, h) (f, fs) l =
    rw (next-successor limit count c d f e)
      (rw (collect_chain limit count d rest fuel h fs (omega arith)) refl)

pub leb-true : (a b : ℕ) → a ≤ b → leb a b ≡ true
leb-true a b h = ground arith

-- For at least one selected element, and no more than there are, with fuel for one round more than
-- there are combinations, the iterator gives those of the reference, in the same order, and ends.
pub collect-combinations :
    (nb_elements nb_selected fuel : ℕ)
    → 0 < nb_selected
    → nb_selected ≤ nb_elements
    → choose nb_elements nb_selected < fuel
    → (combinations_new nb_elements nb_selected >>= collect fuel)
      ≡ ok (combinations 0 nb_elements nb_selected)
unfolding combinations_new collect next
collect-combinations n zero fuel p h f = absurd (omega arith)
collect-combinations n (suc k) zero p h f = absurd (omega arith)
collect-combinations n (suc k) (suc fuel) p h f =
    let (rest, e) = combinations_first 0 n (suc k) h in
    let chain = combinations-IsChain 0 n (suc k) h in
    let fits = combinations-Fits 0 n (suc k) in
    let shift : 0 + n ≡ n = omega arith in
    let rest_fits = rw (shift, e) at fits in
    let count = length-combinations 0 n (suc k) in
    rw (leb-true (suc k) n h) (
      rw
        (collect_chain n k (count_from 0 (suc k)) rest fuel (rw (shift, e) at chain) rest_fits
          (omega (arith, rw e at count)))
        (rw e refl))
