-- ===== src/Combinations/Index.antt =====
-- The index of a combination: no combination is given twice, and each ascending selection is given.
use rust_dlc.Base.{
  ℕ, zero, suc, ◌+◌, true, if◌then◌else◌, ok, ◌>>=◌, Option, none, some, Bool-cases, inl, inr, List,
  [], ◌∷◌, ◌++◌, map, length, All, All-append, All-imp, All-map, All-get_elem?,
  get_elem?-append_left, get_elem?-append_right, get_elem?-map, get_elem?, ◌≡◌, ◌≢◌, refl, sym, ap,
  ◌∙◌, ◌≤◌, ◌<◌, arith,
}
use native.Mathlib.Decide.{ℕ_discrete}
use mathlib.Core.Option.{some-injective}
use rust_dlc.Combinations.{
  combinations_new, count_from, next, slice_eq, find_from, get_index_for_combination,
}
use rust_dlc.Combinations.Step.{at}
use rust_dlc.Combinations.Chain.{IsChain, combinations-IsChain}
use rust_dlc.Combinations.Enumeration.{
  choose, length-combinations, next_last, next-successor, leb-true,
}
use rust_dlc.Combinations.Reference.{combinations, combinations_first, Fits, combinations-Fits}

module _ {ℓ} {A : Type ℓ} where
  -- No element stands twice.
  abbrev Distinct : List A → Type ℓ
  Distinct [] = Unit {ℓ}
  Distinct (x ∷ xs) = All (λ y. y ≢ x) xs × Distinct xs

  Distinct-append :
      (xs ys : List A)
      → Distinct xs
      → Distinct ys
      → All (λ x. All (λ y. y ≢ x) ys) xs
      → Distinct (xs ++ ys)
  Distinct-append [] ys h k d = k
  Distinct-append (x ∷ xs) ys (n, h) k (m, d) =
      (All-append _ xs ys n m, Distinct-append xs ys h k d)

abbrev pub Ascending : ℕ → ℕ → List ℕ → Type 0
Ascending start limit [] = Unit
Ascending start limit (x ∷ xs) = (start ≤ x) × (x < limit) × Ascending (suc x) limit xs

-- Every ascending selection of the numbers is one of the combinations.
pub combinations_complete :
    (start total : ℕ) (c : List ℕ)
    → Ascending start (start + total) c
    → (i : ℕ) × (get_elem? (combinations start total (length c)) i ≡ some c)
combinations_complete start total [] h = (0, refl)
combinations_complete start zero (x ∷ xs) h = absurd (omega arith)
combinations_complete start (suc total) (x ∷ xs) (a, b, h) =
    let shift : start + suc total ≡ suc start + total = omega arith in
    let first = map (λ c. start ∷ c) (combinations (suc start) total (length xs)) in
    elim (ℕ_discrete x start) [
      | yes e ↦
          let (i, g) = combinations_complete (suc start) total xs (rw (shift, e) at h) in
          (
            i,
            get_elem?-append_left first _ i
                  (get_elem?-map (λ c. start ∷ c) (combinations (suc start) total (length xs)) i g)
                ∙ ap (λ (y : ℕ). some (y ∷ xs)) (sym e),
          )
      | no e ↦
          let (i, g) =
            combinations_complete (suc start) total (x ∷ xs)
              (omega arith, omega arith, rw shift at h) in
          let without = combinations (suc start) total (suc (length xs)) in
          (length first + i, get_elem?-append_right first without i ∙ g)
    ]

pub slice_eq_refl : (c : List ℕ) → slice_eq c c ≡ true
slice_eq_refl [] = refl
slice_eq_refl (x ∷ xs) = ground (arith, slice_eq_refl xs)

pub slice_eq-true : (c d : List ℕ) → slice_eq c d ≡ true → c ≡ d
slice_eq-true [] [] h = refl
slice_eq-true [] (y ∷ ys) h = cc
slice_eq-true (x ∷ xs) [] h = cc
slice_eq-true (x ∷ xs) (y ∷ ys) h = ground (arith, slice_eq-true xs ys)

All-trivial {ℓ} : {A : Type ℓ} (xs : List A) → All (λ _. Unit {0}) xs
All-trivial [] = tt
All-trivial (x ∷ xs) = (tt, All-trivial xs)

Distinct-map : (x : ℕ) (l : List (List ℕ)) → Distinct l → Distinct (map (λ c. x ∷ c) l)
Distinct-map x [] d = tt
Distinct-map x (c ∷ cs) (n, d) =
    (All-map _ _ (λ c. x ∷ c) (λ b ne e. ne (cc)) cs n, Distinct-map x cs d)

other_head :
    (start limit count : ℕ) (b : List ℕ)
    → Fits (suc start) limit (suc count) b
    → (c : List ℕ) → b ≢ start ∷ c
other_head start limit count [] f c e = omega arith
other_head start limit count (y ∷ ys) f c e = ground arith

pub combinations-Distinct : (start total count : ℕ) → Distinct (combinations start total count)
combinations-Distinct start total zero = (tt, tt)
combinations-Distinct start zero (suc count) = tt
combinations-Distinct start (suc total) (suc count) =
    let without = combinations (suc start) total (suc count) in
    let fits = combinations-Fits (suc start) total (suc count) in
    Distinct-append (map (λ c. start ∷ c) (combinations (suc start) total count)) without
      (Distinct-map start (combinations (suc start) total count)
        (combinations-Distinct (suc start) total count))
      (combinations-Distinct (suc start) total (suc count))
      (All-map _ (λ _. Unit {0}) (λ c. start ∷ c)
        (λ c _. All-imp _ _ (λ b f. other_head start (suc start + total) count b f c) without fits)
        (combinations (suc start) total count) (All-trivial (combinations (suc start) total count)))

-- The index of the first element that is equal to `c`, from the count `i` on.
abbrev pub index_of : List ℕ → ℕ → List (List ℕ) → Option ℕ
index_of c i [] = none
index_of c i (d ∷ ds) = if slice_eq c d then some i else index_of c (suc i) ds

index_of-get_elem? :
    (c : List ℕ) (i : ℕ) (list : List (List ℕ)) (j : ℕ)
    → Distinct list
    → get_elem? list j ≡ some c
    → index_of c i list ≡ some (i + j)
index_of-get_elem? c i [] j d h = cc
index_of-get_elem? c i (x ∷ list) zero d h =
    let e : slice_eq c x ≡ true = rw (some-injective _ _ h) (slice_eq_refl c) in
    rw e (ap some (omega arith))
index_of-get_elem? c i (x ∷ list) (suc j) (n, d) h = elim (Bool-cases (slice_eq c x)) [
  | inl e ↦ absurd (All-get_elem? _ list j n h (slice_eq-true c x e))
  | inr e ↦ rw e (index_of-get_elem? c (suc i) list j d h ∙ ap some (omega arith))
]

-- The iterator that gave `c` last finds the index in the rest of its chain.
find_chain :
    (limit count : ℕ) (c : List ℕ) (rest : List (List ℕ)) (fuel i : ℕ) (target : List ℕ)
    → IsChain limit (c ∷ rest)
    → All (Fits 0 limit (suc count)) (c ∷ rest)
    → length rest < fuel
    → find_from fuel i (at limit (suc count) c) target ≡ ok (index_of target i rest)
unfolding find_from
find_chain limit count c rest zero i target h f l = absurd (omega arith)
find_chain limit count c [] (suc fuel) i target h (f, _) l = rw (next_last limit count c f h).1 refl
find_chain limit count c (d ∷ rest) (suc fuel) i target (e, h) (f, fs) l =
    rw (next-successor limit count c d f e) (elim (Bool-cases (slice_eq target d)) [
      | inl same ↦ rw same refl
      | inr other ↦ rw other (find_chain limit count d rest fuel (suc i) target h fs (omega arith))
    ])

-- For at least one selected element, and no more than there are, with fuel for one round more than
-- there are combinations, the index that is found for a combination is its index in the reference, and a list that is none of them has no index.
pub get_index_for_combination_lem :
    (nb_elements nb_selected fuel : ℕ) (target : List ℕ)
    → 0 < nb_selected
    → nb_selected ≤ nb_elements
    → choose nb_elements nb_selected < fuel
    → (combinations_new nb_elements nb_selected >>= λ it. get_index_for_combination fuel it target)
      ≡ ok (index_of target 0 (combinations 0 nb_elements nb_selected))
unfolding combinations_new get_index_for_combination find_from next
get_index_for_combination_lem n zero fuel target p h f = absurd (omega arith)
get_index_for_combination_lem n (suc k) zero target p h f = absurd (omega arith)
get_index_for_combination_lem n (suc k) (suc fuel) target p h f =
    let (rest, e) = combinations_first 0 n (suc k) h in
    let chain = combinations-IsChain 0 n (suc k) h in
    let fits = combinations-Fits 0 n (suc k) in
    let shift : 0 + n ≡ n = omega arith in
    let count = length-combinations 0 n (suc k) in
    rw (leb-true (suc k) n h, e)
      (elim (Bool-cases (slice_eq target (count_from 0 (suc k)))) [
        | inl same ↦ rw same refl
        | inr other ↦ rw other (
            find_chain n k (count_from 0 (suc k)) rest fuel 1 target (rw (shift, e) at chain)
              (rw (shift, e) at fits) (omega (arith, rw e at count)))
      ])

-- For at least one selected element, and no more than there are, with fuel for one round more than
-- there are combinations, the index that is found for a combination of the reference is its place.
pub get_index_for_combination-get_elem? :
    (nb_elements nb_selected fuel i : ℕ) (c : List ℕ)
    → 0 < nb_selected
    → nb_selected ≤ nb_elements
    → choose nb_elements nb_selected < fuel
    → get_elem? (combinations 0 nb_elements nb_selected) i ≡ some c
    → (combinations_new nb_elements nb_selected >>= λ it. get_index_for_combination fuel it c)
      ≡ ok (some i)
get_index_for_combination-get_elem? n k fuel i c p h f g =
    get_index_for_combination_lem n k fuel c p h f
    ∙ ap ok (
        index_of-get_elem? c 0 (combinations 0 n k) i (combinations-Distinct 0 n k) g
        ∙ ap some (omega arith))
