-- ===== src/Contracts/Answer.antt =====
-- What the answer to the outcomes of the oracles is made of.
use rust_dlc.Base.{
  ℕ, suc, zero, ◌+◌, ◌*◌, ◌≤◌, ◌<◌, ◌≡◌, refl, ap, ap₂, ◌∙◌, ltb, ◌==◌, true, false, Bool-cases,
  ◌⊎◌, inl, inr, Outcome, ok, ◌>>=◌, unwrap, unwrap-some, Option, none, some, List, [], ◌∷◌, map,
  length, take, get_elem?, arith, >>=-eq-ok,
}
use mathlib.Core.Option.{some-injective}
use rust_dlc.Combinations.{slice_eq}
use rust_dlc.Combinations.Reference.{combinations}
use rust_dlc.Combinations.Enumeration.{choose, collect-combinations}
use rust_dlc.Combinations.Index.{slice_eq-true, slice_eq_refl}
use rust_dlc.Contracts.Types.{
  Error, EnumDescriptor, EnumerationPayout, RangeInfo, all_combinations, from_loop,
}
use rust_dlc.Contracts.Majority.{Entry, HashOrder, get_majority_combination}
use rust_dlc.Contracts.Groups.{Attested}
use rust_dlc.Contracts.Enum.{
  single_outcomes, position_from, locate, range_info_of, get_range_info_for_outcome,
}

pub all_combinations_lem :
    (n k : ℕ) → 0 < k → k ≤ n → all_combinations n k ≡ ok (combinations 0 n k)
unfolding all_combinations
all_combinations_lem n k p h =
    ap from_loop (collect-combinations n k (suc (choose n k)) p h (omega arith))

-- The place that the loop finds for a combination holds the combination, if any place does.
pub locate_found :
    (actual : List ℕ) (all : List (List ℕ)) (i pos : ℕ) (cs : List (List ℕ))
    → ((j : ℕ) → get_elem? all (i + j) ≡ get_elem? cs j)
    → (get_elem? all pos ≡ some actual) ⊎ ((p : ℕ) × (get_elem? cs p ≡ some actual))
    → get_elem? all (locate actual i pos cs) ≡ some actual
locate_found actual all i pos [] s (inl h) = h
locate_found actual all i pos [] s (inr (p, h)) = cc
locate_found actual all i pos (c ∷ cs) s h = elim (Bool-cases (slice_eq c actual)) [
  | inl e ↦ rw e (
      locate_found actual all (suc i) i cs (λ j. ap (get_elem? all) (omega arith) ∙ s (suc j))
        (inl (ap (get_elem? all) (omega arith) ∙ s 0 ∙ ap some (slice_eq-true c actual e))))
  | inr e ↦ rw e (
      locate_found actual all (suc i) pos cs (λ j. ap (get_elem? all) (omega arith) ∙ s (suc j))
        (later c cs e h))
]
  where
    later :
        (c : List ℕ) (cs : List (List ℕ))
        → slice_eq c actual ≡ false
        → (get_elem? all pos ≡ some actual) ⊎ ((p : ℕ) × (get_elem? (c ∷ cs) p ≡ some actual))
        → (get_elem? all pos ≡ some actual) ⊎ ((p : ℕ) × (get_elem? cs p ≡ some actual))
    later c cs e (inl h) = inl h
    later c cs e (inr (zero, h)) =
        absurd (cc (slice_eq_refl actual, ap (λ d. slice_eq d actual) (some-injective _ _ h)))
    later c cs e (inr (suc p, h)) = inr (p, h)

pub position_found :
    (i outcome : ℕ) (payouts : List EnumerationPayout) (pos : ℕ)
    → position_from i outcome payouts ≡ some pos
    → (j : ℕ) × (x : EnumerationPayout) × (pos ≡ i + j)
      × (get_elem? payouts j ≡ some x)
      × (x.outcome ≡ outcome)
position_found i outcome [] pos h = cc
position_found i outcome (x ∷ payouts) pos h = elim (Bool-cases (x.outcome == outcome)) [
  | inl e ↦ (0, x, ground arith, refl, ground arith)
  | inr e ↦
      let (j, y, p, g, o) = position_found (suc i) outcome payouts pos (rw e at h) in
      (suc j, y, omega arith, g, o)
]

-- What is read from an answer, by the steps that gave it.
pub range_info_found :
    (descriptor : EnumDescriptor) (n k start outcome : ℕ) (indexes : List ℕ)
    {combination : List (ℕ × ℕ)} {info : RangeInfo}
    → 0 < k
    → k ≤ n
    → range_info_of descriptor n k start outcome indexes ≡ ok (some (combination, info))
    → (k ≤ length indexes)
      × (position_from 0 outcome descriptor.outcome_payouts ≡ some info.cet_index)
      × (combination ≡ map (λ x. (x, 1)) (take k indexes))
      × (info.adaptor_index
          ≡ length (combinations 0 n k) * info.cet_index
            + locate (take k indexes) 0 0 (combinations 0 n k)
            + start)
unfolding range_info_of
range_info_found descriptor n k start outcome indexes p h g =
    ground (arith, all_combinations_lem n k)

pub answer_found :
    (order : HashOrder) (descriptor : EnumDescriptor) (n k : ℕ) (outcomes : List (ℕ × List ℕ))
    (start : ℕ) {answer : List (ℕ × ℕ) × RangeInfo}
    → get_range_info_for_outcome order descriptor n k outcomes start ≡ ok (some answer)
    → (e : Entry) × (outcome : ℕ) × (get_majority_combination order (single_outcomes outcomes)
        ≡ ok (some e))
      × (get_elem? e.0 0 ≡ some outcome)
      × (range_info_of descriptor n k start outcome e.1 ≡ ok (some answer))
unfolding get_range_info_for_outcome
answer_found order descriptor n k outcomes start {answer} h =
    elim (Bool-cases (ltb (length outcomes) k)) [
      | inl e ↦ absurd (cc (rw e at h))
      | inr e ↦
          let (majority, g, r) =
            >>=-eq-ok (get_majority_combination order (single_outcomes outcomes)) _ (rw e at h) in
          from majority g r
    ]
  where
    from :
        (majority : Option Entry)
        → get_majority_combination order (single_outcomes outcomes) ≡ ok majority
        → ◌≡◌ {A = Outcome Error (Option (List (ℕ × ℕ) × RangeInfo))}
            (elim majority [
              | none ↦ ok none
              | some (value, indexes) ↦ do
                outcome ← unwrap (get_elem? value 0)
                range_info_of descriptor n k start outcome indexes
            ])
            (ok (some answer))
        → (e : Entry) × (outcome : ℕ) × (get_majority_combination order (single_outcomes outcomes)
            ≡ ok (some e))
          × (get_elem? e.0 0 ≡ some outcome)
          × (range_info_of descriptor n k start outcome e.1 ≡ ok (some answer))
    from none g r = cc
    from (some e) g r =
        let (outcome, t, u) = >>=-eq-ok (unwrap (get_elem? e.0 0)) _ r in
        (e, outcome, g, unwrap-some _ t, u)

only :
    (w : List ℕ) (outcome : ℕ)
    → (length w == 1) ≡ true
    → get_elem? w 0 ≡ some outcome
    → w ≡ outcome ∷ []
only [] outcome e q = cc
only (x ∷ []) outcome e q = ap (λ (y : ℕ). y ∷ []) (some-injective _ _ q)
only (x ∷ y ∷ w) outcome e q = absurd (ground arith)

-- An attestation of one value among the outcomes is one among all of them.
pub single_found :
    (outcomes : List (ℕ × List ℕ)) (i outcome : ℕ) (v : List ℕ)
    → get_elem? v 0 ≡ some outcome
    → Attested (single_outcomes outcomes) i v
    → Attested outcomes i (outcome ∷ [])
single_found [] i outcome v g (j, h) = cc
single_found ((k, w) ∷ outcomes) i outcome v g (zero, h) = elim (Bool-cases (length w == 1)) [
  | inl e ↦
      let q = some-injective _ _ (rw e at h) in
      let one = only w outcome e (ap (λ l. get_elem? l 0) (ap (λ o. o.1) q) ∙ g) in
      (0, ap₂ (λ (a : ℕ) l. some (a, l)) (ap (λ o. o.0) q) one)
  | inr e ↦ let (m, q) = single_found outcomes i outcome v g (0, rw e at h) in (suc m, q)
]
single_found ((k, w) ∷ outcomes) i outcome v g (suc j, h) = elim (Bool-cases (length w == 1)) [
  | inl e ↦ let (m, q) = single_found outcomes i outcome v g (j, rw e at h) in (suc m, q)
  | inr e ↦ let (m, q) = single_found outcomes i outcome v g (suc j, rw e at h) in (suc m, q)
]
