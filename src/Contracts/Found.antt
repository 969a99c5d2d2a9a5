-- ===== src/Contracts/Found.antt =====
-- A contract is closed on the outcome that most oracles attest.
use rust_dlc.Base.{
  ℕ, suc, zero, ◌+◌, ◌≤◌, ◌<◌, ◌≡◌, ◌≢◌, refl, ap, ◌∙◌, ltb, ◌==◌, true, false, Bool-cases, inl,
  inr, ok, map, ◌*◌, some, List, [], ◌∷◌, length, take, get_elem?, arith,
}
use mathlib.Core.Option.{some-injective}
use rust_dlc.Combinations.Reference.{combinations}
use rust_dlc.Combinations.{slice_eq}
use rust_dlc.Combinations.Index.{slice_eq-true}
use rust_dlc.Contracts.Types.{EnumDescriptor, EnumerationPayout, RangeInfo}
use rust_dlc.Contracts.Majority.{HashOrder, get_majority_combination}
use rust_dlc.Contracts.Enum.{
  single_outcomes, locate, position_from, range_info_of, get_range_info_for_outcome,
}
use rust_dlc.Contracts.Answer.{all_combinations_lem, position_found}
use rust_dlc.Contracts.Votes.{votes, get_majority_combination-votes}
use rust_dlc.Contracts.Closable.{
  Attestation, EnumContract, outcomes_of, oracle_sigs, get_range_info_and_oracle_sigs,
}

votes-single_outcomes :
    (w : ℕ) (outcomes : List (ℕ × List ℕ))
    → votes (w ∷ []) (single_outcomes outcomes) ≡ votes (w ∷ []) outcomes
votes-single_outcomes w [] = refl
votes-single_outcomes w ((i, x) ∷ outcomes) =
    let rest = votes-single_outcomes w outcomes in
    elim (Bool-cases (length x == 1)) [
      | inl one ↦ elim (Bool-cases (slice_eq x (w ∷ []))) [
        | inl same ↦ rw (one, same) (ap suc rest)
        | inr other ↦ rw (one, other) rest
      ]
      | inr many ↦ elim (Bool-cases (slice_eq x (w ∷ []))) [
        | inl same ↦ absurd (cc (many, ap (λ u. length u == 1) (slice_eq-true x (w ∷ []) same)))
        | inr other ↦ rw (many, other) rest
      ]
    ]

votes-none :
    (u : List ℕ) (outcomes : List (ℕ × List ℕ))
    → (length u == 1) ≡ false
    → votes u (single_outcomes outcomes) ≡ 0
votes-none u [] h = refl
votes-none u ((i, x) ∷ outcomes) h = elim (Bool-cases (length x == 1)) [
  | inl one ↦ elim (Bool-cases (slice_eq x u)) [
    | inl same ↦ absurd (cc (h, one, ap (λ t. length t == 1) (slice_eq-true x u same)))
    | inr other ↦ rw (one, other) (votes-none u outcomes h)
  ]
  | inr many ↦ rw many (votes-none u outcomes h)
]

-- No list of texts has as many votes as the outcome, once the lists of several are left out.
most_single :
    (v : ℕ) (outcomes : List (ℕ × List ℕ))
    → 0 < votes (v ∷ []) outcomes
    → ((w : ℕ) → w ≢ v → votes (w ∷ []) outcomes < votes (v ∷ []) outcomes)
    → (u : List ℕ) → u ≢ v ∷ []
    → votes u (single_outcomes outcomes) < votes (v ∷ []) (single_outcomes outcomes)
most_single v outcomes voted most [] d =
    omega (arith, voted, votes-none [] outcomes refl, votes-single_outcomes v outcomes)
most_single v outcomes voted most (w ∷ []) d = omega (
  arith,
  most w (λ q. d (ap (λ (k : ℕ). k ∷ []) q)),
  votes-single_outcomes w outcomes,
  votes-single_outcomes v outcomes,
)
most_single v outcomes voted most (w ∷ w' ∷ u) d =
    let many : (length (w ∷ w' ∷ u) == 1) ≡ false = ground arith in
    omega (arith, voted, votes-none (w ∷ w' ∷ u) outcomes many, votes-single_outcomes v outcomes)

votes-length : (u : List ℕ) (outcomes : List (ℕ × List ℕ)) → votes u outcomes ≤ length outcomes
votes-length u [] = omega arith
votes-length u ((i, x) ∷ outcomes) = ground (arith, votes-length u outcomes)

position_of :
    (i outcome j : ℕ) (payouts : List EnumerationPayout) (x : EnumerationPayout)
    → get_elem? payouts j ≡ some x
    → x.outcome ≡ outcome
    → (pos : ℕ) × (position_from i outcome payouts ≡ some pos)
position_of i outcome j [] x h e = cc
position_of i outcome zero (y ∷ payouts) x h e =
    let same : (y.outcome == outcome) ≡ true =
      ground (arith, e, ap (λ (p : EnumerationPayout). p.outcome) (some-injective _ _ h)) in
    (i, rw same refl)
position_of i outcome (suc j) (y ∷ payouts) x h e = elim (Bool-cases (y.outcome == outcome)) [
  | inl same ↦ (i, rw same refl)
  | inr other ↦ let (pos, g) = position_of (suc i) outcome j payouts x h e in (pos, rw other g)
]

get_range_info_for_outcome-votes :
    (order : HashOrder) (descriptor : EnumDescriptor) (nb_oracles threshold v j : ℕ)
    (x : EnumerationPayout) (outcomes : List (ℕ × List ℕ))
    → 0 < threshold
    → threshold ≤ nb_oracles
    → threshold ≤ votes (v ∷ []) outcomes
    → ((w : ℕ) → w ≢ v → votes (w ∷ []) outcomes < votes (v ∷ []) outcomes)
    → get_elem? descriptor.outcome_payouts j ≡ some x
    → x.outcome ≡ v
    → (sig_infos : List (ℕ × ℕ)) × (info : RangeInfo) × (get_range_info_for_outcome order descriptor
          nb_oracles threshold outcomes 0
        ≡ ok (some (sig_infos, info)))
      × (position_from 0 v descriptor.outcome_payouts ≡ some info.cet_index)
unfolding get_range_info_for_outcome range_info_of
get_range_info_for_outcome-votes order descriptor nb_oracles threshold v j x outcomes p n t most g
      e =
    let (pos, found) = position_of 0 v j descriptor.outcome_payouts x g e in
    let single = votes-single_outcomes v outcomes in
    let ((value, indexes), majority, same, longest) =
      get_majority_combination-votes order (single_outcomes outcomes) (v ∷ [])
        (omega (arith, single)) (most_single v outcomes (omega arith) most) in
    let enough : ltb (length outcomes) threshold ≡ false =
      ground (arith, votes-length (v ∷ []) outcomes) in
    let enough' : ltb (length indexes) threshold ≡ false = ground (arith, longest, single) in
    let all = combinations 0 nb_oracles threshold in
    let selector = take threshold indexes in
    let sig_infos = map (λ k. (k, 1)) selector in
    let info : RangeInfo = record {
      cet_index = pos;
      adaptor_index = length all * pos + locate selector 0 0 all + 0;
    } in
    let answered : range_info_of descriptor nb_oracles threshold 0 v indexes
        ≡ ok (some (sig_infos, info)) =
      rw (enough', found, all_combinations_lem nb_oracles threshold p n) refl in
    let named : get_majority_combination order (single_outcomes outcomes)
        ≡ ok (some (v ∷ [], indexes)) =
      majority ∙ ap (λ u. ok (some (u, indexes))) same in
    (sig_infos, info, rw (enough, named) answered, found)

-- For a threshold from 1 to the number of the announcements: when an outcome with a payout is attested
-- at least as often as the threshold, and more often than each other outcome, a range info is returned
-- with signatures, and the payout that it names is for that outcome.
pub get_range_info_and_oracle_sigs-votes :
    (order : HashOrder) (contract : EnumContract) (attestations : List (ℕ × Attestation)) (v j : ℕ)
    (x : EnumerationPayout)
    → 0 < contract.threshold
    → contract.threshold ≤ length contract.oracle_announcements
    → contract.threshold ≤ votes (v ∷ []) (outcomes_of attestations)
    → ((w : ℕ)
        → w ≢ v
        → votes (w ∷ []) (outcomes_of attestations) < votes (v ∷ []) (outcomes_of attestations))
    → get_elem? contract.contract_descriptor.outcome_payouts j ≡ some x
    → x.outcome ≡ v
    → (info : RangeInfo) × (sigs : List (List ℕ)) × (y : EnumerationPayout)
      × (get_range_info_and_oracle_sigs order contract attestations ≡ ok (info, sigs))
      × (get_elem? contract.contract_descriptor.outcome_payouts info.cet_index ≡ some y)
      × (y.outcome ≡ v)
unfolding get_range_info_and_oracle_sigs
get_range_info_and_oracle_sigs-votes order contract attestations v j x p n t most g e =
    let payouts = contract.contract_descriptor.outcome_payouts in
    let (sig_infos, info, found, place) =
      get_range_info_for_outcome-votes order contract.contract_descriptor
        (length contract.oracle_announcements) contract.threshold v j x (outcomes_of attestations) p
        n t most g e in
    let (k, y, at, here, outcome) = position_found 0 v payouts info.cet_index place in
    let named : get_elem? payouts info.cet_index ≡ some y =
      ap (get_elem? payouts) (omega (arith, at)) ∙ here in
    (info, oracle_sigs sig_infos attestations, y, rw found refl, named, outcome)
