-- ===== src/Contracts/Matching.antt =====
-- The adaptor signature that is found for what the oracles attested is the one that was made for it.
use rust_dlc.Base.{
  ℕ, ◌+◌, ◌*◌, ◌≤◌, ◌<◌, ◌≡◌, sym, ap, ◌∙◌, inr, ok, some, List, [], ◌∷◌, ◌++◌, map, length,
  length-take, take, All, All-imp, All-take, get_elem?, get_elem?-map, get_elem?-append_left,
  get_elem?-append_right, arith,
}
use mathlib.Core.Path.{subst}
use rust_dlc.Combinations.Reference.{combinations}
use rust_dlc.Combinations.Index.{Ascending, combinations_complete}
use rust_dlc.Dlc.Types.{Script, Transaction}
use rust_dlc.Contracts.Types.{EnumDescriptor, EnumerationPayout, OracleInfo, RangeInfo}
use rust_dlc.Contracts.Points.{OracleCurve}
use rust_dlc.Contracts.Majority.{HashOrder}
use rust_dlc.Contracts.Groups.{
  Attested, majority-IsGroup, indexes_of, single_outcomes-Ascending, Ascending-take,
}
use rust_dlc.Contracts.Enum.{
  single_outcomes, locate, get_range_info_for_outcome, outcome_messages, get_adaptor_signatures,
}
use rust_dlc.Contracts.Sequence.{places-get_elem?, at_place, map_results-get_elem?}
use rust_dlc.Contracts.Signatures.{sign_cet, get_adaptor_signatures-places}
use rust_dlc.Contracts.Answer.{
  all_combinations_lem, locate_found, position_found, range_info_found, answer_found, single_found,
}

module _ (curve : OracleCurve) (order : HashOrder) (oracle_infos : List OracleInfo)
    (cets : List Transaction) (sk : ℕ) (spk : Script) (value : ℕ) where
  -- The signature for an outcome and a combination stands behind those for earlier outcomes.
  signature_at :
      (descriptor : EnumDescriptor) (threshold : ℕ) (made : List ℕ)
      → 0 < threshold
      → threshold ≤ length oracle_infos
      → get_adaptor_signatures curve descriptor oracle_infos threshold cets sk spk value ≡ ok made
      → (i place : ℕ) (x : EnumerationPayout) (selector : List ℕ)
      → get_elem? descriptor.outcome_payouts i ≡ some x
      → get_elem? (combinations 0 (length oracle_infos) threshold) place ≡ some selector
      → (sig : ℕ) × (get_elem? made
            (length (combinations 0 (length oracle_infos) threshold) * i + place)
          ≡ some sig)
        × (at_place curve oracle_infos
              (sign_cet curve oracle_infos cets sk spk value)
              (i, outcome_messages curve threshold x, selector)
            ≡ ok sig)
  signature_at descriptor threshold made p h s i place x selector g c =
      let n = length oracle_infos in
      let all = combinations 0 n threshold in
      let messages = map (outcome_messages curve threshold) descriptor.outcome_payouts in
      let sign = at_place curve oracle_infos (sign_cet curve oracle_infos cets sk spk value) in
      let all_made = rw (all_combinations_lem n threshold p h) at (
        sym
          (get_adaptor_signatures-places curve oracle_infos cets sk spk value descriptor threshold)
        ∙ s) in
      let at_index =
        places-get_elem? 0 messages all i place
          (get_elem?-map (outcome_messages curve threshold) descriptor.outcome_payouts i g) c in
      let (sig, here, signed) = map_results-get_elem? sign _ _ _ made all_made at_index in
      (
        sig,
        here,
        subst (λ k. sign (k, outcome_messages curve threshold x, selector) ≡ ok sig) (omega arith)
            signed,
      )

  -- For oracles that are given in ascending order, the adaptor signature at the index that is found
  -- stands at the place of the outcome that they attested, and was made for them.
  pub get_range_info_for_outcome-get_adaptor_signatures :
      (descriptor : EnumDescriptor) (threshold : ℕ) (outcomes : List (ℕ × List ℕ))
      (pre made post : List ℕ) (combination : List (ℕ × ℕ)) (info : RangeInfo)
      → 0 < threshold
      → threshold ≤ length oracle_infos
      → Ascending 0 (length oracle_infos) (indexes_of outcomes)
      → get_adaptor_signatures curve descriptor oracle_infos threshold cets sk spk value ≡ ok made
      → get_range_info_for_outcome order descriptor
          (length oracle_infos)
          threshold
          outcomes
          (length pre)
        ≡ ok (some (combination, info))
      → (x : EnumerationPayout) × (selector : List ℕ) × (sig : ℕ) × (get_elem?
            descriptor.outcome_payouts info.cet_index
          ≡ some x)
        × (combination ≡ map (λ i. (i, 1)) selector)
        × (length selector ≡ threshold)
        × All (λ i. Attested outcomes i (x.outcome ∷ [])) selector
        × (get_elem? (pre ++ (made ++ post)) info.adaptor_index ≡ some sig)
        × (at_place curve oracle_infos
              (sign_cet curve oracle_infos cets sk spk value)
              (info.cet_index, outcome_messages curve threshold x, selector)
            ≡ ok sig)
  get_range_info_for_outcome-get_adaptor_signatures descriptor threshold outcomes pre made post
        combination info p h a s g =
      let n = length oracle_infos in
      let (e, outcome, m, v, r) =
        answer_found order descriptor n threshold outcomes (length pre) g in
      let (l, pos, c, index) =
        range_info_found descriptor n threshold (length pre) outcome e.1 p h r in
      let (asc, att) =
        majority-IsGroup order (single_outcomes outcomes) n e
          (single_outcomes-Ascending 0 n outcomes a) m in
      let (j, x, q, payout, same) =
        position_found 0 outcome descriptor.outcome_payouts info.cet_index pos in
      let selector = take threshold e.1 in
      let len : length selector ≡ threshold = omega (arith, length-take {0} threshold e.1) in
      let all = combinations 0 n threshold in
      let payout_at : get_elem? descriptor.outcome_payouts info.cet_index ≡ some x =
        ap (get_elem? descriptor.outcome_payouts) (omega arith) ∙ payout in
      let (place, found) = combinations_complete 0 n selector (
        subst (λ m. Ascending 0 m selector) (omega arith) (Ascending-take 0 n threshold e.1 asc)) in
      let located =
        locate_found selector all 0 0 all (λ j. ap (get_elem? all) (omega arith))
          (inr
            (place, subst (λ t. get_elem? (combinations 0 n t) place ≡ some selector) len found)) in
      let attested =
        All-imp _ _
          (λ i t.
            subst (λ o. Attested outcomes i (o ∷ [])) (sym same)
              (single_found outcomes i outcome e.0 v t))
          selector (All-take _ threshold e.1 att) in
      let (sig, here, signed) =
        signature_at descriptor threshold made p h s info.cet_index (locate selector 0 0 all) x
          selector payout_at located in
      (
        x,
        selector,
        sig,
        payout_at,
        c,
        len,
        attested,
        ap (get_elem? (pre ++ (made ++ post))) (omega (arith, index))
            ∙ get_elem?-append_right pre (made ++ post) _
            ∙ get_elem?-append_left made post _ here,
        signed,
      )
