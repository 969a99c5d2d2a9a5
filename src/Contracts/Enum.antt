-- ===== src/Contracts/Enum.antt =====
-- dlc-manager/src/contract/enum_descriptor.rs. A closure with what it captures is a function on a state.
use rust_dlc.Base.{
  ℕ, suc, ◌+◌, ◌*◌, ltb, ◌==◌, ◌||◌, if◌then◌else◌, Bool, false, Outcome, ok, ◌>>=◌, ◌>>◌, unwrap,
  require, Option, none, some, List, [], ◌∷◌, ◌++◌, map, length, take, replicate, get_elem?,
}
use rust_dlc.Dlc.Types.{Payout, Script, Transaction}
use rust_dlc.Combinations.{slice_eq}
use rust_dlc.Contracts.Types.{
  Error, invalid_parameters, EnumDescriptor, EnumerationPayout, OracleInfo, RangeInfo,
  all_combinations, for_each,
}
use rust_dlc.Contracts.Points.{
  OracleCurve, get_adaptor_point_from_oracle_info, create_cet_adaptor_sig_from_point,
  verify_cet_adaptor_sig_from_point,
}
use rust_dlc.Contracts.Majority.{HashOrder, get_majority_combination, unordered_equal}

unfoldable pub get_payouts : EnumDescriptor → List Payout
get_payouts descriptor = map (λ x. x.payout) descriptor.outcome_payouts

-- The outcomes of the event are given as a list.
unfoldable pub validate_enum : EnumDescriptor → List ℕ → Outcome Error (Unit {0})
unfolding unordered_equal
validate_enum descriptor outcomes =
    require (unordered_equal outcomes (map (λ x. x.outcome) descriptor.outcome_payouts))
      invalid_parameters

-- `outcomes.iter().filter(|x| x.1.len() == 1)`
abbrev pub single_outcomes : List (ℕ × List ℕ) → List (ℕ × List ℕ)
single_outcomes [] = []
single_outcomes (x ∷ outcomes) =
    let rest = single_outcomes outcomes in if length x.1 == 1 then x ∷ rest else rest

-- `outcome_payouts.iter().position(|x| x.outcome == outcome)`
abbrev pub position_from : ℕ → ℕ → List EnumerationPayout → Option ℕ
position_from i outcome [] = none
position_from i outcome (x ∷ payouts) =
    let rest = position_from (suc i) outcome payouts in
    if x.outcome == outcome then some i else rest

-- The loop over the enumerated combinations: the place of the combination, and their count.
abbrev pub locate : List ℕ → ℕ → ℕ → List (List ℕ) → ℕ
locate actual i comb_pos [] = comb_pos
locate actual i comb_pos (c ∷ combinations) =
    locate actual (suc i) (if slice_eq c actual then i else comb_pos) combinations

-- The rest of `get_range_info_for_outcome`, from the outcome of the majority on.
unfoldable pub range_info_of :
    EnumDescriptor → ℕ → ℕ → ℕ → ℕ → List ℕ → Outcome Error (Option (List (ℕ × ℕ) × RangeInfo))
range_info_of descriptor nb_oracles threshold adaptor_sig_start outcome indexes =
    if ltb (length indexes) threshold
    then ok none
    else elim (position_from 0 outcome descriptor.outcome_payouts) [
      | none ↦ ok none
      | some pos ↦ do
        combinations ← all_combinations nb_oracles threshold
        let actual_combination = take threshold indexes
        let comb_pos = locate actual_combination 0 0 combinations
        ok (
            some (
              map (λ x. (x, 1)) actual_combination,
              record {
                cet_index = pos;
                adaptor_index = length combinations * pos + comb_pos + adaptor_sig_start;
              },
            ))
    ]

unfoldable pub get_range_info_for_outcome :
    HashOrder
    → EnumDescriptor
    → ℕ
    → ℕ
    → List (ℕ × List ℕ)
    → ℕ
    → Outcome Error (Option (List (ℕ × ℕ) × RangeInfo))
unfolding get_majority_combination range_info_of
get_range_info_for_outcome order descriptor nb_oracles threshold outcomes adaptor_sig_start =
    if ltb (length outcomes) threshold then ok none else do
      majority ← get_majority_combination order (single_outcomes outcomes)
      elim majority [
        | none ↦ ok none
        | some (value, indexes) ↦ do
          outcome ← unwrap (get_elem? value 0)
          range_info_of descriptor nb_oracles threshold adaptor_sig_start outcome indexes
      ]

abbrev pub contains : List ℕ → ℕ → Bool
contains [] i = false
contains (x ∷ selector) i = x == i || contains selector i

-- The oracles whose index, counted from `i` on, is selected.
abbrev pub selected_infos : List ℕ → ℕ → List OracleInfo → List OracleInfo
selected_infos selector i [] = []
selected_infos selector i (info ∷ infos) =
    let rest = selected_infos selector (suc i) infos in
    if contains selector i then info ∷ rest else rest

module _ (curve : OracleCurve) where
  open curve use {message}

  abbrev pub outcome_messages : ℕ → EnumerationPayout → List (List ℕ)
  outcome_messages threshold x = replicate threshold (message x.outcome ∷ [])

  module _ {S : Type 0} (callback : ℕ → ℕ → S → Outcome Error S) (oracle_infos : List OracleInfo)
      (combinations : List (List ℕ)) where
    -- The loops over the messages of each outcome, from the index `i` on, and the combinations.
    unfoldable pub outcome_loop : ℕ → List (List (List ℕ)) → S → Outcome Error S
    unfolding get_adaptor_point_from_oracle_info
    outcome_loop i [] s = ok s
    outcome_loop i (msgs ∷ messages) s = do
      s' ←
          for_each
            (λ selector s. do
              adaptor_point ←
                  get_adaptor_point_from_oracle_info curve (selected_infos selector 0 oracle_infos)
                    msgs
              callback adaptor_point i s)
            combinations s
      outcome_loop (suc i) messages s'

  unfoldable pub iter_outcomes :
      {S : Type 0}
      → EnumDescriptor
      → List OracleInfo
      → ℕ
      → (ℕ → ℕ → S → Outcome Error S)
      → S
      → Outcome Error S
  unfolding all_combinations outcome_loop
  iter_outcomes descriptor oracle_infos threshold callback s = do
    let messages = map (outcome_messages threshold) descriptor.outcome_payouts
    combinations ← all_combinations (length oracle_infos) threshold
    outcome_loop callback oracle_infos combinations 0 messages s

  unfoldable pub get_adaptor_signatures :
      EnumDescriptor
      → List OracleInfo
      → ℕ
      → List Transaction
      → ℕ
      → Script
      → ℕ
      → Outcome Error (List ℕ)
  unfolding iter_outcomes create_cet_adaptor_sig_from_point
  get_adaptor_signatures descriptor oracle_infos threshold cets fund_privkey funding_script_pubkey
        fund_output_value =
      iter_outcomes descriptor oracle_infos threshold
        (λ adaptor_point cet_index adaptor_sigs. do
          cet ← unwrap (get_elem? cets cet_index)
          sig ←
              create_cet_adaptor_sig_from_point curve cet adaptor_point fund_privkey
                funding_script_pubkey fund_output_value
          ok (adaptor_sigs ++ sig ∷ []))
        []

  unfoldable pub verify_adaptor_info :
      EnumDescriptor
      → List OracleInfo
      → ℕ
      → ℕ
      → Script
      → ℕ
      → List Transaction
      → List ℕ
      → ℕ
      → Outcome Error ℕ
  unfolding iter_outcomes verify_cet_adaptor_sig_from_point
  verify_adaptor_info descriptor oracle_infos threshold fund_pubkey funding_script_pubkey
        fund_output_value cets adaptor_sigs adaptor_sig_start =
      iter_outcomes descriptor oracle_infos threshold
        (λ adaptor_point cet_index adaptor_sig_index. do
          sig ← unwrap (get_elem? adaptor_sigs adaptor_sig_index)
          cet ← unwrap (get_elem? cets cet_index)
          verify_cet_adaptor_sig_from_point curve sig cet adaptor_point fund_pubkey
              funding_script_pubkey fund_output_value
          ok (suc adaptor_sig_index))
        adaptor_sig_start
