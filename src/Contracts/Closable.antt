-- ===== src/Contracts/Closable.antt =====
-- How a confirmed contract is closed: get_closable_contract_info of dlc-manager/src/manager.rs, and
-- get_range_info_and_oracle_sigs of dlc-manager/src/utils.rs, for contracts with enumerated outcomes.
-- The adaptor info of such a contract says nothing more.
use rust_dlc.Base.{
  ℕ, suc, leb, ◌==◌, if◌then◌else◌, Outcome, ok, err, ◌>>=◌, Option, none, some, List, [], ◌∷◌, map,
  length, take,
}
use rust_dlc.Contracts.Types.{Error, invalid_state, EnumDescriptor, OracleInfo, RangeInfo}
use rust_dlc.Contracts.Majority.{HashOrder}
use rust_dlc.Contracts.Enum.{get_range_info_for_outcome}

pub record Announcement : Type 0 where
  pub oracle_public_key : ℕ
  pub event_maturity_epoch : ℕ
  pub event_id : ℕ
  pub oracle_nonces : List ℕ

pub record Attestation : Type 0 where
  pub signatures : List ℕ
  pub outcomes : List ℕ

pub record EnumContract : Type 0 where
  pub contract_descriptor : EnumDescriptor
  pub oracle_announcements : List Announcement
  pub threshold : ℕ

-- The case `Enum`; the others hold tries.
pub data AdaptorInfo : Type 0 where
  enum_info : AdaptorInfo

-- The map of the oracles by their keys, and what each of them attests, if it does.
pub record Oracles : Type 0 where
  pub oracle_of : ℕ → Option ℕ
  pub get_attestation : (oracle event_id : ℕ) → Option Attestation

abbrev pub get_oracle_infos : EnumContract → List OracleInfo
get_oracle_infos contract =
    map (λ a. record { public_key = a.oracle_public_key; nonces = a.oracle_nonces })
      contract.oracle_announcements

-- `announcements.iter().filter(..)`, at the time `now`.
abbrev pub matured_at : ℕ → List Announcement → List Announcement
matured_at now [] = []
matured_at now (a ∷ announcements) =
    let rest = matured_at now announcements in
    if leb a.event_maturity_epoch now then a ∷ rest else rest

abbrev pub enumerate_from : {A : Type 0} → ℕ → List A → List (ℕ × A)
enumerate_from i [] = []
enumerate_from i (x ∷ list) = (i, x) ∷ enumerate_from (suc i) list

module _ (oracles : Oracles) where
  open oracles use {oracle_of, get_attestation}

  abbrev pub attestation_of : Announcement → Option Attestation
  attestation_of a = elim (oracle_of a.oracle_public_key) [
    | none ↦ none
    | some oracle ↦ get_attestation oracle a.event_id
  ]

  abbrev pub attestations_of : List (ℕ × Announcement) → List (ℕ × Attestation)
  attestations_of [] = []
  attestations_of ((i, a) ∷ matured) =
      let rest = attestations_of matured in
      elim (attestation_of a) [ none ↦ rest | some attestation ↦ (i, attestation) ∷ rest ]

  unfoldable pub get_closable_contract_info :
      ℕ
      → List EnumContract
      → List AdaptorInfo
      → Option (EnumContract × AdaptorInfo × List (ℕ × Attestation))
  get_closable_contract_info now [] adaptor_infos = none
  get_closable_contract_info now (contract ∷ contracts) [] = none
  get_closable_contract_info now (contract ∷ contracts) (adaptor_info ∷ adaptor_infos) =
      let rest = get_closable_contract_info now contracts adaptor_infos in
      let matured = enumerate_from 0 (matured_at now contract.oracle_announcements) in
      let attestations = attestations_of matured in
      if leb contract.threshold (length matured)
      then if leb contract.threshold (length attestations)
        then some (contract, adaptor_info, attestations)
        else rest
      else rest

abbrev pub outcomes_of : List (ℕ × Attestation) → List (ℕ × List ℕ)
outcomes_of [] = []
outcomes_of ((i, a) ∷ attestations) = (i, a.outcomes) ∷ outcomes_of attestations

-- `sig_infos.iter().find(|x| x.0 == i)`
abbrev pub find_sig_info : ℕ → List (ℕ × ℕ) → Option ℕ
find_sig_info i [] = none
find_sig_info i ((j, n) ∷ sig_infos) =
    let rest = find_sig_info i sig_infos in if j == i then some n else rest

abbrev pub oracle_sigs : List (ℕ × ℕ) → List (ℕ × Attestation) → List (List ℕ)
oracle_sigs sig_infos [] = []
oracle_sigs sig_infos ((i, a) ∷ attestations) =
    let rest = oracle_sigs sig_infos attestations in
    elim (find_sig_info i sig_infos) [ none ↦ rest | some n ↦ take n a.signatures ∷ rest ]

unfoldable pub get_range_info_and_oracle_sigs :
    HashOrder → EnumContract → List (ℕ × Attestation) → Outcome Error (RangeInfo × List (List ℕ))
unfolding get_range_info_for_outcome
get_range_info_and_oracle_sigs order contract attestations = do
  found ←
      get_range_info_for_outcome order contract.contract_descriptor
        (length contract.oracle_announcements) contract.threshold (outcomes_of attestations) 0
  elim found [
    | none ↦ err invalid_state
    | some (sig_infos, range_info) ↦ ok (range_info, oracle_sigs sig_infos attestations)
  ]
