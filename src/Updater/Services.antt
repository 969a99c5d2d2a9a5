-- ===== src/Updater/Services.antt =====
-- What the crates secp256k1-zkp, lightning and bitcoin and the traits `Signer` and `Time` do for
-- dlc-manager/src/channel_updater.rs, and the functions that sign and verify with them:
-- dlc-manager/src/channel/party_points.rs, and of dlc/src/channel/mod.rs and dlc/src/util.rs.
use rust_dlc.Base.{
  ℕ, Bool, true, false, ◌⊎◌, inl, inr, Outcome, ok, err, panic, ◌>>=◌, ◌>>◌, require, Option, none,
  some, if◌then◌else◌, List, [], ◌∷◌, ◌++◌,
}
use rust_dlc.Dlc.Types.{Script, Transaction, OutPoint}
use rust_dlc.Dlc.Types as Dlc
use rust_dlc.Dlc.Channel.{RevokeParams, Descriptors, create_settle_transaction}
use rust_dlc.Updater.Types.{Error, dlc_error, PartyBasePoints}

-- `get_secret_key_for_pubkey` is the signer's; `unix_time_now` that of the time passed in, and
-- `get_unix_time_now` that of the clock; `sig_hash` is `get_sig_hash_msg` of input 0.
pub record Services : Type 0 where
  pub descriptors : Descriptors
  pub derive_public_key : (per_update_point base_point : ℕ) → ℕ
  pub derive_public_revocation_key : (per_update_point base_point : ℕ) → ℕ
  pub build_commitment_secret : (seed idx : ℕ) → ℕ
  pub secret_key_from_slice : ℕ → Option ℕ
  pub public_key : ℕ → ℕ
  pub sig_hash : Transaction → Script → ℕ → Dlc.Error ⊎ ℕ
  pub encrypt : (sighash sk encryption_key : ℕ) → ℕ
  pub verify : (adaptor_signature sighash pk encryption_key : ℕ) → Bool
  pub sign : (sighash sk : ℕ) → ℕ
  pub serialize_der : ℕ → Script
  pub key_le : ℕ → ℕ → Bool
  pub provide_secret : (secrets idx secret : ℕ) → Option ℕ
  pub compute_txid : Transaction → ℕ
  pub get_secret_key_for_pubkey : ℕ → Error ⊎ ℕ
  pub unix_time_now : ℕ
  pub get_unix_time_now : ℕ

-- `result?`
abbrev pub from_result : {E A : Type 0} → E ⊎ A → Outcome E A
from_result (inl e) = err e
from_result (inr a) = ok a

-- `result?`, where the error is that of the crate `dlc`.
abbrev pub from_dlc : {A : Type 0} → Outcome Dlc.Error A → Outcome Error A
from_dlc panic = panic
from_dlc (err e) = err (dlc_error e)
from_dlc (ok a) = ok a

-- `option.unwrap_or(otherwise)`
abbrev pub unwrap_or : {A : Type 0} → Option A → A → A
unwrap_or none otherwise = otherwise
unwrap_or (some a) otherwise = a

abbrev pub is_some : {A : Type 0} → Option A → Bool
is_some none = false
is_some (some a) = true

module _ (services : Services) where
  open services use {
    descriptors, derive_public_key, derive_public_revocation_key, sig_hash, encrypt, verify, sign,
    serialize_der, key_le, public_key,
  }

  unfoldable pub get_revokable_params : PartyBasePoints → ℕ → ℕ → RevokeParams
  get_revokable_params points countersignatory_revocation_basepoint per_update_point = record {
    own_pk = derive_public_key per_update_point points.own_basepoint;
    publish_pk = derive_public_key per_update_point points.publish_basepoint;
    revoke_pk = derive_public_revocation_key per_update_point countersignatory_revocation_basepoint;
  }

  unfoldable pub get_tx_adaptor_signature : Transaction → ℕ → Script → ℕ → ℕ → Outcome Dlc.Error ℕ
  get_tx_adaptor_signature tx input_value script_pubkey own_fund_sk other_publish_key = do
    sighash ← from_result (sig_hash tx script_pubkey input_value)
    ok (encrypt sighash own_fund_sk other_publish_key)

  unfoldable pub verify_tx_adaptor_signature :
      Transaction → ℕ → Script → ℕ → ℕ → ℕ → Outcome Dlc.Error (Unit {0})
  verify_tx_adaptor_signature tx input_value script_pubkey other_fund_pk own_publish_key
        adaptor_sig =
      do
        sighash ← from_result (sig_hash tx script_pubkey input_value)
        require (verify adaptor_sig sighash other_fund_pk own_publish_key) Dlc.secp256k1

  unfoldable pub get_raw_sig_for_tx_input : Transaction → Script → ℕ → ℕ → Outcome Dlc.Error ℕ
  get_raw_sig_for_tx_input tx script_pubkey value sk = do
    sighash ← from_result (sig_hash tx script_pubkey value)
    ok (sign sighash sk)

  -- The check of the counter party's signature, on the side of the offer party.
  unfoldable pub verify_counter :
      Option (ℕ × ℕ) → Transaction → ℕ → Script → ℕ → Outcome Error (Unit {0})
  unfolding verify_tx_adaptor_signature
  verify_counter none settle_tx input_value input_spk offer_publish_pk = ok tt
  verify_counter (some (adaptor_sig, fund_pk)) settle_tx input_value input_spk offer_publish_pk =
      from_dlc (
        verify_tx_adaptor_signature settle_tx input_value input_spk fund_pk offer_publish_pk
          adaptor_sig)

  unfoldable pub get_settle_tx_and_adaptor_sig :
      ℕ
      → OutPoint
      → ℕ
      → Script
      → ℕ
      → PartyBasePoints
      → PartyBasePoints
      → ℕ
      → ℕ
      → ℕ
      → ℕ
      → ℕ
      → Option (ℕ × ℕ)
      → ℕ
      → Outcome Error (Transaction × ℕ)
  unfolding get_revokable_params get_tx_adaptor_signature verify_counter
  get_settle_tx_and_adaptor_sig own_next_per_update_point settle_input_outpoint settle_input_value
        settle_input_spk own_adaptor_sk offer_points accept_points counter_per_update_point
        offer_payout accept_payout csv_timelock lock_time counter_adaptor_signature
        fee_rate_per_vb =
      do
        let is_offer = is_some counter_adaptor_signature
        let offer_per_update_point =
            if is_offer then own_next_per_update_point else counter_per_update_point
        let accept_per_update_point =
            if is_offer then counter_per_update_point else own_next_per_update_point
        let offer_revoke_params =
            get_revokable_params offer_points accept_points.revocation_basepoint
              offer_per_update_point
        let accept_revoke_params =
            get_revokable_params accept_points offer_points.revocation_basepoint
              accept_per_update_point
        settle_tx ← from_dlc (
            create_settle_transaction descriptors settle_input_outpoint offer_revoke_params
              accept_revoke_params offer_payout accept_payout csv_timelock lock_time
              settle_input_value fee_rate_per_vb)
        verify_counter counter_adaptor_signature settle_tx settle_input_value settle_input_spk
            offer_revoke_params.publish_pk
        let counter_pk =
            if is_offer then accept_revoke_params.publish_pk else offer_revoke_params.publish_pk
        settle_adaptor_signature ← from_dlc (
            get_tx_adaptor_signature settle_tx settle_input_value settle_input_spk own_adaptor_sk
              counter_pk)
        ok (settle_tx, settle_adaptor_signature)

  -- The signature in DER and the byte of `EcdsaSighashType::All`.
  abbrev pub finalize_sig : ℕ → Script
  finalize_sig signature = serialize_der signature ++ (1 ∷ [])

  -- The witness that is put at the input. Two entries are sorted by their keys.
  unfoldable pub finalize_multi_sig_input_transaction : ℕ × ℕ → ℕ × ℕ → Script → List Script
  finalize_multi_sig_input_transaction (pk, signature) (other_pk, other_signature) script_pubkey =
      let first = finalize_sig signature in
      let second = finalize_sig other_signature in
      if key_le pk other_pk
      then [] ∷ first ∷ second ∷ script_pubkey ∷ []
      else [] ∷ second ∷ first ∷ script_pubkey ∷ []

  unfoldable pub sign_multi_sig_input :
      Transaction → ℕ → ℕ → ℕ → Script → ℕ → Outcome Dlc.Error (List Script)
  unfolding get_raw_sig_for_tx_input finalize_multi_sig_input_transaction
  sign_multi_sig_input transaction other_sig other_pk sk script_pubkey input_value = do
    own_sig ← get_raw_sig_for_tx_input transaction script_pubkey input_value sk
    ok (
        finalize_multi_sig_input_transaction (other_pk, other_sig) (public_key sk, own_sig)
          script_pubkey)
