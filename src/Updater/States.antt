-- ===== src/Updater/States.antt =====
-- What the functions of dlc-manager/src/channel_updater.rs read of a channel and its state.
use rust_dlc.Base.{
  Bool, ℕ, ◌%◌, ◌^◌, Outcome, ok, err, unwrap, ok_or, get_elem?, Option, none, some,
}
use rust_dlc.Dlc.Types.{OutPoint, TxOut, Transaction}
use rust_dlc.Updater.Types.{
  Error, invalid_parameters, invalid_state, SignedChannelState, established, settled_offered,
  settled_received, settled_accepted, settled_confirmed, renew_offered, collaborative_close_offered,
  SignedChannel,
}
use rust_dlc.Updater.Exec.{Exec, ◌>>=◌, ◌>>◌, lift, get_channel, put_channel}
use rust_dlc.Updater.Services.{Services, from_result}

-- `if let Established { .. } = channel.state {} else { return Err(..) }`
abbrev pub expect_established : SignedChannelState → Outcome Error (Unit {0})
expect_established (established _ _ _ _ _ _) = ok tt
expect_established _ = err invalid_state

-- The fields that a state has, as `match` or `get_signed_channel_state!` binds them.
abbrev pub settled_received_fields : SignedChannelState → Outcome Error (ℕ × ℕ × ℕ)
settled_received_fields (settled_received own_payout counter_payout counter_next) =
    ok (own_payout, counter_next, counter_payout)
settled_received_fields _ = err invalid_state

abbrev pub settled_offered_fields : SignedChannelState → Outcome Error (ℕ × ℕ)
settled_offered_fields (settled_offered counter_payout next_per_update_point timeout) =
    ok (counter_payout, next_per_update_point)
settled_offered_fields _ = err invalid_state

pub record SettledAcceptedFields : Type 0 where
  pub own_next_per_update_point : ℕ
  pub counter_next_per_update_point : ℕ
  pub settle_tx : Transaction
  pub own_settle_adaptor_signature : ℕ
  pub own_payout : ℕ
  pub counter_payout : ℕ

abbrev pub settled_accepted_fields : SignedChannelState → Outcome Error SettledAcceptedFields
settled_accepted_fields (settled_accepted counter_next own_next signature tx timeout own counter) =
    ok (record {
      own_next_per_update_point = own_next;
      counter_next_per_update_point = counter_next;
      settle_tx = tx;
      own_settle_adaptor_signature = signature;
      own_payout = own;
      counter_payout = counter;
    })
settled_accepted_fields _ = err invalid_state

pub record SettledConfirmedFields : Type 0 where
  pub settle_tx : Transaction
  pub counter_settle_adaptor_signature : ℕ
  pub counter_next_per_update_point : ℕ
  pub own_next_per_update_point : ℕ
  pub own_settle_adaptor_signature : ℕ
  pub own_payout : ℕ
  pub counter_payout : ℕ

abbrev pub settled_confirmed_fields : SignedChannelState → Outcome Error SettledConfirmedFields
settled_confirmed_fields
      (settled_confirmed tx counter_signature counter_next own_next own_signature timeout own
        counter) =
    ok (record {
      settle_tx = tx;
      counter_settle_adaptor_signature = counter_signature;
      counter_next_per_update_point = counter_next;
      own_next_per_update_point = own_next;
      own_settle_adaptor_signature = own_signature;
      own_payout = own;
      counter_payout = counter;
    })
settled_confirmed_fields _ = err invalid_state

abbrev pub renew_offered_is_offer : SignedChannelState → Outcome Error Bool
renew_offered_is_offer (renew_offered _ _ _ is_offer _) = ok is_offer
renew_offered_is_offer _ = err invalid_state

pub record CloseOfferedFields : Type 0 where
  pub offer_signature : ℕ
  pub close_tx : Transaction
  pub is_offer : Bool

abbrev pub close_offered_fields : SignedChannelState → Outcome Error CloseOfferedFields
close_offered_fields (collaborative_close_offered counter_payout signature tx timeout is_offer) =
    ok (record { offer_signature = signature; close_tx = tx; is_offer = is_offer })
close_offered_fields _ = err invalid_state

-- `signed_channel.roll_back_state.take().expect(..)`, put in the place of the state.
abbrev pub roll_back : Exec (Unit {0})
roll_back = do
  channel ← get_channel
  put_channel (record channel { roll_back_state = none })
  state ← lift (unwrap channel.roll_back_state)
  put_channel (record channel { state = state; roll_back_state = none })

-- `channel.fund_tx.output[channel.fund_output_index]`, which panics out of range.
abbrev pub fund_output : SignedChannel → Outcome Error TxOut
fund_output channel = unwrap (get_elem? channel.fund_tx.output channel.fund_output_index)

module _ (services : Services) where
  open services use {
    build_commitment_secret, secret_key_from_slice, public_key, provide_secret, compute_txid,
    get_secret_key_for_pubkey, unix_time_now, get_unix_time_now,
  }

  abbrev pub signer_key : ℕ → Outcome Error ℕ
  signer_key pk = from_result (get_secret_key_for_pubkey pk)

  -- `own_settle_adaptor_sk`, or the signer's key if it is not given.
  abbrev pub key_or_signer : Option ℕ → ℕ → Outcome Error ℕ
  key_or_signer (some sk) pk = ok sk
  key_or_signer none pk = signer_key pk

  abbrev pub fund_outpoint : SignedChannel → OutPoint
  fund_outpoint channel = record {
    txid = compute_txid channel.fund_tx;
    vout = channel.fund_output_index % 2 ^ 32;
  }

  -- `SecretKey::from_slice(&build_commitment_secret(seed, idx))`
  abbrev pub commitment_secret : ℕ → ℕ → Option ℕ
  commitment_secret seed idx = secret_key_from_slice (build_commitment_secret seed idx)

  -- `counter_party_commitment_secrets.provide_secret(idx, secret)`, which writes nothing where it
  -- fails.
  abbrev pub receive_secret : ℕ → ℕ → Exec (Unit {0})
  receive_secret idx secret = do
    channel ← get_channel
    secrets ← lift (
        ok_or (provide_secret channel.counter_party_commitment_secrets idx secret)
          invalid_parameters)
    put_channel (record channel { counter_party_commitment_secrets = secrets })
