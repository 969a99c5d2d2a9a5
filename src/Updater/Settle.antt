-- ===== src/Updater/Settle.antt =====
-- dlc-manager/src/channel_updater.rs: the messages that offer and accept to settle a channel.
use rust_dlc.Base.{ℕ, ◌/◌, true, false, ltb, not, ok, require, unwrap, ok_or, Option, none, some}
use rust_dlc.Dlc.Types.{add64, sub64}
use rust_dlc.Monitor.{settle_tx2, add_tx}
use rust_dlc.Updater.Types.{
  invalid_state, secp_error, settled_offered, settled_received, settled_accepted, settled_confirmed,
  SettleOffer, SettleAccept, SettleConfirm,
}
use rust_dlc.Updater.Exec.{Exec, ◌>>=◌, ◌>>◌, lift, get_channel, put_channel, modify_monitor}
use rust_dlc.Updater.Services.{Services, unwrap_or, get_settle_tx_and_adaptor_sig}
use rust_dlc.Updater.States.{
  expect_established, settled_received_fields, settled_offered_fields, fund_output, signer_key,
  key_or_signer, fund_outpoint, commitment_secret,
}

unfoldable pub on_settle_offer : SettleOffer → Exec (Unit {0})
on_settle_offer settle_offer = do
  channel ← get_channel
  lift (expect_established channel.state)
  let total_collateral = add64 channel.own_params.collateral channel.counter_params.collateral
  lift (require (not (ltb total_collateral settle_offer.counter_payout)) invalid_state)
  let new_state =
      settled_received settle_offer.counter_payout
        (sub64 total_collateral settle_offer.counter_payout) settle_offer.next_per_update_point
  put_channel (record channel {
    state = new_state;
    roll_back_state = some channel.state;
    reference_id = settle_offer.reference_id;
  })

module _ (services : Services) where
  open services use {
    build_commitment_secret, secret_key_from_slice, public_key, provide_secret, compute_txid,
    get_secret_key_for_pubkey, unix_time_now, get_unix_time_now,
  }

  unfoldable pub settle_channel_offer : ℕ → ℕ → Option ℕ → Exec SettleOffer
  settle_channel_offer counter_payout peer_timeout reference_id = do
    channel ← get_channel
    lift (expect_established channel.state)
    per_update_seed ← lift (signer_key services channel.own_per_update_seed)
    per_update_secret ←
        lift (unwrap (commitment_secret services per_update_seed (sub64 channel.update_idx 1)))
    let next_per_update_point = public_key per_update_secret
    let state =
        settled_offered counter_payout next_per_update_point (add64 unix_time_now peer_timeout)
    put_channel (record channel {
      state = state;
      roll_back_state = some channel.state;
      reference_id = reference_id;
    })
    lift (
        ok (record {
          channel_id = channel.channel_id;
          counter_payout = counter_payout;
          next_per_update_point = next_per_update_point;
          timestamp = get_unix_time_now;
          reference_id = reference_id;
        }))

  unfoldable pub settle_channel_accept_internal : ℕ → ℕ → ℕ → Option ℕ → Exec SettleAccept
  unfolding get_settle_tx_and_adaptor_sig
  settle_channel_accept_internal csv_timelock lock_time peer_timeout own_settle_adaptor_sk = do
    channel ← get_channel
    (own_payout, counter_next_per_update_point, counter_payout) ←
        lift (settled_received_fields channel.state)
    per_update_seed ← lift (signer_key services channel.own_per_update_seed)
    per_update_secret ←
        lift (unwrap (commitment_secret services per_update_seed (sub64 channel.update_idx 1)))
    let own_next_per_update_point = public_key per_update_secret
    let total_collateral = add64 channel.counter_params.collateral channel.own_params.collateral
    let fee_remainder : ℕ = 0
    let final_offer_payout = add64 (sub64 total_collateral own_payout) (fee_remainder / 2)
    let final_accept_payout = add64 own_payout (fee_remainder / 2)
    own_adaptor_sk ←
        lift (key_or_signer services own_settle_adaptor_sk channel.own_params.fund_pubkey)
    output ← lift (fund_output channel)
    (settle_tx, settle_adaptor_signature) ← lift (
        get_settle_tx_and_adaptor_sig services own_next_per_update_point
          (fund_outpoint services channel) output.value channel.fund_script_pubkey own_adaptor_sk
          channel.counter_points channel.own_points counter_next_per_update_point final_offer_payout
          final_accept_payout csv_timelock lock_time none channel.fee_rate_per_vb)
    modify_monitor (
        add_tx (compute_txid settle_tx)
          (record { channel_id = channel.channel_id; tx_type = settle_tx2 false }))
    put_channel (record channel {
      state =
          settled_accepted counter_next_per_update_point own_next_per_update_point
            settle_adaptor_signature settle_tx (add64 unix_time_now peer_timeout) own_payout
            counter_payout;
    })
    lift (
        ok (record {
          channel_id = channel.channel_id;
          next_per_update_point = own_next_per_update_point;
          settle_adaptor_signature = settle_adaptor_signature;
          reference_id = channel.reference_id;
        }))

  unfoldable pub settle_channel_accept : ℕ → ℕ → ℕ → Exec SettleAccept
  unfolding settle_channel_accept_internal
  settle_channel_accept csv_timelock lock_time peer_timeout =
      settle_channel_accept_internal csv_timelock lock_time peer_timeout none

  unfoldable pub settle_channel_confirm_internal :
      SettleAccept → ℕ → ℕ → ℕ → Option ℕ → Option ℕ → Exec SettleConfirm
  unfolding get_settle_tx_and_adaptor_sig
  settle_channel_confirm_internal accept csv_timelock lock_time peer_timeout own_settle_adaptor_sk
        counter_settle_adaptor_pk =
      do
        channel ← get_channel
        (counter_payout, next_per_update_point) ← lift (settled_offered_fields channel.state)
        let total_collateral = add64 channel.counter_params.collateral channel.own_params.collateral
        let fee_remainder : ℕ = 0
        let final_offer_payout = add64 (sub64 total_collateral counter_payout) (fee_remainder / 2)
        let final_accept_payout = add64 counter_payout (fee_remainder / 2)
        own_settle_adaptor_sk ←
            lift (key_or_signer services own_settle_adaptor_sk channel.own_params.fund_pubkey)
        let counter_settle_adaptor_pk =
            unwrap_or counter_settle_adaptor_pk channel.counter_params.fund_pubkey
        output ← lift (fund_output channel)
        (settle_tx, settle_adaptor_signature) ← lift (
            get_settle_tx_and_adaptor_sig services next_per_update_point
              (fund_outpoint services channel) output.value channel.fund_script_pubkey
              own_settle_adaptor_sk channel.own_points channel.counter_points
              accept.next_per_update_point final_offer_payout final_accept_payout csv_timelock
              lock_time (some (accept.settle_adaptor_signature, counter_settle_adaptor_pk))
              channel.fee_rate_per_vb)
        modify_monitor (
            add_tx (compute_txid settle_tx)
              (record { channel_id = channel.channel_id; tx_type = settle_tx2 true }))
        per_update_seed ← lift (signer_key services channel.own_per_update_seed)
        prev_per_update_secret ←
            lift (ok_or (commitment_secret services per_update_seed channel.update_idx) secp_error)
        put_channel (record channel {
          state =
              settled_confirmed settle_tx accept.settle_adaptor_signature
                accept.next_per_update_point next_per_update_point settle_adaptor_signature
                (add64 unix_time_now peer_timeout) final_offer_payout final_accept_payout;
        })
        lift (
            ok (record {
              channel_id = channel.channel_id;
              prev_per_update_secret = prev_per_update_secret;
              settle_adaptor_signature = settle_adaptor_signature;
              reference_id = channel.reference_id;
            }))

  unfoldable pub settle_channel_confirm : SettleAccept → ℕ → ℕ → ℕ → Exec SettleConfirm
  unfolding settle_channel_confirm_internal
  settle_channel_confirm accept csv_timelock lock_time peer_timeout =
      settle_channel_confirm_internal accept csv_timelock lock_time peer_timeout none none
