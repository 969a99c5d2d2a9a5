-- ===== src/Updater/Renew.antt =====
-- dlc-manager/src/channel_updater.rs: the end of a renewal, when both parties have signed the new
-- contract.
use rust_dlc.Base.{
  ℕ, true, ◌==◌, Outcome, ok, err, require, unwrap, ok_or, get_elem?, Option, none, if◌then◌else◌,
}
use rust_dlc.Dlc.Types.{Transaction, TxOut, sub64}
use rust_dlc.Updater.Types.{
  Error, invalid_parameters, invalid_state, secp_error, SignedChannelState, SignedChannel,
  established, renew_confirmed, renew_finalized, RenewFinalize, RenewRevoke,
}
use rust_dlc.Updater.Exec.{Exec, ◌>>=◌, ◌>>◌, lift, get_channel, put_channel}
use rust_dlc.Updater.Services.{
  Services, from_dlc, unwrap_or, is_some, get_revokable_params, verify_tx_adaptor_signature,
}
use rust_dlc.Updater.States.{fund_output, signer_key, commitment_secret, receive_secret}

pub record RenewConfirmedFields : Type 0 where
  pub contract_id : ℕ
  pub total_collateral : ℕ
  pub offer_per_update_point : ℕ
  pub accept_per_update_point : ℕ
  pub offer_buffer_adaptor_signature : ℕ
  pub buffer_transaction : Transaction

abbrev pub renew_confirmed_fields : SignedChannelState → Outcome Error RenewConfirmedFields
renew_confirmed_fields
      (renew_confirmed id offer_point accept_point tx script signature timeout own total) =
    ok (record {
      contract_id = id;
      total_collateral = total;
      offer_per_update_point = offer_point;
      accept_per_update_point = accept_point;
      offer_buffer_adaptor_signature = signature;
      buffer_transaction = tx;
    })
renew_confirmed_fields _ = err invalid_state

pub record RenewFinalizedFields : Type 0 where
  pub contract_id : ℕ
  pub total_collateral : ℕ
  pub prev_offer_per_update_point : ℕ
  pub offer_buffer_adaptor_signature : ℕ
  pub accept_buffer_adaptor_signature : ℕ
  pub buffer_transaction : Transaction

abbrev pub renew_finalized_fields : SignedChannelState → Outcome Error RenewFinalizedFields
renew_finalized_fields
      (renew_finalized id prev_offer_point tx script offer_signature accept_signature timeout own
        total) =
    ok (record {
      contract_id = id;
      total_collateral = total;
      prev_offer_per_update_point = prev_offer_point;
      offer_buffer_adaptor_signature = offer_signature;
      accept_buffer_adaptor_signature = accept_signature;
      buffer_transaction = tx;
    })
renew_finalized_fields _ = err invalid_state

-- The output of the fund transaction that the buffer transaction spends.
abbrev pub buffer_input : SignedChannel → Outcome Error TxOut
buffer_input channel =
    if is_some channel.sub_channel_id
    then unwrap (get_elem? channel.fund_tx.output 1)
    else fund_output channel

module _ (services : Services) where
  open services use {public_key}

  unfoldable pub renew_channel_on_finalize : RenewFinalize → Option ℕ → Exec RenewRevoke
  unfolding get_revokable_params verify_tx_adaptor_signature
  renew_channel_on_finalize renew_finalize counter_buffer_own_pk = do
    channel ← get_channel
    fields ← lift (renew_confirmed_fields channel.state)
    let offer_revoke_params =
        get_revokable_params services channel.own_points channel.counter_points.revocation_basepoint
          fields.offer_per_update_point
    output ← lift (buffer_input channel)
    let counter_buffer_own_pk = unwrap_or counter_buffer_own_pk channel.counter_params.fund_pubkey
    lift (
        from_dlc (
          verify_tx_adaptor_signature services fields.buffer_transaction output.value
            channel.fund_script_pubkey counter_buffer_own_pk offer_revoke_params.publish_pk
            renew_finalize.buffer_adaptor_signature))
    let state =
        established fields.contract_id renew_finalize.buffer_adaptor_signature
          fields.offer_buffer_adaptor_signature fields.buffer_transaction true
          fields.total_collateral
    lift (
        require (public_key renew_finalize.per_update_secret == channel.counter_per_update_point)
          invalid_parameters)
    receive_secret services channel.update_idx renew_finalize.per_update_secret
    per_update_seed ← lift (signer_key services channel.own_per_update_seed)
    prev_per_update_secret ←
        lift (ok_or (commitment_secret services per_update_seed channel.update_idx) secp_error)
    channel ← get_channel
    put_channel (record channel {
      own_per_update_point = fields.offer_per_update_point;
      counter_per_update_point = fields.accept_per_update_point;
      state = state;
      roll_back_state = none;
      update_idx = sub64 channel.update_idx 1;
    })
    lift (
        ok (record {
          channel_id = channel.channel_id;
          per_update_secret = prev_per_update_secret;
          reference_id = channel.reference_id;
        }))

  unfoldable pub renew_channel_on_revoke : RenewRevoke → Exec (Unit {0})
  renew_channel_on_revoke renew_revoke = do
    channel ← get_channel
    fields ← lift (renew_finalized_fields channel.state)
    lift (
        require (public_key renew_revoke.per_update_secret == fields.prev_offer_per_update_point)
          invalid_parameters)
    receive_secret services channel.update_idx renew_revoke.per_update_secret
    channel ← get_channel
    put_channel (record channel {
      update_idx = sub64 channel.update_idx 1;
      state =
          established fields.contract_id fields.offer_buffer_adaptor_signature
            fields.accept_buffer_adaptor_signature fields.buffer_transaction true
            fields.total_collateral;
    })
