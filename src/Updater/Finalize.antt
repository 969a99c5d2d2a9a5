-- ===== src/Updater/Finalize.antt =====
-- dlc-manager/src/channel_updater.rs: the end of a settlement.
use rust_dlc.Base.{ℕ, ◌==◌, ok, require, ok_or, Option, none}
use rust_dlc.Dlc.Types.{sub64}
use rust_dlc.Updater.Types.{invalid_parameters, secp_error, settled, SettleConfirm, SettleFinalize}
use rust_dlc.Updater.Exec.{Exec, ◌>>=◌, ◌>>◌, lift, get_channel, put_channel}
use rust_dlc.Updater.Services.{
  Services, from_dlc, unwrap_or, get_revokable_params, verify_tx_adaptor_signature,
}
use rust_dlc.Updater.States.{
  settled_accepted_fields, settled_confirmed_fields, fund_output, signer_key, commitment_secret,
  receive_secret,
}

module _ (services : Services) where
  open services use {
    build_commitment_secret, secret_key_from_slice, public_key, provide_secret, compute_txid,
    get_secret_key_for_pubkey, unix_time_now, get_unix_time_now,
  }

  unfoldable pub settle_channel_finalize_internal : SettleConfirm → Option ℕ → Exec SettleFinalize
  unfolding get_revokable_params verify_tx_adaptor_signature
  settle_channel_finalize_internal confirm counter_settle_adaptor_pk = do
    channel ← get_channel
    fields ← lift (settled_accepted_fields channel.state)
    per_update_seed ← lift (signer_key services channel.own_per_update_seed)
    let accept_revoke_params =
        get_revokable_params services channel.own_points channel.counter_points.revocation_basepoint
          fields.own_next_per_update_point
    let counter_settle_adaptor_pk =
        unwrap_or counter_settle_adaptor_pk channel.counter_params.fund_pubkey
    output ← lift (fund_output channel)
    lift (
        from_dlc (
          verify_tx_adaptor_signature services fields.settle_tx output.value
            channel.fund_script_pubkey counter_settle_adaptor_pk accept_revoke_params.publish_pk
            confirm.settle_adaptor_signature))
    lift (
        require (public_key confirm.prev_per_update_secret == channel.counter_per_update_point)
          invalid_parameters)
    receive_secret services channel.update_idx confirm.prev_per_update_secret
    prev_per_update_secret ←
        lift (ok_or (commitment_secret services per_update_seed channel.update_idx) secp_error)
    channel ← get_channel
    put_channel (record channel {
      state =
          settled fields.settle_tx confirm.settle_adaptor_signature
            fields.own_settle_adaptor_signature fields.own_payout fields.counter_payout;
      own_per_update_point = fields.own_next_per_update_point;
      counter_per_update_point = fields.counter_next_per_update_point;
      roll_back_state = none;
      update_idx = sub64 channel.update_idx 1;
    })
    lift (
        ok (record {
          channel_id = channel.channel_id;
          prev_per_update_secret = prev_per_update_secret;
          reference_id = channel.reference_id;
        }))

  unfoldable pub settle_channel_finalize : SettleConfirm → Exec SettleFinalize
  unfolding settle_channel_finalize_internal
  settle_channel_finalize confirm = settle_channel_finalize_internal confirm none

  unfoldable pub settle_channel_on_finalize : SettleFinalize → Exec (Unit {0})
  settle_channel_on_finalize finalize = do
    channel ← get_channel
    fields ← lift (settled_confirmed_fields channel.state)
    lift (
        require (public_key finalize.prev_per_update_secret == channel.counter_per_update_point)
          invalid_parameters)
    receive_secret services channel.update_idx finalize.prev_per_update_secret
    channel ← get_channel
    put_channel (record channel {
      state =
          settled fields.settle_tx fields.counter_settle_adaptor_signature
            fields.own_settle_adaptor_signature fields.own_payout fields.counter_payout;
      roll_back_state = none;
      own_per_update_point = fields.own_next_per_update_point;
      counter_per_update_point = fields.counter_next_per_update_point;
      update_idx = sub64 channel.update_idx 1;
    })
