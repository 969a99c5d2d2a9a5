-- ===== src/Updater/Endings.antt =====
-- What the last messages of a settlement return and write, where they succeed.
use rust_dlc.Base.{ℕ, ◌≡◌, refl, true, ◌==◌, inr, ok, get_elem?, none, some}
use rust_dlc.Dlc.Types.{TxOut, sub64}
use rust_dlc.Updater.Types.{settled, Context, SettleConfirm, SettleFinalize}
use rust_dlc.Updater.Services.{Services, verify_tx_adaptor_signature}
use rust_dlc.Updater.States.{
  settled_accepted_fields, settled_confirmed_fields, SettledAcceptedFields, SettledConfirmedFields,
  commitment_secret,
}
use rust_dlc.Updater.Finalize.{
  settle_channel_finalize, settle_channel_finalize_internal, settle_channel_on_finalize,
}
use rust_dlc.Updater.Results.{revoke_params}

module _ (services : Services) where
  open services use {
    descriptors, public_key, get_secret_key_for_pubkey, unix_time_now, get_unix_time_now, sig_hash,
    encrypt, verify, compute_txid, provide_secret,
  }

  abbrev pub finalize_message : Context → ℕ → SettleFinalize
  finalize_message s secret = record {
    channel_id = s.channel.channel_id;
    prev_per_update_secret = secret;
    reference_id = s.channel.reference_id;
  }

  abbrev pub after_finalize : SettleConfirm → Context → SettledAcceptedFields → ℕ → Context
  after_finalize confirm s fields secrets = record s {
    channel = record s.channel {
      state =
          settled fields.settle_tx confirm.settle_adaptor_signature
            fields.own_settle_adaptor_signature fields.own_payout fields.counter_payout;
      own_per_update_point = fields.own_next_per_update_point;
      counter_per_update_point = fields.counter_next_per_update_point;
      roll_back_state = none;
      update_idx = sub64 s.channel.update_idx 1;
      counter_party_commitment_secrets = secrets;
    };
  }

  pub finalize_lem :
      (confirm : SettleConfirm) (s : Context) (fields : SettledAcceptedFields)
      → {seed secret h secrets : ℕ} {output : TxOut}
      → settled_accepted_fields s.channel.state ≡ ok fields
      → get_secret_key_for_pubkey s.channel.own_per_update_seed ≡ inr seed
      → get_elem? s.channel.fund_tx.output s.channel.fund_output_index ≡ some output
      → sig_hash fields.settle_tx s.channel.fund_script_pubkey output.value ≡ inr h
      → verify confirm.settle_adaptor_signature h s.channel.counter_params.fund_pubkey
          (revoke_params services s.channel.own_points s.channel.counter_points
            fields.own_next_per_update_point).publish_pk
        ≡ true
      → (public_key confirm.prev_per_update_secret == s.channel.counter_per_update_point) ≡ true
      → provide_secret s.channel.counter_party_commitment_secrets s.channel.update_idx
          confirm.prev_per_update_secret
        ≡ some secrets
      → commitment_secret services seed s.channel.update_idx ≡ some secret
      → settle_channel_finalize services confirm s
        ≡ (ok (finalize_message s secret), after_finalize confirm s fields secrets)
  unfolding settle_channel_finalize settle_channel_finalize_internal verify_tx_adaptor_signature
  finalize_lem confirm s fields e f l n v p q g =
      rw e (rw f (rw l (rw n (rw v (rw p (rw q (rw g refl)))))))

  abbrev pub after_on_finalize : Context → SettledConfirmedFields → ℕ → Context
  after_on_finalize s fields secrets = record s {
    channel = record s.channel {
      state =
          settled fields.settle_tx fields.counter_settle_adaptor_signature
            fields.own_settle_adaptor_signature fields.own_payout fields.counter_payout;
      own_per_update_point = fields.own_next_per_update_point;
      counter_per_update_point = fields.counter_next_per_update_point;
      roll_back_state = none;
      update_idx = sub64 s.channel.update_idx 1;
      counter_party_commitment_secrets = secrets;
    };
  }

  pub on_finalize_lem :
      (finalize : SettleFinalize) (s : Context) (fields : SettledConfirmedFields) {secrets : ℕ}
      → settled_confirmed_fields s.channel.state ≡ ok fields
      → (public_key finalize.prev_per_update_secret == s.channel.counter_per_update_point) ≡ true
      → provide_secret s.channel.counter_party_commitment_secrets s.channel.update_idx
          finalize.prev_per_update_secret
        ≡ some secrets
      → settle_channel_on_finalize services finalize s ≡ (ok tt, after_on_finalize s fields secrets)
  unfolding settle_channel_on_finalize
  on_finalize_lem finalize s fields e p q = rw e (rw p (rw q refl))
