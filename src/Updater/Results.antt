-- ===== src/Updater/Results.antt =====
-- What each message of a settlement returns and writes, where it succeeds.
use rust_dlc.Base.{ℕ, ◌≡◌, refl, ◌/◌, true, false, ltb, inr, Outcome, ok, get_elem?, Option, some}
use rust_dlc.Dlc.Types as Dlc
use rust_dlc.Dlc.Types.{Script, OutPoint, TxOut, Transaction, add64, sub64}
use rust_dlc.Dlc.Channel.{RevokeParams, create_settle_transaction}
use rust_dlc.Monitor.{settle_tx2, add_tx}
use rust_dlc.Updater.Types.{
  PartyBasePoints, settled_offered, settled_received, settled_accepted, settled_confirmed, Context,
  SignedChannel, SettleOffer, SettleAccept, SettleConfirm,
}
use rust_dlc.Updater.Services.{
  Services, get_revokable_params, get_settle_tx_and_adaptor_sig, get_tx_adaptor_signature,
  verify_tx_adaptor_signature, verify_counter,
}
use rust_dlc.Updater.States.{
  expect_established, settled_offered_fields, settled_received_fields, fund_outpoint,
  commitment_secret,
}
use rust_dlc.Updater.Settle.{
  on_settle_offer, settle_channel_offer, settle_channel_accept, settle_channel_accept_internal,
  settle_channel_confirm, settle_channel_confirm_internal,
}

abbrev pub after_on_offer : SettleOffer → Context → Context
after_on_offer offer s = record s {
  channel = record s.channel {
    state =
        settled_received offer.counter_payout
          (sub64 (add64 s.channel.own_params.collateral s.channel.counter_params.collateral)
            offer.counter_payout)
          offer.next_per_update_point;
    roll_back_state = some s.channel.state;
    reference_id = offer.reference_id;
  };
}

pub on_offer_lem :
    (offer : SettleOffer) (s : Context)
    → expect_established s.channel.state ≡ ok tt
    → ltb
        (add64 s.channel.own_params.collateral s.channel.counter_params.collateral)
        offer.counter_payout
      ≡ false
    → on_settle_offer offer s ≡ (ok tt, after_on_offer offer s)
unfolding on_settle_offer
on_offer_lem offer s e f = rw e (rw f refl)

module _ (services : Services) where
  open services use {
    descriptors, public_key, get_secret_key_for_pubkey, unix_time_now, get_unix_time_now, sig_hash,
    encrypt, verify, compute_txid, provide_secret,
  }

  -- The offer party's own parameters, and the accept party's.
  abbrev pub revoke_params : PartyBasePoints → PartyBasePoints → ℕ → RevokeParams
  revoke_params points other point =
      get_revokable_params services points other.revocation_basepoint point

  abbrev pub offer_message : ℕ → Option ℕ → Context → ℕ → SettleOffer
  offer_message counter_payout reference_id s secret = record {
    channel_id = s.channel.channel_id;
    counter_payout = counter_payout;
    next_per_update_point = public_key secret;
    timestamp = get_unix_time_now;
    reference_id = reference_id;
  }

  abbrev pub after_offer : ℕ → ℕ → Option ℕ → Context → ℕ → Context
  after_offer counter_payout peer_timeout reference_id s secret = record s {
    channel = record s.channel {
      state = settled_offered counter_payout (public_key secret) (add64 unix_time_now peer_timeout);
      roll_back_state = some s.channel.state;
      reference_id = reference_id;
    };
  }

  pub offer_lem :
      (counter_payout peer_timeout : ℕ) (reference_id : Option ℕ) (s : Context) {seed secret : ℕ}
      → expect_established s.channel.state ≡ ok tt
      → get_secret_key_for_pubkey s.channel.own_per_update_seed ≡ inr seed
      → commitment_secret services seed (sub64 s.channel.update_idx 1) ≡ some secret
      → settle_channel_offer services counter_payout peer_timeout reference_id s ≡ (
        ok (offer_message counter_payout reference_id s secret),
        after_offer counter_payout peer_timeout reference_id s secret,
      )
  unfolding settle_channel_offer
  offer_lem counter_payout peer_timeout reference_id s e f g = rw e (rw f (rw g refl))

  -- The settle transaction of a channel, from the side of the accept party.
  abbrev pub accept_tx : SignedChannel → ℕ → ℕ → ℕ → ℕ → ℕ → ℕ → ℕ → Outcome Dlc.Error Transaction
  accept_tx c own_point counter_point x y csv lock v =
      create_settle_transaction descriptors (fund_outpoint services c)
        (revoke_params c.counter_points c.own_points counter_point)
        (revoke_params c.own_points c.counter_points own_point) x y csv lock v c.fee_rate_per_vb

  abbrev pub accept_message : Context → ℕ → ℕ → ℕ → ℕ → SettleAccept
  accept_message s secret counter_next h sk = record {
    channel_id = s.channel.channel_id;
    next_per_update_point = public_key secret;
    settle_adaptor_signature =
        encrypt h sk
          (revoke_params s.channel.counter_points s.channel.own_points counter_next).publish_pk;
    reference_id = s.channel.reference_id;
  }

  abbrev pub after_accept : ℕ → Context → ℕ → ℕ → ℕ → ℕ → Transaction → ℕ → ℕ → Context
  after_accept peer_timeout s secret counter_next h sk tx own_payout counter_payout = record {
    channel = record s.channel {
      state =
          settled_accepted counter_next (public_key secret)
            (encrypt h sk
              (revoke_params s.channel.counter_points s.channel.own_points counter_next).publish_pk)
            tx (add64 unix_time_now peer_timeout) own_payout counter_payout;
    };
    monitor =
        add_tx (compute_txid tx)
          (record { channel_id = s.channel.channel_id; tx_type = settle_tx2 false }) s.monitor;
  }

  pub accept_lem :
      (csv lock peer_timeout : ℕ) (s : Context)
      → {own_payout counter_payout counter_next seed secret sk h x y : ℕ} {output : TxOut}
      → {tx : Transaction}
      → settled_received_fields s.channel.state ≡ ok (own_payout, counter_next, counter_payout)
      → get_secret_key_for_pubkey s.channel.own_per_update_seed ≡ inr seed
      → commitment_secret services seed (sub64 s.channel.update_idx 1) ≡ some secret
      → get_secret_key_for_pubkey s.channel.own_params.fund_pubkey ≡ inr sk
      → get_elem? s.channel.fund_tx.output s.channel.fund_output_index ≡ some output
      → add64
          (sub64
            (add64 s.channel.counter_params.collateral s.channel.own_params.collateral)
            own_payout)
          (0 / 2)
        ≡ x
      → add64 own_payout (0 / 2) ≡ y
      → accept_tx s.channel (public_key secret) counter_next x y csv lock output.value ≡ ok tx
      → sig_hash tx s.channel.fund_script_pubkey output.value ≡ inr h
      → settle_channel_accept services csv lock peer_timeout s ≡ (
        ok (accept_message s secret counter_next h sk),
        after_accept peer_timeout s secret counter_next h sk tx own_payout counter_payout,
      )
  unfolding settle_channel_accept settle_channel_accept_internal get_settle_tx_and_adaptor_sig
      get_tx_adaptor_signature verify_counter
  accept_lem csv lock peer_timeout s {x = x} {y = y} e f g k l a b m n =
      rw e (rw f (rw g (rw k (rw l (rw a (rw b (rw m (rw n refl))))))))

  -- The settle transaction of a channel, from the side of the offer party.
  abbrev pub offer_tx : SignedChannel → ℕ → ℕ → ℕ → ℕ → ℕ → ℕ → ℕ → Outcome Dlc.Error Transaction
  offer_tx c own_point counter_point x y csv lock v =
      create_settle_transaction descriptors (fund_outpoint services c)
        (revoke_params c.own_points c.counter_points own_point)
        (revoke_params c.counter_points c.own_points counter_point) x y csv lock v c.fee_rate_per_vb

  abbrev pub confirm_message : SettleAccept → Context → ℕ → ℕ → ℕ → SettleConfirm
  confirm_message accept s secret h sk = record {
    channel_id = s.channel.channel_id;
    prev_per_update_secret = secret;
    settle_adaptor_signature =
        encrypt h sk
          (revoke_params s.channel.counter_points s.channel.own_points
            accept.next_per_update_point).publish_pk;
    reference_id = s.channel.reference_id;
  }

  abbrev pub after_confirm : SettleAccept → ℕ → Context → ℕ → ℕ → ℕ → Transaction → ℕ → ℕ → Context
  after_confirm accept peer_timeout s own_next h sk tx x y = record {
    channel = record s.channel {
      state =
          settled_confirmed tx accept.settle_adaptor_signature accept.next_per_update_point own_next
            (encrypt h sk
              (revoke_params s.channel.counter_points s.channel.own_points
                accept.next_per_update_point).publish_pk)
            (add64 unix_time_now peer_timeout) x y;
    };
    monitor =
        add_tx (compute_txid tx)
          (record { channel_id = s.channel.channel_id; tx_type = settle_tx2 true }) s.monitor;
  }

  pub confirm_lem :
      (accept : SettleAccept) (csv lock peer_timeout : ℕ) (s : Context)
      → {counter_payout own_next seed secret sk h x y : ℕ} {output : TxOut} {tx : Transaction}
      → settled_offered_fields s.channel.state ≡ ok (counter_payout, own_next)
      → get_secret_key_for_pubkey s.channel.own_params.fund_pubkey ≡ inr sk
      → get_elem? s.channel.fund_tx.output s.channel.fund_output_index ≡ some output
      → add64
          (sub64
            (add64 s.channel.counter_params.collateral s.channel.own_params.collateral)
            counter_payout)
          (0 / 2)
        ≡ x
      → add64 counter_payout (0 / 2) ≡ y
      → offer_tx s.channel own_next accept.next_per_update_point x y csv lock output.value ≡ ok tx
      → sig_hash tx s.channel.fund_script_pubkey output.value ≡ inr h
      → verify accept.settle_adaptor_signature h s.channel.counter_params.fund_pubkey
          (revoke_params s.channel.own_points s.channel.counter_points own_next).publish_pk
        ≡ true
      → get_secret_key_for_pubkey s.channel.own_per_update_seed ≡ inr seed
      → commitment_secret services seed s.channel.update_idx ≡ some secret
      → settle_channel_confirm services accept csv lock peer_timeout s ≡ (
        ok (confirm_message accept s secret h sk),
        after_confirm accept peer_timeout s own_next h sk tx x y,
      )
  unfolding settle_channel_confirm settle_channel_confirm_internal get_settle_tx_and_adaptor_sig
      get_tx_adaptor_signature verify_counter verify_tx_adaptor_signature
  confirm_lem accept csv lock peer_timeout s {x = x} {y = y} e k l a b m n v f g =
      rw e (rw k (rw l (rw a (rw b (rw m (rw n (rw v (rw f (rw g refl)))))))))
