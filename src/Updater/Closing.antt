-- ===== src/Updater/Closing.antt =====
-- The close of a channel that the parties agree on, and what a renewal leaves in its way.
use mathlib.Core.Path.{subst}
use rust_dlc.Base.{
  ℕ, ◌+◌, ◌-◌, ◌≡◌, ◌≤◌, refl, sym, Bool, true, false, ltb, inr, Outcome, ok, err, ◌>>=◌, get_elem?,
  Option, none, some, List, arith,
}
use rust_dlc.Dlc.Types.{Script, Transaction, TxOut, IsU64, add64, sub64}
use rust_dlc.Dlc.Channel.{create_collaborative_close_transaction}
use rust_dlc.Updater.Types.{
  Error, invalid_state, SignedChannel, Context, ClosedChannel, CollaborativeCloseOffer, RenewRevoke,
  SignedChannelState, collaborative_close_offered, established,
}
use rust_dlc.Updater.Services.{
  Services, get_raw_sig_for_tx_input, sign_multi_sig_input, finalize_multi_sig_input_transaction,
}
use rust_dlc.Updater.States.{fund_outpoint, CloseOfferedFields, close_offered_fields}
use rust_dlc.Updater.Close.{
  total_collateral, offer_collaborative_close, on_collaborative_close_offer,
  accept_collaborative_close_offer, peer_timeout,
}
use rust_dlc.Updater.Renew.{renew_channel_on_revoke}
use rust_dlc.Updater.Parties.{Party, services_of, mirror, Paired, returned}

-- The flag `is_offer` of an established channel.
abbrev pub established_as_offer : SignedChannelState → Bool
established_as_offer (established _ _ _ _ is_offer _) = is_offer
established_as_offer _ = false

module _ (services : Services) where
  -- The transaction that closes a channel, offered by its own party.
  abbrev pub close_transaction : SignedChannel → (offer_payout payout value : ℕ) → Transaction
  close_transaction c offer_payout payout value =
      create_collaborative_close_transaction c.own_params offer_payout c.counter_params payout
        (fund_outpoint services c) value

  abbrev close_offered : Context → ℕ → ℕ → Transaction → ℕ → Bool → Option ℕ → Context
  close_offered s payout signature tx timeout is_offer reference_id = record s {
    channel = record s.channel {
      state = collaborative_close_offered payout signature tx timeout is_offer;
      roll_back_state = some s.channel.state;
      reference_id = reference_id;
    };
  }

  abbrev offer_of : Context → ℕ → ℕ → Option ℕ → CollaborativeCloseOffer
  offer_of s payout signature reference_id = record {
    channel_id = s.channel.channel_id;
    counter_payout = payout;
    close_signature = signature;
    reference_id = reference_id;
  }

  offer_close_lem :
      (payout : ℕ) (reference_id : Option ℕ) (s : Context) (rest : ℕ) {output : TxOut} {h sk : ℕ}
      → ltb (total_collateral s.channel) payout ≡ false
      → sub64 (total_collateral s.channel) payout ≡ rest
      → get_elem? s.channel.fund_tx.output s.channel.fund_output_index ≡ some output
      → services.get_secret_key_for_pubkey s.channel.own_params.fund_pubkey ≡ inr sk
      → services.sig_hash
          (close_transaction s.channel rest payout output.value)
          s.channel.fund_script_pubkey
          output.value
        ≡ inr h
      → offer_collaborative_close services payout reference_id s ≡ (
        ok (
          offer_of s payout (services.sign h sk) reference_id,
          close_transaction s.channel rest payout output.value,
        ),
        close_offered s payout
            (services.sign h sk)
            (close_transaction s.channel rest payout output.value)
            (add64 services.unix_time_now peer_timeout)
            true
            reference_id,
      )
  unfolding offer_collaborative_close get_raw_sig_for_tx_input
  offer_close_lem payout reference_id s rest e f g k l = rw e (rw f (rw g (rw k (rw l refl))))

  on_close_offer_lem :
      (offer : CollaborativeCloseOffer) (timeout : ℕ) (s : Context) (rest : ℕ) {output : TxOut}
      → ltb (total_collateral s.channel) offer.counter_payout ≡ false
      → s.channel.roll_back_state ≡ none
      → sub64 (total_collateral s.channel) offer.counter_payout ≡ rest
      → get_elem? s.channel.fund_tx.output s.channel.fund_output_index ≡ some output
      → on_collaborative_close_offer services offer timeout s ≡ (
        ok tt,
        close_offered s offer.counter_payout offer.close_signature
            (create_collaborative_close_transaction s.channel.counter_params rest
              s.channel.own_params offer.counter_payout
              (fund_outpoint services s.channel)
              output.value)
            (add64 services.unix_time_now timeout)
            false
            offer.reference_id,
      )
  unfolding on_collaborative_close_offer
  on_close_offer_lem offer timeout s rest e f g k = rw e (rw f (rw g (rw k refl)))

  accept_close_lem :
      (s : Context) (fields : CloseOfferedFields) {output : TxOut} {h sk : ℕ}
      → close_offered_fields s.channel.state ≡ ok fields
      → fields.is_offer ≡ false
      → get_elem? s.channel.fund_tx.output s.channel.fund_output_index ≡ some output
      → services.get_secret_key_for_pubkey s.channel.own_params.fund_pubkey ≡ inr sk
      → services.sig_hash fields.close_tx s.channel.fund_script_pubkey output.value ≡ inr h
      → accept_collaborative_close_offer services s ≡ (
        ok (
          fields.close_tx,
          finalize_multi_sig_input_transaction services
              (s.channel.counter_params.fund_pubkey, fields.offer_signature)
              (services.public_key sk, services.sign h sk)
              s.channel.fund_script_pubkey,
          record {
            counter_party = s.channel.counter_party;
            temporary_channel_id = s.channel.temporary_channel_id;
            channel_id = s.channel.channel_id;
            reference_id = s.channel.reference_id;
            closing_txid = services.compute_txid fields.close_tx;
          },
        ),
        s,
      )
  unfolding accept_collaborative_close_offer sign_multi_sig_input get_raw_sig_for_tx_input
  accept_close_lem s fields e f g k l = rw e (rw f (rw g (rw k (rw l refl))))

module _ (crypto : Services) (pa pb : Party) where
  -- A close offer, received and accepted by the other party.
  unfoldable pub close_round :
      ℕ
      → ℕ
      → Option ℕ
      → Context
      → Context
      → Outcome Error (Transaction × Transaction × List Script × ClosedChannel)
  close_round payout timeout reference_id a b = do
    ((offer, close_tx), a) ←
        returned (offer_collaborative_close (services_of crypto pa) payout reference_id a)
    (_, b) ← returned (on_collaborative_close_offer (services_of crypto pb) offer timeout b)
    ((accepted_tx, witness, closed), b) ←
        returned (accept_collaborative_close_offer (services_of crypto pb) b)
    ok (close_tx, accepted_tx, witness, closed)

  -- What the two hold then: each the transaction that it made, and its witness and the closed
  -- channel of the accept party.
  abbrev pub closed_by :
      Context
      → Context
      → Option ℕ
      → Transaction
      → (h sk_a sk_b : ℕ) → Transaction × Transaction × List Script × ClosedChannel
  closed_by a b reference_id tx h sk_a sk_b = (
    tx,
    tx,
    finalize_multi_sig_input_transaction crypto
        (a.channel.own_params.fund_pubkey, crypto.sign h sk_a)
        (crypto.public_key sk_b, crypto.sign h sk_b) a.channel.fund_script_pubkey,
    record {
      counter_party = b.channel.counter_party;
      temporary_channel_id = b.channel.temporary_channel_id;
      channel_id = a.channel.channel_id;
      reference_id = reference_id;
      closing_txid = crypto.compute_txid tx;
    },
  )

  close_mirrored :
      (a b : Context) (payout timeout : ℕ) (reference_id : Option ℕ) (output : TxOut)
      (h sk_a sk_b : ℕ)
      → let x = a.channel.own_params in
        let y = a.channel.counter_params in
        let tx =
          create_collaborative_close_transaction x
            (x.collateral + y.collateral - payout)
            y
            payout
            (fund_outpoint crypto a.channel)
            output.value in
        IsU64 (x.collateral + y.collateral)
        → payout ≤ x.collateral + y.collateral
        → get_elem? a.channel.fund_tx.output a.channel.fund_output_index ≡ some output
        → b.channel.roll_back_state ≡ none
        → pa.signer x.fund_pubkey ≡ inr sk_a
        → pb.signer y.fund_pubkey ≡ inr sk_b
        → crypto.sig_hash tx a.channel.fund_script_pubkey output.value ≡ inr h
        → close_round payout timeout reference_id a
            (record b { channel = mirror a.channel b.channel })
          ≡ ok (closed_by a b reference_id tx h sk_a sk_b)
  unfolding close_round finalize_multi_sig_input_transaction
  close_mirrored a b payout timeout reference_id output h sk_a sk_b small le out fresh ea eb esig =
      let sa = services_of crypto pa in
      let sb = services_of crypto pb in
      let x = a.channel.own_params.collateral in
      let y = a.channel.counter_params.collateral in
      let b0 = record b { channel = mirror a.channel b.channel } in
      let tx = close_transaction crypto a.channel (x + y - payout) payout output.value in
      let offer = offer_of sa a payout (crypto.sign h sk_a) reference_id in
      let b1 =
        close_offered sb b0 payout (crypto.sign h sk_a) tx (add64 pb.time timeout) false
          reference_id in
      let fields : CloseOfferedFields = record {
        offer_signature = crypto.sign h sk_a;
        close_tx = tx;
        is_offer = false;
      } in
      let t1 : ltb (add64 x y) payout ≡ false = ground arith in
      let t2 : ltb (add64 y x) payout ≡ false = ground arith in
      let s1 : sub64 (add64 x y) payout ≡ x + y - payout = omega arith in
      let s2 : sub64 (add64 y x) payout ≡ x + y - payout = omega arith in
      rw (offer_close_lem sa payout reference_id a (x + y - payout) t1 s1 out ea esig) (
        rw (on_close_offer_lem sb offer timeout b0 (x + y - payout) t2 fresh s2 out)
          (rw (accept_close_lem sb b1 fields refl refl out eb esig) refl))

  -- From two sides of one channel, whose signers know their fund keys, where the accept party has
  -- no state to roll back to and the closing transaction can be hashed, an offer to close it, for
  -- any payout up to the total collateral, is received and accepted: both make the same closing
  -- transaction, that of the offer party's payout and the rest, its witness holds the signatures of
  -- both in the order of their keys, and the closed channel has its id.
  pub close_round_lem :
      (a b : Context) (payout timeout : ℕ) (reference_id : Option ℕ) (output : TxOut)
      (h sk_a sk_b : ℕ)
      → let x = a.channel.own_params in
        let y = a.channel.counter_params in
        let tx =
          create_collaborative_close_transaction x
            (x.collateral + y.collateral - payout)
            y
            payout
            (fund_outpoint crypto a.channel)
            output.value in
        Paired a.channel b.channel
        → IsU64 (x.collateral + y.collateral)
        → payout ≤ x.collateral + y.collateral
        → get_elem? a.channel.fund_tx.output a.channel.fund_output_index ≡ some output
        → b.channel.roll_back_state ≡ none
        → pa.signer x.fund_pubkey ≡ inr sk_a
        → pb.signer y.fund_pubkey ≡ inr sk_b
        → crypto.sig_hash tx a.channel.fund_script_pubkey output.value ≡ inr h
        → close_round payout timeout reference_id a b
          ≡ ok (closed_by a b reference_id tx h sk_a sk_b)
  close_round_lem a b payout timeout reference_id output h sk_a sk_b paired small le out fresh ea eb
        esig =
      subst
        (λ c.
          close_round payout timeout reference_id a (record b { channel = c })
          ≡ ok (
              closed_by a b reference_id
                (create_collaborative_close_transaction a.channel.own_params
                  (a.channel.own_params.collateral + a.channel.counter_params.collateral - payout)
                  a.channel.counter_params payout (fund_outpoint crypto a.channel) output.value)
                h sk_a sk_b))
        (sym paired)
        (close_mirrored a b payout timeout reference_id output h sk_a sk_b small le out fresh ea eb
          esig)

-- After a renewal that the accept party ends by `renew_channel_on_revoke`, while it holds a state
-- to roll back to, its channel is established as if it had made the offer, and it still holds that
-- state: it refuses every later offer to close the channel, for any payout up to the total
-- collateral, as in an invalid state.
pub renew_channel_on_revoke-on_collaborative_close_offer :
    (services : Services) (revoke : RenewRevoke) (s t : Context) (st : SignedChannelState)
    (offer : CollaborativeCloseOffer) (timeout : ℕ)
    → s.channel.roll_back_state ≡ some st
    → renew_channel_on_revoke services revoke s ≡ (ok tt, t)
    → offer.counter_payout ≤ total_collateral t.channel
    → (established_as_offer t.channel.state ≡ true)
      × (t.channel.roll_back_state ≡ some st)
      × (on_collaborative_close_offer services offer timeout t ≡ (err invalid_state, t))
unfolding renew_channel_on_revoke on_collaborative_close_offer
renew_channel_on_revoke-on_collaborative_close_offer services revoke s t st offer timeout e f g =
    ground arith
