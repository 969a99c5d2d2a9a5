-- ===== src/Updater/Agreement.antt =====
-- The settlement of a channel between its two parties, message by message.
use mathlib.Core.Path.{subst}
use rust_dlc.Base.{
  ℕ, ◌+◌, ◌-◌, ◌/◌, ◌≡◌, ◌≤◌, refl, sym, ap, true, false, ◌==◌, ltb, inr, ok, get_elem?, Option,
  some, arith,
}
use rust_dlc.Dlc.Types.{Transaction, TxOut, IsU64, add64, sub64}
use rust_dlc.Updater.Types.{SignedChannelState, settled, established_type, state_type, Context}
use rust_dlc.Updater.Services.{Services, get_revokable_params}
use rust_dlc.Updater.States.{expect_established, SettledAcceptedFields, SettledConfirmedFields}
use rust_dlc.Updater.Settle.{
  settle_channel_offer, on_settle_offer, settle_channel_accept, settle_channel_confirm,
}
use rust_dlc.Updater.Finalize.{settle_channel_finalize, settle_channel_on_finalize}
use rust_dlc.Updater.Endings.{
  after_finalize, finalize_message, after_on_finalize, finalize_lem, on_finalize_lem,
}
use rust_dlc.Updater.Results.{
  offer_tx, offer_message, after_offer, after_on_offer, accept_message, after_accept,
  confirm_message, after_confirm, offer_lem, on_offer_lem, accept_lem, confirm_lem,
}
use rust_dlc.Updater.Parties.{
  Party, services_of, mirror, Paired, Keys, Ready, settle_round, Settled,
}

expect_established_lem :
    (st : SignedChannelState) → state_type st ≡ established_type → expect_established st ≡ ok tt
expect_established_lem st h = ground arith

module _ (x y : ℕ) where
  final_offer :
      IsU64 (x + y) → (p : ℕ) → p ≤ x + y → add64 (sub64 (add64 y x) p) (0 / 2) ≡ x + y - p
  final_offer small p h = omega arith

  final_offer_comm :
      IsU64 (x + y) → (p : ℕ) → p ≤ x + y → add64 (sub64 (add64 x y) p) (0 / 2) ≡ x + y - p
  final_offer_comm small p h = omega arith

  counter_share : IsU64 (x + y) → (p : ℕ) → p ≤ x + y → sub64 (add64 y x) p ≡ x + y - p
  counter_share small p h = omega arith

  final_accept : IsU64 (x + y) → (p : ℕ) → p ≤ x + y → add64 p (0 / 2) ≡ p
  final_accept small p h = omega arith

  allowed : IsU64 (x + y) → (p : ℕ) → p ≤ x + y → ltb (add64 y x) p ≡ false
  allowed small p h = ground arith

==_eq : {m n : ℕ} → m ≡ n → (m == n) ≡ true
==_eq h = ground arith

-- A signature under a key is verified with its public key.
signed_by :
    (crypto : Services)
    → ((k sk ek : ℕ) → crypto.verify (crypto.encrypt k sk ek) k (crypto.public_key sk) ek ≡ true)
    → (h : ℕ) {sk pk : ℕ} → crypto.public_key sk ≡ pk
    → (ek : ℕ) → crypto.verify (crypto.encrypt h sk ek) h pk ek ≡ true
signed_by crypto law h {sk = sk} e ek =
    subst (λ pk. crypto.verify (crypto.encrypt h sk ek) h pk ek ≡ true) e (law h sk ek)

module _ (crypto : Services) (pa pb : Party) where
  settle_mirrored :
      (a b : Context) (ka kb : Keys) (payout csv lock timeout : ℕ) (reference_id : Option ℕ)
      → {output : TxOut} {tx : Transaction} {h secrets_a secrets_b : ℕ}
      → state_type a.channel.state ≡ established_type
      → state_type b.channel.state ≡ established_type
      → Ready (services_of crypto pa) ka a.channel
      → Ready (services_of crypto pb) kb (mirror a.channel b.channel)
      → IsU64 (a.channel.own_params.collateral + a.channel.counter_params.collateral)
      → payout ≤ a.channel.own_params.collateral + a.channel.counter_params.collateral
      → get_elem? a.channel.fund_tx.output a.channel.fund_output_index ≡ some output
      → offer_tx
          (services_of crypto pa)
          a.channel
          (crypto.public_key ka.next_secret)
          (crypto.public_key kb.next_secret)
          (a.channel.own_params.collateral + a.channel.counter_params.collateral - payout)
          payout
          csv
          lock
          output.value
        ≡ ok tx
      → crypto.sig_hash tx a.channel.fund_script_pubkey output.value ≡ inr h
      → ((k sk ek : ℕ) → crypto.verify (crypto.encrypt k sk ek) k (crypto.public_key sk) ek ≡ true)
      → crypto.provide_secret b.channel.counter_party_commitment_secrets a.channel.update_idx
          ka.secret
        ≡ some secrets_b
      → crypto.provide_secret a.channel.counter_party_commitment_secrets a.channel.update_idx
          kb.secret
        ≡ some secrets_a
      → (ta : Context) × (tb : Context) × (settle_round crypto pa pb payout csv lock timeout
            reference_id a
            (record b { channel = mirror a.channel b.channel })
          ≡ ok (ta, tb))
        × Settled tx
            (a.channel.own_params.collateral + a.channel.counter_params.collateral - payout)
            payout
            ta.channel
            tb.channel
            a.channel.update_idx
  unfolding settle_round get_revokable_params
  settle_mirrored a b ka kb payout csv lock timeout reference_id {output = output} {tx = tx} {h = h}
        {secrets_a = secrets_a} {secrets_b = secrets_b} ea eb ra rb small le out etx esig law
        eb_secrets ea_secrets =
      let sa = services_of crypto pa in
      let sb = services_of crypto pb in
      let x = a.channel.own_params.collateral in
      let y = a.channel.counter_params.collateral in
      let b0 = record b { channel = mirror a.channel b.channel } in
      let next_a = crypto.public_key ka.next_secret in
      let next_b = crypto.public_key kb.next_secret in
      let own_b = sub64 (add64 y x) payout in
      let offer = offer_message sa payout reference_id a ka.next_secret in
      let a1 = after_offer sa payout timeout reference_id a ka.next_secret in
      let b1 = after_on_offer offer b0 in
      let accept = accept_message sb b1 kb.next_secret next_a h kb.fund_sk in
      let b2 = after_accept sb timeout b1 kb.next_secret next_a h kb.fund_sk tx payout own_b in
      let confirm = confirm_message sa accept a1 ka.secret h ka.fund_sk in
      let a2 = after_confirm sa accept timeout a1 next_a h ka.fund_sk tx (x + y - payout) payout in
      let fields_b : SettledAcceptedFields = record {
        own_next_per_update_point = next_b;
        counter_next_per_update_point = next_a;
        settle_tx = tx;
        own_settle_adaptor_signature = accept.settle_adaptor_signature;
        own_payout = payout;
        counter_payout = own_b;
      } in
      let fields_a : SettledConfirmedFields = record {
        settle_tx = tx;
        counter_settle_adaptor_signature = accept.settle_adaptor_signature;
        counter_next_per_update_point = next_b;
        own_next_per_update_point = next_a;
        own_settle_adaptor_signature = confirm.settle_adaptor_signature;
        own_payout = x + y - payout;
        counter_payout = payout;
      } in
      let b3 = after_finalize sb confirm b2 fields_b secrets_b in
      let a3 = after_on_finalize sa a2 fields_a secrets_a in
      let finalize = finalize_message sb b2 kb.secret in
      let e1 : settle_channel_offer sa payout timeout reference_id a ≡ (ok offer, a1) =
        offer_lem sa payout timeout reference_id a (expect_established_lem _ ea) ra.signer_seed
          ra.following in
      let e2 : on_settle_offer offer b0 ≡ (ok tt, b1) =
        on_offer_lem offer b0 (expect_established_lem _ eb) (allowed x y small payout le) in
      let e3 : settle_channel_accept sb csv lock timeout b1 ≡ (ok accept, b2) =
        accept_lem sb csv lock timeout b1 refl rb.signer_seed rb.following rb.signer_fund out
          (final_offer_comm x y small payout le) (final_accept x y small payout le) etx esig in
      let e4 : settle_channel_confirm sa accept csv lock timeout a1 ≡ (ok confirm, a2) =
        confirm_lem sa accept csv lock timeout a1 refl ra.signer_fund out
          (final_offer x y small payout le) (final_accept x y small payout le) etx esig
          (signed_by crypto law h rb.fund_key _) ra.signer_seed ra.current in
      let e5 : settle_channel_finalize sb confirm b2 ≡ (ok finalize, b3) =
        finalize_lem sb confirm b2 fields_b refl rb.signer_seed out esig
          (signed_by crypto law h ra.fund_key _) (==_eq ra.point) eb_secrets rb.current in
      let e6 : settle_channel_on_finalize sa finalize a2 ≡ (ok tt, a3) =
        on_finalize_lem sa finalize a2 fields_a refl (==_eq rb.point) ea_secrets in
      (
        a3,
        b3,
        rw e1 (rw e2 (rw e3 (rw e4 (rw e5 (rw e6 refl))))),
        (
          confirm.settle_adaptor_signature,
          accept.settle_adaptor_signature,
          refl,
          ap (settled tx confirm.settle_adaptor_signature accept.settle_adaptor_signature payout)
              (counter_share x y small payout le),
          refl,
          refl,
          refl,
          refl,
        ),
      )

  -- From two sides of one established channel, whose signers know their keys, the six steps of a
  -- settlement succeed, for any payout up to the total collateral, where the settle transaction of
  -- the two next update points can be made and hashed, an adaptor signature is verified with the
  -- public key of its signer, and each side's store takes the other's current secret. Then both
  -- sides are settled on that transaction, with payouts that add up and signatures crossed, keep
  -- one channel again, one update further, and have nothing to roll back to.
  pub settle_round-Settled :
      (a b : Context) (ka kb : Keys) (payout csv lock timeout : ℕ) (reference_id : Option ℕ)
      → (output : TxOut) (tx : Transaction) (h secrets_a secrets_b : ℕ) → Paired a.channel b.channel
      → state_type a.channel.state ≡ established_type
      → state_type b.channel.state ≡ established_type
      → Ready (services_of crypto pa) ka a.channel
      → Ready (services_of crypto pb) kb b.channel
      → IsU64 (a.channel.own_params.collateral + a.channel.counter_params.collateral)
      → payout ≤ a.channel.own_params.collateral + a.channel.counter_params.collateral
      → get_elem? a.channel.fund_tx.output a.channel.fund_output_index ≡ some output
      → offer_tx
          (services_of crypto pa)
          a.channel
          (crypto.public_key ka.next_secret)
          (crypto.public_key kb.next_secret)
          (a.channel.own_params.collateral + a.channel.counter_params.collateral - payout)
          payout
          csv
          lock
          output.value
        ≡ ok tx
      → crypto.sig_hash tx a.channel.fund_script_pubkey output.value ≡ inr h
      → ((k sk ek : ℕ) → crypto.verify (crypto.encrypt k sk ek) k (crypto.public_key sk) ek ≡ true)
      → crypto.provide_secret b.channel.counter_party_commitment_secrets a.channel.update_idx
          ka.secret
        ≡ some secrets_b
      → crypto.provide_secret a.channel.counter_party_commitment_secrets a.channel.update_idx
          kb.secret
        ≡ some secrets_a
      → (ta : Context) × (tb : Context) × (settle_round crypto pa pb payout csv lock timeout
            reference_id a b
          ≡ ok (ta, tb))
        × Settled tx
            (a.channel.own_params.collateral + a.channel.counter_params.collateral - payout)
            payout
            ta.channel
            tb.channel
            a.channel.update_idx
  settle_round-Settled a b ka kb payout csv lock timeout reference_id output tx h secrets_a
        secrets_b paired ea eb ra rb small le out etx esig law give_b give_a =
      let (ta, tb, run, after) =
        settle_mirrored a b ka kb payout csv lock timeout reference_id ea eb ra
          (subst (Ready (services_of crypto pb) kb) paired rb) small le out etx esig law give_b
          give_a in
      (
        ta,
        tb,
        subst
            (λ c.
              settle_round crypto pa pb payout csv lock timeout reference_id a
                (record b { channel = c })
              ≡ ok (ta, tb))
            (sym paired) run,
        after,
      )
