-- ===== src/Dlc/Channel/Renew.antt =====
-- What the transactions of a channel pay when it is set up or renewed.
use mathlib.Core.Path.{subst}
use rust_dlc.Base.{
  ℕ, ◌+◌, ◌-◌, ◌≡◌, ◌<◌, sym, ap, ◌∙◌, true, not, ok, >>=-eq-ok, require, leb, List, [], ◌∷◌, arith,
  Option, some,
}
use rust_dlc.Dlc.Types.{
  invalid_argument, fund_output_too_small, Script, TxOut, Transaction, Payout, PartyParams, Bitcoin,
  dust_limit, add64, sub64, IsU64,
}
use rust_dlc.Dlc.Fee.{dlc_channel_extra_fee}
use rust_dlc.Dlc.Cet.{create_cets_and_refund_tx}
use rust_dlc.Dlc.Cet.Payouts.{
  Proper, PaysOut, create_cets_and_refund_tx-PaysOut, ok-inj, require_ok,
}
use rust_dlc.Dlc.Channel.{
  Descriptors, RevokeParams, DlcChannelTransactions, create_buffer_transaction, channel_fund_output,
  create_renewal_channel_transactions,
}

module _ (bitcoin : Bitcoin) (descriptors : Descriptors) where
  open descriptors use {buffer_script, buffer_script_code}
  open bitcoin use {compute_txid}

  -- The buffer transaction holds what the fund output does but for the extra fee, more than dust, and
  -- the contract pays out the collaterals.
  pub record Buffered (offer accept : PartyParams) (offer_revoke accept_revoke : RevokeParams)
      (fund_tx : Transaction) (funding_script : Script) (fund_vout : Option ℕ)
      (payouts : List Payout) (rate : ℕ) (d : DlcChannelTransactions) : Type 0 where
    pub extra_fee : ℕ
    pub vout : ℕ
    pub fund_output : TxOut
    pub charged : dlc_channel_extra_fee rate ≡ ok extra_fee
    pub found :
        channel_fund_output bitcoin descriptors fund_tx funding_script fund_vout
        ≡ ok (vout, fund_output)
    pub large : extra_fee + dust_limit < fund_output.value
    pub buffer :
        d.buffer_transaction.output
        ≡ record {
          value = fund_output.value - extra_fee;
          script_pubkey = buffer_script offer_revoke accept_revoke;
        }
          ∷ []
    pub proper : Proper (offer.collateral + accept.collateral) payouts
    pub pays :
        PaysOut
          (offer.collateral + accept.collateral)
          payouts
          (d.dlc_transactions.cets, d.dlc_transactions.refund)

  large_enough :
      (extra_fee value : ℕ)
      → IsU64 value
      → IsU64 (extra_fee + dust_limit)
      → not (leb value (add64 extra_fee dust_limit)) ≡ true
      → (extra_fee + dust_limit < value) × (sub64 value extra_fee ≡ value - extra_fee)
  large_enough extra_fee value small fits h =
      let above : extra_fee + dust_limit < value = ground arith in (above, omega arith)

  -- When the transactions of a renewed contract are created, the fund output covers the extra fee and
  -- more than the dust limit, the buffer transaction holds the rest of it, every payout shares out the
  -- whole collateral, and the CETs and the refund transaction pay it.
  pub create_renewal_channel_transactions-Buffered :
      (offer accept : PartyParams) (offer_revoke accept_revoke : RevokeParams)
      (fund_tx : Transaction) (funding_script : Script) (payouts : List Payout)
      (refund_lock_time rate cet_lock_time cet_nsequence : ℕ)
      (fund_vout buffer_nsequence : Option ℕ) {d : DlcChannelTransactions}
      → ((e : ℕ) → dlc_channel_extra_fee rate ≡ ok e → IsU64 (e + dust_limit))
      → ((o : ℕ × TxOut)
          → channel_fund_output bitcoin descriptors fund_tx funding_script fund_vout ≡ ok o
          → IsU64 o.1.value)
      → create_renewal_channel_transactions bitcoin descriptors offer accept offer_revoke
          accept_revoke fund_tx funding_script payouts refund_lock_time rate cet_lock_time
          cet_nsequence fund_vout buffer_nsequence
        ≡ ok d
      → Buffered offer accept offer_revoke accept_revoke fund_tx funding_script fund_vout payouts
          rate d
  unfolding create_renewal_channel_transactions create_buffer_transaction
  create_renewal_channel_transactions-Buffered offer accept offer_revoke accept_revoke fund_tx
        funding_script payouts refund_lock_time rate cet_lock_time cet_nsequence fund_vout
        buffer_nsequence fits small h =
      let (extra_fee, charged, h₁) = >>=-eq-ok (dlc_channel_extra_fee rate) _ h in
      let (o, found, h₂) =
        >>=-eq-ok (channel_fund_output bitcoin descriptors fund_tx funding_script fund_vout) _ h₁ in
      let test = not (leb o.1.value (add64 extra_fee dust_limit)) in
      let (_, e, h₃) = >>=-eq-ok (require test (invalid_argument fund_output_too_small)) _ h₂ in
      let (r, paid, h₄) =
        >>=-eq-ok
          (create_cets_and_refund_tx offer accept _ payouts refund_lock_time cet_lock_time
            (some cet_nsequence))
          _ h₃ in
      let (code, _, h₅) = >>=-eq-ok (buffer_script_code offer_revoke accept_revoke) _ h₄ in
      let (above, rest) =
        large_enough extra_fee o.1.value (small o found) (fits extra_fee charged)
          (require_ok test (invalid_argument fund_output_too_small) e) in
      let (proper, pays) =
        create_cets_and_refund_tx-PaysOut offer accept _ payouts refund_lock_time cet_lock_time
          (some cet_nsequence) paid in
      record {
        extra_fee = extra_fee;
        vout = o.0;
        fund_output = o.1;
        charged = charged;
        found = found;
        large = above;
        buffer =
            ap (λ (z : DlcChannelTransactions). z.buffer_transaction.output) (sym (ok-inj h₅))
            ∙ ap
                (λ z.
                  record { value = z; script_pubkey = buffer_script offer_revoke accept_revoke }
                  ∷ [])
                rest;
        proper = proper;
        pays =
            subst
              (λ (z : DlcChannelTransactions).
                PaysOut (offer.collateral + accept.collateral) payouts
                  (z.dlc_transactions.cets, z.dlc_transactions.refund))
              (ok-inj h₅) pays;
      }
