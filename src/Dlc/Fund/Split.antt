-- ===== src/Dlc/Fund/Split.antt =====
-- Where the money of both parties goes in the fund transaction.
use rust_dlc.Base.{
  ℕ, ◌+◌, ◌≡◌, sym, true, false, Outcome, ok, >>=-eq-ok, ap, IsSafe, >>=-IsSafe, arith, List, [],
  ◌∷◌, Bool-cases, inl, inr, ltb,
}
use rust_dlc.Dlc.Types.{
  Error, FeeConfig, Script, TxOut, TxIn, Transaction, PartyParams, Bitcoin, dust_limit, u64_mod,
  IsU64, checked_add, checked_add_ok,
}
use rust_dlc.Dlc.Fee.{discard_dust, get_sequence}
use rust_dlc.Dlc.Party.{
  get_unsigned_tx_inputs_and_serial_ids, get_change_output_and_fees, Balanced,
  get_change_output_and_fees-Balanced,
}
use rust_dlc.Dlc.Order.{order_by_serial_ids}
use rust_dlc.Dlc.Fund.{
  extra_fee_shares, fund_output_value, make_funding_redeemscript, create_funding_transaction,
  create_fund_transaction_with_fees,
}
use rust_dlc.Dlc.Fund.Value.{extra_fee_shares_sum, fund_output_value_lem}
use rust_dlc.Dlc.Fund.Safe.{get_change_output_and_fees-IsSafe, checked_add-IsSafe, ok-IsSafe}

ok-fst {ℓ κ} :
    {E : Type 0} {A : Type ℓ} {B : Type κ} {a c : A} {b d : B}
    → ◌≡◌ {A = Outcome E (A × B)} (ok (a, b)) (ok (c, d))
    → a ≡ c
ok-fst h = cc

overflow :
    (offer accept : PartyParams) (e : ℕ × ℕ) (o a : TxOut × ℕ × ℕ) (total : ℕ)
    → ltb (offer.input_amount + accept.input_amount) u64_mod ≡ false
    → IsSafe (fund_output_value offer accept e o a total)
unfolding fund_output_value checked_add
overflow offer accept e o a total over = rw over (λ h. cc)

pub fund_output_value-IsSafe :
    (offer accept : PartyParams) (oe ae : ℕ) (o a : TxOut × ℕ × ℕ) (total : ℕ)
    → Balanced offer oe o
    → Balanced accept ae a
    → total ≡ offer.collateral + accept.collateral
    → IsSafe (fund_output_value offer accept (oe, ae) o a total)
fund_output_value-IsSafe offer accept oe ae o a total bo ba ht =
    elim (Bool-cases (ltb (offer.input_amount + accept.input_amount) u64_mod)) [
      | inl fits ↦
          rw (fund_output_value_lem offer accept oe ae o a total bo ba ht (ground arith))
            (ok-IsSafe _)
      | inr over ↦ overflow offer accept (oe, ae) o a total over
    ]

module _ (bitcoin : Bitcoin) where
  open bitcoin use {push_slice, to_v0_p2wsh}

  -- The amounts of a fund transaction: what each party's call returned, what the fund output is
  -- worth, where the inputs go, and the outputs, in the order of their ids and without dust.
  pub record FundSplit (offer accept : PartyParams) (rate fund_output_id extra_fee : ℕ)
      (config : FeeConfig) (script : Script) (tx : Transaction) : Type 0 where
    pub value : ℕ
    pub o : TxOut × ℕ × ℕ
    pub a : TxOut × ℕ × ℕ
    pub offer_pays :
        get_change_output_and_fees push_slice offer rate
          (extra_fee_shares config extra_fee).0
          config
          true
        ≡ ok o
    pub accept_pays :
        get_change_output_and_fees push_slice accept rate
          (extra_fee_shares config extra_fee).1
          config
          false
        ≡ ok a
    pub worth : value ≡ offer.collateral + accept.collateral + o.2 + a.2 + extra_fee
    pub conserved :
        offer.input_amount + accept.input_amount ≡ value + o.0.value + a.0.value + o.1 + a.1
    pub outputs :
        tx.output
        ≡ discard_dust
            (order_by_serial_ids
              (record { value = value; script_pubkey = to_v0_p2wsh script } ∷ o.0 ∷ a.0 ∷ [])
              (fund_output_id ∷ offer.change_serial_id ∷ accept.change_serial_id ∷ []))
            dust_limit

  inputs_fit :
      (offer accept : PartyParams) (shares : ℕ × ℕ) (o a : TxOut × ℕ × ℕ) (total : ℕ) {v : ℕ}
      → fund_output_value offer accept shares o a total ≡ ok v
      → IsU64 (offer.input_amount + accept.input_amount)
  unfolding fund_output_value
  inputs_fit offer accept shares o a total h =
      let (sum, e, _) = >>=-eq-ok (checked_add offer.input_amount accept.input_amount) _ h in
      omega (arith, checked_add_ok offer.input_amount accept.input_amount e)

  funding_outputs :
      (s : Script) (value : ℕ) (oi : List TxIn) (oids : List ℕ) (ai : List TxIn) (aids : List ℕ)
      (oc : TxOut) (ocid : ℕ) (ac : TxOut) (acid fid lock_time : ℕ) {tx : Transaction}
      {script : Script}
      → ◌≡◌ {A = Outcome Error (Transaction × Script)}
          (ok (
            create_funding_transaction bitcoin s value oi oids ai aids oc ocid ac acid fid
                lock_time,
            s,
          ))
          (ok (tx, script))
      → tx.output
        ≡ discard_dust
            (order_by_serial_ids
              (record { value = value; script_pubkey = to_v0_p2wsh script } ∷ oc ∷ ac ∷ [])
              (fid ∷ ocid ∷ acid ∷ []))
            dust_limit
  unfolding create_funding_transaction
  funding_outputs s value oi oids ai aids oc ocid ac acid fid lock_time {tx} {script} h =
      let e : script ≡ s = cc in rw e (ap (λ (t : Transaction). t.output) (sym (ok-fst h)))

  -- When a fund transaction is created from 64-bit amounts, every satoshi that the two parties put in goes
  -- to the fund output, to their change or to the miners, and the fund output holds both collaterals, the
  -- fees that both reserve for the closing transaction, and the extra fee.
  pub create_fund_transaction-FundSplit :
      (offer accept : PartyParams) (rate lock_time fund_output_id extra_fee : ℕ)
      (config : FeeConfig) {tx : Transaction} {script : Script}
      → IsU64 offer.input_amount
      → IsU64 accept.input_amount
      → IsU64 extra_fee
      → create_fund_transaction_with_fees bitcoin offer accept rate lock_time fund_output_id
          extra_fee config
        ≡ ok (tx, script)
      → FundSplit offer accept rate fund_output_id extra_fee config script tx
  unfolding create_fund_transaction_with_fees
  create_fund_transaction-FundSplit offer accept rate lock_time id extra_fee config ho ha he h =
      let shares = extra_fee_shares config extra_fee in
      let (total, e₀, h₀) = >>=-eq-ok (checked_add offer.collateral accept.collateral) _ h in
      let (o, e₁, h₁) =
        >>=-eq-ok (get_change_output_and_fees push_slice offer rate shares.0 config true) _ h₀ in
      let (a, e₂, h₂) =
        >>=-eq-ok (get_change_output_and_fees push_slice accept rate shares.1 config false) _ h₁ in
      let (v, e₃, h₃) = >>=-eq-ok (fund_output_value offer accept shares o a total) _ h₂ in
      let bo =
        get_change_output_and_fees-Balanced push_slice offer rate shares.0 config true ho e₁ in
      let ba =
        get_change_output_and_fees-Balanced push_slice accept rate shares.1 config false ha e₂ in
      let sum = checked_add_ok offer.collateral accept.collateral e₀ in
      let split = extra_fee_shares_sum config extra_fee he in
      let worth =
        fund_output_value_lem offer accept shares.0 shares.1 o a total bo ba sum.0
          (inputs_fit offer accept shares o a total e₃) in
      let offer_ins =
        get_unsigned_tx_inputs_and_serial_ids push_slice offer.inputs (get_sequence lock_time) in
      let accept_ins =
        get_unsigned_tx_inputs_and_serial_ids push_slice accept.inputs (get_sequence lock_time) in
      let same : v ≡ total + o.2 + a.2 + shares.0 + shares.1 = cc in
      record {
        value = v;
        o = o;
        a = a;
        offer_pays = e₁;
        accept_pays = e₂;
        worth = omega arith;
        conserved = omega arith;
        outputs =
            funding_outputs (make_funding_redeemscript bitcoin offer.fund_pubkey accept.fund_pubkey)
              _ offer_ins.0 offer_ins.1 accept_ins.0 accept_ins.1 _ _ _ _ _ _ h₃;
      }

  -- Creating a fund transaction from 64-bit input amounts does not panic: neither assertion on the value
  -- of the fund output can fail.
  pub create_fund_transaction-IsSafe :
      (offer accept : PartyParams) (rate lock_time fund_output_id extra_fee : ℕ)
      (config : FeeConfig)
      → IsU64 offer.input_amount
      → IsU64 accept.input_amount
      → IsSafe (
          create_fund_transaction_with_fees bitcoin offer accept rate lock_time fund_output_id
            extra_fee config)
  unfolding create_fund_transaction_with_fees
  create_fund_transaction-IsSafe offer accept rate lock_time id extra_fee config ho ha =
      let shares = extra_fee_shares config extra_fee in
      >>=-IsSafe (checked_add offer.collateral accept.collateral) _ (checked_add-IsSafe _ _)
        (λ total e₀.
          >>=-IsSafe (get_change_output_and_fees push_slice offer rate shares.0 config true) _
            (get_change_output_and_fees-IsSafe push_slice offer rate shares.0 config true)
            (λ o e₁.
              >>=-IsSafe (get_change_output_and_fees push_slice accept rate shares.1 config false) _
                (get_change_output_and_fees-IsSafe push_slice accept rate shares.1 config false)
                (λ a e₂.
                  >>=-IsSafe (fund_output_value offer accept shares o a total) _
                    (fund_output_value-IsSafe offer accept shares.0 shares.1 o a total
                      (get_change_output_and_fees-Balanced push_slice offer rate shares.0 config
                        true ho e₁)
                      (get_change_output_and_fees-Balanced push_slice accept rate shares.1 config
                        false ha e₂)
                      (checked_add_ok offer.collateral accept.collateral e₀).0)
                    (λ value _. ok-IsSafe _))))
