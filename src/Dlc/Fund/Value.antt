-- ===== src/Dlc/Fund/Value.antt =====
-- The assertions of `create_fund_transaction_with_fees` hold, and what the fund output is worth.
use rust_dlc.Base.{ℕ, ◌+◌, ◌≡◌, sym, true, ok, ltb, ◌==◌, ==_iff, arith}
use rust_dlc.Dlc.Types.{
  FeeConfig, even_split, all_offer, all_accept, TxOut, PartyParams, u64_mod, IsU64, add64, sub64,
  checked_add,
}
use rust_dlc.Dlc.Party.{Balanced}
use rust_dlc.Dlc.Fund.{extra_fee_shares, fund_output_value}

-- The two shares make up the extra fee.
pub extra_fee_shares_sum :
    (config : FeeConfig) (extra_fee : ℕ)
    → IsU64 extra_fee
    → (extra_fee_shares config extra_fee).0 + (extra_fee_shares config extra_fee).1 ≡ extra_fee
unfolding extra_fee_shares
extra_fee_shares_sum even_split extra_fee h = omega arith
extra_fee_shares_sum all_offer extra_fee h = omega arith
extra_fee_shares_sum all_accept extra_fee h = omega arith

-- The wrapping differences and sums, where the numbers add up.
differences :
    (io ia co ca fo fa v : ℕ)
    → IsU64 (io + ia)
    → io + ia ≡ v + co + ca + fo + fa
    → (sub64 (sub64 (sub64 (sub64 (io + ia) co) ca) fo) fa ≡ v)
      × (add64 io ia ≡ add64 (add64 (add64 (add64 v co) ca) fo) fa)
differences io ia co ca fo fa v h e = omega arith

sums :
    (t oc ac oe ae : ℕ)
    → IsU64 (t + oc + ac + oe + ae)
    → add64 (add64 (add64 (add64 t oc) ac) oe) ae ≡ t + oc + ac + oe + ae
sums t oc ac oe ae h = omega arith

eq→== : (a b : ℕ) → a ≡ b → (a == b) ≡ true
eq→== a b e = (==_iff a b).1 e

-- When each party's amounts balance and the sum of the inputs fits 64 bits, both assertions pass,
-- and the fund output holds the collateral, the fees of the closing transaction and the extra fee.
pub fund_output_value_lem :
    (offer accept : PartyParams) (oe ae : ℕ) (o a : TxOut × ℕ × ℕ) (total : ℕ)
    → Balanced offer oe o
    → Balanced accept ae a
    → total ≡ offer.collateral + accept.collateral
    → IsU64 (offer.input_amount + accept.input_amount)
    → fund_output_value offer accept (oe, ae) o a total ≡ ok (total + o.2 + a.2 + oe + ae)
unfolding fund_output_value checked_add
fund_output_value_lem offer accept oe ae o a total ho ha ht small =
    let io = offer.input_amount in
    let ia = accept.input_amount in
    let v = total + o.2 + a.2 + oe + ae in
    let even : io + ia ≡ v + o.0.value + a.0.value + o.1 + a.1 = omega arith in
    let (below, again) = differences io ia o.0.value a.0.value o.1 a.1 v small even in
    let fits : ltb (io + ia) u64_mod ≡ true = ground arith in
    let passed =
      eq→== v (add64 (add64 (add64 (add64 total o.2) a.2) oe) ae)
        (sym (sums total o.2 a.2 oe ae (omega arith))) in
    rw fits (rw below (rw passed (rw (eq→== _ _ again))))
