-- ===== src/Dlc/Party.antt =====
-- dlc/src/lib.rs, `impl PartyParams`: what one party pays for and the change that it gets back.
use rust_dlc.Base.{
  ℕ, ◌+◌, ◌*◌, ◌-◌, ◌/◌, ◌≤◌, ◌≡◌, Bool, true, false, Outcome, ok, ◌>>=◌, ◌>>◌, >>=-eq-ok, require,
  ltb, leb, ◌==◌, if◌then◌else◌, arith, length, List, [], ◌∷◌,
}
use rust_dlc.Dlc.Types.{
  Error, invalid_argument, failed_to_multiply_script, failed_to_multiply_change,
  input_amount_too_small, change_below_cost, FeeConfig, even_split, all_offer, all_accept, Script,
  TxOut, TxIn, TxInputInfo, PartyParams, fund_tx_base_weight, cet_base_weight, tx_input_base_weight,
  IsU64, add64, mul64, checked_add, checked_mul,
}
use rust_dlc.Dlc.Fee.{
  weight_to_fee, tx_weight_to_fee, dlc_payout_spk_fee, redeem_script_to_script_sig,
}

-- The factors 1.0, 0.5 and 0.0, in halves; the products with 214 and 500 are exact in `f32`.
unfoldable pub fee_halves : FeeConfig → Bool → ℕ
fee_halves all_offer true = 2
fee_halves all_accept false = 2
fee_halves even_split _ = 1
fee_halves all_offer false = 0
fee_halves all_accept true = 0

-- `match (fee_config, is_offer)` on the fee for the payout output.
unfoldable pub output_spk_share : FeeConfig → Bool → ℕ → ℕ
output_spk_share all_offer true fee = mul64 fee 2
output_spk_share all_accept false fee = mul64 fee 2
output_spk_share even_split _ fee = fee
output_spk_share all_offer false fee = 0
output_spk_share all_accept true fee = 0

-- `checked_add!` of three and of four arguments.
unfoldable pub checked_add₃ : ℕ → ℕ → ℕ → Outcome Error ℕ
checked_add₃ a b c = do ab ← checked_add a b; checked_add ab c

unfoldable pub checked_add₄ : ℕ → ℕ → ℕ → ℕ → Outcome Error ℕ
unfolding checked_add₃
checked_add₄ a b c d = do abc ← checked_add₃ a b c; checked_add abc d

module _ (push_slice : Script → Script) where
  -- The loop over `self.inputs`.
  unfoldable pub inputs_weight : ℕ → List TxInputInfo → Outcome Error ℕ
  inputs_weight weight [] = ok weight
  inputs_weight weight (w ∷ inputs) = do
    script_weight ←
        checked_mul (length (redeem_script_to_script_sig push_slice w.redeem_script)) 4
          failed_to_multiply_script
    total ← checked_add₄ weight tx_input_base_weight script_weight w.max_witness_len
    inputs_weight total inputs

  -- Up to `cet_or_refund_fee`: the fee for the fund transaction without the change output, and that
  -- for the CET or the refund transaction.
  unfoldable pub fees_without_change : PartyParams → ℕ → FeeConfig → Bool → Outcome Error (ℕ × ℕ)
  unfolding inputs_weight fee_halves output_spk_share
  fees_without_change p rate config is_offer = do
    weight ← inputs_weight 0 p.inputs
    fund_weight ← checked_add (fund_tx_base_weight * fee_halves config is_offer / 2) weight
    fund_fee ← (if ltb 0 weight then tx_weight_to_fee fund_weight rate else ok 0)
    let output_spk_fee =
        output_spk_share config is_offer (dlc_payout_spk_fee p.payout_script_pubkey rate)
    base_fee ← weight_to_fee (cet_base_weight * fee_halves config is_offer / 2) rate
    cet_fee ← checked_add base_fee output_spk_fee
    ok (fund_fee, cet_fee)

-- The block that ends in `(change_amount, change_fee)`.
unfoldable pub change_amount_and_fee : ℕ → Script → ℕ → Outcome Error (ℕ × ℕ)
change_amount_and_fee leftover change_script rate = if leftover == 0 then ok (0, 0) else (do
  script_weight ← checked_mul (length change_script) 4 failed_to_multiply_change
  change_fee ← weight_to_fee (add64 36 script_weight) rate
  require (leb change_fee leftover) (invalid_argument change_below_cost)
  ok (leftover - change_fee, change_fee))

-- From `required_input_funds` on.
unfoldable pub settle_change : PartyParams → ℕ → ℕ → ℕ → ℕ → Outcome Error (TxOut × ℕ × ℕ)
unfolding change_amount_and_fee
settle_change p rate extra_fee fund_fee cet_fee = do
  required ← checked_add₄ p.collateral fund_fee cet_fee extra_fee
  require (leb required p.input_amount) (invalid_argument input_amount_too_small)
  (amount, change_fee) ←
      change_amount_and_fee (p.input_amount - required) p.change_script_pubkey rate
  ok (
    record { value = amount; script_pubkey = p.change_script_pubkey },
    add64 fund_fee change_fee,
    cet_fee,
  )

module _ (push_slice : Script → Script) where
  unfoldable pub get_change_output_and_fees :
      PartyParams → ℕ → ℕ → FeeConfig → Bool → Outcome Error (TxOut × ℕ × ℕ)
  unfolding fees_without_change settle_change
  get_change_output_and_fees p rate extra_fee config is_offer = do
    (fund_fee, cet_fee) ← fees_without_change push_slice p rate config is_offer
    settle_change p rate extra_fee fund_fee cet_fee

  unfoldable pub get_unsigned_tx_inputs_and_serial_ids : List TxInputInfo → ℕ → List TxIn × List ℕ
  get_unsigned_tx_inputs_and_serial_ids [] sequence = ([], [])
  get_unsigned_tx_inputs_and_serial_ids (input ∷ inputs) sequence =
      let (tx_ins, serial_ids) = get_unsigned_tx_inputs_and_serial_ids inputs sequence in
      let tx_in : TxIn = record {
        previous_output = input.outpoint;
        script_sig = redeem_script_to_script_sig push_slice input.redeem_script;
        sequence = sequence;
      } in
      (tx_in ∷ tx_ins, input.serial_id ∷ serial_ids)

-- What a party puts in is what it pays out: its collateral, its fees and its change.
abbrev pub Balanced : PartyParams → ℕ → TxOut × ℕ × ℕ → Type 0
Balanced p extra_fee (change, fund_fee, cet_fee) =
    p.input_amount ≡ p.collateral + fund_fee + cet_fee + extra_fee + change.value

checked_add₄_ok : (a b c d : ℕ) {e : ℕ} → checked_add₄ a b c d ≡ ok e → e ≡ a + b + c + d
unfolding checked_add₄ checked_add
checked_add₄_ok a b c d h = ground arith

change_amount_and_fee_ok :
    (leftover : ℕ) (script : Script) (rate : ℕ) {r : ℕ × ℕ}
    → change_amount_and_fee leftover script rate ≡ ok r
    → r.0 + r.1 ≡ leftover
unfolding change_amount_and_fee
change_amount_and_fee_ok leftover script rate h = ground arith

balance :
    (p : PartyParams) (extra_fee fund_fee cet_fee required : ℕ) (c : ℕ × ℕ) {r : TxOut × ℕ × ℕ}
    → IsU64 p.input_amount
    → required ≡ p.collateral + fund_fee + cet_fee + extra_fee
    → required ≤ p.input_amount
    → c.0 + c.1 ≡ p.input_amount - required
    → ◌≡◌ {A = Outcome Error (TxOut × ℕ × ℕ)}
        (ok (
          record { value = c.0; script_pubkey = p.change_script_pubkey },
          add64 fund_fee c.1,
          cet_fee,
        ))
        (ok r)
    → Balanced p extra_fee r
balance p extra_fee fund_fee cet_fee required c small e le sum h = ground arith

-- The change is what is left of the inputs after the collateral and every fee: nothing is lost and
-- nothing is paid twice.
pub settle_change-Balanced :
    (p : PartyParams) (rate extra_fee fund_fee cet_fee : ℕ) {r : TxOut × ℕ × ℕ}
    → IsU64 p.input_amount
    → settle_change p rate extra_fee fund_fee cet_fee ≡ ok r
    → Balanced p extra_fee r
unfolding settle_change
settle_change-Balanced p rate extra_fee fund_fee cet_fee small h =
    let (required, e, h₁) = >>=-eq-ok (checked_add₄ p.collateral fund_fee cet_fee extra_fee) _ h in
    let (_, covered, h₂) =
      >>=-eq-ok (require (leb required p.input_amount) (invalid_argument input_amount_too_small)) _
        h₁ in
    let (r, f, h₃) =
      >>=-eq-ok (change_amount_and_fee (p.input_amount - required) p.change_script_pubkey rate) _
        h₂ in
    balance p extra_fee fund_fee cet_fee required r small
      (checked_add₄_ok p.collateral fund_fee cet_fee extra_fee e) (ground arith)
      (change_amount_and_fee_ok (p.input_amount - required) p.change_script_pubkey rate f) h₃

module _ (push_slice : Script → Script) where
  -- With a 64-bit input amount, what a party puts in is exactly its collateral, its fees for the fund
  -- transaction and for the CET or refund transaction, its extra fee, and its change.
  pub get_change_output_and_fees-Balanced :
      (p : PartyParams) (rate extra_fee : ℕ) (config : FeeConfig) (is_offer : Bool)
      {r : TxOut × ℕ × ℕ}
      → IsU64 p.input_amount
      → get_change_output_and_fees push_slice p rate extra_fee config is_offer ≡ ok r
      → Balanced p extra_fee r
  unfolding get_change_output_and_fees
  get_change_output_and_fees-Balanced p rate extra_fee config is_offer small h =
      let ((fund_fee, cet_fee), e, h₁) =
        >>=-eq-ok (fees_without_change push_slice p rate config is_offer) _ h in
      settle_change-Balanced p rate extra_fee fund_fee cet_fee small h₁
