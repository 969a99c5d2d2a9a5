-- ===== src/Dlc/Fund/Safe.antt =====
-- Creating the fund transaction never panics.
use rust_dlc.Base.{
  ℕ, ◌*◌, ◌-◌, ◌/◌, Bool, true, false, ok, require, ltb, leb, ◌==◌, if◌then◌else◌, arith, length,
  List, [], ◌∷◌, Bool-cases, inl, inr, IsSafe, >>=-IsSafe,
}
use rust_dlc.Dlc.Types.{
  Error, Reason, invalid_argument, failed_to_multiply_script, failed_to_multiply_change,
  input_amount_too_small, change_below_cost, FeeConfig, Script, TxInputInfo, PartyParams,
  fund_tx_base_weight, cet_base_weight, tx_input_base_weight, add64, checked_add, checked_mul,
}
use rust_dlc.Dlc.Fee.{
  weight_to_fee, tx_weight_to_fee, dlc_payout_spk_fee, redeem_script_to_script_sig,
}
use rust_dlc.Dlc.Party.{
  fee_halves, output_spk_share, checked_add₄, inputs_weight, fees_without_change,
  change_amount_and_fee, settle_change, get_change_output_and_fees,
}

pub checked_add-IsSafe : (a b : ℕ) → IsSafe (checked_add a b)
unfolding checked_add
checked_add-IsSafe a b = ground arith

pub checked_mul-IsSafe : (a b : ℕ) (r : Reason) → IsSafe (checked_mul a b r)
unfolding checked_mul
checked_mul-IsSafe a b r = ground arith

pub require-IsSafe : (t : Bool) (e : Error) → IsSafe (require t e)
require-IsSafe true e = λ h. cc
require-IsSafe false e = λ h. cc

pub ok-IsSafe {ℓ} : {A : Type ℓ} (a : A) → IsSafe {E = Error} (ok a)
ok-IsSafe a = λ h. cc

checked_add₄-IsSafe : (a b c d : ℕ) → IsSafe (checked_add₄ a b c d)
unfolding checked_add₄ checked_add
checked_add₄-IsSafe a b c d = ground arith

pub weight_to_fee-IsSafe : (w rate : ℕ) → IsSafe (weight_to_fee w rate)
unfolding weight_to_fee
weight_to_fee-IsSafe w rate = checked_mul-IsSafe _ rate _

pub tx_weight_to_fee-IsSafe : (w rate : ℕ) → IsSafe (tx_weight_to_fee w rate)
unfolding tx_weight_to_fee
tx_weight_to_fee-IsSafe w rate =
    >>=-IsSafe (weight_to_fee w rate) _ (weight_to_fee-IsSafe w rate) (λ fee _. ok-IsSafe _)

change_amount_and_fee-IsSafe :
    (leftover : ℕ) (script : Script) (rate : ℕ)
    → IsSafe (change_amount_and_fee leftover script rate)
unfolding change_amount_and_fee
change_amount_and_fee-IsSafe leftover script rate = elim (Bool-cases (leftover == 0)) [
  | inl e ↦ rw e (ok-IsSafe _)
  | inr e ↦ rw e (
      >>=-IsSafe (checked_mul (length script) 4 failed_to_multiply_change) _
        (checked_mul-IsSafe _ 4 _)
        (λ weight _.
          >>=-IsSafe (weight_to_fee (add64 36 weight) rate) _ (weight_to_fee-IsSafe _ rate)
            (λ fee _.
              >>=-IsSafe (require (leb fee leftover) (invalid_argument change_below_cost)) _
                (require-IsSafe _ _) (λ _ _. ok-IsSafe _))))
]

settle_change-IsSafe :
    (p : PartyParams) (rate extra_fee fund_fee cet_fee : ℕ)
    → IsSafe (settle_change p rate extra_fee fund_fee cet_fee)
unfolding settle_change
settle_change-IsSafe p rate extra_fee fund_fee cet_fee =
    >>=-IsSafe (checked_add₄ p.collateral fund_fee cet_fee extra_fee) _
      (checked_add₄-IsSafe _ _ _ _)
      (λ required _.
        >>=-IsSafe (require (leb required p.input_amount) (invalid_argument input_amount_too_small))
          _ (require-IsSafe _ _)
          (λ _ _.
            >>=-IsSafe
              (change_amount_and_fee (p.input_amount - required) p.change_script_pubkey rate) _
              (change_amount_and_fee-IsSafe _ _ rate) (λ _ _. ok-IsSafe _)))

module _ (push_slice : Script → Script) where
  inputs_weight-IsSafe :
      (weight : ℕ) (inputs : List TxInputInfo) → IsSafe (inputs_weight push_slice weight inputs)
  unfolding inputs_weight
  inputs_weight-IsSafe weight [] = ok-IsSafe weight
  inputs_weight-IsSafe weight (w ∷ inputs) =
      >>=-IsSafe
        (checked_mul (length (redeem_script_to_script_sig push_slice w.redeem_script)) 4
          failed_to_multiply_script)
        _ (checked_mul-IsSafe _ 4 _)
        (λ script_weight _.
          >>=-IsSafe (checked_add₄ weight tx_input_base_weight script_weight w.max_witness_len) _
            (checked_add₄-IsSafe _ _ _ _) (λ total _. inputs_weight-IsSafe total inputs))

  fees_without_change-IsSafe :
      (p : PartyParams) (rate : ℕ) (config : FeeConfig) (is_offer : Bool)
      → IsSafe (fees_without_change push_slice p rate config is_offer)
  unfolding fees_without_change
  fees_without_change-IsSafe p rate config is_offer =
      >>=-IsSafe (inputs_weight push_slice 0 p.inputs) _ (inputs_weight-IsSafe 0 p.inputs)
        (λ weight _.
          >>=-IsSafe (checked_add (fund_tx_base_weight * fee_halves config is_offer / 2) weight) _
            (checked_add-IsSafe _ weight)
            (λ fund_weight _.
              >>=-IsSafe (if ltb 0 weight then tx_weight_to_fee fund_weight rate else ok 0) _
                (elim (Bool-cases (ltb 0 weight)) [
                  | inl e ↦ rw e (tx_weight_to_fee-IsSafe fund_weight rate)
                  | inr e ↦ rw e (ok-IsSafe _)
                ])
                (λ fund_fee _.
                  >>=-IsSafe (weight_to_fee (cet_base_weight * fee_halves config is_offer / 2) rate)
                    _ (weight_to_fee-IsSafe _ rate)
                    (λ base_fee _.
                      >>=-IsSafe
                        (checked_add base_fee (
                          output_spk_share config is_offer
                            (dlc_payout_spk_fee p.payout_script_pubkey rate)))
                        _ (checked_add-IsSafe base_fee _) (λ cet_fee _. ok-IsSafe _)))))

  pub get_change_output_and_fees-IsSafe :
      (p : PartyParams) (rate extra_fee : ℕ) (config : FeeConfig) (is_offer : Bool)
      → IsSafe (get_change_output_and_fees push_slice p rate extra_fee config is_offer)
  unfolding get_change_output_and_fees
  get_change_output_and_fees-IsSafe p rate extra_fee config is_offer =
      >>=-IsSafe (fees_without_change push_slice p rate config is_offer) _
        (fees_without_change-IsSafe p rate config is_offer)
        (λ fees _. settle_change-IsSafe p rate extra_fee fees.0 fees.1)
