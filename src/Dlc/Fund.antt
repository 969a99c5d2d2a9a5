-- ===== src/Dlc/Fund.antt =====
-- dlc/src/lib.rs: the fund transaction, from the parameters of both parties.
pub mod Value
pub mod Split
pub mod Safe
use rust_dlc.Base.{
  ℕ, ◌+◌, ◌*◌, ◌-◌, ◌/◌, ◌%◌, ◌^◌, ◌<◌, ◌≤◌, ◌≡◌, ◌≢◌, refl, Bool, true, false, Outcome, ok, err,
  panic, ◌>>=◌, ◌>>◌, >>=-eq-ok, assert, leb, ◌==◌, ==_iff, if◌then◌else◌, arith, length, List, [],
  ◌∷◌, ◌++◌, All, Bool-cases, inl, inr,
}
use rust_dlc.Dlc.Types.{
  Error, FeeConfig, even_split, all_offer, all_accept, Script, OutPoint, TxOut, TxIn, TxInputInfo,
  Transaction, PartyParams, Bitcoin, dust_limit, tx_version, u64_mod, IsU64, add64, sub64,
  checked_add, checked_add_ok,
}
use rust_dlc.Dlc.Fee.{get_sequence, discard_dust}
use rust_dlc.Dlc.Party.{
  get_change_output_and_fees, get_unsigned_tx_inputs_and_serial_ids, Balanced,
  get_change_output_and_fees-Balanced,
}
use rust_dlc.Dlc.Order.{order_by_serial_ids}

-- `match fee_config` on the extra fee: the shares of the offer and of the accept party.
unfoldable pub extra_fee_shares : FeeConfig → ℕ → ℕ × ℕ
extra_fee_shares even_split extra_fee = (add64 (extra_fee / 2) (extra_fee % 2), extra_fee / 2)
extra_fee_shares all_offer extra_fee = (extra_fee, 0)
extra_fee_shares all_accept extra_fee = (0, extra_fee)

-- `fund_output_value` with the two assertions on it.
unfoldable pub fund_output_value :
    PartyParams → PartyParams → ℕ × ℕ → TxOut × ℕ × ℕ → TxOut × ℕ × ℕ → ℕ → Outcome Error ℕ
fund_output_value offer accept (oe, ae) (oc, of, ocet) (ac, af, acet) total_collateral = do
  inputs ← checked_add offer.input_amount accept.input_amount
  let value = sub64 (sub64 (sub64 (sub64 inputs oc.value) ac.value) of) af
  assert (value == add64 (add64 (add64 (add64 total_collateral ocet) acet) oe) ae)
  assert (
      add64 offer.input_amount accept.input_amount
      == add64 (add64 (add64 (add64 value oc.value) ac.value) of) af)
  ok value

module _ (bitcoin : Bitcoin) where
  open bitcoin use {push_slice, op_pushnum_2, op_checkmultisig, to_v0_p2wsh, key_le, serialize}

  -- The script that takes a signature of each of two keys, the lesser key first.
  unfoldable pub make_funding_redeemscript : ℕ → ℕ → Script
  make_funding_redeemscript a b =
      let first = if key_le a b then a else b in
      let second = if key_le a b then b else a in
      (op_pushnum_2 ∷ [])
      ++ (push_slice (serialize first)
          ++ (push_slice (serialize second) ++ (op_pushnum_2 ∷ op_checkmultisig ∷ [])))

  unfoldable pub create_funding_transaction :
      Script
      → ℕ
      → List TxIn
      → List ℕ
      → List TxIn
      → List ℕ
      → TxOut
      → ℕ
      → TxOut
      → ℕ
      → ℕ
      → ℕ
      → Transaction
  create_funding_transaction funding_script_pubkey output_amount offer_inputs offer_ids
        accept_inputs accept_ids offer_change offer_change_id accept_change accept_change_id
        fund_output_id lock_time =
      let fund_tx_out : TxOut = record {
        value = output_amount;
        script_pubkey = to_v0_p2wsh funding_script_pubkey;
      } in
      record {
        version = tx_version;
        lock_time = lock_time;
        input = order_by_serial_ids (offer_inputs ++ accept_inputs) (offer_ids ++ accept_ids);
        output =
            discard_dust
              (order_by_serial_ids (fund_tx_out ∷ offer_change ∷ accept_change ∷ [])
                (fund_output_id ∷ offer_change_id ∷ accept_change_id ∷ []))
              dust_limit;
      }

  unfoldable pub create_fund_transaction_with_fees :
      PartyParams → PartyParams → ℕ → ℕ → ℕ → ℕ → FeeConfig → Outcome Error (Transaction × Script)
  unfolding extra_fee_shares fund_output_value make_funding_redeemscript create_funding_transaction
  create_fund_transaction_with_fees offer accept rate lock_time fund_output_id extra_fee config = do
    total_collateral ← checked_add offer.collateral accept.collateral
    let shares = extra_fee_shares config extra_fee
    o ← get_change_output_and_fees push_slice offer rate shares.0 config true
    a ← get_change_output_and_fees push_slice accept rate shares.1 config false
    value ← fund_output_value offer accept shares o a total_collateral
    let sequence = get_sequence lock_time
    let (offer_ins, offer_ids) =
        get_unsigned_tx_inputs_and_serial_ids push_slice offer.inputs sequence
    let (accept_ins, accept_ids) =
        get_unsigned_tx_inputs_and_serial_ids push_slice accept.inputs sequence
    let script = make_funding_redeemscript offer.fund_pubkey accept.fund_pubkey
    ok (
      create_funding_transaction script value offer_ins offer_ids accept_ins accept_ids o.0
          offer.change_serial_id a.0 accept.change_serial_id fund_output_id lock_time,
      script,
    )
