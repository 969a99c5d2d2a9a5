-- ===== src/Dlc/Tests.antt =====
-- The theorems on the transactions, at a contract of two parties.
pub mod Data
use mathlib.Core.Path.{subst}
use rust_dlc.Base.{
  ◌↔◌, ℕ, ◌≡◌, refl, sym, ◌≤◌, ◌<◌, ◌+◌, ◌*◌, ◌/◌, leb, Outcome, ok, err, panic, List, [], ◌∷◌,
  ◌++◌, Option, none, some, arith, true, false, length, IsSafe,
}
use rust_dlc.Base.Float.{f64_quarter_ceil}
use rust_dlc.Dlc.Types.{
  Error, FeeConfig, even_split, Script, OutPoint, TxOut, TxIn, Transaction, Payout, PartyParams,
  checked_add, checked_mul, dust_limit, IsU64,
}
use rust_dlc.Dlc.Fee.{
  weight_to_fee, tx_weight_to_fee, dlc_payout_spk_fee, redeem_script_to_script_sig, get_sequence,
  discard_dust, get_output_for_script_pubkey, find_output, weight_to_fee_eq, dlc_channel_extra_fee,
}
use rust_dlc.Dlc.Fund.{extra_fee_shares}
use rust_dlc.Dlc.Party.{
  checked_add₄, get_change_output_and_fees, get_unsigned_tx_inputs_and_serial_ids, Balanced,
  get_change_output_and_fees-Balanced,
}
use rust_dlc.Dlc.Order.{
  order_by_serial_ids, order_by_serial_ids-perm, sort_by_id, IsOrdered, sort_by_id-IsOrdered,
}
use rust_dlc.Dlc.Fund.{create_fund_transaction_with_fees}
use rust_dlc.Dlc.Fund.Split.{
  FundSplit, create_fund_transaction-FundSplit, create_fund_transaction-IsSafe,
}
use rust_dlc.Dlc.Cet.{
  create_cet, create_cets_and_refund_tx, create_dlc_transactions, cets_and_refund,
}
use rust_dlc.Dlc.Cet.Payouts.{Proper, PaysOut, create_cets_and_refund_tx_iff, ok-inj}
use rust_dlc.Dlc.Cet.Whole.{
  create_dlc_transactions-PaysOut, create_dlc_transactions-IsSafe, create_dlc_transactions_dust,
}
use rust_dlc.Dlc.Channel.{
  create_renewal_channel_transactions, create_settle_transaction, channel_fund_output,
}
use rust_dlc.Dlc.Channel.Settle.{
  Settles, create_settle_transaction-Settles, create_settle_transaction_dust,
}
use rust_dlc.Dlc.Channel.Renew.{Buffered, create_renewal_channel_transactions-Buffered}
use rust_dlc.Dlc.Tests.Data.{
  toy_bitcoin, alice, bob, small_alice, small_bob, payouts, keys, toy_descriptors, funding_script,
  fund_tx, small_fund_tx, contract, channel,
}
use mathlib.Core.List.{Perm}

create_fund_transaction-FundSplit_example :
    FundSplit toy_bitcoin alice bob 2 7 10 even_split funding_script fund_tx
unfolding create_fund_transaction_with_fees get_change_output_and_fees checked_add checked_mul
    weight_to_fee tx_weight_to_fee f64_quarter_ceil dlc_payout_spk_fee redeem_script_to_script_sig
    get_sequence discard_dust get_unsigned_tx_inputs_and_serial_ids order_by_serial_ids checked_add₄
    extra_fee_shares
create_fund_transaction-FundSplit_example =
    create_fund_transaction-FundSplit toy_bitcoin alice bob 2 0 7 10 even_split (omega arith)
      (omega arith) (omega arith) refl

create_fund_transaction-IsSafe_example :
    IsSafe (create_fund_transaction_with_fees toy_bitcoin alice bob 2 0 7 10 even_split)
create_fund_transaction-IsSafe_example =
    create_fund_transaction-IsSafe toy_bitcoin alice bob 2 0 7 10 even_split (omega arith)
      (omega arith)

create_dlc_transactions-PaysOut_example :
    Proper 110000 payouts × PaysOut 110000 payouts (contract.cets, contract.refund)
unfolding create_dlc_transactions create_fund_transaction_with_fees get_change_output_and_fees
    checked_add checked_mul weight_to_fee tx_weight_to_fee f64_quarter_ceil dlc_payout_spk_fee
    redeem_script_to_script_sig get_sequence discard_dust get_unsigned_tx_inputs_and_serial_ids
    order_by_serial_ids checked_add₄ get_output_for_script_pubkey find_output create_cet
create_dlc_transactions-PaysOut_example =
    create_dlc_transactions-PaysOut toy_bitcoin alice bob payouts 100 2 0 50 7 even_split refl

create_dlc_transactions-IsSafe_example :
    IsSafe (create_dlc_transactions toy_bitcoin alice bob payouts 100 2 0 50 7 even_split)
create_dlc_transactions-IsSafe_example =
    create_dlc_transactions-IsSafe toy_bitcoin alice bob payouts 100 2 0 50 7 even_split
      (omega arith) (omega arith) (omega arith)

small_split :
    FundSplit toy_bitcoin small_alice small_bob 1 7 0 even_split funding_script small_fund_tx
unfolding create_fund_transaction_with_fees get_change_output_and_fees checked_add checked_mul
    weight_to_fee tx_weight_to_fee f64_quarter_ceil dlc_payout_spk_fee redeem_script_to_script_sig
    get_sequence discard_dust get_unsigned_tx_inputs_and_serial_ids order_by_serial_ids checked_add₄
    extra_fee_shares
small_split = record {
  value = 448;
  o = (record { value = 1662; script_pubkey = 1 ∷ 1 ∷ [] }, 164, 74);
  a = (record { value = 2562; script_pubkey = 2 ∷ 1 ∷ [] }, 164, 74);
  offer_pays = refl;
  accept_pays = refl;
  worth = refl;
  conserved = refl;
  outputs = refl;
}

create_dlc_transactions_dust_example :
    create_dlc_transactions toy_bitcoin small_alice small_bob payouts 100 1 0 50 7 even_split
    ≡ panic
unfolding create_fund_transaction_with_fees get_change_output_and_fees checked_add checked_mul
    weight_to_fee tx_weight_to_fee f64_quarter_ceil dlc_payout_spk_fee redeem_script_to_script_sig
    get_sequence discard_dust get_unsigned_tx_inputs_and_serial_ids order_by_serial_ids checked_add₄
    small_split
create_dlc_transactions_dust_example =
    create_dlc_transactions_dust toy_bitcoin small_alice small_bob payouts 100 1 0 50 7 even_split
      small_split refl (omega arith) refl refl

create_cets_and_refund_tx_iff_example :
    ((r : List Transaction × Transaction) × (create_cets_and_refund_tx alice bob
          (record { txid = 3; vout = 1 })
          payouts
          100
          50
          none
        ≡ ok r)
      × PaysOut 110000 payouts r)
    ↔ Proper 110000 payouts
create_cets_and_refund_tx_iff_example =
    create_cets_and_refund_tx_iff alice bob (record { txid = 3; vout = 1 }) payouts 100 50 none
      (omega arith)

get_change_output_and_fees-Balanced_example :
    Balanced alice 5 (record { value = 39635; script_pubkey = 1 ∷ 1 ∷ [] }, 212, 148)
unfolding create_fund_transaction_with_fees get_change_output_and_fees checked_add checked_mul
    weight_to_fee tx_weight_to_fee f64_quarter_ceil dlc_payout_spk_fee redeem_script_to_script_sig
    get_sequence discard_dust get_unsigned_tx_inputs_and_serial_ids order_by_serial_ids checked_add₄
    extra_fee_shares
get_change_output_and_fees-Balanced_example =
    get_change_output_and_fees-Balanced toy_bitcoin.push_slice alice 2 5 even_split true
      (omega arith) refl

create_settle_transaction-Settles_example :
    (tx : Transaction) × (create_settle_transaction toy_descriptors
        (record { txid = 1; vout = 0 })
        keys
        keys
        60000
        50000
        9
        0
        112000
        2
      ≡ ok tx)
    × Settles 112000 460 tx.output
unfolding tx_weight_to_fee weight_to_fee checked_mul f64_quarter_ceil discard_dust
create_settle_transaction-Settles_example =
    create_settle_transaction-Settles toy_descriptors (record { txid = 1; vout = 0 }) keys keys
      60000 50000 9 0 112000 2 460 (omega arith) refl (omega arith) (omega arith)

create_settle_transaction_dust_example :
    create_settle_transaction toy_descriptors
      (record { txid = 1; vout = 0 })
      keys
      keys
      600
      500
      9
      0
      2000
      2
    ≡ panic
unfolding tx_weight_to_fee weight_to_fee checked_mul f64_quarter_ceil
create_settle_transaction_dust_example =
    create_settle_transaction_dust toy_descriptors (record { txid = 1; vout = 0 }) keys keys 600 500
      9 0 2000 2 288 refl (omega arith) (omega arith)

extra_fee_2 : (e : ℕ) → dlc_channel_extra_fee 2 ≡ ok e → IsU64 (e + dust_limit)
unfolding dlc_channel_extra_fee tx_weight_to_fee weight_to_fee checked_mul f64_quarter_ceil
extra_fee_2 e h = subst (λ z. IsU64 (z + dust_limit)) (ok-inj {a = 466} h) (omega arith)

fund_output_small :
    (o : ℕ × TxOut)
    → channel_fund_output toy_bitcoin toy_descriptors fund_tx funding_script none ≡ ok o
    → IsU64 o.1.value
unfolding channel_fund_output get_output_for_script_pubkey find_output
fund_output_small o h =
    subst (λ (z : ℕ × TxOut). IsU64 z.1.value)
      (ok-inj {a = (1, record { value = 110306; script_pubkey = 0 ∷ 32 ∷ funding_script })} h)
      (omega arith)

create_renewal_channel_transactions-Buffered_example :
    Buffered toy_bitcoin toy_descriptors alice bob keys keys fund_tx funding_script none payouts 2
      channel
unfolding create_renewal_channel_transactions create_cets_and_refund_tx
    create_fund_transaction_with_fees get_change_output_and_fees checked_add checked_mul
    weight_to_fee tx_weight_to_fee f64_quarter_ceil dlc_payout_spk_fee redeem_script_to_script_sig
    get_sequence discard_dust get_unsigned_tx_inputs_and_serial_ids order_by_serial_ids checked_add₄
    get_output_for_script_pubkey find_output create_cet
create_renewal_channel_transactions-Buffered_example =
    create_renewal_channel_transactions-Buffered toy_bitcoin toy_descriptors alice bob keys keys
      fund_tx funding_script payouts 100 2 50 3 none none extra_fee_2 fund_output_small refl
