-- ===== src/Dlc/Channel.antt =====
-- dlc/src/channel/mod.rs: the transactions of a DLC channel.
pub mod Settle
pub mod Renew
use rust_dlc.Base.{
  ℕ, zero, suc, ◌+◌, ◌-◌, ◌*◌, ◌/◌, ◌%◌, ◌^◌, ◌≡◌, Bool, true, false, Outcome, ok, err, panic,
  ◌>>=◌, ◌>>◌, require, assert, unwrap, ltb, leb, ◌==◌, not, if◌then◌else◌, List, [], ◌∷◌, map,
  length, get_elem?, Option, none, some,
}
use rust_dlc.Dlc.Types.{
  Error, Reason, invalid_argument, fund_output_too_small, FeeConfig, Script, OutPoint, TxOut, TxIn,
  Transaction, Payout, PartyParams, DlcTransactions, Bitcoin, dust_limit, tx_version, add64, sub64,
}
use rust_dlc.Dlc.Fee.{
  tx_weight_to_fee, discard_dust, get_sequence, disable_locktime, get_output_for_script_pubkey,
  dlc_channel_extra_fee,
}
use rust_dlc.Dlc.Fund.{create_fund_transaction_with_fees}
use rust_dlc.Dlc.Cet.{create_cets_and_refund_tx}

abbrev pub settle_input_weight : ℕ
settle_input_weight = 428

abbrev pub settle_output_weight : ℕ
settle_output_weight = 172

pub record RevokeParams : Type 0 where
  pub own_pk : ℕ
  pub publish_pk : ℕ
  pub revoke_pk : ℕ

pub record DlcChannelTransactions : Type 0 where
  pub dlc_transactions : DlcTransactions
  pub buffer_transaction : Transaction
  pub buffer_script_pubkey : Script

-- The scripts of the descriptors that the miniscript crate makes.
pub record Descriptors : Type 0 where
  pub settle_script : RevokeParams → ℕ → ℕ → Script
  pub buffer_script : RevokeParams → RevokeParams → Script
  pub buffer_script_code : RevokeParams → RevokeParams → Outcome Error Script

unfoldable pub create_buffer_transaction : TxIn → Script → ℕ → ℕ → Transaction
create_buffer_transaction fund_tx_in script_pubkey total_collateral lock_time = record {
  version = tx_version;
  lock_time = lock_time;
  input = fund_tx_in ∷ [];
  output = record { value = total_collateral; script_pubkey = script_pubkey } ∷ [];
}

-- `for o in &mut output { o.value += remaining_fee }`
unfoldable pub add_to_outputs : ℕ → List TxOut → List TxOut
add_to_outputs remaining_fee [] = []
add_to_outputs remaining_fee (o ∷ output) =
    record { value = add64 o.value remaining_fee; script_pubkey = o.script_pubkey }
    ∷ add_to_outputs remaining_fee output

-- The outputs of a settle transaction. A division by zero panics.
unfoldable pub settle_outputs : List TxOut → ℕ → ℕ → ℕ → ℕ → Outcome Error (List TxOut)
unfolding add_to_outputs
settle_outputs output offer_payout accept_payout fund_output_value fee_rate_per_vb = do
  fee ←
      tx_weight_to_fee (settle_input_weight + length output * settle_output_weight + 148)
        fee_rate_per_vb
  assert (ltb 0 (length output))
  let left = sub64 (sub64 (sub64 fund_output_value offer_payout) accept_payout) fee
  ok (add_to_outputs (left / length output) output)

module _ (descriptors : Descriptors) where
  open descriptors use {settle_script, buffer_script, buffer_script_code}

  unfoldable pub create_settle_transaction :
      OutPoint → RevokeParams → RevokeParams → ℕ → ℕ → ℕ → ℕ → ℕ → ℕ → Outcome Error Transaction
  unfolding settle_outputs
  create_settle_transaction prev_outpoint offer_revoke accept_revoke offer_payout accept_payout
        csv_timelock lock_time fund_output_value fee_rate_per_vb =
      do
        let kept =
            discard_dust
              (record {
                value = offer_payout;
                script_pubkey = settle_script offer_revoke accept_revoke.own_pk csv_timelock;
              }
                ∷ record {
                  value = accept_payout;
                  script_pubkey = settle_script accept_revoke offer_revoke.own_pk csv_timelock;
                }
                ∷ [])
              dust_limit
        output ← settle_outputs kept offer_payout accept_payout fund_output_value fee_rate_per_vb
        ok (record {
          version = tx_version;
          lock_time = lock_time;
          input =
              record {
                previous_output = prev_outpoint;
                script_sig = [];
                sequence = get_sequence lock_time;
              }
              ∷ [];
          output = output;
        })

unfoldable pub create_collaborative_close_transaction :
    PartyParams → ℕ → PartyParams → ℕ → OutPoint → ℕ → Transaction
create_collaborative_close_transaction offer offer_payout accept accept_payout fund_outpoint
      fund_output_amount =
    let input : TxIn = record {
      previous_output = fund_outpoint;
      script_sig = [];
      sequence = disable_locktime;
    } in
    let offer_output : TxOut = record {
      value = offer_payout;
      script_pubkey = offer.payout_script_pubkey;
    } in
    let accept_output : TxOut = record {
      value = accept_payout;
      script_pubkey = accept.payout_script_pubkey;
    } in
    let output =
      if ltb offer.payout_serial_id accept.payout_serial_id
      then offer_output ∷ accept_output ∷ []
      else accept_output ∷ offer_output ∷ [] in
    record {
      version = tx_version;
      lock_time = 0;
      input = input ∷ [];
      output = discard_dust output dust_limit;
    }

-- `buffer_nsequence.unwrap_or_else(|| get_sequence(cet_lock_time))`
unfoldable pub buffer_sequence : Option ℕ → ℕ → ℕ
buffer_sequence none cet_lock_time = get_sequence cet_lock_time
buffer_sequence (some sequence) cet_lock_time = sequence

module _ (bitcoin : Bitcoin) (descriptors : Descriptors) where
  open bitcoin use {to_v0_p2wsh, compute_txid}
  open descriptors use {buffer_script, buffer_script_code}

  -- The output that is given by its index, which panics out of range, or found by its script.
  unfoldable pub channel_fund_output : Transaction → Script → Option ℕ → Outcome Error (ℕ × TxOut)
  unfolding get_output_for_script_pubkey
  channel_fund_output fund_tx funding_script (some vout) = do
    output ← unwrap (get_elem? fund_tx.output vout)
    ok (vout, output)
  channel_fund_output fund_tx funding_script none =
      unwrap (get_output_for_script_pubkey fund_tx (to_v0_p2wsh funding_script))

  unfoldable pub create_renewal_channel_transactions :
      PartyParams
      → PartyParams
      → RevokeParams
      → RevokeParams
      → Transaction
      → Script
      → List Payout
      → ℕ
      → ℕ
      → ℕ
      → ℕ
      → Option ℕ
      → Option ℕ
      → Outcome Error DlcChannelTransactions
  unfolding dlc_channel_extra_fee buffer_sequence channel_fund_output create_buffer_transaction
      create_cets_and_refund_tx
  create_renewal_channel_transactions offer accept offer_revoke accept_revoke fund_tx funding_script
        payouts refund_lock_time fee_rate_per_vb cet_lock_time cet_nsequence fund_vout
        buffer_nsequence =
      do
        extra_fee ← dlc_channel_extra_fee fee_rate_per_vb
        (vout, fund_output) ← channel_fund_output fund_tx funding_script fund_vout
        require (not (leb fund_output.value (add64 extra_fee dust_limit)))
            (invalid_argument fund_output_too_small)
        let fund_outpoint : OutPoint = record { txid = compute_txid fund_tx; vout = vout % 2 ^ 32 }
        let tx_in : TxIn = record {
          previous_output = fund_outpoint;
          script_sig = [];
          sequence = buffer_sequence buffer_nsequence cet_lock_time;
        }
        let buffer_transaction =
            create_buffer_transaction tx_in (buffer_script offer_revoke accept_revoke)
              (sub64 fund_output.value extra_fee) cet_lock_time
        let outpoint : OutPoint = record { txid = compute_txid buffer_transaction; vout = 0 }
        (cets, refund) ←
            create_cets_and_refund_tx offer accept outpoint payouts refund_lock_time cet_lock_time
              (some cet_nsequence)
        buffer_script_pubkey ← buffer_script_code offer_revoke accept_revoke
        ok (record {
          dlc_transactions = record {
            fund = fund_tx;
            cets = cets;
            refund = refund;
            funding_script_pubkey = funding_script;
          };
          buffer_transaction = buffer_transaction;
          buffer_script_pubkey = buffer_script_pubkey;
        })

  unfoldable pub create_channel_transactions :
      PartyParams
      → PartyParams
      → RevokeParams
      → RevokeParams
      → List Payout
      → ℕ
      → ℕ
      → ℕ
      → ℕ
      → ℕ
      → ℕ
      → FeeConfig
      → Outcome Error DlcChannelTransactions
  unfolding create_fund_transaction_with_fees create_renewal_channel_transactions
  create_channel_transactions offer accept offer_revoke accept_revoke payouts refund_lock_time
        fee_rate_per_vb fund_lock_time cet_lock_time fund_output_serial_id cet_nsequence config =
      do
        extra_fee ← dlc_channel_extra_fee fee_rate_per_vb
        (fund, funding_script) ←
            create_fund_transaction_with_fees bitcoin offer accept fee_rate_per_vb fund_lock_time
              fund_output_serial_id extra_fee config
        create_renewal_channel_transactions offer accept offer_revoke accept_revoke fund
            funding_script payouts refund_lock_time fee_rate_per_vb cet_lock_time cet_nsequence none
            none
