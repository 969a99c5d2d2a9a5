-- ===== src/Dlc/Cet.antt =====
-- dlc/src/lib.rs: contract execution and refund transactions, and the transactions of a contract.
pub mod Payouts
pub mod Whole
use rust_dlc.Base.{
  ℕ, ◌+◌, ◌^◌, ◌<◌, ◌%◌, ◌≡◌, refl, Bool, true, false, ◌&&◌, Outcome, ok, err, panic, ◌>>=◌, ◌>>◌,
  require, unwrap, ltb, ◌==◌, if◌then◌else◌, List, [], ◌∷◌, map, Option, none, some,
}
use rust_dlc.Dlc.Types.{
  Error, Reason, invalid_argument, improper_outcomes, FeeConfig, Script, OutPoint, TxOut, TxIn,
  Transaction, Payout, PartyParams, DlcTransactions, Bitcoin, dust_limit, tx_version, checked_add,
}
use rust_dlc.Dlc.Fee.{discard_dust, get_sequence, enable_locktime, get_output_for_script_pubkey}
use rust_dlc.Dlc.Fund.{create_fund_transaction_with_fees}

unfoldable pub create_cet : TxOut → ℕ → TxOut → ℕ → TxIn → ℕ → Transaction
create_cet offer_output offer_id accept_output accept_id fund_tx_in lock_time =
    let output =
      if ltb offer_id accept_id
      then offer_output ∷ accept_output ∷ []
      else accept_output ∷ offer_output ∷ [] in
    record {
      version = tx_version;
      lock_time = lock_time;
      input = fund_tx_in ∷ [];
      output = discard_dust output dust_limit;
    }

unfoldable pub create_cets : TxIn → Script → ℕ → Script → ℕ → List Payout → ℕ → List Transaction
create_cets fund_tx_input offer_script offer_id accept_script accept_id [] lock_time = []
create_cets fund_tx_input offer_script offer_id accept_script accept_id (payout ∷ payouts)
      lock_time =
    create_cet (record { value = payout.offer; script_pubkey = offer_script }) offer_id
      (record { value = payout.accept; script_pubkey = accept_script }) accept_id fund_tx_input
      lock_time
    ∷ create_cets fund_tx_input offer_script offer_id accept_script accept_id payouts lock_time

unfoldable pub create_refund_transaction : TxOut → TxOut → TxIn → ℕ → Transaction
create_refund_transaction offer_output accept_output funding_input locktime = record {
  version = tx_version;
  lock_time = locktime;
  input = funding_input ∷ [];
  output = discard_dust (offer_output ∷ accept_output ∷ []) dust_limit;
}

-- The closure that `payouts.iter().all` tests.
unfoldable pub proper_outcome : ℕ → Payout → Bool
proper_outcome total_collateral o = elim (checked_add o.offer o.accept) [
  | ok total ↦ total == total_collateral
  | _ ↦ false
]

unfoldable pub has_proper_outcomes : ℕ → List Payout → Bool
unfolding proper_outcome
has_proper_outcomes total_collateral [] = true
has_proper_outcomes total_collateral (o ∷ payouts) =
    proper_outcome total_collateral o && has_proper_outcomes total_collateral payouts

-- The input of every CET.
unfoldable pub cet_input : OutPoint → ℕ → Option ℕ → TxIn
cet_input prev_outpoint cet_lock_time none = record {
  previous_output = prev_outpoint;
  script_sig = [];
  sequence = get_sequence cet_lock_time;
}
cet_input prev_outpoint cet_lock_time (some sequence) = record {
  previous_output = prev_outpoint;
  script_sig = [];
  sequence = sequence;
}

-- The body of `create_cets_and_refund_tx` after the check of the payouts.
unfoldable pub cets_and_refund :
    PartyParams
    → PartyParams
    → OutPoint
    → List Payout
    → ℕ
    → ℕ
    → Option ℕ
    → List Transaction × Transaction
unfolding create_cets cet_input create_refund_transaction
cets_and_refund offer accept prev_outpoint payouts refund_lock_time cet_lock_time cet_nsequence =
    let offer_refund_output : TxOut = record {
      value = offer.collateral;
      script_pubkey = offer.payout_script_pubkey;
    } in
    let accept_refund_output : TxOut = record {
      value = accept.collateral;
      script_pubkey = accept.payout_script_pubkey;
    } in
    let refund_input : TxIn = record {
      previous_output = prev_outpoint;
      script_sig = [];
      sequence = enable_locktime;
    } in
    (
      create_cets (cet_input prev_outpoint cet_lock_time cet_nsequence) offer.payout_script_pubkey
          offer.payout_serial_id accept.payout_script_pubkey accept.payout_serial_id payouts
          cet_lock_time,
      create_refund_transaction offer_refund_output accept_refund_output refund_input
          refund_lock_time,
    )

unfoldable pub create_cets_and_refund_tx :
    PartyParams
    → PartyParams
    → OutPoint
    → List Payout
    → ℕ
    → ℕ
    → Option ℕ
    → Outcome Error (List Transaction × Transaction)
unfolding has_proper_outcomes cets_and_refund
create_cets_and_refund_tx offer accept prev_outpoint payouts refund_lock_time cet_lock_time
      cet_nsequence =
    do
      total_collateral ← checked_add offer.collateral accept.collateral
      require (has_proper_outcomes total_collateral payouts) (invalid_argument improper_outcomes)
      ok (
          cets_and_refund offer accept prev_outpoint payouts refund_lock_time cet_lock_time
            cet_nsequence)

module _ (bitcoin : Bitcoin) where
  open bitcoin use {to_v0_p2wsh, compute_txid}

  unfoldable pub create_dlc_transactions :
      PartyParams
      → PartyParams
      → List Payout
      → ℕ
      → ℕ
      → ℕ
      → ℕ
      → ℕ
      → FeeConfig
      → Outcome Error DlcTransactions
  unfolding create_fund_transaction_with_fees get_output_for_script_pubkey create_cets_and_refund_tx
  create_dlc_transactions offer accept payouts refund_lock_time rate fund_lock_time cet_lock_time
        fund_output_id config =
      do
        (fund_tx, funding_script) ←
            create_fund_transaction_with_fees bitcoin offer accept rate fund_lock_time
              fund_output_id 0 config
        (vout, _) ← unwrap (get_output_for_script_pubkey fund_tx (to_v0_p2wsh funding_script))
        let fund_outpoint : OutPoint = record { txid = compute_txid fund_tx; vout = vout % 2 ^ 32 }
        (cets, refund_tx) ←
            create_cets_and_refund_tx offer accept fund_outpoint payouts refund_lock_time
              cet_lock_time none
        ok (record {
          fund = fund_tx;
          cets = cets;
          refund = refund_tx;
          funding_script_pubkey = funding_script;
        })

  -- `DlcTransactions::get_fund_output` and `get_fund_output_index`.
  unfoldable pub get_fund_output : DlcTransactions → Outcome Error TxOut
  unfolding get_output_for_script_pubkey
  get_fund_output d = do
    (_, output) ← unwrap (get_output_for_script_pubkey d.fund (to_v0_p2wsh d.funding_script_pubkey))
    ok output

  unfoldable pub get_fund_output_index : DlcTransactions → Outcome Error ℕ
  unfolding get_output_for_script_pubkey
  get_fund_output_index d = do
    (vout, _) ← unwrap (get_output_for_script_pubkey d.fund (to_v0_p2wsh d.funding_script_pubkey))
    ok vout
