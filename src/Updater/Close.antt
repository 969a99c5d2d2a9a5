-- ===== src/Updater/Close.antt =====
-- dlc-manager/src/channel_updater.rs: a channel that the parties close together.
use rust_dlc.Base.{ℕ, true, false, not, ltb, ok, require, Option, some, List}
use rust_dlc.Dlc.Types.{Script, Transaction, add64, sub64}
use rust_dlc.Dlc.Channel.{create_collaborative_close_transaction}
use rust_dlc.Updater.Types.{
  invalid_parameters, invalid_state, collaborative_close_offered, SignedChannel,
  CollaborativeCloseOffer, ClosedChannel,
}
use rust_dlc.Updater.Exec.{Exec, ◌>>=◌, ◌>>◌, lift, get_channel, put_channel}
use rust_dlc.Updater.Services.{
  Services, from_dlc, is_some, get_raw_sig_for_tx_input, sign_multi_sig_input,
}
use rust_dlc.Updater.States.{close_offered_fields, fund_output, fund_outpoint, signer_key}

-- `PEER_TIMEOUT` of the manager
abbrev pub peer_timeout : ℕ
peer_timeout = 3600

abbrev pub total_collateral : SignedChannel → ℕ
total_collateral channel = add64 channel.own_params.collateral channel.counter_params.collateral

module _ (services : Services) where
  open services use {compute_txid, unix_time_now}

  unfoldable pub offer_collaborative_close :
      ℕ → Option ℕ → Exec (CollaborativeCloseOffer × Transaction)
  unfolding create_collaborative_close_transaction get_raw_sig_for_tx_input
  offer_collaborative_close counter_payout reference_id = do
    channel ← get_channel
    lift (require (not (ltb (total_collateral channel) counter_payout)) invalid_parameters)
    let offer_payout = sub64 (total_collateral channel) counter_payout
    output ← lift (fund_output channel)
    let close_tx =
        create_collaborative_close_transaction channel.own_params offer_payout
          channel.counter_params counter_payout (fund_outpoint services channel) output.value
    own_fund_sk ← lift (signer_key services channel.own_params.fund_pubkey)
    close_signature ← lift (
        from_dlc (
          get_raw_sig_for_tx_input services close_tx channel.fund_script_pubkey output.value
            own_fund_sk))
    put_channel (record channel {
      state =
          collaborative_close_offered counter_payout close_signature close_tx
            (add64 unix_time_now peer_timeout) true;
      roll_back_state = some channel.state;
      reference_id = reference_id;
    })
    let offer : CollaborativeCloseOffer = record {
      channel_id = channel.channel_id;
      counter_payout = counter_payout;
      close_signature = close_signature;
      reference_id = reference_id;
    }
    lift (ok (offer, close_tx))

  unfoldable pub on_collaborative_close_offer : CollaborativeCloseOffer → ℕ → Exec (Unit {0})
  unfolding create_collaborative_close_transaction
  on_collaborative_close_offer close_offer timeout = do
    channel ← get_channel
    let total = total_collateral channel
    lift (require (not (ltb total close_offer.counter_payout)) invalid_parameters)
    lift (require (not (is_some channel.roll_back_state)) invalid_state)
    let offer_payout = sub64 total close_offer.counter_payout
    output ← lift (fund_output channel)
    let close_tx =
        create_collaborative_close_transaction channel.counter_params offer_payout
          channel.own_params close_offer.counter_payout (fund_outpoint services channel)
          output.value
    put_channel (record channel {
      state =
          collaborative_close_offered close_offer.counter_payout close_offer.close_signature
            close_tx (add64 unix_time_now timeout) false;
      roll_back_state = some channel.state;
      reference_id = close_offer.reference_id;
    })

  -- The closing transaction, the witness that is put at its input, and the closed channel.
  unfoldable pub accept_collaborative_close_offer : Exec (Transaction × List Script × ClosedChannel)
  unfolding sign_multi_sig_input
  accept_collaborative_close_offer = do
    channel ← get_channel
    fields ← lift (close_offered_fields channel.state)
    lift (require (not fields.is_offer) invalid_state)
    output ← lift (fund_output channel)
    own_fund_sk ← lift (signer_key services channel.own_params.fund_pubkey)
    witness ← lift (
        from_dlc (
          sign_multi_sig_input services fields.close_tx fields.offer_signature
            channel.counter_params.fund_pubkey own_fund_sk channel.fund_script_pubkey output.value))
    let closed : ClosedChannel = record {
      counter_party = channel.counter_party;
      temporary_channel_id = channel.temporary_channel_id;
      channel_id = channel.channel_id;
      reference_id = channel.reference_id;
      closing_txid = compute_txid fields.close_tx;
    }
    lift (ok (fields.close_tx, witness, closed))
