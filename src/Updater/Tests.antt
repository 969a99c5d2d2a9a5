-- ===== src/Updater/Tests.antt =====
-- The theorems on the channel updater, at two parties with one channel.
mod Data
use rust_dlc.Base.{List, err, ok, ◌≡◌, refl, some, none, arith, [], ◌∷◌, true, false}
use rust_dlc.Base.Float.{f64_quarter_ceil}
use rust_dlc.Dlc.Types.{checked_mul, Transaction}
use rust_dlc.Dlc.Fee.{tx_weight_to_fee, weight_to_fee, discard_dust, get_sequence}
use rust_dlc.Dlc.Channel.{
  create_collaborative_close_transaction, create_settle_transaction, settle_outputs, add_to_outputs,
}
use rust_dlc.Updater.Types.{Context, invalid_state, RenewRevoke, CollaborativeCloseOffer}
use rust_dlc.Updater.States.{fund_outpoint}
use rust_dlc.Updater.Close.{on_collaborative_close_offer}
use rust_dlc.Updater.Renew.{renew_channel_on_revoke}
use rust_dlc.Updater.Steps.{
  Call, offers_settle, receives_reject, rejects_settle, rejects_renew, failed, perform, run,
}
use rust_dlc.Updater.Table.{Moves, is_established, is_settled_offered}
use rust_dlc.Updater.Refusals.{perform-Refuses}
use rust_dlc.Updater.Transitions.{perform-Moves}
use rust_dlc.Updater.Rejection.{Rejects, run-Rejects}
use rust_dlc.Updater.Closing.{
  close_round, closed_by, close_round_lem, established_as_offer,
  renew_channel_on_revoke-on_collaborative_close_offer,
}
use rust_dlc.Updater.Services.{get_revokable_params}
use rust_dlc.Updater.Parties.{settle_round, Settled, Ready, services_of}
use rust_dlc.Updater.Agreement.{settle_round-Settled}
use rust_dlc.Updater.Types.{ClosedChannel, collaborative_close_offered}
use rust_dlc.Dlc.Tests.Data.{funding_script}
use rust_dlc.Updater.Services.{
  sign_multi_sig_input, get_raw_sig_for_tx_input, finalize_multi_sig_input_transaction,
}
use rust_dlc.Updater.Close.{accept_collaborative_close_offer}
use rust_dlc.Updater.Channels.{
  signed_channel, collaboratively_closed, get_id, get_temporary_id, get_counter_party_id,
  get_reference_id, get_contract_id,
}
use rust_dlc.Updater.Offer.{
  OracleAnnouncement, ContractInput, OfferedContract, get_latest_maturity_date,
}
use rust_dlc.Updater.Renewal.{renewed_contract, renew_offer_round, renew_offer_round_lem}
use rust_dlc.Updater.Parties.{Paired}
use Data.{
  alice_side, bob_side, alice_keys, bob_keys, toy_services, toy_party, alice_channel, bob_channel,
  toy_law, toy_conversions, finalized_side,
}

-- The settle transaction of the two, for a payout of 40000 to the accept party.
abbrev settled_tx : Transaction
settled_tx = record {
  version = 2;
  lock_time = 0;
  input =
      record {
        previous_output = record { txid = 1; vout = 0 };
        script_sig = [];
        sequence = 4294967295;
      }
      ∷ [];
  output =
      record { value = 71385; script_pubkey = 161 ∷ 271 ∷ 288 ∷ [] }
      ∷ record { value = 41385; script_pubkey = 271 ∷ 161 ∷ 288 ∷ [] }
      ∷ [];
}

alice_Ready : Ready (services_of toy_services toy_party) alice_keys alice_channel
alice_Ready = record {
  signer_seed = refl;
  signer_fund = refl;
  fund_key = refl;
  current = refl;
  point = refl;
  following = refl;
}

bob_Ready : Ready (services_of toy_services toy_party) bob_keys bob_channel
bob_Ready = record {
  signer_seed = refl;
  signer_fund = refl;
  fund_key = refl;
  current = refl;
  point = refl;
  following = refl;
}

settle_round-Settled_example :
    (ta : Context) × (tb : Context) × (settle_round toy_services toy_party toy_party 40000 288 0
        3600 none alice_side bob_side
      ≡ ok (ta, tb))
    × Settled settled_tx 70000 40000 ta.channel tb.channel 50
unfolding create_settle_transaction settle_outputs add_to_outputs get_revokable_params
    tx_weight_to_fee weight_to_fee checked_mul f64_quarter_ceil discard_dust get_sequence
settle_round-Settled_example =
    settle_round-Settled toy_services toy_party toy_party alice_side bob_side alice_keys bob_keys
      40000 288 0 3600 none (record { value = 113000; script_pubkey = 0 ∷ 32 ∷ [] }) settled_tx
      113000 250 150 refl refl refl alice_Ready bob_Ready (omega arith) (omega arith) refl refl refl
      toy_law refl refl

-- An offer to settle that the other party rejects, and then one to close.
abbrev some_calls : List Call
some_calls = offers_settle 40000 3600 none ∷ receives_reject ∷ offers_settle 30000 3600 none ∷ []

run-Rejects_example :
    let t = run toy_conversions toy_services some_calls alice_side in
    Rejects t (perform toy_conversions toy_services rejects_settle t)
    × Rejects t (perform toy_conversions toy_services rejects_renew t)
    × Rejects t (perform toy_conversions toy_services receives_reject t)
run-Rejects_example = run-Rejects toy_conversions toy_services some_calls alice_side refl

perform-Moves_example :
    Moves is_established is_settled_offered alice_side
      (perform toy_conversions toy_services (offers_settle 40000 3600 none) alice_side)
perform-Moves_example =
    perform-Moves toy_conversions toy_services (offers_settle 40000 3600 none) alice_side

perform-Refuses_example :
    perform toy_conversions toy_services rejects_settle alice_side ≡ failed invalid_state alice_side
perform-Refuses_example =
    perform-Refuses toy_conversions toy_services rejects_settle alice_side refl

abbrev closing_tx : Transaction
closing_tx =
    create_collaborative_close_transaction alice_channel.own_params 70000
      alice_channel.counter_params 40000 (fund_outpoint toy_services alice_channel) 113000

close_round_example :
    close_round toy_services toy_party toy_party 40000 3600 none alice_side bob_side
    ≡ ok (closed_by toy_services toy_party toy_party alice_side bob_side none closing_tx 113000 2 1)
close_round_example =
    close_round_lem toy_services toy_party toy_party alice_side bob_side 40000 3600 none
      (record { value = 113000; script_pubkey = 0 ∷ 32 ∷ [] }) 113000 2 1 refl (omega arith)
      (omega arith) refl refl refl refl refl

abbrev revoke : RenewRevoke
revoke = record { channel_id = 7; per_update_secret = 150; reference_id = none }

abbrev close_offer : CollaborativeCloseOffer
close_offer = record {
  channel_id = 7;
  counter_payout = 50000;
  close_signature = 5;
  reference_id = none;
}

abbrev revoked_side : Context
unfolding renew_channel_on_revoke
revoked_side = (renew_channel_on_revoke toy_services revoke finalized_side).1

revoked_side_closes :
    (established_as_offer revoked_side.channel.state ≡ true)
    × (revoked_side.channel.roll_back_state ≡ some bob_channel.state)
    × (on_collaborative_close_offer toy_services close_offer 3600 revoked_side
        ≡ (err invalid_state, revoked_side))
unfolding revoked_side renew_channel_on_revoke
revoked_side_closes =
    renew_channel_on_revoke-on_collaborative_close_offer toy_services revoke finalized_side
      revoked_side bob_channel.state close_offer 3600 refl refl (omega arith)

-- What the accept party returns when it accepts a close offer.
abbrev offered_side : Context
offered_side = record bob_side {
  channel = record bob_channel {
    state = collaborative_close_offered 40000 9 closing_tx 4600 false;
    roll_back_state = some bob_channel.state;
  };
}

abbrev closed_bob : ClosedChannel
closed_bob = record {
  counter_party = 3;
  temporary_channel_id = 6;
  channel_id = 7;
  reference_id = none;
  closing_txid = toy_services.compute_txid closing_tx;
}

abbrev maturing : OracleAnnouncement
maturing = record { event_maturity_epoch = 500; content = 1 }

abbrev renewing : ContractInput
renewing = record {
  offer_collateral = 50000;
  accept_collateral = 60000;
  fee_rate = 1;
  contract_infos =
      record {
        contract_descriptor = 4;
        oracles = record { public_keys = 1 ∷ []; event_id = 2; threshold = 1 };
      }
      ∷ [];
}

abbrev renewed : OfferedContract
renewed =
    renewed_contract toy_conversions renewing ((maturing ∷ []) ∷ []) 100 500 1000 alice_channel

renew_offer_round_lem_example :
    (ta : Context) × (tb : Context) × (renew_offer_round toy_conversions toy_services toy_party
        toy_party renewing
        ((maturing ∷ []) ∷ [])
        40000
        100
        3600
        288
        none
        alice_side
        bob_side
      ≡ ok (renewed, record renewed { is_offer_party = false; counter_party = 3 }, ta, tb))
    × Paired ta.channel tb.channel
    × (get_contract_id (signed_channel ta.channel) ≡ some renewed.id)
    × (get_contract_id (signed_channel tb.channel) ≡ some renewed.id)
unfolding get_latest_maturity_date
renew_offer_round_lem_example =
    renew_offer_round_lem toy_conversions toy_services toy_party toy_party alice_side bob_side
      renewing ((maturing ∷ []) ∷ []) 40000 100 3600 288 none 100 149 500 refl refl refl refl refl
      refl refl refl refl
