-- ===== src/Updater/Tests/Data.antt =====
-- Two parties that keep one channel, and services that stand for the libraries'.
use rust_dlc.Base.{ℕ, ◌≡◌, arith, ◌+◌, ◌-◌, ◌==◌, true, inr, [], ◌∷◌, none, some, length, leb}
use rust_dlc.Dlc.Types.{Transaction}
use rust_dlc.Dlc.Tests.Data.{alice, bob, toy_descriptors, funding_script}
use rust_dlc.Monitor.{ChainMonitor}
use rust_dlc.Updater.Types.{PartyBasePoints, SignedChannel, established, renew_finalized, Context}
use rust_dlc.Updater.Services.{Services}
use rust_dlc.Updater.Offer.{Conversions}
use rust_dlc.Updater.Parties.{Party, Keys}

abbrev pub toy_services : Services
toy_services = record {
  descriptors = toy_descriptors;
  derive_public_key = λ point base. point + base;
  derive_public_revocation_key = λ point base. point + base;
  build_commitment_secret = λ seed idx. seed + idx;
  secret_key_from_slice = some;
  public_key = λ sk. sk + 1;
  sig_hash = λ tx script value. inr value;
  encrypt = λ sighash sk key. sighash + sk + key;
  verify = λ signature sighash pk key. signature + 1 == sighash + pk + key;
  sign = λ sighash sk. sighash + sk;
  serialize_der = λ signature. signature ∷ [];
  key_le = leb;
  provide_secret = λ secrets idx secret. some (secrets + secret);
  compute_txid = λ tx. length tx.output;
  get_secret_key_for_pubkey = λ pk. inr (pk - 1);
  unix_time_now = 1000;
  get_unix_time_now = 1000;
}

abbrev pub toy_party : Party
toy_party = record { signer = λ pk. inr (pk - 1); time = 1000; clock = 1000 }

abbrev pub alice_points : PartyBasePoints
alice_points = record { own_basepoint = 11; revocation_basepoint = 12; publish_basepoint = 13 }

abbrev pub bob_points : PartyBasePoints
bob_points = record { own_basepoint = 21; revocation_basepoint = 22; publish_basepoint = 23 }

abbrev pub alice_keys : Keys
alice_keys = record { seed = 100; fund_sk = 2; secret = 150; next_secret = 149 }

abbrev pub bob_keys : Keys
bob_keys = record { seed = 200; fund_sk = 1; secret = 250; next_secret = 249 }

abbrev pub channel_fund : Transaction
channel_fund = record {
  version = 2;
  lock_time = 0;
  input = [];
  output = record { value = 113000; script_pubkey = 0 ∷ 32 ∷ [] } ∷ [];
}

abbrev pub alice_channel : SignedChannel
alice_channel = record {
  channel_id = 7;
  counter_party = 2;
  temporary_channel_id = 6;
  own_params = alice;
  own_points = alice_points;
  own_per_update_point = 151;
  own_per_update_seed = 101;
  counter_points = bob_points;
  counter_per_update_point = 251;
  counter_params = bob;
  state = established 5 301 302 channel_fund true 110000;
  update_idx = 50;
  fund_tx = channel_fund;
  fund_script_pubkey = funding_script;
  fund_output_index = 0;
  roll_back_state = none;
  counter_party_commitment_secrets = 0;
  fee_rate_per_vb = 1;
  sub_channel_id = none;
  reference_id = none;
}

abbrev pub bob_channel : SignedChannel
bob_channel = record {
  channel_id = 7;
  counter_party = 3;
  temporary_channel_id = 6;
  own_params = bob;
  own_points = bob_points;
  own_per_update_point = 251;
  own_per_update_seed = 201;
  counter_points = alice_points;
  counter_per_update_point = 151;
  counter_params = alice;
  state = established 5 302 301 channel_fund true 110000;
  update_idx = 50;
  fund_tx = channel_fund;
  fund_script_pubkey = funding_script;
  fund_output_index = 0;
  roll_back_state = none;
  counter_party_commitment_secrets = 0;
  fee_rate_per_vb = 1;
  sub_channel_id = none;
  reference_id = none;
}

abbrev pub empty_monitor : ChainMonitor
empty_monitor = record { watched_tx = []; watched_txo = []; last_height = 0 }

abbrev pub alice_side : Context
alice_side = record { channel = alice_channel; monitor = empty_monitor }

abbrev pub bob_side : Context
bob_side = record { channel = bob_channel; monitor = empty_monitor }

pub toy_law :
    (k sk ek : ℕ)
    → toy_services.verify (toy_services.encrypt k sk ek) k (toy_services.public_key sk) ek ≡ true
toy_law k sk ek = ground arith

abbrev pub toy_conversions : Conversions
toy_conversions = record {
  to_contract_info = λ c. c.total_collateral;
  get_contract_info_and_announcements = λ bytes. inr (
      record {
        contract_descriptor = 4;
        oracle_announcements = record { event_maturity_epoch = 500; content = 1 } ∷ [];
        threshold = 1;
      }
      ∷ []);
  generate_temporary_contract_id = λ channel_id idx. channel_id + idx;
  get_new_serial_id = 9;
}

-- The accept party, when it has signed a renewed contract and waits for the old secret.
abbrev pub finalized_side : Context
finalized_side = record bob_side {
  channel = record bob_channel {
    state = renew_finalized 6 151 channel_fund funding_script 401 402 4600 60000 110000;
    roll_back_state = some bob_channel.state;
  };
}
