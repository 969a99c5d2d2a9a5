-- ===== src/Dlc/Tests/Data.antt =====
-- Two parties, a contract between them, and the transactions that the code makes for it.
use rust_dlc.Base.{leb, ok, List, [], ◌∷◌, length}
use rust_dlc.Dlc.Types.{
  Script, Transaction, Payout, PartyParams, TxInputInfo, Bitcoin, DlcTransactions,
}
use rust_dlc.Dlc.Channel.{RevokeParams, Descriptors, DlcChannelTransactions}

abbrev pub toy_bitcoin : Bitcoin
toy_bitcoin = record {
  push_slice = λ s. length s ∷ s;
  op_pushnum_2 = 82;
  op_checkmultisig = 174;
  to_v0_p2wsh = λ s. 0 ∷ 32 ∷ s;
  compute_txid = λ tx. length tx.output;
  key_le = leb;
  serialize = λ k. k ∷ [];
}

abbrev pub alice_input : TxInputInfo
alice_input = record {
  outpoint = record { txid = 11; vout = 0 };
  max_witness_len = 107;
  redeem_script = [];
  serial_id = 5;
}

abbrev pub bob_input : TxInputInfo
bob_input = record {
  outpoint = record { txid = 12; vout = 1 };
  max_witness_len = 107;
  redeem_script = 7 ∷ [];
  serial_id = 4;
}

abbrev pub alice : PartyParams
alice = record {
  fund_pubkey = 3;
  change_script_pubkey = 1 ∷ 1 ∷ [];
  change_serial_id = 8;
  payout_script_pubkey = 1 ∷ 2 ∷ [];
  payout_serial_id = 21;
  inputs = alice_input ∷ [];
  input_amount = 90000;
  collateral = 50000;
}

abbrev pub bob : PartyParams
bob = record {
  fund_pubkey = 2;
  change_script_pubkey = 2 ∷ 1 ∷ [];
  change_serial_id = 6;
  payout_script_pubkey = 2 ∷ 2 ∷ [];
  payout_serial_id = 20;
  inputs = bob_input ∷ [];
  input_amount = 70000;
  collateral = 60000;
}

-- A contract that is too small.
abbrev pub small_alice : PartyParams
small_alice = record {
  fund_pubkey = 3;
  change_script_pubkey = 1 ∷ 1 ∷ [];
  change_serial_id = 8;
  payout_script_pubkey = 1 ∷ 2 ∷ [];
  payout_serial_id = 21;
  inputs = alice_input ∷ [];
  input_amount = 2000;
  collateral = 100;
}

abbrev pub small_bob : PartyParams
small_bob = record {
  fund_pubkey = 2;
  change_script_pubkey = 2 ∷ 1 ∷ [];
  change_serial_id = 6;
  payout_script_pubkey = 2 ∷ 2 ∷ [];
  payout_serial_id = 20;
  inputs = bob_input ∷ [];
  input_amount = 3000;
  collateral = 200;
}

abbrev pub payouts : List Payout
payouts = record { offer = 110000; accept = 0 } ∷ record { offer = 60000; accept = 50000 } ∷ []

abbrev pub keys : RevokeParams
keys = record { own_pk = 31; publish_pk = 32; revoke_pk = 33 }

abbrev pub toy_descriptors : Descriptors
toy_descriptors = record {
  settle_script = λ k pk csv. k.own_pk ∷ pk ∷ csv ∷ [];
  buffer_script = λ o a. o.own_pk ∷ a.own_pk ∷ [];
  buffer_script_code = λ o a. ok (o.own_pk ∷ a.own_pk ∷ []);
}

abbrev pub funding_script : Script
funding_script = 82 ∷ 1 ∷ 2 ∷ 1 ∷ 3 ∷ 82 ∷ 174 ∷ []

abbrev pub fund_tx : Transaction
fund_tx = record {
  version = 2;
  lock_time = 0;
  input =
      record {
        previous_output = record { txid = 12; vout = 1 };
        script_sig = 1 ∷ 7 ∷ [];
        sequence = 4294967295;
      }
      ∷ record {
        previous_output = record { txid = 11; vout = 0 };
        script_sig = [];
        sequence = 4294967295;
      }
      ∷ [];
  output =
      record { value = 9631; script_pubkey = 2 ∷ 1 ∷ [] }
      ∷ record { value = 110306; script_pubkey = 0 ∷ 32 ∷ 82 ∷ 1 ∷ 2 ∷ 1 ∷ 3 ∷ 82 ∷ 174 ∷ [] }
      ∷ record { value = 39635; script_pubkey = 1 ∷ 1 ∷ [] }
      ∷ [];
}

abbrev pub small_fund_tx : Transaction
small_fund_tx = record {
  version = 2;
  lock_time = 0;
  input =
      record {
        previous_output = record { txid = 12; vout = 1 };
        script_sig = 1 ∷ 7 ∷ [];
        sequence = 4294967295;
      }
      ∷ record {
        previous_output = record { txid = 11; vout = 0 };
        script_sig = [];
        sequence = 4294967295;
      }
      ∷ [];
  output =
      record { value = 2562; script_pubkey = 2 ∷ 1 ∷ [] }
      ∷ record { value = 1662; script_pubkey = 1 ∷ 1 ∷ [] }
      ∷ [];
}

abbrev pub contract : DlcTransactions
contract = record {
  fund = record {
    version = 2;
    lock_time = 0;
    input =
        record {
          previous_output = record { txid = 12; vout = 1 };
          script_sig = 1 ∷ 7 ∷ [];
          sequence = 4294967295;
        }
        ∷ record {
          previous_output = record { txid = 11; vout = 0 };
          script_sig = [];
          sequence = 4294967295;
        }
        ∷ [];
    output =
        record { value = 9636; script_pubkey = 2 ∷ 1 ∷ [] }
        ∷ record { value = 110296; script_pubkey = 0 ∷ 32 ∷ 82 ∷ 1 ∷ 2 ∷ 1 ∷ 3 ∷ 82 ∷ 174 ∷ [] }
        ∷ record { value = 39640; script_pubkey = 1 ∷ 1 ∷ [] }
        ∷ [];
  };
  cets =
      record {
        version = 2;
        lock_time = 50;
        input =
            record {
              previous_output = record { txid = 3; vout = 1 };
              script_sig = [];
              sequence = 4294967294;
            }
            ∷ [];
        output = record { value = 110000; script_pubkey = 1 ∷ 2 ∷ [] } ∷ [];
      }
      ∷ record {
        version = 2;
        lock_time = 50;
        input =
            record {
              previous_output = record { txid = 3; vout = 1 };
              script_sig = [];
              sequence = 4294967294;
            }
            ∷ [];
        output =
            record { value = 50000; script_pubkey = 2 ∷ 2 ∷ [] }
            ∷ record { value = 60000; script_pubkey = 1 ∷ 2 ∷ [] }
            ∷ [];
      }
      ∷ [];
  refund = record {
    version = 2;
    lock_time = 100;
    input =
        record {
          previous_output = record { txid = 3; vout = 1 };
          script_sig = [];
          sequence = 4294967294;
        }
        ∷ [];
    output =
        record { value = 50000; script_pubkey = 1 ∷ 2 ∷ [] }
        ∷ record { value = 60000; script_pubkey = 2 ∷ 2 ∷ [] }
        ∷ [];
  };
  funding_script_pubkey = 82 ∷ 1 ∷ 2 ∷ 1 ∷ 3 ∷ 82 ∷ 174 ∷ [];
}

abbrev pub channel : DlcChannelTransactions
channel = record {
  dlc_transactions = record {
    fund = record {
      version = 2;
      lock_time = 0;
      input =
          record {
            previous_output = record { txid = 12; vout = 1 };
            script_sig = 1 ∷ 7 ∷ [];
            sequence = 4294967295;
          }
          ∷ record {
            previous_output = record { txid = 11; vout = 0 };
            script_sig = [];
            sequence = 4294967295;
          }
          ∷ [];
      output =
          record { value = 9631; script_pubkey = 2 ∷ 1 ∷ [] }
          ∷ record { value = 110306; script_pubkey = 0 ∷ 32 ∷ 82 ∷ 1 ∷ 2 ∷ 1 ∷ 3 ∷ 82 ∷ 174 ∷ [] }
          ∷ record { value = 39635; script_pubkey = 1 ∷ 1 ∷ [] }
          ∷ [];
    };
    cets =
        record {
          version = 2;
          lock_time = 50;
          input =
              record {
                previous_output = record { txid = 1; vout = 0 };
                script_sig = [];
                sequence = 3;
              }
              ∷ [];
          output = record { value = 110000; script_pubkey = 1 ∷ 2 ∷ [] } ∷ [];
        }
        ∷ record {
          version = 2;
          lock_time = 50;
          input =
              record {
                previous_output = record { txid = 1; vout = 0 };
                script_sig = [];
                sequence = 3;
              }
              ∷ [];
          output =
              record { value = 50000; script_pubkey = 2 ∷ 2 ∷ [] }
              ∷ record { value = 60000; script_pubkey = 1 ∷ 2 ∷ [] }
              ∷ [];
        }
        ∷ [];
    refund = record {
      version = 2;
      lock_time = 100;
      input =
          record {
            previous_output = record { txid = 1; vout = 0 };
            script_sig = [];
            sequence = 4294967294;
          }
          ∷ [];
      output =
          record { value = 50000; script_pubkey = 1 ∷ 2 ∷ [] }
          ∷ record { value = 60000; script_pubkey = 2 ∷ 2 ∷ [] }
          ∷ [];
    };
    funding_script_pubkey = 82 ∷ 1 ∷ 2 ∷ 1 ∷ 3 ∷ 82 ∷ 174 ∷ [];
  };
  buffer_transaction = record {
    version = 2;
    lock_time = 50;
    input =
        record {
          previous_output = record { txid = 3; vout = 1 };
          script_sig = [];
          sequence = 4294967294;
        }
        ∷ [];
    output = record { value = 109840; script_pubkey = 31 ∷ 31 ∷ [] } ∷ [];
  };
  buffer_script_pubkey = 31 ∷ 31 ∷ [];
}
