-- ===== src/Dlc/Types.antt =====
-- The data of dlc/src/lib.rs: errors, parameters, payouts, and the parts of a bitcoin transaction
-- that the crate writes. Scripts are their bytes; `u64` and `usize` are numbers below 2 ^ 64.
use rust_dlc.Base.{
  ℕ, ◌+◌, ◌*◌, ◌-◌, ◌%◌, ◌^◌, ◌<◌, ◌≡◌, Bool, List, Outcome, ok, err, ltb, if◌then◌else◌, arith,
}

-- The messages of `Error::InvalidArgument`.
pub data Reason : Type 0 where
  failed_to_checked_add failed_to_multiply_script failed_to_multiply_fee : Reason
  input_amount_too_small failed_to_multiply_change change_below_cost : Reason
  improper_outcomes fund_output_too_small fee_rate_too_high : Reason
  empty_oracle_infos_or_msgs too_few_nonces : Reason

-- The other errors carry one of the crates secp256k1-zkp, bitcoin and miniscript.
pub data Error : Type 0 where
  secp256k1 sighash miniscript : Error
  invalid_argument : Reason → Error

pub data FeeConfig : Type 0 where
  even_split all_offer all_accept : FeeConfig

abbrev pub Script : Type 0
Script = List ℕ

pub record OutPoint : Type 0 where
  pub txid : ℕ
  pub vout : ℕ

pub record TxOut : Type 0 where
  pub value : ℕ
  pub script_pubkey : Script

-- Every input is written with an empty witness, which is left out.
pub record TxIn : Type 0 where
  pub previous_output : OutPoint
  pub script_sig : Script
  pub sequence : ℕ

pub record Transaction : Type 0 where
  pub version : ℕ
  pub lock_time : ℕ
  pub input : List TxIn
  pub output : List TxOut

pub record Payout : Type 0 where
  pub offer : ℕ
  pub accept : ℕ

pub record RangePayout : Type 0 where
  pub start : ℕ
  pub count : ℕ
  pub payout : Payout

pub record TxInputInfo : Type 0 where
  pub outpoint : OutPoint
  pub max_witness_len : ℕ
  pub redeem_script : Script
  pub serial_id : ℕ

pub record PartyParams : Type 0 where
  pub fund_pubkey : ℕ
  pub change_script_pubkey : Script
  pub change_serial_id : ℕ
  pub payout_script_pubkey : Script
  pub payout_serial_id : ℕ
  pub inputs : List TxInputInfo
  pub input_amount : ℕ
  pub collateral : ℕ

pub record DlcTransactions : Type 0 where
  pub fund : Transaction
  pub cets : List Transaction
  pub refund : Transaction
  pub funding_script_pubkey : Script

abbrev pub dust_limit : ℕ
dust_limit = 1000

abbrev pub tx_version : ℕ
tx_version = 2

abbrev pub fund_tx_base_weight : ℕ
fund_tx_base_weight = 214

abbrev pub cet_base_weight : ℕ
cet_base_weight = 500

abbrev pub tx_input_base_weight : ℕ
tx_input_base_weight = 164

abbrev pub u64_mod : ℕ
u64_mod = 2 ^ 64

abbrev pub IsU64 : ℕ → Type 0
IsU64 n = n < u64_mod

-- Unchecked 64-bit arithmetic wraps, as in a release build.
abbrev pub add64 : ℕ → ℕ → ℕ
add64 a b = (a + b) % u64_mod

abbrev pub sub64 : ℕ → ℕ → ℕ
sub64 a b = (a + u64_mod - b) % u64_mod

abbrev pub mul64 : ℕ → ℕ → ℕ
mul64 a b = a * b % u64_mod

-- The macro `checked_add!`, with two to four arguments.
unfoldable pub checked_add : ℕ → ℕ → Outcome Error ℕ
checked_add a b =
    if ltb (a + b) u64_mod then ok (a + b) else err (invalid_argument failed_to_checked_add)

unfoldable pub checked_mul : ℕ → ℕ → Reason → Outcome Error ℕ
checked_mul a b reason = if ltb (a * b) u64_mod then ok (a * b) else err (invalid_argument reason)

pub checked_add_ok : (a b : ℕ) {c : ℕ} → checked_add a b ≡ ok c → (c ≡ a + b) × IsU64 c
unfolding checked_add
checked_add_ok a b h = ground arith

pub checked_add_eq : (a b : ℕ) → IsU64 (a + b) → checked_add a b ≡ ok (a + b)
unfolding checked_add
checked_add_eq a b h = ground arith

pub checked_mul_ok :
    (a b : ℕ) (r : Reason) {c : ℕ} → checked_mul a b r ≡ ok c → (c ≡ a * b) × IsU64 c
unfolding checked_mul
checked_mul_ok a b r h = ground arith

-- What the crates bitcoin and secp256k1 do: the script that pushes bytes, the numbers of two
-- opcodes, the pay-to-witness-script-hash script, the id of a transaction, and the order and the
-- bytes of a public key.
pub record Bitcoin : Type 0 where
  pub push_slice : Script → Script
  pub op_pushnum_2 : ℕ
  pub op_checkmultisig : ℕ
  pub to_v0_p2wsh : Script → Script
  pub compute_txid : Transaction → ℕ
  pub key_le : ℕ → ℕ → Bool
  pub serialize : ℕ → Script
