-- ===== src/Dlc/Fee.antt =====
-- dlc/src/util.rs: fees from weights, and the small helpers on outputs and lock times.
use rust_dlc.Base.{
  ℕ, ◌+◌, ◌*◌, ◌/◌, ◌^◌, ◌<◌, ◌≤◌, ◌≡◌, max, Outcome, ok, err, ◌>>=◌, require, leb, ◌==◌, Bool,
  true, false, ◌&&◌, if◌then◌else◌, arith, length, List, [], ◌∷◌, Option, none, some,
}
use rust_dlc.Base.Float.{f64_quarter_ceil, f64_quarter_ceil_exact}
use rust_dlc.Dlc.Types.{
  Error, invalid_argument, failed_to_multiply_fee, fee_rate_too_high, Script, TxOut, Transaction,
  cet_base_weight, u64_mod, IsU64, add64, mul64, checked_mul,
}

abbrev pub min_fee : ℕ
min_fee = 153

-- dlc/src/channel/mod.rs
abbrev pub buffer_tx_weight : ℕ
buffer_tx_weight = 599

abbrev pub cet_extra_weight : ℕ
cet_extra_weight = 330

abbrev pub disable_locktime : ℕ
disable_locktime = 0xffff_ffff

abbrev pub enable_locktime : ℕ
enable_locktime = 0xffff_fffe

unfoldable pub weight_to_fee : ℕ → ℕ → Outcome Error ℕ
weight_to_fee weight fee_rate =
    checked_mul (f64_quarter_ceil weight) fee_rate failed_to_multiply_fee

unfoldable pub tx_weight_to_fee : ℕ → ℕ → Outcome Error ℕ
tx_weight_to_fee weight fee_rate = do fee ← weight_to_fee weight fee_rate; ok (max fee min_fee)

unfoldable pub cet_or_refund_base_fee : ℕ → Outcome Error ℕ
cet_or_refund_base_fee fee_rate = tx_weight_to_fee cet_base_weight fee_rate

unfoldable pub dlc_channel_extra_fee : ℕ → Outcome Error ℕ
dlc_channel_extra_fee fee_rate = tx_weight_to_fee (buffer_tx_weight + cet_extra_weight) fee_rate

unfoldable pub dlc_payout_spk_fee : Script → ℕ → ℕ
dlc_payout_spk_fee payout_spk rate = mul64 (add64 9 (length payout_spk)) rate

unfoldable pub get_sequence : ℕ → ℕ
get_sequence lock_time = if lock_time == 0 then disable_locktime else enable_locktime

unfoldable pub validate_fee_rate : ℕ → Outcome Error (Unit {0})
validate_fee_rate fee_rate = require (leb fee_rate (25 * 250)) (invalid_argument fee_rate_too_high)

-- `txs.into_iter().filter(|x| x.value >= dust_limit)`
unfoldable pub discard_dust : List TxOut → ℕ → List TxOut
discard_dust [] limit = []
discard_dust (x ∷ txs) limit =
    let rest = discard_dust txs limit in if leb limit x.value then x ∷ rest else rest

abbrev pub script_eq : Script → Script → Bool
script_eq [] [] = true
script_eq [] (y ∷ ys) = false
script_eq (x ∷ xs) [] = false
script_eq (x ∷ xs) (y ∷ ys) = x == y && script_eq xs ys

-- `enumerate` from `vout` on, and `find`.
unfoldable pub find_output : ℕ → List TxOut → Script → Option (ℕ × TxOut)
find_output vout [] script = none
find_output vout (x ∷ outputs) script =
    let rest = find_output (vout + 1) outputs script in
    if script_eq x.script_pubkey script then some (vout, x) else rest

unfoldable pub get_output_for_script_pubkey : Transaction → Script → Option (ℕ × TxOut)
unfolding find_output
get_output_for_script_pubkey tx script = find_output 0 tx.output script

-- `redeem_script_to_script_sig`; `push_slice` is the script of the bitcoin crate that pushes bytes.
unfoldable pub redeem_script_to_script_sig : (Script → Script) → Script → Script
redeem_script_to_script_sig push_slice [] = []
redeem_script_to_script_sig push_slice (x ∷ redeem) = push_slice (x ∷ redeem)

-- For a weight below 2 ^ 53, a fee is the rate times the weight in virtual bytes, rounded up, if that
-- fits 64 bits.
pub weight_to_fee_eq :
    (w rate : ℕ)
    → w < 2 ^ 53
    → IsU64 ((w + 3) / 4 * rate)
    → weight_to_fee w rate ≡ ok ((w + 3) / 4 * rate)
unfolding weight_to_fee checked_mul
weight_to_fee_eq w rate hw h = rw (f64_quarter_ceil_exact w hw) (ground arith)

-- `weight_to_fee` returns an error only when the product overflows, and never panics.
pub weight_to_fee_overflow :
    (w rate : ℕ)
    → w < 2 ^ 53
    → u64_mod ≤ (w + 3) / 4 * rate
    → weight_to_fee w rate ≡ err (invalid_argument failed_to_multiply_fee)
unfolding weight_to_fee checked_mul
weight_to_fee_overflow w rate hw h = rw (f64_quarter_ceil_exact w hw) (ground arith)
