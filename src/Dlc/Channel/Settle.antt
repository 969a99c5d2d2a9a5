-- ===== src/Dlc/Channel/Settle.antt =====
-- What a settle transaction pays.
use mathlib.Core.Path.{subst}
use rust_dlc.Base.{
  ℕ, suc, ◌+◌, ◌-◌, ◌*◌, ◌/◌, ◌≡◌, ◌≤◌, ◌<◌, refl, ap, ◌∙◌, true, false, Outcome, ok, panic, ltb,
  leb, List, [], ◌∷◌, length, arith, Bool-cases, inl, inr, ◌⊎◌, max,
}
use rust_dlc.Dlc.Types.{Error, OutPoint, TxOut, Transaction, dust_limit, tx_version, sub64, IsU64}
use rust_dlc.Dlc.Fee.{tx_weight_to_fee, discard_dust, get_sequence}
use rust_dlc.Dlc.Cet.Payouts.{total_value}
use rust_dlc.Dlc.Channel.{
  Descriptors, RevokeParams, settle_outputs, add_to_outputs, create_settle_transaction,
  settle_input_weight, settle_output_weight,
}

-- The fee of a settle transaction with some outputs.
abbrev pub settle_fee : ℕ → ℕ → Outcome Error ℕ
settle_fee n rate = tx_weight_to_fee (settle_input_weight + n * settle_output_weight + 148) rate

-- The outputs share what the fund output is worth, but for the fee, the outputs that are dust, and
-- the remainder of a division by their number.
abbrev pub Settles : ℕ → ℕ → List TxOut → Type 0
Settles fund_output_value fee outputs =
    (total_value outputs + fee ≤ fund_output_value)
    × (fund_output_value < total_value outputs + fee + 2 * dust_limit)
    × (0 < length outputs)

settle_outputs_eq :
    (xs : List TxOut) (p q v rate fee n : ℕ)
    → length xs ≡ suc n
    → IsU64 v
    → settle_fee (length xs) rate ≡ ok fee
    → p + q + fee ≤ v
    → settle_outputs xs p q v rate ≡ ok (add_to_outputs ((v - (p + q + fee)) / suc n) xs)
unfolding settle_outputs
settle_outputs_eq xs p q v rate fee n len small hf enough =
    let left : sub64 (sub64 (sub64 v p) q) fee ≡ v - (p + q + fee) = omega arith in
    let some_output : ltb 0 (suc n) ≡ true = ground arith in
    rw hf (rw left (rw len (rw some_output refl)))

one-Settles :
    (x : TxOut) (p q v fee : ℕ)
    → IsU64 v
    → p + q + fee ≤ v
    → x.value ≤ p + q
    → p + q < x.value + dust_limit
    → Settles v fee (add_to_outputs ((v - (p + q + fee)) / 1) (x ∷ []))
unfolding add_to_outputs
one-Settles x p q v fee small enough part rest = (omega arith, omega arith, omega arith)

two-Settles :
    (x y : TxOut) (v fee : ℕ)
    → IsU64 v
    → x.value + y.value + fee ≤ v
    → Settles v fee (add_to_outputs ((v - (x.value + y.value + fee)) / 2) (x ∷ y ∷ []))
unfolding add_to_outputs
two-Settles x y v fee small enough = (omega arith, omega arith, omega arith)

-- What is left of two outputs without the dust: both, one of them, or nothing.
kept-cases :
    (x y : TxOut)
    → (discard_dust (x ∷ y ∷ []) dust_limit ≡ x ∷ y ∷ [])
      ⊎ ((discard_dust (x ∷ y ∷ []) dust_limit ≡ x ∷ []) × (y.value < dust_limit))
      ⊎ ((discard_dust (x ∷ y ∷ []) dust_limit ≡ y ∷ []) × (x.value < dust_limit))
      ⊎ ((discard_dust (x ∷ y ∷ []) dust_limit ≡ [])
          × (x.value < dust_limit)
          × (y.value < dust_limit))
unfolding discard_dust
kept-cases x y = elim (Bool-cases (leb dust_limit x.value)) [
  | inl e ↦ elim (Bool-cases (leb dust_limit y.value)) [
    | inl f ↦ inl (rw e (rw f refl))
    | inr f ↦ inr (inl (rw e (rw f refl), ground arith))
  ]
  | inr e ↦ elim (Bool-cases (leb dust_limit y.value)) [
    | inl f ↦ inr (inr (inl (rw e (rw f refl), ground arith)))
    | inr f ↦ inr (inr (inr (rw e (rw f refl), ground arith, ground arith)))
  ]
]

-- A settle transaction for payouts of which one at least is above the dust limit.
pub settle_outputs-Settles :
    (x y : TxOut) (v rate fee : ℕ)
    → IsU64 v
    → settle_fee (length (discard_dust (x ∷ y ∷ []) dust_limit)) rate ≡ ok fee
    → x.value + y.value + fee ≤ v
    → dust_limit ≤ max x.value y.value
    → (output : List TxOut) × (settle_outputs
          (discard_dust (x ∷ y ∷ []) dust_limit)
          x.value
          y.value
          v
          rate
        ≡ ok output)
      × Settles v fee output
settle_outputs-Settles x y v rate fee small hf enough large = elim (kept-cases x y) [
  | inl e ↦
      let hf' = subst (λ z. settle_fee (length z) rate ≡ ok fee) e hf in
      (
        _,
        ap (λ z. settle_outputs z x.value y.value v rate) e
            ∙ settle_outputs_eq (x ∷ y ∷ []) x.value y.value v rate fee 1 refl small hf' enough,
        two-Settles x y v fee small enough,
      )
  | inr (inl (e, f)) ↦
      let hf' = subst (λ z. settle_fee (length z) rate ≡ ok fee) e hf in
      (
        _,
        ap (λ z. settle_outputs z x.value y.value v rate) e
            ∙ settle_outputs_eq (x ∷ []) x.value y.value v rate fee 0 refl small hf' enough,
        one-Settles x x.value y.value v fee small enough (omega arith) (omega arith),
      )
  | inr (inr (inl (e, f))) ↦
      let hf' = subst (λ z. settle_fee (length z) rate ≡ ok fee) e hf in
      (
        _,
        ap (λ z. settle_outputs z x.value y.value v rate) e
            ∙ settle_outputs_eq (y ∷ []) x.value y.value v rate fee 0 refl small hf' enough,
        one-Settles y x.value y.value v fee small enough (omega arith) (omega arith),
      )
  | inr (inr (inr (e, f, g))) ↦ absurd (omega arith)
]

module _ (descriptors : Descriptors) where
  open descriptors use {settle_script}

  -- The two outputs of a settle transaction, before the dust is dropped.
  abbrev pub settle_candidates : RevokeParams → RevokeParams → ℕ → ℕ → ℕ → List TxOut
  settle_candidates offer_revoke accept_revoke offer_payout accept_payout csv =
      record {
        value = offer_payout;
        script_pubkey = settle_script offer_revoke accept_revoke.own_pk csv;
      }
      ∷ record {
        value = accept_payout;
        script_pubkey = settle_script accept_revoke offer_revoke.own_pk csv;
      }
      ∷ []

  -- When the fund output covers both payouts and the fee, and a payout is not dust, the settle
  -- transaction exists, and its outputs and its fee come to the value of the fund output, less at most
  -- the dust and the remainder of a division.
  pub create_settle_transaction-Settles :
      (prev : OutPoint) (offer accept : RevokeParams) (p q csv lock_time v rate fee : ℕ)
      → IsU64 v
      → settle_fee (length (discard_dust (settle_candidates offer accept p q csv) dust_limit)) rate
        ≡ ok fee
      → p + q + fee ≤ v
      → dust_limit ≤ max p q
      → (tx : Transaction) × (create_settle_transaction descriptors prev offer accept p q csv
            lock_time v rate
          ≡ ok tx)
        × Settles v fee tx.output
  unfolding create_settle_transaction
  create_settle_transaction-Settles prev offer accept p q csv lock_time v rate fee small hf enough
        large =
      let (output, e, s) =
        settle_outputs-Settles
          (record { value = p; script_pubkey = settle_script offer accept.own_pk csv })
          (record { value = q; script_pubkey = settle_script accept offer.own_pk csv }) v rate fee
          small hf enough large in
      (
        record {
          version = tx_version;
          lock_time = lock_time;
          input =
              record { previous_output = prev; script_sig = []; sequence = get_sequence lock_time }
              ∷ [];
          output = output;
        },
        rw e refl,
        s,
      )

  -- A settle transaction of which both payouts are dust divides by zero, whenever its fee does not
  -- overflow.
  pub create_settle_transaction_dust :
      (prev : OutPoint) (offer accept : RevokeParams) (p q csv lock_time v rate fee : ℕ)
      → settle_fee 0 rate ≡ ok fee
      → p < dust_limit
      → q < dust_limit
      → create_settle_transaction descriptors prev offer accept p q csv lock_time v rate ≡ panic
  unfolding create_settle_transaction settle_outputs discard_dust
  create_settle_transaction_dust prev offer accept p q csv lock_time v rate fee hf hp hq =
      let ep : leb dust_limit p ≡ false = ground arith in
      let eq : leb dust_limit q ≡ false = ground arith in rw ep (rw eq (rw hf refl))
