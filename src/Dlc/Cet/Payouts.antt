-- ===== src/Dlc/Cet/Payouts.antt =====
-- What the contract execution transactions and the refund transaction pay.
use mathlib.Core.Path.{subst}
use mathlib.Core.Bool.{true≢false}
use rust_dlc.Base.{
  ℕ, suc, ◌+◌, ◌-◌, ◌*◌, ◌≤◌, ◌≡◌, refl, ap, sym, Bool, true, false, ◌&&◌, Outcome, ok, >>=-eq-ok,
  require, leb, ltb, ◌↔◌, List, [], ◌∷◌, Option, All, length, arith, Bool-cases, inl, inr, IsSafe,
  >>=-IsSafe,
}
use rust_dlc.Dlc.Types.{
  Error, invalid_argument, improper_outcomes, Script, OutPoint, TxOut, TxIn, Transaction, Payout,
  PartyParams, dust_limit, IsU64, checked_add, checked_add_ok, checked_add_eq,
}
use rust_dlc.Dlc.Fee.{discard_dust, enable_locktime}
use rust_dlc.Dlc.Fund.Safe.{checked_add-IsSafe, require-IsSafe, ok-IsSafe}
use rust_dlc.Dlc.Cet.{
  create_cet, create_cets, create_refund_transaction, proper_outcome, has_proper_outcomes,
  cets_and_refund, create_cets_and_refund_tx, cet_input,
}

-- The sum of the values of some outputs.
abbrev pub total_value : List TxOut → ℕ
total_value [] = 0
total_value (x ∷ xs) = x.value + total_value xs

-- The outputs that are worth at least the limit.
abbrev pub AboveDust : TxOut → Type 0
AboveDust x = dust_limit ≤ x.value

pub discard_dust-AboveDust : (xs : List TxOut) → All AboveDust (discard_dust xs dust_limit)
unfolding discard_dust
discard_dust-AboveDust [] = tt
discard_dust-AboveDust (x ∷ xs) = elim (Bool-cases (leb dust_limit x.value)) [
  | inl e ↦ rw e (ground arith, discard_dust-AboveDust xs)
  | inr e ↦ rw e (discard_dust-AboveDust xs)
]

-- What a CET or a refund transaction pays to two parties that own `total` together.
abbrev pub Pays : ℕ → Transaction → Type 0
Pays total tx =
    All AboveDust tx.output
    × (total_value tx.output ≤ total)
    × (total ≤ total_value tx.output + 2 * (dust_limit - 1))

pair-Pays :
    (x y : TxOut)
    → All AboveDust (discard_dust (x ∷ y ∷ []) dust_limit)
      × (total_value (discard_dust (x ∷ y ∷ []) dust_limit) ≤ x.value + y.value)
      × (x.value + y.value
          ≤ total_value (discard_dust (x ∷ y ∷ []) dust_limit) + 2 * (dust_limit - 1))
unfolding discard_dust
pair-Pays x y = (discard_dust-AboveDust (x ∷ y ∷ []), ground arith, ground arith)

pub create_cet-Pays :
    (o a : TxOut) (oid aid : ℕ) (tx_in : TxIn) (lock_time : ℕ)
    → Pays (o.value + a.value) (create_cet o oid a aid tx_in lock_time)
unfolding create_cet
create_cet-Pays o a oid aid tx_in lock_time = elim (Bool-cases (ltb oid aid)) [
  | inl e ↦ rw e (pair-Pays o a)
  | inr e ↦ let (dust, below, above) = pair-Pays a o in rw e (dust, omega arith, omega arith)
]

pub create_refund_transaction-Pays :
    (o a : TxOut) (tx_in : TxIn) (lock_time : ℕ)
    → Pays (o.value + a.value) (create_refund_transaction o a tx_in lock_time)
unfolding create_refund_transaction
create_refund_transaction-Pays o a tx_in lock_time = pair-Pays o a

-- Each payout shares out the total.
abbrev pub Proper : ℕ → List Payout → Type 0
Proper total = All (λ p. p.offer + p.accept ≡ total)

proper_outcome_lem :
    (total : ℕ) (p : Payout) → proper_outcome total p ≡ true → p.offer + p.accept ≡ total
unfolding proper_outcome checked_add
proper_outcome_lem total p h = ground arith

has_proper_outcomes_lem :
    (total : ℕ) (ps : List Payout) → has_proper_outcomes total ps ≡ true → Proper total ps
unfolding has_proper_outcomes
has_proper_outcomes_lem total [] h = tt
has_proper_outcomes_lem total (p ∷ ps) h = elim (Bool-cases (proper_outcome total p)) [
  | inl e ↦ (
    proper_outcome_lem total p e,
    has_proper_outcomes_lem total ps (subst (λ b. (b && has_proper_outcomes total ps) ≡ true) e h),
  )
  | inr e ↦
      let both = subst (λ b. (b && has_proper_outcomes total ps) ≡ true) e h in
      absurd (true≢false (sym both))
]

proper_outcome_eq :
    (total : ℕ) (p : Payout)
    → IsU64 total
    → p.offer + p.accept ≡ total
    → proper_outcome total p ≡ true
unfolding proper_outcome checked_add
proper_outcome_eq total p small h = ground arith

has_proper_outcomes-true :
    (total : ℕ) (ps : List Payout)
    → IsU64 total
    → Proper total ps
    → has_proper_outcomes total ps ≡ true
unfolding has_proper_outcomes
has_proper_outcomes-true total [] small h = refl
has_proper_outcomes-true total (p ∷ ps) small h =
    rw (proper_outcome_eq total p small h.0) (has_proper_outcomes-true total ps small h.1)

create_cets-All :
    (tx_in : TxIn) (os : Script) (oid : ℕ) (acs : Script) (aid : ℕ) (ps : List Payout)
    (lock_time total : ℕ)
    → Proper total ps
    → All (Pays total) (create_cets tx_in os oid acs aid ps lock_time)
unfolding create_cets
create_cets-All tx_in os oid acs aid [] lock_time total h = tt
create_cets-All tx_in os oid acs aid (p ∷ ps) lock_time total h = (
  subst
      (λ t. Pays t (
        create_cet (record { value = p.offer; script_pubkey = os }) oid
          (record { value = p.accept; script_pubkey = acs }) aid tx_in lock_time))
      h.0
      (create_cet-Pays (record { value = p.offer; script_pubkey = os })
        (record { value = p.accept; script_pubkey = acs }) oid aid tx_in lock_time),
  create_cets-All tx_in os oid acs aid ps lock_time total h.1,
)

length-create_cets :
    (tx_in : TxIn) (os : Script) (oid : ℕ) (acs : Script) (aid : ℕ) (ps : List Payout)
    (lock_time : ℕ)
    → length (create_cets tx_in os oid acs aid ps lock_time) ≡ length ps
unfolding create_cets
length-create_cets tx_in os oid acs aid [] lock_time = refl
length-create_cets tx_in os oid acs aid (p ∷ ps) lock_time =
    ap suc (length-create_cets tx_in os oid acs aid ps lock_time)

-- What `create_cets_and_refund_tx` gives for some collateral and payouts: a CET for each payout, and
-- a refund transaction, each paying out all of the collateral but the outputs that are dust.
abbrev pub PaysOut : ℕ → List Payout → List Transaction × Transaction → Type 0
PaysOut total payouts (cets, refund) =
    (length cets ≡ length payouts) × All (Pays total) cets × Pays total refund

cets_and_refund-PaysOut :
    (offer accept : PartyParams) (prev : OutPoint) (payouts : List Payout)
    (refund_lock_time cet_lock_time : ℕ) (sequence : Option ℕ)
    → Proper (offer.collateral + accept.collateral) payouts
    → PaysOut
        (offer.collateral + accept.collateral)
        payouts
        (cets_and_refund offer accept prev payouts refund_lock_time cet_lock_time sequence)
unfolding cets_and_refund
cets_and_refund-PaysOut offer accept prev payouts refund_lock_time cet_lock_time sequence h = (
  length-create_cets (cet_input prev cet_lock_time sequence) offer.payout_script_pubkey
      offer.payout_serial_id accept.payout_script_pubkey accept.payout_serial_id payouts
      cet_lock_time,
  create_cets-All (cet_input prev cet_lock_time sequence) offer.payout_script_pubkey
      offer.payout_serial_id accept.payout_script_pubkey accept.payout_serial_id payouts
      cet_lock_time (offer.collateral + accept.collateral) h,
  create_refund_transaction-Pays
      (record { value = offer.collateral; script_pubkey = offer.payout_script_pubkey })
      (record { value = accept.collateral; script_pubkey = accept.payout_script_pubkey })
      (record { previous_output = prev; script_sig = []; sequence = enable_locktime })
      refund_lock_time,
)

pub ok-inj {ℓ} : {A : Type ℓ} {a b : A} → ◌≡◌ {A = Outcome Error A} (ok a) (ok b) → a ≡ b
ok-inj h = cc

pub require_ok : (b : Bool) (e : Error) {u : Unit {0}} → require b e ≡ ok u → b ≡ true
require_ok true e h = refl
require_ok false e h = cc

pub create_cets_and_refund_tx-PaysOut :
    (offer accept : PartyParams) (prev : OutPoint) (payouts : List Payout)
    (refund_lock_time cet_lock_time : ℕ) (sequence : Option ℕ) {r : List Transaction × Transaction}
    → create_cets_and_refund_tx offer accept prev payouts refund_lock_time cet_lock_time sequence
      ≡ ok r
    → Proper (offer.collateral + accept.collateral) payouts
      × PaysOut (offer.collateral + accept.collateral) payouts r
unfolding create_cets_and_refund_tx
create_cets_and_refund_tx-PaysOut offer accept prev payouts refund_lock_time cet_lock_time sequence
      h =
    let (total, e, h₁) = >>=-eq-ok (checked_add offer.collateral accept.collateral) _ h in
    let (_, proper, h₂) =
      >>=-eq-ok (require (has_proper_outcomes total payouts) (invalid_argument improper_outcomes)) _
        h₁ in
    let shared =
      subst (λ t. Proper t payouts) (checked_add_ok offer.collateral accept.collateral e).0
        (has_proper_outcomes_lem total payouts (
          require_ok (has_proper_outcomes total payouts) (invalid_argument improper_outcomes)
            proper)) in
    (
      shared,
      subst (PaysOut (offer.collateral + accept.collateral) payouts) (ok-inj h₂) (
          cets_and_refund-PaysOut offer accept prev payouts refund_lock_time cet_lock_time sequence
            shared),
    )

-- For collaterals whose sum fits 64 bits: the CETs and the refund transaction are created, one CET for
-- each payout, and pay out the whole sum but for dust, exactly when each payout shares out the sum.
pub create_cets_and_refund_tx_iff :
    (offer accept : PartyParams) (prev : OutPoint) (payouts : List Payout)
    (refund_lock_time cet_lock_time : ℕ) (sequence : Option ℕ)
    → IsU64 (offer.collateral + accept.collateral)
    → ((r : List Transaction × Transaction) × (create_cets_and_refund_tx offer accept prev payouts
            refund_lock_time cet_lock_time sequence
          ≡ ok r)
        × PaysOut (offer.collateral + accept.collateral) payouts r)
      ↔ Proper (offer.collateral + accept.collateral) payouts
unfolding create_cets_and_refund_tx
create_cets_and_refund_tx_iff offer accept prev payouts refund_lock_time cet_lock_time sequence
      small =
    (
      (λ (r, e, q).
          (create_cets_and_refund_tx-PaysOut offer accept prev payouts refund_lock_time
            cet_lock_time sequence e).0),
      λ h. (
        cets_and_refund offer accept prev payouts refund_lock_time cet_lock_time sequence,
        rw (checked_add_eq offer.collateral accept.collateral small) (
            rw (has_proper_outcomes-true (offer.collateral + accept.collateral) payouts small h)
              refl),
        cets_and_refund-PaysOut offer accept prev payouts refund_lock_time cet_lock_time sequence h,
      ),
    )

pub create_cets_and_refund_tx-IsSafe :
    (offer accept : PartyParams) (prev : OutPoint) (payouts : List Payout)
    (refund_lock_time cet_lock_time : ℕ) (sequence : Option ℕ)
    → IsSafe (
        create_cets_and_refund_tx offer accept prev payouts refund_lock_time cet_lock_time sequence)
unfolding create_cets_and_refund_tx
create_cets_and_refund_tx-IsSafe offer accept prev payouts refund_lock_time cet_lock_time sequence =
    >>=-IsSafe (checked_add offer.collateral accept.collateral) _ (checked_add-IsSafe _ _)
      (λ total _.
        >>=-IsSafe
          (require (has_proper_outcomes total payouts) (invalid_argument improper_outcomes)) _
          (require-IsSafe _ _) (λ _ _. ok-IsSafe _))
