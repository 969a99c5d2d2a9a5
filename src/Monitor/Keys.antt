-- ===== src/Monitor/Keys.antt =====
-- Keys of the watched outputs, and what an entry can become.
use mathlib.Core.Path.{subst}
use mathlib.Core.Bool.{true≢false}
use rust_dlc.Base.{
  Bool, true, false, ◌&&◌, ◌==◌, ==_iff, if◌then◌else◌, Option, none, some, ◌≡◌, refl, sym, ap, ◌∙◌,
  ◌↔◌, Bool-cases, inl, inr,
}
use rust_dlc.Base.Map.{keep, change}
use rust_dlc.Dlc.Types.{OutPoint, Transaction}
use rust_dlc.Monitor.{WatchState, registered, confirmed, outpoint_eq, confirm, channel_info}

both : (a b : Bool) → (a && b) ≡ true → (a ≡ true) × (b ≡ true)
both true b h = (refl, h)
both false b h = absurd (true≢false (sym h))

join : (a b : Bool) → a ≡ true → b ≡ true → (a && b) ≡ true
join a b h k = rw h k

pub some-inj : {A : Type 0} {a b : A} → some a ≡ some b → a ≡ b
some-inj h = cc

pub none-some : {A : Type 0} {b : A} → ◌≡◌ {A = Option A} none (some b) → ⊥
none-some h = cc

pub outpoint_eq_iff : (a b : OutPoint) → (outpoint_eq a b ≡ true) ↔ (a ≡ b)
outpoint_eq_iff a b = (
  λ h.
      let (p, q) = both (a.txid == b.txid) (a.vout == b.vout) h in
      ap (λ z. record { txid = z; vout = a.vout }) ((==_iff a.txid b.txid).0 p)
      ∙ ap (λ z. record { txid = b.txid; vout = z }) ((==_iff a.vout b.vout).0 q),
  λ e.
      subst (λ (z : OutPoint). outpoint_eq a z ≡ true) e
        (join (a.txid == a.txid) (a.vout == a.vout) ((==_iff a.txid a.txid).1 refl)
          ((==_iff a.vout a.vout).1 refl)),
)

pub channel_info-confirm :
    (tx : Transaction) (s : WatchState) → channel_info (confirm tx s) ≡ channel_info s
channel_info-confirm tx (registered info) = refl
channel_info-confirm tx (confirmed info earlier) = refl

pub keep-some :
    (p : WatchState → Bool) (o : Option WatchState) {s : WatchState}
    → keep p o ≡ some s
    → (o ≡ some s) × (p s ≡ true)
keep-some p none h = cc
keep-some p (some w) {s} h = elim (Bool-cases (p w)) [
  | inl e ↦
      let same : w ≡ s = some-inj (subst (λ z. (if z then some w else none) ≡ some s) e h) in
      (ap some same, subst (λ z. p z ≡ true) same e)
  | inr e ↦ absurd (none-some (subst (λ z. (if z then some w else none) ≡ some s) e h))
]

pub change-some :
    (tx : Transaction) (o : Option WatchState) {s : WatchState}
    → change (confirm tx) o ≡ some s
    → (t : WatchState) × (o ≡ some t) × (channel_info s ≡ channel_info t)
change-some tx none h = cc
change-some tx (some w) h =
    (w, refl, ap channel_info (sym (some-inj h)) ∙ channel_info-confirm tx w)

pub updated :
    (b : Bool) (tx : Transaction) (o : Option WatchState) {s : WatchState}
    → (if b then change (confirm tx) o else o) ≡ some s
    → (t : WatchState) × (o ≡ some t) × (channel_info s ≡ channel_info t)
updated true tx o h = change-some tx o h
updated false tx o {s} h = (s, h, refl)
