-- ===== src/Updater/Rejection.antt =====
-- Rejected offers: a channel goes back to the state it had before the offer.
use rust_dlc.Base.{◌≡◌, true, false, some, List, arith, ◌⊎◌}
use rust_dlc.Updater.Types.{Context, state_type}
use rust_dlc.Updater.Services.{Services}
use rust_dlc.Updater.Offer.{Conversions}
use rust_dlc.Updater.Reject.{is_stable, on_reject, reject_settle_offer, reject_renew_offer}
use rust_dlc.Updater.Steps.{
  Call, rejects_settle, rejects_renew, receives_reject, End, returned, failed, panicked, end_of,
  perform, run,
}
use rust_dlc.Updater.Recovery.{Recoverable, is_offer_pending, run-Recoverable}

-- A rejection that returns leaves the channel in a stable state, that to roll back to or the one it
-- had; one that fails leaves all as it was; none panics.
abbrev pub Rejects : Context → End → Type 0
Rejects s (returned t) =
    ((s.channel.roll_back_state ≡ some t.channel.state) ⊎ (t ≡ s))
    × (is_stable t.channel.state ≡ true)
Rejects s (failed e t) = t ≡ s
Rejects s (panicked t) = ⊥

on_reject-Rejects : (s : Context) → Recoverable s.channel → Rejects s (end_of (on_reject s))
unfolding on_reject
on_reject-Rejects s h = ground arith

module _ (services : Services) where
  reject_settle_offer-Rejects :
      (s : Context) → Recoverable s.channel → Rejects s (end_of (reject_settle_offer services s))
  unfolding reject_settle_offer
  reject_settle_offer-Rejects s h = ground arith

  reject_renew_offer-Rejects :
      (s : Context) → Recoverable s.channel → Rejects s (end_of (reject_renew_offer services s))
  unfolding reject_renew_offer
  reject_renew_offer-Rejects s h = ground arith

-- From a channel with no offer on its way, after any calls with any messages, in any order, whether
-- they return, fail or panic: the rejection of a settle offer, that of a renew offer, and a reject
-- message received do not panic. One that returns leaves the channel established or settled, in the
-- state it had before the offer or the one it had; one that fails changes nothing.
pub run-Rejects :
    (conversions : Conversions) (services : Services) (calls : List Call) (s : Context)
    → is_offer_pending (state_type s.channel.state) ≡ false
    → let t = run conversions services calls s in
      Rejects t (perform conversions services rejects_settle t)
      × Rejects t (perform conversions services rejects_renew t)
      × Rejects t (perform conversions services receives_reject t)
unfolding perform
run-Rejects conversions services calls s h =
    let t = run conversions services calls s in
    let g = run-Recoverable conversions services calls s (λ p. cc) in
    (
      reject_settle_offer-Rejects services t g,
      reject_renew_offer-Rejects services t g,
      on_reject-Rejects t g,
    )
