-- ===== src/Updater/Recovery.antt =====
-- A channel with an offer on its way has a state to roll back to.
use rust_dlc.Updater.Exec.{Exec}
use rust_dlc.Base.{ℕ, ◌≡◌, Bool, true, false, Option, none, some, List, [], ◌∷◌, arith}
use rust_dlc.Updater.Types.{
  SettleOffer, SettleAccept, SettleConfirm, SettleFinalize, RenewFinalize, RenewRevoke,
  CollaborativeCloseOffer, SignedChannelState, SignedChannel, Context, state_type,
  SignedChannelStateType, settled_offered_type, settled_received_type, settled_accepted_type,
  settled_confirmed_type, renew_offered_type,
}
use rust_dlc.Updater.Services.{Services}
use rust_dlc.Updater.Offer.{
  Conversions, ContractInput, OracleAnnouncement, RenewOffer, renew_offer, on_renew_offer,
}
use rust_dlc.Updater.Reject.{is_stable, on_reject, reject_settle_offer, reject_renew_offer}
use rust_dlc.Updater.Settle.{
  settle_channel_offer, on_settle_offer, settle_channel_accept_internal,
  settle_channel_confirm_internal,
}
use rust_dlc.Updater.Finalize.{settle_channel_finalize_internal, settle_channel_on_finalize}
use rust_dlc.Updater.Close.{offer_collaborative_close, on_collaborative_close_offer}
use rust_dlc.Updater.Renew.{renew_channel_on_finalize, renew_channel_on_revoke}
use rust_dlc.Updater.Steps.{
  Call, offers_settle, receives_settle, accepts_settle, confirms_settle, finalizes_settle,
  ends_settle, rejects_settle, rejects_renew, receives_reject, offers_renew, receives_renew,
  finalizes_renew, revokes_renew, offers_close, receives_close, context_of, end_of, perform, run,
}

-- The states that an offer can be rejected in, or that follow one before the channel settles.
abbrev pub is_offer_pending : SignedChannelStateType → Bool
is_offer_pending settled_offered_type = true
is_offer_pending settled_received_type = true
is_offer_pending settled_accepted_type = true
is_offer_pending settled_confirmed_type = true
is_offer_pending renew_offered_type = true
is_offer_pending _ = false

abbrev pub is_some_stable : Option SignedChannelState → Bool
is_some_stable none = false
is_some_stable (some st) = is_stable st

abbrev pub Recoverable : SignedChannel → Type 0
Recoverable c =
    is_offer_pending (state_type c.state) ≡ true → is_some_stable c.roll_back_state ≡ true

-- A step keeps a channel recoverable, whether it returns, fails or panics.
abbrev pub Recovers : {A : Type 0} → Exec A → Type 0
Recovers m = (s : Context) → Recoverable s.channel → Recoverable (context_of (end_of (m s))).channel

module _ (conversions : Conversions) (services : Services) where
  settle_channel_offer-Recovers :
      (payout timeout : ℕ) (id : Option ℕ)
      → Recovers (settle_channel_offer services payout timeout id)
  unfolding settle_channel_offer
  settle_channel_offer-Recovers payout timeout id s h = ground arith

  on_settle_offer-Recovers : (offer : SettleOffer) → Recovers (on_settle_offer offer)
  unfolding on_settle_offer
  on_settle_offer-Recovers offer s h = ground arith

  settle_channel_accept_internal-Recovers :
      (csv lock timeout : ℕ) (sk : Option ℕ)
      → Recovers (settle_channel_accept_internal services csv lock timeout sk)
  unfolding settle_channel_accept_internal
  settle_channel_accept_internal-Recovers csv lock timeout sk s h = ground arith

  settle_channel_confirm_internal-Recovers :
      (accept : SettleAccept) (csv lock timeout : ℕ) (sk pk : Option ℕ)
      → Recovers (settle_channel_confirm_internal services accept csv lock timeout sk pk)
  unfolding settle_channel_confirm_internal
  settle_channel_confirm_internal-Recovers accept csv lock timeout sk pk s h = ground arith

  settle_channel_finalize_internal-Recovers :
      (confirm : SettleConfirm) (pk : Option ℕ)
      → Recovers (settle_channel_finalize_internal services confirm pk)
  unfolding settle_channel_finalize_internal
  settle_channel_finalize_internal-Recovers confirm pk s h = ground arith

  settle_channel_on_finalize-Recovers :
      (finalize : SettleFinalize) → Recovers (settle_channel_on_finalize services finalize)
  unfolding settle_channel_on_finalize
  settle_channel_on_finalize-Recovers finalize s h = ground arith

  reject_settle_offer-Recovers : Recovers (reject_settle_offer services)
  unfolding reject_settle_offer
  reject_settle_offer-Recovers s h = ground arith

  reject_renew_offer-Recovers : Recovers (reject_renew_offer services)
  unfolding reject_renew_offer
  reject_renew_offer-Recovers s h = ground arith

  on_reject-Recovers : Recovers (on_reject)
  unfolding on_reject
  on_reject-Recovers s h = ground arith

  renew_offer-Recovers :
      (input : ContractInput) (announcements : List (List OracleAnnouncement))
      (payout delay timeout nsequence : ℕ) (id : Option ℕ)
      → Recovers
          (renew_offer conversions services input announcements payout delay timeout nsequence id)
  unfolding renew_offer
  renew_offer-Recovers input announcements payout delay timeout nsequence id s h = ground arith

  on_renew_offer-Recovers :
      (offer : RenewOffer) (timeout : ℕ)
      → Recovers (on_renew_offer conversions services offer timeout)
  unfolding on_renew_offer
  on_renew_offer-Recovers offer timeout s h = ground arith

  renew_channel_on_finalize-Recovers :
      (finalize : RenewFinalize) (pk : Option ℕ)
      → Recovers (renew_channel_on_finalize services finalize pk)
  unfolding renew_channel_on_finalize
  renew_channel_on_finalize-Recovers finalize pk s h = ground arith

  renew_channel_on_revoke-Recovers :
      (revoke : RenewRevoke) → Recovers (renew_channel_on_revoke services revoke)
  unfolding renew_channel_on_revoke
  renew_channel_on_revoke-Recovers revoke s h = ground arith

  offer_collaborative_close-Recovers :
      (payout : ℕ) (id : Option ℕ) → Recovers (offer_collaborative_close services payout id)
  unfolding offer_collaborative_close
  offer_collaborative_close-Recovers payout id s h = ground arith

  on_collaborative_close_offer-Recovers :
      (offer : CollaborativeCloseOffer) (timeout : ℕ)
      → Recovers (on_collaborative_close_offer services offer timeout)
  unfolding on_collaborative_close_offer
  on_collaborative_close_offer-Recovers offer timeout s h = ground arith

  perform-Recoverable :
      (c : Call) (s : Context)
      → Recoverable s.channel
      → Recoverable (context_of (perform conversions services c s)).channel
  unfolding perform
  perform-Recoverable (offers_settle payout timeout id) s h =
      settle_channel_offer-Recovers payout timeout id s h
  perform-Recoverable (receives_settle offer) s h = on_settle_offer-Recovers offer s h
  perform-Recoverable (accepts_settle csv lock timeout sk) s h =
      settle_channel_accept_internal-Recovers csv lock timeout sk s h
  perform-Recoverable (confirms_settle accept csv lock timeout sk pk) s h =
      settle_channel_confirm_internal-Recovers accept csv lock timeout sk pk s h
  perform-Recoverable (finalizes_settle confirm pk) s h =
      settle_channel_finalize_internal-Recovers confirm pk s h
  perform-Recoverable (ends_settle finalize) s h = settle_channel_on_finalize-Recovers finalize s h
  perform-Recoverable rejects_settle s h = reject_settle_offer-Recovers s h
  perform-Recoverable rejects_renew s h = reject_renew_offer-Recovers s h
  perform-Recoverable receives_reject s h = on_reject-Recovers s h
  perform-Recoverable (offers_renew input announcements payout delay timeout nsequence id) s h =
      renew_offer-Recovers input announcements payout delay timeout nsequence id s h
  perform-Recoverable (receives_renew offer timeout) s h = on_renew_offer-Recovers offer timeout s h
  perform-Recoverable (finalizes_renew finalize pk) s h =
      renew_channel_on_finalize-Recovers finalize pk s h
  perform-Recoverable (revokes_renew revoke) s h = renew_channel_on_revoke-Recovers revoke s h
  perform-Recoverable (offers_close payout id) s h =
      offer_collaborative_close-Recovers payout id s h
  perform-Recoverable (receives_close offer timeout) s h =
      on_collaborative_close_offer-Recovers offer timeout s h

  pub run-Recoverable :
      (calls : List Call) (s : Context)
      → Recoverable s.channel
      → Recoverable (run conversions services calls s).channel
  unfolding run
  run-Recoverable [] s h = h
  run-Recoverable (c ∷ calls) s h =
      run-Recoverable calls (context_of (perform conversions services c s))
        (perform-Recoverable c s h)
