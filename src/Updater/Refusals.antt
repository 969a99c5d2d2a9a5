-- ===== src/Updater/Refusals.antt =====
-- What the functions of dlc-manager/src/channel_updater.rs do in a state that they are not for.
use rust_dlc.Base.{ℕ, ◌≡◌, false, Option, List, arith}
use rust_dlc.Updater.Types.{
  invalid_state, SettleOffer, SettleAccept, SettleConfirm, SettleFinalize, RenewFinalize,
  RenewRevoke, Context, state_type,
}
use rust_dlc.Updater.Services.{Services}
use rust_dlc.Updater.Settle.{
  settle_channel_offer, on_settle_offer, settle_channel_accept_internal,
  settle_channel_confirm_internal,
}
use rust_dlc.Updater.Finalize.{settle_channel_finalize_internal, settle_channel_on_finalize}
use rust_dlc.Updater.Reject.{on_reject, reject_settle_offer, reject_renew_offer}
use rust_dlc.Updater.Renew.{renew_channel_on_finalize, renew_channel_on_revoke}
use rust_dlc.Updater.Offer.{
  Conversions, ContractInput, OracleAnnouncement, RenewOffer, renew_offer, on_renew_offer,
}
use rust_dlc.Updater.Steps.{
  Call, offers_settle, receives_settle, accepts_settle, confirms_settle, finalizes_settle,
  ends_settle, rejects_settle, rejects_renew, receives_reject, offers_renew, receives_renew,
  finalizes_renew, revokes_renew, offers_close, receives_close, failed, perform,
}
use rust_dlc.Updater.Table.{
  is_established, is_settled_offered, is_settled_received, is_settled_accepted,
  is_settled_confirmed, is_renew_offered, is_renew_confirmed, is_renew_finalized, stable,
  rejectable, before, Refuses,
}

module _ (conversions : Conversions) (services : Services) where
  settle_channel_offer-Refuses :
      (payout timeout : ℕ) (id : Option ℕ)
      → Refuses is_established (settle_channel_offer services payout timeout id)
  unfolding settle_channel_offer
  settle_channel_offer-Refuses payout timeout id s h = ground arith

  on_settle_offer-Refuses : (offer : SettleOffer) → Refuses is_established (on_settle_offer offer)
  unfolding on_settle_offer
  on_settle_offer-Refuses offer s h = ground arith

  settle_channel_accept_internal-Refuses :
      (csv lock timeout : ℕ) (sk : Option ℕ)
      → Refuses is_settled_received (settle_channel_accept_internal services csv lock timeout sk)
  unfolding settle_channel_accept_internal
  settle_channel_accept_internal-Refuses csv lock timeout sk s h = ground arith

  settle_channel_confirm_internal-Refuses :
      (accept : SettleAccept) (csv lock timeout : ℕ) (sk pk : Option ℕ)
      → Refuses is_settled_offered
          (settle_channel_confirm_internal services accept csv lock timeout sk pk)
  unfolding settle_channel_confirm_internal
  settle_channel_confirm_internal-Refuses accept csv lock timeout sk pk s h = ground arith

  settle_channel_finalize_internal-Refuses :
      (confirm : SettleConfirm) (pk : Option ℕ)
      → Refuses is_settled_accepted (settle_channel_finalize_internal services confirm pk)
  unfolding settle_channel_finalize_internal
  settle_channel_finalize_internal-Refuses confirm pk s h = ground arith

  settle_channel_on_finalize-Refuses :
      (finalize : SettleFinalize)
      → Refuses is_settled_confirmed (settle_channel_on_finalize services finalize)
  unfolding settle_channel_on_finalize
  settle_channel_on_finalize-Refuses finalize s h = ground arith

  reject_settle_offer-Refuses : Refuses is_settled_received (reject_settle_offer services)
  unfolding reject_settle_offer
  reject_settle_offer-Refuses s h = ground arith

  reject_renew_offer-Refuses : Refuses is_renew_offered (reject_renew_offer services)
  unfolding reject_renew_offer
  reject_renew_offer-Refuses s h = ground arith

  on_reject-Refuses : Refuses rejectable (on_reject)
  unfolding on_reject
  on_reject-Refuses s h = ground arith

  renew_offer-Refuses :
      (input : ContractInput) (announcements : List (List OracleAnnouncement))
      (payout delay timeout nsequence : ℕ) (id : Option ℕ)
      → Refuses stable
          (renew_offer conversions services input announcements payout delay timeout nsequence id)
  unfolding renew_offer
  renew_offer-Refuses input announcements payout delay timeout nsequence id s h = ground arith

  on_renew_offer-Refuses :
      (offer : RenewOffer) (timeout : ℕ)
      → Refuses stable (on_renew_offer conversions services offer timeout)
  unfolding on_renew_offer
  on_renew_offer-Refuses offer timeout s h = ground arith

  renew_channel_on_finalize-Refuses :
      (finalize : RenewFinalize) (pk : Option ℕ)
      → Refuses is_renew_confirmed (renew_channel_on_finalize services finalize pk)
  unfolding renew_channel_on_finalize
  renew_channel_on_finalize-Refuses finalize pk s h = ground arith

  renew_channel_on_revoke-Refuses :
      (revoke : RenewRevoke) → Refuses is_renew_finalized (renew_channel_on_revoke services revoke)
  unfolding renew_channel_on_revoke
  renew_channel_on_revoke-Refuses revoke s h = ground arith

  -- In a state that it is not for, a call fails as an invalid state, and writes nothing.

  pub perform-Refuses :
      (c : Call) (s : Context)
      → before c (state_type s.channel.state) ≡ false
      → perform conversions services c s ≡ failed invalid_state s
  unfolding perform
  perform-Refuses (offers_settle payout timeout id) s h =
      settle_channel_offer-Refuses payout timeout id s h
  perform-Refuses (receives_settle offer) s h = on_settle_offer-Refuses offer s h
  perform-Refuses (accepts_settle csv lock timeout sk) s h =
      settle_channel_accept_internal-Refuses csv lock timeout sk s h
  perform-Refuses (confirms_settle accept csv lock timeout sk pk) s h =
      settle_channel_confirm_internal-Refuses accept csv lock timeout sk pk s h
  perform-Refuses (finalizes_settle confirm pk) s h =
      settle_channel_finalize_internal-Refuses confirm pk s h
  perform-Refuses (ends_settle finalize) s h = settle_channel_on_finalize-Refuses finalize s h
  perform-Refuses rejects_settle s h = reject_settle_offer-Refuses s h
  perform-Refuses rejects_renew s h = reject_renew_offer-Refuses s h
  perform-Refuses receives_reject s h = on_reject-Refuses s h
  perform-Refuses (offers_renew input announcements payout delay timeout nsequence id) s h =
      renew_offer-Refuses input announcements payout delay timeout nsequence id s h
  perform-Refuses (receives_renew offer timeout) s h = on_renew_offer-Refuses offer timeout s h
  perform-Refuses (finalizes_renew finalize pk) s h =
      renew_channel_on_finalize-Refuses finalize pk s h
  perform-Refuses (revokes_renew revoke) s h = renew_channel_on_revoke-Refuses revoke s h
  perform-Refuses (offers_close payout id) s h = cc
  perform-Refuses (receives_close offer timeout) s h = cc
