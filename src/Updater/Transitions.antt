-- ===== src/Updater/Transitions.antt =====
-- Which state each function of dlc-manager/src/channel_updater.rs needs and which it leads to, and
-- what it leaves alone where it fails.
use rust_dlc.Base.{ℕ, Option, List, arith}
use rust_dlc.Updater.Types.{
  SettleOffer, SettleAccept, SettleConfirm, SettleFinalize, RenewFinalize, RenewRevoke,
  CollaborativeCloseOffer, Context,
}
use rust_dlc.Updater.Services.{Services}
use rust_dlc.Updater.Settle.{
  settle_channel_offer, on_settle_offer, settle_channel_accept_internal,
  settle_channel_confirm_internal,
}
use rust_dlc.Updater.Finalize.{settle_channel_finalize_internal, settle_channel_on_finalize}
use rust_dlc.Updater.Reject.{on_reject, reject_settle_offer, reject_renew_offer}
use rust_dlc.Updater.Close.{offer_collaborative_close, on_collaborative_close_offer}
use rust_dlc.Updater.Renew.{renew_channel_on_finalize, renew_channel_on_revoke}
use rust_dlc.Updater.Offer.{
  Conversions, ContractInput, OracleAnnouncement, RenewOffer, renew_offer, on_renew_offer,
}
use rust_dlc.Updater.Steps.{
  Call, offers_settle, receives_settle, accepts_settle, confirms_settle, finalizes_settle,
  ends_settle, rejects_settle, rejects_renew, receives_reject, offers_renew, receives_renew,
  finalizes_renew, revokes_renew, offers_close, receives_close, end_of, perform,
}
use rust_dlc.Updater.Table.{
  is_established, is_settled, is_settled_offered, is_settled_received, is_settled_accepted,
  is_settled_confirmed, is_renew_offered, is_renew_confirmed, is_renew_finalized,
  is_collaborative_close_offered, any_state, stable, rejectable, before, after, Moves,
}

module _ (conversions : Conversions) (services : Services) where
  settle_channel_offer-Moves :
      (payout timeout : ℕ) (id : Option ℕ) (s : Context)
      → Moves is_established is_settled_offered s
          (end_of (settle_channel_offer services payout timeout id s))
  unfolding settle_channel_offer
  settle_channel_offer-Moves payout timeout id s = ground arith

  on_settle_offer-Moves :
      (offer : SettleOffer) (s : Context)
      → Moves is_established is_settled_received s (end_of (on_settle_offer offer s))
  unfolding on_settle_offer
  on_settle_offer-Moves offer s = ground arith

  settle_channel_accept_internal-Moves :
      (csv lock timeout : ℕ) (sk : Option ℕ) (s : Context)
      → Moves is_settled_received is_settled_accepted s
          (end_of (settle_channel_accept_internal services csv lock timeout sk s))
  unfolding settle_channel_accept_internal
  settle_channel_accept_internal-Moves csv lock timeout sk s = ground arith

  settle_channel_confirm_internal-Moves :
      (accept : SettleAccept) (csv lock timeout : ℕ) (sk pk : Option ℕ) (s : Context)
      → Moves is_settled_offered is_settled_confirmed s
          (end_of (settle_channel_confirm_internal services accept csv lock timeout sk pk s))
  unfolding settle_channel_confirm_internal
  settle_channel_confirm_internal-Moves accept csv lock timeout sk pk s = ground arith

  settle_channel_finalize_internal-Moves :
      (confirm : SettleConfirm) (pk : Option ℕ) (s : Context)
      → Moves is_settled_accepted is_settled s
          (end_of (settle_channel_finalize_internal services confirm pk s))
  unfolding settle_channel_finalize_internal
  settle_channel_finalize_internal-Moves confirm pk s = ground arith

  settle_channel_on_finalize-Moves :
      (finalize : SettleFinalize) (s : Context)
      → Moves is_settled_confirmed is_settled s
          (end_of (settle_channel_on_finalize services finalize s))
  unfolding settle_channel_on_finalize
  settle_channel_on_finalize-Moves finalize s = ground arith

  reject_settle_offer-Moves :
      (s : Context)
      → Moves is_settled_received any_state s (end_of (reject_settle_offer services s))
  unfolding reject_settle_offer
  reject_settle_offer-Moves s = ground arith

  reject_renew_offer-Moves :
      (s : Context) → Moves is_renew_offered any_state s (end_of (reject_renew_offer services s))
  unfolding reject_renew_offer
  reject_renew_offer-Moves s = ground arith

  on_reject-Moves : (s : Context) → Moves rejectable any_state s (end_of (on_reject s))
  unfolding on_reject
  on_reject-Moves s = ground arith

  renew_offer-Moves :
      (input : ContractInput) (announcements : List (List OracleAnnouncement))
      (payout delay timeout nsequence : ℕ) (id : Option ℕ) (s : Context)
      → Moves stable is_renew_offered s (
          end_of (
            renew_offer conversions services input announcements payout delay timeout nsequence id
              s))
  unfolding renew_offer
  renew_offer-Moves input announcements payout delay timeout nsequence id s = ground arith

  on_renew_offer-Moves :
      (offer : RenewOffer) (timeout : ℕ) (s : Context)
      → Moves stable is_renew_offered s
          (end_of (on_renew_offer conversions services offer timeout s))
  unfolding on_renew_offer
  on_renew_offer-Moves offer timeout s = ground arith

  renew_channel_on_finalize-Moves :
      (finalize : RenewFinalize) (pk : Option ℕ) (s : Context)
      → Moves is_renew_confirmed is_established s
          (end_of (renew_channel_on_finalize services finalize pk s))
  unfolding renew_channel_on_finalize
  renew_channel_on_finalize-Moves finalize pk s = ground arith

  renew_channel_on_revoke-Moves :
      (revoke : RenewRevoke) (s : Context)
      → Moves is_renew_finalized is_established s
          (end_of (renew_channel_on_revoke services revoke s))
  unfolding renew_channel_on_revoke
  renew_channel_on_revoke-Moves revoke s = ground arith

  offer_collaborative_close-Moves :
      (payout : ℕ) (id : Option ℕ) (s : Context)
      → Moves any_state is_collaborative_close_offered s
          (end_of (offer_collaborative_close services payout id s))
  unfolding offer_collaborative_close
  offer_collaborative_close-Moves payout id s = ground arith

  on_collaborative_close_offer-Moves :
      (offer : CollaborativeCloseOffer) (timeout : ℕ) (s : Context)
      → Moves any_state is_collaborative_close_offered s
          (end_of (on_collaborative_close_offer services offer timeout s))
  unfolding on_collaborative_close_offer
  on_collaborative_close_offer-Moves offer timeout s = ground arith

  -- A call returns a value only from a state that it is for, and leads to a state that it is for;

  -- where it fails or panics, nothing of the channel is written but the counter party's secrets.

  pub perform-Moves :
      (c : Call) (s : Context) → Moves (before c) (after c) s (perform conversions services c s)
  unfolding perform
  perform-Moves (offers_settle payout timeout id) s = settle_channel_offer-Moves payout timeout id s
  perform-Moves (receives_settle offer) s = on_settle_offer-Moves offer s
  perform-Moves (accepts_settle csv lock timeout sk) s =
      settle_channel_accept_internal-Moves csv lock timeout sk s
  perform-Moves (confirms_settle accept csv lock timeout sk pk) s =
      settle_channel_confirm_internal-Moves accept csv lock timeout sk pk s
  perform-Moves (finalizes_settle confirm pk) s =
      settle_channel_finalize_internal-Moves confirm pk s
  perform-Moves (ends_settle finalize) s = settle_channel_on_finalize-Moves finalize s
  perform-Moves rejects_settle s = reject_settle_offer-Moves s
  perform-Moves rejects_renew s = reject_renew_offer-Moves s
  perform-Moves receives_reject s = on_reject-Moves s
  perform-Moves (offers_renew input announcements payout delay timeout nsequence id) s =
      renew_offer-Moves input announcements payout delay timeout nsequence id s
  perform-Moves (receives_renew offer timeout) s = on_renew_offer-Moves offer timeout s
  perform-Moves (finalizes_renew finalize pk) s = renew_channel_on_finalize-Moves finalize pk s
  perform-Moves (revokes_renew revoke) s = renew_channel_on_revoke-Moves revoke s
  perform-Moves (offers_close payout id) s = offer_collaborative_close-Moves payout id s
  perform-Moves (receives_close offer timeout) s =
      on_collaborative_close_offer-Moves offer timeout s
