-- ===== src/Updater/Steps.antt =====
-- The functions of dlc-manager/src/channel_updater.rs as steps of one party's channel, taken in any
-- order.
use rust_dlc.Base.{ℕ, Outcome, ok, err, panic, List, [], ◌∷◌, Option}
use rust_dlc.Updater.Types.{
  Error, Context, SettleOffer, SettleAccept, SettleConfirm, SettleFinalize, RenewFinalize,
  RenewRevoke, CollaborativeCloseOffer,
}
use rust_dlc.Updater.Services.{Services}
use rust_dlc.Updater.Settle.{
  settle_channel_offer, on_settle_offer, settle_channel_accept_internal,
  settle_channel_confirm_internal,
}
use rust_dlc.Updater.Finalize.{settle_channel_finalize_internal, settle_channel_on_finalize}
use rust_dlc.Updater.Reject.{on_reject, reject_settle_offer, reject_renew_offer}
use rust_dlc.Updater.Close.{offer_collaborative_close, on_collaborative_close_offer}
use rust_dlc.Updater.Renew.{renew_channel_on_finalize, renew_channel_on_revoke}
use rust_dlc.Updater.Offer.{
  Conversions, ContractInput, OracleAnnouncement, RenewOffer, renew_offer, on_renew_offer,
}

-- A call of a function of the module, with its arguments.
pub data Call : Type 0 where
  offers_settle : (counter_payout peer_timeout : ℕ) → Option ℕ → Call
  receives_settle : SettleOffer → Call
  accepts_settle : (csv_timelock lock_time peer_timeout : ℕ) → Option ℕ → Call
  confirms_settle :
      SettleAccept → (csv_timelock lock_time peer_timeout : ℕ) → (sk pk : Option ℕ) → Call
  finalizes_settle : SettleConfirm → Option ℕ → Call
  ends_settle : SettleFinalize → Call
  rejects_settle rejects_renew receives_reject : Call
  offers_renew :
      ContractInput
      → List (List OracleAnnouncement)
      → (counter_payout refund_delay peer_timeout cet_nsequence : ℕ) → Option ℕ
      → Call
  receives_renew : RenewOffer → (peer_timeout : ℕ) → Call
  finalizes_renew : RenewFinalize → Option ℕ → Call
  revokes_renew : RenewRevoke → Call
  offers_close : (counter_payout : ℕ) → Option ℕ → Call
  receives_close : CollaborativeCloseOffer → (peer_timeout : ℕ) → Call

-- The end of a step, without the message that it returns.
pub data End : Type 0 where
  returned : Context → End
  failed : Error → Context → End
  panicked : Context → End

abbrev pub end_of : {A : Type 0} → Outcome Error A × Context → End
end_of (ok a, s) = returned s
end_of (err e, s) = failed e s
end_of (panic, s) = panicked s

abbrev pub context_of : End → Context
context_of (returned s) = s
context_of (failed e s) = s
context_of (panicked s) = s

module _ (conversions : Conversions) (services : Services) where
  unfoldable pub perform : Call → Context → End
  perform (offers_settle payout timeout id) s =
      end_of (settle_channel_offer services payout timeout id s)
  perform (receives_settle offer) s = end_of (on_settle_offer offer s)
  perform (accepts_settle csv lock timeout sk) s =
      end_of (settle_channel_accept_internal services csv lock timeout sk s)
  perform (confirms_settle accept csv lock timeout sk pk) s =
      end_of (settle_channel_confirm_internal services accept csv lock timeout sk pk s)
  perform (finalizes_settle confirm pk) s =
      end_of (settle_channel_finalize_internal services confirm pk s)
  perform (ends_settle finalize) s = end_of (settle_channel_on_finalize services finalize s)
  perform rejects_settle s = end_of (reject_settle_offer services s)
  perform rejects_renew s = end_of (reject_renew_offer services s)
  perform receives_reject s = end_of (on_reject s)
  perform (offers_renew input announcements payout delay timeout nsequence id) s =
      end_of
        (renew_offer conversions services input announcements payout delay timeout nsequence id s)
  perform (receives_renew offer timeout) s =
      end_of (on_renew_offer conversions services offer timeout s)
  perform (finalizes_renew finalize pk) s =
      end_of (renew_channel_on_finalize services finalize pk s)
  perform (revokes_renew revoke) s = end_of (renew_channel_on_revoke services revoke s)
  perform (offers_close payout id) s = end_of (offer_collaborative_close services payout id s)
  perform (receives_close offer timeout) s =
      end_of (on_collaborative_close_offer services offer timeout s)

  unfoldable pub run : List Call → Context → Context
  unfolding perform
  run [] s = s
  run (c ∷ calls) s = run calls (context_of (perform c s))
