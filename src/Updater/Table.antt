-- ===== src/Updater/Table.antt =====
-- The states that each function of dlc-manager/src/channel_updater.rs is for, and those it leads to.
use rust_dlc.Base.{◌≡◌, Bool, true, false, ◌||◌}
use rust_dlc.Updater.Types.{
  invalid_state, SignedChannelStateType, Context, state_type, established_type,
  settled_offered_type, settled_received_type, settled_accepted_type, settled_confirmed_type,
  settled_type, renew_offered_type, renew_confirmed_type, renew_finalized_type,
  collaborative_close_offered_type,
}
use rust_dlc.Updater.Exec.{Exec}
use rust_dlc.Updater.Steps.{
  Call, offers_settle, receives_settle, accepts_settle, confirms_settle, finalizes_settle,
  ends_settle, rejects_settle, rejects_renew, receives_reject, offers_renew, receives_renew,
  finalizes_renew, revokes_renew, offers_close, receives_close, End, returned, failed, panicked,
  end_of,
}

abbrev pub is_established : SignedChannelStateType → Bool
is_established established_type = true
is_established _ = false

abbrev pub is_settled_offered : SignedChannelStateType → Bool
is_settled_offered settled_offered_type = true
is_settled_offered _ = false

abbrev pub is_settled_received : SignedChannelStateType → Bool
is_settled_received settled_received_type = true
is_settled_received _ = false

abbrev pub is_settled_accepted : SignedChannelStateType → Bool
is_settled_accepted settled_accepted_type = true
is_settled_accepted _ = false

abbrev pub is_settled_confirmed : SignedChannelStateType → Bool
is_settled_confirmed settled_confirmed_type = true
is_settled_confirmed _ = false

abbrev pub is_settled : SignedChannelStateType → Bool
is_settled settled_type = true
is_settled _ = false

abbrev pub is_renew_offered : SignedChannelStateType → Bool
is_renew_offered renew_offered_type = true
is_renew_offered _ = false

abbrev pub is_renew_confirmed : SignedChannelStateType → Bool
is_renew_confirmed renew_confirmed_type = true
is_renew_confirmed _ = false

abbrev pub is_renew_finalized : SignedChannelStateType → Bool
is_renew_finalized renew_finalized_type = true
is_renew_finalized _ = false

abbrev pub is_collaborative_close_offered : SignedChannelStateType → Bool
is_collaborative_close_offered collaborative_close_offered_type = true
is_collaborative_close_offered _ = false

abbrev pub any_state : SignedChannelStateType → Bool
any_state _ = true

abbrev pub stable : SignedChannelStateType → Bool
stable t = is_established t || is_settled t

abbrev pub rejectable : SignedChannelStateType → Bool
rejectable t = stable t || is_settled_offered t || is_renew_offered t

-- The states in which a call can succeed, and those it can lead to.
abbrev pub before : Call → SignedChannelStateType → Bool
before (offers_settle _ _ _) = is_established
before (receives_settle _) = is_established
before (accepts_settle _ _ _ _) = is_settled_received
before (confirms_settle _ _ _ _ _ _) = is_settled_offered
before (finalizes_settle _ _) = is_settled_accepted
before (ends_settle _) = is_settled_confirmed
before rejects_settle = is_settled_received
before rejects_renew = is_renew_offered
before receives_reject = rejectable
before (offers_renew _ _ _ _ _ _ _) = stable
before (receives_renew _ _) = stable
before (finalizes_renew _ _) = is_renew_confirmed
before (revokes_renew _) = is_renew_finalized
before (offers_close _ _) = any_state
before (receives_close _ _) = any_state

abbrev pub after : Call → SignedChannelStateType → Bool
after (offers_settle _ _ _) = is_settled_offered
after (receives_settle _) = is_settled_received
after (accepts_settle _ _ _ _) = is_settled_accepted
after (confirms_settle _ _ _ _ _ _) = is_settled_confirmed
after (finalizes_settle _ _) = is_settled
after (ends_settle _) = is_settled
after rejects_settle = any_state
after rejects_renew = any_state
after receives_reject = any_state
after (offers_renew _ _ _ _ _ _ _) = is_renew_offered
after (receives_renew _ _) = is_renew_offered
after (finalizes_renew _ _) = is_established
after (revokes_renew _) = is_established
after (offers_close _ _) = is_collaborative_close_offered
after (receives_close _ _) = is_collaborative_close_offered

-- Nothing of a channel is written but the store of the counter party's secrets.
abbrev pub Untouched : Context → Context → Type 0
Untouched s t = t.channel ≡ record s.channel {
  counter_party_commitment_secrets = t.channel.counter_party_commitment_secrets;
}

abbrev pub Moves :
    (SignedChannelStateType → Bool) → (SignedChannelStateType → Bool) → Context → End → Type 0
Moves from to s (returned t) =
    (from (state_type s.channel.state) ≡ true) × (to (state_type t.channel.state) ≡ true)
Moves from to s (failed e t) = Untouched s t
Moves from to s (panicked t) = Untouched s t

-- Whether a step refuses a state, and writes nothing then.
abbrev pub Refuses : {A : Type 0} → (SignedChannelStateType → Bool) → Exec A → Type 0
Refuses from m =
    (s : Context)
    → from (state_type s.channel.state) ≡ false
    → end_of (m s) ≡ failed invalid_state s
