-- ===== src/Updater/Reject.antt =====
-- dlc-manager/src/channel_updater.rs: offers that are rejected, by the local or the counter party.
use rust_dlc.Base.{Bool, true, false, not, ok, err, require, if◌then◌else◌}
use rust_dlc.Updater.Types.{
  invalid_state, SignedChannelState, established, settled, settled_offered, renew_offered, Reject,
}
use rust_dlc.Updater.Exec.{Exec, ◌>>=◌, ◌>>◌, lift, get_channel}
use rust_dlc.Updater.Services.{Services}
use rust_dlc.Updater.States.{settled_received_fields, renew_offered_is_offer, roll_back}

-- A state in which a reject message changes nothing.
abbrev pub is_stable : SignedChannelState → Bool
is_stable (established _ _ _ _ _ _) = true
is_stable (settled _ _ _ _ _) = true
is_stable _ = false

-- A state of an offer that the local party has made, to which `rollback` is set.
abbrev pub is_own_offer : SignedChannelState → Bool
is_own_offer (renew_offered _ _ _ is_offer _) = is_offer
is_own_offer (settled_offered _ _ _) = true
is_own_offer _ = false

unfoldable pub on_reject : Exec (Unit {0})
on_reject = do
  channel ← get_channel
  let reject = if is_own_offer channel.state then roll_back else lift (err invalid_state)
  if is_stable channel.state then lift (ok tt) else reject

module _ (services : Services) where
  open services use {get_unix_time_now}

  unfoldable pub reject_settle_offer : Exec Reject
  reject_settle_offer = do
    channel ← get_channel
    lift (settled_received_fields channel.state) >> roll_back
    lift (
        ok (record {
          channel_id = channel.channel_id;
          timestamp = get_unix_time_now;
          reference_id = channel.reference_id;
        }))

  unfoldable pub reject_renew_offer : Exec Reject
  reject_renew_offer = do
    channel ← get_channel
    is_offer ← lift (renew_offered_is_offer channel.state)
    lift (require (not is_offer) invalid_state) >> roll_back
    lift (
        ok (record {
          channel_id = channel.channel_id;
          timestamp = get_unix_time_now;
          reference_id = channel.reference_id;
        }))
