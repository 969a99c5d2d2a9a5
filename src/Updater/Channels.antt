-- ===== src/Updater/Channels.antt =====
-- dlc-manager/src/channel/mod.rs: the stages of a channel, and its ids. The messages that a failed
-- setup keeps are numbers, as the bytes they stand for.
use rust_dlc.Base.{ℕ, Bool, Outcome, ok, panic, Option, none, some, List}
use rust_dlc.Dlc.Types.{Script, Transaction, FeeConfig}
use rust_dlc.Updater.Types.{
  Error, PartyBasePoints, SignedChannelState, established, renew_offered, renew_accepted,
  renew_confirmed, renew_finalized, closing, SignedChannel, ClosedChannel,
}

pub record OfferedChannel : Type 0 where
  pub offered_contract_id : ℕ
  pub temporary_channel_id : ℕ
  pub party_points : PartyBasePoints
  pub per_update_point : ℕ
  pub offer_per_update_seed : Option ℕ
  pub is_offer_party : Bool
  pub counter_party : ℕ
  pub cet_nsequence : ℕ
  pub reference_id : Option ℕ
  pub fee_config : Option FeeConfig

pub record AcceptedChannel : Type 0 where
  pub counter_party : ℕ
  pub accepted_contract_id : ℕ
  pub offer_base_points : PartyBasePoints
  pub accept_base_points : PartyBasePoints
  pub offer_per_update_point : ℕ
  pub accept_per_update_point : ℕ
  pub buffer_transaction : Transaction
  pub buffer_script_pubkey : Script
  pub temporary_channel_id : ℕ
  pub channel_id : ℕ
  pub accept_per_update_seed : ℕ
  pub accept_buffer_adaptor_signature : ℕ
  pub reference_id : Option ℕ

pub record FailedAccept : Type 0 where
  pub counter_party : ℕ
  pub temporary_channel_id : ℕ
  pub error_message : List ℕ
  pub accept_message : ℕ
  pub reference_id : Option ℕ

pub record FailedSign : Type 0 where
  pub counter_party : ℕ
  pub channel_id : ℕ
  pub error_message : List ℕ
  pub sign_message : ℕ
  pub reference_id : Option ℕ

pub record ClosingChannel : Type 0 where
  pub counter_party : ℕ
  pub temporary_channel_id : ℕ
  pub channel_id : ℕ
  pub rollback_state : Option SignedChannel
  pub buffer_transaction : Transaction
  pub contract_id : ℕ
  pub is_closer : Bool
  pub reference_id : Option ℕ

pub record SettledClosingChannel : Type 0 where
  pub counter_party : ℕ
  pub temporary_channel_id : ℕ
  pub channel_id : ℕ
  pub rollback_state : Option SignedChannel
  pub settle_transaction : Transaction
  pub claim_transaction : Transaction
  pub is_closer : Bool
  pub reference_id : Option ℕ

pub record ClosedPunishedChannel : Type 0 where
  pub counter_party : ℕ
  pub temporary_channel_id : ℕ
  pub channel_id : ℕ
  pub punish_txid : ℕ
  pub reference_id : Option ℕ

pub data Channel : Type 0 where
  offered_channel cancelled_channel : OfferedChannel → Channel
  accepted_channel : AcceptedChannel → Channel
  signed_channel : SignedChannel → Channel
  closing_channel : ClosingChannel → Channel
  settled_closing_channel : SettledClosingChannel → Channel
  closed counter_closed collaboratively_closed : ClosedChannel → Channel
  closed_punished : ClosedPunishedChannel → Channel
  failed_accept : FailedAccept → Channel
  failed_sign : FailedSign → Channel

unfoldable pub get_counter_party_id : Channel → ℕ
get_counter_party_id (offered_channel o) = o.counter_party
get_counter_party_id (accepted_channel a) = a.counter_party
get_counter_party_id (signed_channel s) = s.counter_party
get_counter_party_id (failed_accept f) = f.counter_party
get_counter_party_id (failed_sign f) = f.counter_party
get_counter_party_id (closing_channel c) = c.counter_party
get_counter_party_id (settled_closing_channel c) = c.counter_party
get_counter_party_id (closed c) = c.counter_party
get_counter_party_id (counter_closed c) = c.counter_party
get_counter_party_id (collaboratively_closed c) = c.counter_party
get_counter_party_id (closed_punished c) = c.counter_party
get_counter_party_id (cancelled_channel o) = o.counter_party

unfoldable pub get_reference_id : Channel → Option ℕ
get_reference_id (offered_channel o) = o.reference_id
get_reference_id (accepted_channel a) = a.reference_id
get_reference_id (signed_channel s) = s.reference_id
get_reference_id (failed_accept f) = f.reference_id
get_reference_id (failed_sign f) = f.reference_id
get_reference_id (closing_channel c) = c.reference_id
get_reference_id (settled_closing_channel c) = c.reference_id
get_reference_id (closed c) = c.reference_id
get_reference_id (counter_closed c) = c.reference_id
get_reference_id (collaboratively_closed c) = c.reference_id
get_reference_id (closed_punished c) = c.reference_id
get_reference_id (cancelled_channel o) = o.reference_id

-- The other stages are `unimplemented!`, which panics.
unfoldable pub get_temporary_id : Channel → Outcome Error ℕ
get_temporary_id (offered_channel o) = ok o.temporary_channel_id
get_temporary_id (accepted_channel a) = ok a.temporary_channel_id
get_temporary_id (signed_channel s) = ok s.temporary_channel_id
get_temporary_id (failed_accept f) = ok f.temporary_channel_id
get_temporary_id (closed c) = ok c.temporary_channel_id
get_temporary_id (counter_closed c) = ok c.temporary_channel_id
get_temporary_id (collaboratively_closed c) = ok c.temporary_channel_id
get_temporary_id (closed_punished c) = ok c.temporary_channel_id
get_temporary_id _ = panic

unfoldable pub get_id : Channel → ℕ
get_id (offered_channel o) = o.temporary_channel_id
get_id (accepted_channel a) = a.channel_id
get_id (signed_channel s) = s.channel_id
get_id (failed_accept f) = f.temporary_channel_id
get_id (failed_sign f) = f.channel_id
get_id (closing_channel c) = c.channel_id
get_id (settled_closing_channel c) = c.channel_id
get_id (closed c) = c.channel_id
get_id (counter_closed c) = c.channel_id
get_id (collaboratively_closed c) = c.channel_id
get_id (closed_punished c) = c.channel_id
get_id (cancelled_channel o) = o.temporary_channel_id

-- `SignedChannelState::get_contract_id`
abbrev pub state_contract_id : SignedChannelState → Option ℕ
state_contract_id (established id _ _ _ _ _) = some id
state_contract_id (renew_offered id _ _ _ _) = some id
state_contract_id (renew_accepted id _ _ _ _ _ _) = some id
state_contract_id (renew_confirmed id _ _ _ _ _ _ _ _) = some id
state_contract_id (renew_finalized id _ _ _ _ _ _ _ _) = some id
state_contract_id (closing _ id _) = some id
state_contract_id _ = none

unfoldable pub get_contract_id : Channel → Option ℕ
get_contract_id (offered_channel o) = some o.offered_contract_id
get_contract_id (accepted_channel a) = some a.accepted_contract_id
get_contract_id (signed_channel s) = state_contract_id s.state
get_contract_id _ = none
