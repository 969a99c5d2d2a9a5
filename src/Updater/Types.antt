-- ===== src/Updater/Types.antt =====
-- The data of dlc-manager/src/channel: a signed channel, its states, its base points, and the
-- messages of dlc-messages/src/channel.rs that settle, reject and close it. Keys, secrets,
-- signatures and the store of the counter party's secrets are numbers, as the bytes they stand for.
use rust_dlc.Base.{ℕ, Bool, Option}
use rust_dlc.Dlc.Types.{Script, Transaction, PartyParams}
use rust_dlc.Dlc.Types as Dlc
use rust_dlc.Monitor.{ChainMonitor}

-- The errors that the functions of `channel_updater` raise, without their texts.
pub data Error : Type 0 where
  conversion invalid_parameters invalid_state wallet_error secp_error : Error
  dlc_error : Dlc.Error → Error

pub record PartyBasePoints : Type 0 where
  pub own_basepoint : ℕ
  pub revocation_basepoint : ℕ
  pub publish_basepoint : ℕ

pub data SignedChannelState : Type 0 where
  established :
      (signed_contract_id counter_buffer_adaptor_signature own_buffer_adaptor_signature : ℕ)
      → (buffer_transaction : Transaction) (is_offer : Bool) (total_collateral : ℕ)
      → SignedChannelState
  settled_offered : (counter_payout next_per_update_point timeout : ℕ) → SignedChannelState
  settled_received :
      (own_payout counter_payout counter_next_per_update_point : ℕ) → SignedChannelState
  settled_accepted :
      (counter_next_per_update_point own_next_per_update_point own_settle_adaptor_signature : ℕ)
      → (settle_tx : Transaction) (timeout own_payout counter_payout : ℕ) → SignedChannelState
  settled_confirmed :
      (settle_tx : Transaction)
      → (counter_settle_adaptor_signature counter_next_per_update_point : ℕ)
      → (own_next_per_update_point own_settle_adaptor_signature : ℕ)
      → (timeout own_payout counter_payout : ℕ) → SignedChannelState
  settled :
      (settle_tx : Transaction)
      → (counter_settle_adaptor_signature own_settle_adaptor_signature : ℕ)
      → (own_payout counter_payout : ℕ) → SignedChannelState
  renew_offered :
      (offered_contract_id counter_payout offer_next_per_update_point : ℕ)
      → (is_offer : Bool) (timeout : ℕ) → SignedChannelState
  renew_accepted :
      (contract_id offer_per_update_point accept_per_update_point : ℕ)
      → (buffer_transaction : Transaction) (buffer_script_pubkey : Script)
      → (timeout own_payout : ℕ) → SignedChannelState
  renew_confirmed :
      (contract_id offer_per_update_point accept_per_update_point : ℕ)
      → (buffer_transaction : Transaction) (buffer_script_pubkey : Script)
      → (offer_buffer_adaptor_signature timeout own_payout total_collateral : ℕ)
      → SignedChannelState
  renew_finalized :
      (contract_id prev_offer_per_update_point : ℕ)
      → (buffer_transaction : Transaction) (buffer_script_pubkey : Script)
      → (offer_buffer_adaptor_signature accept_buffer_adaptor_signature : ℕ)
      → (timeout own_payout total_collateral : ℕ) → SignedChannelState
  closing :
      (buffer_transaction : Transaction) (contract_id : ℕ) (is_initiator : Bool)
      → SignedChannelState
  settled_closing :
      (settle_transaction : Transaction) (is_offer is_initiator : Bool) → SignedChannelState
  collaborative_close_offered :
      (counter_payout offer_signature : ℕ) (close_tx : Transaction) (timeout : ℕ) (is_offer : Bool)
      → SignedChannelState

-- The enum that the macro `typed_enum` makes of the states.
pub data SignedChannelStateType : Type 0 where
  established_type settled_offered_type settled_received_type settled_accepted_type :
      SignedChannelStateType
  settled_confirmed_type settled_type renew_offered_type renew_accepted_type :
      SignedChannelStateType
  renew_confirmed_type renew_finalized_type closing_type settled_closing_type :
      SignedChannelStateType
  collaborative_close_offered_type : SignedChannelStateType

pub record SignedChannel : Type 0 where
  pub channel_id : ℕ
  pub counter_party : ℕ
  pub temporary_channel_id : ℕ
  pub own_params : PartyParams
  pub own_points : PartyBasePoints
  pub own_per_update_point : ℕ
  pub own_per_update_seed : ℕ
  pub counter_points : PartyBasePoints
  pub counter_per_update_point : ℕ
  pub counter_params : PartyParams
  pub state : SignedChannelState
  pub update_idx : ℕ
  pub fund_tx : Transaction
  pub fund_script_pubkey : Script
  pub fund_output_index : ℕ
  pub roll_back_state : Option SignedChannelState
  pub counter_party_commitment_secrets : ℕ
  pub fee_rate_per_vb : ℕ
  pub sub_channel_id : Option ℕ
  pub reference_id : Option ℕ

-- What a function of `channel_updater` may write to: the channel, and the shared chain monitor.
pub record Context : Type 0 where
  pub channel : SignedChannel
  pub monitor : ChainMonitor

pub record SettleOffer : Type 0 where
  pub channel_id : ℕ
  pub counter_payout : ℕ
  pub next_per_update_point : ℕ
  pub timestamp : ℕ
  pub reference_id : Option ℕ

pub record SettleAccept : Type 0 where
  pub channel_id : ℕ
  pub next_per_update_point : ℕ
  pub settle_adaptor_signature : ℕ
  pub reference_id : Option ℕ

pub record SettleConfirm : Type 0 where
  pub channel_id : ℕ
  pub prev_per_update_secret : ℕ
  pub settle_adaptor_signature : ℕ
  pub reference_id : Option ℕ

pub record SettleFinalize : Type 0 where
  pub channel_id : ℕ
  pub prev_per_update_secret : ℕ
  pub reference_id : Option ℕ

pub record Reject : Type 0 where
  pub channel_id : ℕ
  pub timestamp : ℕ
  pub reference_id : Option ℕ

pub record CollaborativeCloseOffer : Type 0 where
  pub channel_id : ℕ
  pub counter_payout : ℕ
  pub close_signature : ℕ
  pub reference_id : Option ℕ

pub record RenewFinalize : Type 0 where
  pub channel_id : ℕ
  pub per_update_secret : ℕ
  pub buffer_adaptor_signature : ℕ
  pub reference_id : Option ℕ

pub record RenewRevoke : Type 0 where
  pub channel_id : ℕ
  pub per_update_secret : ℕ
  pub reference_id : Option ℕ

pub record ClosedChannel : Type 0 where
  pub counter_party : ℕ
  pub temporary_channel_id : ℕ
  pub channel_id : ℕ
  pub reference_id : Option ℕ
  pub closing_txid : ℕ

abbrev pub state_type : SignedChannelState → SignedChannelStateType
state_type (established _ _ _ _ _ _) = established_type
state_type (settled_offered _ _ _) = settled_offered_type
state_type (settled_received _ _ _) = settled_received_type
state_type (settled_accepted _ _ _ _ _ _ _) = settled_accepted_type
state_type (settled_confirmed _ _ _ _ _ _ _ _) = settled_confirmed_type
state_type (settled _ _ _ _ _) = settled_type
state_type (renew_offered _ _ _ _ _) = renew_offered_type
state_type (renew_accepted _ _ _ _ _ _ _) = renew_accepted_type
state_type (renew_confirmed _ _ _ _ _ _ _ _ _) = renew_confirmed_type
state_type (renew_finalized _ _ _ _ _ _ _ _ _) = renew_finalized_type
state_type (closing _ _ _) = closing_type
state_type (settled_closing _ _ _) = settled_closing_type
state_type (collaborative_close_offered _ _ _ _ _) = collaborative_close_offered_type
