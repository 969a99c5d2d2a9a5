-- ===== src/Monitor.antt =====
-- dlc-manager/src/chain_monitor.rs: the transactions and outputs that are watched for in the chain.
mod Tests
pub mod Keys
pub mod Invariant
pub mod Reachable
pub mod Confirm
pub mod Refinement
use rust_dlc.Base.{
  ℕ, Bool, true, false, ◌&&◌, ◌||◌, not, ◌==◌, if◌then◌else◌, List, [], ◌∷◌, ◌++◌, map, Option,
  none, some,
}
use rust_dlc.Base.Map.{lookup, insert, update, remove, retain}
use rust_dlc.Dlc.Types.{OutPoint, Transaction}

pub data RevokedTxType : Type 0 where
  buffer settle split : RevokedTxType

-- `Revoked` with its update index, adaptor signature, `is_offer` and the type of what is revoked.
pub data TxType : Type 0 where
  revoked : (update_idx own_adaptor_signature : ℕ) → Bool → RevokedTxType → TxType
  buffer_tx collaborative_close split_tx settle_tx cet : TxType
  settle_tx2 : Bool → TxType

pub record ChannelInfo : Type 0 where
  pub channel_id : ℕ
  pub tx_type : TxType

pub data WatchState : Type 0 where
  registered : ChannelInfo → WatchState
  confirmed : ChannelInfo → Transaction → WatchState

pub record ChainMonitor : Type 0 where
  pub watched_tx : List (ℕ × WatchState)
  pub watched_txo : List (OutPoint × WatchState)
  pub last_height : ℕ

abbrev pub outpoint_eq : OutPoint → OutPoint → Bool
outpoint_eq a b = a.txid == b.txid && a.vout == b.vout

-- `impl WatchState`
abbrev pub watch_new : ChannelInfo → WatchState
watch_new info = registered info

abbrev pub confirm : Transaction → WatchState → WatchState
confirm transaction (registered info) = confirmed info transaction
confirm transaction (confirmed info earlier) = confirmed info earlier

abbrev pub channel_info : WatchState → ChannelInfo
channel_info (registered info) = info
channel_info (confirmed info transaction) = info

abbrev pub state_channel_id : WatchState → ℕ
state_channel_id state = (channel_info state).channel_id

-- `tx_type == TxType::BufferTx`
abbrev pub is_buffer_tx : TxType → Bool
is_buffer_tx buffer_tx = true
is_buffer_tx _ = false

unfoldable pub monitor_new : ℕ → ChainMonitor
monitor_new init_height = record { watched_tx = []; watched_txo = []; last_height = init_height }

unfoldable pub is_empty : ChainMonitor → Bool
is_empty m = elim m.watched_tx [ [] ↦ true | _ ∷ _ ↦ false ]

unfoldable pub add_txo : OutPoint → ChannelInfo → ChainMonitor → ChainMonitor
add_txo outpoint info m = record {
  watched_tx = m.watched_tx;
  watched_txo = insert outpoint_eq outpoint (watch_new info) m.watched_txo;
  last_height = m.last_height;
}

unfoldable pub add_tx : ℕ → ChannelInfo → ChainMonitor → ChainMonitor
unfolding add_txo
add_tx txid info m =
    let watching : ChainMonitor = record {
      watched_tx = insert ◌==◌ txid (watch_new info) m.watched_tx;
      watched_txo = m.watched_txo;
      last_height = m.last_height;
    } in
    if is_buffer_tx info.tx_type
    then add_txo (record { txid = txid; vout = 0 })
        (record { channel_id = info.channel_id; tx_type = cet }) watching
    else watching

unfoldable pub cleanup_channel : ℕ → ChainMonitor → ChainMonitor
cleanup_channel channel_id m =
    let other : WatchState → Bool = λ state. not (state_channel_id state == channel_id) in
    record {
      watched_tx = retain other m.watched_tx;
      watched_txo = retain other m.watched_txo;
      last_height = m.last_height;
    }

unfoldable pub remove_tx : ℕ → ChainMonitor → ChainMonitor
remove_tx txid m = record {
  watched_tx = remove ◌==◌ txid m.watched_tx;
  watched_txo = m.watched_txo;
  last_height = m.last_height;
}

unfoldable pub get_watched_txs : ChainMonitor → List ℕ
get_watched_txs m = map (λ e. e.0) m.watched_tx

unfoldable pub get_watched_txos : ChainMonitor → List OutPoint
get_watched_txos m = map (λ e. e.0) m.watched_txo

-- `compute_txid` is the id of a transaction, of the bitcoin crate.
unfoldable pub confirm_tx : (Transaction → ℕ) → Transaction → ChainMonitor → ChainMonitor
confirm_tx compute_txid tx m = record {
  watched_tx = update ◌==◌ (compute_txid tx) (confirm tx) m.watched_tx;
  watched_txo = m.watched_txo;
  last_height = m.last_height;
}

unfoldable pub confirm_txo : OutPoint → Transaction → ChainMonitor → ChainMonitor
confirm_txo txo tx m = record {
  watched_tx = m.watched_tx;
  watched_txo = update outpoint_eq txo (confirm tx) m.watched_txo;
  last_height = m.last_height;
}

-- The arm of the match that gives a result: a revoked buffer transaction of the channel.
abbrev pub revoked_buffer_offer : ℕ → ℕ → TxType → Option Bool
revoked_buffer_offer channel_id cid (revoked _ _ is_offer buffer) =
    if channel_id == cid then some is_offer else none
revoked_buffer_offer channel_id cid _ = none

-- The iteration of a hash map is in the order of its entries here.
abbrev pub find_offer : ℕ → List (ℕ × WatchState) → Option Bool
find_offer channel_id [] = none
find_offer channel_id ((txid, state) ∷ m) =
    let rest = find_offer channel_id m in
    elim (revoked_buffer_offer channel_id (state_channel_id state) (channel_info state).tx_type) [
      | some is_offer ↦ some is_offer
      | none ↦ rest
    ]

unfoldable pub did_we_offer_last_channel_settlement : ℕ → ChainMonitor → Option Bool
did_we_offer_last_channel_settlement channel_id m = find_offer channel_id m.watched_tx

abbrev pub confirmed_of : {K : Type 0} → List (K × WatchState) → List (Transaction × ChannelInfo)
confirmed_of [] = []
confirmed_of ((k, registered info) ∷ m) = confirmed_of m
confirmed_of ((k, confirmed info transaction) ∷ m) = (transaction, info) ∷ confirmed_of m

unfoldable pub confirmed_txs : ChainMonitor → List (Transaction × ChannelInfo)
confirmed_txs m = confirmed_of m.watched_tx ++ confirmed_of m.watched_txo
