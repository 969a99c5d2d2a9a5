-- ===== src/Monitor/Reachable.antt =====
-- The monitors that the manager reaches, as a step relation, and what they have in common.
use rust_dlc.Base.{ℕ, true, ◌==◌, some, ◌≡◌}
use rust_dlc.Base.Map.{lookup}
use rust_dlc.Dlc.Types.{OutPoint, Transaction}
use rust_dlc.Monitor.{
  ChannelInfo, ChainMonitor, WatchState, is_buffer_tx, channel_info, state_channel_id, monitor_new,
  add_tx, cleanup_channel, remove_tx, confirm_tx, confirm_txo,
}
use rust_dlc.Monitor.Invariant.{
  IsValid, WatchedOutput, monitor_new-IsValid, add_tx-IsValid, cleanup_channel-IsValid,
  remove_tx-IsValid, confirm_tx-IsValid, confirm_txo-IsValid,
}

module _ (compute_txid : Transaction → ℕ) where
  -- One call of the manager on its monitor.
  pub data Step : ChainMonitor → ChainMonitor → Type 0 where
    adding : (txid : ℕ) (info : ChannelInfo) (m : ChainMonitor) → Step m (add_tx txid info m)
    cleaning : (channel_id : ℕ) (m : ChainMonitor) → Step m (cleanup_channel channel_id m)
    removing : (txid : ℕ) (m : ChainMonitor) → Step m (remove_tx txid m)
    confirming_tx : (tx : Transaction) (m : ChainMonitor) → Step m (confirm_tx compute_txid tx m)
    confirming_txo :
        (txo : OutPoint) (tx : Transaction) (m : ChainMonitor) → Step m (confirm_txo txo tx m)

  pub data Reachable : ChainMonitor → Type 0 where
    fresh : (height : ℕ) → Reachable (monitor_new height)
    step : (m n : ChainMonitor) → Reachable m → Step m n → Reachable n

  Step-IsValid : (m n : ChainMonitor) → Step m n → IsValid m → IsValid n
  Step-IsValid _ _ (adding txid info m) v = add_tx-IsValid txid info m v
  Step-IsValid _ _ (cleaning c m) v = cleanup_channel-IsValid c m v
  Step-IsValid _ _ (removing txid m) v = remove_tx-IsValid txid m v
  Step-IsValid _ _ (confirming_tx tx m) v = confirm_tx-IsValid compute_txid tx m v
  Step-IsValid _ _ (confirming_txo txo tx m) v = confirm_txo-IsValid txo tx m v

  pub Reachable-IsValid : (m : ChainMonitor) → Reachable m → IsValid m
  Reachable-IsValid _ (fresh height) = monitor_new-IsValid height
  Reachable-IsValid _ (step m n r s) = Step-IsValid m n s (Reachable-IsValid m r)

  -- Whatever the manager did before, a buffer transaction that is watched has its output 0 watched
  -- too, as one that a CET of the same channel spends.
  pub buffer-WatchedOutput :
      (m : ChainMonitor) (txid : ℕ) (s : WatchState)
      → Reachable m
      → lookup ◌==◌ txid m.watched_tx ≡ some s
      → is_buffer_tx (channel_info s).tx_type ≡ true
      → WatchedOutput m txid (state_channel_id s)
  buffer-WatchedOutput m txid s r h b = let v = Reachable-IsValid m r in v.buffers txid s h b
