-- ===== src/Monitor/Tests.antt =====
-- The theorems on the monitor, at one that watches two channels.
use rust_dlc.Base.{List, ◌∷◌, none, ℕ, ◌≡◌, refl, []}
use rust_dlc.Dlc.Types.{Transaction}
use rust_dlc.Monitor.{
  ChannelInfo, ChainMonitor, registered, buffer_tx, settle_tx, monitor_new, add_tx, add_txo,
}
use rust_dlc.Monitor.Invariant.{WatchedOutput}
use rust_dlc.Monitor.Reachable.{adding, Reachable, fresh, step, buffer-WatchedOutput}
use rust_dlc.Monitor.Refinement.{
  Call, adds, confirms_tx, cleans, view, apply_all, expect_all, monitor_refines,
}

abbrev buffer_info : ChannelInfo
buffer_info = record { channel_id = 7; tx_type = buffer_tx }

abbrev settle_info : ChannelInfo
settle_info = record { channel_id = 8; tx_type = settle_tx }

abbrev spending : ℕ → Transaction
spending lock_time = record { version = 2; lock_time = lock_time; input = []; output = [] }

abbrev lock_time_id : Transaction → ℕ
lock_time_id tx = tx.version

two_watched : ChainMonitor
two_watched = add_tx 2 settle_info (add_tx 101 buffer_info (monitor_new 5))

two_watched-Reachable : Reachable lock_time_id two_watched
unfolding two_watched
two_watched-Reachable =
    step _ _ (step _ _ (fresh 5) (adding 101 buffer_info (monitor_new 5)))
      (adding 2 settle_info (add_tx 101 buffer_info (monitor_new 5)))

buffer-WatchedOutput_example : WatchedOutput two_watched 101 7
unfolding two_watched add_tx add_txo monitor_new
buffer-WatchedOutput_example =
    buffer-WatchedOutput lock_time_id two_watched 101 (registered buffer_info) two_watched-Reachable
      refl refl

-- Two transactions are watched, and one is confirmed.
abbrev some_calls : List Call
some_calls = adds 101 buffer_info ∷ adds 2 settle_info ∷ confirms_tx (spending 3) ∷ cleans 7 ∷ []

monitor_refines_example :
    view (apply_all lock_time_id some_calls (monitor_new 5))
    ≡ expect_all lock_time_id some_calls (record { tx = λ k. none; txo = λ k. none })
monitor_refines_example = monitor_refines lock_time_id 5 some_calls
