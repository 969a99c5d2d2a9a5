-- ===== src/Monitor/Refinement.antt =====
-- The monitor against what it stands for: a transaction id, and an outpoint, is watched or not.
use mathlib.Core.Path.{fun_ext, ap₂}
use rust_dlc.Base.{
  ℕ, not, ◌==◌, ==_iff, if◌then◌else◌, Option, none, some, List, [], ◌∷◌, ◌≡◌, refl, ap, ◌∙◌,
  Bool-cases, inl, inr,
}
use rust_dlc.Base.Map.{
  lookup, keep, change, lookup-insert, lookup-update, lookup-remove, lookup-retain,
}
use rust_dlc.Dlc.Types.{OutPoint, Transaction}
use rust_dlc.Monitor.{
  ChannelInfo, ChainMonitor, WatchState, registered, cet, is_buffer_tx, outpoint_eq, confirm,
  state_channel_id, monitor_new, add_txo, add_tx, cleanup_channel, remove_tx, confirm_tx,
  confirm_txo,
}
use rust_dlc.Monitor.Keys.{outpoint_eq_iff}
use rust_dlc.Monitor.Invariant.{
  IsValid, monitor_new-IsValid, add_tx-IsValid, cleanup_channel-IsValid, remove_tx-IsValid,
  confirm_tx-IsValid, confirm_txo-IsValid,
}

-- What is watched, with no order and no list.
pub record Watched : Type 0 where
  pub tx : ℕ → Option WatchState
  pub txo : OutPoint → Option WatchState

abbrev pub view : ChainMonitor → Watched
view m = record {
  tx = λ k. lookup ◌==◌ k m.watched_tx;
  txo = λ k. lookup outpoint_eq k m.watched_txo;
}

-- A call that writes to the monitor.
pub data Call : Type 0 where
  adds : ℕ → ChannelInfo → Call
  cleans removes : ℕ → Call
  confirms_tx : Transaction → Call
  confirms_txo : OutPoint → Transaction → Call

module _ (compute_txid : Transaction → ℕ) where
  abbrev pub apply : Call → ChainMonitor → ChainMonitor
  apply (adds txid info) m = add_tx txid info m
  apply (cleans channel_id) m = cleanup_channel channel_id m
  apply (removes txid) m = remove_tx txid m
  apply (confirms_tx tx) m = confirm_tx compute_txid tx m
  apply (confirms_txo txo tx) m = confirm_txo txo tx m

  -- What a call does to what is watched. A buffer transaction has its output 0 watched for a CET.
  abbrev pub expect : Call → Watched → Watched
  expect (adds txid info) w = record {
    tx = λ k. if txid == k then some (registered info) else w.tx k;
    txo = λ k.
        if is_buffer_tx info.tx_type
        then (if outpoint_eq (record { txid = txid; vout = 0 }) k
            then some (registered (record { channel_id = info.channel_id; tx_type = cet }))
            else w.txo k)
        else w.txo k;
  }
  expect (cleans channel_id) w = record {
    tx = λ k. keep (λ s. not (state_channel_id s == channel_id)) (w.tx k);
    txo = λ k. keep (λ s. not (state_channel_id s == channel_id)) (w.txo k);
  }
  expect (removes txid) w = record { tx = λ k. if txid == k then none else w.tx k; txo = w.txo }
  expect (confirms_tx tx) w = record {
    tx = λ k. if compute_txid tx == k then change (confirm tx) (w.tx k) else w.tx k;
    txo = w.txo;
  }
  expect (confirms_txo txo tx) w = record {
    tx = w.tx;
    txo = λ k. if outpoint_eq txo k then change (confirm tx) (w.txo k) else w.txo k;
  }

  apply-IsValid : (c : Call) (m : ChainMonitor) → IsValid m → IsValid (apply c m)
  apply-IsValid (adds txid info) m v = add_tx-IsValid txid info m v
  apply-IsValid (cleans channel_id) m v = cleanup_channel-IsValid channel_id m v
  apply-IsValid (removes txid) m v = remove_tx-IsValid txid m v
  apply-IsValid (confirms_tx tx) m v = confirm_tx-IsValid compute_txid tx m v
  apply-IsValid (confirms_txo txo tx) m v = confirm_txo-IsValid txo tx m v

  watched :
      {f g : ℕ → Option WatchState} {h k : OutPoint → Option WatchState}
      → ((n : ℕ) → f n ≡ g n)
      → ((o : OutPoint) → h o ≡ k o)
      → ◌≡◌ {A = Watched} (record { tx = f; txo = h }) (record { tx = g; txo = k })
  watched p q =
      ap₂
        (λ (f : ℕ → Option WatchState) (h : OutPoint → Option WatchState). record {
          tx = f;
          txo = h;
        })
        (fun_ext p) (fun_ext q)

  apply-view : (c : Call) (m : ChainMonitor) → IsValid m → view (apply c m) ≡ expect c (view m)
  unfolding add_tx add_txo cleanup_channel remove_tx confirm_tx confirm_txo
  apply-view (adds txid info) m v = elim (Bool-cases (is_buffer_tx info.tx_type)) [
    | inl e ↦ rw e (
        watched (λ k. lookup-insert ◌==◌ ==_iff txid _ k m.watched_tx)
          λ k.
            lookup-insert outpoint_eq outpoint_eq_iff (record { txid = txid; vout = 0 }) _ k
              m.watched_txo)
    | inr e ↦ rw e (watched (λ k. lookup-insert ◌==◌ ==_iff txid _ k m.watched_tx) (λ k. refl))
  ]
  apply-view (cleans channel_id) m v =
      watched (λ k. lookup-retain ◌==◌ ==_iff _ k m.watched_tx v.txs)
        λ k. lookup-retain outpoint_eq outpoint_eq_iff _ k m.watched_txo v.txos
  apply-view (removes txid) m v =
      watched (λ k. lookup-remove ◌==◌ ==_iff txid k m.watched_tx v.txs) (λ k. refl)
  apply-view (confirms_tx tx) m v =
      watched (λ k. lookup-update ◌==◌ ==_iff (compute_txid tx) (confirm tx) k m.watched_tx)
        (λ k. refl)
  apply-view (confirms_txo txo tx) m v =
      watched (λ k. refl)
        λ k. lookup-update outpoint_eq outpoint_eq_iff txo (confirm tx) k m.watched_txo

  abbrev pub apply_all : List Call → ChainMonitor → ChainMonitor
  apply_all [] m = m
  apply_all (c ∷ calls) m = apply_all calls (apply c m)

  abbrev pub expect_all : List Call → Watched → Watched
  expect_all [] w = w
  expect_all (c ∷ calls) w = expect_all calls (expect c w)

  apply_all-view :
      (calls : List Call) (m : ChainMonitor)
      → IsValid m
      → view (apply_all calls m) ≡ expect_all calls (view m)
  apply_all-view [] m v = refl
  apply_all-view (c ∷ calls) m v =
      apply_all-view calls (apply c m) (apply-IsValid c m v)
      ∙ ap (expect_all calls) (apply-view c m v)

  -- A new monitor watches nothing, and after any calls what is looked up in its maps is what the
  -- calls say, one after the other: the lists that hold the maps, and the order of their entries,
  -- are never seen.
  pub monitor_refines :
      (height : ℕ) (calls : List Call)
      → view (apply_all calls (monitor_new height))
        ≡ expect_all calls (record { tx = λ k. none; txo = λ k. none })
  unfolding monitor_new
  monitor_refines height calls =
      apply_all-view calls (monitor_new height) (monitor_new-IsValid height)
