-- ===== src/Monitor/Invariant.antt =====
-- Every monitor that its operations reach watches the output of each buffer transaction.
use mathlib.Core.Path.{subst}
use mathlib.Core.Bool.{true≢false}
use rust_dlc.Base.{
  ℕ, Bool, true, false, not, ◌==◌, ==_iff, if◌then◌else◌, none, some, ◌≡◌, refl, sym, ap, ◌∙◌, ◌⊎◌,
  Bool-cases, inl, inr,
}
use rust_dlc.Base.Map.{
  lookup, insert, keep, change, Unique, lookup-insert, lookup-update, lookup-remove, lookup-retain,
  insert-Unique, update-Unique, remove-Unique, retain-Unique,
}
use rust_dlc.Dlc.Types.{OutPoint, Transaction}
use rust_dlc.Monitor.{
  ChannelInfo, ChainMonitor, WatchState, registered, cet, is_buffer_tx, outpoint_eq, confirm,
  channel_info, state_channel_id, monitor_new, add_txo, add_tx, cleanup_channel, remove_tx,
  confirm_tx, confirm_txo,
}
use rust_dlc.Monitor.Keys.{
  outpoint_eq_iff, some-inj, none-some, channel_info-confirm, keep-some, updated,
}

abbrev output_0 : ℕ → OutPoint
output_0 txid = record { txid = txid; vout = 0 }

-- The first output of a transaction is watched for a CET of a channel.
abbrev pub WatchedOutput : ChainMonitor → ℕ → ℕ → Type 0
WatchedOutput m txid channel_id =
    (t : WatchState) × (lookup outpoint_eq (output_0 txid) m.watched_txo ≡ some t)
    × (channel_info t ≡ record { channel_id = channel_id; tx_type = cet })

-- An entry at most for a key, and for each buffer transaction its output.
pub record IsValid (m : ChainMonitor) : Type 0 where
  pub txs : Unique ◌==◌ m.watched_tx
  pub txos : Unique outpoint_eq m.watched_txo
  pub buffers :
      (txid : ℕ) (s : WatchState)
      → lookup ◌==◌ txid m.watched_tx ≡ some s
      → is_buffer_tx (channel_info s).tx_type ≡ true
      → WatchedOutput m txid (state_channel_id s)

pub monitor_new-IsValid : (height : ℕ) → IsValid (monitor_new height)
unfolding monitor_new
monitor_new-IsValid height = record { txs = tt; txos = tt; buffers = λ txid s h b. absurd cc }

pub cleanup_channel-IsValid : (c : ℕ) (m : ChainMonitor) → IsValid m → IsValid (cleanup_channel c m)
unfolding cleanup_channel
cleanup_channel-IsValid c m v =
    let other : WatchState → Bool = λ state. not (state_channel_id state == c) in
    record {
      txs = retain-Unique ◌==◌ ==_iff other m.watched_tx v.txs;
      txos = retain-Unique outpoint_eq outpoint_eq_iff other m.watched_txo v.txos;
      buffers = λ txid s h b.
          let (old, p) =
            keep-some other (lookup ◌==◌ txid m.watched_tx)
              (sym (lookup-retain ◌==◌ ==_iff other txid m.watched_tx v.txs) ∙ h) in
          let (t, found, info) = v.buffers txid s old b in
          let stays : other t ≡ true =
            subst (λ (i : ChannelInfo). not (i.channel_id == c) ≡ true) (sym info) p in
          (
            t,
            lookup-retain outpoint_eq outpoint_eq_iff other (output_0 txid) m.watched_txo v.txos
                ∙ ap (keep other) found
                ∙ ap (λ (z : Bool). if z then some t else none) stays,
            info,
          );
    }

pub remove_tx-IsValid : (id : ℕ) (m : ChainMonitor) → IsValid m → IsValid (remove_tx id m)
unfolding remove_tx
remove_tx-IsValid id m v = record {
  txs = remove-Unique ◌==◌ ==_iff id m.watched_tx v.txs;
  txos = v.txos;
  buffers = λ txid s h b.
      let seen = sym (lookup-remove ◌==◌ ==_iff id txid m.watched_tx v.txs) ∙ h in
      elim (Bool-cases (id == txid)) [
        | inl e ↦ absurd (
            none-some
              (subst (λ z. (if z then none else lookup ◌==◌ txid m.watched_tx) ≡ some s) e seen))
        | inr e ↦
            v.buffers txid s
              (subst (λ z. (if z then none else lookup ◌==◌ txid m.watched_tx) ≡ some s) e seen) b
      ];
}

pub confirm_tx-IsValid :
    (compute_txid : Transaction → ℕ) (tx : Transaction) (m : ChainMonitor)
    → IsValid m
    → IsValid (confirm_tx compute_txid tx m)
unfolding confirm_tx
confirm_tx-IsValid compute_txid tx m v =
    let id = compute_txid tx in
    record {
      txs = update-Unique ◌==◌ ==_iff id (confirm tx) m.watched_tx v.txs;
      txos = v.txos;
      buffers = λ txid s h b.
          let seen = sym (lookup-update ◌==◌ ==_iff id (confirm tx) txid m.watched_tx) ∙ h in
          let (t, old, info) = updated (id == txid) tx (lookup ◌==◌ txid m.watched_tx) seen in
          subst (λ (i : ChannelInfo). WatchedOutput m txid i.channel_id) (sym info)
            (v.buffers txid t old
              (subst (λ (i : ChannelInfo). is_buffer_tx i.tx_type ≡ true) info b));
    }

pub confirm_txo-IsValid :
    (txo : OutPoint) (tx : Transaction) (m : ChainMonitor)
    → IsValid m
    → IsValid (confirm_txo txo tx m)
unfolding confirm_txo
confirm_txo-IsValid txo tx m v = record {
  txs = v.txs;
  txos = update-Unique outpoint_eq outpoint_eq_iff txo (confirm tx) m.watched_txo v.txos;
  buffers = λ txid s h b.
      let (t, found, info) = v.buffers txid s h b in
      let seen =
        lookup-update outpoint_eq outpoint_eq_iff txo (confirm tx) (output_0 txid) m.watched_txo in
      elim (Bool-cases (outpoint_eq txo (output_0 txid))) [
        | inl e ↦ (
          confirm tx t,
          seen
              ∙ ap
                  (λ z.
                    if z
                    then change (confirm tx) (lookup outpoint_eq (output_0 txid) m.watched_txo)
                    else lookup outpoint_eq (output_0 txid) m.watched_txo)
                  e
              ∙ ap (change (confirm tx)) found,
          channel_info-confirm tx t ∙ info,
        )
        | inr e ↦ (
          t,
          seen
              ∙ ap
                  (λ z.
                    if z
                    then change (confirm tx) (lookup outpoint_eq (output_0 txid) m.watched_txo)
                    else lookup outpoint_eq (output_0 txid) m.watched_txo)
                  e
              ∙ found,
          info,
        )
      ];
}

abbrev cet_info : ChannelInfo → ChannelInfo
cet_info info = record { channel_id = info.channel_id; tx_type = cet }

add_txo-found :
    (m : ChainMonitor) (outpoint : OutPoint) (info : ChannelInfo)
    → lookup outpoint_eq outpoint (add_txo outpoint info m).watched_txo ≡ some (registered info)
unfolding add_txo
add_txo-found m outpoint info =
    lookup-insert outpoint_eq outpoint_eq_iff outpoint (registered info) outpoint m.watched_txo
    ∙ rw ((outpoint_eq_iff outpoint outpoint).1 refl) refl

add_txo-others :
    (m : ChainMonitor) (txid t : ℕ) (info : ChannelInfo)
    → (txid == t) ≡ false
    → lookup outpoint_eq (output_0 t) (add_txo (output_0 txid) info m).watched_txo
      ≡ lookup outpoint_eq (output_0 t) m.watched_txo
unfolding add_txo
add_txo-others m txid t info e =
    lookup-insert outpoint_eq outpoint_eq_iff (output_0 txid) (registered info) (output_0 t)
      m.watched_txo
    ∙ rw e refl

-- What is watched at an id after `add_tx`.
added :
    (txid t : ℕ) (info : ChannelInfo) (m : ChainMonitor) {s : WatchState}
    → lookup ◌==◌ t (insert ◌==◌ txid (registered info) m.watched_tx) ≡ some s
    → (((txid == t) ≡ true) × (s ≡ registered info))
      ⊎ (((txid == t) ≡ false) × (lookup ◌==◌ t m.watched_tx ≡ some s))
added txid t info m {s} h =
    let seen = sym (lookup-insert ◌==◌ ==_iff txid (registered info) t m.watched_tx) ∙ h in
    elim (Bool-cases (txid == t)) [
      | inl e ↦ inl (
        e,
        sym (
            some-inj (
              subst
                (λ z. (if z then some (registered info) else lookup ◌==◌ t m.watched_tx) ≡ some s) e
                seen)),
      )
      | inr e ↦ inr (
        e,
        subst (λ z. (if z then some (registered info) else lookup ◌==◌ t m.watched_tx) ≡ some s) e
            seen,
      )
    ]

pub add_tx-IsValid :
    (txid : ℕ) (info : ChannelInfo) (m : ChainMonitor) → IsValid m → IsValid (add_tx txid info m)
unfolding add_tx add_txo
add_tx-IsValid txid info m v = elim (Bool-cases (is_buffer_tx info.tx_type)) [
  | inl e ↦ rw e (record {
    txs = insert-Unique ◌==◌ ==_iff txid (registered info) m.watched_tx v.txs;
    txos =
        insert-Unique outpoint_eq outpoint_eq_iff (output_0 txid) (registered (cet_info info))
          m.watched_txo v.txos;
    buffers = λ t s h b. elim (added txid t info m h) [
      | inl (same, is) ↦ (
        registered (cet_info info),
        subst
            (λ z.
              lookup outpoint_eq (output_0 z)
                (add_txo (output_0 txid) (cet_info info) m).watched_txo
              ≡ some (registered (cet_info info)))
            ((==_iff txid t).0 same) (add_txo-found m (output_0 txid) (cet_info info)),
        ap (λ z. record { channel_id = state_channel_id z; tx_type = cet }) (sym is),
      )
      | inr (other, old) ↦
          let (u, found, i) = v.buffers t s old b in
          (u, add_txo-others m txid t (cet_info info) other ∙ found, i)
    ];
  })
  | inr e ↦ rw e (record {
    txs = insert-Unique ◌==◌ ==_iff txid (registered info) m.watched_tx v.txs;
    txos = v.txos;
    buffers = λ t s h b. elim (added txid t info m h) [
      | inl (same, is) ↦
          absurd
            (true≢false (sym (subst (λ z. is_buffer_tx (channel_info z).tx_type ≡ true) is b) ∙ e))
      | inr (other, old) ↦ v.buffers t s old b
    ];
  })
]
