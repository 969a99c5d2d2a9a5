-- ===== src/Monitor/Confirm.antt =====
-- What the monitor reports as confirmed.
use mathlib.Core.Path.{subst}
use rust_dlc.Base.{
  ℕ, not, ◌==◌, ◌≡◌, refl, sym, ap, ◌∙◌, if◌then◌else◌, List, [], ◌∷◌, ◌++◌, Bool-cases, inl, inr,
}
use rust_dlc.Base.Map.{update, retain}
use rust_dlc.Dlc.Types.{Transaction}
use rust_dlc.Monitor.{
  ChannelInfo, ChainMonitor, WatchState, registered, confirmed, confirm, state_channel_id,
  cleanup_channel, confirm_tx, confirmed_of, confirmed_txs,
}

-- The confirmations of the other channels.
abbrev pub others : ℕ → List (Transaction × ChannelInfo) → List (Transaction × ChannelInfo)
others channel_id [] = []
others channel_id ((tx, info) ∷ es) =
    let rest = others channel_id es in
    if not (info.channel_id == channel_id) then (tx, info) ∷ rest else rest

others-append :
    (c : ℕ) (xs ys : List (Transaction × ChannelInfo))
    → others c (xs ++ ys) ≡ others c xs ++ others c ys
others-append c [] ys = refl
others-append c ((tx, info) ∷ xs) ys = elim (Bool-cases (not (info.channel_id == c))) [
  | inl e ↦ rw e (ap (λ z. (tx, info) ∷ z) (others-append c xs ys))
  | inr e ↦ rw e (others-append c xs ys)
]

confirmed_of-retain :
    {K : Type 0} (c : ℕ) (m : List (K × WatchState))
    → confirmed_of (retain (λ s. not (state_channel_id s == c)) m) ≡ others c (confirmed_of m)
confirmed_of-retain c [] = refl
confirmed_of-retain c ((k, registered info) ∷ m) = elim (Bool-cases (not (info.channel_id == c))) [
  | inl e ↦ rw e (confirmed_of-retain c m)
  | inr e ↦ rw e (confirmed_of-retain c m)
]
confirmed_of-retain c ((k, confirmed info tx) ∷ m) =
    elim (Bool-cases (not (info.channel_id == c))) [
      | inl e ↦ rw e (ap (λ z. (tx, info) ∷ z) (confirmed_of-retain c m))
      | inr e ↦ rw e (confirmed_of-retain c m)
    ]

-- After a channel is cleaned up, the confirmed transactions are those of the other channels, in the
-- order that they had.
pub confirmed_txs-cleanup_channel :
    (c : ℕ) (m : ChainMonitor) → confirmed_txs (cleanup_channel c m) ≡ others c (confirmed_txs m)
unfolding confirmed_txs cleanup_channel
confirmed_txs-cleanup_channel c m =
    ap (λ z. z ++ confirmed_of (retain (λ s. not (state_channel_id s == c)) m.watched_txo))
      (confirmed_of-retain c m.watched_tx)
    ∙ ap (λ z. others c (confirmed_of m.watched_tx) ++ z) (confirmed_of-retain c m.watched_txo)
    ∙ sym (others-append c (confirmed_of m.watched_tx) (confirmed_of m.watched_txo))

confirm-confirm : (t u : Transaction) (s : WatchState) → confirm u (confirm t s) ≡ confirm t s
confirm-confirm t u (registered info) = refl
confirm-confirm t u (confirmed info earlier) = refl

update-confirm :
    (k : ℕ) (t u : Transaction) (m : List (ℕ × WatchState))
    → update ◌==◌ k (confirm u) (update ◌==◌ k (confirm t) m) ≡ update ◌==◌ k (confirm t) m
update-confirm k t u [] = refl
update-confirm k t u ((j, s) ∷ m) = elim (Bool-cases (j == k)) [
  | inl e ↦ rw e (rw e (ap (λ z. (j, z) ∷ m) (confirm-confirm t u s)))
  | inr e ↦ rw e (rw e (ap (λ z. (j, s) ∷ z) (update-confirm k t u m)))
]

module _ (compute_txid : Transaction → ℕ) where
  -- Confirming a transaction again changes nothing: the monitor keeps the one that it saw first.
  pub confirm_tx-confirm_tx :
      (t u : Transaction) (m : ChainMonitor)
      → compute_txid t ≡ compute_txid u
      → confirm_tx compute_txid u (confirm_tx compute_txid t m) ≡ confirm_tx compute_txid t m
  unfolding confirm_tx
  confirm_tx-confirm_tx t u m h =
      ap (λ z. record { watched_tx = z; watched_txo = m.watched_txo; last_height = m.last_height })
        (subst
          (λ i.
            update ◌==◌ i (confirm u) (update ◌==◌ (compute_txid t) (confirm t) m.watched_tx)
            ≡ update ◌==◌ (compute_txid t) (confirm t) m.watched_tx)
          h (update-confirm (compute_txid t) t u m.watched_tx))
