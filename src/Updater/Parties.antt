-- ===== src/Updater/Parties.antt =====
-- Two parties that keep one channel, and the messages of a settlement between them.
use rust_dlc.Base.{ℕ, ◌≡◌, ◌⊎◌, inr, Outcome, ok, err, panic, ◌>>=◌, Option, none, some}
use rust_dlc.Dlc.Types.{Transaction, sub64}
use rust_dlc.Updater.Types.{Error, settled, SignedChannel, Context}
use rust_dlc.Updater.Services.{Services}
use rust_dlc.Updater.States.{commitment_secret}
use rust_dlc.Updater.Settle.{
  settle_channel_offer, on_settle_offer, settle_channel_accept, settle_channel_confirm,
}
use rust_dlc.Updater.Finalize.{settle_channel_finalize, settle_channel_on_finalize}

-- What a party has of its own: its signer and its clocks.
pub record Party : Type 0 where
  pub signer : ℕ → Error ⊎ ℕ
  pub time : ℕ
  pub clock : ℕ

abbrev pub services_of : Services → Party → Services
services_of crypto p = record crypto {
  get_secret_key_for_pubkey = p.signer;
  unix_time_now = p.time;
  get_unix_time_now = p.clock;
}

-- The channel of one party as the other keeps it: what is the one's own is the counter party's.
abbrev pub mirror : SignedChannel → SignedChannel → SignedChannel
mirror a b = record b {
  channel_id = a.channel_id;
  own_params = a.counter_params;
  counter_params = a.own_params;
  own_points = a.counter_points;
  counter_points = a.own_points;
  own_per_update_point = a.counter_per_update_point;
  counter_per_update_point = a.own_per_update_point;
  update_idx = a.update_idx;
  fund_tx = a.fund_tx;
  fund_script_pubkey = a.fund_script_pubkey;
  fund_output_index = a.fund_output_index;
  fee_rate_per_vb = a.fee_rate_per_vb;
}

-- Two parties keep one channel.
abbrev pub Paired : SignedChannel → SignedChannel → Type 0
Paired a b = b ≡ mirror a b

-- A party's signer knows its keys, and its seed gives the secret of the current update point and
-- the next.
pub record Keys : Type 0 where
  pub seed : ℕ
  pub fund_sk : ℕ
  pub secret : ℕ
  pub next_secret : ℕ

pub record Ready (services : Services) (keys : Keys) (c : SignedChannel) : Type 0 where
  pub signer_seed : services.get_secret_key_for_pubkey c.own_per_update_seed ≡ inr keys.seed
  pub signer_fund : services.get_secret_key_for_pubkey c.own_params.fund_pubkey ≡ inr keys.fund_sk
  pub fund_key : services.public_key keys.fund_sk ≡ c.own_params.fund_pubkey
  pub current : commitment_secret services keys.seed c.update_idx ≡ some keys.secret
  pub point : services.public_key keys.secret ≡ c.own_per_update_point
  pub following :
      commitment_secret services keys.seed (sub64 c.update_idx 1) ≡ some keys.next_secret

abbrev pub returned : {A : Type 0} → Outcome Error A × Context → Outcome Error (A × Context)
returned (panic, s) = panic
returned (err e, s) = err e
returned (ok a, s) = ok (a, s)

module _ (crypto : Services) (pa pb : Party) where
  -- The messages of a settlement, each received by the other party.
  unfoldable pub settle_round :
      ℕ → ℕ → ℕ → ℕ → Option ℕ → Context → Context → Outcome Error (Context × Context)
  settle_round payout csv lock timeout reference_id a b = do
    (offer, a) ←
        returned (settle_channel_offer (services_of crypto pa) payout timeout reference_id a)
    (_, b) ← returned (on_settle_offer offer b)
    (accept, b) ← returned (settle_channel_accept (services_of crypto pb) csv lock timeout b)
    (confirm, a) ←
        returned (settle_channel_confirm (services_of crypto pa) accept csv lock timeout a)
    (finalize, b) ← returned (settle_channel_finalize (services_of crypto pb) confirm b)
    (_, a) ← returned (settle_channel_on_finalize (services_of crypto pa) finalize a)
    ok (a, b)

-- Both have settled, on the same transaction, with payouts and signatures crossed, and they keep
-- one channel again, one update further, with nothing to roll back to.
abbrev pub Settled : Transaction → ℕ → ℕ → SignedChannel → SignedChannel → ℕ → Type 0
Settled tx offer_payout accept_payout a b idx =
    (sa : ℕ) × (sb : ℕ) × (a.state ≡ settled tx sb sa offer_payout accept_payout)
    × (b.state ≡ settled tx sa sb accept_payout offer_payout)
    × Paired a b
    × (a.update_idx ≡ sub64 idx 1)
    × (a.roll_back_state ≡ none)
    × (b.roll_back_state ≡ none)
