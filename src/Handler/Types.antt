-- ===== src/Handler/Types.antt =====
-- dlc-messages/src/lib.rs: the messages, by their kind, and the numbers of their types.
use rust_dlc.Base.{ℕ, ◌==◌, List, [], ◌∷◌, Option, some, ◌≡◌, refl}
use rust_dlc.Base.Map.{lookup}
use rust_dlc.Segmentation.{SegmentStart, SegmentChunk}

-- The variants of `OnChainMessage`, `ChannelMessage` and `SubChannelMessage`.
pub data Kind : Type 0 where
  offer accept sign : Kind
  reject offer_channel accept_channel sign_channel : Kind
  settle_offer settle_accept settle_confirm settle_finalize : Kind
  renew_offer renew_accept renew_confirm renew_finalize renew_revoke : Kind
  collaborative_close_offer : Kind
  sub_channel_offer sub_channel_accept sub_channel_confirm sub_channel_finalize : Kind
  sub_channel_revoke sub_channel_close_offer sub_channel_close_accept : Kind
  sub_channel_close_confirm sub_channel_close_finalize sub_channel_reject : Kind

-- A message of a kind, with its contents as a number.
pub record Message : Type 0 where
  pub kind : Kind
  pub contents : ℕ

pub data WireMessage : Type 0 where
  message : Message → WireMessage
  segment_start : SegmentStart → WireMessage
  segment_chunk : SegmentChunk → WireMessage

abbrev pub segment_start_type : ℕ
segment_start_type = 42900

abbrev pub segment_chunk_type : ℕ
segment_chunk_type = 42902

unfoldable pub type_id : Kind → ℕ
type_id offer = 42778
type_id accept = 42780
type_id sign = 42782
type_id offer_channel = 43000
type_id accept_channel = 43002
type_id sign_channel = 43004
type_id settle_offer = 43006
type_id settle_accept = 43008
type_id settle_confirm = 43010
type_id settle_finalize = 43012
type_id renew_offer = 43014
type_id renew_accept = 43016
type_id renew_confirm = 43018
type_id renew_finalize = 43020
type_id renew_revoke = 43026
type_id collaborative_close_offer = 43022
type_id reject = 43024
type_id sub_channel_offer = 43034
type_id sub_channel_accept = 43036
type_id sub_channel_confirm = 43038
type_id sub_channel_finalize = 43040
type_id sub_channel_revoke = 43052
type_id sub_channel_close_offer = 43042
type_id sub_channel_close_accept = 43044
type_id sub_channel_close_confirm = 43046
type_id sub_channel_close_finalize = 43048
type_id sub_channel_reject = 43050

-- The arms of the match that `handle_read_dlc_messages!` writes, in their order.
abbrev pub read_arms : List (ℕ × Kind)
read_arms =
    (42778, offer)
    ∷ (42780, accept)
    ∷ (42782, sign)
    ∷ (43024, reject)
    ∷ (43000, offer_channel)
    ∷ (43002, accept_channel)
    ∷ (43004, sign_channel)
    ∷ (43006, settle_offer)
    ∷ (43008, settle_accept)
    ∷ (43010, settle_confirm)
    ∷ (43012, settle_finalize)
    ∷ (43014, renew_offer)
    ∷ (43016, renew_accept)
    ∷ (43018, renew_confirm)
    ∷ (43020, renew_finalize)
    ∷ (43026, renew_revoke)
    ∷ (43022, collaborative_close_offer)
    ∷ (43034, sub_channel_offer)
    ∷ (43036, sub_channel_accept)
    ∷ (43038, sub_channel_confirm)
    ∷ (43040, sub_channel_finalize)
    ∷ (43052, sub_channel_revoke)
    ∷ (43042, sub_channel_close_offer)
    ∷ (43044, sub_channel_close_accept)
    ∷ (43046, sub_channel_close_confirm)
    ∷ (43048, sub_channel_close_finalize)
    ∷ (43050, sub_channel_reject)
    ∷ []

unfoldable pub read_kind : ℕ → Option Kind
read_kind msg_type = lookup ◌==◌ msg_type read_arms

-- The reader knows the type of every message that is sent, and reads it as that message.
pub read_kind-type_id : (k : Kind) → read_kind (type_id k) ≡ some k
unfolding read_kind type_id
read_kind-type_id offer = refl
read_kind-type_id accept = refl
read_kind-type_id sign = refl
read_kind-type_id reject = refl
read_kind-type_id offer_channel = refl
read_kind-type_id accept_channel = refl
read_kind-type_id sign_channel = refl
read_kind-type_id settle_offer = refl
read_kind-type_id settle_accept = refl
read_kind-type_id settle_confirm = refl
read_kind-type_id settle_finalize = refl
read_kind-type_id renew_offer = refl
read_kind-type_id renew_accept = refl
read_kind-type_id renew_confirm = refl
read_kind-type_id renew_finalize = refl
read_kind-type_id renew_revoke = refl
read_kind-type_id collaborative_close_offer = refl
read_kind-type_id sub_channel_offer = refl
read_kind-type_id sub_channel_accept = refl
read_kind-type_id sub_channel_confirm = refl
read_kind-type_id sub_channel_finalize = refl
read_kind-type_id sub_channel_revoke = refl
read_kind-type_id sub_channel_close_offer = refl
read_kind-type_id sub_channel_close_accept = refl
read_kind-type_id sub_channel_close_confirm = refl
read_kind-type_id sub_channel_close_finalize = refl
read_kind-type_id sub_channel_reject = refl
