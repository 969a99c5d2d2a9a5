-- ===== src/Handler/Receive.antt =====
-- What the handler does with what a peer sends.
use rust_dlc.Base.{
  ℕ, true, false, ◌==◌, ==_iff, ok, panic, List, [], ◌∷◌, ◌++◌, none, some, ◌≡◌, refl, ap, ◌∙◌,
  Bool-cases, inl, inr,
}
use rust_dlc.Base.Map.{lookup, lookup-insert}
use rust_dlc.Segmentation.{
  SegmentChunk, SegmentReader, expecting_chunk, process_segment_chunk, reset,
}
use rust_dlc.Handler.Types.{
  Message, message, segment_chunk, read_kind, segment_start_type, segment_chunk_type,
}
use rust_dlc.Handler.{
  Codec, MessageHandler, or_default, set_reader, reconstruct, read, read_dlc_message,
  handle_expected_chunk, handle_unexpected, handle_expecting, handle_custom_message,
}

-- The reader that the handler has for a peer.
abbrev pub reader_of : ℕ → MessageHandler → SegmentReader
reader_of org h = or_default (lookup ◌==◌ org h.segment_readers)

reader_of-set_reader :
    (org : ℕ) (r : SegmentReader) (h : MessageHandler) → reader_of org (set_reader org r h) ≡ r
reader_of-set_reader org r h =
    ap or_default {y = some r}
      (lookup-insert ◌==◌ ==_iff org r org h.segment_readers ∙ rw ((==_iff org org).1 refl) refl)

reset_lem : (r : SegmentReader) → expecting_chunk (reset r) ≡ false
unfolding expecting_chunk reset
reset_lem r = refl

module _ (codec : Codec) where
  open codec use {read_u16, read_message}

  -- A whole message is received whatever the handler was doing: it is put behind those that wait, and
  -- a message that was being put together from the same peer is dropped.
  pub handle_custom_message-message :
      (m : Message) (org : ℕ) (h : MessageHandler)
      → ((handle_custom_message codec (message m) org h).0 ≡ ok tt)
        × ((handle_custom_message codec (message m) org h).1.msg_received
            ≡ h.msg_received ++ ((org, m) ∷ []))
        × (expecting_chunk (reader_of org (handle_custom_message codec (message m) org h).1)
            ≡ false)
  unfolding handle_custom_message handle_expecting handle_unexpected
  handle_custom_message-message m org h = elim (Bool-cases (expecting_chunk (reader_of org h))) [
    | inl e ↦ rw e (
      refl,
      refl,
      ap expecting_chunk (reader_of-set_reader org (reset (reader_of org h)) h)
          ∙ reset_lem (reader_of org h),
    )
    | inr e ↦
        rw e (refl, refl, ap expecting_chunk (reader_of-set_reader org (reader_of org h) h) ∙ e)
  ]

  unknown_type :
      (t : ℕ) (rest : List ℕ)
      → (t == segment_start_type) ≡ false
      → (t == segment_chunk_type) ≡ false
      → read_kind t ≡ none
      → read codec t rest ≡ ok none
  unfolding read read_dlc_message
  unknown_type t rest h k e = rw h (rw k (rw (e, read_dlc_message) refl))

  reconstruct_panics :
      (bytes : List ℕ) (t : ℕ) (rest : List ℕ)
      → read_u16 bytes ≡ some (t, rest)
      → (t == segment_start_type) ≡ false
      → (t == segment_chunk_type) ≡ false
      → read_kind t ≡ none
      → reconstruct codec bytes ≡ panic
  unfolding reconstruct
  reconstruct_panics bytes t rest e h k u =
      rw (e, reconstruct) (rw (unknown_type t rest h k u) refl)

  expected_chunk_panics :
      (reader s : SegmentReader) (chunk : SegmentChunk) (org : ℕ) (h : MessageHandler)
      (bytes : List ℕ)
      → process_segment_chunk reader chunk ≡ (ok (some bytes), s)
      → reconstruct codec bytes ≡ panic
      → (handle_expected_chunk codec reader chunk org h).0 ≡ panic
  unfolding handle_expected_chunk
  expected_chunk_panics reader s chunk org h bytes p q = rw (p, handle_expected_chunk) (rw q refl)

  -- A peer that sends in segments a message of a type that nobody knows makes the handler panic when
  -- the last chunk arrives.
  pub handle_custom_message_panics :
      (chunk : SegmentChunk) (org : ℕ) (h : MessageHandler) (bytes rest : List ℕ) (t : ℕ)
      (s : SegmentReader)
      → expecting_chunk (reader_of org h) ≡ true
      → process_segment_chunk (reader_of org h) chunk ≡ (ok (some bytes), s)
      → read_u16 bytes ≡ some (t, rest)
      → (t == segment_start_type) ≡ false
      → (t == segment_chunk_type) ≡ false
      → read_kind t ≡ none
      → (handle_custom_message codec (segment_chunk chunk) org h).0 ≡ panic
  unfolding handle_custom_message handle_expecting
  handle_custom_message_panics chunk org h bytes rest t s e p u n₁ n₂ k = rw e (
      expected_chunk_panics (reader_of org h) s chunk org h bytes p
        (reconstruct_panics bytes t rest u n₁ n₂ k))
