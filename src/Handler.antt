-- ===== src/Handler.antt =====
-- dlc-messages/src/message_handler.rs, and the message types of dlc-messages/src/lib.rs.
mod Tests
pub mod Types
pub mod Receive
use rust_dlc.Base.{
  ℕ, Bool, true, false, ◌==◌, ltb, if◌then◌else◌, Outcome, ok, err, panic, List, [], ◌∷◌, ◌++◌, map,
  Option, none, some,
}
use rust_dlc.Base.Map.{lookup, insert}
use rust_dlc.Segmentation.{
  SegmentStart, SegmentChunk, SegmentReader, ReaderError, get_segments, new, reset, expecting_chunk,
  process_segment_start, process_segment_chunk,
}
use rust_dlc.Handler.Types.{
  Kind, Message, WireMessage, message, segment_start, segment_chunk, type_id, read_kind,
  segment_start_type, segment_chunk_type,
}

-- What the lightning crate and the messages' own serialisation give: the bytes of a `u16` and of a
-- message, and what is read from bytes; `none` is a decoding error.
pub record Codec : Type 0 where
  pub write_u16 : ℕ → List ℕ
  pub read_u16 : List ℕ → Option (ℕ × List ℕ)
  pub encode : Message → List ℕ
  pub serialized_length : Message → ℕ
  pub read_message : Kind → List ℕ → Option Message
  pub read_segment_start : List ℕ → Option SegmentStart
  pub read_segment_chunk : List ℕ → Option SegmentChunk
  pub max_buf_size : ℕ

pub record MessageHandler : Type 0 where
  pub msg_events : List (ℕ × WireMessage)
  pub msg_received : List (ℕ × Message)
  pub segment_readers : List (ℕ × SegmentReader)

-- The errors of `handle_custom_message`, all of them a `LightningError` that disconnects the peer.
pub data LightningError : Type 0 where
  segment_failed : ReaderError → LightningError
  not_reconstructed unexpected_message_type unexpected_chunk : LightningError

unfoldable pub handler_new : MessageHandler
handler_new = record { msg_events = []; msg_received = []; segment_readers = [] }

unfoldable pub has_pending_messages_to_process : MessageHandler → Bool
has_pending_messages_to_process h = elim h.msg_received [ [] ↦ false | _ ∷ _ ↦ true ]

unfoldable pub get_and_clear_received_messages :
    MessageHandler → List (ℕ × Message) × MessageHandler
get_and_clear_received_messages h = (
  h.msg_received,
  record { msg_events = h.msg_events; msg_received = []; segment_readers = h.segment_readers },
)

unfoldable pub has_pending_messages : MessageHandler → Bool
has_pending_messages h = elim h.msg_events [ [] ↦ false | _ ∷ _ ↦ true ]

unfoldable pub get_and_clear_pending_msg : MessageHandler → List (ℕ × WireMessage) × MessageHandler
get_and_clear_pending_msg h = (
  h.msg_events,
  record { msg_events = []; msg_received = h.msg_received; segment_readers = h.segment_readers },
)

abbrev pub push_events : List (ℕ × WireMessage) → MessageHandler → MessageHandler
push_events events h = record {
  msg_events = h.msg_events ++ events;
  msg_received = h.msg_received;
  segment_readers = h.segment_readers;
}

abbrev pub push_received : ℕ × Message → MessageHandler → MessageHandler
push_received m h = record {
  msg_events = h.msg_events;
  msg_received = h.msg_received ++ (m ∷ []);
  segment_readers = h.segment_readers;
}

-- The reader of a peer in the map, after the changes that are made to it in place.
abbrev pub set_reader : ℕ → SegmentReader → MessageHandler → MessageHandler
set_reader org r h = record {
  msg_events = h.msg_events;
  msg_received = h.msg_received;
  segment_readers = insert ◌==◌ org r h.segment_readers;
}

abbrev pub or_default : Option SegmentReader → SegmentReader
or_default none = record { cur_data = []; remaining_segments = 0 }
or_default (some r) = r

module _ (codec : Codec) where
  open codec use {
    write_u16, read_u16, encode, serialized_length, read_message, read_segment_start,
    read_segment_chunk, max_buf_size,
  }

  unfoldable pub send_message : ℕ → Message → MessageHandler → Outcome (Unit {0}) MessageHandler
  unfolding get_segments
  send_message node_id msg h =
      let segments = get_segments write_u16 (encode msg) (type_id msg.kind) in
      if ltb max_buf_size (serialized_length msg)
      then elim segments [
        | ok (start, chunks) ↦ ok (
            push_events
              ((node_id, segment_start start) ∷ map (λ c. (node_id, segment_chunk c)) chunks) h)
        | err e ↦ err e
        | panic ↦ panic
      ]
      else ok (push_events ((node_id, message msg) ∷ []) h)

  unfoldable pub read_dlc_message : ℕ → List ℕ → Outcome (Unit {0}) (Option WireMessage)
  unfolding read_kind
  read_dlc_message msg_type buffer = elim (read_kind msg_type) [
    | none ↦ ok none
    | some kind ↦ elim (read_message kind buffer) [ none ↦ err tt | some m ↦ ok (some (message m)) ]
  ]

  -- `CustomMessageReader::read`
  unfoldable pub read : ℕ → List ℕ → Outcome (Unit {0}) (Option WireMessage)
  unfolding read_dlc_message
  read msg_type buffer =
      if msg_type == segment_start_type
      then elim (read_segment_start buffer) [ none ↦ err tt | some s ↦ ok (some (segment_start s)) ]
      else (if msg_type == segment_chunk_type
          then elim (read_segment_chunk buffer) [
            | none ↦ err tt
            | some s ↦ ok (some (segment_chunk s))
          ]
          else read_dlc_message msg_type buffer)

  -- The type and the message of some reassembled bytes, up to the push to `msg_received`.
  unfoldable pub reconstruct : List ℕ → Outcome LightningError Message
  unfolding read
  reconstruct bytes = elim (read_u16 bytes) [
    | none ↦ err not_reconstructed
    | some (message_type, rest) ↦ elim (read message_type rest) [
      | err e ↦ err not_reconstructed
      | panic ↦ panic
      | ok none ↦ panic
      | ok (some (message m)) ↦ ok m
      | ok (some (segment_start s)) ↦ err unexpected_message_type
      | ok (some (segment_chunk s)) ↦ err unexpected_message_type
    ]
  ]

  -- The arm for a chunk while one is expected.
  unfoldable pub handle_expected_chunk :
      SegmentReader
      → SegmentChunk
      → ℕ
      → MessageHandler
      → Outcome LightningError (Unit {0}) × MessageHandler
  unfolding process_segment_chunk reconstruct
  handle_expected_chunk reader chunk org h =
      let (answer, r) = process_segment_chunk reader chunk in
      let g = set_reader org r h in
      elim answer [
        | err e ↦ (err (segment_failed e), g)
        | panic ↦ (panic, g)
        | ok none ↦ (ok tt, g)
        | ok (some bytes) ↦ elim (reconstruct bytes) [
          | err e ↦ (err e, g)
          | panic ↦ (panic, g)
          | ok m ↦ (ok tt, push_received (org, m) g)
        ]
      ]

  -- The last match, on a reader that expects no chunk.
  unfoldable pub handle_unexpected :
      SegmentReader
      → WireMessage
      → ℕ
      → MessageHandler
      → Outcome LightningError (Unit {0}) × MessageHandler
  unfolding process_segment_start
  handle_unexpected reader (message m) org h =
      (ok tt, push_received (org, m) (set_reader org reader h))
  handle_unexpected reader (segment_start s) org h =
      let (answer, r) = process_segment_start reader s in
      elim answer [
        | err e ↦ (err (segment_failed e), set_reader org r h)
        | panic ↦ (panic, set_reader org r h)
        | ok _ ↦ (ok tt, set_reader org r h)
      ]
  handle_unexpected reader (segment_chunk s) org h = (err unexpected_chunk, set_reader org reader h)

  -- What is done when the reader expects a chunk: anything else resets it.
  unfoldable pub handle_expecting :
      SegmentReader
      → WireMessage
      → ℕ
      → MessageHandler
      → Outcome LightningError (Unit {0}) × MessageHandler
  unfolding handle_expected_chunk handle_unexpected reset
  handle_expecting reader (segment_chunk s) org h = handle_expected_chunk reader s org h
  handle_expecting reader (message m) org h = handle_unexpected (reset reader) (message m) org h
  handle_expecting reader (segment_start s) org h =
      handle_unexpected (reset reader) (segment_start s) org h

  unfoldable pub handle_custom_message :
      WireMessage → ℕ → MessageHandler → Outcome LightningError (Unit {0}) × MessageHandler
  unfolding handle_expecting handle_unexpected expecting_chunk
  handle_custom_message msg org h =
      let reader = or_default (lookup ◌==◌ org h.segment_readers) in
      if expecting_chunk reader
      then handle_expecting reader msg org h
      else handle_unexpected reader msg org h
