-- ===== src/Handler/Tests.antt =====
-- The theorems on the handler, at a peer that sends a message of an unknown type.
use rust_dlc.Base.{
  ℕ, ◌≡◌, refl, ◌*◌, ◌+◌, false, ok, panic, Option, some, none, List, [], ◌∷◌, length,
}
use rust_dlc.Segmentation.{expecting_chunk, process_segment_chunk, complete}
use rust_dlc.Handler.Types.{sign, Message, message, segment_chunk, read_kind}
use rust_dlc.Handler.{Codec, MessageHandler, handle_custom_message}
use rust_dlc.Handler.Receive.{
  reader_of, handle_custom_message-message, handle_custom_message_panics,
}

abbrev split_two : List ℕ → Option (ℕ × List ℕ)
split_two (x ∷ y ∷ rest) = some (256 * x + y, rest)
split_two _ = none

abbrev toy_codec : Codec
toy_codec = record {
  write_u16 = λ t. 0 ∷ t ∷ [];
  read_u16 = split_two;
  encode = λ m. m.contents ∷ [];
  serialized_length = λ m. 1;
  read_message = λ k bytes. some (record { kind = k; contents = length bytes });
  read_segment_start = λ bytes. none;
  read_segment_chunk = λ bytes. none;
  max_buf_size = 65536;
}

-- A handler that waits for the last chunk of a message that starts with the type 512.
abbrev waiting_handler : MessageHandler
waiting_handler = record {
  msg_events = [];
  msg_received = [];
  segment_readers = (9, record { cur_data = 2 ∷ 0 ∷ 6 ∷ []; remaining_segments = 1 }) ∷ [];
}

abbrev sign_message : Message
sign_message = record { kind = sign; contents = 4 }

handle_custom_message-message_example :
    ((handle_custom_message toy_codec (message sign_message) 9 waiting_handler).0 ≡ ok tt)
    × ((handle_custom_message toy_codec (message sign_message) 9 waiting_handler).1.msg_received
        ≡ (9, sign_message) ∷ [])
    × (expecting_chunk
          (reader_of 9 (handle_custom_message toy_codec (message sign_message) 9 waiting_handler).1)
        ≡ false)
handle_custom_message-message_example =
    handle_custom_message-message toy_codec sign_message 9 waiting_handler

handle_custom_message_panics_example :
    (handle_custom_message toy_codec
      (segment_chunk (record { bytes = 3 ∷ [] }))
      9
      waiting_handler).0
    ≡ panic
unfolding process_segment_chunk complete expecting_chunk read_kind
handle_custom_message_panics_example =
    handle_custom_message_panics toy_codec (record { bytes = 3 ∷ [] }) 9 waiting_handler
      (2 ∷ 0 ∷ 6 ∷ 3 ∷ []) (6 ∷ 3 ∷ []) 512 (record { cur_data = []; remaining_segments = 0 }) refl
      refl refl refl refl refl
