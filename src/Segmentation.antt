-- ===== src/Segmentation.antt =====
-- dlc-messages/src/segmentation: a message that is too large is sent in segments.
mod Tests
pub mod Reader
pub mod Chunks
pub mod RoundTrip
use rust_dlc.Base.{
  ℕ, zero, suc, ◌+◌, ◌-◌, ◌*◌, ◌/◌, ◌%◌, ◌^◌, ◌≡◌, min, Bool, true, false, ◌&&◌, not, Outcome, ok,
  err, panic, ◌>>=◌, ◌>>◌, require, assert, leb, ltb, ◌==◌, if◌then◌else◌, List, [], ◌∷◌, ◌++◌,
  length, take, drop, Option, none, some,
}

abbrev pub max_data_size : ℕ
max_data_size = 65535

abbrev pub max_start_data_size : ℕ
max_start_data_size = 65526

abbrev pub max_chunk_size : ℕ
max_chunk_size = 65528

abbrev pub max_segments : ℕ
max_segments = 1000

abbrev pub u16_mod : ℕ
u16_mod = 2 ^ 16

abbrev pub usize_mod : ℕ
usize_mod = 2 ^ 64

pub record SegmentStart : Type 0 where
  pub nb_segments : ℕ
  pub bytes : List ℕ

pub record SegmentChunk : Type 0 where
  pub bytes : List ℕ

-- The number of segments, in 16 bits.
unfoldable pub nb_segments_for : ℕ → ℕ
nb_segments_for len =
    let len_minus_start = ((len + usize_mod - max_start_data_size) % usize_mod + 2) % usize_mod in
    let nb_segments = (len_minus_start / max_chunk_size + 1) % u16_mod in
    if len_minus_start % max_chunk_size == 0 then nb_segments else (nb_segments + 1) % u16_mod

-- The loop that takes what is left of the bytes, at most a chunk at a time.
unfoldable pub take_chunks : ℕ → List ℕ → List SegmentChunk
take_chunks zero bytes = []
take_chunks (suc n) bytes =
    let to_take = min (length bytes) max_chunk_size in
    record { bytes = take to_take bytes } ∷ take_chunks n (drop to_take bytes)

-- `write_u16` is the serialisation of the message type, by the lightning crate. The function has no
-- error: it returns or panics, when it drains more than there is or asks for a capacity below 0.
module _ (write_u16 : ℕ → List ℕ) where
  unfoldable pub get_segments : List ℕ → ℕ → Outcome (Unit {0}) (SegmentStart × List SegmentChunk)
  unfolding nb_segments_for take_chunks
  get_segments bytes msg_type = do
    let nb_segments = nb_segments_for (length bytes)
    assert (leb (max_start_data_size - 2) (length bytes))
    let start_data = write_u16 msg_type ++ take (max_start_data_size - 2) bytes
    let rest = drop (max_start_data_size - 2) bytes
    assert (ltb 0 nb_segments)
    ok (
      record { nb_segments = nb_segments; bytes = start_data },
      take_chunks (nb_segments - 1) rest,
    )

pub record SegmentReader : Type 0 where
  pub cur_data : List ℕ
  pub remaining_segments : ℕ

-- The two kinds of `segment_reader::Error`, with the case in place of the text.
pub data ReaderError : Type 0 where
  data_not_empty data_empty bad_nb_segments start_not_filled chunk_not_filled : ReaderError

unfoldable pub new : SegmentReader
new = record { cur_data = []; remaining_segments = 0 }

unfoldable pub reset : SegmentReader → SegmentReader
reset r = record { cur_data = []; remaining_segments = 0 }

unfoldable pub expecting_chunk : SegmentReader → Bool
expecting_chunk r = not (r.remaining_segments == 0)

abbrev pub is_empty : List ℕ → Bool
is_empty [] = true
is_empty (x ∷ xs) = false

unfoldable pub process_segment_start :
    SegmentReader → SegmentStart → Outcome ReaderError (Unit {0}) × SegmentReader
process_segment_start r start =
    if not (is_empty r.cur_data)
    then (err data_not_empty, r)
    else (if not (leb 2 start.nb_segments && leb start.nb_segments max_segments)
        then (err bad_nb_segments, r)
        else (if ltb (length start.bytes) max_start_data_size then (err start_not_filled, r) else (
          ok tt,
          record { cur_data = start.bytes; remaining_segments = start.nb_segments - 1 },
        )))

-- The end of `process_segment_chunk`, once the chunk is appended.
unfoldable pub complete : SegmentReader → Outcome ReaderError (Option (List ℕ)) × SegmentReader
complete r =
    if r.remaining_segments == 0
    then (ok (some r.cur_data), record { cur_data = []; remaining_segments = r.remaining_segments })
    else (ok none, r)

-- `self.remaining_segments -= 1` wraps at 0.
unfoldable pub process_segment_chunk :
    SegmentReader → SegmentChunk → Outcome ReaderError (Option (List ℕ)) × SegmentReader
unfolding complete
process_segment_chunk r chunk =
    if is_empty r.cur_data
    then (err data_empty, r)
    else (if ltb 1 r.remaining_segments && not (length chunk.bytes == max_chunk_size)
        then (err chunk_not_filled, r)
        else complete (record {
          cur_data = r.cur_data ++ chunk.bytes;
          remaining_segments = (r.remaining_segments + u16_mod - 1) % u16_mod;
        }))

-- What the reader answers to some chunks in turn, and the state that it ends in.
unfoldable pub process_chunks :
    SegmentReader → List SegmentChunk → List (Outcome ReaderError (Option (List ℕ))) × SegmentReader
unfolding process_segment_chunk
process_chunks r [] = ([], r)
process_chunks r (chunk ∷ chunks) =
    let (answer, s) = process_segment_chunk r chunk in
    let (answers, t) = process_chunks s chunks in (answer ∷ answers, t)
