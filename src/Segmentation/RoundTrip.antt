-- ===== src/Segmentation/RoundTrip.antt =====
-- The reader puts together what `get_segments` takes apart.
use mathlib.Core.Path.{subst, subst₂}
use mathlib.Core.List.{append_assoc}
use rust_dlc.Base.{
  ℕ, zero, suc, ◌+◌, ◌-◌, ◌*◌, ◌≡◌, ◌≤◌, ◌<◌, min, refl, ap, ◌∙◌, true, false, ok, err, leb, ltb,
  List, [], ◌∷◌, ◌++◌, length, take, drop, replicate, none, some, arith, length-append, length-take,
  length-drop, take-append-drop,
}
use rust_dlc.Segmentation.{
  SegmentStart, SegmentChunk, SegmentReader, max_data_size, max_chunk_size, max_start_data_size,
  max_segments, new, bad_nb_segments, process_segment_start, process_chunks, nb_segments_for,
  take_chunks, get_segments,
}
use rust_dlc.Segmentation.Chunks.{nb_segments_for_lem, answer, process_chunks-take_chunks}

-- A fresh reader takes the start and the chunks, and answers the type of the message and its bytes
-- after the last chunk.
abbrev pub Delivers : SegmentStart × List SegmentChunk → List ℕ → Type 0
Delivers (start, chunks) whole =
    (r : SegmentReader) × (process_segment_start new start ≡ (ok tt, r))
    × (process_chunks r chunks
        ≡ (replicate (length chunks - 1) (answer none) ++ (answer (some whole) ∷ []), new))

length-take_chunks : (n : ℕ) (bytes : List ℕ) → length (take_chunks n bytes) ≡ n
unfolding take_chunks
length-take_chunks zero bytes = refl
length-take_chunks (suc n) bytes =
    let to_take = min (length bytes) max_chunk_size in
    ap suc (length-take_chunks n (drop to_take bytes))

-- A start with data and a count of 2 to 1000.
start_accepted :
    (nb : ℕ) (bytes : List ℕ)
    → 2 ≤ nb
    → nb ≤ max_segments
    → max_start_data_size ≤ length bytes
    → process_segment_start new (record { nb_segments = nb; bytes = bytes })
      ≡ (ok tt, record { cur_data = bytes; remaining_segments = nb - 1 })
unfolding process_segment_start new
start_accepted nb bytes lo hi filled = ground arith

delivers :
    (n : ℕ) (prefix bytes : List ℕ)
    → n * max_chunk_size < length bytes
    → length bytes ≤ suc n * max_chunk_size
    → suc n < max_segments
    → max_start_data_size ≤ length prefix
    → Delivers
        (record { nb_segments = suc (suc n); bytes = prefix }, take_chunks (suc n) bytes)
        (prefix ++ bytes)
delivers n [] bytes lo hi small filled = absurd (omega arith)
delivers n (x ∷ cur) bytes lo hi small filled =
    let one_less : suc (suc n) - 1 ≡ suc n = omega arith in
    let counted : length (take_chunks (suc n) bytes) - 1 ≡ n =
      omega (arith, length-take_chunks (suc n) bytes) in
    (
      record { cur_data = x ∷ cur; remaining_segments = suc n },
      subst
          (λ m.
            process_segment_start new (record { nb_segments = suc (suc n); bytes = x ∷ cur })
            ≡ (ok tt, record { cur_data = x ∷ cur; remaining_segments = m }))
          one_less (start_accepted (suc (suc n)) (x ∷ cur) (omega arith) (omega arith) filled),
      rw counted (process_chunks-take_chunks n x cur bytes lo hi small),
    )

module _ (write_u16 : ℕ → List ℕ) where
  pub get_segments_eq :
      (bytes : List ℕ) (msg_type : ℕ)
      → max_start_data_size - 2 < length bytes
      → length bytes ≤ (max_start_data_size - 2) + 65534 * max_chunk_size
      → get_segments write_u16 bytes msg_type
        ≡ ok (
          record {
            nb_segments = nb_segments_for (length bytes);
            bytes = write_u16 msg_type ++ take (max_start_data_size - 2) bytes;
          },
          take_chunks (nb_segments_for (length bytes) - 1) (drop (max_start_data_size - 2) bytes),
        )
  unfolding get_segments
  get_segments_eq bytes msg_type lo hi =
      let many = nb_segments_for_lem (length bytes) lo hi in
      let enough : leb (max_start_data_size - 2) (length bytes) ≡ true = ground arith in
      let some_segment : ltb 0 (nb_segments_for (length bytes)) ≡ true = ground arith in
      rw enough (rw some_segment refl)

  -- A message above 65535 bytes that is split into at most 1000 segments arrives whole, if a type takes two
  -- bytes: a fresh reader accepts every segment, answers nothing before the last one, then the type and all
  -- of the bytes, and is as new.
  pub get_segments-Delivers :
      (bytes : List ℕ) (msg_type : ℕ)
      → length (write_u16 msg_type) ≡ 2
      → max_data_size < length bytes
      → length bytes ≤ (max_start_data_size - 2) + 999 * max_chunk_size
      → (s : SegmentStart × List SegmentChunk) × (get_segments write_u16 bytes msg_type ≡ ok s)
        × Delivers s (write_u16 msg_type ++ bytes)
  get_segments-Delivers bytes msg_type two lo hi =
      let start_len = max_start_data_size - 2 in
      let below : length bytes ≤ start_len + 65534 * max_chunk_size = omega arith in
      let nb = nb_segments_for (length bytes) in
      let many = nb_segments_for_lem (length bytes) (omega arith) below in
      let prefix = write_u16 msg_type ++ take start_len bytes in
      let rest = drop start_len bytes in
      let taken = length-take start_len bytes in
      let dropped = length-drop start_len bytes in
      let whole : prefix ++ rest ≡ write_u16 msg_type ++ bytes =
        append_assoc (write_u16 msg_type) (take start_len bytes) rest
        ∙ ap (λ z. write_u16 msg_type ++ z) (take-append-drop start_len bytes) in
      let n = nb - 2 in
      let nb-eq : nb ≡ suc (suc n) = omega arith in
      let chunks-eq : nb - 1 ≡ suc n = omega arith in
      let filled : max_start_data_size ≤ length prefix =
        omega (arith, length-append (write_u16 msg_type) (take start_len bytes)) in
      let delivered = delivers n prefix rest (omega arith) (omega arith) (omega arith) filled in
      (
        (record { nb_segments = suc (suc n); bytes = prefix }, take_chunks (suc n) rest),
        subst₂
            (λ a b.
              get_segments write_u16 bytes msg_type
              ≡ ok (record { nb_segments = a; bytes = prefix }, take_chunks b rest))
            nb-eq chunks-eq (get_segments_eq bytes msg_type (omega arith) below),
        subst
            (Delivers
              (record { nb_segments = suc (suc n); bytes = prefix }, take_chunks (suc n) rest))
            whole delivered,
      )

  -- A message that takes from 1001 to 65535 segments is split all the same, and the reader refuses its
  -- start.
  pub get_segments-refused :
      (bytes : List ℕ) (msg_type : ℕ)
      → (max_start_data_size - 2) + 999 * max_chunk_size < length bytes
      → length bytes ≤ (max_start_data_size - 2) + 65534 * max_chunk_size
      → (s : SegmentStart × List SegmentChunk) × (get_segments write_u16 bytes msg_type ≡ ok s)
        × (process_segment_start new s.0 ≡ (err bad_nb_segments, new))
  unfolding process_segment_start new
  get_segments-refused bytes msg_type lo hi =
      let many = nb_segments_for_lem (length bytes) (omega arith) hi in
      let over : leb (nb_segments_for (length bytes)) max_segments ≡ false = ground arith in
      let least : leb 2 (nb_segments_for (length bytes)) ≡ true = ground arith in
      (_, get_segments_eq bytes msg_type (omega arith) hi, rw least (rw over refl))
