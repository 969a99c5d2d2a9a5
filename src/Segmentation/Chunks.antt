-- ===== src/Segmentation/Chunks.antt =====
-- The chunks of a message, and what the reader answers to them.
use mathlib.Core.List.{append_assoc}
use rust_dlc.Base.{
  ℕ, zero, suc, ◌+◌, ◌-◌, ◌*◌, ◌%◌, ◌≡◌, ◌≤◌, ◌<◌, min, refl, ap, ◌∙◌, true, false, Outcome, ok,
  ltb, ◌==◌, List, [], ◌∷◌, ◌++◌, length, take, drop, replicate, Option, none, some, arith,
  length-take, length-drop, take-append-drop,
}
use rust_dlc.Segmentation.{
  SegmentChunk, SegmentReader, ReaderError, max_chunk_size, max_start_data_size, max_segments,
  u16_mod, new, process_segment_chunk, complete, process_chunks, nb_segments_for, take_chunks,
}

-- The number of segments is that of the chunks that the rest fills, rounded up, and the start.
pub nb_segments_for_lem :
    (len : ℕ)
    → max_start_data_size - 2 < len
    → len ≤ (max_start_data_size - 2) + 65534 * max_chunk_size
    → (nb_segments_for len - 2) * max_chunk_size < len - (max_start_data_size - 2)
      × (len - (max_start_data_size - 2) ≤ (nb_segments_for len - 1) * max_chunk_size)
      × (2 ≤ nb_segments_for len)
unfolding nb_segments_for
nb_segments_for_lem len lo hi = ground arith

take-all : (n : ℕ) (xs : List ℕ) → length xs ≤ n → take n xs ≡ xs
take-all zero [] h = refl
take-all zero (x ∷ xs) h = absurd (omega arith)
take-all (suc n) [] h = refl
take-all (suc n) (x ∷ xs) h = ap (λ z. x ∷ z) (take-all n xs (omega arith))

abbrev pub answer : Option (List ℕ) → Outcome ReaderError (Option (List ℕ))
answer o = ok o

next_chunk :
    (x : ℕ) (cur bytes : List ℕ) (n : ℕ)
    → length bytes ≡ max_chunk_size
    → suc (suc n) < max_segments
    → process_segment_chunk
        (record { cur_data = x ∷ cur; remaining_segments = suc (suc n) })
        (record { bytes = bytes })
      ≡ (answer none, record { cur_data = x ∷ cur ++ bytes; remaining_segments = suc n })
unfolding process_segment_chunk complete
next_chunk x cur bytes n h small =
    let full : (length bytes == max_chunk_size) ≡ true = ground arith in
    let more : ltb 1 (suc (suc n)) ≡ true = ground arith in
    let less : (suc (suc n) + u16_mod - 1) % u16_mod ≡ suc n = omega arith in
    let some_left : (suc n == 0) ≡ false = ground arith in
    rw more (rw full (rw less (rw some_left refl)))

process_chunks-cons :
    (r : SegmentReader) (chunk : SegmentChunk) (chunks : List SegmentChunk)
    {a : Outcome ReaderError (Option (List ℕ))} {s : SegmentReader}
    → process_segment_chunk r chunk ≡ (a, s)
    → process_chunks r (chunk ∷ chunks)
      ≡ (a ∷ (process_chunks s chunks).0, (process_chunks s chunks).1)
unfolding process_chunks
process_chunks-cons r chunk chunks h =
    ap
      (λ (p : Outcome ReaderError (Option (List ℕ)) × SegmentReader).
        (p.0 ∷ (process_chunks p.1 chunks).0, (process_chunks p.1 chunks).1))
      h

take_chunks-suc :
    (n : ℕ) (bytes : List ℕ)
    → min (length bytes) max_chunk_size ≡ max_chunk_size
    → take_chunks (suc n) bytes
      ≡ record { bytes = take max_chunk_size bytes } ∷ take_chunks n (drop max_chunk_size bytes)
unfolding take_chunks
take_chunks-suc n bytes m = rw m refl

-- A reader that waits for as many chunks as the rest of the bytes takes answers nothing until the last
-- one, then all of the bytes.
pub process_chunks-take_chunks :
    (n : ℕ) (x : ℕ) (cur bytes : List ℕ)
    → n * max_chunk_size < length bytes
    → length bytes ≤ suc n * max_chunk_size
    → suc n < max_segments
    → process_chunks
        (record { cur_data = x ∷ cur; remaining_segments = suc n })
        (take_chunks (suc n) bytes)
      ≡ (replicate n (answer none) ++ (answer (some (x ∷ cur ++ bytes)) ∷ []), new)
unfolding process_chunks take_chunks new
process_chunks-take_chunks zero x cur bytes lo hi small =
    let m : min (length bytes) max_chunk_size ≡ length bytes = omega arith in
    rw m (rw (take-all (length bytes) bytes (omega arith)) refl)
process_chunks-take_chunks (suc n) x cur bytes lo hi small =
    let m : min (length bytes) max_chunk_size ≡ max_chunk_size = omega arith in
    let chunk = take max_chunk_size bytes in
    let rest = drop max_chunk_size bytes in
    let full : length chunk ≡ max_chunk_size = omega (arith, length-take max_chunk_size bytes) in
    let ih =
      process_chunks-take_chunks n x (cur ++ chunk) rest
        (omega (arith, length-drop max_chunk_size bytes))
        (omega (arith, length-drop max_chunk_size bytes)) (omega arith) in
    let whole : (cur ++ chunk) ++ rest ≡ cur ++ bytes =
      append_assoc cur chunk rest ∙ ap (λ z. cur ++ z) (take-append-drop max_chunk_size bytes) in
    ap (λ cs. process_chunks (record { cur_data = x ∷ cur; remaining_segments = suc (suc n) }) cs)
      (take_chunks-suc (suc n) bytes m)
    ∙ process_chunks-cons (record { cur_data = x ∷ cur; remaining_segments = suc (suc n) })
        (record { bytes = chunk }) (take_chunks (suc n) rest) (next_chunk x cur chunk n full small)
    ∙ ap
        (λ (p : List (Outcome ReaderError (Option (List ℕ))) × SegmentReader).
          (answer none ∷ p.0, p.1))
        ih
    ∙ ap (λ z. (replicate (suc n) (answer none) ++ (answer (some (x ∷ z)) ∷ []), new)) whole
