-- ===== src/Segmentation/Reader.antt =====
-- The reader's invariant: it holds bytes exactly while it waits for chunks.
use rust_dlc.Base.{
  ℕ, ◌+◌, ◌-◌, ◌%◌, ◌≡◌, ◌≤◌, ◌<◌, true, false, ◌&&◌, not, leb, ltb, ◌==◌, List, [], ◌++◌, length,
  Bool-cases, inl, inr, arith, length-append,
}
use rust_dlc.Segmentation.{
  SegmentStart, SegmentChunk, SegmentReader, max_chunk_size, max_start_data_size, max_segments,
  u16_mod, is_empty, process_segment_start, process_segment_chunk, complete,
}

-- A reader is idle, with no bytes, or waits for at most 999 chunks and holds the start and those
-- before.
pub data IsValid : SegmentReader → Type 0 where
  idle : IsValid (record { cur_data = []; remaining_segments = 0 })
  waiting :
      (cur : List ℕ) (n : ℕ)
      → 0 < n
      → n < max_segments
      → max_start_data_size ≤ length cur
      → IsValid (record { cur_data = cur; remaining_segments = n })

start-accepted :
    (nb : ℕ) (bytes : List ℕ)
    → (leb 2 nb && leb nb max_segments) ≡ true
    → ltb (length bytes) max_start_data_size ≡ false
    → IsValid (record { cur_data = bytes; remaining_segments = nb - 1 })
start-accepted nb bytes h k = waiting bytes (nb - 1) (ground arith) (ground arith) (ground arith)

-- A start message keeps the invariant, whatever it claims.
pub process_segment_start-IsValid :
    (r : SegmentReader) (start : SegmentStart)
    → IsValid r
    → IsValid (process_segment_start r start).1
unfolding process_segment_start
process_segment_start-IsValid r start h = elim (Bool-cases (is_empty r.cur_data)) [
  | inr e ↦ rw e h
  | inl e ↦
      rw e (elim (Bool-cases (leb 2 start.nb_segments && leb start.nb_segments max_segments)) [
        | inr f ↦ rw f h
        | inl f ↦ rw f (elim (Bool-cases (ltb (length start.bytes) max_start_data_size)) [
          | inl g ↦ rw g h
          | inr g ↦ rw g (start-accepted start.nb_segments start.bytes f g)
        ])
      ])
]

complete-IsValid :
    (cur bytes : List ℕ) (n : ℕ)
    → 0 < n
    → n < max_segments
    → max_start_data_size ≤ length cur
    → IsValid
        (complete
          (record { cur_data = cur ++ bytes; remaining_segments = (n + u16_mod - 1) % u16_mod })).1
unfolding complete
complete-IsValid cur bytes n pos small filled =
    let less : (n + u16_mod - 1) % u16_mod ≡ n - 1 = omega arith in
    rw less (elim (Bool-cases (n - 1 == 0)) [
      | inl e ↦ let z : n - 1 ≡ 0 = ground arith in rw e (rw z idle)
      | inr e ↦ rw e (
          waiting (cur ++ bytes) (n - 1) (ground arith) (omega arith)
            (omega (arith, length-append cur bytes)))
    ])

-- A chunk keeps the invariant, so the count of the remaining segments never wraps.
pub process_segment_chunk-IsValid :
    (r : SegmentReader) (chunk : SegmentChunk)
    → IsValid r
    → IsValid (process_segment_chunk r chunk).1
unfolding process_segment_chunk
process_segment_chunk-IsValid r chunk idle = idle
process_segment_chunk-IsValid r chunk (waiting cur n pos small filled) =
    elim (Bool-cases (is_empty cur)) [
      | inl e ↦ rw e (waiting cur n pos small filled)
      | inr e ↦ rw e (elim (Bool-cases (ltb 1 n && not (length chunk.bytes == max_chunk_size))) [
        | inl f ↦ rw f (waiting cur n pos small filled)
        | inr f ↦ rw f (complete-IsValid cur chunk.bytes n pos small filled)
      ])
    ]
