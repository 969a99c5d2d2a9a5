-- ===== src/Segmentation/Tests.antt =====
-- The theorems on segments, at a message of 70000 bytes and one that is too long.
use rust_dlc.Base.{
  ℕ, ◌≡◌, refl, ◌/◌, ◌%◌, ok, err, List, [], ◌∷◌, ◌++◌, replicate, length, length-replicate, arith,
}
use rust_dlc.Segmentation.{
  SegmentStart, SegmentChunk, bad_nb_segments, get_segments, new, process_segment_start,
  process_segment_chunk,
}
use rust_dlc.Segmentation.Reader.{IsValid, waiting, process_segment_chunk-IsValid}
use rust_dlc.Segmentation.RoundTrip.{Delivers, get_segments-Delivers, get_segments-refused}

abbrev two_bytes : ℕ → List ℕ
two_bytes t = (t / 256) ∷ (t % 256) ∷ []

ones : ℕ → List ℕ
ones n = replicate n 1

length-ones : (n : ℕ) → length (ones n) ≡ n
unfolding ones
length-ones n = length-replicate n 1

get_segments-Delivers_example :
    (s : SegmentStart × List SegmentChunk) × (get_segments two_bytes (ones 70000) 43000 ≡ ok s)
    × Delivers s (two_bytes 43000 ++ ones 70000)
get_segments-Delivers_example =
    get_segments-Delivers two_bytes (ones 70000) 43000 refl (omega (arith, length-ones 70000))
      (omega (arith, length-ones 70000))

get_segments-refused_example :
    (s : SegmentStart × List SegmentChunk) × (get_segments two_bytes (ones 66000000) 43000 ≡ ok s)
    × (process_segment_start new s.0 ≡ (err bad_nb_segments, new))
get_segments-refused_example =
    get_segments-refused two_bytes (ones 66000000) 43000 (omega (arith, length-ones 66000000))
      (omega (arith, length-ones 66000000))

process_segment_chunk-IsValid_example :
    IsValid
      (process_segment_chunk
        (record { cur_data = ones 70000; remaining_segments = 2 })
        (record { bytes = 5 ∷ [] })).1
process_segment_chunk-IsValid_example =
    process_segment_chunk-IsValid (record { cur_data = ones 70000; remaining_segments = 2 })
      (record { bytes = 5 ∷ [] })
      (waiting (ones 70000) 2 (omega arith) (omega arith) (omega (arith, length-ones 70000)))
