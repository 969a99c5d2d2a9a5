-- ===== src/Digits/Tests.antt =====
-- Runs from the tests of digit_decomposition.rs, and the theorems at concrete inputs.
use rust_dlc.Base.{ℕ, map, ◌^◌, List, arith, ◌≡◌, refl, [], ◌∷◌, ok}
use rust_dlc.Digits.Cover.{Covers}
use rust_dlc.Digits.Pad.{pad_range_payouts, Tiles, pad_range_payouts-Tiles}
use rust_dlc.Dlc.Types.{RangePayout}
use rust_dlc.Digits.Group.{group_by_ignoring_digits-Covers}
use rust_dlc.Digits.Compose.{compose_value-decompose_value, decompose_value-compose_value}
use rust_dlc.Base.Float.{f64_div_floor}
use rust_dlc.Digits.{decompose_value, group_by_ignoring_digits, compose_value}

decompose_123456789 : decompose_value 123456789 10 9 ≡ ok (1 ∷ 2 ∷ 3 ∷ 4 ∷ 5 ∷ 6 ∷ 7 ∷ 8 ∷ 9 ∷ [])
unfolding decompose_value f64_div_floor
decompose_123456789 = refl

large_quotient : f64_div_floor (2 ^ 63) 3 ≡ 3074457345618258432
unfolding f64_div_floor
large_quotient = refl

compose_1234 : compose_value (1 ∷ 2 ∷ 3 ∷ 4 ∷ []) 10 ≡ 1234
unfolding compose_value
compose_1234 = refl

group_73899 :
    group_by_ignoring_digits 73899 73938 16 6
    ≡ ok (
        (0 ∷ 1 ∷ 2 ∷ 0 ∷ 10 ∷ 11 ∷ [])
        ∷ (0 ∷ 1 ∷ 2 ∷ 0 ∷ 10 ∷ 12 ∷ [])
        ∷ (0 ∷ 1 ∷ 2 ∷ 0 ∷ 10 ∷ 13 ∷ [])
        ∷ (0 ∷ 1 ∷ 2 ∷ 0 ∷ 10 ∷ 14 ∷ [])
        ∷ (0 ∷ 1 ∷ 2 ∷ 0 ∷ 10 ∷ 15 ∷ [])
        ∷ (0 ∷ 1 ∷ 2 ∷ 0 ∷ 11 ∷ [])
        ∷ (0 ∷ 1 ∷ 2 ∷ 0 ∷ 12 ∷ [])
        ∷ (0 ∷ 1 ∷ 2 ∷ 0 ∷ 13 ∷ 0 ∷ [])
        ∷ (0 ∷ 1 ∷ 2 ∷ 0 ∷ 13 ∷ 1 ∷ [])
        ∷ (0 ∷ 1 ∷ 2 ∷ 0 ∷ 13 ∷ 2 ∷ [])
        ∷ [])
unfolding group_by_ignoring_digits f64_div_floor
group_73899 = refl

group_by_ignoring_digits-Covers_example :
    (list : List (List ℕ)) × (group_by_ignoring_digits 73899 73938 16 6 ≡ ok list)
    × Covers 16 6 73899 list 73939
group_by_ignoring_digits-Covers_example =
    group_by_ignoring_digits-Covers 73899 73938 16 6 (omega arith) (omega arith) (omega arith)
      (omega arith) (omega arith)

compose_value-decompose_value_example :
    (ds : List ℕ) × (decompose_value 1234 10 6 ≡ ok ds) × (compose_value ds 10 ≡ 1234)
compose_value-decompose_value_example =
    compose_value-decompose_value 1234 10 6 (omega arith) (omega arith) (omega arith) (omega arith)

decompose_value-compose_value_example :
    decompose_value (compose_value (0 ∷ 7 ∷ 3 ∷ []) 8) 8 3 ≡ ok (0 ∷ 7 ∷ 3 ∷ [])
decompose_value-compose_value_example =
    decompose_value-compose_value (0 ∷ 7 ∷ 3 ∷ []) 8 (omega arith) (omega arith)
      (omega arith, (omega arith, (omega arith, tt))) (omega arith)

abbrev middle : RangePayout
middle = record { start = 3; count = 4; payout = record { offer = 10; accept = 0 } }

abbrev end_range : RangePayout
end_range = record { start = 7; count = 2; payout = record { offer = 6; accept = 4 } }

pad_range_payouts-Tiles_example :
    (r : List RangePayout) × (pad_range_payouts (middle ∷ end_range ∷ []) 2 4 ≡ ok r)
    × Tiles 0 r (2 ^ 4)
    × (map (λ (p : RangePayout). p.payout) r
        ≡ map (λ (p : RangePayout). p.payout) (middle ∷ end_range ∷ []))
pad_range_payouts-Tiles_example =
    pad_range_payouts-Tiles middle (end_range ∷ []) 2 4 3 9 (omega arith) (omega arith)
      (omega arith) (refl, (refl, refl))
