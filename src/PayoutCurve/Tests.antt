-- ===== src/PayoutCurve/Tests.antt =====
-- The theorems on payout functions, with numbers that are their own bits.
use rust_dlc.Base.{
  ℕ, ◌+◌, ◌-◌, ◌*◌, ◌/◌, ◌%◌, ◌≡◌, refl, ltb, leb, ◌==◌, false, not, if◌then◌else◌, inr, inl, ok,
  List, [], ◌∷◌, arith, All,
}
use rust_dlc.Dlc.Types.{RangePayout}
use rust_dlc.Digits.Pad.{Tiles}
use rust_dlc.PayoutCurve.{PayoutFunction, validate_payout_function}
use rust_dlc.PayoutCurve.Evaluate.{Floats, RoundingIntervals, get_rounded_payout}
use rust_dlc.PayoutCurve.Ranges.{to_range_payouts}
use rust_dlc.PayoutCurve.Tiling.{Shares}
use rust_dlc.PayoutCurve.Coverage.{to_range_payouts-Tiles}
use rust_dlc.PayoutCurve.Descending.{
  point, piece_of, back_and_forth, to_range_payouts-back_and_forth,
}

-- The numbers of this test are small and whole.
abbrev whole : Floats
whole = record {
  of_u64 = λ n. n;
  to_u64 = λ n. n;
  add = λ m n. m + n;
  sub = λ m n. m - n;
  mul = λ m n. m * n;
  div = λ m n. m / n;
  rem = λ m n. m % n;
  neg = λ n. 0;
  sqrt = λ n. n;
  square = λ n. n * n;
  round = λ n. n;
  is_sign_negative = λ n. false;
  is_normal = λ n. not (n == 0);
  equal = λ m n. m == n;
  greater = λ m n. ltb n m;
  at_least = λ m n. leb n m;
  binary_search = λ begins n. if n == 0 then inl 0 else inr 1;
}

abbrev to_even : RoundingIntervals
to_even = record { intervals = record { begin_interval = 0; rounding_mod = 2 } ∷ [] }

-- Rising from the outcome 0 to 3, then constant up to 7.
abbrev rising : PayoutFunction
rising = record {
  payout_function_pieces =
      piece_of (point 0 0 ∷ point 3 60 ∷ []) ∷ piece_of (point 3 60 ∷ point 7 60 ∷ []) ∷ [];
}

abbrev range : ℕ → ℕ → ℕ → RangePayout
range start count offer = record {
  start = start;
  count = count;
  payout = record { offer = offer; accept = 100 - offer };
}

abbrev rising_ranges : List RangePayout
rising_ranges = range 0 1 0 ∷ range 1 1 20 ∷ range 2 1 40 ∷ range 3 5 60 ∷ []

to_range_payouts-Tiles_example : Tiles 0 rising_ranges 8 × All (Shares 100) rising_ranges
unfolding to_range_payouts validate_payout_function
to_range_payouts-Tiles_example =
    to_range_payouts-Tiles whole to_even rising 100 7 rising_ranges (omega arith) (omega arith)
      (refl, (refl, tt)) refl refl

to_range_payouts-back_and_forth_example :
    (validate_payout_function (back_and_forth 2 5 3 7 60) 7 ≡ ok tt)
    × (to_range_payouts whole (back_and_forth 2 5 3 7 60) 100 to_even ≡ ok (range 0 11 60 ∷ []))
unfolding get_rounded_payout
to_range_payouts-back_and_forth_example =
    to_range_payouts-back_and_forth whole to_even 2 5 3 7 60 100 60 refl (omega arith) (omega arith)
      (omega arith)
