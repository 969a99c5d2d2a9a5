-- ===== src/PayoutCurve/Ranges.antt =====
-- dlc-manager/src/payout_curve.rs: the ranges of outcomes with one payout. The vector of the ranges is
-- passed on and returned.
use rust_dlc.Base.{
  ℕ, suc, zero, ◌+◌, ◌-◌, ltb, ◌==◌, true, false, if◌then◌else◌, Outcome, ok, ◌>>=◌, ◌>>◌, require,
  not, none, some, List, [], ◌∷◌, ◌++◌,
}
use rust_dlc.Dlc.Types.{RangePayout, add64, sub64, u64_mod}
use rust_dlc.Contracts.Types.{Error, invalid_parameters}
use rust_dlc.PayoutCurve.{
  PayoutPoint, PayoutFunctionPiece, polynomial, hyperbola, PayoutFunction, last_of, get_first_point,
  get_last_point,
}
use rust_dlc.PayoutCurve.Evaluate.{Floats, RoundingIntervals, get_rounded_payout}

-- The list without its last element, for `range_payouts.pop()`.
abbrev pub without_last : {A : Type 0} → List A → List A
without_last [] = []
without_last (x ∷ []) = []
without_last (x ∷ y ∷ list) = x ∷ without_last (y ∷ list)

abbrev pub one_payout : ℕ → ℕ → ℕ → RangePayout
one_payout total_collateral outcome payout = record {
  start = outcome;
  count = 1;
  payout = record { offer = payout; accept = sub64 total_collateral payout };
}

-- The first and the last outcome are those of the end points.
unfoldable pub get_first_outcome : PayoutFunctionPiece → Outcome Error ℕ
unfolding get_first_point
get_first_outcome piece = do point ← get_first_point piece; ok point.event_outcome

unfoldable pub get_last_outcome : PayoutFunctionPiece → Outcome Error ℕ
unfolding get_last_point
get_last_outcome piece = do point ← get_last_point piece; ok point.event_outcome

-- `last.checked_add(1).unwrap_or(u64::MAX)`
abbrev pub range_end_of : ℕ → ℕ
range_end_of last = if ltb (last + 1) u64_mod then last + 1 else u64_mod - 1

module _ (floats : Floats) (rounding_intervals : RoundingIntervals) (total_collateral : ℕ) where
  -- The range that is popped, or one for the first outcome.
  unfoldable pub get_cur_range : PayoutFunctionPiece → List RangePayout → Outcome Error RangePayout
  unfolding get_first_outcome get_rounded_payout
  get_cur_range piece range_payouts = elim (last_of range_payouts) [
    | some cur ↦ ok cur
    | none ↦ do
      first_outcome ← get_first_outcome piece
      first_payout ←
          get_rounded_payout floats piece first_outcome rounding_intervals total_collateral
      ok (one_payout total_collateral first_outcome first_payout)
  ]

  -- The loop over the outcomes, with the rounds that are left.
  unfoldable pub range_loop :
      PayoutFunctionPiece
      → ℕ
      → ℕ
      → RangePayout
      → List RangePayout
      → Outcome Error (List RangePayout)
  unfolding get_rounded_payout
  range_loop piece zero outcome cur_range range_payouts = ok (range_payouts ++ cur_range ∷ [])
  range_loop piece (suc rounds) outcome cur_range range_payouts = do
    payout ← get_rounded_payout floats piece outcome rounding_intervals total_collateral
    require (not (ltb total_collateral payout)) invalid_parameters
    elim (cur_range.payout.offer == payout) [
      | true ↦
          range_loop piece rounds (suc outcome)
            (record cur_range { count = add64 cur_range.count 1 }) range_payouts
      | false ↦
          range_loop piece rounds (suc outcome) (one_payout total_collateral outcome payout)
            (range_payouts ++ cur_range ∷ [])
    ]

  unfoldable pub compute_range_payouts :
      PayoutFunctionPiece → List RangePayout → Outcome Error (List RangePayout)
  unfolding get_cur_range range_loop get_first_outcome get_last_outcome
  compute_range_payouts piece range_payouts = do
    first_outcome ← get_first_outcome piece
    cur_range ← get_cur_range piece range_payouts
    last_outcome ← get_last_outcome piece
    let start = add64 first_outcome 1
    range_loop piece (range_end_of last_outcome - start) start cur_range
        (without_last range_payouts)

  -- A constant piece of two points lengthens the range by all its outcomes at once.
  unfoldable pub constant_range_payouts :
      PayoutFunctionPiece
      → PayoutPoint
      → PayoutPoint
      → List RangePayout
      → Outcome Error (List RangePayout)
  unfolding get_cur_range
  constant_range_payouts piece left right range_payouts = do
    cur_range ← get_cur_range piece range_payouts
    let count = add64 cur_range.count (sub64 right.event_outcome left.event_outcome)
    ok (without_last range_payouts ++ record cur_range { count = count } ∷ [])

  unfoldable pub polynomial_range_payouts :
      List PayoutPoint → PayoutFunctionPiece → List RangePayout → Outcome Error (List RangePayout)
  unfolding constant_range_payouts compute_range_payouts
  polynomial_range_payouts (left ∷ right ∷ []) piece range_payouts =
      if left.outcome_payout == right.outcome_payout
      then constant_range_payouts piece left right range_payouts
      else compute_range_payouts piece range_payouts
  polynomial_range_payouts points piece range_payouts = compute_range_payouts piece range_payouts

  unfoldable pub piece_range_payouts :
      PayoutFunctionPiece → List RangePayout → Outcome Error (List RangePayout)
  unfolding polynomial_range_payouts compute_range_payouts
  piece_range_payouts (polynomial p) range_payouts =
      polynomial_range_payouts p.payout_points (polynomial p) range_payouts
  piece_range_payouts (hyperbola h) range_payouts =
      compute_range_payouts (hyperbola h) range_payouts

  -- The loop over the pieces.
  unfoldable pub pieces_range_payouts :
      List PayoutFunctionPiece → List RangePayout → Outcome Error (List RangePayout)
  unfolding piece_range_payouts
  pieces_range_payouts [] range_payouts = ok range_payouts
  pieces_range_payouts (piece ∷ pieces) range_payouts = do
    range_payouts' ← piece_range_payouts piece range_payouts
    pieces_range_payouts pieces range_payouts'

unfoldable pub to_range_payouts :
    Floats → PayoutFunction → ℕ → RoundingIntervals → Outcome Error (List RangePayout)
unfolding pieces_range_payouts
to_range_payouts floats function total_collateral rounding_intervals =
    pieces_range_payouts floats rounding_intervals total_collateral function.payout_function_pieces
      []
