-- ===== src/PayoutCurve/Descending.antt =====
-- A payout function with a piece whose points descend, which `new` would not make.
use rust_dlc.Base.{
  ℕ, ◌+◌, ◌-◌, ◌≤◌, ◌<◌, ◌≡◌, refl, ap, ◌∙◌, ◌==◌, if◌then◌else◌, true, false, Outcome, ok, ◌>>=◌,
  List, [], ◌∷◌, arith,
}
use rust_dlc.Dlc.Types.{RangePayout, u64_mod, add64, sub64}
use rust_dlc.Contracts.Types.{Error}
use rust_dlc.PayoutCurve.{
  PayoutPoint, PayoutFunctionPiece, polynomial, PayoutFunction, point_eq, is_continuous,
  get_first_point, get_last_point, validate_payout_function,
}
use rust_dlc.PayoutCurve.Evaluate.{Floats, RoundingIntervals, get_rounded_payout}
use rust_dlc.PayoutCurve.Ranges.{
  one_payout, get_first_outcome, get_last_outcome, range_end_of, get_cur_range, range_loop,
  compute_range_payouts, constant_range_payouts, polynomial_range_payouts, piece_range_payouts,
  pieces_range_payouts, to_range_payouts,
}

abbrev pub point : ℕ → ℕ → PayoutPoint
point outcome payout = record {
  event_outcome = outcome;
  outcome_payout = payout;
  extra_precision = 0;
}

abbrev pub piece_of : List PayoutPoint → PayoutFunctionPiece
piece_of points = polynomial (record { payout_points = points })

-- One payout: up to the outcome `b`, back to `a` by `c`, and on to `max_value`.
abbrev pub back_and_forth : (a b c max_value payout : ℕ) → PayoutFunction
back_and_forth a b c max_value payout = record {
  payout_function_pieces =
      piece_of (point 0 payout ∷ point b payout ∷ [])
      ∷ piece_of (point b payout ∷ point c payout ∷ point a payout ∷ [])
      ∷ piece_of (point a payout ∷ point max_value payout ∷ [])
      ∷ [];
}

same_eq : (n : ℕ) → (n == n) ≡ true
same_eq n = ground arith

point_eq_same : (p : PayoutPoint) → point_eq p p ≡ true
point_eq_same p =
    rw (same_eq p.event_outcome, same_eq p.outcome_payout, same_eq p.extra_precision) refl

joined :
    (cur next : PayoutFunctionPiece) (pieces : List PayoutFunctionPiece) (p : PayoutPoint)
    → get_last_point cur ≡ ok p
    → get_first_point next ≡ ok p
    → is_continuous (next ∷ pieces) ≡ ok true
    → is_continuous (cur ∷ next ∷ pieces) ≡ ok true
unfolding is_continuous
joined cur next pieces p a b c =
    rw (a, b)
      (ap (λ t. elim t [ true ↦ is_continuous (next ∷ pieces) | false ↦ ok false ])
          (point_eq_same p)
        ∙ c)

continuous-back_and_forth :
    (a b c max_value payout : ℕ)
    → is_continuous (back_and_forth a b c max_value payout).payout_function_pieces ≡ ok true
unfolding is_continuous get_first_point get_last_point
continuous-back_and_forth a b c max_value payout =
    let second = piece_of (point b payout ∷ point c payout ∷ point a payout ∷ []) in
    let third = piece_of (point a payout ∷ point max_value payout ∷ []) in
    joined (piece_of (point 0 payout ∷ point b payout ∷ [])) second (third ∷ []) (point b payout)
      refl refl (joined second third [] (point a payout) refl refl refl)

validate-back_and_forth :
    (a b c max_value payout : ℕ)
    → validate_payout_function (back_and_forth a b c max_value payout) max_value ≡ ok tt
unfolding validate_payout_function get_first_point get_last_point
validate-back_and_forth a b c max_value payout =
    rw (continuous-back_and_forth a b c max_value payout, same_eq max_value) refl

module _ (floats : Floats) (intervals : RoundingIntervals) (a b c max_value payout total : ℕ) where
  -- The range that is begun by the first piece.
  abbrev covered : ℕ → ℕ → RangePayout
  covered first count = record (one_payout total 0 first) { count = count }

  begun :
      (first : ℕ)
      → get_rounded_payout floats
          (piece_of (point 0 payout ∷ point b payout ∷ []))
          0
          intervals
          total
        ≡ ok first
      → get_cur_range floats intervals total (piece_of (point 0 payout ∷ point b payout ∷ [])) []
        ≡ ok (one_payout total 0 first)
  unfolding get_cur_range get_first_outcome get_first_point
  begun first h = ap (λ m. m >>= λ p. ok (one_payout total 0 p)) h

  back_and_forth_first :
      (first : ℕ)
      → get_rounded_payout floats
          (piece_of (point 0 payout ∷ point b payout ∷ []))
          0
          intervals
          total
        ≡ ok first
      → b + 1 < u64_mod
      → piece_range_payouts floats intervals total
          (piece_of (point 0 payout ∷ point b payout ∷ []))
          []
        ≡ ok (covered first (b + 1) ∷ [])
  unfolding piece_range_payouts polynomial_range_payouts constant_range_payouts
  back_and_forth_first first h l =
      let piece = piece_of (point 0 payout ∷ point b payout ∷ []) in
      let count : add64 1 (sub64 b 0) ≡ b + 1 = omega arith in
      ap
        (λ t.
          if t
          then constant_range_payouts floats intervals total piece (point 0 payout) (point b payout)
              []
          else compute_range_payouts floats intervals total piece [])
        (same_eq payout)
      ∙ ap
          (λ (m : Outcome Error RangePayout).
            m >>= λ cur. ok (record cur { count = add64 cur.count (sub64 b 0) } ∷ []))
          (begun first h)
      ∙ ap (λ n. ok (covered first n ∷ [])) count

  back_and_forth_second :
      (first n : ℕ)
      → a < b
      → b + 1 < u64_mod
      → piece_range_payouts floats intervals total
          (piece_of (point b payout ∷ point c payout ∷ point a payout ∷ []))
          (covered first n ∷ [])
        ≡ ok (covered first n ∷ [])
  unfolding piece_range_payouts polynomial_range_payouts compute_range_payouts get_cur_range
      get_first_outcome get_first_point get_last_outcome get_last_point range_loop
  back_and_forth_second first n h l =
      let rounds : range_end_of a - add64 b 1 ≡ 0 = ground arith in rw rounds refl

  back_and_forth_third :
      (first n : ℕ)
      → a ≤ max_value
      → n + (max_value - a) < u64_mod
      → max_value < u64_mod
      → piece_range_payouts floats intervals total
          (piece_of (point a payout ∷ point max_value payout ∷ []))
          (covered first n ∷ [])
        ≡ ok (covered first (n + (max_value - a)) ∷ [])
  unfolding piece_range_payouts polynomial_range_payouts constant_range_payouts get_cur_range
  back_and_forth_third first n h l m =
      let count : add64 n (sub64 max_value a) ≡ n + (max_value - a) = omega arith in
      rw (same_eq payout, count) refl

-- A payout function with one payout, whose second piece goes back from the outcome `b` to the lower
-- outcome `a`, is valid, and its one range has `b - a` outcomes more than there are: one for each up
-- to `max_value`, and `b - a` behind it. The function is rounded to `first` at 0, and the sum fits in
-- 64 bits.
pub to_range_payouts-back_and_forth :
    (floats : Floats) (intervals : RoundingIntervals) (a b c max_value payout total first : ℕ)
    → get_rounded_payout floats (piece_of (point 0 payout ∷ point b payout ∷ [])) 0 intervals total
      ≡ ok first
    → a < b
    → a ≤ max_value
    → max_value + 1 + (b - a) < u64_mod
    → (validate_payout_function (back_and_forth a b c max_value payout) max_value ≡ ok tt)
      × (to_range_payouts floats (back_and_forth a b c max_value payout) total intervals
          ≡ ok (record (one_payout total 0 first) { count = max_value + 1 + (b - a) } ∷ []))
unfolding to_range_payouts pieces_range_payouts
to_range_payouts-back_and_forth floats intervals a b c max_value payout total first g h l m =
    let count : b + 1 + (max_value - a) ≡ max_value + 1 + (b - a) = omega arith in
    (
      validate-back_and_forth a b c max_value payout,
      rw
          (
            back_and_forth_first floats intervals a b c max_value payout total first g
                (omega arith),
            back_and_forth_second floats intervals a b c max_value payout total first (b + 1) h
                (omega arith),
            back_and_forth_third floats intervals a b c max_value payout total first (b + 1) l
                (omega arith) (omega arith),
            count,
          )
          refl,
    )
