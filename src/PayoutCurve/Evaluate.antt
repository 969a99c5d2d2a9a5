-- ===== src/PayoutCurve/Evaluate.antt =====
-- dlc-manager/src/payout_curve.rs: the payout of an outcome. The arithmetic of `f64` and the binary
-- search of the standard library are parameters.
use rust_dlc.Base.{
  ℕ, suc, ◌-◌, ◌^◌, min, ltb, ◌==◌, ◌||◌, ◌&&◌, not, Bool, true, if◌then◌else◌, ◌⊎◌, inl, inr,
  Outcome, ok, err, panic, ◌>>=◌, ◌>>◌, require, unwrap, List, [], ◌∷◌, get_elem?, map,
}
use rust_dlc.Dlc.Types.{sub64}
use rust_dlc.Contracts.Types.{Error, invalid_parameters}
use rust_dlc.PayoutCurve.{
  PayoutPoint, HyperbolaPayoutCurvePiece, PayoutFunctionPiece, polynomial, hyperbola,
}

pub record RoundingInterval : Type 0 where
  pub begin_interval : ℕ
  pub rounding_mod : ℕ

pub record RoundingIntervals : Type 0 where
  pub intervals : List RoundingInterval

-- A number of type `f64` is the number of its bits. `binary_search` gives the index at which a value
-- stands (`Ok`, on the left) or could be inserted (`Err`, on the right).
pub record Floats : Type 0 where
  pub of_u64 : ℕ → ℕ
  pub to_u64 : ℕ → ℕ
  pub add : ℕ → ℕ → ℕ
  pub sub : ℕ → ℕ → ℕ
  pub mul : ℕ → ℕ → ℕ
  pub div : ℕ → ℕ → ℕ
  pub rem : ℕ → ℕ → ℕ
  pub neg : ℕ → ℕ
  pub sqrt : ℕ → ℕ
  pub square : ℕ → ℕ
  pub round : ℕ → ℕ
  pub is_sign_negative : ℕ → Bool
  pub is_normal : ℕ → Bool
  pub equal : ℕ → ℕ → Bool
  pub greater : ℕ → ℕ → Bool
  pub at_least : ℕ → ℕ → Bool
  pub binary_search : List ℕ → ℕ → ℕ ⊎ ℕ

abbrev pub increasing_from : ℕ → List RoundingInterval → Bool
increasing_from cur [] = true
increasing_from cur (x ∷ rest) = ltb cur x.begin_interval && increasing_from x.begin_interval rest

unfoldable pub validate_intervals : RoundingIntervals → Outcome Error (Unit {0})
validate_intervals r = elim r.intervals [
  | [] ↦ err invalid_parameters
  | x ∷ rest ↦ do
    require (x.begin_interval == 0) invalid_parameters
    require (increasing_from x.begin_interval rest) invalid_parameters
]

module _ (floats : Floats) where
  open floats use {
    of_u64, to_u64, add, sub, mul, div, rem, neg, sqrt, square, round, is_sign_negative, is_normal,
    equal, greater, at_least, binary_search,
  }

  unfoldable pub hyperbola_new :
      (left_end_point right_end_point : PayoutPoint)
      → Bool
      → (translate_outcome translate_payout a b c d : ℕ) → Outcome Error HyperbolaPayoutCurvePiece
  hyperbola_new left_end_point right_end_point use_positive_piece translate_outcome translate_payout
        a b c d =
      do
        require (not (equal (mul a d) (mul b c))) invalid_parameters
        require (ltb left_end_point.event_outcome right_end_point.event_outcome) invalid_parameters
        ok (record {
          left_end_point = left_end_point;
          right_end_point = right_end_point;
          use_positive_piece = use_positive_piece;
          translate_outcome = translate_outcome;
          translate_payout = translate_payout;
          a = a;
          b = b;
          c = c;
          d = d;
        })

  unfoldable pub get_outcome_payout : PayoutPoint → ℕ
  get_outcome_payout p =
      add (of_u64 p.outcome_payout) (div (of_u64 p.extra_precision) (of_u64 (2 ^ 16)))

  -- The inner loop, over the points from the index `j` on.
  unfoldable pub lagrange_term : ℕ → ℕ → ℕ → ℕ → ℕ → List PayoutPoint → ℕ
  lagrange_term i i_outcome outcome l j [] = l
  lagrange_term i i_outcome outcome l j (p ∷ points) =
      let j_outcome = of_u64 p.event_outcome in
      lagrange_term i i_outcome outcome
        (if i == j then l else mul l (div (sub outcome j_outcome) (sub i_outcome j_outcome)))
        (suc j) points

  -- The outer loop, from the index `i` on, over `all` the points.
  unfoldable pub lagrange_sum : List PayoutPoint → ℕ → ℕ → ℕ → List PayoutPoint → ℕ
  unfolding lagrange_term get_outcome_payout
  lagrange_sum all outcome result i [] = result
  lagrange_sum all outcome result i (p ∷ points) =
      lagrange_sum all outcome
        (add result (lagrange_term i (of_u64 p.event_outcome) outcome (get_outcome_payout p) 0 all))
        (suc i) points

  -- The case of two points.
  unfoldable pub evaluate_line : PayoutPoint → PayoutPoint → ℕ → ℕ
  evaluate_line left_point right_point outcome =
      if left_point.outcome_payout == right_point.outcome_payout
      then of_u64 right_point.outcome_payout
      else let slope =
          div (sub (of_u64 right_point.outcome_payout) (of_u64 left_point.outcome_payout))
            (of_u64 (sub64 right_point.event_outcome left_point.event_outcome)) in
        add (mul (of_u64 (sub64 outcome left_point.event_outcome)) slope)
          (of_u64 left_point.outcome_payout)

  unfoldable pub evaluate_polynomial : List PayoutPoint → ℕ → ℕ
  unfolding lagrange_sum evaluate_line
  evaluate_polynomial (p ∷ q ∷ []) outcome = evaluate_line p q outcome
  evaluate_polynomial points outcome = lagrange_sum points (of_u64 outcome) (of_u64 0) 0 points

  unfoldable pub evaluate_hyperbola : HyperbolaPayoutCurvePiece → ℕ → ℕ
  evaluate_hyperbola h outcome =
      let translated_outcome = sub (of_u64 outcome) h.translate_outcome in
      let sqrt_term_abs_val =
        sqrt (sub (square translated_outcome) (mul (mul (of_u64 4) h.a) h.b)) in
      let sqrt_term = if h.use_positive_piece then sqrt_term_abs_val else neg sqrt_term_abs_val in
      let first_term = div (mul h.c (add translated_outcome sqrt_term)) (mul (of_u64 2) h.a) in
      let second_term = div (mul (mul (of_u64 2) h.a) h.d) (add translated_outcome sqrt_term) in
      add (add first_term second_term) h.translate_payout

  unfoldable pub evaluate : PayoutFunctionPiece → ℕ → ℕ
  unfolding evaluate_polynomial evaluate_hyperbola
  evaluate (polynomial p) outcome = evaluate_polynomial p.payout_points outcome
  evaluate (hyperbola h) outcome = evaluate_hyperbola h outcome

  -- The interval of an outcome: the one that begins at it, or the one before where it would stand.
  unfoldable pub rounding_mod_of : RoundingIntervals → ℕ → Outcome Error ℕ
  rounding_mod_of r outcome =
      elim (binary_search (map (λ x. x.begin_interval) r.intervals) outcome) [
        | inl index ↦ do x ← unwrap (get_elem? r.intervals index); ok x.rounding_mod
        | inr index ↦
            if index == 0
            then panic
            else do x ← unwrap (get_elem? r.intervals (index - 1)); ok x.rounding_mod
      ]

  unfoldable pub round_payout : RoundingIntervals → ℕ → ℕ → Outcome Error ℕ
  unfolding rounding_mod_of
  round_payout r outcome payout = do
    modulus ← rounding_mod_of r outcome
    let rounding_mod = of_u64 modulus
    let m =
        if at_least payout (of_u64 0)
        then rem payout rounding_mod
        else add (rem payout rounding_mod) rounding_mod
    ok (
        if at_least m (div rounding_mod (of_u64 2))
        then to_u64 (round (sub (add payout rounding_mod) m))
        else to_u64 (round (sub payout m)))

  -- The two checks of `get_rounded_payout` on the value of the function.
  unfoldable pub check_payout : ℕ → ℕ → Outcome Error (Unit {0})
  check_payout payout_double total_collateral = do
    require
        (not (
          is_sign_negative payout_double
          || (not (equal payout_double (of_u64 0)) && not (is_normal payout_double))))
        invalid_parameters
    require (not (greater (round payout_double) (of_u64 total_collateral))) invalid_parameters

  unfoldable pub get_rounded_payout :
      PayoutFunctionPiece → ℕ → RoundingIntervals → ℕ → Outcome Error ℕ
  unfolding evaluate round_payout check_payout
  get_rounded_payout piece outcome rounding_intervals total_collateral = do
    let payout_double = evaluate piece outcome
    check_payout payout_double total_collateral
    rounded ← round_payout rounding_intervals outcome payout_double
    ok (min rounded total_collateral)
