-- ===== src/PayoutCurve.antt =====
-- dlc-manager/src/payout_curve.rs: a payout function made of pieces, and when it is valid.
pub mod Evaluate
pub mod Ranges
mod Tiling
pub mod Order
pub mod Coverage
pub mod Descending
mod Tests
use rust_dlc.Base.{
  ℕ, ltb, ◌==◌, ◌&&◌, not, Bool, true, false, if◌then◌else◌, Outcome, ok, err, panic, ◌>>=◌, ◌>>◌,
  require, unwrap, Option, none, some, List, [], ◌∷◌, get_elem?,
}
use rust_dlc.Contracts.Types.{Error, invalid_parameters}

pub record PayoutPoint : Type 0 where
  pub event_outcome : ℕ
  pub outcome_payout : ℕ
  pub extra_precision : ℕ

pub record PolynomialPayoutCurvePiece : Type 0 where
  pub payout_points : List PayoutPoint

-- An `f64` is the number of its bits.
pub record HyperbolaPayoutCurvePiece : Type 0 where
  pub left_end_point : PayoutPoint
  pub right_end_point : PayoutPoint
  pub use_positive_piece : Bool
  pub translate_outcome : ℕ
  pub translate_payout : ℕ
  pub a : ℕ
  pub b : ℕ
  pub c : ℕ
  pub d : ℕ

pub data PayoutFunctionPiece : Type 0 where
  polynomial : PolynomialPayoutCurvePiece → PayoutFunctionPiece
  hyperbola : HyperbolaPayoutCurvePiece → PayoutFunctionPiece

pub record PayoutFunction : Type 0 where
  pub payout_function_pieces : List PayoutFunctionPiece

abbrev pub last_of : {A : Type 0} → List A → Option A
last_of [] = none
last_of (x ∷ []) = some x
last_of (x ∷ y ∷ list) = last_of (y ∷ list)

-- The equality that is derived.
abbrev pub point_eq : PayoutPoint → PayoutPoint → Bool
point_eq p q =
    p.event_outcome == q.event_outcome
    && (p.outcome_payout == q.outcome_payout && p.extra_precision == q.extra_precision)

unfoldable pub get_first_point : PayoutFunctionPiece → Outcome Error PayoutPoint
get_first_point (polynomial p) = unwrap (get_elem? p.payout_points 0)
get_first_point (hyperbola h) = ok h.left_end_point

unfoldable pub get_last_point : PayoutFunctionPiece → Outcome Error PayoutPoint
get_last_point (polynomial p) = unwrap (last_of p.payout_points)
get_last_point (hyperbola h) = ok h.right_end_point

-- A piece with no point panics; the pieces behind two that differ are not read.
unfoldable pub is_continuous : List PayoutFunctionPiece → Outcome Error Bool
unfolding get_first_point get_last_point
is_continuous [] = ok true
is_continuous (cur ∷ []) = ok true
is_continuous (cur ∷ next ∷ pieces) = do
  last ← get_last_point cur
  first ← get_first_point next
  elim (point_eq last first) [ true ↦ is_continuous (next ∷ pieces) | false ↦ ok false ]

abbrev pub is_empty_list : {A : Type 0} → List A → Bool
is_empty_list [] = true
is_empty_list (x ∷ list) = false

unfoldable pub payout_function_new : List PayoutFunctionPiece → Outcome Error PayoutFunction
unfolding is_continuous
payout_function_new pieces = if is_empty_list pieces then err invalid_parameters else do
  continuous ← is_continuous pieces
  require continuous invalid_parameters
  ok (record { payout_function_pieces = pieces })

unfoldable pub validate_payout_function : PayoutFunction → ℕ → Outcome Error (Unit {0})
unfolding is_continuous get_first_point get_last_point
validate_payout_function function max_value = do
  continuous ← is_continuous function.payout_function_pieces
  require continuous invalid_parameters
  first ← unwrap (get_elem? function.payout_function_pieces 0)
  first_point ← get_first_point first
  last ← unwrap (last_of function.payout_function_pieces)
  last_point ← get_last_point last
  require (first_point.event_outcome == 0 && last_point.event_outcome == max_value)
      invalid_parameters

-- Each point has a greater outcome than the one before.
abbrev pub ascending_points : List PayoutPoint → Bool
ascending_points [] = true
ascending_points (p ∷ []) = true
ascending_points (p ∷ q ∷ points) =
    ltb p.event_outcome q.event_outcome && ascending_points (q ∷ points)

abbrev pub more_than_one : List PayoutPoint → Bool
more_than_one (p ∷ q ∷ points) = true
more_than_one _ = false

unfoldable pub polynomial_new : List PayoutPoint → Outcome Error PolynomialPayoutCurvePiece
polynomial_new payout_points = do
  require (more_than_one payout_points && ascending_points payout_points) invalid_parameters
  ok (record { payout_points = payout_points })
