-- ===== src/PayoutCurve/Order.antt =====
-- Pieces in order, as `new` makes them: each goes on where the one before it ends.
use rust_dlc.Base.{
  ℕ, ◌≤◌, ◌<◌, ◌≡◌, refl, sym, ap, ◌∙◌, ltb, ◌==◌, ◌&&◌, Bool, true, false, not, Outcome, ok,
  require, unwrap, some, Bool-cases, inl, inr, List, [], ◌∷◌, All, get_elem?, arith, >>=-eq-ok,
}
use mathlib.Core.Path.{subst}
use rust_dlc.Contracts.Types.{Error, invalid_parameters}
use rust_dlc.PayoutCurve.{
  PayoutPoint, PayoutFunctionPiece, polynomial, hyperbola, last_of, point_eq, get_first_point,
  get_last_point, is_continuous, ascending_points, more_than_one, polynomial_new,
  PolynomialPayoutCurvePiece, HyperbolaPayoutCurvePiece,
}
use rust_dlc.PayoutCurve.Evaluate.{Floats, hyperbola_new}
use rust_dlc.PayoutCurve.Ranges.{get_first_outcome, get_last_outcome}
use rust_dlc.PayoutCurve.Tiling.{ok-injective}

-- What `new` makes sure of: the outcomes of the points ascend.
abbrev pub IsInOrder : PayoutFunctionPiece → Type 0
IsInOrder (polynomial p) =
    (more_than_one p.payout_points && ascending_points p.payout_points) ≡ true
IsInOrder (hyperbola h) = h.left_end_point.event_outcome < h.right_end_point.event_outcome

pub &&-split : (a b : Bool) → (a && b) ≡ true → (a ≡ true) × (b ≡ true)
&&-split true b h = (refl, h)
&&-split false b h = cc

last_of-ascending :
    (p : PayoutPoint) (points : List PayoutPoint)
    → ascending_points (p ∷ points) ≡ true
    → (q : PayoutPoint) × (last_of (p ∷ points) ≡ some q) × (p.event_outcome ≤ q.event_outcome)
last_of-ascending p [] h = (p, refl, omega arith)
last_of-ascending p (r ∷ points) h =
    let (less, rest) = &&-split (ltb p.event_outcome r.event_outcome) _ h in
    let (q, e, le) = last_of-ascending r points rest in (q, e, ground (arith, less, le))

-- A piece in order has end points, from left to right.
points-ends :
    (points : List PayoutPoint)
    → (more_than_one points && ascending_points points) ≡ true
    → (p q : PayoutPoint) × (◌≡◌ {A = Outcome Error PayoutPoint}
        (unwrap (get_elem? points 0))
        (ok p))
      × (◌≡◌ {A = Outcome Error PayoutPoint} (unwrap (last_of points)) (ok q))
      × (p.event_outcome ≤ q.event_outcome)
points-ends [] h = cc
points-ends (p ∷ []) h = cc
points-ends (p ∷ r ∷ points) h =
    let (q, e, le) = last_of-ascending p (r ∷ points) h in (p, q, refl, ap unwrap e, le)

ends :
    (piece : PayoutFunctionPiece)
    → IsInOrder piece
    → (p q : PayoutPoint) × (get_first_point piece ≡ ok p)
      × (get_last_point piece ≡ ok q)
      × (p.event_outcome ≤ q.event_outcome)
unfolding get_first_point get_last_point
ends (polynomial p) h = points-ends p.payout_points h
ends (hyperbola z) h = (z.left_end_point, z.right_end_point, refl, refl, omega arith)

pub require-true : (c : Bool) (e : Error) → require c e ≡ ok tt → c ≡ true
require-true true e h = refl
require-true false e h = cc

point_eq-event_outcome :
    (p q : PayoutPoint) → point_eq p q ≡ true → p.event_outcome ≡ q.event_outcome
point_eq-event_outcome p q h =
    let (same, _) = &&-split (p.event_outcome == q.event_outcome) _ h in ground (arith, same)

-- Each piece begins at the outcome where the one before it ends.
abbrev pub Chain : ℕ → List PayoutFunctionPiece → ℕ → Type 0
Chain f [] l = f ≡ l
Chain f (piece ∷ pieces) l =
    (m : ℕ) × (get_first_outcome piece ≡ ok f)
    × (get_last_outcome piece ≡ ok m)
    × (f ≤ m)
    × Chain m pieces l

pub Chain-≤ : (f l : ℕ) (pieces : List PayoutFunctionPiece) → Chain f pieces l → f ≤ l
Chain-≤ f l [] c = omega arith
Chain-≤ f l (piece ∷ pieces) (m, _, _, le, c) =
    let further = Chain-≤ m l pieces c in omega (arith, le, further)

pub is_continuous-Chain :
    (piece : PayoutFunctionPiece) (pieces : List PayoutFunctionPiece)
    → All IsInOrder (piece ∷ pieces)
    → is_continuous (piece ∷ pieces) ≡ ok true
    → (p q : PayoutPoint) × (z : PayoutFunctionPiece) × (get_first_point piece ≡ ok p)
      × (last_of (piece ∷ pieces) ≡ some z)
      × (get_last_point z ≡ ok q)
      × Chain p.event_outcome (piece ∷ pieces) q.event_outcome
unfolding is_continuous get_first_outcome get_last_outcome
is_continuous-Chain piece [] (o, _) h =
    let (p, q, a, b, le) = ends piece o in
    (p, q, piece, a, refl, b, (q.event_outcome, rw a, rw b, le, refl))
is_continuous-Chain piece (next ∷ pieces) (o, os) h =
    let (p, m, a, b, le) = ends piece o in
    let (last, b', h1) = >>=-eq-ok (get_last_point piece) _ h in
    let (first, g, h2) = >>=-eq-ok (get_first_point next) _ h1 in
    elim (Bool-cases (point_eq last first)) [
      | inl same ↦
          let (n, q, z, c, d, e, chain) = is_continuous-Chain next pieces os (rw same at h2) in
          let joined : m.event_outcome ≡ n.event_outcome =
            ap (λ (x : PayoutPoint). x.event_outcome) (ok-injective (sym b ∙ b'))
            ∙ point_eq-event_outcome last first same
            ∙ ap (λ (x : PayoutPoint). x.event_outcome) (ok-injective (sym g ∙ c)) in
          (
            p,
            q,
            z,
            a,
            d,
            e,
            (
              m.event_outcome,
              rw a,
              rw b,
              le,
              subst (λ f. Chain f (next ∷ pieces) q.event_outcome) (sym joined) chain,
            ),
          )
      | inr other ↦ cc (rw other at h2)
    ]

polynomial_new-IsInOrder :
    (points : List PayoutPoint) (p : PolynomialPayoutCurvePiece)
    → polynomial_new points ≡ ok p
    → IsInOrder (polynomial p)
unfolding polynomial_new
polynomial_new-IsInOrder points p h =
    let (_, e, k) =
      >>=-eq-ok (require (more_than_one points && ascending_points points) invalid_parameters) _
        h in
    let same : record { payout_points = points } ≡ p = ok-injective k in
    subst (λ q. IsInOrder (polynomial q)) same (require-true _ _ e)

hyperbola_new-IsInOrder :
    (floats : Floats) (l r : PayoutPoint) (positive : Bool) (x y a b c d : ℕ)
    (h : HyperbolaPayoutCurvePiece)
    → hyperbola_new floats l r positive x y a b c d ≡ ok h
    → IsInOrder (hyperbola h)
unfolding hyperbola_new
hyperbola_new-IsInOrder floats l r positive x y a b c d h e =
    let (_, _, e1) =
      >>=-eq-ok (require (not (floats.equal (floats.mul a d) (floats.mul b c))) invalid_parameters)
        _ e in
    let (_, g, e2) =
      >>=-eq-ok (require (ltb l.event_outcome r.event_outcome) invalid_parameters) _ e1 in
    let less = require-true _ _ g in
    let in_order : l.event_outcome < r.event_outcome = ground (arith, less) in
    subst (λ q. IsInOrder (hyperbola q)) (ok-injective e2) in_order
