-- ===== src/PayoutCurve/Coverage.antt =====
-- A valid payout function has a payout for every outcome, and each shares out the collateral.
use rust_dlc.Base.{
  ℕ, suc, ◌+◌, ◌≤◌, ◌<◌, ◌≡◌, refl, sym, ap, ◌∙◌, ◌==◌, ok, require, unwrap, unwrap-some, List, [],
  ◌∷◌, All, arith, >>=-eq-ok,
}
use mathlib.Core.Path.{subst}
use rust_dlc.Dlc.Types.{RangePayout, u64_mod}
use rust_dlc.Digits.Pad.{Tiles}
use rust_dlc.Contracts.Types.{invalid_parameters}
use rust_dlc.PayoutCurve.{
  PayoutPoint, PayoutFunctionPiece, PayoutFunction, last_of, get_first_point, get_last_point,
  is_continuous, validate_payout_function,
}
use rust_dlc.PayoutCurve.Evaluate.{Floats, RoundingIntervals}
use rust_dlc.PayoutCurve.Ranges.{pieces_range_payouts, piece_range_payouts, to_range_payouts}
use rust_dlc.PayoutCurve.Tiling.{ok-injective, Shares, Begun, piece-Tiles}
use rust_dlc.PayoutCurve.Order.{
  IsInOrder, &&-split, require-true, Chain, Chain-≤, is_continuous-Chain,
}

-- After a piece, the next one goes on.
Tiles-Begun : (s l : ℕ) (r : List RangePayout) → s ≤ l → Tiles s r (suc l) → Begun s l r
Tiles-Begun s l [] le t = omega arith
Tiles-Begun s l (x ∷ xs) le t = t

module _ (floats : Floats) (intervals : RoundingIntervals) (total : ℕ)
    (small : total < u64_mod) where
  pieces-Tiles :
      (pieces : List PayoutFunctionPiece) (s f l : ℕ) (xs r : List RangePayout)
      → Chain f pieces l
      → suc l < u64_mod
      → s ≤ f
      → Tiles s xs (suc f)
      → All (Shares total) xs
      → pieces_range_payouts floats intervals total pieces xs ≡ ok r
      → Tiles s r (suc l) × All (Shares total) r
  unfolding pieces_range_payouts
  pieces-Tiles [] s f l xs r c b le t a h =
      let same : xs ≡ r = ok-injective h in
      subst (λ ys. Tiles s ys (suc l) × All (Shares total) ys) same
        (subst (λ m. Tiles s xs (suc m)) c t, a)
  pieces-Tiles (piece ∷ pieces) s f l xs r (m, g, k, fm, c) b le t a h =
      let far = Chain-≤ m l pieces c in
      let (ys, e, h1) = >>=-eq-ok (piece_range_payouts floats intervals total piece xs) _ h in
      let (u, v) =
        piece-Tiles floats intervals total small piece f m s xs ys g k fm (omega arith)
          (Tiles-Begun s f xs le t) a e in
      pieces-Tiles pieces s m l ys r c b (omega arith) u v h1

  -- The first piece begins the list.
  joined-Tiles :
      (piece : PayoutFunctionPiece) (pieces : List PayoutFunctionPiece) (f l : ℕ)
      (r : List RangePayout)
      → Chain f (piece ∷ pieces) l
      → suc l < u64_mod
      → pieces_range_payouts floats intervals total (piece ∷ pieces) [] ≡ ok r
      → Tiles f r (suc l) × All (Shares total) r
  unfolding pieces_range_payouts
  joined-Tiles piece pieces f l r (m, g, k, fm, c) b h =
      let far = Chain-≤ m l pieces c in
      let (ys, e, h1) = >>=-eq-ok (piece_range_payouts floats intervals total piece []) _ h in
      let (u, v) =
        piece-Tiles floats intervals total small piece f m f [] ys g k fm (omega arith) refl tt e in
      pieces-Tiles pieces f m l ys r c b fm u v h1

valid-Tiles :
    (floats : Floats) (intervals : RoundingIntervals) (pieces : List PayoutFunctionPiece)
    (total max_value : ℕ) (ranges : List RangePayout)
    → total < u64_mod
    → max_value + 1 < u64_mod
    → All IsInOrder pieces
    → validate_payout_function (record { payout_function_pieces = pieces }) max_value ≡ ok tt
    → pieces_range_payouts floats intervals total pieces [] ≡ ok ranges
    → Tiles 0 ranges (max_value + 1) × All (Shares total) ranges
unfolding validate_payout_function
valid-Tiles floats intervals [] total max_value ranges small b o v h = cc
valid-Tiles floats intervals (piece ∷ pieces) total max_value ranges small b o v h =
    let (c, k, v1) = >>=-eq-ok (is_continuous (piece ∷ pieces)) _ v in
    let (_, k1, v2) = >>=-eq-ok (require c invalid_parameters) _ v1 in
    let (p', g', v3) = >>=-eq-ok (get_first_point piece) _ v2 in
    let (z', e', v4) = >>=-eq-ok (unwrap (last_of (piece ∷ pieces))) _ v3 in
    let (q', b', v5) = >>=-eq-ok (get_last_point z') _ v4 in
    let (first, last) = &&-split (p'.event_outcome == 0) _ (require-true _ _ v5) in
    let (p, q, z, g, e, d, chain) =
      is_continuous-Chain piece pieces o (k ∙ ap ok (require-true c _ k1)) in
    let same : z' ≡ z = cc (unwrap-some (last_of (piece ∷ pieces)) e') in
    let start : p.event_outcome ≡ 0 =
      ap (λ (x : PayoutPoint). x.event_outcome) (ok-injective (sym g ∙ g'))
      ∙ ground (arith, first) in
    let end : q.event_outcome ≡ max_value =
      ap (λ (x : PayoutPoint). x.event_outcome)
        (ok-injective (sym d ∙ sym (ap get_last_point same) ∙ b'))
      ∙ ground (arith, last) in
    let chain' : Chain 0 (piece ∷ pieces) max_value =
      subst (λ n. Chain n (piece ∷ pieces) max_value) start
        (subst (λ n. Chain p.event_outcome (piece ∷ pieces) n) end chain) in
    subst (λ n. Tiles 0 ranges n × All (Shares total) ranges) (omega arith)
      (joined-Tiles floats intervals total small piece pieces 0 max_value ranges chain'
        (omega arith) h)

-- A function that is valid for the outcomes up to `max_value`, all of whose pieces are in order: when
-- the ranges are computed without an error, they follow each other from 0 and end behind `max_value`,
-- and in each the two payouts add up to the collateral. The collateral and the number of the
-- outcomes fit in 64 bits.
pub to_range_payouts-Tiles :
    (floats : Floats) (intervals : RoundingIntervals) (function : PayoutFunction)
    (total max_value : ℕ) (ranges : List RangePayout)
    → total < u64_mod
    → max_value + 1 < u64_mod
    → All IsInOrder function.payout_function_pieces
    → validate_payout_function function max_value ≡ ok tt
    → to_range_payouts floats function total intervals ≡ ok ranges
    → Tiles 0 ranges (max_value + 1) × All (Shares total) ranges
unfolding to_range_payouts validate_payout_function
to_range_payouts-Tiles floats intervals function total max_value ranges small b o v h =
    valid-Tiles floats intervals function.payout_function_pieces total max_value ranges small b o v
      h
