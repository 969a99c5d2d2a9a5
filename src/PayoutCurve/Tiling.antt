-- ===== src/PayoutCurve/Tiling.antt =====
-- The ranges of a piece go on from those of the piece before it.
use rust_dlc.Base.{
  ℕ, suc, zero, ◌+◌, ◌-◌, ◌≤◌, ◌<◌, ◌≡◌, refl, sym, ap, ◌∙◌, ltb, ◌==◌, Bool-cases, inl, inr, min,
  not, Outcome, ok, require, none, some, Option-cases, List, [], ◌∷◌, ◌++◌, All, All-append, arith,
  >>=-eq-ok,
}
use mathlib.Core.Path.{subst}
use mathlib.Core.Option.{some-injective}
use rust_dlc.Dlc.Types.{RangePayout, add64, sub64, u64_mod}
use rust_dlc.Digits.Pad.{Tiles}
use rust_dlc.Contracts.Types.{Error, invalid_parameters}
use rust_dlc.PayoutCurve.{PayoutPoint, PayoutFunctionPiece, polynomial, hyperbola, last_of}
use rust_dlc.PayoutCurve.Evaluate.{
  Floats, RoundingIntervals, get_rounded_payout, check_payout, evaluate, round_payout,
}
use rust_dlc.PayoutCurve.Ranges.{
  without_last, one_payout, get_first_outcome, get_last_outcome, range_end_of, get_cur_range,
  range_loop, compute_range_payouts, constant_range_payouts, polynomial_range_payouts,
  piece_range_payouts,
}

-- The two parties share the collateral.
abbrev pub Shares : ℕ → RangePayout → Type 0
Shares total x = x.payout.offer + x.payout.accept ≡ total

Tiles-snoc :
    (s : ℕ) (xs : List RangePayout) (x : RangePayout)
    → Tiles s xs x.start
    → Tiles s (xs ++ x ∷ []) (x.start + x.count)
Tiles-snoc s [] x h = (sym h, ap (λ n. n + x.count) h)
Tiles-snoc s (y ∷ xs) x (h, hs) = (h, Tiles-snoc (s + y.count) xs x hs)

Tiles-last :
    (s e : ℕ) (xs : List RangePayout) (x : RangePayout)
    → last_of xs ≡ some x
    → Tiles s xs e
    → Tiles s (without_last xs) x.start × (x.start + x.count ≡ e)
Tiles-last s e [] x h t = cc
Tiles-last s e (y ∷ []) x h (a, b) =
    let q : y ≡ x = some-injective _ _ h in
    (
      subst (λ (z : RangePayout). s ≡ z.start) q (sym a),
      subst (λ (z : RangePayout). z.start + z.count ≡ e) q (omega (arith, a, b)),
    )
Tiles-last s e (y ∷ z ∷ xs) x h (a, b) =
    let (t, r) = Tiles-last (s + y.count) e (z ∷ xs) x h b in ((a, t), r)

All-last {ℓ} :
    {A : Type 0} (P : A → Type ℓ) (xs : List A) (x : A)
    → last_of xs ≡ some x
    → All P xs
    → P x × All P (without_last xs)
All-last P [] x h a = cc
All-last P (y ∷ []) x h (a, _) = (subst P (some-injective _ _ h) a, tt)
All-last P (y ∷ z ∷ xs) x h (a, b) = let (p, r) = All-last P (z ∷ xs) x h b in (p, (a, r))

last_of-none : {A : Type 0} (xs : List A) → last_of xs ≡ none → xs ≡ []
last_of-none [] h = refl
last_of-none (x ∷ []) h = cc
last_of-none (x ∷ y ∷ xs) h = absurd (cc (last_of-none (y ∷ xs) h))

pub ok-injective : {A : Type 0} {a b : A} → ◌≡◌ {A = Outcome Error A} (ok a) (ok b) → a ≡ b
ok-injective h = cc

-- The ranges so far: none at the first outcome, or ranges up to the outcome `f`.
abbrev pub Begun : ℕ → ℕ → List RangePayout → Type 0
Begun s f [] = s ≡ f
Begun s f (x ∷ xs) = Tiles s (x ∷ xs) (suc f)

module _ (floats : Floats) (intervals : RoundingIntervals) (total : ℕ)
    (small : total < u64_mod) where
  rounded-le :
      (piece : PayoutFunctionPiece) (outcome p : ℕ)
      → get_rounded_payout floats piece outcome intervals total ≡ ok p
      → p ≤ total
  unfolding get_rounded_payout
  rounded-le piece outcome p h =
      let double = evaluate floats piece outcome in
      let (_, _, h1) = >>=-eq-ok (check_payout floats double total) _ h in
      let (r, _, h2) = >>=-eq-ok (round_payout floats intervals outcome double) _ h1 in
      let q : min r total ≡ p = cc in
      let m : min r total ≤ total = omega arith in subst (λ z. z ≤ total) q m

  one_payout-Shares : (outcome p : ℕ) → p ≤ total → Shares total (one_payout total outcome p)
  one_payout-Shares outcome p h = omega arith

  range_loop-Tiles :
      (piece : PayoutFunctionPiece) (rounds outcome s : ℕ) (cur : RangePayout)
      (xs r : List RangePayout)
      → outcome + rounds < u64_mod
      → Tiles s xs cur.start
      → cur.start + cur.count ≡ outcome
      → Shares total cur
      → All (Shares total) xs
      → range_loop floats intervals total piece rounds outcome cur xs ≡ ok r
      → Tiles s r (outcome + rounds) × All (Shares total) r
  unfolding range_loop
  range_loop-Tiles piece zero outcome s cur xs r b t e c a h =
      let q : xs ++ cur ∷ [] ≡ r = cc in
      (
        subst (λ l. Tiles s l (outcome + 0)) q
            (subst (λ m. Tiles s (xs ++ cur ∷ []) m) (omega (arith, e)) (Tiles-snoc s xs cur t)),
        subst (λ l. All (Shares total) l) q (All-append (Shares total) xs (cur ∷ []) a (c, tt)),
      )
  range_loop-Tiles piece (suc rounds) outcome s cur xs r b t e c a h =
      let (p, g, h1) = >>=-eq-ok (get_rounded_payout floats piece outcome intervals total) _ h in
      let (_, _, h2) = >>=-eq-ok (require (not (ltb total p)) invalid_parameters) _ h1 in
      let le = rounded-le piece outcome p g in
      let shift : suc outcome + rounds ≡ outcome + suc rounds = omega arith in
      elim (Bool-cases (cur.payout.offer == p)) [
        | inl same ↦
            let one : add64 cur.count 1 ≡ suc cur.count = omega arith in
            subst (λ m. Tiles s r m × All (Shares total) r) shift
              (range_loop-Tiles piece rounds (suc outcome) s
                (record cur { count = add64 cur.count 1 }) xs r (omega arith) t (omega (arith, one))
                c a (rw same at h2))
        | inr other ↦
            subst (λ m. Tiles s r m × All (Shares total) r) shift
              (range_loop-Tiles piece rounds (suc outcome) s (one_payout total outcome p)
                (xs ++ cur ∷ []) r (omega arith)
                (subst (λ m. Tiles s (xs ++ cur ∷ []) m) e (Tiles-snoc s xs cur t)) (omega arith)
                (one_payout-Shares outcome p le) (All-append (Shares total) xs (cur ∷ []) a (c, tt))
                (rw other at h2))
      ]

  cur_range-Tiles :
      (piece : PayoutFunctionPiece) (f s : ℕ) (xs : List RangePayout) (cur : RangePayout)
      → get_first_outcome piece ≡ ok f
      → Begun s f xs
      → All (Shares total) xs
      → get_cur_range floats intervals total piece xs ≡ ok cur
      → Tiles s (without_last xs) cur.start
        × (cur.start + cur.count ≡ suc f)
        × Shares total cur
        × All (Shares total) (without_last xs)
  unfolding get_cur_range
  cur_range-Tiles piece f s [] cur g t a h =
      let (f', g', h1) = >>=-eq-ok (get_first_outcome piece) _ h in
      let same : f' ≡ f = cc in
      let (p, k, h2) = >>=-eq-ok (get_rounded_payout floats piece f' intervals total) _ h1 in
      let q : one_payout total f' p ≡ cur = cc in
      subst
        (λ (c : RangePayout).
          (s ≡ c.start) × (c.start + c.count ≡ suc f) × Shares total c × Unit {0})
        q (t ∙ sym same, omega (arith, same), one_payout-Shares f' p (rounded-le piece f' p k), tt)
  cur_range-Tiles piece f s (x ∷ xs) cur g t a h = elim (Option-cases (last_of (x ∷ xs))) [
    | inl e ↦ absurd (cc (last_of-none (x ∷ xs) e))
    | inr (y, e) ↦
        let q : y ≡ cur = cc (rw (e, get_cur_range) at h) in
        let e' = e ∙ ap some q in
        let (u, v) = Tiles-last s (suc f) (x ∷ xs) cur e' t in
        let (c, d) = All-last (Shares total) (x ∷ xs) cur e' a in (u, v, c, d)
  ]

  -- A piece that is tried outcome by outcome.
  computed-Tiles :
      (piece : PayoutFunctionPiece) (f l s : ℕ) (xs r : List RangePayout)
      → get_first_outcome piece ≡ ok f
      → get_last_outcome piece ≡ ok l
      → f ≤ l
      → suc l < u64_mod
      → Begun s f xs
      → All (Shares total) xs
      → compute_range_payouts floats intervals total piece xs ≡ ok r
      → Tiles s r (suc l) × All (Shares total) r
  unfolding compute_range_payouts
  computed-Tiles piece f l s xs r g k o b t a h =
      let (f', g', h1) = >>=-eq-ok (get_first_outcome piece) _ h in
      let (cur, c, h2) = >>=-eq-ok (get_cur_range floats intervals total piece xs) _ h1 in
      let (l', k', h3) = >>=-eq-ok (get_last_outcome piece) _ h2 in
      let same : f' ≡ f = cc in
      let last : l' ≡ l = cc in
      let (u, v, w, x) = cur_range-Tiles piece f s xs cur g t a c in
      let start : add64 f' 1 ≡ suc f = omega (arith, same) in
      let rounds : range_end_of l' - add64 f' 1 ≡ l - f = ground arith in
      subst (λ m. Tiles s r m × All (Shares total) r) (omega (arith, start))
        (range_loop-Tiles piece (l - f) (suc f) s cur (without_last xs) r (omega arith) u v w x
          (rw (rounds, start) at h3))

  -- A constant piece.
  constant-Tiles :
      (piece : PayoutFunctionPiece) (p q : PayoutPoint) (s : ℕ) (xs r : List RangePayout)
      → get_first_outcome piece ≡ ok p.event_outcome
      → p.event_outcome ≤ q.event_outcome
      → suc q.event_outcome < u64_mod
      → Begun s p.event_outcome xs
      → All (Shares total) xs
      → constant_range_payouts floats intervals total piece p q xs ≡ ok r
      → Tiles s r (suc q.event_outcome) × All (Shares total) r
  unfolding constant_range_payouts
  constant-Tiles piece p q s xs r g o b t a h =
      let (cur, c, h1) = >>=-eq-ok (get_cur_range floats intervals total piece xs) _ h in
      let (u, v, w, x) = cur_range-Tiles piece p.event_outcome s xs cur g t a c in
      let count : add64 cur.count (sub64 q.event_outcome p.event_outcome)
          ≡ cur.count + (q.event_outcome - p.event_outcome) =
        omega arith in
      let longer : RangePayout = record cur {
        count = add64 cur.count (sub64 q.event_outcome p.event_outcome);
      } in
      let same : without_last xs ++ longer ∷ [] ≡ r = cc in
      subst (λ l. Tiles s l (suc q.event_outcome) × All (Shares total) l) same
        (
          subst (λ m. Tiles s (without_last xs ++ longer ∷ []) m) (omega (arith, v, count))
              (Tiles-snoc s (without_last xs) longer u),
          All-append (Shares total) (without_last xs) (longer ∷ []) x (w, tt),
        )

  polynomial-Tiles :
      (points : List PayoutPoint) (piece : PayoutFunctionPiece) (f l s : ℕ)
      (xs r : List RangePayout)
      → get_first_outcome piece ≡ ok f
      → get_last_outcome piece ≡ ok l
      → piece ≡ polynomial (record { payout_points = points })
      → f ≤ l
      → suc l < u64_mod
      → Begun s f xs
      → All (Shares total) xs
      → polynomial_range_payouts floats intervals total points piece xs ≡ ok r
      → Tiles s r (suc l) × All (Shares total) r
  unfolding polynomial_range_payouts get_first_outcome get_last_outcome
  polynomial-Tiles (p ∷ q ∷ []) piece f l s xs r g k e o b t a h =
      let first : p.event_outcome ≡ f = ok-injective (rw e at g) in
      let last : q.event_outcome ≡ l = ok-injective (rw e at k) in
      elim (Bool-cases (p.outcome_payout == q.outcome_payout)) [
        | inl same ↦
            subst (λ m. Tiles s r (suc m) × All (Shares total) r) last
              (constant-Tiles piece p q s xs r (g ∙ ap ok (sym first)) (omega arith) (omega arith)
                (subst (λ m. Begun s m xs) (sym first) t) a (rw same at h))
        | inr other ↦ computed-Tiles piece f l s xs r g k o b t a (rw other at h)
      ]
  polynomial-Tiles [] piece f l s xs r g k e o b t a h =
      computed-Tiles piece f l s xs r g k o b t a h
  polynomial-Tiles (p ∷ []) piece f l s xs r g k e o b t a h =
      computed-Tiles piece f l s xs r g k o b t a h
  polynomial-Tiles (p ∷ q ∷ z ∷ ps) piece f l s xs r g k e o b t a h =
      computed-Tiles piece f l s xs r g k o b t a h

  pub piece-Tiles :
      (piece : PayoutFunctionPiece) (f l s : ℕ) (xs r : List RangePayout)
      → get_first_outcome piece ≡ ok f
      → get_last_outcome piece ≡ ok l
      → f ≤ l
      → suc l < u64_mod
      → Begun s f xs
      → All (Shares total) xs
      → piece_range_payouts floats intervals total piece xs ≡ ok r
      → Tiles s r (suc l) × All (Shares total) r
  unfolding piece_range_payouts
  piece-Tiles (polynomial p) f l s xs r g k o b t a h =
      polynomial-Tiles p.payout_points (polynomial p) f l s xs r g k refl o b t a h
  piece-Tiles (hyperbola z) f l s xs r g k o b t a h =
      computed-Tiles (hyperbola z) f l s xs r g k o b t a h
