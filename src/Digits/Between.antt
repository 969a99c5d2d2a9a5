-- ===== src/Digits/Between.antt =====
-- The three loops of `group_by_ignoring_digits` together: the prefixes for two numbers that begin
-- with other digits.
use rust_dlc.Base.{
  ℕ, suc, ◌+◌, ◌-◌, ◌*◌, ◌≤◌, ◌<◌, ◌≡◌, refl, ◌∙◌, List, [], ◌∷◌, ◌++◌, arith, length, All, ap, inr,
  ok,
}
use rust_dlc.Digits.{bottom, remove_tail, cover_between}
use rust_dlc.Digits.Value.{num, IsDigit, length-reverse, All-reverse}
use rust_dlc.Digits.Cover.{width, first, past, Covers, Covers-push}
use rust_dlc.Digits.Stack.{
  low, remove_tail-Trimmed, remove_tail-All, low-remove_tail, high-remove_tail,
}
use rust_dlc.Digits.Widen.{Widening, measure, widen_loop_covers, single-at_most}
use rust_dlc.Digits.Narrow.{Narrowing, cross_loop-Covers, narrow_loop-Covers}
use mathlib.Core.List.{reverse, reverse-append, reverse-reverse}
use mathlib.Core.Path.{subst, subst₂}
use native.Mathlib.Nat.{mul-le-mul_right, pow-zero}

bottom-reverse : (s : List ℕ) → 0 < length s → (rest : List ℕ) × (reverse s ≡ bottom s ∷ rest)
unfolding bottom
bottom-reverse [] h = absurd (omega arith)
bottom-reverse (x ∷ []) h = ([], refl)
bottom-reverse (x ∷ y ∷ s) h =
    let (rest, e) = bottom-reverse (y ∷ s) (omega arith) in
    (rest ++ x ∷ [], reverse-append (x ∷ []) (y ∷ s) ∙ ap (λ z. z ++ x ∷ []) e)

bottom-IsDigit : (b : ℕ) (s : List ℕ) → 0 < length s → All (IsDigit b) s → bottom s < b
unfolding bottom
bottom-IsDigit b [] h d = absurd (omega arith)
bottom-IsDigit b (x ∷ []) h d = d.0
bottom-IsDigit b (x ∷ y ∷ s) h d = bottom-IsDigit b (y ∷ s) (omega arith) d.1

-- At full length a stack stands for one number.
pub width_full : (b n k : ℕ) → k ≡ n → width b n k ≡ 1
width_full b n k e = let z : n - k ≡ 0 = omega arith in rw z (pow-zero b)

-- Over `m` digits, the numbers from that of `ds` to that of `de`, which begin with other digits.
module _ (b m nb : ℕ) (two : 2 ≤ b) (fits : m ≤ nb) (has_digits : 1 ≤ m) where
  pub cover_between-Covers :
      (ds de : List ℕ)
      → length ds ≡ m
      → length de ≡ m
      → All (IsDigit b) ds
      → All (IsDigit b) de
      → bottom ds < bottom de
      → (list : List (List ℕ)) × (cover_between b nb ds de ≡ ok list)
        × Covers b m (num b ds) list (num b de + 1)
  unfolding cover_between
  cover_between-Covers ds de ls le hs he less =
      let ds' = remove_tail ds 0 in
      let de' = remove_tail de (b - 1) in
      let ts = remove_tail-Trimmed 0 ds (omega arith) in
      let te = remove_tail-Trimmed (b - 1) de (omega arith) in
      let e0 = bottom de' in
      let de_digits = remove_tail-All (IsDigit b) (b - 1) de he in
      let e0_small : e0 < b = bottom-IsDigit b de' te.some_left de_digits in
      let start : Widening b m e0 (low b m ds') ds' [] = record {
        some_left = ts.some_left;
        short = omega (arith, ts.shorter);
        digits = remove_tail-All (IsDigit b) 0 ds hs;
        at_most = omega (arith, ts.same_bottom, te.same_bottom);
        inner = inr (omega (arith, ts.same_bottom, te.same_bottom));
        covered = refl;
      } in
      let fuel = (nb + 2) * (b + 1) in
      let enough : measure b ds' < fuel = omega (
        arith,
        ts.shorter,
        mul-le-mul_right (b + 1) fits,
        mul-le-mul_right (b + 1) ts.shorter,
        ap (λ (t : ℕ). t * (b + 1)) ls,
      ) in
      let (x, l1, q1, w1) =
        widen_loop_covers b m e0 (low b m ds') e0_small fuel ds' [] start enough in
      let at_e0 : x ≤ e0 = single-at_most w1 in
      let (l2, q2, c2) =
        cross_loop-Covers b m (low b m ds') e0 e0_small has_digits (b + 1) x l1 at_e0 (omega arith)
          w1.covered in
      let (rest, re) = bottom-reverse de' te.some_left in
      let left : suc (length rest) ≤ m =
        omega (arith, ap length re, length-reverse de', te.shorter) in
      let all_digits : All (IsDigit b) (e0 ∷ rest) =
        subst (All (IsDigit b)) re (All-reverse (IsDigit b) de' de_digits) in
      let narrowing : Narrowing b m (low b m ds') (reverse de') e0 [] e0 rest l2 = record {
        agree = re;
        at_most = omega arith;
        short = omega arith;
        digits = tt;
        digit = e0_small;
        digits_left = all_digits.1;
        covered = c2;
      } in
      let enough' : length rest * (b + 1) + (e0 - e0) < fuel =
        omega (arith, mul-le-mul_right (b + 1) fits, mul-le-mul_right (b + 1) left) in
      let (l3, q3, c3) =
        narrow_loop-Covers b m (low b m ds') (reverse de') fuel e0 [] e0 rest l2 narrowing
          enough' in
      let short : length (reverse de') ≤ m = omega (arith, length-reverse de', te.shorter) in
      let covered =
        Covers-push b m (low b m ds') (first b m (reverse de')) l3 (reverse de') c3 short
          (All-reverse (IsDigit b) de' de_digits) refl in
      let at_start : low b m ds' ≡ num b ds =
        low-remove_tail b m ds (omega arith) ∙ rw (width_full b m (length ds) ls) (omega arith) in
      let at_end : past b m (reverse de') ≡ num b de + 1 =
        rw (reverse-reverse de', length-reverse de')
          (high-remove_tail b m de (omega arith) (omega arith)
            ∙ rw (width_full b m (length de) le) (omega arith)) in
      let all = l3 ++ reverse de' ∷ [] in
      (all, rw (q1, q2, q3), subst₂ (λ u v. Covers b m u all v) at_start at_end covered)
