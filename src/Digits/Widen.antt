-- ===== src/Digits/Widen.antt =====
-- The first loop of `group_by_ignoring_digits`, `while stack.len() != 1`: from the start of the
-- range to a single digit.
use rust_dlc.Base.{
  ℕ, zero, suc, ◌+◌, ◌-◌, ◌*◌, ◌≤◌, ◌<◌, ◌≡◌, refl, ◌≢◌, ◌∙◌, sym, List, [], ◌∷◌, arith, length,
  All, Bool-cases, inl, inr, ◌==◌, ==_iff, ◌⊎◌, ok,
}
use rust_dlc.Digits.{remove_tail, bottom, raise_top, push_stack, widen_round, widen_loop}
use rust_dlc.Digits.Value.{IsDigit}
use rust_dlc.Digits.Cover.{Covers, Covers-push_stack}
use rust_dlc.Digits.Stack.{
  low, high, top, high_full, Trimmed, remove_tail-Trimmed, remove_tail-All, remove_tail-shorter,
  low-remove_tail, high-remove_tail, every-IsDigit,
}
use mathlib.Core.Path.{subst}
use native.Mathlib.Nat.{mul-le-mul_right}

-- `e0` is the first digit of the end of the range; `lo` is the start of the range.
pub record Widening (b n e0 lo : ℕ) (s : List ℕ) (list : List (List ℕ)) : Type 0 where
  pub some_left : 0 < length s
  pub short : length s ≤ n
  pub digits : All (IsDigit b) s
  pub at_most : bottom s ≤ e0
  pub inner : (length s ≡ 1) ⊎ (bottom s < e0)
  pub covered : Covers b n lo list (low b n s)

-- Falls in every round: a digit less on the stack, or less room above the top digit.
abbrev pub measure : ℕ → List ℕ → ℕ
measure b s = length s * (b + 1) + (b - 1 - top s)

pub measure-lt : (b : ℕ) (t s : List ℕ) → length t < length s → measure b t < measure b s
measure-lt b t s h = omega (arith, mul-le-mul_right (b + 1) h)

-- What `raise_top` does to a stack whose digit at the bottom is below `e0`.
raise_top_keeps :
    (b n e0 : ℕ) (t : List ℕ)
    → 0 < length t
    → All (IsDigit b) t
    → bottom t < e0
    → top t + 1 < b
    → (length (raise_top t) ≡ length t)
      × All (IsDigit b) (raise_top t)
      × (bottom (raise_top t) ≤ e0)
      × ((length (raise_top t) ≡ 1) ⊎ (bottom (raise_top t) < e0))
      × (low b n (raise_top t) ≡ high b n t)
unfolding raise_top bottom
raise_top_keeps b n e0 [] p d h r = absurd (omega arith)
raise_top_keeps b n e0 (x ∷ []) p d h r = (refl, (r, tt), omega arith, inl refl, omega arith)
raise_top_keeps b n e0 (x ∷ y ∷ t) p d h r = (refl, (r, d.1), omega arith, inr h, omega arith)

-- The top of a trimmed stack can be raised: it is no `b - 1`, and neither is the bottom.
raise_room :
    (b e0 : ℕ) (s t : List ℕ)
    → Trimmed (b - 1) s t
    → All (IsDigit b) t
    → bottom s < e0
    → e0 < b
    → top t + 1 < b
unfolding bottom
raise_room b e0 s [] h d k e = absurd (omega arith)
raise_room b e0 s (x ∷ []) h d k e = omega (arith, h.same_bottom)
raise_room b e0 s (x ∷ y ∷ t) h d k e = ground (arith, h.stops, d.0)

module _ (b n e0 lo : ℕ) (e0_small : e0 < b) where
  -- The top digit is `b - 1`: the prefix is saved and the digits that are used up are dropped.
  widen_full :
      (y : ℕ) (v : List ℕ) (list : List (List ℕ))
      → Widening b n e0 lo ((b - 1) ∷ y ∷ v) list
      → let t = raise_top (remove_tail (y ∷ v) (b - 1)) in
        Widening b n e0 lo t (push_stack list ((b - 1) ∷ y ∷ v))
        × (measure b t < measure b ((b - 1) ∷ y ∷ v))
  unfolding bottom
  widen_full y v list w =
      let s = (b - 1) ∷ y ∷ v in
      let t = remove_tail (y ∷ v) (b - 1) in
      let trim = remove_tail-Trimmed (b - 1) (y ∷ v) (omega arith) in
      let below : bottom (y ∷ v) < e0 = ground (arith, w.inner) in
      let digits = remove_tail-All (IsDigit b) (b - 1) (y ∷ v) w.digits.1 in
      let room = raise_room b e0 (y ∷ v) t trim digits below e0_small in
      let (len, d, bot, inn, at) =
        raise_top_keeps b n e0 t trim.some_left digits (omega (arith, trim.same_bottom)) room in
      let same : low b n (raise_top t) ≡ high b n s =
        at
        ∙ high-remove_tail b n (y ∷ v) (omega arith) (omega (arith, w.short))
        ∙ sym (high_full b n (y ∷ v) (omega arith) w.short) in
      let covered = Covers-push_stack b n lo list s w.covered w.short w.digits in
      (
        record {
          some_left = omega (arith, len, trim.some_left);
          short = omega (arith, len, trim.shorter, w.short);
          digits = d;
          at_most = bot;
          inner = inn;
          covered = rw same covered;
        },
        measure-lt b (raise_top t) s (omega (arith, len, trim.shorter)),
      )

  -- The top digit is 0: it stands for what the digits below it stand for.
  widen_zero :
      (y : ℕ) (v : List ℕ) (list : List (List ℕ))
      → Widening b n e0 lo (0 ∷ y ∷ v) list
      → let t = remove_tail (0 ∷ y ∷ v) 0 in
        Widening b n e0 lo t list × (measure b t < measure b (0 ∷ y ∷ v))
  unfolding bottom
  widen_zero y v list w =
      let s = 0 ∷ y ∷ v in
      let trim = remove_tail-Trimmed 0 s (omega arith) in
      let shorter = remove_tail-shorter 0 y v in
      (
        record {
          some_left = trim.some_left;
          short = omega (arith, trim.shorter, w.short);
          digits = remove_tail-All (IsDigit b) 0 s w.digits;
          at_most = omega (arith, trim.same_bottom, w.at_most);
          inner = ground (arith, trim.same_bottom, w.inner);
          covered = rw (low-remove_tail b n s w.short) w.covered;
        },
        measure-lt b (remove_tail s 0) s (omega (arith, shorter)),
      )

  -- Any other digit: the prefix is saved, and the next one is tried.
  widen_next :
      (x y : ℕ) (v : List ℕ) (list : List (List ℕ))
      → x ≢ b - 1
      → Widening b n e0 lo (x ∷ y ∷ v) list
      → Widening b n e0 lo ((x + 1) ∷ y ∷ v) (push_stack list (x ∷ y ∷ v))
        × (measure b ((x + 1) ∷ y ∷ v) < measure b (x ∷ y ∷ v))
  unfolding bottom
  widen_next x y v list ne w =
      let s = x ∷ y ∷ v in
      let up : low b n ((x + 1) ∷ y ∷ v) ≡ high b n s = omega arith in
      let covered = Covers-push_stack b n lo list s w.covered w.short w.digits in
      let room : x + 1 < b = omega (arith, w.digits.0) in
      (
        record {
          some_left = omega arith;
          short = w.short;
          digits = (room, w.digits.1);
          at_most = w.at_most;
          inner = ground (arith, w.inner);
          covered = rw up covered;
        },
        omega arith,
      )

  widen_round_keeps :
      (x y : ℕ) (v : List ℕ) (list : List (List ℕ))
      → Widening b n e0 lo (x ∷ y ∷ v) list
      → let (t, list') = widen_round b (x ∷ y ∷ v) list in
        Widening b n e0 lo t list' × (measure b t < measure b (x ∷ y ∷ v))
  unfolding widen_round
  widen_round_keeps x y v list w = elim (Bool-cases (x == b - 1)) [
    | inl e ↦
        let same = (==_iff x (b - 1)).0 e in
        rw e
          (rw same (widen_full y v list (subst (λ z. Widening b n e0 lo (z ∷ y ∷ v) list) same w)))
    | inr e ↦ rw e (elim (Bool-cases (x == 0)) [
      | inl z ↦
          let same = (==_iff x 0).0 z in
          rw z (
            rw same (widen_zero y v list (subst (λ z. Widening b n e0 lo (z ∷ y ∷ v) list) same w)))
      | inr z ↦ rw z (widen_next x y v list (ground arith) w)
    ])
  ]

  -- With fuel for the measure the loop ends, on a single digit that is at most `e0`, and the
  -- prefixes that it saved cover the numbers from `lo` to the first that begins with that digit.
  pub widen_loop_covers :
      (fuel : ℕ) (s : List ℕ) (list : List (List ℕ))
      → Widening b n e0 lo s list
      → measure b s < fuel
      → (x : ℕ) × (list' : List (List ℕ)) × (widen_loop fuel b s list ≡ ok (x ∷ [], list'))
        × Widening b n e0 lo (x ∷ []) list'
  unfolding widen_loop
  widen_loop_covers fuel [] list w h = absurd (omega (arith, w.some_left))
  widen_loop_covers fuel (x ∷ []) list w h = (x, list, refl, w)
  widen_loop_covers zero (x ∷ y ∷ v) list w h = absurd (omega arith)
  widen_loop_covers (suc fuel) (x ∷ y ∷ v) list w h =
      let (keep, less) = widen_round_keeps x y v list w in
      let r = widen_round b (x ∷ y ∷ v) list in
      let (z, out, e, w') = widen_loop_covers fuel r.0 r.1 keep (omega arith) in
      (z, out, rw (every-IsDigit b r.0 keep.digits) e, w')

pub single-at_most :
    {b n e0 lo x : ℕ} {list : List (List ℕ)} → Widening b n e0 lo (x ∷ []) list → x ≤ e0
unfolding bottom
single-at_most w = w.at_most
