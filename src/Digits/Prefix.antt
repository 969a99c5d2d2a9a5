-- ===== src/Digits/Prefix.antt =====
-- The common prefix of two numbers' digits, and the test for a range that the prefix covers.
use rust_dlc.Base.{
  ℕ, suc, ◌+◌, ◌-◌, ◌*◌, ◌^◌, ◌≤◌, ◌<◌, ◌≡◌, refl, ◌≢◌, Bool, List, [], ◌∷◌, ◌++◌, arith, length,
  All, ap, Bool-cases, inl, inr, ◌==◌, ==_iff, true, ok, ◌&&◌,
}
use rust_dlc.Digits.{split_prefix, take_prefix, every, list_eq}
use rust_dlc.Digits.Value.{value, IsDigit, num-lt, length-reverse, All-reverse, value-cons}
use rust_dlc.Digits.Stack.{list_eq_iff}
use mathlib.Core.List.{reverse}
use native.Mathlib.Nat.{mul-le-mul_right, pow-zero, pow-suc}
use native.Mathlib.Decide.{dec_lt}

pub All-append_parts {κ} :
    (P : ℕ → Type κ) (xs ys : List ℕ) → All P (xs ++ ys) → All P xs × All P ys
All-append_parts P [] ys h = (tt, h)
All-append_parts P (x ∷ xs) ys h = let (hx, hy) = All-append_parts P xs ys h.1 in ((h.0, hx), hy)

-- What `split_prefix` finds in two different lists of one length.
pub record Split (ds de : List ℕ) : Type 0 where
  pub prefix : List ℕ
  pub x : ℕ
  pub xs : List ℕ
  pub y : ℕ
  pub ys : List ℕ
  pub result : split_prefix ds de ≡ ok (prefix, x ∷ xs, y ∷ ys)
  pub front : ds ≡ prefix ++ x ∷ xs
  pub back : de ≡ prefix ++ y ∷ ys
  pub differ : x ≢ y

pub split_prefix_lem : (ds de : List ℕ) → length ds ≡ length de → ds ≢ de → Split ds de
unfolding split_prefix
split_prefix_lem [] [] l ne = absurd (ne refl)
split_prefix_lem [] (y ∷ ys) l ne = absurd (omega arith)
split_prefix_lem (x ∷ xs) [] l ne = absurd (omega arith)
split_prefix_lem (x ∷ xs) (y ∷ ys) l ne = elim (Bool-cases (x == y)) [
  | inl e ↦
      let same = (==_iff x y).0 e in
      let s = split_prefix_lem xs ys (omega arith) (λ eq. ne (rw (same, eq))) in
      record {
        prefix = x ∷ s.prefix;
        x = s.x;
        xs = s.xs;
        y = s.y;
        ys = s.ys;
        result = rw (e, s.result);
        front = rw s.front;
        back = rw same (rw s.back);
        differ = s.differ;
      }
  | inr e ↦ record {
    prefix = [];
    x = x;
    xs = xs;
    y = y;
    ys = ys;
    result = rw e;
    front = refl;
    back = refl;
    differ = ground arith;
  }
]

-- The first digits decide the order of two numbers of as many digits.
pub first_digit_lt :
    (b x y : ℕ) (xs ys : List ℕ)
    → length xs ≡ length ys
    → All (IsDigit b) ys
    → value b (x ∷ xs) < value b (y ∷ ys)
    → x ≢ y
    → x < y
first_digit_lt b x y xs ys l d h ne = elim (dec_lt x y) [
  | yes p ↦ p
  | no np ↦
      let after : suc y ≤ x = omega arith in
      let vy : value b ys < b ^ length ys =
        rw (length-reverse ys) at (num-lt b (reverse ys) (All-reverse (IsDigit b) ys d)) in
      absurd (
        omega (
          arith,
          value-cons b x xs,
          value-cons b y ys,
          mul-le-mul_right (b ^ length ys) after,
          ap (λ (t : ℕ). x * b ^ t) l,
        ))
]

pub take_prefix_same : (ds : List ℕ) → take_prefix ds ds ≡ ok (ds, [], [])
unfolding take_prefix
take_prefix_same ds = rw ((list_eq_iff ds ds).1 refl)

pub take_prefix_differ : (ds de : List ℕ) → ds ≢ de → take_prefix ds de ≡ split_prefix ds de
unfolding take_prefix
take_prefix_differ ds de ne = elim (Bool-cases (list_eq ds de)) [
  | inl e ↦ absurd (ne ((list_eq_iff ds de).0 e))
  | inr e ↦ rw e
]

pub every_zero : (b : ℕ) (s : List ℕ) → every (λ x. x == 0) s ≡ true → value b s ≡ 0
every_zero b [] h = refl
every_zero b (x ∷ s) h = ground (arith, value-cons b x s, every_zero b s)

pub and_true : (p q : Bool) → (p && q) ≡ true → (p ≡ true) × (q ≡ true)
and_true p q h = ground arith

pub last_digit : (b x u : ℕ) → 0 < b → x ≡ b - 1 → x * u + u ≡ b * u
last_digit b x u p e = let same : b ≡ x + 1 = omega arith in rw same (omega arith)

pub every_full :
    (b : ℕ) (s : List ℕ) → 0 < b → every (λ x. x == b - 1) s ≡ true → value b s + 1 ≡ b ^ length s
every_full b [] p h = omega (arith, pow-zero b)
every_full b (x ∷ s) p h =
    let (is_last, others) = and_true (x == b - 1) (every (λ d. d == b - 1) s) h in
    omega (
      arith,
      value-cons b x s,
      every_full b s p others,
      pow-suc b (length s),
      last_digit b x (b ^ length s) p ((==_iff x (b - 1)).0 is_last),
    )
