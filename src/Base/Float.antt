-- ===== src/Base/Float.antt =====
-- The parts of `f64` arithmetic that the code uses on `usize` values: the conversion, which rounds
-- to 53 significant bits (ties to even), and the floor and ceiling of a correctly rounded quotient.
use Prim.Native.Nat.{ℕ, zero, suc, ◌+◌, ◌*◌, ◌/◌, ◌%◌, ◌^◌, ◌≤◌, ◌<◌}
use mathlib.Core.Path.{◌≡◌}
use mathlib.Core.Bool.{◌||◌, ◌&&◌, true}
use mathlib.Core.Path.{ap}
use mathlib.Core.Logic.{◌⊎◌, inl, inr}
use native.Mathlib.Nat.{
  div-eq_of_lt-le, pow-suc, div-add-mod, mod-lt, div-mul-le_self, mul-le-mul_right,
  le-div_iff_mul-le,
}
use native.Mathlib.Decide.{dec_lt}
use native.Mathlib.Omega.{arith}
use rust_dlc.Base.Tests.{ltb, ◌==◌, if◌then◌else◌, Bool-cases}

-- The whole number nearest to `n / d`; the even one of two that are equally near.
unfoldable pub round_even : ℕ → ℕ → ℕ
round_even n d =
    if ltb d (2 * (n % d)) || (2 * (n % d) == d && n / d % 2 == 1) then n / d + 1 else n / d

-- The weight of the last of the 53 bits.
f64_unit : ℕ → ℕ → ℕ → ℕ
f64_unit zero n u = u
f64_unit (suc f) n u = let rest = f64_unit f n (2 * u) in if ltb n (2 ^ 53 * u) then u else rest

-- `n as f64` of a 64-bit `n`: eleven bits at most are dropped.
unfoldable pub to_f64 : ℕ → ℕ
unfolding f64_unit round_even
to_f64 n = let u = f64_unit 11 n 1 in round_even n u * u

-- `((v as f64) / (b as f64)).floor() as usize`: the quotient is scaled by a power of two `p` until
-- it has 53 bits, rounded, and scaled back.
f64_div_loop : ℕ → ℕ → ℕ → ℕ → ℕ
f64_div_loop zero x y p = round_even x y / p
f64_div_loop (suc f) x y p =
    let rest = f64_div_loop f (2 * x) y (2 * p) in
    if ltb x (2 ^ 52 * y) then rest else round_even x y / p

-- A quotient of 2 ^ 53 or more is rounded to 53 bits, which leaves it whole.
f64_div_large : ℕ → ℕ → ℕ
unfolding f64_unit round_even
f64_div_large x y = let u = f64_unit 11 (x / y) 1 in round_even x (y * u) * u

unfoldable pub f64_div_floor : ℕ → ℕ → ℕ
unfolding to_f64 f64_div_loop f64_div_large
f64_div_floor v b =
    if ltb (to_f64 v) (2 ^ 53 * to_f64 b)
    then f64_div_loop 117 (to_f64 v) (to_f64 b) 1
    else f64_div_large (to_f64 v) (to_f64 b)

-- `f64::ceil((w as f64) / 4.0) as u64`; a division by 4 does not round.
unfoldable pub f64_quarter_ceil : ℕ → ℕ
unfolding to_f64
f64_quarter_ceil w = (to_f64 w + 3) / 4

-- Below 2 ^ 53 the conversion is exact.
pub to_f64_exact : (n : ℕ) → n < 2 ^ 53 → to_f64 n ≡ n
unfolding to_f64
to_f64_exact n h = ground arith

pub f64_quarter_ceil_exact : (w : ℕ) → w < 2 ^ 53 → f64_quarter_ceil w ≡ (w + 3) / 4
unfolding f64_quarter_ceil
f64_quarter_ceil_exact w h = ground arith

-- Rounding goes up by one at most, and only over half of the divisor.
round_even_cases :
    (n d : ℕ) → (round_even n d ≡ n / d) ⊎ ((round_even n d ≡ n / d + 1) × (d ≤ 2 * (n % d)))
unfolding round_even
round_even_cases n d = ground arith

-- The scaled quotient `m` with the remainder `r`, against the quotient `q` with the remainder `s`.
scaled_below :
    (q s m r y p : ℕ)
    → m * y + r ≡ q * y * p + s * p
    → suc s ≤ y
    → y < 2 * p
    → r < y
    → (m < (q + 1) * p) × (y ≤ 2 * r → m + 1 < (q + 1) * p)
scaled_below q s m r y p e hs h hr =
    let top : suc s * p ≤ y * p = mul-le-mul_right p hs in
    (
      elim (dec_lt m ((q + 1) * p)) [
        | yes l ↦ l
        | no n ↦
            let big : (q + 1) * p * y ≤ m * y = mul-le-mul_right y (omega arith) in
            absurd (omega arith)
      ],
      λ up. elim (dec_lt (m + 1) ((q + 1) * p)) [
        | yes l ↦ l
        | no n ↦
            let big : (q + 1) * p * y ≤ (m + 1) * y = mul-le-mul_right y (omega arith) in
            absurd (omega arith)
      ],
    )

-- Rounding up the scaled quotient never reaches the next whole number of the quotient itself.
round_even_floor : (v y p : ℕ) → 0 < y → 0 < p → y < 2 * p → round_even (v * p) y / p ≡ v / y
round_even_floor v y p hy hp h =
    let below =
      scaled_below (v / y) (v % y) (v * p / y) (v * p % y) y p
        (omega (arith, div-add-mod (v * p) y, ap (λ (t : ℕ). t * p) (div-add-mod v y)))
        (mod-lt v hy) h (mod-lt (v * p) hy) in
    let low : v / y * p ≤ v * p / y =
      (le-div_iff_mul-le hy).1 (omega (arith, mul-le-mul_right p (div-mul-le_self v y))) in
    elim (round_even_cases (v * p) y) [
      | inl e ↦ rw e (div-eq_of_lt-le p low below.0)
      | inr (e, up) ↦ rw e (div-eq_of_lt-le p (omega (arith, low)) (below.1 up))
    ]

f64_div_loop_exact :
    (f v x y p : ℕ)
    → v < 2 ^ 53
    → x ≡ v * p
    → 0 < y
    → 0 < p
    → y < 2 ^ 53
    → 2 ^ 53 ≤ p * 2 ^ f
    → f64_div_loop f x y p ≡ v / y
unfolding f64_div_loop
f64_div_loop_exact zero v x y p hv hx hy hp hb hf =
    rw hx (round_even_floor v y p hy hp (omega arith))
f64_div_loop_exact (suc f) v x y p hv hx hy hp hb hf = elim (Bool-cases (ltb x (2 ^ 52 * y))) [
  | inl small ↦ rw small (
      f64_div_loop_exact f v (2 * x) y (2 * p) hv (omega (arith, hx)) hy (omega arith) hb
        (omega (arith, pow-suc 2 f, ap (λ (t : ℕ). p * t) (pow-suc 2 f))))
  | inr large ↦ rw (large, hx) (round_even_floor v y p hy hp (grind arith))
]

pub f64_div_floor_exact : (v b : ℕ) → v < 2 ^ 53 → 0 < b → b < 2 ^ 53 → f64_div_floor v b ≡ v / b
unfolding f64_div_floor
f64_div_floor_exact v b hv hb hb' =
    let small : ltb v (2 ^ 53 * b) ≡ true = ground arith in
    rw (to_f64_exact v hv, to_f64_exact b hb', small)
      (f64_div_loop_exact 117 v v b 1 hv (omega arith) hb (omega arith) hb' (omega arith))
