-- ===== src/Digits/Decompose.antt =====
-- `decompose_value` on values that `f64` holds exactly, and its round trip with `compose_value`.
use rust_dlc.Base.{
  ℕ, zero, suc, ◌-◌, ◌/◌, ◌%◌, ◌^◌, ◌≤◌, ◌<◌, ◌≡◌, refl, ◌∙◌, List, [], ◌∷◌, ◌++◌, arith, length,
  length-append, length-replicate, replicate, All, All-append, ltb, ==_iff, ne→==, if◌then◌else◌,
  ok, panic, ◌>>=◌, sym,
}
use rust_dlc.Base.Float.{f64_div_floor, f64_div_floor_exact}
use rust_dlc.Digits.{decompose_loop, decompose_value}
use rust_dlc.Digits.Value.{
  num, value, IsDigit, num-append, num-lt, num-zeros, length-reverse, All-reverse,
}
use mathlib.Core.List.{reverse, reverse-reverse}
use native.Mathlib.Nat.{
  pow-suc, pow-zero, mod-lt, div-add-mod, div-lt_iff_lt-mul, div-le_self, mul-le-mul_right,
  pow-le-pow_right,
}
use native.Mathlib.Decide.{dec_lt}

-- The digits of a value, lowest first; none for 0.
digits_of : ℕ → ℕ → ℕ → List ℕ
digits_of zero b v = []
digits_of (suc f) b v = let rest = digits_of f b (v / b) in if ltb 0 v then (v % b) ∷ rest else []

v-zero : (v : ℕ) → v < 1 → v ≡ 0
v-zero v h = omega arith

half_lt : (b v f : ℕ) → 2 ≤ b → v < 2 ^ suc f → v / b < 2 ^ f
half_lt b v f hb h = omega (arith, pow-suc 2 f, div-add-mod v b, mul-le-mul_right (v / b) hb)

decompose_loop_end : (f b : ℕ) → decompose_loop (suc f) 0 b ≡ ok []
unfolding decompose_loop
decompose_loop_end f b = refl

decompose_loop_round :
    (f v b : ℕ)
    → 0 < v
    → 0 < b
    → decompose_loop (suc f) v b
      ≡ (decompose_loop f (f64_div_floor v b) b >>= λ digits. ok ((v % b) ∷ digits))
unfolding decompose_loop
decompose_loop_round f v b hv hb = ground arith

module _ (b : ℕ) (two : 2 ≤ b) (small : b < 2 ^ 53) where
  decompose_loop-digits_of :
      (f v : ℕ) → v < 2 ^ 53 → v < 2 ^ f → decompose_loop (suc f) v b ≡ ok (digits_of f b v)
  unfolding digits_of
  decompose_loop-digits_of zero v hv h =
      rw (v-zero v (omega (arith, pow-zero 2))) (decompose_loop_end 0 b)
  decompose_loop-digits_of (suc f) zero hv h = decompose_loop_end (suc f) b
  decompose_loop-digits_of (suc f) (suc v) hv h =
      rw
        (
          decompose_loop_round (suc f) (suc v) b (omega arith) (omega arith),
          f64_div_floor_exact (suc v) b hv (omega arith) small,
          decompose_loop-digits_of f (suc v / b) (omega (arith, div-le_self (suc v) b))
              (half_lt b (suc v) f two h),
        )
        (ground arith)

module _ (b : ℕ) (two : 2 ≤ b) where
  num-digits_of : (f v : ℕ) → v < 2 ^ f → num b (digits_of f b v) ≡ v
  unfolding digits_of
  num-digits_of zero v h = omega (arith, pow-zero 2)
  num-digits_of (suc f) v h =
      ground (arith, num-digits_of f (v / b) (half_lt b v f two h), div-add-mod v b)

  digits_of-IsDigit : (f v : ℕ) → All (IsDigit b) (digits_of f b v)
  unfolding digits_of
  digits_of-IsDigit zero v = tt
  digits_of-IsDigit (suc f) v = ground (arith, digits_of-IsDigit f (v / b), mod-lt v {m = b})

  length-digits_of : (f v n : ℕ) → v < b ^ n → length (digits_of f b v) ≤ n
  unfolding digits_of
  length-digits_of zero v n h = omega arith
  length-digits_of (suc f) v zero h = ground (arith, pow-zero b)
  length-digits_of (suc f) v (suc n) h = ground (
    arith,
    length-digits_of f (v / b) n ((div-lt_iff_lt-mul (omega arith)).1 (omega (arith, pow-suc b n))),
  )

-- What `decompose_value` does, in plain arithmetic.
padded : ℕ → ℕ → ℕ → List ℕ
padded b v n = let ds = digits_of 64 b v in ds ++ replicate (n - length ds) 0

num-padded : (b v n : ℕ) → 2 ≤ b → v < 2 ^ 53 → num b (padded b v n) ≡ v
unfolding padded
num-padded b v n two hv =
    let ds = digits_of 64 b v in
    rw (num-append b ds (replicate (n - length ds) 0), num-zeros b (n - length ds))
      (omega (arith, num-digits_of b two 64 v (omega arith)))

zeros-IsDigit : (b k : ℕ) → 0 < b → All (IsDigit b) (replicate k 0)
zeros-IsDigit b zero h = tt
zeros-IsDigit b (suc k) h = (h, zeros-IsDigit b k h)

padded-IsDigit : (b v n : ℕ) → 2 ≤ b → All (IsDigit b) (padded b v n)
unfolding padded
padded-IsDigit b v n two =
    All-append (IsDigit b) (digits_of 64 b v) _ (digits_of-IsDigit b two 64 v)
      (zeros-IsDigit b _ (omega arith))

digits_of_longer : (v b n : ℕ) → 2 ≤ b → v < 2 ^ 53 → b ^ n ≤ v → n < length (digits_of 64 b v)
digits_of_longer v b n two hv h = elim (dec_lt n (length (digits_of 64 b v))) [
  | yes l ↦ l
  | no short ↦ absurd (
      omega (
        arith,
        num-lt b (digits_of 64 b v) (digits_of-IsDigit b two 64 v),
        num-digits_of b two 64 v (omega arith),
        pow-le-pow_right {n = b} (omega arith) {i = length (digits_of 64 b v)} {j = n}
            (omega arith),
      ))
]

decompose_value_fits :
    (v b n : ℕ)
    → 2 ≤ b
    → b < 2 ^ 53
    → v < 2 ^ 53
    → v < b ^ n
    → (decompose_value v b n ≡ ok (reverse (padded b v n))) × (length (padded b v n) ≡ n)
unfolding decompose_value padded
decompose_value_fits v b n two small hv h =
    let short = length-digits_of b two 64 v n h in
    let full : length (padded b v n) ≡ n = omega (
      arith,
      short,
      length-append (digits_of 64 b v) (replicate (n - length (digits_of 64 b v)) 0),
      length-replicate {A = ℕ} (n - length (digits_of 64 b v)) 0,
    ) in
    (
      rw (decompose_loop-digits_of b two small 64 v hv (omega arith))
          (rw ((==_iff n _).1 (sym full))),
      full,
    )

-- A value that has at most `n` digits in a base of two or more, and that an `f64` holds exactly, is
-- decomposed into `n` digits below the base, and these stand for the value.
pub decompose_value_lem :
    (v b n : ℕ)
    → 2 ≤ b
    → b < 2 ^ 53
    → v < 2 ^ 53
    → v < b ^ n
    → (ds : List ℕ) × (decompose_value v b n ≡ ok ds)
      × (length ds ≡ n)
      × All (IsDigit b) ds
      × (value b ds ≡ v)
decompose_value_lem v b n two small hv h =
    let (e, full) = decompose_value_fits v b n two small hv h in
    (
      reverse (padded b v n),
      e,
      length-reverse (padded b v n) ∙ full,
      All-reverse (IsDigit b) (padded b v n) (padded-IsDigit b v n two),
      rw (reverse-reverse (padded b v n)) (num-padded b v n two hv),
    )

-- In a base from 2 to 2 ^ 53, a value below 2 ^ 53 that needs more digits than it is given fails the
-- assertion.
pub decompose_value_panics :
    (v b n : ℕ) → 2 ≤ b → b < 2 ^ 53 → v < 2 ^ 53 → b ^ n ≤ v → decompose_value v b n ≡ panic
unfolding decompose_value padded
decompose_value_panics v b n two small hv h =
    rw (decompose_loop-digits_of b two small 64 v hv (omega arith)) (
      rw (
        ne→== n (length (padded b v n)) (
          omega (
            arith,
            digits_of_longer v b n two hv h,
            length-append (digits_of 64 b v) (replicate (n - length (digits_of 64 b v)) 0),
          ))))
