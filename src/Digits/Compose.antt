-- ===== src/Digits/Compose.antt =====
-- `compose_value`, and its round trips with `decompose_value`.
use rust_dlc.Base.{
  ℕ, zero, suc, ◌+◌, ◌*◌, ◌%◌, ◌^◌, ◌≤◌, ◌<◌, ◌≡◌, refl, ◌∙◌, ap, List, [], ◌∷◌, arith, length, All,
  ok, sym,
}
use rust_dlc.Digits.{decompose_value, compose_loop, compose_value}
use rust_dlc.Digits.Value.{num, value, IsDigit, value-cons, num-lt, length-reverse, All-reverse}
use mathlib.Core.List.{reverse, reverse-reverse}
use native.Mathlib.Nat.{mod-eq_of_lt, mul-le-mul_left}
use native.Mathlib.Decide.{dec_lt}
use rust_dlc.Digits.Decompose.{decompose_value_lem}

wrapped_product : (v p : ℕ) → v * p < 2 ^ 64 → v * (p % 2 ^ 64) % 2 ^ 64 ≡ v * p
wrapped_product zero p h = omega arith
wrapped_product (suc v) p h =
    let low : p < 2 ^ 64 = omega arith in rw (mod-eq_of_lt low) (mod-eq_of_lt h)

compose_loop-value :
    (c : ℕ) (ds : List ℕ) (b : ℕ) → c + value b ds < 2 ^ 64 → compose_loop c ds b ≡ c + value b ds
unfolding compose_loop
compose_loop-value c [] b h = omega arith
compose_loop-value c (x ∷ ds) b h =
    let split = value-cons b x ds in
    let fits : c + x * b ^ length ds < 2 ^ 64 = omega arith in
    rw (wrapped_product x (b ^ length ds) (omega arith), mod-eq_of_lt fits)
      (compose_loop-value (c + x * b ^ length ds) ds b (omega arith) ∙ omega arith)

-- Digits that stand for a 64-bit number are composed to that number.
pub compose_value-value :
    (ds : List ℕ) (b : ℕ) → value b ds < 2 ^ 64 → compose_value ds b ≡ value b ds
unfolding compose_value
compose_value-value ds b h = compose_loop-value 0 ds b (omega arith) ∙ omega arith

-- In a base from 2 to 2 ^ 53, decomposing a value below 2 ^ 53 that fits the digits, and composing them,
-- gives the value back.
pub compose_value-decompose_value :
    (v b n : ℕ)
    → 2 ≤ b
    → b < 2 ^ 53
    → v < 2 ^ 53
    → v < b ^ n
    → (ds : List ℕ) × (decompose_value v b n ≡ ok ds) × (compose_value ds b ≡ v)
compose_value-decompose_value v b n two small hv h =
    let (ds, e, _, _, same) = decompose_value_lem v b n two small hv h in
    (ds, e, compose_value-value ds b (omega arith) ∙ same)

-- The lowest digit and the rest are determined.
rest_unique : (b x y n m : ℕ) → x < b → y < b → x + b * n ≡ y + b * m → (x ≡ y) × (n ≡ m)
rest_unique b x y n m hx hy e = elim (dec_lt n m) [
  | yes l ↦ let far : b * suc n ≤ b * m = mul-le-mul_left b l in absurd (omega arith)
  | no nl ↦ elim (dec_lt m n) [
    | yes l ↦ let far : b * suc m ≤ b * n = mul-le-mul_left b l in absurd (omega arith)
    | no nm ↦ let same : n ≡ m = omega arith in (omega (arith, ap (λ (t : ℕ). b * t) same), same)
  ]
]

-- Two lists of as many digits that stand for one number are one list.
pub num-injective :
    (b : ℕ) (v w : List ℕ)
    → All (IsDigit b) v
    → All (IsDigit b) w
    → length v ≡ length w
    → num b v ≡ num b w
    → v ≡ w
num-injective b [] [] hv hw l e = refl
num-injective b [] (y ∷ w) hv hw l e = absurd (omega arith)
num-injective b (x ∷ v) [] hv hw l e = absurd (omega arith)
num-injective b (x ∷ v) (y ∷ w) hv hw l e =
    let (same, rest) = rest_unique b x y (num b v) (num b w) hv.0 hw.0 e in
    rw (same, num-injective b v w hv.1 hw.1 (omega arith) rest)

-- In a base from 2 to 2 ^ 53, composing digits that stand for a value below 2 ^ 53, and decomposing it,
-- gives the digits back.
pub decompose_value-compose_value :
    (ds : List ℕ) (b : ℕ)
    → 2 ≤ b
    → b < 2 ^ 53
    → All (IsDigit b) ds
    → value b ds < 2 ^ 53
    → decompose_value (compose_value ds b) b (length ds) ≡ ok ds
decompose_value-compose_value ds b two small hd hv =
    let v = value b ds in
    let below : v < b ^ length ds =
      rw (length-reverse ds) at (num-lt b (reverse ds) (All-reverse (IsDigit b) ds hd)) in
    let (ds', e, len, digits, same) = decompose_value_lem v b (length ds) two small hv below in
    let back : reverse ds' ≡ reverse ds =
      num-injective b (reverse ds') (reverse ds) (All-reverse (IsDigit b) ds' digits)
        (All-reverse (IsDigit b) ds hd) (length-reverse ds' ∙ len ∙ sym (length-reverse ds)) same in
    rw (compose_value-value ds b (omega arith))
      (e ∙ ap ok (sym (reverse-reverse ds') ∙ ap reverse back ∙ reverse-reverse ds))
