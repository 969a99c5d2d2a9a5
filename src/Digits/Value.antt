-- ===== src/Digits/Value.antt =====
-- The number that a list of digits stands for.
use rust_dlc.Base.{
  ℕ, zero, suc, ◌+◌, ◌*◌, ◌^◌, ◌<◌, ◌≡◌, refl, List, [], ◌∷◌, ◌++◌, arith, length, length-append,
  replicate, All, All-append, ap,
}
use mathlib.Core.List.{reverse, reverse-append}
use native.Mathlib.Nat.{pow-suc, mul-le-mul_left, pow-zero}

-- Lowest digit first, as on a stack.
abbrev pub num : ℕ → List ℕ → ℕ
num b [] = 0
num b (x ∷ v) = x + b * num b v

-- Highest digit first, as in the lists that the code returns.
abbrev pub value : ℕ → List ℕ → ℕ
value b ds = num b (reverse ds)

abbrev pub IsDigit : ℕ → ℕ → Type 0
IsDigit b d = d < b

pub num-append : (b : ℕ) (v w : List ℕ) → num b (v ++ w) ≡ num b v + b ^ length v * num b w
num-append b [] w = omega (arith, ap (λ (t : ℕ). t * num b w) (pow-zero b))
num-append b (x ∷ v) w = omega (
  arith,
  ap (λ (t : ℕ). b * t) (num-append b v w),
  ap (λ (t : ℕ). t * num b w) (pow-suc b (length v)),
)

pub num-lt : (b : ℕ) (v : List ℕ) → All (IsDigit b) v → num b v < b ^ length v
num-lt b [] h = omega (arith, pow-zero b)
num-lt b (x ∷ v) h = omega (arith, pow-suc b (length v), mul-le-mul_left b (num-lt b v h.1))

pub num-zeros : (b k : ℕ) → num b (replicate k 0) ≡ 0
num-zeros b zero = refl
num-zeros b (suc k) = omega (arith, ap (λ (t : ℕ). b * t) (num-zeros b k))

pub length-reverse : (v : List ℕ) → length (reverse v) ≡ length v
length-reverse [] = refl
length-reverse (x ∷ v) = omega (
  arith,
  ap length (reverse-append (x ∷ []) v),
  length-append (reverse v) (x ∷ []),
  length-reverse v,
)

pub All-reverse {κ} : (P : ℕ → Type κ) (v : List ℕ) → All P v → All P (reverse v)
All-reverse P [] h = tt
All-reverse P (x ∷ v) h =
    rw (reverse-append (x ∷ []) v)
      (All-append P (reverse v) (x ∷ []) (All-reverse P v h.1) (h.0, tt))

pub value-append : (b : ℕ) (p q : List ℕ) → value b (p ++ q) ≡ value b p * b ^ length q + value b q
value-append b p q =
    rw (reverse-append p q, num-append b (reverse q) (reverse p), length-reverse q) (omega arith)

pub value-cons : (b x : ℕ) (ds : List ℕ) → value b (x ∷ ds) ≡ x * b ^ length ds + value b ds
value-cons b x ds = omega (arith, value-append b (x ∷ []) ds)
