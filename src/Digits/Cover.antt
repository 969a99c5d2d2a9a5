-- ===== src/Digits/Cover.antt =====
-- What a list of digit prefixes covers: with `n` digits in all, a prefix of `k` digits stands for
-- the `b ^ (n - k)` numbers that begin with it.
use rust_dlc.Base.{
  ℕ, zero, suc, ◌+◌, ◌-◌, ◌*◌, ◌^◌, ◌≤◌, ◌≡◌, refl, List, [], ◌∷◌, ◌++◌, arith, length,
  length-append, All, All-append, ap, map, sym, ◌∙◌,
}
use rust_dlc.Digits.Value.{num, value, IsDigit, length-reverse, value-append, All-reverse}
use mathlib.Core.List.{reverse, reverse-reverse}
use native.Mathlib.Nat.{add_assoc, pow-suc, pow-zero}

-- How many numbers share their first `k` digits.
abbrev pub width : ℕ → ℕ → ℕ → ℕ
width b n k = b ^ (n - k)

-- The first number that begins with the prefix, and the first one past those.
abbrev pub first : ℕ → ℕ → List ℕ → ℕ
first b n p = value b p * width b n (length p)

abbrev pub past : ℕ → ℕ → List ℕ → ℕ
past b n p = (value b p + 1) * width b n (length p)

-- The prefixes cover the numbers from `lo` up to `hi`, not included, each once and in order.
abbrev pub Covers : ℕ → ℕ → ℕ → List (List ℕ) → ℕ → Type 0
Covers b n lo [] hi = lo ≡ hi
Covers b n lo (p ∷ ps) hi =
    (length p ≤ n) × All (IsDigit b) p × (first b n p ≡ lo) × Covers b n (past b n p) ps hi

pub width-suc : (b n k : ℕ) → suc k ≤ n → width b n k ≡ b * width b n (suc k)
width-suc b n k h =
    let e : n - k ≡ suc (n - suc k) = omega arith in rw e (omega (arith, pow-suc b (n - suc k)))

pub Covers-push :
    (b n lo mid : ℕ) (list : List (List ℕ)) (p : List ℕ)
    → Covers b n lo list mid
    → length p ≤ n
    → All (IsDigit b) p
    → first b n p ≡ mid
    → Covers b n lo (list ++ (p ∷ [])) (past b n p)
Covers-push b n lo mid [] p c h d e = (h, d, e ∙ sym c, refl)
Covers-push b n lo mid (q ∷ list) p c h d e =
    (c.0, c.1, c.2, Covers-push b n (past b n q) mid list p c.3 h d e)

-- A stack stands for its digits reversed.
pub Covers-push_stack :
    (b n lo : ℕ) (list : List (List ℕ)) (s : List ℕ)
    → Covers b n lo list (num b s * width b n (length s))
    → length s ≤ n
    → All (IsDigit b) s
    → Covers b n lo (list ++ (reverse s ∷ [])) ((num b s + 1) * width b n (length s))
Covers-push_stack b n lo list s c h d =
    let at_start : first b n (reverse s) ≡ num b s * width b n (length s) =
      rw (reverse-reverse s, length-reverse s) in
    let at_end : past b n (reverse s) ≡ (num b s + 1) * width b n (length s) =
      rw (reverse-reverse s, length-reverse s) in
    let short : length (reverse s) ≤ n = rw (length-reverse s) h in
    let covered =
      Covers-push b n lo (num b s * width b n (length s)) list (reverse s) c short
        (All-reverse (IsDigit b) s d) at_start in
    rw at_end at covered

pub width_split : (b n k : ℕ) → k ≤ n → b ^ k * width b n k ≡ b ^ n
width_split b n zero h =
    let e : n - 0 ≡ n = omega arith in rw e (omega (arith, ap (λ (t : ℕ). t * b ^ n) (pow-zero b)))
width_split b n (suc k) h = omega (
  arith,
  width_split b n k (omega arith),
  ap (λ (t : ℕ). b ^ k * t) (width-suc b n k h),
  ap (λ (t : ℕ). t * width b n (suc k)) (pow-suc b k),
)

-- One number `v` of the prefix `p ++ q`, in the units of its last digit.
shifted : (b n v w k : ℕ) → k ≤ n → (v * b ^ k + w) * width b n k ≡ v * b ^ n + w * width b n k
shifted b n v w k h = omega (arith, ap (λ (t : ℕ). v * t) (width_split b n k h))

width_shift : (b n m k : ℕ) → width b (m + n) (m + k) ≡ width b n k
width_shift b n m k = ap (λ (t : ℕ). b ^ t) (omega arith)

-- Digits put in front shift what is covered.
pub Covers-prefix :
    (b n lo hi : ℕ) (p : List ℕ) (list : List (List ℕ))
    → All (IsDigit b) p
    → Covers b n lo list hi
    → Covers b
        (length p + n)
        (value b p * b ^ n + lo)
        (map (λ x. p ++ x) list)
        (value b p * b ^ n + hi)
Covers-prefix b n lo hi p [] d c = ap (λ (t : ℕ). value b p * b ^ n + t) c
Covers-prefix b n lo hi p (q ∷ list) d c =
    let v = value b p in
    let k = length q in
    let len : length (p ++ q) ≡ length p + k = length-append p q in
    let at_start : first b (length p + n) (p ++ q) ≡ v * b ^ n + first b n q =
      rw (len, value-append b p q, width_shift b n (length p) k)
        (shifted b n v (value b q) k c.0) in
    let at_end : past b (length p + n) (p ++ q) ≡ v * b ^ n + past b n q =
      rw (len, value-append b p q, width_shift b n (length p) k)
        (rw (add_assoc (v * b ^ k) (value b q) 1) (shifted b n v (value b q + 1) k c.0)) in
    (
      omega (arith, len, c.0),
      All-append (IsDigit b) p q d c.1,
      at_start ∙ ap (λ (t : ℕ). v * b ^ n + t) c.2,
      rw at_end (Covers-prefix b n (past b n q) hi p list d c.3),
    )
