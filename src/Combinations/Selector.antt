-- ===== src/Combinations/Selector.antt =====
-- The two loops of `next` as a function by recursion on the selector.
use rust_dlc.Base.{
  ℕ, zero, suc, ◌-◌, ◌==◌, Bool, true, if◌then◌else◌, Option-cases, Outcome-cases, ok, ◌>>=◌,
  Option, none, some, List, [], ◌∷◌, get_elem?, get_elem?-some, length, ◌≡◌, refl, ◌∙◌, fun_ext,
  ◌≤◌, ◌<◌, arith, ap, ap₂, inl, inr,
}
use rust_dlc.Combinations.{count_from, sub_usize, put, rewind, fill, bump}

-- The last index, up to `i`, that a test does not pass.
abbrev pub last_failing : (ℕ → Bool) → ℕ → Option ℕ
last_failing test zero = if test 0 then none else some 0
last_failing test (suc i) =
    let rest = last_failing test i in if test (suc i) then rest else some (suc i)

abbrev pub or_else : Bool → Option ℕ → Option ℕ
or_else greatest (some i) = some (suc i)
or_else greatest none = if greatest then none else some 0

-- The element to raise: the last that does not have its greatest value.
abbrev pub position : ℕ → List ℕ → Option ℕ
position limit [] = none
position limit (x ∷ xs) = or_else (x == limit - 1 - length xs) (position limit xs)

abbrev pub raise : List ℕ → ℕ → List ℕ
raise [] i = []
raise (x ∷ xs) zero = count_from (suc x) (suc (length xs))
raise (x ∷ xs) (suc i) = x ∷ raise xs i

abbrev pub or_first : Option ℕ → ℕ
or_first none = 0
or_first (some i) = i

pub sub_usize_ok : (a b : ℕ) → b ≤ a → sub_usize a b ≡ ok (a - b)
unfolding sub_usize
sub_usize_ok a b h = ground arith

pub sub_usize-suc : (a : ℕ) → sub_usize (suc a) 1 ≡ ok a
unfolding sub_usize
sub_usize-suc a = ground arith

-- The test of the first loop.
abbrev pub test_at : List ℕ → ℕ → ℕ → ℕ → Bool
test_at selector limit last i = elim (get_elem? selector i) [
  | none ↦ true
  | some x ↦ x == limit - 1 - (last - i)
]

pub rewind-last_failing :
    (selector : List ℕ) (limit last i : ℕ)
    → i ≤ last
    → last < length selector
    → length selector ≤ limit
    → rewind selector limit last i ≡ ok (or_first (last_failing (test_at selector limit last) i))
unfolding rewind
rewind-last_failing selector limit last zero h l n = ground arith
rewind-last_failing selector limit last (suc i) h l n =
    let (x, e) = get_elem?-some selector (suc i) (omega arith) in
    let ih = rewind-last_failing selector limit last i (omega arith) l n in
    ground (
      arith,
      e,
      ih,
      sub_usize_ok limit 1,
      sub_usize_ok last (suc i),
      sub_usize_ok (limit - 1) (last - suc i),
    )

-- The search from the last index of a list is one of the tail, then of the first element.
last_failing-suc :
    (test : ℕ → Bool) (i : ℕ)
    → last_failing test (suc i) ≡ or_else (test 0) (last_failing (λ j. test (suc j)) i)
last_failing-suc test zero = ground arith
last_failing-suc test (suc i) = ground (arith, last_failing-suc test i)

test_at-suc :
    (limit x y : ℕ) (ys : List ℕ) (j : ℕ)
    → test_at (x ∷ y ∷ ys) limit (suc (length ys)) (suc j) ≡ test_at (y ∷ ys) limit (length ys) j
test_at-suc limit x y ys j = elim (Option-cases (get_elem? (y ∷ ys) j)) [
  | inl e ↦ rw (test_at, e) refl
  | inr (z, e) ↦ rw (test_at, e) (ap (λ (k : ℕ). z == limit - 1 - k) (omega arith))
]

pub position-last_failing :
    (limit x : ℕ) (xs : List ℕ)
    → last_failing (test_at (x ∷ xs) limit (length xs)) (length xs) ≡ position limit (x ∷ xs)
position-last_failing limit x [] = ground arith
position-last_failing limit x (y ∷ ys) =
    last_failing-suc (test_at (x ∷ y ∷ ys) limit (suc (length ys))) (length ys)
    ∙ ap₂ or_else (ap (λ (k : ℕ). x == limit - 1 - k) (omega arith)) (
        ap (λ test. last_failing test (length ys)) (fun_ext (test_at-suc limit x y ys))
        ∙ position-last_failing limit y ys)

-- `fill` on a tail.
fill-cons :
    (rounds i v : ℕ) (xs : List ℕ)
    → fill rounds (suc (suc i)) (v ∷ xs) ≡ (fill rounds (suc i) xs >>= λ ys. ok (v ∷ ys))
unfolding fill put
fill-cons zero i v xs = refl
fill-cons (suc rounds) i v xs =
    rw (sub_usize-suc (suc i), sub_usize-suc i)
      (elim (Option-cases (get_elem? xs i)) [
        | inl e ↦ rw e refl
        | inr (x, e) ↦ rw e (elim (Outcome-cases (put xs (suc i) (suc x))) [
          | inl (ys, p) ↦ rw p (fill-cons rounds (suc i) v ys)
          | inr (inl (e', p)) ↦ rw p refl
          | inr (inr p) ↦ rw p refl
        ])
      ])

fill_all : (v : ℕ) (xs : List ℕ) → fill (length xs) 1 (v ∷ xs) ≡ ok (count_from v (suc (length xs)))
unfolding fill put
fill_all v [] = refl
fill_all v (x ∷ xs) =
    rw (sub_usize-suc 0)
      (rw (fill-cons (length xs) 0 v (suc v ∷ xs)) (rw (fill_all (suc v) xs) refl))

pub bump-raise :
    (selector : List ℕ) (last i : ℕ)
    → suc last ≡ length selector
    → i ≤ last
    → bump selector last i ≡ ok (raise selector i)
unfolding bump put fill
bump-raise [] last i e h = absurd (omega arith)
bump-raise (x ∷ xs) last zero e h =
    let l : last - 0 ≡ length xs = omega arith in rw l (fill_all (suc x) xs)
bump-raise (x ∷ xs) zero (suc i) e h = absurd (omega arith)
bump-raise (x ∷ xs) (suc last) (suc i) e h =
    let d : suc last - suc i ≡ last - i = omega arith in
    let ih = bump-raise xs last i (omega arith) (omega arith) in
    rw d (elim (Option-cases (get_elem? xs i)) [
      | inl g ↦ absurd (ground arith)
      | inr (y, g) ↦ rw g (elim (Outcome-cases (put xs i (suc y))) [
        | inl (ys, p) ↦ rw p (fill-cons (last - i) i x ys ∙ ground arith)
        | inr (inl (e', p)) ↦ ground arith
        | inr (inr p) ↦ ground arith
      ])
    ])
