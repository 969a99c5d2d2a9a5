-- ===== src/Digits/Stack.antt =====
-- The stack operations of `group_by_ignoring_digits`: what they do to the number that the digits
-- stand for, to their count and to the digit at the bottom.
use rust_dlc.Base.{
  ℕ, suc, ◌+◌, ◌-◌, ◌*◌, ◌≤◌, ◌<◌, ◌≡◌, refl, ◌≢◌, ◌∙◌, sym, List, [], ◌∷◌, arith, length, All, ap,
  Bool-cases, inl, inr, ◌==◌, ==_iff, ltb, ◌⊎◌, true,
}
use rust_dlc.Digits.{remove_tail, bottom, every, list_eq}
use rust_dlc.Digits.Value.{num, IsDigit}
use rust_dlc.Digits.Cover.{width, width-suc}

-- The first number that begins with the digits of a stack, and the first one past those.
abbrev pub low : ℕ → ℕ → List ℕ → ℕ
low b n s = num b s * width b n (length s)

abbrev pub high : ℕ → ℕ → List ℕ → ℕ
high b n s = (num b s + 1) * width b n (length s)

abbrev pub top : List ℕ → ℕ
top [] = 0
top (x ∷ s) = x

pub low_zero : (b n : ℕ) (s : List ℕ) → suc (length s) ≤ n → low b n (0 ∷ s) ≡ low b n s
low_zero b n s h = omega (arith, ap (λ (t : ℕ). num b s * t) (width-suc b n (length s) h))

pub high_full :
    (b n : ℕ) (s : List ℕ) → 0 < b → suc (length s) ≤ n → high b n ((b - 1) ∷ s) ≡ high b n s
high_full b n s p h =
    let e : b - 1 + b * num b s + 1 ≡ b * (num b s + 1) = omega arith in
    rw e (omega (arith, ap (λ (t : ℕ). (num b s + 1) * t) (width-suc b n (length s) h)))

-- What `remove_tail` leaves: a stack with the same bottom, no longer, whose top is not the removed
-- digit unless it is the only one.
pub record Trimmed (r : ℕ) (s t : List ℕ) : Type 0 where
  pub some_left : 0 < length t
  pub shorter : length t ≤ length s
  pub same_bottom : bottom t ≡ bottom s
  pub stops : (length t ≡ 1) ⊎ (top t ≢ r)

pub remove_tail-Trimmed : (r : ℕ) (s : List ℕ) → 0 < length s → Trimmed r s (remove_tail s r)
unfolding remove_tail bottom
remove_tail-Trimmed r [] h = absurd (omega arith)
remove_tail-Trimmed r (x ∷ []) h = record {
  some_left = omega arith;
  shorter = omega arith;
  same_bottom = refl;
  stops = inl refl;
}
remove_tail-Trimmed r (x ∷ y ∷ s) h = elim (Bool-cases (x == r)) [
  | inl e ↦
      let ih = remove_tail-Trimmed r (y ∷ s) (omega arith) in
      rw e (record {
        some_left = ih.some_left;
        shorter = omega (arith, ih.shorter);
        same_bottom = ih.same_bottom;
        stops = ih.stops;
      })
  | inr e ↦ rw e (record {
    some_left = omega arith;
    shorter = omega arith;
    same_bottom = refl;
    stops = inr (ground arith);
  })
]

pub remove_tail-All {κ} : (P : ℕ → Type κ) (r : ℕ) (s : List ℕ) → All P s → All P (remove_tail s r)
unfolding remove_tail
remove_tail-All P r [] h = tt
remove_tail-All P r (x ∷ []) h = h
remove_tail-All P r (x ∷ y ∷ s) h = elim (Bool-cases (x == r)) [
  | inl e ↦ rw e (remove_tail-All P r (y ∷ s) h.1)
  | inr e ↦ rw e h
]

pub remove_tail-shorter :
    (x y : ℕ) (s : List ℕ) → length (remove_tail (x ∷ y ∷ s) x) ≤ length (y ∷ s)
unfolding remove_tail
remove_tail-shorter x y s =
    rw ((==_iff x x).1 refl) ((remove_tail-Trimmed x (y ∷ s) (omega arith)).shorter)

pub low-remove_tail : (b n : ℕ) (s : List ℕ) → length s ≤ n → low b n (remove_tail s 0) ≡ low b n s
unfolding remove_tail
low-remove_tail b n [] h = refl
low-remove_tail b n (x ∷ []) h = refl
low-remove_tail b n (x ∷ y ∷ s) h = elim (Bool-cases (x == 0)) [
  | inl e ↦ rw e (
      rw ((==_iff x 0).0 e)
        (low-remove_tail b n (y ∷ s) (omega arith) ∙ sym (low_zero b n (y ∷ s) h)))
  | inr e ↦ rw e
]

pub high-remove_tail :
    (b n : ℕ) (s : List ℕ) → 0 < b → length s ≤ n → high b n (remove_tail s (b - 1)) ≡ high b n s
unfolding remove_tail
high-remove_tail b n [] p h = refl
high-remove_tail b n (x ∷ []) p h = refl
high-remove_tail b n (x ∷ y ∷ s) p h = elim (Bool-cases (x == b - 1)) [
  | inl e ↦ rw e (
      rw ((==_iff x (b - 1)).0 e)
        (high-remove_tail b n (y ∷ s) p (omega arith) ∙ sym (high_full b n (y ∷ s) p h)))
  | inr e ↦ rw e
]

pub every-IsDigit : (b : ℕ) (s : List ℕ) → All (IsDigit b) s → every (λ d. ltb d b) s ≡ true
every-IsDigit b [] h = refl
every-IsDigit b (x ∷ s) h = ground (arith, every-IsDigit b s h.1)

pub list_eq_iff :
    (xs ys : List ℕ) → (list_eq xs ys ≡ true → xs ≡ ys) × (xs ≡ ys → list_eq xs ys ≡ true)
list_eq_iff [] [] = (λ e. refl, λ e. refl)
list_eq_iff [] (y ∷ ys) = (λ e. cc, λ e. cc)
list_eq_iff (x ∷ xs) [] = (λ e. cc, λ e. cc)
list_eq_iff (x ∷ xs) (y ∷ ys) = ground (arith, list_eq_iff xs ys)
