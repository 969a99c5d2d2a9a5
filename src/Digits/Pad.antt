-- ===== src/Digits/Pad.antt =====
-- dlc-trie/src/digit_decomposition.rs, `pad_range_payouts`: ranges that do not reach the first or the
-- last outcome are made to.
use mathlib.Core.Path.{subst}
use rust_dlc.Base.{
  ℕ, ◌+◌, ◌%◌, ◌^◌, ◌≤◌, ◌<◌, ◌≡◌, refl, ap, ◌∙◌, Bool-cases, inl, inr, ◌==◌, if◌then◌else◌,
  Outcome, ok, panic, List, [], ◌∷◌, map, arith,
}
use rust_dlc.Digits.{Stuck}
use rust_dlc.Dlc.Types.{RangePayout, add64, sub64, u64_mod}

-- `if outcomes[0].start != 0`
unfoldable pub pad_first : RangePayout → RangePayout
pad_first x =
    if x.start == 0
    then x
    else record { start = 0; count = add64 x.count x.start; payout = x.payout }

-- `if last_outcome.start + last_outcome.count != max_value`, on the last element.
unfoldable pub pad_last : ℕ → List RangePayout → List RangePayout
pad_last max_value [] = []
pad_last max_value (x ∷ []) =
    (if add64 x.start x.count == max_value
      then x
      else record { start = x.start; count = sub64 max_value x.start; payout = x.payout })
    ∷ []
pad_last max_value (x ∷ y ∷ outcomes) = x ∷ pad_last max_value (y ∷ outcomes)

-- The index of the first element is out of bounds when there is none; the power wraps.
unfoldable pub pad_range_payouts : List RangePayout → ℕ → ℕ → Outcome Stuck (List RangePayout)
unfolding pad_first pad_last
pad_range_payouts [] base nb_digits = panic
pad_range_payouts (x ∷ outcomes) base nb_digits =
    ok (pad_last (base ^ nb_digits % u64_mod) (pad_first x ∷ outcomes))

-- Ranges that follow one another without a gap, from one number up to another.
abbrev pub Tiles : ℕ → List RangePayout → ℕ → Type 0
Tiles start [] end = start ≡ end
Tiles start (x ∷ xs) end = (x.start ≡ start) × Tiles (start + x.count) xs end

abbrev pub last_start : List RangePayout → ℕ
last_start [] = 0
last_start (x ∷ []) = x.start
last_start (x ∷ y ∷ xs) = last_start (y ∷ xs)

Tiles-le : (s : ℕ) (xs : List RangePayout) (e : ℕ) → Tiles s xs e → s ≤ e
Tiles-le s [] e h = omega arith
Tiles-le s (x ∷ xs) e h = omega (arith, Tiles-le (s + x.count) xs e h.1)

pad_last-Tiles :
    (m s : ℕ) (x : RangePayout) (xs : List RangePayout) (e : ℕ)
    → m < u64_mod
    → e < u64_mod
    → last_start (x ∷ xs) ≤ m
    → Tiles s (x ∷ xs) e
    → Tiles s (pad_last m (x ∷ xs)) m
unfolding pad_last
pad_last-Tiles m s x [] e hm he hl h = elim (Bool-cases (add64 x.start x.count == m)) [
  | inl p ↦
      let reached : add64 x.start x.count ≡ m = ground arith in rw p (h.0, omega (arith, h.0, h.1))
  | inr p ↦ rw p (h.0, omega (arith, h.0))
]
pad_last-Tiles m s x (y ∷ xs) e hm he hl h =
    (h.0, pad_last-Tiles m (s + x.count) y xs e hm he hl h.1)

pad_last-payouts :
    (m : ℕ) (xs : List RangePayout)
    → map (λ (r : RangePayout). r.payout) (pad_last m xs) ≡ map (λ (r : RangePayout). r.payout) xs
unfolding pad_last
pad_last-payouts m [] = refl
pad_last-payouts m (x ∷ []) = elim (Bool-cases (add64 x.start x.count == m)) [
  | inl p ↦ rw p refl
  | inr p ↦ rw p refl
]
pad_last-payouts m (x ∷ y ∷ xs) = ap (λ z. x.payout ∷ z) (pad_last-payouts m (y ∷ xs))

pad_first-payout : (x : RangePayout) → (pad_first x).payout ≡ x.payout
unfolding pad_first
pad_first-payout x = elim (Bool-cases (x.start == 0)) [ inl p ↦ rw p refl | inr p ↦ rw p refl ]

pad_first_lem :
    (x : RangePayout) (a : ℕ)
    → x.start ≡ a
    → a + x.count < u64_mod
    → ((pad_first x).start ≡ 0) × ((pad_first x).count ≡ a + x.count)
unfolding pad_first
pad_first_lem x a h fits = elim (Bool-cases (x.start == 0)) [
  | inl p ↦ let zero_start : x.start ≡ 0 = ground arith in rw p (zero_start, omega arith)
  | inr p ↦ rw p (refl, omega arith)
]

last_start-pad_first :
    (x : RangePayout) (xs : List RangePayout) (m : ℕ)
    → (pad_first x).start ≡ 0
    → last_start (x ∷ xs) ≤ m
    → last_start (pad_first x ∷ xs) ≤ m
last_start-pad_first x [] m z h = omega arith
last_start-pad_first x (y ∷ xs) m z h = h

-- Ranges that follow one another without a gap, of 64-bit numbers and with the last one starting among
-- the outcomes, are padded to all outcomes, from 0 up to the base to the number of digits, again without
-- a gap, and their payouts stay the same.
pub pad_range_payouts-Tiles :
    (x : RangePayout) (xs : List RangePayout) (base nb_digits a e : ℕ)
    → base ^ nb_digits < u64_mod
    → e < u64_mod
    → last_start (x ∷ xs) ≤ base ^ nb_digits
    → Tiles a (x ∷ xs) e
    → (r : List RangePayout) × (pad_range_payouts (x ∷ xs) base nb_digits ≡ ok r)
      × Tiles 0 r (base ^ nb_digits)
      × (map (λ (p : RangePayout). p.payout) r ≡ map (λ (p : RangePayout). p.payout) (x ∷ xs))
unfolding pad_range_payouts
pad_range_payouts-Tiles x xs base nb_digits a e hm he hl h =
    let m = base ^ nb_digits in
    let small : m % u64_mod ≡ m = omega arith in
    let (z, c) = pad_first_lem x a h.0 (omega (arith, Tiles-le (a + x.count) xs e h.1)) in
    let tiles : Tiles 0 (pad_first x ∷ xs) e = (z, subst (λ n. Tiles n xs e) (omega arith) h.1) in
    (
      pad_last m (pad_first x ∷ xs),
      ap (λ n. ok (pad_last n (pad_first x ∷ xs))) small,
      pad_last-Tiles m 0 (pad_first x) xs e hm he (last_start-pad_first x xs m z hl) tiles,
      pad_last-payouts m (pad_first x ∷ xs)
          ∙ ap (λ p. p ∷ map (λ (q : RangePayout). q.payout) xs) (pad_first-payout x),
    )
