-- ===== src/Digits/Group.antt =====
-- `group_by_ignoring_digits` returns prefixes that cover exactly the range it is given.
use rust_dlc.Base.{
  ℕ, ◌+◌, ◌-◌, ◌*◌, ◌^◌, ◌≤◌, ◌<◌, ◌≡◌, refl, ◌≢◌, ◌∙◌, sym, List, [], ◌∷◌, ◌++◌, map, arith,
  length, length-append, All, ap, Bool-cases, inl, inr, ◌==◌, true, false, ok, if◌then◌else◌, ◌&&◌,
}
use rust_dlc.Digits.{
  bottom, cover_between, every, list_eq, decompose_value, group_by_ignoring_digits,
}
use rust_dlc.Digits.Value.{value, IsDigit, length-reverse, All-reverse, value-append}
use rust_dlc.Digits.Between.{width_full, cover_between-Covers}
use rust_dlc.Digits.Cover.{width, Covers, Covers-prefix}
use rust_dlc.Digits.Decompose.{decompose_value_lem}
use mathlib.Core.List.{reverse, reverse-append}
use mathlib.Core.Path.{subst, subst₂, subst₃}
use native.Mathlib.Decide.{dec_lt}
use rust_dlc.Digits.Prefix.{
  Split, All-append_parts, split_prefix_lem, first_digit_lt, take_prefix_same, take_prefix_differ,
  every_zero, and_true, every_full,
}

group_same :
    (v b n : ℕ) (ds : List ℕ)
    → decompose_value v b n ≡ ok ds
    → group_by_ignoring_digits v v b n ≡ ok (ds ∷ [])
unfolding group_by_ignoring_digits
group_same v b n ds e = rw e (rw (take_prefix_same ds))

prefixed : (prefix : List ℕ) (l : List (List ℕ)) → List (List ℕ)
prefixed prefix l = if list_eq prefix [] then l else map (λ x. prefix ++ x) l

prefixed-map : (p : List ℕ) (l : List (List ℕ)) → prefixed p l ≡ map (λ x. p ++ x) l
unfolding prefixed
prefixed-map [] [] = refl
prefixed-map [] (q ∷ l) = ap (λ z. q ∷ z) (prefixed-map [] l)
prefixed-map (x ∷ p) l = refl

group_whole :
    (v w b n : ℕ) (ds de : List ℕ)
    → decompose_value v b n ≡ ok ds
    → decompose_value w b n ≡ ok de
    → ds ≢ de
    → (s : Split ds de)
    → (every (λ d. d == 0) (s.x ∷ s.xs) && every (λ d. d == b - 1) (s.y ∷ s.ys)) ≡ true
    → group_by_ignoring_digits v w b n ≡ ok (s.prefix ∷ [])
unfolding group_by_ignoring_digits
group_whole v w b n ds de ev ew ne s h = rw (ev, ew, take_prefix_differ ds de ne, s.result) (rw h)

group_parts :
    (v w b n : ℕ) (ds de : List ℕ)
    → decompose_value v b n ≡ ok ds
    → decompose_value w b n ≡ ok de
    → ds ≢ de
    → (s : Split ds de)
    → (every (λ d. d == 0) (s.x ∷ s.xs) && every (λ d. d == b - 1) (s.y ∷ s.ys)) ≡ false
    → (l : List (List ℕ)) → cover_between b n (reverse (s.x ∷ s.xs)) (reverse (s.y ∷ s.ys)) ≡ ok l
    → group_by_ignoring_digits v w b n ≡ ok (prefixed s.prefix l)
unfolding group_by_ignoring_digits prefixed
group_parts v w b n ds de ev ew ne s h l c =
    rw (ev, ew, take_prefix_differ ds de ne, s.result) (rw h (rw c))

bottom-append : (s : List ℕ) (x : ℕ) → bottom (s ++ x ∷ []) ≡ x
unfolding bottom
bottom-append [] x = refl
bottom-append (y ∷ []) x = refl
bottom-append (y ∷ z ∷ s) x = bottom-append (z ∷ s) x

bottom-reverse_cons : (x : ℕ) (s : List ℕ) → bottom (reverse (x ∷ s)) ≡ x
bottom-reverse_cons x s = rw (reverse-append (x ∷ []) s) (bottom-append (reverse s) x)

-- A prefix `p` behind which stand the `m` digits `a` of the start and `z` of the end.
module _ (b n m : ℕ) (p a z : List ℕ) (len : length p + m ≡ n) (la : length a ≡ m)
    (lz : length z ≡ m) (hp : All (IsDigit b) p) where
  value_start : value b (p ++ a) ≡ value b p * b ^ m + value b a
  value_start = rw (value-append b p a, la)

  value_end : value b (p ++ z) ≡ value b p * b ^ m + value b z
  value_end = rw (value-append b p z, lz)

  Covers-whole :
      value b a ≡ 0
      → value b z + 1 ≡ b ^ m
      → Covers b n (value b (p ++ a)) (p ∷ []) (value b (p ++ z) + 1)
  Covers-whole va vz =
      let w : width b n (length p) ≡ b ^ m = ap (λ t. b ^ t) (omega arith) in
      (omega arith, hp, rw w (omega (arith, value_start)), rw w (omega (arith, value_end)))

  Covers-parts :
      (l : List (List ℕ))
      → Covers b m (value b a) l (value b z + 1)
      → Covers b n (value b (p ++ a)) (prefixed p l) (value b (p ++ z) + 1)
  Covers-parts l c =
      let shifted = Covers-prefix b m (value b a) (value b z + 1) p l hp c in
      rw (prefixed-map p l) (
        subst₃ (λ k u v. Covers b k u (map (λ x. p ++ x) l) v) len (sym value_start)
          (omega (arith, value_end)) shifted)

-- The range lies inside the prefix, or is cut up behind it.
group_differ :
    (v w b n : ℕ) (ds de : List ℕ)
    → 2 ≤ b
    → decompose_value v b n ≡ ok ds
    → decompose_value w b n ≡ ok de
    → length ds ≡ n
    → length de ≡ n
    → All (IsDigit b) ds
    → All (IsDigit b) de
    → (ne : ds ≢ de) → value b ds < value b de
    → (s : Split ds de)
    → (list : List (List ℕ)) × (group_by_ignoring_digits v w b n ≡ ok list)
      × Covers b n (value b ds) list (value b de + 1)
group_differ v w b n ds de two ev ew ls le hs he ne lt s =
    let a = s.x ∷ s.xs in
    let z = s.y ∷ s.ys in
    let m = length a in
    let p = s.prefix in
    let (hp, ha) = All-append_parts (IsDigit b) p a (subst (All (IsDigit b)) s.front hs) in
    let (_, hz) = All-append_parts (IsDigit b) p z (subst (All (IsDigit b)) s.back he) in
    let lz : length z ≡ m =
      omega (arith, ap length s.front, ap length s.back, length-append p a, length-append p z) in
    let ln : length p + m ≡ n = omega (arith, ap length s.front, length-append p a) in
    let back = λ (l : List (List ℕ)) (c : Covers b n (value b (p ++ a)) l (value b (p ++ z) + 1)).
      subst₂ (λ u v. Covers b n (value b u) l (value b v + 1)) (sym s.front) (sym s.back) c in
    elim (Bool-cases (every (λ d. d == 0) a && every (λ d. d == b - 1) z)) [
      | inl whole ↦
          let (zeros, fulls) = and_true (every (λ d. d == 0) a) _ whole in
          (
            p ∷ [],
            group_whole v w b n ds de ev ew ne s whole,
            back (p ∷ []) (
                Covers-whole b n m p a z ln refl lz hp (every_zero b a zeros)
                  (every_full b z (omega arith) fulls ∙ ap (λ t. b ^ t) lz)),
          )
      | inr parts ↦
          let behind : value b a < value b z = omega (
            arith,
            value_start b n m p a z ln refl lz hp,
            value_end b n m p a z ln refl lz hp,
            ap (value b) s.front,
            ap (value b) s.back,
          ) in
          let less : s.x < s.y =
            first_digit_lt b s.x s.y s.xs s.ys (omega arith) hz.1 behind s.differ in
          let (l, e, c) =
            cover_between-Covers b m n two (omega arith) (omega arith) (reverse a) (reverse z)
              (length-reverse a) (length-reverse z ∙ lz) (All-reverse (IsDigit b) a ha)
              (All-reverse (IsDigit b) z hz)
              (rw (bottom-reverse_cons s.x s.xs, bottom-reverse_cons s.y s.ys) less) in
          (
            prefixed p l,
            group_parts v w b n ds de ev ew ne s parts l e,
            back (prefixed p l) (Covers-parts b n m p a z ln refl lz hp l c),
          )
    ]

-- The prefixes returned for a range cover each of its numbers exactly once, in order, and no other
-- number: over a base of two or more, for a range that fits the digits and an `f64`.
pub group_by_ignoring_digits-Covers :
    (start end b n : ℕ)
    → 2 ≤ b
    → b < 2 ^ 53
    → start ≤ end
    → end < 2 ^ 53
    → end < b ^ n
    → (list : List (List ℕ)) × (group_by_ignoring_digits start end b n ≡ ok list)
      × Covers b n start list (end + 1)
group_by_ignoring_digits-Covers start end b n two small le he fit =
    let (ds, ev, ls, hs, vs) =
      decompose_value_lem start b n two small (omega arith) (omega arith) in
    let (de, ew, lz, hz, vz) = decompose_value_lem end b n two small he fit in
    elim (dec_lt start end) [
      | yes lt ↦
          let ne : ds ≢ de = λ e. absurd (omega (arith, ap (value b) e)) in
          let (list, r, c) =
            group_differ start end b n ds de two ev ew ls lz hs hz ne (omega arith)
              (split_prefix_lem ds de (omega arith) ne) in
          (list, r, subst₂ (λ u v. Covers b n u list (v + 1)) vs vz c)
      | no nl ↦
          let same : start ≡ end = omega arith in
          let one : width b n (length ds) ≡ 1 = width_full b n (length ds) ls in
          (
            ds ∷ [],
            subst (λ t. group_by_ignoring_digits start t b n ≡ ok (ds ∷ [])) same
                (group_same start b n ds ev),
            (omega arith, hs, rw one (omega arith), rw one (omega arith)),
          )
    ]
