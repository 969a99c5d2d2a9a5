-- ===== src/Combinations/Step.antt =====
-- One call of `next`, by recursion on the selector.
use rust_dlc.Base.{
  ℕ, zero, suc, ◌+◌, ◌-◌, ◌==◌, unwrap, get_elem?, true, if◌then◌else◌, Option-cases, ok, ◌>>=◌,
  Option, none, some, List, [], ◌∷◌, length, ◌≡◌, refl, ap, ◌∙◌, ◌≤◌, ◌<◌, arith, inl, inr,
}
use rust_dlc.Combinations.{Run, CombinationIterator, next, sub_usize, rewind}
use rust_dlc.Combinations.Selector.{
  position, raise, or_first, or_else, rewind-last_failing, position-last_failing, bump-raise,
  sub_usize_ok, sub_usize-suc,
}

-- An iterator that gave `selector` last.
abbrev pub at : ℕ → ℕ → List ℕ → CombinationIterator
at nb_elements nb_selected selector = record {
  selector = selector;
  nb_selected = nb_selected;
  nb_elements = nb_elements;
  is_init = true;
}

abbrev pub successor : ℕ → List ℕ → Option (List ℕ)
successor limit selector = elim (position limit selector) [
  | none ↦ none
  | some i ↦ some (raise selector i)
]

position_rewound :
    (limit x : ℕ) (xs : List ℕ)
    → length xs < limit
    → rewind (x ∷ xs) limit (length xs) (length xs) ≡ ok (or_first (position limit (x ∷ xs)))
position_rewound limit x xs h =
    rewind-last_failing (x ∷ xs) limit (length xs) (length xs) (omega arith) (omega arith)
      (omega arith)
    ∙ ap (λ p. ok (or_first p)) (position-last_failing limit x xs)

position-le : (limit : ℕ) (xs : List ℕ) (i : ℕ) → position limit xs ≡ some i → i < length xs
position-le limit [] i h = cc
position-le limit (x ∷ xs) zero h = omega arith
position-le limit (x ∷ xs) (suc i) h = ground (arith, position-le limit xs i)

or_first_bound : (limit x : ℕ) (xs : List ℕ) → or_first (position limit (x ∷ xs)) ≤ length xs
or_first_bound limit x xs = elim (Option-cases (position limit (x ∷ xs))) [
  | inl e ↦ omega (arith, ap or_first e)
  | inr (i, e) ↦ omega (arith, ap or_first e, position-le limit (x ∷ xs) i e)
]

-- What `next` makes of the raised selector, when the first test and the search in the tail gave
-- `greatest` and `found`.
item_raised :
    (limit x : ℕ) (xs : List ℕ) (found : Option ℕ)
    → x + suc (length xs) ≤ limit
    → let p = or_else (x == limit - 1 - length xs) found in
      let s = raise (x ∷ xs) (or_first p) in
      let it = at limit (suc (length xs)) s in
      ◌≡◌ {A = Run (Option (List ℕ) × CombinationIterator)}
        (do
          first ← unwrap (get_elem? s 0)
          spare ← sub_usize limit (suc (length xs))
          ok (if first == suc spare then none else some s, it))
        (ok (elim p [ none ↦ none | some i ↦ some (raise (x ∷ xs) i) ], it))
item_raised limit x xs (some i) h =
    rw (sub_usize_ok limit (suc (length xs)) (omega arith)) (ground arith)
item_raised limit x xs none h =
    rw (sub_usize_ok limit (suc (length xs)) (omega arith)) (ground arith)

pub next-at :
    (limit x : ℕ) (xs : List ℕ)
    → x + suc (length xs) ≤ limit
    → next (at limit (suc (length xs)) (x ∷ xs))
      ≡ ok (
        successor limit (x ∷ xs),
        at limit (suc (length xs)) (raise (x ∷ xs) (or_first (position limit (x ∷ xs)))),
      )
unfolding next
next-at limit x xs h = rw (sub_usize-suc (length xs)) (
    rw (position_rewound limit x xs (omega arith)) (
      rw
        (bump-raise (x ∷ xs) (length xs) (or_first (position limit (x ∷ xs))) refl
          (or_first_bound limit x xs))
        (item_raised limit x xs (position limit xs) h)))
