-- ===== src/Contracts/Groups.antt =====
-- The groups that the attested outcomes fall into: their indexes ascend, and each oracle of a group
-- attested its value.
use rust_dlc.Base.{
  ℕ, suc, zero, ◌≤◌, ◌≡◌, ◌==◌, Bool-cases, inl, inr, Outcome, ok, ◌>>=◌, unwrap, Option, none,
  some, List, [], ◌∷◌, ◌++◌, map, length, take, All, All-append, All-imp, All-tabulate,
  All-get_elem?, get_elem?, arith, >>=-eq-ok, unwrap-some,
}
use mathlib.Core.Option.{some-injective}
use mathlib.Core.Path.{subst}
use rust_dlc.Combinations.{slice_eq}
use rust_dlc.Combinations.Index.{Ascending, slice_eq-true}
use rust_dlc.Dlc.Order.{sort_by_id-All, second}
use rust_dlc.Contracts.Types.{Error}
use rust_dlc.Contracts.Majority.{
  Entry, HashOrder, push_index, group_outcomes, pop_last, sort_by_count, get_majority_combination,
}
use rust_dlc.Contracts.Enum.{single_outcomes}

Ascending-limit : (start k l : ℕ) (c : List ℕ) → k ≤ l → Ascending start k c → Ascending start l c
Ascending-limit start k l [] h a = tt
Ascending-limit start k l (x ∷ c) h (a, b, r) = (a, omega arith, Ascending-limit (suc x) k l c h r)

pub Ascending-start :
    (start s l : ℕ) (c : List ℕ) → s ≤ start → Ascending start l c → Ascending s l c
Ascending-start start s l [] h a = tt
Ascending-start start s l (x ∷ c) h (a, b, r) = (omega arith, b, r)

Ascending-snoc :
    (start l i : ℕ) (c : List ℕ)
    → start ≤ i
    → l ≤ i
    → Ascending start l c
    → Ascending start (suc i) (c ++ i ∷ [])
Ascending-snoc start l i [] s h a = (s, omega arith, tt)
Ascending-snoc start l i (x ∷ c) s h (a, b, r) =
    (a, omega arith, Ascending-snoc (suc x) l i c (omega arith) h r)

pub Ascending-take :
    (start l n : ℕ) (c : List ℕ) → Ascending start l c → Ascending start l (take n c)
Ascending-take start l zero c a = tt
Ascending-take start l (suc n) [] a = tt
Ascending-take start l (suc n) (x ∷ c) (a, b, r) = (a, b, Ascending-take (suc x) l n c r)

-- The indexes of the outcomes.
abbrev pub indexes_of : List (ℕ × List ℕ) → List ℕ
indexes_of [] = []
indexes_of ((i, v) ∷ outcomes) = i ∷ indexes_of outcomes

pub single_outcomes-Ascending :
    (start l : ℕ) (outcomes : List (ℕ × List ℕ))
    → Ascending start l (indexes_of outcomes)
    → Ascending start l (indexes_of (single_outcomes outcomes))
single_outcomes-Ascending start l [] a = tt
single_outcomes-Ascending start l ((i, v) ∷ outcomes) (a, b, r) =
    let rest = single_outcomes-Ascending (suc i) l outcomes r in
    elim (Bool-cases (length v == 1)) [
      | inl e ↦ rw e (a, b, rest)
      | inr e ↦ rw e (Ascending-start (suc i) start l _ (omega arith) rest)
    ]

module _ (R : ℕ → List ℕ → Type 0) where
  abbrev pub IsGroup : ℕ → Entry → Type 0
  IsGroup l e = Ascending 0 l e.1 × All (λ i. R i e.0) e.1

  raise_limit : (k l : ℕ) → k ≤ l → (e : Entry) → IsGroup k e → IsGroup l e
  raise_limit k l h e (a, r) = (Ascending-limit 0 k l e.1 h a, r)

  push_index-IsGroup :
      (v : List ℕ) (l i : ℕ) (m : List Entry)
      → l ≤ i
      → R i v
      → All (IsGroup l) m
      → All (IsGroup (suc i)) (push_index v i m)
  unfolding push_index
  push_index-IsGroup v l i [] h r a = (((omega arith, omega arith, tt), (r, tt)), tt)
  push_index-IsGroup v l i ((w, c) ∷ m) h r ((a, b), as') = elim (Bool-cases (slice_eq w v)) [
    | inl e ↦
        let q = slice_eq-true w v e in
        rw e (
          (Ascending-snoc 0 l i c (omega arith) h a, All-append _ c (i ∷ []) b (rw q r, tt)),
          All-imp _ _ (raise_limit l (suc i) (omega arith)) m as',
        )
    | inr e ↦
        rw e
          ((Ascending-limit 0 l (suc i) c (omega arith) a, b), push_index-IsGroup v l i m h r as')
  ]

  group_outcomes-IsGroup :
      (outcomes : List (ℕ × List ℕ)) (l limit : ℕ) (m : List Entry)
      → l ≤ limit
      → Ascending l limit (indexes_of outcomes)
      → All (λ o. R o.0 o.1) outcomes
      → All (IsGroup l) m
      → All (IsGroup limit) (group_outcomes outcomes m)
  unfolding group_outcomes
  group_outcomes-IsGroup [] l limit m h a r g = All-imp _ _ (raise_limit l limit h) m g
  group_outcomes-IsGroup ((i, v) ∷ outcomes) l limit m h (a, b, c) (r, rs) g =
      group_outcomes-IsGroup outcomes (suc i) limit (push_index v i m) b c rs
        (push_index-IsGroup v l i m a r g)

pop_last-All :
    (P : Entry → Type 0) (es : List Entry) (e : Entry) → All P es → pop_last es ≡ some e → P e
unfolding pop_last
pop_last-All P [] e h g = cc
pop_last-All P (x ∷ []) e (p, h) g = subst P (some-injective _ _ g) p
pop_last-All P (x ∷ y ∷ es) e (p, h) g = pop_last-All P (y ∷ es) e h g

abbrev counted : Entry → ℕ × Entry
counted e = (length e.1, e)

seconds : (P : Entry → Type 0) (es : List Entry) → All P es → All P (map second (map counted es))
seconds P [] h = tt
seconds P (e ∷ es) (p, h) = (p, seconds P es h)

-- An oracle attested a value.
abbrev pub Attested : List (ℕ × List ℕ) → ℕ → List ℕ → Type 0
Attested outcomes i v = (j : ℕ) × (get_elem? outcomes j ≡ some (i, v))

module _ (order : HashOrder) (outcomes : List (ℕ × List ℕ)) where
  -- What holds of each group holds of the one that is returned.
  pub majority-All :
      (P : Entry → Type 0) (e : Entry)
      → All P (group_outcomes outcomes [])
      → get_majority_combination order outcomes ≡ ok (some e)
      → P e
  unfolding get_majority_combination sort_by_count
  majority-All P e h g = from (group_outcomes outcomes []) h g
    where
      from :
          (m : List Entry)
          → All P m
          → ◌≡◌ {A = Outcome Error (Option Entry)}
              (elim m [
                | [] ↦ ok none
                | m' ↦ do
                  last ← unwrap (pop_last (sort_by_count (order.iterate m')))
                  ok (some last)
              ])
              (ok (some e))
          → P e
      from [] h g = cc
      from (x ∷ m) h g =
          let visited = All-tabulate P (order.iterate (x ∷ m)) (λ i a q.
            let (j, r) = order.visits_entry (x ∷ m) i a q in All-get_elem? P (x ∷ m) j h r) in
          let sorted = (sort_by_id-All P _).1 (seconds P (order.iterate (x ∷ m)) visited) in
          let (last, k, l) =
            >>=-eq-ok (unwrap (pop_last (sort_by_count (order.iterate (x ∷ m))))) _ g in
          let q : last ≡ e = cc in
          subst P q
            (pop_last-All P (sort_by_count (order.iterate (x ∷ m))) last sorted (unwrap-some _ k))

  -- The majority is a group of oracles in ascending order, each of which attested its value.
  pub majority-IsGroup :
      (limit : ℕ) (e : Entry)
      → Ascending 0 limit (indexes_of outcomes)
      → get_majority_combination order outcomes ≡ ok (some e)
      → IsGroup (Attested outcomes) limit e
  majority-IsGroup limit e a g =
      majority-All (IsGroup (Attested outcomes) limit) e
        (group_outcomes-IsGroup (Attested outcomes) outcomes 0 limit [] (omega arith) a
          (All-tabulate (λ o. Attested outcomes o.0 o.1) outcomes (λ j o h. (j, h))) tt)
        g
