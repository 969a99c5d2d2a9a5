-- ===== src/Contracts/Votes.antt =====
-- The majority is the value with the most votes.
use rust_dlc.Base.{
  ℕ, suc, ◌+◌, ◌≤◌, ◌<◌, ◌≡◌, ◌≢◌, refl, sym, ap, ◌∙◌, leb, if◌then◌else◌, true, Bool-cases, inl,
  inr, Outcome, ok, unwrap, ◌>>=◌, Option, none, some, Option-cases, List, [], ◌∷◌, ◌++◌, map,
  length, length-append, All, All-imp, All-get_elem?, get_elem?, arith,
}
use mathlib.Core.Option.{some-injective}
use mathlib.Core.Path.{subst}
use rust_dlc.Combinations.{slice_eq}
use rust_dlc.Combinations.Index.{slice_eq-true, slice_eq_refl}
use rust_dlc.Dlc.Order.{
  sort_by_id, insert_by_id, sort_by_id-All, sort_by_id-IsOrdered, IsOrdered, second,
}
use rust_dlc.Contracts.Types.{Error}
use rust_dlc.Contracts.Majority.{
  Entry, HashOrder, push_index, group_outcomes, pop_last, sort_by_count, get_majority_combination,
}
use rust_dlc.Contracts.Groups.{majority-All}

-- How many of the outcomes are the value.
abbrev pub votes : List ℕ → List (ℕ × List ℕ) → ℕ
votes value [] = 0
votes value ((i, v) ∷ outcomes) =
    let rest = votes value outcomes in if slice_eq v value then suc rest else rest

-- The indexes of the first entry with the value.
abbrev size_of : List ℕ → List Entry → ℕ
size_of value [] = 0
size_of value ((v, indexes) ∷ m) =
    let rest = size_of value m in if slice_eq v value then length indexes else rest

size_of-push_index :
    (value v : List ℕ) (i : ℕ) (m : List Entry)
    → size_of value (push_index v i m)
      ≡ (if slice_eq v value then suc (size_of value m) else size_of value m)
unfolding push_index
size_of-push_index value v i [] = refl
size_of-push_index value v i ((w, c) ∷ m) = elim (Bool-cases (slice_eq w v)) [
  | inl e ↦
      let same : slice_eq w value ≡ slice_eq v value =
        ap (λ u. slice_eq u value) (slice_eq-true w v e) in
      elim (Bool-cases (slice_eq v value)) [
        | inl t ↦ rw (e, same ∙ t, t) (omega (arith, length-append {0} c (i ∷ [])))
        | inr t ↦ rw (e, same ∙ t, t) refl
      ]
  | inr e ↦ elim (Bool-cases (slice_eq w value)) [
    | inl t ↦ elim (Bool-cases (slice_eq v value)) [
      | inl u ↦ absurd (
          cc (
            slice_eq_refl v,
            e,
            ap (λ x. slice_eq x v) (slice_eq-true w value t ∙ sym (slice_eq-true v value u)),
          ))
      | inr u ↦ rw (e, t, u) refl
    ]
    | inr t ↦ rw (e, t) (size_of-push_index value v i m)
  ]
]

size_of-group_outcomes :
    (value : List ℕ) (outcomes : List (ℕ × List ℕ)) (m : List Entry)
    → size_of value (group_outcomes outcomes m) ≡ size_of value m + votes value outcomes
unfolding group_outcomes
size_of-group_outcomes value [] m = omega arith
size_of-group_outcomes value ((i, v) ∷ outcomes) m =
    let rest = size_of-group_outcomes value outcomes (push_index v i m) in
    let pushed = size_of-push_index value v i m in
    elim (Bool-cases (slice_eq v value)) [
      | inl e ↦ let more = rw e at pushed in rw e (omega (arith, rest, more))
      | inr e ↦ let same = rw e at pushed in rw e (omega (arith, rest, same))
    ]

-- A value with a vote has an entry with as many indexes.
size_of-get_elem? :
    (value : List ℕ) (m : List Entry)
    → 0 < size_of value m
    → (j : ℕ) × (c : List ℕ) × (get_elem? m j ≡ some (value, c)) × (length c ≡ size_of value m)
size_of-get_elem? value [] p = absurd (omega arith)
size_of-get_elem? value ((w, c) ∷ m) p = elim (Bool-cases (slice_eq w value)) [
  | inl e ↦ (0, c, ap (λ u. some (u, c)) (slice_eq-true w value e), rw e refl)
  | inr e ↦ let (j, d, g, l) = size_of-get_elem? value m (rw e at p) in (suc j, d, g, rw e l)
]

-- No entry has more indexes than its value has votes.
one_more : (v u : List ℕ) (n k : ℕ) → n ≤ k → n ≤ (if slice_eq v u then suc k else k)
one_more v u n k h = ground arith

push_index-All :
    (f : List ℕ → ℕ) (v : List ℕ) (i : ℕ) (m : List Entry)
    → All (λ (e : Entry). length e.1 ≤ f e.0) m
    → All
        (λ (e : Entry). length e.1 ≤ (if slice_eq v e.0 then suc (f e.0) else f e.0))
        (push_index v i m)
unfolding push_index
push_index-All f v i [] h = (rw (slice_eq_refl v) (omega arith), tt)
push_index-All f v i ((w, c) ∷ m) (h, hs) = elim (Bool-cases (slice_eq w v)) [
  | inl e ↦
      let same : slice_eq v w ≡ true = ap (slice_eq v) (slice_eq-true w v e) ∙ slice_eq_refl v in
      let here : length (c ++ i ∷ []) ≤ (if slice_eq v w then suc (f w) else f w) =
        rw same (omega (arith, length-append {0} c (i ∷ []))) in
      rw e (here, All-imp _ _ (λ x l. one_more v x.0 (length x.1) (f x.0) l) m hs)
  | inr e ↦ rw e (one_more v w (length c) (f w) h, push_index-All f v i m hs)
]

group_outcomes-All :
    (f : List ℕ → ℕ) (outcomes : List (ℕ × List ℕ)) (m : List Entry)
    → All (λ (e : Entry). length e.1 ≤ f e.0) m
    → All (λ (e : Entry). length e.1 ≤ f e.0 + votes e.0 outcomes) (group_outcomes outcomes m)
unfolding group_outcomes
group_outcomes-All f [] m h = All-imp _ _ (λ x l. omega (arith, l)) m h
group_outcomes-All f ((i, v) ∷ outcomes) m h =
    All-imp _ _
      (λ x l. elim (Bool-cases (slice_eq v x.0)) [
        | inl e ↦ let more = rw e at l in rw e (omega (arith, more))
        | inr e ↦ let same = rw e at l in rw e (omega (arith, same))
      ])
      (group_outcomes outcomes (push_index v i m))
      (group_outcomes-All (λ u. if slice_eq v u then suc (f u) else f u) outcomes (push_index v i m)
        (push_index-All f v i m h))

-- The last of the sorted entries has the most indexes.
last-IsOrdered :
    (es : List (ℕ × Entry)) (e : Entry)
    → All (λ (x : ℕ × Entry). x.0 ≡ length x.1.1) es
    → IsOrdered es
    → pop_last (map second es) ≡ some e
    → All (λ (x : Entry). length x.1 ≤ length e.1) (map second es)
unfolding pop_last
last-IsOrdered [] e k o h = cc
last-IsOrdered (x ∷ []) e k o h =
    let same = some-injective _ _ h in
    (subst (λ (y : Entry). length x.1.1 ≤ length y.1) same (omega arith), tt)
last-IsOrdered (x ∷ y ∷ es) e (k, ks) (o, os) h =
    let rest = last-IsOrdered (y ∷ es) e ks os h in
    let below : length x.1.1 ≤ length e.1 = omega (arith, k, ks.0, o.0, rest.0) in (below, rest)

insert_by_id-All {ℓ} :
    {A : Type 0} (P : ℕ × A → Type ℓ) (e : ℕ × A) (es : List (ℕ × A))
    → P e
    → All P es
    → All P (insert_by_id e es)
unfolding insert_by_id
insert_by_id-All P e [] p h = (p, tt)
insert_by_id-All P e (f ∷ fs) p (h, hs) = elim (Bool-cases (leb e.0 f.0)) [
  | inl g ↦ rw g (p, (h, hs))
  | inr g ↦ rw g (h, insert_by_id-All P e fs p hs)
]

sorted_counts :
    (m : List Entry)
    → All (λ (x : ℕ × Entry). x.0 ≡ length x.1.1) (sort_by_id (map (λ e. (length e.1, e)) m))
unfolding sort_by_id
sorted_counts [] = tt
sorted_counts (e ∷ m) = insert_by_id-All _ (length e.1, e) _ refl (sorted_counts m)

seconds :
    (P : Entry → Type 0) (m : List Entry)
    → All P (map second (map (λ e. (length e.1, e)) m))
    → All P m
seconds P [] h = tt
seconds P (e ∷ m) (p, h) = (p, seconds P m h)

last-sort_by_count :
    (m : List Entry) (e : Entry)
    → pop_last (sort_by_count m) ≡ some e
    → All (λ (x : Entry). length x.1 ≤ length e.1) m
unfolding sort_by_count
last-sort_by_count m e h =
    let counted = map (λ (e : Entry). (length e.1, e)) m in
    seconds _ m (
      (sort_by_id-All _ counted).0
        (last-IsOrdered (sort_by_id counted) e (sorted_counts m) (sort_by_id-IsOrdered counted) h))

pop_last-none : {A : Type 0} (xs : List A) → pop_last xs ≡ none → xs ≡ []
unfolding pop_last
pop_last-none [] h = refl
pop_last-none (x ∷ []) h = cc
pop_last-none (x ∷ y ∷ xs) h = absurd (cc (pop_last-none (y ∷ xs) h))

counted_back :
    (m : List Entry) → All (λ e. ⊥) (map second (map (λ (e : Entry). (length e.1, e)) m)) → m ≡ []
counted_back [] h = refl
counted_back (e ∷ m) (h, hs) = absurd h

sort_by_count-last :
    (m : List Entry) (i : ℕ) (e : Entry)
    → get_elem? m i ≡ some e
    → (x : Entry) × (pop_last (sort_by_count m) ≡ some x)
unfolding sort_by_count
sort_by_count-last m i e h = elim (Option-cases (pop_last (sort_by_count m))) [
  | inl gone ↦
      let empty = pop_last-none (sort_by_count m) gone in
      let none_left = subst (λ l. All (λ e. ⊥) l) (sym empty) tt in
      let all_gone = counted_back m ((sort_by_id-All (λ e. ⊥) _).0 none_left) in
      absurd (cc (ap (λ l. get_elem? l i) all_gone))
  | inr found ↦ found
]

module _ (order : HashOrder) (outcomes : List (ℕ × List ℕ)) where
  -- The entry that is returned, when there is one.
  get_majority_combination-some :
      (j : ℕ) (e x : Entry)
      → get_elem? (group_outcomes outcomes []) j ≡ some e
      → pop_last (sort_by_count (order.iterate (group_outcomes outcomes []))) ≡ some x
      → get_majority_combination order outcomes ≡ ok (some x)
  unfolding get_majority_combination
  get_majority_combination-some j e x g h = from (group_outcomes outcomes []) g h
    where
      from :
          (m : List Entry)
          → get_elem? m j ≡ some e
          → pop_last (sort_by_count (order.iterate m)) ≡ some x
          → ◌≡◌ {A = Outcome Error (Option Entry)}
              (elim m [
                | [] ↦ ok none
                | m' ↦ do
                  last ← unwrap (pop_last (sort_by_count (order.iterate m')))
                  ok (some last)
              ])
              (ok (some x))
      from [] g h = cc
      from (y ∷ m) g h =
          ap (λ (o : Option Entry). ◌>>=◌ {E = Error} (unwrap o) (λ last. ok (some last))) h

  -- A value with more votes than each other one is the majority, with an index for each vote.
  pub get_majority_combination-votes :
      (value : List ℕ)
      → 0 < votes value outcomes
      → ((u : List ℕ) → u ≢ value → votes u outcomes < votes value outcomes)
      → (e : Entry) × (get_majority_combination order outcomes ≡ ok (some e))
        × (e.0 ≡ value)
        × (votes value outcomes ≤ length e.1)
  get_majority_combination-votes value voted most =
      let groups = group_outcomes outcomes [] in
      let size = size_of-group_outcomes value outcomes [] in
      let (j, c, g, l) = size_of-get_elem? value groups (omega (arith, size)) in
      let (i, visited) = order.entry_visited groups j (value, c) g in
      let (e, last) = sort_by_count-last (order.iterate groups) i (value, c) visited in
      let found = get_majority_combination-some j (value, c) e g last in
      let longest : length c ≤ length e.1 =
        All-get_elem? (λ (x : Entry). length x.1 ≤ length e.1) (order.iterate groups) i
          (last-sort_by_count (order.iterate groups) e last) visited in
      let below : length e.1 ≤ 0 + votes e.0 outcomes =
        majority-All order outcomes (λ (x : Entry). length x.1 ≤ 0 + votes x.0 outcomes) e
          (group_outcomes-All (λ u. 0) outcomes [] tt) found in
      let enough : votes value outcomes ≤ length e.1 = omega (arith, longest, l, size) in
      elim (Bool-cases (slice_eq e.0 value)) [
        | inl same ↦ (e, found, slice_eq-true e.0 value same, enough)
        | inr other ↦
            let differs : e.0 ≢ value = λ q. cc (slice_eq_refl value, other) in
            let fewer = most e.0 differs in absurd (omega (arith, fewer, enough, below))
      ]
