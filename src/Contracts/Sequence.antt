-- ===== src/Contracts/Sequence.antt =====
-- The adaptor signatures as a list: one for each outcome and each combination, in this order.
use rust_dlc.Base.{
  ℕ, suc, zero, ◌+◌, ◌*◌, ◌≡◌, refl, sym, ap, ap₂, fun_ext, ◌∙◌, Outcome, ok, ◌>>=◌, some, List, [],
  ◌∷◌, ◌++◌, map, length, length-map, get_elem?, get_elem?-append_left, get_elem?-append_right,
  get_elem?-map, arith, >>=-eq-ok, >>=_assoc, Outcome-cases, inl, inr,
}
use mathlib.Core.Option.{some-injective}
use mathlib.Core.List.{append-nil, append_assoc}
use rust_dlc.Contracts.Types.{Error, OracleInfo, for_each, map_results}
use rust_dlc.Contracts.Points.{OracleCurve, get_adaptor_point_from_oracle_info}
use rust_dlc.Contracts.Enum.{selected_infos, outcome_loop}

-- A loop that pushes a result for each element gives the list of the results.
module _ {A B : Type 0} (f : A → Outcome Error B) where
  abbrev pub push : A → List B → Outcome Error (List B)
  push a bs = do b ← f a; ok (bs ++ b ∷ [])

  pub for_each-push :
      (list : List A) (bs : List B)
      → for_each push list bs ≡ (map_results f list >>= λ cs. ok (bs ++ cs))
  for_each-push [] bs = ap ok (sym (append-nil bs))
  for_each-push (a ∷ list) bs = elim (Outcome-cases (f a)) [
    | inl (b, e) ↦ rw e (
        for_each-push list (bs ++ b ∷ []) ∙ elim (Outcome-cases (map_results f list)) [
          | inl (cs, g) ↦ rw g (ap ok (append_assoc bs (b ∷ []) cs))
          | inr (inl (x, g)) ↦ rw g refl
          | inr (inr g) ↦ rw g refl
        ])
    | inr (inl (x, e)) ↦ rw e refl
    | inr (inr e) ↦ rw e refl
  ]

  pub map_results-get_elem? :
      (xs : List A) (i : ℕ) (a : A) (bs : List B)
      → map_results f xs ≡ ok bs
      → get_elem? xs i ≡ some a
      → (b : B) × (get_elem? bs i ≡ some b) × (f a ≡ ok b)
  map_results-get_elem? [] i a bs h g = cc
  map_results-get_elem? (x ∷ xs) zero a bs h g =
      let (b, e, k) = >>=-eq-ok (f x) (λ y. map_results f xs >>= λ ys. ok (y ∷ ys)) h in
      let (cs, l, m) = >>=-eq-ok (map_results f xs) (λ ys. ok (b ∷ ys)) k in
      let q : b ∷ cs ≡ bs = cc in
      let r : x ≡ a = cc in (b, ap (λ list. get_elem? list 0) (sym q), sym (ap f r) ∙ e)
  map_results-get_elem? (x ∷ xs) (suc i) a bs h g =
      let (b, e, k) = >>=-eq-ok (f x) (λ y. map_results f xs >>= λ ys. ok (y ∷ ys)) h in
      let (cs, l, m) = >>=-eq-ok (map_results f xs) (λ ys. ok (b ∷ ys)) k in
      let q : b ∷ cs ≡ bs = cc in
      let (d, t, u) = map_results-get_elem? xs i a cs l g in
      (d, ap (λ list. get_elem? list (suc i)) (sym q) ∙ t, u)

-- The places where a signature is made: the index of the outcome, its messages, and the combination.
abbrev pub Place : Type 0
Place = ℕ × List (List ℕ) × List ℕ

abbrev pub places : ℕ → List (List (List ℕ)) → List (List ℕ) → List Place
places i [] combinations = []
places i (msgs ∷ messages) combinations =
    map (λ c. (i, msgs, c)) combinations ++ places (suc i) messages combinations

pub places-get_elem? :
    (i : ℕ) (messages : List (List (List ℕ))) (combinations : List (List ℕ)) (j p : ℕ)
    {msgs : List (List ℕ)} {c : List ℕ}
    → get_elem? messages j ≡ some msgs
    → get_elem? combinations p ≡ some c
    → get_elem? (places i messages combinations) (length combinations * j + p)
      ≡ some (i + j, msgs, c)
places-get_elem? i [] combinations j p h g = cc
places-get_elem? i (m ∷ messages) combinations zero p {msgs} {c} h g =
    let e : length combinations * 0 + p ≡ p = omega arith in
    rw e (
      get_elem?-append_left (map (λ c. (i, m, c)) combinations) _ p
        (get_elem?-map (λ c. (i, m, c)) combinations p g)
      ∙ ap₂ (λ (k : ℕ) msgs. some (k, msgs, c)) (omega arith) (some-injective _ _ h))
places-get_elem? i (m ∷ messages) combinations (suc j) p {msgs} {c} h g =
    let first = map {B = Place} (λ c. (i, m, c)) combinations in
    let e : length combinations * suc j + p ≡ length first + (length combinations * j + p) =
      grind (arith, length-map) in
    rw e (
      get_elem?-append_right first (places (suc i) messages combinations)
        (length combinations * j + p)
      ∙ places-get_elem? (suc i) messages combinations j p h g
      ∙ ap (λ (k : ℕ). some (k, msgs, c)) (omega arith))

module _ {A S : Type 0} (f : A → S → Outcome Error S) where
  for_each-append :
      (xs ys : List A) (s : S) → for_each f (xs ++ ys) s ≡ (for_each f xs s >>= for_each f ys)
  for_each-append [] ys s = refl
  for_each-append (x ∷ xs) ys s =
      ap (λ rest. f x s >>= rest) (fun_ext (for_each-append xs ys))
      ∙ sym (>>=_assoc (f x s) (for_each f xs) (for_each f ys))

  for_each-map :
      {C : Type 0} (g : C → A) (cs : List C) (s : S)
      → for_each f (map g cs) s ≡ for_each (λ c. f (g c)) cs s
  for_each-map g [] s = refl
  for_each-map g (c ∷ cs) s = ap (λ rest. f (g c) s >>= rest) (fun_ext (for_each-map g cs))

module _ (curve : OracleCurve) (oracle_infos : List OracleInfo) where
  abbrev pub point_of : Place → Outcome Error ℕ
  point_of (i, msgs, c) =
      get_adaptor_point_from_oracle_info curve (selected_infos c 0 oracle_infos) msgs

  -- What is done at a place with the adaptor point of its combination and its messages.
  abbrev pub at_place : {B : Type 0} → (ℕ → ℕ → Outcome Error B) → Place → Outcome Error B
  at_place act p = do adaptor_point ← point_of p; act adaptor_point p.0

  abbrev pub visit : {S : Type 0} → (ℕ → ℕ → S → Outcome Error S) → Place → S → Outcome Error S
  visit callback p s = at_place (λ point i. callback point i s) p

  -- The loops visit the places in their order.
  pub outcome_loop-for_each :
      {S : Type 0} (callback : ℕ → ℕ → S → Outcome Error S) (combinations : List (List ℕ)) (i : ℕ)
      (messages : List (List (List ℕ))) (s : S)
      → outcome_loop curve callback oracle_infos combinations i messages s
        ≡ for_each (visit callback) (places i messages combinations) s
  unfolding outcome_loop
  outcome_loop-for_each callback combinations i [] s = refl
  outcome_loop-for_each callback combinations i (msgs ∷ messages) s =
      let here = map {B = Place} (λ c. (i, msgs, c)) combinations in
      sym (
        for_each-append (visit callback) here (places (suc i) messages combinations) s
        ∙ ap (λ first. first >>= for_each (visit callback) (places (suc i) messages combinations))
            (for_each-map (visit callback) (λ c. (i, msgs, c)) combinations s)
        ∙ ap (λ rest. for_each (λ c. visit callback (i, msgs, c)) combinations s >>= rest)
            (sym (fun_ext (outcome_loop-for_each callback combinations (suc i) messages))))
