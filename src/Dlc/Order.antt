-- ===== src/Dlc/Order.antt =====
-- dlc/src/util.rs, `order_by_serial_ids`: the standard library's stable sort, by the ids.
use rust_dlc.Base.{
  ℕ, ◌≤◌, ◌≡◌, refl, ap, List, [], ◌∷◌, map, leb, if◌then◌else◌, arith, length, All, Bool-cases,
  inl, inr, ◌↔◌,
}
use mathlib.Core.List.{Perm}
use mathlib.Core.List.Perm
use mathlib.Core.Path.{subst}

module _ {ℓ} {A : Type ℓ} where
  -- `ids.iter().zip(inputs)`
  unfoldable pub zip_ids : List ℕ → List A → List (ℕ × A)
  zip_ids [] xs = []
  zip_ids (i ∷ ids) [] = []
  zip_ids (i ∷ ids) (x ∷ xs) = (i, x) ∷ zip_ids ids xs

  -- An entry goes before those with the same id, since it stood before them.
  unfoldable pub insert_by_id : ℕ × A → List (ℕ × A) → List (ℕ × A)
  insert_by_id e [] = e ∷ []
  insert_by_id e (f ∷ fs) =
      let rest = insert_by_id e fs in if leb e.0 f.0 then e ∷ f ∷ fs else f ∷ rest

  unfoldable pub sort_by_id : List (ℕ × A) → List (ℕ × A)
  unfolding insert_by_id
  sort_by_id [] = []
  sort_by_id (e ∷ es) = insert_by_id e (sort_by_id es)

  abbrev pub second : ℕ × A → A
  second e = e.1

  unfoldable pub order_by_serial_ids : List A → List ℕ → List A
  unfolding zip_ids sort_by_id
  order_by_serial_ids inputs ids = map second (sort_by_id (zip_ids ids inputs))

  -- No entry has a greater id than one behind it.
  abbrev pub IsOrdered : List (ℕ × A) → Type 0
  IsOrdered [] = Unit
  IsOrdered (e ∷ es) = All (λ f. e.0 ≤ f.0) es × IsOrdered es

  insert_by_id-All :
      (k : ℕ) (e : ℕ × A) (es : List (ℕ × A))
      → k ≤ e.0
      → All (λ f. k ≤ f.0) es
      → All (λ f. k ≤ f.0) (insert_by_id e es)
  unfolding insert_by_id
  insert_by_id-All k e [] p h = (p, tt)
  insert_by_id-All k e (f ∷ fs) p h = ground (arith, insert_by_id-All k e fs p h.1)

  All-weaken : (j k : ℕ) (es : List (ℕ × A)) → j ≤ k → All (λ f. k ≤ f.0) es → All (λ f. j ≤ f.0) es
  All-weaken j k [] p h = tt
  All-weaken j k (e ∷ es) p h = (omega (arith, h.0), All-weaken j k es p h.1)

  insert_by_id-IsOrdered :
      (e : ℕ × A) (es : List (ℕ × A)) → IsOrdered es → IsOrdered (insert_by_id e es)
  unfolding insert_by_id
  insert_by_id-IsOrdered e [] h = (tt, tt)
  insert_by_id-IsOrdered e (f ∷ fs) h = elim (Bool-cases (leb e.0 f.0)) [
    | inl p ↦ let le : e.0 ≤ f.0 = ground arith in rw p ((le, All-weaken e.0 f.0 fs le h.0), h)
    | inr p ↦
        let le : f.0 ≤ e.0 = ground arith in
        rw p (insert_by_id-All f.0 e fs le h.0, insert_by_id-IsOrdered e fs h.1)
  ]

  -- Sorted entries have ascending ids.
  pub sort_by_id-IsOrdered : (es : List (ℕ × A)) → IsOrdered (sort_by_id es)
  unfolding sort_by_id
  sort_by_id-IsOrdered [] = tt
  sort_by_id-IsOrdered (e ∷ es) = insert_by_id-IsOrdered e (sort_by_id es) (sort_by_id-IsOrdered es)

  insert_by_id-perm : (e : ℕ × A) (es : List (ℕ × A)) → Perm (insert_by_id e es) (e ∷ es)
  unfolding insert_by_id
  insert_by_id-perm e [] = Perm.refl (e ∷ [])
  insert_by_id-perm e (f ∷ fs) = elim (Bool-cases (leb e.0 f.0)) [
    | inl p ↦ rw p (Perm.refl (e ∷ f ∷ fs))
    | inr p ↦ rw p (Perm.trans (Perm.cons f (insert_by_id-perm e fs)) (Perm.swap e f fs))
  ]

  pub sort_by_id-perm : (es : List (ℕ × A)) → Perm (sort_by_id es) es
  unfolding sort_by_id
  sort_by_id-perm [] = Perm.refl []
  sort_by_id-perm (e ∷ es) =
      Perm.trans (insert_by_id-perm e (sort_by_id es)) (Perm.cons e (sort_by_id-perm es))

  map-zip_ids :
      (ids : List ℕ) (xs : List A) → length xs ≡ length ids → map second (zip_ids ids xs) ≡ xs
  unfolding zip_ids
  map-zip_ids [] [] h = refl
  map-zip_ids [] (x ∷ xs) h = absurd (omega arith)
  map-zip_ids (i ∷ ids) [] h = absurd (omega arith)
  map-zip_ids (i ∷ ids) (x ∷ xs) h = ap (λ z. x ∷ z) (map-zip_ids ids xs (omega arith))

  -- With an id for each item, ordering by the ids moves the items and loses none.
  pub order_by_serial_ids-perm :
      (inputs : List A) (ids : List ℕ)
      → length inputs ≡ length ids
      → Perm (order_by_serial_ids inputs ids) inputs
  unfolding order_by_serial_ids
  order_by_serial_ids-perm inputs ids h =
      subst (λ z. Perm (map second (sort_by_id (zip_ids ids inputs))) z) (map-zip_ids ids inputs h)
        (Perm.map second (sort_by_id-perm (zip_ids ids inputs)))

module _ {ℓ κ} {A : Type ℓ} (P : A → Type κ) where
  insert_by_id-All_iff :
      (e : ℕ × A) (es : List (ℕ × A))
      → All P (map second (insert_by_id e es)) ↔ (P e.1 × All P (map second es))
  unfolding insert_by_id
  insert_by_id-All_iff e [] = ((λ h. h), (λ h. h))
  insert_by_id-All_iff e (f ∷ fs) = elim (Bool-cases (leb e.0 f.0)) [
    | inl p ↦ rw p ((λ h. h), (λ h. h))
    | inr p ↦
        let ih = insert_by_id-All_iff e fs in
        rw p ((λ h. ((ih.0 h.1).0, (h.0, (ih.0 h.1).1))), (λ h. (h.1.0, ih.1 (h.0, h.1.1))))
  ]

  pub sort_by_id-All :
      (es : List (ℕ × A)) → All P (map second (sort_by_id es)) ↔ All P (map second es)
  unfolding sort_by_id
  sort_by_id-All [] = ((λ h. h), (λ h. h))
  sort_by_id-All (e ∷ es) =
      let ih = sort_by_id-All es in
      let i = insert_by_id-All_iff e (sort_by_id es) in
      ((λ h. ((i.0 h).0, ih.0 (i.0 h).1)), (λ h. i.1 (h.0, ih.1 h.1)))

  -- What holds of every item holds of every item in the new order, and the other way.
  pub order_by_serial_ids-All :
      (inputs : List A) (ids : List ℕ)
      → length inputs ≡ length ids
      → All P (order_by_serial_ids inputs ids) ↔ All P inputs
  unfolding order_by_serial_ids
  order_by_serial_ids-All inputs ids h =
      subst (λ z. All P (map second (sort_by_id (zip_ids ids inputs))) ↔ All P z)
        (map-zip_ids ids inputs h) (sort_by_id-All (zip_ids ids inputs))
