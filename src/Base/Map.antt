-- ===== src/Base/Map.antt =====
-- A hash map as the list of its entries, with at most one for each key.
use mathlib.Core.Bool.{true≢false}
use mathlib.Core.Path.{◌≡◌, refl, sym, ap, ◌∙◌}
use mathlib.Core.Logic.{◌↔◌, inl, inr}
use mathlib.Core.Bool.{Bool, true, false}
use mathlib.Core.Option.{Option, none, some}
use mathlib.Core.List.{List, [], ◌∷◌}
use rust_dlc.Base.Tests.{if◌then◌else◌, Bool-cases}

abbrev pub keep {ℓ} : {V : Type ℓ} → (V → Bool) → Option V → Option V
keep p none = none
keep p (some v) = if p v then some v else none

abbrev pub change {ℓ} : {V : Type ℓ} → (V → V) → Option V → Option V
change f none = none
change f (some v) = some (f v)

module _ {ℓ} {K : Type 0} {V : Type ℓ} (eq : K → K → Bool) where
  abbrev pub lookup : K → List (K × V) → Option V
  lookup k [] = none
  lookup k ((j, w) ∷ m) = let rest = lookup k m in if eq j k then some w else rest

  abbrev pub insert : K → V → List (K × V) → List (K × V)
  insert k v [] = (k, v) ∷ []
  insert k v ((j, w) ∷ m) = let rest = insert k v m in if eq j k then (j, v) ∷ m else (j, w) ∷ rest

  -- `if let Some(state) = m.get_mut(&k) { *state = f(state) }`
  abbrev pub update : K → (V → V) → List (K × V) → List (K × V)
  update k f [] = []
  update k f ((j, w) ∷ m) =
      let rest = update k f m in if eq j k then (j, f w) ∷ m else (j, w) ∷ rest

  abbrev pub remove : K → List (K × V) → List (K × V)
  remove k [] = []
  remove k ((j, w) ∷ m) = let rest = remove k m in if eq j k then m else (j, w) ∷ rest

  abbrev pub Unique : List (K × V) → Type ℓ
  Unique [] = Unit {ℓ}
  Unique ((j, w) ∷ m) = (lookup j m ≡ none) × Unique m

abbrev pub retain {ℓ} : {K : Type 0} {V : Type ℓ} → (V → Bool) → List (K × V) → List (K × V)
retain p [] = []
retain p ((j, w) ∷ m) = let rest = retain p m in if p w then (j, w) ∷ rest else rest

module _ {K : Type 0} (eq : K → K → Bool) (law : (a b : K) → (eq a b ≡ true) ↔ (a ≡ b)) where
  separate : (j k l : K) → eq j k ≡ false → eq j l ≡ true → eq k l ≡ false
  separate j k l e f = elim (Bool-cases (eq k l)) [
    | inr g ↦ g
    | inl g ↦ absurd (true≢false (sym ((law j k).1 ((law j l).0 f ∙ sym ((law k l).0 g))) ∙ e))
  ]

  turned : (j k : K) → eq j k ≡ false → eq k j ≡ false
  turned j k e = elim (Bool-cases (eq k j)) [
    | inr g ↦ g
    | inl g ↦ absurd (true≢false (sym ((law j k).1 (sym ((law k j).0 g))) ∙ e))
  ]

module _ {ℓ} {K : Type 0} {V : Type ℓ} (eq : K → K → Bool)
    (law : (a b : K) → (eq a b ≡ true) ↔ (a ≡ b)) where
  pub lookup-insert :
      (k : K) (v : V) (l : K) (m : List (K × V))
      → lookup eq l (insert eq k v m) ≡ (if eq k l then some v else lookup eq l m)
  lookup-insert k v l [] = refl
  lookup-insert k v l ((j, w) ∷ m) = elim (Bool-cases (eq j k)) [
    | inl e ↦
        rw e (
          rw ((law j k).0 e) (elim (Bool-cases (eq k l)) [ inl f ↦ rw f refl | inr f ↦ rw f refl ]))
    | inr e ↦ rw e (elim (Bool-cases (eq j l)) [
      | inl f ↦ rw f (rw (separate eq law j k l e f) refl)
      | inr f ↦ rw f (lookup-insert k v l m)
    ])
  ]

  pub lookup-update :
      (k : K) (f : V → V) (l : K) (m : List (K × V))
      → lookup eq l (update eq k f m) ≡ (if eq k l then change f (lookup eq l m) else lookup eq l m)
  lookup-update k f l [] = elim (Bool-cases (eq k l)) [ inl e ↦ rw e refl | inr e ↦ rw e refl ]
  lookup-update k f l ((j, w) ∷ m) = elim (Bool-cases (eq j k)) [
    | inl e ↦
        rw e (
          rw ((law j k).0 e) (elim (Bool-cases (eq k l)) [ inl g ↦ rw g refl | inr g ↦ rw g refl ]))
    | inr e ↦ rw e (elim (Bool-cases (eq j l)) [
      | inl g ↦ rw g (rw (separate eq law j k l e g) refl)
      | inr g ↦ rw g (lookup-update k f l m)
    ])
  ]

  pub lookup-remove :
      (k l : K) (m : List (K × V))
      → Unique eq m
      → lookup eq l (remove eq k m) ≡ (if eq k l then none else lookup eq l m)
  lookup-remove k l [] h = elim (Bool-cases (eq k l)) [ inl e ↦ rw e refl | inr e ↦ rw e refl ]
  lookup-remove k l ((j, w) ∷ m) h = elim (Bool-cases (eq j k)) [
    | inl e ↦ rw e (elim (Bool-cases (eq k l)) [
      | inl f ↦ rw f (ap (λ z. lookup eq z m) (sym ((law j k).0 e ∙ (law k l).0 f)) ∙ h.0)
      | inr f ↦ rw f (rw ((law j k).0 e) (rw f refl))
    ])
    | inr e ↦ rw e (elim (Bool-cases (eq j l)) [
      | inl f ↦ rw f (rw (separate eq law j k l e f) refl)
      | inr f ↦ rw f (lookup-remove k l m h.1)
    ])
  ]

  pub lookup-retain :
      (p : V → Bool) (l : K) (m : List (K × V))
      → Unique eq m
      → lookup eq l (retain p m) ≡ keep p (lookup eq l m)
  lookup-retain p l [] h = refl
  lookup-retain p l ((j, w) ∷ m) h = elim (Bool-cases (eq j l)) [
    | inl e ↦ rw e (elim (Bool-cases (p w)) [
      | inl f ↦ rw f (rw e refl)
      | inr f ↦ rw f (
          lookup-retain p l m h.1
          ∙ ap (keep p) (ap (λ z. lookup eq z m) (sym ((law j l).0 e)) ∙ h.0))
    ])
    | inr e ↦ rw e (elim (Bool-cases (p w)) [
      | inl f ↦ rw f (rw e (lookup-retain p l m h.1))
      | inr f ↦ rw f (lookup-retain p l m h.1)
    ])
  ]

  pub insert-Unique : (k : K) (v : V) (m : List (K × V)) → Unique eq m → Unique eq (insert eq k v m)
  insert-Unique k v [] h = (refl, tt)
  insert-Unique k v ((j, w) ∷ m) h = elim (Bool-cases (eq j k)) [
    | inl e ↦ rw e h
    | inr e ↦ rw e (lookup-insert k v j m ∙ rw (turned eq law j k e) h.0, insert-Unique k v m h.1)
  ]

  pub update-Unique :
      (k : K) (f : V → V) (m : List (K × V)) → Unique eq m → Unique eq (update eq k f m)
  update-Unique k f [] h = tt
  update-Unique k f ((j, w) ∷ m) h = elim (Bool-cases (eq j k)) [
    | inl e ↦ rw e h
    | inr e ↦ rw e (lookup-update k f j m ∙ rw (turned eq law j k e) h.0, update-Unique k f m h.1)
  ]

  pub remove-Unique : (k : K) (m : List (K × V)) → Unique eq m → Unique eq (remove eq k m)
  remove-Unique k [] h = tt
  remove-Unique k ((j, w) ∷ m) h = elim (Bool-cases (eq j k)) [
    | inl e ↦ rw e h.1
    | inr e ↦ rw e (lookup-remove k j m h.1 ∙ rw (turned eq law j k e) h.0, remove-Unique k m h.1)
  ]

  pub retain-Unique : (p : V → Bool) (m : List (K × V)) → Unique eq m → Unique eq (retain p m)
  retain-Unique p [] h = tt
  retain-Unique p ((j, w) ∷ m) h = elim (Bool-cases (p w)) [
    | inl e ↦ rw e (lookup-retain p j m h.1 ∙ ap (keep p) h.0, retain-Unique p m h.1)
    | inr e ↦ rw e (retain-Unique p m h.1)
  ]
