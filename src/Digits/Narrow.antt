-- ===== src/Digits/Narrow.antt =====
-- The last two loops of `group_by_ignoring_digits`: across the first digits, and down to the end
-- of the range.
use rust_dlc.Base.{
  ℕ, zero, suc, ◌+◌, ◌-◌, ◌*◌, ◌≤◌, ◌<◌, ◌≡◌, refl, ◌∙◌, sym, List, [], ◌∷◌, ◌++◌, arith, length,
  All, Bool-cases, inl, inr, ◌==◌, ==_iff, false, ok, if◌then◌else◌, get_elem?, some,
}
use rust_dlc.Digits.{push_stack, cross_loop, narrow_round, narrow_loop, list_eq}
use rust_dlc.Digits.Value.{IsDigit, length-reverse}
use rust_dlc.Digits.Cover.{first, Covers, Covers-push_stack}
use rust_dlc.Digits.Stack.{low, high, low_zero, list_eq_iff}
use mathlib.Core.List.{reverse, reverse-append, reverse-reverse, append_assoc}
use mathlib.Core.Path.{subst}

module _ (b n lo e0 : ℕ) (e0_small : e0 < b) (has_digits : 1 ≤ n) where
  -- From the digit `x` up to `e0`, one prefix for each digit passed.
  pub cross_loop-Covers :
      (fuel x : ℕ) (list : List (List ℕ))
      → x ≤ e0
      → e0 - x < fuel
      → Covers b n lo list (low b n (x ∷ []))
      → (list' : List (List ℕ)) × (cross_loop fuel e0 (x ∷ []) list ≡ ok (e0 ∷ [], list'))
        × Covers b n lo list' (low b n (e0 ∷ []))
  unfolding cross_loop
  cross_loop-Covers zero x list h f c = absurd (omega arith)
  cross_loop-Covers (suc fuel) x list h f c = elim (Bool-cases (x == e0)) [
    | inl e ↦ let same = (==_iff x e0).0 e in (list, rw e (rw same), rw same at c)
    | inr e ↦
        let less : x < e0 = ground arith in
        let up : low b n ((x + 1) ∷ []) ≡ high b n (x ∷ []) = omega arith in
        let pushed = Covers-push_stack b n lo list (x ∷ []) c has_digits (omega arith, tt) in
        let (out, eq, cov) =
          cross_loop-Covers fuel (x + 1) (push_stack list (x ∷ [])) (omega arith) (omega arith)
            (rw up pushed) in
        (out, rw e eq, cov)
  ]

get_elem?-append {ℓ} :
    {A : Type ℓ} (p q : List A) (a : A) → get_elem? (p ++ a ∷ q) (length p) ≡ some a
get_elem?-append [] q a = refl
get_elem?-append (x ∷ p) q a = get_elem?-append p q a

-- The stack `x ∷ v` against the end `de`: they agree below the top, and `d` is the digit of `de`
-- beside the top.
pub record Narrowing (b n lo : ℕ) (de : List ℕ) (x : ℕ) (v : List ℕ) (d : ℕ) (rest : List ℕ)
    (list : List (List ℕ)) : Type 0 where
  pub agree : de ≡ reverse v ++ d ∷ rest
  pub at_most : x ≤ d
  pub short : length v + suc (length rest) ≤ n
  pub digits : All (IsDigit b) v
  pub digit : IsDigit b d
  pub digits_left : All (IsDigit b) rest
  pub covered : Covers b n lo list (low b n (x ∷ v))

module _ (b n lo : ℕ) (de : List ℕ) where
  beside :
      (v : List ℕ) (d : ℕ) (rest : List ℕ)
      → de ≡ reverse v ++ d ∷ rest
      → get_elem? de (length v) ≡ some d
  beside v d rest e = rw e (rw (← length-reverse v) (get_elem?-append (reverse v) rest d))

  narrow_round_eq :
      (x : ℕ) (v : List ℕ) (d : ℕ) (rest : List ℕ) (list : List (List ℕ))
      → de ≡ reverse v ++ d ∷ rest
      → narrow_round de (x ∷ v) list
        ≡ ok (if x == d then (0 ∷ x ∷ v, list) else ((x + 1) ∷ v, push_stack list (x ∷ v)))
  unfolding narrow_round
  narrow_round_eq x v d rest list e = rw (beside v d rest e)

  narrow_down :
      (x : ℕ) (v : List ℕ) (d d' : ℕ) (rest : List ℕ) (list : List (List ℕ))
      → Narrowing b n lo de x v d (d' ∷ rest) list
      → x ≡ d
      → Narrowing b n lo de 0 (x ∷ v) d' rest list
  narrow_down x v d d' rest list w e = record {
    agree =
        w.agree
        ∙ rw (e, reverse-append (d ∷ []) v) (sym (append_assoc (reverse v) (d ∷ []) (d' ∷ rest)));
    at_most = omega arith;
    short = omega (arith, w.short);
    digits = (rw e w.digit, w.digits);
    digit = w.digits_left.0;
    digits_left = w.digits_left.1;
    covered = rw (low_zero b n (x ∷ v) (omega (arith, w.short))) w.covered;
  }

  narrow_next :
      (x : ℕ) (v : List ℕ) (d : ℕ) (rest : List ℕ) (list : List (List ℕ))
      → Narrowing b n lo de x v d rest list
      → (x == d) ≡ false
      → Narrowing b n lo de (x + 1) v d rest (push_stack list (x ∷ v)) × (x < d)
  narrow_next x v d rest list w ne =
      let less : x < d = ground (arith, w.at_most) in
      let up : low b n ((x + 1) ∷ v) ≡ high b n (x ∷ v) = omega arith in
      let pushed =
        Covers-push_stack b n lo list (x ∷ v) w.covered (omega (arith, w.short))
          (omega (arith, w.digit), w.digits) in
      (
        record {
          agree = w.agree;
          at_most = omega arith;
          short = w.short;
          digits = w.digits;
          digit = w.digit;
          digits_left = w.digits_left;
          covered = rw up pushed;
        },
        less,
      )

  narrow_done :
      (x : ℕ) (v : List ℕ) (list : List (List ℕ))
      → reverse (x ∷ v) ≡ de
      → Covers b n lo list (low b n (x ∷ v))
      → Covers b n lo list (first b n de)
  narrow_done x v list e c =
      let same : first b n (reverse (x ∷ v)) ≡ low b n (x ∷ v) =
        rw (reverse-reverse (x ∷ v), length-reverse (x ∷ v)) in
      subst (λ z. Covers b n lo list (first b n z)) e (rw same c)

  -- With fuel for the digits that are left the loop ends at `de`, with all below it covered.
  pub narrow_loop-Covers :
      (fuel x : ℕ) (v : List ℕ) (d : ℕ) (rest : List ℕ) (list : List (List ℕ))
      → Narrowing b n lo de x v d rest list
      → length rest * (b + 1) + (d - x) < fuel
      → (list' : List (List ℕ)) × (narrow_loop fuel de (x ∷ v) list ≡ ok list')
        × Covers b n lo list' (first b n de)
  unfolding narrow_loop
  narrow_loop-Covers zero x v d rest list w f = absurd (omega arith)
  narrow_loop-Covers (suc fuel) x v d [] list w f =
      elim (Bool-cases (list_eq (reverse (x ∷ v)) de)) [
        | inl e ↦ (list, rw e, narrow_done x v list ((list_eq_iff _ de).0 e) w.covered)
        | inr e ↦
            rw (e, narrow_round_eq x v d [] list w.agree)
              (elim (Bool-cases (x == d)) [
                | inl eq ↦
                    let whole : reverse (x ∷ v) ≡ de =
                      rw ((==_iff x d).0 eq) (reverse-append (d ∷ []) v ∙ sym w.agree) in
                    cc ((list_eq_iff (reverse (x ∷ v)) de).1 whole)
                | inr ne ↦
                    let (w', less) = narrow_next x v d [] list w ne in
                    rw ne (
                      narrow_loop-Covers fuel (x + 1) v d [] (push_stack list (x ∷ v)) w'
                        (omega arith))
              ])
      ]
  narrow_loop-Covers (suc fuel) x v d (d' ∷ rest) list w f =
      elim (Bool-cases (list_eq (reverse (x ∷ v)) de)) [
        | inl e ↦ (list, rw e, narrow_done x v list ((list_eq_iff _ de).0 e) w.covered)
        | inr e ↦
            rw (e, narrow_round_eq x v d (d' ∷ rest) list w.agree)
              (elim (Bool-cases (x == d)) [
                | inl eq ↦
                    let w' = narrow_down x v d d' rest list w ((==_iff x d).0 eq) in
                    rw eq (
                      narrow_loop-Covers fuel 0 (x ∷ v) d' rest list w'
                        (omega (arith, w.digits_left.0)))
                | inr ne ↦
                    let (w', less) = narrow_next x v d (d' ∷ rest) list w ne in
                    rw ne (
                      narrow_loop-Covers fuel (x + 1) v d (d' ∷ rest) (push_stack list (x ∷ v)) w'
                        (omega arith))
              ])
      ]
