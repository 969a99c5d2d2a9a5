-- ===== src/Contracts/Maturity.antt =====
-- Which announcements the attestations belong to that a contract is closed with.
use rust_dlc.Base.{
  ℕ, suc, ◌+◌, ◌≤◌, ◌≡◌, refl, sym, ap, ◌∙◌, leb, true, false, Bool-cases, inl, inr, none, some,
  Option-cases, List, [], ◌∷◌, ◌++◌, length, All, All-imp, get_elem?, get_elem?-append_right, arith,
}
use mathlib.Core.Path.{subst}
use mathlib.Core.Option.{some-injective}
use rust_dlc.Combinations.Index.{Ascending}
use rust_dlc.Contracts.Groups.{indexes_of, Ascending-start}
use rust_dlc.Contracts.Closable.{
  Announcement, Attestation, EnumContract, Oracles, matured_at, enumerate_from, attestation_of,
  attestations_of, AdaptorInfo, get_closable_contract_info, outcomes_of,
}

-- The announcement at the index `n` further is attested.
abbrev pub Announces : Oracles → List Announcement → ℕ → (ℕ × Attestation) → Type 0
Announces oracles announcements n x =
    (a : Announcement) × (get_elem? announcements (n + x.0) ≡ some a)
    × (attestation_of oracles a ≡ some x.1)

matured_at-All :
    (now : ℕ) (announcements : List Announcement)
    → All (λ a. leb a.event_maturity_epoch now ≡ true) announcements
    → matured_at now announcements ≡ announcements
matured_at-All now [] h = refl
matured_at-All now (a ∷ announcements) (h, hs) =
    rw h (ap (λ l. a ∷ l) (matured_at-All now announcements hs))

matured_at_late :
    (now : ℕ) (late announcements : List Announcement)
    → All (λ a. leb a.event_maturity_epoch now ≡ false) late
    → matured_at now (late ++ announcements) ≡ matured_at now announcements
matured_at_late now [] announcements h = refl
matured_at_late now (a ∷ late) announcements (h, hs) =
    rw h (matured_at_late now late announcements hs)

module _ (oracles : Oracles) where
  attestations_of-none :
      (i : ℕ) (a : Announcement) (m : List (ℕ × Announcement))
      → attestation_of oracles a ≡ none
      → attestations_of oracles m ≡ attestations_of oracles ((i, a) ∷ m)
  attestations_of-none i a m e =
      ap
        (λ o. elim o [
          | none ↦ attestations_of oracles m
          | some t ↦ (i, t) ∷ attestations_of oracles m
        ])
        (sym e)

  attestations_of-some :
      (i : ℕ) (a : Announcement) (m : List (ℕ × Announcement)) (t : Attestation)
      → attestation_of oracles a ≡ some t
      → (i, t) ∷ attestations_of oracles m ≡ attestations_of oracles ((i, a) ∷ m)
  attestations_of-some i a m t e =
      ap
        (λ o. elim o [
          | none ↦ attestations_of oracles m
          | some t ↦ (i, t) ∷ attestations_of oracles m
        ])
        (sym e)

  attestations_of-Ascending :
      (s l : ℕ) (announcements : List Announcement)
      → s + length announcements ≤ l
      → Ascending s l
          (indexes_of (outcomes_of (attestations_of oracles (enumerate_from s announcements))))
  attestations_of-Ascending s l [] h = tt
  attestations_of-Ascending s l (a ∷ announcements) h =
      let rest = attestations_of-Ascending (suc s) l announcements (omega arith) in
      elim (Option-cases (attestation_of oracles a)) [
        | inl e ↦
            subst (λ m. Ascending s l (indexes_of (outcomes_of m)))
              (attestations_of-none s a (enumerate_from (suc s) announcements) e)
              (Ascending-start (suc s) s l _ (omega arith) rest)
        | inr (t, e) ↦
            subst (λ m. Ascending s l (indexes_of (outcomes_of m)))
              (attestations_of-some s a (enumerate_from (suc s) announcements) t e)
              (omega arith, omega arith, rest)
      ]

  -- The announcement that an attestation is for, when they are counted from `s` on.
  abbrev IsFor : ℕ → List Announcement → (ℕ × Attestation) → Type 0
  IsFor s announcements x =
      (j : ℕ) × (x.0 ≡ s + j)
      × (a : Announcement) × (get_elem? announcements j ≡ some a)
      × (attestation_of oracles a ≡ some x.1)

  attestations_of-All :
      (s : ℕ) (announcements : List Announcement)
      → All (IsFor s announcements) (attestations_of oracles (enumerate_from s announcements))
  attestations_of-All s [] = tt
  attestations_of-All s (a ∷ announcements) =
      let rest : All (IsFor s (a ∷ announcements))
          (attestations_of oracles (enumerate_from (suc s) announcements)) =
        All-imp _ _ (λ x (j, e, b, g, f). (suc j, omega (arith, e), b, g, f))
          (attestations_of oracles (enumerate_from (suc s) announcements))
          (attestations_of-All (suc s) announcements) in
      elim (Option-cases (attestation_of oracles a)) [
        | inl e ↦
            subst (λ m. All (IsFor s (a ∷ announcements)) m)
              (attestations_of-none s a (enumerate_from (suc s) announcements) e) rest
        | inr (t, e) ↦
            subst (λ m. All (IsFor s (a ∷ announcements)) m)
              (attestations_of-some s a (enumerate_from (suc s) announcements) t e)
              ((0, omega arith, a, refl, e), rest)
      ]

  -- What is returned for a contract whose attestations suffice.
  closable_found :
      (now : ℕ) (contracts : List EnumContract) (adaptor_infos : List AdaptorInfo)
      (contract : EnumContract) (adaptor_info : AdaptorInfo) (attestations : List (ℕ × Attestation))
      → get_closable_contract_info oracles now contracts adaptor_infos
        ≡ some (contract, adaptor_info, attestations)
      → (attestations_of oracles (enumerate_from 0 (matured_at now contract.oracle_announcements))
          ≡ attestations)
        × (contract.threshold ≤ length attestations)
  unfolding get_closable_contract_info
  closable_found now [] infos contract info attestations h = cc
  closable_found now (c ∷ contracts) [] contract info attestations h = cc
  closable_found now (c ∷ contracts) (i ∷ infos) contract info attestations h =
      let matured = enumerate_from 0 (matured_at now c.oracle_announcements) in
      let here = attestations_of oracles matured in
      elim (Bool-cases (leb c.threshold (length matured))) [
        | inl e ↦ elim (Bool-cases (leb c.threshold (length here))) [
          | inl g ↦
              subst
                (λ (p : EnumContract × AdaptorInfo × List (ℕ × Attestation)).
                  (attestations_of oracles
                      (enumerate_from 0 (matured_at now p.0.oracle_announcements))
                    ≡ p.2)
                  × (p.0.threshold ≤ length p.2))
                (some-injective _ _ (rw (e, g) at h)) (refl, ground (arith, g))
          | inr g ↦ closable_found now contracts infos contract info attestations (rw (e, g) at h)
        ]
        | inr e ↦ closable_found now contracts infos contract info attestations (rw e at h)
      ]

-- Where the announcements of a contract that can be closed are `late` ones, which have not matured,
-- before those that have: there are enough attestations, their indexes ascend, and each belongs to the
-- announcement that stands as many places behind its index as there are late ones.
pub get_closable_contract_info-Announces :
    (oracles : Oracles) (now : ℕ) (contracts : List EnumContract) (adaptor_infos : List AdaptorInfo)
    (contract : EnumContract) (adaptor_info : AdaptorInfo) (late matured : List Announcement)
    (attestations : List (ℕ × Attestation))
    → contract.oracle_announcements ≡ late ++ matured
    → All (λ a. leb a.event_maturity_epoch now ≡ false) late
    → All (λ a. leb a.event_maturity_epoch now ≡ true) matured
    → get_closable_contract_info oracles now contracts adaptor_infos
      ≡ some (contract, adaptor_info, attestations)
    → (contract.threshold ≤ length attestations)
      × Ascending 0 (length matured) (indexes_of (outcomes_of attestations))
      × All (Announces oracles contract.oracle_announcements (length late)) attestations
get_closable_contract_info-Announces oracles now contracts adaptor_infos contract adaptor_info late
      matured attestations e not_yet yet h =
    let (found, enough) =
      closable_found oracles now contracts adaptor_infos contract adaptor_info attestations h in
    let same : attestations_of oracles (enumerate_from 0 matured) ≡ attestations =
      ap (λ l. attestations_of oracles (enumerate_from 0 l))
        (sym (
          ap (matured_at now) e
          ∙ matured_at_late now late matured not_yet
          ∙ matured_at-All now matured yet))
      ∙ found in
    (
      enough,
      subst (λ m. Ascending 0 (length matured) (indexes_of (outcomes_of m))) same
          (attestations_of-Ascending oracles 0 (length matured) matured (omega arith)),
      subst (λ m. All (Announces oracles contract.oracle_announcements (length late)) m) same
          (All-imp _ _
            (λ x (j, i, a, g, f).
              let place : get_elem? contract.oracle_announcements (length late + x.0) ≡ some a =
                ap (λ l. get_elem? l (length late + x.0)) e
                ∙ get_elem?-append_right late matured x.0
                ∙ ap (get_elem? matured) (omega (arith, i))
                ∙ g in
              (a, place, f))
            (attestations_of oracles (enumerate_from 0 matured))
            (attestations_of-All oracles 0 matured)),
    )
