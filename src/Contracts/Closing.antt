-- ===== src/Contracts/Closing.antt =====
-- The adaptor signature and the oracle signatures that a contract is closed with.
use rust_dlc.Base.{
  ℕ, suc, zero, ◌+◌, ◌≤◌, ◌<◌, ◌≡◌, sym, ap, ◌∙◌, inl, inr, Outcome, ok, none, some, Option-cases,
  List, [], ◌∷◌, ◌++◌, map, length, length-map, take, All, All-imp, get_elem?,
  get_elem?-append_right, arith, >>=-eq-ok,
}
use mathlib.Core.Option.{some-injective}
use rust_dlc.Dlc.Types.{Script, Transaction}
use rust_dlc.Combinations.Index.{Ascending}
use rust_dlc.Contracts.Types.{Error, EnumerationPayout, RangeInfo}
use rust_dlc.Contracts.Points.{OracleCurve}
use rust_dlc.Contracts.Majority.{HashOrder}
use rust_dlc.Contracts.Enum.{get_range_info_for_outcome, get_adaptor_signatures, outcome_messages}
use rust_dlc.Contracts.Groups.{indexes_of}
use rust_dlc.Contracts.Sequence.{at_place}
use rust_dlc.Contracts.Signatures.{sign_cet}
use rust_dlc.Contracts.Matching.{get_range_info_for_outcome-get_adaptor_signatures}
use rust_dlc.Contracts.Closable.{
  Attestation, EnumContract, get_oracle_infos, outcomes_of, find_sig_info, oracle_sigs,
  get_range_info_and_oracle_sigs,
}

-- The oracle with an index attests an outcome, and its first signature is among those returned.
abbrev pub Contributes : List (ℕ × Attestation) → ℕ → List (List ℕ) → ℕ → Type 0
Contributes attestations outcome sigs i =
    (t : Attestation) × (j : ℕ) × (k : ℕ) × (get_elem? attestations j ≡ some (i, t))
    × (t.outcomes ≡ outcome ∷ [])
    × (get_elem? sigs k ≡ some (take 1 t.signatures))

outcomes_of-get_elem? :
    (attestations : List (ℕ × Attestation)) (j i : ℕ) (v : List ℕ)
    → get_elem? (outcomes_of attestations) j ≡ some (i, v)
    → (t : Attestation) × (get_elem? attestations j ≡ some (i, t)) × (t.outcomes ≡ v)
outcomes_of-get_elem? [] j i v h = cc
outcomes_of-get_elem? ((k, t) ∷ attestations) zero i v h =
    let q = some-injective _ _ h in (t, ap (λ n. some (n, t)) (ap (λ p. p.0) q), ap (λ p. p.1) q)
outcomes_of-get_elem? (x ∷ attestations) (suc j) i v h = outcomes_of-get_elem? attestations j i v h

found_sig_infos :
    (selector : List ℕ) → All (λ i. find_sig_info i (map (λ j. (j, 1)) selector) ≡ some 1) selector
found_sig_infos [] = tt
found_sig_infos (x ∷ selector) =
    (ground arith, All-imp _ _ (λ i h. ground (arith, h)) selector (found_sig_infos selector))

oracle_sigs-get_elem? :
    (infos : List (ℕ × ℕ)) (attestations : List (ℕ × Attestation)) (i j n : ℕ) (t : Attestation)
    → find_sig_info i infos ≡ some n
    → get_elem? attestations j ≡ some (i, t)
    → (k : ℕ) × (get_elem? (oracle_sigs infos attestations) k ≡ some (take n t.signatures))
oracle_sigs-get_elem? infos [] i j n t f h = cc
oracle_sigs-get_elem? infos ((i', t') ∷ attestations) i zero n t f h =
    let q = some-injective _ _ h in
    let next = oracle_sigs infos attestations in
    let found : find_sig_info i' infos ≡ some n =
      ap (λ m. find_sig_info m infos) (ap (λ p. p.0) q) ∙ f in
    (
      0,
      ap (λ o. get_elem? (elim o [ none ↦ next | some m ↦ take m t'.signatures ∷ next ]) 0) found
          ∙ ap (λ (p : ℕ × Attestation). some (take n p.1.signatures)) q,
    )
oracle_sigs-get_elem? infos ((i', t') ∷ attestations) i (suc j) n t f h =
    let next = oracle_sigs infos attestations in
    let (k, g) = oracle_sigs-get_elem? infos attestations i j n t f h in
    elim (Option-cases (find_sig_info i' infos)) [
      | inl e ↦ (
        k,
        ap (λ o. get_elem? (elim o [ none ↦ next | some m ↦ take m t'.signatures ∷ next ]) k) e ∙ g,
      )
      | inr (m, e) ↦ (
        suc k,
        ap (λ o. get_elem? (elim o [ none ↦ next | some m ↦ take m t'.signatures ∷ next ]) (suc k))
              e
            ∙ g,
      )
    ]

All-both {ℓ} :
    {A : Type 0} (P Q : A → Type ℓ) (xs : List A) → All P xs → All Q xs → All (λ x. P x × Q x) xs
All-both P Q [] p q = tt
All-both P Q (x ∷ xs) (p, ps) (q, qs) = ((p, q), All-both P Q xs ps qs)

closing_info_injective :
    {a b : RangeInfo × List (List ℕ)}
    → ◌≡◌ {A = Outcome Error (RangeInfo × List (List ℕ))} (ok a) (ok b)
    → a ≡ b
closing_info_injective h = cc

-- The answer to the outcomes of the attestations, and the signatures that are returned with it.
answered :
    (order : HashOrder) (contract : EnumContract) (attestations : List (ℕ × Attestation))
    (info : RangeInfo) (sigs : List (List ℕ))
    → get_range_info_and_oracle_sigs order contract attestations ≡ ok (info, sigs)
    → (sig_infos : List (ℕ × ℕ)) × (get_range_info_for_outcome order contract.contract_descriptor
          (length contract.oracle_announcements)
          contract.threshold
          (outcomes_of attestations)
          0
        ≡ ok (some (sig_infos, info)))
      × (oracle_sigs sig_infos attestations ≡ sigs)
unfolding get_range_info_and_oracle_sigs
answered order contract attestations info sigs h =
    let (found, e, h1) =
      >>=-eq-ok
        (get_range_info_for_outcome order contract.contract_descriptor
          (length contract.oracle_announcements) contract.threshold (outcomes_of attestations) 0)
        _ h in
    elim (Option-cases found) [
      | inl none_found ↦ cc (rw none_found at h1)
      | inr ((sig_infos, range_info), some_found) ↦
          let q = closing_info_injective (rw some_found at h1) in
          (
            sig_infos,
            e
                ∙ ap ok some_found
                ∙ ap (λ (p : RangeInfo × List (List ℕ)). ok (some (sig_infos, p.0))) q,
            ap (λ p. p.1) q,
          )
    ]

module _ (curve : OracleCurve) (order : HashOrder) (contract : EnumContract)
    (cets : List Transaction) (sk : ℕ) (spk : Script) (value : ℕ) where
  -- For a threshold from 1 to the number of the announcements and attestations in the order of the
  -- oracles: when a range info is found, its outcome has a payout, enough oracles attest it, and their
  -- first signatures are returned. Where `made` are the adaptor signatures of the contract, the one
  -- that is made for the outcome and these oracles stands at the adaptor index among them, so
  -- `length pre` places further where those of other contracts stand before them.
  pub get_range_info_and_oracle_sigs-get_adaptor_signatures :
      (attestations : List (ℕ × Attestation)) (pre made post : List ℕ) (info : RangeInfo)
      (sigs : List (List ℕ))
      → 0 < contract.threshold
      → contract.threshold ≤ length contract.oracle_announcements
      → Ascending 0 (length contract.oracle_announcements) (indexes_of (outcomes_of attestations))
      → get_adaptor_signatures curve contract.contract_descriptor
          (get_oracle_infos contract)
          contract.threshold
          cets
          sk
          spk
          value
        ≡ ok made
      → get_range_info_and_oracle_sigs order contract attestations ≡ ok (info, sigs)
      → (x : EnumerationPayout) × (selector : List ℕ) × (sig : ℕ) × (get_elem?
            contract.contract_descriptor.outcome_payouts info.cet_index
          ≡ some x)
        × (length selector ≡ contract.threshold)
        × All (Contributes attestations x.outcome sigs) selector
        × (get_elem? (pre ++ (made ++ post)) (length pre + info.adaptor_index) ≡ some sig)
        × (at_place curve
              (get_oracle_infos contract)
              (sign_cet curve (get_oracle_infos contract) cets sk spk value)
              (info.cet_index, outcome_messages curve contract.threshold x, selector)
            ≡ ok sig)
  get_range_info_and_oracle_sigs-get_adaptor_signatures attestations pre made post info sigs p h a s
        g =
      let (sig_infos, found, returned) = answered order contract attestations info sigs g in
      let n : length contract.oracle_announcements ≡ length (get_oracle_infos contract) =
        sym (length-map _ contract.oracle_announcements) in
      let (x, selector, sig, payout, same, len, attested, here, signed) =
        get_range_info_for_outcome-get_adaptor_signatures curve order (get_oracle_infos contract)
          cets sk spk value contract.contract_descriptor contract.threshold
          (outcomes_of attestations) [] made post sig_infos info p (rw n at h) (rw n at a) s
          (rw n at found) in
      let contributes : All (Contributes attestations x.outcome sigs) selector =
        All-imp _ _
          (λ i ((j, at_j), first).
            let (t, there, said) = outcomes_of-get_elem? attestations j i (x.outcome ∷ []) at_j in
            let (k, taken) =
              oracle_sigs-get_elem? sig_infos attestations i j 1 t
                (ap (find_sig_info i) same ∙ first) there in
            (t, j, k, there, said, ap (λ l. get_elem? l k) (sym returned) ∙ taken))
          selector (All-both _ _ selector attested (found_sig_infos selector)) in
      (
        x,
        selector,
        sig,
        payout,
        len,
        contributes,
        get_elem?-append_right pre (made ++ post) info.adaptor_index ∙ here,
        signed,
      )
