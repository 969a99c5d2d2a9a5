-- ===== src/Contracts/Signatures.antt =====
-- The adaptor signatures that one party makes are accepted by the other.
use rust_dlc.Base.{
  ℕ, suc, ◌+◌, ◌≡◌, refl, sym, ap, fun_ext, ◌∙◌, true, Outcome, ok, err, panic, ◌>>=◌, ◌>>◌, unwrap,
  some, List, [], ◌∷◌, ◌++◌, map, length, length-append, get_elem?, get_elem?-middle, arith,
  >>=-eq-ok, >>=_assoc,
}
use mathlib.Core.List.{append_assoc}
use rust_dlc.Dlc.Types.{Script, Transaction}
use rust_dlc.Contracts.Types.{
  Error, EnumDescriptor, OracleInfo, all_combinations, for_each, map_results, from_crate,
}
use rust_dlc.Contracts.Points.{
  OracleCurve, create_cet_adaptor_sig_from_point, verify_cet_adaptor_sig_from_point,
}
use rust_dlc.Contracts.Enum.{
  outcome_messages, iter_outcomes, get_adaptor_signatures, verify_adaptor_info,
}
use rust_dlc.Contracts.Sequence.{
  Place, places, point_of, at_place, visit, for_each-push, outcome_loop-for_each,
}

>>=-ok : {A : Type 0} (m : Outcome Error A) → (m >>= λ a. ok a) ≡ m
>>=-ok (ok a) = refl
>>=-ok (err e) = refl
>>=-ok panic = refl

module _ (curve : OracleCurve) (oracle_infos : List OracleInfo) (cets : List Transaction) (sk : ℕ)
    (spk : Script) (value : ℕ) where
  open curve use {sig_hash, encrypt, verify, public_key_of}

  -- The signature of the party with the secret key `sk` on the CET at an index.
  abbrev pub sign_cet : ℕ → ℕ → Outcome Error ℕ
  sign_cet point i = do
    cet ← unwrap (get_elem? cets i)
    create_cet_adaptor_sig_from_point curve cet point sk spk value

  pushed :
      (m : Outcome Error ℕ) (i : ℕ) (s : List ℕ)
      → (m >>= λ point. do
        cet ← unwrap (get_elem? cets i)
        sig ← create_cet_adaptor_sig_from_point curve cet point sk spk value
        ok (s ++ sig ∷ []))
        ≡ (m >>= (λ point. sign_cet point i) >>= λ sig. ok (s ++ sig ∷ []))
  pushed m i s = simp >>=_assoc

  -- The signatures are those of the places, in their order.
  pub get_adaptor_signatures-places :
      (descriptor : EnumDescriptor) (threshold : ℕ)
      → get_adaptor_signatures curve descriptor oracle_infos threshold cets sk spk value ≡ (
          all_combinations (length oracle_infos) threshold >>= λ combinations.
          map_results (at_place curve oracle_infos sign_cet) (
            places 0
              (map (outcome_messages curve threshold) descriptor.outcome_payouts)
              combinations))
  unfolding get_adaptor_signatures iter_outcomes
  get_adaptor_signatures-places descriptor threshold =
      ap (λ rest. all_combinations (length oracle_infos) threshold >>= rest)
        (fun_ext λ combinations.
          let messages = map (outcome_messages curve threshold) descriptor.outcome_payouts in
          let all = places 0 messages combinations in
          outcome_loop-for_each curve oracle_infos _ combinations 0 messages []
          ∙ ap (λ f. for_each f all [])
              (fun_ext λ p. fun_ext λ s. pushed (point_of curve oracle_infos p) p.0 s)
          ∙ for_each-push (at_place curve oracle_infos sign_cet) all []
          ∙ >>=-ok (map_results (at_place curve oracle_infos sign_cet) all))

  module _ (verifies : (h k p : ℕ) → verify (encrypt h k p) h (public_key_of k) p ≡ true) where
    verify_signed :
        (point i sig : ℕ)
        → sign_cet point i ≡ ok sig
        → (do
          cet ← unwrap (get_elem? cets i)
          verify_cet_adaptor_sig_from_point curve sig cet point (public_key_of sk) spk value)
          ≡ ok tt
    unfolding create_cet_adaptor_sig_from_point verify_cet_adaptor_sig_from_point
    verify_signed point i sig h =
        let (cet, e, k) = >>=-eq-ok (unwrap (get_elem? cets i)) _ h in
        let (sighash, g, l) = >>=-eq-ok (from_crate (sig_hash cet spk value)) _ k in
        let q : encrypt sighash sk point ≡ sig = cc in
        rw e (rw g (rw (← q) (rw (verifies sighash sk point) refl)))

    -- The check at a place, with the index of the next signature.
    abbrev check : List ℕ → ℕ → ℕ → ℕ → Outcome Error ℕ
    check sigs point i index = do
      sig ← unwrap (get_elem? sigs index)
      cet ← unwrap (get_elem? cets i)
      verify_cet_adaptor_sig_from_point curve sig cet point (public_key_of sk) spk value
      ok (suc index)

    check_signed :
        (sigs : List ℕ) (point i index sig : ℕ)
        → get_elem? sigs index ≡ some sig
        → sign_cet point i ≡ ok sig
        → check sigs point i index ≡ ok (suc index)
    check_signed sigs point i index sig g h = rw g (
        sym (
          >>=_assoc (unwrap (get_elem? cets i))
            (λ cet.
              verify_cet_adaptor_sig_from_point curve sig cet point (public_key_of sk) spk value)
            (λ _. ok (suc index)))
        ∙ ap (λ m. m >>= λ _. ok (suc index)) (verify_signed point i sig h))

    -- The places are visited by the verification, from the index of their first signature on.
    verify_places :
        (pre post sigs : List ℕ) (ps : List Place) (made : List ℕ)
        → map_results (at_place curve oracle_infos sign_cet) ps ≡ ok made
        → sigs ≡ pre ++ (made ++ post)
        → for_each (visit curve oracle_infos (check sigs)) ps (length pre)
          ≡ ok (length pre + length made)
    verify_places pre post sigs [] made h e = let q : made ≡ [] = cc in rw q (ap ok (omega arith))
    verify_places pre post sigs (p ∷ ps) made h e =
        let (sig, g, k) = >>=-eq-ok (at_place curve oracle_infos sign_cet p) _ h in
        let (rest, l, m) = >>=-eq-ok (map_results (at_place curve oracle_infos sign_cet) ps) _ k in
        let q : made ≡ sig ∷ rest = cc in
        let (point, n, o) = >>=-eq-ok (point_of curve oracle_infos p) _ g in
        let here =
          ap (λ list. get_elem? list (length pre)) (e ∙ ap (λ m. pre ++ (m ++ post)) q)
          ∙ get_elem?-middle pre (rest ++ post) sig in
        let behind =
          e ∙ ap (λ m. pre ++ (m ++ post)) q ∙ sym (append_assoc pre (sig ∷ []) (rest ++ post)) in
        let len : length (pre ++ sig ∷ []) ≡ suc (length pre) =
          omega (arith, length-append {0} pre (sig ∷ [])) in
        rw n (
          rw (check_signed sigs point p.0 (length pre) sig here o) (
            ap (λ index. for_each (visit curve oracle_infos (check sigs)) ps index) (sym len)
            ∙ verify_places (pre ++ sig ∷ []) post sigs ps rest l behind
            ∙ ap ok (omega (arith, len, ap (length {0}) q))))

    -- Where an adaptor signature verifies against the key it is made with: the other party accepts the
    -- signatures that were made for the contract, wherever they stand among its adaptor signatures,
    -- and returns the index behind them.
    pub verify_adaptor_info-get_adaptor_signatures :
        (descriptor : EnumDescriptor) (threshold : ℕ) (pre made post : List ℕ)
        → get_adaptor_signatures curve descriptor oracle_infos threshold cets sk spk value ≡ ok made
        → verify_adaptor_info curve descriptor oracle_infos threshold
            (public_key_of sk)
            spk
            value
            cets
            (pre ++ (made ++ post))
            (length pre)
          ≡ ok (length pre + length made)
    unfolding verify_adaptor_info iter_outcomes
    verify_adaptor_info-get_adaptor_signatures descriptor threshold pre made post h =
        let (combinations, e, k) =
          >>=-eq-ok (all_combinations (length oracle_infos) threshold) _
            (sym (get_adaptor_signatures-places descriptor threshold) ∙ h) in
        rw e (
          outcome_loop-for_each curve oracle_infos _ combinations 0
            (map (outcome_messages curve threshold) descriptor.outcome_payouts) (length pre)
          ∙ verify_places pre post (pre ++ (made ++ post)) _ made k refl)
