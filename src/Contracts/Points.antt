-- ===== src/Contracts/Points.antt =====
-- dlc/src/lib.rs: the points that adaptor signatures are encrypted with, and the signatures.
use rust_dlc.Base.{
  ℕ, suc, Bool, true, false, ltb, ◌||◌, if◌then◌else◌, Outcome, ok, err, ◌>>=◌, ◌⊎◌, require,
  unwrap, List, [], ◌∷◌, length, get_elem?,
}
use rust_dlc.Dlc.Types.{Script, Transaction}
use rust_dlc.Dlc.Types as Dlc
use rust_dlc.Contracts.Types.{Error, dlc_error, OracleInfo, from_crate, map_results}

-- What the crates secp256k1-zkp and bitcoin do: the hash of an outcome, the point of a signature that
-- an oracle can make, the sum of points, the hash of input 0 that is signed, and adaptor signatures.
pub record OracleCurve : Type 0 where
  pub message : ℕ → ℕ
  pub compute_sig_point : (public_key nonce message : ℕ) → Dlc.Error ⊎ ℕ
  pub combine_keys : List ℕ → Dlc.Error ⊎ ℕ
  pub sig_hash : Transaction → Script → ℕ → Dlc.Error ⊎ ℕ
  pub encrypt : (sighash sk encryption_key : ℕ) → ℕ
  pub verify : (adaptor_signature sighash pk encryption_key : ℕ) → Bool
  pub public_key_of : ℕ → ℕ

abbrev pub is_empty_slice : {A : Type 0} → List A → Bool
is_empty_slice [] = true
is_empty_slice (x ∷ list) = false

abbrev pub zip_with : {A B C : Type 0} → (A → B → C) → List A → List B → List C
zip_with f [] ys = []
zip_with f (x ∷ xs) [] = []
zip_with f (x ∷ xs) (y ∷ ys) = f x y ∷ zip_with f xs ys

abbrev pub all_ok : {A : Type 0} → List (Dlc.Error ⊎ A) → Outcome Error (List A)
all_ok list = map_results from_crate list

module _ (curve : OracleCurve) where
  open curve use {message, compute_sig_point, combine_keys, sig_hash, encrypt, verify}

  unfoldable pub get_oracle_sig_point : OracleInfo → List ℕ → Outcome Error ℕ
  get_oracle_sig_point oracle_info msgs =
      if ltb (length oracle_info.nonces) (length msgs)
      then err (dlc_error (Dlc.invalid_argument Dlc.too_few_nonces))
      else do
        sig_points ←
            all_ok (zip_with (compute_sig_point oracle_info.public_key) oracle_info.nonces msgs)
        from_crate (combine_keys sig_points)

  -- The points of the oracles, from the index `i` on.
  unfoldable pub oracle_sigpoints : ℕ → List OracleInfo → List (List ℕ) → Outcome Error (List ℕ)
  unfolding get_oracle_sig_point
  oracle_sigpoints i [] msgs = ok []
  oracle_sigpoints i (info ∷ infos) msgs = do
    msg ← unwrap (get_elem? msgs i)
    point ← get_oracle_sig_point info msg
    points ← oracle_sigpoints (suc i) infos msgs
    ok (point ∷ points)

  unfoldable pub get_adaptor_point_from_oracle_info :
      List OracleInfo → List (List ℕ) → Outcome Error ℕ
  unfolding oracle_sigpoints
  get_adaptor_point_from_oracle_info oracle_infos msgs =
      if is_empty_slice oracle_infos || is_empty_slice msgs
      then err (dlc_error (Dlc.invalid_argument Dlc.empty_oracle_infos_or_msgs))
      else do points ← oracle_sigpoints 0 oracle_infos msgs; from_crate (combine_keys points)

  unfoldable pub create_cet_adaptor_sig_from_point :
      Transaction → ℕ → ℕ → Script → ℕ → Outcome Error ℕ
  create_cet_adaptor_sig_from_point cet adaptor_point funding_sk funding_script_pubkey
        fund_output_value =
      do
        sighash ← from_crate (sig_hash cet funding_script_pubkey fund_output_value)
        ok (encrypt sighash funding_sk adaptor_point)

  unfoldable pub verify_cet_adaptor_sig_from_point :
      ℕ → Transaction → ℕ → ℕ → Script → ℕ → Outcome Error (Unit {0})
  verify_cet_adaptor_sig_from_point adaptor_sig cet adaptor_point pubkey funding_script_pubkey
        total_collateral =
      do
        sighash ← from_crate (sig_hash cet funding_script_pubkey total_collateral)
        require (verify adaptor_sig sighash pubkey adaptor_point) (dlc_error Dlc.secp256k1)
