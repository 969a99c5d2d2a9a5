-- ===== src/Contracts/Types.antt =====
-- The data of dlc-manager/src/contract and of dlc/src/lib.rs that contracts with enumerated outcomes
-- are made of. A text and a key are numbers, which are only compared and hashed.
use rust_dlc.Base.{ℕ, suc, Outcome, ok, err, panic, ◌>>=◌, ◌⊎◌, inl, inr, List, [], ◌∷◌}
use rust_dlc.Dlc.Types.{Payout}
use rust_dlc.Dlc.Types as Dlc
use rust_dlc.Combinations.{Run, out_of_fuel, combinations_new, collect}
use rust_dlc.Combinations.Enumeration.{choose}

-- The errors of the two crates, and that of a loop whose fuel is used up.
pub data Error : Type 0 where
  loop_running invalid_parameters invalid_state : Error
  dlc_error : Dlc.Error → Error

pub record EnumerationPayout : Type 0 where
  pub outcome : ℕ
  pub payout : Payout

pub record EnumDescriptor : Type 0 where
  pub outcome_payouts : List EnumerationPayout

pub record OracleInfo : Type 0 where
  pub public_key : ℕ
  pub nonces : List ℕ

pub record RangeInfo : Type 0 where
  pub cet_index : ℕ
  pub adaptor_index : ℕ

abbrev pub from_loop : {A : Type 0} → Run A → Outcome Error A
from_loop (ok a) = ok a
from_loop (err out_of_fuel) = err loop_running
from_loop panic = panic

abbrev pub from_crate : {A : Type 0} → Dlc.Error ⊎ A → Outcome Error A
from_crate (inl e) = err (dlc_error e)
from_crate (inr a) = ok a

-- `CombinationIterator::new(nb_elements, nb_selected).collect()`, with fuel for a round more than
-- there are combinations.
unfoldable pub all_combinations : ℕ → ℕ → Outcome Error (List (List ℕ))
unfolding combinations_new collect
all_combinations nb_elements nb_selected =
    from_loop
      (combinations_new nb_elements nb_selected >>= collect (suc (choose nb_elements nb_selected)))

module _ {A S : Type 0} where
  -- `for x in list { f(x)? }`, where the body changes the state.
  abbrev pub for_each : (A → S → Outcome Error S) → List A → S → Outcome Error S
  for_each f [] s = ok s
  for_each f (x ∷ list) s = f x s >>= for_each f list

-- `list.iter().map(f).collect::<Result<_, _>>()`
abbrev pub map_results : {A B : Type 0} → (A → Outcome Error B) → List A → Outcome Error (List B)
map_results f [] = ok []
map_results f (x ∷ list) = do y ← f x; ys ← map_results f list; ok (y ∷ ys)
