-- ===== src/Contracts/Empty.antt =====
-- A threshold of 0 oracles, which the checks of a contract let through.
use rust_dlc.Base.{ℕ, ◌≡◌, refl, panic, List, length, arith}
use rust_dlc.Dlc.Types.{Script, Transaction}
use rust_dlc.Combinations.{combinations_new, collect, next, sub_usize}
use rust_dlc.Combinations.Enumeration.{leb-true}
use rust_dlc.Contracts.Types.{EnumDescriptor, OracleInfo, all_combinations}
use rust_dlc.Contracts.Points.{OracleCurve}
use rust_dlc.Contracts.Enum.{get_adaptor_signatures, iter_outcomes}

all_combinations-none : (n : ℕ) → all_combinations n 0 ≡ panic
unfolding all_combinations combinations_new collect next sub_usize
all_combinations-none n = rw (leb-true 0 n (omega arith)) refl

-- With a threshold of 0, the adaptor signatures are not made: the iterator panics behind the empty
-- combination.
pub get_adaptor_signatures-no_threshold :
    (curve : OracleCurve) (descriptor : EnumDescriptor) (oracle_infos : List OracleInfo)
    (cets : List Transaction) (sk : ℕ) (spk : Script) (value : ℕ)
    → get_adaptor_signatures curve descriptor oracle_infos 0 cets sk spk value ≡ panic
unfolding get_adaptor_signatures iter_outcomes
get_adaptor_signatures-no_threshold curve descriptor oracle_infos cets sk spk value =
    rw (all_combinations-none (length oracle_infos)) refl
