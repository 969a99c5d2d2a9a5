-- ===== src/Contracts/Tests.antt =====
-- The theorems on contracts with enumerated outcomes, at two of three oracles.
use rust_dlc.Base.{
  ℕ, ◌+◌, ◌*◌, ◌≡◌, ◌≢◌, ◌<◌, refl, ◌==◌, true, inr, ok, panic, some, ◌≤◌, List, [], ◌∷◌, length,
  get_elem?, arith, All,
}
use rust_dlc.Dlc.Types.{Transaction}
use rust_dlc.Combinations.{next, sub_usize, rewind, bump}
use rust_dlc.Contracts.Types.{EnumDescriptor, EnumerationPayout, OracleInfo, RangeInfo}
use rust_dlc.Contracts.Points.{OracleCurve}
use rust_dlc.Contracts.Majority.{HashOrder}
use rust_dlc.Contracts.Enum.{outcome_messages, get_adaptor_signatures, verify_adaptor_info}
use rust_dlc.Contracts.Sequence.{at_place}
use rust_dlc.Contracts.Signatures.{sign_cet, verify_adaptor_info-get_adaptor_signatures}
use rust_dlc.Contracts.Empty.{get_adaptor_signatures-no_threshold}
use rust_dlc.Contracts.Closable.{
  Announcement, Attestation, EnumContract, enum_info, Oracles, outcomes_of,
  get_closable_contract_info, get_range_info_and_oracle_sigs,
}
use rust_dlc.Contracts.Found.{get_range_info_and_oracle_sigs-votes}
use rust_dlc.Contracts.Votes.{votes}
use rust_dlc.Contracts.Maturity.{Announces, get_closable_contract_info-Announces}
use rust_dlc.Contracts.Closing.{Contributes, get_range_info_and_oracle_sigs-get_adaptor_signatures}
use rust_dlc.Combinations.Index.{Ascending}

abbrev sum : List ℕ → ℕ
sum [] = 0
sum (x ∷ xs) = x + sum xs

-- An adaptor signature shows the key and the point.
abbrev open_curve : OracleCurve
open_curve = record {
  message = λ outcome. outcome;
  compute_sig_point = λ key nonce message. inr (key * 100 + nonce + message);
  combine_keys = λ points. inr (sum points);
  sig_hash = λ tx script value. inr value;
  encrypt = λ sighash sk point. sighash + sk + point;
  verify = λ sig sighash pk point. sig == sighash + pk + point;
  public_key_of = λ sk. sk;
}

abbrev in_order : HashOrder
in_order = record {
  iterate = λ m. m;
  visits_same = λ m. refl;
  visits_entry = λ m i e h. (i, h);
  entry_visited = λ m j e h. (j, h);
}

abbrev oracle : ℕ → OracleInfo
oracle key = record { public_key = key; nonces = key ∷ [] }

abbrev three_oracles : List OracleInfo
three_oracles = oracle 1 ∷ oracle 2 ∷ oracle 3 ∷ []

abbrev won : ℕ → ℕ → EnumerationPayout
won outcome offer = record { outcome = outcome; payout = record { offer = offer; accept = 10 } }

abbrev two_outcomes : EnumDescriptor
two_outcomes = record { outcome_payouts = won 40 5 ∷ won 50 6 ∷ [] }

abbrev cet : ℕ → Transaction
cet n = record { version = 2; lock_time = n; input = []; output = [] }

abbrev two_cets : List Transaction
two_cets = cet 1 ∷ cet 2 ∷ []

abbrev signed : List ℕ
signed = 1390 ∷ 1491 ∷ 1592 ∷ 1410 ∷ 1511 ∷ 1612 ∷ []

same_number : (h k p : ℕ) → (h + k + p == h + k + p) ≡ true
same_number h k p = ground arith

verify_adaptor_info-get_adaptor_signatures_example :
    verify_adaptor_info open_curve two_outcomes three_oracles 2 7 [] 1000 two_cets
      (9 ∷ 1390 ∷ 1491 ∷ 1592 ∷ 1410 ∷ 1511 ∷ 1612 ∷ 8 ∷ [])
      1
    ≡ ok 7
unfolding get_adaptor_signatures next sub_usize rewind bump
verify_adaptor_info-get_adaptor_signatures_example =
    verify_adaptor_info-get_adaptor_signatures open_curve three_oracles two_cets 7 [] 1000
      same_number two_outcomes 2 (9 ∷ []) signed (8 ∷ []) refl

abbrev announced : ℕ → ℕ → Announcement
announced key epoch = record {
  oracle_public_key = key;
  event_maturity_epoch = epoch;
  event_id = 8;
  oracle_nonces = key ∷ [];
}

-- The first announcement matures later than the others.
abbrev two_of_three : EnumContract
two_of_three = record {
  contract_descriptor = two_outcomes;
  oracle_announcements = announced 1 20 ∷ announced 2 10 ∷ announced 3 10 ∷ [];
  threshold = 2;
}

-- The oracle with the key `k` signs the outcome 50 with `k`.
abbrev said_50 : ℕ → Attestation
said_50 key = record { signatures = key ∷ []; outcomes = 50 ∷ [] }

abbrev all_attest : Oracles
all_attest = record {
  oracle_of = λ key. some key;
  get_attestation = λ oracle event_id. some (said_50 oracle);
}

get_closable_contract_info-Announces_example :
    (2 ≤ 2)
    × Ascending 0 2 (0 ∷ 1 ∷ [])
    × All
        (Announces all_attest two_of_three.oracle_announcements 1)
        ((0, said_50 2) ∷ (1, said_50 3) ∷ [])
unfolding get_closable_contract_info
get_closable_contract_info-Announces_example =
    get_closable_contract_info-Announces all_attest 15 (two_of_three ∷ []) (enum_info ∷ [])
      two_of_three enum_info (announced 1 20 ∷ []) (announced 2 10 ∷ announced 3 10 ∷ [])
      ((0, said_50 2) ∷ (1, said_50 3) ∷ []) refl (refl, tt) (refl, (refl, tt)) refl

-- The first and the third oracle say that the outcome is 50.
abbrev first_and_third : List (ℕ × Attestation)
first_and_third = (0, said_50 1) ∷ (2, said_50 3) ∷ []

get_range_info_and_oracle_sigs-get_adaptor_signatures_example :
    (x : EnumerationPayout) × (selector : List ℕ) × (sig : ℕ) × (get_elem?
        two_outcomes.outcome_payouts 1
      ≡ some x)
    × (length selector ≡ 2)
    × All (Contributes first_and_third x.outcome ((1 ∷ []) ∷ (3 ∷ []) ∷ [])) selector
    × (get_elem? (9 ∷ 1390 ∷ 1491 ∷ 1592 ∷ 1410 ∷ 1511 ∷ 1612 ∷ 8 ∷ []) 5 ≡ some sig)
    × (at_place open_curve three_oracles
          (sign_cet open_curve three_oracles two_cets 7 [] 1000)
          (1, outcome_messages open_curve 2 x, selector)
        ≡ ok sig)
unfolding get_adaptor_signatures get_range_info_and_oracle_sigs next sub_usize rewind bump
get_range_info_and_oracle_sigs-get_adaptor_signatures_example =
    get_range_info_and_oracle_sigs-get_adaptor_signatures open_curve in_order two_of_three two_cets
      7 [] 1000 first_and_third (9 ∷ []) signed (8 ∷ [])
      (record { cet_index = 1; adaptor_index = 4 }) ((1 ∷ []) ∷ (3 ∷ []) ∷ []) (omega arith)
      (omega arith) (omega arith, omega arith, (omega arith, omega arith, tt)) refl refl

get_adaptor_signatures-no_threshold_example :
    get_adaptor_signatures open_curve two_outcomes three_oracles 0 two_cets 7 [] 1000 ≡ panic
get_adaptor_signatures-no_threshold_example =
    get_adaptor_signatures-no_threshold open_curve two_outcomes three_oracles two_cets 7 [] 1000

-- The second oracle says 40, and the others 50.
abbrev two_say_50 : List (ℕ × Attestation)
two_say_50 =
    (0, said_50 1) ∷ (1, record { signatures = 2 ∷ []; outcomes = 40 ∷ [] }) ∷ (2, said_50 3) ∷ []

fewer_votes : (w : ℕ) → w ≢ 50 → votes (w ∷ []) (outcomes_of two_say_50) < 2
fewer_votes w h = ground arith

get_range_info_and_oracle_sigs-votes_example :
    (info : RangeInfo) × (sigs : List (List ℕ)) × (y : EnumerationPayout)
    × (get_range_info_and_oracle_sigs in_order two_of_three two_say_50 ≡ ok (info, sigs))
    × (get_elem? two_outcomes.outcome_payouts info.cet_index ≡ some y)
    × (y.outcome ≡ 50)
get_range_info_and_oracle_sigs-votes_example =
    get_range_info_and_oracle_sigs-votes in_order two_of_three two_say_50 50 1 (won 50 6)
      (omega arith) (omega arith) (omega arith) fewer_votes refl refl
