-- ===== src/Contracts/Majority.antt =====
-- dlc-manager/src/contract/utils.rs. The order in which a hash map is iterated is a parameter.
use rust_dlc.Base.{
  ℕ, suc, ◌≡◌, if◌then◌else◌, Bool, true, false, ◌==◌, ◌&&◌, Outcome, ok, ◌>>=◌, unwrap, Option,
  none, some, List, [], ◌∷◌, ◌++◌, map, length, get_elem?,
}
use rust_dlc.Combinations.{slice_eq}
use rust_dlc.Dlc.Order.{sort_by_id, second}
use rust_dlc.Contracts.Types.{Error}

-- A value, and the indexes of the oracles that attested it.
abbrev pub Entry : Type 0
Entry = List ℕ × List ℕ

-- An iteration visits each entry of the map, and nothing else.
pub record HashOrder : Type 0 where
  pub iterate : List Entry → List Entry
  pub visits_same : (m : List Entry) → length (iterate m) ≡ length m
  pub visits_entry :
      (m : List Entry) (i : ℕ) (e : Entry)
      → get_elem? (iterate m) i ≡ some e
      → (j : ℕ) × (get_elem? m j ≡ some e)
  pub entry_visited :
      (m : List Entry) (j : ℕ) (e : Entry)
      → get_elem? m j ≡ some e
      → (i : ℕ) × (get_elem? (iterate m) i ≡ some e)

-- `hash_set.entry(value).or_default().push(index)`
unfoldable pub push_index : List ℕ → ℕ → List Entry → List Entry
push_index value index [] = (value, index ∷ []) ∷ []
push_index value index ((v, indexes) ∷ m) =
    let rest = push_index value index m in
    if slice_eq v value then (v, indexes ++ index ∷ []) ∷ m else (v, indexes) ∷ rest

unfoldable pub group_outcomes : List (ℕ × List ℕ) → List Entry → List Entry
unfolding push_index
group_outcomes [] m = m
group_outcomes ((index, value) ∷ outcomes) m = group_outcomes outcomes (push_index value index m)

-- `values.pop()`
unfoldable pub pop_last : {A : Type 0} → List A → Option A
pop_last [] = none
pop_last (x ∷ []) = some x
pop_last (x ∷ y ∷ list) = pop_last (y ∷ list)

-- `values.sort_by(|x, y| x.1.len().partial_cmp(&y.1.len()).unwrap())`
unfoldable pub sort_by_count : List Entry → List Entry
unfolding sort_by_id
sort_by_count values = map second (sort_by_id (map (λ e. (length e.1, e)) values))

unfoldable pub get_majority_combination :
    HashOrder → List (ℕ × List ℕ) → Outcome Error (Option Entry)
unfolding group_outcomes sort_by_count pop_last
get_majority_combination order outcomes = elim (group_outcomes outcomes []) [
  | [] ↦ ok none
  | m ↦ do last ← unwrap (pop_last (sort_by_count (order.iterate m))); ok (some last)
]

-- `*cnt.entry(i).or_insert(0) += 1`
unfoldable pub count_one : ℕ → List (ℕ × ℕ) → List (ℕ × ℕ)
count_one x [] = (x, 1) ∷ []
count_one x ((y, n) ∷ m) =
    let rest = count_one x m in if y == x then (y, suc n) ∷ m else (y, n) ∷ rest

unfoldable pub count_items : List ℕ → List (ℕ × ℕ) → List (ℕ × ℕ)
unfolding count_one
count_items [] m = m
count_items (x ∷ items) m = count_items items (count_one x m)

abbrev pub count_of : ℕ → List (ℕ × ℕ) → Option ℕ
count_of x [] = none
count_of x ((y, n) ∷ m) = if y == x then some n else count_of x m

-- The equality of hash maps: as many entries, and each in the other with the same count.
unfoldable pub all_counted : List (ℕ × ℕ) → List (ℕ × ℕ) → Bool
all_counted [] other = true
all_counted ((x, n) ∷ m) other =
    elim (count_of x other) [ none ↦ false | some k ↦ k == n ] && all_counted m other

unfoldable pub unordered_equal : List ℕ → List ℕ → Bool
unfolding count_items all_counted
unordered_equal a b =
    length (count_items a []) == length (count_items b [])
    && all_counted (count_items a []) (count_items b [])
