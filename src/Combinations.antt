-- ===== src/Combinations.antt =====
-- dlc-trie/src/combination_iterator.rs: the combinations of a number of elements, in order.
-- An index out of range panics. A subtraction below 0 panics, as in a debug build; in a release build
-- the index that it gives is out of range. No sum overflows: a selector holds numbers up to the number
-- of elements.
pub mod Reference
mod Selector
mod Step
mod Chain
pub mod Index
pub mod Enumeration
mod Tests
use rust_dlc.Base.{
  ℕ, zero, suc, ◌+◌, ◌-◌, ◌==◌, leb, ltb, Bool, true, false, if◌then◌else◌, Outcome, ok, err, panic,
  ◌>>=◌, ◌>>◌, assert, unwrap, Option, none, some, List, [], ◌∷◌, get_elem?,
}

-- What a loop on fuel says when the fuel is used up.
pub data OutOfFuel : Type 0 where
  out_of_fuel : OutOfFuel

abbrev pub Run : Type 0 → Type 0
Run A = Outcome OutOfFuel A

-- `a - b` on `usize`.
unfoldable pub sub_usize : ℕ → ℕ → Run ℕ
sub_usize a b = if ltb a b then panic else ok (a - b)

-- `(start..start + count).collect()`
abbrev pub count_from : ℕ → ℕ → List ℕ
count_from start zero = []
count_from start (suc count) = start ∷ count_from (suc start) count

-- `list[index] = x`
unfoldable pub put : List ℕ → ℕ → ℕ → Run (List ℕ)
put [] index x = panic
put (y ∷ list) zero x = ok (x ∷ list)
put (y ∷ list) (suc index) x = do rest ← put list index x; ok (y ∷ rest)

pub record CombinationIterator : Type 0 where
  pub selector : List ℕ
  pub nb_selected : ℕ
  pub nb_elements : ℕ
  pub is_init : Bool

unfoldable pub combinations_new : ℕ → ℕ → Run CombinationIterator
combinations_new nb_elements nb_selected = do
  assert (leb nb_selected nb_elements)
  ok (record {
    selector = count_from 0 nb_selected;
    nb_selected = nb_selected;
    nb_elements = nb_elements;
    is_init = false;
  })

-- The first loop: down from the last index, past the elements that have their greatest value.
unfoldable pub rewind : List ℕ → ℕ → ℕ → ℕ → Run ℕ
rewind selector nb_elements last_index zero = ok 0
rewind selector nb_elements last_index (suc cur_index) =
    let rest = rewind selector nb_elements last_index cur_index in
    do
      x ← unwrap (get_elem? selector (suc cur_index))
      top ← sub_usize nb_elements 1
      back ← sub_usize last_index (suc cur_index)
      limit ← sub_usize top back
      if x == limit then rest else ok (suc cur_index)

-- The second loop, with the rounds that are left: each element is one more than the one before.
unfoldable pub fill : ℕ → ℕ → List ℕ → Run (List ℕ)
fill zero cur_index selector = ok selector
fill (suc rounds) cur_index selector = do
  before ← sub_usize cur_index 1
  x ← unwrap (get_elem? selector before)
  selector' ← put selector cur_index (suc x)
  fill rounds (suc cur_index) selector'

unfoldable pub bump : List ℕ → ℕ → ℕ → Run (List ℕ)
unfolding put fill
bump selector last_index cur_index = do
  x ← unwrap (get_elem? selector cur_index)
  selector' ← put selector cur_index (suc x)
  fill (last_index - cur_index) (suc cur_index) selector'

unfoldable pub next : CombinationIterator → Run (Option (List ℕ) × CombinationIterator)
next it = elim it.is_init [
  | false ↦ ok (some it.selector, record it { is_init = true })
  | true ↦ do
    last_index ← sub_usize it.nb_selected 1
    cur_index ← rewind it.selector it.nb_elements last_index last_index
    selector ← bump it.selector last_index cur_index
    first ← unwrap (get_elem? selector 0)
    spare ← sub_usize it.nb_elements it.nb_selected
    ok (if first == suc spare then none else some selector, record it { selector = selector })
]

-- `iter.collect()`, on fuel.
unfoldable pub collect : ℕ → CombinationIterator → Run (List (List ℕ))
collect zero it = err out_of_fuel
collect (suc fuel) it = do
  (item, it') ← next it
  elim item [ none ↦ ok [] | some c ↦ do rest ← collect fuel it'; ok (c ∷ rest) ]

-- `combination == cur`
abbrev pub slice_eq : List ℕ → List ℕ → Bool
slice_eq [] [] = true
slice_eq (x ∷ xs) (y ∷ ys) = if x == y then slice_eq xs ys else false
slice_eq _ _ = false

-- The loop over the enumerated combinations, from the count `i` on, on fuel.
unfoldable pub find_from : ℕ → ℕ → CombinationIterator → List ℕ → Run (Option ℕ)
find_from zero i it combination = err out_of_fuel
find_from (suc fuel) i it combination = do
  (item, it') ← next it
  elim item [
    | none ↦ ok none
    | some cur ↦
        let rest = find_from fuel (suc i) it' combination in
        if slice_eq combination cur then ok (some i) else rest
  ]

unfoldable pub get_index_for_combination : ℕ → CombinationIterator → List ℕ → Run (Option ℕ)
get_index_for_combination fuel it combination = find_from fuel 0 it combination
