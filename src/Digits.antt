-- ===== src/Digits.antt =====
-- dlc-trie/src/digit_decomposition.rs: numbers as digits, most significant first, and the digit
-- prefixes that cover a range of outcomes. A loop that needs it takes fuel; `out_of_fuel` is no
-- Rust value, it stands for a loop that is still running.
mod Tests
pub mod Value
pub mod Between
pub mod Group
pub mod Narrow
pub mod Widen
pub mod Stack
pub mod Cover
pub mod Decompose
pub mod Compose
pub mod Prefix
pub mod Pad
use rust_dlc.Base.{
  ℕ, zero, suc, ◌+◌, ◌-◌, ◌*◌, ◌^◌, ◌%◌, Bool, true, false, ◌&&◌, ◌||◌, not, List, [], ◌∷◌, ◌++◌,
  map, Option, none, some, length, get_elem?, replicate, ltb, ◌==◌, if◌then◌else◌, Outcome, ok, err,
  panic, ◌>>=◌, ◌>>◌, assert, unwrap,
}
use rust_dlc.Base.Float.{f64_div_floor}
use mathlib.Core.List.{reverse}

pub data Stuck : Type 0 where
  out_of_fuel : Stuck

-- `while value > 0 { res.push(value % base); value = (value / base).floor() }`: the digits that
-- are still to be pushed, lowest first. `value % 0` panics.
pub decompose_loop : ℕ → ℕ → ℕ → Outcome Stuck (List ℕ)
decompose_loop zero value base = err out_of_fuel
decompose_loop (suc fuel) value base =
    let next = decompose_loop fuel (f64_div_floor value base) base >>= λ digits.
    ok ((value % base) ∷ digits) in
    if ltb 0 value then (if base == 0 then panic else next) else ok []

-- A 64-bit value has 64 digits at most, in the least base that ends the loop, 2.
unfoldable pub decompose_value : ℕ → ℕ → ℕ → Outcome Stuck (List ℕ)
unfolding decompose_loop
decompose_value value base nb_digits = do
  digits ← decompose_loop 65 value base
  let res = digits ++ replicate (nb_digits - length digits) 0
  assert (nb_digits == length res)
  ok (reverse res)

-- The sum and the power wrap at 64 bits.
pub compose_loop : ℕ → List ℕ → ℕ → ℕ
compose_loop composed [] base = composed
compose_loop composed (v ∷ values) base =
    compose_loop ((composed + v * (base ^ length values % 2 ^ 64) % 2 ^ 64) % 2 ^ 64) values base

unfoldable pub compose_value : List ℕ → ℕ → ℕ
unfolding compose_loop
compose_value values base = compose_loop 0 values base

abbrev pub list_eq : List ℕ → List ℕ → Bool
list_eq [] [] = true
list_eq [] (y ∷ ys) = false
list_eq (x ∷ xs) [] = false
list_eq (x ∷ xs) (y ∷ ys) = x == y && list_eq xs ys

-- The scan `while start[i] == end[i]`, and the two drains: the common prefix and what is left of
-- the two numbers. An index out of bounds panics.
pub split_prefix : List ℕ → List ℕ → Outcome Stuck (List ℕ × List ℕ × List ℕ)
split_prefix (x ∷ xs) (y ∷ ys) =
    let rest = split_prefix xs ys >>= λ (p, s, e). ok (x ∷ p, s, e) in
    if x == y then rest else ok ([], x ∷ xs, y ∷ ys)
split_prefix [] ys = panic
split_prefix (x ∷ xs) [] = panic

pub take_prefix : List ℕ → List ℕ → Outcome Stuck (List ℕ × List ℕ × List ℕ)
unfolding split_prefix
take_prefix start end = if list_eq start end then ok (start, [], []) else split_prefix start end

-- From here on a `Vec` that is used as a stack is kept with its last element first, so that
-- `push` is `∷`, `v[v.len() - 1]` is the head and `v[0]` is the bottom.
pub remove_tail : List ℕ → ℕ → List ℕ
remove_tail [] r = []
remove_tail (x ∷ []) r = x ∷ []
remove_tail (x ∷ y ∷ v) r = let rest = remove_tail (y ∷ v) r in if x == r then rest else x ∷ y ∷ v

-- `v[0]`, of a stack that is not empty.
pub bottom : List ℕ → ℕ
bottom [] = 0
bottom (x ∷ []) = x
bottom (x ∷ y ∷ v) = bottom (y ∷ v)

-- `v[0] += 1`
pub raise_bottom : List ℕ → List ℕ
raise_bottom [] = []
raise_bottom (x ∷ []) = (x + 1) ∷ []
raise_bottom (x ∷ y ∷ v) = x ∷ raise_bottom (y ∷ v)

-- `v[v.len() - 1] += 1`
pub raise_top : List ℕ → List ℕ
raise_top [] = []
raise_top (x ∷ v) = (x + 1) ∷ v

-- `v.iter().all(p)`
abbrev pub every : (ℕ → Bool) → List ℕ → Bool
every p [] = true
every p (x ∷ xs) = p x && every p xs

-- `list.push(stack.clone())`
abbrev pub push_stack : List (List ℕ) → List ℕ → List (List ℕ)
push_stack list stack = list ++ (reverse stack ∷ [])

-- One round of `while stack.len() != 1`.
pub widen_round : ℕ → List ℕ → List (List ℕ) → List ℕ × List (List ℕ)
unfolding remove_tail raise_top
widen_round base [] list = ([], list)
widen_round base (x ∷ v) list =
    if x == base - 1
    then (raise_top (remove_tail v (base - 1)), push_stack list (x ∷ v))
    else if x == 0
    then (remove_tail (x ∷ v) 0, list)
    else ((x + 1) ∷ v, push_stack list (x ∷ v))

-- `assert!(stack.iter().all(|x| x < &base))` ends each round. On an empty stack the index
-- `stack.len() - 1` is out of bounds.
pub widen_loop : ℕ → ℕ → List ℕ → List (List ℕ) → Outcome Stuck (List ℕ × List (List ℕ))
unfolding widen_round
widen_loop fuel base [] list = panic
widen_loop fuel base (x ∷ []) list = ok (x ∷ [], list)
widen_loop zero base (x ∷ y ∷ v) list = err out_of_fuel
widen_loop (suc fuel) base (x ∷ y ∷ v) list =
    let (stack', list') = widen_round base (x ∷ y ∷ v) list in
    let rest = widen_loop fuel base stack' list' in assert (every (λ d. ltb d base) stack') >> rest

-- `while stack[0] != de[0]`
pub cross_loop : ℕ → ℕ → List ℕ → List (List ℕ) → Outcome Stuck (List ℕ × List (List ℕ))
unfolding bottom raise_bottom
cross_loop zero de0 stack list = err out_of_fuel
cross_loop (suc fuel) de0 stack list =
    let rest = cross_loop fuel de0 (raise_bottom stack) (push_stack list stack) in
    if bottom stack == de0 then ok (stack, list) else rest

-- One round of `while stack != de`; `de` has its first digit first here, as `de[i]` wants.
pub narrow_round : List ℕ → List ℕ → List (List ℕ) → Outcome Stuck (List ℕ × List (List ℕ))
narrow_round de [] list = panic
narrow_round de (x ∷ v) list = do
  d ← unwrap (get_elem? de (length v))
  ok (if x == d then (0 ∷ x ∷ v, list) else ((x + 1) ∷ v, push_stack list (x ∷ v)))

pub narrow_loop : ℕ → List ℕ → List ℕ → List (List ℕ) → Outcome Stuck (List (List ℕ))
unfolding narrow_round
narrow_loop zero de stack list = err out_of_fuel
narrow_loop (suc fuel) de stack list =
    let rest = narrow_round de stack list >>= λ (stack', list'). narrow_loop fuel de stack' list' in
    if list_eq (reverse stack) de then ok list else rest

-- The body from `remove_tail(&mut ds, 0)` to `list.push(de)`, over the reversed digits.
pub cover_between : ℕ → ℕ → List ℕ → List ℕ → Outcome Stuck (List (List ℕ))
unfolding remove_tail bottom widen_loop cross_loop narrow_loop
cover_between base nb_digits ds de = do
  let ds' = remove_tail ds 0
  let de' = remove_tail de (base - 1)
  let fuel = (nb_digits + 2) * (base + 1)
  (stack, list) ← widen_loop fuel base ds' []
  (stack', list') ← cross_loop (base + 1) (bottom de') stack list
  list'' ← narrow_loop fuel (reverse de') stack' list'
  ok (list'' ++ (reverse de' ∷ []))

unfoldable pub group_by_ignoring_digits : ℕ → ℕ → ℕ → ℕ → Outcome Stuck (List (List ℕ))
unfolding decompose_value take_prefix cover_between
group_by_ignoring_digits start end base nb_digits = do
  ds ← decompose_value start base nb_digits
  de ← decompose_value end base nb_digits
  (prefix, ds', de') ← take_prefix ds de
  let list = cover_between base nb_digits (reverse ds') (reverse de')
  let whole = every (λ x. x == 0) ds' && every (λ x. x == base - 1) de'
  if list_eq ds' [] && list_eq de' [] || whole
      then ok (prefix ∷ [])
      else (list >>= λ l. ok (if list_eq prefix [] then l else map (λ x. prefix ++ x) l))
