-- ===== src/Trie.antt =====
-- dlc-trie/src/digit_trie.rs: the store of a digit trie, and its dump.
pub mod Dump
mod Tests
use rust_dlc.Base.{
  ℕ, ltb, ◌==◌, if◌then◌else◌, Outcome, ok, err, panic, ◌>>=◌, unwrap, Option, none, some, List, [],
  ◌∷◌, ◌++◌, length,
}

-- `Node` of dlc-trie/src/lib.rs, with the leaves and nodes of a digit trie. `removed` is `Node::None`.
pub record DigitLeaf (T : Type 0) : Type 0 where
  pub content : T
  pub prefix : List ℕ

pub record DigitNode (T : Type 0) : Type 0 where
  pub children : List (Option ℕ)
  pub prefix : List ℕ
  pub content : Option T

pub data Node (T : Type 0) : Type 0 where
  removed : Node T
  leaf : DigitLeaf T → Node T
  node : DigitNode T → Node T

pub record DigitTrie (T : Type 0) : Type 0 where
  pub store : List (Node T)
  pub root : Option ℕ
  pub base : ℕ

pub record DigitNodeData (T : Type 0) : Type 0 where
  pub content : Option T
  pub prefix : List ℕ
  pub children : Option (List (Option ℕ))

pub record DigitTrieDump (T : Type 0) : Type 0 where
  pub node_data : List (DigitNodeData T)
  pub root : Option ℕ
  pub base : ℕ

-- The functions raise no error, but can panic.
pub data NoError : Type 0 where

-- `iter().map(f).collect()`, where `f` can panic.
abbrev pub map_all : {A B : Type 0} → (A → Outcome NoError B) → List A → Outcome NoError (List B)
map_all f [] = ok []
map_all f (x ∷ xs) = do y ← f x; ys ← map_all f xs; ok (y ∷ ys)

module _ {T : Type 0} where
  unfoldable pub trie_new : ℕ → DigitTrie T
  trie_new base = record { store = []; root = none; base = base }

  unfoldable pub get_data : Node T → Outcome NoError (DigitNodeData T)
  get_data (leaf l) = ok (record { content = some l.content; prefix = l.prefix; children = none })
  get_data (node n) =
      ok (record { content = n.content; prefix = n.prefix; children = some n.children })
  get_data removed = panic

  -- A leaf without data panics.
  unfoldable pub from_data : DigitNodeData T → Outcome NoError (Node T)
  from_data d = elim d.children [
    | some c ↦ ok (node (record { children = c; prefix = d.prefix; content = d.content }))
    | none ↦ do
      content ← unwrap d.content
      ok (leaf (record { content = content; prefix = d.prefix }))
  ]

  unfoldable pub dump : DigitTrie T → Outcome NoError (DigitTrieDump T)
  unfolding get_data
  dump trie = do
    node_data ← map_all get_data trie.store
    ok (record { node_data = node_data; root = trie.root; base = trie.base })

  unfoldable pub from_dump : DigitTrieDump T → Outcome NoError (DigitTrie T)
  unfolding from_data
  from_dump d = do
    store ← map_all from_data d.node_data
    ok (record { store = store; root = d.root; base = d.base })
