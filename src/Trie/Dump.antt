-- ===== src/Trie/Dump.antt =====
-- A trie is restored from its dump.
use rust_dlc.Base.{ok, ◌≡◌, refl, List, [], ◌∷◌, All, ◌≢◌}
use rust_dlc.Trie.{
  Node, removed, leaf, node, DigitTrie, DigitTrieDump, DigitNodeData, get_data, from_data, map_all,
  dump, from_dump,
}

module _ {T : Type 0} where
  -- Every node of the store is in place: none is taken out for an insertion.
  abbrev pub Complete : List (Node T) → Type 0
  Complete store = All (λ n. n ≢ removed) store

  restore_node :
      (n : Node T)
      → n ≢ removed
      → (d : DigitNodeData T) × (get_data n ≡ ok d) × (from_data d ≡ ok n)
  unfolding get_data from_data
  restore_node removed h = absurd (h refl)
  restore_node (leaf l) h = (_, refl, refl)
  restore_node (node n) h = (_, refl, refl)

  restore_all :
      (store : List (Node T))
      → Complete store
      → (ds : List (DigitNodeData T)) × (map_all get_data store ≡ ok ds)
        × (map_all from_data ds ≡ ok store)
  restore_all [] h = ([], refl, refl)
  restore_all (n ∷ store) (h, hs) =
      let (d, e, f) = restore_node n h in
      let (ds, es, fs) = restore_all store hs in (d ∷ ds, rw e (rw es refl), rw f (rw fs refl))

  -- A trie with all its nodes in place is dumped, and restored from the dump as it was.
  pub from_dump-dump :
      (trie : DigitTrie T)
      → Complete trie.store
      → (d : DigitTrieDump T) × (dump trie ≡ ok d) × (from_dump d ≡ ok trie)
  unfolding dump from_dump
  from_dump-dump trie h =
      let (ds, e, f) = restore_all trie.store h in
      (record { node_data = ds; root = trie.root; base = trie.base }, rw e refl, rw f refl)
