-- ===== src/Trie/Tests.antt =====
-- The theorems on the trie, at one with a leaf and a node.
use rust_dlc.Base.{ℕ, ok, ◌≡◌, [], ◌∷◌, none, some}
use rust_dlc.Trie.{DigitTrie, DigitTrieDump, leaf, node, dump, from_dump}
use rust_dlc.Trie.Dump.{from_dump-dump}

abbrev small_trie : DigitTrie ℕ
small_trie = record {
  store =
      leaf (record { content = 7; prefix = 1 ∷ [] })
      ∷ node (record { children = none ∷ some 0 ∷ []; prefix = 0 ∷ []; content = none })
      ∷ [];
  root = some 1;
  base = 2;
}

from_dump-dump_example :
    (d : DigitTrieDump ℕ) × (dump small_trie ≡ ok d) × (from_dump d ≡ ok small_trie)
from_dump-dump_example = from_dump-dump small_trie (λ e. cc, (λ e. cc, tt))
