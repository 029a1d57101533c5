-- ===== src/Trie.antt =====
-- ethereum/trie.py: the hexary Merkle Patricia trie.
--
-- A node is kept with its children, where the source keeps a child of 32 bytes or more in the
-- database under its hash: `_encode_node` and `_decode_to_node` are then the identity. The sixteen
-- items of a branch are a function of the nibble. A value is a byte string, and the empty one is
-- BLANK_NODE: no value. Not modelled: the list of node hashes to delete.
pub mod Nibbles
pub mod Compact
pub mod Update
pub mod Delete
pub mod Lookup
pub mod Removed
pub mod Deleted
pub mod Busy
pub mod Invariant
pub mod History
pub mod Walk
pub mod Listing
use shopper.Prelude.{
  ℕ, zero, suc, ◌+◌, ◌-◌, ◌≡◌, Bool, true, false, ◌&&◌, ltb, leb, ◌==◌, if◌then◌else◌, List, [],
  ◌∷◌, ◌++◌, length, drop, take, list_eq,
}

abbrev pub Nibbles : Type 0
Nibbles = List ℕ

abbrev pub Value : Type 0
Value = List ℕ

-- A node by its type: `NODE_TYPE_BLANK`, `_LEAF`, `_EXTENSION`, `_BRANCH`.
pub data Node : Type 0 where
  blank : Node
  leaf : Nibbles → Value → Node
  extension : Nibbles → Node → Node
  branch : (ℕ → Node) → Value → Node

-- `starts_with`
unfoldable pub starts_with : Nibbles → Nibbles → Bool
starts_with full part = leb (length part) (length full) && list_eq (take (length part) full) part

-- `_get`
unfoldable pub get : Node → Nibbles → Value
unfolding starts_with
get blank key = []
get (leaf curr_key value) key = if list_eq key curr_key then value else []
get (extension curr_key sub_node) key =
    let found = get sub_node (drop (length curr_key) key) in
    if starts_with key curr_key then found else []
get (branch items value) [] = value
get (branch items value) (k ∷ key) = get (items k) key
