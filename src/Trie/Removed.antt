-- ===== src/Trie/Removed.antt =====
-- The deletion of ethereum/trie.py without its assertion, to which Busy compares it.
use shopper.Prelude.{ℕ, if◌then◌else◌, List, [], ◌∷◌, length, drop, list_eq}
use shopper.Trie.{Nibbles, Value, Node, blank, leaf, extension, branch, starts_with}
use shopper.Trie.Update.{set_item}
use shopper.Trie.Delete.{is_blank_node, present, collapse}

unfoldable pub normalized_by : List ℕ → (ℕ → Node) → Value → Node
unfolding collapse
normalized_by [] items [] = blank
normalized_by [] items (b ∷ value) = leaf [] (b ∷ value)
normalized_by (i ∷ []) items [] = collapse (i ∷ []) (items i)
normalized_by _ items value = branch items value

unfoldable pub normalized : (ℕ → Node) → Value → Node
normalized items value = normalized_by (present items) items value

unfoldable pub replaced : (ℕ → Node) → Value → ℕ → Node → Node
replaced items value k item =
    if is_blank_node item
    then (if is_blank_node (items k)
        then branch items value
        else normalized (set_item items k blank) value)
    else branch (set_item items k item) value

unfoldable pub removed : Node → Nibbles → Node
removed blank key = blank
removed (leaf curr_key value) key = if list_eq key curr_key then blank else leaf curr_key value
removed (extension curr_key sub_node) key =
    let new_sub_node = removed sub_node (drop (length curr_key) key) in
    if starts_with key curr_key then collapse curr_key new_sub_node else extension curr_key sub_node
removed (branch items value) [] = normalized items []
removed (branch items value) (k ∷ key) = replaced items value k (removed (items k) key)
