-- ===== src/Trie/Update.antt =====
-- `_update` and `_update_kv_node` of ethereum/trie.py.
use shopper.Prelude.{ℕ, ◌==◌, if◌then◌else◌, [], ◌∷◌, list_eq}
use shopper.Trie.{Nibbles, Value, Node, blank, leaf, extension, branch}

-- The longest common prefix of two keys, and what remains of each.
pub record Split : Type 0 where
  pub prefix : Nibbles
  pub remain_curr_key : Nibbles
  pub remain_key : Nibbles

abbrev pub longer : ℕ → Split → Split
longer x s = record s { prefix = x ∷ s.prefix }

unfoldable pub split_keys : Nibbles → Nibbles → Split
split_keys (x ∷ curr_key) (y ∷ key) =
    let rest = longer x (split_keys curr_key key) in
    if x == y
    then rest
    else record { prefix = []; remain_curr_key = x ∷ curr_key; remain_key = y ∷ key }
split_keys curr_key key = record { prefix = []; remain_curr_key = curr_key; remain_key = key }

-- `node[k] = item`
unfoldable pub set_item : (ℕ → Node) → ℕ → Node → ℕ → Node
set_item items k item j = if j == k then item else items j

abbrev pub no_items : ℕ → Node
no_items i = blank

-- A node behind the common prefix, if there is one.
abbrev pub behind : Nibbles → Node → Node
behind [] node = node
behind (x ∷ p) node = extension (x ∷ p) node

-- A branch that gets the value at what remains of its key.
abbrev pub with_value : (ℕ → Node) → Value → Nibbles → Value → Node
with_value items own [] value = branch items value
with_value items own (k ∷ key) value = branch (set_item items k (leaf key value)) own

-- What a leaf becomes, where its key is not the new one.
abbrev pub leaf_update : Value → Nibbles → Nibbles → Value → Node
leaf_update old [] [] value = leaf [] value
leaf_update old [] (k ∷ key) value = with_value no_items old (k ∷ key) value
leaf_update old (c ∷ rest) key value = with_value (set_item no_items c (leaf rest old)) [] key value

-- The item of an extension whose key parts from the new one: the child itself where one nibble is
-- left.
abbrev pub shortened : Nibbles → Node → Node
shortened [] sub_node = sub_node
shortened (x ∷ rest) sub_node = extension (x ∷ rest) sub_node

abbrev pub extension_update : Nibbles → Node → Nibbles → Value → Node → Node
extension_update [] sub_node key value updated = updated
extension_update (c ∷ rest) sub_node key value updated =
    with_value (set_item no_items c (shortened rest sub_node)) [] key value

-- Nothing remains of either key where they are equal.
unfoldable pub update : Node → Nibbles → Value → Node
unfolding split_keys set_item
update blank key value = leaf key value
update (leaf curr_key old) key value =
    let s = split_keys curr_key key in
    if list_eq curr_key key
    then leaf curr_key value
    else behind s.prefix (leaf_update old s.remain_curr_key s.remain_key value)
update (extension curr_key sub_node) key value =
    let s = split_keys curr_key key in
    let updated = update sub_node s.remain_key value in
    behind s.prefix (extension_update s.remain_curr_key sub_node s.remain_key value updated)
update (branch items old) [] value = branch items value
update (branch items old) (k ∷ key) value =
    branch (set_item items k (update (items k) key value)) old
