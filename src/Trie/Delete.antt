-- ===== src/Trie/Delete.antt =====
-- `_delete` and the functions it calls in ethereum/trie.py.
use shopper.Prelude.{
  ℕ, zero, suc, ◌+◌, Bool, true, false, if◌then◌else◌, List, [], ◌∷◌, ◌++◌, length, drop, list_eq,
}
use shopper.Exceptions.{Result, ok, raised, assertion_error, ◌>>=◌}
use shopper.Trie.{Nibbles, Value, Node, blank, leaf, extension, branch, starts_with}
use shopper.Trie.Update.{set_item}

abbrev pub is_blank_node : Node → Bool
is_blank_node blank = true
is_blank_node _ = false

-- The items of a branch that are not blank, from an index on.
unfoldable pub present_from : ℕ → ℕ → (ℕ → Node) → List ℕ
present_from zero i items = []
present_from (suc n) i items =
    let rest = present_from n (i + 1) items in if is_blank_node (items i) then rest else i ∷ rest

unfoldable pub present : (ℕ → Node) → List ℕ
unfolding present_from
present items = present_from 16 0 items

-- A child behind more of its key: a leaf or an extension takes it up, a branch gets an extension.
unfoldable pub collapse : Nibbles → Node → Node
collapse key blank = blank
collapse key (leaf k v) = leaf (key ++ k) v
collapse key (extension k n) = extension (key ++ k) n
collapse key (branch items v) = extension key (branch items v)

-- `_normalize_branch_node`, by what is present: an error where nothing is.
unfoldable pub normalize_by : List ℕ → (ℕ → Node) → Value → Result Node
unfolding collapse
normalize_by [] items [] = raised assertion_error
normalize_by [] items (b ∷ value) = ok (leaf [] (b ∷ value))
normalize_by (i ∷ []) items [] = ok (collapse (i ∷ []) (items i))
normalize_by _ items value = ok (branch items value)

unfoldable pub normalize_branch_node : (ℕ → Node) → Value → Result Node
normalize_branch_node items value = normalize_by (present items) items value

-- `_delete_branch_node`, with the item after the deletion. A blank item that was blank already, or
-- an item that is as it was, leaves the branch as it was.
unfoldable pub replace_item : (ℕ → Node) → Value → ℕ → Node → Result Node
replace_item items value k item =
    if is_blank_node item
    then (if is_blank_node (items k)
        then ok (branch items value)
        else normalize_branch_node (set_item items k blank) value)
    else ok (branch (set_item items k item) value)

-- `_delete`. The child of an extension is a branch, so that one which is as it was gives the same
-- extension.
unfoldable pub delete : Node → Nibbles → Result Node
delete blank key = ok blank
delete (leaf curr_key value) key = ok (if list_eq key curr_key then blank else leaf curr_key value)
delete (extension curr_key sub_node) key =
    let collapsed = delete sub_node (drop (length curr_key) key) >>= λ new_sub_node.
    ok (collapse curr_key new_sub_node) in
    if starts_with key curr_key then collapsed else ok (extension curr_key sub_node)
delete (branch items value) [] = normalize_branch_node items []
delete (branch items value) (k ∷ key) =
    delete (items k) key >>= λ item. replace_item items value k item
