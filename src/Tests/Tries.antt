-- ===== src/Tests/Tries.antt =====
-- The trie of ethereum/trie.py at fixed inputs.
use shopper.Prelude.{◌≡◌, refl, List, [], ◌∷◌, ◌++◌, length, All, some, false, arith}
use shopper.Exceptions.{ok, raised, assertion_error}
use shopper.Trie.{Node, blank, starts_with}
use shopper.Trie.Nibbles.{
  bin_to_nibbles, pack_nibbles, pack_flagged, pair_up, unpack_to_nibbles, is_terminated,
  all_but_last, nibble_terminator,
}
use shopper.Trie.Update.{update, split_keys, set_item}
use shopper.Trie.Delete.{
  delete, normalize_branch_node, normalize_by, replace_item, present, present_from, collapse,
}
use shopper.Trie.Walk.{iter_branch, get_size, iter, getany, first_of, lt_key, range_from, list_over}
use shopper.Trie.Listing.{ReadsBack, iter_branch_lem}
use shopper.Trie.Compact.{unpack_to_nibbles-pack_nibbles}
use shopper.Trie.History.{
  Write, put, remove, run, contents, Represents, run-Represents, update_key, delete_key,
}

-- "do", "dog", "horse", and "do" again without its value.
abbrev writes : List Write
writes =
    remove (100 ∷ 111 ∷ [])
    ∷ put (104 ∷ 111 ∷ 114 ∷ 115 ∷ 101 ∷ []) (3 ∷ [])
    ∷ put (100 ∷ 111 ∷ 103 ∷ []) (2 ∷ [])
    ∷ put (100 ∷ 111 ∷ []) (1 ∷ [])
    ∷ []

run-Represents_example : (root : Node) × (run writes ≡ ok root) × Represents root (contents writes)
run-Represents_example = run-Represents writes (
  (((omega arith, (omega arith, tt)), omega arith)),
  (
    (
      (omega arith, (omega arith, (omega arith, (omega arith, (omega arith, tt))))),
      λ e. ground arith,
    ),
    (
      ((omega arith, (omega arith, (omega arith, tt))), λ e. ground arith),
      (((omega arith, (omega arith, tt)), λ e. ground arith), tt),
    ),
  ),
)

-- An empty value that is put stays in its branch, so that the removal of the last other item fails.
empty_value_fails :
    run (
      remove (100 ∷ 111 ∷ 103 ∷ [])
      ∷ put (100 ∷ 111 ∷ []) []
      ∷ put (100 ∷ 111 ∷ 103 ∷ []) (120 ∷ [])
      ∷ [])
    ≡ raised assertion_error
unfolding run update_key delete_key update delete split_keys set_item bin_to_nibbles starts_with
    normalize_branch_node normalize_by replace_item present present_from collapse
empty_value_fails = refl

abbrev small : Node
small = update_key (100 ∷ 111 ∷ 103 ∷ []) (2 ∷ []) (update_key (100 ∷ 111 ∷ []) (1 ∷ []) blank)

listed :
    iter_branch small ≡ (6 ∷ 4 ∷ 6 ∷ 15 ∷ 6 ∷ 7 ∷ [], 2 ∷ []) ∷ (6 ∷ 4 ∷ 6 ∷ 15 ∷ [], 1 ∷ []) ∷ []
unfolding iter_branch list_over update_key update split_keys set_item bin_to_nibbles
listed = refl

next_key : iter false small (6 ∷ 4 ∷ 6 ∷ 15 ∷ []) ≡ some (6 ∷ 4 ∷ 6 ∷ 15 ∷ 6 ∷ 7 ∷ [])
unfolding iter getany first_of lt_key range_from update_key update split_keys set_item
    bin_to_nibbles starts_with
next_key = refl

iter_branch_lem_example :
    (length (iter_branch small) ≡ get_size small) × All (ReadsBack small) (iter_branch small)
iter_branch_lem_example = iter_branch_lem small

packed : pack_nibbles (1 ∷ 2 ∷ 3 ∷ 16 ∷ []) ≡ 0x31 ∷ 0x23 ∷ []
unfolding pack_nibbles pack_flagged pair_up is_terminated all_but_last
packed = refl

unpack_to_nibbles-pack_nibbles_example :
    (unpack_to_nibbles (pack_nibbles (1 ∷ 2 ∷ 3 ∷ [])) ≡ 1 ∷ 2 ∷ 3 ∷ [])
    × (unpack_to_nibbles (pack_nibbles ((1 ∷ 2 ∷ 3 ∷ []) ++ nibble_terminator ∷ []))
        ≡ (1 ∷ 2 ∷ 3 ∷ []) ++ nibble_terminator ∷ [])
unpack_to_nibbles-pack_nibbles_example =
    unpack_to_nibbles-pack_nibbles (1 ∷ 2 ∷ 3 ∷ []) (omega arith, (omega arith, (omega arith, tt)))
