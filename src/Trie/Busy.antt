-- ===== src/Trie/Busy.antt =====
-- In ethereum/trie.py every branch has at least two items, the value among them, as long as the
-- values put are not empty, so that a deletion does not fail.
pub mod Counts
mod Puts
use shopper.Prelude.{
  ℕ, zero, suc, ◌+◌, ◌≤◌, ◌<◌, ◌≡◌, ◌≢◌, refl, sym, ap, ◌∙◌, Bool, true, false, ◌==◌, if◌then◌else◌,
  List, [], ◌∷◌, length, drop, list_eq, arith, Bool-cases, inl, inr, subst, ==_iff,
}
use shopper.Exceptions.{Result, ok, raised, ◌>>=◌}
use shopper.Trie.{Nibbles, Value, Node, blank, leaf, extension, branch, starts_with}
use shopper.Trie.Update.{
  split_keys, set_item, no_items, behind, with_value, leaf_update, shortened, extension_update,
  update,
}
use shopper.Trie.Delete.{
  is_blank_node, present, collapse, normalize_by, normalize_branch_node, replace_item, delete,
}
use shopper.Trie.Removed.{normalized_by, normalized, replaced, removed}
use shopper.Trie.Deleted.{AreNibbles, IsHexary}
use shopper.Trie.Invariant.{split_keys-AreNibbles, drop-AreNibbles}
use shopper.Trie.Busy.Counts.{weight, has, count, count-set_item, count-no_items}
pub use shopper.Trie.Busy.Puts.{IsBusy, update-IsPut}
use shopper.Trie.Busy.Puts.{
  set_item-IsBusy, IsPut, behind-IsPut, ArePart, split_keys-ArePart, parted-IsPut, shortened-IsPut,
  leaf_update-IsPut, extension_update-IsPut, set-IsPut,
}

collapse-IsBusy : (p : Nibbles) (node : Node) → IsBusy node → IsBusy (collapse p node)
unfolding collapse
collapse-IsBusy p blank h = h
collapse-IsBusy p (leaf key value) h = h
collapse-IsBusy p (extension key node) h = h
collapse-IsBusy p (branch items value) h = (refl, h)

normalized_by-IsBusy :
    (l : List ℕ) (items : ℕ → Node) (value : Value)
    → present items ≡ l
    → ((i : ℕ) → IsBusy (items i))
    → IsBusy (normalized_by l items value)
unfolding normalized_by
normalized_by-IsBusy [] items [] e h = tt
normalized_by-IsBusy [] items (b ∷ value) e h = refl
normalized_by-IsBusy (i ∷ []) items [] e h = collapse-IsBusy (i ∷ []) (items i) (h i)
normalized_by-IsBusy (i ∷ []) items (b ∷ value) e h =
    let size = ap (λ (l : List ℕ). length l) e in (omega arith, h)
normalized_by-IsBusy (i ∷ k ∷ l) items value e h =
    let size = ap (λ (l : List ℕ). length l) e in (omega arith, h)

normalize_by-ok :
    (l : List ℕ) (items : ℕ → Node) (value : Value)
    → 1 ≤ length l + (if has value then 1 else 0)
    → normalize_by l items value ≡ ok (normalized_by l items value)
unfolding normalize_by normalized_by
normalize_by-ok [] items [] h = absurd (omega arith)
normalize_by-ok [] items (b ∷ value) h = refl
normalize_by-ok (i ∷ []) items [] h = refl
normalize_by-ok (i ∷ []) items (b ∷ value) h = refl
normalize_by-ok (i ∷ k ∷ l) items value h = refl

-- A step of a deletion that does not fail, and leaves a busy node.
abbrev IsRemoval : Result Node → Node → Type 0
IsRemoval r node = (r ≡ ok node) × IsBusy node

normalize-IsRemoval :
    (items : ℕ → Node) (value : Value)
    → 1 ≤ count items value
    → ((i : ℕ) → IsBusy (items i))
    → IsRemoval (normalize_branch_node items value) (normalized items value)
unfolding normalize_branch_node normalized
normalize-IsRemoval items value h hi = (
  normalize_by-ok (present items) items value h,
  normalized_by-IsBusy (present items) items value refl hi,
)

replace_item-IsRemoval :
    (items : ℕ → Node) (value : Value) (k : ℕ) (item : Node)
    → k < 16
    → IsBusy (branch items value)
    → IsBusy item
    → IsRemoval (replace_item items value k item) (replaced items value k item)
unfolding replace_item replaced
replace_item-IsRemoval items value k item lt h hi = elim (Bool-cases (is_blank_node item)) [
  | inl e ↦ elim (Bool-cases (is_blank_node (items k))) [
    | inl f ↦ rw (e, f) (refl, h)
    | inr f ↦
        (let counted = count-set_item items value k blank lt in
          let enough = h.0 in
          rw (e, f)
            (normalize-IsRemoval (set_item items k blank) value (ground arith)
              (set_item-IsBusy items k blank h.1 tt)))
  ]
  | inr e ↦ rw e (refl, (set-IsPut items value k item lt h (e, hi)).1)
]

-- A deletion from a busy trie does not fail, and leaves a busy one.
pub delete-IsRemoval :
    (node : Node) (key : Nibbles)
    → AreNibbles key
    → IsBusy node
    → IsRemoval (delete node key) (removed node key)
unfolding delete removed
delete-IsRemoval blank key hk h = (refl, tt)
delete-IsRemoval (leaf curr_key value) key hk h = elim (Bool-cases (list_eq key curr_key)) [
  | inl e ↦ rw e (refl, tt)
  | inr e ↦ rw e (refl, h)
]
delete-IsRemoval (extension curr_key sub_node) key hk h =
    let rest = drop (length curr_key) key in
    let (made, busy) =
      delete-IsRemoval sub_node rest (drop-AreNibbles (length curr_key) key hk) h.1 in
    elim (Bool-cases (starts_with key curr_key)) [
      | inl e ↦
          rw e (ap (λ r. r >>= λ n. ok (collapse curr_key n)) made, collapse-IsBusy curr_key _ busy)
      | inr e ↦ rw e (refl, h)
    ]
delete-IsRemoval (branch items value) [] hk h =
    let enough = h.0 in normalize-IsRemoval items [] (ground arith) h.1
delete-IsRemoval (branch items value) (k ∷ key) hk h =
    let (made, busy) = delete-IsRemoval (items k) key hk.1 (h.1 k) in
    let (put, kept) = replace_item-IsRemoval items value k (removed (items k) key) hk.0 h busy in
    (ap (λ r. r >>= λ item. replace_item items value k item) made ∙ put, kept)
