-- ===== src/Trie/Busy/Puts.antt =====
-- An update of ethereum/trie.py with a value that is not empty keeps two items in every branch.
use shopper.Prelude.{
  ℕ, ◌≤◌, ◌<◌, ◌≡◌, ◌≢◌, refl, ap, Bool, true, false, ◌==◌, if◌then◌else◌, [], ◌∷◌, list_eq, arith,
  Bool-cases, inl, inr,
}
use shopper.Trie.{Nibbles, Value, Node, blank, leaf, extension, branch}
use shopper.Trie.Update.{
  split_keys, set_item, no_items, behind, with_value, leaf_update, shortened, extension_update,
  update,
}
use shopper.Trie.Delete.{is_blank_node}
use shopper.Trie.Deleted.{AreNibbles, IsHexary}
use shopper.Trie.Invariant.{split_keys-AreNibbles}
use shopper.Trie.Busy.Counts.{weight, has, count, count-set_item, count-no_items}

-- No value is empty, no extension leads to nothing, and every branch has two items or more, the
-- value among them.
abbrev pub IsBusy : Node → Type 0
IsBusy blank = Unit
IsBusy (leaf key value) = has value ≡ true
IsBusy (extension key node) = (is_blank_node node ≡ false) × IsBusy node
IsBusy (branch items value) = (2 ≤ count items value) × ((i : ℕ) → IsBusy (items i))

pub set_item-IsBusy :
    (items : ℕ → Node) (k : ℕ) (item : Node)
    → ((i : ℕ) → IsBusy (items i))
    → IsBusy item
    → (i : ℕ) → IsBusy (set_item items k item i)
unfolding set_item
set_item-IsBusy items k item h hi i = chosen (i == k)
  where
    chosen : (b : Bool) → IsBusy (if b then item else items i)
    chosen true = hi
    chosen false = h i

-- A node that an update makes: something is there.
abbrev pub IsPut : Node → Type 0
IsPut node = (is_blank_node node ≡ false) × IsBusy node

pub behind-IsPut : (p : Nibbles) (node : Node) → IsPut node → IsPut (behind p node)
behind-IsPut [] node h = h
behind-IsPut (x ∷ p) node h = (refl, h)

-- Where two keys part, they do.
abbrev pub ArePart : Nibbles → Nibbles → Type 0
ArePart (c ∷ rest) (k ∷ key) = c ≢ k
ArePart rest key = Unit

pub split_keys-ArePart :
    (curr_key key : Nibbles)
    → ArePart (split_keys curr_key key).remain_curr_key (split_keys curr_key key).remain_key
unfolding split_keys
split_keys-ArePart [] key = tt
split_keys-ArePart (x ∷ curr_key) [] = tt
split_keys-ArePart (x ∷ curr_key) (y ∷ key) = elim (Bool-cases (x == y)) [
  | inl e ↦ rw e (split_keys-ArePart curr_key key)
  | inr e ↦ rw e (λ same. ground arith)
]

-- An item and a value, or two items.
pub parted-IsPut :
    (c : ℕ) (first : Node) (key : Nibbles) (value : Value)
    → c < 16
    → AreNibbles key
    → ArePart (c ∷ []) key
    → IsPut first
    → has value ≡ true
    → IsPut (with_value (set_item no_items c first) [] key value)
parted-IsPut c first [] value lt hk apart h hv =
    let one = count-set_item no_items value c first lt in
    let none = count-no_items value in
    (refl, (ground arith, set_item-IsBusy no_items c first (λ i. tt) h.1))
parted-IsPut c first (k ∷ key) value lt hk apart h hv =
    let items = set_item no_items c first in
    let one = count-set_item no_items [] c first lt in
    let two = count-set_item items [] k (leaf key value) hk.0 in
    let free : items k ≡ blank = unfold set_item in ground arith in
    let light = ap weight free in
    let none = count-no_items [] in
    (
      refl,
      (
        ground arith,
        set_item-IsBusy items k (leaf key value) (set_item-IsBusy no_items c first (λ i. tt) h.1)
            hv,
      ),
    )

pub shortened-IsPut : (rest : Nibbles) (node : Node) → IsPut node → IsPut (shortened rest node)
shortened-IsPut [] node h = h
shortened-IsPut (x ∷ rest) node h = (refl, h)

pub leaf_update-IsPut :
    (old : Value) (rest key : Nibbles) (value : Value)
    → AreNibbles rest
    → AreNibbles key
    → ArePart rest key
    → has old ≡ true
    → has value ≡ true
    → IsPut (leaf_update old rest key value)
leaf_update-IsPut old [] [] value hr hk apart ho hv = (refl, hv)
leaf_update-IsPut old [] (k ∷ key) value hr hk apart ho hv =
    let one = count-set_item no_items old k (leaf key value) hk.0 in
    let own = count-no_items old in
    (refl, (ground arith, set_item-IsBusy no_items k (leaf key value) (λ i. tt) hv))
leaf_update-IsPut old (c ∷ rest) [] value hr hk apart ho hv =
    parted-IsPut c (leaf rest old) [] value hr.0 hk apart (refl, ho) hv
leaf_update-IsPut old (c ∷ rest) (k ∷ key) value hr hk apart ho hv =
    parted-IsPut c (leaf rest old) (k ∷ key) value hr.0 hk apart (refl, ho) hv

pub extension_update-IsPut :
    (rest : Nibbles) (sub_node : Node) (key : Nibbles) (value : Value) (updated : Node)
    → AreNibbles rest
    → AreNibbles key
    → ArePart rest key
    → IsPut sub_node
    → IsPut updated
    → has value ≡ true
    → IsPut (extension_update rest sub_node key value updated)
extension_update-IsPut [] sub_node key value updated hr hk apart h hu hv = hu
extension_update-IsPut (c ∷ rest) sub_node [] value updated hr hk apart h hu hv =
    parted-IsPut c (shortened rest sub_node) [] value hr.0 hk apart
      (shortened-IsPut rest sub_node h) hv
extension_update-IsPut (c ∷ rest) sub_node (k ∷ key) value updated hr hk apart h hu hv =
    parted-IsPut c (shortened rest sub_node) (k ∷ key) value hr.0 hk apart
      (shortened-IsPut rest sub_node h) hv

-- A branch one of whose items is replaced by one that is there.
pub set-IsPut :
    (items : ℕ → Node) (value : Value) (k : ℕ) (item : Node)
    → k < 16
    → IsBusy (branch items value)
    → IsPut item
    → IsPut (branch (set_item items k item) value)
set-IsPut items value k item lt h hi =
    let counted = count-set_item items value k item lt in
    let there = hi.0 in
    let enough = h.0 in (refl, (ground arith, set_item-IsBusy items k item h.1 hi.1))

-- What an update makes is there and busy, if its value is not empty.
pub update-IsPut :
    (node : Node) (key : Nibbles) (value : Value)
    → AreNibbles key
    → IsHexary node
    → IsBusy node
    → has value ≡ true
    → IsPut (update node key value)
unfolding update
update-IsPut blank key value hk hex h hv = (refl, hv)
update-IsPut (leaf curr_key old) key value hk hex h hv =
    let (p, c, k) = split_keys-AreNibbles curr_key key hex hk in
    elim (Bool-cases (list_eq curr_key key)) [
      | inl e ↦ rw e (refl, hv)
      | inr e ↦ rw e (
          behind-IsPut (split_keys curr_key key).prefix _ (
            leaf_update-IsPut old (split_keys curr_key key).remain_curr_key
              (split_keys curr_key key).remain_key value c k (split_keys-ArePart curr_key key) h
              hv))
    ]
update-IsPut (extension curr_key sub_node) key value hk hex h hv =
    let (p, c, k) = split_keys-AreNibbles curr_key key hex.0 hk in
    behind-IsPut (split_keys curr_key key).prefix _ (
      extension_update-IsPut (split_keys curr_key key).remain_curr_key sub_node
        (split_keys curr_key key).remain_key value _ c k (split_keys-ArePart curr_key key) h
        (update-IsPut sub_node (split_keys curr_key key).remain_key value k hex.1 h.1 hv) hv)
update-IsPut (branch items old) [] value hk hex h hv =
    let enough = h.0 in (refl, (ground arith, h.1))
update-IsPut (branch items old) (k ∷ key) value hk hex h hv =
    set-IsPut items old k (update (items k) key value) hk.0 h
      (update-IsPut (items k) key value hk.1 (hex.1 k) (h.1 k) hv)
