-- ===== src/Trie/Invariant.antt =====
-- The shape of ethereum/trie.py is kept by updates and deletions.
use shopper.Prelude.{
  ℕ, zero, suc, ◌+◌, ◌≤◌, ◌<◌, refl, Bool, true, false, ◌==◌, if◌then◌else◌, List, [], ◌∷◌, ◌++◌,
  length, drop, list_eq, arith, Bool-cases, inl, inr,
}
use shopper.Trie.{Nibbles, Value, Node, blank, leaf, extension, branch, starts_with}
use shopper.Trie.Update.{
  split_keys, set_item, no_items, behind, with_value, leaf_update, shortened, extension_update,
  update,
}
use shopper.Trie.Delete.{is_blank_node, present_from, present, collapse}
use shopper.Trie.Removed.{normalized_by, normalized, replaced, removed}
use shopper.Trie.Deleted.{AreNibbles, IsHexary}

pub split_keys-AreNibbles :
    (curr_key key : Nibbles)
    → AreNibbles curr_key
    → AreNibbles key
    → AreNibbles (split_keys curr_key key).prefix
      × AreNibbles (split_keys curr_key key).remain_curr_key
      × AreNibbles (split_keys curr_key key).remain_key
unfolding split_keys
split_keys-AreNibbles [] key hc hk = (tt, tt, hk)
split_keys-AreNibbles (x ∷ curr_key) [] hc hk = (tt, hc, tt)
split_keys-AreNibbles (x ∷ curr_key) (y ∷ key) hc hk =
    let (p, c, k) = split_keys-AreNibbles curr_key key hc.1 hk.1 in
    elim (Bool-cases (x == y)) [ inl e ↦ rw e ((hc.0, p), c, k) | inr e ↦ rw e (tt, hc, hk) ]

-- One item of a branch is replaced.
set_item-IsHexary :
    (items : ℕ → Node) (value : Value) (k : ℕ) (item : Node)
    → k < 16
    → IsHexary (branch items value)
    → IsHexary item
    → IsHexary (branch (set_item items k item) value)
unfolding set_item
set_item-IsHexary items value k item lt h hi =
    (λ i le. let b = h.0 i le in ground arith, λ i. chosen i (i == k))
  where
    chosen : (i : ℕ) (b : Bool) → IsHexary (if b then item else items i)
    chosen i true = hi
    chosen i false = h.1 i

behind-IsHexary :
    (p : Nibbles) (node : Node) → AreNibbles p → IsHexary node → IsHexary (behind p node)
behind-IsHexary [] node hp h = h
behind-IsHexary (x ∷ p) node hp h = (hp, h)

no_items-IsHexary : (value : Value) → IsHexary (branch no_items value)
no_items-IsHexary value = (λ i le. refl, λ i. tt)

with_value-IsHexary :
    (items : ℕ → Node) (own : Value) (key : Nibbles) (value : Value)
    → IsHexary (branch items own)
    → AreNibbles key
    → IsHexary (with_value items own key value)
with_value-IsHexary items own [] value h hk = h
with_value-IsHexary items own (k ∷ key) value h hk =
    set_item-IsHexary items own k (leaf key value) hk.0 h hk.1

leaf_update-IsHexary :
    (old : Value) (rest key : Nibbles) (value : Value)
    → AreNibbles rest
    → AreNibbles key
    → IsHexary (leaf_update old rest key value)
leaf_update-IsHexary old [] [] value hr hk = tt
leaf_update-IsHexary old [] (k ∷ key) value hr hk =
    with_value-IsHexary no_items old (k ∷ key) value (no_items-IsHexary old) hk
leaf_update-IsHexary old (c ∷ rest) key value hr hk =
    with_value-IsHexary (set_item no_items c (leaf rest old)) [] key value
      (set_item-IsHexary no_items [] c (leaf rest old) hr.0 (no_items-IsHexary []) hr.1) hk

shortened-IsHexary :
    (p : Nibbles) (node : Node) → AreNibbles p → IsHexary node → IsHexary (shortened p node)
shortened-IsHexary [] node hp h = h
shortened-IsHexary (x ∷ p) node hp h = (hp, h)

extension_update-IsHexary :
    (rest : Nibbles) (sub_node : Node) (key : Nibbles) (value : Value) (updated : Node)
    → AreNibbles rest
    → AreNibbles key
    → IsHexary sub_node
    → IsHexary updated
    → IsHexary (extension_update rest sub_node key value updated)
extension_update-IsHexary [] sub_node key value updated hr hk h hu = hu
extension_update-IsHexary (c ∷ rest) sub_node key value updated hr hk h hu =
    with_value-IsHexary (set_item no_items c (shortened rest sub_node)) [] key value
      (set_item-IsHexary no_items [] c (shortened rest sub_node) hr.0 (no_items-IsHexary [])
        (shortened-IsHexary rest sub_node hr.1 h))
      hk

pub update-IsHexary :
    (node : Node) (key : Nibbles) (value : Value)
    → AreNibbles key
    → IsHexary node
    → IsHexary (update node key value)
unfolding update
update-IsHexary blank key value hk h = hk
update-IsHexary (leaf curr_key old) key value hk h =
    let (p, c, k) = split_keys-AreNibbles curr_key key h hk in
    elim (Bool-cases (list_eq curr_key key)) [
      | inl e ↦ rw e h
      | inr e ↦ rw e (behind-IsHexary _ _ p (leaf_update-IsHexary old _ _ value c k))
    ]
update-IsHexary (extension curr_key sub_node) key value hk h =
    let (p, c, k) = split_keys-AreNibbles curr_key key h.0 hk in
    behind-IsHexary (split_keys curr_key key).prefix _ p (
      extension_update-IsHexary (split_keys curr_key key).remain_curr_key sub_node _ value _ c k h.1
        (update-IsHexary sub_node (split_keys curr_key key).remain_key value k h.1))
update-IsHexary (branch items old) [] value hk h = h
update-IsHexary (branch items old) (k ∷ key) value hk h =
    set_item-IsHexary items old k (update (items k) key value) hk.0 h
      (update-IsHexary (items k) key value hk.1 (h.1 k))

append-AreNibbles : (p q : Nibbles) → AreNibbles p → AreNibbles q → AreNibbles (p ++ q)
append-AreNibbles [] q hp hq = hq
append-AreNibbles (x ∷ p) q hp hq = (hp.0, append-AreNibbles p q hp.1 hq)

collapse-IsHexary :
    (p : Nibbles) (node : Node) → AreNibbles p → IsHexary node → IsHexary (collapse p node)
unfolding collapse
collapse-IsHexary p blank hp h = tt
collapse-IsHexary p (leaf key value) hp h = append-AreNibbles p key hp h
collapse-IsHexary p (extension key node) hp h = (append-AreNibbles p key hp h.0, h.1)
collapse-IsHexary p (branch items value) hp h = (hp, h)

present_from-AreNibbles :
    (n i : ℕ) (items : ℕ → Node) → n + i ≤ 16 → AreNibbles (present_from n i items)
unfolding present_from
present_from-AreNibbles zero i items h = tt
present_from-AreNibbles (suc n) i items h =
    let rest = present_from-AreNibbles n (i + 1) items (omega arith) in
    elim (Bool-cases (is_blank_node (items i))) [
      | inl e ↦ rw e rest
      | inr e ↦ rw e (omega arith, rest)
    ]

normalized_by-IsHexary :
    (l : List ℕ) (items : ℕ → Node) (value : Value)
    → AreNibbles l
    → IsHexary (branch items value)
    → IsHexary (normalized_by l items value)
unfolding normalized_by
normalized_by-IsHexary [] items [] hl h = tt
normalized_by-IsHexary [] items (b ∷ value) hl h = tt
normalized_by-IsHexary (i ∷ []) items [] hl h = collapse-IsHexary (i ∷ []) (items i) hl (h.1 i)
normalized_by-IsHexary (i ∷ []) items (b ∷ value) hl h = h
normalized_by-IsHexary (i ∷ k ∷ l) items value hl h = h

normalize-IsHexary :
    (items : ℕ → Node) (value : Value)
    → IsHexary (branch items value)
    → IsHexary (normalized items value)
unfolding normalized present
normalize-IsHexary items value h =
    normalized_by-IsHexary (present_from 16 0 items) items value
      (present_from-AreNibbles 16 0 items (omega arith)) h

if-IsHexary : (b : Bool) (x y : Node) → IsHexary x → IsHexary y → IsHexary (if b then x else y)
if-IsHexary true x y hx hy = hx
if-IsHexary false x y hx hy = hy

replaced-IsHexary :
    (items : ℕ → Node) (value : Value) (k : ℕ) (item : Node)
    → k < 16
    → IsHexary (branch items value)
    → IsHexary item
    → IsHexary (replaced items value k item)
unfolding replaced
replaced-IsHexary items value k item lt h hi =
    let cleared = set_item-IsHexary items value k blank lt h tt in
    if-IsHexary (is_blank_node item) _ (branch (set_item items k item) value)
      (if-IsHexary (is_blank_node (items k)) (branch items value)
        (normalized (set_item items k blank) value) h
        (normalize-IsHexary (set_item items k blank) value cleared))
      (set_item-IsHexary items value k item lt h hi)

pub drop-AreNibbles : (n : ℕ) (key : Nibbles) → AreNibbles key → AreNibbles (drop n key)
drop-AreNibbles zero key h = h
drop-AreNibbles (suc n) [] h = tt
drop-AreNibbles (suc n) (x ∷ key) h = drop-AreNibbles n key h.1

pub removed-IsHexary :
    (node : Node) (key : Nibbles) → AreNibbles key → IsHexary node → IsHexary (removed node key)
unfolding removed
removed-IsHexary blank key hk h = tt
removed-IsHexary (leaf curr_key value) key hk h =
    if-IsHexary (list_eq key curr_key) blank (leaf curr_key value) tt h
removed-IsHexary (extension curr_key sub_node) key hk h =
    let rest = drop (length curr_key) key in
    if-IsHexary (starts_with key curr_key) (collapse curr_key (removed sub_node rest))
      (extension curr_key sub_node)
      (collapse-IsHexary curr_key (removed sub_node rest) h.0
        (removed-IsHexary sub_node rest (drop-AreNibbles (length curr_key) key hk) h.1))
      h
removed-IsHexary (branch items value) [] hk h = normalize-IsHexary items [] h
removed-IsHexary (branch items value) (k ∷ key) hk h =
    replaced-IsHexary items value k (removed (items k) key) hk.0 h
      (removed-IsHexary (items k) key hk.1 (h.1 k))
