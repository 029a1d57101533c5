-- ===== src/Trie/Lookup.antt =====
-- Reading ethereum/trie.py after an update.
use shopper.Prelude.{
  ℕ, ◌≡◌, refl, sym, ap, ◌∙◌, false, ◌==◌, if◌then◌else◌, [], ◌∷◌, list_eq, arith, ==_iff,
  list_eq_iff, Bool-cases, inl, inr,
}
use shopper.Trie.{Nibbles, Value, Node, blank, leaf, extension, branch, starts_with, get}
use shopper.Trie.Update.{
  split_keys, set_item, behind, leaf_update, shortened, extension_update, update,
}

-- What a node holds behind a prefix.
abbrev pub get_behind : Nibbles → Node → Nibbles → Value
get_behind [] node key = get node key
get_behind (x ∷ p) node [] = []
get_behind (x ∷ p) node (k ∷ key) = if k == x then get_behind p node key else []

pub get-extension :
    (p : Nibbles) (node : Node) (key : Nibbles) → get (extension p node) key ≡ get_behind p node key
unfolding get starts_with
get-extension [] node key = ground arith
get-extension (x ∷ p) node [] = ground arith
get-extension (x ∷ p) node (k ∷ key) = let rest = get-extension p node key in ground arith

get-behind :
    (p : Nibbles) (node : Node) (key : Nibbles) → get (behind p node) key ≡ get_behind p node key
get-behind [] node key = refl
get-behind (x ∷ p) node key = get-extension (x ∷ p) node key

-- What a read gives after a write of `value` at `key`, from what it gave before.
abbrev pub after_write : Nibbles → Value → Nibbles → Value → Value
after_write key value q old = if list_eq q key then value else old

leaf-split :
    (curr_key key : Nibbles) (old value : Value) (q : Nibbles)
    → list_eq curr_key key ≡ false
    → get_behind
        (split_keys curr_key key).prefix
        (leaf_update old
          (split_keys curr_key key).remain_curr_key
          (split_keys curr_key key).remain_key
          value)
        q
      ≡ after_write key value q (if list_eq q curr_key then old else [])
unfolding split_keys get set_item
leaf-split [] [] old value q h = ground arith
leaf-split [] (y ∷ key) old value [] h = ground arith
leaf-split [] (y ∷ key) old value (k ∷ q) h = ground arith
leaf-split (x ∷ curr_key) [] old value [] h = ground arith
leaf-split (x ∷ curr_key) [] old value (k ∷ q) h = ground arith
leaf-split (x ∷ curr_key) (y ∷ key) old value [] h = ground arith
leaf-split (x ∷ curr_key) (y ∷ key) old value (k ∷ q) h =
    let rest = leaf-split curr_key key old value q in ground arith

get-shortened :
    (p : Nibbles) (node : Node) (key : Nibbles) → get (shortened p node) key ≡ get_behind p node key
get-shortened [] node key = refl
get-shortened (x ∷ p) node key = get-extension (x ∷ p) node key

extension-split :
    (curr_key key : Nibbles) (sub_node : Node) (value : Value) (q : Nibbles)
    → ((j p : Nibbles) → get (update sub_node j value) p ≡ after_write j value p (get sub_node p))
    → get_behind
        (split_keys curr_key key).prefix
        (extension_update
          (split_keys curr_key key).remain_curr_key
          sub_node
          (split_keys curr_key key).remain_key
          value
          (update sub_node (split_keys curr_key key).remain_key value))
        q
      ≡ after_write key value q (get_behind curr_key sub_node q)
unfolding split_keys get set_item
extension-split [] key sub_node value q ih = ih key q
extension-split (x ∷ curr_key) [] sub_node value [] ih = ground arith
extension-split (x ∷ curr_key) [] sub_node value (k ∷ q) ih =
    let kept = get-shortened curr_key sub_node q in ground arith
extension-split (x ∷ curr_key) (y ∷ key) sub_node value [] ih = ground arith
extension-split (x ∷ curr_key) (y ∷ key) sub_node value (k ∷ q) ih =
    let kept = get-shortened curr_key sub_node q in
    let rest = extension-split curr_key key sub_node value q ih in ground arith

get-leaf_over :
    (key : Nibbles) (old value : Value) (q : Nibbles)
    → get (leaf key value) q ≡ after_write key value q (get (leaf key old) q)
unfolding get
get-leaf_over key old value q = ground arith

pub get-set_item :
    (items : ℕ → Node) (k : ℕ) (item : Node) (value : Value) (j : ℕ) (q : Nibbles)
    → get (branch (set_item items k item) value) (j ∷ q)
      ≡ (if j == k then get item q else get (items j) q)
unfolding get set_item
get-set_item items k item value j q = ground arith

-- A write is read back at its own key, and leaves every other key as it was.
pub get-update :
    (node : Node) (key : Nibbles) (value : Value) (q : Nibbles)
    → get (update node key value) q ≡ (if list_eq q key then value else get node q)
unfolding update get
get-update blank key value q = unfold get in refl
get-update (leaf curr_key old) key value q = elim (Bool-cases (list_eq curr_key key)) [
  | inl e ↦
      rw e (let same = (list_eq_iff curr_key key).0 e in rw same (get-leaf_over key old value q))
  | inr e ↦
      rw e (get-behind (split_keys curr_key key).prefix _ q ∙ leaf-split curr_key key old value q e)
]
get-update (extension curr_key sub_node) key value q =
    let s = split_keys curr_key key in
    get-behind s.prefix
      (extension_update s.remain_curr_key sub_node s.remain_key value
        (update sub_node s.remain_key value))
      q
    ∙ extension-split curr_key key sub_node value q (λ j p. get-update sub_node j value p)
    ∙ ap (after_write key value q) (sym (get-extension curr_key sub_node q))
get-update (branch items old) [] value [] = unfold get in refl
get-update (branch items old) [] value (j ∷ q) = unfold get in refl
get-update (branch items old) (k ∷ key) value [] = unfold get in refl
get-update (branch items old) (k ∷ key) value (j ∷ q) =
    get-set_item items k (update (items k) key value) old j q ∙ elim (Bool-cases (j == k)) [
      | inl e ↦ rw e (
          get-update (items k) key value q
          ∙ ap (λ i. after_write key value q (get (items i) q)) (sym ((==_iff j k).0 e)))
      | inr e ↦ rw e (unfold get in refl)
    ]
