-- ===== src/Trie/Deleted.antt =====
-- Reading ethereum/trie.py after a deletion.
use shopper.Prelude.{
  ℕ, zero, suc, ◌+◌, ◌≤◌, ◌<◌, ◌≡◌, refl, sym, ap, ◌∙◌, subst, true, false, ◌==◌, if◌then◌else◌,
  List, [], ◌∷◌, ◌++◌, length, drop, list_eq, All, arith, ==_iff, list_eq_iff, Bool-cases, inl, inr,
  ◌⊎◌,
}
use shopper.Vm.Code.{contains}
use shopper.Trie.{Nibbles, Value, Node, blank, leaf, extension, branch, starts_with, get}
use shopper.Trie.Update.{set_item}
use shopper.Trie.Delete.{is_blank_node, present_from, present, collapse}
use shopper.Trie.Removed.{normalized_by, normalized, replaced, removed}
use shopper.Trie.Lookup.{get_behind, get-extension, get-set_item}

-- A branch has sixteen items.
abbrev pub HasItems : (ℕ → Node) → Type 0
HasItems items = (i : ℕ) → 16 ≤ i → items i ≡ blank

abbrev pub AreNibbles : Nibbles → Type 0
AreNibbles key = All (λ x. x < 16) key

-- Every branch of a node has sixteen items, and every key is of nibbles.
abbrev pub IsHexary : Node → Type 0
IsHexary blank = Unit
IsHexary (leaf key value) = AreNibbles key
IsHexary (extension key node) = AreNibbles key × IsHexary node
IsHexary (branch items value) = HasItems items × ((i : ℕ) → IsHexary (items i))

blank_of : (node : Node) → is_blank_node node ≡ true → node ≡ blank
blank_of blank h = refl
blank_of (leaf key value) h = ground arith
blank_of (extension key node) h = ground arith
blank_of (branch items value) h = ground arith

get-blank_behind : (p q : Nibbles) → get_behind p blank q ≡ []
unfolding get
get-blank_behind [] q = refl
get-blank_behind (x ∷ p) [] = refl
get-blank_behind (x ∷ p) (k ∷ q) = let rest = get-blank_behind p q in ground arith

get-leaf_behind :
    (p key : Nibbles) (value : Value) (q : Nibbles)
    → get (leaf (p ++ key) value) q ≡ get_behind p (leaf key value) q
unfolding get
get-leaf_behind [] key value q = refl
get-leaf_behind (x ∷ p) key value [] = refl
get-leaf_behind (x ∷ p) key value (k ∷ q) = let rest = get-leaf_behind p key value q in ground arith

get_behind-append :
    (p key : Nibbles) (node : Node) (q : Nibbles)
    → get_behind (p ++ key) node q ≡ get_behind p (extension key node) q
get_behind-append [] key node q = sym (get-extension key node q)
get_behind-append (x ∷ p) key node [] = refl
get_behind-append (x ∷ p) key node (k ∷ q) =
    let rest = get_behind-append p key node q in ground arith

get-collapse :
    (p : Nibbles) (node : Node) (q : Nibbles) → get (collapse p node) q ≡ get_behind p node q
unfolding collapse
get-collapse p blank q = unfold get in sym (get-blank_behind p q)
get-collapse p (leaf key value) q = get-leaf_behind p key value q
get-collapse p (extension key node) q =
    get-extension (p ++ key) node q ∙ get_behind-append p key node q
get-collapse p (branch items value) q = get-extension p (branch items value) q

-- What is not listed as present is blank.
present_from-blank :
    (n i : ℕ) (items : ℕ → Node) (j : ℕ)
    → i ≤ j
    → j < i + n
    → contains j (present_from n i items) ≡ false
    → items j ≡ blank
unfolding present_from contains
present_from-blank zero i items j le lt h = ground arith
present_from-blank (suc n) i items j le lt h = elim (Bool-cases (is_blank_node (items i))) [
  | inl b ↦ elim (Bool-cases (j == i)) [
    | inl e ↦ subst (λ c. items c ≡ blank) (sym ((==_iff j i).0 e)) (blank_of (items i) b)
    | inr e ↦ present_from-blank n (i + 1) items j (ground arith) (omega arith) (ground arith)
  ]
  | inr b ↦ present_from-blank n (i + 1) items j (ground arith) (omega arith) (ground arith)
]

get-normalized_by :
    (l : List ℕ) (items : ℕ → Node) (value : Value) (q : Nibbles)
    → ((j : ℕ) → contains j l ≡ false → items j ≡ blank)
    → get (normalized_by l items value) q ≡ get (branch items value) q
unfolding normalized_by get contains
get-normalized_by [] items [] [] h = refl
get-normalized_by [] items [] (j ∷ q) h = ap (λ n. get n q) (sym (h j refl))
get-normalized_by [] items (b ∷ value) [] h = refl
get-normalized_by [] items (b ∷ value) (j ∷ q) h = ap (λ n. get n q) (sym (h j refl))
get-normalized_by (i ∷ []) items [] [] h = get-collapse (i ∷ []) (items i) []
get-normalized_by (i ∷ []) items [] (j ∷ q) h =
    get-collapse (i ∷ []) (items i) (j ∷ q) ∙ elim (Bool-cases (j == i)) [
      | inl e ↦ rw e (ap (λ c. get (items c) q) (sym ((==_iff j i).0 e)))
      | inr e ↦ rw e (ap (λ n. get n q) (sym (h j (ground arith))))
    ]
get-normalized_by (i ∷ []) items (b ∷ value) q h = refl
get-normalized_by (i ∷ k ∷ l) items value q h = refl

-- A branch that is normalized reads as before.
get-normalize :
    (items : ℕ → Node) (value : Value) (q : Nibbles)
    → HasItems items
    → get (normalized items value) q ≡ get (branch items value) q
unfolding normalized present
get-normalize items value q bound =
    get-normalized_by (present_from 16 0 items) items value q (λ j h. elim (lt_or_le j 16) [
      | inl lt ↦ present_from-blank 16 0 items j (omega arith) (omega arith) h
      | inr le ↦ bound j le
    ])
  where
    lt_or_le : (a b : ℕ) → (a < b) ⊎ (b ≤ a)
    lt_or_le a b = ground arith

HasItems-blanked : (items : ℕ → Node) (k : ℕ) → HasItems items → HasItems (set_item items k blank)
unfolding set_item
HasItems-blanked items k h i le = let b = h i le in ground arith

get-set_blank :
    (items : ℕ → Node) (value : Value) (k : ℕ) (item : Node) (q : Nibbles)
    → item ≡ blank
    → items k ≡ blank
    → get (branch items value) q ≡ get (branch (set_item items k item) value) q
unfolding get
get-set_blank items value k item [] a b = refl
get-set_blank items value k item (j ∷ q) a b = sym (
    get-set_item items k item value j q ∙ elim (Bool-cases (j == k)) [
      | inl e ↦
          rw e (ap (λ n. get n q) (a ∙ sym b) ∙ ap (λ i. get (items i) q) (sym ((==_iff j k).0 e)))
      | inr e ↦ rw e refl
    ])

get-replaced :
    (items : ℕ → Node) (value : Value) (k : ℕ) (item : Node) (q : Nibbles)
    → HasItems items
    → get (replaced items value k item) q ≡ get (branch (set_item items k item) value) q
unfolding replaced
get-replaced items value k item q h = elim (Bool-cases (is_blank_node item)) [
  | inl b ↦ rw b (elim (Bool-cases (is_blank_node (items k))) [
    | inl c ↦ rw c (get-set_blank items value k item q (blank_of item b) (blank_of (items k) c))
    | inr c ↦ rw c (
        get-normalize (set_item items k blank) value q (HasItems-blanked items k h)
        ∙ ap (λ n. get (branch (set_item items k n) value) q) (sym (blank_of item b)))
  ])
  | inr b ↦ rw b refl
]

-- What a read gives after a deletion at `key`, from what it gave before.
abbrev after_delete : Nibbles → Nibbles → Value → Value
after_delete key q old = if list_eq q key then [] else old

get_behind-removed :
    (curr_key key : Nibbles) (sub_node new_sub_node : Node) (q : Nibbles)
    → ((p : Nibbles)
        → get new_sub_node p ≡ after_delete (drop (length curr_key) key) p (get sub_node p))
    → starts_with key curr_key ≡ true
    → get_behind curr_key new_sub_node q ≡ after_delete key q (get_behind curr_key sub_node q)
unfolding starts_with
get_behind-removed [] key sub_node new_sub_node q ih h = ih q
get_behind-removed (x ∷ curr_key) [] sub_node new_sub_node q ih h = ground arith
get_behind-removed (x ∷ curr_key) (y ∷ key) sub_node new_sub_node [] ih h = ground arith
get_behind-removed (x ∷ curr_key) (y ∷ key) sub_node new_sub_node (k ∷ q) ih h =
    let rest = get_behind-removed curr_key key sub_node new_sub_node q ih (ground arith) in
    ground arith

get_behind-other :
    (curr_key key : Nibbles) (node : Node) (q : Nibbles)
    → starts_with key curr_key ≡ false
    → get_behind curr_key node q ≡ after_delete key q (get_behind curr_key node q)
unfolding starts_with
get_behind-other [] key node q h = ground arith
get_behind-other (x ∷ curr_key) [] node [] h = refl
get_behind-other (x ∷ curr_key) [] node (k ∷ q) h = refl
get_behind-other (x ∷ curr_key) (y ∷ key) node [] h = refl
get_behind-other (x ∷ curr_key) (y ∷ key) node (k ∷ q) h = elim (Bool-cases (y == x)) [
  | inl e ↦ let rest = get_behind-other curr_key key node q (ground arith) in ground arith
  | inr e ↦ ground arith
]

-- A deleted key reads as blank, and every other key as before.
pub get-removed :
    (node : Node) (key q : Nibbles)
    → IsHexary node
    → get (removed node key) q ≡ (if list_eq q key then [] else get node q)
unfolding removed get
get-removed blank key q h = ground arith
get-removed (leaf curr_key value) key q h =
    ground (arith, list_eq_iff q key, list_eq_iff key curr_key, list_eq_iff q curr_key)
get-removed (extension curr_key sub_node) key q h = elim (Bool-cases (starts_with key curr_key)) [
  | inl e ↦ rw e (
      get-collapse curr_key (removed sub_node (drop (length curr_key) key)) q
      ∙ get_behind-removed curr_key key sub_node (removed sub_node (drop (length curr_key) key)) q
          (λ p. get-removed sub_node (drop (length curr_key) key) p h.1) e
      ∙ ap (after_delete key q) (sym (get-extension curr_key sub_node q)))
  | inr e ↦ rw e (
      get-extension curr_key sub_node q
      ∙ get_behind-other curr_key key sub_node q e
      ∙ ap (after_delete key q) (sym (get-extension curr_key sub_node q)))
]
get-removed (branch items value) [] [] h = get-normalize items [] [] h.0
get-removed (branch items value) [] (j ∷ q) h = get-normalize items [] (j ∷ q) h.0
get-removed (branch items value) (k ∷ key) [] h =
    get-replaced items value k (removed (items k) key) [] h.0
get-removed (branch items value) (k ∷ key) (j ∷ q) h =
    get-replaced items value k (removed (items k) key) (j ∷ q) h.0
    ∙ get-set_item items k (removed (items k) key) value j q
    ∙ elim (Bool-cases (j == k)) [
      | inl e ↦ rw e (
          get-removed (items k) key q (h.1 k)
          ∙ ap (λ i. after_delete key q (get (items i) q)) (sym ((==_iff j k).0 e)))
      | inr e ↦ rw e refl
    ]
