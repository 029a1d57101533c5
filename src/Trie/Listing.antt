-- ===== src/Trie/Listing.antt =====
-- What the listing of ethereum/trie.py holds.
use shopper.Prelude.{
  ℕ, suc, ◌+◌, ◌≡◌, refl, ap, ◌∙◌, if◌then◌else◌, List, [], ◌∷◌, ◌++◌, map, length, length-append,
  All, list_eq_iff, arith,
}
use shopper.Trie.{Nibbles, Value, Node, blank, leaf, extension, branch, get}
use shopper.Trie.Walk.{
  has_value, sum_over, get_size, Pair, behind_key, list_over, iter_branch, scan_range,
}
use shopper.Trie.Lookup.{get_behind, get-extension}

length-map : (f : Pair → Pair) (l : List Pair) → length (map f l) ≡ length l
length-map f [] = refl
length-map f (e ∷ l) = ap suc (length-map f l)

length-list_over :
    (l : List ℕ) (f : ℕ → List Pair) (size : ℕ → ℕ)
    → ((i : ℕ) → length (f i) ≡ size i)
    → length (list_over l f) ≡ sum_over l size
unfolding list_over sum_over
length-list_over [] f size h = refl
length-list_over (i ∷ l) f size h =
    length-append (map (behind_key (i ∷ [])) (f i)) (list_over l f)
    ∙ omega (arith, length-map (behind_key (i ∷ [])) (f i), h i, length-list_over l f size h)

length-own :
    (value : Value)
    → length {A = Pair} (if has_value value then ([], value) ∷ [] else [])
      ≡ (if has_value value then 1 else 0)
length-own [] = refl
length-own (b ∷ value) = refl

length-iter_branch : (node : Node) → length (iter_branch node) ≡ get_size node
unfolding iter_branch get_size
length-iter_branch blank = refl
length-iter_branch (leaf key value) = refl
length-iter_branch (extension key node) =
    length-map (behind_key key) (iter_branch node) ∙ length-iter_branch node
length-iter_branch (branch items value) =
    let own : List Pair = if has_value value then ([], value) ∷ [] else [] in
    let listed =
      length-list_over scan_range (λ i. iter_branch (items i)) (λ i. get_size (items i))
        (λ i. length-iter_branch (items i)) in
    length-append (list_over scan_range (λ i. iter_branch (items i))) own
    ∙ ap (λ n. n + length own) listed
    ∙ ap (λ n. sum_over scan_range (λ i. get_size (items i)) + n) (length-own value)

-- A pair reads back.
abbrev pub ReadsBack : Node → Pair → Type 0
ReadsBack node e = get node e.0 ≡ e.1

All-append : (P : Pair → Type 0) (l m : List Pair) → All P l → All P m → All P (l ++ m)
All-append P [] m hl hm = hm
All-append P (e ∷ l) m hl hm = (hl.0, All-append P l m hl.1 hm)

All-map :
    (P Q : Pair → Type 0) (f : Pair → Pair) (l : List Pair)
    → ((e : Pair) → P e → Q (f e))
    → All P l
    → All Q (map f l)
All-map P Q f [] h a = tt
All-map P Q f (e ∷ l) h a = (h e a.0, All-map P Q f l h a.1)

All-list_over :
    (Q : Pair → Type 0) (l : List ℕ) (f : ℕ → List Pair)
    → ((i : ℕ) → All Q (map (behind_key (i ∷ [])) (f i)))
    → All Q (list_over l f)
unfolding list_over
All-list_over Q [] f h = tt
All-list_over Q (i ∷ l) f h =
    All-append Q (map (behind_key (i ∷ [])) (f i)) (list_over l f) (h i) (All-list_over Q l f h)

get_behind-key : (p : Nibbles) (node : Node) (q : Nibbles) → get_behind p node (p ++ q) ≡ get node q
get_behind-key [] node q = refl
get_behind-key (x ∷ p) node q = let rest = get_behind-key p node q in ground arith

own-reads :
    (items : ℕ → Node) (value : Value)
    → All (ReadsBack (branch items value)) (if has_value value then ([], value) ∷ [] else [])
unfolding get
own-reads items [] = tt
own-reads items (b ∷ value) = (refl, tt)

iter_branch-reads : (node : Node) → All (ReadsBack node) (iter_branch node)
unfolding iter_branch get
iter_branch-reads blank = tt
iter_branch-reads (leaf key value) = (ground (arith, list_eq_iff key key), tt)
iter_branch-reads (extension key node) =
    All-map (ReadsBack node) (ReadsBack (extension key node)) (behind_key key) (iter_branch node)
      (λ e h. get-extension key node (key ++ e.0) ∙ get_behind-key key node e.0 ∙ h)
      (iter_branch-reads node)
iter_branch-reads (branch items value) =
    All-append (ReadsBack (branch items value)) (list_over scan_range (λ i. iter_branch (items i)))
      (if has_value value then ([], value) ∷ [] else [])
      (All-list_over (ReadsBack (branch items value)) scan_range (λ i. iter_branch (items i))
        (λ i.
          All-map (ReadsBack (items i)) (ReadsBack (branch items value)) (behind_key (i ∷ []))
            (iter_branch (items i)) (λ e h. h) (iter_branch-reads (items i))))
      (own-reads items value)

-- The listing of a trie has as many pairs as its size says, and every pair that it lists reads back.
pub iter_branch_lem :
    (node : Node)
    → (length (iter_branch node) ≡ get_size node) × All (ReadsBack node) (iter_branch node)
iter_branch_lem node = (length-iter_branch node, iter_branch-reads node)
