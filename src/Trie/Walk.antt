-- ===== src/Trie/Walk.antt =====
-- The walks over ethereum/trie.py: sizes, listings, and the keys next to a key.
use shopper.Prelude.{
  ℕ, zero, suc, ◌+◌, ◌-◌, Bool, true, false, ◌&&◌, ◌||◌, ◌==◌, ltb, if◌then◌else◌, Option, none,
  some, List, [], ◌∷◌, ◌++◌, map, reverse, length, drop, take,
}
use shopper.Trie.{Nibbles, Value, Node, blank, leaf, extension, branch, starts_with}

abbrev pub has_value : Value → Bool
has_value [] = false
has_value (b ∷ value) = true

-- The numbers from `i` on, `n` of them.
unfoldable pub range_from : ℕ → ℕ → List ℕ
range_from zero i = []
range_from (suc n) i = i ∷ range_from n (i + 1)

abbrev pub scan_range : List ℕ
scan_range = 0 ∷ 1 ∷ 2 ∷ 3 ∷ 4 ∷ 5 ∷ 6 ∷ 7 ∷ 8 ∷ 9 ∷ 10 ∷ 11 ∷ 12 ∷ 13 ∷ 14 ∷ 15 ∷ []

unfoldable pub sum_over : List ℕ → (ℕ → ℕ) → ℕ
sum_over [] f = 0
sum_over (i ∷ l) f = f i + sum_over l f

-- `_get_size`
unfoldable pub get_size : Node → ℕ
get_size blank = 0
get_size (leaf key value) = 1
get_size (extension key node) = get_size node
get_size (branch items value) =
    sum_over scan_range (λ i. get_size (items i)) + (if has_value value then 1 else 0)

-- A pair of a key and a value, behind more of its key.
abbrev pub Pair : Type 0
Pair = Nibbles × Value

abbrev pub behind_key : Nibbles → Pair → Pair
behind_key p e = (p ++ e.0, e.1)

-- The pairs of the children, each behind its nibble.
unfoldable pub list_over : List ℕ → (ℕ → List Pair) → List Pair
list_over [] f = []
list_over (i ∷ l) f = map (behind_key (i ∷ [])) (f i) ++ list_over l f

-- `_iter_branch`, and `_to_dict`: the keys in full, as nibbles.
unfoldable pub iter_branch : Node → List Pair
iter_branch blank = []
iter_branch (leaf key value) = (key, value) ∷ []
iter_branch (extension key node) = map (behind_key key) (iter_branch node)
iter_branch (branch items value) =
    list_over scan_range (λ i. iter_branch (items i))
    ++ (if has_value value then ([], value) ∷ [] else [])

-- The first of the children, in an order, in which there is something.
unfoldable pub first_of : List ℕ → (ℕ → Option Nibbles) → Option Nibbles
first_of [] f = none
first_of (i ∷ l) f = elim (f i) [ none ↦ first_of l f | some o ↦ some (i ∷ o) ]

abbrev pub or_at : Option Nibbles → Option Nibbles → Option Nibbles
or_at none d = d
or_at (some o) d = some o

abbrev pub behind_found : Nibbles → Option Nibbles → Option Nibbles
behind_found p none = none
behind_found p (some o) = some (p ++ o)

-- The value of a branch, as a path: its item number. `without_terminator` takes it off.
abbrev pub own_path : Bool → Option Nibbles
own_path true = some []
own_path false = none

-- `_getany`: the first key, or the last.
unfoldable pub getany : Bool → Node → Option Nibbles
unfolding first_of
getany backwards blank = none
getany backwards (leaf key value) = some key
getany backwards (extension key node) = behind_found key (getany backwards node)
getany true (branch items value) =
    or_at (first_of (reverse scan_range) (λ i. getany true (items i))) (own_path (has_value value))
getany false (branch items value) =
    or_at (own_path (has_value value)) (first_of scan_range (λ i. getany false (items i)))

-- The order of keys: Python's `<` on lists.
unfoldable pub lt_key : Nibbles → Nibbles → Bool
lt_key [] [] = false
lt_key [] (y ∷ q) = true
lt_key (x ∷ p) [] = false
lt_key (x ∷ p) (y ∷ q) = ltb x y || x == y && lt_key p q

-- `_iter`: the next key, or the previous one.
unfoldable pub iter : Bool → Node → Nibbles → Option Nibbles
unfolding getany first_of lt_key starts_with range_from
iter backwards blank key = none
iter backwards (leaf curr_key value) key =
    if (if backwards then lt_key curr_key key else lt_key key curr_key) then some curr_key else none
iter backwards (extension curr_key node) key =
    let start = take (length curr_key) key in
    let inside = iter backwards node (drop (length curr_key) key) in
    if starts_with key curr_key
    then behind_found curr_key inside
    else if (if backwards then lt_key curr_key start else lt_key start curr_key)
    then behind_found curr_key (getany backwards node)
    else none
iter true (branch items value) [] = none
iter false (branch items value) [] = first_of scan_range (λ i. getany false (items i))
iter true (branch items value) (k ∷ key) = or_at (behind_found (k ∷ []) (iter true (items k) key)) (
    or_at (first_of (reverse (range_from k 0)) (λ i. getany true (items i)))
      (own_path (has_value value)))
iter false (branch items value) (k ∷ key) =
    or_at (behind_found (k ∷ []) (iter false (items k) key))
      (first_of (range_from (15 - k) (k + 1)) (λ i. getany false (items i)))
