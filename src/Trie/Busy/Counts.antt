-- ===== src/Trie/Busy/Counts.antt =====
-- How many items a branch of ethereum/trie.py has, the value among them.
use shopper.Prelude.{
  ℕ, zero, suc, ◌+◌, ◌≤◌, ◌<◌, ◌≡◌, refl, ap, Bool, true, false, ◌==◌, if◌then◌else◌, [], ◌∷◌,
  length, arith, Bool-cases, inl, inr,
}
use shopper.Trie.{Value, Node}
use shopper.Trie.Update.{set_item, no_items}
use shopper.Trie.Delete.{is_blank_node, present_from, present}

abbrev pub weight : Node → ℕ
weight node = if is_blank_node node then 0 else 1

abbrev pub has : Value → Bool
has [] = false
has (b ∷ value) = true

abbrev pub count : (ℕ → Node) → Value → ℕ
count items value = length (present items) + (if has value then 1 else 0)

outside :
    (n i k : ℕ) (items : ℕ → Node) (item : Node)
    → k < i
    → length (present_from n i (set_item items k item)) ≡ length (present_from n i items)
unfolding present_from set_item
outside zero i k items item lt = refl
outside (suc n) i k items item lt =
    let rest = outside n (i + 1) k items item (omega arith) in ground arith

inside :
    (n i k : ℕ) (items : ℕ → Node) (item : Node)
    → i ≤ k
    → k < n + i
    → length (present_from n i (set_item items k item)) + weight (items k)
      ≡ length (present_from n i items) + weight item
unfolding present_from set_item
inside zero i k items item le lt = absurd (omega arith)
inside (suc n) i k items item le lt = elim (Bool-cases (i == k)) [
  | inl e ↦
      (let rest = outside n (i + 1) k items item (ground arith) in
        let same : items i ≡ items k = ap items (ground arith) in ground arith)
  | inr e ↦ (let rest = inside n (i + 1) k items item (ground arith) (omega arith) in ground arith)
]

-- A new item takes the place of the old one.
pub count-set_item :
    (items : ℕ → Node) (value : Value) (k : ℕ) (item : Node)
    → k < 16
    → count (set_item items k item) value + weight (items k) ≡ count items value + weight item
unfolding present
count-set_item items value k item lt =
    omega (arith, inside 16 0 k items item (omega arith) (omega arith))

pub count-no_items : (value : Value) → count no_items value ≡ (if has value then 1 else 0)
unfolding present present_from
count-no_items [] = refl
count-no_items (b ∷ value) = refl
