-- ===== src/Trie/History.antt =====
-- The interface of `class Trie` in ethereum/trie.py, over byte strings, against the mapping that it
-- presents.
use shopper.Prelude.{
  ℕ, ◌≤◌, ◌<◌, ◌≡◌, ◌≢◌, true, refl, ap, ◌∙◌, leb, if◌then◌else◌, List, [], ◌∷◌, length, All,
  list_eq, arith,
}
use shopper.Exceptions.{Result, ok, raised, value_error, ◌>>=◌}
use shopper.Trie.{Value, Node, blank, get}
use shopper.Trie.Nibbles.{bin_to_nibbles}
use shopper.Trie.Update.{update}
use shopper.Trie.Delete.{delete}
use shopper.Trie.Lookup.{get-update}
use shopper.Trie.Removed.{removed}
use shopper.Trie.Deleted.{AreNibbles, IsHexary, get-removed}
use shopper.Trie.Busy.{IsBusy, update-IsPut, delete-IsRemoval}
use shopper.Trie.Busy.Counts.{has}
use shopper.Trie.Invariant.{update-IsHexary, removed-IsHexary}

-- `get`
unfoldable pub get_key : Node → List ℕ → Value
unfolding bin_to_nibbles
get_key root key = get root (bin_to_nibbles key)

-- `update`
unfoldable pub update_key : List ℕ → Value → Node → Node
unfolding bin_to_nibbles
update_key key value root = update root (bin_to_nibbles key) value

-- `delete`, which refuses a long key
unfoldable pub delete_key : List ℕ → Node → Result Node
unfolding bin_to_nibbles
delete_key key root =
    if leb (length key) 32 then delete root (bin_to_nibbles key) else raised value_error

-- A call that changes the trie.
pub data Write : Type 0 where
  put : List ℕ → Value → Write
  remove : List ℕ → Write

-- The trie after calls, the last one first.
unfoldable pub run : List Write → Result Node
run [] = ok blank
run (put key value ∷ ws) = run ws >>= λ root. ok (update_key key value root)
run (remove key ∷ ws) = run ws >>= λ root. delete_key key root

-- The mapping after calls: the value last put and not removed, or blank.
unfoldable pub contents : List Write → List ℕ → Value
contents [] q = []
contents (put key value ∷ ws) q = if list_eq q key then value else contents ws q
contents (remove key ∷ ws) q = if list_eq q key then [] else contents ws q

abbrev pub AreBytes : List ℕ → Type 0
AreBytes key = All (λ b. b < 256) key

-- Keys are byte strings, removed ones of at most 32 bytes, and no empty value is put.
abbrev pub IsAllowed : Write → Type 0
IsAllowed (put key value) = AreBytes key × (value ≢ [])
IsAllowed (remove key) = AreBytes key × (length key ≤ 32)

bin_to_nibbles-AreNibbles : (key : List ℕ) → AreBytes key → AreNibbles (bin_to_nibbles key)
unfolding bin_to_nibbles
bin_to_nibbles-AreNibbles [] h = tt
bin_to_nibbles-AreNibbles (b ∷ key) h =
    (omega (arith, h.0), (omega arith, bin_to_nibbles-AreNibbles key h.1))

list_eq-bin_to_nibbles :
    (p q : List ℕ) → list_eq (bin_to_nibbles p) (bin_to_nibbles q) ≡ list_eq p q
unfolding bin_to_nibbles
list_eq-bin_to_nibbles [] [] = refl
list_eq-bin_to_nibbles [] (y ∷ q) = refl
list_eq-bin_to_nibbles (x ∷ p) [] = refl
list_eq-bin_to_nibbles (x ∷ p) (y ∷ q) = let rest = list_eq-bin_to_nibbles p q in ground arith

-- A trie that reads as the mapping.
pub record Represents (root : Node) (read : List ℕ → Value) : Type 0 where
  pub shape : IsHexary root
  pub busy : IsBusy root
  pub reads : (q : List ℕ) → get_key root q ≡ read q

put-Represents :
    (key : List ℕ) (value : Value) (ws : List Write) (root : Node)
    → AreBytes key
    → has value ≡ true
    → Represents root (contents ws)
    → Represents (update_key key value root) (contents (put key value ∷ ws))
unfolding update_key get_key contents
put-Represents key value ws root hb hv r = record {
  shape =
      update-IsHexary root (bin_to_nibbles key) value (bin_to_nibbles-AreNibbles key hb) r.shape;
  busy =
      (update-IsPut root (bin_to_nibbles key) value (bin_to_nibbles-AreNibbles key hb) r.shape
        r.busy hv).1;
  reads = λ q.
      get-update root (bin_to_nibbles key) value (bin_to_nibbles q)
      ∙ ap (λ b. if b then value else get root (bin_to_nibbles q)) (list_eq-bin_to_nibbles q key)
      ∙ ap (λ old. if list_eq q key then value else old) (r.reads q);
}

remove-Represents :
    (key : List ℕ) (ws : List Write) (root : Node)
    → AreBytes key
    → Represents root (contents ws)
    → Represents (removed root (bin_to_nibbles key)) (contents (remove key ∷ ws))
unfolding get_key contents
remove-Represents key ws root hb r = record {
  shape = removed-IsHexary root (bin_to_nibbles key) (bin_to_nibbles-AreNibbles key hb) r.shape;
  busy = (delete-IsRemoval root (bin_to_nibbles key) (bin_to_nibbles-AreNibbles key hb) r.busy).1;
  reads = λ q.
      get-removed root (bin_to_nibbles key) (bin_to_nibbles q) r.shape
      ∙ ap (λ b. if b then [] else get root (bin_to_nibbles q)) (list_eq-bin_to_nibbles q key)
      ∙ ap (λ old. if list_eq q key then [] else old) (r.reads q);
}

delete_key-ok :
    (key : List ℕ) (root : Node)
    → AreBytes key
    → length key ≤ 32
    → IsBusy root
    → delete_key key root ≡ ok (removed root (bin_to_nibbles key))
unfolding delete_key
delete_key-ok key root hb h busy =
    let deleted =
      (delete-IsRemoval root (bin_to_nibbles key) (bin_to_nibbles-AreNibbles key hb) busy).0 in
    let short : leb (length key) 32 ≡ true = ground arith in rw short deleted

has-put : (value : Value) → value ≢ [] → has value ≡ true
has-put [] h = absurd (h refl)
has-put (b ∷ value) h = refl

-- After any calls that put values, none of them empty, or remove, with byte strings as keys, those
-- removed of at most 32 bytes, no call has failed: the assertion that a branch has an item left
-- holds. The trie keeps its shape (branches of sixteen items, at least two of them or one and a
-- value there, and keys of nibbles), and it reads at every key as the mapping does: the value last
-- put there and not removed.
pub run-Represents :
    (ws : List Write)
    → All IsAllowed ws
    → (root : Node) × (run ws ≡ ok root) × Represents root (contents ws)
unfolding run
run-Represents [] h = (
  blank,
  refl,
  record { shape = tt; busy = tt; reads = unfold get_key get contents in λ q. refl },
)
run-Represents (put key value ∷ ws) h =
    let (root, e, r) = run-Represents ws h.1 in
    (
      update_key key value root,
      ap (λ x. x >>= λ n. ok (update_key key value n)) e,
      put-Represents key value ws root h.0.0 (has-put value h.0.1) r,
    )
run-Represents (remove key ∷ ws) h =
    let (root, e, r) = run-Represents ws h.1 in
    (
      removed root (bin_to_nibbles key),
      ap (λ x. x >>= λ n. delete_key key n) e ∙ delete_key-ok key root h.0.0 h.0.1 r.busy,
      remove-Represents key ws root h.0.0 r,
    )
