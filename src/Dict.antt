-- ===== src/Dict.antt =====
-- Python's `dict` and the contents of a trie, keyed by numbers. The entries are kept in the order
-- of their keys, so that equal contents are equal dictionaries, as equal tries have equal roots.
use shopper.Prelude.{
  ℕ, ◌≡◌, ◌≢◌, Option, none, some, List, [], ◌∷◌, arith, ltb, ◌==◌, if◌then◌else◌,
}

abbrev pub Dict {ℓ} : Type ℓ → Type ℓ
Dict V = List (ℕ × V)

module _ {ℓ} {V : Type ℓ} where
  -- `d.get(k)`
  unfoldable pub lookup : ℕ → Dict V → Option V
  lookup k [] = none
  lookup k ((j, v) ∷ d) = if k == j then some v else lookup k d

  -- `d[k] = v`
  unfoldable pub insert : ℕ → V → Dict V → Dict V
  insert k v [] = (k, v) ∷ []
  insert k v ((j, w) ∷ d) =
      if ltb k j then (k, v) ∷ (j, w) ∷ d else if k == j then (k, v) ∷ d else (j, w) ∷ insert k v d

  -- `del d[k]`, where it is there
  unfoldable pub erase : ℕ → Dict V → Dict V
  erase k [] = []
  erase k ((j, w) ∷ d) = let rest = erase k d in if k == j then rest else (j, w) ∷ rest

  pub lookup-insert :
      (j k : ℕ) (v : V) (d : Dict V)
      → lookup j (insert k v d) ≡ (if k == j then some v else lookup j d)
  unfolding lookup insert
  lookup-insert j k v [] = ground arith
  lookup-insert j k v ((i, w) ∷ d) = ground (arith, lookup-insert j k v d)

  pub lookup-erase :
      (j k : ℕ) (d : Dict V) → lookup j (erase k d) ≡ (if k == j then none else lookup j d)
  unfolding lookup erase
  lookup-erase j k [] = ground arith
  lookup-erase j k ((i, w) ∷ d) = ground (arith, lookup-erase j k d)

  pub lookup-insert_same : (k : ℕ) (v : V) (d : Dict V) → lookup k (insert k v d) ≡ some v
  lookup-insert_same k v d = ground (arith, lookup-insert k k v d)

  pub lookup-insert_other :
      (j k : ℕ) (v : V) (d : Dict V) → j ≢ k → lookup j (insert k v d) ≡ lookup j d
  lookup-insert_other j k v d differ = ground (arith, lookup-insert j k v d, differ)

  pub lookup-erase_same : (k : ℕ) (d : Dict V) → lookup k (erase k d) ≡ none
  lookup-erase_same k d = ground (arith, lookup-erase k k d)

  pub lookup-erase_other : (j k : ℕ) (d : Dict V) → j ≢ k → lookup j (erase k d) ≡ lookup j d
  lookup-erase_other j k d differ = ground (arith, lookup-erase j k d, differ)

pub ruleset dict_laws = (lookup-insert, lookup-erase)
