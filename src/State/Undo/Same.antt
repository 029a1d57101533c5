-- ===== src/State/Undo/Same.antt =====
-- States of ethereum/state.py that look the same to every operation.
use shopper.Prelude.{ℕ, ◌≡◌, refl, ◌∙◌}
use shopper.State.{Address, Account, Entry, State, account, push}
use shopper.State.Ops.{storage_data}

-- Two account objects that no operation tells apart: what the storage cache holds may differ, the
-- storage that it shows may not.
pub record SameAccount (x y : Account) : Type 0 where
  pub nonce : x.nonce ≡ y.nonce
  pub balance : x.balance ≡ y.balance
  pub code : x.code ≡ y.code
  pub storage : x.storage ≡ y.storage
  pub storage_trie : x.storage_trie ≡ y.storage_trie
  pub touched : x.touched ≡ y.touched
  pub existent_at_start : x.existent_at_start ≡ y.existent_at_start
  pub deleted : x.deleted ≡ y.deleted
  pub data_at : (k : ℕ) → storage_data k x ≡ storage_data k y

pub record SameState (s t : State) : Type 0 where
  pub config : s.config ≡ t.config
  pub root : s.root ≡ t.root
  pub accounts : (a : Address) → SameAccount (account a s) (account a t)

pub SameAccount-refl : (x : Account) → SameAccount x x
SameAccount-refl x = record {
  nonce = refl;
  balance = refl;
  code = refl;
  storage = refl;
  storage_trie = refl;
  touched = refl;
  existent_at_start = refl;
  deleted = refl;
  data_at = λ k. refl;
}

pub SameAccount-trans : (x y z : Account) → SameAccount x y → SameAccount y z → SameAccount x z
SameAccount-trans x y z p q = record {
  nonce = p.nonce ∙ q.nonce;
  balance = p.balance ∙ q.balance;
  code = p.code ∙ q.code;
  storage = p.storage ∙ q.storage;
  storage_trie = p.storage_trie ∙ q.storage_trie;
  touched = p.touched ∙ q.touched;
  existent_at_start = p.existent_at_start ∙ q.existent_at_start;
  deleted = p.deleted ∙ q.deleted;
  data_at = λ k. p.data_at k ∙ q.data_at k;
}

pub SameState-trans : (s t u : State) → SameState s t → SameState t u → SameState s u
SameState-trans s t u p q = record {
  config = p.config ∙ q.config;
  root = p.root ∙ q.root;
  accounts = λ a.
      SameAccount-trans (account a s) (account a t) (account a u) (p.accounts a) (q.accounts a);
}

pub SameState-refl : (s : State) → SameState s s
SameState-refl s = record {
  config = refl;
  root = refl;
  accounts = λ a. SameAccount-refl (account a s);
}

-- The journal is no part of what is compared.
pub SameState-pushed : (e : Entry) (s u : State) → SameState (push e s) u → SameState s u
unfolding account
SameState-pushed e s u h = record { config = h.config; root = h.root; accounts = h.accounts }
