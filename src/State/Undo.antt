-- ===== src/State/Undo.antt =====
-- What one undo step, and a run of them, gives back.
mod Same
use shopper.Prelude.{
  ℕ, ◌≡◌, refl, sym, ◌∙◌, Bool, true, false, ◌==◌, if◌then◌else◌, inl, inr, subst, Bool-cases,
  ==_iff, arith,
}
use shopper.Dict.{lookup-insert}
use shopper.State.{
  Address, Account, Vars, Attr, Entry, State, account, put_account, setattr, get_attr,
  set_and_journal, push,
}
use shopper.State.Entry.{set_attr}
use shopper.State.Ops.{storage_data, set_account_storage}
use shopper.State.Snapshots.{undo}
pub use shopper.State.Undo.Same.{
  SameAccount, SameState, SameAccount-refl, SameState-trans, SameState-refl, SameState-pushed,
}
use shopper.State.Undo.Same.{SameAccount-trans}

pub account-put_account :
    (b a : Address) (x : Account) (s : State)
    → account b (put_account a x s) ≡ (if b == a then x else account b s)
unfolding account put_account
account-put_account b a x s = rw lookup-insert (ground arith)

pub storage_data-set :
    (j k v : ℕ) (a : Account)
    → storage_data j (set_account_storage k v a) ≡ (if j == k then v else storage_data j a)
unfolding storage_data set_account_storage
storage_data-set j k v a = rw lookup-insert (ground arith)

-- Writes of like accounts keep two states alike.
pub SameState-put :
    (a : Address) (x y : Account) (s t : State)
    → SameState s t
    → SameAccount x y
    → SameState (put_account a x s) (put_account a y t)
SameState-put a x y s t h p = record {
  config = unfold put_account in h.config;
  root = unfold put_account in h.root;
  accounts = λ b. simp account-put_account (branches b (b == a));
}
  where
    branches :
        (b : Address) (c : Bool)
        → SameAccount (if c then x else account b s) (if c then y else account b t)
    branches b true = p
    branches b false = h.accounts b

-- A write of what is there already, in all that can be told apart, changes nothing.
pub SameState-put_self :
    (a : Address) (x : Account) (s : State)
    → SameAccount (account a s) x
    → SameState s (put_account a x s)
SameState-put_self a x s p = record {
  config = unfold put_account in refl;
  root = unfold put_account in refl;
  accounts = λ b. simp account-put_account (elim (Bool-cases (b == a)) [
    | inl here ↦
        rw here (subst (λ (c : Address). SameAccount (account c s) x) (sym ((==_iff b a).0 here)) p)
    | inr other ↦ rw other (SameAccount-refl (account b s))
  ]);
}

-- The undo of a write to an account `a`: after the write `x`, any state that looks the same is
-- taken back by `f`, if `f` takes any account that looks like `x` back to the one that was there.
pub SameState-unput :
    (a : Address) (x : Account) (f : Account → Account) (s u : State)
    → ((y : Account) → SameAccount x y → SameAccount (account a s) (f y))
    → SameState (put_account a x s) u
    → SameState s (put_account a (f (account a u)) u)
SameState-unput a x f s u back h = record {
  config = unfold put_account in h.config;
  root = unfold put_account in h.root;
  accounts = λ b. simp account-put_account (elim (Bool-cases (b == a)) [
    | inl here ↦ rw here (
        subst (λ (c : Address). SameAccount (account c s) (f (account a u)))
          (sym ((==_iff b a).0 here)) (back (account a u) (rw ((==_iff a a).1 refl) at (seen a))))
    | inr other ↦ rw other (rw other at (seen b))
  ]);
}
  where
    seen : (b : Address) → SameAccount (if b == a then x else account b s) (account b u)
    seen b = simp account-put_account at (h.accounts b)

setattr-restores :
    (p : Attr) (x y : Account)
    → SameAccount (setattr p x) y
    → SameAccount x (setattr (get_attr p x) y)
unfolding storage_data
setattr-restores (Attr.balance v) x y q = grind arith
setattr-restores (Attr.nonce v) x y q = grind arith
setattr-restores (Attr.code v) x y q = grind arith
setattr-restores (Attr.touched v) x y q = grind arith
setattr-restores (Attr.deleted v) x y q = grind arith

storage_data-cached :
    (k : ℕ) (x : Account) (j : ℕ)
    → storage_data j x ≡ storage_data j (set_account_storage k (storage_data k x) x)
storage_data-cached k x j = rw (storage_data-set j k (storage_data k x) x) (ground arith)

-- A read of the storage may cache what it read.
pub SameAccount-cached :
    (k : ℕ) (x : Account) → SameAccount x (set_account_storage k (storage_data k x) x)
unfolding set_account_storage
SameAccount-cached k x = record {
  nonce = refl;
  balance = refl;
  code = refl;
  storage = refl;
  storage_trie = refl;
  touched = refl;
  existent_at_start = refl;
  deleted = refl;
  data_at = storage_data-cached k x;
}

pub storage-restores :
    (k v pre : ℕ) (x y : Account)
    → storage_data k x ≡ pre
    → SameAccount (set_account_storage k v x) y
    → SameAccount x (set_account_storage k pre y)
storage-restores k v pre x y e q = record {
  nonce = unfold set_account_storage in q.nonce;
  balance = unfold set_account_storage in q.balance;
  code = unfold set_account_storage in q.code;
  storage = unfold set_account_storage in q.storage;
  storage_trie = unfold set_account_storage in q.storage_trie;
  touched = unfold set_account_storage in q.touched;
  existent_at_start = unfold set_account_storage in q.existent_at_start;
  deleted = unfold set_account_storage in q.deleted;
  data_at = λ j. rw storage_data-set (ground (arith, seen j));
}
  where
    seen : (j : ℕ) → (if j == k then v else storage_data j x) ≡ storage_data j y
    seen j = simp storage_data-set at (q.data_at j)

pub account-put_account_self :
    (a : Address) (x : Account) (s : State) → account a (put_account a x s) ≡ x
account-put_account_self a x s = account-put_account a a x s ∙ ground arith

pub storage_data-set_self : (k v : ℕ) (x : Account) → storage_data k (set_account_storage k v x) ≡ v
storage_data-set_self k v x = storage_data-set k k v x ∙ ground arith

-- A journaled attribute is restored.
pub undo-set_attr :
    (a : Address) (s : State) (p : Attr) (u : State)
    → SameState (set_and_journal a p s) u
    → SameState s (undo (set_attr a (get_attr p (account a s))) u)
unfolding set_and_journal undo
undo-set_attr a s p u h =
    SameState-unput a (setattr p (account a s)) (setattr (get_attr p (account a s))) s u
      (setattr-restores p (account a s))
      (SameState-pushed (set_attr a (get_attr p (account a s)))
        (put_account a (setattr p (account a s)) s) u h)

pub SameState-vars : (v : Vars) (s : State) → SameState s (record s { vars = v })
unfolding account
SameState-vars v s = record {
  config = refl;
  root = refl;
  accounts = λ a. SameAccount-refl (account a s);
}

pub SameState-put_put :
    (a : Address) (x y : Account) (s : State)
    → SameState (put_account a y s) (put_account a y (put_account a x s))
SameState-put_put a x y s = record {
  config = unfold put_account in refl;
  root = unfold put_account in refl;
  accounts = λ b. simp account-put_account (branches b (b == a));
}
  where
    branches :
        (b : Address) (c : Bool)
        → SameAccount (if c then y else account b s) (if c then y else if c then x else account b s)
    branches b true = SameAccount-refl y
    branches b false = SameAccount-refl (account b s)
