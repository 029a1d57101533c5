-- ===== src/State/Snapshots.antt =====
-- `snapshot`, `revert` and `commit` of ethereum/state.py.
use mathlib.Core.Logic.{ite}
use shopper.Prelude.{
  ℕ, Bool, false, ◌&&◌, ◌||◌, ltb, ◌==◌, if◌then◌else◌, Option, none, some, List, [], ◌∷◌, length,
  pos,
}
use shopper.Exceptions.{Result, ok, raised, assertion_error}
use shopper.Dict.{Dict, lookup, insert, erase}
use shopper.State.{
  Address, AccountData, Account, Root, Root-discrete, Vars, Entry, State, account, put_account,
  setattr,
}
use shopper.State.Entry.{
  set_attr, set_storage, set_storage_cache, set_storage_root, pop_suicide, pop_log, pop_receipt,
  set_var,
}
use shopper.State.Ops.{set_vars, set_account_storage, delta_balance, exists_in}

pub record Snapshot : Type 0 where
  pub root : Root
  pub journal_length : ℕ
  pub vars : Vars

unfoldable pub snapshot : State → Snapshot
snapshot s = record { root = s.root; journal_length = length s.journal; vars = s.vars }

-- `pop` of a list; what an empty list raises is caught by `revert`.
abbrev pop {ℓ} : {A : Type ℓ} → List A → List A
pop [] = []
pop (x ∷ []) = []
pop (x ∷ y ∷ xs) = x ∷ pop (y ∷ xs)

-- One undo step.
unfoldable pub undo : Entry → State → State
undo (set_attr a p) s = put_account a (setattr p (account a s)) s
undo (set_storage a k v) s = put_account a (set_account_storage k v (account a s)) s
undo (set_storage_cache a c) s = put_account a (record (account a s) { storage_cache = c }) s
undo (set_storage_root a r) s = put_account a (record (account a s) { storage_trie = r }) s
undo pop_suicide s = record s { vars = record s.vars { suicides = pop s.suicides } }
undo pop_log s = record s { vars = record s.vars { logs = pop s.logs } }
undo pop_receipt s = record s { vars = record s.vars { receipts = pop s.receipts } }
undo (set_var p) s = record s { vars = set_vars p s.vars }

-- `while len(self.journal) > L`, over the journal
unfoldable pub unwind : ℕ → List Entry → State → State
unwind l [] s = record s { journal = [] }
unwind l (e ∷ j) s =
    let rest = unwind l j (undo e s) in
    if ltb l (length (e ∷ j)) then rest else record s { journal = e ∷ j }

abbrev pub three : Address
three = 3

abbrev pub is_touched : Option Account → Bool
is_touched none = false
is_touched (some a) = a.touched

-- If the root has changed since the snapshot, the cache goes with it.
unfoldable pub restore_root : Snapshot → State → Result State
restore_root snap s = ite (Root-discrete snap.root s.root) (ok s) (
    if snap.journal_length == 0
    then ok (record s { root = snap.root; cache = [] })
    else raised assertion_error)

-- The variables come back from the snapshot; then the touch of account 3 is repeated in the
-- blocks where other clients did so.
unfoldable pub restore_vars : Snapshot → Bool → State → State
unfolding delta_balance
restore_vars snap three_touched s =
    let s1 = record s { vars = snap.vars } in
    if three_touched && ltb 2675000 s1.block_number && ltb s1.block_number 2675200
    then delta_balance three (pos 0) s1
    else s1

abbrev pub revert_vars : Snapshot → Bool → Result State → Result State
revert_vars snap t (ok s) = ok (restore_vars snap t s)
revert_vars snap t (raised e) = raised e

unfoldable pub revert : Snapshot → State → Result State
revert snap s =
    let three_touched = is_touched (lookup three s.cache) in
    revert_vars snap three_touched (restore_root snap (unwind snap.journal_length s.journal s))

-- `Account.commit`: the cached storage goes to the storage trie, zeros as deletions.
unfoldable pub commit_storage : Dict ℕ → Dict ℕ → Dict ℕ
commit_storage [] trie = trie
commit_storage ((k, v) ∷ changes) trie =
    commit_storage changes (if v == 0 then erase k trie else insert k v trie)

unfoldable pub committed : Account → AccountData
unfolding commit_storage
committed a = record {
  nonce = a.nonce;
  balance = a.balance;
  storage = commit_storage a.storage_cache a.storage_trie;
  code = a.code;
}

-- The loop of `commit` over the cache.
unfoldable pub commit_cache : State → Bool → Dict Account → Root → Root
unfolding committed
commit_cache s allow_empties [] root = root
commit_cache s allow_empties ((addr, acct) ∷ cache) root =
    let update =
      if acct.touched || acct.deleted
      then (if exists_in s acct || allow_empties
          then insert addr (committed acct) root
          else erase addr root)
      else root in
    commit_cache s allow_empties cache update

unfoldable pub commit : Bool → State → State
unfolding commit_cache
commit allow_empties s = record s {
  root = commit_cache s allow_empties s.cache s.root;
  cache = [];
  journal = [];
}
