-- ===== src/State/Revert.antt =====
-- Reverting to a snapshot.
use mathlib.Core.Logic.{if_pos}
use shopper.Prelude.{
  ℕ, ◌≤◌, ◌<◌, ◌≡◌, refl, sym, ap, subst, ◌∙◌, ◌⊎◌, Bool, List, [], ◌∷◌, ◌++◌, length,
  length-append, arith, ℤ, lt→ltb,
}
use shopper.Exceptions.{ok}
use shopper.Dict.{lookup}
use shopper.State.{
  Address, Vars, Param, Entry, State, Log, Receipt, Root-discrete, cache_account, account,
}
use shopper.State.Ops.{
  get_storage_data, set_balance, set_code, set_nonce, delta_balance, increment_nonce,
  set_storage_data, add_suicide, add_log, add_receipt, set_param, reset_storage, del_account,
  transfer_value,
}
use shopper.State.Snapshots.{
  Snapshot, snapshot, undo, unwind, three, is_touched, restore_root, restore_vars, revert_vars,
  revert,
}
use shopper.State.Undo.{SameState, SameState-refl}
use shopper.State.Journal.{
  undo_all, Undoes, Undoes-refl, Undoes-trans, Undoes-cache_account, Undoes-get_storage_data,
  Undoes-set_balance, Undoes-set_code, Undoes-set_nonce, Undoes-delta_balance,
  Undoes-increment_nonce, Undoes-set_storage_data, Undoes-add_suicide, Undoes-add_log,
  Undoes-add_receipt, Undoes-set_param, Undoes-reset_storage, Undoes-del_account,
  Undoes-transfer_value, Undoes-vars,
}

-- One call of an operation of the state that a transaction makes between a snapshot and its
-- revert: a change that is journaled, a read (`read` stands for every read of an account), or an
-- assignment of its variables. `commit` is not among them: it empties the journal, and once it has
-- changed the root, `revert` refuses a snapshot that was taken with a journal that was not empty.
pub data Call : State → State → Type 0 where
  read : (a : Address) (s : State) → Call s (cache_account a s)
  read_storage : (a : Address) (k : ℕ) (s : State) → Call s (get_storage_data a k s).1
  set_balance_to : (a : Address) (v : ℤ) (s : State) → Call s (set_balance a v s)
  set_code_to : (a : Address) (v : List ℕ) (s : State) → Call s (set_code a v s)
  set_nonce_to : (a : Address) (v : ℕ) (s : State) → Call s (set_nonce a v s)
  change_balance : (a : Address) (v : ℤ) (s : State) → Call s (delta_balance a v s)
  bump_nonce : (a : Address) (s : State) → Call s (increment_nonce a s)
  write_storage : (a : Address) (k v : ℕ) (s : State) → Call s (set_storage_data a k v s)
  suicide : (a : Address) (s : State) → Call s (add_suicide a s)
  log : (l : Log) (s : State) → Call s (add_log l s)
  receipt : (r : Receipt) (s : State) → Call s (add_receipt r s)
  param : (p : Param) (s : State) → Call s (set_param p s)
  clear_storage : (a : Address) (s : State) → Call s (reset_storage a s)
  delete : (a : Address) (s : State) → Call s (del_account a s)
  transfer : (f t : Address) (v : ℤ) (s : State) → Call s (transfer_value f t v s).1
  assign : (v : Vars) (s : State) → Call s (record s { vars = v })

-- Any number of calls, the last one last.
pub data Calls (s : State) : State → Type 0 where
  done : Calls s s
  call : {t u : State} → Calls s t → Call t u → Calls s u

Call-Undoes : {s t : State} → Call s t → Undoes s t
Call-Undoes (read a s) = Undoes-cache_account a s
Call-Undoes (read_storage a k s) = Undoes-get_storage_data a k s
Call-Undoes (set_balance_to a v s) = Undoes-set_balance a v s
Call-Undoes (set_code_to a v s) = Undoes-set_code a v s
Call-Undoes (set_nonce_to a v s) = Undoes-set_nonce a v s
Call-Undoes (change_balance a v s) = Undoes-delta_balance a v s
Call-Undoes (bump_nonce a s) = Undoes-increment_nonce a s
Call-Undoes (write_storage a k v s) = Undoes-set_storage_data a k v s
Call-Undoes (suicide a s) = Undoes-add_suicide a s
Call-Undoes (log l s) = Undoes-add_log l s
Call-Undoes (receipt r s) = Undoes-add_receipt r s
Call-Undoes (param p s) = Undoes-set_param p s
Call-Undoes (clear_storage a s) = Undoes-reset_storage a s
Call-Undoes (delete a s) = Undoes-del_account a s
Call-Undoes (transfer f t v s) = Undoes-transfer_value f t v s
Call-Undoes (assign v s) = Undoes-vars v s

pub Calls-Undoes : {s t : State} → Calls s t → Undoes s t
Calls-Undoes {s} done = Undoes-refl s
Calls-Undoes {s} (call {t = t} {u = u} r c) = Undoes-trans s t u (Calls-Undoes r) (Call-Undoes c)

-- The loop of `revert` undoes the steps above the snapshot's length, and stops there.
unwind_none :
    (old : List Entry) (u : State) → unwind (length old) old u ≡ record u { journal = old }
unfolding unwind
unwind_none [] u = refl
unwind_none (e ∷ old) u = ground arith

unwind_step :
    (l : ℕ) (e : Entry) (j : List Entry) (u : State)
    → l < length (e ∷ j)
    → unwind l (e ∷ j) u ≡ unwind l j (undo e u)
unfolding unwind
unwind_step l e j u h = rw (lt→ltb l (length (e ∷ j)) h)

unwind_lem :
    (new old : List Entry) (u : State)
    → unwind (length old) (new ++ old) u ≡ record (undo_all new u) { journal = old }
unfolding undo_all
unwind_lem [] old u = unwind_none old u
unwind_lem (e ∷ new) old u =
    unwind_step (length old) e (new ++ old) u (omega (arith, length-append new old))
    ∙ unwind_lem new old (undo e u)

-- Outside the blocks in which the touch of account 3 is repeated.
abbrev pub IsQuiet : State → Type 0
IsQuiet s = (s.block_number ≤ 2675000) ⊎ (2675200 ≤ s.block_number)

restore_root_same : (snap : Snapshot) (u : State) → snap.root ≡ u.root → restore_root snap u ≡ ok u
unfolding restore_root
restore_root_same snap u e = if_pos (Root-discrete snap.root u.root) e _ _

restore_vars_quiet :
    (s u : State) (b : Bool)
    → IsQuiet s
    → restore_vars (snapshot s) b u ≡ record u { vars = s.vars }
unfolding restore_vars snapshot
restore_vars_quiet s u b quiet = ground arith

-- What the journal can undo, `revert` undoes.
pub revert-Undoes :
    {s t : State}
    → Undoes s t
    → IsQuiet s
    → (s' : State) × (revert (snapshot s) t ≡ ok s')
      × SameState s s'
      × (s'.vars ≡ s.vars)
      × (s'.journal ≡ s.journal)
unfolding revert snapshot
revert-Undoes {s} {t} p quiet =
    let x = undo_all p.steps t in
    let same : SameState s x = p.back t (SameState-refl t) in
    let s' = record (record x { journal = s.journal }) { vars = s.vars } in
    let unwound : unwind (length s.journal) t.journal t ≡ record x { journal = s.journal } =
      subst (λ j. unwind (length s.journal) j t ≡ record x { journal = s.journal }) (sym p.journal)
        (unwind_lem p.steps s.journal t) in
    let unwound_root : s.root ≡ x.root = same.root in
    let unwound_state = record x { journal = s.journal } in
    let touch = is_touched (lookup three t.cache) in
    let reverted : revert (snapshot s) t ≡ ok s' =
      ap (λ u. revert_vars (snapshot s) touch (restore_root (snapshot s) u)) unwound
      ∙ ap (revert_vars (snapshot s) touch)
          (restore_root_same (snapshot s) unwound_state (unfold snapshot in unwound_root))
      ∙ ap ok (restore_vars_quiet s unwound_state touch quiet) in
    (
      s',
      reverted,
      record { config = same.config; root = same.root; accounts = unfold account in same.accounts },
      refl,
      refl,
    )

-- After any reads, journaled changes and assignments of variables, with no commit among them,
-- reverting to the snapshot taken before them returns, and gives back the variables, the journal,
-- the root, and for every account its balance, nonce, code, storage and flags, in a block outside
-- the range where the touch of account 3 is kept.
pub revert-snapshot :
    {s t : State}
    → Calls s t
    → IsQuiet s
    → (s' : State) × (revert (snapshot s) t ≡ ok s')
      × SameState s s'
      × (s'.vars ≡ s.vars)
      × (s'.journal ≡ s.journal)
revert-snapshot r quiet = revert-Undoes (Calls-Undoes r) quiet
