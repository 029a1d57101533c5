-- ===== src/State/Journal.antt =====
-- Every operation of the state journals what it takes to undo it.
mod Steps
use shopper.Prelude.{
  ℕ, ◌+◌, ◌≡◌, refl, sym, ap, ◌∙◌, true, false, List, [], ◌∷◌, ◌++◌, append_assoc, arith, ℤ, pos,
  ◌-ℤ◌, ◌+ℤ◌, leb_ℤ, Bool-cases, inl, inr,
}
use shopper.State.{
  Address, Account, Vars, Attr, Param, Entry, State, Log, Receipt, account, put_account,
  cache_account, get_attr, set_and_journal, push,
}
use shopper.State.Entry.{
  set_attr, set_storage, set_storage_cache, set_storage_root, pop_suicide, pop_log, pop_receipt,
  set_var,
}
use shopper.State.Ops.{
  storage_data, set_account_storage, get_storage_data, set_balance, set_code, set_nonce,
  delta_balance, increment_nonce, set_storage_data, add_suicide, add_log, add_receipt, get_param,
  set_param, set_vars, reset_storage, del_account, transfer_value,
}
use shopper.State.Snapshots.{undo}
use shopper.State.Undo.{
  SameAccount, SameState, SameAccount-refl, SameState-trans, SameState-put_self, SameState-vars,
  SameState-put_put, SameState-unput, undo-set_attr, storage-restores, SameState-pushed,
  SameAccount-cached, account-put_account_self, storage_data-set_self,
}
unfoldable pub use shopper.State.Journal.Steps.{undo_all}
pub use shopper.State.Journal.Steps.{Undoes, Undoes-refl, Undoes-trans, Undoes-same}
use shopper.State.Journal.Steps.{undo_all-append, Undoes-one, Undoes-set_and_journal, Undoes-touch}

pub Undoes-set_balance : (a : Address) (v : ℤ) (s : State) → Undoes s (set_balance a v s)
unfolding set_balance
Undoes-set_balance a v s = Undoes-touch a (Attr.balance v) s

pub Undoes-set_nonce : (a : Address) (v : ℕ) (s : State) → Undoes s (set_nonce a v s)
unfolding set_nonce
Undoes-set_nonce a v s = Undoes-touch a (Attr.nonce v) s

pub Undoes-set_code : (a : Address) (v : List ℕ) (s : State) → Undoes s (set_code a v s)
unfolding set_code
Undoes-set_code a v s = Undoes-touch a (Attr.code v) s

pub Undoes-cache_account : (a : Address) (s : State) → Undoes s (cache_account a s)
Undoes-cache_account a s =
    Undoes-same s (cache_account a s) (unfold cache_account put_account in refl) (
      unfold cache_account in SameState-put_self a (account a s) s (SameAccount-refl (account a s)))

pub Undoes-get_storage_data :
    (a : Address) (k : ℕ) (s : State) → Undoes s (get_storage_data a k s).1
unfolding get_storage_data
Undoes-get_storage_data a k s = Undoes-same s _ (unfold put_account in refl) (
    SameState-put_self a (set_account_storage k (storage_data k (account a s)) (account a s)) s
      (SameAccount-cached k (account a s)))

-- The write itself, after the read that finds `pre`.
Undoes-write :
    (a : Address) (k v pre : ℕ) (s : State)
    → storage_data k (account a s) ≡ pre
    → Undoes s
        (push (set_storage a k pre) (put_account a (set_account_storage k v (account a s)) s))
Undoes-write a k v pre s e =
    let x = set_account_storage k v (account a s) in
    let t = put_account a x s in
    Undoes-one (set_storage a k pre) s (push (set_storage a k pre) t) (unfold put_account in refl)
      (λ u h.
        unfold undo in
        SameState-unput a x (set_account_storage k pre) s u
          (λ y q. storage-restores k v pre (account a s) y e q)
          (SameState-pushed (set_storage a k pre) t u h))

pub Undoes-set_storage_data :
    (a : Address) (k v : ℕ) (s : State) → Undoes s (set_storage_data a k v s)
unfolding set_storage_data
Undoes-set_storage_data a k v s =
    let acct = account a s in
    let pre = storage_data k acct in
    let s1 = put_account a (set_account_storage k pre acct) s in
    let s2 =
      push (set_storage a k pre) (put_account a (set_account_storage k v (account a s1)) s1) in
    let found : storage_data k (account a s1) ≡ pre =
      ap (storage_data k) (account-put_account_self a (set_account_storage k pre acct) s)
      ∙ storage_data-set_self k pre acct in
    Undoes-trans s s1 (set_and_journal a (Attr.touched true) s2) (Undoes-get_storage_data a k s) (
      Undoes-trans s1 s2 (set_and_journal a (Attr.touched true) s2)
        (Undoes-write a k v pre s1 found) (Undoes-set_and_journal a (Attr.touched true) s2))

-- The storage comes back in two steps, the trie's root and then the cache.
storage_back :
    (x y : Account)
    → SameAccount (record x { storage_cache = []; storage_trie = [] }) y
    → SameAccount x
        (record (record y { storage_trie = x.storage_trie }) { storage_cache = x.storage_cache })
storage_back x y q = unfold storage_data in grind arith

undo-reset_storage :
    (a : Address) (s u : State)
    → SameState (put_account a (record (account a s) { storage_cache = []; storage_trie = [] }) s) u
    → SameState s (
        undo
          (set_storage_cache a (account a s).storage_cache)
          (undo (set_storage_root a (account a s).storage_trie) u))
unfolding undo
undo-reset_storage a s u h =
    let x = record (account a u) { storage_trie = (account a s).storage_trie } in
    let y = record x { storage_cache = (account a s).storage_cache } in
    rw account-put_account_self (
      SameState-trans s (put_account a y u) (put_account a y (put_account a x u))
        (SameState-unput a (record (account a s) { storage_cache = []; storage_trie = [] })
          (λ z. record (record z { storage_trie = (account a s).storage_trie }) {
            storage_cache = (account a s).storage_cache;
          })
          s u (storage_back (account a s)) h)
        (SameState-put_put a x y u))

pub Undoes-reset_storage : (a : Address) (s : State) → Undoes s (reset_storage a s)
Undoes-reset_storage a s = record {
  steps =
      set_storage_root a (account a s).storage_trie
      ∷ set_storage_cache a (account a s).storage_cache
      ∷ [];
  journal = unfold reset_storage put_account in refl;
  back = λ u h.
      unfold undo_all in
      undo-reset_storage a s u (
        unfold reset_storage account in
        record { config = h.config; root = h.root; accounts = h.accounts });
}

-- Steps that change variables only, and variables changed with no step.
pub Undoes-vars : (v : Vars) (s : State) → Undoes s (record s { vars = v })
Undoes-vars v s = Undoes-same s (record s { vars = v }) refl (SameState-vars v s)

pub Undoes-del_account : (a : Address) (s : State) → Undoes s (del_account a s)
unfolding del_account
Undoes-del_account a s =
    let s1 = set_balance a (pos 0) s in
    let s2 = set_nonce a 0 s1 in
    let s3 = set_code a [] s2 in
    let s4 = reset_storage a s3 in
    let s5 = set_and_journal a (Attr.deleted true) s4 in
    let s6 = set_and_journal a (Attr.touched false) s5 in
    Undoes-trans s s1 s6 (Undoes-set_balance a (pos 0) s) (
      Undoes-trans s1 s2 s6 (Undoes-set_nonce a 0 s1) (
        Undoes-trans s2 s3 s6 (Undoes-set_code a [] s2) (
          Undoes-trans s3 s4 s6 (Undoes-reset_storage a s3) (
            Undoes-trans s4 s5 s6 (Undoes-set_and_journal a (Attr.deleted true) s4)
              (Undoes-set_and_journal a (Attr.touched false) s5)))))

pub Undoes-delta_balance : (a : Address) (v : ℤ) (s : State) → Undoes s (delta_balance a v s)
unfolding delta_balance
Undoes-delta_balance a v s = Undoes-set_balance a ((account a s).balance +ℤ v) s

pub Undoes-increment_nonce : (a : Address) (s : State) → Undoes s (increment_nonce a s)
unfolding increment_nonce
Undoes-increment_nonce a s = Undoes-set_nonce a ((account a s).nonce + 1) s

pub Undoes-transfer_value :
    (f t : Address) (v : ℤ) (s : State) → Undoes s (transfer_value f t v s).1
unfolding transfer_value
Undoes-transfer_value f t v s = elim (Bool-cases (leb_ℤ (pos 0) v)) [
  | inr negative ↦ rw negative (Undoes-refl s)
  | inl fine ↦ rw fine (elim (Bool-cases (leb_ℤ v (account f s).balance)) [
    | inr short ↦ rw short (Undoes-cache_account f s)
    | inl covered ↦
        let s1 = cache_account f s in
        let s2 = delta_balance f (pos 0 -ℤ v) s1 in
        rw covered (
          Undoes-trans s s1 (delta_balance t v s2) (Undoes-cache_account f s) (
            Undoes-trans s1 s2 (delta_balance t v s2) (Undoes-delta_balance f (pos 0 -ℤ v) s1)
              (Undoes-delta_balance t v s2)))
  ])
]

-- A change of the variables, with a step that an account does not see.
Undoes-vars_step :
    (e : Entry) (v : Vars) (s : State)
    → ((u : State) → SameState u (undo e u))
    → Undoes s (push e (record s { vars = v }))
Undoes-vars_step e v s idle =
    let t = record s { vars = v } in
    Undoes-one e s (push e t) refl (λ u h.
      SameState-trans s t (undo e u) (SameState-vars v s)
        (SameState-trans t u (undo e u) (SameState-pushed e t u h) (idle u)))

pub Undoes-add_suicide : (a : Address) (s : State) → Undoes s (add_suicide a s)
unfolding add_suicide
Undoes-add_suicide a s = Undoes-vars_step pop_suicide _ s (λ u. unfold undo in SameState-vars _ u)

pub Undoes-add_log : (l : Log) (s : State) → Undoes s (add_log l s)
unfolding add_log
Undoes-add_log l s = Undoes-vars_step pop_log _ s (λ u. unfold undo in SameState-vars _ u)

pub Undoes-add_receipt : (r : Receipt) (s : State) → Undoes s (add_receipt r s)
unfolding add_receipt
Undoes-add_receipt r s = Undoes-vars_step pop_receipt _ s (λ u. unfold undo in SameState-vars _ u)

pub Undoes-set_param : (p : Param) (s : State) → Undoes s (set_param p s)
unfolding set_param
Undoes-set_param p s =
    Undoes-vars_step (set_var (get_param p s.vars)) (set_vars p s.vars) s
      (λ u. unfold undo in SameState-vars (set_vars (get_param p s.vars) u.vars) u)
