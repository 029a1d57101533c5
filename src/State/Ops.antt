-- ===== src/State/Ops.antt =====
-- The operations of `class State` in ethereum/state.py on the accounts and the journal.
use shopper.Prelude.{
  ℕ, zero, suc, ◌+◌, Bool, true, false, not, ◌&&◌, ◌||◌, ltb, if◌then◌else◌, Option, none, some,
  List, [], ◌∷◌, ◌++◌, ℤ, pos, ◌+ℤ◌, ◌-ℤ◌, leb_ℤ,
}
use shopper.Exceptions.{Result, ok, raised, assertion_error, index_error}
use shopper.Block.{Header}
use shopper.Dict.{lookup, insert}
use shopper.State.{
  Address, Account, Log, Receipt, Vars, Attr, Param, State, is_blank, account, put_account,
  cache_account, set_and_journal, push, is_spurious_dragon,
}
use shopper.State.Entry.{
  set_storage, set_storage_cache, set_storage_root, pop_suicide, pop_log, pop_receipt, set_var,
}

abbrev pub or_else {ℓ} : {A : Type ℓ} → Option A → A → A
or_else none d = d
or_else (some v) d = v

-- The value that `Account.get_storage_data` returns.
unfoldable pub storage_data : ℕ → Account → ℕ
storage_data k a = or_else (lookup k a.storage_cache) (or_else (lookup k a.storage_trie) 0)

-- `Account.get_storage_data`, for its effect on the storage cache, and `Account.set_storage_data`.
unfoldable pub set_account_storage : ℕ → ℕ → Account → Account
set_account_storage k v a = record a { storage_cache = insert k v a.storage_cache }

unfoldable pub get_balance : Address → State → ℤ × State
get_balance a s = ((account a s).balance, cache_account a s)

unfoldable pub get_nonce : Address → State → ℕ × State
get_nonce a s = ((account a s).nonce, cache_account a s)

unfoldable pub get_code : Address → State → List ℕ × State
get_code a s = ((account a s).code, cache_account a s)

unfoldable pub get_storage_data : Address → ℕ → State → ℕ × State
get_storage_data a k s =
    let acct = account a s in
    let v = storage_data k acct in (v, put_account a (set_account_storage k v acct) s)

unfoldable pub set_balance : Address → ℤ → State → State
set_balance a v s = set_and_journal a (Attr.touched true) (set_and_journal a (Attr.balance v) s)

unfoldable pub set_code : Address → List ℕ → State → State
set_code a v s = set_and_journal a (Attr.touched true) (set_and_journal a (Attr.code v) s)

unfoldable pub set_nonce : Address → ℕ → State → State
set_nonce a v s = set_and_journal a (Attr.touched true) (set_and_journal a (Attr.nonce v) s)

unfoldable pub delta_balance : Address → ℤ → State → State
unfolding set_balance
delta_balance a v s = set_balance a ((account a s).balance +ℤ v) s

unfoldable pub increment_nonce : Address → State → State
unfolding set_nonce
increment_nonce a s = set_nonce a ((account a s).nonce + 1) s

-- The value is read first, which caches it, and the read value is what the undo step writes.
unfoldable pub set_storage_data : Address → ℕ → ℕ → State → State
unfolding get_storage_data
set_storage_data a k v s =
    let (preval, s1) = get_storage_data a k s in
    let s2 = put_account a (set_account_storage k v (account a s1)) s1 in
    set_and_journal a (Attr.touched true) (push (set_storage a k preval) s2)

unfoldable pub add_suicide : Address → State → State
add_suicide a s =
    push pop_suicide (record s { vars = record s.vars { suicides = s.suicides ++ a ∷ [] } })

unfoldable pub add_log : Log → State → State
add_log l s = push pop_log (record s { vars = record s.vars { logs = s.logs ++ l ∷ [] } })

unfoldable pub add_receipt : Receipt → State → State
add_receipt r s =
    push pop_receipt (record s { vars = record s.vars { receipts = s.receipts ++ r ∷ [] } })

abbrev pub get_param : Param → Vars → Param
get_param (Param.refunds _) v = Param.refunds v.refunds
get_param (Param.bloom _) v = Param.bloom v.bloom
get_param (Param.txindex _) v = Param.txindex v.txindex

abbrev pub set_vars : Param → Vars → Vars
set_vars (Param.refunds n) v = record v { refunds = n }
set_vars (Param.bloom n) v = record v { bloom = n }
set_vars (Param.txindex n) v = record v { txindex = n }

unfoldable pub set_param : Param → State → State
set_param p s = push (set_var (get_param p s.vars)) (record s { vars = set_vars p s.vars })

unfoldable pub reset_storage : Address → State → State
reset_storage a s =
    let acct = account a s in
    let cleared = record acct { storage_cache = []; storage_trie = [] } in
    push (set_storage_root a acct.storage_trie)
      (push (set_storage_cache a acct.storage_cache) (put_account a cleared s))

unfoldable pub del_account : Address → State → State
unfolding set_balance set_nonce set_code reset_storage
del_account a s =
    let emptied = reset_storage a (set_code a [] (set_nonce a 0 (set_balance a (pos 0) s))) in
    set_and_journal a (Attr.touched false) (set_and_journal a (Attr.deleted true) emptied)

-- What `account_exists` says of an account.
unfoldable pub exists_in : State → Account → Bool
exists_in s acct =
    if is_spurious_dragon s
    then not (is_blank acct)
    else if acct.deleted && not acct.touched
    then false
    else if acct.touched
    then true
    else acct.existent_at_start

unfoldable pub account_exists : Address → State → Bool × State
unfolding exists_in
account_exists a s = (exists_in s (account a s), cache_account a s)

-- A negative value fails the assertion; a value above the balance is refused.
unfoldable pub transfer_value : Address → Address → ℤ → State → Result Bool × State
unfolding get_balance delta_balance
transfer_value from_addr to_addr value s =
    if leb_ℤ (pos 0) value
    then (let (balance, s1) = get_balance from_addr s in
        if leb_ℤ value balance
        then (ok true, delta_balance to_addr value (delta_balance from_addr (pos 0 -ℤ value) s1))
        else (ok false, s1))
    else (raised assertion_error, s)

unfoldable pub header_hash : ℕ → List Header → Result ℕ
header_hash n [] = raised index_error
header_hash zero (h ∷ hs) = ok h.hash
header_hash (suc n) (h ∷ hs) = header_hash n hs

-- `get_block_hash`, for a number that is not negative
unfoldable pub get_block_hash : ℕ → State → Result ℕ
unfolding header_hash
get_block_hash n s =
    if ltb s.block_number n || ltb 256 n then ok 0 else header_hash n s.prev_headers

unfoldable pub add_block_header : Header → State → State
add_block_header h s = record s { vars = record s.vars { prev_headers = h ∷ s.prev_headers } }
