-- ===== src/State/Journaled.antt =====
-- Changes of the state (ethereum/state.py) that the journal records, and that leave the block
-- number alone.
use shopper.Prelude.{ℕ, ◌≡◌, refl, ◌∙◌, List, ℤ, arith}
use shopper.State.{Address, Param, Log, State, put_account, cache_account, set_and_journal}
use shopper.State.Ops.{
  get_balance, get_nonce, get_code, get_storage_data, set_balance, set_code, set_nonce,
  increment_nonce, set_storage_data, add_suicide, add_log, set_param, account_exists,
  transfer_value, delta_balance,
}
use shopper.State.Journal.{
  Undoes, Undoes-refl, Undoes-trans, Undoes-cache_account, Undoes-get_storage_data,
  Undoes-set_balance, Undoes-set_code, Undoes-set_nonce, Undoes-increment_nonce,
  Undoes-set_storage_data, Undoes-add_suicide, Undoes-add_log, Undoes-set_param,
  Undoes-transfer_value,
}
use shopper.State.Revert.{IsQuiet}

pub record Journaled (s t : State) : Type 0 where
  pub undoes : Undoes s t
  pub number : t.block_number ≡ s.block_number

pub Journaled-refl : (s : State) → Journaled s s
Journaled-refl s = record { undoes = Undoes-refl s; number = refl }

pub Journaled-trans : {s t u : State} → Journaled s t → Journaled t u → Journaled s u
Journaled-trans {s} {t} {u} p q = record {
  undoes = Undoes-trans s t u p.undoes q.undoes;
  number = q.number ∙ p.number;
}

pub IsQuiet-Journaled : {s t : State} → Journaled s t → IsQuiet s → IsQuiet t
IsQuiet-Journaled p quiet = ground arith

pub Journaled-cache_account : (a : Address) (s : State) → Journaled s (cache_account a s)
unfolding cache_account put_account
Journaled-cache_account a s = record { undoes = Undoes-cache_account a s; number = refl }

pub Journaled-get_balance : (a : Address) (s : State) → Journaled s (get_balance a s).1
unfolding get_balance
Journaled-get_balance a s = Journaled-cache_account a s

pub Journaled-get_nonce : (a : Address) (s : State) → Journaled s (get_nonce a s).1
unfolding get_nonce
Journaled-get_nonce a s = Journaled-cache_account a s

pub Journaled-get_code : (a : Address) (s : State) → Journaled s (get_code a s).1
unfolding get_code
Journaled-get_code a s = Journaled-cache_account a s

pub Journaled-account_exists : (a : Address) (s : State) → Journaled s (account_exists a s).1
unfolding account_exists
Journaled-account_exists a s = Journaled-cache_account a s

pub Journaled-get_storage_data :
    (a : Address) (k : ℕ) (s : State) → Journaled s (get_storage_data a k s).1
unfolding get_storage_data put_account
Journaled-get_storage_data a k s = record { undoes = Undoes-get_storage_data a k s; number = refl }

pub Journaled-set_balance : (a : Address) (v : ℤ) (s : State) → Journaled s (set_balance a v s)
unfolding set_balance set_and_journal put_account
Journaled-set_balance a v s = record { undoes = Undoes-set_balance a v s; number = refl }

pub Journaled-set_code : (a : Address) (v : List ℕ) (s : State) → Journaled s (set_code a v s)
unfolding set_code set_and_journal put_account
Journaled-set_code a v s = record { undoes = Undoes-set_code a v s; number = refl }

pub Journaled-set_nonce : (a : Address) (v : ℕ) (s : State) → Journaled s (set_nonce a v s)
unfolding set_nonce set_and_journal put_account
Journaled-set_nonce a v s = record { undoes = Undoes-set_nonce a v s; number = refl }

pub Journaled-increment_nonce : (a : Address) (s : State) → Journaled s (increment_nonce a s)
unfolding increment_nonce set_nonce set_and_journal put_account
Journaled-increment_nonce a s = record { undoes = Undoes-increment_nonce a s; number = refl }

pub Journaled-set_storage_data :
    (a : Address) (k v : ℕ) (s : State) → Journaled s (set_storage_data a k v s)
unfolding set_storage_data get_storage_data set_and_journal put_account
Journaled-set_storage_data a k v s = record {
  undoes = Undoes-set_storage_data a k v s;
  number = refl;
}

pub Journaled-add_suicide : (a : Address) (s : State) → Journaled s (add_suicide a s)
unfolding add_suicide
Journaled-add_suicide a s = record { undoes = Undoes-add_suicide a s; number = refl }

pub Journaled-add_log : (l : Log) (s : State) → Journaled s (add_log l s)
unfolding add_log
Journaled-add_log l s = record { undoes = Undoes-add_log l s; number = refl }

pub Journaled-refunds : (n : ℕ) (s : State) → Journaled s (set_param (Param.refunds n) s)
unfolding set_param
Journaled-refunds n s = record { undoes = Undoes-set_param (Param.refunds n) s; number = refl }

pub Journaled-transfer_value :
    (f t : Address) (v : ℤ) (s : State) → Journaled s (transfer_value f t v s).1
Journaled-transfer_value f t v s = record {
  undoes = Undoes-transfer_value f t v s;
  number =
      unfold transfer_value get_balance cache_account delta_balance set_balance set_and_journal
        put_account in
      ground arith;
}
