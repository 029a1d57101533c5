-- ===== src/Messages/Rejected.antt =====
-- A transaction that `apply_transaction` of ethereum/messages.py rejects.
use shopper.Prelude.{ℕ, ◌≡◌, refl, sym, ap, subst, Bool, List, arith}
use shopper.Exceptions.{Exn, Result, ok, raised, ◌>>◌}
use shopper.State.{State, Log, account, put_account, cache_account}
use shopper.State.Undo.{SameState, SameState-put_self, SameAccount-refl, SameState-trans}
use shopper.Vm.{Externals}
use shopper.Messages.{Transaction}
use shopper.Messages.Validation.{validate_transaction, validate_with}
use shopper.Messages.Transactions.{clear, begin, check_start, apply_transaction}

-- What a rejected transaction leaves of a state.
pub record IsUntouched (s t : State) : Type 0 where
  pub same : SameState s t
  pub vars : t.vars ≡ (clear s).vars
  pub journal : t.journal ≡ s.journal

IsUntouched-cache_account : (a : ℕ) (s : State) → IsUntouched s (cache_account a (clear s))
IsUntouched-cache_account a s = record {
  same =
      SameState-trans s (clear s) (cache_account a (clear s))
        (record {
          config = refl;
          root = refl;
          accounts = λ b. unfold account in SameAccount-refl (account b s);
        })
        (unfold cache_account in
          SameState-put_self a (account a (clear s)) (clear s)
            (SameAccount-refl (account a (clear s))));
  vars = unfold cache_account put_account in refl;
  journal = unfold cache_account put_account in refl;
}

begin-raised :
    (bloom_of : List Log → ℕ) (rounds depth : ℕ) (x : Externals) (tx : Transaction)
    (valid check : Result (Unit {0})) (s : State) (e : Exn)
    → valid ≡ raised e
    → begin bloom_of rounds depth x tx (valid >> check) s ≡ (raised e, s)
begin-raised bloom_of rounds depth x tx (ok _) check s e h = ground arith
begin-raised bloom_of rounds depth x tx (raised f) check s e h = ground arith

-- A transaction that does not pass validation is refused with the exception of the check that
-- failed. No gas is bought and no nonce is raised: root, journal and every account are as before,
-- and of the variables only the logs, suicides and refunds of the transaction before are dropped.
pub apply_transaction-rejected :
    (bloom_of : List Log → ℕ) (rounds depth : ℕ) (x : Externals) (tx : Transaction) (s : State)
    (e : Exn)
    → (validate_transaction s tx).0 ≡ raised e
    → ((apply_transaction bloom_of rounds depth x tx s).0 ≡ raised e)
      × IsUntouched s (apply_transaction bloom_of rounds depth x tx s).1
unfolding apply_transaction validate_transaction validate_with account
apply_transaction-rejected bloom_of rounds depth x tx s e h =
    let s1 = cache_account tx.sender (clear s) in
    let r =
      begin-raised bloom_of rounds depth x tx (validate_transaction (clear s) tx).0
        (check_start s1 tx) s1 e h in
    (
      ap (λ (q : Result (Bool × List ℕ) × State). q.0) r,
      subst (λ (q : Result (Bool × List ℕ) × State). IsUntouched s q.1) (sym r)
          (IsUntouched-cache_account tx.sender s),
    )
