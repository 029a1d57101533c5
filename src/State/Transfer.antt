-- ===== src/State/Transfer.antt =====
-- `transfer_value` of ethereum/state.py moves value and makes none.
use shopper.Prelude.{
  ◌≡◌, ◌≢◌, refl, sym, ap, ◌∙◌, true, ◌==◌, if◌then◌else◌, ℤ, pos, ◌+ℤ◌, ◌-ℤ◌, arith, +ℤ_parts,
  -ℤ_parts, eq_of_parts, Bool-cases, ==_iff, inl, inr,
}
use shopper.Exceptions.{ok}
use shopper.State.{
  Address, Attr, Entry, State, Account, account, put_account, cache_account, setattr,
  set_and_journal, push, get_attr,
}
use shopper.State.Entry.{set_attr}
use shopper.State.Ops.{set_balance, get_balance, delta_balance, transfer_value}
use shopper.State.Undo.{account-put_account}

account-push : (b : Address) (e : Entry) (s : State) → account b (push e s) ≡ account b s
unfolding account
account-push b e s = refl

account-set_and_journal :
    (b a : Address) (p : Attr) (s : State)
    → account b (set_and_journal a p s) ≡ (if b == a then setattr p (account a s) else account b s)
unfolding set_and_journal
account-set_and_journal b a p s =
    account-push b (set_attr a (get_attr p (account a s)))
      (put_account a (setattr p (account a s)) s)
    ∙ account-put_account b a (setattr p (account a s)) s

-- The balances after one is set.
pub balance-set_balance :
    (b a : Address) (v : ℤ) (s : State)
    → (account b (set_balance a v s)).balance ≡ (if b == a then v else (account b s).balance)
unfolding set_balance
balance-set_balance b a v s =
    let s1 = set_and_journal a (Attr.balance v) s in
    let outer = account-set_and_journal b a (Attr.touched true) s1 in
    let inner = account-set_and_journal b a (Attr.balance v) s in
    let here = account-set_and_journal a a (Attr.balance v) s in
    ap (λ (x : Account). x.balance) outer ∙ ground (arith, inner, here)

-- And after one is changed.
pub balance-delta_balance :
    (b a : Address) (v : ℤ) (s : State)
    → (account b (delta_balance a v s)).balance
      ≡ (if b == a then (account b s).balance +ℤ v else (account b s).balance)
unfolding delta_balance
balance-delta_balance b a v s =
    balance-set_balance b a ((account a s).balance +ℤ v) s ∙ elim (Bool-cases (b == a)) [
      | inl e ↦ rw e (ap (λ c. (account c s).balance +ℤ v) (sym ((==_iff b a).0 e)))
      | inr e ↦ rw e refl
    ]

balance-cache_account :
    (b a : Address) (s : State) → (account b (cache_account a s)).balance ≡ (account b s).balance
unfolding cache_account
balance-cache_account b a s =
    let same : (b == a) ≡ true → (account a s).balance ≡ (account b s).balance =
      λ e. ap (λ c. (account c s).balance) (sym ((==_iff b a).0 e)) in
    ap (λ (x : Account). x.balance) (account-put_account b a (account a s) s)
    ∙ elim (Bool-cases (b == a)) [ inl e ↦ rw e (same e) | inr e ↦ rw e refl ]

add_negated : (a v : ℤ) → a +ℤ (pos 0 -ℤ v) ≡ a -ℤ v
add_negated a v =
    eq_of_parts _ _ (omega (arith, +ℤ_parts a (pos 0 -ℤ v), -ℤ_parts (pos 0) v, -ℤ_parts a v))

-- The states that a transfer which is made goes through.
abbrev paid_out : Address → ℤ → State → State
paid_out f v s =
    let s2 = cache_account f s in set_balance f ((account f s2).balance +ℤ (pos 0 -ℤ v)) s2

transfer_value-made :
    (f t : Address) (v : ℤ) (s s1 : State)
    → transfer_value f t v s ≡ (ok true, s1)
    → s1 ≡ set_balance t ((account t (paid_out f v s)).balance +ℤ v) (paid_out f v s)
unfolding transfer_value get_balance delta_balance
transfer_value-made f t v s s1 h = ground arith

balance-paid_out :
    (b f : Address) (v : ℤ) (s : State)
    → (account b (paid_out f v s)).balance
      ≡ (if b == f then (account f s).balance -ℤ v else (account b s).balance)
balance-paid_out b f v s =
    let s2 = cache_account f s in
    let set = balance-set_balance b f ((account f s2).balance +ℤ (pos 0 -ℤ v)) s2 in
    let amount =
      ap (λ x. x +ℤ (pos 0 -ℤ v)) (balance-cache_account f f s)
      ∙ add_negated (account f s).balance v in
    set ∙ ground (arith, amount, balance-cache_account b f s)

-- After a transfer that was made, the sender has that much less, the receiver that much more, and
-- everybody else what they had.
pub balance-transfer_value :
    (f t b : Address) (v : ℤ) (s s1 : State)
    → f ≢ t
    → transfer_value f t v s ≡ (ok true, s1)
    → (account b s1).balance ≡ (
        if b == t
        then (account t s).balance +ℤ v
        else if b == f
        then (account f s).balance -ℤ v
        else (account b s).balance)
balance-transfer_value f t b v s s1 ne h =
    let s3 = paid_out f v s in
    let last = balance-set_balance b t ((account t s3).balance +ℤ v) s3 in
    let kept = balance-paid_out t f v s in
    ap (λ u. (account b u).balance) (transfer_value-made f t v s s1 h)
    ∙ last
    ∙ ground (arith, kept, balance-paid_out b f v s)
