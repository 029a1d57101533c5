-- ===== src/Messages/Transactions/Gas.antt =====
-- How much gas `apply_transaction` of ethereum/messages.py charges for.
use shopper.Prelude.{
  ℕ, ◌+◌, ◌*◌, ◌≤◌, ◌≡◌, refl, ap, ◌∙◌, Bool, true, false, ◌==◌, if◌then◌else◌, ℤ, pos, negsuc,
  pos_part, neg_part, ◌+ℤ◌, ◌-ℤ◌, ◌*ℤ◌, ◌≤ℤ◌, max_ℤ, floor_div, arith, +ℤ_parts, -ℤ_parts,
  eq_of_parts, Bool-cases, inl, inr,
}
use shopper.Opcodes.{gsuiciderefund}
use shopper.State.{Address, State, account, put_account, set_and_journal}
use shopper.State.Ops.{delta_balance, set_balance}
use shopper.State.Transfer.{balance-delta_balance}
use shopper.Vm.{Reply}
use shopper.Messages.{Transaction}
use shopper.Messages.Transactions.{refund_of, count_distinct, pay, settle}

-- A refund is never negative, and at most half of the gas used.
refund_of-bounds :
    (refunds : ℕ) (used : ℤ)
    → pos 0 ≤ℤ used
    → (neg_part (refund_of refunds used) ≡ 0)
      × (pos_part (refund_of refunds used) + pos_part (refund_of refunds used) ≤ pos_part used)
unfolding refund_of
refund_of-bounds refunds (pos n) h = ground arith
refund_of-bounds refunds (negsuc n) h = ground arith

-- The refund that a transaction has earned.
abbrev pub earned : State → ℕ
earned s = s.refunds + count_distinct s.suicides * gsuiciderefund

-- The balance of an account after the payments for gas, from the charge: the sender gets back what
-- was bought and not charged, and the coinbase the charge.
abbrev pub paid_up : Transaction → ℤ → Address → State → ℤ
paid_up tx charge a s =
    let own = (account a s).balance in
    let back =
      if a == tx.sender then own +ℤ (pos tx.gasprice *ℤ (pos tx.startgas -ℤ charge)) else own in
    if a == s.block_coinbase then back +ℤ (pos tx.gasprice *ℤ charge) else back

-- The charge lies between half of the gas used and all of it. It is all of it after a failure, and
-- else less by what was earned, as far as that is not more than half.
abbrev pub IsCharge : ℕ → Bool → ℤ → ℤ → Type 0
IsCharge refund success used charge =
    (charge ≤ℤ used)
    × (used ≤ℤ charge +ℤ charge)
    × (if success
        then charge ≡ max_ℤ (used -ℤ pos refund) (used -ℤ floor_div used 2)
        else charge ≡ used)

refund_of-IsCharge :
    (refunds : ℕ) (used : ℤ)
    → pos 0 ≤ℤ used
    → IsCharge refunds true used (used -ℤ refund_of refunds used)
unfolding refund_of ◌-ℤ◌ ◌+ℤ◌
refund_of-IsCharge refunds (pos n) h = (ground arith, ground arith, ground arith)
refund_of-IsCharge refunds (negsuc n) h = ground arith

all-IsCharge : (refunds : ℕ) (used : ℤ) → pos 0 ≤ℤ used → IsCharge refunds false used used
all-IsCharge refunds used h = let twice = +ℤ_parts used used in (omega arith, omega arith, refl)

-- What the message left and the refund is what was bought and not charged.
remained-success : (start g refund : ℤ) → g +ℤ refund ≡ start -ℤ ((start -ℤ g) -ℤ refund)
remained-success start g refund = eq_of_parts _ _ (
    omega (
      arith,
      +ℤ_parts g refund,
      -ℤ_parts start ((start -ℤ g) -ℤ refund),
      -ℤ_parts (start -ℤ g) refund,
      -ℤ_parts start g,
    ))

remained-failure : (start g : ℤ) → g ≡ start -ℤ (start -ℤ g)
remained-failure start g =
    eq_of_parts _ _ (omega (arith, -ℤ_parts start (start -ℤ g), -ℤ_parts start g))

balance-pay :
    (tx : Transaction) (remained charge : ℤ) (a : Address) (s : State)
    → remained ≡ pos tx.startgas -ℤ charge
    → (account a (pay tx remained charge s)).balance ≡ paid_up tx charge a s
unfolding pay
balance-pay tx remained charge a s e =
    let s1 = delta_balance tx.sender (pos tx.gasprice *ℤ remained) s in
    balance-delta_balance a s.block_coinbase (pos tx.gasprice *ℤ charge) s1
    ∙ ap (λ v. if a == s.block_coinbase then v +ℤ (pos tx.gasprice *ℤ charge) else v)
        (balance-delta_balance a tx.sender (pos tx.gasprice *ℤ remained) s
          ∙ ap
              (λ v.
                if a == tx.sender
                then (account a s).balance +ℤ (pos tx.gasprice *ℤ v)
                else (account a s).balance)
              e)

refunds-pay :
    (tx : Transaction) (remained charge : ℤ) (s : State)
    → (pay tx remained charge s).refunds ≡ s.refunds
unfolding pay delta_balance set_balance set_and_journal put_account
refunds-pay tx remained charge s = refl

paid_up-refunds :
    (tx : Transaction) (charge : ℤ) (a : Address) (s : State)
    → paid_up tx charge a (record s { vars = record s.vars { refunds = 0 } })
      ≡ paid_up tx charge a s
unfolding account
paid_up-refunds tx charge a s = refl

-- What a transaction is settled at.
abbrev pub IsSettledAt : Transaction → Reply → State → Address → ℤ × State → Type 0
IsSettledAt tx r s a (charge, s1) =
    IsCharge (earned s) r.success (pos tx.startgas -ℤ r.gas) charge
    × (s1.refunds ≡ (if r.success then 0 else s.refunds))
    × ((account a s1).balance ≡ paid_up tx charge a s)

-- Between the start gas and what the message left, which is not more, lies the gas used. A failed
-- transaction is charged for all of it; a successful one for what is left after the refund that was
-- earned, but for at least half of it. The sender gets back what was bought and not charged, the
-- coinbase is paid the charge, at the gas price, and every other account keeps its balance. After a
-- success no refund is left.
pub settle-IsSettledAt :
    (tx : Transaction) (r : Reply) (s : State) (a : Address)
    → r.gas ≤ℤ pos tx.startgas
    → IsSettledAt tx r s a (settle tx r s)
unfolding settle
settle-IsSettledAt tx r s a h =
    let start = pos tx.startgas in
    let used = start -ℤ r.gas in
    let refund = refund_of (earned s) used in
    let used_parts = -ℤ_parts start r.gas in
    let whole : pos 0 ≤ℤ used = omega arith in
    let cleared = record s { vars = record s.vars { refunds = 0 } } in
    elim (Bool-cases r.success) [
      | inl e ↦ rw e (
        refund_of-IsCharge (earned s) used whole,
        refunds-pay tx (r.gas +ℤ refund) (used -ℤ refund) cleared,
        balance-pay tx (r.gas +ℤ refund) (used -ℤ refund) a cleared
              (remained-success start r.gas refund)
            ∙ paid_up-refunds tx (used -ℤ refund) a s,
      )
      | inr e ↦ rw e (
        all-IsCharge (earned s) used whole,
        refunds-pay tx r.gas used s,
        balance-pay tx r.gas used a s (remained-failure start r.gas),
      )
    ]
