-- ===== src/Messages/Settled.antt =====
-- Messages and transactions of ethereum/messages.py end: within rounds beyond their gas, and within
-- the depth that the machine allows.
pub mod Nested
use mathlib.Core.Logic.{ite}
use shopper.Prelude.{
  ℕ, zero, suc, ◌+◌, ◌*◌, ◌-◌, ◌≤◌, ◌<◌, ◌≡◌, refl, Bool, true, false, ◌==◌, if◌then◌else◌, List,
  [], length, ℤ, pos, pos_part, neg_part, ◌-ℤ◌, ltb_ℤ, leb_ℤ, Option, none, some, arith, Bool-cases,
  inl, inr,
}
use shopper.Exceptions.{assertion_error, Exn, Result, ok, raised, ◌>>◌}
use shopper.State.{Address, State, Root-discrete, is_homestead, is_metropolis}
use shopper.State.Ops.{transfer_value, increment_nonce}
use shopper.State.Snapshots.{Snapshot, snapshot, revert, revert_vars, restore_root}
use shopper.Opcodes.{gcontractbyte}
use shopper.Vm.{Message, Reply, Handler, Handlers, Context, Externals, Frame}
use shopper.Vm.Memory.{extract_all}
use shopper.Vm.Calls.{max_depth}
use shopper.Vm.Gas.{IsReal, IsAnswer, pos_part-minus}
use shopper.Vm.Gas.Calls.{IsSettled, IsFrugal}
use shopper.Vm.Gas.Loop.{CanNest, vm_execute-IsSettled}
use shopper.Messages.Apply.{
  reply_after, reverted, finish_msg, after_transfer, special_at, main_loop, apply_code, code_at,
  apply_msg, failure, refuse_code, store_code, keep_code, finish_create, collision, clear_account,
  create_free, unless_taken, create_at, new_address, create_with, create_contract, handlers,
  create_message_at, is_affordable,
}

-- The precompiled contracts reply with at most the gas that they were given.
abbrev pub SpecialsAreSettled : Externals → Type 0
SpecialsAreSettled x =
    (a : Address) (h : Handler)
    → x.special a ≡ some h
    → (msg : Message) (s : State) → IsSettled (pos_part msg.gas) (h msg s).0

restore_root-IsAnswer : (snap : Snapshot) (s : State) → IsAnswer (restore_root snap s)
unfolding restore_root
restore_root-IsAnswer snap s = go (Root-discrete snap.root s.root)
  where
    go :
        (d : Dec (snap.root ≡ s.root))
        → IsAnswer (
            ite d (ok s) (
              if snap.journal_length == 0
              then ok (record s { root = snap.root; cache = [] })
              else raised assertion_error))
    go (yes e) = tt
    go (no n) = ground arith

revert_vars-IsAnswer :
    (snap : Snapshot) (b : Bool) (r : Result State) → IsAnswer r → IsAnswer (revert_vars snap b r)
revert_vars-IsAnswer snap b (ok s) h = tt
revert_vars-IsAnswer snap b (raised e) h = h

pub revert-IsAnswer : (snap : Snapshot) (s : State) → IsAnswer (revert snap s)
unfolding revert
revert-IsAnswer snap s = revert_vars-IsAnswer snap _ _ (restore_root-IsAnswer snap _)

if-IsSettled :
    (g : ℕ) (b : Bool) (p q : Result Reply × State)
    → IsSettled g p.0
    → IsSettled g q.0
    → IsSettled g (if b then p else q).0
if-IsSettled g true p q hp hq = hp
if-IsSettled g false p q hp hq = hq

reverted-IsSettled :
    (g : ℕ) (snap : Snapshot) (r : Reply) (s : State)
    → pos_part r.gas ≤ g
    → IsSettled g (reverted snap r s).0
unfolding reverted
reverted-IsSettled g snap r s le = go (revert snap s) (revert-IsAnswer snap s)
  where
    go : (t : Result State) → IsAnswer t → IsSettled g (reply_after t r s).0
    go (ok u) h = le
    go (raised e) h = h

finish_msg-IsSettled :
    (g : ℕ) (snap : Snapshot) (r : Result Reply × State)
    → IsSettled g r.0
    → IsSettled g (finish_msg snap r).0
unfolding finish_msg
finish_msg-IsSettled g snap (raised e, s) h = h
finish_msg-IsSettled g snap (ok r, s) h =
    if-IsSettled g r.success (ok r, s) _ h (reverted-IsSettled g snap r s h)

pub transfer_value-IsAnswer :
    (a b : Address) (v : ℤ) (s : State) → IsAnswer (transfer_value a b v s).0
unfolding transfer_value
transfer_value-IsAnswer a b v s = ground arith

after_transfer-IsSettled :
    (snap : Snapshot) (main : Handler) (msg : Message) (r : Result Bool × State)
    → IsAnswer r.0
    → ((s : State) → IsSettled (pos_part msg.gas) (main msg s).0)
    → IsSettled (pos_part msg.gas) (after_transfer snap main msg r).0
unfolding after_transfer
after_transfer-IsSettled snap main msg (raised e, s) h settled = h
after_transfer-IsSettled snap main msg (ok false, s) h settled = omega arith
after_transfer-IsSettled snap main msg (ok true, s) h settled =
    finish_msg-IsSettled (pos_part msg.gas) snap (main msg s) (settled s)

main_loop-IsSettled :
    (rounds depth : ℕ) (x : Externals) (h : Handlers) (c : Context) (code : List ℕ)
    (special : Option Handler) (msg : Message) (s : State)
    → ((k : Handler) → special ≡ some k → (t : State) → IsSettled (pos_part msg.gas) (k msg t).0)
    → CanNest depth (pos_part msg.gas) h (record { context = c; msg = msg; code = code })
    → pos_part msg.gas < rounds
    → IsSettled (pos_part msg.gas) (main_loop rounds x h c code special msg s).0
main_loop-IsSettled rounds depth x h c code none msg s sound can lt =
    vm_execute-IsSettled rounds depth x h c msg code s can lt
main_loop-IsSettled rounds depth x h c code (some k) msg s sound can lt = sound k refl s

special_at-IsSettled :
    (x : Externals) (a : Option Address)
    → SpecialsAreSettled x
    → (k : Handler) → special_at x a ≡ some k
    → (msg : Message) (s : State) → IsSettled (pos_part msg.gas) (k msg s).0
special_at-IsSettled x none sound k e = ground arith
special_at-IsSettled x (some a) sound k e = sound a k e

-- Nested messages one level down are settled.
pub record IsNested (depth rounds : ℕ) (x : Externals) (h : Handlers) : Type 0 where
  pub specials : SpecialsAreSettled x
  pub msg : (g : ℕ) → g < rounds → IsFrugal depth g h.msg
  pub create : (g : ℕ) → g < rounds → IsFrugal depth g h.create

pub apply_code-IsSettled :
    (rounds depth : ℕ) (x : Externals) (h : Handlers) (c : Context) (msg : Message) (code : List ℕ)
    (s : State)
    → IsNested depth rounds x h
    → max_depth < msg.depth + suc depth
    → pos_part msg.gas < rounds
    → IsSettled (pos_part msg.gas) (apply_code rounds x h c msg code s).0
unfolding apply_code
apply_code-IsSettled rounds depth x h c msg code s nested deep lt =
    after_transfer-IsSettled (snapshot s)
      (main_loop rounds x h c code (special_at x msg.code_address)) msg
      (if msg.transfers_value
        then transfer_value msg.sender msg.to (pos msg.value) s
        else (ok true, s))
      (moved msg.transfers_value)
      λ t.
        main_loop-IsSettled rounds depth x h c code (special_at x msg.code_address) msg t
          (λ k e. special_at-IsSettled x msg.code_address nested.specials k e msg)
          (record {
            msg = nested.msg (pos_part msg.gas) lt;
            create = nested.create (pos_part msg.gas) lt;
            deep = deep;
          })
          lt
  where
    moved :
        (b : Bool)
        → IsAnswer
            (if b then transfer_value msg.sender msg.to (pos msg.value) s else (ok true, s)).0
    moved true = transfer_value-IsAnswer msg.sender msg.to (pos msg.value) s
    moved false = tt

-- The fields that a creation changes are not among those that settling is about.
finish_create-IsSettled :
    (g : ℕ) (snap : Snapshot) (to : Address) (r : Result Reply × State)
    → IsSettled g r.0
    → IsSettled g (finish_create snap to r).0
unfolding finish_create keep_code store_code refuse_code
finish_create-IsSettled g snap to (raised e, s) h = h
finish_create-IsSettled g snap to (ok r, s) h =
    let lost = reverted-IsSettled g snap failure s (omega arith) in
    let less = pos_part-minus r.gas (length r.output * gcontractbyte) in
    if-IsSettled g r.success _ _
      (if-IsSettled g (length r.output == 0) _ _ h (
        if-IsSettled g (is_affordable r s) _ _ (omega arith)
          (if-IsSettled g (is_homestead s) _ _ lost h)))
      (reverted-IsSettled g snap r s h)

pub create_at-IsSettled :
    (rounds depth : ℕ) (x : Externals) (h : Handlers) (c : Context) (msg : Message) (code : List ℕ)
    (to : Address) (s : State)
    → IsNested depth rounds x h
    → max_depth < msg.depth + suc depth
    → pos_part msg.gas < rounds
    → IsSettled (pos_part msg.gas) (create_at rounds x h c msg code to s).0
unfolding create_at create_free
create_at-IsSettled rounds depth x h c msg code to s nested deep lt = go (collision to s)
  where
    go :
        (r : Bool × State)
        → IsSettled
            (pos_part msg.gas)
            (unless_taken r λ s1. create_free rounds x h c msg code to s1).0
    go (true, t) = omega arith
    go (false, t) =
        finish_create-IsSettled (pos_part msg.gas) (snapshot (clear_account to t)) to _
          (apply_code-IsSettled rounds depth x h c (create_message_at msg to) code _ nested deep lt)
