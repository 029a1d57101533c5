-- ===== src/Messages/Journaled.antt =====
-- Messages in ethereum/messages.py change the state through the journal alone.
pub mod Creations
pub mod Failures
use shopper.Prelude.{
  ℕ, zero, suc, ◌≡◌, refl, sym, ap, subst, List, [], Bool, true, false, Option, none, some, pos,
  ◌-ℤ◌, ◌*◌, arith, if◌then◌else◌, length, ◌==◌,
}
use shopper.Exceptions.{Result, ok, raised}
use shopper.State.{Address, State, is_homestead, is_spurious_dragon}
use shopper.State.Ops.{
  get_nonce, get_balance, set_nonce, set_balance, set_code, increment_nonce, transfer_value,
}
use shopper.State.Snapshots.{snapshot}
use shopper.State.Undo.{SameState}
use shopper.State.Journal.{Undoes-same}
use shopper.State.Revert.{IsQuiet, revert-Undoes}
use shopper.State.Journaled.{
  Journaled, Journaled-refl, Journaled-trans, IsQuiet-Journaled, Journaled-get_balance,
  Journaled-get_code, Journaled-get_nonce, Journaled-set_balance, Journaled-set_nonce,
  Journaled-set_code, Journaled-increment_nonce, Journaled-transfer_value,
}
use shopper.Opcodes.{gcontractbyte}
use shopper.Vm.{Message, Reply, Handler, Handlers, Context, Externals}
use shopper.Vm.Memory.{extract_all}
use shopper.Vm.Journaled.Calls.{IsJournaled, if-Journaled}
use shopper.Vm.Journaled.Loop.{AreJournaled, vm_execute-Journaled}
use shopper.Messages.Apply.{
  reply_after, reverted, finish_msg, after_transfer, special_at, main_loop, apply_code, code_at,
  apply_msg, finish_create, is_affordable, refuse_code, store_code, keep_code, created_at,
  create_at, failure, collision, clear_account, create_message_at, create_free, unless_taken,
  new_address, create_with, create_contract, handlers,
}

-- The precompiled contracts go through the journal.
abbrev pub SpecialsAreJournaled : Externals → Type 0
SpecialsAreJournaled x = (a : Address) (h : Handler) → x.special a ≡ some h → IsJournaled h

-- What a revert gives back to the snapshot of `s`.
pub record IsRestored (s t : State) : Type 0 where
  pub same : SameState s t
  pub vars : t.vars ≡ s.vars
  pub journal : t.journal ≡ s.journal

IsRestored-Journaled : {s t : State} → IsRestored s t → Journaled s t
IsRestored-Journaled {s} {t} r = record {
  undoes = Undoes-same s t r.journal r.same;
  number = ap (λ v. v.block_number) r.vars;
}

-- A revert after journaled changes returns, with the same reply.
pub reverted_lem :
    {s : State} (r : Reply) (t : State)
    → Journaled s t
    → IsQuiet s
    → (s' : State) × (reverted (snapshot s) r t ≡ (ok r, s')) × IsRestored s s'
unfolding reverted
reverted_lem r t j quiet =
    let (s', e, same, vars, journal) = revert-Undoes j.undoes quiet in
    (s', ap (λ q. reply_after q r t) e, record { same = same; vars = vars; journal = journal })

pub reverted-Journaled :
    {s : State} (r : Reply) (t : State)
    → Journaled s t
    → IsQuiet s
    → Journaled s (reverted (snapshot s) r t).1
reverted-Journaled {s} r t j quiet =
    let (s', e, restored) = reverted_lem r t j quiet in
    subst (λ p. Journaled s p.1) (sym e) (IsRestored-Journaled restored)

finish_msg-Journaled :
    {s : State} (r : Result Reply × State)
    → Journaled s r.1
    → IsQuiet s
    → Journaled s (finish_msg (snapshot s) r).1
unfolding finish_msg
finish_msg-Journaled (raised e, t) j quiet = j
finish_msg-Journaled (ok r, t) j quiet = if-Journaled _ _ _ j (reverted-Journaled r t j quiet)

after_transfer-Journaled :
    {s : State} (h : Handler) (msg : Message) (r : Result Bool × State)
    → IsJournaled h
    → Journaled s r.1
    → IsQuiet s
    → Journaled s (after_transfer (snapshot s) h msg r).1
unfolding after_transfer
after_transfer-Journaled h msg (raised e, t) hj j quiet = j
after_transfer-Journaled h msg (ok false, t) hj j quiet = j
after_transfer-Journaled h msg (ok true, t) hj j quiet =
    finish_msg-Journaled (h msg t) (Journaled-trans j (hj msg t (IsQuiet-Journaled j quiet))) quiet

pub main_loop-Journaled :
    (rounds : ℕ) (x : Externals) (h : Handlers) (c : Context) (code : List ℕ)
    (special : Option Handler)
    → AreJournaled h
    → ((g : Handler) → special ≡ some g → IsJournaled g)
    → IsJournaled (main_loop rounds x h c code special)
main_loop-Journaled rounds x h c code none hj sj msg s quiet =
    vm_execute-Journaled rounds x h c msg code s hj quiet
main_loop-Journaled rounds x h c code (some g) hj sj msg s quiet = sj g refl msg s quiet

pub special_at-Journaled :
    (x : Externals) (a : Option Address)
    → SpecialsAreJournaled x
    → (g : Handler) → special_at x a ≡ some g
    → IsJournaled g
special_at-Journaled x none sj g e = ground arith
special_at-Journaled x (some a) sj g e = sj a g e

pub apply_code-Journaled :
    (rounds : ℕ) (x : Externals) (h : Handlers) (c : Context) (msg : Message) (code : List ℕ)
    (s : State)
    → SpecialsAreJournaled x
    → AreJournaled h
    → IsQuiet s
    → Journaled s (apply_code rounds x h c msg code s).1
unfolding apply_code
apply_code-Journaled rounds x h c msg code s sj hj quiet =
    after_transfer-Journaled (main_loop rounds x h c code (special_at x msg.code_address)) msg
      (if msg.transfers_value
        then transfer_value msg.sender msg.to (pos msg.value) s
        else (ok true, s))
      (main_loop-Journaled rounds x h c code (special_at x msg.code_address) hj
        (special_at-Journaled x msg.code_address sj))
      (if-Journaled msg.transfers_value (transfer_value msg.sender msg.to (pos msg.value) s)
        (ok true, s) (Journaled-transfer_value msg.sender msg.to (pos msg.value) s)
        (Journaled-refl s))
      quiet

code_at-Journaled : (a : Option Address) (s : State) → Journaled s (code_at a s).1
code_at-Journaled none s = Journaled-refl s
code_at-Journaled (some a) s = Journaled-get_code a s

pub apply_msg-Journaled :
    (rounds : ℕ) (x : Externals) (h : Handlers) (c : Context)
    → SpecialsAreJournaled x
    → AreJournaled h
    → IsJournaled (apply_msg rounds x h c)
unfolding apply_msg
apply_msg-Journaled rounds x h c sj hj msg s quiet =
    let read = code_at-Journaled msg.code_address s in
    let (code, s1) = code_at msg.code_address s in
    Journaled-trans read
      (apply_code-Journaled rounds x h c msg _ _ sj hj (IsQuiet-Journaled read quiet))
