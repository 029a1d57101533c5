-- ===== src/Messages/Journaled/Creations.antt =====
-- `create_contract` in ethereum/messages.py, and the handlers of nested messages, change the state
-- through the journal alone.
use shopper.Prelude.{
  ℕ, zero, suc, List, [], Bool, true, false, pos, ◌-ℤ◌, ◌*◌, arith, if◌then◌else◌, length, ◌==◌,
}
use shopper.Exceptions.{Result, ok, raised}
use shopper.State.{Address, State, is_homestead, is_spurious_dragon}
use shopper.State.Ops.{get_nonce, get_balance, set_nonce, set_balance, set_code, increment_nonce}
use shopper.State.Snapshots.{snapshot}
use shopper.State.Revert.{IsQuiet}
use shopper.State.Journaled.{
  Journaled, Journaled-refl, Journaled-trans, IsQuiet-Journaled, Journaled-get_balance,
  Journaled-get_code, Journaled-get_nonce, Journaled-set_balance, Journaled-set_nonce,
  Journaled-set_code, Journaled-increment_nonce,
}
use shopper.Opcodes.{gcontractbyte}
use shopper.Vm.{Message, Reply, Handlers, Context, Externals}
use shopper.Vm.Memory.{extract_all}
use shopper.Vm.Journaled.Calls.{IsJournaled, if-Journaled}
use shopper.Vm.Journaled.Loop.{AreJournaled}
use shopper.Messages.Apply.{
  reverted, apply_code, finish_create, is_affordable, refuse_code, store_code, keep_code,
  created_at, create_at, failure, collision, clear_account, create_message_at, create_free,
  unless_taken, new_address, create_with, create_contract, handlers,
}
use shopper.Messages.Journaled.{
  reverted-Journaled, apply_code-Journaled, apply_msg-Journaled, SpecialsAreJournaled,
}

keep_code-Journaled :
    {s : State} (to : Address) (r : Reply) (t : State)
    → Journaled s t
    → IsQuiet s
    → Journaled s (keep_code (snapshot s) to r t).1
unfolding keep_code store_code refuse_code
keep_code-Journaled {s} to r t j quiet =
    let refused =
      if-Journaled (is_homestead t) (reverted (snapshot s) failure t)
        (ok (created_at to r.gas), set_code to [] t) (reverted-Journaled failure t j quiet)
        (Journaled-trans j (Journaled-set_code to [] t)) in
    let stored =
      if-Journaled (is_affordable r t)
        (
          ok (created_at to (r.gas -ℤ pos (length r.output * gcontractbyte))),
          set_code to r.output t,
        )
        (refuse_code (snapshot s) to r t) (Journaled-trans j (Journaled-set_code to r.output t))
        refused in
    if-Journaled (length r.output == 0) (ok (created_at to r.gas), t)
      (store_code (snapshot s) to r t) j stored

finish_create-Journaled :
    {s : State} (to : Address) (r : Result Reply × State)
    → Journaled s r.1
    → IsQuiet s
    → Journaled s (finish_create (snapshot s) to r).1
unfolding finish_create
finish_create-Journaled to (raised e, t) j quiet = j
finish_create-Journaled {s} to (ok r, t) j quiet =
    if-Journaled r.success (keep_code (snapshot s) to r t) (reverted (snapshot s) r t)
      (keep_code-Journaled to r t j quiet) (reverted-Journaled r t j quiet)

collision-Journaled : (to : Address) (s : State) → Journaled s (collision to s).1
unfolding collision
collision-Journaled to s =
    let nonce = Journaled-get_nonce to s in
    ground (
      arith,
      Journaled-refl s,
      nonce,
      Journaled-trans nonce (Journaled-get_code to (get_nonce to s).1),
    )

clear_account-Journaled : (to : Address) (s : State) → Journaled s (clear_account to s)
unfolding clear_account
clear_account-Journaled to s =
    let s1 = (get_balance to s).1 in
    let s2 = set_balance to (get_balance to s).0 s1 in
    let read = Journaled-get_balance to s in
    ground (
      arith,
      read,
      Journaled-trans read (
          Journaled-trans (Journaled-set_balance to (get_balance to s).0 s1) (
            Journaled-trans (Journaled-set_nonce to 0 s2)
              (Journaled-set_code to [] (set_nonce to 0 s2)))),
    )

create_free-Journaled :
    (rounds : ℕ) (x : Externals) (h : Handlers) (c : Context) (msg : Message) (code : List ℕ)
    (to : Address) (s : State)
    → SpecialsAreJournaled x
    → AreJournaled h
    → IsQuiet s
    → Journaled s (create_free rounds x h c msg code to s).1
unfolding create_free
create_free-Journaled rounds x h c msg code to s sj hj quiet =
    let clear = clear_account-Journaled to s in
    let cleared = clear_account to s in
    let quiet1 = IsQuiet-Journaled clear quiet in
    let n = if is_spurious_dragon s then 1 else 0 in
    let start = Journaled-set_nonce to n cleared in
    Journaled-trans clear (
      finish_create-Journaled to
        (apply_code rounds x h c (create_message_at msg to) code (set_nonce to n cleared))
        (Journaled-trans start (
          apply_code-Journaled rounds x h c (create_message_at msg to) code (set_nonce to n cleared)
            sj hj (IsQuiet-Journaled start quiet1)))
        quiet1)

unless_taken-Journaled :
    {s : State} (r : Bool × State) (k : State → Result Reply × State)
    → Journaled s r.1
    → IsQuiet s
    → ((t : State) → IsQuiet t → Journaled t (k t).1)
    → Journaled s (unless_taken r k).1
unless_taken-Journaled (true, t) k j quiet h = j
unless_taken-Journaled (false, t) k j quiet h = Journaled-trans j (h t (IsQuiet-Journaled j quiet))

new_address-Journaled :
    (x : Externals) (sender : Address) (s : State) → Journaled s (new_address x sender s).1
unfolding new_address
new_address-Journaled x sender s = ground (arith, Journaled-refl s, Journaled-get_nonce sender s)

create_with-Journaled :
    (rounds : ℕ) (x : Externals) (h : Handlers) (c : Context) (msg : Message) {s : State}
    (r : Result Address × State)
    → SpecialsAreJournaled x
    → AreJournaled h
    → Journaled s r.1
    → IsQuiet s
    → Journaled s (create_with rounds x h c msg r).1
unfolding create_at
create_with-Journaled rounds x h c msg (raised e, t) sj hj j quiet = j
create_with-Journaled rounds x h c msg (ok to, t) sj hj j quiet =
    let code = extract_all msg.call_data in
    Journaled-trans j (
      unless_taken-Journaled (collision to t) (λ u. create_free rounds x h c msg code to u)
        (collision-Journaled to t) (IsQuiet-Journaled j quiet)
        (λ u q. create_free-Journaled rounds x h c msg code to u sj hj q))

create_contract-Journaled :
    (rounds : ℕ) (x : Externals) (h : Handlers) (c : Context)
    → SpecialsAreJournaled x
    → AreJournaled h
    → IsJournaled (create_contract rounds x h c)
unfolding create_contract
create_contract-Journaled rounds x h c sj hj msg s quiet =
    let started = if c.tx_origin == msg.sender then s else increment_nonce msg.sender s in
    let j : Journaled s started =
      ground (arith, Journaled-refl s, Journaled-increment_nonce msg.sender s) in
    create_with-Journaled rounds x h c msg (new_address x msg.sender started) sj hj
      (Journaled-trans j (new_address-Journaled x msg.sender started)) quiet

pub handlers-Journaled :
    (rounds : ℕ) (x : Externals) (c : Context) (depth : ℕ)
    → SpecialsAreJournaled x
    → AreJournaled (handlers rounds x c depth)
unfolding handlers
handlers-Journaled rounds x c zero sj =
    ((λ msg s q. Journaled-refl s), (λ msg s q. Journaled-refl s))
handlers-Journaled rounds x c (suc depth) sj =
    let hj = handlers-Journaled rounds x c depth sj in
    (apply_msg-Journaled rounds x _ c sj hj, create_contract-Journaled rounds x _ c sj hj)
