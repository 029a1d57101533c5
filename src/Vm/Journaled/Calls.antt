-- ===== src/Vm/Journaled/Calls.antt =====
-- Logs, creations, calls and suicide in ethereum/vm.py change the state through the journal alone,
-- where the handlers of nested messages do.
use shopper.Prelude.{
  ℕ, take, ltb, if◌then◌else◌, ◌-ℤ◌, ◌*◌, Bool, true, false, List, [], ◌∷◌, ℤ, pos, ◌+ℤ◌, arith,
  Option, none, some,
}
use shopper.Exceptions.{Result, ok, raised}
use shopper.State.{Address, Log, State, is_anti_dos}
use shopper.State.Ops.{get_balance, set_balance}
use shopper.State.Revert.{IsQuiet}
use shopper.State.Journaled.{
  Journaled, Journaled-refl, Journaled-trans, IsQuiet-Journaled, Journaled-get_balance,
  Journaled-account_exists, Journaled-set_balance, Journaled-add_suicide, Journaled-add_log,
}
use shopper.Opcodes.{Op, glogbyte, gstipend, call_child_limit_denom}
use shopper.Vm.{Message, Machine, Reply, Frame, Handler}
use shopper.Vm.Memory.{slice, all_but_1n, charged, mem_extend, addr_of}
use shopper.Vm.Calls.{
  CallArgs, log_step, create_paid, create_step, call_args, new_account_gas, call_paid,
  call_extended, call_with, call_step, return_step, suicide_charge, suicide_step, after_create,
  after_call, send, suicided, create_message, call_message,
}
use shopper.Vm.Journaled.{charged-Journaled}

-- Outside the range in which a revert keeps a touch, a handler goes through the journal.
abbrev pub IsJournaled : Handler → Type 0
IsJournaled h = (msg : Message) (s : State) → IsQuiet s → Journaled s (h msg s).1

pub log_step-Journaled :
    (f : Frame) (depth : ℕ) (st : List ℕ) (m : Machine) (s : State)
    → Journaled s (log_step f depth st m s).1
unfolding log_step
log_step-Journaled f depth [] m s = Journaled-refl s
log_step-Journaled f depth (mstart ∷ []) m s = Journaled-refl s
log_step-Journaled f depth (mstart ∷ msz ∷ st) m s =
    let m1 = (mem_extend mstart msz (record m { gas = m.gas -ℤ pos (msz * glogbyte) })).1 in
    let log : Log = record {
      address = f.msg.to;
      topics = take depth st;
      bytes = slice mstart msz m1.memory;
    } in
    ground (arith, Journaled-refl s, Journaled-add_log log s)

after_create-Journaled :
    {s : State} (r : Result Reply × State) (ingas : ℤ) (st : List ℕ) (m : Machine)
    → Journaled s r.1
    → Journaled s (after_create r ingas st m).1
after_create-Journaled (ok r, s) ingas st m j = j
after_create-Journaled (raised e, s) ingas st m j = j

after_call-Journaled :
    {s : State} (r : Result Reply × State) (a : CallArgs) (st : List ℕ) (m : Machine)
    → Journaled s r.1
    → Journaled s (after_call r a st m).1
after_call-Journaled (ok r, s) a st m j = j
after_call-Journaled (raised e, s) a st m j = j

send-Journaled :
    (h : Handler) (msg : Option Message) (a : CallArgs) (st : List ℕ) (m : Machine) (s : State)
    → IsJournaled h
    → IsQuiet s
    → Journaled s (send h msg a st m s).1
send-Journaled h none a st m s j quiet = Journaled-refl s
send-Journaled h (some msg) a st m s j quiet = after_call-Journaled (h msg s) a st m (j msg s quiet)

new_account_gas-Journaled :
    (op : Op) (to : Address) (value : ℕ) (s : State) → Journaled s (new_account_gas op to value s).1
unfolding new_account_gas
new_account_gas-Journaled op to value s =
    ground (arith, Journaled-refl s, Journaled-account_exists to s)

create_paid-Journaled :
    (f : Frame) (h : Handler) (value mstart msz : ℕ) (st : List ℕ) (m : Machine) (s : State)
    → IsJournaled h
    → IsQuiet s
    → Journaled s (create_paid f h value mstart msz st m s).1
unfolding create_paid
create_paid-Journaled f h value mstart msz st m s j quiet =
    let s1 = (get_balance f.msg.to s).1 in
    let read = Journaled-get_balance f.msg.to s in
    let ingas = if is_anti_dos s1 then all_but_1n m.gas call_child_limit_denom else m.gas in
    let msg = create_message f value mstart msz ingas m in
    let made =
      after_create-Journaled (h msg s1) ingas st m
        (Journaled-trans read (j msg s1 (IsQuiet-Journaled read quiet))) in
    ground (arith, Journaled-refl s, read, made)

pub create_step-Journaled :
    (f : Frame) (h : Handler) (st : List ℕ) (m : Machine) (s : State)
    → IsJournaled h
    → IsQuiet s
    → Journaled s (create_step f h st m s).1
unfolding create_step
create_step-Journaled f h [] m s j quiet = Journaled-refl s
create_step-Journaled f h (value ∷ []) m s j quiet = Journaled-refl s
create_step-Journaled f h (value ∷ mstart ∷ []) m s j quiet = Journaled-refl s
create_step-Journaled f h (value ∷ mstart ∷ msz ∷ st) m s j quiet =
    charged-Journaled (mem_extend mstart msz m) s (λ m1. create_paid f h value mstart msz st m1 s)
      (Journaled-refl s) (λ m1. create_paid-Journaled f h value mstart msz st m1 s j quiet)

call_paid-Journaled :
    (f : Frame) (h : Handler) (op : Op) (a : CallArgs) (extra : ℕ) (gas : Option ℤ) (st : List ℕ)
    (m : Machine) (s : State)
    → IsJournaled h
    → IsQuiet s
    → Journaled s (call_paid f h op a extra gas st m s).1
unfolding call_paid
call_paid-Journaled f h op a extra none st m s j quiet = Journaled-refl s
call_paid-Journaled f h op a extra (some gas) st m s j quiet =
    let s1 = (get_balance f.msg.to s).1 in
    let read = Journaled-get_balance f.msg.to s in
    let submsg_gas = gas +ℤ pos (if ltb 0 a.value then gstipend else 0) in
    let left = m.gas -ℤ (gas +ℤ pos extra) in
    let msg = call_message f op a submsg_gas m.memory s1 in
    let sent =
      send-Journaled h msg a st (record m { gas = left }) s1 j (IsQuiet-Journaled read quiet) in
    ground (arith, read, Journaled-trans read sent)

call_extended-Journaled :
    (f : Frame) (h : Handler) (op : Op) (a : CallArgs) (st : List ℕ) (m : Machine) (s : State)
    → IsJournaled h
    → IsQuiet s
    → Journaled s (call_extended f h op a st m s).1
unfolding call_extended
call_extended-Journaled f h op a st m s j quiet =
    let known = new_account_gas-Journaled op (addr_of a.to) a.value s in
    Journaled-trans known (
      call_paid-Journaled f h op a _ _ st m (new_account_gas op (addr_of a.to) a.value s).1 j
        (IsQuiet-Journaled known quiet))

pub if-Journaled :
    {A : Type 0} {s : State} (b : Bool) (p q : A × State)
    → Journaled s p.1
    → Journaled s q.1
    → Journaled s (if b then p else q).1
if-Journaled true p q jp jq = jp
if-Journaled false p q jp jq = jq

call_with-Journaled :
    (f : Frame) (h : Handler) (op : Op) (args : Option (CallArgs × List ℕ)) (m : Machine)
    (s : State)
    → IsJournaled h
    → IsQuiet s
    → Journaled s (call_with f h op args m s).1
unfolding call_with
call_with-Journaled f h op none m s j quiet = Journaled-refl s
call_with-Journaled f h op (some (a, st)) m s j quiet =
    let same = Journaled-refl s in
    let paid =
      charged-Journaled (mem_extend a.meminstart a.meminsz m) s
        (λ m1.
          charged (mem_extend a.memoutstart a.memoutsz m1) s λ m2. call_extended f h op a st m2 s)
        same
        (λ m1.
          charged-Journaled (mem_extend a.memoutstart a.memoutsz m1) s
            (λ m2. call_extended f h op a st m2 s) same
            (λ m2. call_extended-Journaled f h op a st m2 s j quiet)) in
    if-Journaled _ _ _ same paid

pub call_step-Journaled :
    (f : Frame) (h : Handler) (op : Op) (m : Machine) (s : State)
    → IsJournaled h
    → IsQuiet s
    → Journaled s (call_step f h op m s).1
unfolding call_step
call_step-Journaled f h op m s j quiet =
    call_with-Journaled f h op (call_args op m.stack) m s j quiet

pub return_step-Journaled :
    (b : Bool) (st : List ℕ) (m : Machine) (s : State) → Journaled s (return_step b st m s).1
unfolding return_step
return_step-Journaled b st m s = ground (arith, Journaled-refl s)

suicide_charge-Journaled :
    (to : Address) (xfer : ℤ) (m : Machine) (s : State) → Journaled s (suicide_charge to xfer m s).2
unfolding suicide_charge
suicide_charge-Journaled to xfer m s =
    ground (arith, Journaled-refl s, Journaled-account_exists to s)

suicided-Journaled :
    (f : Frame) (to : Address) (xfer : ℤ) {s : State} (r : Bool × Machine × State)
    → Journaled s r.2
    → Journaled s (suicided f to xfer r).1
suicided-Journaled f to xfer (false, m, s) j = j
suicided-Journaled f to xfer (true, m, s) j =
    let s1 = (get_balance to s).1 in
    let paid = set_balance to ((get_balance to s).0 +ℤ xfer) s1 in
    Journaled-trans j (
      Journaled-trans (Journaled-get_balance to s) (
        Journaled-trans (Journaled-set_balance to _ s1) (
          Journaled-trans (Journaled-set_balance f.msg.to (pos 0) paid)
            (Journaled-add_suicide f.msg.to (set_balance f.msg.to (pos 0) paid)))))

pub suicide_step-Journaled :
    (f : Frame) (st : List ℕ) (m : Machine) (s : State) → Journaled s (suicide_step f st m s).1
unfolding suicide_step
suicide_step-Journaled f [] m s = Journaled-refl s
suicide_step-Journaled f (a ∷ st) m s =
    let s1 = (get_balance f.msg.to s).1 in
    let xfer = (get_balance f.msg.to s).0 in
    let charge = suicide_charge (addr_of a) xfer m s1 in
    let read =
      Journaled-trans (Journaled-get_balance f.msg.to s)
        (suicide_charge-Journaled (addr_of a) xfer m s1) in
    ground (arith, Journaled-refl s, suicided-Journaled f (addr_of a) xfer charge read)
