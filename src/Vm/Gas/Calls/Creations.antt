-- ===== src/Vm/Gas/Calls/Creations.antt =====
-- Gas in ethereum/vm.py: creations, where the handlers of nested messages are frugal.
use shopper.Prelude.{
  ℕ, suc, ◌+◌, ◌≤◌, ◌<◌, ◌≡◌, refl, Bool, true, false, ◌&&◌, ltb, leb_ℤ, if◌then◌else◌, List, [],
  ◌∷◌, ℤ, pos, negsuc, pos_part, ◌-ℤ◌, ◌+ℤ◌, arith, -ℤ_parts, +ℤ_parts, Bool-cases, inl, inr,
}
use shopper.Exceptions.{Result, ok, raised}
use shopper.State.{State, is_anti_dos}
use shopper.State.Ops.{get_balance}
use shopper.Opcodes.{call_child_limit_denom}
use shopper.Vm.{Message, Machine, Reply, Frame, Handler, vm_exception}
use shopper.Vm.Memory.{mem_extend, all_but_1n}
use shopper.Vm.Calls.{max_depth, create_paid, create_step, created, create_message, after_create}
use shopper.Vm.Gas.{
  IsReal, IsWithin, mem_extend-IsWithin, charged-IsWithin, if-IsWithin, IsWithin-mono,
}

-- A result of a nested message that has `g` to spend.
abbrev pub IsSettled : ℕ → Result Reply → Type 0
IsSettled g (ok r) = pos_part r.gas ≤ g
IsSettled g (raised e) = IsReal e

-- A handler settles every message that is within the depth it goes down to and within `g`.
abbrev pub IsFrugal : ℕ → ℕ → Handler → Type 0
IsFrugal depth g h =
    (msg : Message) (s : State)
    → msg.depth ≤ max_depth
    → max_depth < msg.depth + depth
    → pos_part msg.gas ≤ g
    → IsSettled (pos_part msg.gas) (h msg s).0

pub all_but_1n-parts :
    (x r : ℤ)
    → pos_part r ≤ pos_part (all_but_1n x 64)
    → (pos_part (all_but_1n x 64) ≤ pos_part x)
      × (pos_part ((x -ℤ all_but_1n x 64) +ℤ r) ≤ pos_part x)
unfolding all_but_1n ◌-ℤ◌ ◌+ℤ◌
all_but_1n-parts (pos n) r h = (ground arith, ground arith)
all_but_1n-parts (negsuc n) r h = (ground arith, ground arith)

pub created-IsWithin :
    (r : Reply) (ingas : ℤ) (st : List ℕ) (m : Machine) (g : ℕ)
    → pos_part ((m.gas -ℤ ingas) +ℤ r.gas) ≤ g
    → IsWithin g (created r ingas st m)
unfolding created
created-IsWithin r ingas st m g h = ground arith

-- The gas that a message takes, whole or all but a part, and what comes back of it.
pub after_create-IsWithin :
    (b : Bool) (r : Result Reply × State) (st : List ℕ) (m : Machine)
    → let ingas = if b then all_but_1n m.gas call_child_limit_denom else m.gas in
      IsSettled (pos_part ingas) r.0 → IsWithin (pos_part m.gas) (after_create r ingas st m).0
after_create-IsWithin true (ok r, s) st m h =
    created-IsWithin r _ st m _ (all_but_1n-parts m.gas r.gas h).1
after_create-IsWithin false (ok r, s) st m h =
    created-IsWithin r m.gas st m _
      (ground (arith, +ℤ_parts (m.gas -ℤ m.gas) r.gas, -ℤ_parts m.gas m.gas))
after_create-IsWithin b (raised e, s) st m h = h

pub create_gas :
    (b : Bool) (x : ℤ)
    → pos_part (if b then all_but_1n x call_child_limit_denom else x) ≤ pos_part x
create_gas true x = (all_but_1n-parts x (pos 0) (omega arith)).0
create_gas false x = omega arith

pub create_paid-IsWithin :
    (depth g : ℕ) (f : Frame) (h : Handler) (value mstart msz : ℕ) (st : List ℕ) (m : Machine)
    (s : State)
    → IsFrugal depth g h
    → max_depth < f.msg.depth + suc depth
    → pos_part m.gas ≤ g
    → IsWithin (pos_part m.gas) (create_paid f h value mstart msz st m s).0
unfolding create_paid create_message
create_paid-IsWithin depth g f h value mstart msz st m s frugal deep le =
    let read = get_balance f.msg.to s in
    let ingas = if is_anti_dos read.1 then all_but_1n m.gas call_child_limit_denom else m.gas in
    let msg = create_message f value mstart msz ingas m in
    if-IsWithin _ f.msg.static (vm_exception, s) _ (omega arith)
      (elim (Bool-cases (leb_ℤ (pos value) read.0 && ltb f.msg.depth max_depth)) [
        | inl e ↦ rw e (
            after_create-IsWithin (is_anti_dos read.1) (h msg read.1) st m (
              frugal msg read.1 (below e) (omega arith)
                (omega (arith, create_gas (is_anti_dos read.1) m.gas))))
        | inr e ↦ rw e (omega arith)
      ])
  where
    below :
        leb_ℤ (pos value) (get_balance f.msg.to s).0 && ltb f.msg.depth max_depth ≡ true
        → f.msg.depth + 1 ≤ max_depth
    below e = ground arith

pub create_step-IsWithin :
    (depth g : ℕ) (f : Frame) (h : Handler) (st : List ℕ) (m : Machine) (s : State)
    → IsFrugal depth g h
    → max_depth < f.msg.depth + suc depth
    → pos_part m.gas ≤ g
    → IsWithin (pos_part m.gas) (create_step f h st m s).0
unfolding create_step
create_step-IsWithin depth g f h [] m s frugal deep le = refl
create_step-IsWithin depth g f h (a ∷ []) m s frugal deep le = refl
create_step-IsWithin depth g f h (a ∷ b ∷ []) m s frugal deep le = refl
create_step-IsWithin depth g f h (value ∷ mstart ∷ msz ∷ st) m s frugal deep le =
    charged-IsWithin _ (mem_extend mstart msz m) s _ (mem_extend-IsWithin mstart msz m) λ m1 h1.
      IsWithin-mono _ _ (create_paid f h value mstart msz st m1 s).0 h1
        (create_paid-IsWithin depth g f h value mstart msz st m1 s frugal deep (omega arith))
