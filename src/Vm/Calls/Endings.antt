-- ===== src/Vm/Calls/Endings.antt =====
-- The operations of ethereum/vm.py that log, return, revert and destroy an account.
use shopper.Prelude.{
  ℕ, ◌+◌, ◌*◌, Bool, true, false, not, ◌&&◌, ◌||◌, ltb, if◌then◌else◌, List, [], ◌∷◌, length, take,
  drop, ℤ, pos, ◌+ℤ◌, ◌-ℤ◌, ltb_ℤ,
}
use shopper.Exceptions.{index_error}
use shopper.State.{Address, State, is_anti_dos, is_spurious_dragon}
use shopper.State.Ops.{get_balance, set_balance, account_exists, add_suicide, add_log}
use shopper.Opcodes.{glogbyte, gcallnewaccount, suicide_supplemental_gas}
use shopper.Vm.{Machine, Outcome, halt, fault, vm_exception, Frame}
use shopper.Vm.Memory.{slice, mem_extend, eat_gas, charged, with_stack, addr_of}

unfoldable pub log_step : Frame → ℕ → List ℕ → Machine → State → Outcome × State
log_step f depth (mstart ∷ msz ∷ st) m s =
    if ltb (length st) depth
    then (fault index_error, s)
    else if f.msg.static
    then (vm_exception, s)
    else charged (mem_extend mstart msz (record m { gas = m.gas -ℤ pos (msz * glogbyte) })) s λ m1.
      (
        with_stack (drop depth st) m1,
        add_log
            (record {
              address = f.msg.to;
              topics = take depth st;
              bytes = slice mstart msz m1.memory;
            })
            s,
      )
log_step f depth _ m s = (fault index_error, s)

-- RETURN and REVERT end with a piece of the memory.
unfoldable pub return_step : Bool → List ℕ → Machine → State → Outcome × State
return_step success (s0 ∷ s1 ∷ st) m s =
    charged (mem_extend s0 s1 m) s
      λ m1. (halt (record { success = success; gas = m1.gas; output = slice s0 s1 m1.memory }), s)
return_step success _ m s = (fault index_error, s)

-- The account that receives the balance is looked up even where it is not paid for.
unfoldable pub suicide_charge : Address → ℤ → Machine → State → Bool × Machine × State
suicide_charge to xfer m s =
    let (exists, s1) = account_exists to s in
    let is_new = not exists && (ltb_ℤ (pos 0) xfer || not (is_spurious_dragon s1)) in
    let extra = suicide_supplemental_gas + (if is_new then gcallnewaccount else 0) in
    let (paid, m1) = eat_gas extra m in if is_anti_dos s then (paid, m1, s1) else (true, m, s)

abbrev pub suicided : Frame → Address → ℤ → Bool × Machine × State → Outcome × State
suicided f to xfer (false, m, s) = (vm_exception, s)
suicided f to xfer (true, m, s) =
    let (balance, s1) = get_balance to s in
    let s2 = set_balance f.msg.to (pos 0) (set_balance to (balance +ℤ xfer) s1) in
    (halt (record { success = true; gas = m.gas; output = [] }), add_suicide f.msg.to s2)

unfoldable pub suicide_step : Frame → List ℕ → Machine → State → Outcome × State
suicide_step f (a ∷ st) m s =
    let (xfer, s1) = get_balance f.msg.to s in
    if f.msg.static
    then (vm_exception, s)
    else suicided f (addr_of a) xfer (suicide_charge (addr_of a) xfer m s1)
suicide_step f _ m s = (fault index_error, s)
