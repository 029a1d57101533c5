-- ===== src/Vm/Gas.antt =====
-- Gas in ethereum/vm.py: no operation leaves more than it found.
pub mod Flow
pub mod Calls
pub mod Loop
use shopper.Prelude.{
  ℕ, zero, suc, get_or, drop, ◌+◌, ◌*◌, ◌/◌, ◌-◌, ◌≤◌, ◌<◌, ◌≡◌, refl, Bool, true, false, ltb,
  if◌then◌else◌, List, [], ◌∷◌, length, ℤ, pos, pos_part, neg_part, ◌-ℤ◌, ltb_ℤ, Option, none, some,
  arith, -ℤ_parts, +ℤ_parts, ◌==◌,
}
use shopper.Exceptions.{Exn, Result, ok, raised, out_of_fuel, index_error}
use shopper.State.{State}
use shopper.State.Ops.{get_balance, get_code, get_storage_data, get_block_hash, header_hash}
use shopper.Opcodes.{Op, gsha3word, extcodeload_supplemental_gas, balance_supplemental_gas}
use shopper.Vm.{Machine, Outcome, next, halt, fault, Reply, Frame, Externals, vm_exception}
use shopper.Vm.Memory.{
  charged, addr_of, copied, padded_slice, mem_extend, eat_gas, data_copy, memory_fee, ceil32,
}
use shopper.Vm.Env.{env_step, copy_to, copy_returned, sha3_step, surcharge, block_hash, pushed}
use shopper.Block.{Header}

abbrev pub is_out_of_fuel : Exn → Bool
is_out_of_fuel out_of_fuel = true
is_out_of_fuel _ = false

-- An exception that the source raises.
abbrev pub IsReal : Exn → Type 0
IsReal e = is_out_of_fuel e ≡ false

-- The gas that is left after an outcome, as far as it is positive, is at most `g`.
abbrev pub IsWithin : ℕ → Outcome → Type 0
IsWithin g (next m) = pos_part m.gas ≤ g
IsWithin g (halt r) = pos_part r.gas ≤ g
IsWithin g (fault e) = IsReal e

pub IsWithin-mono : (a b : ℕ) (o : Outcome) → a ≤ b → IsWithin a o → IsWithin b o
IsWithin-mono a b o le h = ground arith

pub pos_part-minus : (a : ℤ) (n : ℕ) → pos_part (a -ℤ pos n) ≤ pos_part a
pos_part-minus a n = ground (arith, -ℤ_parts a (pos n))

pub mem_extend-IsWithin :
    (start sz : ℕ) (m : Machine) → pos_part (mem_extend start sz m).1.gas ≤ pos_part m.gas
unfolding mem_extend
mem_extend-IsWithin start sz m =
    let fee = memory_fee (ceil32 (start + sz) / 32) - memory_fee (length m.memory / 32) in
    ground (arith, pos_part-minus m.gas fee)

pub eat_gas-IsWithin : (n : ℕ) (m : Machine) → pos_part (eat_gas n m).1.gas ≤ pos_part m.gas
unfolding eat_gas
eat_gas-IsWithin n m = ground (arith, pos_part-minus m.gas n)

data_copy-IsWithin : (n : ℕ) (m : Machine) → pos_part (data_copy n m).1.gas ≤ pos_part m.gas
unfolding data_copy
data_copy-IsWithin n m = eat_gas-IsWithin _ m

surcharge-IsWithin :
    (n : ℕ) (m : Machine) (s : State) → pos_part (surcharge n m s).1.gas ≤ pos_part m.gas
unfolding surcharge
surcharge-IsWithin n m s = ground (arith, eat_gas-IsWithin n m)

-- What follows a payment.
pub charged-IsWithin :
    (g : ℕ) (p : Bool × Machine) (s : State) (k : Machine → Outcome × State)
    → pos_part p.1.gas ≤ g
    → ((m : Machine) → pos_part m.gas ≤ g → IsWithin g (k m).0)
    → IsWithin g (charged p s k).0
charged-IsWithin g (true, m) s k h hk = hk m h
charged-IsWithin g (false, m) s k h hk = omega arith

copy_to-IsWithin :
    (g mstart size : ℕ) (bytes st : List ℕ) (m : Machine) (s : State)
    → pos_part m.gas ≤ g
    → IsWithin g (copy_to mstart size bytes st m s).0
unfolding copy_to
copy_to-IsWithin g mstart size bytes st m s h =
    charged-IsWithin g (mem_extend mstart size m) s _
      (omega (arith, mem_extend-IsWithin mstart size m, h))
      λ m1 h1.
        charged-IsWithin g (data_copy size m1) s _ (omega (arith, data_copy-IsWithin size m1, h1))
          λ m2 h2. h2

copy_returned-IsWithin :
    (g mstart dstart size : ℕ) (st : List ℕ) (m : Machine) (s : State)
    → pos_part m.gas ≤ g
    → IsWithin g (copy_returned mstart dstart size st m s).0
unfolding copy_returned
copy_returned-IsWithin g mstart dstart size st m s h =
    charged-IsWithin g (mem_extend mstart size m) s _
      (omega (arith, mem_extend-IsWithin mstart size m, h))
      λ m1 h1.
        charged-IsWithin g (data_copy size m1) s _ (omega (arith, data_copy-IsWithin size m1, h1))
          λ m2 h2. ground arith

pub if-IsWithin :
    (g : ℕ) (b : Bool) (p q : Outcome × State)
    → IsWithin g p.0
    → IsWithin g q.0
    → IsWithin g (if b then p else q).0
if-IsWithin g true p q hp hq = hp
if-IsWithin g false p q hp hq = hq

sha3_step-IsWithin :
    (sha3 : List ℕ → ℕ) (g s0 s1 : ℕ) (st : List ℕ) (m : Machine) (s : State)
    → pos_part m.gas ≤ g
    → IsWithin g (sha3_step sha3 s0 s1 st m s).0
unfolding sha3_step
sha3_step-IsWithin sha3 g s0 s1 st m s h =
    let cost = gsha3word * (ceil32 s1 / 32) in
    let m0 = record m { gas = m.gas -ℤ pos cost } in
    let less = pos_part-minus m.gas cost in
    if-IsWithin g (ltb_ℤ m0.gas (pos 0)) (vm_exception, s) _ (omega arith)
      (charged-IsWithin g (mem_extend s0 s1 m0) s _
        (omega (arith, mem_extend-IsWithin s0 s1 m0, less, h)) λ m1 h1. h1)

-- A result that is there, or an exception of the source.
abbrev pub IsAnswer : {A : Type 0} → Result A → Type 0
IsAnswer (ok a) = Unit
IsAnswer (raised e) = IsReal e

header_hash-IsAnswer : (n : ℕ) (hs : List Header) → IsAnswer (header_hash n hs)
unfolding header_hash
header_hash-IsAnswer n [] = refl
header_hash-IsAnswer zero (h ∷ hs) = tt
header_hash-IsAnswer (suc n) (h ∷ hs) = header_hash-IsAnswer n hs

block_hash-IsAnswer : (n : ℕ) (s : State) → IsAnswer (block_hash n s)
unfolding block_hash get_block_hash
block_hash-IsAnswer n s =
    ground (arith, header_hash-IsAnswer (s.block_number - n - 1) s.prev_headers)

pushed-IsWithin :
    (r : Result ℕ) (st : List ℕ) (m : Machine)
    → IsAnswer r
    → IsWithin (pos_part m.gas) (pushed r st m)
pushed-IsWithin (ok v) st m h = omega arith
pushed-IsWithin (raised e) st m h = h

pub env_step-IsWithin :
    (x : Externals) (f : Frame) (op : Op) (st : List ℕ) (m : Machine) (s : State)
    → IsWithin (pos_part m.gas) (env_step x f op st m s).0
unfolding env_step
env_step-IsWithin x f op st m s =
    let g = pos_part m.gas in
    let a = get_or st 0 0 in
    let b = get_or st 1 0 in
    let n = get_or st 2 0 in
    let priced = surcharge extcodeload_supplemental_gas m s in
    let code = get_code (addr_of a) s in
    let extra = surcharge-IsWithin extcodeload_supplemental_gas m s in
    let balance_extra = surcharge-IsWithin balance_supplemental_gas m s in
    let hashed = sha3_step-IsWithin x.sha3 g a b (drop 2 st) m s (omega arith) in
    let input = copy_to-IsWithin g a n (copied b n f.msg.call_data) (drop 3 st) m s (omega arith) in
    let own = copy_to-IsWithin g a n (padded_slice b n f.code) (drop 3 st) m s (omega arith) in
    let returned = copy_returned-IsWithin g a b n (drop 3 st) m s (omega arith) in
    let size = get_or st 3 0 in
    let hash = pushed-IsWithin (block_hash a s) (drop 1 st) m (block_hash-IsAnswer a s) in
    let ext =
      copy_to-IsWithin g b size (padded_slice n size code.0) (drop 4 st) priced.1 code.1
        (omega (arith, extra)) in
    ground arith
