-- ===== src/Vm/Memory.antt =====
-- Gas, memory and call data of ethereum/vm.py, and the conversions of ethereum/utils.py that the
-- machine uses. A byte string is the list of its bytes.
pub mod Fees
use shopper.Prelude.{
  ℕ, zero, suc, ◌+◌, ◌-◌, ◌*◌, ◌/◌, ◌%◌, ◌^◌, min, Bool, true, false, ◌&&◌, ltb, leb, ◌==◌,
  if◌then◌else◌, List, [], ◌∷◌, ◌++◌, length, take, drop, replicate, get_or, ℤ, pos, ◌-ℤ◌, ltb_ℤ,
  floor_div, sub_ℕ,
}
use shopper.Opcodes.{gmemory, gquadraticmemdenom, gcopy}
use shopper.State.{Address, State}
use shopper.Vm.{CallData, Machine, Outcome, next, vm_exception}

abbrev pub tt256 : ℕ
tt256 = 2 ^ 256

abbrev pub tt255 : ℕ
tt255 = 2 ^ 255

-- `utils.to_signed`
unfoldable pub to_signed : ℕ → ℤ
to_signed i = if ltb i tt255 then pos i else sub_ℕ i tt256

-- `utils.ceil32`
unfoldable pub ceil32 : ℕ → ℕ
ceil32 x = if x % 32 == 0 then x else x + 32 - x % 32

-- `utils.bytes_to_int`, `big_endian_to_int`, `bytearray_to_int`
unfoldable pub bytes_to_int_from : ℕ → List ℕ → ℕ
bytes_to_int_from acc [] = acc
bytes_to_int_from acc (b ∷ bs) = bytes_to_int_from (acc * 256 + b) bs

unfoldable pub bytes_to_int : List ℕ → ℕ
unfolding bytes_to_int_from
bytes_to_int bs = bytes_to_int_from 0 bs

-- `v.to_bytes(n, 'big')`, for a `v` below `256 ^ n`
unfoldable pub to_bytes : ℕ → ℕ → List ℕ
to_bytes zero v = []
to_bytes (suc n) v = v / 256 ^ n % 256 ∷ to_bytes n v

-- `utils.encode_int32`
unfoldable pub encode_int32 : ℕ → List ℕ
unfolding to_bytes
encode_int32 v = to_bytes 32 v

-- `bytes[start: start + size]`
abbrev pub slice : ℕ → ℕ → List ℕ → List ℕ
slice start size bytes = take size (drop start bytes)

-- `mem[start: start + len(bytes)] = bytes`, within the memory
unfoldable pub write_at : ℕ → List ℕ → List ℕ → List ℕ
write_at start bytes mem = take start mem ++ bytes ++ drop (start + length bytes) mem

-- The `size` bytes from `start` on, with zeros past the end.
unfoldable pub padded_slice : ℕ → ℕ → List ℕ → List ℕ
padded_slice start zero bytes = []
padded_slice start (suc size) bytes = get_or bytes start 0 ∷ padded_slice (start + 1) size bytes

-- `CallData.extract_all`
unfoldable pub extract_all : CallData → List ℕ
extract_all c = let d = slice c.offset c.size c.bytes in d ++ replicate (c.size - length d) 0

-- `CallData.extract32`; `rlimit` is `offset + size`
unfoldable pub extract32 : ℕ → CallData → ℕ
unfolding bytes_to_int
extract32 i c =
    let start = c.offset + i in
    let stop = min (start + 32) (c.offset + c.size) in
    let o = slice start (stop - start) c.bytes in
    if leb c.size i then 0 else bytes_to_int (o ++ replicate (32 - length o) 0)

-- The bytes that `CallData.extract_copy` writes from `memstart` on.
unfoldable pub copied : ℕ → ℕ → CallData → List ℕ
copied datastart zero c = []
copied datastart (suc size) c =
    (if ltb datastart c.size then get_or c.bytes (c.offset + datastart) 0 else 0)
    ∷ copied (datastart + 1) size c

-- The total fee for a memory of so many words.
unfoldable pub memory_fee : ℕ → ℕ
memory_fee size = size * gmemory + size * size / gquadraticmemdenom

-- `mem_extend`: whether the extension was paid for, and the machine after it.
unfoldable pub mem_extend : ℕ → ℕ → Machine → Bool × Machine
unfolding ceil32 memory_fee
mem_extend start sz m =
    let oldsize = length m.memory / 32 in
    let newsize = ceil32 (start + sz) / 32 in
    let memfee = memory_fee newsize - memory_fee oldsize in
    let extension = replicate ((newsize - oldsize) * 32) 0 in
    if ltb 0 sz && ltb (length m.memory) (start + sz)
    then (if ltb_ℤ m.gas (pos memfee)
        then (false, record m { gas = pos 0 })
        else (true, record m { gas = m.gas -ℤ pos memfee; memory = m.memory ++ extension }))
    else (true, m)

unfoldable pub eat_gas : ℕ → Machine → Bool × Machine
eat_gas amount m =
    if ltb_ℤ m.gas (pos amount)
    then (false, record m { gas = pos 0 })
    else (true, record m { gas = m.gas -ℤ pos amount })

-- `data_copy`
unfoldable pub data_copy : ℕ → Machine → Bool × Machine
unfolding eat_gas ceil32
data_copy size m = eat_gas (gcopy * ceil32 size / 32) m

unfoldable pub all_but_1n : ℤ → ℕ → ℤ
all_but_1n x n = x -ℤ floor_div x n

-- `if not <paid>: return vm_exception(...)`, with what follows.
abbrev pub charged : Bool × Machine → State → (Machine → Outcome × State) → Outcome × State
charged (true, m) s k = k m
charged (false, m) s k = (vm_exception, s)

-- The execution goes on with another stack.
abbrev pub with_stack : List ℕ → Machine → Outcome
with_stack st m = next (record m { stack = st })

-- `int_to_addr`, and `coerce_addr_to_hex` of a number modulo `2 ** 160`
abbrev pub addr_of : ℕ → Address
addr_of x = x % 2 ^ 160
