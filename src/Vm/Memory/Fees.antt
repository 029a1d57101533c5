-- ===== src/Vm/Memory/Fees.antt =====
-- What the memory of ethereum/vm.py costs as it grows.
use native.Mathlib.Nat.{mul-le-mul_left, mul-le-mul_right}
use shopper.Prelude.{
  ℕ, ◌+◌, ◌-◌, ◌*◌, ◌/◌, ◌%◌, ◌≤◌, ◌≡◌, refl, ◌⊎◌, inl, inr, true, length, length-append,
  length-replicate, replicate, pos, ◌+ℤ◌, ◌-ℤ◌, arith, eq_of_parts, -ℤ_parts, +ℤ_parts, ◌++◌,
}
use shopper.Vm.{Machine}
use shopper.Vm.Memory.{ceil32, memory_fee, mem_extend}

ceil32_laws : (x : ℕ) → (ceil32 x % 32 ≡ 0) × (x ≤ ceil32 x)
unfolding ceil32
ceil32_laws x = ground arith

square_mono : (a b : ℕ) → a ≤ b → a * a ≤ b * b
square_mono a b h = omega (arith, mul-le-mul_left a h, mul-le-mul_right b h)

memory_fee_mono : (a b : ℕ) → a ≤ b → memory_fee a ≤ memory_fee b
unfolding memory_fee
memory_fee_mono a b h = omega (arith, square_mono a b h)

-- The machine whose memory is extended to `c` bytes.
abbrev extended : ℕ → Machine → Machine
extended c m = record m {
  gas = m.gas -ℤ pos (memory_fee (c / 32) - memory_fee (length m.memory / 32));
  memory = m.memory ++ replicate ((c / 32 - length m.memory / 32) * 32) 0;
}

extended-length :
    (c : ℕ) (m : Machine)
    → length m.memory % 32 ≡ 0
    → c % 32 ≡ 0
    → length m.memory ≤ c
    → length (extended c m).memory ≡ c
extended-length c m h hc le =
    let n = (c / 32 - length m.memory / 32) * 32 in
    omega (arith, length-append m.memory (replicate n 0), length-replicate {A = ℕ} n 0)

extended-gas :
    (c : ℕ) (m : Machine)
    → length m.memory ≤ c
    → (extended c m).gas +ℤ pos (memory_fee (c / 32))
      ≡ m.gas +ℤ pos (memory_fee (length m.memory / 32))
extended-gas c m le =
    let mono = memory_fee_mono (length m.memory / 32) (c / 32) (omega arith) in
    let d = memory_fee (c / 32) - memory_fee (length m.memory / 32) in
    eq_of_parts _ _ (
      omega (
        arith,
        mono,
        -ℤ_parts m.gas (pos d),
        +ℤ_parts (m.gas -ℤ pos d) (pos (memory_fee (c / 32))),
        +ℤ_parts m.gas (pos (memory_fee (length m.memory / 32))),
      ))

mem_extend-cases :
    (start sz : ℕ) (m m1 : Machine)
    → mem_extend start sz m ≡ (true, m1)
    → ((m1 ≡ m) × ((sz ≡ 0) ⊎ (start + sz ≤ length m.memory)))
      ⊎ ((m1 ≡ extended (ceil32 (start + sz)) m) × (length m.memory ≤ start + sz))
unfolding mem_extend
mem_extend-cases start sz m m1 h = ground arith

-- Memory that is a number of words stays so when it is extended. It then covers the range asked
-- for, and the gas that is left together with the price of the whole memory is what it was: the
-- prices of successive extensions add up to the price of the final size.
pub mem_extend_paid :
    (start sz : ℕ) (m m1 : Machine)
    → length m.memory % 32 ≡ 0
    → mem_extend start sz m ≡ (true, m1)
    → (length m1.memory % 32 ≡ 0)
      × ((sz ≡ 0) ⊎ (start + sz ≤ length m1.memory))
      × (m1.gas +ℤ pos (memory_fee (length m1.memory / 32))
          ≡ m.gas +ℤ pos (memory_fee (length m.memory / 32)))
mem_extend_paid start sz m m1 words h = elim (mem_extend-cases start sz m m1 h) [
  | inl (e, covers) ↦ simp e (words, covers, refl)
  | inr (e, le) ↦
      let c = ceil32 (start + sz) in
      let (cw, cle) = ceil32_laws (start + sz) in
      let size = extended-length c m words cw (omega arith) in
      let cost = extended-gas c m (omega arith) in simp (e, size) (cw, inr cle, cost)
]
