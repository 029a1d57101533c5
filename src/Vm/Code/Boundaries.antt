-- ===== src/Vm/Code/Boundaries.antt =====
-- What `preprocess_code` of ethereum/vm.py finds, against the walk from instruction to instruction.
use shopper.Prelude.{
  ℕ, zero, suc, ◌+◌, ◌≤◌, ◌<◌, ◌≡◌, sym, subst, ap, ◌∙◌, ◌-◌, ◌⊎◌, inl, inr, ◌↔◌, true, List,
  length, get_or, arith,
}
use shopper.Vm.Code.{width, scan_jumpdests, jumpdests, contains, is_jumpdest}

-- Reading the code from the first position on, an instruction starts at the second. PUSH1 to
-- PUSH32, the bytes 0x60 to 0x7f, carry as many bytes as they are numbered; any other instruction
-- is one byte.
pub data StartsFrom (code : List ℕ) : ℕ → ℕ → Type 0 where
  first : {i : ℕ} → StartsFrom code i i
  after_push :
      {i pc n : ℕ}
      → get_or code i 0 ≡ 0x5f + n
      → 1 ≤ n
      → n ≤ 32
      → StartsFrom code (i + 1 + n) pc
      → StartsFrom code i pc
  after_byte :
      {i pc : ℕ}
      → (get_or code i 0 < 0x60) ⊎ (0x7f < get_or code i 0)
      → StartsFrom code (i + 1) pc
      → StartsFrom code i pc

-- The loop moves on to where the next instruction starts.
StartsFrom-width :
    {code : List ℕ} {pc : ℕ} (i : ℕ)
    → StartsFrom code (i + width (get_or code i 0)) pc
    → StartsFrom code i pc
unfolding width
StartsFrom-width {code} {pc} i r =
    let b = get_or code i 0 in
    let kind : ((0x60 ≤ b) × (b ≤ 0x7f)) ⊎ ((b < 0x60) ⊎ (0x7f < b)) = omega arith in
    elim kind [
      | inl (low, high) ↦
          after_push {n = b - 0x5f} (omega arith) (omega arith) (omega arith)
            (subst (λ p. StartsFrom code p pc) (ground arith) r)
      | inr other ↦ after_byte other (subst (λ p. StartsFrom code p pc) (ground arith) r)
    ]

width-push : (b n : ℕ) → b ≡ 0x5f + n → 1 ≤ n → n ≤ 32 → width b ≡ 1 + n
unfolding width
width-push b n e low high = ground arith

width-byte : (b : ℕ) → (b < 0x60) ⊎ (0x7f < b) → width b ≡ 1
unfolding width
width-byte b h = ground arith

StartsFrom-le : {code : List ℕ} {i pc : ℕ} → StartsFrom code i pc → i ≤ pc
StartsFrom-le first = omega arith
StartsFrom-le (after_push e low high r) = omega (arith, StartsFrom-le r)
StartsFrom-le (after_byte other r) = omega (arith, StartsFrom-le r)

-- A destination: an instruction within the code with the byte of JUMPDEST.
abbrev IsDestFrom : List ℕ → ℕ → ℕ → Type 0
IsDestFrom code i pc = (pc < length code) × (get_or code pc 0 ≡ 0x5b) × StartsFrom code i pc

scan-contains :
    (fuel i : ℕ) (code : List ℕ) (pc : ℕ)
    → contains pc (scan_jumpdests fuel i code) ≡ true
    → IsDestFrom code i pc
unfolding scan_jumpdests contains
scan-contains zero i code pc h = ground arith
scan-contains (suc fuel) i code pc h =
    let rest = scan_jumpdests fuel (i + width (get_or code i 0)) code in
    let found = scan-contains fuel (i + width (get_or code i 0)) code pc in
    let split : ((i < length code) × (get_or code i 0 ≡ 0x5b) × (pc ≡ i))
        ⊎ (contains pc rest ≡ true) =
      ground arith in
    elim split [
      | inl (lt, byte, e) ↦ subst (IsDestFrom code i) (sym e) (lt, byte, first)
      | inr r ↦ (let (lt, byte, starts) = found r in (lt, byte, StartsFrom-width i starts))
    ]

contains-scan :
    (fuel i : ℕ) (code : List ℕ) (pc : ℕ)
    → length code ≤ i + fuel
    → pc < length code
    → get_or code pc 0 ≡ 0x5b
    → StartsFrom code i pc
    → contains pc (scan_jumpdests fuel i code) ≡ true
unfolding scan_jumpdests contains
contains-scan zero i code pc enough lt byte starts = let le = StartsFrom-le starts in ground arith
contains-scan (suc fuel) i code pc enough lt byte first = ground arith
contains-scan (suc fuel) i code pc enough lt byte (after_push {n = n} e low high starts) =
    let wide = width-push (get_or code i 0) n e low high in
    let le = StartsFrom-le starts in
    let at : i + width (get_or code i 0) ≡ i + 1 + n = omega arith in
    let rest = contains-scan fuel (i + 1 + n) code pc (omega arith) lt byte starts in
    let there : contains pc (scan_jumpdests fuel (i + width (get_or code i 0)) code) ≡ true =
      ap (λ p. contains pc (scan_jumpdests fuel p code)) at ∙ rest in
    ground arith
contains-scan (suc fuel) i code pc enough lt byte (after_byte other starts) =
    let wide = width-byte (get_or code i 0) other in
    let le = StartsFrom-le starts in
    let rest = contains-scan fuel (i + 1) code pc (omega arith) lt byte starts in
    let there : contains pc (scan_jumpdests fuel (i + width (get_or code i 0)) code) ≡ true =
      ap (λ w. contains pc (scan_jumpdests fuel (i + w) code)) wide ∙ rest in
    ground arith

-- A jump is allowed exactly to a JUMPDEST byte within the code at which an instruction starts when
-- the code is read from its first byte on, where the n bytes that PUSHn carries are passed over.
pub is_jumpdest_iff :
    (pc : ℕ) (code : List ℕ)
    → (is_jumpdest pc code ≡ true)
      ↔ ((pc < length code) × (get_or code pc 0 ≡ 0x5b) × StartsFrom code 0 pc)
unfolding is_jumpdest jumpdests
is_jumpdest_iff pc code = (
  (λ h. scan-contains (length code) 0 code pc (ground arith)),
  (λ (lt, byte, starts).
      let found = contains-scan (length code) 0 code pc (omega arith) lt byte starts in
      ground arith),
)
