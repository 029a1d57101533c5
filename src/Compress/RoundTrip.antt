-- ===== src/Compress/RoundTrip.antt =====
-- Decompression undoes compression.
use shopper.Prelude.{
  ℕ, zero, suc, ◌+◌, ◌-◌, ◌≤◌, ◌≡◌, refl, ◌≢◌, ap, ◌∙◌, inl, inr, true, ◌&&◌, arith, ltb, ◌==◌,
  List, [], ◌∷◌, ◌++◌, length, take, drop, replicate, list_eq, list_eq_iff, ==_iff, subst,
  Bool-cases, take-append-drop, length-drop,
}
use shopper.Exceptions.{ok}
use shopper.Compress.{nullsha3, zero_run, two_zeros, compress_from, compress, expansion, decompress}

-- The escape for `n` stands for its expansion.
decompress-escape :
    (n : ℕ) (rest out : List ℕ)
    → decompress rest ≡ ok out
    → decompress (0xfe ∷ n ∷ rest) ≡ ok (expansion n ++ out)
unfolding decompress
decompress-escape n rest out h = rw h

decompress-plain :
    (b : ℕ) (rest out : List ℕ)
    → b ≢ 0xfe
    → decompress rest ≡ ok out
    → decompress (b ∷ rest) ≡ ok (b ∷ out)
unfolding decompress
decompress-plain b [] out ne h = ground arith
decompress-plain b (n ∷ rest) out ne h = ground arith

-- Besides the `p` zeros counted already, `zero_run` counts `q` zeros that the data begins with,
-- and stops at 255 in all.
zero_run_lem :
    (p : ℕ) (bytes : List ℕ)
    → p ≤ 255
    → (q : ℕ) × (zero_run p bytes ≡ p + q) × (p + q ≤ 255) × (replicate q 0 ++ drop q bytes ≡ bytes)
unfolding zero_run
zero_run_lem p [] h = (0, omega arith, omega arith, refl)
zero_run_lem p (b ∷ bytes) h = elim (Bool-cases (ltb p 255 && b == 0)) [
  | inl more ↦
      let (q, counted, small, zeros) = zero_run_lem (p + 1) bytes (ground arith) in
      let zero_byte : b ≡ 0 = ground arith in
      (suc q, rw more (omega (arith, counted)), omega arith, cc (zeros, zero_byte))
  | inr done ↦ (0, rw done (omega arith), omega arith, refl)
]

-- After two zeros the run and what follows it make up the data.
zeros_split : (bytes : List ℕ) → two_zeros bytes ≡ true → (rest : List ℕ) × (bytes ≡ 0 ∷ 0 ∷ rest)
zeros_split [] h = cc
zeros_split (b ∷ []) h = ground arith
zeros_split (b ∷ c ∷ rest) h = (rest, ground arith)

expansion_zeros : (n : ℕ) → 2 ≤ n → expansion n ≡ replicate n 0
unfolding expansion
expansion_zeros n h = ground arith

hash_split :
    (bytes : List ℕ) → list_eq (take 32 bytes) nullsha3 ≡ true → nullsha3 ++ drop 32 bytes ≡ bytes
hash_split bytes h =
    let front : take 32 bytes ≡ nullsha3 = (list_eq_iff (take 32 bytes) nullsha3).0 h in
    subst (λ l. l ++ drop 32 bytes ≡ bytes) front (take-append-drop 32 bytes)

decompress-marker :
    (b : ℕ) (rest out : List ℕ)
    → b ≡ 0xfe
    → decompress out ≡ ok rest
    → decompress (0xfe ∷ 0 ∷ out) ≡ ok (b ∷ rest)
unfolding decompress expansion
decompress-marker b rest out e h = rw (h, e)

decompress-hash :
    (b : ℕ) (rest out : List ℕ)
    → list_eq (take 32 (b ∷ rest)) nullsha3 ≡ true
    → decompress out ≡ ok (drop 31 rest)
    → decompress (0xfe ∷ 1 ∷ out) ≡ ok (b ∷ rest)
unfolding expansion
decompress-hash b rest out e h =
    decompress-escape 1 out (drop 31 rest) h ∙ ap ok (hash_split (b ∷ rest) e)

-- The output for a run of zeros, from the output for what follows the run.
decompress-zeros :
    (b : ℕ) (rest out : List ℕ)
    → two_zeros (b ∷ rest) ≡ true
    → decompress out ≡ ok (drop (zero_run 2 (drop 1 rest) - 1) rest)
    → decompress (0xfe ∷ zero_run 2 (drop 1 rest) ∷ out) ≡ ok (b ∷ rest)
decompress-zeros b [] out h ih = ground arith
decompress-zeros b (c ∷ rest) out h ih =
    let p = zero_run 2 rest in
    let (q, counted, _, zeros) = zero_run_lem 2 rest (omega arith) in
    let two_more : p ≡ suc (suc q) = omega (arith, counted) in
    let one_more : p - 1 ≡ suc q = omega arith in
    let left : drop (p - 1) (c ∷ rest) ≡ drop q rest = ap (λ (k : ℕ). drop k (c ∷ rest)) one_more in
    let run : ◌≡◌ {A = List ℕ} (replicate p 0) (0 ∷ 0 ∷ replicate q 0) =
      ap (λ (k : ℕ). replicate {A = ℕ} k 0) two_more in
    let leading : b ∷ c ∷ rest ≡ 0 ∷ 0 ∷ rest = ground arith in
    cc (
      decompress-escape p out (drop q rest) (ih ∙ ap ok left),
      expansion_zeros p (omega (arith, counted)),
      run,
      zeros,
      leading,
    )

decompress-compress_from :
    (fuel : ℕ) (bytes : List ℕ)
    → length bytes ≤ fuel
    → decompress (compress_from fuel bytes) ≡ ok bytes
unfolding compress_from
decompress-compress_from zero [] h = unfold decompress in refl
decompress-compress_from zero (b ∷ rest) h = absurd (omega arith)
decompress-compress_from (suc fuel) [] h = unfold decompress in refl
decompress-compress_from (suc fuel) (b ∷ rest) h = elim (Bool-cases (b == 0xfe)) [
  | inl marker ↦ rw marker (
      decompress-marker b rest (compress_from fuel rest) ((==_iff b 0xfe).0 marker)
        (decompress-compress_from fuel rest (omega arith)))
  | inr plain ↦ rw plain (elim (Bool-cases (list_eq (take 32 (b ∷ rest)) nullsha3)) [
    | inl hash ↦ rw hash (
        decompress-hash b rest (compress_from fuel (drop 31 rest)) hash
          (decompress-compress_from fuel (drop 31 rest) (omega (arith, length-drop {0} 31 rest))))
    | inr other ↦ rw other (elim (Bool-cases (two_zeros (b ∷ rest))) [
      | inl zeros ↦
          let after = drop (zero_run 2 (drop 1 rest) - 1) rest in
          rw zeros (
            decompress-zeros b rest (compress_from fuel after) zeros (
              decompress-compress_from fuel after
                (omega (arith, length-drop {0} (zero_run 2 (drop 1 rest) - 1) rest))))
      | inr single ↦ rw single (
          decompress-plain b (compress_from fuel rest) rest (ground arith)
            (decompress-compress_from fuel rest (omega arith)))
    ])
  ])
]

-- Every byte string comes back from its compression.
pub decompress-compress : (bytes : List ℕ) → decompress (compress bytes) ≡ ok bytes
unfolding compress
decompress-compress bytes = decompress-compress_from (length bytes) bytes (omega arith)
