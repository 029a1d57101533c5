-- ===== src/Trie/Compact.antt =====
-- The compact form of keys in ethereum/trie.py comes back.
use shopper.Prelude.{
  ℕ, zero, suc, ◌*◌, ◌%◌, ◌<◌, ◌≡◌, refl, ap, true, false, ◌==◌, if◌then◌else◌, [], ◌∷◌, ◌++◌,
  length, All, arith, Bool-cases, inl, inr,
}
use shopper.Trie.{Nibbles}
use shopper.Trie.Nibbles.{
  nibble_terminator, bin_to_nibbles, pair_up, is_terminated, all_but_last, pack_flagged,
  pack_nibbles, drop_flags, unpack_to_nibbles,
}

bin_to_nibbles-pair_up :
    (ns : Nibbles) → All (λ x. x < 16) ns → length ns % 2 ≡ 0 → bin_to_nibbles (pair_up ns) ≡ ns
unfolding bin_to_nibbles pair_up
bin_to_nibbles-pair_up [] h e = refl
bin_to_nibbles-pair_up (x ∷ []) h e = ground arith
bin_to_nibbles-pair_up (x ∷ y ∷ ns) h e =
    let rest = bin_to_nibbles-pair_up ns h.1.1 (omega arith) in
    let hx = h.0 in let hy = h.1.0 in ground arith

-- The flags come off with what they say of the length.
unpack-flagged :
    (terminated : ℕ) (ns : Nibbles)
    → terminated < 2
    → All (λ x. x < 16) ns
    → unpack_to_nibbles (pack_flagged (2 * terminated) ns)
      ≡ (if terminated == 1 then ns ++ nibble_terminator ∷ [] else ns)
unfolding unpack_to_nibbles pack_flagged drop_flags bin_to_nibbles
unpack-flagged zero ns lt h = elim (Bool-cases (length ns % 2 == 1)) [
  | inl e ↦ rw (e, bin_to_nibbles-pair_up (1 ∷ ns) (omega arith, h) (ground arith)) refl
  | inr e ↦ rw (e, bin_to_nibbles-pair_up ns h (ground arith)) refl
]
unpack-flagged (suc zero) ns lt h = elim (Bool-cases (length ns % 2 == 1)) [
  | inl e ↦ rw (e, bin_to_nibbles-pair_up (3 ∷ ns) (omega arith, h) (ground arith)) refl
  | inr e ↦ rw (e, bin_to_nibbles-pair_up ns h (ground arith)) refl
]
unpack-flagged (suc (suc n)) ns lt h = ground arith

is_terminated-nibbles : (ns : Nibbles) → All (λ x. x < 16) ns → is_terminated ns ≡ false
unfolding is_terminated
is_terminated-nibbles [] h = refl
is_terminated-nibbles (x ∷ []) h = let lt = h.0 in ground arith
is_terminated-nibbles (x ∷ y ∷ ns) h = is_terminated-nibbles (y ∷ ns) h.1

is_terminated-append : (ns : Nibbles) → is_terminated (ns ++ nibble_terminator ∷ []) ≡ true
unfolding is_terminated
is_terminated-append [] = refl
is_terminated-append (x ∷ []) = refl
is_terminated-append (x ∷ y ∷ ns) = is_terminated-append (y ∷ ns)

all_but_last-append : (ns : Nibbles) → all_but_last (ns ++ nibble_terminator ∷ []) ≡ ns
unfolding all_but_last
all_but_last-append [] = refl
all_but_last-append (x ∷ []) = refl
all_but_last-append (x ∷ y ∷ ns) = ap (λ l. x ∷ l) (all_but_last-append (y ∷ ns))

-- A key of nibbles comes back from its compact form, with its terminator if it had one.
pub unpack_to_nibbles-pack_nibbles :
    (ns : Nibbles)
    → All (λ x. x < 16) ns
    → (unpack_to_nibbles (pack_nibbles ns) ≡ ns)
      × (unpack_to_nibbles (pack_nibbles (ns ++ nibble_terminator ∷ []))
          ≡ ns ++ nibble_terminator ∷ [])
unfolding pack_nibbles
unpack_to_nibbles-pack_nibbles ns h = (
  rw (is_terminated-nibbles ns h) (unpack-flagged 0 ns (omega arith) h),
  rw (is_terminated-append ns, all_but_last-append ns) (unpack-flagged 1 ns (omega arith) h),
)
