-- ===== src/Trie/Nibbles.antt =====
-- The keys of ethereum/trie.py: bytes, nibbles, and the compact form with its flags.
use shopper.Prelude.{
  drop, get_or, leb, ◌&&◌, ℕ, ◌+◌, ◌*◌, ◌/◌, ◌%◌, Bool, true, false, ◌==◌, if◌then◌else◌, List, [],
  ◌∷◌, ◌++◌, length,
}
use shopper.Exceptions.{Result, ok, raised, value_error}
use shopper.Trie.{Nibbles}

abbrev pub nibble_terminator : ℕ
nibble_terminator = 16

-- `bin_to_nibbles`
unfoldable pub bin_to_nibbles : List ℕ → Nibbles
bin_to_nibbles [] = []
bin_to_nibbles (b ∷ bs) = (b / 16) ∷ (b % 16) ∷ bin_to_nibbles bs

-- The bytes of pairs of nibbles.
unfoldable pub pair_up : Nibbles → List ℕ
pair_up (x ∷ y ∷ ns) = (16 * x + y) ∷ pair_up ns
pair_up _ = []

abbrev all_nibbles : Nibbles → Bool
all_nibbles [] = true
all_nibbles (x ∷ ns) = leb x 15 && all_nibbles ns

-- `nibbles_to_bin`
unfoldable pub nibbles_to_bin : Nibbles → Result (List ℕ)
unfolding pair_up
nibbles_to_bin ns =
    if all_nibbles ns
    then (if length ns % 2 == 0 then ok (pair_up ns) else raised value_error)
    else raised value_error

-- Whether the last nibble is the terminator.
unfoldable pub is_terminated : Nibbles → Bool
is_terminated [] = false
is_terminated (x ∷ []) = x == nibble_terminator
is_terminated (x ∷ y ∷ ns) = is_terminated (y ∷ ns)

unfoldable pub with_terminator : Nibbles → Nibbles
unfolding is_terminated
with_terminator ns = if is_terminated ns then ns else ns ++ nibble_terminator ∷ []

-- `nibbles[:-1]`
unfoldable pub all_but_last : Nibbles → Nibbles
all_but_last [] = []
all_but_last (x ∷ []) = []
all_but_last (x ∷ y ∷ ns) = x ∷ all_but_last (y ∷ ns)

unfoldable pub without_terminator : Nibbles → Nibbles
unfolding is_terminated all_but_last
without_terminator ns = if is_terminated ns then all_but_last ns else ns

unfoldable pub adapt_terminator : Nibbles → Bool → Nibbles
unfolding with_terminator without_terminator
adapt_terminator ns has_terminator =
    if has_terminator then with_terminator ns else without_terminator ns

-- The nibbles without a terminator, behind the flags: 2 for a terminator, 1 for an odd length.
unfoldable pub pack_flagged : ℕ → Nibbles → List ℕ
unfolding pair_up
pack_flagged flags ns =
    if length ns % 2 == 1 then pair_up ((flags + 1) ∷ ns) else pair_up (flags ∷ 0 ∷ ns)

unfoldable pub pack_nibbles : Nibbles → List ℕ
pack_nibbles ns = if is_terminated ns then pack_flagged 2 (all_but_last ns) else pack_flagged 0 ns

-- The flags come first; without them and their padding, the nibbles are left.
unfoldable pub drop_flags : ℕ → Nibbles → Nibbles
drop_flags flags ns = if flags % 2 == 1 then drop 1 ns else drop 2 ns

unfoldable pub unpack_to_nibbles : List ℕ → Nibbles
unpack_to_nibbles bindata =
    let o = bin_to_nibbles bindata in
    let flags = get_or o 0 0 in
    if flags / 2 % 2 == 1
    then drop_flags flags (o ++ nibble_terminator ∷ [])
    else drop_flags flags o
