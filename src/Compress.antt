-- ===== src/Compress.antt =====
-- ethereum/compress.py: run-length compression of byte strings. A byte string is the list of its
-- bytes, and the index `i` into the data is the rest of the data from `i` on.
pub mod RoundTrip
use shopper.Prelude.{
  ℕ, zero, suc, ◌+◌, ◌-◌, Bool, true, false, ◌&&◌, ltb, ◌==◌, if◌then◌else◌, List, [], ◌∷◌, ◌++◌,
  length, take, drop, replicate, list_eq,
}
use shopper.Exceptions.{Result, ok, raised, invalid_encoding, ◌>>=◌}

-- The hash of the empty string.
abbrev pub nullsha3 : List ℕ
nullsha3 =
    0xc5 ∷ 0xd2 ∷ 0x46 ∷ 0x01 ∷ 0x86 ∷ 0xf7 ∷ 0x23 ∷ 0x3c ∷ 0x92 ∷ 0x7e ∷ 0x7d ∷ 0xb2 ∷ 0xdc ∷ 0xc7
    ∷ 0x03 ∷ 0xc0 ∷ 0xe5 ∷ 0x00 ∷ 0xb6 ∷ 0x53 ∷ 0xca ∷ 0x82 ∷ 0x27 ∷ 0x3b ∷ 0x7b ∷ 0xfa ∷ 0xd8
    ∷ 0x04 ∷ 0x5d ∷ 0x85 ∷ 0xa4 ∷ 0x70 ∷ []

-- The loop on `p`: the number of further zeros at the front of the data, of which `p` are counted
-- already, up to 255 in all.
unfoldable pub zero_run : ℕ → List ℕ → ℕ
zero_run p [] = p
zero_run p (b ∷ data') =
    let longer = zero_run (p + 1) data' in if ltb p 255 && b == 0 then longer else p

-- `data[i:i + 2] == b'\x00\x00'`
abbrev pub two_zeros : List ℕ → Bool
two_zeros bytes = list_eq (take 2 bytes) (0 ∷ 0 ∷ [])

-- The loop of `compress` takes at least one byte a round, so the length is fuel enough.
unfoldable pub compress_from : ℕ → List ℕ → List ℕ
compress_from zero bytes = []
compress_from (suc fuel) [] = []
compress_from (suc fuel) (b ∷ rest) =
    let after_marker = compress_from fuel rest in
    let after_hash = compress_from fuel (drop 31 rest) in
    let p = zero_run 2 (drop 1 rest) in
    let after_zeros = compress_from fuel (drop (p - 1) rest) in
    if b == 0xfe
    then 0xfe ∷ 0 ∷ after_marker
    else if list_eq (take 32 (b ∷ rest)) nullsha3
    then 0xfe ∷ 1 ∷ after_hash
    else if two_zeros (b ∷ rest)
    then 0xfe ∷ p ∷ after_zeros
    else b ∷ after_marker

unfoldable pub compress : List ℕ → List ℕ
compress bytes = compress_from (length bytes) bytes

-- What the byte after the marker stands for.
unfoldable pub expansion : ℕ → List ℕ
expansion n = if n == 0 then 0xfe ∷ [] else if n == 1 then nullsha3 else replicate n 0

unfoldable pub decompress : List ℕ → Result (List ℕ)
decompress [] = ok []
decompress (b ∷ []) = if b == 0xfe then raised invalid_encoding else ok (b ∷ [])
decompress (b ∷ n ∷ rest) =
    let escaped = decompress rest in
    let plain = decompress (n ∷ rest) in
    if b == 0xfe then (do o ← escaped; ok (expansion n ++ o)) else (do o ← plain; ok (b ∷ o))
