-- ===== src/Vm/Code.antt =====
-- `preprocess_code` of ethereum/vm.py: the jump destinations and the pushed values of a piece of
-- code. The bit mask of destinations is the list of the bits that are set.
pub mod Boundaries
use shopper.Prelude.{
  ℕ, zero, suc, ◌+◌, ◌-◌, Bool, false, not, ◌&&◌, ◌||◌, leb, ◌==◌, if◌then◌else◌, List, [], ◌∷◌,
  length, get_or,
}
use shopper.Dict.{Dict, insert}
use shopper.Vm.Memory.{bytes_to_int, padded_slice}

-- How far the loop moves on from a byte of code.
unfoldable pub width : ℕ → ℕ
width codebyte = if leb 0x60 codebyte && leb codebyte 0x7f then codebyte - 0x5e else 1

-- The loop on `i`: each round moves on by one byte at least, so the length is fuel enough.
unfoldable pub scan_jumpdests : ℕ → ℕ → List ℕ → List ℕ
unfolding width
scan_jumpdests zero i code = []
scan_jumpdests (suc fuel) i code =
    let codebyte = get_or code i 0 in
    let rest = scan_jumpdests fuel (i + width codebyte) code in
    if leb (length code) i then [] else if codebyte == 0x5b then i ∷ rest else rest

-- The same loop, for `pushcache`. The code is read as if zeros followed it.
unfoldable pub scan_pushes : ℕ → ℕ → List ℕ → Dict ℕ
unfolding width padded_slice bytes_to_int
scan_pushes zero i code = []
scan_pushes (suc fuel) i code =
    let codebyte = get_or code i 0 in
    let value = bytes_to_int (padded_slice (i + 1) (codebyte - 0x5f) code) in
    let rest = scan_pushes fuel (i + width codebyte) code in
    if leb (length code) i
    then []
    else if leb 0x60 codebyte && leb codebyte 0x7f
    then insert i value rest
    else rest

unfoldable pub jumpdests : List ℕ → List ℕ
unfolding scan_jumpdests
jumpdests code = scan_jumpdests (length code) 0 code

unfoldable pub pushcache : List ℕ → Dict ℕ
unfolding scan_pushes
pushcache code = scan_pushes (length code) 0 code

-- `(1 << pc) & jumpdest_mask`
unfoldable pub contains : ℕ → List ℕ → Bool
contains a [] = false
contains a (x ∷ xs) = a == x || contains a xs

-- A destination within the code that the mask holds.
unfoldable pub is_jumpdest : ℕ → List ℕ → Bool
unfolding contains jumpdests
is_jumpdest pc code = not (leb (length code) pc) && contains pc (jumpdests code)
