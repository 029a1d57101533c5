-- ===== src/Tests/Headers.antt =====
-- Header rules (ethereum/common.py) and compression (ethereum/compress.py) at fixed inputs.
use shopper.Prelude.{
  ℕ, ◌+◌, ◌/◌, ◌≤◌, ◌<◌, ◌^◌, ◌≡◌, refl, ◌↔◌, ◌⊎◌, true, [], ◌∷◌, arith, ◌++◌, replicate, ◌-ℤ◌,
  ◌+ℤ◌, ◌*ℤ◌,
}
use shopper.Exceptions.{ok}
use shopper.Block.{Header}
use shopper.Common.GasLimit.{check_gaslimit, calc_gaslimit, check_gaslimit_iff, calc_gaslimit_total}
use shopper.Common.Difficulty.{
  calc_difficulty, calc_difficulty_floor, calc_difficulty_antitone, difficulty_sign, adjusted,
  period_count, adjustment,
}
use shopper.Common.Validation.{validate_header, validate_child, validate_header_iff, IsChild}
use shopper.Compress.{compress, decompress, compress_from, zero_run}
use shopper.Compress.RoundTrip.{decompress-compress}
use shopper.Tests.States.{main_config, no_contracts}

abbrev parent : Header
parent = record {
  hash = 77;
  prevhash = 76;
  uncles_hash = 1;
  coinbase = 0;
  state_root = 0;
  tx_list_root = 0;
  receipts_root = 0;
  bloom = 0;
  difficulty = 2048000;
  number = 1200000;
  gas_limit = 4000000;
  gas_used = 1000000;
  timestamp = 1000;
  extra_data = [];
}

-- Homestead: 5 seconds after the parent the difficulty rises by one part in 2048; the bomb adds
-- 2 ^ 10.
difficulty_soon : calc_difficulty 1 parent 1005 main_config ≡ 2048000 + 1000 + 1024
unfolding calc_difficulty difficulty_sign adjusted period_count adjustment ◌-ℤ◌ ◌+ℤ◌ ◌*ℤ◌
difficulty_soon = refl

difficulty_late : calc_difficulty 1 parent 1035 main_config ≡ 2046000 + 1024
unfolding calc_difficulty difficulty_sign adjusted period_count adjustment ◌-ℤ◌ ◌+ℤ◌ ◌*ℤ◌
difficulty_late = refl

abbrev child : Header
child = record parent {
  hash = 78;
  prevhash = 77;
  number = 1200001;
  difficulty = 2048000 + 1000 + 1024;
  gas_limit = 4001000;
  timestamp = 1005;
}

child_accepted : validate_header 1 (parent ∷ []) 1200001 main_config child ≡ ok tt
unfolding validate_header validate_child check_gaslimit calc_difficulty difficulty_sign adjusted
    period_count adjustment ◌-ℤ◌ ◌+ℤ◌ ◌*ℤ◌
child_accepted = refl

compress_runs : compress (0xfe ∷ 0 ∷ 0 ∷ 0 ∷ 7 ∷ 0 ∷ []) ≡ 0xfe ∷ 0 ∷ 0xfe ∷ 3 ∷ 7 ∷ 0 ∷ []
unfolding compress compress_from zero_run
compress_runs = refl

check_gaslimit_iff_example : (check_gaslimit parent 4001000 main_config ≡ true) ↔ (
    (4001000 ≤ 4000000 + 4000000 / 1024) × (4000000 ≤ 4001000 + 4000000 / 1024) × (5000 ≤ 4001000))
check_gaslimit_iff_example = check_gaslimit_iff parent 4001000 main_config

calc_gaslimit_total_example :
    (gl : ℕ) × (calc_gaslimit parent main_config ≡ ok gl)
    × (check_gaslimit parent gl main_config ≡ true)
calc_gaslimit_total_example = calc_gaslimit_total no_contracts parent (omega arith) (omega arith)

calc_difficulty_floor_example : 131072 ≤ calc_difficulty 1 parent 5000 main_config
calc_difficulty_floor_example = calc_difficulty_floor 1 parent 5000 main_config

calc_difficulty_antitone_example :
    calc_difficulty 1 parent 1035 main_config ≤ calc_difficulty 1 parent 1005 main_config
calc_difficulty_antitone_example =
    calc_difficulty_antitone 1 parent 1005 1035 main_config (omega arith)

validate_header_iff_example :
    (validate_header 1 (parent ∷ []) 1200001 main_config child ≡ ok tt) ↔ (
      IsChild 1 1200001 main_config parent child
      × (4001000 < 2 ^ 63)
      × ((1200001 < 1920000) ⊎ (1920010 ≤ 1200001) ⊎ ([] ≡ main_config.dao_fork_blkextra)))
validate_header_iff_example = validate_header_iff 1 parent [] 1200001 main_config child

decompress-compress_example :
    decompress (compress (replicate 300 0 ++ 0xfe ∷ 5 ∷ [])) ≡ ok (replicate 300 0 ++ 0xfe ∷ 5 ∷ [])
decompress-compress_example = decompress-compress (replicate 300 0 ++ 0xfe ∷ 5 ∷ [])
