-- ===== src/Config.antt =====
-- The entries of `default_config` in ethereum/config.py that the modelled code reads.
mod ChildDaos
use shopper.Prelude.{ℕ, ◌*◌, ◌/◌, ◌^◌, List, [], ◌∷◌}
use shopper.Config.ChildDaos.{child_dao_addresses}

pub record Config : Type 0 where
  pub genesis_gas_limit : ℕ
  pub min_gas_limit : ℕ
  pub gaslimit_ema_factor : ℕ
  pub gaslimit_adjmax_factor : ℕ
  pub blklim_factor_nom : ℕ
  pub blklim_factor_den : ℕ
  pub network_id : ℕ
  pub block_reward : ℕ
  pub nephew_reward : ℕ
  pub byzantium_block_reward : ℕ
  pub byzantium_nephew_reward : ℕ
  pub uncle_depth_penalty_factor : ℕ
  pub max_uncle_depth : ℕ
  pub prev_header_depth : ℕ
  pub max_uncles : ℕ
  pub diff_adjustment_cutoff : ℕ
  pub block_diff_factor : ℕ
  pub min_diff : ℕ
  pub expdiff_period : ℕ
  pub expdiff_free_periods : ℕ
  pub metropolis_delay_periods : ℕ
  pub account_initial_nonce : ℕ
  pub homestead_fork_blknum : ℕ
  pub homestead_diff_adjustment_cutoff : ℕ
  pub metropolis_fork_blknum : ℕ
  pub metropolis_diff_adjustment_cutoff : ℕ
  pub constantinople_fork_blknum : ℕ
  pub dao_fork_blknum : ℕ
  pub dao_fork_blkextra : List ℕ
  pub child_dao_list : List ℕ
  pub dao_withdrawer : ℕ
  pub anti_dos_fork_blknum : ℕ
  pub spurious_dragon_fork_blknum : ℕ
  pub serenity_fork_blknum : ℕ

-- `utils.denoms.finney`
abbrev finney : ℕ
finney = 10 ^ 15

-- `default_config`, from how the addresses of contracts are made.
abbrev pub default_config : (ℕ → ℕ → ℕ) → Config
default_config mk_contract_address = record {
  genesis_gas_limit = 3141592;
  min_gas_limit = 5000;
  gaslimit_ema_factor = 1024;
  gaslimit_adjmax_factor = 1024;
  blklim_factor_nom = 3;
  blklim_factor_den = 2;
  network_id = 1;
  block_reward = 5000 * finney;
  nephew_reward = 5000 * finney / 32;
  byzantium_block_reward = 3000 * finney;
  byzantium_nephew_reward = 3000 * finney / 32;
  uncle_depth_penalty_factor = 8;
  max_uncle_depth = 6;
  prev_header_depth = 256;
  max_uncles = 2;
  diff_adjustment_cutoff = 13;
  block_diff_factor = 2048;
  min_diff = 131072;
  expdiff_period = 100000;
  expdiff_free_periods = 2;
  metropolis_delay_periods = 30;
  account_initial_nonce = 0;
  homestead_fork_blknum = 1150000;
  homestead_diff_adjustment_cutoff = 10;
  metropolis_fork_blknum = 4370000;
  metropolis_diff_adjustment_cutoff = 9;
  constantinople_fork_blknum = 2 ^ 100;
  dao_fork_blknum = 1920000;
  dao_fork_blkextra =
      0x64 ∷ 0x61 ∷ 0x6f ∷ 0x2d ∷ 0x68 ∷ 0x61 ∷ 0x72 ∷ 0x64 ∷ 0x2d ∷ 0x66 ∷ 0x6f ∷ 0x72 ∷ 0x6b ∷ [];
  child_dao_list = child_dao_addresses mk_contract_address;
  dao_withdrawer = 0xbf4ed7b27f1d666546e30d74d50d173d20bca754;
  anti_dos_fork_blknum = 2463000;
  spurious_dragon_fork_blknum = 2675000;
  serenity_fork_blknum = 2 ^ 99;
}
