-- ===== src/Common.antt =====
-- ethereum/common.py: the rules that tie a block header to its parent's.
pub mod GasLimit
pub mod Difficulty
pub mod Validation
