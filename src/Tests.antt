-- ===== src/Tests.antt =====
-- Runs of the model at fixed inputs, and the theorems applied at concrete inputs.
mod Headers
mod States
mod Machines
mod Failures
mod Words
mod Tries
mod Endings
mod Blocks
mod Queues
mod Stores
mod Rounds
mod Rejections
mod Chains
