-- ===== src/Consensus.antt =====
-- Blocks, votes, certificates and validators, and what src/consensus does with them.
pub mod Types
pub mod Codec
pub mod ValidatorSet
pub mod Votes
pub mod Certificate
pub mod Registry
pub mod Genesis
pub mod Engine
pub mod Slashing
pub mod Checkpoint
pub mod LightClient
pub mod BlockValidator
pub mod Tests
