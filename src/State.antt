-- ===== src/State.antt =====
-- Accounts, transactions and receipts, and what src/state does with them.
pub mod Types
pub mod Codec
pub mod Accounts
pub mod Messages
pub mod Validator
pub mod Executor
pub mod Machine
pub mod Mempool
pub mod Governance
pub mod Tests
