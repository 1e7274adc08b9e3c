-- ===== src/Withdrawal.antt =====
-- The decisions of the operator's withdrawals: doge/src/commands/process_withdrawal.rs,
-- doge/src/commands/operator_daemon.rs and the planning of doge/src/lib.rs.
pub mod Errors
pub mod Store
pub mod Prepared
pub mod Graph
pub mod Transition
pub mod Change
pub mod Environment
pub mod Resume
pub mod Relay
pub mod Daemon
pub mod Amount
pub mod Signing
pub mod Approval
pub mod Batch
pub mod Plan
pub mod Spent
pub mod Confirmed
