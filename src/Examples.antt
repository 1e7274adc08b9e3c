-- ===== src/Examples.antt =====
-- The theorems at concrete inputs: payloads, scripts, transactions, manager sets, and batches.
pub mod Given
pub mod Payloads
pub mod Scripts
pub mod Transactions
pub mod Managers
pub mod Relay
pub mod Batches
pub mod Trees
pub mod Confirmations
pub mod Spent
pub mod Memory
pub mod Stores
pub mod Prepared
pub mod Networks
pub mod Changes
pub mod Resumed
pub mod Daemons
pub mod Amounts
pub mod Relays
pub mod Signings
