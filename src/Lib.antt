-- ===== src/Lib.antt =====
-- The operator of the Dogecoin bridge: its withdrawal path, from the requests on Solana to a
-- Dogecoin transaction that the managers have signed.
--
-- The operator plans an output for each request (Withdrawal/Batch, Withdrawal/Plan), writes the
-- outputs as a UTX0 payload that a Wormhole message carries (Wormhole/Utx0), and builds the unsigned
-- transaction that pays them from custody inputs (Wormhole/Tx), each locked by a redeem script
-- (Wormhole/Redeem). The managers sign each input; in a local network the service of
-- Wormhole/Manager/Local does. The operator accepts the signed message and the managers' response
-- (Withdrawal/Approval), verifies and applies the signatures (Withdrawal/Signing). After a restart
-- it recovers the transaction from the bytes that it has kept (Wormhole/Tx/Persisted,
-- Withdrawal/Prepared), loads the records of the withdrawal that belong together (Withdrawal/Graph),
-- and completes a broadcast that was interrupted (Withdrawal/Transition). Once the transaction is
-- confirmed, its change becomes a custody output (Withdrawal/Change); a batch is taken up where its
-- records stand (Withdrawal/Resume), each time that the daemon polls (Withdrawal/Daemon). The network
-- profile says which services may be used (Network). The operator proves which custody outputs a confirmed transaction has spent by Merkle proofs (Custody); the local
-- tools commit to the spent outputs by a hash (Withdrawal/Spent).
--
-- Files and the code that they model:
--   Common             Rust's tests, results, lists, texts and byte orders, and effects on a store
--   Network            doge/src/network.rs
--   Wormhole/Utx0      doge/src/wormhole/utx0.rs
--   Wormhole/Redeem    doge/src/wormhole/redeem.rs
--   Wormhole/Tx        doge/src/wormhole/tx.rs: construction, wire format (Wire), durable bytes
--                      (Reader, Persisted), signature hashes (Sighash)
--   Wormhole/Manager   doge/src/wormhole/manager.rs: manager sets (Set), messages (Vaa), signatures
--                      (Signatures), the local service (Local)
--   Withdrawal         doge/src/commands/process_withdrawal.rs, doge/src/commands/operator_daemon.rs
--                      and doge/src/lib.rs: Signing, Approval, Batch, Plan, Confirmed,
--                      Spent, Prepared, the rows of the operator's store (Store), what is
--                      read from it (Graph) and what changes it (Transition), the change
--                      of a confirmed withdrawal (Change), the resumption of a batch
--                      (Resume, from what stands in Environment), the broadcast (Relay),
--                      the polling daemon (Daemon), decimal amounts (Amount)
--   Custody            doge/src/custody_ops.rs: the branch of a transaction (Branch), the spent
--                      outputs (Sequence), the requests (Fixed)
--   Examples           the theorems at concrete inputs
--
-- Functions keep the names of the source; a method that a module declares is named after it, so
-- that `Utx0UnlockPayload::parse` is `parse` of Wormhole/Utx0 and `ManagerSet::parse` that of
-- Wormhole/Manager/Set. An `anyhow` error is a constructor of the component's `Error`, in place of
-- its message. `&mut self` goes in and comes out; on an error the caller has no state, as the
-- source's callers drop theirs; the operator's store, which
-- keeps what was written before an error, is an `Effect` (Common/Effects). `usize` and `u64` have 64 bits: `checked_add` and `checked_mul` say
-- where a sum or a product does not fit. Numbers of a fixed width and arrays of a fixed length are
-- numbers and lists, and the theorems state the widths and lengths that the types of the source
-- give. Loops over slices are recursions on lists; the loops over a number's bytes
-- (Wormhole/Redeem) run on a count of 16, the bytes of a `u128`, which each round shifts by one,
-- and the loop over the levels of a block (Custody) on its number of transactions, which each round
-- halves.
--
-- The operator's store is a package: a record of its operations (Withdrawal/Graph), and, where a
-- theorem needs them, the laws that a write that succeeds changes its rows and one that fails changes
-- nothing (`Works` of Withdrawal/Transition/Rows), or that it loads a reservation under its own id and
-- has the transaction of a snapshot that it has stored (`Stores` of Withdrawal/Resume/Signed), which a
-- store in memory has (Examples/Memory, Examples/Signings).
--
-- Parameters: SHA-256, RIPEMD-160, Base58 with its checksum, hexadecimal text, the reading of
-- hexadecimal text, of a URL and of an IP address, Keccak-256, the secp256k1 operations, the text of a message's key, the
-- reading of a block hash, and the hash and the index layout of the custody trees are
-- arguments of the definitions that use them, since they are packages. Of RIPEMD-160 the
-- length of 20 bytes is assumed where a theorem says so, of the reading of addresses that it gives
-- bytes and words, and nothing of the others.
--
-- Of Electrs it is assumed, where a theorem says so (`Serves` of Withdrawal/Relay/Twice), that a GET
-- changes nothing and shows what is known, and that what is posted with success is known.
--
-- Not modelled: the JSON and HTTP packages, the RPC calls, the
-- official testnet manager set (hexadecimal text that a package decodes), the Solana command-line
-- tools in cli/ and the scripts in tools/.
pub mod Common
pub mod Network
pub mod Wormhole
pub mod Withdrawal
pub mod Custody
pub mod Examples
