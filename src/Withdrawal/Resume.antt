-- ===== src/Withdrawal/Resume.antt =====
-- `continue_snapshot_batch`, `resume_signed_batch` and `resume_broadcast_batch` of
-- doge/src/commands/process_withdrawal.rs: a batch is taken up where its records stand.
--
-- The answers of the network are parameters: what the manager service and Electrs return, and
-- whether the evidence file is written, whose text is left out.
pub mod Writes
pub mod Confirms
pub mod Signed
use psy_doge_solana_cli.Common.{
  ℕ, ◌-◌, List, [], ◌∷◌, reverse, length, Bool, true, false, not, ◌&&◌, ◌||◌, ◌==◌, eqb,
  if◌then◌else◌, Option, none, some, Result, ok, err, bail_if, ok_or, map_err,
}
use psy_doge_solana_cli.Common.Effects.{Effect, then_run, ◌>>=◌, ◌>>◌, lift, read, call, pure}
use psy_doge_solana_cli.Custody.{zero_bytes}
use psy_doge_solana_cli.Wormhole.Utx0
use psy_doge_solana_cli.Wormhole.Utx0.{Utx0UnlockPayload}
use psy_doge_solana_cli.Wormhole.Tx as Transaction
use psy_doge_solana_cli.Wormhole.Tx.{UnsignedTransaction}
use psy_doge_solana_cli.Wormhole.Tx.Sighash.{double_sha256}
use psy_doge_solana_cli.Wormhole.Manager.Set.{ManagerSet, manager_set_for_index}
use psy_doge_solana_cli.Wormhole.Manager.Errors as ManagerErrors
use psy_doge_solana_cli.Wormhole.Manager.Signatures.{Secp256k1, ManagerSignatures}
use psy_doge_solana_cli.Wormhole.Manager.Local.{dogecoin}
use psy_doge_solana_cli.Withdrawal.Errors.{
  Error, store_error, payload_error, manager_error, payload_mismatch, no_raw, raw_hash_differs,
  txid_differs, statuses_drifted, no_txid, not_confirmed, no_reservation, missing_reservation,
  no_unsigned, batch_disappeared,
}
use psy_doge_solana_cli.Withdrawal.Approval.{assert_vaa_and_manager}
use psy_doge_solana_cli.Withdrawal.Signing.{apply_manager_signatures}
use psy_doge_solana_cli.Withdrawal.Confirmed.{ConfirmedWithdrawal}
use psy_doge_solana_cli.Withdrawal.Change.{
  ElectrsAnswers, fetch_confirmed_withdrawal, derive_confirmed_change,
}
use psy_doge_solana_cli.Withdrawal.Store.{
  OperatorStatus, CustodyReservationStatus, CustodyUtxo, CustodyReservation, SnapshotBatch,
  DogecoinTransaction, ProcessWithdrawal, status_eqb, reservation_status_eqb, is_text,
}
use psy_doge_solana_cli.Withdrawal.Graph.{
  OperatorStore, PersistedWithdrawalGraph, load_persisted_withdrawal_graph,
  load_complete_signed_graph, check_requests,
}
use psy_doge_solana_cli.Withdrawal.Transition.{
  broadcast_transition_started, complete_broadcast_transition, mark_batch_broadcast,
}
use psy_doge_solana_cli.Withdrawal.Prepared.{
  Packages, Args, PreparedTransaction, prepared_from_reservation,
}
use psy_doge_solana_cli.Withdrawal.Environment.{Environment, signed_by_managers}

module _ (environment : Environment) where
  -- `hash_sha256`, and the id of a transaction as it is shown.
  unfoldable pub hash_sha256 : List ℕ → List ℕ
  hash_sha256 bytes = environment.packages.sha256 bytes

  unfoldable pub txid_of : List ℕ → List ℕ
  unfolding double_sha256
  txid_of bytes = double_sha256 environment.packages.sha256 bytes

  unfoldable pub display : List ℕ → List ℕ
  display internal_txid = environment.packages.encode_hex (reverse internal_txid)

  -- The rows of a batch that has been signed.
  unfoldable pub signed_transaction : List ℕ → DogecoinTransaction
  unfolding hash_sha256 txid_of
  signed_transaction signed_bytes = record {
    raw_hash = hash_sha256 signed_bytes;
    txid = some (txid_of signed_bytes);
    raw_transaction = some signed_bytes;
    status = OperatorStatus.signed;
    block_hash = none;
    block_height = none;
    confirmations = 0;
  }

  unfoldable pub signed_process :
      SnapshotBatch → Utx0UnlockPayload → PreparedTransaction → List ℕ → ProcessWithdrawal
  unfolding hash_sha256 zero_bytes
  signed_process batch payload prepared signed_bytes = record {
    solana_signature = batch.solana_signature;
    solana_slot = batch.solana_slot;
    block_time = batch.block_time;
    request_start_index = batch.request_start_index;
    request_end_index = batch.request_end_index;
    snapshot_root = batch.snapshot_root;
    dogecoin_raw_hash = hash_sha256 signed_bytes;
    return_output_index = length payload.outputs;
    return_output_amount_sats = prepared.plan.change_sats;
    old_spent_txo_root = zero_bytes 32;
    new_spent_txo_root = zero_bytes 32;
    status = OperatorStatus.signed;
  }

  -- The row of the transaction once it is confirmed.
  unfoldable pub confirmed_transaction :
      DogecoinTransaction → ConfirmedWithdrawal → DogecoinTransaction
  confirmed_transaction transaction confirmed = record transaction {
    status = OperatorStatus.confirmed;
    block_hash = some confirmed.block_hash;
    block_height = some confirmed.block_height;
    confirmations = confirmed.confirmations;
  }

  module _ {S : Type 0} (store : OperatorStore S) where
    unfoldable pub broadcast_if_enabled :
        SnapshotBatch → List ℕ → List ℕ → Effect Error S (Unit {0})
    unfolding hash_sha256 txid_of display
    broadcast_if_enabled batch reservation_id signed_bytes =
        if environment.broadcast_enabled
        then mark_batch_broadcast store
            (environment.broadcast signed_bytes (display (txid_of signed_bytes))) batch
            reservation_id (hash_sha256 signed_bytes) (txid_of signed_bytes)
        else pure tt

    unfoldable pub resume_signed_batch :
        SnapshotBatch → PersistedWithdrawalGraph → Effect Error S (Unit {0})
    resume_signed_batch batch graph = do
      signed_bytes ← lift (ok_or graph.transaction.raw_transaction no_raw)
      lift (
          bail_if (not (eqb (hash_sha256 signed_bytes) graph.transaction.raw_hash))
            raw_hash_differs)
      lift (bail_if (not (is_text graph.transaction.txid (txid_of signed_bytes))) txid_differs)
      broadcast_if_enabled batch graph.reservation.reservation_id signed_bytes
      lift environment.write_evidence

    unfoldable pub resume_broadcast_batch :
        SnapshotBatch → Utx0UnlockPayload → Effect Error S (Unit {0})
    unfolding hash_sha256 txid_of display
    resume_broadcast_batch batch payload = do
      graph ← read (λ s. load_persisted_withdrawal_graph store s batch)
      signed_bytes ← lift (ok_or graph.transaction.raw_transaction no_raw)
      internal_txid ← lift (ok_or graph.transaction.txid no_txid)
      lift (
          bail_if
            (not (eqb (hash_sha256 signed_bytes) graph.transaction.raw_hash)
              || not (eqb (txid_of signed_bytes) internal_txid))
            raw_hash_differs)
      lift (
          bail_if
            (not (status_eqb graph.process.status OperatorStatus.broadcast)
              || (not (status_eqb graph.transaction.status OperatorStatus.broadcast)
                  || (not (
                        reservation_status_eqb graph.reservation.status
                          CustodyReservationStatus.broadcast)
                      || not (is_text graph.reservation.spend_txid internal_txid))))
            statuses_drifted)
      read (λ s.
          check_requests store s OperatorStatus.broadcast batch.request_start_index
            (batch.request_end_index - batch.request_start_index))
      found ← lift (
          fetch_confirmed_withdrawal environment.parse_block_hash environment.electrs
            (display internal_txid))
      confirmed ← lift (ok_or found not_confirmed)
      change ← lift (
          derive_confirmed_change environment.packages environment.decode_hex
            environment.compute_combined_index environment.args.doge_network batch graph
            (length payload.outputs) confirmed)
      call store_error (λ s.
          store.finalize_confirmed_snapshot s batch.solana_signature
            (confirmed_transaction graph.transaction confirmed) change)

    -- What is done with the signed transaction.
    unfoldable pub store_and_broadcast :
        SnapshotBatch
        → Utx0UnlockPayload
        → PreparedTransaction × UnsignedTransaction
        → Effect Error S (Unit {0})
    store_and_broadcast batch payload (prepared, transaction) = do
      let signed_bytes = Transaction.serialize transaction
      call store_error (λ s.
          store.persist_signed_snapshot s batch.solana_signature prepared.reservation_id
            (signed_transaction signed_bytes) (signed_process batch payload prepared signed_bytes))
      broadcast_if_enabled batch prepared.reservation_id signed_bytes
      lift environment.write_evidence

    -- The batch whose transaction is not signed yet.
    unfoldable pub sign_snapshot_batch :
        List ℕ → SnapshotBatch → Utx0UnlockPayload → Effect Error S (Unit {0})
    unfolding signed_by_managers store_and_broadcast
    sign_snapshot_batch emitter batch payload =
        read (λ s. signed_by_managers environment store s emitter batch payload)
        >>= store_and_broadcast batch payload

    -- The batch that is signed: a broadcast that has begun is completed first.
    unfoldable pub complete_and_resume :
        SnapshotBatch → Utx0UnlockPayload → PersistedWithdrawalGraph → Effect Error S (Unit {0})
    complete_and_resume batch payload graph = do
      complete_broadcast_transition store batch graph
      found ←
          read
            (λ s. map_err store_error (store.snapshot_batch_by_signature s batch.solana_signature))
      broadcast_batch ← lift (ok_or found batch_disappeared)
      resume_broadcast_batch broadcast_batch payload

    unfoldable pub resume_signed_or_started :
        SnapshotBatch → Utx0UnlockPayload → Effect Error S (Unit {0})
    unfolding complete_and_resume
    resume_signed_or_started batch payload = do
      graph ← read (λ s. load_persisted_withdrawal_graph store s batch)
      if broadcast_transition_started graph then complete_and_resume batch payload graph else (do
        signed ← read (λ s. load_complete_signed_graph store s batch)
        resume_signed_batch batch signed)

    unfoldable pub continue_snapshot_batch : List ℕ → SnapshotBatch → Effect Error S (Unit {0})
    unfolding hash_sha256
    continue_snapshot_batch emitter batch = do
      payload ← lift (map_err payload_error (Utx0.parse batch.payload))
      lift (
          bail_if
            (not (payload.destination_chain == dogecoin)
              || (not (payload.delegated_manager_set_index == environment.manager_set_index)
                  || not (eqb (hash_sha256 batch.payload) batch.payload_hash)))
            payload_mismatch)
      if status_eqb batch.status OperatorStatus.broadcast
          then resume_broadcast_batch batch payload
          else if status_eqb batch.status OperatorStatus.signed
          then resume_signed_or_started batch payload
          else sign_snapshot_batch emitter batch payload
