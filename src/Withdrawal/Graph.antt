-- ===== src/Withdrawal/Graph.antt =====
-- The records of a withdrawal in the operator's store: `load_persisted_withdrawal_graph` and
-- `load_complete_signed_graph` of doge/src/commands/process_withdrawal.rs.
--
-- The store is the doge_bridge_client package's, and a parameter: its states and its operations.
pub mod Tested
pub mod Linked
pub mod Statuses
use psy_doge_solana_cli.Common.{
  ℕ, zero, suc, ◌+◌, ◌-◌, List, [], ◌∷◌, Bool, true, false, not, ◌&&◌, ◌||◌, ◌==◌, eqb, length,
  if◌then◌else◌, Option, none, some, Result, ok, err, bail_if, ok_or, map_err, checked_sub, ◌>>=◌,
  ◌>>◌,
}
use psy_doge_solana_cli.Wormhole.Tx.{is_empty}
use psy_doge_solana_cli.Withdrawal.Errors.{
  Error, store_error, no_reservation, missing_reservation, no_process, process_drifted,
  no_transaction, raw_hash_drifted, no_txid, range_underflow, mappings_drifted, links_drifted,
  not_signed, statuses_drifted, missing_request, request_drifted,
}
use psy_doge_solana_cli.Withdrawal.Store.{
  OperatorStatus, CustodyReservationStatus, CustodyUtxoStatus, status_eqb, reservation_status_eqb,
  utxo_status_eqb, CustodyUtxo, CustodyReservation, SnapshotBatch, DogecoinTransaction,
  ProcessWithdrawal, WithdrawalRequest, Mapping, is_text, is_number, has_text,
}

-- The operations of the store that are called here. An operation that changes the store returns
-- its next state, also when it fails; an error is a text.
pub record OperatorStore (S : Type 0) : Type 0 where
  pub load_reservation : S → List ℕ → Result (List ℕ) (Option CustodyReservation)
  pub process_withdrawal_by_signature : S → List ℕ → Result (List ℕ) (Option ProcessWithdrawal)
  pub dogecoin_transaction_by_process_signature :
      S → List ℕ → Result (List ℕ) (Option DogecoinTransaction)
  pub mappings_by_process_signature : S → List ℕ → Result (List ℕ) (List Mapping)
  pub withdrawal_request_by_index : S → ℕ → Result (List ℕ) (Option WithdrawalRequest)
  pub mark_reservation_broadcast : S → List ℕ → List ℕ → S × Result (List ℕ) (Unit {0})
  pub release_reservation : S → List ℕ → S × Result (List ℕ) (Unit {0})
  pub set_dogecoin_transaction_status_by_raw_hash :
      S → List ℕ → OperatorStatus → S × Result (List ℕ) (Unit {0})
  pub set_process_withdrawal_status : S → List ℕ → OperatorStatus → S × Result (List ℕ) (Unit {0})
  pub set_withdrawal_request_status : S → ℕ → OperatorStatus → S × Result (List ℕ) (Unit {0})
  pub set_snapshot_batch_status : S → List ℕ → OperatorStatus → S × Result (List ℕ) (Unit {0})
  pub upsert_withdrawal_request : S → WithdrawalRequest → S × Result (List ℕ) (Unit {0})
  pub snapshot_batch_by_signature : S → List ℕ → Result (List ℕ) (Option SnapshotBatch)
  pub persist_signed_snapshot :
      S → List ℕ → List ℕ → DogecoinTransaction → ProcessWithdrawal → S × Result (List ℕ) (Unit {0})
  pub finalize_confirmed_snapshot :
      S → List ℕ → DogecoinTransaction → Option CustodyUtxo → S × Result (List ℕ) (Unit {0})

pub record PersistedWithdrawalGraph : Type 0 where
  pub transaction : DogecoinTransaction
  pub process : ProcessWithdrawal
  pub reservation : CustodyReservation

-- `iter().any(test)`
unfoldable pub any {ℓ} : {A : Type ℓ} → (A → Bool) → List A → Bool
any test [] = false
any test (x ∷ xs) = test x || any test xs

unfoldable pub same_batch : ProcessWithdrawal → SnapshotBatch → Bool
same_batch process batch =
    eqb process.solana_signature batch.solana_signature
    && (process.request_start_index == batch.request_start_index
        && (process.request_end_index == batch.request_end_index
            && eqb process.snapshot_root batch.snapshot_root))

-- `mappings.iter().enumerate().any(..)`, from number `offset` on.
unfoldable pub any_mapping_drifted : SnapshotBatch → List ℕ → ℕ → List Mapping → Bool
any_mapping_drifted batch internal_txid offset [] = false
any_mapping_drifted batch internal_txid offset (mapping ∷ mappings) =
    (not (mapping.request_index == batch.request_start_index + offset)
      || (not (eqb mapping.process_solana_signature batch.solana_signature)
          || not (eqb mapping.dogecoin_txid internal_txid)))
    || any_mapping_drifted batch internal_txid (offset + 1) mappings

unfoldable pub utxo_drifted : SnapshotBatch → List ℕ → CustodyUtxo → Bool
utxo_drifted batch reservation_id utxo =
    not (is_text utxo.reservation_id reservation_id)
    || (not (is_number utxo.spend_request_index batch.request_start_index)
        || not (is_text utxo.spend_process_signature batch.solana_signature))

unfoldable pub reservation_drifted : SnapshotBatch → List ℕ → CustodyReservation → Bool
unfolding any utxo_drifted
reservation_drifted batch reservation_id reservation =
    is_empty reservation.utxos
    || (not (is_number reservation.request_index batch.request_start_index)
        || (not (is_text reservation.process_solana_signature batch.solana_signature)
            || any (utxo_drifted batch reservation_id) reservation.utxos))

module _ {S : Type 0} (store : OperatorStore S) where
  -- The parts of `load_persisted_withdrawal_graph`.
  unfoldable pub find_reservation : S → SnapshotBatch → Result Error (List ℕ × CustodyReservation)
  find_reservation s batch = do
    reservation_id ← ok_or batch.reservation_id no_reservation
    found ← map_err store_error (store.load_reservation s reservation_id)
    reservation ← ok_or found missing_reservation
    ok (reservation_id, reservation)

  unfoldable pub find_process : S → SnapshotBatch → Result Error ProcessWithdrawal
  find_process s batch = do
    found ← map_err store_error (store.process_withdrawal_by_signature s batch.solana_signature)
    process ← ok_or found no_process
    bail_if (not (same_batch process batch)) process_drifted
    ok process

  unfoldable pub find_transaction :
      S → SnapshotBatch → ProcessWithdrawal → Result Error (DogecoinTransaction × List ℕ)
  find_transaction s batch process = do
    found ←
        map_err store_error
          (store.dogecoin_transaction_by_process_signature s batch.solana_signature)
    transaction ← ok_or found no_transaction
    bail_if (not (eqb transaction.raw_hash process.dogecoin_raw_hash)) raw_hash_drifted
    internal_txid ← ok_or transaction.txid no_txid
    ok (transaction, internal_txid)

  unfoldable pub check_mappings : S → SnapshotBatch → List ℕ → Result Error (Unit {0})
  check_mappings s batch internal_txid = do
    mappings ← map_err store_error (store.mappings_by_process_signature s batch.solana_signature)
    expected_mapping_count ←
        ok_or (checked_sub batch.request_end_index batch.request_start_index) range_underflow
    bail_if
        (not (length mappings == expected_mapping_count)
          || any_mapping_drifted batch internal_txid 0 mappings)
        mappings_drifted

  unfoldable pub load_persisted_withdrawal_graph :
      S → SnapshotBatch → Result Error PersistedWithdrawalGraph
  load_persisted_withdrawal_graph s batch = do
    (reservation_id, reservation) ← find_reservation s batch
    process ← find_process s batch
    (transaction, internal_txid) ← find_transaction s batch process
    check_mappings s batch internal_txid
    bail_if (reservation_drifted batch reservation_id reservation) links_drifted
    ok (record { transaction = transaction; process = process; reservation = reservation })

  -- The loop over the requests, `count` of them from `request_index` on.
  unfoldable pub check_requests : S → OperatorStatus → ℕ → ℕ → Result Error (Unit {0})
  check_requests s status request_index zero = ok tt
  check_requests s status request_index (suc count) = do
    found ← map_err store_error (store.withdrawal_request_by_index s request_index)
    request ← ok_or found (missing_request request_index)
    bail_if (not (status_eqb request.status status)) (request_drifted request_index)
    check_requests s status (request_index + 1) count

  unfoldable pub load_complete_signed_graph :
      S → SnapshotBatch → Result Error PersistedWithdrawalGraph
  unfolding any
  load_complete_signed_graph s batch = do
    bail_if (not (status_eqb batch.status OperatorStatus.signed)) not_signed
    graph ← load_persisted_withdrawal_graph s batch
    bail_if
        (not (status_eqb graph.transaction.status OperatorStatus.signed)
          || (not (status_eqb graph.process.status OperatorStatus.signed)
              || (not (
                    reservation_status_eqb graph.reservation.status
                      CustodyReservationStatus.reserved)
                  || (has_text graph.reservation.spend_txid
                      || any
                          (λ utxo.
                            not (utxo_status_eqb utxo.status CustodyUtxoStatus.reserved)
                            || has_text utxo.spend_txid)
                          graph.reservation.utxos))))
        statuses_drifted
    check_requests s OperatorStatus.signed batch.request_start_index
        (batch.request_end_index - batch.request_start_index)
    ok graph
