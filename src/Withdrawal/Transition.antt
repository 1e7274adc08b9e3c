-- ===== src/Withdrawal/Transition.antt =====
-- What changes the operator's store: `complete_broadcast_transition`, `mark_batch_broadcast`,
-- `apply_observed_terminal_effect` and `record_requests` of
-- doge/src/commands/process_withdrawal.rs.
pub mod Rows
pub mod Unstarted
pub mod Applies
pub mod Broadcasts
pub mod Refines
pub mod Recovers
use psy_doge_solana_cli.Common.{
  ℕ, zero, suc, ◌+◌, ◌-◌, List, [], ◌∷◌, Bool, true, false, not, ◌&&◌, ◌||◌, ◌==◌, eqb,
  if◌then◌else◌, Option, none, some, Result, ok, err, map_err, ok_or, bail_if, checked_sub, map_ok,
}
use psy_doge_solana_cli.Common.Int.{ℤ, pos, negsuc}
use psy_doge_solana_cli.Common.Effects.{Effect, then_run, ◌>>=◌, ◌>>◌, lift, read, call, pure}
use psy_doge_solana_cli.Withdrawal.Errors.{
  Error, store_error, no_txid, bad_reservation_status, graph_differs, batch_failed,
  ambiguous_status, net_exceeds_gross, request_differs,
}
use psy_doge_solana_cli.Withdrawal.Batch.{
  IndexedRequest, ObservedBatchAction, await_confirmation, resend_original, fail, wait,
}
use psy_doge_solana_cli.Withdrawal.Store.{
  OperatorStatus, CustodyReservationStatus, CustodyUtxoStatus, status_eqb, reservation_status_eqb,
  utxo_status_eqb, CustodyReservation, SnapshotBatch, WithdrawalRequest, is_text,
}
use psy_doge_solana_cli.Withdrawal.Graph.{
  OperatorStore, PersistedWithdrawalGraph, any, load_persisted_withdrawal_graph,
}

unfoldable pub broadcast_transition_started : PersistedWithdrawalGraph → Bool
unfolding any
broadcast_transition_started graph =
    reservation_status_eqb graph.reservation.status CustodyReservationStatus.broadcast
    || (status_eqb graph.transaction.status OperatorStatus.broadcast
        || (status_eqb graph.process.status OperatorStatus.broadcast
            || any (λ utxo. utxo_status_eqb utxo.status CustodyUtxoStatus.broadcast)
                graph.reservation.utxos))

-- `comparable != stored`, of rows.
unfoldable pub time_eqb : Option ℤ → Option ℤ → Bool
time_eqb none none = true
time_eqb (some (pos a)) (some (pos b)) = a == b
time_eqb (some (negsuc a)) (some (negsuc b)) = a == b
time_eqb _ _ = false

unfoldable pub request_eqb : WithdrawalRequest → WithdrawalRequest → Bool
unfolding time_eqb
request_eqb a b =
    a.request_index == b.request_index
    && (eqb a.solana_signature b.solana_signature
        && (a.solana_slot == b.solana_slot
            && (time_eqb a.block_time b.block_time
                && (eqb a.user_pubkey b.user_pubkey
                    && (a.gross_amount_sats == b.gross_amount_sats
                        && (a.fee_amount_sats == b.fee_amount_sats
                            && (a.net_amount_sats == b.net_amount_sats
                                && (a.address_type == b.address_type
                                    && (eqb a.recipient b.recipient
                                        && status_eqb a.status b.status)))))))))

module _ {S : Type 0} (store : OperatorStore S) where
  -- The `match` on the reservation's status.
  unfoldable pub mark_reservation :
      CustodyReservation → CustodyReservationStatus → List ℕ → Effect Error S (Unit {0})
  mark_reservation reservation CustodyReservationStatus.reserved internal_txid =
      call store_error
        (λ s. store.mark_reservation_broadcast s reservation.reservation_id internal_txid)
  mark_reservation reservation CustodyReservationStatus.broadcast internal_txid =
      lift (bail_if (not (is_text reservation.spend_txid internal_txid)) bad_reservation_status)
  mark_reservation reservation _ internal_txid = lift (err bad_reservation_status)

  -- The loop over the requests, `count` of them from `request_index` on.
  unfoldable pub set_requests : OperatorStatus → ℕ → ℕ → Effect Error S (Unit {0})
  set_requests status zero request_index = pure tt
  set_requests status (suc count) request_index = do
    call store_error (λ s. store.set_withdrawal_request_status s request_index status)
    set_requests status count (request_index + 1)

  unfoldable pub complete_broadcast_transition :
      SnapshotBatch → PersistedWithdrawalGraph → Effect Error S (Unit {0})
  complete_broadcast_transition batch graph = do
    internal_txid ← lift (ok_or graph.transaction.txid no_txid)
    mark_reservation graph.reservation graph.reservation.status internal_txid
    call store_error (λ s.
        store.set_dogecoin_transaction_status_by_raw_hash s graph.transaction.raw_hash
          OperatorStatus.broadcast)
    call store_error
        (λ s. store.set_process_withdrawal_status s batch.solana_signature OperatorStatus.broadcast)
    set_requests OperatorStatus.broadcast (batch.request_end_index - batch.request_start_index)
        batch.request_start_index
    call store_error
        (λ s. store.set_snapshot_batch_status s batch.solana_signature OperatorStatus.broadcast)

  -- `sent` is what `broadcast_electrs_idempotent` returns, which does not touch the store.
  unfoldable pub mark_batch_broadcast :
      Result Error (Unit {0}) → SnapshotBatch → List ℕ → List ℕ → List ℕ → Effect Error S (Unit {0})
  mark_batch_broadcast sent batch reservation_id raw_hash internal_txid = do
    lift sent
    graph ← read (λ s. load_persisted_withdrawal_graph store s batch)
    lift (
        bail_if
          (not (eqb graph.reservation.reservation_id reservation_id)
            || (not (eqb graph.transaction.raw_hash raw_hash)
                || not (is_text graph.transaction.txid internal_txid)))
          graph_differs)
    complete_broadcast_transition batch graph

  -- The release of the reservation of a batch that has failed, if it is still held.
  unfoldable pub release_found : List ℕ → Option CustodyReservation → Effect Error S (Unit {0})
  release_found reservation_id none = pure tt
  release_found reservation_id (some reservation) =
      if reservation_status_eqb reservation.status CustodyReservationStatus.reserved
      then call store_error (λ s. store.release_reservation s reservation_id)
      else pure tt

  unfoldable pub release_if_reserved : Option (List ℕ) → Effect Error S (Unit {0})
  release_if_reserved none = pure tt
  release_if_reserved (some reservation_id) = do
    found ← read (λ s. map_err store_error (store.load_reservation s reservation_id))
    release_found reservation_id found

  unfoldable pub apply_observed_terminal_effect :
      SnapshotBatch → ObservedBatchAction → Effect Error S (Unit {0})
  apply_observed_terminal_effect batch fail = do
    release_if_reserved batch.reservation_id
    call store_error
        (λ s. store.set_snapshot_batch_status s batch.solana_signature OperatorStatus.failed)
    lift (err batch_failed)
  apply_observed_terminal_effect batch wait = lift (err ambiguous_status)
  apply_observed_terminal_effect batch await_confirmation = pure tt
  apply_observed_terminal_effect batch resend_original = pure tt

  -- The row of a request, and the row that is written in place of one that is there.
  unfoldable pub stored_request : IndexedRequest → Result Error WithdrawalRequest
  stored_request request =
      map_ok
        (λ fee_sats. record {
          request_index = request.index;
          solana_signature = request.signature;
          solana_slot = request.slot;
          block_time = request.block_time;
          user_pubkey = request.user_pubkey;
          gross_amount_sats = request.amount_sats;
          fee_amount_sats = fee_sats;
          net_amount_sats = request.net_amount_sats;
          address_type = request.address_type;
          recipient = request.recipient_address;
          status = OperatorStatus.observed;
        })
        (ok_or (checked_sub request.amount_sats request.net_amount_sats) net_exceeds_gross)

  unfoldable pub merge_existing :
      WithdrawalRequest → Option WithdrawalRequest → Result Error WithdrawalRequest
  unfolding request_eqb
  merge_existing stored none = ok stored
  merge_existing stored (some existing) =
      if request_eqb (record existing { status = OperatorStatus.observed }) stored
      then ok (record stored { status = existing.status })
      else err (request_differs stored.request_index)

  unfoldable pub record_requests : List IndexedRequest → Effect Error S (Unit {0})
  record_requests [] = pure tt
  record_requests (request ∷ requests) = do
    stored ← lift (stored_request request)
    existing ← read (λ s. map_err store_error (store.withdrawal_request_by_index s request.index))
    row ← lift (merge_existing stored existing)
    call store_error (λ s. store.upsert_withdrawal_request s row)
    record_requests requests
