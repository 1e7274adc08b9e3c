-- ===== src/Withdrawal/Transition/Broadcasts.antt =====
-- What `Broadcast` makes of the rows of a batch, and the steps behind the reservation.
use mathlib.Core.Path.{fun_ext}
use psy_doge_solana_cli.Common.{
  ℕ, zero, suc, ◌+◌, ◌-◌, ◌≤◌, ◌<◌, ◌≡◌, refl, sym, ap, ◌∙◌, subst, List, arith,
}
use psy_doge_solana_cli.Common.Effects.{Effect, ◌>>◌, call}
use psy_doge_solana_cli.Withdrawal.Errors.{Error, store_error}
use psy_doge_solana_cli.Withdrawal.Store.{
  OperatorStatus, CustodyReservationStatus, CustodyReservation, SnapshotBatch, WithdrawalRequest,
}
use psy_doge_solana_cli.Withdrawal.Graph.{OperatorStore}
use psy_doge_solana_cli.Withdrawal.Transition.{set_requests}
use psy_doge_solana_cli.Withdrawal.Transition.Applies.{Applies, Applies-call, Applies->>}
use psy_doge_solana_cli.Withdrawal.Transition.Rows.{
  Rows, Works, everywhere, at_key, in_range, with_hash, everywhere_twice, at_key_twice,
  with_hash_twice, in_range_empty, in_range-suc, in_range_again,
}

-- A reservation that is still held is marked.
abbrev pub finish_at :
    CustodyReservationStatus → CustodyReservation → CustodyReservation → CustodyReservation
finish_at CustodyReservationStatus.reserved held row = held
finish_at _ held row = row

-- What `Broadcast` makes of the rows of a batch.
abbrev pub broadcast_rows :
    (List ℕ → CustodyReservation → CustodyReservation)
    → SnapshotBatch
    → (id txid raw_hash : List ℕ) → Rows
    → Rows
broadcast_rows marked batch id txid raw_hash rows = record {
  reservation = at_key id (λ row. finish_at row.status (marked txid row) row) rows.reservation;
  transaction = everywhere (with_hash raw_hash OperatorStatus.broadcast) rows.transaction;
  process =
      at_key batch.solana_signature (λ row. record row { status = OperatorStatus.broadcast })
        rows.process;
  request =
      in_range batch.request_start_index (batch.request_end_index - batch.request_start_index)
        (λ row. record row { status = OperatorStatus.broadcast }) rows.request;
  batch =
      at_key batch.solana_signature (λ row. record row { status = OperatorStatus.broadcast })
        rows.batch;
}

module _ {S : Type 0} (store : OperatorStore S) (view : S → Rows)
    (marked : List ℕ → CustodyReservation → CustodyReservation) (works : Works store view marked)
    (batch : SnapshotBatch) (id txid raw_hash : List ℕ) where
  abbrev spec : Rows → Rows
  spec = broadcast_rows marked batch id txid raw_hash

  -- The changes of the steps; the whole makes each of them again.
  abbrev set_status_of_request : WithdrawalRequest → WithdrawalRequest
  set_status_of_request row = record row { status = OperatorStatus.broadcast }

  abbrev on_request : ℕ → ℕ → Rows → Rows
  on_request from count rows = record rows {
    request = in_range from count set_status_of_request rows.request;
  }

  abbrev on_transaction : Rows → Rows
  on_transaction rows = record rows {
    transaction = everywhere (with_hash raw_hash OperatorStatus.broadcast) rows.transaction;
  }

  abbrev on_process : Rows → Rows
  on_process rows = record rows {
    process =
        at_key batch.solana_signature (λ row. record row { status = OperatorStatus.broadcast })
          rows.process;
  }

  abbrev on_batch : Rows → Rows
  on_batch rows = record rows {
    batch =
        at_key batch.solana_signature (λ row. record row { status = OperatorStatus.broadcast })
          rows.batch;
  }

  abbrev pub count : ℕ
  count = batch.request_end_index - batch.request_start_index

  spec-on_request :
      (index : ℕ)
      → batch.request_start_index ≤ index
      → index < batch.request_start_index + count
      → (rows : Rows) → spec (on_request index 1 rows) ≡ spec rows
  spec-on_request index lo hi rows =
      ap (λ t. record (spec rows) { request = t })
        (in_range_again set_status_of_request (λ r. refl) batch.request_start_index count index lo
          hi rows.request)

  spec-on_transaction : (rows : Rows) → spec (on_transaction rows) ≡ spec rows
  spec-on_transaction rows =
      ap (λ t. record (spec rows) { transaction = t })
        (everywhere_twice (with_hash raw_hash OperatorStatus.broadcast) rows.transaction
          (with_hash_twice raw_hash OperatorStatus.broadcast))

  spec-on_process : (rows : Rows) → spec (on_process rows) ≡ spec rows
  spec-on_process rows =
      ap (λ t. record (spec rows) { process = t })
        (at_key_twice batch.solana_signature
          (λ row. record row { status = OperatorStatus.broadcast }) rows.process (λ r. refl))

  spec-on_batch : (rows : Rows) → spec (on_batch rows) ≡ spec rows
  spec-on_batch rows =
      ap (λ t. record (spec rows) { batch = t })
        (at_key_twice batch.solana_signature
          (λ row. record row { status = OperatorStatus.broadcast }) rows.batch (λ r. refl))

  spec-on_requests :
      (left index : ℕ)
      → batch.request_start_index ≤ index
      → index + left ≤ batch.request_start_index + count
      → (rows : Rows) → spec (on_request index left rows) ≡ spec rows
  spec-on_requests zero index lo hi rows =
      ap (λ t. spec (record rows { request = t }))
        (in_range_empty set_status_of_request index rows.request)
  spec-on_requests (suc left) index lo hi rows =
      ap (λ t. spec (record rows { request = t }))
        (sym (in_range-suc set_status_of_request index left rows.request))
      ∙ spec-on_requests left (index + 1) (omega arith) (omega arith) (on_request index 1 rows)
      ∙ spec-on_request index lo (omega arith) rows

  Applies-set_requests :
      (left index : ℕ)
      → batch.request_start_index ≤ index
      → index + left ≤ batch.request_start_index + count
      → Applies view spec
          (set_requests store OperatorStatus.broadcast left index)
          (on_request index left)
  unfolding set_requests
  Applies-set_requests zero index lo hi = record {
    made = λ s s' done e.
        ap (λ p. view p.0) (sym e)
        ∙ ap (λ t. record (view s) { request = t })
            (sym (in_range_empty set_status_of_request index (view s).request));
    kept = λ s s' error e. cc;
  }
  Applies-set_requests (suc left) index lo hi =
      subst (Applies view spec _)
        (fun_ext λ rows.
          ap (λ t. record rows { request = t })
            (in_range-suc set_status_of_request index left rows.request))
        (Applies->> view spec
          (call store_error
            (λ s. store.set_withdrawal_request_status s index OperatorStatus.broadcast))
          (set_requests store OperatorStatus.broadcast left (index + 1)) (on_request index 1)
          (on_request (index + 1) left)
          (Applies-call view spec _ (on_request index 1)
            (λ s. works.sets_request s index OperatorStatus.broadcast))
          (Applies-set_requests left (index + 1) (omega arith) (omega arith))
          (spec-on_request index lo (omega arith)))

  -- The steps behind the reservation's.
  abbrev pub tail : Effect Error S (Unit {0})
  tail = do
    call store_error
        (λ s. store.set_dogecoin_transaction_status_by_raw_hash s raw_hash OperatorStatus.broadcast)
    call store_error
        (λ s. store.set_process_withdrawal_status s batch.solana_signature OperatorStatus.broadcast)
    set_requests store OperatorStatus.broadcast count batch.request_start_index
    call store_error
        (λ s. store.set_snapshot_batch_status s batch.solana_signature OperatorStatus.broadcast)

  abbrev pub on_tail : Rows → Rows
  on_tail rows =
      on_batch (on_request batch.request_start_index count (on_process (on_transaction rows)))

  pub Applies-tail : Applies view spec tail on_tail
  Applies-tail =
      Applies->> view spec _ _ on_transaction
        (λ rows. on_batch (on_request batch.request_start_index count (on_process rows)))
        (Applies-call view spec _ on_transaction
          (λ s. works.sets_transaction s raw_hash OperatorStatus.broadcast))
        (Applies->> view spec _ _ on_process
          (λ rows. on_batch (on_request batch.request_start_index count rows))
          (Applies-call view spec _ on_process
            (λ s. works.sets_process s batch.solana_signature OperatorStatus.broadcast))
          (Applies->> view spec _ _ (on_request batch.request_start_index count) on_batch
            (Applies-set_requests count batch.request_start_index (omega arith) (omega arith))
            (Applies-call view spec _ on_batch
              (λ s. works.sets_batch s batch.solana_signature OperatorStatus.broadcast))
            (spec-on_requests count batch.request_start_index (omega arith) (omega arith)))
          spec-on_process)
        spec-on_transaction
