-- ===== src/Withdrawal/Resume/Signed.antt =====
-- A batch whose broadcast is left to a later run.
use psy_doge_solana_cli.Common.{
  some-same, ℕ, ◌≡◌, refl, sym, ap, ◌∙◌, List, eqb_refl, false, some, Result, ok, err, ok-same,
}
use psy_doge_solana_cli.Common.Effects.{Effect, ◌>>◌, lift, then_run, then_run-ok, wrap_run}
use psy_doge_solana_cli.Wormhole.Utx0.{Utx0UnlockPayload}
use psy_doge_solana_cli.Wormhole.Tx as Transaction
use psy_doge_solana_cli.Wormhole.Tx.{UnsignedTransaction}
use psy_doge_solana_cli.Withdrawal.Errors.{Error, store_error}
use psy_doge_solana_cli.Withdrawal.Store.{
  OperatorStatus, CustodyReservation, SnapshotBatch, DogecoinTransaction, ProcessWithdrawal,
  is_text,
}
use psy_doge_solana_cli.Withdrawal.Graph.{
  OperatorStore, PersistedWithdrawalGraph, load_persisted_withdrawal_graph,
  load_complete_signed_graph, find_reservation, find_process, find_transaction, check_mappings,
  reservation_drifted, same_batch, any_mapping_drifted,
}
use psy_doge_solana_cli.Withdrawal.Graph.Linked.{load_persisted_withdrawal_graph-IsLinked}
use psy_doge_solana_cli.Withdrawal.Transition.{mark_batch_broadcast, complete_broadcast_transition}
use psy_doge_solana_cli.Withdrawal.Prepared.{PreparedTransaction}
use psy_doge_solana_cli.Withdrawal.Prepared.Steps.{prepared_from_reservation-Steps}
use psy_doge_solana_cli.Withdrawal.Environment.Managed.{signed_by_managers-Managed}
use psy_doge_solana_cli.Withdrawal.Environment.{Environment, signed_by_managers}
use psy_doge_solana_cli.Withdrawal.Resume.{
  hash_sha256, txid_of, signed_transaction, signed_process, broadcast_if_enabled,
  resume_signed_batch, resume_signed_or_started, sign_snapshot_batch, store_and_broadcast,
}
use psy_doge_solana_cli.Withdrawal.Transition.Unstarted.{complete-loaded}

-- The same run with broadcasts switched off.
abbrev pub without_broadcast : Environment → Environment
without_broadcast environment = record environment { broadcast_enabled = false }

-- The batch as the store has it once its transaction is stored.
abbrev pub as_signed : SnapshotBatch → SnapshotBatch
as_signed batch = record batch { status = OperatorStatus.signed }

-- What signing relies on of the store: a reservation is loaded under its own id, and a snapshot
-- that is stored as signed has its transaction afterwards.
pub record Stores {S : Type 0} (store : OperatorStore S) : Type 0 where
  pub keyed :
      (s : S) (id : List ℕ) (row : CustodyReservation)
      → store.load_reservation s id ≡ ok (some row)
      → row.reservation_id ≡ id
  pub stored :
      (s s' : S) (signature id : List ℕ) (transaction : DogecoinTransaction)
      (process : ProcessWithdrawal)
      → store.persist_signed_snapshot s signature id transaction process ≡ (s', ok tt)
      → store.dogecoin_transaction_by_process_signature s' signature ≡ ok (some transaction)

module _ (environment : Environment) {S : Type 0} (store : OperatorStore S) where
  same_broadcast :
      (batch : SnapshotBatch) (id bytes : List ℕ)
      → broadcast_if_enabled environment store (as_signed batch) id bytes
        ≡ broadcast_if_enabled environment store batch id bytes
  unfolding broadcast_if_enabled mark_batch_broadcast complete_broadcast_transition
      load_persisted_withdrawal_graph find_reservation find_process find_transaction check_mappings
      reservation_drifted same_batch any_mapping_drifted
  same_broadcast batch id bytes = refl

  same_managers :
      (s : S) (emitter : List ℕ) (batch : SnapshotBatch) (payload : Utx0UnlockPayload)
      → signed_by_managers (without_broadcast environment) store s emitter batch payload
        ≡ signed_by_managers environment store s emitter batch payload
  unfolding signed_by_managers
  same_managers s emitter batch payload = refl

  -- What is done behind the write of the signed rows.
  abbrev broadcast_signed : SnapshotBatch → List ℕ → List ℕ → Effect Error S (Unit {0})
  broadcast_signed batch id bytes = do
    broadcast_if_enabled environment store batch id bytes
    lift environment.write_evidence

  resume_signed_batch-signed_transaction :
      (batch : SnapshotBatch) (graph : PersistedWithdrawalGraph) (bytes : List ℕ)
      → graph.transaction ≡ signed_transaction environment bytes
      → (s : S)
      → resume_signed_batch environment store batch graph s
        ≡ broadcast_signed batch graph.reservation.reservation_id bytes s
  unfolding resume_signed_batch signed_transaction is_text
  resume_signed_batch-signed_transaction batch graph bytes same s =
      rw (same, eqb_refl (hash_sha256 environment bytes), eqb_refl (txid_of environment bytes)) refl

  resume_signed_or_started_complete :
      (batch : SnapshotBatch) (payload : Utx0UnlockPayload) (graph : PersistedWithdrawalGraph)
      (s : S)
      → load_complete_signed_graph store s batch ≡ ok graph
      → resume_signed_or_started environment store batch payload s
        ≡ resume_signed_batch environment store batch graph s
  unfolding resume_signed_or_started
  resume_signed_or_started_complete batch payload graph s complete =
      let (loaded, not_started) = complete-loaded store s batch graph complete in
      rw (loaded, not_started, complete) refl

  module _ (emitter : List ℕ) (batch : SnapshotBatch) (payload : Utx0UnlockPayload) (s : S)
      (prepared : PreparedTransaction) (transaction : UnsignedTransaction) where
    abbrev signed_bytes : List ℕ
    signed_bytes = Transaction.serialize transaction

    abbrev persist : S × Result (List ℕ) (Unit {0})
    persist =
        store.persist_signed_snapshot s batch.solana_signature prepared.reservation_id
          (signed_transaction environment signed_bytes)
          (signed_process environment batch payload prepared signed_bytes)

    only_stored :
        (s' : S)
        → store_and_broadcast
            (without_broadcast environment)
            store
            batch
            payload
            (prepared, transaction)
            s
          ≡ (s', ok tt)
        → persist ≡ (s', ok tt)
    unfolding store_and_broadcast broadcast_if_enabled signed_transaction signed_process
    only_stored s' e = after persist refl e
      where
        after :
            (run : S × Result (List ℕ) (Unit {0}))
            → persist ≡ run
            → then_run (λ done t. (t, environment.write_evidence)) (wrap_run store_error run)
              ≡ (s', ok tt)
            → persist ≡ (s', ok tt)
        after (t, ok done) h k = h ∙ ap (λ p. (p.0, ok tt)) k
        after (t, err x) h k = cc

    sign-stored :
        (s' : S)
        → signed_by_managers environment store s emitter batch payload ≡ ok (prepared, transaction)
        → persist ≡ (s', ok tt)
        → sign_snapshot_batch environment store emitter batch payload s
          ≡ broadcast_signed batch prepared.reservation_id signed_bytes s'
    unfolding sign_snapshot_batch store_and_broadcast
    sign-stored s' signed stored =
        ap (λ r. then_run (store_and_broadcast environment store batch payload) (s, r)) signed
        ∙ ap
            (λ run.
              then_run (λ done. broadcast_signed batch prepared.reservation_id signed_bytes)
                (wrap_run store_error run))
            stored

    same_reservation :
        Stores store
        → (s' : S) (graph : PersistedWithdrawalGraph)
        → signed_by_managers environment store s emitter batch payload ≡ ok (prepared, transaction)
        → load_persisted_withdrawal_graph store s' (as_signed batch) ≡ ok graph
        → graph.reservation.reservation_id ≡ prepared.reservation_id
    same_reservation stores s' graph signed loaded =
        let m =
          signed_by_managers-Managed environment store s emitter batch payload prepared transaction
            signed in
        let g = load_persisted_withdrawal_graph-IsLinked store s' (as_signed batch) graph loaded in
        let steps =
          prepared_from_reservation-Steps environment.packages environment.args emitter payload
            m.manager_set m.reservation (some m.unsigned) prepared m.is_prepared in
        stores.keyed s' g.id graph.reservation g.reservation
        ∙ some-same (sym g.own ∙ m.own)
        ∙ sym (stores.keyed s m.id m.reservation m.held)
        ∙ steps.id

  -- A batch that is signed while broadcasts are off, and then taken up as signed by a run that
  -- broadcasts, ends with the store and the result that signing it with the broadcast has from the
  -- start, if its records are complete and signed in between, for a store that loads a reservation
  -- under its own id and has the transaction of a snapshot that it has stored as signed.
  pub resume_signed_or_started-sign_snapshot_batch :
      Stores store
      → (emitter : List ℕ) (batch : SnapshotBatch) (payload : Utx0UnlockPayload) (s s' : S)
        (graph : PersistedWithdrawalGraph)
      → sign_snapshot_batch (without_broadcast environment) store emitter batch payload s
        ≡ (s', ok tt)
      → load_complete_signed_graph store s' (as_signed batch) ≡ ok graph
      → resume_signed_or_started environment store (as_signed batch) payload s'
        ≡ sign_snapshot_batch environment store emitter batch payload s
  unfolding sign_snapshot_batch
  resume_signed_or_started-sign_snapshot_batch stores emitter batch payload s s' graph e complete =
      let (t, (prepared, transaction), signed, rest) =
        then_run-ok (store_and_broadcast (without_broadcast environment) store batch payload)
          (s, signed_by_managers (without_broadcast environment) store s emitter batch payload) s'
          tt e in
      resumed prepared transaction
        (sym (same_managers s emitter batch payload) ∙ ap (λ p. p.1) signed)
        (only_stored emitter batch payload s prepared transaction s' (
          ap
            (store_and_broadcast (without_broadcast environment) store batch payload
              (prepared, transaction))
            (ap (λ p. p.0) signed)
          ∙ rest))
    where
      resumed :
          (prepared : PreparedTransaction) (transaction : UnsignedTransaction)
          → signed_by_managers environment store s emitter batch payload
            ≡ ok (prepared, transaction)
          → persist emitter batch payload s prepared transaction ≡ (s', ok tt)
          → resume_signed_or_started environment store (as_signed batch) payload s'
            ≡ sign_snapshot_batch environment store emitter batch payload s
      resumed prepared transaction signed stored =
          let bytes = Transaction.serialize transaction in
          let loaded = (complete-loaded store s' (as_signed batch) graph complete).0 in
          let g =
            load_persisted_withdrawal_graph-IsLinked store s' (as_signed batch) graph loaded in
          let found =
            stores.stored s s' batch.solana_signature prepared.reservation_id
              (signed_transaction environment bytes)
              (signed_process environment batch payload prepared bytes) stored in
          resume_signed_or_started_complete (as_signed batch) payload graph s' complete
          ∙ resume_signed_batch-signed_transaction (as_signed batch) graph bytes
              (some-same (ok-same (sym g.transaction ∙ found))) s'
          ∙ ap (λ id. broadcast_signed (as_signed batch) id bytes s')
              (same_reservation emitter batch payload s prepared transaction stores s' graph signed
                loaded)
          ∙ ap (λ first. then_run (λ done. lift environment.write_evidence) (first s'))
              (same_broadcast batch prepared.reservation_id bytes)
          ∙ sym (sign-stored emitter batch payload s prepared transaction s' signed stored)
