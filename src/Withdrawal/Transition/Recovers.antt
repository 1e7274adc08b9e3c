-- ===== src/Withdrawal/Transition/Recovers.antt =====
-- A broadcast that is interrupted and taken up again, any number of times.
use psy_doge_solana_cli.Common.{
  some-same, ℕ, ◌≡◌, refl, sym, ap, ◌∙◌, subst, List, Bool-cases, true, inl, inr, eqb, some, ok,
  err,
}
use psy_doge_solana_cli.Withdrawal.Errors.{Error}
use psy_doge_solana_cli.Withdrawal.Store.{
  OperatorStatus, CustodyReservation, SnapshotBatch, DogecoinTransaction,
}
use psy_doge_solana_cli.Withdrawal.Graph.{
  OperatorStore, PersistedWithdrawalGraph, load_persisted_withdrawal_graph,
}
use psy_doge_solana_cli.Withdrawal.Graph.Linked.{load_persisted_withdrawal_graph-IsLinked}
use psy_doge_solana_cli.Withdrawal.Transition.{complete_broadcast_transition}
use psy_doge_solana_cli.Withdrawal.Transition.Rows.{Rows, Works, change, with_hash}
use psy_doge_solana_cli.Withdrawal.Transition.Broadcasts.{broadcast_rows}
use psy_doge_solana_cli.Withdrawal.Transition.Refines.{
  complete_broadcast_transition-ok, complete_broadcast_transition-err,
}

-- The graph is loaded and the broadcast completed; after an error, both again.
pub data Attempts {S : Type 0} (store : OperatorStore S) (batch : SnapshotBatch)
    : S → S → Type 0 where
  last :
      {s s' : S} (graph : PersistedWithdrawalGraph) (done : Unit {0})
      → load_persisted_withdrawal_graph store s batch ≡ ok graph
      → complete_broadcast_transition store batch graph s ≡ (s', ok done)
      → Attempts store batch s s'
  again :
      {s t s' : S} (graph : PersistedWithdrawalGraph) (error : Error)
      → load_persisted_withdrawal_graph store s batch ≡ ok graph
      → complete_broadcast_transition store batch graph s ≡ (t, err error)
      → Attempts store batch t s'
      → Attempts store batch s s'

txid-with_hash :
    (raw_hash : List ℕ) (status : OperatorStatus) (row : DogecoinTransaction)
    → (with_hash raw_hash status row).txid ≡ row.txid
txid-with_hash raw_hash status row = elim (Bool-cases (eqb row.raw_hash raw_hash)) [
  | inl same ↦ rw same refl
  | inr other ↦ rw other refl
]

raw_hash-with_hash :
    (raw_hash : List ℕ) (status : OperatorStatus) (row : DogecoinTransaction)
    → (with_hash raw_hash status row).raw_hash ≡ row.raw_hash
raw_hash-with_hash raw_hash status row = elim (Bool-cases (eqb row.raw_hash raw_hash)) [
  | inl same ↦ rw same refl
  | inr other ↦ rw other refl
]

module _ {S : Type 0} (store : OperatorStore S) (view : S → Rows)
    (marked : List ℕ → CustodyReservation → CustodyReservation) (works : Works store view marked)
    (batch : SnapshotBatch) where
  -- Rows that the broadcast makes the same have the same transaction, its status aside.
  same_transaction :
      (id txid raw_hash : List ℕ) (v w : Rows) (a b : DogecoinTransaction)
      → broadcast_rows marked batch id txid raw_hash v
        ≡ broadcast_rows marked batch id txid raw_hash w
      → v.transaction batch.solana_signature ≡ some a
      → w.transaction batch.solana_signature ≡ some b
      → (a.txid ≡ b.txid) × (a.raw_hash ≡ b.raw_hash)
  same_transaction id txid raw_hash v w a b e ha hb =
      let f = with_hash raw_hash OperatorStatus.broadcast in
      let rows =
        ap (change true f) (sym ha)
        ∙ ap (λ r. r.transaction batch.solana_signature) e
        ∙ ap (change true f) hb in
      let same : f a ≡ f b = some-same rows in
      (
        sym (txid-with_hash raw_hash OperatorStatus.broadcast a)
            ∙ ap (λ t. t.txid) same
            ∙ txid-with_hash raw_hash OperatorStatus.broadcast b,
        sym (raw_hash-with_hash raw_hash OperatorStatus.broadcast a)
            ∙ ap (λ t. t.raw_hash) same
            ∙ raw_hash-with_hash raw_hash OperatorStatus.broadcast b,
      )

  -- The transaction's row, and the reservation's, as a graph that is loaded has them.
  seen :
      (s : S) (graph : PersistedWithdrawalGraph)
      → load_persisted_withdrawal_graph store s batch ≡ ok graph
      → (view s).transaction batch.solana_signature ≡ some graph.transaction
  seen s graph load =
      works.finds s batch.solana_signature graph.transaction
        (load_persisted_withdrawal_graph-IsLinked store s batch graph load).transaction

  held :
      (s : S) (id : List ℕ) (graph : PersistedWithdrawalGraph)
      → load_persisted_withdrawal_graph store s batch ≡ ok graph
      → batch.reservation_id ≡ some id
      → ((view s).reservation id ≡ some graph.reservation) × (graph.reservation.reservation_id ≡ id)
  held s id graph load own =
      let linked = load_persisted_withdrawal_graph-IsLinked store s batch graph load in
      works.loads s id graph.reservation (
        subst (λ k. store.load_reservation s k ≡ ok (some graph.reservation))
          (some-same (sym linked.own ∙ own)) linked.reservation)

  first_row :
      {s s' : S}
      → Attempts store batch s s'
      → (row : DogecoinTransaction) × ((view s).transaction batch.solana_signature ≡ some row)
  first_row {s} (last graph done load run) = (graph.transaction, seen s graph load)
  first_row {s} (again graph error load run rest) = (graph.transaction, seen s graph load)

  recovered :
      {s s' : S} (id txid raw_hash : List ℕ) (row : DogecoinTransaction)
      → Attempts store batch s s'
      → batch.reservation_id ≡ some id
      → (view s).transaction batch.solana_signature ≡ some row
      → row.txid ≡ some txid
      → row.raw_hash ≡ raw_hash
      → view s' ≡ broadcast_rows marked batch id txid raw_hash (view s)
  recovered {s} {s'} id txid raw_hash row (last graph done load run) own found has hash =
      let same = some-same (sym found ∙ seen s graph load) in
      let (reserved, named) = held s id graph load own in
      complete_broadcast_transition-ok store view marked works batch id txid raw_hash graph
        (ap (λ t. t.txid) (sym same) ∙ has) (ap (λ t. t.raw_hash) (sym same) ∙ hash) named s
        reserved s' done run
  recovered {s} {s'} id txid raw_hash row (again {t} graph error load run rest) own found has hash =
      let same = some-same (sym found ∙ seen s graph load) in
      let (reserved, named) = held s id graph load own in
      let kept =
        complete_broadcast_transition-err store view marked works batch id txid raw_hash graph
          (ap (λ t. t.txid) (sym same) ∙ has) (ap (λ t. t.raw_hash) (sym same) ∙ hash) named s
          reserved t error run in
      let (next, there) = first_row rest in
      let (same_txid, same_hash) =
        same_transaction id txid raw_hash (view t) (view s) next row kept there found in
      recovered id txid raw_hash next rest own there (same_txid ∙ has) (same_hash ∙ hash) ∙ kept

  -- Where the store works (`Works`), loading the graph and completing the broadcast after any
  -- number of attempts that failed part way leaves exactly the rows that the broadcast makes of
  -- those that were there before the first: the reservation marked with the transaction's id unless
  -- it was marked already, and the transaction, the withdrawal, the requests of the batch and the
  -- batch itself broadcast.
  pub Attempts-broadcast_rows :
      {s s' : S} (graph : PersistedWithdrawalGraph) (id txid : List ℕ)
      → load_persisted_withdrawal_graph store s batch ≡ ok graph
      → batch.reservation_id ≡ some id
      → graph.transaction.txid ≡ some txid
      → Attempts store batch s s'
      → view s' ≡ broadcast_rows marked batch id txid graph.transaction.raw_hash (view s)
  Attempts-broadcast_rows {s} graph id txid load own has attempts =
      recovered id txid graph.transaction.raw_hash graph.transaction attempts own
        (seen s graph load) has refl
