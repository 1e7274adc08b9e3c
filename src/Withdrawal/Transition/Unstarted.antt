-- ===== src/Withdrawal/Transition/Unstarted.antt =====
-- A graph that is loaded as complete and signed has no broadcast that has begun.
use psy_doge_solana_cli.Common.{
  ◌≡◌, refl, sym, ap, ◌∙◌, List, [], ◌∷◌, true, false, not, ◌||◌, bail_if, arith, >>=-elim, ◌-◌, ok,
  ok-same,
}
use psy_doge_solana_cli.Withdrawal.Errors.{not_signed, statuses_drifted}
use psy_doge_solana_cli.Withdrawal.Store.{
  CustodyUtxo, CustodyUtxoStatus, CustodyReservationStatus, utxo_status_eqb, status_eqb,
  reservation_status_eqb, has_text, OperatorStatus, SnapshotBatch,
}
use psy_doge_solana_cli.Withdrawal.Graph.{
  OperatorStore, PersistedWithdrawalGraph, load_persisted_withdrawal_graph,
  load_complete_signed_graph, any, check_requests,
}
use psy_doge_solana_cli.Withdrawal.Graph.Statuses.{status_eqb→eq, reservation_status_eqb→eq}
use psy_doge_solana_cli.Withdrawal.Transition.{broadcast_transition_started}

reserved_only :
    (status : CustodyUtxoStatus)
    → utxo_status_eqb status CustodyUtxoStatus.reserved ≡ true
    → utxo_status_eqb status CustodyUtxoStatus.broadcast ≡ false
unfolding utxo_status_eqb
reserved_only CustodyUtxoStatus.available e = refl
reserved_only CustodyUtxoStatus.reserved e = refl
reserved_only CustodyUtxoStatus.broadcast e = cc
reserved_only CustodyUtxoStatus.spent e = refl

no_broadcast :
    (utxos : List CustodyUtxo)
    → any
        (λ utxo.
          not (utxo_status_eqb utxo.status CustodyUtxoStatus.reserved) || has_text utxo.spend_txid)
        utxos
      ≡ false
    → any (λ utxo. utxo_status_eqb utxo.status CustodyUtxoStatus.broadcast) utxos ≡ false
unfolding any
no_broadcast [] e = refl
no_broadcast (u ∷ us) e = ground (arith, no_broadcast us, reserved_only u.status)

not_started :
    (graph : PersistedWithdrawalGraph)
    → bail_if
        (not (status_eqb graph.transaction.status OperatorStatus.signed)
          || (not (status_eqb graph.process.status OperatorStatus.signed)
              || (not (
                    reservation_status_eqb graph.reservation.status
                      CustodyReservationStatus.reserved)
                  || (has_text graph.reservation.spend_txid
                      || any
                          (λ utxo.
                            not (utxo_status_eqb utxo.status CustodyUtxoStatus.reserved)
                            || has_text utxo.spend_txid)
                          graph.reservation.utxos))))
        statuses_drifted
      ≡ ok tt
    → broadcast_transition_started graph ≡ false
unfolding broadcast_transition_started status_eqb reservation_status_eqb
not_started graph e =
    let transaction =
      status_eqb→eq graph.transaction.status OperatorStatus.signed (ground (arith, e)) in
    let process = status_eqb→eq graph.process.status OperatorStatus.signed (ground (arith, e)) in
    let reservation =
      reservation_status_eqb→eq graph.reservation.status CustodyReservationStatus.reserved
        (ground (arith, e)) in
    let utxos = no_broadcast graph.reservation.utxos (ground (arith, e)) in
    rw (transaction, process, reservation, utxos) refl

module _ {S : Type 0} (store : OperatorStore S) where
  pub complete-loaded :
      (s : S) (batch : SnapshotBatch) (graph : PersistedWithdrawalGraph)
      → load_complete_signed_graph store s batch ≡ ok graph
      → (load_persisted_withdrawal_graph store s batch ≡ ok graph)
        × (broadcast_transition_started graph ≡ false)
  unfolding load_complete_signed_graph
  complete-loaded s batch graph e =
      >>=-elim (bail_if (not (status_eqb batch.status OperatorStatus.signed)) not_signed) _ e
        λ done is_signed e1.
          >>=-elim (load_persisted_withdrawal_graph store s batch) _ e1 λ loaded found e2.
            >>=-elim (bail_if _ statuses_drifted) _ e2 λ done' statuses e3.
              >>=-elim
                (check_requests store s OperatorStatus.signed batch.request_start_index
                  (batch.request_end_index - batch.request_start_index))
                _ e3
                λ done'' requests e4. (
                  found ∙ e4,
                  ap broadcast_transition_started (sym (ok-same e4)) ∙ not_started loaded statuses,
                )
