-- ===== src/Withdrawal/Transition/Refines.antt =====
-- `complete_broadcast_transition` against the change of the rows that it stands for.
use mathlib.Core.Path.{fun_ext}
use psy_doge_solana_cli.Common.{
  ℕ, ◌-◌, ◌≡◌, refl, sym, ap, ◌∙◌, subst, List, eqb, Option, some, Result, ok, err, ok_or,
  Bool-cases, eqb→eq, inl, inr,
}
use psy_doge_solana_cli.Common.Effects.{Effect, then_run, ◌>>◌, call}
use psy_doge_solana_cli.Withdrawal.Errors.{Error, store_error, no_txid}
use psy_doge_solana_cli.Withdrawal.Store.{
  OperatorStatus, CustodyReservationStatus, CustodyReservation, SnapshotBatch,
}
use psy_doge_solana_cli.Withdrawal.Graph.{OperatorStore, PersistedWithdrawalGraph}
use psy_doge_solana_cli.Withdrawal.Transition.{
  mark_reservation, set_requests, complete_broadcast_transition,
}
use psy_doge_solana_cli.Withdrawal.Transition.Applies.{Applies, Applies-call}
use psy_doge_solana_cli.Withdrawal.Transition.Rows.{Rows, Works, at_key, written, at_key_twice}
use psy_doge_solana_cli.Withdrawal.Transition.Broadcasts.{
  finish_at, broadcast_rows, tail, on_tail, Applies-tail,
}

module _ {S : Type 0} (store : OperatorStore S) (view : S → Rows)
    (marked : List ℕ → CustodyReservation → CustodyReservation) (works : Works store view marked)
    (batch : SnapshotBatch) (id txid raw_hash : List ℕ) where
  abbrev spec : Rows → Rows
  spec = broadcast_rows marked batch id txid raw_hash

  abbrev count : ℕ
  count = batch.request_end_index - batch.request_start_index

  abbrev tail_steps : Effect Error S (Unit {0})
  tail_steps = tail store view marked works batch id txid raw_hash

  abbrev change_tail : Rows → Rows
  change_tail = on_tail store view marked works batch id txid raw_hash

  tail-Applies : Applies view spec tail_steps change_tail
  tail-Applies = Applies-tail store view marked works batch id txid raw_hash

  abbrev finish : CustodyReservation → CustodyReservation
  finish row = finish_at row.status (marked txid row) row

  finish_at_twice :
      (status : CustodyReservationStatus) (row : CustodyReservation)
      → row.status ≡ status
      → finish (finish_at status (marked txid row) row) ≡ finish_at status (marked txid row) row
  finish_at_twice CustodyReservationStatus.reserved row e =
      ap (λ st. finish_at st (marked txid (marked txid row)) (marked txid row))
        (works.marked_status txid row)
  finish_at_twice CustodyReservationStatus.broadcast row e =
      ap (λ st. finish_at st (marked txid row) row) e
  finish_at_twice CustodyReservationStatus.released row e =
      ap (λ st. finish_at st (marked txid row) row) e
  finish_at_twice CustodyReservationStatus.spent row e =
      ap (λ st. finish_at st (marked txid row) row) e

  abbrev on_reservation : Rows → Rows
  on_reservation rows = record rows { reservation = at_key id finish rows.reservation }

  spec-on_reservation : (rows : Rows) → spec (on_reservation rows) ≡ spec rows
  spec-on_reservation rows =
      ap (λ t. record (spec rows) { reservation = t })
        (at_key_twice id finish rows.reservation (λ row. finish_at_twice row.status row refl))

  -- Of the row that is loaded, a change is the same as another that does the same to it.
  at_loaded :
      (f g : CustodyReservation → CustodyReservation) (table : List ℕ → Option CustodyReservation)
      (row : CustodyReservation)
      → table id ≡ some row
      → f row ≡ g row
      → at_key id f table ≡ at_key id g table
  at_loaded f g table row found same = fun_ext λ k. elim (Bool-cases (eqb k id)) [
    | inl own ↦ rw own (rw (ap table (eqb→eq k id own) ∙ found) (ap some same))
    | inr other ↦ rw other refl
  ]

  unchanged :
      (table : List ℕ → Option CustodyReservation) (row : CustodyReservation)
      → table id ≡ some row
      → finish row ≡ row
      → table ≡ at_key id finish table
  unchanged table row found same = fun_ext λ k. elim (Bool-cases (eqb k id)) [
    | inl own ↦
        let here = ap table (eqb→eq k id own) ∙ found in rw own (rw here (ap some (sym same)))
    | inr other ↦ rw other refl
  ]

  module _ (reservation : CustodyReservation) (own : reservation.reservation_id ≡ id) where
    abbrev mark_status : CustodyReservationStatus → Effect Error S (Unit {0})
    mark_status status = mark_reservation store reservation status txid

    mark_law :
        (s : S)
        → let run = store.mark_reservation_broadcast s reservation.reservation_id txid in
          view run.0
          ≡ written run.1
              (record (view s) { reservation = at_key id (marked txid) (view s).reservation })
              (view s)
    mark_law s =
        let run = store.mark_reservation_broadcast s reservation.reservation_id txid in
        subst
          (λ k.
            view run.0
            ≡ written run.1
                (record (view s) { reservation = at_key k (marked txid) (view s).reservation })
                (view s))
          own (works.marks s reservation.reservation_id txid)

    Applies-mark :
        Applies view spec
          (call store_error
            (λ s. store.mark_reservation_broadcast s reservation.reservation_id txid))
          (λ rows. record rows { reservation = at_key id (marked txid) rows.reservation })
    Applies-mark =
        Applies-call view spec
          (λ s. store.mark_reservation_broadcast s reservation.reservation_id txid)
          (λ rows. record rows { reservation = at_key id (marked txid) rows.reservation }) mark_law

    -- What the row of the reservation becomes.
    marked_row :
        (status : CustodyReservationStatus)
        → reservation.status ≡ status
        → (s s' : S) (done : Unit {0}) → (view s).reservation id ≡ some reservation
        → mark_status status s ≡ (s', ok done)
        → view s' ≡ on_reservation (view s)
    unfolding mark_reservation
    marked_row CustodyReservationStatus.reserved e s s' done found h =
        Applies-mark.made s s' done h
        ∙ ap (λ t. record (view s) { reservation = t })
            (at_loaded (marked txid) finish (view s).reservation reservation found
              (ap (λ st. finish_at st (marked txid reservation) reservation) (sym e)))
    marked_row CustodyReservationStatus.broadcast e s s' done found h =
        ap (λ p. view p.0) (sym h)
        ∙ ap (λ t. record (view s) { reservation = t })
            (unchanged (view s).reservation reservation found
              (ap (λ st. finish_at st (marked txid reservation) reservation) e))
    marked_row CustodyReservationStatus.released e s s' done found h = cc
    marked_row CustodyReservationStatus.spent e s s' done found h = cc

    marked_not :
        (status : CustodyReservationStatus) (s s' : S) (error : Error)
        → mark_status status s ≡ (s', err error)
        → spec (view s') ≡ spec (view s)
    unfolding mark_reservation
    marked_not CustodyReservationStatus.reserved s s' error h = Applies-mark.kept s s' error h
    marked_not CustodyReservationStatus.broadcast s s' error h = ap (λ p. spec (view p.0)) (sym h)
    marked_not CustodyReservationStatus.released s s' error h = ap (λ p. spec (view p.0)) (sym h)
    marked_not CustodyReservationStatus.spent s s' error h = ap (λ p. spec (view p.0)) (sym h)

  module _ (graph : PersistedWithdrawalGraph) (has : graph.transaction.txid ≡ some txid)
      (hash : graph.transaction.raw_hash ≡ raw_hash) (own : graph.reservation.reservation_id ≡ id)
      (s : S) (found : (view s).reservation id ≡ some graph.reservation) where
    abbrev steps : List ℕ → List ℕ → Effect Error S (Unit {0})
    steps h t = do
      mark_reservation store graph.reservation graph.reservation.status t
      call store_error
          (λ s. store.set_dogecoin_transaction_status_by_raw_hash s h OperatorStatus.broadcast)
      call store_error (λ s.
          store.set_process_withdrawal_status s batch.solana_signature OperatorStatus.broadcast)
      set_requests store OperatorStatus.broadcast count batch.request_start_index
      call store_error
          (λ s. store.set_snapshot_batch_status s batch.solana_signature OperatorStatus.broadcast)

    as_steps : complete_broadcast_transition store batch graph s ≡ steps raw_hash txid s
    unfolding complete_broadcast_transition
    as_steps = λ i. then_run (steps (hash i)) (s, ok_or (has i) no_txid)

    -- A run that succeeds broadcasts the rows.
    pub complete_broadcast_transition-ok :
        (s' : S) (done : Unit {0})
        → complete_broadcast_transition store batch graph s ≡ (s', ok done)
        → view s' ≡ spec (view s)
    complete_broadcast_transition-ok s' done e =
        after (mark_reservation store graph.reservation graph.reservation.status txid s) refl
          (sym as_steps ∙ e)
      where
        after :
            (run : S × Result Error (Unit {0}))
            → mark_reservation store graph.reservation graph.reservation.status txid s ≡ run
            → then_run (λ x. tail_steps) run ≡ (s', ok done)
            → view s' ≡ spec (view s)
        after (t, ok x) h k =
            tail-Applies.made t s' done k
            ∙ ap change_tail
                (marked_row graph.reservation own graph.reservation.status refl s t x found h)
        after (t, err x) h k = cc

    -- A run that fails leaves rows that the broadcast makes the same.
    pub complete_broadcast_transition-err :
        (s' : S) (error : Error)
        → complete_broadcast_transition store batch graph s ≡ (s', err error)
        → spec (view s') ≡ spec (view s)
    complete_broadcast_transition-err s' error e =
        after (mark_reservation store graph.reservation graph.reservation.status txid s) refl
          (sym as_steps ∙ e)
      where
        after :
            (run : S × Result Error (Unit {0}))
            → mark_reservation store graph.reservation graph.reservation.status txid s ≡ run
            → then_run (λ x. tail_steps) run ≡ (s', err error)
            → spec (view s') ≡ spec (view s)
        after (t, ok x) h k =
            tail-Applies.kept t s' error k
            ∙ ap spec (marked_row graph.reservation own graph.reservation.status refl s t x found h)
            ∙ spec-on_reservation (view s)
        after (t, err x) h k =
            marked_not graph.reservation own graph.reservation.status s s' error (h ∙ k)
