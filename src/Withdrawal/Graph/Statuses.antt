-- ===== src/Withdrawal/Graph/Statuses.antt =====
-- The statuses of the rows of a graph.
use psy_doge_solana_cli.Common.{
  ℕ, zero, suc, ◌+◌, ◌≤◌, ◌<◌, ◌≡◌, ap, ◌∙◌, subst, ◌==◌, ==→eq, inl, inr, Bool-cases, true, some,
  ok, ok_or, ok_or-ok, map_err, map_err-ok, >>=-ok, bail_if-not-ok, arith,
}
use psy_doge_solana_cli.Withdrawal.Errors.{store_error, missing_request}
use psy_doge_solana_cli.Withdrawal.Store.{
  OperatorStatus, CustodyReservationStatus, status_eqb, reservation_status_eqb, WithdrawalRequest,
}
use psy_doge_solana_cli.Withdrawal.Graph.{OperatorStore, check_requests}

pub status_eqb→eq : (a b : OperatorStatus) → status_eqb a b ≡ true → a ≡ b
unfolding status_eqb
status_eqb→eq a b e = ground (arith, e)

pub reservation_status_eqb→eq :
    (a b : CustodyReservationStatus) → reservation_status_eqb a b ≡ true → a ≡ b
unfolding reservation_status_eqb
reservation_status_eqb→eq a b e = ground (arith, e)

module _ {S : Type 0} (store : OperatorStore S) (s : S) (status : OperatorStatus) where
  -- A request of the store with the status.
  abbrev pub HasStatus : ℕ → Type 0
  HasStatus index =
      (row : WithdrawalRequest) × (store.withdrawal_request_by_index s index ≡ ok (some row))
      × (row.status ≡ status)

  pub check_requests-ok :
      (from count : ℕ)
      → check_requests store s status from count ≡ ok tt
      → (index : ℕ) → from ≤ index
      → index < from + count
      → HasStatus index
  unfolding check_requests
  check_requests-ok from zero e index lo hi = absurd (omega arith)
  check_requests-ok from (suc count) e index lo hi =
      let (found, load, e1) =
        >>=-ok (map_err store_error (store.withdrawal_request_by_index s from)) _ e in
      let (row, is_row, e2) = >>=-ok (ok_or found (missing_request from)) _ e1 in
      let (same, rest) = bail_if-not-ok (status_eqb row.status status) _ _ e2 in
      elim (Bool-cases (index == from)) [
        | inl first ↦ subst HasStatus (==→eq from index (ground arith)) (
          row,
          map_err-ok store_error _ load ∙ ap ok (ok_or-ok found (missing_request from) is_row),
          status_eqb→eq row.status status same,
        )
        | inr later ↦ check_requests-ok (from + 1) count rest index (ground arith) (ground arith)
      ]
