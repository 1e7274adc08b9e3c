-- ===== src/Withdrawal/Daemon.antt =====
-- doge/src/commands/operator_daemon.rs: the failure counter, the polling loop and `poll_once`.
--
-- What a cycle of the loop meets is an event: a signal to stop, or the result of the poll. The
-- store, the state of the bridge and the dispatch of a withdrawal are parameters of a poll.
pub mod Boundary
pub mod Aborts
use psy_doge_solana_cli.Common.{
  ℕ, ◌+◌, ◌-◌, ◌^◌, List, [], ◌∷◌, Bool, true, false, min, ltb, leb, if◌then◌else◌, Option, none,
  some, Result, ok, err, ◌>>=◌, ◌>>◌,
}
use psy_doge_solana_cli.Withdrawal.Batch.{PollAction, resume, start, idle, select_poll_action}

pub record PollFailureTracker : Type 0 where
  pub consecutive : ℕ
  pub threshold : ℕ

abbrev pub poll_failure_threshold : ℕ
poll_failure_threshold = 5

unfoldable pub new : ℕ → PollFailureTracker
new threshold = record { consecutive = 0; threshold = threshold }

unfoldable pub record_success : PollFailureTracker → PollFailureTracker
record_success tracker = record tracker { consecutive = 0 }

-- `saturating_add`: a count of 32 bits stays at the largest.
unfoldable pub record_failure : PollFailureTracker → PollFailureTracker × Bool
record_failure tracker =
    let consecutive = min (tracker.consecutive + 1) (2 ^ 32 - 1) in
    (record tracker { consecutive = consecutive }, leb tracker.threshold consecutive)

pub data Event (E : Type 0) : Type 0 where
  interrupted : Event E
  polled : Result E (Unit {0}) → Event E

-- How the loop stands behind its events: on its way, stopped by a signal, or ended by an error.
pub data Loop (E : Type 0) : Type 0 where
  running : PollFailureTracker → Loop E
  stopped : Loop E
  aborted : E → Loop E

unfoldable pub after_failure :
    {E : Type 0} → E → (PollFailureTracker → Loop E) → PollFailureTracker × Bool → Loop E
after_failure error later (tracker, true) = aborted error
after_failure error later (tracker, false) = later tracker

unfoldable pub run_loop : {E : Type 0} → List (Event E) → PollFailureTracker → Loop E
unfolding record_success record_failure after_failure
run_loop [] tracker = running tracker
run_loop (interrupted ∷ events) tracker = stopped
run_loop (polled (ok done) ∷ events) tracker = run_loop events (record_success tracker)
run_loop (polled (err error) ∷ events) tracker =
    after_failure error (run_loop events) (record_failure tracker)

-- What a poll asks: the oldest batch that is not complete, the two cursors of the bridge, and the
-- withdrawal of a request, or of the batch to resume.
pub record PollAnswers (E B : Type 0) : Type 0 where
  pub oldest_incomplete_snapshot_batch : Result E (Option B)
  pub cursors : Result E (ℕ × ℕ)
  pub dispatch_withdrawal : Option ℕ → Bool → Result E (Unit {0})

unfoldable pub dispatch_action : {E B : Type 0} → PollAnswers E B → PollAction → Result E (Unit {0})
dispatch_action answers resume = answers.dispatch_withdrawal none true
dispatch_action answers (start index) = answers.dispatch_withdrawal (some index) false
dispatch_action answers idle = ok tt

unfoldable pub poll_bridge : {E B : Type 0} → PollAnswers E B → Result E (Unit {0})
unfolding select_poll_action dispatch_action
poll_bridge answers = do
  (snapshot_cursor, requested_cursor) ← answers.cursors
  dispatch_action answers (select_poll_action false snapshot_cursor requested_cursor)

unfoldable pub poll_once : {E B : Type 0} → PollAnswers E B → Result E (Unit {0})
unfolding poll_bridge
poll_once answers = do
  incomplete ← answers.oldest_incomplete_snapshot_batch
  elim incomplete [
    | some batch ↦ answers.dispatch_withdrawal none true
    | none ↦ poll_bridge answers
  ]
