-- ===== src/Withdrawal/Daemon/Aborts.antt =====
-- When the daemon ends with an error.
use psy_doge_solana_cli.Common.{
  ℕ, zero, suc, ◌+◌, ◌-◌, ◌^◌, subst, ◌≤◌, ◌<◌, ◌≡◌, ◌⊎◌, ◌↔◌, inl, inr, sym, ap, ◌∙◌, List, [],
  ◌∷◌, Bool, true, false, min, leb, ok, err, arith,
}
use psy_doge_solana_cli.Withdrawal.Daemon.{
  PollFailureTracker, new, record_success, record_failure, Event, interrupted, polled, Loop,
  running, stopped, aborted, after_failure, run_loop,
}

-- The first `count` events are failures.
abbrev pub StartsFailing : {E : Type 0} → ℕ → List (Event E) → Type 0
StartsFailing zero events = Unit
StartsFailing (suc count) (polled (err e) ∷ events) = StartsFailing count events
StartsFailing (suc count) _ = ⊥

-- Somewhere before a signal, `count` failures follow each other.
abbrev pub HasFailures : {E : Type 0} → ℕ → List (Event E) → Type 0
HasFailures {E} count [] = StartsFailing {E = E} count []
HasFailures count (interrupted ∷ events) = StartsFailing count (interrupted ∷ events)
HasFailures count (polled result ∷ events) =
    StartsFailing count (polled result ∷ events) ⊎ HasFailures count events

StartsFailing-HasFailures :
    {E : Type 0} (count : ℕ) (events : List (Event E))
    → StartsFailing count events
    → HasFailures count events
StartsFailing-HasFailures count [] h = h
StartsFailing-HasFailures count (interrupted ∷ events) h = h
StartsFailing-HasFailures count (polled result ∷ events) h = inl h

-- Fewer failures stand there too.
of_fewer :
    {E : Type 0} (count more : ℕ) (events : List (Event E))
    → count ≤ more
    → StartsFailing more events
    → StartsFailing count events
of_fewer zero more events h s = tt
of_fewer (suc count) zero events h s = absurd (omega arith)
of_fewer (suc count) (suc more) [] h s = s
of_fewer (suc count) (suc more) (interrupted ∷ events) h s = s
of_fewer (suc count) (suc more) (polled (ok done) ∷ events) h s = s
of_fewer (suc count) (suc more) (polled (err e) ∷ events) h s =
    of_fewer count more events (omega arith) s

abbrev pub Aborts : {E : Type 0} → Loop E → Type 0
Aborts (running tracker) = ⊥
Aborts stopped = ⊥
Aborts (aborted e) = Unit

-- The tracker in the middle of a run of failures.
abbrev counting : ℕ → ℕ → PollFailureTracker
counting consecutive threshold = record { consecutive = consecutive; threshold = threshold }

abbrev none_left : ℕ → Bool
none_left zero = true
none_left (suc left) = false

record_failure-counting :
    (consecutive left threshold : ℕ)
    → consecutive + suc left ≡ threshold
    → threshold < 2 ^ 32
    → record_failure (counting consecutive threshold)
      ≡ (counting (consecutive + 1) threshold, none_left left)
unfolding record_failure
record_failure-counting consecutive left threshold e h =
    λ i. (counting (count i) threshold, reached i)
  where
    count : min (consecutive + 1) (2 ^ 32 - 1) ≡ consecutive + 1
    count = omega (arith, e, h)

    decided :
        (left : ℕ)
        → consecutive + suc left ≡ threshold
        → leb threshold (consecutive + 1) ≡ none_left left
    decided zero e = ground (arith, e)
    decided (suc left) e = ground (arith, e)

    reached : leb threshold (min (consecutive + 1) (2 ^ 32 - 1)) ≡ none_left left
    reached = ap (leb threshold) count ∙ decided left e

module _ {E : Type 0} (base : ℕ) (fits : suc base < 2 ^ 32) where
  -- What is to be shown of the events, with `suc left` failures to go.
  abbrev Fails : ℕ → List (Event E) → Type 0
  Fails left events = StartsFailing (suc left) events ⊎ HasFailures (suc base) events

  after_counting :
      (error : E) (events : List (Event E)) (consecutive left : ℕ)
      → consecutive + suc left ≡ suc base
      → after_failure error (run_loop events) (record_failure (counting consecutive (suc base)))
        ≡ after_failure error
            (run_loop events)
            (counting (consecutive + 1) (suc base), none_left left)
  after_counting error events consecutive left e =
      ap (after_failure error (run_loop events))
        (record_failure-counting consecutive left (suc base) e fits)

  aborts :
      (events : List (Event E)) (consecutive left : ℕ)
      → consecutive + suc left ≡ suc base
      → Fails left events
      → Aborts (run_loop events (counting consecutive (suc base)))
  unfolding run_loop after_failure record_success
  aborts [] consecutive left e (inl h) = h
  aborts [] consecutive left e (inr h) = h
  aborts (interrupted ∷ events) consecutive left e (inl h) = h
  aborts (interrupted ∷ events) consecutive left e (inr h) = h
  aborts (polled (ok done) ∷ events) consecutive left e (inl h) = absurd h
  aborts (polled (ok done) ∷ events) consecutive left e (inr (inl h)) = absurd h
  aborts (polled (ok done) ∷ events) consecutive left e (inr (inr h)) =
      aborts events 0 base (omega arith) (inr h)
  aborts (polled (err error) ∷ events) consecutive zero e h =
      subst Aborts (sym (after_counting error events consecutive 0 e)) tt
  aborts (polled (err error) ∷ events) consecutive (suc left) e h =
      subst Aborts (sym (after_counting error events consecutive (suc left) e))
        (aborts events (consecutive + 1) left (omega (arith, e)) (behind h))
    where
      behind : Fails (suc left) (polled (err error) ∷ events) → Fails left events
      behind (inl h) = inl h
      behind (inr (inl h)) = inl (of_fewer (suc left) base events (omega (arith, e)) h)
      behind (inr (inr h)) = inr h

  fails :
      (events : List (Event E)) (consecutive left : ℕ)
      → consecutive + suc left ≡ suc base
      → Aborts (run_loop events (counting consecutive (suc base)))
      → Fails left events
  unfolding run_loop after_failure record_success
  fails [] consecutive left e h = absurd h
  fails (interrupted ∷ events) consecutive left e h = absurd h
  fails (polled (ok done) ∷ events) consecutive left e h =
      later (fails events 0 base (omega arith) h)
    where
      later : Fails base events → Fails left (polled (ok done) ∷ events)
      later (inl h) = inr (inr (StartsFailing-HasFailures (suc base) events h))
      later (inr h) = inr (inr h)
  fails (polled (err error) ∷ events) consecutive zero e h = inl tt
  fails (polled (err error) ∷ events) consecutive (suc left) e h = later (
      fails events (consecutive + 1) left (omega (arith, e))
        (subst Aborts (after_counting error events consecutive (suc left) e) h))
    where
      later : Fails left events → Fails (suc left) (polled (err error) ∷ events)
      later (inl h) = inl h
      later (inr h) = inr (inr h)

  -- The loop with a new counter ends by an error exactly when somewhere before a signal as many
  -- failures follow each other as its threshold says, for a threshold of at least 1 that fits 32
  -- bits.
  pub run_loop-Aborts_iff :
      (events : List (Event E))
      → Aborts (run_loop events (new (suc base))) ↔ HasFailures (suc base) events
  unfolding new
  run_loop-Aborts_iff events = (
    λ h. whole (fails events 0 base (omega arith) h),
    λ h. aborts events 0 base (omega arith) (inr h),
  )
    where
      whole : Fails base events → HasFailures (suc base) events
      whole (inl h) = StartsFailing-HasFailures (suc base) events h
      whole (inr h) = h
