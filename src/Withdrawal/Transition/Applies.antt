-- ===== src/Withdrawal/Transition/Applies.antt =====
-- Runs of the store's operations against changes of its rows.
use psy_doge_solana_cli.Common.{◌≡◌, refl, sym, ap, ◌∙◌, ℕ, List, Result, ok, err}
use psy_doge_solana_cli.Common.Effects.{Effect, then_run, ◌>>◌, call, wrap_run}
use psy_doge_solana_cli.Withdrawal.Errors.{Error, store_error}
use psy_doge_solana_cli.Withdrawal.Transition.Rows.{Rows, written}

module _ {S : Type 0} (view : S → Rows) (spec : Rows → Rows) where
  -- A run that succeeds makes the change; one that fails makes a part of it, which the whole makes
  -- again.
  pub record Applies (e : Effect Error S (Unit {0})) (u : Rows → Rows) : Type 0 where
    pub made : (s s' : S) (done : Unit {0}) → e s ≡ (s', ok done) → view s' ≡ u (view s)
    pub kept : (s s' : S) (error : Error) → e s ≡ (s', err error) → spec (view s') ≡ spec (view s)

  pub Applies-call :
      (operation : S → S × Result (List ℕ) (Unit {0})) (u : Rows → Rows)
      → ((s : S) → view (operation s).0 ≡ written (operation s).1 (u (view s)) (view s))
      → Applies (call store_error operation) u
  Applies-call operation u law = record {
    made = λ s s' done e. made_at (operation s) s s' done (law s) e;
    kept = λ s s' error e. kept_at (operation s) s s' error (law s) e;
  }
    where
      made_at :
          (run : S × Result (List ℕ) (Unit {0})) (s s' : S) (done : Unit {0})
          → view run.0 ≡ written run.1 (u (view s)) (view s)
          → wrap_run store_error run ≡ (s', ok done)
          → view s' ≡ u (view s)
      made_at (t, ok x) s s' done l e = ap (λ p. view p.0) (sym e) ∙ l
      made_at (t, err x) s s' done l e = cc

      kept_at :
          (run : S × Result (List ℕ) (Unit {0})) (s s' : S) (error : Error)
          → view run.0 ≡ written run.1 (u (view s)) (view s)
          → wrap_run store_error run ≡ (s', err error)
          → spec (view s') ≡ spec (view s)
      kept_at (t, ok x) s s' error l e = cc
      kept_at (t, err x) s s' error l e = ap spec (ap (λ p. view p.0) (sym e) ∙ l)

  pub Applies->> :
      (e f : Effect Error S (Unit {0})) (u w : Rows → Rows)
      → Applies e u
      → Applies f w
      → ((rows : Rows) → spec (u rows) ≡ spec rows)
      → Applies (e >> f) (λ rows. w (u rows))
  Applies->> e f u w first second again = record {
    made = λ s s' done h. made_at (e s) s s' done refl h;
    kept = λ s s' error h. kept_at (e s) s s' error refl h;
  }
    where
      made_at :
          (run : S × Result Error (Unit {0})) (s s' : S) (done : Unit {0})
          → e s ≡ run
          → then_run (λ x. f) run ≡ (s', ok done)
          → view s' ≡ w (u (view s))
      made_at (t, ok x) s s' done h k = second.made t s' done k ∙ ap w (first.made s t x h)
      made_at (t, err x) s s' done h k = cc

      kept_at :
          (run : S × Result Error (Unit {0})) (s s' : S) (error : Error)
          → e s ≡ run
          → then_run (λ x. f) run ≡ (s', err error)
          → spec (view s') ≡ spec (view s)
      kept_at (t, ok x) s s' error h k =
          second.kept t s' error k ∙ ap spec (first.made s t x h) ∙ again (view s)
      kept_at (t, err x) s s' error h k = first.kept s s' error (h ∙ k)
