-- ===== src/Withdrawal/Plan.antt =====
-- `plan_custody_transaction` of doge/src/lib.rs.
pub mod Conserves
use psy_doge_solana_cli.Common.{
  ℕ, Bool, not, ◌&&◌, ltb, ◌==◌, checked_add, checked_sub, Result, ok, err, bail_if, ok_or, ◌>>=◌,
  ◌>>◌,
}
use psy_doge_solana_cli.Withdrawal.Errors.{
  Error, zero_recipient, required_overflow, insufficient_funds, below_dust,
}

pub record CustodyTransactionPlan : Type 0 where
  pub recipient_sats : ℕ
  pub change_sats : ℕ
  pub fee_sats : ℕ

unfoldable pub plan_custody_transaction : ℕ → ℕ → ℕ → ℕ → Result Error CustodyTransactionPlan
plan_custody_transaction selected_sats recipient_sats fee_sats dust_threshold_sats = do
  bail_if (recipient_sats == 0) zero_recipient
  required ← ok_or (checked_add 64 recipient_sats fee_sats) required_overflow
  change_sats ←
      ok_or (checked_sub selected_sats required) (insufficient_funds selected_sats required)
  bail_if (not (change_sats == 0) && ltb change_sats dust_threshold_sats)
      (below_dust change_sats dust_threshold_sats)
  ok (record { recipient_sats = recipient_sats; change_sats = change_sats; fee_sats = fee_sats })
