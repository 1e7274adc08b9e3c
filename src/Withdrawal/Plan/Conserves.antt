-- ===== src/Withdrawal/Plan/Conserves.antt =====
-- A plan spends exactly what is selected.
use psy_doge_solana_cli.Common.{ℕ, ◌+◌, ◌-◌, ◌^◌, ◌<◌, ◌≤◌, ◌≡◌, ◌⊎◌, ◌↔◌, inl, inr, ok, arith}
use psy_doge_solana_cli.Withdrawal.Plan.{CustodyTransactionPlan, plan_custody_transaction}

-- A plan pays the recipient and the fee that were asked for, and the rest of what is selected, to
-- the satoshi, is change; the change is nothing, or no dust.
pub plan_custody_transaction-ok :
    (selected recipient fee dust : ℕ) (plan : CustodyTransactionPlan)
    → plan_custody_transaction selected recipient fee dust ≡ ok plan
    → (1 ≤ recipient)
      × (plan.recipient_sats ≡ recipient)
      × (plan.fee_sats ≡ fee)
      × (plan.recipient_sats + plan.change_sats + plan.fee_sats ≡ selected)
      × ((plan.change_sats ≡ 0) ⊎ (dust ≤ plan.change_sats))
unfolding plan_custody_transaction
plan_custody_transaction-ok selected recipient fee dust plan e = ground arith

-- There is a plan exactly when the recipient gets something, recipient and fee fit 64 bits and are
-- covered, and what is left is nothing or no dust.
pub plan_custody_transaction-ok_iff :
    (selected recipient fee dust : ℕ)
    → ((plan : CustodyTransactionPlan) × (plan_custody_transaction selected recipient fee dust
          ≡ ok plan))
      ↔ ((1 ≤ recipient)
          × (recipient + fee < 2 ^ 64)
          × (recipient + fee ≤ selected)
          × ((selected ≡ recipient + fee) ⊎ (dust ≤ selected - (recipient + fee))))
unfolding plan_custody_transaction
plan_custody_transaction-ok_iff selected recipient fee dust = (
  (λ h.
      let (paid, same, fee_paid, total, kept) =
        plan_custody_transaction-ok selected recipient fee dust h.0 h.1 in
      (
        paid,
        required h.0 h.1,
        omega arith,
        elim kept [ inl none_left ↦ inl (omega arith) | inr no_dust ↦ inr (omega arith) ],
      )),
  (λ h. (
    record {
      recipient_sats = recipient;
      change_sats = selected - (recipient + fee);
      fee_sats = fee;
    },
    planned h.0 h.1 h.2 h.3,
  )),
)
  where
    required :
        (plan : CustodyTransactionPlan)
        → plan_custody_transaction selected recipient fee dust ≡ ok plan
        → recipient + fee < 2 ^ 64
    required plan e = ground arith

    planned :
        1 ≤ recipient
        → recipient + fee < 2 ^ 64
        → recipient + fee ≤ selected
        → (selected ≡ recipient + fee) ⊎ (dust ≤ selected - (recipient + fee))
        → plan_custody_transaction selected recipient fee dust
          ≡ ok (record {
            recipient_sats = recipient;
            change_sats = selected - (recipient + fee);
            fee_sats = fee;
          })
    planned paid fits covered (inl exact) = ground arith
    planned paid fits covered (inr no_dust) = ground arith

pub change_sats_fit :
    (selected recipient fee dust : ℕ) (plan : CustodyTransactionPlan)
    → plan_custody_transaction selected recipient fee dust ≡ ok plan
    → selected < 2 ^ 64
    → plan.change_sats < 2 ^ 64
change_sats_fit selected recipient fee dust plan e h =
    let (_, _, _, kept, _) = plan_custody_transaction-ok selected recipient fee dust plan e in
    omega (arith, h, kept)
