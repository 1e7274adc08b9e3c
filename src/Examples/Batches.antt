-- ===== src/Examples/Batches.antt =====
-- A history of three requests, a plan, and the choices at concrete cursors.
use psy_doge_solana_cli.Common.{
  ℕ, ◌+◌, ◌-◌, ◌<◌, ◌≤◌, ◌^◌, ◌≡◌, ◌⊎◌, ◌↔◌, refl, List, [], ◌∷◌, length, get_elem?, ok, some, none,
  false, collect, arith,
}
use psy_doge_solana_cli.Wormhole.Utx0.{p2pkh, p2sh, Utx0Output, Utx0UnlockPayload, from_u32}
use psy_doge_solana_cli.Wormhole.Tx.{is_empty}
use psy_doge_solana_cli.Withdrawal.Batch.{
  IndexedRequest, history_range, request_output, payload_for_requests, capped_batch_end, start,
  select_poll_action,
}
use psy_doge_solana_cli.Withdrawal.Batch.Progress.{start-capped_batch_end}
use psy_doge_solana_cli.Withdrawal.Batch.Payload.{payload_for_requests-history_range}
use psy_doge_solana_cli.Withdrawal.Plan.{CustodyTransactionPlan, plan_custody_transaction}
use psy_doge_solana_cli.Withdrawal.Plan.Conserves.{plan_custody_transaction-ok_iff}
use psy_doge_solana_cli.Examples.Given.{repeat}

abbrev request : ℕ → ℕ → IndexedRequest
request index kind = record {
  index = index;
  signature = [];
  slot = 1;
  block_time = none;
  user_pubkey = [];
  amount_sats = 1_000;
  net_amount_sats = 900 + index;
  address_type = kind;
  recipient_address = repeat 20 index;
}

abbrev history : List IndexedRequest
history = request 0 0 ∷ request 1 1 ∷ request 2 0 ∷ []

abbrev two_requests : List IndexedRequest
two_requests = request 1 1 ∷ request 2 0 ∷ []

abbrev payload : Utx0UnlockPayload
payload = record {
  destination_chain = 65;
  delegated_manager_set_index = 1;
  outputs =
      record { amount = 901; address_type = p2sh; address = repeat 20 1 }
      ∷ record { amount = 902; address_type = p2pkh; address = repeat 20 2 }
      ∷ [];
}

in_history : history_range history 1 3 ≡ ok two_requests
unfolding history_range
in_history = refl

is_made : payload_for_requests two_requests 1 ≡ ok payload
unfolding payload_for_requests is_empty collect request_output from_u32
is_made = refl

payload_for_requests-history_range_example :
    (length payload.outputs ≡ 3 - 1)
    × (o : Utx0Output) × (get_elem? payload.outputs (2 - 1) ≡ some o)
    × (o.amount ≡ 902)
    × (from_u32 0 ≡ ok o.address_type)
    × (o.address ≡ repeat 20 2)
payload_for_requests-history_range_example =
    payload_for_requests-history_range history two_requests 1 3 1 payload in_history is_made 2
      (request 2 0) (omega arith) (omega arith) refl

is_started : select_poll_action false 4 20 ≡ start 4
unfolding select_poll_action
is_started = refl

start-capped_batch_end_example :
    (◌≡◌ {A = ℕ} 4 4)
    × (4 < capped_batch_end 8 4 20)
    × (capped_batch_end 8 4 20 ≤ 20)
    × (capped_batch_end 8 4 20 ≤ 4 + 8)
start-capped_batch_end_example =
    start-capped_batch_end 8 4 20 4 (omega arith) (omega arith) is_started

abbrev plan : CustodyTransactionPlan
plan = record { recipient_sats = 700; change_sats = 200; fee_sats = 100 }

is_planned : plan_custody_transaction 1_000 700 100 50 ≡ ok plan
unfolding plan_custody_transaction
is_planned = refl

plan_custody_transaction-ok_iff_example :
    ((made : CustodyTransactionPlan) × (plan_custody_transaction 1_000 700 100 50 ≡ ok made)) ↔ (
      (1 ≤ 700)
      × (700 + 100 < 2 ^ 64)
      × (700 + 100 ≤ 1_000)
      × ((1_000 ≡ 700 + 100) ⊎ (50 ≤ 1_000 - (700 + 100))))
plan_custody_transaction-ok_iff_example = plan_custody_transaction-ok_iff 1_000 700 100 50
