-- ===== src/Examples/Confirmations.antt =====
-- A withdrawal that is the second transaction of its block, three blocks below the tip.
use psy_doge_solana_cli.Common.{
  lower, eq_ignore_ascii_case, to_ascii_lowercase, ℕ, ◌+◌, ◌<◌, ◌^◌, ◌≡◌, refl, List, [], ◌∷◌, true,
  eqb, get_elem?, Option, some, ok,
}
use psy_doge_solana_cli.Withdrawal.Confirmed.{
  ElectrsWithdrawalTransaction, ConfirmedWithdrawal, position, confirmation_count, locate,
  plan_confirmed_withdrawal,
}
use psy_doge_solana_cli.Withdrawal.Confirmed.Located.{plan_confirmed_withdrawal-ok}

-- "AB" and "ab"
abbrev upper_id : List ℕ
upper_id = 0x41 ∷ 0x42 ∷ []

abbrev lower_id : List ℕ
lower_id = 0x61 ∷ 0x62 ∷ []

abbrev parse_block_hash : List ℕ → Option (List ℕ)
parse_block_hash text = some text

abbrev transaction : ElectrsWithdrawalTransaction
transaction = record {
  txid = upper_id;
  vout = [];
  status = record { confirmed = true; block_height = some 40; block_hash = some (0x30 ∷ []) };
}

abbrev withdrawal : ConfirmedWithdrawal
withdrawal = record {
  transaction = transaction;
  block_height = 40;
  block_hash = 0x30 ∷ [];
  confirmations = 4;
  tx_index = 1;
}

abbrev block : List (List ℕ)
block = (0x63 ∷ []) ∷ upper_id ∷ []

is_planned :
    plan_confirmed_withdrawal parse_block_hash transaction lower_id block 43 ≡ ok (some withdrawal)
unfolding plan_confirmed_withdrawal locate position confirmation_count eq_ignore_ascii_case lower
    to_ascii_lowercase eqb
is_planned = refl

plan_confirmed_withdrawal-ok_example :
    (eq_ignore_ascii_case transaction.txid lower_id ≡ true)
    × (transaction.status.confirmed ≡ true)
    × (transaction.status.block_height ≡ some withdrawal.block_height)
    × (withdrawal.block_height + withdrawal.confirmations ≡ 43 + 1)
    × (withdrawal.tx_index < 2 ^ 16)
    × (txid : List ℕ) × (get_elem? block withdrawal.tx_index ≡ some txid)
    × (eq_ignore_ascii_case txid lower_id ≡ true)
plan_confirmed_withdrawal-ok_example =
    plan_confirmed_withdrawal-ok parse_block_hash transaction lower_id block 43 withdrawal
      is_planned
