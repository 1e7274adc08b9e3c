-- ===== src/Examples/Spent.antt =====
-- Two spent outpoints, given in either order, with the preimage in the place of its hash.
use psy_doge_solana_cli.Common.{
  ℕ, ◌≡◌, ◌≢◌, ◌≤◌, ◌⊎◌, ◌↔◌, refl, List, [], All, ◌∷◌, length, ok, arith,
}
use mathlib.Core.List.{Perm}
use mathlib.Core.List.Perm
use psy_doge_solana_cli.Withdrawal.Spent.{
  TrackedSpentOutpoint, key_le, insert_by_key, sort_by_key, check_windows, preimage,
  tracked_utxo_spent_commitment,
}
use psy_doge_solana_cli.Withdrawal.Spent.Committed.{
  IsOutpoint, tracked_utxo_spent_commitment-Perm, tracked_utxo_spent_commitment-same,
}
use psy_doge_solana_cli.Withdrawal.Spent.Distinct.{Distinct, tracked_utxo_spent_commitment-ok_iff}
use psy_doge_solana_cli.Examples.Given.{repeat}

abbrev hash : List ℕ → List ℕ
hash bytes = bytes

abbrev outpoint : ℕ → ℕ → ℕ → TrackedSpentOutpoint
outpoint byte vout leaf_index = record {
  txid = repeat 32 byte;
  vout = vout;
  leaf_index = leaf_index;
}

abbrev given : List TrackedSpentOutpoint
given = outpoint 1 0 10 ∷ outpoint 2 1 5 ∷ []

abbrev reversed : List TrackedSpentOutpoint
reversed = outpoint 2 1 5 ∷ outpoint 1 0 10 ∷ []

abbrev root : List ℕ
root = repeat 32 7

given-commitment : tracked_utxo_spent_commitment hash root given ≡ ok (preimage root reversed)
unfolding tracked_utxo_spent_commitment sort_by_key insert_by_key key_le check_windows
given-commitment = refl

reversed-commitment : tracked_utxo_spent_commitment hash root reversed ≡ ok (preimage root reversed)
unfolding tracked_utxo_spent_commitment sort_by_key insert_by_key key_le check_windows
reversed-commitment = refl

tracked_utxo_spent_commitment-Perm_example :
    tracked_utxo_spent_commitment hash root given ≡ tracked_utxo_spent_commitment hash root reversed
tracked_utxo_spent_commitment-Perm_example =
    tracked_utxo_spent_commitment-Perm hash root given reversed
      (Perm.swap (outpoint 2 1 5) (outpoint 1 0 10) [])

tracked_utxo_spent_commitment-same_example :
    ((root ≡ root) × Perm given reversed)
    ⊎ ((a : List ℕ) × (b : List ℕ) × (a ≢ b) × (hash a ≡ hash b))
tracked_utxo_spent_commitment-same_example =
    tracked_utxo_spent_commitment-same hash root root given reversed (preimage root reversed) refl
      refl (omega arith) (omega arith) given-sized reversed-sized given-commitment
      reversed-commitment
  where
    first : IsOutpoint (outpoint 1 0 10)
    first = (refl, omega arith, omega arith)

    second : IsOutpoint (outpoint 2 1 5)
    second = (refl, omega arith, omega arith)

    given-sized : All IsOutpoint given
    given-sized = (first, (second, tt))

    reversed-sized : All IsOutpoint reversed
    reversed-sized = (second, (first, tt))

tracked_utxo_spent_commitment-ok_iff_example :
    ((h : List ℕ) × (tracked_utxo_spent_commitment hash root given ≡ ok h))
    ↔ ((1 ≤ length given) × Distinct given)
tracked_utxo_spent_commitment-ok_iff_example = tracked_utxo_spent_commitment-ok_iff hash root given
