-- ===== src/Withdrawal/Graph/Tested.antt =====
-- What the tests on the rows of a batch say.
use psy_doge_solana_cli.Common.{
  ℕ, ◌+◌, ◌≤◌, ◌≡◌, List, [], ◌∷◌, true, false, eqb→eq, length, All, some, arith,
}
use psy_doge_solana_cli.Wormhole.Tx.{is_empty}
use psy_doge_solana_cli.Withdrawal.Store.{
  CustodyUtxo, CustodyReservation, SnapshotBatch, ProcessWithdrawal, Mapping, is_text→eq,
  is_number→eq,
}
use psy_doge_solana_cli.Withdrawal.Graph.{
  any, same_batch, any_mapping_drifted, utxo_drifted, reservation_drifted,
}

-- A reserved output that is to be spent by the batch.
abbrev pub IsHeld : SnapshotBatch → List ℕ → CustodyUtxo → Type 0
IsHeld batch id utxo =
    (utxo.reservation_id ≡ some id)
    × (utxo.spend_request_index ≡ some batch.request_start_index)
    × (utxo.spend_process_signature ≡ some batch.solana_signature)

-- The request that stands in the place of a mapping, paid by the transaction.
abbrev pub AreMapped : SnapshotBatch → List ℕ → ℕ → List Mapping → Type 0
AreMapped batch txid offset [] = Unit
AreMapped batch txid offset (m ∷ ms) =
    ((m.request_index ≡ batch.request_start_index + offset)
      × (m.process_solana_signature ≡ batch.solana_signature)
      × (m.dogecoin_txid ≡ txid))
    × AreMapped batch txid (offset + 1) ms

pub mapped :
    (batch : SnapshotBatch) (txid : List ℕ) (offset : ℕ) (ms : List Mapping)
    → any_mapping_drifted batch txid offset ms ≡ false
    → AreMapped batch txid offset ms
unfolding any_mapping_drifted
mapped batch txid offset [] e = tt
mapped batch txid offset (m ∷ ms) e = ground (
  arith,
  eqb→eq m.process_solana_signature batch.solana_signature,
  eqb→eq m.dogecoin_txid txid,
  mapped batch txid (offset + 1) ms,
)

held :
    (batch : SnapshotBatch) (id : List ℕ) (us : List CustodyUtxo)
    → any (utxo_drifted batch id) us ≡ false
    → All (IsHeld batch id) us
unfolding any utxo_drifted
held batch id [] e = tt
held batch id (u ∷ us) e = ground (
  arith,
  is_text→eq u.reservation_id id,
  is_number→eq u.spend_request_index batch.request_start_index,
  is_text→eq u.spend_process_signature batch.solana_signature,
  held batch id us,
)

nonempty : {A : Type 0} (l : List A) → is_empty l ≡ false → 1 ≤ length l
unfolding is_empty
nonempty [] e = cc
nonempty (x ∷ xs) e = omega arith

module _ (batch : SnapshotBatch) where
  pub same_facts :
      (process : ProcessWithdrawal)
      → same_batch process batch ≡ true
      → (process.solana_signature ≡ batch.solana_signature)
        × (process.request_start_index ≡ batch.request_start_index)
        × (process.request_end_index ≡ batch.request_end_index)
        × (process.snapshot_root ≡ batch.snapshot_root)
  unfolding same_batch
  same_facts process e = ground (
    arith,
    eqb→eq process.solana_signature batch.solana_signature,
    eqb→eq process.snapshot_root batch.snapshot_root,
  )

  pub links :
      (id : List ℕ) (row : CustodyReservation)
      → reservation_drifted batch id row ≡ false
      → (row.request_index ≡ some batch.request_start_index)
        × (row.process_solana_signature ≡ some batch.solana_signature)
        × (1 ≤ length row.utxos)
        × All (IsHeld batch id) row.utxos
  unfolding reservation_drifted
  links id row e = (
    ground (arith, is_number→eq row.request_index batch.request_start_index),
    ground (arith, is_text→eq row.process_solana_signature batch.solana_signature),
    nonempty row.utxos (ground arith),
    held batch id row.utxos (ground arith),
  )
