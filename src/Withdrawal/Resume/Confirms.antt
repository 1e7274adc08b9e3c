-- ===== src/Withdrawal/Resume/Confirms.antt =====
-- What is written when a broadcast batch is confirmed, and behind which checks.
use psy_doge_solana_cli.Common.{
  none, get_elem?, reverse, eq_ignore_ascii_case, ℕ, ◌+◌, ◌≤◌, ◌<◌, ◌-◌, ◌≡◌, List, length, true,
  Option, some, Result, ok,
}
use psy_doge_solana_cli.Common.Effects.{call}
use psy_doge_solana_cli.Wormhole.Utx0.{Utx0UnlockPayload}
use psy_doge_solana_cli.Withdrawal.Errors.{Error, store_error}
use psy_doge_solana_cli.Withdrawal.Confirmed.{ConfirmedWithdrawal, ElectrsWithdrawalTransaction}
use psy_doge_solana_cli.Withdrawal.Change.Steps.{IsChange}
use psy_doge_solana_cli.Withdrawal.Graph.Linked.{IsLinked}
use psy_doge_solana_cli.Withdrawal.Store.{
  OperatorStatus, DogecoinTransaction, CustodyReservationStatus, CustodyUtxo, SnapshotBatch,
}
use psy_doge_solana_cli.Withdrawal.Graph.{OperatorStore, PersistedWithdrawalGraph}
use psy_doge_solana_cli.Withdrawal.Graph.Statuses.{HasStatus}
use psy_doge_solana_cli.Withdrawal.Environment.{Environment}

module _ (environment : Environment) {S : Type 0} (store : OperatorStore S) (batch : SnapshotBatch)
    (payload : Utx0UnlockPayload) (s : S) where
  -- The statuses of a graph that is broadcast by the transaction `txid`.
  pub record IsBroadcast (graph : PersistedWithdrawalGraph) (txid : List ℕ) : Type 0 where
    pub process : graph.process.status ≡ OperatorStatus.broadcast
    pub transaction : graph.transaction.status ≡ OperatorStatus.broadcast
    pub reservation : graph.reservation.status ≡ CustodyReservationStatus.broadcast
    pub spent_by : graph.reservation.spend_txid ≡ some txid
    pub requests :
        (index : ℕ)
        → batch.request_start_index ≤ index
        → index < batch.request_start_index + (batch.request_end_index - batch.request_start_index)
        → HasStatus store s OperatorStatus.broadcast index

  -- The block that Electrs shows the transaction `display_txid` in.
  pub record IsInBlock (display_txid : List ℕ) (confirmed : ConfirmedWithdrawal) : Type 0 where
    pub transaction : ElectrsWithdrawalTransaction
    pub shown : environment.electrs.transaction display_txid ≡ ok transaction
    pub named : eq_ignore_ascii_case transaction.txid display_txid ≡ true
    pub is_confirmed : transaction.status.confirmed ≡ true
    pub height : transaction.status.block_height ≡ some confirmed.block_height
    pub tip : ℕ
    pub tip_height : environment.electrs.tip_height ≡ ok tip
    pub depth : confirmed.block_height + confirmed.confirmations ≡ tip + 1
    pub block : List ℕ
    pub txids : List (List ℕ)
    pub listed : environment.electrs.block_txids block ≡ ok txids
    pub place :
        (txid : List ℕ) × (get_elem? txids confirmed.tx_index ≡ some txid)
        × (eq_ignore_ascii_case txid display_txid ≡ true)

  -- The change of a graph: none was kept, or it is the output that was kept.
  abbrev pub IsKept : PersistedWithdrawalGraph → ConfirmedWithdrawal → Option CustodyUtxo → Type 0
  IsKept graph confirmed none =
      (graph.process.return_output_amount_sats ≡ 0)
      × (length confirmed.transaction.vout ≡ length payload.outputs)
  IsKept graph confirmed (some utxo) =
      IsChange environment.packages environment.decode_hex environment.compute_combined_index
        environment.args.doge_network batch graph (length payload.outputs) confirmed utxo

  -- A graph whose transaction is confirmed, with its change.
  pub record IsConfirmed (graph : PersistedWithdrawalGraph) (confirmed : ConfirmedWithdrawal)
      (change : Option CustodyUtxo) : Type 0 where
    pub linked : IsLinked store s batch graph
    pub bytes : List ℕ
    pub txid : List ℕ
    pub raw : graph.transaction.raw_transaction ≡ some bytes
    pub has_txid : graph.transaction.txid ≡ some txid
    pub raw_hash : environment.packages.sha256 bytes ≡ graph.transaction.raw_hash
    pub same_txid : environment.packages.sha256 (environment.packages.sha256 bytes) ≡ txid
    pub is_broadcast : IsBroadcast graph txid
    pub in_block : IsInBlock (environment.packages.encode_hex (reverse txid)) confirmed
    pub kept : IsKept graph confirmed change

  -- A run that is the one write of a confirmed transaction and its change.
  pub record Confirms (run : S × Result Error (Unit {0})) : Type 0 where
    pub graph : PersistedWithdrawalGraph
    pub confirmed : ConfirmedWithdrawal
    pub change : Option CustodyUtxo
    pub is_confirmed : IsConfirmed graph confirmed change
    pub row : DogecoinTransaction
    pub status : row.status ≡ OperatorStatus.confirmed
    pub block :
        (row.block_hash ≡ some confirmed.block_hash)
        × (row.block_height ≡ some confirmed.block_height)
        × (row.confirmations ≡ confirmed.confirmations)
    pub same_transaction :
        (row.raw_hash ≡ graph.transaction.raw_hash)
        × (row.txid ≡ graph.transaction.txid)
        × (row.raw_transaction ≡ graph.transaction.raw_transaction)
    pub write :
        run
        ≡ call store_error
            (λ t. store.finalize_confirmed_snapshot t batch.solana_signature row change)
            s
