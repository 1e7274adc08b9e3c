-- ===== src/Withdrawal/Resume/Writes.antt =====
-- What is written when a batch is signed, and what is then known of it.
use psy_doge_solana_cli.Common.{ℕ, ◌≡◌, List, length, get_elem?, All, some, Result, ok}
use psy_doge_solana_cli.Common.Effects.{Effect, ◌>>◌, call}
use psy_doge_solana_cli.Wormhole.Utx0
use psy_doge_solana_cli.Wormhole.Utx0.{Utx0UnlockPayload}
use psy_doge_solana_cli.Wormhole.Tx as Transaction
use psy_doge_solana_cli.Wormhole.Tx.{UnsignedTransaction}
use psy_doge_solana_cli.Wormhole.Tx.Wire.{TxIn}
use psy_doge_solana_cli.Wormhole.Tx.Sighash.{sighash_all}
use psy_doge_solana_cli.Wormhole.Manager.Set.{ManagerSet, manager_set_for_index}
use psy_doge_solana_cli.Wormhole.Manager.Vaa.{VaaHeader, parse_vaa, vaa_signing_digest}
use psy_doge_solana_cli.Wormhole.Manager.Signatures.{ManagerSignatures}
use psy_doge_solana_cli.Withdrawal.Errors.{Error, store_error}
use psy_doge_solana_cli.Withdrawal.Signing.{Signature}
use psy_doge_solana_cli.Withdrawal.Signing.Order.{Ascending}
use psy_doge_solana_cli.Withdrawal.Signing.Collected.{Verified}
use psy_doge_solana_cli.Withdrawal.Signing.Applied.{signed_input}
use psy_doge_solana_cli.Withdrawal.Store.{
  OperatorStatus, CustodyReservation, SnapshotBatch, DogecoinTransaction, ProcessWithdrawal,
}
use psy_doge_solana_cli.Withdrawal.Graph.{OperatorStore}
use psy_doge_solana_cli.Withdrawal.Prepared.{PreparedTransaction}
use psy_doge_solana_cli.Withdrawal.Prepared.Conserves.{IsPrepared}
use psy_doge_solana_cli.Withdrawal.Environment.{Environment}
use psy_doge_solana_cli.Withdrawal.Environment.Managed.{Managed}

module _ (environment : Environment) {S : Type 0} (store : OperatorStore S) (emitter : List ℕ)
    (batch : SnapshotBatch) (payload : Utx0UnlockPayload) (s : S) where
  -- The managers' VAA carries the payload, from the emitter and under the batch's sequence.
  pub record IsApproved (manager_set : ManagerSet) : Type 0 where
    pub signatures : ManagerSignatures
    pub bytes : List ℕ
    pub digest : vaa_signing_digest environment.keccak256 bytes ≡ ok signatures.vaa_hash
    pub vaa : VaaHeader
    pub read : parse_vaa bytes ≡ ok vaa
    pub sender : (vaa.emitter_chain ≡ 1) × (vaa.emitter_address ≡ emitter)
    pub sequence : vaa.sequence ≡ batch.wormhole_sequence
    pub carries : Utx0.parse vaa.payload ≡ ok payload
    pub threshold : (signatures.required ≡ manager_set.m) × (signatures.total ≡ manager_set.n)

  -- The input `i` with the signatures of exactly `m` managers.
  abbrev pub IsSignedInput :
      ManagerSet → UnsignedTransaction → UnsignedTransaction → ℕ → TxIn → Type 0
  IsSignedInput manager_set unsigned transaction i input =
      (redeem sighash : List ℕ) × (chosen : List Signature) × (get_elem? unsigned.redeem_scripts i
        ≡ some redeem)
      × (sighash_all environment.packages.sha256 unsigned i ≡ ok sighash)
      × (length chosen ≡ manager_set.m)
      × Ascending chosen
      × All (Verified environment.secp manager_set sighash) chosen
      × (get_elem? transaction.inputs i ≡ some (signed_input input chosen redeem))

  -- A transaction that is signed for the batch.
  pub record IsSigned (prepared : PreparedTransaction) (transaction : UnsignedTransaction)
      : Type 0 where
    pub manager_set : ManagerSet
    pub of_index :
        manager_set_for_index environment.official_testnet_manager_set_1
          payload.delegated_manager_set_index
        ≡ ok manager_set
    pub id : List ℕ
    pub own : batch.reservation_id ≡ some id
    pub reservation : CustodyReservation
    pub held : store.load_reservation s id ≡ ok (some reservation)
    pub is_prepared :
        IsPrepared environment.packages environment.args emitter payload manager_set reservation
          prepared
    pub kept : batch.unsigned_transaction ≡ some (Transaction.serialize prepared.transaction)
    pub approved : IsApproved manager_set
    pub inputs_only : transaction ≡ record prepared.transaction { inputs = transaction.inputs }
    pub signed :
        (i : ℕ) (input : TxIn)
        → get_elem? prepared.transaction.inputs i ≡ some input
        → IsSignedInput manager_set prepared.transaction transaction i input

  -- The rows of a signed transaction.
  pub record AreRows (prepared : PreparedTransaction) (transaction : UnsignedTransaction)
      (row : DogecoinTransaction) (process : ProcessWithdrawal) : Type 0 where
    pub bytes : row.raw_transaction ≡ some (Transaction.serialize transaction)
    pub raw_hash : row.raw_hash ≡ environment.packages.sha256 (Transaction.serialize transaction)
    pub txid :
        row.txid
        ≡ some (
            environment.packages.sha256
              (environment.packages.sha256 (Transaction.serialize transaction)))
    pub statuses : (row.status ≡ OperatorStatus.signed) × (process.status ≡ OperatorStatus.signed)
    pub unconfirmed : row.confirmations ≡ 0
    pub same_hash : process.dogecoin_raw_hash ≡ row.raw_hash
    pub range :
        (process.request_start_index ≡ batch.request_start_index)
        × (process.request_end_index ≡ batch.request_end_index)
    pub change :
        (process.return_output_index ≡ length payload.outputs)
        × (process.return_output_amount_sats ≡ prepared.plan.change_sats)

  -- A run of which the first write stores a transaction that is signed for the batch.
  pub record Signs (run : S × Result Error (Unit {0})) : Type 0 where
    pub prepared : PreparedTransaction
    pub transaction : UnsignedTransaction
    pub is_signed : IsSigned prepared transaction
    pub row : DogecoinTransaction
    pub process : ProcessWithdrawal
    pub are_rows : AreRows prepared transaction row process
    pub rest : Effect Error S (Unit {0})
    pub first_write :
        run
        ≡ (call store_error (λ t.
                store.persist_signed_snapshot t batch.solana_signature prepared.reservation_id row
                  process)
              >> rest)
            s
