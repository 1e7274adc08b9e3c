-- ===== src/Withdrawal/Environment.antt =====
-- What a batch is taken up with, and `continue_snapshot_batch` of
-- doge/src/commands/process_withdrawal.rs as far as the managers' signatures.
--
-- The answers of the network are parameters: what the manager service and Electrs return, and
-- whether the evidence file is written, whose text is left out.
pub mod Managed
use psy_doge_solana_cli.Common.{
  ℕ, List, Bool, if◌then◌else◌, Option, some, Result, ok, ok_or, map_err, ◌>>=◌, ◌>>◌,
}
use psy_doge_solana_cli.Wormhole.Utx0.{Utx0UnlockPayload}
use psy_doge_solana_cli.Wormhole.Tx.{UnsignedTransaction}
use psy_doge_solana_cli.Wormhole.Manager.Set.{ManagerSet, manager_set_for_index}
use psy_doge_solana_cli.Wormhole.Manager.Errors as ManagerErrors
use psy_doge_solana_cli.Wormhole.Manager.Signatures.{Secp256k1, ManagerSignatures}
use psy_doge_solana_cli.Withdrawal.Errors.{
  Error, store_error, manager_error, no_reservation, missing_reservation, no_unsigned,
}
use psy_doge_solana_cli.Withdrawal.Approval.{assert_vaa_and_manager}
use psy_doge_solana_cli.Withdrawal.Signing.{apply_manager_signatures}
use psy_doge_solana_cli.Withdrawal.Change.{ElectrsAnswers}
use psy_doge_solana_cli.Withdrawal.Store.{SnapshotBatch}
use psy_doge_solana_cli.Withdrawal.Graph.{OperatorStore}
use psy_doge_solana_cli.Withdrawal.Prepared.{
  Packages, Args, PreparedTransaction, prepared_from_reservation,
}

-- The packages and the arguments, and what the outside answers.
pub record Environment : Type 0 where
  pub packages : Packages
  pub keccak256 : List ℕ → List ℕ
  pub secp : Secp256k1
  pub decode_hex : List ℕ → Option (List ℕ)
  pub parse_block_hash : List ℕ → Option (List ℕ)
  pub compute_combined_index : ℕ → ℕ → ℕ → ℕ
  pub args : Args
  pub manager_set_index : ℕ
  pub manager_signing_enabled : Bool
  pub broadcast_enabled : Bool
  pub official_testnet_manager_set_1 : Result ManagerErrors.Error ManagerSet
  pub register_unsigned_transaction : PreparedTransaction → Result Error (Unit {0})
  pub manager_signatures : Result Error ManagerSignatures
  pub signed_vaa : Result Error (List ℕ)
  pub broadcast : List ℕ → List ℕ → Result Error (Unit {0})
  pub electrs : ElectrsAnswers
  pub write_evidence : Result Error (Unit {0})

module _ (environment : Environment) {S : Type 0} (store : OperatorStore S) where
  -- The transaction of a batch as it is prepared, and as the managers have signed it.
  unfoldable pub signed_by_managers :
      S
      → List ℕ
      → SnapshotBatch
      → Utx0UnlockPayload
      → Result Error (PreparedTransaction × UnsignedTransaction)
  signed_by_managers s emitter batch payload = do
    manager_set ← map_err manager_error (
        manager_set_for_index environment.official_testnet_manager_set_1
          payload.delegated_manager_set_index)
    reservation_id ← ok_or batch.reservation_id no_reservation
    found ← map_err store_error (store.load_reservation s reservation_id)
    reservation ← ok_or found missing_reservation
    persisted_unsigned ← ok_or batch.unsigned_transaction no_unsigned
    prepared ←
        prepared_from_reservation environment.packages environment.args emitter payload manager_set
          reservation (some persisted_unsigned)
    if environment.manager_signing_enabled
        then environment.register_unsigned_transaction prepared
        else ok tt
    signatures ← environment.manager_signatures
    signed_vaa ← environment.signed_vaa
    assert_vaa_and_manager environment.keccak256 signed_vaa signatures emitter
        batch.wormhole_sequence payload manager_set
    transaction ←
        apply_manager_signatures environment.packages.sha256 environment.secp prepared.transaction
          signatures manager_set
    ok (prepared, transaction)
