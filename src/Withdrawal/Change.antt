-- ===== src/Withdrawal/Change.antt =====
-- `derive_confirmed_change` and `fetch_confirmed_withdrawal` of
-- doge/src/commands/process_withdrawal.rs: the custody output that a confirmed withdrawal leaves.
--
-- The packages' functions, the reading of hexadecimal text, the index layout of the custody trees
-- and the three requests to Electrs are parameters.
pub mod Steps
pub mod Recovered
pub mod Spendable
use psy_doge_solana_cli.Common.{
  ℕ, ◌+◌, ◌^◌, List, [], ◌∷◌, map, reverse, slice, length, get_elem?, Bool, true, false, not, ◌&&◌,
  ◌||◌, ltb, ◌==◌, eqb, if◌then◌else◌, Option, none, some, Result, ok, err, bail_if, ok_or, map_err,
  ◌>>=◌, ◌>>◌, eq_ignore_ascii_case,
}
use psy_doge_solana_cli.Custody.{zero_bytes}
use psy_doge_solana_cli.Network.{DogeNetwork, encode_address}
use psy_doge_solana_cli.Wormhole.Utx0.{p2sh}
use psy_doge_solana_cli.Wormhole.Tx.{SelectedUtxo, TransactionOutput, UnsignedTransaction}
use psy_doge_solana_cli.Wormhole.Tx.Persisted.{from_persisted_bytes, byte_at}
use psy_doge_solana_cli.Wormhole.Manager.Local.{type_eqb}
use psy_doge_solana_cli.Withdrawal.Errors.{
  Error, transaction_error, network_error, wrong_txid, missing_hash, no_txid, unexpected_outputs,
  wrong_change_index, wrong_change_value, no_change_output, bad_change_script, not_p2sh,
  no_unsigned, change_differs, no_inputs, unequal_references, index_too_large,
}
use psy_doge_solana_cli.Withdrawal.Confirmed.{
  ElectrsWithdrawalTransaction, ElectrsWithdrawalOutput, ConfirmedWithdrawal,
  plan_confirmed_withdrawal,
}
use psy_doge_solana_cli.Withdrawal.Store.{CustodyUtxoStatus, CustodyUtxo, SnapshotBatch}
use psy_doge_solana_cli.Withdrawal.Graph.{PersistedWithdrawalGraph, any}
use psy_doge_solana_cli.Withdrawal.Prepared.{Packages, no_recipient}

-- What Electrs answers to the requests for a transaction, for the transactions of a block, and for
-- the height of the tip.
pub record ElectrsAnswers : Type 0 where
  pub transaction : List ℕ → Result Error ElectrsWithdrawalTransaction
  pub block_txids : List ℕ → Result Error (List (List ℕ))
  pub tip_height : Result Error ℕ

unfoldable pub fetch_confirmed_withdrawal :
    (List ℕ → Option (List ℕ)) → ElectrsAnswers → List ℕ → Result Error (Option ConfirmedWithdrawal)
fetch_confirmed_withdrawal parse_block_hash electrs display_txid = do
  transaction ← electrs.transaction display_txid
  bail_if (not (eq_ignore_ascii_case transaction.txid display_txid)) wrong_txid
  if not transaction.status.confirmed then ok none else do
    block_hash_text ← ok_or transaction.status.block_hash missing_hash
    block_txids ← electrs.block_txids block_hash_text
    tip_height ← electrs.tip_height
    plan_confirmed_withdrawal parse_block_hash transaction display_txid block_txids tip_height

-- `try_from` to a word of `w` bits.
unfoldable pub fits_word : ℕ → ℕ → Result Error ℕ
fits_word w n = if ltb n (2 ^ w) then ok n else err (index_too_large n)

-- `slice::last`
unfoldable pub last {ℓ} : {A : Type ℓ} → List A → Option A
last [] = none
last (x ∷ []) = some x
last (x ∷ (y ∷ ys)) = last (y ∷ ys)

unfoldable pub is_p2sh_script : List ℕ → Bool
unfolding byte_at
is_p2sh_script script =
    length script == 23 && (eqb (slice 0 2 script) (0xa9 ∷ 0x14 ∷ []) && byte_at script 22 == 0x87)

-- An input as it stands in the unsigned transaction, whose script is not looked at.
unfoldable pub placeholder_input : CustodyUtxo → SelectedUtxo
placeholder_input utxo = record {
  transaction_id = reverse utxo.txid;
  vout = utxo.vout;
  redeem_script = 0x51 ∷ [];
}

-- The change that the prepared transaction pays is the one that is confirmed.
unfoldable pub check_prepared_change :
    SnapshotBatch → List CustodyUtxo → ElectrsWithdrawalOutput → List ℕ → Result Error (Unit {0})
unfolding last placeholder_input type_eqb
check_prepared_change batch utxos output script_hash = do
  unsigned_bytes ← ok_or batch.unsigned_transaction no_unsigned
  recovered ←
      map_err transaction_error (from_persisted_bytes unsigned_bytes (map placeholder_input utxos))
  prepared_change ← ok_or (last recovered.logical_outputs) no_change_output
  bail_if
      (not (prepared_change.amount == output.value)
        || (not (type_eqb prepared_change.address_type p2sh)
            || not (eqb prepared_change.address script_hash)))
      change_differs

-- The key reference that the reserved outputs share.
unfoldable pub shared_key_reference : List CustodyUtxo → Result Error (List ℕ)
unfolding any
shared_key_reference utxos = do
  first ← ok_or (get_elem? utxos 0) no_inputs
  bail_if (any (λ utxo. not (eqb utxo.key_reference first.key_reference)) utxos) unequal_references
  ok first.key_reference

module _ (packages : Packages) (decode_hex : List ℕ → Option (List ℕ))
    (compute_combined_index : ℕ → ℕ → ℕ → ℕ) where
  -- The change, where there is one. The source ends on a graph without a transaction id, which
  -- `resume_broadcast_batch` has refused before.
  unfoldable pub confirmed_change :
      DogeNetwork
      → SnapshotBatch
      → PersistedWithdrawalGraph
      → ℕ
      → ConfirmedWithdrawal
      → Result Error CustodyUtxo
  unfolding fits_word last is_p2sh_script
  confirmed_change network batch graph withdrawal_output_count confirmed = do
    expected_vout ← fits_word 32 withdrawal_output_count
    bail_if (not (graph.process.return_output_index == expected_vout)) wrong_change_index
    bail_if (not (length confirmed.transaction.vout == withdrawal_output_count + 1))
        unexpected_outputs
    output ← ok_or (last confirmed.transaction.vout) no_change_output
    bail_if (not (output.value == graph.process.return_output_amount_sats)) wrong_change_value
    script ← ok_or (decode_hex output.scriptpubkey) bad_change_script
    bail_if (not (is_p2sh_script script)) not_p2sh
    let script_hash = slice 2 22 script
    check_prepared_change batch graph.reservation.utxos output script_hash
    key_reference ← shared_key_reference graph.reservation.utxos
    vout ← fits_word 16 expected_vout
    internal_txid ← ok_or graph.transaction.txid no_txid
    custody_address ←
        map_err network_error (encode_address packages.base58_check network 1 script_hash)
    ok (record {
      txid = internal_txid;
      vout = expected_vout;
      amount_sats = output.value;
      script_pubkey_hex = packages.encode_hex script;
      custody_address = custody_address;
      key_reference = key_reference;
      confirmation_block_hash = some confirmed.block_hash;
      confirmation_height = some confirmed.block_height;
      confirmations = confirmed.confirmations;
      leaf_index = compute_combined_index confirmed.block_height confirmed.tx_index vout;
      status = CustodyUtxoStatus.available;
      reservation_id = none;
      spend_txid = none;
      source_deposit_txid = none;
      source_solana_signature = some batch.solana_signature;
      spend_request_index = none;
      spend_process_signature = none;
      original_recipient_address = no_recipient;
    })

  unfoldable pub derive_confirmed_change :
      DogeNetwork
      → SnapshotBatch
      → PersistedWithdrawalGraph
      → ℕ
      → ConfirmedWithdrawal
      → Result Error (Option CustodyUtxo)
  derive_confirmed_change network batch graph withdrawal_output_count confirmed =
      if graph.process.return_output_amount_sats == 0
      then bail_if (not (length confirmed.transaction.vout == withdrawal_output_count))
          unexpected_outputs
        >> ok none
      else do
        change ← confirmed_change network batch graph withdrawal_output_count confirmed
        ok (some change)
