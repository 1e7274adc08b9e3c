-- ===== src/Wormhole/Tx/Persisted.antt =====
-- `UnsignedTransaction::from_persisted_bytes` of doge/src/wormhole/tx.rs: the recovery of an
-- unsigned transaction from durable bytes and the inputs of the custody reservation.
pub mod Outputs
pub mod RoundTrip
pub mod Recovered
use psy_doge_solana_cli.Common.{
  ℕ, zero, suc, ◌+◌, List, [], ◌∷◌, map, reverse, Bool, true, false, not, ◌&&◌, ◌||◌, ltb, ◌==◌,
  eqb, if◌then◌else◌, length, slice, drop, get_elem?, Option, none, some, Result, ok, err, map_err,
}
use psy_doge_solana_cli.Wormhole.Utx0.{UtxoAddressType, p2pkh, p2sh}
use psy_doge_solana_cli.Wormhole.Tx.{
  SelectedUtxo, TransactionOutput, UnsignedTransaction, tx_version, sequence_final, serialize,
  is_empty,
}
use psy_doge_solana_cli.Wormhole.Tx.Errors
use psy_doge_solana_cli.Wormhole.Tx.Errors.{
  Error, input_count_field, input_transaction_id, input_vout, input_script_length, input_sequence,
  output_count_field, output_value, output_script_length, output_script_pubkey, no_selected_inputs,
  persisted_no_outputs, unsupported_version, too_many_inputs, input_count_mismatch,
  contains_script_sig, non_final_sequence, differs_from_reservation, too_many_outputs,
  output_script_too_long, unsupported_script, decode_output, nonzero_locktime, not_canonical,
}
use psy_doge_solana_cli.Wormhole.Tx.Wire.{TxIn, TxOut}
use psy_doge_solana_cli.Wormhole.Tx.Reader.{
  Reader, Read, ◌>>=◌, ◌>>◌, pure, lift, reject_if, read_exact, read_le, read_count, finish,
}

abbrev pub max_persisted_inputs : ℕ
max_persisted_inputs = 1_000

abbrev pub max_persisted_outputs : ℕ
max_persisted_outputs = 320

abbrev pub max_standard_output_script_len : ℕ
max_standard_output_script_len = 25

-- `script[i]`, at an index that the length test before it has checked.
unfoldable pub byte_at : List ℕ → ℕ → ℕ
byte_at script i = elim (get_elem? script i) [ none ↦ 0 | some b ↦ b ]

unfoldable pub parse_standard_output : List ℕ → Result Error (UtxoAddressType × List ℕ)
parse_standard_output script =
    if length script == 25
      && (eqb (slice 0 3 script) (0x76 ∷ 0xa9 ∷ 0x14 ∷ [])
          && eqb (drop 23 script) (0x88 ∷ 0xac ∷ []))
    then ok (p2pkh, slice 3 23 script)
    else if length script == 23
        && (eqb (slice 0 2 script) (0xa9 ∷ 0x14 ∷ []) && byte_at script 22 == 0x87)
    then ok (p2sh, slice 2 22 script)
    else err unsupported_script

-- A round of the loop over the inputs.
unfoldable pub read_input : ℕ → SelectedUtxo → Read TxIn
read_input index selected = do
  prev_txid_le ← read_exact 32 input_transaction_id
  vout ← read_le 4 input_vout
  script_len ← read_count input_script_length
  reject_if (not (script_len == 0)) (contains_script_sig index)
  sequence ← read_le 4 input_sequence
  reject_if (not (sequence == sequence_final)) (non_final_sequence index)
  let expected_prev_txid_le = reverse selected.transaction_id
  reject_if (not (eqb prev_txid_le expected_prev_txid_le) || not (vout == selected.vout))
      (differs_from_reservation index)
  pure (record { prev_txid_le = prev_txid_le; vout = vout; script_sig = []; sequence = sequence })

unfoldable pub read_inputs : ℕ → List SelectedUtxo → Read (List TxIn)
read_inputs index [] = pure []
read_inputs index (s ∷ ss) = do
  input ← read_input index s
  inputs ← read_inputs (index + 1) ss
  pure (input ∷ inputs)

-- A round of the loop over the outputs.
unfoldable pub read_output : ℕ → Read (TxOut × TransactionOutput)
read_output index = do
  value ← read_le 8 output_value
  script_len ← read_count output_script_length
  reject_if (ltb max_standard_output_script_len script_len) (output_script_too_long index)
  script_pubkey ← read_exact script_len output_script_pubkey
  (address_type, address) ←
      lift (map_err (decode_output index) (parse_standard_output script_pubkey))
  pure (
    record { value = value; script_pubkey = script_pubkey },
    record { amount = value; address_type = address_type; address = address },
  )

-- `count` outputs, numbered from `index` on.
unfoldable pub read_outputs : ℕ → ℕ → Read (List (TxOut × TransactionOutput))
read_outputs index zero = pure []
read_outputs index (suc count) = do
  output ← read_output index
  outputs ← read_outputs (index + 1) count
  pure (output ∷ outputs)

-- The part of `from_persisted_bytes` that reads, in four steps.
unfoldable pub read_version : Read ℕ
read_version = do
  version ← read_le 4 Errors.version
  reject_if (not (version == tx_version)) (unsupported_version version)
  pure version

unfoldable pub read_all_inputs : List SelectedUtxo → Read (List TxIn)
read_all_inputs inputs = do
  input_count ← read_count input_count_field
  reject_if (ltb max_persisted_inputs input_count) (too_many_inputs input_count)
  reject_if (not (input_count == length inputs)) (input_count_mismatch input_count (length inputs))
  read_inputs 0 inputs

unfoldable pub read_all_outputs : Read (List (TxOut × TransactionOutput))
read_all_outputs = do
  output_count ← read_count output_count_field
  reject_if (ltb max_persisted_outputs output_count) (too_many_outputs output_count)
  reject_if (output_count == 0) persisted_no_outputs
  read_outputs 0 output_count

unfoldable pub read_locktime : Read ℕ
read_locktime = do
  locktime ← read_le 4 Errors.locktime
  reject_if (not (locktime == 0)) nonzero_locktime
  pure locktime

unfoldable pub read_fields : List SelectedUtxo → Read UnsignedTransaction
read_fields inputs = do
  reject_if (is_empty inputs) no_selected_inputs
  version ← read_version
  tx_inputs ← read_all_inputs inputs
  outputs ← read_all_outputs
  locktime ← read_locktime
  pure (record {
    version = version;
    inputs = tx_inputs;
    outputs = map (λ o. o.0) outputs;
    logical_outputs = map (λ o. o.1) outputs;
    locktime = locktime;
    redeem_scripts = map (λ input. input.redeem_script) inputs;
  })

unfoldable pub read_transaction : List ℕ → List SelectedUtxo → Read UnsignedTransaction
read_transaction bytes inputs = do
  transaction ← read_fields inputs
  finish
  reject_if (not (eqb (serialize transaction) bytes)) not_canonical
  pure transaction

unfoldable pub from_persisted_bytes : List ℕ → List SelectedUtxo → Result Error UnsignedTransaction
from_persisted_bytes bytes inputs =
    elim (read_transaction bytes inputs (record { bytes = bytes; offset = 0 })) [
      | ok (transaction, reader) ↦ ok transaction
      | err e ↦ err e
    ]
