-- ===== src/Wormhole/Tx/Sighash.antt =====
-- The signature hashes, the transaction id and `apply_script_sig` of doge/src/wormhole/tx.rs.
--
-- `sha256` is the digest of the sha2 package.
pub mod Signing
use psy_doge_solana_cli.Common.{
  ℕ, zero, suc, ◌+◌, List, [], ◌∷◌, ◌++◌, map, reverse, Bool, true, false, not, ◌&&◌, ◌||◌, leb,
  ◌==◌, if◌then◌else◌, length, get_elem?, Option, none, some, Result, ok, err, bail_if, ok_or,
  ◌>>=◌, ◌>>◌, le_bytes, bit_and,
}
use psy_doge_solana_cli.Wormhole.Tx.{UnsignedTransaction, serialize, sighash_all_type}
use psy_doge_solana_cli.Wormhole.Tx.Errors.{Error, input_out_of_range, no_redeem_script}
use psy_doge_solana_cli.Wormhole.Tx.Wire.{TxIn, TxOut, serialize_transaction}

abbrev pub without_script_sig : TxIn → TxIn
without_script_sig input = record input { script_sig = [] }

-- `inputs[index].script_sig = script`
unfoldable pub set_script_sig : List TxIn → ℕ → List ℕ → List TxIn
set_script_sig [] index script = []
set_script_sig (i ∷ is) zero script = record i { script_sig = script } ∷ is
set_script_sig (i ∷ is) (suc index) script = i ∷ set_script_sig is index script

-- The loop that resets the sequence of each input but one; `index` is that of the first input.
unfoldable pub reset_sequences : ℕ → ℕ → List TxIn → List TxIn
reset_sequences signed_index index [] = []
reset_sequences signed_index index (i ∷ is) =
    (if index == signed_index then i else record i { sequence = 0 })
    ∷ reset_sequences signed_index (index + 1) is

-- The inputs, the outputs and the bytes that are hashed.
unfoldable pub sighash_inputs : UnsignedTransaction → ℕ → ℕ → List ℕ → List TxIn
sighash_inputs tx input_index hash_type redeem_script =
    let base = bit_and hash_type 0x1f in
    let anyone_can_pay = not (bit_and hash_type 0x80 == 0) in
    let signed_index = if anyone_can_pay then 0 else input_index in
    let inputs =
      if anyone_can_pay
      then elim (get_elem? tx.inputs input_index) [ none ↦ [] | some input ↦ input ∷ [] ]
      else map without_script_sig tx.inputs in
    let inputs = set_script_sig inputs signed_index redeem_script in
    if not anyone_can_pay && (base == 0x02 || base == 0x03)
    then reset_sequences signed_index 0 inputs
    else inputs

unfoldable pub sighash_outputs : UnsignedTransaction → ℕ → ℕ → List TxOut
sighash_outputs tx input_index hash_type =
    let base = bit_and hash_type 0x1f in
    if base == 0x02
    then []
    else if base == 0x03
    then elim (get_elem? tx.outputs input_index) [ none ↦ [] | some output ↦ output ∷ [] ]
    else tx.outputs

unfoldable pub sighash_preimage : UnsignedTransaction → ℕ → ℕ → List ℕ → List ℕ
sighash_preimage tx input_index hash_type redeem_script =
    serialize_transaction tx.version (sighash_inputs tx input_index hash_type redeem_script)
      (sighash_outputs tx input_index hash_type) tx.locktime
    ++ le_bytes 4 hash_type

module _ (sha256 : List ℕ → List ℕ) where
  unfoldable pub double_sha256 : List ℕ → List ℕ
  double_sha256 bytes = sha256 (sha256 bytes)

  unfoldable pub sighash : UnsignedTransaction → ℕ → ℕ → Result Error (List ℕ)
  sighash tx input_index hash_type = do
    bail_if (leb (length tx.inputs) input_index) (input_out_of_range input_index (length tx.inputs))
    redeem_script ← ok_or (get_elem? tx.redeem_scripts input_index) (no_redeem_script input_index)
    let base = bit_and hash_type 0x1f
    if base == 0x03 && leb (length tx.outputs) input_index
        then ok (double_sha256 (0x01 ∷ []))
        else ok (double_sha256 (sighash_preimage tx input_index hash_type redeem_script))

  unfoldable pub sighash_all : UnsignedTransaction → ℕ → Result Error (List ℕ)
  sighash_all tx input_index = sighash tx input_index sighash_all_type

  -- in display order
  unfoldable pub txid : UnsignedTransaction → List ℕ
  txid tx = reverse (double_sha256 (serialize tx))
