-- ===== src/Wormhole/Tx/Wire.antt =====
-- The wire format of doge/src/wormhole/tx.rs: what is written, lowest byte first.
use psy_doge_solana_cli.Common.{
  ℕ, ◌%◌, List, [], ◌∷◌, ◌++◌, ltb, leb, if◌then◌else◌, length, le_bytes,
}

pub record TxIn : Type 0 where
  pub prev_txid_le : List ℕ
  pub vout : ℕ
  pub script_sig : List ℕ
  pub sequence : ℕ

pub record TxOut : Type 0 where
  pub value : ℕ
  pub script_pubkey : List ℕ

-- The bytes that `write_varint` appends.
unfoldable pub write_varint : ℕ → List ℕ
write_varint value =
    if ltb value 0xfd
    then value % 256 ∷ []
    else if leb value 0xffff
    then 0xfd ∷ le_bytes 2 value
    else if leb value 0xffff_ffff
    then 0xfe ∷ le_bytes 4 value
    else 0xff ∷ le_bytes 8 value

unfoldable pub write_input : TxIn → List ℕ
write_input input =
    input.prev_txid_le
    ++ (le_bytes 4 input.vout
        ++ (write_varint (length input.script_sig)
            ++ (input.script_sig ++ le_bytes 4 input.sequence)))

unfoldable pub write_inputs : List TxIn → List ℕ
write_inputs [] = []
write_inputs (i ∷ is) = write_input i ++ write_inputs is

unfoldable pub write_output : TxOut → List ℕ
write_output output =
    le_bytes 8 output.value ++ (write_varint (length output.script_pubkey) ++ output.script_pubkey)

unfoldable pub write_outputs : List TxOut → List ℕ
write_outputs [] = []
write_outputs (o ∷ os) = write_output o ++ write_outputs os

unfoldable pub serialize_transaction : ℕ → List TxIn → List TxOut → ℕ → List ℕ
serialize_transaction version inputs outputs locktime =
    le_bytes 4 version
    ++ (write_varint (length inputs)
        ++ (write_inputs inputs
            ++ (write_varint (length outputs) ++ (write_outputs outputs ++ le_bytes 4 locktime))))

-- The bytes that `push_data_inline` appends.
unfoldable pub push_data_inline : List ℕ → List ℕ
push_data_inline bytes =
    let len = length bytes in
    if leb len 0x4b
    then len % 256 ∷ bytes
    else if leb len 0xff
    then 0x4c ∷ len % 256 ∷ bytes
    else if leb len 0xffff
    then 0x4d ∷ (le_bytes 2 len ++ bytes)
    else 0x4e ∷ (le_bytes 4 len ++ bytes)
