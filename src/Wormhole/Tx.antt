-- ===== src/Wormhole/Tx.antt =====
-- doge/src/wormhole/tx.rs: the Dogecoin transaction of a withdrawal.
--
-- A `[u8; 20]` or `[u8; 32]` is a list of numbers. `usize` has 64 bits. SHA-256 is a parameter.
pub mod Errors
pub mod Wire
pub mod Reader
pub mod Persisted
pub mod Sighash
use psy_doge_solana_cli.Common.{
  ℕ, zero, suc, ◌+◌, ◌^◌, List, [], ◌∷◌, ◌++◌, map, reverse, Bool, true, false, not, ◌&&◌, ◌||◌,
  ltb, leb, ◌==◌, if◌then◌else◌, length, get_elem?, set, Option, none, some, Result, ok, err,
  bail_if, ok_or, ◌>>=◌, ◌>>◌, le_bytes, bit_and,
}
use psy_doge_solana_cli.Wormhole.Utx0.{UtxoAddressType, p2pkh, p2sh}
use Errors.{Error, no_selected_inputs, no_outputs, input_out_of_range, no_redeem_script}
use Wire.{TxIn, TxOut, serialize_transaction, push_data_inline}

abbrev pub sighash_all_type : ℕ
sighash_all_type = 0x01

abbrev pub tx_version : ℕ
tx_version = 1

abbrev pub sequence_final : ℕ
sequence_final = 0xffff_ffff

pub record SelectedUtxo : Type 0 where
  -- in display order
  pub transaction_id : List ℕ
  pub vout : ℕ
  pub redeem_script : List ℕ

pub record TransactionOutput : Type 0 where
  pub amount : ℕ
  pub address_type : UtxoAddressType
  pub address : List ℕ

unfoldable pub p2pkh_script_pubkey : List ℕ → List ℕ
p2pkh_script_pubkey pubkey_hash = 0x76 ∷ 0xa9 ∷ 0x14 ∷ (pubkey_hash ++ (0x88 ∷ 0xac ∷ []))

unfoldable pub p2sh_script_pubkey : List ℕ → List ℕ
p2sh_script_pubkey script_hash = 0xa9 ∷ 0x14 ∷ (script_hash ++ (0x87 ∷ []))

unfoldable pub script_pub_key_for : UtxoAddressType → List ℕ → List ℕ
unfolding p2pkh_script_pubkey p2sh_script_pubkey
script_pub_key_for p2pkh address = p2pkh_script_pubkey address
script_pub_key_for p2sh address = p2sh_script_pubkey address

pub record UnsignedTransaction : Type 0 where
  pub version : ℕ
  pub inputs : List TxIn
  pub outputs : List TxOut
  pub logical_outputs : List TransactionOutput
  pub locktime : ℕ
  pub redeem_scripts : List (List ℕ)

-- The bodies of the two loops of `new`.
abbrev pub unsigned_input : SelectedUtxo → TxIn
unsigned_input input = record {
  prev_txid_le = reverse input.transaction_id;
  vout = input.vout;
  script_sig = [];
  sequence = sequence_final;
}

abbrev pub wire_output : TransactionOutput → TxOut
wire_output output = record {
  value = output.amount;
  script_pubkey = script_pub_key_for output.address_type output.address;
}

unfoldable pub is_empty {ℓ} : {A : Type ℓ} → List A → Bool
is_empty [] = true
is_empty (x ∷ xs) = false

unfoldable pub new : List SelectedUtxo → List TransactionOutput → Result Error UnsignedTransaction
unfolding is_empty
new inputs outputs = do
  bail_if (is_empty inputs) no_selected_inputs
  bail_if (is_empty outputs) no_outputs
  ok (record {
    version = tx_version;
    inputs = map unsigned_input inputs;
    outputs = map wire_output outputs;
    logical_outputs = outputs;
    locktime = 0;
    redeem_scripts = map (λ input. input.redeem_script) inputs;
  })

unfoldable pub input_count : UnsignedTransaction → ℕ
input_count tx = length tx.inputs

unfoldable pub serialize : UnsignedTransaction → List ℕ
serialize tx = serialize_transaction tx.version tx.inputs tx.outputs tx.locktime

-- The loop of `apply_script_sig` over the signatures.
unfoldable pub push_all : List (List ℕ) → List ℕ
push_all [] = []
push_all (s ∷ ss) = push_data_inline s ++ push_all ss

unfoldable pub apply_script_sig :
    UnsignedTransaction → ℕ → List (List ℕ) → Result Error UnsignedTransaction
apply_script_sig tx input_index signatures = do
  input ←
      ok_or (get_elem? tx.inputs input_index) (input_out_of_range input_index (length tx.inputs))
  redeem_script ← ok_or (get_elem? tx.redeem_scripts input_index) (no_redeem_script input_index)
  let script_sig = 0x00 ∷ (push_all signatures ++ push_data_inline redeem_script)
  ok (record tx { inputs = set tx.inputs input_index (record input { script_sig = script_sig }) })
