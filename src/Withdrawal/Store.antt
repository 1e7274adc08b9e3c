-- ===== src/Withdrawal/Store.antt =====
-- The rows of the operator's store, with the fields that doge/src/commands/process_withdrawal.rs
-- writes and reads. The store is the doge_bridge_client package's.
--
-- A text is the list of its bytes; so are a hash, a transaction id and a key.
use psy_doge_solana_cli.Common.{
  ℕ, ◌≡◌, ap, List, Bool, true, false, ◌==◌, ==→eq, Option, none, some, eqb, eqb→eq,
}
use psy_doge_solana_cli.Common.Int.{ℤ}

pub data OperatorStatus : Type 0 where
  observed snapshotted constructed signed broadcast confirmed failed : OperatorStatus

unfoldable pub status_eqb : OperatorStatus → OperatorStatus → Bool
status_eqb observed observed = true
status_eqb snapshotted snapshotted = true
status_eqb constructed constructed = true
status_eqb signed signed = true
status_eqb broadcast broadcast = true
status_eqb confirmed confirmed = true
status_eqb failed failed = true
status_eqb _ _ = false

pub data CustodyReservationStatus : Type 0 where
  reserved broadcast released spent : CustodyReservationStatus

unfoldable pub reservation_status_eqb : CustodyReservationStatus → CustodyReservationStatus → Bool
reservation_status_eqb CustodyReservationStatus.reserved CustodyReservationStatus.reserved = true
reservation_status_eqb CustodyReservationStatus.broadcast CustodyReservationStatus.broadcast = true
reservation_status_eqb CustodyReservationStatus.released CustodyReservationStatus.released = true
reservation_status_eqb CustodyReservationStatus.spent CustodyReservationStatus.spent = true
reservation_status_eqb _ _ = false

pub data CustodyUtxoStatus : Type 0 where
  available reserved broadcast spent : CustodyUtxoStatus

unfoldable pub utxo_status_eqb : CustodyUtxoStatus → CustodyUtxoStatus → Bool
utxo_status_eqb CustodyUtxoStatus.available CustodyUtxoStatus.available = true
utxo_status_eqb CustodyUtxoStatus.reserved CustodyUtxoStatus.reserved = true
utxo_status_eqb CustodyUtxoStatus.broadcast CustodyUtxoStatus.broadcast = true
utxo_status_eqb CustodyUtxoStatus.spent CustodyUtxoStatus.spent = true
utxo_status_eqb _ _ = false

pub record CustodyUtxo : Type 0 where
  -- in internal order
  pub txid : List ℕ
  pub vout : ℕ
  pub amount_sats : ℕ
  pub script_pubkey_hex : List ℕ
  pub custody_address : List ℕ
  pub key_reference : List ℕ
  pub confirmation_block_hash : Option (List ℕ)
  pub confirmation_height : Option ℕ
  pub confirmations : ℕ
  pub leaf_index : ℕ
  pub status : CustodyUtxoStatus
  pub reservation_id : Option (List ℕ)
  pub spend_txid : Option (List ℕ)
  pub source_deposit_txid : Option (List ℕ)
  pub source_solana_signature : Option (List ℕ)
  pub spend_request_index : Option ℕ
  pub spend_process_signature : Option (List ℕ)
  pub original_recipient_address : List ℕ

pub record CustodyReservation : Type 0 where
  pub reservation_id : List ℕ
  pub required_amount_sats : ℕ
  pub selected_amount_sats : ℕ
  pub status : CustodyReservationStatus
  pub spend_txid : Option (List ℕ)
  pub request_index : Option ℕ
  pub process_solana_signature : Option (List ℕ)
  pub utxos : List CustodyUtxo

pub record SnapshotBatch : Type 0 where
  pub solana_signature : List ℕ
  pub solana_slot : ℕ
  pub block_time : Option ℤ
  pub request_start_index : ℕ
  pub request_end_index : ℕ
  pub snapshot_root : List ℕ
  pub payload : List ℕ
  pub payload_hash : List ℕ
  pub wormhole_sequence : ℕ
  pub solana_transaction : Option (List ℕ)
  pub unsigned_transaction : Option (List ℕ)
  pub reservation_id : Option (List ℕ)
  pub status : OperatorStatus

pub record DogecoinTransaction : Type 0 where
  pub raw_hash : List ℕ
  pub txid : Option (List ℕ)
  pub raw_transaction : Option (List ℕ)
  pub status : OperatorStatus
  pub block_hash : Option (List ℕ)
  pub block_height : Option ℕ
  pub confirmations : ℕ

pub record ProcessWithdrawal : Type 0 where
  pub solana_signature : List ℕ
  pub solana_slot : ℕ
  pub block_time : Option ℤ
  pub request_start_index : ℕ
  pub request_end_index : ℕ
  pub snapshot_root : List ℕ
  pub dogecoin_raw_hash : List ℕ
  pub return_output_index : ℕ
  pub return_output_amount_sats : ℕ
  pub old_spent_txo_root : List ℕ
  pub new_spent_txo_root : List ℕ
  pub status : OperatorStatus

pub record WithdrawalRequest : Type 0 where
  pub request_index : ℕ
  pub solana_signature : List ℕ
  pub solana_slot : ℕ
  pub block_time : Option ℤ
  pub user_pubkey : List ℕ
  pub gross_amount_sats : ℕ
  pub fee_amount_sats : ℕ
  pub net_amount_sats : ℕ
  pub address_type : ℕ
  pub recipient : List ℕ
  pub status : OperatorStatus

-- A request and the transaction that pays it.
pub record Mapping : Type 0 where
  pub request_index : ℕ
  pub process_solana_signature : List ℕ
  pub dogecoin_txid : List ℕ

-- `value == Some(wanted)` of a text, and of a number.
unfoldable pub is_text : Option (List ℕ) → List ℕ → Bool
is_text none wanted = false
is_text (some value) wanted = eqb value wanted

pub is_text→eq : (o : Option (List ℕ)) (t : List ℕ) → is_text o t ≡ true → o ≡ some t
unfolding is_text
is_text→eq none t e = cc
is_text→eq (some v) t e = ap some (eqb→eq v t e)

unfoldable pub is_number : Option ℕ → ℕ → Bool
is_number none wanted = false
is_number (some value) wanted = value == wanted

pub is_number→eq : (o : Option ℕ) (n : ℕ) → is_number o n ≡ true → o ≡ some n
unfolding is_number
is_number→eq none n e = cc
is_number→eq (some v) n e = ap some (==→eq v n e)

-- `is_some`
unfoldable pub has_text : Option (List ℕ) → Bool
has_text none = false
has_text (some value) = true
