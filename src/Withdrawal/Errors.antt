-- ===== src/Withdrawal/Errors.antt =====
-- The errors of the withdrawal commands, and those that they pass on.
use psy_doge_solana_cli.Common.{ℕ, List}
use psy_doge_solana_cli.Wormhole.Utx0
use psy_doge_solana_cli.Wormhole.Redeem as Redeem
use psy_doge_solana_cli.Network as Network
use psy_doge_solana_cli.Wormhole.Tx.Errors as TxErrors
use psy_doge_solana_cli.Wormhole.Manager.Errors as ManagerErrors

pub data Error : Type 0 where
  transaction_error : TxErrors.Error → Error
  manager_error : ManagerErrors.Error → Error
  payload_error : Utx0.Error → Error
  duplicate_signer wrong_signature_count invalid_signature : ℕ → Error
  signer_out_of_range : Error
  too_few_signatures : ℕ → ℕ → ℕ → Error
  hash_mismatch identity_mismatch metadata_mismatch : Error
  empty_batch wrong_txid missing_height missing_hash bad_block_hash absent_from_block : Error
  index_too_large : ℕ → Error
  tip_precedes : ℕ → ℕ → Error
  history_too_short : ℕ → ℕ → Error
  zero_recipient required_overflow : Error
  insufficient_funds below_dust : ℕ → ℕ → Error
  redeem_error : Redeem.Error → Error
  network_error : Network.Error → Error
  amount_overflow unequal_outputs drifted_bytes : Error
  wrong_required : ℕ → ℕ → Error
  foreign_address foreign_script : ℕ → Error
  store_error : List ℕ → Error
  no_reservation missing_reservation no_process process_drifted : Error
  no_transaction raw_hash_drifted no_txid range_underflow mappings_drifted links_drifted : Error
  not_signed statuses_drifted : Error
  missing_request request_drifted : ℕ → Error
  bad_reservation_status : Error
  graph_differs batch_failed ambiguous_status net_exceeds_gross : Error
  request_differs : ℕ → Error
  unexpected_outputs wrong_change_index wrong_change_value no_change_output bad_change_script :
      Error
  not_p2sh no_unsigned change_differs no_inputs unequal_references : Error
  bad_answer : Error
  electrs_get electrs_post : ℕ → List ℕ → Error
  returned_txid : List ℕ → Error
  payload_mismatch no_raw raw_hash_differs txid_differs not_confirmed batch_disappeared : Error
