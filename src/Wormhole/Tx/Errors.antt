-- ===== src/Wormhole/Tx/Errors.antt =====
-- The errors of doge/src/wormhole/tx.rs; `Field` is the name that a reading error carries.
use psy_doge_solana_cli.Common.{ℕ}

pub data Field : Type 0 where
  version input_count_field input_transaction_id input_vout input_script_length input_sequence :
      Field
  output_count_field output_value output_script_length output_script_pubkey locktime : Field

pub data Error : Type 0 where
  no_selected_inputs no_outputs persisted_no_outputs : Error
  input_out_of_range : ℕ → ℕ → Error
  no_redeem_script : ℕ → Error
  length_overflow truncated non_canonical_varint exceeds_platform : Field → Error
  unsupported_version too_many_inputs too_many_outputs : ℕ → Error
  input_count_mismatch : ℕ → ℕ → Error
  contains_script_sig non_final_sequence differs_from_reservation output_script_too_long : ℕ → Error
  unsupported_script nonzero_locktime trailing_bytes not_canonical : Error
  decode_output : ℕ → Error → Error
