-- ===== src/Wormhole/Manager/Errors.antt =====
-- The errors of doge/src/wormhole/manager.rs, and those that it passes on.
use psy_doge_solana_cli.Common.{ℕ}
use psy_doge_solana_cli.Wormhole.Utx0
use psy_doge_solana_cli.Wormhole.Redeem
use psy_doge_solana_cli.Wormhole.Tx.Errors as TxErrors

pub data Error : Type 0 where
  set_too_short : ℕ → Error
  set_truncated : ℕ → ℕ → ℕ → Error
  unsupported_set unknown_set_index : ℕ → Error
  vaa_too_short : ℕ → Error
  vaa_body_too_short vaa_truncated empty_signature invalid_pubkey invalid_der : Error
  not_sighash_all : ℕ → Error
  conflicting_registration : Error
  payload_error : Utx0.Error → Error
  redeem_error : Redeem.Error → Error
  transaction_error : TxErrors.Error → Error
  unsupported_index unsupported_destination : ℕ → Error
  no_outputs_or_inputs wrong_output_count change_is_not_p2sh transaction_mismatch : Error
  output_mismatch : ℕ → Error
  invalid_secret : ℕ → Error
