-- ===== src/Examples/Transactions.antt =====
-- A transaction of two inputs and one output.
use psy_doge_solana_cli.Common.{ℕ, ◌≡◌, refl, List, [], ◌∷◌, ok, arith}
use psy_doge_solana_cli.Wormhole.Tx.{
  UnsignedTransaction, new, serialize, apply_script_sig, unsigned_input, push_all,
}
use psy_doge_solana_cli.Wormhole.Tx.Wire.{push_data_inline}
use psy_doge_solana_cli.Wormhole.Tx.Persisted.{from_persisted_bytes}
use psy_doge_solana_cli.Wormhole.Tx.Persisted.RoundTrip.{from_persisted_bytes-serialize}
use psy_doge_solana_cli.Wormhole.Tx.Persisted.Recovered.{from_persisted_bytes-ok}
use psy_doge_solana_cli.Wormhole.Tx.Sighash.{sighash_all}
use psy_doge_solana_cli.Wormhole.Tx.Sighash.Signing.{sighash_all-apply_script_sig}
use psy_doge_solana_cli.Examples.Given.{spent, also_spent, paid, unsigned, digest}

from_persisted_bytes-serialize_example :
    (tx : UnsignedTransaction) × (new (spent ∷ also_spent ∷ []) (paid ∷ []) ≡ ok tx)
    × (from_persisted_bytes (serialize tx) (spent ∷ also_spent ∷ []) ≡ ok tx)
from_persisted_bytes-serialize_example =
    from_persisted_bytes-serialize (spent ∷ also_spent ∷ []) (paid ∷ [])
      (
        record { id_length = refl; vout_fits = omega arith },
        (record { id_length = refl; vout_fits = omega arith }, tt),
      )
      (record { amount_fits = omega arith; address_length = refl }, tt) (omega arith) (omega arith)
      (omega arith) (omega arith)

from_persisted_bytes-ok_example :
    (serialize from_persisted_bytes-serialize_example.0
      ≡ serialize from_persisted_bytes-serialize_example.0)
    × (new (spent ∷ also_spent ∷ []) from_persisted_bytes-serialize_example.0.logical_outputs
        ≡ ok from_persisted_bytes-serialize_example.0)
from_persisted_bytes-ok_example =
    from_persisted_bytes-ok (serialize from_persisted_bytes-serialize_example.0)
      (spent ∷ also_spent ∷ []) from_persisted_bytes-serialize_example.0
      from_persisted_bytes-serialize_example.2

abbrev signature : List ℕ
signature = 0x30 ∷ 0x01 ∷ []

abbrev script_of : ℕ → List ℕ
script_of redeem = 0 ∷ 2 ∷ 0x30 ∷ 0x01 ∷ 1 ∷ redeem ∷ []

abbrev first_signed : UnsignedTransaction
first_signed = record unsigned {
  inputs =
      record (unsigned_input spent) { script_sig = script_of 0x51 }
      ∷ unsigned_input also_spent
      ∷ [];
}

signs_first : apply_script_sig unsigned 0 (signature ∷ []) ≡ ok first_signed
unfolding apply_script_sig push_all push_data_inline
signs_first = refl

sighash_all-apply_script_sig_example :
    sighash_all digest first_signed 1 ≡ sighash_all digest unsigned 1
sighash_all-apply_script_sig_example =
    sighash_all-apply_script_sig digest unsigned first_signed 0 (signature ∷ []) signs_first 1
