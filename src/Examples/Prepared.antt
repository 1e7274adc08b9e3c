-- ===== src/Examples/Prepared.antt =====
-- A withdrawal of one output from one reserved output, with change, prepared twice.
use psy_doge_solana_cli.Common.{◌≡◌, refl, [], ◌∷◌, none, some, ok, collect, eqb, arith}
use psy_doge_solana_cli.Network.{testnet, encode_address, address_version}
use psy_doge_solana_cli.Wormhole.Redeem.{build_redeem_script, check_pubkeys}
use psy_doge_solana_cli.Wormhole.Tx.{is_empty, new}
use psy_doge_solana_cli.Withdrawal.Store.{CustodyReservation}
use psy_doge_solana_cli.Withdrawal.Plan.{plan_custody_transaction}
use psy_doge_solana_cli.Withdrawal.Prepared.{
  Packages, Args, PreparedTransaction, hash160, total_from, reserved_input, payload_output,
  change_hash, change_output, build_or_recover, differs, prepared_from_reservation,
}
use psy_doge_solana_cli.Withdrawal.Prepared.Conserves.{
  IsPrepared, prepared_from_reservation-IsPrepared,
}
use psy_doge_solana_cli.Withdrawal.Prepared.Again.{prepared_from_reservation_again}
use psy_doge_solana_cli.Examples.Given.{repeat, one_payload, one_of_two, digest}
use psy_doge_solana_cli.Examples.Stores.{held_utxo, reservation}

abbrev pub packages : Packages
packages = record {
  sha256 = digest;
  ripemd160 = λ bytes. repeat 20 5;
  base58_check = λ bytes. bytes;
  encode_hex = λ bytes. bytes;
}

abbrev pub args : Args
args = record { doge_network = testnet; fee_sats = 100_000; dust_threshold_sats = 1_000 }

abbrev pub addressed : CustodyReservation
addressed = record reservation {
  utxos = record held_utxo { custody_address = 0xc4 ∷ repeat 20 5 } ∷ [];
}

unfoldable pub made :
    (p : PreparedTransaction) × (prepared_from_reservation packages args
        (repeat 32 7)
        one_payload
        one_of_two
        addressed
        none
      ≡ ok p)
unfolding prepared_from_reservation total_from reserved_input change_hash change_output
    payload_output build_or_recover differs hash160 encode_address address_version
    build_redeem_script plan_custody_transaction collect check_pubkeys eqb is_empty new
made = (_, refl)

prepared_from_reservation-IsPrepared_example :
    IsPrepared packages args (repeat 32 7) one_payload one_of_two addressed made.0
prepared_from_reservation-IsPrepared_example =
    prepared_from_reservation-IsPrepared packages args (repeat 32 7) one_payload one_of_two
      addressed none made.0 made.1

prepared_from_reservation_again_example :
    prepared_from_reservation packages args
      (repeat 32 7)
      one_payload
      one_of_two
      addressed
      (some made.0.unsigned_bytes)
    ≡ ok made.0
prepared_from_reservation_again_example =
    prepared_from_reservation_again packages args (repeat 32 7) one_payload one_of_two addressed
      (λ bytes. refl) ((refl, omega arith), tt) ((omega arith, refl), tt) (omega arith)
      (omega arith) (omega arith) made.0 made.1
