-- ===== src/Examples/Changes.antt =====
-- The change of a confirmed withdrawal.
use psy_doge_solana_cli.Common.{
  ℕ, ◌≡◌, refl, List, [], ◌∷◌, ◌++◌, true, lower, to_ascii_lowercase, eq_ignore_ascii_case, eqb,
  Option, none, some, ok, arith,
}
use psy_doge_solana_cli.Network.{testnet, encode_address, address_version}
use psy_doge_solana_cli.Wormhole.Tx.{p2sh_script_pubkey}
use psy_doge_solana_cli.Withdrawal.Confirmed.{ConfirmedWithdrawal}
use psy_doge_solana_cli.Withdrawal.Store.{CustodyUtxo, SnapshotBatch}
use psy_doge_solana_cli.Withdrawal.Graph.{PersistedWithdrawalGraph}
use psy_doge_solana_cli.Withdrawal.Change.{derive_confirmed_change}
use psy_doge_solana_cli.Withdrawal.Change.Spendable.{
  IsSpendable, derive_confirmed_change-IsSpendable,
}
use psy_doge_solana_cli.Examples.Given.{repeat, one_payload, one_of_two}
use psy_doge_solana_cli.Examples.Stores.{batch, graph}
use psy_doge_solana_cli.Examples.Prepared.{packages, args, addressed, made}
use psy_doge_solana_cli.Withdrawal.Change.{
  confirmed_change, check_prepared_change, fits_word, is_p2sh_script, last, placeholder_input,
  shared_key_reference,
}
use psy_doge_solana_cli.Wormhole.Tx.Persisted.{
  from_persisted_bytes, read_transaction, read_fields, read_version, byte_at, parse_standard_output,
  read_all_inputs, read_all_outputs, read_input, read_inputs, read_locktime, read_output,
  read_outputs,
}
use psy_doge_solana_cli.Wormhole.Tx.Reader.{
  read_le, read_exact, finish, first_byte, read_count, read_value, read_wide,
}
use psy_doge_solana_cli.Wormhole.Tx.{
  serialize, script_pub_key_for, is_empty, new, p2pkh_script_pubkey,
}
use psy_doge_solana_cli.Wormhole.Tx.Wire.{
  serialize_transaction, write_varint, write_inputs, write_input, write_outputs, write_output,
}
use psy_doge_solana_cli.Withdrawal.Graph.{any}
use psy_doge_solana_cli.Withdrawal.Plan.{plan_custody_transaction}
use psy_doge_solana_cli.Withdrawal.Prepared.{
  build_or_recover, change_hash, change_output, differs, hash160, payload_output,
  prepared_from_reservation, reserved_input, total_from, transaction_outputs_eqb,
}
use psy_doge_solana_cli.Wormhole.Manager.Local.{type_eqb}
use psy_doge_solana_cli.Wormhole.Redeem.{build_redeem_script, check_pubkeys}
use psy_doge_solana_cli.Common.{le_bytes, be_bytes, from_le, collect}

-- The placeholder decoding of hexadecimal text, and of indices.
abbrev pub decode_hex : List ℕ → Option (List ℕ)
decode_hex text = some text

abbrev pub combined : ℕ → ℕ → ℕ → ℕ
combined height index vout = vout

abbrev pub confirmed : ConfirmedWithdrawal
confirmed = record {
  transaction = record {
    txid = 0x61 ∷ [];
    vout =
        record { scriptpubkey = []; value = 1_000_000 }
        ∷ record { scriptpubkey = 0xa9 ∷ 0x14 ∷ (repeat 20 5 ++ (0x87 ∷ [])); value = 400_000 }
        ∷ [];
    status = record { confirmed = true; block_height = some 40; block_hash = some [] };
  };
  block_height = 40;
  block_hash = [];
  confirmations = 4;
  tx_index = 1;
}

unfoldable pub prepared_batch : SnapshotBatch
unfolding made
prepared_batch = record batch { unsigned_transaction = some made.0.unsigned_bytes }

abbrev spent_graph : PersistedWithdrawalGraph
spent_graph = record graph { reservation = addressed }

change :
    (utxo : CustodyUtxo) × (derive_confirmed_change packages decode_hex combined testnet
        prepared_batch spent_graph 1 confirmed
      ≡ ok (some utxo))
unfolding derive_confirmed_change prepared_batch made confirmed_change check_prepared_change
    fits_word is_p2sh_script last placeholder_input shared_key_reference from_persisted_bytes
    read_transaction read_fields read_version byte_at parse_standard_output read_all_inputs
    read_all_outputs read_input read_inputs read_locktime read_output read_outputs read_le
    read_exact finish first_byte read_count read_value read_wide serialize script_pub_key_for
    is_empty new p2pkh_script_pubkey serialize_transaction write_varint write_inputs write_input
    write_outputs write_output any plan_custody_transaction build_or_recover change_hash
    change_output differs hash160 payload_output prepared_from_reservation reserved_input total_from
    transaction_outputs_eqb type_eqb build_redeem_script check_pubkeys le_bytes be_bytes from_le
    collect eqb eq_ignore_ascii_case lower to_ascii_lowercase address_version encode_address
    p2sh_script_pubkey
change = (_, refl)

derive_confirmed_change-IsSpendable_example :
    IsSpendable packages args (repeat 32 7) one_of_two made.0 change.0
unfolding prepared_batch
derive_confirmed_change-IsSpendable_example =
    derive_confirmed_change-IsSpendable packages args (repeat 32 7) one_payload one_of_two addressed
      (λ bytes. refl) ((refl, omega arith), tt) ((omega arith, refl), tt) (omega arith)
      (omega arith) (omega arith) decode_hex combined prepared_batch spent_graph 1 confirmed none
      made.0 change.0 made.1 refl refl refl change.1
