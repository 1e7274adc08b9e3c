-- ===== src/Examples/Managers.antt =====
-- A manager set of two keys, two VAAs of one body, and the local service with one registration.
use psy_doge_solana_cli.Common.{
  ◌⊎◌, ℕ, ◌≤◌, ◌≡◌, refl, List, [], ◌∷◌, ◌++◌, map, drop, length, All, ok, some, collect, eqb,
  be_bytes, le_bytes, from_be, arith, err, ap, ◌>>=◌, Result,
}
use psy_doge_solana_cli.Wormhole.Utx0
use psy_doge_solana_cli.Wormhole.Utx0.{
  p2sh, parse_output, parse_outputs, from_u32, chunks, chunks_exact, Utx0UnlockPayload,
}
use psy_doge_solana_cli.Wormhole.Redeem.{
  build_redeem_script, push_data, push_prefix, push_int, push_pubkeys, check_pubkeys,
}
use psy_doge_solana_cli.Wormhole.Tx as Transaction
use psy_doge_solana_cli.Wormhole.Tx.{
  TransactionOutput, SelectedUtxo, UnsignedTransaction, is_empty, script_pub_key_for,
  p2pkh_script_pubkey, p2sh_script_pubkey, input_count,
}
use psy_doge_solana_cli.Wormhole.Tx.Wire.{
  serialize_transaction, write_varint, write_input, write_inputs, write_output, write_outputs,
}
use psy_doge_solana_cli.Wormhole.Tx.Sighash.{
  sighash_all, sighash, sighash_preimage, sighash_inputs, sighash_outputs, set_script_sig,
  double_sha256,
}
use psy_doge_solana_cli.Wormhole.Tx.Persisted.{byte_at}
use psy_doge_solana_cli.Wormhole.Tx.Persisted.RoundTrip.{built}
use psy_doge_solana_cli.Wormhole.Manager.Errors.{Error}
use psy_doge_solana_cli.Wormhole.Manager.Set
use psy_doge_solana_cli.Wormhole.Manager.Set.{
  ManagerSet, read_pubkeys, concat_keys, local_regtest_manager_set,
}
use psy_doge_solana_cli.Wormhole.Manager.Set.Codec.{set_parse-serialize}
use psy_doge_solana_cli.Wormhole.Manager.Vaa.{
  VaaHeader, key_eqb, parse_vaa, vaa_body, vaa_signing_digest, LocalWithdrawalRegistration,
  synthesize_local_vaa,
}
use psy_doge_solana_cli.Wormhole.Manager.Vaa.Body.{parse_vaa-synthesize_local_vaa}
use psy_doge_solana_cli.Wormhole.Manager.Local.{
  check_registration, check_outputs, check_change, type_eqb, selected_input, range,
  build_local_signed_withdrawal, sign_all, LocalManagerService, LocalSignedWithdrawal,
  RegistrationOutcome, register, get, find, already_registered, inserted,
}
use psy_doge_solana_cli.Wormhole.Manager.Local.Built.{payment, check_registration-ok}
use psy_doge_solana_cli.Wormhole.Manager.Local.Service.{
  empty, after, IsNew, get-register, register-register, get-Reachable,
}
use psy_doge_solana_cli.Examples.Given.{
  repeat, one_of_two, one_payload, paid, key, digest, secp, key_text,
}

set_parse-serialize_example : Set.parse (Set.serialize one_of_two) ≡ ok one_of_two
set_parse-serialize_example = set_parse-serialize one_of_two refl (refl, (refl, tt))

abbrev set_bytes : List ℕ
set_bytes = 9 ∷ 1 ∷ 2 ∷ (repeat 33 2 ++ (repeat 33 3 ++ (0xff ∷ [])))

set_is_read : Set.parse set_bytes ≡ ok one_of_two
unfolding Set.parse read_pubkeys byte_at
set_is_read = refl

abbrev one_payload_bytes : List ℕ
one_payload_bytes =
    (0x55 ∷ 0x54 ∷ 0x58 ∷ 0x30 ∷ 0 ∷ 65 ∷ 0 ∷ 0 ∷ 0 ∷ 0 ∷ 0 ∷ 0 ∷ 0 ∷ 1 ∷ 0 ∷ 0 ∷ 0 ∷ 0 ∷ 0 ∷ 0x0f
      ∷ 0x42 ∷ 0x40 ∷ 0 ∷ 0 ∷ 0 ∷ 0 ∷ [])
    ++ repeat 20 0x55

abbrev change : TransactionOutput
change = record { amount = 5_000; address_type = p2sh; address = repeat 20 0x66 }

abbrev recipient : List ℕ
recipient = repeat 32 8

-- The redeem script of the recipient under the local set.
redeem_script : List ℕ
redeem_script =
    elim (build_redeem_script 1 key.emitter_address recipient 5 local_regtest_manager_set.pubkeys) [
      | ok script ↦ script
      | err x ↦ []
    ]

abbrev selected : SelectedUtxo
selected = record { transaction_id = repeat 32 0x11; vout = 3; redeem_script = redeem_script }

abbrev transaction : UnsignedTransaction
transaction = built (selected ∷ []) (paid ∷ change ∷ [])

abbrev registration : LocalWithdrawalRegistration
registration = record {
  key = key;
  payload = one_payload_bytes;
  unsigned_transaction = Transaction.serialize transaction;
  inputs =
      record { original_recipient_address = recipient; transaction_id = repeat 32 0x11; vout = 3 }
      ∷ [];
  outputs = paid ∷ change ∷ [];
}

is_checked : check_registration registration ≡ ok (one_payload, transaction)
unfolding redeem_script check_registration Utx0.parse parse_output from_u32 chunks chunks_exact
    parse_outputs from_be eqb is_empty collect selected_input build_redeem_script push_data
    push_prefix push_int push_pubkeys check_pubkeys local_regtest_manager_set be_bytes check_outputs
    check_change type_eqb Transaction.new Transaction.serialize serialize_transaction write_varint
    write_inputs write_outputs write_input write_output le_bytes script_pub_key_for
    p2pkh_script_pubkey p2sh_script_pubkey
is_checked = refl

check_registration-ok_example :
    (Utx0.parse registration.payload ≡ ok one_payload)
    × (one_payload.delegated_manager_set_index ≡ 0)
    × (one_payload.destination_chain ≡ 65)
    × (Transaction.serialize transaction ≡ registration.unsigned_transaction)
    × (selected : List SelectedUtxo) × (change : List TransactionOutput) × (collect
          (selected_input registration.key local_regtest_manager_set)
          registration.inputs
        ≡ ok selected)
    × (Transaction.new selected (map payment one_payload.outputs ++ change) ≡ ok transaction)
    × (length change ≤ 1)
    × All (λ o. o.address_type ≡ p2sh) change
check_registration-ok_example =
    check_registration-ok registration one_payload transaction is_checked

has_built :
    (w : LocalSignedWithdrawal) × (build_local_signed_withdrawal digest digest secp key_text
        registration
      ≡ ok w)
unfolding build_local_signed_withdrawal sign_all range input_count sighash_all sighash
    sighash_preimage sighash_inputs sighash_outputs set_script_sig double_sha256 vaa_signing_digest
    vaa_body synthesize_local_vaa byte_at redeem_script check_registration Utx0.parse parse_output
    from_u32 chunks chunks_exact parse_outputs from_be eqb is_empty collect selected_input
    build_redeem_script push_data push_prefix push_int push_pubkeys check_pubkeys
    local_regtest_manager_set be_bytes check_outputs check_change type_eqb Transaction.new
    Transaction.serialize serialize_transaction write_varint write_inputs write_outputs write_input
    write_output le_bytes script_pub_key_for p2pkh_script_pubkey p2sh_script_pubkey
has_built = (_, refl)

abbrev none_yet : LocalManagerService
none_yet = record { withdrawals = [] }

abbrev with_one : LocalManagerService
with_one = record { withdrawals = (key, (one_payload_bytes, has_built.0)) ∷ [] }

is_registered : register digest digest secp key_text none_yet registration ≡ ok (with_one, inserted)
unfolding register find
is_registered = ap (λ built. built >>= grown) has_built.1
  where
    grown : LocalSignedWithdrawal → Result Error (LocalManagerService × RegistrationOutcome)
    grown signed = ok (record { withdrawals = (key, (one_payload_bytes, signed)) ∷ [] }, inserted)

is_there : get with_one key ≡ some has_built.0
unfolding get find key_eqb eqb
is_there = refl

register-register_example :
    register digest digest secp key_text with_one registration ≡ ok (with_one, already_registered)
register-register_example =
    register-register digest digest secp key_text none_yet with_one registration inserted
      is_registered

get-register_example :
    (get with_one key ≡ get none_yet key)
    ⊎ IsNew digest digest secp key_text none_yet with_one registration inserted key
get-register_example =
    get-register digest digest secp key_text none_yet with_one registration inserted key
      is_registered

get-Reachable_example :
    (r : LocalWithdrawalRegistration) × (checked : Utx0UnlockPayload × UnsignedTransaction) × (r.key
      ≡ key)
    × (check_registration r ≡ ok checked)
    × (has_built.0.unsigned_transaction ≡ r.unsigned_transaction)
    × (has_built.0.signed_vaa ≡ synthesize_local_vaa r)
get-Reachable_example =
    get-Reachable digest digest secp key_text with_one key has_built.0
      (after none_yet with_one registration inserted empty is_registered) is_there

parse_vaa-synthesize_local_vaa_example :
    (parse_vaa (synthesize_local_vaa registration)
      ≡ ok (record {
        version = 1;
        guardian_set_index = 0;
        emitter_chain = 1;
        emitter_address = key.emitter_address;
        sequence = 9;
        payload = one_payload_bytes;
      }))
    × (vaa_body (synthesize_local_vaa registration)
        ≡ ok (drop 6 (synthesize_local_vaa registration)))
parse_vaa-synthesize_local_vaa_example =
    parse_vaa-synthesize_local_vaa registration
      (record { chain_fits = omega arith; address_length = refl; sequence_fits = omega arith })

abbrev body : List ℕ
body = repeat 8 0 ++ (0 ∷ 1 ∷ (repeat 32 7 ++ (repeat 7 0 ++ (9 ∷ 0 ∷ 0x55 ∷ []))))

abbrev header_of : ℕ → VaaHeader
header_of guardian_set = record {
  version = 1;
  guardian_set_index = guardian_set;
  emitter_chain = 1;
  emitter_address = repeat 32 7;
  sequence = 9;
  payload = 0x55 ∷ [];
}

-- One body with one signature, and with none.
abbrev signed_once : List ℕ
signed_once = 1 ∷ 0 ∷ 0 ∷ 0 ∷ 4 ∷ 1 ∷ (repeat 66 0xaa ++ body)

abbrev unsigned_vaa : List ℕ
unsigned_vaa = 1 ∷ 0 ∷ 0 ∷ 0 ∷ 0 ∷ 0 ∷ body

signed_is_read : parse_vaa signed_once ≡ ok (header_of 4)
unfolding parse_vaa byte_at from_be
signed_is_read = refl

unsigned_is_read : parse_vaa unsigned_vaa ≡ ok (header_of 0)
unfolding parse_vaa byte_at from_be
unsigned_is_read = refl

one_body : vaa_body signed_once ≡ vaa_body unsigned_vaa
unfolding vaa_body byte_at
one_body = refl
