-- ===== src/Examples/Relay.antt =====
-- A VAA that is accepted, and a transaction that one of two managers signs.
use psy_doge_solana_cli.Common.{
  ℕ, ◌≡◌, refl, List, [], ◌∷◌, ◌++◌, length, get_elem?, All, ok, some, collect, eqb, from_be,
  le_bytes, true,
}
use psy_doge_solana_cli.Wormhole.Utx0
use psy_doge_solana_cli.Wormhole.Utx0.{parse_output, parse_outputs, from_u32, chunks, chunks_exact}
use psy_doge_solana_cli.Wormhole.Tx.{
  UnsignedTransaction, unsigned_input, apply_script_sig, push_all, input_count, script_pub_key_for,
  p2pkh_script_pubkey,
}
use psy_doge_solana_cli.Wormhole.Tx.Wire.{
  push_data_inline, serialize_transaction, write_varint, write_input, write_inputs, write_output,
  write_outputs,
}
use psy_doge_solana_cli.Wormhole.Tx.Persisted.{byte_at}
use psy_doge_solana_cli.Wormhole.Tx.Sighash.{
  sighash_all, sighash, sighash_preimage, sighash_inputs, sighash_outputs, set_script_sig,
  double_sha256,
}
use psy_doge_solana_cli.Wormhole.Manager.Vaa.{
  VaaHeader, parse_vaa, vaa_body, vaa_signing_digest, vaa_hash_matches,
}
use psy_doge_solana_cli.Wormhole.Manager.Signatures.{ManagerSignatures, verify_manager_signature}
use psy_doge_solana_cli.Wormhole.Manager.Local.{range, type_eqb}
use psy_doge_solana_cli.Withdrawal.Signing.{
  Signature, contains, insert, sort_by_signer, add_signatures, collect_signers, apply_all,
  empty_lists, apply_manager_signatures,
}
use psy_doge_solana_cli.Withdrawal.Signing.Order.{Ascending}
use psy_doge_solana_cli.Withdrawal.Signing.Collected.{Verified}
use psy_doge_solana_cli.Withdrawal.Signing.Applied.{signed_input, apply_manager_signatures-ok}
use psy_doge_solana_cli.Withdrawal.Approval.{
  outputs_eqb, payload_eqb, check_identity, assert_vaa_and_manager,
}
use psy_doge_solana_cli.Withdrawal.Approval.Accepted.{assert_vaa_and_manager-ok}
use psy_doge_solana_cli.Examples.Given.{
  repeat, one_payload, spent, also_spent, unsigned, one_of_two, digest, secp,
}

abbrev body : List ℕ
body =
    repeat 8 0
    ++ (0
        ∷ 1
        ∷ (repeat 32 7
            ++ (repeat 7 0
                ++ (9
                    ∷ 0
                    ∷ 0x55
                    ∷ 0x54
                    ∷ 0x58
                    ∷ 0x30
                    ∷ 0
                    ∷ 65
                    ∷ 0
                    ∷ 0
                    ∷ 0
                    ∷ 0
                    ∷ 0
                    ∷ 0
                    ∷ 0
                    ∷ 1
                    ∷ 0
                    ∷ 0
                    ∷ 0
                    ∷ 0
                    ∷ 0
                    ∷ 0x0f
                    ∷ 0x42
                    ∷ 0x40
                    ∷ 0
                    ∷ 0
                    ∷ 0
                    ∷ 0
                    ∷ repeat 20 0x55))))

abbrev signed_vaa : List ℕ
signed_vaa = 1 ∷ 0 ∷ 0 ∷ 0 ∷ 0 ∷ 0 ∷ body

-- Signer 1 answers before signer 0.
abbrev response : ManagerSignatures
response = record {
  is_complete = true;
  vaa_hash = digest (digest body);
  vaa_id = [];
  destination_chain = 65;
  manager_set_index = 0;
  required = 1;
  total = 2;
  signatures =
      record { signer_index = 1; input_signatures = (0x31 ∷ 1 ∷ []) ∷ (0x32 ∷ 1 ∷ []) ∷ [] }
      ∷ record { signer_index = 0; input_signatures = (0x33 ∷ 1 ∷ []) ∷ (0x34 ∷ 1 ∷ []) ∷ [] }
      ∷ [];
}

is_accepted :
    assert_vaa_and_manager digest signed_vaa response (repeat 32 7) 9 one_payload one_of_two ≡ ok tt
unfolding assert_vaa_and_manager vaa_hash_matches vaa_signing_digest vaa_body byte_at parse_vaa
    from_be eqb check_identity payload_eqb outputs_eqb type_eqb Utx0.parse parse_output from_u32
    chunks chunks_exact parse_outputs
is_accepted = refl

assert_vaa_and_manager-ok_example :
    (vaa_signing_digest digest signed_vaa ≡ ok response.vaa_hash)
    × (vaa : VaaHeader) × (parse_vaa signed_vaa ≡ ok vaa)
    × (vaa.emitter_chain ≡ 1)
    × (vaa.emitter_address ≡ repeat 32 7)
    × (vaa.sequence ≡ 9)
    × (Utx0.parse vaa.payload ≡ ok one_payload)
    × (response.destination_chain ≡ 65)
    × (response.manager_set_index ≡ one_payload.delegated_manager_set_index)
    × (response.required ≡ one_of_two.m)
    × (response.total ≡ one_of_two.n)
assert_vaa_and_manager-ok_example =
    assert_vaa_and_manager-ok digest signed_vaa response (repeat 32 7) 9 one_payload one_of_two
      is_accepted

abbrev final : UnsignedTransaction
final = record unsigned {
  inputs =
      record (unsigned_input spent) { script_sig = 0 ∷ 2 ∷ 0x33 ∷ 1 ∷ 1 ∷ 0x51 ∷ [] }
      ∷ record (unsigned_input also_spent) { script_sig = 0 ∷ 2 ∷ 0x34 ∷ 1 ∷ 1 ∷ 0x52 ∷ [] }
      ∷ [];
}

is_signed : apply_manager_signatures digest secp unsigned response one_of_two ≡ ok final
unfolding apply_manager_signatures collect range input_count sighash_all sighash sighash_preimage
    sighash_inputs sighash_outputs set_script_sig double_sha256 serialize_transaction write_varint
    write_inputs write_outputs write_input write_output le_bytes script_pub_key_for
    p2pkh_script_pubkey collect_signers contains add_signatures verify_manager_signature empty_lists
    apply_all sort_by_signer insert apply_script_sig push_all push_data_inline
is_signed = refl

apply_manager_signatures-ok_example :
    (redeem sighash : List ℕ) × (chosen : List Signature) × (get_elem? unsigned.redeem_scripts 1
      ≡ some redeem)
    × (sighash_all digest unsigned 1 ≡ ok sighash)
    × (length chosen ≡ one_of_two.m)
    × Ascending chosen
    × All (Verified secp one_of_two sighash) chosen
    × (get_elem? final.inputs 1 ≡ some (signed_input (unsigned_input also_spent) chosen redeem))
apply_manager_signatures-ok_example =
    apply_manager_signatures-ok digest secp unsigned response one_of_two final is_signed 1
      (unsigned_input also_spent) refl
