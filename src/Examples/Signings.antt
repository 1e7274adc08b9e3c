-- ===== src/Examples/Signings.antt =====
-- A batch that one of two managers signs, stored first and broadcast by a later run.
use psy_doge_solana_cli.Common.{
  ℕ, ◌≡◌, refl, List, [], ◌∷◌, ◌++◌, true, eqb, Option, none, some, Result, ok, collect,
  if◌then◌else◌, leb, ◌&&◌, eqb_refl, ap, ◌∙◌, sym, Bool, false,
}
use psy_doge_solana_cli.Wormhole.Utx0.{Utx0UnlockPayload}
use psy_doge_solana_cli.Wormhole.Manager.Signatures.{ManagerSignatures}
use psy_doge_solana_cli.Withdrawal.Store.{
  status_eqb, is_number, is_text, reservation_status_eqb, has_text, utxo_status_eqb, OperatorStatus,
  SnapshotBatch, DogecoinTransaction, ProcessWithdrawal,
}
use psy_doge_solana_cli.Withdrawal.Graph.{
  load_persisted_withdrawal_graph, find_reservation, find_process, same_batch, find_transaction,
  check_mappings, any_mapping_drifted, reservation_drifted, check_requests, utxo_drifted,
  PersistedWithdrawalGraph, load_complete_signed_graph,
}
use psy_doge_solana_cli.Withdrawal.Environment.{Environment}
use psy_doge_solana_cli.Withdrawal.Resume.{
  sign_snapshot_batch, broadcast_if_enabled, signed_process, signed_transaction, hash_sha256,
  txid_of, resume_signed_or_started,
}
use psy_doge_solana_cli.Withdrawal.Resume.Signed.{
  Stores, without_broadcast, as_signed, resume_signed_or_started-sign_snapshot_batch,
}
use psy_doge_solana_cli.Examples.Given.{repeat, one_output, one_of_two, digest, secp}
use psy_doge_solana_cli.Examples.Memory.{Memory, memory, write, named_lem}
use psy_doge_solana_cli.Examples.Stores.{batch, request}
use psy_doge_solana_cli.Examples.Prepared.{packages, args, addressed, made}
use psy_doge_solana_cli.Examples.Changes.{decode_hex, combined, confirmed}
use psy_doge_solana_cli.Wormhole.Manager.Set.{manager_set_for_index}
use psy_doge_solana_cli.Withdrawal.Signing.{
  apply_all, apply_manager_signatures, collect_signers, contains, add_signatures, empty_lists,
  sort_by_signer, insert,
}
use psy_doge_solana_cli.Wormhole.Tx.Wire.{
  write_output, serialize_transaction, write_varint, write_inputs, write_input, write_outputs,
  push_data_inline,
}
use psy_doge_solana_cli.Wormhole.Tx.Persisted.{
  from_persisted_bytes, read_transaction, read_fields, read_version, byte_at, parse_standard_output,
  read_all_inputs, read_all_outputs, read_input, read_inputs, read_locktime, read_output,
  read_outputs,
}
use psy_doge_solana_cli.Wormhole.Tx.Reader.{
  read_le, read_exact, finish, first_byte, read_count, read_value, read_wide,
}
use psy_doge_solana_cli.Wormhole.Tx.{
  serialize, script_pub_key_for, is_empty, new, p2pkh_script_pubkey, p2sh_script_pubkey,
  input_count, apply_script_sig, push_all,
}
use psy_doge_solana_cli.Withdrawal.Graph.{any}
use psy_doge_solana_cli.Withdrawal.Plan.{plan_custody_transaction}
use psy_doge_solana_cli.Withdrawal.Prepared.{
  build_or_recover, change_hash, change_output, differs, hash160, payload_output,
  prepared_from_reservation, reserved_input, total_from, transaction_outputs_eqb,
}
use psy_doge_solana_cli.Wormhole.Manager.Local.{type_eqb, range}
use psy_doge_solana_cli.Wormhole.Redeem.{build_redeem_script, check_pubkeys}
use psy_doge_solana_cli.Common.{
  le_bytes, be_bytes, from_le, eq_ignore_ascii_case, lower, to_ascii_lowercase, from_be,
}
use psy_doge_solana_cli.Network.{address_version, encode_address}
use psy_doge_solana_cli.Withdrawal.Approval.{
  assert_vaa_and_manager, check_identity, payload_eqb, outputs_eqb,
}
use psy_doge_solana_cli.Wormhole.Manager.Vaa.{
  vaa_hash_matches, vaa_signing_digest, vaa_body, parse_vaa,
}
use psy_doge_solana_cli.Wormhole.Utx0.{parse_output, from_u32, chunks, chunks_exact, parse_outputs}
use psy_doge_solana_cli.Wormhole.Tx.Sighash.{
  sighash_all, sighash, sighash_preimage, sighash_inputs, sighash_outputs, set_script_sig,
  double_sha256,
}
use psy_doge_solana_cli.Wormhole.Manager.Signatures.{verify_manager_signature}
use psy_doge_solana_cli.Wormhole.Utx0

abbrev payload : Utx0UnlockPayload
payload = record {
  destination_chain = 65;
  delegated_manager_set_index = 1;
  outputs = one_output ∷ [];
}

-- Time and nonce, the chain, the emitter, the sequence, the consistency, and the payload.
abbrev body : List ℕ
body =
    repeat 9 0
    ++ (1 ∷ repeat 32 7)
    ++ (repeat 7 0 ++ (9 ∷ 0 ∷ []))
    ++ (0x55 ∷ 0x54 ∷ 0x58 ∷ 0x30 ∷ 0 ∷ 65 ∷ 0 ∷ 0 ∷ 0 ∷ 1 ∷ 0 ∷ 0 ∷ 0 ∷ 1 ∷ [])
    ++ (0 ∷ 0 ∷ 0 ∷ 0 ∷ 0 ∷ 0x0f ∷ 0x42 ∷ 0x40 ∷ 0 ∷ 0 ∷ 0 ∷ 0 ∷ repeat 20 0x55)

abbrev response : ManagerSignatures
response = record {
  is_complete = true;
  vaa_hash = digest (digest body);
  vaa_id = [];
  destination_chain = 65;
  manager_set_index = 1;
  required = 1;
  total = 2;
  signatures =
      record { signer_index = 1; input_signatures = (0x31 ∷ 1 ∷ []) ∷ [] }
      ∷ record { signer_index = 0; input_signatures = (0x33 ∷ 1 ∷ []) ∷ [] }
      ∷ [];
}

-- Managers that answer, and an Electrs that takes the transaction and shows nothing yet.
abbrev pub environment : Environment
environment = record {
  packages = packages;
  keccak256 = digest;
  secp = secp;
  decode_hex = decode_hex;
  parse_block_hash = decode_hex;
  compute_combined_index = combined;
  args = args;
  manager_set_index = 1;
  manager_signing_enabled = true;
  broadcast_enabled = true;
  official_testnet_manager_set_1 = ok one_of_two;
  register_unsigned_transaction = λ prepared. ok tt;
  manager_signatures = ok response;
  signed_vaa = ok (1 ∷ 0 ∷ 0 ∷ 0 ∷ 0 ∷ 0 ∷ body);
  broadcast = λ bytes txid. ok tt;
  electrs = record {
    transaction = λ txid. ok (record confirmed.transaction { txid = txid });
    block_txids = λ hash. ok ([] ∷ []);
    tip_height = ok 43;
  };
  write_evidence = ok tt;
}

unfoldable pub to_sign : SnapshotBatch
unfolding made
to_sign = record batch {
  unsigned_transaction = some made.0.unsigned_bytes;
  wormhole_sequence = 9;
  status = OperatorStatus.constructed;
}

-- A store without the rows that signing writes.
abbrev unsigned_store : Memory
unsigned_store = record {
  rows = record {
    reservation = λ id. if eqb id (7 ∷ []) then some addressed else none;
    transaction = λ key. none;
    process = λ key. none;
    request = λ index. if (leb index 4 && leb 4 index) then some request else none;
    batch = λ key. some batch;
  };
  mappings =
      record {
        request_index = 4;
        process_solana_signature = batch.solana_signature;
        dogecoin_txid = 1 ∷ 0 ∷ 0 ∷ 0 ∷ [];
      }
      ∷ [];
  fails = [];
}

unfoldable pub is_stored :
    (stored : Memory) × (sign_snapshot_batch
        (without_broadcast environment)
        memory
        (repeat 32 7)
        to_sign
        payload
        unsigned_store
      ≡ (stored, ok tt))
unfolding sign_snapshot_batch to_sign manager_set_for_index apply_all write_output made
    from_persisted_bytes read_transaction read_fields read_version byte_at parse_standard_output
    read_all_inputs read_all_outputs read_input read_inputs read_locktime read_output read_outputs
    read_le read_exact finish first_byte read_count read_value read_wide serialize
    script_pub_key_for is_empty new p2pkh_script_pubkey serialize_transaction write_varint
    write_inputs write_input write_outputs any plan_custody_transaction build_or_recover change_hash
    change_output differs hash160 payload_output prepared_from_reservation reserved_input total_from
    transaction_outputs_eqb type_eqb build_redeem_script check_pubkeys le_bytes be_bytes from_le
    collect eqb eq_ignore_ascii_case lower to_ascii_lowercase address_version encode_address
    p2sh_script_pubkey assert_vaa_and_manager vaa_hash_matches vaa_signing_digest vaa_body parse_vaa
    from_be check_identity payload_eqb outputs_eqb parse_output from_u32 chunks chunks_exact
    parse_outputs apply_manager_signatures range input_count sighash_all sighash sighash_preimage
    sighash_inputs sighash_outputs set_script_sig double_sha256 collect_signers contains
    add_signatures verify_manager_signature empty_lists sort_by_signer insert apply_script_sig
    push_all push_data_inline Utx0.parse broadcast_if_enabled
is_stored = (_, refl)

memory-Stores : Stores memory
unfolding eqb
memory-Stores = record {
  keyed = λ m id row e. (named_lem id (m.rows.reservation id) row e).1;
  stored = λ m m' signature id transaction process e.
      stored_at signature transaction process m m.fails m' e;
}
  where
    stored_at :
        (signature : List ℕ) (transaction : DogecoinTransaction) (process : ProcessWithdrawal)
        (m : Memory) (fails : List Bool) (m' : Memory)
        → write
            (λ rows. record rows {
              transaction =
                  λ key. if eqb key signature then some transaction else rows.transaction key;
              process = λ key. if eqb key signature then some process else rows.process key;
            })
            m
            fails
          ≡ (m', ok tt)
        → ◌≡◌ {A = Result (List ℕ) (Option DogecoinTransaction)}
            (ok (m'.rows.transaction signature))
            (ok (some transaction))
    stored_at signature transaction process m [] m' e =
        ap (λ p. ok (p.0.rows.transaction signature)) (sym e)
        ∙ ap (λ test. ok (if test then some transaction else m.rows.transaction signature))
            (eqb_refl signature)
    stored_at signature transaction process m (false ∷ rest) m' e =
        ap (λ p. ok (p.0.rows.transaction signature)) (sym e)
        ∙ ap (λ test. ok (if test then some transaction else m.rows.transaction signature))
            (eqb_refl signature)
    stored_at signature transaction process m (true ∷ rest) m' e = cc

is_complete :
    (graph : PersistedWithdrawalGraph) × (load_complete_signed_graph memory is_stored.0
        (as_signed to_sign)
      ≡ ok graph)
unfolding is_stored load_complete_signed_graph status_eqb load_persisted_withdrawal_graph
    find_reservation find_process same_batch signed_process find_transaction signed_transaction
    check_mappings any_mapping_drifted reservation_drifted is_number is_text reservation_status_eqb
    has_text utxo_status_eqb check_requests any is_empty utxo_drifted eqb hash_sha256 txid_of
is_complete = (_, refl)

resume_signed_or_started-sign_snapshot_batch_example :
    resume_signed_or_started environment memory (as_signed to_sign) payload is_stored.0
    ≡ sign_snapshot_batch environment memory (repeat 32 7) to_sign payload unsigned_store
resume_signed_or_started-sign_snapshot_batch_example =
    resume_signed_or_started-sign_snapshot_batch environment memory memory-Stores (repeat 32 7)
      to_sign payload unsigned_store is_stored.0 is_complete.0 is_stored.1 is_complete.1
