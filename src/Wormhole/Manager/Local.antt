-- ===== src/Wormhole/Manager/Local.antt =====
-- `build_local_signed_withdrawal` and `LocalManagerService` of doge/src/wormhole/manager.rs.
--
-- SHA-256, Keccak-256 and secp256k1 are parameters, and so is `vaa_id`'s text of a key.
pub mod Built
pub mod Service
use psy_doge_solana_cli.Common.{
  ℕ, zero, suc, ◌+◌, ◌%◌, List, [], ◌∷◌, ◌++◌, map, Bool, true, false, not, ◌&&◌, ◌||◌, ltb, ◌==◌,
  eqb, if◌then◌else◌, length, take, get_elem?, Option, none, some, Result, ok, err, ensure, bail_if,
  map_err, collect, ◌>>=◌, ◌>>◌,
}
use psy_doge_solana_cli.Wormhole.Utx0
use psy_doge_solana_cli.Wormhole.Utx0.{UtxoAddressType, p2pkh, p2sh, Utx0Output, Utx0UnlockPayload}
use psy_doge_solana_cli.Wormhole.Redeem.{build_redeem_script}
use psy_doge_solana_cli.Wormhole.Tx.{
  SelectedUtxo, TransactionOutput, UnsignedTransaction, sighash_all_type, is_empty, input_count,
}
use psy_doge_solana_cli.Wormhole.Tx as Transaction
use psy_doge_solana_cli.Wormhole.Tx.Sighash.{sighash_all}
use psy_doge_solana_cli.Wormhole.Manager.Errors.{
  Error, payload_error, redeem_error, transaction_error, unsupported_index, unsupported_destination,
  no_outputs_or_inputs, wrong_output_count, change_is_not_p2sh, transaction_mismatch,
  output_mismatch, invalid_secret, conflicting_registration,
}
use psy_doge_solana_cli.Wormhole.Manager.Set.{
  ManagerSet, local_regtest_manager_set, local_regtest_manager_private_keys,
}
use psy_doge_solana_cli.Wormhole.Manager.Vaa.{
  VaaKey, key_eqb, LocalSigningInput, LocalWithdrawalRegistration, synthesize_local_vaa,
  vaa_signing_digest,
}
use psy_doge_solana_cli.Wormhole.Manager.Signatures.{SignerSignatures, ManagerSignatures, Secp256k1}

-- `chain_id::DOGECOIN`
abbrev pub dogecoin : ℕ
dogecoin = 65

pub record LocalSignedWithdrawal : Type 0 where
  pub signed_vaa : List ℕ
  pub unsigned_transaction : List ℕ
  pub manager_signatures : ManagerSignatures

-- `==` on address types
unfoldable pub type_eqb : UtxoAddressType → UtxoAddressType → Bool
type_eqb p2pkh p2pkh = true
type_eqb p2sh p2sh = true
type_eqb _ _ = false

-- The loop over the payload's outputs and the transaction's, in step.
unfoldable pub check_outputs :
    ℕ → List Utx0Output → List TransactionOutput → Result Error (Unit {0})
check_outputs index (authorized ∷ rest) (transaction ∷ others) = do
  bail_if
      (not (transaction.amount == authorized.amount)
        || (not (type_eqb transaction.address_type authorized.address_type)
            || not (eqb transaction.address authorized.address)))
      (output_mismatch index)
  check_outputs (index + 1) rest others
check_outputs index _ _ = ok tt

unfoldable pub check_change : Option TransactionOutput → Result Error (Unit {0})
check_change none = ok tt
check_change (some change) = bail_if (not (type_eqb change.address_type p2sh)) change_is_not_p2sh

-- `0..n`
unfoldable pub range : ℕ → ℕ → List ℕ
range from zero = []
range from (suc n) = from ∷ range (from + 1) n

unfoldable pub selected_input : VaaKey → ManagerSet → LocalSigningInput → Result Error SelectedUtxo
selected_input key manager_set input = do
  redeem_script ← map_err redeem_error (
      build_redeem_script key.emitter_chain key.emitter_address input.original_recipient_address
        manager_set.m manager_set.pubkeys)
  ok (record {
    transaction_id = input.transaction_id;
    vout = input.vout;
    redeem_script = redeem_script;
  })

-- The checks of `build_local_signed_withdrawal`: the payload and the transaction that it asks for.
unfoldable pub check_registration :
    LocalWithdrawalRegistration → Result Error (Utx0UnlockPayload × UnsignedTransaction)
check_registration registration = do
  payload ← map_err payload_error (Utx0.parse registration.payload)
  bail_if (not (payload.delegated_manager_set_index == 0))
      (unsupported_index payload.delegated_manager_set_index)
  bail_if (not (payload.destination_chain == dogecoin))
      (unsupported_destination payload.destination_chain)
  bail_if (is_empty payload.outputs || is_empty registration.inputs) no_outputs_or_inputs
  selected_inputs ←
      collect (selected_input registration.key local_regtest_manager_set) registration.inputs
  bail_if
      (ltb (length registration.outputs) (length payload.outputs)
        || ltb (length payload.outputs + 1) (length registration.outputs))
      wrong_output_count
  check_outputs 0 payload.outputs registration.outputs
  check_change (get_elem? registration.outputs (length payload.outputs))
  transaction ← map_err transaction_error (Transaction.new selected_inputs registration.outputs)
  bail_if (not (eqb (Transaction.serialize transaction) registration.unsigned_transaction))
      transaction_mismatch
  ok (payload, transaction)

module _ (sha256 keccak256 : List ℕ → List ℕ) (secp : Secp256k1) (vaa_id : VaaKey → List ℕ) where
  -- The signatures of the signers from number `signer_index` on.
  unfoldable pub sign_all : List (List ℕ) → ℕ → List (List ℕ) → Result Error (List SignerSignatures)
  sign_all sighashes signer_index [] = ok []
  sign_all sighashes signer_index (secret ∷ secrets) = do
    ensure (secp.is_secret secret) (invalid_secret signer_index)
    let input_signatures =
        map (λ sighash. secp.sign_ecdsa sighash secret ++ (sighash_all_type ∷ [])) sighashes
    rest ← sign_all sighashes (signer_index + 1) secrets
    ok (record { signer_index = signer_index % 256; input_signatures = input_signatures } ∷ rest)

  unfoldable pub build_local_signed_withdrawal :
      LocalWithdrawalRegistration → Result Error LocalSignedWithdrawal
  build_local_signed_withdrawal registration = do
    let manager_set = local_regtest_manager_set
    (payload, transaction) ← check_registration registration
    sighashes ←
        collect (λ index. map_err transaction_error (sighash_all sha256 transaction index))
          (range 0 (input_count transaction))
    signatures ← sign_all sighashes 0 (take manager_set.m local_regtest_manager_private_keys)
    let signed_vaa = synthesize_local_vaa registration
    vaa_hash ← vaa_signing_digest keccak256 signed_vaa
    ok (record {
      signed_vaa = signed_vaa;
      unsigned_transaction = registration.unsigned_transaction;
      manager_signatures = record {
        is_complete = true;
        vaa_hash = vaa_hash;
        vaa_id = vaa_id registration.key;
        destination_chain = payload.destination_chain;
        manager_set_index = payload.delegated_manager_set_index;
        required = manager_set.m;
        total = manager_set.n;
        signatures = signatures;
      };
    })

-- The map of the service: what is found for a key is its first entry.
unfoldable pub find :
    List (VaaKey × (List ℕ × LocalSignedWithdrawal))
    → VaaKey
    → Option (List ℕ × LocalSignedWithdrawal)
find [] key = none
find ((k, entry) ∷ rest) key = if key_eqb k key then some entry else find rest key

pub data RegistrationOutcome : Type 0 where
  inserted already_registered : RegistrationOutcome

pub record LocalManagerService : Type 0 where
  pub withdrawals : List (VaaKey × (List ℕ × LocalSignedWithdrawal))

module _ (sha256 keccak256 : List ℕ → List ℕ) (secp : Secp256k1) (vaa_id : VaaKey → List ℕ) where
  -- `HashMap::insert` at a key that the map does not have.
  unfoldable pub register :
      LocalManagerService
      → LocalWithdrawalRegistration
      → Result Error (LocalManagerService × RegistrationOutcome)
  register service registration = elim (find service.withdrawals registration.key) [
    | some (payload, signed) ↦
        if eqb payload registration.payload
          && eqb signed.unsigned_transaction registration.unsigned_transaction
        then ok (service, already_registered)
        else err conflicting_registration
    | none ↦ do
      signed ← build_local_signed_withdrawal sha256 keccak256 secp vaa_id registration
      ok (
        record {
          withdrawals = (registration.key, (registration.payload, signed)) ∷ service.withdrawals;
        },
        inserted,
      )
  ]

unfoldable pub get : LocalManagerService → VaaKey → Option LocalSignedWithdrawal
get service key = elim (find service.withdrawals key) [
  | none ↦ none
  | some (payload, signed) ↦ some signed
]
