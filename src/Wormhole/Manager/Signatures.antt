-- ===== src/Wormhole/Manager/Signatures.antt =====
-- The manager's signatures of doge/src/wormhole/manager.rs.
--
-- The secp256k1 package is a parameter: which bytes are a public key, which are a DER signature,
-- and whether a signature of a digest is valid under a key.
use psy_doge_solana_cli.Common.{
  ℕ, List, Bool, not, ◌==◌, split_last, none, some, Result, ok, err, ensure, bail_if, ◌>>◌,
}
use psy_doge_solana_cli.Wormhole.Tx.{sighash_all_type}
use psy_doge_solana_cli.Wormhole.Manager.Errors.{
  Error, empty_signature, not_sighash_all, invalid_pubkey, invalid_der,
}

pub record SignerSignatures : Type 0 where
  pub signer_index : ℕ
  pub input_signatures : List (List ℕ)

pub record ManagerSignatures : Type 0 where
  pub is_complete : Bool
  pub vaa_hash : List ℕ
  pub vaa_id : List ℕ
  pub destination_chain : ℕ
  pub manager_set_index : ℕ
  pub required : ℕ
  pub total : ℕ
  pub signatures : List SignerSignatures

-- The operations of the secp256k1 package, on the bytes of keys, secrets and DER signatures.
pub record Secp256k1 : Type 0 where
  pub is_pubkey : List ℕ → Bool
  pub is_der : List ℕ → Bool
  -- message digest, DER signature, public key
  pub verify_ecdsa : List ℕ → List ℕ → List ℕ → Bool
  pub is_secret : List ℕ → Bool
  -- message digest, secret key
  pub sign_ecdsa : List ℕ → List ℕ → List ℕ

unfoldable pub verify_manager_signature : Secp256k1 → List ℕ → List ℕ → List ℕ → Result Error Bool
verify_manager_signature secp pubkey_compressed sighash der_with_hashtype =
    elim (split_last der_with_hashtype) [
      | none ↦ err empty_signature
      | some (der, hash_type) ↦ do
        bail_if (not (hash_type == sighash_all_type)) (not_sighash_all hash_type)
        ensure (secp.is_pubkey pubkey_compressed) invalid_pubkey
        ensure (secp.is_der der) invalid_der
        ok (secp.verify_ecdsa sighash der pubkey_compressed)
    ]
