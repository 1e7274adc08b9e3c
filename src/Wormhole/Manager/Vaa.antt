-- ===== src/Wormhole/Manager/Vaa.antt =====
-- The VAAs of doge/src/wormhole/manager.rs: reading, signing digest, and the local synthesis.
--
-- `keccak256` is the digest of the sha3 package.
pub mod Body
use psy_doge_solana_cli.Common.{
  ℕ, ◌+◌, ◌*◌, ◌≡◌, List, [], ◌∷◌, ◌++◌, Bool, true, false, not, ltb, ◌==◌, ◌&&◌, eqb, length, drop,
  slice, Result, ok, err, bail_if, ◌>>=◌, ◌>>◌, be_bytes, from_be,
}
use psy_doge_solana_cli.Wormhole.Tx.{TransactionOutput}
use psy_doge_solana_cli.Wormhole.Tx.Persisted.{byte_at}
use psy_doge_solana_cli.Wormhole.Manager.Errors.{
  Error, vaa_too_short, vaa_body_too_short, vaa_truncated,
}

pub record VaaHeader : Type 0 where
  pub version : ℕ
  pub guardian_set_index : ℕ
  pub emitter_chain : ℕ
  pub emitter_address : List ℕ
  pub sequence : ℕ
  pub payload : List ℕ

unfoldable pub parse_vaa : List ℕ → Result Error VaaHeader
parse_vaa bytes = do
  bail_if (ltb (length bytes) 6) (vaa_too_short (length bytes))
  let sig_count = byte_at bytes 5
  let off = 6 + sig_count * (1 + 65)
  bail_if (ltb (length bytes) (off + 4 + 4 + 2 + 32 + 8 + 1)) vaa_body_too_short
  -- timestamp and nonce
  let off = off + 4
  let off = off + 4
  let emitter_chain = from_be (slice off (off + 2) bytes)
  let off = off + 2
  let emitter_address = slice off (off + 32) bytes
  let off = off + 32
  let sequence = from_be (slice off (off + 8) bytes)
  let off = off + 8
  -- consistency level
  let off = off + 1
  ok (record {
    version = byte_at bytes 0;
    guardian_set_index = from_be (slice 1 5 bytes);
    emitter_chain = emitter_chain;
    emitter_address = emitter_address;
    sequence = sequence;
    payload = drop off bytes;
  })

unfoldable pub vaa_body : List ℕ → Result Error (List ℕ)
vaa_body signed_vaa = do
  bail_if (ltb (length signed_vaa) 6) (vaa_too_short (length signed_vaa))
  let sig_count = byte_at signed_vaa 5
  let body_off = 6 + sig_count * (1 + 65)
  bail_if (ltb (length signed_vaa) body_off) vaa_truncated
  ok (drop body_off signed_vaa)

module _ (keccak256 : List ℕ → List ℕ) where
  unfoldable pub vaa_signing_digest : List ℕ → Result Error (List ℕ)
  vaa_signing_digest signed_vaa = do body ← vaa_body signed_vaa; ok (keccak256 (keccak256 body))

  unfoldable pub vaa_hash_matches : List ℕ → List ℕ → Result Error Bool
  vaa_hash_matches signed_vaa manager_vaa_hash = do
    computed ← vaa_signing_digest signed_vaa
    ok (eqb computed manager_vaa_hash)

pub record VaaKey : Type 0 where
  pub emitter_chain : ℕ
  pub emitter_address : List ℕ
  pub sequence : ℕ

unfoldable pub key_eqb : VaaKey → VaaKey → Bool
key_eqb a b =
    a.emitter_chain == b.emitter_chain
    && (eqb a.emitter_address b.emitter_address && a.sequence == b.sequence)

pub record LocalSigningInput : Type 0 where
  pub original_recipient_address : List ℕ
  pub transaction_id : List ℕ
  pub vout : ℕ

pub record LocalWithdrawalRegistration : Type 0 where
  pub key : VaaKey
  pub payload : List ℕ
  pub unsigned_transaction : List ℕ
  pub inputs : List LocalSigningInput
  pub outputs : List TransactionOutput

unfoldable pub synthesize_local_vaa : LocalWithdrawalRegistration → List ℕ
synthesize_local_vaa registration =
    (1 ∷ [])
    ++ (be_bytes 4 0
        ++ ((0 ∷ [])
            ++ (be_bytes 4 0
                ++ (be_bytes 4 0
                    ++ (be_bytes 2 registration.key.emitter_chain
                        ++ (registration.key.emitter_address
                            ++ (be_bytes 8 registration.key.sequence
                                ++ ((0 ∷ []) ++ registration.payload))))))))
