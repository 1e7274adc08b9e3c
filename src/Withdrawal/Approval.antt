-- ===== src/Withdrawal/Approval.antt =====
-- `assert_vaa_and_manager` of doge/src/commands/process_withdrawal.rs.
--
-- Keccak-256 is a parameter. `emitter` is the list of the 32 bytes of the emitter's key.
pub mod Accepted
use psy_doge_solana_cli.Common.{
  ℕ, List, [], ◌∷◌, Bool, true, false, not, ◌&&◌, ◌||◌, ◌==◌, eqb, Result, ok, err, bail_if,
  map_err, ◌>>=◌, ◌>>◌,
}
use psy_doge_solana_cli.Wormhole.Utx0
use psy_doge_solana_cli.Wormhole.Utx0.{Utx0Output, Utx0UnlockPayload}
use psy_doge_solana_cli.Wormhole.Manager.Set.{ManagerSet}
use psy_doge_solana_cli.Wormhole.Manager.Vaa.{VaaHeader, parse_vaa, vaa_hash_matches}
use psy_doge_solana_cli.Wormhole.Manager.Signatures.{ManagerSignatures}
use psy_doge_solana_cli.Wormhole.Manager.Local.{dogecoin, type_eqb}
use psy_doge_solana_cli.Withdrawal.Errors.{
  Error, manager_error, payload_error, hash_mismatch, identity_mismatch, metadata_mismatch,
}

abbrev pub solana_emitter_chain : ℕ
solana_emitter_chain = 1

-- The derived `==` of `Utx0Output` and `Utx0UnlockPayload`.
unfoldable pub outputs_eqb : List Utx0Output → List Utx0Output → Bool
outputs_eqb [] [] = true
outputs_eqb (a ∷ os) (b ∷ ps) =
    (a.amount == b.amount && (type_eqb a.address_type b.address_type && eqb a.address b.address))
    && outputs_eqb os ps
outputs_eqb _ _ = false

unfoldable pub payload_eqb : Utx0UnlockPayload → Utx0UnlockPayload → Bool
payload_eqb a b =
    a.destination_chain == b.destination_chain
    && (a.delegated_manager_set_index == b.delegated_manager_set_index
        && outputs_eqb a.outputs b.outputs)

-- The second test, whose last part reads the payload; `||` stops at the first part that holds.
unfoldable pub check_identity : VaaHeader → List ℕ → ℕ → Utx0UnlockPayload → Result Error (Unit {0})
check_identity vaa emitter sequence payload = do
  bail_if
      (not (vaa.emitter_chain == solana_emitter_chain)
        || (not (eqb vaa.emitter_address emitter) || not (vaa.sequence == sequence)))
      identity_mismatch
  parsed ← map_err payload_error (Utx0.parse vaa.payload)
  bail_if (not (payload_eqb parsed payload)) identity_mismatch

unfoldable pub assert_vaa_and_manager :
    (List ℕ → List ℕ)
    → List ℕ
    → ManagerSignatures
    → List ℕ
    → ℕ
    → Utx0UnlockPayload
    → ManagerSet
    → Result Error (Unit {0})
assert_vaa_and_manager keccak256 signed_vaa signatures emitter sequence payload manager_set = do
  matches ← map_err manager_error (vaa_hash_matches keccak256 signed_vaa signatures.vaa_hash)
  bail_if (not matches) hash_mismatch
  vaa ← map_err manager_error (parse_vaa signed_vaa)
  check_identity vaa emitter sequence payload
  bail_if
      (not (signatures.destination_chain == dogecoin)
        || (not (signatures.manager_set_index == payload.delegated_manager_set_index)
            || (not (signatures.required == manager_set.m)
                || not (signatures.total == manager_set.n))))
      metadata_mismatch
