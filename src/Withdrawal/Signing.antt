-- ===== src/Withdrawal/Signing.antt =====
-- `apply_manager_signatures` of doge/src/commands/process_withdrawal.rs.
--
-- SHA-256 and secp256k1 are parameters. An error leaves the caller without the transaction, so
-- what was applied before it is not part of the result.
pub mod Order
pub mod Collected
pub mod Applied
pub mod Kept
use psy_doge_solana_cli.Common.{
  ℕ, zero, suc, ◌+◌, List, [], ◌∷◌, ◌++◌, map, Bool, true, false, not, ◌&&◌, ◌||◌, ltb, leb, ◌==◌,
  if◌then◌else◌, length, take, get_elem?, Option, none, some, Result, ok, err, bail_if, ok_or,
  map_err, collect, ◌>>=◌, ◌>>◌,
}
use psy_doge_solana_cli.Wormhole.Tx.{UnsignedTransaction, input_count, apply_script_sig}
use psy_doge_solana_cli.Wormhole.Tx.Sighash.{sighash_all}
use psy_doge_solana_cli.Wormhole.Manager.Set.{ManagerSet}
use psy_doge_solana_cli.Wormhole.Manager.Signatures.{
  SignerSignatures, ManagerSignatures, Secp256k1, verify_manager_signature,
}
use psy_doge_solana_cli.Wormhole.Manager.Local.{range}
use psy_doge_solana_cli.Withdrawal.Errors.{
  Error, transaction_error, manager_error, duplicate_signer, wrong_signature_count,
  invalid_signature, signer_out_of_range, too_few_signatures,
}

-- A signer's index and its signature of one input.
abbrev pub Signature : Type 0
Signature = ℕ × List ℕ

unfoldable pub contains : List ℕ → ℕ → Bool
contains [] x = false
contains (y ∷ ys) x = y == x || contains ys x

-- `sort_by_key(|(signer, _)| *signer)`, which is stable.
unfoldable pub insert : Signature → List Signature → List Signature
insert e [] = e ∷ []
insert e (f ∷ fs) = if leb e.0 f.0 then e ∷ (f ∷ fs) else f ∷ insert e fs

unfoldable pub sort_by_signer : List Signature → List Signature
sort_by_signer [] = []
sort_by_signer (e ∷ es) = insert e (sort_by_signer es)

-- The loop over one signer's signatures, in step with the hashes and the lists that it adds to.
unfoldable pub add_signatures :
    Secp256k1
    → List ℕ
    → ℕ
    → ℕ
    → List (List ℕ)
    → List (List ℕ)
    → List (List Signature)
    → Result Error (List (List Signature))
add_signatures secp public_key signer index (sighash ∷ sighashes) (signature ∷ signatures)
      (list ∷ lists) =
    do
      valid ← map_err manager_error (verify_manager_signature secp public_key sighash signature)
      bail_if (not valid) (invalid_signature index)
      rest ← add_signatures secp public_key signer (index + 1) sighashes signatures lists
      ok ((list ++ ((signer, signature) ∷ [])) ∷ rest)
add_signatures secp public_key signer index _ _ lists = ok lists

-- The loop over the signers; `seen` is in the order of insertion.
unfoldable pub collect_signers :
    Secp256k1
    → ManagerSet
    → ℕ
    → List (List ℕ)
    → List ℕ
    → List (List Signature)
    → List SignerSignatures
    → Result Error (List (List Signature))
collect_signers secp manager_set count sighashes seen per_input [] = ok per_input
collect_signers secp manager_set count sighashes seen per_input (signer ∷ signers) = do
  bail_if (contains seen signer.signer_index) (duplicate_signer signer.signer_index)
  public_key ← ok_or (get_elem? manager_set.pubkeys signer.signer_index) signer_out_of_range
  bail_if (not (length signer.input_signatures == count))
      (wrong_signature_count signer.signer_index)
  per_input ←
      add_signatures secp public_key signer.signer_index 0 sighashes signer.input_signatures
        per_input
  collect_signers secp manager_set count sighashes (seen ++ (signer.signer_index ∷ [])) per_input
      signers

-- The loop that signs the inputs from number `index` on.
unfoldable pub apply_all :
    ℕ → ℕ → List (List Signature) → UnsignedTransaction → Result Error UnsignedTransaction
apply_all m index [] transaction = ok transaction
apply_all m index (list ∷ lists) transaction = do
  let sorted = sort_by_signer list
  bail_if (ltb (length sorted) m) (too_few_signatures index (length sorted) m)
  transaction ←
      map_err transaction_error
        (apply_script_sig transaction index (map (λ e. e.1) (take m sorted)))
  apply_all m (index + 1) lists transaction

-- `vec![Vec::new(); n]`
unfoldable pub empty_lists : ℕ → List (List Signature)
empty_lists zero = []
empty_lists (suc n) = [] ∷ empty_lists n

module _ (sha256 : List ℕ → List ℕ) (secp : Secp256k1) where
  unfoldable pub apply_manager_signatures :
      UnsignedTransaction → ManagerSignatures → ManagerSet → Result Error UnsignedTransaction
  apply_manager_signatures transaction signatures manager_set = do
    sighashes ←
        collect (λ index. map_err transaction_error (sighash_all sha256 transaction index))
          (range 0 (input_count transaction))
    per_input ←
        collect_signers secp manager_set (input_count transaction) sighashes []
          (empty_lists (input_count transaction)) signatures.signatures
    apply_all manager_set.m 0 per_input transaction
