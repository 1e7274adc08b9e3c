-- ===== src/Withdrawal/Signing/Kept.antt =====
-- What the managers' signatures leave as it is.
use psy_doge_solana_cli.Common.{
  ℕ, ◌+◌, ◌≡◌, sym, ap, ◌∙◌, List, [], ◌∷◌, map, ok, collect, ok-same, map_err, >>=-ok,
}
use psy_doge_solana_cli.Wormhole.Tx.{UnsignedTransaction, input_count}
use psy_doge_solana_cli.Wormhole.Tx.Wire.{TxIn}
use psy_doge_solana_cli.Wormhole.Tx.Sighash.{sighash_all}
use psy_doge_solana_cli.Wormhole.Tx.Sighash.Signing.{applied}
use psy_doge_solana_cli.Wormhole.Manager.Set.{ManagerSet}
use psy_doge_solana_cli.Wormhole.Manager.Signatures.{ManagerSignatures, Secp256k1}
use psy_doge_solana_cli.Wormhole.Manager.Local.{range}
use psy_doge_solana_cli.Withdrawal.Errors.{transaction_error}
use psy_doge_solana_cli.Withdrawal.Signing.{
  Signature, collect_signers, apply_all, empty_lists, apply_manager_signatures,
}
use psy_doge_solana_cli.Withdrawal.Signing.Applied.{apply_step, chosen_of}

abbrev with_inputs : UnsignedTransaction → List TxIn → UnsignedTransaction
with_inputs tx inputs = record tx { inputs = inputs }

apply_all-inputs_only :
    (m index : ℕ) (lists : List (List Signature)) (tx final : UnsignedTransaction)
    → apply_all m index lists tx ≡ ok final
    → final ≡ with_inputs tx final.inputs
unfolding apply_all
apply_all-inputs_only m index [] tx final e =
    sym (ok-same e) ∙ ap (λ t. with_inputs tx t.inputs) (ok-same e)
apply_all-inputs_only m index (list ∷ lists) tx final e =
    let (next, _, step, rest) = apply_step m index list lists tx final e in
    let (_, _, _, _, is_next) = applied tx next index (map (λ p. p.1) (chosen_of m list)) step in
    apply_all-inputs_only m (index + 1) lists next final rest
    ∙ ap (λ t. with_inputs t final.inputs) is_next

-- The managers' signatures change nothing but the inputs.
pub apply_manager_signatures-inputs_only :
    (sha256 : List ℕ → List ℕ) (secp : Secp256k1) (tx : UnsignedTransaction)
    (signatures : ManagerSignatures) (manager_set : ManagerSet) (final : UnsignedTransaction)
    → apply_manager_signatures sha256 secp tx signatures manager_set ≡ ok final
    → final ≡ with_inputs tx final.inputs
unfolding apply_manager_signatures
apply_manager_signatures-inputs_only sha256 secp tx signatures manager_set final e =
    let n = input_count tx in
    let (hashes, _, rest) =
      >>=-ok
        (collect (λ index. map_err transaction_error (sighash_all sha256 tx index)) (range 0 n)) _
        e in
    let (lists, _, applied_all) =
      >>=-ok (collect_signers secp manager_set n hashes [] (empty_lists n) signatures.signatures) _
        rest in
    apply_all-inputs_only manager_set.m 0 lists tx final applied_all
