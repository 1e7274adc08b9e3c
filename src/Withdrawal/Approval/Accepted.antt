-- ===== src/Withdrawal/Approval/Accepted.antt =====
-- What an accepted VAA and manager response agree on.
use psy_doge_solana_cli.Common.{
  ℕ, ◌≡◌, refl, ap, ◌∙◌, List, [], ◌∷◌, true, eqb→eq, ok, Result-cases, inl, inr, arith,
}
use psy_doge_solana_cli.Wormhole.Utx0
use psy_doge_solana_cli.Wormhole.Utx0.{UtxoAddressType, p2pkh, p2sh, Utx0Output, Utx0UnlockPayload}
use psy_doge_solana_cli.Wormhole.Manager.Set.{ManagerSet}
use psy_doge_solana_cli.Wormhole.Manager.Vaa.{
  VaaHeader, parse_vaa, vaa_signing_digest, vaa_hash_matches,
}
use psy_doge_solana_cli.Wormhole.Manager.Signatures.{ManagerSignatures}
use psy_doge_solana_cli.Wormhole.Manager.Local.Built.{type_eqb→eq}
use psy_doge_solana_cli.Withdrawal.Approval.{
  outputs_eqb, payload_eqb, check_identity, assert_vaa_and_manager,
}

outputs_eqb→eq : (os ps : List Utx0Output) → outputs_eqb os ps ≡ true → os ≡ ps
unfolding outputs_eqb
outputs_eqb→eq [] [] h = refl
outputs_eqb→eq [] (p ∷ ps) h = absurd (ground arith)
outputs_eqb→eq (o ∷ os) [] h = absurd (ground arith)
outputs_eqb→eq (o ∷ os) (p ∷ ps) h = ground (
  arith,
  type_eqb→eq o.address_type p.address_type,
  eqb→eq o.address p.address,
  outputs_eqb→eq os ps,
)

payload_eqb→eq : (a b : Utx0UnlockPayload) → payload_eqb a b ≡ true → a ≡ b
unfolding payload_eqb
payload_eqb→eq a b h = ground (arith, outputs_eqb→eq a.outputs b.outputs)

identity :
    (vaa : VaaHeader) (emitter : List ℕ) (sequence : ℕ) (payload : Utx0UnlockPayload)
    → check_identity vaa emitter sequence payload ≡ ok tt
    → (vaa.emitter_chain ≡ 1)
      × (vaa.emitter_address ≡ emitter)
      × (vaa.sequence ≡ sequence)
      × (Utx0.parse vaa.payload ≡ ok payload)
unfolding check_identity
identity vaa emitter sequence payload e = elim (Result-cases (Utx0.parse vaa.payload)) [
  | inl (parsed, found) ↦
      let same : parsed ≡ payload = payload_eqb→eq parsed payload (ground (arith, found)) in
      (
        ground arith,
        ground (arith, eqb→eq vaa.emitter_address emitter),
        ground arith,
        found ∙ ap ok same,
      )
  | inr (x, failed) ↦ absurd (ground (arith, failed))
]

module _ (keccak256 : List ℕ → List ℕ) (signed_vaa : List ℕ) (signatures : ManagerSignatures)
    (emitter : List ℕ) (sequence : ℕ) (payload : Utx0UnlockPayload) (manager_set : ManagerSet)
    (e : assert_vaa_and_manager keccak256 signed_vaa signatures emitter sequence payload manager_set
      ≡ ok tt) where
  digest : vaa_signing_digest keccak256 signed_vaa ≡ ok signatures.vaa_hash
  unfolding assert_vaa_and_manager vaa_hash_matches
  digest = elim (Result-cases (vaa_signing_digest keccak256 signed_vaa)) [
    | inl (computed, found) ↦
        found ∙ ap ok (eqb→eq computed signatures.vaa_hash (ground (arith, found)))
    | inr (x, failed) ↦ absurd (ground (arith, failed))
  ]

  -- An accepted VAA has the signing digest that the manager reports, comes from the emitter on
  -- Solana with the sequence, and carries the payload; the manager's response is for Dogecoin and
  -- the payload's set, with the set's numbers of signers.
  pub assert_vaa_and_manager-ok :
      (vaa_signing_digest keccak256 signed_vaa ≡ ok signatures.vaa_hash)
      × (vaa : VaaHeader) × (parse_vaa signed_vaa ≡ ok vaa)
      × (vaa.emitter_chain ≡ 1)
      × (vaa.emitter_address ≡ emitter)
      × (vaa.sequence ≡ sequence)
      × (Utx0.parse vaa.payload ≡ ok payload)
      × (signatures.destination_chain ≡ 65)
      × (signatures.manager_set_index ≡ payload.delegated_manager_set_index)
      × (signatures.required ≡ manager_set.m)
      × (signatures.total ≡ manager_set.n)
  unfolding assert_vaa_and_manager
  assert_vaa_and_manager-ok = elim (Result-cases (parse_vaa signed_vaa)) [
    | inl (vaa, found) ↦
        let (chain, address, number, carried) =
          identity vaa emitter sequence payload (ground (arith, found)) in
        (
          digest,
          vaa,
          found,
          chain,
          address,
          number,
          carried,
          ground arith,
          ground arith,
          ground arith,
          ground arith,
        )
    | inr (x, failed) ↦ absurd (ground (arith, failed))
  ]
