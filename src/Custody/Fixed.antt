-- ===== src/Custody/Fixed.antt =====
-- The membership proofs of withdrawal requests.
use psy_doge_solana_cli.Common.{
  ℕ, ◌≡◌, List, eqb→eq, get_elem?, some, Option-cases, ok, collect, collect-at, inl, inr, arith,
}
use psy_doge_solana_cli.Custody.{
  Leaves, FixedMerkleProof, merkle_root_from_proof, enumerate, siblings_of, build_sparse_levels,
  fixed_merkle_proof, build_fixed_merkle_proofs,
}

module _ (two_to_one : List ℕ → List ℕ → List ℕ) (zero_hash : ℕ → List ℕ) (total_bits : ℕ) where
  proof-leaf :
      (leaves : List (List ℕ)) (levels : List Leaves) (root : List ℕ) (index : ℕ)
      (proof : FixedMerkleProof)
      → fixed_merkle_proof two_to_one zero_hash total_bits leaves levels root index ≡ ok proof
      → (leaf : List ℕ) × (get_elem? leaves index ≡ some leaf)
        × (proof.index ≡ index)
        × (merkle_root_from_proof two_to_one leaf index proof.siblings ≡ root)
  unfolding fixed_merkle_proof
  proof-leaf leaves levels root index proof e = elim (Option-cases (get_elem? leaves index)) [
    | inl absent ↦ absurd (ground (arith, absent))
    | inr (leaf, found) ↦
        let siblings = siblings_of two_to_one zero_hash total_bits levels 32 0 index in
        (
          leaf,
          found,
          ground (arith, found),
          ground
              (arith, found, eqb→eq (merkle_root_from_proof two_to_one leaf index siblings) root),
        )
  ]

  collected :
      (leaves : List (List ℕ)) (indices root : List ℕ) (proofs : List FixedMerkleProof)
      → build_fixed_merkle_proofs two_to_one zero_hash total_bits leaves indices ≡ ok (root, proofs)
      → collect
          (fixed_merkle_proof two_to_one zero_hash total_bits leaves
            (build_sparse_levels two_to_one zero_hash total_bits (enumerate 0 leaves) 32)
            root)
          indices
        ≡ ok proofs
  unfolding build_fixed_merkle_proofs
  collected leaves indices root proofs e = ground arith

  -- The proof in the place of an index is for this index, which is one of the leaves, and the
  -- hashes along it lead from this leaf to the root that is returned: one root for all of them.
  pub build_fixed_merkle_proofs-root :
      (leaves : List (List ℕ)) (indices root : List ℕ) (proofs : List FixedMerkleProof)
      (i index : ℕ)
      → build_fixed_merkle_proofs two_to_one zero_hash total_bits leaves indices ≡ ok (root, proofs)
      → get_elem? indices i ≡ some index
      → (proof : FixedMerkleProof) × (leaf : List ℕ) × (get_elem? proofs i ≡ some proof)
        × (proof.index ≡ index)
        × (get_elem? leaves index ≡ some leaf)
        × (merkle_root_from_proof two_to_one leaf index proof.siblings ≡ root)
  build_fixed_merkle_proofs-root leaves indices root proofs i index e h =
      let levels = build_sparse_levels two_to_one zero_hash total_bits (enumerate 0 leaves) 32 in
      let (proof, place, made) =
        collect-at (fixed_merkle_proof two_to_one zero_hash total_bits leaves levels root) indices
          proofs i index (collected leaves indices root proofs e) h in
      let (leaf, found, same, folded) = proof-leaf leaves levels root index proof made in
      (proof, leaf, place, same, found, folded)
