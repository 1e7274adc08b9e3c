-- ===== src/Custody/Sequence.antt =====
-- Each spent-output proof starts at the root at which the one before it ends.
use psy_doge_solana_cli.Common.{
  ℕ, ◌≡◌, sym, ap, ◌∙◌, subst, List, [], ◌∷◌, false, eqb→eq, Result, ok, >>=-ok, arith,
}
use psy_doge_solana_cli.Custody.{
  Error, Leaves, SpentTxoProof, merkle_root_from_proof, set_bit, has_bit, lookup, zero_bytes,
  unwrap_or, put, compute_sparse_merkle_root, build_sparse_levels, siblings_of, spent_txo_proof,
  build_sequential_spent_txo_proofs,
}

module _ (two_to_one : List ℕ → List ℕ → List ℕ) (zero_hash : ℕ → List ℕ) (total_bits : ℕ)
    (decode : ℕ → ℕ × ℕ) where
  abbrev root : Leaves → List ℕ
  root leaves = compute_sparse_merkle_root two_to_one zero_hash total_bits leaves

  -- The proof spends the output at `decode combined_index`: its bit was clear in the old leaf, the
  -- old leaf leads to the old root, and with the bit set to the new one.
  pub record Spends (combined_index : ℕ) (proof : SpentTxoProof) : Type 0 where
    pub place : (proof.merkle_index, proof.bit_index) ≡ decode combined_index
    pub unspent : has_bit proof.old_leaf proof.bit_index ≡ false
    pub from_old :
        merkle_root_from_proof two_to_one proof.old_leaf proof.merkle_index proof.siblings
        ≡ proof.old_root
    pub to_new :
        merkle_root_from_proof two_to_one
          (set_bit proof.old_leaf proof.bit_index)
          proof.merkle_index
          proof.siblings
        ≡ proof.new_root

  -- The proofs spend the outputs one after another, and lead from the first root to the last.
  pub data Chain : List ℕ → List ℕ → List SpentTxoProof → List ℕ → Type 0 where
    done : {r : List ℕ} → Chain r [] [] r
    link :
        {combined_index : ℕ} {rest : List ℕ} {proof : SpentTxoProof} {proofs : List SpentTxoProof}
        {last : List ℕ}
        → Spends combined_index proof
        → Chain proof.new_root rest proofs last
        → Chain proof.old_root (combined_index ∷ rest) (proof ∷ proofs) last

  proof_step :
      (leaves next : Leaves) (combined_index : ℕ) (proof : SpentTxoProof)
      → spent_txo_proof two_to_one zero_hash total_bits decode leaves combined_index
        ≡ ok (proof, next)
      → Spends combined_index proof × (root leaves ≡ proof.old_root) × (root next ≡ proof.new_root)
  unfolding spent_txo_proof compute_sparse_merkle_root
  proof_step leaves next combined_index proof e =
      let merkle_index = (decode combined_index).0 in
      let bit_index = (decode combined_index).1 in
      let leaf = unwrap_or (lookup leaves merkle_index) (zero_bytes 32) in
      let siblings =
        siblings_of two_to_one zero_hash total_bits
          (build_sparse_levels two_to_one zero_hash total_bits leaves total_bits) total_bits 0
          merkle_index in
      let new_leaf = set_bit leaf bit_index in
      (
        record {
          place = ground arith;
          unspent = ground arith;
          from_old = ground arith;
          to_new = ground arith;
        },
        ground (
          arith,
          eqb→eq (merkle_root_from_proof two_to_one leaf merkle_index siblings) (root leaves),
        ),
        ground (
          arith,
          eqb→eq (root (put leaves merkle_index new_leaf))
              (merkle_root_from_proof two_to_one new_leaf merkle_index siblings),
        ),
      )

  chain_step :
      (leaves last : Leaves) (i : ℕ) (is : List ℕ) (proofs : List SpentTxoProof)
      → build_sequential_spent_txo_proofs two_to_one zero_hash total_bits decode leaves (i ∷ is)
        ≡ ok (proofs, last)
      → (proof : SpentTxoProof) × (next : Leaves) × (more : List SpentTxoProof) × (spent_txo_proof
            two_to_one zero_hash total_bits decode leaves i
          ≡ ok (proof, next))
        × (build_sequential_spent_txo_proofs two_to_one zero_hash total_bits decode next is
            ≡ ok (more, last))
        × (proof ∷ more ≡ proofs)
  unfolding build_sequential_spent_txo_proofs
  chain_step leaves last i is proofs e =
      let (first, one, rest) =
        >>=-ok (spent_txo_proof two_to_one zero_hash total_bits decode leaves i) _ e in
      let (others, two, shape) =
        >>=-ok (build_sequential_spent_txo_proofs two_to_one zero_hash total_bits decode first.1 is)
          _ rest in
      (
        first.0,
        first.1,
        others.0,
        one,
        two ∙ ap (λ l. ok (others.0, l)) (same_pair shape).1,
        (same_pair shape).0,
      )
    where
      same_pair :
          {ps qs : List SpentTxoProof} {l m : Leaves}
          → ◌≡◌ {A = Result Error (List SpentTxoProof × Leaves)} (ok (ps, l)) (ok (qs, m))
          → (ps ≡ qs) × (l ≡ m)
      same_pair h = (cc, cc)

  -- When the proofs can be built, each spends its output, in the order of the inputs, and they lead
  -- without a gap from the root of the leaves before to the root of the leaves after.
  pub build_sequential_spent_txo_proofs-Chain :
      (leaves last : Leaves) (indices : List ℕ) (proofs : List SpentTxoProof)
      → build_sequential_spent_txo_proofs two_to_one zero_hash total_bits decode leaves indices
        ≡ ok (proofs, last)
      → Chain (root leaves) indices proofs (root last)
  unfolding build_sequential_spent_txo_proofs
  build_sequential_spent_txo_proofs-Chain leaves last [] [] e =
      subst (λ r. Chain (root leaves) [] [] (root r)) (ground arith) done
  build_sequential_spent_txo_proofs-Chain leaves last [] (p ∷ ps) e = absurd (ground arith)
  build_sequential_spent_txo_proofs-Chain leaves last (i ∷ is) proofs e =
      let (proof, next, more, one, others, shape) = chain_step leaves last i is proofs e in
      let (spends, before, after) = proof_step leaves next i proof one in
      subst (λ ps. Chain (root leaves) (i ∷ is) ps (root last)) shape
        (subst (λ r. Chain r (i ∷ is) (proof ∷ more) (root last)) (sym before)
          (link spends (
            subst (λ r. Chain r is more (root last)) after
              (build_sequential_spent_txo_proofs-Chain next last is more others))))
