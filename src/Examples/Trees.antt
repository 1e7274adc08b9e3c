-- ===== src/Examples/Trees.antt =====
-- A block of three transactions, and small trees, under a hash that puts a bracket around its
-- parts.
use psy_doge_solana_cli.Common.{
  ℕ, zero, suc, ◌*◌, ◌+◌, ◌/◌, ◌%◌, ◌≡◌, refl, List, [], ◌∷◌, ◌++◌, get_elem?, some, ok, collect,
  eqb,
}
use psy_doge_solana_cli.Custody.{
  Leaves, SpentTxoProof, FixedMerkleProof, merkle_root_from_proof, build_transaction_merkle_branch,
  compute_sparse_merkle_root, build_sequential_spent_txo_proofs, build_fixed_merkle_proofs,
  spent_txo_proof, build_sparse_levels, siblings_of, root_of, level_at, levels_above, parents,
  parent_indices, contains, drop_zeros, lookup, put, set_bit, has_bit, zero_bytes, flip_last,
  fixed_merkle_proof, enumerate,
}
use psy_doge_solana_cli.Custody.Branch.{build_transaction_merkle_branch-root}
use psy_doge_solana_cli.Custody.Sequence.{Chain, build_sequential_spent_txo_proofs-Chain}
use psy_doge_solana_cli.Custody.Fixed.{build_fixed_merkle_proofs-root}
use psy_doge_solana_cli.Examples.Given.{repeat}

abbrev bracket : List ℕ → List ℕ → List ℕ
bracket left right = left ++ right

abbrev block : List (List ℕ)
block = (1 ∷ []) ∷ (2 ∷ []) ∷ (3 ∷ []) ∷ []

build_transaction_merkle_branch-root_example :
    (root : List ℕ) × (branch : List (List ℕ)) × (build_transaction_merkle_branch bracket block 2
      ≡ ok (root, branch))
    × (merkle_root_from_proof bracket (3 ∷ []) 2 branch ≡ root)
build_transaction_merkle_branch-root_example =
    build_transaction_merkle_branch-root bracket block 2 (3 ∷ []) refl

abbrev weight : List ℕ → ℕ
weight [] = 0
weight (b ∷ bs) = b + weight bs

-- A hash of one number, under which an empty subtree has the hash 0.
abbrev weigh : List ℕ → List ℕ → List ℕ
weigh left right = (weight left + 3 * weight right) ∷ []

abbrev zero_hash : ℕ → List ℕ
zero_hash zero = zero_bytes 32
zero_hash (suc level) = 0 ∷ []

abbrev place : ℕ → ℕ × ℕ
place combined_index = (combined_index / 256, combined_index % 256)

-- Two outputs of one leaf and one of another.
has_spent :
    (made : List SpentTxoProof × Leaves) × (build_sequential_spent_txo_proofs weigh zero_hash 3
        place []
        (5 ∷ 300 ∷ 301 ∷ [])
      ≡ ok made)
unfolding build_sequential_spent_txo_proofs spent_txo_proof build_sparse_levels siblings_of root_of
    level_at levels_above parents parent_indices contains drop_zeros lookup put set_bit has_bit
    zero_bytes flip_last merkle_root_from_proof compute_sparse_merkle_root eqb
has_spent = (_, refl)

build_sequential_spent_txo_proofs-Chain_example :
    Chain weigh zero_hash 3 place
      (compute_sparse_merkle_root weigh zero_hash 3 [])
      (5 ∷ 300 ∷ 301 ∷ [])
      has_spent.0.0
      (compute_sparse_merkle_root weigh zero_hash 3 has_spent.0.1)
build_sequential_spent_txo_proofs-Chain_example =
    build_sequential_spent_txo_proofs-Chain weigh zero_hash 3 place [] has_spent.0.1
      (5 ∷ 300 ∷ 301 ∷ []) has_spent.0.0 has_spent.1

abbrev requests : List (List ℕ)
requests = repeat 32 1 ∷ repeat 32 2 ∷ repeat 32 3 ∷ []

has_fixed :
    (made : List ℕ × List FixedMerkleProof) × (build_fixed_merkle_proofs weigh zero_hash 3 requests
        (2 ∷ 0 ∷ [])
      ≡ ok made)
unfolding build_fixed_merkle_proofs fixed_merkle_proof enumerate collect build_sparse_levels
    siblings_of root_of level_at levels_above parents parent_indices contains drop_zeros lookup
    zero_bytes flip_last merkle_root_from_proof eqb
has_fixed = (_, refl)

build_fixed_merkle_proofs-root_example :
    (proof : FixedMerkleProof) × (leaf : List ℕ) × (get_elem? has_fixed.0.1 0 ≡ some proof)
    × (proof.index ≡ 2)
    × (get_elem? requests 2 ≡ some leaf)
    × (merkle_root_from_proof weigh leaf 2 proof.siblings ≡ has_fixed.0.0)
build_fixed_merkle_proofs-root_example =
    build_fixed_merkle_proofs-root weigh zero_hash 3 requests (2 ∷ 0 ∷ []) has_fixed.0.0
      has_fixed.0.1 0 2 has_fixed.1 refl
