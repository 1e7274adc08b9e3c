-- ===== src/Custody.antt =====
-- doge/src/custody_ops.rs: the Merkle trees of the custody outputs.
--
-- Of the psy_bridge_core package, the two-to-one hash, the hashes of the empty subtrees, the
-- height of the tree of spent outputs and the place of an output in it are parameters. A
-- `HashMap` is a list of its entries, with one for each key.
pub mod Branch
pub mod Sequence
pub mod Fixed
use psy_doge_solana_cli.Common.{
  ℕ, zero, suc, ◌+◌, ◌-◌, ◌*◌, ◌/◌, ◌%◌, ◌^◌, List, [], ◌∷◌, ◌++◌, map, Bool, true, false, not,
  ◌&&◌, ◌||◌, ltb, leb, ◌==◌, eqb, if◌then◌else◌, length, get_elem?, set, Option, none, some,
  Result, ok, err, bail_if, ok_or, collect, ◌>>=◌, ◌>>◌, bit_and, bit_or,
}

pub data Error : Type 0 where
  empty_block out_of_fuel : Error
  outside_block outside_tree already_spent : ℕ → Error
  tree_too_large stale_root inconsistent_root wrong_request_root : Error

-- `unwrap_or`
abbrev pub unwrap_or {ℓ} : {A : Type ℓ} → Option A → A → A
unwrap_or none other = other
unwrap_or (some value) other = value

-- `index ^ 1`
unfoldable pub flip_last : ℕ → ℕ
flip_last index = if index % 2 == 0 then index + 1 else index - 1

unfoldable pub merkle_root_from_proof :
    (List ℕ → List ℕ → List ℕ) → List ℕ → ℕ → List (List ℕ) → List ℕ
merkle_root_from_proof two_to_one value index [] = value
merkle_root_from_proof two_to_one value index (sibling ∷ siblings) =
    let next = if index % 2 == 0 then two_to_one value sibling else two_to_one sibling value in
    merkle_root_from_proof two_to_one next (index / 2) siblings

-- `build_transaction_merkle_branch`: the hashes of the pairs of a level; a last one pairs with
-- itself.
unfoldable pub parent_level : (List ℕ → List ℕ → List ℕ) → List (List ℕ) → List (List ℕ)
parent_level two_to_one [] = []
parent_level two_to_one (left ∷ []) = two_to_one left left ∷ []
parent_level two_to_one (left ∷ (right ∷ rest)) =
    two_to_one left right ∷ parent_level two_to_one rest

unfoldable pub sibling_index : ℕ → ℕ → ℕ
unfolding flip_last
sibling_index index len = if ltb (flip_last index) len then flip_last index else index

-- The loop over the levels; each round takes one of `fuel`.
unfoldable pub branch_loop :
    (List ℕ → List ℕ → List ℕ) → ℕ → List (List ℕ) → ℕ → Option (List ℕ × List (List ℕ))
branch_loop two_to_one zero level index = none
branch_loop two_to_one (suc fuel) level index =
    let rest = branch_loop two_to_one fuel (parent_level two_to_one level) (index / 2) in
    if leb (length level) 1
    then elim (get_elem? level 0) [ none ↦ none | some root ↦ some (root, []) ]
    else elim (get_elem? level (sibling_index index (length level))) [
      | none ↦ none
      | some sibling ↦ elim rest [
        | none ↦ none
        | some (root, branch) ↦ some (root, sibling ∷ branch)
      ]
    ]

unfoldable pub build_transaction_merkle_branch :
    (List ℕ → List ℕ → List ℕ) → List (List ℕ) → ℕ → Result Error (List ℕ × List (List ℕ))
build_transaction_merkle_branch two_to_one txids target_index = do
  bail_if (length txids == 0) empty_block
  bail_if (leb (length txids) target_index) (outside_block target_index)
  ok_or (branch_loop two_to_one (length txids) txids target_index) out_of_fuel

abbrev pub Leaves : Type 0
Leaves = List (ℕ × List ℕ)

unfoldable pub lookup : Leaves → ℕ → Option (List ℕ)
lookup [] index = none
lookup ((i, value) ∷ rest) index = if i == index then some value else lookup rest index

-- `HashMap::insert`
unfoldable pub put : Leaves → ℕ → List ℕ → Leaves
put [] index value = (index, value) ∷ []
put ((i, old) ∷ rest) index value =
    let others = put rest index value in
    if i == index then (index, value) ∷ rest else (i, old) ∷ others

-- `filter(|(_, value)| **value != zero)`
unfoldable pub drop_zeros : List ℕ → Leaves → Leaves
drop_zeros zero_leaf [] = []
drop_zeros zero_leaf ((i, value) ∷ rest) =
    if eqb value zero_leaf
    then drop_zeros zero_leaf rest
    else (i, value) ∷ drop_zeros zero_leaf rest

-- `leaf[byte_index] |= bit_mask` and `leaf[byte_index] & bit_mask != 0`
unfoldable pub set_bit : List ℕ → ℕ → List ℕ
set_bit leaf bit_index = elim (get_elem? leaf (bit_index / 8)) [
  | none ↦ leaf
  | some byte ↦ set leaf (bit_index / 8) (bit_or byte (2 ^ (bit_index % 8)))
]

unfoldable pub has_bit : List ℕ → ℕ → Bool
has_bit leaf bit_index = elim (get_elem? leaf (bit_index / 8)) [
  | none ↦ false
  | some byte ↦ not (bit_and byte (2 ^ (bit_index % 8)) == 0)
]

unfoldable pub zero_bytes : ℕ → List ℕ
zero_bytes zero = []
zero_bytes (suc count) = 0 ∷ zero_bytes count

pub record SpentTxoProof : Type 0 where
  pub old_leaf : List ℕ
  pub bit_index : ℕ
  pub merkle_index : ℕ
  pub siblings : List (List ℕ)
  pub old_root : List ℕ
  pub new_root : List ℕ

pub record FixedMerkleProof : Type 0 where
  pub index : ℕ
  pub siblings : List (List ℕ)

-- `enumerate().filter(|(_, value)| *value != [0u8; 32])`
unfoldable pub enumerate : ℕ → List (List ℕ) → Leaves
enumerate index [] = []
enumerate index (value ∷ rest) =
    let others = enumerate (index + 1) rest in
    if eqb value (zero_bytes 32) then others else (index, value) ∷ others

unfoldable pub contains : List ℕ → ℕ → Bool
contains [] x = false
contains (y ∷ ys) x = y == x || contains ys x

-- `keys().map(|index| index >> 1).collect::<HashSet<_>>()`
unfoldable pub parent_indices : Leaves → List ℕ → List ℕ
parent_indices [] seen = []
parent_indices ((i, value) ∷ rest) seen =
    let others = parent_indices rest (i / 2 ∷ seen) in
    if contains seen (i / 2) then parent_indices rest seen else i / 2 ∷ others

module _ (two_to_one : List ℕ → List ℕ → List ℕ) (zero_hash : ℕ → List ℕ) (total_bits : ℕ) where
  -- The loop over the parents of a level.
  unfoldable pub parents : ℕ → Leaves → List ℕ → Leaves
  parents level current [] = []
  parents level current (parent_index ∷ rest) =
      let left = unwrap_or (lookup current (parent_index * 2)) (zero_hash level) in
      let right = unwrap_or (lookup current (parent_index * 2 + 1)) (zero_hash level) in
      let parent = two_to_one left right in
      let others = parents level current rest in
      if eqb parent (zero_hash (level + 1)) then others else (parent_index, parent) ∷ others

  -- `count` levels above `current`, which is number `level`.
  unfoldable pub levels_above : ℕ → ℕ → Leaves → List Leaves
  levels_above zero level current = current ∷ []
  levels_above (suc count) level current =
      current ∷ levels_above count (level + 1) (parents level current (parent_indices current []))

  unfoldable pub build_sparse_levels : Leaves → ℕ → List Leaves
  build_sparse_levels leaves height = levels_above height 0 (drop_zeros (zero_hash 0) leaves)

  -- `levels[level]`, at a level that there is.
  unfoldable pub level_at : List Leaves → ℕ → Leaves
  level_at levels level = unwrap_or (get_elem? levels level) []

  unfoldable pub root_of : List Leaves → ℕ → List ℕ
  root_of levels height = unwrap_or (lookup (level_at levels height) 0) (zero_hash height)

  unfoldable pub compute_sparse_merkle_root : Leaves → List ℕ
  compute_sparse_merkle_root leaves = root_of (build_sparse_levels leaves total_bits) total_bits

  -- `std::array::from_fn`: the siblings from `level` on, `count` of them, of a path that
  -- stands at `index` there.
  unfoldable pub siblings_of : List Leaves → ℕ → ℕ → ℕ → List (List ℕ)
  siblings_of levels zero level index = []
  siblings_of levels (suc count) level index =
      unwrap_or (lookup (level_at levels level) (flip_last index)) (zero_hash level)
      ∷ siblings_of levels count (level + 1) (index / 2)

  -- `leaves[index]` and the rest of a round of the loop of `build_fixed_merkle_proofs`.
  unfoldable pub fixed_merkle_proof :
      List (List ℕ) → List Leaves → List ℕ → ℕ → Result Error FixedMerkleProof
  fixed_merkle_proof leaves levels root index = do
    leaf ← ok_or (get_elem? leaves index) (outside_tree index)
    let siblings = siblings_of levels 32 0 index
    bail_if (not (eqb (merkle_root_from_proof two_to_one leaf index siblings) root))
        wrong_request_root
    ok (record { index = index; siblings = siblings })

  unfoldable pub build_fixed_merkle_proofs :
      List (List ℕ) → List ℕ → Result Error (List ℕ × List FixedMerkleProof)
  build_fixed_merkle_proofs leaves indices = do
    bail_if (ltb (2 ^ 32 - 1) (length leaves)) tree_too_large
    let levels = build_sparse_levels (enumerate 0 leaves) 32
    let root = root_of levels 32
    proofs ← collect (fixed_merkle_proof leaves levels root) indices
    ok (root, proofs)

  module _ (decode_combined_index : ℕ → ℕ × ℕ) where
    -- A round of the loop of `build_sequential_spent_txo_proofs`.
    unfoldable pub spent_txo_proof : Leaves → ℕ → Result Error (SpentTxoProof × Leaves)
    spent_txo_proof leaves combined_index = do
      let (merkle_index, bit_index) = decode_combined_index combined_index
      let old_leaf = unwrap_or (lookup leaves merkle_index) (zero_bytes 32)
      bail_if (has_bit old_leaf bit_index) (already_spent combined_index)
      let levels = build_sparse_levels leaves total_bits
      let siblings = siblings_of levels total_bits 0 merkle_index
      let old_root = merkle_root_from_proof two_to_one old_leaf merkle_index siblings
      bail_if (not (eqb old_root (root_of levels total_bits))) stale_root
      let new_leaf = set_bit old_leaf bit_index
      let new_root = merkle_root_from_proof two_to_one new_leaf merkle_index siblings
      let next = put leaves merkle_index new_leaf
      bail_if (not (eqb (compute_sparse_merkle_root next) new_root)) inconsistent_root
      ok (
        record {
          old_leaf = old_leaf;
          bit_index = bit_index;
          merkle_index = merkle_index;
          siblings = siblings;
          old_root = old_root;
          new_root = new_root;
        },
        next,
      )

    unfoldable pub build_sequential_spent_txo_proofs :
        Leaves → List ℕ → Result Error (List SpentTxoProof × Leaves)
    build_sequential_spent_txo_proofs leaves [] = ok ([], leaves)
    build_sequential_spent_txo_proofs leaves (combined_index ∷ rest) = do
      (proof, next) ← spent_txo_proof leaves combined_index
      (proofs, last) ← build_sequential_spent_txo_proofs next rest
      ok (proof ∷ proofs, last)

    -- The loops of `rebuild_merkle_leaves` and `compute_updated_leaf_values`.
    unfoldable pub rebuild_merkle_leaves : Leaves → List ℕ → Leaves
    rebuild_merkle_leaves leaves [] = leaves
    rebuild_merkle_leaves leaves (ci ∷ rest) =
        let (merkle_idx, bit_idx) = decode_combined_index ci in
        let leaf = unwrap_or (lookup leaves merkle_idx) (zero_bytes 32) in
        rebuild_merkle_leaves (put leaves merkle_idx (set_bit leaf bit_idx)) rest

    unfoldable pub compute_updated_leaf_values : Leaves → Leaves → List ℕ → Leaves
    compute_updated_leaf_values existing_leaves result [] = result
    compute_updated_leaf_values existing_leaves result (ci ∷ rest) =
        let (merkle_idx, bit_idx) = decode_combined_index ci in
        let leaf =
          unwrap_or (lookup result merkle_idx)
            (unwrap_or (lookup existing_leaves merkle_idx) (zero_bytes 32)) in
        compute_updated_leaf_values existing_leaves (put result merkle_idx (set_bit leaf bit_idx))
          rest
