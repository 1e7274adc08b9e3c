-- ===== src/Custody/Branch.antt =====
-- A transaction's Merkle branch leads from the transaction to the root.
use psy_doge_solana_cli.Common.{
  ℕ, zero, suc, ◌+◌, ◌/◌, ◌%◌, ◌<◌, ◌≤◌, ◌≡◌, refl, sym, ap, ◌∙◌, List, [], ◌∷◌, lt→leb, ◌==◌,
  if◌then◌else◌, length, get_elem?, Option, some, ok, arith,
}
use psy_doge_solana_cli.Custody.{
  flip_last, merkle_root_from_proof, parent_level, sibling_index, branch_loop,
  build_transaction_merkle_branch,
}

module _ (two_to_one : List ℕ → List ℕ → List ℕ) where
  -- The hash of a value and its sibling, in the order of their places.
  abbrev joined : List ℕ → ℕ → List ℕ → List ℕ
  joined value index sibling =
      if index % 2 == 0 then two_to_one value sibling else two_to_one sibling value

  length-parent_level :
      (level : List (List ℕ)) → length (parent_level two_to_one level) ≡ (length level + 1) / 2
  unfolding parent_level
  length-parent_level [] = refl
  length-parent_level (l ∷ []) = refl
  length-parent_level (l ∷ (r ∷ rest)) = omega (arith, length-parent_level rest)

  inside :
      (level : List (List ℕ)) (index : ℕ) (value : List ℕ)
      → get_elem? level index ≡ some value
      → index < length level
  inside [] index value e = absurd (ground arith)
  inside (h ∷ hs) zero value e = omega arith
  inside (h ∷ hs) (suc index) value e = omega (arith, inside hs index value e)

  some-same : {a b : List ℕ} → ◌≡◌ {A = Option (List ℕ)} (some a) (some b) → a ≡ b
  some-same e = cc

  shifted : (i n : ℕ) → sibling_index (suc (suc i)) (suc (suc n)) ≡ suc (suc (sibling_index i n))
  unfolding sibling_index flip_last
  shifted i n = ground arith

  sibling_of_first : (n : ℕ) → sibling_index 0 (suc (suc n)) ≡ 1
  unfolding sibling_index flip_last
  sibling_of_first n = ground arith

  sibling_of_second : (n : ℕ) → sibling_index 1 (suc (suc n)) ≡ 0
  unfolding sibling_index flip_last
  sibling_of_second n = ground arith

  parity : (i : ℕ) → (suc (suc i) % 2 == 0) ≡ (i % 2 == 0)
  parity i = ap (λ k. k == 0) (omega arith)

  -- The sibling is there, and both hash to the parent.
  parent_level-at :
      (level : List (List ℕ)) (index : ℕ) (value : List ℕ)
      → get_elem? level index ≡ some value
      → (sibling : List ℕ) × (get_elem? level (sibling_index index (length level)) ≡ some sibling)
        × (get_elem? (parent_level two_to_one level) (index / 2)
            ≡ some (joined value index sibling))
  unfolding parent_level
  parent_level-at [] index value e = absurd (ground arith)
  parent_level-at (l ∷ []) zero value e =
      (l, unfold sibling_index flip_last in refl, ap (λ v. some (two_to_one v l)) (some-same e))
  parent_level-at (l ∷ []) (suc index) value e = absurd (ground arith)
  parent_level-at (l ∷ (r ∷ rest)) zero value e = (
    r,
    ap (get_elem? (l ∷ (r ∷ rest))) (sibling_of_first (length rest)),
    ap (λ v. some (two_to_one v r)) (some-same e),
  )
  parent_level-at (l ∷ (r ∷ rest)) (suc zero) value e = (
    l,
    ap (get_elem? (l ∷ (r ∷ rest))) (sibling_of_second (length rest)),
    ap (λ v. some (two_to_one l v)) (some-same e),
  )
  parent_level-at (l ∷ (r ∷ rest)) (suc (suc index)) value e =
      let (sibling, found, above) = parent_level-at rest index value e in
      (
        sibling,
        ap (get_elem? (l ∷ (r ∷ rest))) (shifted index (length rest)) ∙ found,
        ap (get_elem? (parent_level two_to_one (l ∷ (r ∷ rest)))) (half index)
            ∙ above
            ∙ ap (λ b. some (if b then two_to_one value sibling else two_to_one sibling value))
                (sym (parity index)),
      )
    where
      half : (i : ℕ) → suc (suc i) / 2 ≡ suc (i / 2)
      half i = omega arith

  one_round :
      (fuel : ℕ) (level : List (List ℕ)) (index : ℕ) (sibling root : List ℕ)
      (branch : List (List ℕ))
      → 2 ≤ length level
      → get_elem? level (sibling_index index (length level)) ≡ some sibling
      → branch_loop two_to_one fuel (parent_level two_to_one level) (index / 2)
        ≡ some (root, branch)
      → branch_loop two_to_one (suc fuel) level index ≡ some (root, sibling ∷ branch)
  unfolding branch_loop
  one_round fuel level index sibling root branch l found built =
      rw (lt→leb (length level) 1 l, found, built, branch_loop) refl

  -- Fuel for the number of hashes of the level is enough.
  branch_loop-root :
      (fuel : ℕ) (level : List (List ℕ)) (index : ℕ) (value : List ℕ)
      → length level ≤ fuel
      → get_elem? level index ≡ some value
      → (root : List ℕ) × (branch : List (List ℕ)) × (branch_loop two_to_one fuel level index
          ≡ some (root, branch))
        × (merkle_root_from_proof two_to_one value index branch ≡ root)
  unfolding branch_loop merkle_root_from_proof
  branch_loop-root zero level index value l e = absurd (omega (arith, inside level index value e))
  branch_loop-root (suc fuel) [] index value l e = absurd (ground arith)
  branch_loop-root (suc fuel) (h ∷ []) zero value l e = (h, [], refl, some-same (sym e))
  branch_loop-root (suc fuel) (h ∷ []) (suc index) value l e = absurd (ground arith)
  branch_loop-root (suc fuel) (h ∷ (k ∷ rest)) index value l e =
      let level = h ∷ (k ∷ rest) in
      let (sibling, found, above) = parent_level-at level index value e in
      let (root, branch, built, folded) =
        branch_loop-root fuel (parent_level two_to_one level) (index / 2)
          (joined value index sibling) (omega (arith, length-parent_level level)) above in
      (
        root,
        sibling ∷ branch,
        one_round fuel level index sibling root branch (omega arith) found built,
        folded,
      )

  -- For a transaction of the block there is a branch, and the hashes along it, from the
  -- transaction at its place, lead to the root that is returned with it.
  pub build_transaction_merkle_branch-root :
      (txids : List (List ℕ)) (target_index : ℕ) (txid : List ℕ)
      → get_elem? txids target_index ≡ some txid
      → (root : List ℕ) × (branch : List (List ℕ)) × (build_transaction_merkle_branch two_to_one
            txids target_index
          ≡ ok (root, branch))
        × (merkle_root_from_proof two_to_one txid target_index branch ≡ root)
  build_transaction_merkle_branch-root txids target_index txid e =
      let (root, branch, built, folded) =
        branch_loop-root (length txids) txids target_index txid (omega arith) e in
      (root, branch, accepted (inside txids target_index txid e) root branch built, folded)
    where
      accepted :
          target_index < length txids
          → (root : List ℕ) (branch : List (List ℕ))
          → branch_loop two_to_one (length txids) txids target_index ≡ some (root, branch)
          → build_transaction_merkle_branch two_to_one txids target_index ≡ ok (root, branch)
      accepted h root branch built = unfold build_transaction_merkle_branch in ground (arith, built)
