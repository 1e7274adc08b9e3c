-- ===== src/Withdrawal/Spent/Committed.antt =====
-- What the spent commitment stands for.
use psy_doge_solana_cli.Common.{
  ℕ, ◌<◌, ◌^◌, ◌≡◌, ◌≢◌, refl, sym, ap, subst, ◌∙◌, List, [], ◌∷◌, ◌++◌, false, ◌⊎◌, inl, inr,
  arith, Bool-cases, length, All, ok, bail_if, ok-same, >>=-ok, ◌==◌, eqb, eqb→eq, eqb_refl,
  le_bytes, from_le, from_le-le_bytes, length-le_bytes,
}
use mathlib.Core.List.{Perm}
use mathlib.Core.List.Perm
use psy_doge_solana_cli.Withdrawal.Spent.{
  TrackedSpentOutpoint, no_outpoints, sort_by_key, check_windows, outpoint_bytes, domain, preimage,
  tracked_utxo_spent_commitment,
}
use psy_doge_solana_cli.Withdrawal.Spent.Sorting.{
  sort_by_key-perm, sort_by_key-Perm, length-sort_by_key, sort_by_key-All,
}

-- The sizes of the source's types.
abbrev pub IsOutpoint : TrackedSpentOutpoint → Type 0
IsOutpoint o = (length o.txid ≡ 32) × (o.vout < 2 ^ 32) × (o.leaf_index < 2 ^ 64)

-- The commitment, or the error, does not depend on the order in which the outpoints are given.
pub tracked_utxo_spent_commitment-Perm :
    (sha256 : List ℕ → List ℕ) (old_root : List ℕ) (xs ys : List TrackedSpentOutpoint)
    → Perm xs ys
    → tracked_utxo_spent_commitment sha256 old_root xs
      ≡ tracked_utxo_spent_commitment sha256 old_root ys
unfolding tracked_utxo_spent_commitment
tracked_utxo_spent_commitment-Perm sha256 old_root xs ys p =
    let sorted = sort_by_key-Perm xs ys p in
    let lengths = sym (length-sort_by_key xs) ∙ ap length sorted ∙ length-sort_by_key ys in
    rw (sorted, lengths) refl

cons_same : {x y : ℕ} {xs ys : List ℕ} → x ∷ xs ≡ y ∷ ys → (x ≡ y) × (xs ≡ ys)
cons_same e = (ap head e, ap tail e)
  where
    head : List ℕ → ℕ
    head [] = 0
    head (z ∷ zs) = z

    tail : List ℕ → List ℕ
    tail [] = []
    tail (z ∷ zs) = zs

append_same :
    (bs cs xs ys : List ℕ) → length bs ≡ length cs → bs ++ xs ≡ cs ++ ys → (bs ≡ cs) × (xs ≡ ys)
append_same [] [] xs ys l e = (refl, e)
append_same [] (c ∷ cs) xs ys l e = ground (arith, l)
append_same (b ∷ bs) [] xs ys l e = ground (arith, l)
append_same (b ∷ bs) (c ∷ cs) xs ys l e =
    let (first, rest) = cons_same e in
    let (front, back) = append_same bs cs xs ys (omega (arith, l)) rest in
    (λ i. first i ∷ front i, back)

le_bytes_same : (k a b : ℕ) → a < 256 ^ k → b < 256 ^ k → le_bytes k a ≡ le_bytes k b → a ≡ b
le_bytes_same k a b h h' e = sym (from_le-le_bytes k a h) ∙ ap from_le e ∙ from_le-le_bytes k b h'

word_same :
    (k a b : ℕ) (xs ys : List ℕ)
    → a < 256 ^ k
    → b < 256 ^ k
    → le_bytes k a ++ xs ≡ le_bytes k b ++ ys
    → (a ≡ b) × (xs ≡ ys)
word_same k a b xs ys h h' e =
    let (words, rest) =
      append_same (le_bytes k a) (le_bytes k b) xs ys
        (length-le_bytes k a ∙ sym (length-le_bytes k b)) e in
    (le_bytes_same k a b h h' words, rest)

outpoint_bytes_same :
    (os ps : List TrackedSpentOutpoint)
    → All IsOutpoint os
    → All IsOutpoint ps
    → length os ≡ length ps
    → outpoint_bytes os ≡ outpoint_bytes ps
    → os ≡ ps
unfolding outpoint_bytes
outpoint_bytes_same [] [] h k l e = refl
outpoint_bytes_same [] (p ∷ ps) h k l e = ground (arith, l)
outpoint_bytes_same (o ∷ os) [] h k l e = ground (arith, l)
outpoint_bytes_same (o ∷ os) (p ∷ ps) h k l e =
    let (leaf, more) = word_same 8 o.leaf_index p.leaf_index _ _ h.0.2 k.0.2 e in
    let (txid, others) = append_same o.txid p.txid _ _ (h.0.0 ∙ sym k.0.0) more in
    let (vout, last) = word_same 4 o.vout p.vout _ _ h.0.1 k.0.1 others in
    let rest = outpoint_bytes_same os ps h.1 k.1 (omega (arith, l)) last in
    λ i. record { txid = txid i; vout = vout i; leaf_index = leaf i } ∷ rest i

preimage_same :
    (r s : List ℕ) (os ps : List TrackedSpentOutpoint)
    → length r ≡ 32
    → length s ≡ 32
    → length os < 2 ^ 64
    → length ps < 2 ^ 64
    → All IsOutpoint os
    → All IsOutpoint ps
    → preimage r os ≡ preimage s ps
    → (r ≡ s) × (os ≡ ps)
unfolding preimage
preimage_same r s os ps lr ls lo lp h k e =
    let (_, tail) = append_same domain domain _ _ refl e in
    let (roots, more) = append_same r s _ _ (lr ∙ sym ls) tail in
    let (counts, outpoints) = word_same 8 (length os) (length ps) _ _ lo lp more in
    (roots, outpoint_bytes_same os ps h k counts outpoints)

sorted_preimage :
    (sha256 : List ℕ → List ℕ) (root : List ℕ) (xs : List TrackedSpentOutpoint) (h : List ℕ)
    → tracked_utxo_spent_commitment sha256 root xs ≡ ok h
    → sha256 (preimage root (sort_by_key xs)) ≡ h
unfolding tracked_utxo_spent_commitment
sorted_preimage sha256 root xs h e =
    let (_, _, checked) = >>=-ok (bail_if (length xs == 0) no_outpoints) _ e in
    let (_, _, made) = >>=-ok (check_windows (sort_by_key xs)) _ checked in ok-same made

-- For old roots of 32 bytes and fewer than 2^64 outpoints of the sizes of their types, the same
-- commitment means the same root and the same outpoints in some order, or two different byte
-- strings with the same hash.
pub tracked_utxo_spent_commitment-same :
    (sha256 : List ℕ → List ℕ) (r s : List ℕ) (xs ys : List TrackedSpentOutpoint) (h : List ℕ)
    → length r ≡ 32
    → length s ≡ 32
    → length xs < 2 ^ 64
    → length ys < 2 ^ 64
    → All IsOutpoint xs
    → All IsOutpoint ys
    → tracked_utxo_spent_commitment sha256 r xs ≡ ok h
    → tracked_utxo_spent_commitment sha256 s ys ≡ ok h
    → ((r ≡ s) × Perm xs ys) ⊎ ((a : List ℕ) × (b : List ℕ) × (a ≢ b) × (sha256 a ≡ sha256 b))
tracked_utxo_spent_commitment-same sha256 r s xs ys h lr ls lx ly hx hy ex ey =
    let first = preimage r (sort_by_key xs) in
    let second = preimage s (sort_by_key ys) in
    elim (Bool-cases (eqb first second)) [
      | inl same ↦
          let (roots, sorted) =
            preimage_same r s (sort_by_key xs) (sort_by_key ys) lr ls
              (omega (arith, lx, length-sort_by_key xs)) (omega (arith, ly, length-sort_by_key ys))
              (sort_by_key-All IsOutpoint xs hx) (sort_by_key-All IsOutpoint ys hy)
              (eqb→eq first second same) in
          inl (
            roots,
            Perm.trans (Perm.symm (sort_by_key-perm xs))
                (subst (λ l. Perm l ys) (sym sorted) (sort_by_key-perm ys)),
          )
      | inr differ ↦ inr (
        first,
        second,
        (λ e. distinct first second differ e),
        sorted_preimage sha256 r xs h ex ∙ sym (sorted_preimage sha256 s ys h ey),
      )
    ]
  where
    distinct : (a b : List ℕ) → eqb a b ≡ false → a ≢ b
    distinct a b differ e = ground (arith, differ, eqb_refl b, ap (λ l. eqb l b) e)
