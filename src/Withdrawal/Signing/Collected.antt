-- ===== src/Withdrawal/Signing/Collected.antt =====
-- The lists of signatures that the loop over the signers builds.
use psy_doge_solana_cli.Common.{
  ℕ, zero, suc, ◌+◌, ◌≡◌, ◌≢◌, refl, sym, ap, ◌∙◌, subst, List, [], ◌∷◌, ◌++◌, map, true, false,
  ◌==◌, length, get_elem?, All, All-append, some, ok, ok-same, Result-cases, Option-cases, inl, inr,
  arith,
}
use psy_doge_solana_cli.Wormhole.Manager.Set.{ManagerSet}
use psy_doge_solana_cli.Wormhole.Manager.Signatures.{
  SignerSignatures, Secp256k1, verify_manager_signature,
}
use psy_doge_solana_cli.Withdrawal.Signing.{
  Signature, contains, add_signatures, collect_signers, empty_lists,
}
use psy_doge_solana_cli.Withdrawal.Signing.Order.{Distinct}

-- The signature is one of the hash under the signer's key of the set.
abbrev pub Verified : Secp256k1 → ManagerSet → List ℕ → Signature → Type 0
Verified secp manager_set sighash e =
    (public_key : List ℕ) × (get_elem? manager_set.pubkeys e.0 ≡ some public_key)
    × (verify_manager_signature secp public_key sighash e.1 ≡ ok true)

-- A relation that holds between two lists in step, of one length.
abbrev pub Pairwise : {A B : Type 0} → (A → B → Type 0) → List A → List B → Type 0
Pairwise R [] [] = Unit
Pairwise R (x ∷ xs) (y ∷ ys) = R x y × Pairwise R xs ys
Pairwise R [] (y ∷ ys) = ⊥
Pairwise R (x ∷ xs) [] = ⊥

abbrev NoDup : List ℕ → Type 0
NoDup [] = Unit
NoDup (x ∷ xs) = All (λ y. x ≢ y) xs × NoDup xs

contains_step :
    (x : ℕ) (xs : List ℕ) (s : ℕ)
    → contains (x ∷ xs) s ≡ false
    → ((x == s) ≡ false) × (contains xs s ≡ false)
unfolding contains
contains_step x xs s h = ground arith

differ : (a b : ℕ) → (a == b) ≡ false → a ≢ b
differ a b h e = absurd (ground arith)

snoc-NoDup :
    (seen : List ℕ) (s : ℕ) → contains seen s ≡ false → NoDup seen → NoDup (seen ++ (s ∷ []))
snoc-NoDup [] s h d = (tt, tt)
snoc-NoDup (x ∷ xs) s h d =
    let (other, fresh) = contains_step x xs s h in
    (All-append (λ y. x ≢ y) xs (s ∷ []) d.0 (differ x s other, tt), snoc-NoDup xs s fresh d.1)

All-of_map :
    (x : ℕ) (es : List Signature) → All (λ y. x ≢ y) (map (λ e. e.0) es) → All (λ f. x ≢ f.0) es
All-of_map x [] h = tt
All-of_map x (e ∷ es) h = (h.0, All-of_map x es h.1)

NoDup-Distinct : (list : List Signature) → NoDup (map (λ e. e.0) list) → Distinct list
NoDup-Distinct [] d = tt
NoDup-Distinct (e ∷ es) d = (All-of_map e.0 es d.0, NoDup-Distinct es d.1)

module _ (secp : Secp256k1) (manager_set : ManagerSet) where
  -- The list has one verified signature of the hash from each signer seen, in the order seen.
  abbrev pub Holds : List ℕ → List ℕ → List Signature → Type 0
  Holds seen sighash list =
      (map (λ e. e.0) list ≡ seen) × All (Verified secp manager_set sighash) list

  map-snoc :
      (list : List Signature) (e : Signature)
      → map (λ x. x.0) (list ++ (e ∷ [])) ≡ map (λ x. x.0) list ++ (e.0 ∷ [])
  map-snoc [] e = refl
  map-snoc (f ∷ fs) e = ap (◌∷◌ f.0) (map-snoc fs e)

  add_step :
      (pk : List ℕ) (signer index : ℕ) (h : List ℕ) (hs : List (List ℕ)) (s : List ℕ)
      (ss : List (List ℕ)) (l : List Signature) (ls next : List (List Signature))
      → add_signatures secp pk signer index (h ∷ hs) (s ∷ ss) (l ∷ ls) ≡ ok next
      → (rest : List (List Signature)) × (verify_manager_signature secp pk h s ≡ ok true)
        × (add_signatures secp pk signer (index + 1) hs ss ls ≡ ok rest)
        × (next ≡ (l ++ ((signer, s) ∷ [])) ∷ rest)
  unfolding add_signatures
  add_step pk signer index h hs s ss l ls next e =
      elim (Result-cases (add_signatures secp pk signer (index + 1) hs ss ls)) [
        | inl (rest, found) ↦ (rest, ground arith, found, ground (arith, found))
        | inr (x, failed) ↦ absurd (ground (arith, failed))
      ]

  add_signatures-Holds :
      (pk : List ℕ) (signer : ℕ) (seen : List ℕ)
      → get_elem? manager_set.pubkeys signer ≡ some pk
      → (index : ℕ) (hs ss : List (List ℕ)) (lists next : List (List Signature))
      → Pairwise (Holds seen) hs lists
      → length ss ≡ length hs
      → add_signatures secp pk signer index hs ss lists ≡ ok next
      → Pairwise (Holds (seen ++ (signer ∷ []))) hs next
  unfolding add_signatures
  add_signatures-Holds pk signer seen key index [] [] [] [] p l e = tt
  add_signatures-Holds pk signer seen key index [] [] [] (n ∷ next) p l e = absurd (ground arith)
  add_signatures-Holds pk signer seen key index [] [] (list ∷ lists) next p l e = absurd p
  add_signatures-Holds pk signer seen key index [] (s ∷ ss) lists next p l e = absurd (omega arith)
  add_signatures-Holds pk signer seen key index (h ∷ hs) ss [] next p l e = absurd p
  add_signatures-Holds pk signer seen key index (h ∷ hs) [] (list ∷ lists) next p l e =
      absurd (omega arith)
  add_signatures-Holds pk signer seen key index (h ∷ hs) (s ∷ ss) (list ∷ lists) next p l e =
      let (rest, valid, others, shape) = add_step pk signer index h hs s ss list lists next e in
      let tail =
        add_signatures-Holds pk signer seen key (index + 1) hs ss lists rest p.1 (omega arith)
          others in
      subst (Pairwise (Holds (seen ++ (signer ∷ []))) (h ∷ hs)) (sym shape) (
        (
          map-snoc list (signer, s) ∙ ap (λ ks. ks ++ (signer ∷ [])) p.0.0,
          All-append (Verified secp manager_set h) list ((signer, s) ∷ []) p.0.1
              ((pk, key, valid), tt),
        ),
        tail,
      )

  signers_step :
      (count : ℕ) (hs : List (List ℕ)) (seen : List ℕ) (lists : List (List Signature))
      (s : SignerSignatures) (ss : List SignerSignatures) (final : List (List Signature))
      → collect_signers secp manager_set count hs seen lists (s ∷ ss) ≡ ok final
      → (pk : List ℕ) × (next : List (List Signature)) × (contains seen s.signer_index ≡ false)
        × (get_elem? manager_set.pubkeys s.signer_index ≡ some pk)
        × (length s.input_signatures ≡ count)
        × (add_signatures secp pk s.signer_index 0 hs s.input_signatures lists ≡ ok next)
        × (collect_signers secp manager_set count hs (seen ++ (s.signer_index ∷ [])) next ss
            ≡ ok final)
  unfolding collect_signers
  signers_step count hs seen lists s ss final e =
      elim (Option-cases (get_elem? manager_set.pubkeys s.signer_index)) [
        | inl absent ↦ absurd (ground (arith, absent))
        | inr (pk, key) ↦
            elim (Result-cases
              (add_signatures secp pk s.signer_index 0 hs s.input_signatures lists)) [
                | inl (next, found) ↦ (
                  pk,
                  next,
                  ground (arith, key),
                  key,
                  ground (arith, key),
                  found,
                  ground (arith, key, found),
                )
                | inr (x, failed) ↦ absurd (ground (arith, key, failed))
              ]
      ]

  collect_signers-Holds :
      (count : ℕ) (hs : List (List ℕ))
      → length hs ≡ count
      → (signers : List SignerSignatures) (seen : List ℕ) (lists final : List (List Signature))
      → NoDup seen
      → Pairwise (Holds seen) hs lists
      → collect_signers secp manager_set count hs seen lists signers ≡ ok final
      → (all : List ℕ) × NoDup all × Pairwise (Holds all) hs final
  unfolding collect_signers
  collect_signers-Holds count hs l [] seen lists final d p e =
      (seen, d, subst (Pairwise (Holds seen) hs) (ok-same e) p)
  collect_signers-Holds count hs l (s ∷ ss) seen lists final d p e =
      let (pk, next, is_new, key, width, added, others) =
        signers_step count hs seen lists s ss final e in
      collect_signers-Holds count hs l ss (seen ++ (s.signer_index ∷ [])) next final
        (snoc-NoDup seen s.signer_index is_new d)
        (add_signatures-Holds pk s.signer_index seen key 0 hs s.input_signatures lists next p
          (width ∙ sym l) added)
        others

  empty_lists-Holds :
      (hs : List (List ℕ)) (n : ℕ) → length hs ≡ n → Pairwise (Holds []) hs (empty_lists n)
  unfolding empty_lists
  empty_lists-Holds [] zero l = tt
  empty_lists-Holds [] (suc n) l = absurd (omega arith)
  empty_lists-Holds (h ∷ hs) zero l = absurd (omega arith)
  empty_lists-Holds (h ∷ hs) (suc n) l = ((refl, tt), empty_lists-Holds hs n (omega arith))

  abbrev pub Collects : List ℕ → List Signature → Type 0
  Collects sighash list = Distinct list × All (Verified secp manager_set sighash) list

  weaken :
      (all : List ℕ)
      → NoDup all
      → (hs : List (List ℕ)) (lists : List (List Signature)) → Pairwise (Holds all) hs lists
      → Pairwise Collects hs lists
  weaken all d [] [] p = tt
  weaken all d [] (l ∷ ls) p = absurd p
  weaken all d (h ∷ hs) [] p = absurd p
  weaken all d (h ∷ hs) (l ∷ ls) p =
      ((NoDup-Distinct l (subst NoDup (sym p.0.0) d), p.0.1), weaken all d hs ls p.1)

  pub collect_signers-Collects :
      (hs : List (List ℕ)) (count : ℕ) (signers : List SignerSignatures)
      (final : List (List Signature))
      → length hs ≡ count
      → collect_signers secp manager_set count hs [] (empty_lists count) signers ≡ ok final
      → Pairwise Collects hs final
  collect_signers-Collects hs count signers final l e =
      let (all, d, p) =
        collect_signers-Holds count hs l signers [] (empty_lists count) final tt
          (empty_lists-Holds hs count l) e in
      weaken all d hs final p
