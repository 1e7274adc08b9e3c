-- ===== src/Withdrawal/Signing/Order.antt =====
-- Sorting by signer.
use psy_doge_solana_cli.Common.{
  ℕ, zero, suc, ◌≡◌, ◌≢◌, ◌<◌, ◌≤◌, refl, List, [], ◌∷◌, leb, leb→le, leb→lt, Bool-cases, inl, inr,
  length, take, All, All-map, All-take, arith,
}
use psy_doge_solana_cli.Withdrawal.Signing.{Signature, insert, sort_by_signer}

-- Each signer comes before all later ones.
abbrev pub Ascending : List Signature → Type 0
Ascending [] = Unit
Ascending (e ∷ es) = All (λ f. e.0 < f.0) es × Ascending es

-- No signer occurs twice.
abbrev pub Distinct : List Signature → Type 0
Distinct [] = Unit
Distinct (e ∷ es) = All (λ f. e.0 ≢ f.0) es × Distinct es

module _ (P : Signature → Type 0) where
  insert-All : (e : Signature) (es : List Signature) → P e → All P es → All P (insert e es)
  unfolding insert
  insert-All e [] h k = (h, tt)
  insert-All e (f ∷ fs) h k = elim (Bool-cases (leb e.0 f.0)) [
    | inl first ↦ rw first (h, k)
    | inr later ↦ rw later (k.0, insert-All e fs h k.1)
  ]

  pub sort_by_signer-All : (es : List Signature) → All P es → All P (sort_by_signer es)
  unfolding sort_by_signer
  sort_by_signer-All [] h = tt
  sort_by_signer-All (e ∷ es) h = insert-All e (sort_by_signer es) h.0 (sort_by_signer-All es h.1)

length-insert : (e : Signature) (es : List Signature) → length (insert e es) ≡ suc (length es)
unfolding insert
length-insert e [] = refl
length-insert e (f ∷ fs) = elim (Bool-cases (leb e.0 f.0)) [
  | inl first ↦ rw first refl
  | inr later ↦ rw later (omega (arith, length-insert e fs))
]

length-sort_by_signer : (es : List Signature) → length (sort_by_signer es) ≡ length es
unfolding sort_by_signer
length-sort_by_signer [] = refl
length-sort_by_signer (e ∷ es) =
    omega (arith, length-insert e (sort_by_signer es), length-sort_by_signer es)

insert-Ascending :
    (e : Signature) (es : List Signature)
    → All (λ f. e.0 ≢ f.0) es
    → Ascending es
    → Ascending (insert e es)
unfolding insert
insert-Ascending e [] n h = (tt, tt)
insert-Ascending e (f ∷ fs) n h = elim (Bool-cases (leb e.0 f.0)) [
  | inl first ↦
      let below = strict e.0 f.0 (leb→le e.0 f.0 first) n.0 in
      rw first ((below, All-map fs (λ g lt. omega (arith, below, lt)) h.0), h)
  | inr later ↦
      rw later
        (insert-All (λ g. f.0 < g.0) e fs (leb→lt e.0 f.0 later) h.0, insert-Ascending e fs n.1 h.1)
]
  where
    strict : (a b : ℕ) → a ≤ b → a ≢ b → a < b
    strict a b le ne = omega (arith, ne)

pub sort_by_signer-Ascending : (es : List Signature) → Distinct es → Ascending (sort_by_signer es)
unfolding sort_by_signer
sort_by_signer-Ascending [] h = tt
sort_by_signer-Ascending (e ∷ es) h =
    insert-Ascending e (sort_by_signer es) (sort_by_signer-All (λ f. e.0 ≢ f.0) es h.0)
      (sort_by_signer-Ascending es h.1)

pub take-Ascending : (n : ℕ) (es : List Signature) → Ascending es → Ascending (take n es)
take-Ascending zero es h = tt
take-Ascending (suc n) [] h = tt
take-Ascending (suc n) (e ∷ es) h = (All-take (λ f. e.0 < f.0) n es h.0, take-Ascending n es h.1)
