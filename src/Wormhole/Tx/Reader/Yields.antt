-- ===== src/Wormhole/Tx/Reader/Yields.antt =====
-- What is known of a value that a reader returned.
use psy_doge_solana_cli.Common.{
  ◌≡◌, refl, ap, subst, Bool, true, false, Result, ok, err, ◌⊎◌, inl, inr,
}
use psy_doge_solana_cli.Wormhole.Tx.Errors.{Error}
use psy_doge_solana_cli.Wormhole.Tx.Reader.{Reader, Read, ◌>>=◌, pure, lift, reject_if}

-- Whenever `m` returns, its value satisfies `P`.
pub record Yields {A : Type 0} (m : Read A) (P : A → Type 0) : Type 0 where
  pub at : (r s : Reader) (a : A) → m r ≡ ok (a, s) → P a

Yields-any : {A : Type 0} (m : Read A) → Yields m (λ a. Unit)
Yields-any m = record { at = λ r s a e. tt }

same_value :
    {A : Type 0} {a b : A} {r s : Reader}
    → ◌≡◌ {A = Result Error (A × Reader)} (ok (a, r)) (ok (b, s))
    → a ≡ b
same_value e = cc

pub Yields-pure : {A : Type 0} {P : A → Type 0} (a : A) → P a → Yields (pure a) P
Yields-pure {P = P} a h = record { at = λ r s b e. subst P (same_value e) h }

clash :
    {A : Type 0} {x : Error} {b : A} {s : Reader}
    → ◌≡◌ {A = Result Error (A × Reader)} (err x) (ok (b, s))
    → ⊥
clash e = cc

inspect :
    {A : Type 0} (x : Result Error (A × Reader))
    → ((a : A) × (s : Reader) × (x ≡ ok (a, s))) ⊎ ((e : Error) × (x ≡ err e))
inspect (ok (a, s)) = inl (a, s, refl)
inspect (err e) = inr (e, refl)

pub Yields-bind :
    {A B : Type 0} (m : Read A) (f : A → Read B) (P : A → Type 0) (Q : B → Type 0)
    → Yields m P
    → ((a : A) → P a → Yields (f a) Q)
    → Yields (m >>= f) Q
Yields-bind m f P Q hm hf = record {
  at = λ r s b e. elim (inspect (m r)) [
    | inl (a, r', em) ↦ (hf a (hm.at r r' a em)).at r' s b (rw (em, ◌>>=◌) at e)
    | inr (x, em) ↦ absurd (clash (rw (em, ◌>>=◌) at e))
  ];
}

pub Yields-weaken :
    {A : Type 0} (m : Read A) (P Q : A → Type 0) → Yields m P → ((a : A) → P a → Q a) → Yields m Q
Yields-weaken m P Q h f = record { at = λ r s a e. f a (h.at r s a e) }

-- Nothing is asked of the first value.
pub Yields-skip :
    {A B : Type 0} (m : Read A) (f : A → Read B) (Q : B → Type 0)
    → ((a : A) → Yields (f a) Q)
    → Yields (m >>= f) Q
Yields-skip m f Q hf = Yields-bind m f (λ a. Unit) Q (Yields-any m) (λ a _. hf a)

-- After a check the rest runs only if the check passes.
pub Yields-guard :
    {B : Type 0} (b : Bool) (e : Error) (k : Read B) (Q : B → Type 0)
    → (b ≡ false → Yields k Q)
    → Yields (reject_if b e >>= λ _. k) Q
Yields-guard true e k Q h = record { at = λ r s a p. absurd (clash p) }
Yields-guard false e k Q h = record { at = (h refl).at }

pub Yields-lift : {A : Type 0} (m : Result Error A) → Yields (lift m) (λ a. m ≡ ok a)
Yields-lift (ok x) = record { at = λ r s a e. ap ok (same_value e) }
Yields-lift (err x) = record { at = λ r s a e. absurd (clash e) }
