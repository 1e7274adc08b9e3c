-- ===== src/Common/Effects.antt =====
-- Code that changes a store and can fail: the store is there also after an error.

use mathlib.Core.Path.{◌≡◌, refl}
use psy_doge_solana_cli.Common.Results.{Result, ok, err, map_err}

abbrev pub Effect : Type 0 → Type 0 → Type 0 → Type 0
Effect E S A = S → S × Result E A

-- What follows a run: an error ends it.
abbrev pub then_run : {E S A B : Type 0} → (A → Effect E S B) → S × Result E A → S × Result E B
then_run next (s, ok value) = next value s
then_run next (s, err e) = (s, err e)

infixl 5 ◌>>=◌ ◌>>◌
abbrev pub ◌>>=◌ : {E S A B : Type 0} → Effect E S A → (A → Effect E S B) → Effect E S B
◌>>=◌ first next s = then_run next (first s)

abbrev pub ◌>>◌ : {E S B : Type 0} → Effect E S (Unit {0}) → Effect E S B → Effect E S B
first >> second = first >>= λ done. second

-- A result that needs no store, and one that is read from it.
abbrev pub lift : {E S A : Type 0} → Result E A → Effect E S A
lift result s = (s, result)

abbrev pub read : {E S A : Type 0} → (S → Result E A) → Effect E S A
read query s = (s, query s)

-- A call of the store, its errors passed on by `wrap`.
abbrev pub wrap_run : {D E S A : Type 0} → (D → E) → S × Result D A → S × Result E A
wrap_run wrap (s, result) = (s, map_err wrap result)

abbrev pub call : {D E S A : Type 0} → (D → E) → (S → S × Result D A) → Effect E S A
call wrap operation s = wrap_run wrap (operation s)

abbrev pub pure : {E S A : Type 0} → A → Effect E S A
pure value s = (s, ok value)

-- What holds of a chain that starts with a result holds where the result is an error, and behind
-- it.
pub lifted :
    {E S A B : Type 0} (P : S × Result E B → Type 0) (result : Result E A)
    (after : A → S × Result E B) (s : S)
    → ((e : E) → P (s, err e))
    → ((value : A) → result ≡ ok value → P (after value))
    → P (elim result [ ok value ↦ after value | err e ↦ (s, err e) ])
lifted P (ok value) after s failed went_on = went_on value refl
lifted P (err e) after s failed went_on = failed e

-- A run that succeeds has succeeded in its first part.
pub then_run-ok :
    {E S A B : Type 0} (next : A → Effect E S B) (run : S × Result E A) (s : S) (value : B)
    → then_run next run ≡ (s, ok value)
    → (t : S) × (first : A) × (run ≡ (t, ok first)) × (next first t ≡ (s, ok value))
then_run-ok next (t, ok first) s value h = (t, first, refl, h)
then_run-ok next (t, err e) s value h = cc
