-- ===== src/Common/Results.antt =====
-- Rust's `Result`: a value, or the error that `?` and `bail!` return early.
use mathlib.Core.Path.{◌≡◌, refl}
use mathlib.Core.Logic.{◌⊎◌, inl, inr}
use mathlib.Core.Bool.{Bool, true, false, not}
use mathlib.Core.Option.{Option, none, some}
use mathlib.Core.List.{List, [], ◌∷◌}
use mathlib.Core.Path.{sym, ap, ◌∙◌}
use Prim.Native.Nat.{ℕ, zero, suc}
use psy_doge_solana_cli.Common.Lists.{get_elem?, length}

pub data Result {ℓ κ} (E : Type ℓ) (A : Type κ) : Type (ℓ ⊔ κ) where
  ok : A → Result E A
  err : E → Result E A

-- `if test { bail!(e) }`, and `if !test { bail!(e) }`
abbrev pub bail_if {ℓ} : {E : Type ℓ} → Bool → E → Result E (Unit {0})
bail_if true e = err e
bail_if false e = ok tt

abbrev pub ensure {ℓ} : {E : Type ℓ} → Bool → E → Result E (Unit {0})
ensure false e = err e
ensure true e = ok tt

infixl 5 ◌>>=◌ ◌>>◌
abbrev pub ◌>>=◌ {ℓ κ λ'} :
    {E : Type ℓ} {A : Type κ} {B : Type λ'} → Result E A → (A → Result E B) → Result E B
err e >>= next = err e
ok value >>= next = next value

abbrev pub ◌>>◌ {ℓ κ} : {E : Type ℓ} {B : Type κ} → Result E (Unit {0}) → Result E B → Result E B
first >> second = first >>= λ done. second

-- `ok_or_else`
abbrev pub ok_or {ℓ κ} : {E : Type ℓ} {A : Type κ} → Option A → E → Result E A
ok_or (some a) e = ok a
ok_or none e = err e

abbrev pub map_err {ℓ κ λ'} :
    {E : Type ℓ} {F : Type κ} {A : Type λ'} → (E → F) → Result E A → Result F A
map_err f (ok a) = ok a
map_err f (err e) = err (f e)

abbrev pub map_ok {ℓ κ λ'} :
    {E : Type ℓ} {A : Type κ} {B : Type λ'} → (A → B) → Result E A → Result E B
map_ok f (ok a) = ok (f a)
map_ok f (err e) = err e

-- `iter().map(f).collect::<Result<Vec<_>>>()`: the first error ends it.
unfoldable pub collect {ℓ κ λ'} :
    {E : Type ℓ} {A : Type κ} {B : Type λ'} → (A → Result E B) → List A → Result E (List B)
collect f [] = ok []
collect f (x ∷ xs) = do y ← f x; ys ← collect f xs; ok (y ∷ ys)

-- A chain that succeeds has passed through a value of its first part.
pub >>=-ok {ℓ κ λ'} :
    {E : Type ℓ} {A : Type κ} {B : Type λ'} {last : B} (first : Result E A) (next : A → Result E B)
    → first >>= next ≡ ok last
    → (value : A) × (first ≡ ok value) × (next value ≡ ok last)
>>=-ok (err e) next p = cc
>>=-ok (ok value) next p = (value, refl, p)

pub map_err-ok {ℓ κ λ'} :
    {E : Type ℓ} {F : Type κ} {A : Type λ'} (f : E → F) (m : Result E A) {a : A}
    → map_err f m ≡ ok a
    → m ≡ ok a
map_err-ok f (ok b) h = cc
map_err-ok f (err e) h = cc

pub ok_or-ok {ℓ κ} :
    {E : Type ℓ} {A : Type κ} {a : A} (o : Option A) (e : E) → ok_or o e ≡ ok a → o ≡ some a
ok_or-ok none e h = cc
ok_or-ok (some b) e h = cc

-- The same, for what follows from the parts.
pub >>=-elim {ℓ κ λ' μ} :
    {E : Type ℓ} {A : Type κ} {B : Type λ'} {C : Type μ} {last : B} (first : Result E A)
    (next : A → Result E B)
    → first >>= next ≡ ok last
    → ((value : A) → first ≡ ok value → next value ≡ ok last → C)
    → C
>>=-elim (ok value) next h use_parts = use_parts value refl h
>>=-elim (err e) next h use_parts = cc

-- The same, forwards.
pub ok->>= {ℓ κ λ'} :
    {E : Type ℓ} {A : Type κ} {B : Type λ'} {value : A} {last : B} (first : Result E A)
    (next : A → Result E B)
    → first ≡ ok value
    → next value ≡ ok last
    → first >>= next ≡ ok last
ok->>= first next e h = ap (λ m. m >>= next) e ∙ h

pub false-bail_if {ℓ κ} :
    {E : Type ℓ} {B : Type κ} {last : B} (test : Bool) (e : E) (next : Result E B)
    → test ≡ false
    → next ≡ ok last
    → bail_if test e >> next ≡ ok last
false-bail_if test e next passed h = ap (λ b. bail_if b e >> next) passed ∙ h

-- A chain that succeeds has passed the tests in its front.
pub bail_if-ok {ℓ κ} :
    {E : Type ℓ} {B : Type κ} {last : B} (test : Bool) (e : E) (next : Result E B)
    → bail_if test e >> next ≡ ok last
    → (test ≡ false) × (next ≡ ok last)
bail_if-ok true e next h = cc
bail_if-ok false e next h = (refl, h)

pub bail_if-not-ok {ℓ κ} :
    {E : Type ℓ} {B : Type κ} {last : B} (test : Bool) (e : E) (next : Result E B)
    → bail_if (not test) e >> next ≡ ok last
    → (test ≡ true) × (next ≡ ok last)
bail_if-not-ok true e next h = (refl, h)
bail_if-not-ok false e next h = cc

-- To split on a computed result and keep the equation.
pub Result-cases {ℓ κ} :
    {E : Type ℓ} {A : Type κ} (m : Result E A) → ((a : A) × (m ≡ ok a)) ⊎ ((e : E) × (m ≡ err e))
Result-cases (ok a) = inl (a, refl)
Result-cases (err e) = inr (e, refl)

pub some-same {ℓ} : {A : Type ℓ} {a b : A} → ◌≡◌ {A = Option A} (some a) (some b) → a ≡ b
some-same e = cc

pub Option-cases {ℓ} : {A : Type ℓ} (o : Option A) → (o ≡ none) ⊎ ((a : A) × (o ≡ some a))
Option-cases none = inl refl
Option-cases (some a) = inr (a, refl)

-- The value that a successful result holds.
pub ok-same {ℓ κ} : {E : Type ℓ} {A : Type κ} {a b : A} → ◌≡◌ {A = Result E A} (ok a) (ok b) → a ≡ b
ok-same e = cc

-- A collection that succeeds, one element at a time.
pub collect-step {ℓ κ λ'} :
    {E : Type ℓ} {A : Type κ} {B : Type λ'} (f : A → Result E B) (x : A) (xs : List A) (ys : List B)
    → collect f (x ∷ xs) ≡ ok ys
    → (y : B) × (rest : List B) × (f x ≡ ok y) × (collect f xs ≡ ok rest) × (y ∷ rest ≡ ys)
unfolding collect
collect-step f x xs ys e =
    let (y, first, more) = >>=-ok (f x) _ e in
    let (rest, others, last) = >>=-ok (collect f xs) _ more in
    (y, rest, first, others, ok-same last)

-- What stands in a place of a collection was made of what stands there before.
pub collect-at {ℓ κ λ'} :
    {E : Type ℓ} {A : Type κ} {B : Type λ'} (f : A → Result E B) (xs : List A) (ys : List B) (i : ℕ)
    (x : A)
    → collect f xs ≡ ok ys
    → get_elem? xs i ≡ some x
    → (y : B) × (get_elem? ys i ≡ some y) × (f x ≡ ok y)
collect-at f [] ys i x e h = cc
collect-at f (z ∷ zs) ys zero x e h =
    let (y, rest, first, others, shape) = collect-step f z zs ys e in
    (y, ap (λ l. get_elem? l 0) (sym shape), ap f (same (sym h)) ∙ first)
  where
    same : {A : Type κ} {a b : A} → ◌≡◌ {A = Option A} (some a) (some b) → a ≡ b
    same p = cc
collect-at f (z ∷ zs) ys (suc i) x e h =
    let (first, rest, made, others, shape) = collect-step f z zs ys e in
    let (y, place, found) = collect-at f zs rest i x others h in
    (y, ap (λ l. get_elem? l (suc i)) (sym shape) ∙ place, found)

pub length-collect {ℓ κ λ'} :
    {E : Type ℓ} {A : Type κ} {B : Type λ'} (f : A → Result E B) (xs : List A) (ys : List B)
    → collect f xs ≡ ok ys
    → length ys ≡ length xs
unfolding collect
length-collect f [] ys e = ap length (sym (ok-same e))
length-collect f (x ∷ xs) ys e =
    let (y, rest, first, others, shape) = collect-step f x xs ys e in
    ap length (sym shape) ∙ ap suc (length-collect f xs rest others)
