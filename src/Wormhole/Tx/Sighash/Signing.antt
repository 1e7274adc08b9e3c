-- ===== src/Wormhole/Tx/Sighash/Signing.antt =====
-- Signing a transaction of doge/src/wormhole/tx.rs: what the signature hashes depend on.
use psy_doge_solana_cli.Common.{
  ℕ, zero, suc, ◌≢◌, ◌≡◌, refl, ap, ◌∙◌, List, [], ◌∷◌, ◌++◌, map, length, get_elem?, set, Option,
  none, some, ok, ok_or, >>=-ok, arith,
}
use psy_doge_solana_cli.Wormhole.Tx.{UnsignedTransaction, apply_script_sig, push_all}
use psy_doge_solana_cli.Wormhole.Tx.Errors.{input_out_of_range, no_redeem_script}
use psy_doge_solana_cli.Wormhole.Tx.Wire.{TxIn, push_data_inline}
use psy_doge_solana_cli.Wormhole.Tx.Sighash.{
  without_script_sig, sighash_inputs, sighash_outputs, sighash_preimage, sighash, sighash_all,
}

length-set : {A : Type 0} (xs : List A) (i : ℕ) (x : A) → length (set xs i x) ≡ length xs
length-set [] i x = refl
length-set (y ∷ ys) zero x = refl
length-set (y ∷ ys) (suc i) x = ap suc (length-set ys i x)

pub get_elem?-set :
    {A : Type 0} (xs : List A) (i j : ℕ) (x : A) → i ≢ j → get_elem? (set xs i x) j ≡ get_elem? xs j
get_elem?-set [] i j x ne = refl
get_elem?-set (z ∷ zs) zero zero x ne = absurd (ne refl)
get_elem?-set (z ∷ zs) zero (suc j) x ne = refl
get_elem?-set (z ∷ zs) (suc i) zero x ne = refl
get_elem?-set (z ∷ zs) (suc i) (suc j) x ne = get_elem?-set zs i j x (λ e. ne (ap suc e))

-- Signed inputs differ from the unsigned ones in nothing but their scripts.
cleared :
    (is : List TxIn) (i : ℕ) (input : TxIn) (script : List ℕ)
    → get_elem? is i ≡ some input
    → map without_script_sig (set is i (record input { script_sig = script }))
      ≡ map without_script_sig is
cleared [] i input script e = absurd (ground arith)
cleared (j ∷ js) zero input script e = cc
cleared (j ∷ js) (suc i) input script e =
    ap (◌∷◌ (without_script_sig j)) (cleared js i input script e)

ok_or-ok : {A : Type 0} {E : Type 0} (o : Option A) (x : E) (a : A) → ok_or o x ≡ ok a → o ≡ some a
ok_or-ok (some b) x a e = cc
ok_or-ok none x a e = absurd (ground arith)

-- What a successful `apply_script_sig` has found and written.
pub applied :
    (tx signed : UnsignedTransaction) (index : ℕ) (signatures : List (List ℕ))
    → apply_script_sig tx index signatures ≡ ok signed
    → (input : TxIn) × (redeem : List ℕ) × (get_elem? tx.inputs index ≡ some input)
      × (get_elem? tx.redeem_scripts index ≡ some redeem)
      × (signed ≡ record tx {
        inputs =
            set tx.inputs index (record input {
              script_sig = 0x00 ∷ (push_all signatures ++ push_data_inline redeem);
            });
      })
unfolding apply_script_sig
applied tx signed index signatures e =
    let (input, e1, rest) =
      >>=-ok (ok_or (get_elem? tx.inputs index) (input_out_of_range index (length tx.inputs))) _
        e in
    let (redeem, e2, built) =
      >>=-ok (ok_or (get_elem? tx.redeem_scripts index) (no_redeem_script index)) _ rest in
    (input, redeem, ok_or-ok _ _ input e1, ok_or-ok _ _ redeem e2, cc)

-- `tx` with a script in one input.
abbrev with_script : UnsignedTransaction → ℕ → TxIn → List ℕ → UnsignedTransaction
with_script tx index input script = record tx {
  inputs = set tx.inputs index (record input { script_sig = script });
}

sighash_all-with_script :
    (sha256 : List ℕ → List ℕ) (tx : UnsignedTransaction) (index : ℕ) (input : TxIn)
    (script : List ℕ) (other : ℕ)
    → get_elem? tx.inputs index ≡ some input
    → sighash_all sha256 (with_script tx index input script) other ≡ sighash_all sha256 tx other
unfolding sighash_all sighash sighash_preimage sighash_inputs sighash_outputs
sighash_all-with_script sha256 tx index input script other found =
    rw
      (
        cleared tx.inputs index input script found,
        length-set tx.inputs index (record input { script_sig = script }),
      )
      refl

-- What an input signs does not depend on the inputs that are signed before it: each input has
-- the same hash, or the same error, before and after `apply_script_sig` succeeds on any input.
pub sighash_all-apply_script_sig :
    (sha256 : List ℕ → List ℕ) (tx signed : UnsignedTransaction) (index : ℕ)
    (signatures : List (List ℕ))
    → apply_script_sig tx index signatures ≡ ok signed
    → (other : ℕ) → sighash_all sha256 signed other ≡ sighash_all sha256 tx other
sighash_all-apply_script_sig sha256 tx signed index signatures e other =
    let (input, redeem, found, _, is_signed) = applied tx signed index signatures e in
    let script = 0x00 ∷ (push_all signatures ++ push_data_inline redeem) in
    ap (λ t. sighash_all sha256 t other) is_signed
    ∙ sighash_all-with_script sha256 tx index input script other found
