-- ===== src/Withdrawal/Signing/Applied.antt =====
-- What the inputs of a transaction hold after the manager's signatures are applied.
use psy_doge_solana_cli.Common.{
  some-same, ℕ, zero, suc, ◌+◌, ◌≡◌, ◌≢◌, ◌<◌, ◌≤◌, refl, sym, ap, ◌∙◌, subst, List, [], ◌∷◌, ◌++◌,
  map, length, take, length-take, get_elem?, set, All, All-take, some, Result, ok, err, collect,
  collect-step, ok-same, Result-cases, inl, inr, map_err, arith, >>=-ok,
}
use native.Mathlib.Nat.{zero-add, add-zero}
use psy_doge_solana_cli.Wormhole.Tx.{UnsignedTransaction, input_count, apply_script_sig, push_all}
use psy_doge_solana_cli.Wormhole.Tx.Wire.{TxIn, push_data_inline}
use psy_doge_solana_cli.Wormhole.Tx.Sighash.{sighash_all}
use psy_doge_solana_cli.Wormhole.Tx.Sighash.Signing.{applied, get_elem?-set}
use psy_doge_solana_cli.Wormhole.Manager.Set.{ManagerSet}
use psy_doge_solana_cli.Wormhole.Manager.Signatures.{ManagerSignatures, Secp256k1}
use psy_doge_solana_cli.Wormhole.Manager.Local.{range}
use psy_doge_solana_cli.Withdrawal.Errors.{Error, transaction_error}
use psy_doge_solana_cli.Withdrawal.Signing.{
  Signature, sort_by_signer, collect_signers, apply_all, empty_lists, apply_manager_signatures,
}
use psy_doge_solana_cli.Withdrawal.Signing.Order.{
  Ascending, sort_by_signer-All, sort_by_signer-Ascending, take-Ascending,
}
use psy_doge_solana_cli.Withdrawal.Signing.Collected.{
  Verified, Pairwise, Collects, collect_signers-Collects,
}

-- An input with the signatures, and then the redeem script, pushed behind an empty element.
abbrev pub signed_input : TxIn → List Signature → List ℕ → TxIn
signed_input input chosen redeem = record input {
  script_sig = 0x00 ∷ (push_all (map (λ e. e.1) chosen) ++ push_data_inline redeem);
}

abbrev pub chosen_of : ℕ → List Signature → List Signature
chosen_of m list = take m (sort_by_signer list)

pub apply_step :
    (m index : ℕ) (list : List Signature) (lists : List (List Signature))
    (tx final : UnsignedTransaction)
    → apply_all m index (list ∷ lists) tx ≡ ok final
    → (next : UnsignedTransaction) × (m ≤ length (sort_by_signer list))
      × (apply_script_sig tx index (map (λ e. e.1) (chosen_of m list)) ≡ ok next)
      × (apply_all m (index + 1) lists next ≡ ok final)
unfolding apply_all
apply_step m index list lists tx final e =
    elim (Result-cases (apply_script_sig tx index (map (λ e. e.1) (chosen_of m list)))) [
      | inl (next, found) ↦ (next, ground arith, found, ground (arith, found))
      | inr (x, failed) ↦ absurd (ground (arith, failed))
    ]

get_elem?-set_same :
    {A : Type 0} (xs : List A) (i : ℕ) (x y : A)
    → get_elem? xs i ≡ some y
    → get_elem? (set xs i x) i ≡ some x
get_elem?-set_same [] i x y e = absurd (ground arith)
get_elem?-set_same (z ∷ zs) zero x y e = refl
get_elem?-set_same (z ∷ zs) (suc i) x y e = get_elem?-set_same zs i x y e

-- One step of the loop writes one input.
apply_one :
    (m index : ℕ) (list : List Signature) (tx next : UnsignedTransaction)
    → apply_script_sig tx index (map (λ e. e.1) (chosen_of m list)) ≡ ok next
    → (input : TxIn) × (redeem : List ℕ) × (get_elem? tx.inputs index ≡ some input)
      × (get_elem? tx.redeem_scripts index ≡ some redeem)
      × (get_elem? next.inputs index ≡ some (signed_input input (chosen_of m list) redeem))
      × ((j : ℕ) → index ≢ j → get_elem? next.inputs j ≡ get_elem? tx.inputs j)
      × (next.redeem_scripts ≡ tx.redeem_scripts)
apply_one m index list tx next e =
    let (input, redeem, found, script, shape) =
      applied tx next index (map (λ e. e.1) (chosen_of m list)) e in
    let new_input = signed_input input (chosen_of m list) redeem in
    (
      input,
      redeem,
      found,
      script,
      ap (λ t. get_elem? t.inputs index) shape
          ∙ get_elem?-set_same tx.inputs index new_input input found,
      (λ j ne. ap (λ t. get_elem? t.inputs j) shape ∙ get_elem?-set tx.inputs index j new_input ne),
      ap (λ t. t.redeem_scripts) shape,
    )

apply_all-before :
    (m index : ℕ) (lists : List (List Signature)) (tx final : UnsignedTransaction)
    → apply_all m index lists tx ≡ ok final
    → (j : ℕ) → j < index
    → get_elem? final.inputs j ≡ get_elem? tx.inputs j
unfolding apply_all
apply_all-before m index [] tx final e j h = ap (λ t. get_elem? t.inputs j) (ok-same (sym e))
apply_all-before m index (list ∷ lists) tx final e j h =
    let (next, enough, once, others) = apply_step m index list lists tx final e in
    let (input, redeem, found, script, written, kept, scripts) =
      apply_one m index list tx next once in
    apply_all-before m (index + 1) lists next final others j (omega arith)
    ∙ kept j (λ same. absurd (omega (arith, same)))

-- What the loop leaves in input number `i`, for the list that it has for it.
abbrev Signed : ℕ → UnsignedTransaction → UnsignedTransaction → ℕ → List Signature → Type 0
Signed m tx final i list =
    (input : TxIn) × (redeem : List ℕ) × (get_elem? tx.inputs i ≡ some input)
    × (get_elem? tx.redeem_scripts i ≡ some redeem)
    × (m ≤ length (sort_by_signer list))
    × (get_elem? final.inputs i ≡ some (signed_input input (chosen_of m list) redeem))

apply_all-at :
    (m index : ℕ) (lists : List (List Signature)) (tx final : UnsignedTransaction)
    → apply_all m index lists tx ≡ ok final
    → (p : ℕ) (list : List Signature) (i : ℕ) → i ≡ index + p
    → get_elem? lists p ≡ some list
    → Signed m tx final i list
apply_all-at m index [] tx final e p list i at h = absurd (ground arith)
apply_all-at m index (l ∷ lists) tx final e zero list i at h =
    let (next, enough, once, others) = apply_step m index l lists tx final e in
    let (input, redeem, found, script, written, kept, scripts) = apply_one m index l tx next once in
    let here : index ≡ i = omega (arith, at) in
    let before = apply_all-before m (index + 1) lists next final others index (omega arith) in
    subst (λ k. Signed m tx final k list) here
      (subst (Signed m tx final index) (some-same h)
        (input, redeem, found, script, enough, before ∙ written))
apply_all-at m index (l ∷ lists) tx final e (suc p) list i at h =
    let (next, enough, once, others) = apply_step m index l lists tx final e in
    let (_, _, _, _, _, kept, scripts) = apply_one m index l tx next once in
    let (input, redeem, found, script, enough', written) =
      apply_all-at m (index + 1) lists next final others p list i (omega (arith, at)) h in
    (
      input,
      redeem,
      sym (kept i (λ same. absurd (omega (arith, at, same)))) ∙ found,
      ap (λ rs. get_elem? rs i) (sym scripts) ∙ script,
      enough',
      written,
    )

Pairwise-at :
    {A B : Type 0} (R : A → B → Type 0) (xs : List A) (ys : List B) (i : ℕ) (x : A)
    → Pairwise R xs ys
    → get_elem? xs i ≡ some x
    → (y : B) × (get_elem? ys i ≡ some y) × R x y
Pairwise-at R [] ys i x p e = absurd (ground arith)
Pairwise-at R (z ∷ zs) [] i x p e = absurd p
Pairwise-at R (z ∷ zs) (y ∷ ys) zero x p e = (y, refl, subst (λ w. R w y) (some-same e) p.0)
Pairwise-at R (z ∷ zs) (y ∷ ys) (suc i) x p e = Pairwise-at R zs ys i x p.1 e

-- The hashes that the loop over `0..n` collects.
collect-range :
    {B : Type 0} (f : ℕ → Result Error B) (n from : ℕ) (ys : List B)
    → collect f (range from n) ≡ ok ys
    → (length ys ≡ n)
      × ((p : ℕ) → p < n → (y : B) × (f (from + p) ≡ ok y) × (get_elem? ys p ≡ some y))
unfolding range collect
collect-range {B = B} f zero from ys e = (ap length (sym (ok-same e)), λ p h. absurd (omega arith))
collect-range {B = B} f (suc n) from ys e =
    let (y, rest, first, others, shape) = collect-step f from (range (from + 1) n) ys e in
    let (count, each) = collect-range f n (from + 1) rest others in
    (ap length (sym shape) ∙ ap suc count, λ p h. at y rest first each shape p h)
  where
    at :
        (y : B) (rest : List B)
        → f from ≡ ok y
        → ((p : ℕ) → p < n → (z : B) × (f (from + 1 + p) ≡ ok z) × (get_elem? rest p ≡ some z))
        → y ∷ rest ≡ ys
        → (p : ℕ) → p < suc n
        → (z : B) × (f (from + p) ≡ ok z) × (get_elem? ys p ≡ some z)
    at y rest first each shape zero h =
        (y, ap f (add-zero from) ∙ first, ap (λ l. get_elem? l 0) (sym shape))
    at y rest first each shape (suc p) h =
        let (z, found, place) = each p (omega arith) in
        (z, ap f (position p) ∙ found, ap (λ l. get_elem? l (suc p)) (sym shape) ∙ place)
      where
        position : (q : ℕ) → from + suc q ≡ from + 1 + q
        position q = omega arith

inside : {A : Type 0} (xs : List A) (i : ℕ) (x : A) → get_elem? xs i ≡ some x → i < length xs
inside [] i x e = absurd (ground arith)
inside (y ∷ ys) zero x e = omega arith
inside (y ∷ ys) (suc i) x e = omega (arith, inside ys i x e)

map_err-ok : {A E F : Type 0} (f : E → F) (m : Result E A) (a : A) → map_err f m ≡ ok a → m ≡ ok a
map_err-ok f (ok b) a e = cc
map_err-ok f (err x) a e = absurd (ground arith)

-- When the manager's signatures are applied, each input gets exactly `m` of them, each from another
-- signer, in the order of the signers, each verified against the input's own signature hash of the
-- unsigned transaction, under the signer's key of the set; behind them stands the input's redeem
-- script.
pub apply_manager_signatures-ok :
    (sha256 : List ℕ → List ℕ) (secp : Secp256k1) (tx : UnsignedTransaction)
    (signatures : ManagerSignatures) (manager_set : ManagerSet) (final : UnsignedTransaction)
    → apply_manager_signatures sha256 secp tx signatures manager_set ≡ ok final
    → (i : ℕ) (input : TxIn) → get_elem? tx.inputs i ≡ some input
    → (redeem sighash : List ℕ) × (chosen : List Signature) × (get_elem? tx.redeem_scripts i
        ≡ some redeem)
      × (sighash_all sha256 tx i ≡ ok sighash)
      × (length chosen ≡ manager_set.m)
      × Ascending chosen
      × All (Verified secp manager_set sighash) chosen
      × (get_elem? final.inputs i ≡ some (signed_input input chosen redeem))
unfolding apply_manager_signatures input_count
apply_manager_signatures-ok sha256 secp tx signatures manager_set final e i input present =
    let hash : ℕ → Result Error (List ℕ) =
      λ index. map_err transaction_error (sighash_all sha256 tx index) in
    let n = length tx.inputs in
    let (hashes, collected, rest) = >>=-ok (collect hash (range 0 n)) _ e in
    let (lists, signed, applied_all) =
      >>=-ok (collect_signers secp manager_set n hashes [] (empty_lists n) signatures.signatures) _
        rest in
    let (count, each) = collect-range hash n 0 hashes collected in
    let (sighash, hashed, place) = each i (inside tx.inputs i input present) in
    let pairs =
      collect_signers-Collects secp manager_set hashes n signatures.signatures lists count signed in
    let (list, found, (distinct, verified)) =
      Pairwise-at (Collects secp manager_set) hashes lists i sighash pairs place in
    let (input', redeem, same, script, enough, written) =
      apply_all-at manager_set.m 0 lists tx final applied_all i list i (sym (zero-add i)) found in
    (
      redeem,
      sighash,
      chosen_of manager_set.m list,
      script,
      ap (sighash_all sha256 tx) (sym (zero-add i))
          ∙ map_err-ok transaction_error (sighash_all sha256 tx (0 + i)) sighash hashed,
      length-take manager_set.m (sort_by_signer list) enough,
      take-Ascending manager_set.m (sort_by_signer list) (sort_by_signer-Ascending list distinct),
      All-take (Verified secp manager_set sighash) manager_set.m (sort_by_signer list)
          (sort_by_signer-All (Verified secp manager_set sighash) list verified),
      written
          ∙ ap (λ x. some (signed_input x (chosen_of manager_set.m list) redeem))
              (some-same (sym same ∙ present)),
    )
