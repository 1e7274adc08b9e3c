-- ===== src/Wormhole/Redeem/Injective.antt =====
-- Two deposits never share a redeem script.
use psy_doge_solana_cli.Common.{
  ℕ, ◌+◌, ◌<◌, ◌^◌, ◌≡◌, refl, sym, ap, ◌∙◌, subst, List, [], ◌∷◌, ◌++◌, length, some, be_bytes,
  arith, map, from_be, from_be-be_bytes, Result, ok, Option,
}
use psy_doge_solana_cli.Wormhole.Redeem.{Error, build_redeem_script}
use psy_doge_solana_cli.Wormhole.Redeem.Script.{
  Instruction, push, opcode, next_instruction, Reads, done, step,
}
use psy_doge_solana_cli.Wormhole.Redeem.Build.{
  IsTyped, redeem_instructions, build_redeem_script-Reads, build_redeem_script-ok_iff,
}

-- A script is read in one way only.
same_step :
    {i j : Instruction} {r s : List ℕ}
    → ◌≡◌ {A = Option (Instruction × List ℕ)} (some (i, r)) (some (j, s))
    → (i ≡ j) × (s ≡ r)
same_step e = (cc, cc)

Reads-unique :
    {bytes : List ℕ} {is js : List Instruction} → Reads bytes is → Reads bytes js → is ≡ js
unfolding next_instruction
Reads-unique done done = refl
Reads-unique done (step e r) = cc
Reads-unique (step e r) done = cc
Reads-unique (step e r) (step {is = ks} e' r') =
    let (head, remaining) = same_step (sym e ∙ e') in
    cc (head, Reads-unique r (subst (λ b. Reads b ks) remaining r'))

keys_unique :
    (pks qks : List (List ℕ)) (i j : ℕ)
    → ◌≡◌ {A = List Instruction}
        (map push pks ++ (opcode i ∷ opcode 0xae ∷ []))
        (map push qks ++ (opcode j ∷ opcode 0xae ∷ []))
    → pks ≡ qks
keys_unique [] [] i j e = refl
keys_unique [] (q ∷ qs) i j e = cc
keys_unique (p ∷ ps) [] i j e = cc
keys_unique (p ∷ ps) (q ∷ qs) i j e = ground (arith, keys_unique ps qs i j)

be_bytes-injective : (a b : ℕ) → a < 2 ^ 16 → b < 2 ^ 16 → be_bytes 2 a ≡ be_bytes 2 b → a ≡ b
be_bytes-injective a b ha hb e =
    sym (from_be-be_bytes 2 a ha) ∙ ap from_be e ∙ from_be-be_bytes 2 b hb

-- The parameters of a redeem script.
pub record Deposit : Type 0 where
  pub emitter_chain : ℕ
  pub emitter_contract : List ℕ
  pub recipient : List ℕ
  pub m : ℕ
  pub pubkeys : List (List ℕ)

abbrev pub redeem_script_of : Deposit → Result Error (List ℕ)
redeem_script_of d =
    build_redeem_script d.emitter_chain d.emitter_contract d.recipient d.m d.pubkeys

abbrev pub IsTypedDeposit : Deposit → Type 0
IsTypedDeposit d = IsTyped d.emitter_chain d.emitter_contract d.recipient d.pubkeys

instructions_of : Deposit → List Instruction
instructions_of d = redeem_instructions d.emitter_chain d.emitter_contract d.recipient d.m d.pubkeys

redeem_script-Reads :
    (d : Deposit) (script : List ℕ)
    → IsTypedDeposit d
    → redeem_script_of d ≡ ok script
    → Reads script (instructions_of d)
unfolding instructions_of
redeem_script-Reads d script t e =
    let (few, lo, hi) =
      (build_redeem_script-ok_iff d.emitter_chain d.emitter_contract d.recipient d.m d.pubkeys t).0
        (script, e) in
    let (s, built, read, _, _) =
      build_redeem_script-Reads d.emitter_chain d.emitter_contract d.recipient d.m d.pubkeys t few
        lo hi in
    subst (λ b. Reads b (instructions_of d)) (same (sym built ∙ e)) read
  where
    same : {a b : List ℕ} → ◌≡◌ {A = Result Error (List ℕ)} (ok a) (ok b) → a ≡ b
    same p = cc

instructions_unique :
    (a b : Deposit)
    → IsTypedDeposit a
    → IsTypedDeposit b
    → instructions_of a ≡ instructions_of b
    → a ≡ b
unfolding instructions_of
instructions_unique a b ta tb e = ground (
  arith,
  keys_unique a.pubkeys b.pubkeys (0x50 + length a.pubkeys) (0x50 + length b.pubkeys),
  be_bytes-injective a.emitter_chain b.emitter_chain ta.chain_fits tb.chain_fits,
)

-- Deposits of the types that the builder takes have the same redeem script only if they agree on
-- the emitter chain, the emitter, the recipient, the threshold and the keys in their order.
pub build_redeem_script-injective :
    (a b : Deposit) (script : List ℕ)
    → IsTypedDeposit a
    → IsTypedDeposit b
    → redeem_script_of a ≡ ok script
    → redeem_script_of b ≡ ok script
    → a ≡ b
build_redeem_script-injective a b script ta tb ea eb =
    instructions_unique a b ta tb
      (Reads-unique (redeem_script-Reads a script ta ea) (redeem_script-Reads b script tb eb))
