-- ===== src/Wormhole/Redeem/Build.antt =====
-- The redeem script as instructions, its size, and when there is one.
use psy_doge_solana_cli.Common.{
  ℕ, ◌+◌, ◌*◌, ◌≤◌, ◌<◌, ◌^◌, ◌%◌, ◌≡◌, refl, ◌∙◌, List, [], ◌∷◌, ◌++◌, le→ltb, length, be_bytes,
  arith, ◌↔◌, map, All, length-be_bytes, length-append, ok,
}
use psy_doge_solana_cli.Common.Int.{pos}
use psy_doge_solana_cli.Wormhole.Redeem.{
  push_prefix, push_data, push_int, check_pubkeys, push_pubkeys, build_redeem_script,
}
use psy_doge_solana_cli.Wormhole.Redeem.Script.{
  Instruction, push, opcode, next_instruction, Reads, done, step, next_instruction-push,
}
use mathlib.Core.List.{append_assoc}

-- The arguments' types: a u16, two `[u8; 32]` and a slice of `[u8; 33]`.
pub record IsTyped (emitter_chain : ℕ) (emitter_contract recipient : List ℕ)
    (pubkeys : List (List ℕ)) : Type 0 where
  pub chain_fits : emitter_chain < 2 ^ 16
  pub contract_length : length emitter_contract ≡ 32
  pub recipient_length : length recipient ≡ 32
  pub pubkey_lengths : All (λ pk. length pk ≡ 33) pubkeys

Reads-push :
    (bytes rest : List ℕ) (is : List Instruction)
    → length bytes < 2 ^ 32
    → Reads rest is
    → Reads (push_prefix (length bytes) ++ (bytes ++ rest)) (push bytes ∷ is)
Reads-push bytes rest is h r = step (next_instruction-push bytes rest h) r

Reads-opcode :
    (b : ℕ) (rest : List ℕ) (is : List Instruction)
    → 0x4e < b
    → Reads rest is
    → Reads (b ∷ rest) (opcode b ∷ is)
unfolding next_instruction
Reads-opcode b rest is h r = step (ground arith) r

keys_bytes : List (List ℕ) → List ℕ → List ℕ
keys_bytes [] rest = rest
keys_bytes (pk ∷ pks) rest = push_prefix (length pk) ++ (pk ++ keys_bytes pks rest)

push_pubkeys-append :
    (buf : List ℕ) (pks : List (List ℕ)) (rest : List ℕ)
    → push_pubkeys buf pks ++ rest ≡ buf ++ keys_bytes pks rest
unfolding push_pubkeys push_data keys_bytes
push_pubkeys-append buf [] rest = refl
push_pubkeys-append buf (pk ∷ pks) rest =
    push_pubkeys-append (push_data buf pk) pks rest ∙ simp append_assoc

Reads-keys :
    (pks : List (List ℕ)) (rest : List ℕ) (is : List Instruction)
    → All (λ pk. length pk ≡ 33) pks
    → Reads rest is
    → Reads (keys_bytes pks rest) (map push pks ++ is)
unfolding keys_bytes
Reads-keys [] rest is h r = r
Reads-keys (pk ∷ pks) rest is h r =
    Reads-push pk _ _ (omega (arith, h.0)) (Reads-keys pks rest is h.1 r)

-- What the script does, as the file's header comment lists it.
abbrev pub redeem_instructions : ℕ → List ℕ → List ℕ → ℕ → List (List ℕ) → List Instruction
redeem_instructions emitter_chain emitter_contract recipient m pubkeys =
    push (be_bytes 2 emitter_chain)
    ∷ push emitter_contract
    ∷ opcode 0x6d
    ∷ push recipient
    ∷ opcode 0x75
    ∷ opcode (0x50 + m)
    ∷ (map push pubkeys ++ (opcode (0x50 + length pubkeys) ∷ opcode 0xae ∷ []))

check_pubkeys-ok :
    (i : ℕ) (pks : List (List ℕ)) → All (λ pk. length pk ≡ 33) pks → check_pubkeys i pks ≡ ok tt
unfolding check_pubkeys
check_pubkeys-ok i [] h = refl
check_pubkeys-ok i (pk ∷ pks) h = ground (arith, h.0, check_pubkeys-ok (i + 1) pks h.1)

push_int_small :
    (buf : List ℕ) (m : ℕ) → 1 ≤ m → m ≤ 16 → push_int buf (pos m) ≡ buf ++ ((0x50 + m) ∷ [])
unfolding push_int
push_int_small buf m lo hi = ground arith

keys_bytes-append :
    (pks : List (List ℕ)) (r s : List ℕ) → keys_bytes pks r ++ s ≡ keys_bytes pks (r ++ s)
unfolding keys_bytes
keys_bytes-append [] r s = refl
keys_bytes-append (pk ∷ pks) r s = simp (append_assoc, keys_bytes-append pks r s)

length-keys_bytes :
    (pks : List (List ℕ)) (r : List ℕ)
    → All (λ pk. length pk ≡ 33) pks
    → length (keys_bytes pks r) ≡ 34 * length pks + length r
unfolding keys_bytes push_prefix
length-keys_bytes [] r h = omega arith
length-keys_bytes (pk ∷ pks) r h =
    rw h.0 (omega (arith, length-append pk (keys_bytes pks r), length-keys_bytes pks r h.1, h.0))

script_bytes : ℕ → List ℕ → List ℕ → ℕ → List (List ℕ) → List ℕ
script_bytes chain contract recipient m pubkeys =
    push_prefix 2
    ++ (be_bytes 2 chain
        ++ (push_prefix (length contract)
            ++ (contract
                ++ (0x6d
                    ∷ (push_prefix (length recipient)
                        ++ (recipient
                            ++ (0x75
                                ∷ ((0x50 + m)
                                    ∷ keys_bytes pubkeys
                                        ((0x50 + length pubkeys) ∷ 0xae ∷ [])))))))))

module _ (chain : ℕ) (contract recipient : List ℕ) (m : ℕ) (pubkeys : List (List ℕ))
    (t : IsTyped chain contract recipient pubkeys) where
  build_lem :
      length pubkeys ≤ 13
      → 1 ≤ m
      → m ≤ length pubkeys
      → build_redeem_script chain contract recipient m pubkeys
        ≡ ok (script_bytes chain contract recipient m pubkeys)
  unfolding build_redeem_script script_bytes push_data
  build_lem few lo hi =
      rw
        (
          small (length pubkeys) few,
          le→ltb 13 (length pubkeys) few,
          le→ltb m 1 lo,
          le→ltb (length pubkeys) m hi,
          check_pubkeys-ok 0 pubkeys t.pubkey_lengths,
          length-be_bytes 2 chain,
          push_int_small _ m lo (omega arith),
          push_int_small _ (length pubkeys) (omega arith) (omega arith),
        )
        (simp (append_assoc, push_pubkeys-append, keys_bytes-append))
    where
      small : (n : ℕ) → n ≤ 13 → n % 256 ≡ n
      small n h = omega arith

  script_bytes-Reads :
      length pubkeys ≤ 13
      → 1 ≤ m
      → m ≤ length pubkeys
      → Reads
          (script_bytes chain contract recipient m pubkeys)
          (redeem_instructions chain contract recipient m pubkeys)
  unfolding script_bytes be_bytes
  script_bytes-Reads few lo hi =
      Reads-push (be_bytes 2 chain) _ _ (omega (arith, length-be_bytes 2 chain)) (
        Reads-push contract _ _ (omega (arith, t.contract_length)) (
          Reads-opcode 0x6d _ _ (omega arith) (
            Reads-push recipient _ _ (omega (arith, t.recipient_length)) (
              Reads-opcode 0x75 _ _ (omega arith) (
                Reads-opcode (0x50 + m) _ _ (omega arith) (
                  Reads-keys pubkeys _ _ t.pubkey_lengths (
                    Reads-opcode (0x50 + length pubkeys) _ _ (omega arith)
                      (Reads-opcode 0xae [] [] (omega arith) done))))))))

  length-script_bytes :
      length (script_bytes chain contract recipient m pubkeys) ≡ 74 + 34 * length pubkeys
  unfolding script_bytes push_prefix
  length-script_bytes =
      simp (length-append, length-be_bytes, t.contract_length, t.recipient_length)
        (omega
          (arith, length-keys_bytes pubkeys ((0x50 + length pubkeys) ∷ 0xae ∷ []) t.pubkey_lengths))

  -- For one to thirteen keys and a threshold from one to their number there is a script; a node
  -- reads it as the chain, the contract, a drop of both, the recipient, a drop of it, the
  -- threshold, the keys, their number and the multisignature check; it has 74 bytes and 34 more for
  -- each key, and never more than the 520 that a push may carry.
  pub build_redeem_script-Reads :
      length pubkeys ≤ 13
      → 1 ≤ m
      → m ≤ length pubkeys
      → (script : List ℕ) × (build_redeem_script chain contract recipient m pubkeys ≡ ok script)
        × Reads script (redeem_instructions chain contract recipient m pubkeys)
        × (length script ≡ 74 + 34 * length pubkeys)
        × (length script ≤ 520)
  build_redeem_script-Reads few lo hi = (
    script_bytes chain contract recipient m pubkeys,
    build_lem few lo hi,
    script_bytes-Reads few lo hi,
    length-script_bytes,
    omega (arith, length-script_bytes),
  )

  accepted :
      (script : List ℕ)
      → build_redeem_script chain contract recipient m pubkeys ≡ ok script
      → (length pubkeys ≤ 13) × (1 ≤ m) × (m ≤ length pubkeys)
  unfolding build_redeem_script
  accepted script e = ground arith

  -- There is a script exactly for one to thirteen keys and a threshold from one to their number.
  pub build_redeem_script-ok_iff :
      ((script : List ℕ) × (build_redeem_script chain contract recipient m pubkeys ≡ ok script))
      ↔ ((length pubkeys ≤ 13) × (1 ≤ m) × (m ≤ length pubkeys))
  build_redeem_script-ok_iff = (
    (λ s. accepted s.0 s.1),
    (λ c. (script_bytes chain contract recipient m pubkeys, build_lem c.0 c.1 c.2)),
  )
