-- ===== src/Examples/Scripts.antt =====
-- The redeem scripts of a 1-of-2 set.
use psy_doge_solana_cli.Common.{ℕ, ◌+◌, ◌*◌, ◌≤◌, ◌≡◌, ◌↔◌, refl, List, [], ◌∷◌, length, ok, arith}
use psy_doge_solana_cli.Wormhole.Redeem.{build_redeem_script}
use psy_doge_solana_cli.Wormhole.Redeem.Script.{Reads}
use psy_doge_solana_cli.Wormhole.Redeem.Build.{
  IsTyped, redeem_instructions, build_redeem_script-Reads, build_redeem_script-ok_iff,
}
use psy_doge_solana_cli.Wormhole.Redeem.Injective.{Deposit, build_redeem_script-injective}
use psy_doge_solana_cli.Examples.Given.{repeat}

abbrev emitter : List ℕ
emitter = repeat 32 7

abbrev recipient : List ℕ
recipient = repeat 32 8

abbrev keys : List (List ℕ)
keys = repeat 33 2 ∷ repeat 33 3 ∷ []

typed : IsTyped 1 emitter recipient keys
typed = record {
  chain_fits = omega arith;
  contract_length = refl;
  recipient_length = refl;
  pubkey_lengths = (refl, (refl, tt));
}

build_redeem_script-Reads_example :
    (script : List ℕ) × (build_redeem_script 1 emitter recipient 1 keys ≡ ok script)
    × Reads script (redeem_instructions 1 emitter recipient 1 keys)
    × (length script ≡ 74 + 34 * length keys)
    × (length script ≤ 520)
build_redeem_script-Reads_example =
    build_redeem_script-Reads 1 emitter recipient 1 keys typed (omega arith) (omega arith)
      (omega arith)

build_redeem_script-ok_iff_example :
    ((script : List ℕ) × (build_redeem_script 1 emitter recipient 1 keys ≡ ok script))
    ↔ ((length keys ≤ 13) × (1 ≤ 1) × (1 ≤ length keys))
build_redeem_script-ok_iff_example = build_redeem_script-ok_iff 1 emitter recipient 1 keys typed

abbrev deposit : Deposit
deposit = record {
  emitter_chain = 1;
  emitter_contract = emitter;
  recipient = recipient;
  m = 1;
  pubkeys = keys;
}

build_redeem_script-injective_example : deposit ≡ deposit
build_redeem_script-injective_example =
    build_redeem_script-injective deposit deposit build_redeem_script-Reads_example.0 typed typed
      build_redeem_script-Reads_example.1 build_redeem_script-Reads_example.1
