-- ===== src/Examples/Payloads.antt =====
-- The payload codec at one payload of one output.
use psy_doge_solana_cli.Common.{ℕ, ◌≡◌, refl, List, [], ◌∷◌, ◌++◌, ok, ◌>>=◌, from_be, eqb, arith}
use psy_doge_solana_cli.Wormhole.Utx0.{
  serialize, parse, parse_output, from_u32, chunks, chunks_exact, parse_outputs,
}
use psy_doge_solana_cli.Wormhole.Utx0.Codec.{IsValid, parse-serialize}
use psy_doge_solana_cli.Wormhole.Utx0.Canonical.{serialize-parse}
use psy_doge_solana_cli.Examples.Given.{repeat, are_bytes-AreBytes, one_payload}

one_payload-IsValid : IsValid one_payload
one_payload-IsValid = record {
  chain_fits = omega arith;
  index_fits = omega arith;
  count_fits = omega arith;
  outputs_valid = (
    record {
      amount_fits = omega arith;
      address_length = refl;
      address_bytes = are_bytes-AreBytes (repeat 20 0x55) refl;
    },
    tt,
  );
}

parse-serialize_example : (serialize one_payload >>= parse) ≡ ok one_payload
parse-serialize_example = parse-serialize one_payload one_payload-IsValid

abbrev one_payload_bytes : List ℕ
one_payload_bytes =
    (0x55 ∷ 0x54 ∷ 0x58 ∷ 0x30 ∷ 0 ∷ 65 ∷ 0 ∷ 0 ∷ 0 ∷ 0 ∷ 0 ∷ 0 ∷ 0 ∷ 1 ∷ 0 ∷ 0 ∷ 0 ∷ 0 ∷ 0 ∷ 0x0f
      ∷ 0x42 ∷ 0x40 ∷ 0 ∷ 0 ∷ 0 ∷ 0 ∷ [])
    ++ repeat 20 0x55

one_payload_is_read : parse one_payload_bytes ≡ ok one_payload
unfolding parse parse_output from_u32 chunks chunks_exact parse_outputs from_be eqb
one_payload_is_read = refl

serialize-parse_example : (serialize one_payload ≡ ok one_payload_bytes) × IsValid one_payload
serialize-parse_example =
    serialize-parse one_payload_bytes one_payload (are_bytes-AreBytes one_payload_bytes refl)
      one_payload_is_read
