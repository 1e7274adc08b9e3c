-- ===== src/Examples/Given.antt =====
-- The inputs that the examples share.
use psy_doge_solana_cli.Common.{
  ℕ, zero, suc, ◌≡◌, List, [], ◌∷◌, take, Bool, true, ◌&&◌, ltb, AreBytes, arith,
}
use psy_doge_solana_cli.Wormhole.Utx0.{p2pkh, Utx0Output, Utx0UnlockPayload}
use psy_doge_solana_cli.Wormhole.Tx.{
  SelectedUtxo, TransactionOutput, UnsignedTransaction, unsigned_input, wire_output,
}
use psy_doge_solana_cli.Wormhole.Manager.Set.{ManagerSet}
use psy_doge_solana_cli.Wormhole.Manager.Vaa.{VaaKey}
use psy_doge_solana_cli.Wormhole.Manager.Signatures.{Secp256k1}

-- `count` bytes of one value.
abbrev pub repeat : ℕ → ℕ → List ℕ
repeat zero byte = []
repeat (suc count) byte = byte ∷ repeat count byte

abbrev pub one_output : Utx0Output
one_output = record { amount = 1_000_000; address_type = p2pkh; address = repeat 20 0x55 }

abbrev pub one_payload : Utx0UnlockPayload
one_payload = record {
  destination_chain = 65;
  delegated_manager_set_index = 0;
  outputs = one_output ∷ [];
}

abbrev pub spent : SelectedUtxo
spent = record { transaction_id = repeat 32 0x11; vout = 3; redeem_script = 0x51 ∷ [] }

abbrev pub also_spent : SelectedUtxo
also_spent = record { transaction_id = repeat 32 0x22; vout = 0; redeem_script = 0x52 ∷ [] }

abbrev pub paid : TransactionOutput
paid = record { amount = 1_000_000; address_type = p2pkh; address = repeat 20 0x55 }

-- What `new` makes of two inputs and one output.
abbrev pub unsigned : UnsignedTransaction
unsigned = record {
  version = 1;
  inputs = unsigned_input spent ∷ unsigned_input also_spent ∷ [];
  outputs = wire_output paid ∷ [];
  logical_outputs = paid ∷ [];
  locktime = 0;
  redeem_scripts = (0x51 ∷ []) ∷ (0x52 ∷ []) ∷ [];
}

-- Stand-ins for the digests: the first bytes.
abbrev pub digest : List ℕ → List ℕ
digest bytes = take 4 bytes

-- A stand-in for secp256k1: a signature is the digest, whoever signs.
abbrev pub secp : Secp256k1
secp = record {
  is_pubkey = λ key. true;
  is_der = λ signature. true;
  verify_ecdsa = λ message signature key. true;
  is_secret = λ secret. true;
  sign_ecdsa = λ message secret. message;
}

abbrev pub one_of_two : ManagerSet
one_of_two = record { m = 1; n = 2; pubkeys = repeat 33 2 ∷ repeat 33 3 ∷ [] }

abbrev pub key : VaaKey
key = record { emitter_chain = 1; emitter_address = repeat 32 7; sequence = 9 }

abbrev pub key_text : VaaKey → List ℕ
key_text k = k.emitter_address

-- A test for bytes, for byte strings that are written out.
abbrev pub are_bytes : List ℕ → Bool
are_bytes [] = true
are_bytes (b ∷ bs) = ltb b 256 && are_bytes bs

pub are_bytes-AreBytes : (bs : List ℕ) → are_bytes bs ≡ true → AreBytes bs
are_bytes-AreBytes [] h = tt
are_bytes-AreBytes (b ∷ bs) h = (ground arith, are_bytes-AreBytes bs (ground arith))
