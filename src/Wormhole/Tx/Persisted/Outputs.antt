-- ===== src/Wormhole/Tx/Persisted/Outputs.antt =====
-- The standard output scripts: what `parse_standard_output` recovers is what
-- `script_pub_key_for` wrote, and it recovers nothing else.
use psy_doge_solana_cli.Common.{
  ℕ, zero, suc, ◌+◌, ◌≤◌, ◌≡◌, refl, ap, List, [], ◌∷◌, ◌++◌, eqb, length, slice, drop, ok, arith,
  length-append, take_front, drop_front, eqb→eq, length-slice, get_elem?, some, slice-append_drop,
}
use psy_doge_solana_cli.Wormhole.Utx0.{UtxoAddressType, p2pkh, p2sh}
use psy_doge_solana_cli.Wormhole.Tx.{script_pub_key_for}
use psy_doge_solana_cli.Wormhole.Tx.Persisted.{byte_at, parse_standard_output}

get_elem?-append : (xs : List ℕ) (b n : ℕ) → length xs ≡ n → get_elem? (xs ++ (b ∷ [])) n ≡ some b
get_elem?-append [] b zero h = refl
get_elem?-append [] b (suc n) h = absurd (omega arith)
get_elem?-append (x ∷ xs) b zero h = absurd (omega arith)
get_elem?-append (x ∷ xs) b (suc n) h = get_elem?-append xs b n (omega arith)

last_byte : (xs : List ℕ) (n b : ℕ) → length xs ≡ suc n → byte_at xs n ≡ b → drop n xs ≡ b ∷ []
unfolding byte_at
last_byte [] n b h e = absurd (omega arith)
last_byte (x ∷ []) zero b h e = ap (λ c. c ∷ []) e
last_byte (x ∷ (y ∷ ys)) zero b h e = absurd (omega arith)
last_byte (x ∷ xs) (suc n) b h e = last_byte xs n b (omega arith) e

behind : (a : List ℕ) (l : List ℕ) → length a ≡ 20 → length (a ++ l) ≡ 20 + length l
behind a l h = omega (arith, length-append a l)

byte_at-p2sh : (a : List ℕ) → length a ≡ 20 → byte_at (script_pub_key_for p2sh a) 22 ≡ 0x87
unfolding byte_at script_pub_key_for
byte_at-p2sh a h = rw (get_elem?-append a 0x87 20 h, byte_at)

-- The script of a 20-byte address is read back as its type and the address.
pub parse_standard_output-script_pub_key_for :
    (t : UtxoAddressType) (address : List ℕ)
    → length address ≡ 20
    → parse_standard_output (script_pub_key_for t address) ≡ ok (t, address)
unfolding parse_standard_output script_pub_key_for eqb
parse_standard_output-script_pub_key_for p2pkh a h = rw (
  behind a (0x88 ∷ 0xac ∷ []) h,
  take_front a (0x88 ∷ 0xac ∷ []) 20 h,
  drop_front a (0x88 ∷ 0xac ∷ []) 20 h,
)
parse_standard_output-script_pub_key_for p2sh a h =
    rw (behind a (0x87 ∷ []) h, take_front a (0x87 ∷ []) 20 h, byte_at-p2sh a h)

p2pkh_fields :
    (script address : List ℕ)
    → parse_standard_output script ≡ ok (p2pkh, address)
    → (length script ≡ 25)
      × (slice 0 3 script ≡ 0x76 ∷ 0xa9 ∷ 0x14 ∷ [])
      × (drop 23 script ≡ 0x88 ∷ 0xac ∷ [])
      × (address ≡ slice 3 23 script)
unfolding parse_standard_output
p2pkh_fields script address e = ground (
  arith,
  eqb→eq (slice 0 3 script) (0x76 ∷ 0xa9 ∷ 0x14 ∷ []),
  eqb→eq (drop 23 script) (0x88 ∷ 0xac ∷ []),
)

p2sh_fields :
    (script address : List ℕ)
    → parse_standard_output script ≡ ok (p2sh, address)
    → (length script ≡ 23)
      × (slice 0 2 script ≡ 0xa9 ∷ 0x14 ∷ [])
      × (byte_at script 22 ≡ 0x87)
      × (address ≡ slice 2 22 script)
unfolding parse_standard_output
p2sh_fields script address e = ground (arith, eqb→eq (slice 0 2 script) (0xa9 ∷ 0x14 ∷ []))

whole_script :
    (script front back : List ℕ) (a b : ℕ)
    → slice 0 a script ≡ front
    → drop b script ≡ back
    → a ≤ b
    → front ++ (slice a b script ++ back) ≡ script
whole_script script front back a b ef eb h =
    rw (← ef, ← eb, slice-append_drop a b script h) (slice-append_drop 0 a script (omega arith))

-- A script from which a type and an address are read is the script of that type and address, and
-- the address has 20 bytes.
pub script_pub_key_for-parse_standard_output :
    (script : List ℕ) (t : UtxoAddressType) (address : List ℕ)
    → parse_standard_output script ≡ ok (t, address)
    → (script_pub_key_for t address ≡ script) × (length address ≡ 20)
unfolding script_pub_key_for
script_pub_key_for-parse_standard_output script p2pkh address e =
    let (l, front, back, middle) = p2pkh_fields script address e in
    (
      rw middle (
          whole_script script (0x76 ∷ 0xa9 ∷ 0x14 ∷ []) (0x88 ∷ 0xac ∷ []) 3 23 front back
            (omega arith)),
      rw middle (length-slice 3 23 script (omega arith)),
    )
script_pub_key_for-parse_standard_output script p2sh address e =
    let (l, front, last, middle) = p2sh_fields script address e in
    (
      rw middle (
          whole_script script (0xa9 ∷ 0x14 ∷ []) (0x87 ∷ []) 2 22 front
            (last_byte script 22 0x87 l last) (omega arith)),
      rw middle (length-slice 2 22 script (omega arith)),
    )

pub length-script_pub_key_for :
    (t : UtxoAddressType) (address : List ℕ)
    → length address ≡ 20
    → length (script_pub_key_for t address) ≤ 25
unfolding script_pub_key_for
length-script_pub_key_for p2pkh a h = omega (arith, behind a (0x88 ∷ 0xac ∷ []) h)
length-script_pub_key_for p2sh a h = omega (arith, behind a (0x87 ∷ []) h)
