-- ===== src/Withdrawal/Amount.antt =====
-- `parse_doge_decimal` and `parse_scientific_doge_decimal` of doge/src/lib.rs: an amount in DOGE as
-- a number of satoshis.
--
-- A text is the list of its bytes, all ASCII. The sum of the exponent wraps around at 32 bits, as
-- in a build without overflow checks.
pub mod Digits
pub mod Exact
use psy_doge_solana_cli.Common.{
  ℕ, zero, suc, ◌+◌, ◌-◌, ◌*◌, ◌%◌, ◌^◌, List, [], ◌∷◌, ◌++◌, reverse, take, drop, length, Bool,
  true, false, not, ◌&&◌, ◌||◌, ltb, leb, ◌==◌, if◌then◌else◌, Option, none, some, Result, ok, err,
  bail_if, ok_or, checked_add, checked_mul, starts_with, ◌>>=◌, ◌>>◌,
}
use psy_doge_solana_cli.Common.Int.{ℤ, pos, negsuc, negated}
use psy_doge_solana_cli.Wormhole.Tx.{is_empty}

pub data Error : Type 0 where
  empty_amount negative_amount signed_amount invalid_amount too_precise too_large bad_exponent :
      Error

abbrev pub sats_per_doge : ℕ
sats_per_doge = 100_000_000

-- `trim`, of ASCII whitespace: other whitespace of Unicode, which the source strips too, stays
-- here.
unfoldable pub is_whitespace : ℕ → Bool
is_whitespace byte = (leb 9 byte && leb byte 13) || byte == 32

unfoldable pub trim_start : List ℕ → List ℕ
unfolding is_whitespace
trim_start [] = []
trim_start (byte ∷ bytes) =
    let rest = trim_start bytes in if is_whitespace byte then rest else byte ∷ bytes

unfoldable pub trim : List ℕ → List ℕ
unfolding trim_start
trim text = reverse (trim_start (reverse (trim_start text)))

unfoldable pub is_digit : ℕ → Bool
is_digit byte = leb 48 byte && leb byte 57

unfoldable pub all_digits : List ℕ → Bool
unfolding is_digit
all_digits [] = true
all_digits (byte ∷ bytes) = is_digit byte && all_digits bytes

-- `parse::<u64>` of a text of digits.
unfoldable pub number_from : ℕ → List ℕ → ℕ
number_from number [] = number
number_from number (byte ∷ bytes) = number_from (number * 10 + (byte - 48)) bytes

unfoldable pub parse_u64 : List ℕ → Option ℕ
unfolding number_from is_empty
parse_u64 digits =
    if is_empty digits || not (ltb (number_from 0 digits) (2 ^ 64))
    then none
    else some (number_from 0 digits)

-- `parse::<i32>`
unfoldable pub parse_magnitude : (ℕ → ℤ) → ℕ → List ℕ → Option ℤ
unfolding number_from all_digits is_empty
parse_magnitude sign largest digits =
    if not (is_empty digits) && (all_digits digits && leb (number_from 0 digits) largest)
    then some (sign (number_from 0 digits))
    else none

unfoldable pub parse_i32 : List ℕ → Option ℤ
unfolding parse_magnitude
parse_i32 [] = none
parse_i32 (byte ∷ bytes) =
    if byte == 45
    then parse_magnitude negated (2 ^ 31) bytes
    else if byte == 43
    then parse_magnitude pos (2 ^ 31 - 1) bytes
    else parse_magnitude pos (2 ^ 31 - 1) (byte ∷ bytes)

-- The loop over the mantissa: its digits, and how many stand behind the point.
unfoldable pub read_mantissa : List ℕ → ℕ → Bool → List ℕ → Result Error (List ℕ × ℕ)
unfolding is_digit
read_mantissa digits fractional_digits saw_dot [] = ok (digits, fractional_digits)
read_mantissa digits fractional_digits saw_dot (byte ∷ bytes) =
    let dot = read_mantissa digits fractional_digits true bytes in
    let digit =
      read_mantissa (digits ++ (byte ∷ []))
        (if saw_dot then fractional_digits + 1 else fractional_digits) saw_dot bytes in
    if byte == 46 && not saw_dot then dot else if is_digit byte then digit else err invalid_amount

-- The 32 bits of `exponent - fractional_digits + 8`.
unfoldable pub shift_bits : ℤ → ℕ → ℕ
shift_bits (pos exponent) fractional_digits =
    (exponent + (2 ^ 32 - fractional_digits % 2 ^ 32) + 8) % 2 ^ 32
shift_bits (negsuc n) fractional_digits =
    ((2 ^ 32 - (n + 1)) + (2 ^ 32 - fractional_digits % 2 ^ 32) + 8) % 2 ^ 32

-- `10u64.checked_pow`: 10 ^ 20 has more than 64 bits.
unfoldable pub checked_power : ℕ → Option ℕ
checked_power exponent = if leb exponent 19 then some (10 ^ exponent) else none

unfoldable pub parse_scientific_doge_decimal : List ℕ → ℕ → Result Error ℕ
unfolding is_empty read_mantissa shift_bits parse_u64 checked_power
parse_scientific_doge_decimal text exponent_index = do
  exponent ← ok_or (parse_i32 (drop (exponent_index + 1) text)) bad_exponent
  (digits, fractional_digits) ← read_mantissa [] 0 false (take exponent_index text)
  bail_if (is_empty digits) invalid_amount
  let satoshi_shift = shift_bits exponent fractional_digits
  bail_if (leb (2 ^ 31) satoshi_shift) too_precise
  base ← ok_or (parse_u64 digits) invalid_amount
  power ← ok_or (checked_power satoshi_shift) too_large
  ok_or (checked_mul 64 base power) too_large

-- `find(['e', 'E'])`, counted from `index`.
unfoldable pub find_exponent : ℕ → List ℕ → Option ℕ
find_exponent index [] = none
find_exponent index (byte ∷ bytes) =
    let rest = find_exponent (index + 1) bytes in
    if byte == 101 || byte == 69 then some index else rest

-- `split('.')`: what stands before the first point, and what stands behind it.
unfoldable pub split_point : List ℕ → List ℕ × List (List ℕ)
split_point [] = ([], [])
split_point (byte ∷ bytes) =
    let (first, rest) = split_point bytes in
    if byte == 46 then ([], first ∷ rest) else (byte ∷ first, rest)

unfoldable pub fraction_value : List ℕ → Result Error ℕ
unfolding parse_u64
fraction_value [] = ok 0
fraction_value (byte ∷ bytes) = do
  digits ← ok_or (parse_u64 (byte ∷ bytes)) invalid_amount
  ok_or (checked_mul 64 digits (10 ^ (8 - length (byte ∷ bytes)))) too_large

unfoldable pub plain_parts : List ℕ → List ℕ → Result Error ℕ
unfolding is_empty all_digits parse_u64 fraction_value
plain_parts whole fraction = do
  bail_if (is_empty whole) invalid_amount
  bail_if (not (all_digits whole) || not (all_digits fraction)) invalid_amount
  bail_if (ltb 8 (length fraction)) too_precise
  units ← ok_or (parse_u64 whole) invalid_amount
  whole_sats ← ok_or (checked_mul 64 units sats_per_doge) too_large
  fraction_sats ← fraction_value fraction
  ok_or (checked_add 64 whole_sats fraction_sats) too_large

unfoldable pub plain_decimal : List ℕ × List (List ℕ) → Result Error ℕ
unfolding plain_parts
plain_decimal (whole, []) = plain_parts whole []
plain_decimal (whole, fraction ∷ []) = plain_parts whole fraction
plain_decimal _ = err invalid_amount

-- Behind `trim`.
unfoldable pub parse_normalized : List ℕ → Result Error ℕ
unfolding is_empty starts_with find_exponent parse_scientific_doge_decimal plain_decimal split_point
parse_normalized normalized = do
  bail_if (is_empty normalized) empty_amount
  bail_if (starts_with normalized (45 ∷ [])) negative_amount
  elim (find_exponent 0 normalized) [
    | some exponent_index ↦ parse_scientific_doge_decimal normalized exponent_index
    | none ↦
        bail_if (starts_with normalized (43 ∷ [])) signed_amount
        >> plain_decimal (split_point normalized)
  ]

unfoldable pub parse_doge_decimal : List ℕ → Result Error ℕ
unfolding trim parse_normalized
parse_doge_decimal text = parse_normalized (trim text)
