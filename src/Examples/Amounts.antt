-- ===== src/Examples/Amounts.antt =====
-- The amount 12.5, in either notation.
use psy_doge_solana_cli.Common.{◌≡◌, [], ◌∷◌, ok, arith}
use psy_doge_solana_cli.Withdrawal.Amount.{parse_doge_decimal, number_from}
use psy_doge_solana_cli.Withdrawal.Amount.Exact.{satoshis, parse_doge_decimal-satoshis}

parse_doge_decimal-satoshis_example :
    (parse_doge_decimal (49 ∷ 50 ∷ 46 ∷ 53 ∷ []) ≡ ok (satoshis (49 ∷ 50 ∷ []) (53 ∷ [])))
    × (parse_doge_decimal (49 ∷ 50 ∷ 46 ∷ 53 ∷ 101 ∷ 48 ∷ [])
        ≡ ok (satoshis (49 ∷ 50 ∷ []) (53 ∷ [])))
unfolding number_from
parse_doge_decimal-satoshis_example =
    parse_doge_decimal-satoshis 49 (50 ∷ []) (53 ∷ [])
      ((omega arith, omega arith), ((omega arith, omega arith), tt))
      ((omega arith, omega arith), tt) (omega arith) (omega arith)
