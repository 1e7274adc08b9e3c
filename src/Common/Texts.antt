-- ===== src/Common/Texts.antt =====
-- Rust's tests on texts, as lists of their bytes.
use Prim.Native.Nat.{ℕ, ◌+◌}
use mathlib.Core.Bool.{Bool, true, false, ◌&&◌}
use mathlib.Core.List.{List, [], ◌∷◌, map, reverse}
use psy_doge_solana_cli.Common.Tests.{leb, ◌==◌, eqb, if◌then◌else◌}

unfoldable pub lower : ℕ → ℕ
lower byte = if leb 65 byte && leb byte 90 then byte + 32 else byte

unfoldable pub to_ascii_lowercase : List ℕ → List ℕ
unfolding lower
to_ascii_lowercase text = map lower text

unfoldable pub eq_ignore_ascii_case : List ℕ → List ℕ → Bool
unfolding to_ascii_lowercase
eq_ignore_ascii_case a b = eqb (to_ascii_lowercase a) (to_ascii_lowercase b)

unfoldable pub starts_with : List ℕ → List ℕ → Bool
starts_with text [] = true
starts_with [] (p ∷ ps) = false
starts_with (t ∷ ts) (p ∷ ps) = t == p && starts_with ts ps

unfoldable pub ends_with : List ℕ → List ℕ → Bool
unfolding starts_with
ends_with text suffix = starts_with (reverse text) (reverse suffix)
