-- ===== src/Common/Bytes.antt =====
-- Machine words as byte strings, in both byte orders: `to_le_bytes`, `to_be_bytes` and back.
use Prim.Native.Nat.{ℕ, zero, suc, ◌+◌, ◌*◌, ◌/◌, ◌%◌, ◌^◌, ◌<◌}
use mathlib.Core.Path.{◌≡◌, refl, sym, ap, ◌∙◌}
use mathlib.Core.List.{List, [], ◌∷◌, reverse, reverse-reverse}
use native.Mathlib.Nat.{pow-suc}
use native.Mathlib.Omega.{arith}
use psy_doge_solana_cli.Common.Lists.{length, All, length-reverse, All-reverse}

abbrev pub IsByte : ℕ → Type 0
IsByte b = b < 256

abbrev pub AreBytes : List ℕ → Type 0
AreBytes = All IsByte

-- The `k` low bytes of `v`, lowest first.
unfoldable pub le_bytes : ℕ → ℕ → List ℕ
le_bytes zero v = []
le_bytes (suc k) v = v % 256 ∷ le_bytes k (v / 256)

unfoldable pub from_le : List ℕ → ℕ
from_le [] = 0
from_le (b ∷ bs) = b + 256 * from_le bs

-- The `k` low bytes of `v`, highest first.
unfoldable pub be_bytes : ℕ → ℕ → List ℕ
unfolding le_bytes
be_bytes k v = reverse (le_bytes k v)

unfoldable pub from_be : List ℕ → ℕ
unfolding from_le
from_be bs = from_le (reverse bs)

pub length-le_bytes : (k v : ℕ) → length (le_bytes k v) ≡ k
unfolding le_bytes
length-le_bytes zero v = refl
length-le_bytes (suc k) v = ap suc (length-le_bytes k (v / 256))

pub length-be_bytes : (k v : ℕ) → length (be_bytes k v) ≡ k
unfolding be_bytes
length-be_bytes k v = length-reverse (le_bytes k v) ∙ length-le_bytes k v

le_bytes-AreBytes : (k v : ℕ) → AreBytes (le_bytes k v)
unfolding le_bytes
le_bytes-AreBytes zero v = tt
le_bytes-AreBytes (suc k) v = (omega arith, le_bytes-AreBytes k (v / 256))

be_bytes-AreBytes : (k v : ℕ) → AreBytes (be_bytes k v)
unfolding be_bytes
be_bytes-AreBytes k v = All-reverse IsByte (le_bytes k v) (le_bytes-AreBytes k v)

pub from_le-le_bytes : (k v : ℕ) → v < 256 ^ k → from_le (le_bytes k v) ≡ v
unfolding le_bytes from_le
from_le-le_bytes zero v h = omega arith
from_le-le_bytes (suc k) v h =
    omega (arith, from_le-le_bytes k (v / 256) (omega (arith, pow-suc 256 k)))

le_bytes-from_le : (bs : List ℕ) → AreBytes bs → le_bytes (length bs) (from_le bs) ≡ bs
unfolding le_bytes from_le
le_bytes-from_le [] h = refl
le_bytes-from_le (b ∷ bs) h = ground (
  arith,
  le_bytes-from_le bs h.1,
  ap (λ (v : ℕ). le_bytes (length bs) v) (quotient b (from_le bs) h.0),
)
  where
    quotient : (c q : ℕ) → c < 256 → (c + 256 * q) / 256 ≡ q
    quotient c q hc = omega arith

from_le-lt : (bs : List ℕ) → AreBytes bs → from_le bs < 256 ^ length bs
unfolding from_le
from_le-lt [] h = omega arith
from_le-lt (b ∷ bs) h = omega (arith, from_le-lt bs h.1, pow-suc 256 (length bs), h.0)

pub from_be-be_bytes : (k v : ℕ) → v < 256 ^ k → from_be (be_bytes k v) ≡ v
unfolding from_be be_bytes
from_be-be_bytes k v h = rw reverse-reverse (from_le-le_bytes k v h)

pub be_bytes-from_be : (bs : List ℕ) → AreBytes bs → be_bytes (length bs) (from_be bs) ≡ bs
unfolding from_be be_bytes
be_bytes-from_be bs h =
    ap (λ n. reverse (le_bytes n (from_le (reverse bs)))) (sym (length-reverse bs))
    ∙ ap reverse (le_bytes-from_le (reverse bs) (All-reverse IsByte bs h))
    ∙ reverse-reverse bs

pub from_be-lt : (bs : List ℕ) → AreBytes bs → from_be bs < 256 ^ length bs
unfolding from_be
from_be-lt bs h = rw (← length-reverse bs) (from_le-lt (reverse bs) (All-reverse IsByte bs h))
