-- ===== src/Examples/Networks.antt =====
-- The boundary of the devnet profile at a URL of an IPv6 address, which stands in brackets.
use psy_doge_solana_cli.Common.{ℕ, ◌≡◌, ◌↔◌, List, [], ◌∷◌, Option, none, some, ok}
use psy_doge_solana_cli.Network.Names.{http}
use psy_doge_solana_cli.Network.{devnet, IpAddr, Url, validate_remote_url}
use psy_doge_solana_cli.Network.Local.{IsRemoteUrl, validate_remote_url-ok_iff}

-- "[::1]"
abbrev bracketed : List ℕ
bracketed = 0x5b ∷ 0x3a ∷ 0x3a ∷ 0x31 ∷ 0x5d ∷ []

-- The reading of an address, where there is none.
abbrev no_ip : List ℕ → Option IpAddr
no_ip text = none

abbrev read_url : List ℕ → Option Url
read_url value = some (record { scheme = http; host_str = some value })

validate_remote_url-ok_iff_example :
    (validate_remote_url read_url no_ip devnet bracketed ≡ ok tt)
    ↔ (url : Url) × (read_url bracketed ≡ some url) × IsRemoteUrl no_ip url
validate_remote_url-ok_iff_example =
    validate_remote_url-ok_iff read_url no_ip (λ text ip e. absurd (clash ip e)) bracketed
  where
    clash : (ip : IpAddr) → ◌≡◌ {A = Option IpAddr} none (some ip) → ⊥
    clash ip e = cc
