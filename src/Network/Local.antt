-- ===== src/Network/Local.antt =====
-- What the boundary of the devnet profile refuses.
use psy_doge_solana_cli.Common.{
  ℕ, ◌+◌, ◌*◌, ◌^◌, ◌-◌, ◌%◌, ◌<◌, ◌≡◌, ◌≢◌, ◌⊎◌, ◌↔◌, inl, inr, refl, subst, sym, ap, ◌∙◌, List,
  [], ◌∷◌, Bool, true, false, not, ◌||◌, eqb, eqb→eq, eqb_refl, Bool-cases, Option, none, some,
  Option-cases, ok, bail_if, ok_or, All, ends_with, eq_ignore_ascii_case, to_ascii_lowercase, arith,
  >>=-ok, ok_or-ok, bail_if-not-ok, ok->>=, false-bail_if,
}
use psy_doge_solana_cli.Network.Names.{localhost_name, localhost_suffix, http, https}
use psy_doge_solana_cli.Network.{
  Error, devnet, IpAddr, v4, v6, Url, first_masked, is_local_ip, is_local_host, validate_remote_url,
  bad_url, local_endpoint, no_host, wrong_scheme,
}

-- A number outside a block of addresses.
abbrev pub Outside : ℕ → ℕ → ℕ → Type 0
Outside first last n = (n < first) ⊎ (last < n)

-- The address as a number, and the blocks 127/8, 0/32, 10/8, 172.16/12, 192.168/16 and 169.254/16.
abbrev pub IsRemoteV4 : ℕ → Type 0
IsRemoteV4 n =
    Outside 0x7f000000 0x7fffffff n
    × (n ≢ 0)
    × Outside 0x0a000000 0x0affffff n
    × Outside 0xac100000 0xac1fffff n
    × Outside 0xc0a80000 0xc0a8ffff n
    × Outside 0xa9fe0000 0xa9feffff n

v4_refuses :
    (a b c d : ℕ)
    → a < 256
    → b < 256
    → c < 256
    → d < 256
    → is_local_ip (v4 a b c d) ≡ false
    → IsRemoteV4 (a * 2 ^ 24 + b * 2 ^ 16 + c * 2 ^ 8 + d)
unfolding is_local_ip
v4_refuses a b c d ha hb hc hd e =
    (ground arith, ground arith, ground arith, ground arith, ground arith, ground arith)

v4_accepts :
    (a b c d : ℕ)
    → a < 256
    → b < 256
    → c < 256
    → d < 256
    → IsRemoteV4 (a * 2 ^ 24 + b * 2 ^ 16 + c * 2 ^ 8 + d)
    → is_local_ip (v4 a b c d) ≡ false
unfolding is_local_ip
v4_accepts a b c d ha hb hc hd (loopback, unspecified, ten, twelve, sixteen, link) = ground arith

abbrev pub First : List ℕ → Type 0
First [] = Unit
First (s ∷ rest) = Outside 0xfc00 0xfdff s × Outside 0xfe80 0xfebf s

-- The first word outside fc00::/7 and fe80::/10, and neither ::1 nor ::.
abbrev pub IsRemoteV6 : List ℕ → Type 0
IsRemoteV6 segments =
    (segments ≢ 0 ∷ 0 ∷ 0 ∷ 0 ∷ 0 ∷ 0 ∷ 0 ∷ 1 ∷ [])
    × (segments ≢ 0 ∷ 0 ∷ 0 ∷ 0 ∷ 0 ∷ 0 ∷ 0 ∷ 0 ∷ [])
    × First segments

-- Bytes, or words of 16 bits.
abbrev pub IsTypedIp : IpAddr → Type 0
IsTypedIp (v4 a b c d) = (a < 256) × (b < 256) × (c < 256) × (d < 256)
IsTypedIp (v6 segments) = All (λ s. s < 2 ^ 16) segments

abbrev pub IsRemote : IpAddr → Type 0
IsRemote (v4 a b c d) = IsRemoteV4 (a * 2 ^ 24 + b * 2 ^ 16 + c * 2 ^ 8 + d)
IsRemote (v6 segments) = IsRemoteV6 segments

first_masked_lem :
    (bits range s : ℕ) (rest : List ℕ)
    → (first_masked bits range (s ∷ rest) ≡ true) ↔ (s - s % 2 ^ bits ≡ range)
unfolding first_masked
first_masked_lem bits range s rest = (λ h. ground (arith, h), λ h. ground (arith, h))

masked_word :
    (s : ℕ)
    → s < 2 ^ 16
    → (s - s % 2 ^ 9 ≢ 0xfc00) × (s - s % 2 ^ 6 ≢ 0xfe80)
      ↔ (Outside 0xfc00 0xfdff s × Outside 0xfe80 0xfebf s)
masked_word s h =
    (λ k. (ground (arith, k), ground (arith, k)), λ k. (ground (arith, k), ground (arith, k)))

not_eqb : (xs ys : List ℕ) → (eqb xs ys ≡ false) ↔ (xs ≢ ys)
not_eqb xs ys = (
  λ h e. clash (sym h ∙ ap (eqb xs) (sym e) ∙ eqb_refl xs),
  λ h. elim (Bool-cases (eqb xs ys)) [
    | inl same ↦ absurd (h (eqb→eq xs ys same))
    | inr other ↦ other
  ],
)
  where
    clash : false ≡ true → ⊥
    clash e = cc

words_remote :
    (segments : List ℕ)
    → All (λ s. s < 2 ^ 16) segments
    → (first_masked 9 0xfc00 segments ≡ false) × (first_masked 6 0xfe80 segments ≡ false)
      ↔ First segments
unfolding first_masked
words_remote [] h = (λ k. tt, λ k. (refl, refl))
words_remote (s ∷ rest) h = (λ k. ground (arith, k, h.0), λ k. ground (arith, k, h.0))

is_local_ip-IsRemote : (ip : IpAddr) → IsTypedIp ip → (is_local_ip ip ≡ false) ↔ IsRemote ip
unfolding is_local_ip
is_local_ip-IsRemote (v4 a b c d) (ha, hb, hc, hd) =
    (v4_refuses a b c d ha hb hc hd, v4_accepts a b c d ha hb hc hd)
is_local_ip-IsRemote (v6 segments) h =
    let loopback = not_eqb segments (0 ∷ 0 ∷ 0 ∷ 0 ∷ 0 ∷ 0 ∷ 0 ∷ 1 ∷ []) in
    let unspecified = not_eqb segments (0 ∷ 0 ∷ 0 ∷ 0 ∷ 0 ∷ 0 ∷ 0 ∷ 0 ∷ []) in
    let words = words_remote segments h in
    (
      λ e. (
        loopback.0 (ground (arith, e)),
        unspecified.0 (ground (arith, e)),
        words.0 (ground (arith, e), ground (arith, e)),
      ),
      λ e. ground (arith, loopback.1 e.0, unspecified.1 e.1, words.1 e.2),
    )

-- What the devnet profile asks of a URL.
abbrev pub IsRemoteHost : (List ℕ → Option IpAddr) → List ℕ → Type 0
IsRemoteHost parse_ip host =
    (eq_ignore_ascii_case host localhost_name ≡ false)
    × (ends_with (to_ascii_lowercase host) localhost_suffix ≡ false)
    × ((ip : IpAddr) → parse_ip host ≡ some ip → IsRemote ip)

pub record IsRemoteUrl (parse_ip : List ℕ → Option IpAddr) (url : Url) : Type 0 where
  pub scheme : (url.scheme ≡ http) ⊎ (url.scheme ≡ https)
  pub host : List ℕ
  pub has_host : url.host_str ≡ some host
  pub remote : IsRemoteHost parse_ip host

module _ (parse_url : List ℕ → Option Url) (parse_ip : List ℕ → Option IpAddr)
    (typed : (text : List ℕ) (ip : IpAddr) → parse_ip text ≡ some ip → IsTypedIp ip) where
  is_local_host-IsRemoteHost :
      (host : List ℕ) → (is_local_host parse_ip host ≡ false) ↔ IsRemoteHost parse_ip host
  unfolding is_local_host
  is_local_host-IsRemoteHost host = elim (Option-cases (parse_ip host)) [
    | inl name ↦ (
      λ e. (ground (arith, e), ground (arith, e), λ ip p. absurd (clash ip (sym name ∙ p))),
      λ k. rw name (ground (arith, k.0, k.1)),
    )
    | inr (ip, p) ↦ (
      λ e.
          let f = rw p at e in
          (
            ground (arith, f),
            ground (arith, f),
            λ ip' p'.
                subst IsRemote (same ip ip' (sym p ∙ p'))
                  ((is_local_ip-IsRemote ip (typed host ip p)).0 (ground (arith, f))),
          ),
      λ k.
          rw p (ground (arith, k.0, k.1, (is_local_ip-IsRemote ip (typed host ip p)).1 (k.2 ip p))),
    )
  ]
    where
      clash : (ip : IpAddr) → ◌≡◌ {A = Option IpAddr} none (some ip) → ⊥
      clash ip e = cc

      same : (a b : IpAddr) → ◌≡◌ {A = Option IpAddr} (some a) (some b) → a ≡ b
      same a b e = cc

  -- On devnet a URL is accepted exactly when it is read, has the scheme http or https, and has a
  -- host that is not localhost, does not end in .localhost, and is not read as an address of the
  -- machine or of a private network, for a reading of addresses that gives bytes and words of 16
  -- bits.
  pub validate_remote_url-ok_iff :
      (value : List ℕ)
      → (validate_remote_url parse_url parse_ip devnet value ≡ ok tt)
        ↔ (url : Url) × (parse_url value ≡ some url) × IsRemoteUrl parse_ip url
  unfolding validate_remote_url
  validate_remote_url-ok_iff value = (accepted, accepts)
    where
      accepted :
          validate_remote_url parse_url parse_ip devnet value ≡ ok tt
          → (url : Url) × (parse_url value ≡ some url) × IsRemoteUrl parse_ip url
      accepted e =
          let (url, parsed, e1) = >>=-ok (ok_or (parse_url value) bad_url) _ e in
          let (scheme, e2) = bail_if-not-ok (eqb url.scheme http || eqb url.scheme https) _ _ e1 in
          let (host, has, e3) = >>=-ok (ok_or url.host_str no_host) _ e2 in
          (
            url,
            ok_or-ok (parse_url value) bad_url parsed,
            record {
              scheme = elim (Bool-cases (eqb url.scheme http)) [
                | inl first ↦ inl (eqb→eq url.scheme http first)
                | inr other ↦ inr (eqb→eq url.scheme https (ground (arith, scheme, other)))
              ];
              host = host;
              has_host = ok_or-ok url.host_str no_host has;
              remote =
                  (is_local_host-IsRemoteHost host).0
                    (passed (is_local_host parse_ip host) (local_endpoint host) e3);
            },
          )
        where
          passed : (test : Bool) (error : Error) → bail_if test error ≡ ok tt → test ≡ false
          passed true error h = cc
          passed false error h = refl

      accepts :
          (url : Url) × (parse_url value ≡ some url) × IsRemoteUrl parse_ip url
          → validate_remote_url parse_url parse_ip devnet value ≡ ok tt
      accepts (url, parsed, remote) =
          ok->>= (ok_or (parse_url value) bad_url) _ (ap (λ o. ok_or o bad_url) parsed) (
            false-bail_if (not (eqb url.scheme http || eqb url.scheme https)) wrong_scheme _
              (scheme_passes remote.scheme)
              (ok->>= (ok_or url.host_str no_host) _ (ap (λ o. ok_or o no_host) remote.has_host) (
                ap (λ b. bail_if b (local_endpoint remote.host))
                  ((is_local_host-IsRemoteHost remote.host).1 remote.remote))))
        where
          scheme_passes :
              (url.scheme ≡ http) ⊎ (url.scheme ≡ https)
              → not (eqb url.scheme http || eqb url.scheme https) ≡ false
          scheme_passes (inl e) = ground (arith, ap (λ t. eqb t http) e ∙ eqb_refl http)
          scheme_passes (inr e) = ground (arith, ap (λ t. eqb t https) e ∙ eqb_refl https)
