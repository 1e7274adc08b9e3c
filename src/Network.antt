-- ===== src/Network.antt =====
-- doge/src/network.rs: the network profiles, what they allow, and the addresses of their Dogecoin
-- networks.
--
-- A text is the list of its bytes. Base58 with its checksum is the bs58 package's, the reading of a
-- URL the reqwest package's, and both are parameters; so is the reading of an IP address, of which
-- the standard library has several forms.
pub mod Names
pub mod Local
use psy_doge_solana_cli.Common.{
  ℕ, ◌+◌, List, [], ◌∷◌, Bool, true, false, not, ◌&&◌, ◌||◌, ◌==◌, ◌-◌, ◌%◌, ◌^◌, Option, none,
  some, length, get_elem?, Result, ok, err, bail_if, ok_or, if◌then◌else◌, ◌>>=◌, ◌>>◌, eqb, leb,
  to_ascii_lowercase, eq_ignore_ascii_case, ends_with,
}
use psy_doge_solana_cli.Network.Names.{
  official_wormhole_core, official_wormhole_shim, local_noop_shim, local_solana_rpc,
  devnet_solana_rpc, local_electrs_url, qed_testnet_electrs_url, local_manager_service_url,
  localhost_name, localhost_suffix, http, https,
}

pub data Error : Type 0 where
  unsupported_type : ℕ → Error
  undecodable wrong_wif_version unmarked_wif foreign_programs : Error
  wrong_wif_length wrong_manager_set : ℕ → Error
  bad_url wrong_scheme no_host no_manager_service no_defaults : Error
  local_endpoint : List ℕ → Error

pub data RuntimeNetwork : Type 0 where
  localhost devnet : RuntimeNetwork

pub data IpAddr : Type 0 where
  -- the four bytes
  v4 : ℕ → ℕ → ℕ → ℕ → IpAddr
  -- the eight words of 16 bits
  v6 : List ℕ → IpAddr

pub record Url : Type 0 where
  pub scheme : List ℕ
  pub host_str : Option (List ℕ)

-- `segments[0] & mask == range`, for a mask that clears the low `bits` of a word of 16 bits.
unfoldable pub first_masked : ℕ → ℕ → List ℕ → Bool
first_masked bits range [] = false
first_masked bits range (segment ∷ rest) = segment - segment % 2 ^ bits == range

-- The closure: an address of the machine or of a private network.
unfoldable pub is_local_ip : IpAddr → Bool
unfolding first_masked
is_local_ip (v4 a b c d) =
    a == 127
    || ((a == 0 && (b == 0 && (c == 0 && d == 0)))
        || ((a == 10 || ((a == 172 && (leb 16 b && leb b 31)) || (a == 192 && b == 168)))
            || (a == 169 && b == 254)))
is_local_ip (v6 segments) =
    eqb segments (0 ∷ 0 ∷ 0 ∷ 0 ∷ 0 ∷ 0 ∷ 0 ∷ 1 ∷ [])
    || (eqb segments (0 ∷ 0 ∷ 0 ∷ 0 ∷ 0 ∷ 0 ∷ 0 ∷ 0 ∷ [])
        || (first_masked 9 0xfc00 segments || first_masked 6 0xfe80 segments))

unfoldable pub is_local_host : (List ℕ → Option IpAddr) → List ℕ → Bool
unfolding is_local_ip ends_with eq_ignore_ascii_case to_ascii_lowercase
is_local_host parse_ip host =
    eq_ignore_ascii_case host localhost_name
    || (ends_with (to_ascii_lowercase host) localhost_suffix
        || elim (parse_ip host) [ none ↦ false | some ip ↦ is_local_ip ip ])

unfoldable pub validate_remote_url :
    (List ℕ → Option Url)
    → (List ℕ → Option IpAddr)
    → RuntimeNetwork
    → List ℕ
    → Result Error (Unit {0})
unfolding is_local_host
validate_remote_url parse_url parse_ip localhost value = ok tt
validate_remote_url parse_url parse_ip devnet value = do
  url ← ok_or (parse_url value) bad_url
  bail_if (not (eqb url.scheme http || eqb url.scheme https)) wrong_scheme
  host ← ok_or url.host_str no_host
  bail_if (is_local_host parse_ip host) (local_endpoint host)

unfoldable pub validate_manager_set : RuntimeNetwork → ℕ → Result Error (Unit {0})
validate_manager_set localhost index = ok tt
validate_manager_set devnet index = bail_if (not (index == 1)) (wrong_manager_set index)

unfoldable pub validate_wormhole_programs :
    RuntimeNetwork → List ℕ → List ℕ → Result Error (Unit {0})
validate_wormhole_programs localhost core shim = ok tt
validate_wormhole_programs devnet core shim =
    bail_if (not (eqb core official_wormhole_core) || not (eqb shim official_wormhole_shim))
      foreign_programs

pub data DogeNetwork : Type 0 where
  regtest testnet : DogeNetwork

pub record NetworkDefaults : Type 0 where
  pub doge_network : DogeNetwork
  pub solana_rpc_url : List ℕ
  pub electrs_url : List ℕ
  pub manager_service_url : Option (List ℕ)
  pub manager_set_index : ℕ
  pub wormhole_core_program : List ℕ
  pub wormhole_shim_program : List ℕ

unfoldable pub defaults : RuntimeNetwork → NetworkDefaults
defaults localhost = record {
  doge_network = regtest;
  solana_rpc_url = local_solana_rpc;
  electrs_url = local_electrs_url;
  manager_service_url = some local_manager_service_url;
  manager_set_index = 0;
  wormhole_core_program = local_noop_shim;
  wormhole_shim_program = local_noop_shim;
}
defaults devnet = record {
  doge_network = testnet;
  solana_rpc_url = devnet_solana_rpc;
  electrs_url = qed_testnet_electrs_url;
  manager_service_url = none;
  manager_set_index = 1;
  wormhole_core_program = official_wormhole_core;
  wormhole_shim_program = official_wormhole_shim;
}

-- `fill_string`, `fill_u32`, and the same on programs; `fill_string_optional`.
unfoldable pub fill {ℓ} : {A : Type ℓ} → Option A → A → Option A
fill none default = some default
fill (some given) default = some given

unfoldable pub fill_string_optional : Option (List ℕ) → Option (List ℕ) → Option (List ℕ)
fill_string_optional none default = default
fill_string_optional (some given) default = some given

-- `bytes[i] == wanted`
unfoldable pub byte_is : Option ℕ → ℕ → Bool
byte_is none wanted = false
byte_is (some byte) wanted = byte == wanted

unfoldable pub p2pkh_version : DogeNetwork → ℕ
p2pkh_version regtest = 0x6f
p2pkh_version testnet = 0x71

unfoldable pub wif_version : DogeNetwork → ℕ
wif_version regtest = 0xef
wif_version testnet = 0xf1

-- The version byte that `encode_address` puts in front.
unfoldable pub address_version : DogeNetwork → ℕ → Result Error ℕ
unfolding p2pkh_version
address_version network address_type =
    if address_type == 0
    then ok (p2pkh_version network)
    else if address_type == 1
    then ok 0xc4
    else err (unsupported_type address_type)

unfoldable pub encode_address : (List ℕ → List ℕ) → DogeNetwork → ℕ → List ℕ → Result Error (List ℕ)
encode_address base58_check network address_type payload = do
  version ← address_version network address_type
  ok (base58_check (version ∷ payload))

-- Base58 decoding that checks the checksum is a parameter.
unfoldable pub validate_wif :
    (List ℕ → Option (List ℕ)) → DogeNetwork → List ℕ → Result Error (Unit {0})
unfolding wif_version byte_is
validate_wif decode_check network wif = do
  decoded ← ok_or (decode_check wif) undecodable
  bail_if (not (length decoded == 33) && not (length decoded == 34))
      (wrong_wif_length (length decoded))
  bail_if (not (byte_is (get_elem? decoded 0) (wif_version network))) wrong_wif_version
  bail_if (length decoded == 34 && not (byte_is (get_elem? decoded 33) 1)) unmarked_wif
