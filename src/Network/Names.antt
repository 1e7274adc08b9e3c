-- ===== src/Network/Names.antt =====
-- The constants of doge/src/network.rs: programs, URLs and host names, as their bytes.
use psy_doge_solana_cli.Common.{ℕ, List, [], ◌∷◌}

-- "3u8hJUVTA4jH1wYAyUur7FFZVQ8H635K3tSHHF4ssjQ5"
abbrev pub official_wormhole_core : List ℕ
official_wormhole_core =
    51 ∷ 117 ∷ 56 ∷ 104 ∷ 74 ∷ 85 ∷ 86 ∷ 84 ∷ 65 ∷ 52 ∷ 106 ∷ 72 ∷ 49 ∷ 119 ∷ 89 ∷ 65 ∷ 121 ∷ 85
    ∷ 117 ∷ 114 ∷ 55 ∷ 70 ∷ 70 ∷ 90 ∷ 86 ∷ 81 ∷ 56 ∷ 72 ∷ 54 ∷ 51 ∷ 53 ∷ 75 ∷ 51 ∷ 116 ∷ 83 ∷ 72
    ∷ 72 ∷ 70 ∷ 52 ∷ 115 ∷ 115 ∷ 106 ∷ 81 ∷ 53 ∷ []

-- "EtZMZM22ViKMo4r5y4Anovs3wKQ2owUmDpjygnMMcdEX"
abbrev pub official_wormhole_shim : List ℕ
official_wormhole_shim =
    69 ∷ 116 ∷ 90 ∷ 77 ∷ 90 ∷ 77 ∷ 50 ∷ 50 ∷ 86 ∷ 105 ∷ 75 ∷ 77 ∷ 111 ∷ 52 ∷ 114 ∷ 53 ∷ 121 ∷ 52
    ∷ 65 ∷ 110 ∷ 111 ∷ 118 ∷ 115 ∷ 51 ∷ 119 ∷ 75 ∷ 81 ∷ 50 ∷ 111 ∷ 119 ∷ 85 ∷ 109 ∷ 68 ∷ 112 ∷ 106
    ∷ 121 ∷ 103 ∷ 110 ∷ 77 ∷ 77 ∷ 99 ∷ 100 ∷ 69 ∷ 88 ∷ []

-- "FwDChsHWLwbhTiYQ4Sum5mjVWswECi9cmrA11GUFUuxi"
abbrev pub local_noop_shim : List ℕ
local_noop_shim =
    70 ∷ 119 ∷ 68 ∷ 67 ∷ 104 ∷ 115 ∷ 72 ∷ 87 ∷ 76 ∷ 119 ∷ 98 ∷ 104 ∷ 84 ∷ 105 ∷ 89 ∷ 81 ∷ 52 ∷ 83
    ∷ 117 ∷ 109 ∷ 53 ∷ 109 ∷ 106 ∷ 86 ∷ 87 ∷ 115 ∷ 119 ∷ 69 ∷ 67 ∷ 105 ∷ 57 ∷ 99 ∷ 109 ∷ 114 ∷ 65
    ∷ 49 ∷ 49 ∷ 71 ∷ 85 ∷ 70 ∷ 85 ∷ 117 ∷ 120 ∷ 105 ∷ []

-- "http://127.0.0.1:8899"
abbrev pub local_solana_rpc : List ℕ
local_solana_rpc =
    104 ∷ 116 ∷ 116 ∷ 112 ∷ 58 ∷ 47 ∷ 47 ∷ 49 ∷ 50 ∷ 55 ∷ 46 ∷ 48 ∷ 46 ∷ 48 ∷ 46 ∷ 49 ∷ 58 ∷ 56 ∷ 56
    ∷ 57 ∷ 57 ∷ []

-- "https://api.devnet.solana.com"
abbrev pub devnet_solana_rpc : List ℕ
devnet_solana_rpc =
    104 ∷ 116 ∷ 116 ∷ 112 ∷ 115 ∷ 58 ∷ 47 ∷ 47 ∷ 97 ∷ 112 ∷ 105 ∷ 46 ∷ 100 ∷ 101 ∷ 118 ∷ 110 ∷ 101
    ∷ 116 ∷ 46 ∷ 115 ∷ 111 ∷ 108 ∷ 97 ∷ 110 ∷ 97 ∷ 46 ∷ 99 ∷ 111 ∷ 109 ∷ []

-- "http://127.0.0.1:3002"
abbrev pub local_electrs_url : List ℕ
local_electrs_url =
    104 ∷ 116 ∷ 116 ∷ 112 ∷ 58 ∷ 47 ∷ 47 ∷ 49 ∷ 50 ∷ 55 ∷ 46 ∷ 48 ∷ 46 ∷ 48 ∷ 46 ∷ 49 ∷ 58 ∷ 51 ∷ 48
    ∷ 48 ∷ 50 ∷ []

-- "https://doge-electrs-testnet-demo.qed.me"
abbrev pub qed_testnet_electrs_url : List ℕ
qed_testnet_electrs_url =
    104 ∷ 116 ∷ 116 ∷ 112 ∷ 115 ∷ 58 ∷ 47 ∷ 47 ∷ 100 ∷ 111 ∷ 103 ∷ 101 ∷ 45 ∷ 101 ∷ 108 ∷ 101 ∷ 99
    ∷ 116 ∷ 114 ∷ 115 ∷ 45 ∷ 116 ∷ 101 ∷ 115 ∷ 116 ∷ 110 ∷ 101 ∷ 116 ∷ 45 ∷ 100 ∷ 101 ∷ 109 ∷ 111
    ∷ 46 ∷ 113 ∷ 101 ∷ 100 ∷ 46 ∷ 109 ∷ 101 ∷ []

-- "http://127.0.0.1:7071"
abbrev pub local_manager_service_url : List ℕ
local_manager_service_url =
    104 ∷ 116 ∷ 116 ∷ 112 ∷ 58 ∷ 47 ∷ 47 ∷ 49 ∷ 50 ∷ 55 ∷ 46 ∷ 48 ∷ 46 ∷ 48 ∷ 46 ∷ 49 ∷ 58 ∷ 55 ∷ 48
    ∷ 55 ∷ 49 ∷ []

-- "localhost"
abbrev pub localhost_name : List ℕ
localhost_name = 108 ∷ 111 ∷ 99 ∷ 97 ∷ 108 ∷ 104 ∷ 111 ∷ 115 ∷ 116 ∷ []

-- ".localhost"
abbrev pub localhost_suffix : List ℕ
localhost_suffix = 46 ∷ 108 ∷ 111 ∷ 99 ∷ 97 ∷ 108 ∷ 104 ∷ 111 ∷ 115 ∷ 116 ∷ []

-- "http"
abbrev pub http : List ℕ
http = 104 ∷ 116 ∷ 116 ∷ 112 ∷ []

-- "https"
abbrev pub https : List ℕ
https = 104 ∷ 116 ∷ 116 ∷ 112 ∷ 115 ∷ []
