-- ===== src/Withdrawal/Daemon/Boundary.antt =====
-- The arguments of the daemon (doge/src/commands/operator_daemon.rs) and the network boundary.
--
-- A program's key is the text that it is shown as. Where the source ends because a default is
-- missing, which `apply_network_defaults` rules out, there is an error.
use psy_doge_solana_cli.Common.{ℕ, ◌≡◌, List, Option, some, Result, ok_or, ◌>>=◌, ◌>>◌}
use psy_doge_solana_cli.Network.Names.{official_wormhole_core, official_wormhole_shim}
use psy_doge_solana_cli.Network.{
  Error, no_manager_service, no_defaults, RuntimeNetwork, defaults, fill, fill_string_optional,
  IpAddr, Url, validate_remote_url, validate_manager_set, validate_wormhole_programs,
}
use psy_doge_solana_cli.Network.Local.{IsRemoteUrl}

pub record DaemonArgs : Type 0 where
  pub runtime_network : RuntimeNetwork
  pub solana_rpc_url : Option (List ℕ)
  pub electrs_url : Option (List ℕ)
  pub manager_service_url : Option (List ℕ)
  pub manager_set_index : Option ℕ
  pub wormhole_core_program : Option (List ℕ)
  pub wormhole_shim_program : Option (List ℕ)

unfoldable pub apply_network_defaults : DaemonArgs → RuntimeNetwork → DaemonArgs
unfolding fill fill_string_optional
apply_network_defaults args network =
    let profile = defaults network in
    record {
      runtime_network = network;
      solana_rpc_url = fill args.solana_rpc_url profile.solana_rpc_url;
      electrs_url = fill args.electrs_url profile.electrs_url;
      manager_service_url =
          fill_string_optional args.manager_service_url profile.manager_service_url;
      manager_set_index = fill args.manager_set_index profile.manager_set_index;
      wormhole_core_program = fill args.wormhole_core_program profile.wormhole_core_program;
      wormhole_shim_program = fill args.wormhole_shim_program profile.wormhole_shim_program;
    }

module _ (parse_url : List ℕ → Option Url) (parse_ip : List ℕ → Option IpAddr) where
  unfoldable pub validate_network_boundary : DaemonArgs → Result Error (Unit {0})
  validate_network_boundary args = do
    solana_rpc_url ← ok_or args.solana_rpc_url no_defaults
    validate_remote_url parse_url parse_ip args.runtime_network solana_rpc_url
    electrs_url ← ok_or args.electrs_url no_defaults
    validate_remote_url parse_url parse_ip args.runtime_network electrs_url
    manager_service_url ← ok_or args.manager_service_url no_manager_service
    validate_remote_url parse_url parse_ip args.runtime_network manager_service_url
    manager_set_index ← ok_or args.manager_set_index no_defaults
    validate_manager_set args.runtime_network manager_set_index
    core ← ok_or args.wormhole_core_program no_defaults
    shim ← ok_or args.wormhole_shim_program no_defaults
    validate_wormhole_programs args.runtime_network core shim

  -- An endpoint that is given and accepted: it is read, with the scheme http or https, and its host
  -- is none of those that `is_local_host` knows.
  abbrev pub IsAcceptedEndpoint : Option (List ℕ) → Type 0
  IsAcceptedEndpoint endpoint =
      (value : List ℕ) × (url : Url) × (endpoint ≡ some value)
      × (parse_url value ≡ some url)
      × IsRemoteUrl parse_ip url

  pub record IsDevnet (args : DaemonArgs) : Type 0 where
    pub solana : IsAcceptedEndpoint args.solana_rpc_url
    pub electrs : IsAcceptedEndpoint args.electrs_url
    pub manager : IsAcceptedEndpoint args.manager_service_url
    pub set_index : args.manager_set_index ≡ some 1
    pub core : args.wormhole_core_program ≡ some official_wormhole_core
    pub shim : args.wormhole_shim_program ≡ some official_wormhole_shim
