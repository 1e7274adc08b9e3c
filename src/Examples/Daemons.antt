-- ===== src/Examples/Daemons.antt =====
-- A daemon that fails, succeeds, and then fails five times, and one with the devnet profile.
use psy_doge_solana_cli.Common.{
  if◌then◌else◌, ℕ, ◌↔◌, ◌≡◌, refl, List, [], ◌∷◌, Option, none, some, ok, err, arith, eqb,
  eq_ignore_ascii_case, to_ascii_lowercase, lower, ends_with, starts_with,
}
use psy_doge_solana_cli.Network.Names.{http}
use psy_doge_solana_cli.Network.{
  IpAddr, v4, local_endpoint, is_local_ip, first_masked, Url, localhost, devnet,
  validate_remote_url, validate_manager_set, validate_wormhole_programs, defaults, fill,
  fill_string_optional, is_local_host,
}
use psy_doge_solana_cli.Withdrawal.Daemon.Boundary.{
  DaemonArgs, apply_network_defaults, validate_network_boundary,
}
use psy_doge_solana_cli.Withdrawal.Daemon.{Event, polled, new, run_loop, poll_failure_threshold}
use psy_doge_solana_cli.Withdrawal.Daemon.Aborts.{Aborts, HasFailures, run_loop-Aborts_iff}

abbrev read_url : List ℕ → Option Url
read_url value = some (record { scheme = http; host_str = some value })

-- A reading of "8" as 8.8.8.8, and of "7" as 127.0.0.1.
abbrev read_ip : List ℕ → Option IpAddr
read_ip text =
    if eqb text (0x38 ∷ [])
    then some (v4 8 8 8 8)
    else if eqb text (0x37 ∷ [])
    then some (v4 127 0 0 1)
    else none

abbrev args : DaemonArgs
args = record {
  runtime_network = localhost;
  solana_rpc_url = none;
  electrs_url = none;
  manager_service_url = some (0x38 ∷ []);
  manager_set_index = none;
  wormhole_core_program = none;
  wormhole_shim_program = none;
}

passes : validate_network_boundary read_url read_ip (apply_network_defaults args devnet) ≡ ok tt
unfolding validate_network_boundary apply_network_defaults validate_remote_url validate_manager_set
    validate_wormhole_programs defaults fill fill_string_optional is_local_host eqb
    eq_ignore_ascii_case to_ascii_lowercase lower ends_with starts_with is_local_ip first_masked
passes = refl

-- An address of the machine is refused.
refuses :
    validate_network_boundary read_url read_ip
      (apply_network_defaults (record args { electrs_url = some (0x37 ∷ []) }) devnet)
    ≡ err (local_endpoint (0x37 ∷ []))
unfolding validate_network_boundary apply_network_defaults validate_remote_url validate_manager_set
    validate_wormhole_programs defaults fill fill_string_optional is_local_host eqb
    eq_ignore_ascii_case to_ascii_lowercase lower ends_with starts_with is_local_ip first_masked
refuses = refl

abbrev failed : Event ℕ
failed = polled (err 0)

abbrev events : List (Event ℕ)
events = failed ∷ polled (ok tt) ∷ failed ∷ failed ∷ failed ∷ failed ∷ failed ∷ []

run_loop-Aborts_iff_example :
    Aborts (run_loop events (new poll_failure_threshold))
    ↔ HasFailures poll_failure_threshold events
run_loop-Aborts_iff_example = run_loop-Aborts_iff 4 (omega arith) events
