-- ===== src/Withdrawal/Batch.antt =====
-- The choices of a batch: doge/src/commands/process_withdrawal.rs and `select_poll_action` of
-- doge/src/commands/operator_daemon.rs.
--
-- `SNAPSHOT_PROOF_MAX_BATCH` is a constant of the doge_bridge_client package, and a parameter.
pub mod Progress
pub mod Payload
use psy_doge_solana_cli.Common.{
  ℕ, ◌+◌, ◌-◌, ◌^◌, List, [], ◌∷◌, map, Bool, true, false, ◌||◌, ltb, leb, ◌==◌, ◌&&◌,
  if◌then◌else◌, min, length, slice, Option, none, some, Result, ok, err, ensure, bail_if, map_err,
  collect, ◌>>=◌, ◌>>◌,
}
use psy_doge_solana_cli.Common.Int.{ℤ}
use psy_doge_solana_cli.Wormhole.Utx0.{from_u32, Utx0Output, Utx0UnlockPayload}
use psy_doge_solana_cli.Wormhole.Tx.{is_empty}
use psy_doge_solana_cli.Wormhole.Manager.Local.{dogecoin}
use psy_doge_solana_cli.Withdrawal.Errors.{Error, payload_error, empty_batch, history_too_short}

unfoldable pub capped_batch_end : ℕ → ℕ → ℕ → ℕ
capped_batch_end max_batch snapshot_cursor requested_tip =
    min (min (snapshot_cursor + max_batch) (2 ^ 64 - 1)) requested_tip

pub data ObservedBatchAction : Type 0 where
  await_confirmation resend_original fail wait : ObservedBatchAction

-- `status == Some(b)`
unfoldable pub is_some : Option Bool → Bool → Bool
is_some none b = false
is_some (some true) b = b
is_some (some false) true = false
is_some (some false) false = true

unfoldable pub select_observed_batch_action :
    Option Bool → Bool → Bool → ℕ → ℕ → ObservedBatchAction
select_observed_batch_action status metadata_found blockhash_valid snapshot_cursor request_start =
    if is_some status false
    then (if snapshot_cursor == request_start then fail else wait)
    else if metadata_found || is_some status true
    then await_confirmation
    else if blockhash_valid
    then resend_original
    else if snapshot_cursor == request_start
    then fail
    else wait

pub data PollAction : Type 0 where
  resume idle : PollAction
  start : ℕ → PollAction

unfoldable pub select_poll_action : Bool → ℕ → ℕ → PollAction
select_poll_action has_incomplete_batch snapshot_cursor requested_cursor =
    if has_incomplete_batch
    then resume
    else if ltb snapshot_cursor requested_cursor
    then start snapshot_cursor
    else idle

-- A request of the history with its record, both in one; the signature and the key are texts.
pub record IndexedRequest : Type 0 where
  pub index : ℕ
  pub signature : List ℕ
  pub slot : ℕ
  pub block_time : Option ℤ
  pub user_pubkey : List ℕ
  pub amount_sats : ℕ
  pub net_amount_sats : ℕ
  pub address_type : ℕ
  pub recipient_address : List ℕ

unfoldable pub history_range : List IndexedRequest → ℕ → ℕ → Result Error (List IndexedRequest)
history_range history from to =
    if leb from to && leb to (length history)
    then ok (slice from to history)
    else err (history_too_short from to)

unfoldable pub request_output : IndexedRequest → Result Error Utx0Output
request_output request = do
  address_type ← map_err payload_error (from_u32 request.address_type)
  ok (record {
    amount = request.net_amount_sats;
    address_type = address_type;
    address = request.recipient_address;
  })

unfoldable pub payload_for_requests : List IndexedRequest → ℕ → Result Error Utx0UnlockPayload
payload_for_requests requests manager_set_index = do
  bail_if (is_empty requests) empty_batch
  outputs ← collect request_output requests
  ok (record {
    destination_chain = dogecoin;
    delegated_manager_set_index = manager_set_index;
    outputs = outputs;
  })
