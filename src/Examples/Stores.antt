-- ===== src/Examples/Stores.antt =====
-- A batch in the store in memory, broadcast at the second attempt.
use psy_doge_solana_cli.Common.{
  ℕ, ◌≡◌, refl, List, [], ◌∷◌, true, false, eqb, if◌then◌else◌, none, some, ok, err, leb, ◌&&◌,
}
use psy_doge_solana_cli.Withdrawal.Errors.{store_error}
use psy_doge_solana_cli.Wormhole.Tx.{is_empty}
use psy_doge_solana_cli.Withdrawal.Store.{
  OperatorStatus, CustodyReservationStatus, CustodyUtxoStatus, CustodyUtxo, CustodyReservation,
  SnapshotBatch, WithdrawalRequest, is_text, is_number,
}
use psy_doge_solana_cli.Withdrawal.Graph.{
  PersistedWithdrawalGraph, load_persisted_withdrawal_graph, find_reservation, find_process,
  find_transaction, check_mappings, same_batch, any_mapping_drifted, reservation_drifted,
  utxo_drifted, any,
}
use psy_doge_solana_cli.Withdrawal.Graph.Linked.{IsLinked, load_persisted_withdrawal_graph-IsLinked}
use psy_doge_solana_cli.Withdrawal.Transition.{
  complete_broadcast_transition, mark_reservation, set_requests,
}
use psy_doge_solana_cli.Withdrawal.Transition.Broadcasts.{broadcast_rows}
use psy_doge_solana_cli.Withdrawal.Transition.Recovers.{last, again, Attempts-broadcast_rows}
use psy_doge_solana_cli.Examples.Given.{repeat}
use psy_doge_solana_cli.Examples.Memory.{Memory, marked, memory, memory-Works}

abbrev signature : List ℕ
signature = 1 ∷ 2 ∷ []

abbrev pub held_utxo : CustodyUtxo
held_utxo = record {
  txid = repeat 32 0x11;
  vout = 3;
  amount_sats = 1_500_000;
  script_pubkey_hex = [];
  custody_address = [];
  key_reference = [];
  confirmation_block_hash = none;
  confirmation_height = none;
  confirmations = 6;
  leaf_index = 0;
  status = CustodyUtxoStatus.reserved;
  reservation_id = some (7 ∷ []);
  spend_txid = none;
  source_deposit_txid = none;
  source_solana_signature = none;
  spend_request_index = some 4;
  spend_process_signature = some signature;
  original_recipient_address = repeat 32 0;
}

abbrev pub reservation : CustodyReservation
reservation = record {
  reservation_id = 7 ∷ [];
  required_amount_sats = 1_100_000;
  selected_amount_sats = 1_500_000;
  status = CustodyReservationStatus.reserved;
  spend_txid = none;
  request_index = some 4;
  process_solana_signature = some signature;
  utxos = held_utxo ∷ [];
}

abbrev pub batch : SnapshotBatch
batch = record {
  solana_signature = signature;
  solana_slot = 1;
  block_time = none;
  request_start_index = 4;
  request_end_index = 5;
  snapshot_root = repeat 32 4;
  payload = [];
  payload_hash = [];
  wormhole_sequence = 1;
  solana_transaction = none;
  unsigned_transaction = none;
  reservation_id = some (7 ∷ []);
  status = OperatorStatus.signed;
}

abbrev pub graph : PersistedWithdrawalGraph
graph = record {
  transaction = record {
    raw_hash = repeat 32 3;
    txid = some (repeat 32 5);
    raw_transaction = some [];
    status = OperatorStatus.signed;
    block_hash = none;
    block_height = none;
    confirmations = 0;
  };
  process = record {
    solana_signature = signature;
    solana_slot = 1;
    block_time = none;
    request_start_index = 4;
    request_end_index = 5;
    snapshot_root = repeat 32 4;
    dogecoin_raw_hash = repeat 32 3;
    return_output_index = 1;
    return_output_amount_sats = 400_000;
    old_spent_txo_root = repeat 32 0;
    new_spent_txo_root = repeat 32 0;
    status = OperatorStatus.signed;
  };
  reservation = reservation;
}

abbrev pub request : WithdrawalRequest
request = record {
  request_index = 4;
  solana_signature = [];
  solana_slot = 1;
  block_time = none;
  user_pubkey = [];
  gross_amount_sats = 1_100_000;
  fee_amount_sats = 100_000;
  net_amount_sats = 1_000_000;
  address_type = 0;
  recipient = repeat 20 0x55;
  status = OperatorStatus.signed;
}

-- The second write fails.
abbrev pub before : Memory
before = record {
  rows = record {
    reservation = λ id. if eqb id (7 ∷ []) then some reservation else none;
    transaction = λ key. if eqb key signature then some graph.transaction else none;
    process = λ key. if eqb key signature then some graph.process else none;
    request = λ index. if (leb index 4 && leb 4 index) then some request else none;
    batch = λ key. if eqb key signature then some batch else none;
  };
  mappings =
      record {
        request_index = 4;
        process_solana_signature = signature;
        dogecoin_txid = repeat 32 5;
      }
      ∷ [];
  fails = false ∷ true ∷ [];
}

is_loaded : load_persisted_withdrawal_graph memory before batch ≡ ok graph
unfolding load_persisted_withdrawal_graph find_reservation find_process find_transaction
    check_mappings same_batch any_mapping_drifted reservation_drifted utxo_drifted any is_text
    is_number is_empty eqb
is_loaded = refl

load_persisted_withdrawal_graph-IsLinked_example : IsLinked memory before batch graph
load_persisted_withdrawal_graph-IsLinked_example =
    load_persisted_withdrawal_graph-IsLinked memory before batch graph is_loaded

-- The store between the attempts, with the reservation marked, and behind them.
between : Memory
unfolding complete_broadcast_transition mark_reservation set_requests
between = (complete_broadcast_transition memory batch graph before).0

first_fails :
    complete_broadcast_transition memory batch graph before ≡ (between, err (store_error []))
unfolding between complete_broadcast_transition mark_reservation set_requests
first_fails = refl

abbrev pub marked_graph : PersistedWithdrawalGraph
marked_graph = record graph { reservation = marked (repeat 32 5) reservation }

is_loaded_again : load_persisted_withdrawal_graph memory between batch ≡ ok marked_graph
unfolding between complete_broadcast_transition mark_reservation set_requests
    load_persisted_withdrawal_graph find_reservation find_process find_transaction check_mappings
    same_batch any_mapping_drifted reservation_drifted utxo_drifted any is_text is_number is_empty
    eqb
is_loaded_again = refl

pub after : Memory
unfolding complete_broadcast_transition mark_reservation set_requests
after = (complete_broadcast_transition memory batch marked_graph between).0

second_succeeds : complete_broadcast_transition memory batch marked_graph between ≡ (after, ok tt)
unfolding after between complete_broadcast_transition mark_reservation set_requests is_text eqb
second_succeeds = refl

Attempts-broadcast_rows_example :
    after.rows ≡ broadcast_rows marked batch (7 ∷ []) (repeat 32 5) (repeat 32 3) before.rows
Attempts-broadcast_rows_example =
    Attempts-broadcast_rows memory (λ m. m.rows) marked memory-Works batch graph (7 ∷ [])
      (repeat 32 5) is_loaded refl refl
      (again graph (store_error []) is_loaded first_fails
        (last marked_graph tt is_loaded_again second_succeeds))
