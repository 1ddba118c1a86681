-- ===== src/Examples/Source.antt =====
-- The theorems of the source handler at a file of five bytes, sent in segments of two.
use cfdp_py.Source.Machine.{state_machine, check_inserted_packet, get_next_packet}
use cfdp_py.Base.{
  ◌⊎◌, replicate, ℕ, ◌+◌, ◌≡◌, refl, inl, true, false, none, some, List, [], ◌∷◌, arith, take, drop,
}
use cfdp_py.Base.Int.{pos, negsuc}
use cfdp_py.Base.Dict
use cfdp_py.Protocol.{
  active, no_error, eof_pdu, ack, towards_sender, Pdu, unacknowledged, file_data,
}
use cfdp_py.Errors.{out_of_rounds, type_error}
use cfdp_py.Proc.{returned, raised, run, ◌>>◌}
use cfdp_py.User.{Vfs}
use cfdp_py.Mib.{default_fault_handlers, get_cfg}
use cfdp_py.Request.{PutRequest}
use cfdp_py.Request
use cfdp_py.Dest.State.{CfdpState}
use cfdp_py.Source.State.{
  SourceState, SourceEnv, TransactionStep, sending_file_data, new_fields, modify_params, set_state,
  on_store,
}
use cfdp_py.Source.Faults.{reset_internal}
use cfdp_py.Source.Begin.{
  put_request_call, accept_request, transaction_start, check_source_file, setup_transmission_params,
}
use cfdp_py.Source.Send.{resend_chunks, resend_segment}
use cfdp_py.Source.Insertion.{accepts_packet, insertion_source_lem}
use cfdp_py.Proc.Judged.{Judged}
use cfdp_py.Source.Queue.{IsRouted}
use cfdp_py.Source.Calls.{
  Call, call_put_request, call_state_machine, call_cancel_request, call_get_next_packet, call_reset,
  wait_until, new_handler, performs, performs-IsRouted,
}
use cfdp_py.Source.Chunks.{
  resend_chunks-endless, chunk, Tiles, ReadsFile, queued, resend_segment-Tiles,
}
use cfdp_py.Source.Transfer.{IsSending, transmit, whole, transmit-Tiles}
use cfdp_py.Source.Requests.{put_request-count, transaction_start-empty_again}
use cfdp_py.Examples.{env_on, one_file, a_conf, a_path, a_remote, a_transaction, id_of}

abbrev pub sender_on : {F : Type 0} → Vfs F → SourceEnv F ℕ
sender_on vfs = record {
  env = env_on vfs 1 default_fault_handlers;
  seq_num = λ n. n;
  next_seq_count = λ n. n + 1;
  max_bit_width = 8;
}

abbrev pub sender : SourceEnv (List ℕ) ℕ
sender = sender_on one_file

abbrev pub a_request : PutRequest
a_request = record {
  destination_id = id_of 2;
  source_file = some a_path;
  dest_file = some a_path;
  trans_mode = some unacknowledged;
  closure_requested = none;
  seg_ctrl = none;
  fault_handler_overrides = none;
  flow_label_tlv = none;
  msgs_to_user = none;
  fs_requests = none;
}

abbrev pub five_bytes : List ℕ
five_bytes = 11 ∷ 22 ∷ 33 ∷ 44 ∷ 55 ∷ []

abbrev pub of_file : List ℕ → (offset read_len : ℕ) → List ℕ
of_file bytes offset read_len = take read_len (drop offset bytes)

-- A handler in the file data phase, with some of the file sent.
abbrev pub sending_from : ℕ → SourceState (List ℕ) ℕ
sending_from progress = record {
  states = record { state = CfdpState.busy; step = sending_file_data; num_packets_ready = pos 0 };
  params = record (new_fields a_conf (id_of 1)) {
    transaction_id = some a_transaction;
    remote_cfg = some (a_remote 2);
    fp = record {
      progress = progress;
      segment_len = 2;
      metadata_only = false;
      file_size = some 5;
      empty_file = false;
    };
  };
  put_req = some a_request;
  pdus_to_be_sent = [];
  store = five_bytes;
  indications = [];
  now = 0;
  seq_count = 0;
}

pub sending-ReadsFile :
    (progress : ℕ) → ReadsFile sender (of_file five_bytes) (sending_from progress)
unfolding run
sending-ReadsFile progress = record {
  request = a_request;
  file = a_path;
  at_hand = refl;
  of_request = refl;
  reads = λ offset read_len. refl;
}

pub five_bytes-IsSending : IsSending sender (of_file five_bytes) 5 1 (sending_from 0)
five_bytes-IsSending = record {
  is_busy = refl;
  in_step = refl;
  none_ready = refl;
  none_queued = refl;
  reads_file = sending-ReadsFile 0;
  has_file = refl;
  size_known = refl;
  segments = refl;
  fits = inl refl;
  within = omega arith;
}

transmit_example :
    (pdus : List Pdu) × (transmit sender 5 (sending_from 0)
      ≡ (returned pdus, whole sender (of_file five_bytes) 5 1 (sending_from 0)))
    × Tiles (of_file five_bytes) 2 0 5 pdus
transmit_example =
    transmit-Tiles sender (of_file five_bytes) 5 1 5 (sending_from 0) five_bytes-IsSending
      (omega arith)

resend_segment_example :
    (pdus : List Pdu) × (resend_segment sender 1 4 (sending_from 4)
      ≡ (returned tt, queued pdus (sending_from 4)))
    × Tiles (of_file five_bytes) 2 1 4 pdus
resend_segment_example =
    resend_segment-Tiles sender (of_file five_bytes) 1 4 1 (sending_from 4) (sending-ReadsFile 4)
      refl (omega arith) (omega arith)

resend_chunks_example : resend_chunks sender 3 0 1 4 (sending_from 4) ≡ (
  raised out_of_rounds,
  queued (replicate 3 (chunk sender (of_file five_bytes) (sending_from 4) 1 0)) (sending_from 4),
)
resend_chunks_example =
    resend_chunks-endless sender (of_file five_bytes) 3 1 3 (sending_from 4) (sending-ReadsFile 4)

-- A handler between two transactions, with a packet of the first one left.
abbrev with_packet : SourceState (List ℕ) ℕ
with_packet = record (sending_from 5) {
  states = record {
    state = CfdpState.idle;
    step = TransactionStep.idle;
    num_packets_ready = pos 1;
  };
  pdus_to_be_sent = record { pdu_conf = a_conf; body = file_data 4 (55 ∷ []) none } ∷ [];
}

accepts : (accept_request sender a_request with_packet).0 ≡ returned true
unfolding accept_request check_source_file setup_transmission_params run modify_params set_state
    on_store get_cfg Dict.get
accepts = refl

put_request_count_example :
    ((accept_request sender a_request with_packet).1.states.num_packets_ready ≡ pos 0)
    × ((get_next_packet (accept_request sender a_request with_packet).1).0
        ≡ returned (some (record { pdu_conf = a_conf; body = file_data 4 (55 ∷ []) none })))
    × ((get_next_packet (accept_request sender a_request with_packet).1).1.states.num_packets_ready
        ≡ negsuc 0)
put_request_count_example =
    put_request-count sender a_request
      (record { pdu_conf = a_conf; body = file_data 4 (55 ∷ []) none }) [] with_packet refl accepts

abbrev with_empty_file : SourceState (List ℕ) ℕ
with_empty_file = record with_packet { store = [] }

empty_again_example :
    let requested =
      (reset_internal sender false >> put_request_call sender a_request) with_empty_file in
    (requested.0 ≡ returned true)
    × ((transaction_start sender a_request requested.1).0 ≡ raised type_error)
unfolding run get_cfg Dict.get Request.metadata_only
empty_again_example =
    transaction_start-empty_again sender false a_request (a_remote 2) a_path with_empty_file [] []
      [] refl refl refl refl refl refl

abbrev some_calls : List Call
some_calls =
    call_put_request a_request
    ∷ call_state_machine none
    ∷ call_get_next_packet
    ∷ call_state_machine none
    ∷ wait_until 4
    ∷ call_cancel_request a_transaction
    ∷ call_reset
    ∷ []

performs_source_example : IsRouted (performs sender some_calls (new_handler sender five_bytes 0 0))
performs_source_example = performs-IsRouted sender some_calls five_bytes 0 0

abbrev an_ack : Pdu
an_ack = record {
  pdu_conf = record a_conf { direction = towards_sender };
  body = ack eof_pdu no_error active;
}

insertion_source_example :
    let s = sending_from 5 in
    Judged (accepts_packet sender an_ack s) (check_inserted_packet sender an_ack) s
    × ((accepts_packet sender an_ack s ≡ true)
        ⊎ Judged false (state_machine sender (some an_ack)) s)
insertion_source_example = insertion_source_lem sender an_ack (sending_from 5)

ack_accepted : accepts_packet sender an_ack (sending_from 5) ≡ true
ack_accepted = refl
