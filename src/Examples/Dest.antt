-- ===== src/Examples/Dest.antt =====
-- The theorems of the destination handler at a transfer of three bytes.
use cfdp_py.Base.{◌⊎◌, true, arith, ℕ, ◌≡◌, refl, false, none, some, List, [], ◌∷◌, ◌++◌}
use cfdp_py.Base.Int.{pos}
use cfdp_py.Base.Dict
use cfdp_py.Protocol.{
  data_incomplete, MetadataParams, Pdu, file_data, eof, metadata, no_error, modular,
  file_checksum_failure, ignore_error, abandon_transaction, finished, FaultHandlerCode, PduBody,
}
use cfdp_py.Errors.{attribute_error, recursion_error, unretrieved_pdus_to_be_sent}
use cfdp_py.Proc.{returned, raised, run, for_each, skip, ◌>>◌}
use cfdp_py.Mib.{
  get_cfg, DefaultFaultHandlers, default_fault_handlers, get_fault_handler, ignore_cb,
}
use cfdp_py.User.{Env, fault_indication}
use cfdp_py.Dest.State.{
  DestState, CfdpState, receiving_file_data, waiting_for_finished_ack, new_fields, canceled,
  initial_finished,
}
use cfdp_py.Dest.Calls.{
  Call, call_state_machine, call_cancel_request, call_get_next_packet, wait_until, new_handler,
  performs, performs-IsQueueOk,
}
use cfdp_py.Dest.Queue.{IsQueueOk}
use cfdp_py.Dest.Faults.{reset}
use cfdp_py.Dest.Receive.{handle_eof_pdu, verify_unacked}
use cfdp_py.Dest.Start.{start_transaction, idle_packet, handle_waiting_for_missing_metadata}
use cfdp_py.Dest.Machine.{check_inserted_packet, state_machine, handle_positive_ack_procedures}
use cfdp_py.Dest.Checksum.{verify_unacked_reports_twice}
use cfdp_py.Dest.Mismatch.Eof.{handle_eof_pdu-mismatch}
use cfdp_py.Dest.Guards.{state_machine-unretrieved}
use cfdp_py.Dest.Insertion.{accepts_packet, insertion_lem}
use cfdp_py.Proc.Judged.{Judged}
use cfdp_py.Dest.Orphans.{eof_first_loses_checksum}
use cfdp_py.Dest.Leftovers.{start_transaction-leftovers}
use cfdp_py.Dest.Retries.{IsAtLimit, abandon_at_limit_raises, ignored_cancel_recurses}
use cfdp_py.Examples.{an_env, a_conf, a_path, a_remote, a_transaction}

-- The table with one handler for the reached limit of positive acknowledgements.
abbrev on_limit : FaultHandlerCode → DefaultFaultHandlers
on_limit h = record { handler_dict = (1, h) ∷ default_fault_handlers.handler_dict }

abbrev receiver : Env (List ℕ) ℕ
receiver = an_env 2 default_fault_handlers

abbrev three_bytes : List ℕ
three_bytes = 11 ∷ 22 ∷ 33 ∷ []

abbrev pdu_of : PduBody → Pdu
pdu_of body = record { pdu_conf = a_conf; body = body }

abbrev a_metadata : Pdu
a_metadata = pdu_of (
    metadata
      (record {
        closure_requested = false;
        checksum_type = modular;
        file_size = 3;
        source_file_name = some (b'f' ∷ []);
        dest_file_name = some (b'g' ∷ []);
      })
      none)

abbrev some_calls : List Call
some_calls =
    call_state_machine (some a_metadata)
    ∷ call_state_machine (some (pdu_of (file_data 0 three_bytes none)))
    ∷ call_state_machine (some (pdu_of (eof (66 ∷ []) 3 no_error)))
    ∷ call_get_next_packet
    ∷ wait_until 9
    ∷ call_state_machine none
    ∷ call_cancel_request a_transaction
    ∷ []

performs_example : IsQueueOk (performs receiver 3 some_calls (new_handler receiver [] 0))
performs_example = performs-IsQueueOk receiver 3 some_calls [] 0

-- A handler that has received the file and knows its checksum.
abbrev received : (checksum : List ℕ) → DestState (List ℕ) ℕ
received checksum = record (new_handler receiver three_bytes 0) {
  states = record {
    state = CfdpState.busy;
    step = receiving_file_data;
    transaction_id = some a_transaction;
    num_packets_ready = pos 0;
  };
  params = record (new_fields a_conf) {
    transaction_id = some a_transaction;
    remote_cfg = some (a_remote 1);
    checksum_type = modular;
    fp = record {
      progress = 3;
      segment_len = 0;
      crc32 = checksum;
      metadata_only = false;
      file_size = some 3;
      file_name = a_path;
      file_size_eof = some 3;
    };
  };
}

handle_eof_pdu-mismatch_example :
    (handle_eof_pdu receiver (65 ∷ []) 3 no_error (received [])
      ).1.params.finished_params.delivery_code
    ≡ data_incomplete
unfolding run
handle_eof_pdu-mismatch_example =
    handle_eof_pdu-mismatch receiver (65 ∷ []) 3 no_error (received []) refl refl
      (λ sum e. ground arith)

verify_unacked_example :
    let s = received (65 ∷ []) in
    ((verify_unacked receiver s).0 ≡ returned false)
    × ((verify_unacked receiver s).1.indications
        ≡ []
          ++ fault_indication (ignore_cb a_transaction file_checksum_failure 3)
            ∷ fault_indication (ignore_cb a_transaction file_checksum_failure 3)
            ∷ [])
unfolding run get_fault_handler Dict.get
verify_unacked_example =
    verify_unacked_reports_twice receiver (received (65 ∷ [])) a_transaction (a_remote 1) (66 ∷ [])
      refl refl refl refl refl refl

-- The handler with a packet left to send.
abbrev with_packet : DestState (List ℕ) ℕ
with_packet = record (received (66 ∷ [])) {
  pdus_to_be_sent = pdu_of (finished initial_finished) ∷ [];
}

unretrieved_example :
    state_machine receiver 1 none with_packet ≡ (raised unretrieved_pdus_to_be_sent, with_packet)
unretrieved_example =
    state_machine-unretrieved receiver 0 (pdu_of (finished initial_finished)) [] with_packet refl
      refl

eof_first_example :
    ((idle_packet receiver (pdu_of (eof (66 ∷ []) 3 no_error)) (eof (66 ∷ []) 3 no_error)
        >> for_each (a_metadata ∷ []) (λ p. handle_waiting_for_missing_metadata receiver (some p)))
      (new_handler receiver [] 0)).1.params.fp.crc32
    ≡ []
eof_first_example =
    eof_first_loses_checksum receiver (pdu_of (eof (66 ∷ []) 3 no_error)) (66 ∷ []) 3 no_error
      (a_metadata ∷ []) (new_handler receiver [] 0)

-- The handler waits for the acknowledgement of its Finished PDU at the last expiration.
abbrev at_limit : DestState (List ℕ) ℕ
at_limit = record (received (66 ∷ [])) {
  states = record {
    state = CfdpState.busy;
    step = waiting_for_finished_ack;
    transaction_id = some a_transaction;
    num_packets_ready = pos 0;
  };
  params = record (received (66 ∷ [])).params {
    completion_disposition = canceled;
    positive_ack_params = record { ack_timer = some 10; ack_counter = 0 };
  };
  now = 20;
}

at_limit-IsAtLimit :
    (h : FaultHandlerCode)
    → IsAtLimit (an_env 2 (on_limit h)) a_transaction (a_remote 1) 10 at_limit
at_limit-IsAtLimit h = record {
  is_busy = refl;
  waiting = refl;
  no_packets = refl;
  transaction = refl;
  remote = refl;
  timer_set = refl;
  ran_out = refl;
  limit = refl;
}

abandon_example :
    let call =
      handle_positive_ack_procedures (an_env 2 (on_limit abandon_transaction)) skip at_limit in
    (call.0 ≡ raised attribute_error) × (call.1.states.state ≡ CfdpState.idle)
unfolding get_fault_handler Dict.get
abandon_example =
    abandon_at_limit_raises (an_env 2 (on_limit abandon_transaction)) a_transaction (a_remote 1) 10
      skip at_limit (at_limit-IsAtLimit abandon_transaction) refl

recursion_example :
    (state_machine (an_env 2 (on_limit ignore_error)) 1000 none at_limit).0 ≡ raised recursion_error
unfolding get_fault_handler Dict.get
recursion_example =
    ignored_cancel_recurses (an_env 2 (on_limit ignore_error)) a_transaction (a_remote 1) 10 1000
      at_limit (at_limit-IsAtLimit ignore_error) refl refl

-- A handler after a transaction in which a segment was lost.
abbrev with_leftover : DestState (List ℕ) ℕ
with_leftover = record (received (66 ∷ [])) {
  lost_seg_tracker = record { lost_segments = (1, 2) ∷ [] };
}

abbrev some_metadata : MetadataParams
some_metadata = record {
  closure_requested = false;
  checksum_type = modular;
  file_size = 3;
  source_file_name = some (b'f' ∷ []);
  dest_file_name = some (b'g' ∷ []);
}

leftovers_example :
    ((reset receiver >> start_transaction receiver a_metadata some_metadata none)
      with_leftover).1.lost_seg_tracker
    ≡ record { lost_segments = (1, 2) ∷ [] }
leftovers_example = start_transaction-leftovers receiver a_metadata some_metadata none with_leftover

-- Metadata passes the test of a handler that receives a file.
insertion_example :
    let s = received (66 ∷ []) in
    Judged (accepts_packet receiver a_metadata s) (check_inserted_packet receiver a_metadata) s
    × ((accepts_packet receiver a_metadata s ≡ true)
        ⊎ Judged false (state_machine receiver 1 (some a_metadata)) s)
insertion_example = insertion_lem receiver 0 a_metadata (received (66 ∷ []))

metadata_accepted : accepts_packet receiver a_metadata (received (66 ∷ [])) ≡ true
unfolding get_cfg Dict.get
metadata_accepted = refl
