-- ===== src/Dest/Machine.antt =====
-- The state machine of src/cfdppy/handler/dest.py and its public calls.
use cfdp_py.Base.{
  List, [], ◌∷◌, ℕ, zero, suc, ◌+◌, Bool, true, false, not, ◌&&◌, ◌||◌, Option, none, some, [], ◌∷◌,
  ◌==◌, leb, ltb, if◌then◌else◌, length,
}
use cfdp_py.Base.Int.{decrement}
use cfdp_py.FilePath.{is_some}
use cfdp_py.Protocol.{
  positive_ack_limit_reached, cancel_request_received, towards_receiver, towards_sender, Direction,
  acknowledged, unacknowledged, TransmissionMode, TransactionId, PduBody, Pdu, file_data, eof, ack,
  metadata, prompt,
}
use cfdp_py.Errors.{
  assertion_error, attribute_error, recursion_error, unretrieved_pdus_to_be_sent,
  invalid_pdu_direction, invalid_destination_id, no_remote_entity_cfg_found,
  invalid_pdu_for_dest_handler, pdu_ignored_for_dest, first_packet_not_metadata_pdu,
  invalid_mode_for_acked_mode_packet, first_packet_in_acked_mode_not_metadata_not_eof_not_fd,
}
use cfdp_py.Proc.{Proc, pure, raise, gets, require, skip, when, ◌>>=◌, ◌>>◌}
use cfdp_py.Mib.{get_cfg}
use cfdp_py.User.{Env}
use cfdp_py.Routing.{PacketDestination, source_handler, dest_handler, get_packet_destination}
use cfdp_py.Tracker.{num_lost_segments}
use cfdp_py.Dest.State.{
  DestState, is_idle, is_busy, is_canceled, TransactionStep, transfer_completion,
  sending_eof_ack_pdu, sending_finished_pdu, waiting_for_finished_ack, waiting_for_metadata,
  waiting_for_missing_data, receiving_file_data, recv_file_data_with_check_limit_handling,
  same_step, transmission_mode, is_acked, is_unacked, packets_ready, modify_params, set_step,
}
use cfdp_py.Dest.Faults.{
  of_outcome, declare_fault, checksum_verify, notice_of_completion, prepare_finished_pdu,
  reset_internal, trigger_notice_of_completion_canceled,
}
use cfdp_py.Dest.Segments.{deferred_lost_segment_handling, start_deferred_lost_segment_handling}
use cfdp_py.Dest.Receive.{handle_fd_pdu, handle_fd_or_eof_pdu, check_limit_handling}
use cfdp_py.Dest.Start.{idle_fsm, handle_waiting_for_missing_metadata, reset_nak_activity_if_active}

abbrev pub is_source_handler : PacketDestination → Bool
is_source_handler source_handler = true
is_source_handler dest_handler = false

abbrev pub is_towards_receiver : Direction → Bool
is_towards_receiver towards_receiver = true
is_towards_receiver towards_sender = false

-- A first packet that no transaction can start with.
abbrev pub is_metadata : PduBody → Bool
is_metadata (metadata m o) = true
is_metadata _ = false

abbrev pub is_ack_or_prompt : PduBody → Bool
is_ack_or_prompt (ack d c t) = true
is_ack_or_prompt prompt = true
is_ack_or_prompt _ = false

abbrev pub is_ack : Option Pdu → Bool
is_ack none = false
is_ack (some pdu) = elim pdu.body [ ack d c t ↦ true | _ ↦ false ]

module _ {F T : Type 0} where
  abbrev pub refuse_first_directive : PduBody → Pdu → Proc (DestState F T) (Unit {0})
  refuse_first_directive (file_data o d m) pdu = skip
  refuse_first_directive (eof c n k) pdu = skip
  refuse_first_directive _ pdu =
      raise (pdu_ignored_for_dest first_packet_in_acked_mode_not_metadata_not_eof_not_fd pdu)

  abbrev pub first_packet_not_metadata : TransmissionMode → Pdu → Proc (DestState F T) (Unit {0})
  first_packet_not_metadata unacknowledged pdu =
      raise (pdu_ignored_for_dest first_packet_not_metadata_pdu pdu)
  first_packet_not_metadata acknowledged pdu = refuse_first_directive pdu.body pdu

  unfoldable pub handle_first_packet_not_metadata_pdu : Pdu → Proc (DestState F T) (Unit {0})
  handle_first_packet_not_metadata_pdu pdu = first_packet_not_metadata pdu.pdu_conf.trans_mode pdu

  -- The removal of the first packet of the given queue.
  abbrev pub next_of : List Pdu → Proc (DestState F T) (Option Pdu)
  next_of [] s = pure none s
  next_of (pdu ∷ pdus) s = pure (some pdu) (record s {
    pdus_to_be_sent = pdus;
    states = record s.states { num_packets_ready = decrement s.states.num_packets_ready };
  })

  unfoldable pub get_next_packet : Proc (DestState F T) (Option Pdu)
  get_next_packet s = next_of s.pdus_to_be_sent s

module _ {F T : Type 0} (env : Env F T) where
  unfoldable pub check_inserted_packet : Pdu → Proc (DestState F T) (Unit {0})
  check_inserted_packet pdu = do
    let conf = pdu.pdu_conf
    let local_id = env.cfg.local_entity_id
    when (not (is_towards_receiver conf.direction))
        (raise (invalid_pdu_direction towards_receiver conf.direction))
    when (not (conf.dest_entity_id.value == local_id.value))
        (raise (invalid_destination_id local_id conf.dest_entity_id))
    when (not (is_some (get_cfg conf.source_entity_id env.remote_cfg_table)))
        (raise (no_remote_entity_cfg_found conf.dest_entity_id))
    destination ← of_outcome (get_packet_destination pdu.body)
    when (is_source_handler destination) (raise (invalid_pdu_for_dest_handler pdu))
    s ← gets (λ s. s)
    when (is_idle s.states.state && not (is_metadata pdu.body))
        (handle_first_packet_not_metadata_pdu pdu)
    when (is_ack_or_prompt pdu.body && (is_busy s.states.state && is_unacked (transmission_mode s)))
        (raise (pdu_ignored_for_dest invalid_mode_for_acked_mode_packet pdu))

  unfoldable pub cancel_current : Proc (DestState F T) Bool
  cancel_current = do
    trigger_notice_of_completion_canceled cancel_request_received env.cfg.local_entity_id
    set_step transfer_completion
    pure true

  abbrev pub cancel_if_same : TransactionId → Option TransactionId → Proc (DestState F T) Bool
  cancel_if_same transaction_id none = pure false
  cancel_if_same transaction_id (some id) =
      if env.same_transaction transaction_id id then cancel_current else pure false

  -- Whether the current transfer was cancelled.
  unfoldable pub cancel_request : TransactionId → Proc (DestState F T) Bool
  cancel_request transaction_id = do
    s ← gets (λ s. s)
    if is_idle s.states.state
        then pure false
        else if packets_ready s
        then raise unretrieved_pdus_to_be_sent
        else cancel_if_same transaction_id s.params.transaction_id

  unfoldable pub reset : Proc (DestState F T) (Unit {0})
  reset = reset_internal env false

  -- After the EOF acknowledgement was sent.
  unfoldable pub eof_ack_sent : Proc (DestState F T) (Unit {0})
  eof_ack_sent = do
    s ← gets (λ s. s)
    if ltb 0 (num_lost_segments s.lost_seg_tracker) || s.params.acked_params.metadata_missing
        then start_deferred_lost_segment_handling env
        else do
          when (not (is_canceled s.params.completion_disposition)) do checksum_verify env; skip
          set_step transfer_completion

  unfoldable pub fsm_advancement_after_packets_were_sent : Proc (DestState F T) (Unit {0})
  fsm_advancement_after_packets_were_sent = do
    s ← gets (λ s. s)
    when (ltb 0 (length s.pdus_to_be_sent)) (raise unretrieved_pdus_to_be_sent)
    when (same_step s.states.step sending_eof_ack_pdu) eof_ack_sent

  unfoldable pub handle_transfer_completion : Proc (DestState F T) (Unit {0})
  handle_transfer_completion = do
    notice_of_completion env
    s ← gets (λ s. s)
    let mode = transmission_mode s
    if is_unacked mode && s.params.closure_requested || is_acked mode
        then set_step sending_finished_pdu
        else reset_internal env false

  unfoldable pub start_positive_ack_procedure : Proc (DestState F T) (Unit {0})
  start_positive_ack_procedure = do
    s ← gets (λ s. s)
    remote_cfg ← require assertion_error s.params.remote_cfg
    modify_params (λ p. record p {
      positive_ack_params = record {
        ack_timer = some (env.from_seconds remote_cfg.positive_ack_timer_interval_seconds s.now);
        ack_counter = 0;
      };
    })

  unfoldable pub handle_finished_pdu_sent : Proc (DestState F T) (Unit {0})
  handle_finished_pdu_sent = do
    s ← gets (λ s. s)
    if is_busy s.states.state && is_acked (transmission_mode s)
        then (do start_positive_ack_procedure; set_step waiting_for_finished_ack)
        else reset_internal env false

  -- The timer is restarted and the Finished PDU sent once more. A fault that abandons the
  -- transaction leaves no timer.
  unfoldable pub send_finished_again : Proc (DestState F T) (Unit {0})
  send_finished_again = do
    s ← gets (λ s. s)
    timer ← require attribute_error s.params.positive_ack_params.ack_timer
    modify_params (λ p. record p {
      positive_ack_params = record {
        ack_timer = some (env.restart timer s.now);
        ack_counter = p.positive_ack_params.ack_counter + 1;
      };
    })
    prepare_finished_pdu env

  -- At the limit a fault is declared; where it cancels, `again` calls the state machine.
  unfoldable pub positive_ack_limit :
      (again : Proc (DestState F T) (Unit {0})) → Proc (DestState F T) (Unit {0})
  positive_ack_limit again = do
    declare_fault env positive_ack_limit_reached
    disposition ← gets (λ s. s.params.completion_disposition)
    if is_canceled disposition then again else send_finished_again

  unfoldable pub handle_positive_ack_procedures :
      (again : Proc (DestState F T) (Unit {0})) → Proc (DestState F T) (Unit {0})
  handle_positive_ack_procedures again = do
    s ← gets (λ s. s)
    timer ← require assertion_error s.params.positive_ack_params.ack_timer
    remote_cfg ← require assertion_error s.params.remote_cfg
    when (env.timed_out timer s.now) (
        if leb remote_cfg.positive_ack_timer_expiration_limit
          (s.params.positive_ack_params.ack_counter + 1)
        then positive_ack_limit again
        else send_finished_again)

  unfoldable pub handle_waiting_for_finished_ack :
      (again : Proc (DestState F T) (Unit {0})) → Option Pdu → Proc (DestState F T) (Unit {0})
  handle_waiting_for_finished_ack again packet =
      if is_ack packet then reset_internal env false else handle_positive_ack_procedures again

  -- The handler of a step, run only in that step.
  unfoldable pub in_step :
      TransactionStep → Proc (DestState F T) (Unit {0}) → Proc (DestState F T) (Unit {0})
  in_step step handler = do
    current ← gets (λ s. s.states.step)
    when (same_step current step) handler

  abbrev pub packet_or_skip :
      (PduBody → Proc (DestState F T) (Unit {0})) → Option Pdu → Proc (DestState F T) (Unit {0})
  packet_or_skip handler none = skip
  packet_or_skip handler (some pdu) = handler pdu.body

  abbrev pub missing_data_packet : PduBody → Proc (DestState F T) (Unit {0})
  missing_data_packet (file_data offset bytes m) = do
    handle_fd_pdu env offset bytes m
    reset_nak_activity_if_active env
  missing_data_packet _ = skip

  abbrev pub is_receiving : TransactionStep → Bool
  is_receiving step =
      same_step step receiving_file_data || same_step step recv_file_data_with_check_limit_handling

  unfoldable pub receive_packet : Option Pdu → Proc (DestState F T) (Unit {0})
  receive_packet packet = do
    step ← gets (λ s. s.states.step)
    when (is_receiving step) (packet_or_skip (handle_fd_or_eof_pdu env) packet)

  -- `__non_idle_fsm`.
  unfoldable pub non_idle_fsm :
      (again : Proc (DestState F T) (Unit {0})) → Option Pdu → Proc (DestState F T) (Unit {0})
  non_idle_fsm again packet = do
    fsm_advancement_after_packets_were_sent
    receive_packet packet
    in_step waiting_for_metadata
        do handle_waiting_for_missing_metadata env packet; deferred_lost_segment_handling env
    in_step recv_file_data_with_check_limit_handling (check_limit_handling env)
    in_step waiting_for_missing_data
        do packet_or_skip missing_data_packet packet; deferred_lost_segment_handling env
    in_step transfer_completion handle_transfer_completion
    in_step sending_finished_pdu do prepare_finished_pdu env; handle_finished_pdu_sent
    in_step waiting_for_finished_ack (handle_waiting_for_finished_ack again packet)

  unfoldable pub check_packet : Option Pdu → Proc (DestState F T) (Unit {0})
  check_packet none = skip
  check_packet (some pdu) = check_inserted_packet pdu

  unfoldable pub run_if_busy :
      (again : Proc (DestState F T) (Unit {0})) → Option Pdu → Proc (DestState F T) (Unit {0})
  run_if_busy again packet = do
    state ← gets (λ s. s.states.state)
    when (is_busy state) (non_idle_fsm again packet)

  -- One call of the state machine, with the procedure that a nested call runs.
  unfoldable pub state_machine_call :
      (again : Proc (DestState F T) (Unit {0})) → Option Pdu → Proc (DestState F T) (Unit {0})
  state_machine_call again packet = do
    check_packet packet
    state ← gets (λ s. s.states.state)
    if is_idle state
        then (do
          idle_fsm env packet
          ready ← gets packets_ready
          when (not ready) (run_if_busy again packet))
        else run_if_busy again packet

  -- `state_machine` calls itself from the positive acknowledgement procedure; `depth` is the number
  -- of nested calls that the interpreter allows.
  unfoldable pub state_machine : (depth : ℕ) → Option Pdu → Proc (DestState F T) (Unit {0})
  state_machine zero packet = raise recursion_error
  state_machine (suc depth) packet = state_machine_call (state_machine depth none) packet
