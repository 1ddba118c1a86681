-- ===== src/Source/Machine.antt =====
-- The state machine of src/cfdppy/handler/source.py and its public calls.
use cfdp_py.Base.{
  List, [], ◌∷◌, ℕ, Bool, true, false, not, ◌&&◌, Option, none, some, [], ◌∷◌, ◌==◌, ltb,
  if◌then◌else◌, length,
}
use cfdp_py.Base.Int.{decrement}
use cfdp_py.Protocol.{
  no_error, cancel_request_received, towards_receiver, towards_sender, Direction, TransactionId,
  Pdu, DirectiveType, eof_pdu, finished_pdu, ack_pdu, metadata_pdu, nak_pdu, prompt_pdu,
  keep_alive_pdu, directive_type,
}
use cfdp_py.Errors.{
  assertion_error, attribute_error, unretrieved_pdus_to_be_sent, invalid_pdu_direction,
  invalid_source_id, invalid_destination_id, no_remote_entity_cfg_found,
  invalid_transaction_seq_num, invalid_pdu_for_source_handler, pdu_ignored_for_source,
  ack_mode_packet_invalid_mode, not_waiting_for_finished_pdu, not_waiting_for_ack,
}
use cfdp_py.Proc.{Proc, pure, raise, gets, require, skip, when, ◌>>=◌, ◌>>◌}
use cfdp_py.Request.{PutRequest}
use cfdp_py.Dest.State.{is_idle, is_unacked}
use cfdp_py.Source.State.{
  SourceState, SourceEnv, TransactionStep, transaction_start, sending_metadata, sending_file_data,
  retransmitting, sending_eof, waiting_for_eof_ack, waiting_for_finished, sending_ack_of_finished,
  same_step, transmission_mode, packets_ready, modify_params, set_step,
}
use cfdp_py.Source.State
use cfdp_py.Source.Packets.{prepare_metadata_pdu, prepare_eof_pdu, checksum_calculation}
use cfdp_py.Source.Faults.{notice_of_cancellation_at, handle_eof_sent, notice_of_completion}
use cfdp_py.Source.Send.{sending_file_data_fsm, handle_waiting_for_ack, handle_wait_for_finish}
use cfdp_py.Source.Begin

abbrev pub is_towards_sender : Direction → Bool
is_towards_sender towards_sender = true
is_towards_sender towards_receiver = false

-- The directives for the other handler.
abbrev pub is_for_receiver : DirectiveType → Bool
is_for_receiver metadata_pdu = true
is_for_receiver eof_pdu = true
is_for_receiver prompt_pdu = true
is_for_receiver _ = false

abbrev pub is_keep_alive_or_nak : DirectiveType → Bool
is_keep_alive_or_nak keep_alive_pdu = true
is_keep_alive_or_nak nak_pdu = true
is_keep_alive_or_nak _ = false

abbrev pub is_nak : DirectiveType → Bool
is_nak nak_pdu = true
is_nak _ = false

abbrev is_ack : DirectiveType → Bool
is_ack ack_pdu = true
is_ack _ = false

abbrev is_finished : DirectiveType → Bool
is_finished finished_pdu = true
is_finished _ = false

-- `progress == file_size`, where the size may be None.
abbrev pub is_whole : ℕ → Option ℕ → Bool
is_whole progress none = false
is_whole progress (some size) = progress == size

module _ {F T : Type 0} where
  -- The removal of the first packet of the given queue.
  abbrev pub next_of : List Pdu → Proc (SourceState F T) (Option Pdu)
  next_of [] s = pure none s
  next_of (pdu ∷ pdus) s = pure (some pdu) (record s {
    pdus_to_be_sent = pdus;
    states = record s.states { num_packets_ready = decrement s.states.num_packets_ready };
  })

  unfoldable pub get_next_packet : Proc (SourceState F T) (Option Pdu)
  get_next_packet s = next_of s.pdus_to_be_sent s

  -- What the steps that wait for one directive ignore.
  unfoldable pub check_awaited : DirectiveType → Pdu → Proc (SourceState F T) (Unit {0})
  check_awaited directive pdu = do
    step ← gets (λ s. s.states.step)
    when (same_step step waiting_for_eof_ack && not (is_ack directive))
        (raise (pdu_ignored_for_source not_waiting_for_ack pdu))
    when (same_step step waiting_for_finished && not (is_finished directive))
        (raise (pdu_ignored_for_source not_waiting_for_finished_pdu pdu))

module _ {F T : Type 0} (env : SourceEnv F T) where
  unfoldable pub check_inserted_packet : Pdu → Proc (SourceState F T) (Unit {0})
  check_inserted_packet pdu = do
    let conf = pdu.pdu_conf
    let local_id = env.cfg.local_entity_id
    params ← gets (λ s. s.params)
    when (not (is_towards_sender conf.direction))
        (raise (invalid_pdu_direction towards_sender conf.direction))
    when (not (conf.source_entity_id.value == local_id.value))
        (raise (invalid_source_id local_id conf.source_entity_id))
    remote_cfg ← require (no_remote_entity_cfg_found conf.dest_entity_id) params.remote_cfg
    when (not (conf.dest_entity_id.value == remote_cfg.entity_id.value))
        (raise (invalid_destination_id remote_cfg.entity_id conf.dest_entity_id))
    when (not (conf.transaction_seq_num.value == params.pdu_conf.transaction_seq_num.value)) (
        raise (
          invalid_transaction_seq_num params.pdu_conf.transaction_seq_num conf.transaction_seq_num))
    directive ← require attribute_error (directive_type pdu.body)
    when (is_for_receiver directive) (raise (invalid_pdu_for_source_handler pdu))
    when (is_unacked (Option.some params.pdu_conf.trans_mode) && is_keep_alive_or_nak directive)
        (raise (pdu_ignored_for_source ack_mode_packet_invalid_mode pdu))
    when (not (is_nak directive)) (check_awaited directive pdu)

  -- `TransactionStep == CfdpState.IDLE` compares members of two enumerations, which are never equal.
  abbrev step_is_cfdp_idle : TransactionStep → Bool
  step_is_cfdp_idle step = false

  unfoldable pub cancel_current : Proc (SourceState F T) Bool
  cancel_current = do notice_of_cancellation_at env cancel_request_received; pure true

  abbrev pub cancel_if_same : TransactionId → Option TransactionId → Proc (SourceState F T) Bool
  cancel_if_same transaction_id none = pure false
  cancel_if_same transaction_id (some id) =
      if env.same_transaction transaction_id id then cancel_current else pure false

  -- Whether the current transfer was cancelled.
  unfoldable pub cancel_request : TransactionId → Proc (SourceState F T) Bool
  cancel_request transaction_id = do
    s ← gets (λ s. s)
    if step_is_cfdp_idle s.states.step
        then pure false
        else if packets_ready s
        then raise unretrieved_pdus_to_be_sent
        else cancel_if_same transaction_id s.params.transaction_id

  unfoldable pub handle_file_data_sent : Proc (SourceState F T) (Unit {0})
  handle_file_data_sent = do
    fp ← gets (λ s. s.params.fp)
    when (is_whole fp.progress fp.file_size)
        do modify_params (λ p. record p { cond_code_eof = some no_error }); set_step sending_eof

  unfoldable pub resume_before_retransmission : Proc (SourceState F T) (Unit {0})
  resume_before_retransmission = do
    params ← gets (λ s. s.params)
    step ← require assertion_error params.ack_params.step_before_retransmission
    set_step step

  abbrev pub advance_from : TransactionStep → Proc (SourceState F T) (Unit {0})
  advance_from sending_metadata = set_step sending_file_data
  advance_from retransmitting = resume_before_retransmission
  advance_from sending_file_data = handle_file_data_sent
  advance_from sending_ack_of_finished = set_step State.notice_of_completion
  advance_from _ = skip

  unfoldable pub fsm_advancement_after_packets_were_sent : Proc (SourceState F T) (Unit {0})
  fsm_advancement_after_packets_were_sent = do
    s ← gets (λ s. s)
    when (ltb 0 (length s.pdus_to_be_sent)) (raise unretrieved_pdus_to_be_sent)
    advance_from s.states.step

  -- The handler of a step, run only in that step.
  unfoldable pub in_step :
      TransactionStep → Proc (SourceState F T) (Unit {0}) → Proc (SourceState F T) (Unit {0})
  in_step step handler = do
    current ← gets (λ s. s.states.step)
    when (same_step current step) handler

  unfoldable pub send_eof : Proc (SourceState F T) (Unit {0})
  send_eof = do
    params ← gets (λ s. s.params)
    checksum ← checksum_calculation env params.fp.file_size
    prepare_eof_pdu env checksum
    handle_eof_sent env false

  -- The steps after the file data.
  unfoldable pub later_steps : Option Pdu → Proc (SourceState F T) (Unit {0})
  later_steps packet = do
    in_step sending_eof send_eof
    in_step waiting_for_eof_ack (handle_waiting_for_ack env packet)
    in_step waiting_for_finished (handle_wait_for_finish env packet)
    in_step State.notice_of_completion (notice_of_completion env)

  unfoldable pub file_data_step : Option Pdu → Proc (SourceState F T) (Unit {0})
  file_data_step packet = do
    step ← gets (λ s. s.states.step)
    return ←
        (if same_step step sending_file_data then sending_file_data_fsm env packet else pure false)
    if return then skip else later_steps packet

  unfoldable pub begin_transaction : PutRequest → Proc (SourceState F T) (Unit {0})
  begin_transaction r = do
    in_step TransactionStep.idle (set_step transaction_start)
    in_step transaction_start do Begin.transaction_start env r; set_step sending_metadata

  unfoldable pub run_steps : PutRequest → Option Pdu → Proc (SourceState F T) (Unit {0})
  run_steps r packet = do
    begin_transaction r
    step ← gets (λ s. s.states.step)
    if same_step step sending_metadata then prepare_metadata_pdu else file_data_step packet

  abbrev pub run_if_requested : Option PutRequest → Option Pdu → Proc (SourceState F T) (Unit {0})
  run_if_requested none packet = skip
  run_if_requested (some r) packet = run_steps r packet

  unfoldable pub fsm_non_idle : Option Pdu → Proc (SourceState F T) (Unit {0})
  fsm_non_idle packet = do
    fsm_advancement_after_packets_were_sent
    s ← gets (λ s. s)
    run_if_requested s.put_req packet

  abbrev pub check_packet : Option Pdu → Proc (SourceState F T) (Unit {0})
  check_packet none = skip
  check_packet (some pdu) = check_inserted_packet pdu

  unfoldable pub state_machine : Option Pdu → Proc (SourceState F T) (Unit {0})
  state_machine packet = do
    check_packet packet
    s ← gets (λ s. s)
    if is_idle s.states.state then skip else fsm_non_idle packet
