-- ===== src/Source/Send.antt =====
-- Sending file data and serving NAK requests in src/cfdppy/handler/source.py.
use cfdp_py.Base.{
  ℕ, zero, suc, ◌+◌, ◌-◌, min, Bool, true, false, ◌&&◌, Option, none, some, List, ◌==◌, ltb,
  if◌then◌else◌,
}
use cfdp_py.Protocol.{
  no_error, check_limit_reached, FinishedParams, DirectiveType, eof_pdu, Pdu, nak, ack, finished,
}
use cfdp_py.Errors.{type_error, invalid_nak_pdu, out_of_rounds}
use cfdp_py.Proc.{Proc, pure, raise, gets, skip, when, for_each, ◌>>=◌, ◌>>◌}
use cfdp_py.Dest.State.{is_acked}
use cfdp_py.Source.State.{
  SourceState, SourceEnv, TransactionStep, retransmitting, sending_eof, waiting_for_finished,
  sending_ack_of_finished, transmission_mode, modify_params, set_step,
}
use cfdp_py.Source.State
use cfdp_py.Source.Packets.{
  prepare_metadata_pdu, prepare_file_data_pdu, prepare_progressing_file_data_pdu,
  prepare_finished_ack_packet,
}
use cfdp_py.Source.Faults.{declare_fault, handle_positive_ack_procedures}

module _ {F T : Type 0} (env : SourceEnv F T) where
  -- The `while` loop of `_handle_segment_req`, with a bound on its rounds.
  unfoldable pub resend_chunks :
      (rounds segment_len current_offset missing_chunk_len : ℕ) → Proc (SourceState F T) (Unit {0})
  resend_chunks rounds segment_len current_offset zero = skip
  resend_chunks zero segment_len current_offset (suc missing) = raise out_of_rounds
  resend_chunks (suc rounds) segment_len current_offset (suc missing) = do
    let chunk_size = min (suc missing) segment_len
    prepare_file_data_pdu env current_offset chunk_size
    resend_chunks rounds segment_len (current_offset + chunk_size) (suc missing - chunk_size)

  -- The file data branch; a chunk has at least one byte, so the length bounds the rounds.
  unfoldable pub resend_segment : ℕ → ℕ → Proc (SourceState F T) (Unit {0})
  resend_segment start end = do
    when (ltb end start) (raise invalid_nak_pdu)
    fp ← gets (λ s. s.params.fp)
    when (ltb fp.progress start) (raise invalid_nak_pdu)
    resend_chunks (end - start) fp.segment_len start (end - start)

  unfoldable pub handle_segment_req : ℕ × ℕ → Proc (SourceState F T) (Unit {0})
  handle_segment_req (start, end) =
      if start == 0 && end == 0 then prepare_metadata_pdu else resend_segment start end

  unfoldable pub retransmit : List (ℕ × ℕ) → Proc (SourceState F T) (Unit {0})
  retransmit segment_requests = do
    for_each segment_requests handle_segment_req
    step ← gets (λ s. s.states.step)
    modify_params (λ p. record p { ack_params = record { step_before_retransmission = some step } })
    set_step retransmitting

  -- The requests of a NAK packet.
  abbrev pub requests_of : Option Pdu → Option (List (ℕ × ℕ))
  requests_of none = none
  requests_of (some pdu) = elim pdu.body [ nak a b requests ↦ some requests | _ ↦ none ]

  abbrev pub retransmit_if : Option (List (ℕ × ℕ)) → Proc (SourceState F T) Bool
  retransmit_if none = pure false
  retransmit_if (some requests) = do retransmit requests; pure true

  -- `__handle_retransmission`: whether re-transmission is active.
  unfoldable pub handle_retransmission : Option Pdu → Proc (SourceState F T) Bool
  handle_retransmission packet = retransmit_if (requests_of packet)

  unfoldable pub handle_retransmission_if_acked : Option Pdu → Proc (SourceState F T) Bool
  handle_retransmission_if_acked packet = do
    mode ← gets transmission_mode
    if is_acked mode then handle_retransmission packet else pure false

  -- The step after the last file data packet, or without file data.
  unfoldable pub end_of_file_data : Proc (SourceState F T) (Unit {0})
  end_of_file_data = do
    params ← gets (λ s. s.params)
    if params.fp.empty_file
        then (do
          modify_params (λ p. record p { cond_code_eof = some no_error })
          set_step sending_eof)
        else when params.fp.metadata_only (
            set_step (
              if params.closure_requested
              then waiting_for_finished
              else State.notice_of_completion))

  -- Whether file data is left; a size of None cannot be compared.
  abbrev pub file_data_left : Bool → ℕ → Option ℕ → Proc (SourceState F T) (Option ℕ)
  file_data_left true progress size = pure none
  file_data_left false progress none = raise type_error
  file_data_left false progress (some size) = pure (if ltb progress size then some size else none)

  abbrev pub send_or_end : Option ℕ → Proc (SourceState F T) Bool
  send_or_end (some size) = do prepare_progressing_file_data_pdu env size; pure true
  send_or_end none = do end_of_file_data; pure false

  unfoldable pub send_file_data : Proc (SourceState F T) Bool
  send_file_data = do
    fp ← gets (λ s. s.params.fp)
    left ← file_data_left fp.metadata_only fp.progress fp.file_size
    send_or_end left

  -- `_sending_file_data_fsm`: whether the state machine should return.
  unfoldable pub sending_file_data_fsm : Option Pdu → Proc (SourceState F T) Bool
  sending_file_data_fsm packet = do
    retransmission ← handle_retransmission_if_acked packet
    if retransmission then pure true else send_file_data

  abbrev pub eof_acked : DirectiveType → Proc (SourceState F T) (Unit {0})
  eof_acked eof_pdu = set_step waiting_for_finished
  eof_acked _ = skip

  -- A packet that is no acknowledgement runs the positive acknowledgement procedure; a file data
  -- packet does not get here, since the insertion of the packet raises.
  abbrev pub ack_or_timer : Option Pdu → Proc (SourceState F T) (Unit {0})
  ack_or_timer none = handle_positive_ack_procedures env
  ack_or_timer (some pdu) = elim pdu.body [
    | ack acked cond status ↦ eof_acked acked
    | _ ↦ handle_positive_ack_procedures env
  ]

  unfoldable pub handle_waiting_for_ack : Option Pdu → Proc (SourceState F T) (Unit {0})
  handle_waiting_for_ack packet = do
    retransmission ← handle_retransmission packet
    if retransmission then skip else ack_or_timer packet

  abbrev pub finished_of : Option Pdu → Option FinishedParams
  finished_of none = none
  finished_of (some pdu) = elim pdu.body [ finished p ↦ some p | _ ↦ none ]

  unfoldable pub finished_received : FinishedParams → Proc (SourceState F T) (Unit {0})
  finished_received p = do
    modify_params (λ fields. record fields { finished_params = some p })
    mode ← gets transmission_mode
    if is_acked mode
        then (do prepare_finished_ack_packet p.condition_code; set_step sending_ack_of_finished)
        else set_step State.notice_of_completion

  abbrev check_timer_ran_out : Option T → ℕ → Bool
  check_timer_ran_out none now = false
  check_timer_ran_out (some timer) now = env.timed_out timer now

  unfoldable pub check_finish_timer : Proc (SourceState F T) (Unit {0})
  check_finish_timer = do
    s ← gets (λ s. s)
    when (check_timer_ran_out s.params.check_timer s.now) (declare_fault env check_limit_reached)

  abbrev pub finished_or_timer : Option FinishedParams → Proc (SourceState F T) (Unit {0})
  finished_or_timer none = check_finish_timer
  finished_or_timer (some p) = finished_received p

  unfoldable pub handle_wait_for_finish : Option Pdu → Proc (SourceState F T) (Unit {0})
  handle_wait_for_finish packet = do
    retransmission ← handle_retransmission_if_acked packet
    if retransmission then skip else finished_or_timer (finished_of packet)
