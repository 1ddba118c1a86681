-- ===== src/Source/Faults.antt =====
-- Faults, cancellation, resets and completion in src/cfdppy/handler/source.py.
use cfdp_py.Base.{◌+◌, Bool, true, false, not, Option, none, some, [], if◌then◌else◌, leb}
use cfdp_py.Protocol.{
  ConditionCode, no_error, positive_ack_limit_reached, same_condition, FaultHandlerCode,
  notice_of_cancellation, abandon_transaction, FinishedParams, data_complete,
  file_status_unreported,
}
use cfdp_py.Errors.{assertion_error}
use cfdp_py.Proc.{Outcome, Proc, pure, gets, require, modify, when, ◌>>=◌, ◌>>◌}
use cfdp_py.Mib.{get_fault_handler, report_fault, abandoned_cb, sending}
use cfdp_py.User.{fault_indication, transaction_finished_indication}
use cfdp_py.Dest.State.{CfdpState, is_acked}
use cfdp_py.Source.State.{
  SourceState, SourceEnv, TransactionStep, waiting_for_eof_ack, waiting_for_finished, reset_fields,
  transmission_mode, modify_params, set_step, set_state, indicate,
}
use cfdp_py.Source.State
use cfdp_py.Source.Packets.{prepare_eof_pdu, checksum_calculation}

abbrev pub is_error : Option ConditionCode → Bool
is_error none = false
is_error (some c) = not (same_condition c no_error)

module _ {F T : Type 0} where
  abbrev clear_if : Bool → SourceState F T → SourceState F T
  clear_if clear s = if clear then record s { pdus_to_be_sent = [] } else s

  unfoldable pub of_outcome : {A : Type 0} → Outcome A → Proc (SourceState F T) A
  of_outcome r s = (r, s)

abbrev finished_or_default : Option FinishedParams → FinishedParams
finished_or_default (some p) = p
finished_or_default none = record {
  delivery_code = data_complete;
  file_status = file_status_unreported;
  condition_code = no_error;
  fault_location = none;
}

module _ {F T : Type 0} (env : SourceEnv F T) where
  unfoldable pub reset_internal : (clear_packet_queue : Bool) → Proc (SourceState F T) (Unit {0})
  reset_internal clear_packet_queue = do
    set_step TransactionStep.idle
    set_state CfdpState.idle
    modify (clear_if clear_packet_queue)
    modify_params (reset_fields env.empty_pdu_conf)

  unfoldable pub reset : Proc (SourceState F T) (Unit {0})
  reset = reset_internal true

  unfoldable pub start_positive_ack_procedure : Proc (SourceState F T) (Unit {0})
  start_positive_ack_procedure = do
    s ← gets (λ s. s)
    remote_cfg ← require assertion_error s.params.remote_cfg
    set_step waiting_for_eof_ack
    modify_params (λ p. record p {
      positive_ack_params = record {
        ack_timer = some (env.from_seconds remote_cfg.positive_ack_timer_interval_seconds s.now);
        ack_counter = 0;
      };
    })

  -- Unacknowledged mode, with closure requested.
  unfoldable pub wait_for_closure : Proc (SourceState F T) (Unit {0})
  wait_for_closure = do
    s ← gets (λ s. s)
    remote_cfg ← require assertion_error s.params.remote_cfg
    modify_params (λ p. record p {
      check_timer =
          some (env.provide_check_timer env.cfg.local_entity_id remote_cfg.entity_id sending s.now);
    })
    set_step waiting_for_finished

  unfoldable pub handle_eof_sent : (cancel_eof : Bool) → Proc (SourceState F T) (Unit {0})
  handle_eof_sent cancel_eof = do
    s ← gets (λ s. s)
    if is_acked (transmission_mode s)
        then start_positive_ack_procedure
        else if cancel_eof
        then reset_internal false
        else if s.params.closure_requested
        then wait_for_closure
        else set_step State.notice_of_completion

  -- A fault while the EOF (Cancel) is under way abandons the transaction; false ends the fault
  -- declaration.
  unfoldable pub abandon_canceled : Proc (SourceState F T) Bool
  abandon_canceled = do
    params ← gets (λ s. s.params)
    id ← require assertion_error params.transaction_id
    code ← require assertion_error params.cond_code_eof
    indicate (fault_indication (abandoned_cb id code params.fp.progress))
    reset
    pure false

  unfoldable pub notice_of_cancellation_at : ConditionCode → Proc (SourceState F T) Bool
  notice_of_cancellation_at condition_code = do
    params ← gets (λ s. s.params)
    if is_error params.cond_code_eof then abandon_canceled else do
      modify_params (λ p. record p { cond_code_eof = some condition_code })
      checksum ← checksum_calculation env (some params.fp.progress)
      prepare_eof_pdu env checksum
      handle_eof_sent true
      pure true

  abbrev then_true : Proc (SourceState F T) (Unit {0}) → Proc (SourceState F T) Bool
  then_true m = do m; pure true

  -- The branches of `_declare_fault`; false where the declaration returns early.
  unfoldable pub handle_fault :
      Option FaultHandlerCode → ConditionCode → Proc (SourceState F T) Bool
  handle_fault (some notice_of_cancellation) cond = notice_of_cancellation_at cond
  handle_fault (some abandon_transaction) cond = then_true reset
  handle_fault _ cond = pure true

  unfoldable pub declare_fault : ConditionCode → Proc (SourceState F T) (Unit {0})
  declare_fault cond = do
    params ← gets (λ s. s.params)
    id ← require assertion_error params.transaction_id
    go_on ← handle_fault (get_fault_handler cond env.cfg.default_fault_handlers) cond
    when go_on do
      callback ← of_outcome (report_fault id cond params.fp.progress env.cfg.default_fault_handlers)
      indicate (fault_indication callback)

  unfoldable pub finish_indication : Proc (SourceState F T) (Unit {0})
  finish_indication = do
    params ← gets (λ s. s.params)
    id ← require assertion_error params.transaction_id
    let finished = finished_or_default params.finished_params
    modify_params (λ p. record p { finished_params = some finished })
    indicate (
        transaction_finished_indication
          (record { transaction_id = some id; finished_params = finished }))

  unfoldable pub notice_of_completion : Proc (SourceState F T) (Unit {0})
  notice_of_completion = do
    when env.cfg.indication_cfg.transaction_finished_indication_required finish_indication
    reset_internal false

  -- The EOF is sent once more and the timer restarted, up to the limit.
  unfoldable pub send_eof_again : T → Proc (SourceState F T) (Unit {0})
  send_eof_again timer = do
    s ← gets (λ s. s)
    modify_params (λ p. record p {
      positive_ack_params = record {
        ack_timer = some (env.restart timer s.now);
        ack_counter = p.positive_ack_params.ack_counter + 1;
      };
    })
    checksum ← checksum_calculation env s.params.fp.file_size
    prepare_eof_pdu env checksum

  unfoldable pub handle_positive_ack_procedures : Proc (SourceState F T) (Unit {0})
  handle_positive_ack_procedures = do
    s ← gets (λ s. s)
    timer ← require assertion_error s.params.positive_ack_params.ack_timer
    remote_cfg ← require assertion_error s.params.remote_cfg
    when (env.timed_out timer s.now) (
        if leb remote_cfg.positive_ack_timer_expiration_limit
          (s.params.positive_ack_params.ack_counter + 1)
        then declare_fault positive_ack_limit_reached
        else send_eof_again timer)
