-- ===== src/Dest/Faults.antt =====
-- Faults, resets, the checksum test and the completion of a transaction in src/cfdppy/handler/dest.py.
use cfdp_py.Base.{Bool, true, false, ◌&&◌, ◌||◌, some, [], if◌then◌else◌}
use cfdp_py.FilePath.{text_eq}
use cfdp_py.Protocol.{
  ConditionCode, no_error, file_checksum_failure, FaultHandlerCode, notice_of_cancellation,
  notice_of_suspension, ignore_error, abandon_transaction, is_null_checksum, DeliveryCode,
  data_complete, data_incomplete, discarded_deliberately, UnsignedByteField, eof_pdu, ack, finished,
  active,
}
use cfdp_py.Errors.{assertion_error, value_error, unretrieved_pdus_to_be_sent}
use cfdp_py.Proc.{Outcome, Proc, pure, raise, gets, require, modify, skip, when, ◌>>=◌, ◌>>◌}
use cfdp_py.Mib.{get_fault_handler, report_fault}
use cfdp_py.User.{Env, fault_indication, transaction_finished_indication}
use cfdp_py.Dest.State.{
  DestState, CfdpState, canceled, is_canceled, TransactionStep, transfer_completion, new_fields,
  modify_params, modify_finished, set_step, set_state, indicate, on_store, packets_ready,
  add_packet_to_be_sent,
}

abbrev pub is_data_incomplete : DeliveryCode → Bool
is_data_incomplete data_complete = false
is_data_incomplete data_incomplete = true

module _ {F T : Type 0} where
  abbrev clear_if : Bool → DestState F T → DestState F T
  clear_if clear s = if clear then record s { pdus_to_be_sent = [] } else s

  unfoldable pub notice_of_cancellation_at : ConditionCode → Proc (DestState F T) (Unit {0})
  notice_of_cancellation_at condition_code = do
    set_step transfer_completion
    modify_finished (λ p. record p { condition_code = condition_code })
    modify_params (λ p. record p { completion_disposition = canceled })

  unfoldable pub trigger_notice_of_completion_canceled :
      ConditionCode → UnsignedByteField → Proc (DestState F T) (Unit {0})
  trigger_notice_of_completion_canceled condition_code fault_location = do
    modify_params (λ p. record p { completion_disposition = canceled })
    modify_finished
        (λ p. record p { condition_code = condition_code; fault_location = some fault_location })

  -- A pure step that may raise.
  unfoldable pub of_outcome : {A : Type 0} → Outcome A → Proc (DestState F T) A
  of_outcome r s = (r, s)

module _ {F T : Type 0} (env : Env F T) where
  unfoldable pub reset_internal : (clear_packet_queue : Bool) → Proc (DestState F T) (Unit {0})
  reset_internal clear_packet_queue = do
    modify_params (λ _. new_fields env.empty_pdu_conf)
    set_state CfdpState.idle
    set_step TransactionStep.idle
    modify (clear_if clear_packet_queue)

  unfoldable pub reset : Proc (DestState F T) (Unit {0})
  reset = reset_internal false

  unfoldable pub abandon : Proc (DestState F T) (Unit {0})
  abandon = reset

  -- The branches of `_declare_fault`; the notice of suspension does nothing yet.
  unfoldable pub handle_fault : FaultHandlerCode → ConditionCode → Proc (DestState F T) (Unit {0})
  handle_fault notice_of_cancellation cond = notice_of_cancellation_at cond
  handle_fault notice_of_suspension cond = skip
  handle_fault abandon_transaction cond = abandon
  handle_fault ignore_error cond = skip

  unfoldable pub declare_fault : ConditionCode → Proc (DestState F T) FaultHandlerCode
  declare_fault cond = do
    let known = get_fault_handler cond env.cfg.default_fault_handlers
    transaction_id ← gets (λ s. s.params.transaction_id)
    progress ← gets (λ s. s.params.fp.progress)
    id ← require assertion_error transaction_id
    fh ← require value_error known
    handle_fault fh cond
    callback ← of_outcome (report_fault id cond progress env.cfg.default_fault_handlers)
    indicate (fault_indication callback)
    pure fh

  unfoldable pub file_delivery_complete : Proc (DestState F T) Bool
  file_delivery_complete = do
    modify_finished (λ p. record p { delivery_code = data_complete; condition_code = no_error })
    pure true

  unfoldable pub checksum_verify : Proc (DestState F T) Bool
  checksum_verify = do
    params ← gets (λ s. s.params)
    if is_null_checksum params.checksum_type || params.fp.metadata_only
        then file_delivery_complete
        else do
          crc32 ← on_store (
              env.vfs.calculate_checksum params.checksum_type params.fp.file_name params.fp.progress
                4096)
          if text_eq crc32 params.fp.crc32
              then file_delivery_complete
              else do declare_fault file_checksum_failure; pure false

  -- The branch of `_notice_of_completion` for a canceled transaction.
  unfoldable pub discard_file : Proc (DestState F T) (Unit {0})
  discard_file = do
    params ← gets (λ s. s.params)
    remote_cfg ← require assertion_error params.remote_cfg
    when
        (remote_cfg.disposition_on_cancellation
          && is_data_incomplete params.finished_params.delivery_code)
        do
          on_store (env.vfs.delete_file params.fp.file_name)
          modify_finished (λ p. record p { file_status = discarded_deliberately })

  unfoldable pub notice_of_completion : Proc (DestState F T) (Unit {0})
  notice_of_completion = do
    disposition ← gets (λ s. s.params.completion_disposition)
    when (is_canceled disposition) discard_file
    when env.cfg.indication_cfg.transaction_finished_indication_required do
      params ← gets (λ s. s.params)
      indicate (
          transaction_finished_indication (record {
            transaction_id = params.transaction_id;
            finished_params = params.finished_params;
          }))

  unfoldable pub prepare_finished_pdu : Proc (DestState F T) (Unit {0})
  prepare_finished_pdu = do
    ready ← gets packets_ready
    when ready (raise unretrieved_pdus_to_be_sent)
    params ← gets (λ s. s.params)
    add_packet_to_be_sent (finished params.finished_params)

  unfoldable pub prepare_eof_ack_packet : Proc (DestState F T) (Unit {0})
  prepare_eof_ack_packet = do
    params ← gets (λ s. s.params)
    add_packet_to_be_sent (ack eof_pdu params.finished_params.condition_code active)
