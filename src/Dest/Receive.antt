-- ===== src/Dest/Receive.antt =====
-- File data and EOF packets in src/cfdppy/handler/dest.py.
use cfdp_py.Base.{
  ℕ, ◌+◌, max, Bool, true, false, not, ◌&&◌, Option, none, some, List, leb, ltb, if◌then◌else◌,
  length,
}
use cfdp_py.Protocol.{
  ConditionCode, no_error, file_size_error, filestore_rejection, file_checksum_failure,
  check_limit_reached, same_condition, is_ignore_error, file_retained, is_file_retained,
  discarded_filestore_rejection, data_incomplete, PduBody, file_data, eof,
}
use cfdp_py.Errors.{Error, assertion_error, attribute_error, file_not_found_error, permission_error}
use cfdp_py.Proc.{Proc, pure, raise, gets, require, skip, when, try_except, ◌>>=◌, ◌>>◌}
use cfdp_py.Mib.{receiving}
use cfdp_py.User.{Env, file_segment_recv_indication, eof_recv_indication}
use cfdp_py.Dest.State.{
  DestState, transfer_completion, sending_eof_ack_pdu, recv_file_data_with_check_limit_handling,
  transmission_mode, is_acked, is_unacked, modify_params, modify_fp, modify_finished, set_step,
  indicate, on_store,
}
use cfdp_py.Dest.Faults.{
  declare_fault, checksum_verify, prepare_eof_ack_packet, trigger_notice_of_completion_canceled,
}
use cfdp_py.Dest.Segments.{add_segment, lost_segment_handling}

abbrev pub exceeds_eof_size : Option ℕ → ℕ → Bool
exceeds_eof_size none end = false
exceeds_eof_size (some size) end = ltb size end

module _ {F T : Type 0} (env : Env F T) where
  -- Whether a fault is declared that the fault handler does not ignore.
  unfoldable pub fault_stops : Bool → ConditionCode → Proc (DestState F T) Bool
  fault_stops false cond = pure false
  fault_stops true cond = do fh ← declare_fault env cond; pure (not (is_ignore_error fh))

  -- The body of the `try` statement of `_handle_fd_pdu`.
  unfoldable pub write_file_data : ℕ → List ℕ → Proc (DestState F T) (Unit {0})
  write_file_data offset bytes = do
    mode ← gets transmission_mode
    when (is_acked mode) (lost_segment_handling offset (length bytes))
    file_name ← gets (λ s. s.params.fp.file_name)
    on_store (env.vfs.write_data file_name bytes offset)
    modify_finished (λ p. record p { file_status = file_retained })
    file_size_eof ← gets (λ s. s.params.fp.file_size_eof)
    stop ← fault_stops (exceeds_eof_size file_size_eof (offset + length bytes)) file_size_error
    when (not stop)
        (modify_fp (λ fp. record fp { progress = max (offset + length bytes) fp.progress }))

  -- The body of its two `except` clauses.
  unfoldable pub reject_file : Proc (DestState F T) (Unit {0})
  reject_file = do
    file_status ← gets (λ s. s.params.finished_params.file_status)
    when (not (is_file_retained file_status)) do
      modify_finished (λ p. record p { file_status = discarded_filestore_rejection })
      declare_fault env filestore_rejection
      skip

  unfoldable pub on_write_error : Error → Proc (DestState F T) (Unit {0})
  on_write_error file_not_found_error = reject_file
  on_write_error permission_error = reject_file
  on_write_error e = raise e

  unfoldable pub handle_fd_pdu : ℕ → List ℕ → Option (List ℕ) → Proc (DestState F T) (Unit {0})
  handle_fd_pdu offset bytes segment_metadata = do
    when env.cfg.indication_cfg.file_segment_recvd_indication_required do
      transaction_id ← gets (λ s. s.params.transaction_id)
      indicate (
          file_segment_recv_indication (record {
            transaction_id = transaction_id;
            offset = offset;
            length = length bytes;
            segment_metadata = segment_metadata;
          }))
    try_except (write_file_data offset bytes) on_write_error

  unfoldable pub eof_indication : Proc (DestState F T) (Unit {0})
  eof_indication = when env.cfg.indication_cfg.eof_recv_indication_required do
    transaction_id ← gets (λ s. s.params.transaction_id)
    id ← require assertion_error transaction_id
    indicate (eof_recv_indication id)

  unfoldable pub file_transfer_complete_transition : Proc (DestState F T) (Unit {0})
  file_transfer_complete_transition = do
    mode ← gets transmission_mode
    if is_unacked mode
        then set_step transfer_completion
        else when (is_acked mode) do prepare_eof_ack_packet env; set_step sending_eof_ack_pdu

  unfoldable pub start_check_limit_handling : Proc (DestState F T) (Unit {0})
  start_check_limit_handling = do
    set_step recv_file_data_with_check_limit_handling
    s ← gets (λ s. s)
    remote_cfg ← require assertion_error s.params.remote_cfg
    modify_params (λ p. record p {
      check_timer =
          some
            (env.provide_check_timer env.cfg.local_entity_id remote_cfg.entity_id receiving s.now);
      current_check_count = 0;
    })

  -- The test of the progress against the size of the EOF packet; false ends the handling.
  unfoldable pub check_progress : ℕ → Proc (DestState F T) Bool
  check_progress file_size_eof = do
    progress ← gets (λ s. s.params.fp.progress)
    mode ← gets transmission_mode
    if ltb file_size_eof progress
        then (do stop ← fault_stops true file_size_error; pure (not stop))
        else if ltb progress file_size_eof && is_acked mode
        then (do add_segment (progress, file_size_eof); pure true)
        else pure true

  unfoldable pub verify_unacked : Proc (DestState F T) Bool
  verify_unacked = do
    complete ← checksum_verify env
    if complete then pure true else do
      stop ← fault_stops true file_checksum_failure
      when (not stop) start_check_limit_handling
      pure false

  -- The checksum test of the unacknowledged mode; false ends the handling.
  unfoldable pub check_unacked : Proc (DestState F T) Bool
  check_unacked = do
    mode ← gets transmission_mode
    if is_unacked mode then verify_unacked else pure true

  -- Whether the transfer can be completed regularly.
  unfoldable pub handle_no_error_eof : ℕ → Proc (DestState F T) Bool
  handle_no_error_eof file_size_eof = do
    go_on ← check_progress file_size_eof
    if go_on then check_unacked else pure false

  -- The branch for an EOF (Cancel).
  unfoldable pub handle_cancel_eof : ConditionCode → ℕ → Proc (DestState F T) (Unit {0})
  handle_cancel_eof condition_code file_size_eof = do
    remote_cfg ← gets (λ s. s.params.remote_cfg)
    cfg ← require attribute_error remote_cfg
    trigger_notice_of_completion_canceled condition_code cfg.entity_id
    modify_fp (λ fp. record fp { progress = file_size_eof })
    modify_finished (λ p. record p { delivery_code = data_incomplete })

  unfoldable pub handle_eof_pdu : List ℕ → ℕ → ConditionCode → Proc (DestState F T) (Unit {0})
  handle_eof_pdu checksum file_size condition_code = do
    modify_fp (λ fp. record fp { crc32 = checksum; file_size_eof = some file_size })
    eof_indication
    if same_condition condition_code no_error
        then (do
          regular_completion ← handle_no_error_eof file_size
          when regular_completion file_transfer_complete_transition)
        else do handle_cancel_eof condition_code file_size; file_transfer_complete_transition

  unfoldable pub handle_fd_or_eof_pdu : PduBody → Proc (DestState F T) (Unit {0})
  handle_fd_or_eof_pdu (file_data offset bytes m) = handle_fd_pdu offset bytes m
  handle_fd_or_eof_pdu (eof checksum file_size cond) = handle_eof_pdu checksum file_size cond
  handle_fd_or_eof_pdu _ = skip

  -- The count of a failed check. A fault that abandons the transaction leaves no configuration.
  unfoldable pub count_check : Proc (DestState F T) (Unit {0})
  count_check = do
    s ← gets (λ s. s)
    remote_cfg ← require attribute_error s.params.remote_cfg
    if leb remote_cfg.check_limit (s.params.current_check_count + 1)
        then (do declare_fault env check_limit_reached; skip)
        else do
          modify_params (λ p. record p { current_check_count = p.current_check_count + 1 })
          running ← require attribute_error s.params.check_timer
          modify_params (λ p. record p { check_timer = some (env.restart running s.now) })

  -- The check after the check timer ran out.
  unfoldable pub check_again : Proc (DestState F T) (Unit {0})
  check_again = do
    complete ← checksum_verify env
    if complete then file_transfer_complete_transition else count_check

  unfoldable pub check_limit_handling : Proc (DestState F T) (Unit {0})
  check_limit_handling = do
    s ← gets (λ s. s)
    timer ← require assertion_error s.params.check_timer
    require assertion_error s.params.remote_cfg
    when (env.timed_out timer s.now) check_again
