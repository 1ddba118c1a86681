-- ===== src/Dest/Queue/Receive.antt =====
-- File data and EOF packets keep the queue in order.
use cfdp_py.Base.{ℕ, Bool, true, false, Option, List}
use cfdp_py.Protocol.{PduBody, ConditionCode, file_data, eof}
use cfdp_py.Errors.{Error}
use cfdp_py.Errors
use cfdp_py.Proc.Holds.{Keeps, Keeps-skip, Keeps-raise}
use cfdp_py.User.{Env}
use cfdp_py.Dest.Queue.{IsQueueOk, queue_rules}
use cfdp_py.Dest.Receive.{
  fault_stops, write_file_data, reject_file, on_write_error, handle_fd_pdu, eof_indication,
  file_transfer_complete_transition, start_check_limit_handling, check_progress, verify_unacked,
  check_unacked, handle_no_error_eof, handle_cancel_eof, handle_eof_pdu, handle_fd_or_eof_pdu,
  count_check, check_again, check_limit_handling,
}
use cfdp_py.Dest.Queue.Faults.{
  declare_fault-IsQueueOk, checksum_verify-IsQueueOk, prepare_eof_ack_packet-IsQueueOk,
  trigger_notice_of_completion_canceled-IsQueueOk,
}
use cfdp_py.Dest.Queue.Segments.{add_segment-IsQueueOk, lost_segment_handling-IsQueueOk}

module _ {F T : Type 0} (env : Env F T) where
  pub fault_stops-IsQueueOk : (b : Bool) (c : ConditionCode) → Keeps IsQueueOk (fault_stops env b c)
  unfolding fault_stops
  fault_stops-IsQueueOk false c = search (queue_rules) depth 12
  fault_stops-IsQueueOk true c = search (queue_rules, declare_fault-IsQueueOk) depth 12

  pub write_file_data-IsQueueOk :
      (offset : ℕ) (bytes : List ℕ) → Keeps IsQueueOk (write_file_data env offset bytes)
  unfolding write_file_data
  write_file_data-IsQueueOk offset bytes =
      search (queue_rules, fault_stops-IsQueueOk, lost_segment_handling-IsQueueOk) depth 16

  pub reject_file-IsQueueOk : Keeps IsQueueOk (reject_file env)
  unfolding reject_file
  reject_file-IsQueueOk = search (queue_rules, declare_fault-IsQueueOk) depth 12

  pub on_write_error-IsQueueOk : (e : Error) → Keeps IsQueueOk (on_write_error env e)
  unfolding on_write_error
  on_write_error-IsQueueOk Errors.file_not_found_error = reject_file-IsQueueOk
  on_write_error-IsQueueOk Errors.permission_error = reject_file-IsQueueOk
  on_write_error-IsQueueOk _ = Keeps-raise _

  pub handle_fd_pdu-IsQueueOk :
      (offset : ℕ) (bytes : List ℕ) (m : Option (List ℕ))
      → Keeps IsQueueOk (handle_fd_pdu env offset bytes m)
  unfolding handle_fd_pdu
  handle_fd_pdu-IsQueueOk offset bytes m =
      search (queue_rules, write_file_data-IsQueueOk, on_write_error-IsQueueOk) depth 12

  pub eof_indication-IsQueueOk : Keeps IsQueueOk (eof_indication env)
  unfolding eof_indication
  eof_indication-IsQueueOk = search (queue_rules) depth 12

  pub file_transfer_complete_transition-IsQueueOk :
      Keeps IsQueueOk (file_transfer_complete_transition env)
  unfolding file_transfer_complete_transition
  file_transfer_complete_transition-IsQueueOk =
      search (queue_rules, prepare_eof_ack_packet-IsQueueOk) depth 12

  pub start_check_limit_handling-IsQueueOk : Keeps IsQueueOk (start_check_limit_handling env)
  unfolding start_check_limit_handling
  start_check_limit_handling-IsQueueOk = search (queue_rules) depth 12

  pub check_progress-IsQueueOk : (n : ℕ) → Keeps IsQueueOk (check_progress env n)
  unfolding check_progress
  check_progress-IsQueueOk n =
      search (queue_rules, fault_stops-IsQueueOk, add_segment-IsQueueOk) depth 12

  pub verify_unacked-IsQueueOk : Keeps IsQueueOk (verify_unacked env)
  unfolding verify_unacked
  verify_unacked-IsQueueOk =
      search
        (
          queue_rules, checksum_verify-IsQueueOk, fault_stops-IsQueueOk,
          start_check_limit_handling-IsQueueOk,
        )
        depth 12

  pub check_unacked-IsQueueOk : Keeps IsQueueOk (check_unacked env)
  unfolding check_unacked
  check_unacked-IsQueueOk = search (queue_rules, verify_unacked-IsQueueOk) depth 12

  pub handle_no_error_eof-IsQueueOk : (n : ℕ) → Keeps IsQueueOk (handle_no_error_eof env n)
  unfolding handle_no_error_eof
  handle_no_error_eof-IsQueueOk n =
      search (queue_rules, check_progress-IsQueueOk, check_unacked-IsQueueOk) depth 12

  pub handle_cancel_eof-IsQueueOk :
      (c : ConditionCode) (n : ℕ) → Keeps IsQueueOk (handle_cancel_eof env c n)
  unfolding handle_cancel_eof
  handle_cancel_eof-IsQueueOk c n =
      search (queue_rules, trigger_notice_of_completion_canceled-IsQueueOk) depth 12

  pub handle_eof_pdu-IsQueueOk :
      (checksum : List ℕ) (n : ℕ) (c : ConditionCode)
      → Keeps IsQueueOk (handle_eof_pdu env checksum n c)
  unfolding handle_eof_pdu
  handle_eof_pdu-IsQueueOk checksum n c =
      search
        (
          queue_rules, eof_indication-IsQueueOk, handle_no_error_eof-IsQueueOk,
          handle_cancel_eof-IsQueueOk, file_transfer_complete_transition-IsQueueOk,
        )
        depth 12

  pub handle_fd_or_eof_pdu-IsQueueOk :
      (body : PduBody) → Keeps IsQueueOk (handle_fd_or_eof_pdu env body)
  unfolding handle_fd_or_eof_pdu
  handle_fd_or_eof_pdu-IsQueueOk (file_data o d m) = handle_fd_pdu-IsQueueOk o d m
  handle_fd_or_eof_pdu-IsQueueOk (eof c n k) = handle_eof_pdu-IsQueueOk c n k
  handle_fd_or_eof_pdu-IsQueueOk _ = Keeps-skip

  pub count_check-IsQueueOk : Keeps IsQueueOk (count_check env)
  unfolding count_check
  count_check-IsQueueOk = search (queue_rules, declare_fault-IsQueueOk) depth 12

  pub check_again-IsQueueOk : Keeps IsQueueOk (check_again env)
  unfolding check_again
  check_again-IsQueueOk =
      search
        (
          queue_rules, checksum_verify-IsQueueOk, file_transfer_complete_transition-IsQueueOk,
          count_check-IsQueueOk,
        )
        depth 12

  pub check_limit_handling-IsQueueOk : Keeps IsQueueOk (check_limit_handling env)
  unfolding check_limit_handling
  check_limit_handling-IsQueueOk = search (queue_rules, check_again-IsQueueOk) depth 12
