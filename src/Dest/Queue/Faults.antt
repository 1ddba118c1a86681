-- ===== src/Dest/Queue/Faults.antt =====
-- Faults, the checksum test and the completion keep the queue in order.
use cfdp_py.Base.{false}
use cfdp_py.Protocol.{
  ConditionCode, FaultHandlerCode, notice_of_cancellation, notice_of_suspension, ignore_error,
  abandon_transaction, UnsignedByteField,
}
use cfdp_py.Proc.Holds.{Keeps, Keeps-modify}
use cfdp_py.User.{Env}
use cfdp_py.Dest.Queue.{IsQueueOk, queue_rules}
use cfdp_py.Dest.Faults.{
  notice_of_cancellation_at, trigger_notice_of_completion_canceled, reset_internal, reset, abandon,
  handle_fault, declare_fault, file_delivery_complete, checksum_verify, discard_file,
  notice_of_completion, prepare_finished_pdu, prepare_eof_ack_packet,
}

module _ {F T : Type 0} where
  pub notice_of_cancellation_at-IsQueueOk :
      (c : ConditionCode) → Keeps IsQueueOk (notice_of_cancellation_at {F = F} {T = T} c)
  unfolding notice_of_cancellation_at
  notice_of_cancellation_at-IsQueueOk c = search (queue_rules) depth 12

  pub trigger_notice_of_completion_canceled-IsQueueOk :
      (c : ConditionCode) (id : UnsignedByteField)
      → Keeps IsQueueOk (trigger_notice_of_completion_canceled {F = F} {T = T} c id)
  unfolding trigger_notice_of_completion_canceled
  trigger_notice_of_completion_canceled-IsQueueOk c id = search (queue_rules) depth 12

module _ {F T : Type 0} (env : Env F T) where
  pub reset_internal-IsQueueOk : Keeps IsQueueOk (reset_internal env false)
  unfolding reset_internal
  reset_internal-IsQueueOk = search (queue_rules, Keeps-modify) depth 12

  pub reset-IsQueueOk : Keeps IsQueueOk (reset env)
  unfolding reset
  reset-IsQueueOk = search (queue_rules, reset_internal-IsQueueOk) depth 12

  pub abandon-IsQueueOk : Keeps IsQueueOk (abandon env)
  unfolding abandon
  abandon-IsQueueOk = search (queue_rules, reset-IsQueueOk) depth 12

  pub handle_fault-IsQueueOk :
      (fh : FaultHandlerCode) (c : ConditionCode) → Keeps IsQueueOk (handle_fault env fh c)
  unfolding handle_fault
  handle_fault-IsQueueOk notice_of_cancellation c =
      search (queue_rules, notice_of_cancellation_at-IsQueueOk) depth 12
  handle_fault-IsQueueOk notice_of_suspension c = search (queue_rules) depth 12
  handle_fault-IsQueueOk abandon_transaction c = search (queue_rules, abandon-IsQueueOk) depth 12
  handle_fault-IsQueueOk ignore_error c = search (queue_rules) depth 12

  pub declare_fault-IsQueueOk : (c : ConditionCode) → Keeps IsQueueOk (declare_fault env c)
  unfolding declare_fault
  declare_fault-IsQueueOk c = search (queue_rules, handle_fault-IsQueueOk) depth 12

  pub file_delivery_complete-IsQueueOk : Keeps IsQueueOk (file_delivery_complete env)
  unfolding file_delivery_complete
  file_delivery_complete-IsQueueOk = search (queue_rules) depth 12

  pub checksum_verify-IsQueueOk : Keeps IsQueueOk (checksum_verify env)
  unfolding checksum_verify
  checksum_verify-IsQueueOk =
      search (queue_rules, file_delivery_complete-IsQueueOk, declare_fault-IsQueueOk) depth 12

  pub discard_file-IsQueueOk : Keeps IsQueueOk (discard_file env)
  unfolding discard_file
  discard_file-IsQueueOk = search (queue_rules) depth 12

  pub notice_of_completion-IsQueueOk : Keeps IsQueueOk (notice_of_completion env)
  unfolding notice_of_completion
  notice_of_completion-IsQueueOk = search (queue_rules, discard_file-IsQueueOk) depth 12

  pub prepare_finished_pdu-IsQueueOk : Keeps IsQueueOk (prepare_finished_pdu env)
  unfolding prepare_finished_pdu
  prepare_finished_pdu-IsQueueOk = search (queue_rules) depth 12

  pub prepare_eof_ack_packet-IsQueueOk : Keeps IsQueueOk (prepare_eof_ack_packet env)
  unfolding prepare_eof_ack_packet
  prepare_eof_ack_packet-IsQueueOk = search (queue_rules) depth 12
