-- ===== src/Source/Queue/Faults.antt =====
-- Packets, faults and the completion keep the queue routed.
use cfdp_py.Base.{ℕ, Bool, true, false, Option, none, some, List}
use cfdp_py.Protocol.{
  ConditionCode, FaultHandlerCode, notice_of_cancellation, notice_of_suspension, ignore_error,
  abandon_transaction,
}
use cfdp_py.Proc.Holds.{Keeps, Keeps-modify, Keeps-pure}
use cfdp_py.Source.State.{SourceEnv}
use cfdp_py.Source.Queue.{IsRouted, routed_rules}
use cfdp_py.Source.Packets.{
  metadata_only_params, prepare_metadata_base_params_with_metadata, prepare_metadata_pdu,
  prepare_finished_ack_packet, prepare_file_data_pdu, prepare_progressing_file_data_pdu,
  prepare_eof_pdu, checksum_calculation,
}
use cfdp_py.Source.Faults.{
  reset_internal, reset, start_positive_ack_procedure, wait_for_closure, handle_eof_sent,
  abandon_canceled, notice_of_cancellation_at, handle_fault, declare_fault, finish_indication,
  notice_of_completion, send_eof_again, handle_positive_ack_procedures,
}

module _ {F T : Type 0} where
  pub prepare_metadata_pdu-IsRouted : Keeps IsRouted (prepare_metadata_pdu {F = F} {T = T})
  unfolding prepare_metadata_pdu metadata_only_params prepare_metadata_base_params_with_metadata
  prepare_metadata_pdu-IsRouted = search (routed_rules) depth 14

  pub prepare_finished_ack_packet-IsRouted :
      (c : ConditionCode) → Keeps IsRouted (prepare_finished_ack_packet {F = F} {T = T} c)
  unfolding prepare_finished_ack_packet
  prepare_finished_ack_packet-IsRouted c = search (routed_rules) depth 12

module _ {F T : Type 0} (env : SourceEnv F T) where
  pub prepare_file_data_pdu-IsRouted :
      (offset read_len : ℕ) → Keeps IsRouted (prepare_file_data_pdu env offset read_len)
  unfolding prepare_file_data_pdu
  prepare_file_data_pdu-IsRouted offset read_len = search (routed_rules) depth 12

  pub prepare_progressing_file_data_pdu-IsRouted :
      (size : ℕ) → Keeps IsRouted (prepare_progressing_file_data_pdu env size)
  unfolding prepare_progressing_file_data_pdu
  prepare_progressing_file_data_pdu-IsRouted size =
      search (routed_rules, prepare_file_data_pdu-IsRouted) depth 12

  pub prepare_eof_pdu-IsRouted : (c : List ℕ) → Keeps IsRouted (prepare_eof_pdu env c)
  unfolding prepare_eof_pdu
  prepare_eof_pdu-IsRouted c = search (routed_rules) depth 12

  pub checksum_calculation-IsRouted :
      (size : Option ℕ) → Keeps IsRouted (checksum_calculation env size)
  unfolding checksum_calculation
  checksum_calculation-IsRouted size = search (routed_rules) depth 12

  pub reset_internal-IsRouted : (clear : Bool) → Keeps IsRouted (reset_internal env clear)
  unfolding reset_internal
  reset_internal-IsRouted true = search (routed_rules, Keeps-modify) depth 12
  reset_internal-IsRouted false = search (routed_rules, Keeps-modify) depth 12

  pub start_positive_ack_procedure-IsRouted : Keeps IsRouted (start_positive_ack_procedure env)
  unfolding start_positive_ack_procedure
  start_positive_ack_procedure-IsRouted = search (routed_rules) depth 12

  pub wait_for_closure-IsRouted : Keeps IsRouted (wait_for_closure env)
  unfolding wait_for_closure
  wait_for_closure-IsRouted = search (routed_rules) depth 12

  pub handle_eof_sent-IsRouted : (b : Bool) → Keeps IsRouted (handle_eof_sent env b)
  unfolding handle_eof_sent
  handle_eof_sent-IsRouted b =
      search
        (
          routed_rules, start_positive_ack_procedure-IsRouted, reset_internal-IsRouted,
          wait_for_closure-IsRouted,
        )
        depth 12

  pub abandon_canceled-IsRouted : Keeps IsRouted (abandon_canceled env)
  unfolding abandon_canceled reset
  abandon_canceled-IsRouted = search (routed_rules, reset_internal-IsRouted) depth 12

  pub notice_of_cancellation_at-IsRouted :
      (c : ConditionCode) → Keeps IsRouted (notice_of_cancellation_at env c)
  unfolding notice_of_cancellation_at
  notice_of_cancellation_at-IsRouted c =
      search
        (
          routed_rules, abandon_canceled-IsRouted, checksum_calculation-IsRouted,
          prepare_eof_pdu-IsRouted, handle_eof_sent-IsRouted,
        )
        depth 12

  handle_fault-IsRouted :
      (fh : Option FaultHandlerCode) (c : ConditionCode) → Keeps IsRouted (handle_fault env fh c)
  unfolding handle_fault reset
  handle_fault-IsRouted (some notice_of_cancellation) c = notice_of_cancellation_at-IsRouted c
  handle_fault-IsRouted (some abandon_transaction) c =
      search (routed_rules, reset_internal-IsRouted) depth 12
  handle_fault-IsRouted (some notice_of_suspension) c = Keeps-pure _
  handle_fault-IsRouted (some ignore_error) c = Keeps-pure _
  handle_fault-IsRouted none c = Keeps-pure _

  pub declare_fault-IsRouted : (c : ConditionCode) → Keeps IsRouted (declare_fault env c)
  unfolding declare_fault
  declare_fault-IsRouted c = search (routed_rules, handle_fault-IsRouted) depth 14

  pub notice_of_completion-IsRouted : Keeps IsRouted (notice_of_completion env)
  unfolding notice_of_completion finish_indication
  notice_of_completion-IsRouted = search (routed_rules, reset_internal-IsRouted) depth 12

  pub send_eof_again-IsRouted : (t : T) → Keeps IsRouted (send_eof_again env t)
  unfolding send_eof_again
  send_eof_again-IsRouted t =
      search (routed_rules, checksum_calculation-IsRouted, prepare_eof_pdu-IsRouted) depth 12

  pub handle_positive_ack_procedures-IsRouted : Keeps IsRouted (handle_positive_ack_procedures env)
  unfolding handle_positive_ack_procedures
  handle_positive_ack_procedures-IsRouted =
      search (routed_rules, declare_fault-IsRouted, send_eof_again-IsRouted) depth 12
