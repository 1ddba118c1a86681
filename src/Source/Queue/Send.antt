-- ===== src/Source/Queue/Send.antt =====
-- Sending file data, serving requests and waiting keep the queue routed.
use cfdp_py.Base.{ℕ, zero, suc, ◌+◌, ◌-◌, min, Bool, true, false, Option, none, some, List}
use cfdp_py.Protocol.{Pdu, PduBody, FinishedParams, DirectiveType, eof_pdu, ack}
use cfdp_py.Proc.{Proc}
use cfdp_py.Proc.Holds.{Keeps, Keeps-skip, Keeps-raise, Keeps-bind, Keeps-pure}
use cfdp_py.Source.State.{SourceState, SourceEnv}
use cfdp_py.Source.Queue.{IsRouted, routed_rules}
use cfdp_py.Source.Queue.Faults.{
  prepare_metadata_pdu-IsRouted, prepare_finished_ack_packet-IsRouted,
  prepare_file_data_pdu-IsRouted, prepare_progressing_file_data_pdu-IsRouted,
  declare_fault-IsRouted, handle_positive_ack_procedures-IsRouted,
}
use cfdp_py.Source.Faults.{handle_positive_ack_procedures}
use cfdp_py.Source.Send.{
  resend_chunks, resend_segment, handle_segment_req, retransmit, handle_retransmission,
  handle_retransmission_if_acked, end_of_file_data, send_file_data, sending_file_data_fsm,
  handle_waiting_for_ack, finished_received, check_finish_timer, handle_wait_for_finish,
  file_data_left, send_or_end, requests_of, retransmit_if, ack_or_timer, finished_or_timer,
  eof_acked,
}

module _ {F T : Type 0} (env : SourceEnv F T) where
  resend_chunks-IsRouted :
      (rounds len offset missing : ℕ) → Keeps IsRouted (resend_chunks env rounds len offset missing)
  unfolding resend_chunks
  resend_chunks-IsRouted rounds len offset zero = Keeps-skip
  resend_chunks-IsRouted zero len offset (suc missing) = Keeps-raise _
  resend_chunks-IsRouted (suc rounds) len offset (suc missing) =
      Keeps-bind _ _ (prepare_file_data_pdu-IsRouted env offset (min (suc missing) len)) (λ _.
        resend_chunks-IsRouted rounds len (offset + min (suc missing) len)
          (suc missing - min (suc missing) len))

  pub resend_segment-IsRouted : (a b : ℕ) → Keeps IsRouted (resend_segment env a b)
  unfolding resend_segment
  resend_segment-IsRouted a b = search (routed_rules, resend_chunks-IsRouted) depth 12

  pub handle_segment_req-IsRouted : (r : ℕ × ℕ) → Keeps IsRouted (handle_segment_req env r)
  unfolding handle_segment_req
  handle_segment_req-IsRouted r =
      search (routed_rules, prepare_metadata_pdu-IsRouted, resend_segment-IsRouted) depth 12

  pub retransmit-IsRouted : (rs : List (ℕ × ℕ)) → Keeps IsRouted (retransmit env rs)
  unfolding retransmit
  retransmit-IsRouted rs = search (routed_rules, handle_segment_req-IsRouted) depth 12

  retransmit_if-IsRouted : (o : Option (List (ℕ × ℕ))) → Keeps IsRouted (retransmit_if env o)
  retransmit_if-IsRouted none = Keeps-pure _
  retransmit_if-IsRouted (some rs) = search (routed_rules, retransmit-IsRouted) depth 12

  handle_retransmission-IsRouted : (p : Option Pdu) → Keeps IsRouted (handle_retransmission env p)
  unfolding handle_retransmission
  handle_retransmission-IsRouted p = retransmit_if-IsRouted (requests_of env p)

  pub handle_retransmission_if_acked-IsRouted :
      (p : Option Pdu) → Keeps IsRouted (handle_retransmission_if_acked env p)
  unfolding handle_retransmission_if_acked
  handle_retransmission_if_acked-IsRouted p =
      search (routed_rules, handle_retransmission-IsRouted) depth 12

  end_of_file_data-IsRouted : Keeps IsRouted (end_of_file_data env)
  unfolding end_of_file_data
  end_of_file_data-IsRouted = search (routed_rules) depth 12

  file_data_left-IsRouted :
      (b : Bool) (n : ℕ) (o : Option ℕ) → Keeps IsRouted (file_data_left env b n o)
  file_data_left-IsRouted true n o = Keeps-pure _
  file_data_left-IsRouted false n none = Keeps-raise _
  file_data_left-IsRouted false n (some size) = Keeps-pure _

  send_or_end-IsRouted : (o : Option ℕ) → Keeps IsRouted (send_or_end env o)
  send_or_end-IsRouted none = search (routed_rules, end_of_file_data-IsRouted) depth 12
  send_or_end-IsRouted (some n) =
      search (routed_rules, prepare_progressing_file_data_pdu-IsRouted) depth 12

  pub send_file_data-IsRouted : Keeps IsRouted (send_file_data env)
  unfolding send_file_data
  send_file_data-IsRouted =
      search (routed_rules, file_data_left-IsRouted, send_or_end-IsRouted) depth 12

  pub sending_file_data_fsm-IsRouted :
      (p : Option Pdu) → Keeps IsRouted (sending_file_data_fsm env p)
  unfolding sending_file_data_fsm
  sending_file_data_fsm-IsRouted p =
      search (routed_rules, handle_retransmission_if_acked-IsRouted, send_file_data-IsRouted) depth
        12

  eof_acked-IsRouted : (d : DirectiveType) → Keeps IsRouted (eof_acked env d)
  eof_acked-IsRouted eof_pdu = search (routed_rules) depth 12
  eof_acked-IsRouted _ = Keeps-skip

  body_or_timer-IsRouted :
      (b : PduBody)
      → Keeps IsRouted (elim b as (λ _. Proc (SourceState F T) (Unit {0})) [
        | ack acked cond status ↦ eof_acked env acked
        | _ ↦ handle_positive_ack_procedures env
      ])
  body_or_timer-IsRouted (ack a c t) = eof_acked-IsRouted a
  body_or_timer-IsRouted _ = handle_positive_ack_procedures-IsRouted env

  ack_or_timer-IsRouted : (p : Option Pdu) → Keeps IsRouted (ack_or_timer env p)
  ack_or_timer-IsRouted none = handle_positive_ack_procedures-IsRouted env
  ack_or_timer-IsRouted (some pdu) = body_or_timer-IsRouted pdu.body

  pub handle_waiting_for_ack-IsRouted :
      (p : Option Pdu) → Keeps IsRouted (handle_waiting_for_ack env p)
  unfolding handle_waiting_for_ack
  handle_waiting_for_ack-IsRouted p =
      search (routed_rules, handle_retransmission-IsRouted, ack_or_timer-IsRouted) depth 12

  pub finished_received-IsRouted : (p : FinishedParams) → Keeps IsRouted (finished_received env p)
  unfolding finished_received
  finished_received-IsRouted p =
      search (routed_rules, prepare_finished_ack_packet-IsRouted) depth 12

  pub check_finish_timer-IsRouted : Keeps IsRouted (check_finish_timer env)
  unfolding check_finish_timer
  check_finish_timer-IsRouted = search (routed_rules, declare_fault-IsRouted) depth 12

  finished_or_timer-IsRouted :
      (o : Option FinishedParams) → Keeps IsRouted (finished_or_timer env o)
  finished_or_timer-IsRouted none = check_finish_timer-IsRouted
  finished_or_timer-IsRouted (some p) = finished_received-IsRouted p

  pub handle_wait_for_finish-IsRouted :
      (p : Option Pdu) → Keeps IsRouted (handle_wait_for_finish env p)
  unfolding handle_wait_for_finish
  handle_wait_for_finish-IsRouted p =
      search (routed_rules, handle_retransmission_if_acked-IsRouted, finished_or_timer-IsRouted)
        depth 12
