-- ===== src/Source/Queue/Machine.antt =====
-- The state machine and the public calls keep the queue routed.
use cfdp_py.Base.{Option, none, some, List, [], ◌∷◌, All}
use cfdp_py.Protocol.{Pdu, TransactionId, DirectiveType}
use cfdp_py.Proc.{Proc}
use cfdp_py.Proc.Holds.{Keeps, Keeps-skip, Keeps-pure}
use cfdp_py.Request.{PutRequest}
use cfdp_py.Source.State.{
  SourceState, SourceEnv, TransactionStep, sending_metadata, sending_file_data, retransmitting,
  sending_ack_of_finished,
}
use cfdp_py.Source.Queue.{IsRouted, IsForDest, routed_rules}
use cfdp_py.Source.Queue.Faults.{
  prepare_metadata_pdu-IsRouted, prepare_eof_pdu-IsRouted, checksum_calculation-IsRouted,
  handle_eof_sent-IsRouted, notice_of_cancellation_at-IsRouted, notice_of_completion-IsRouted,
}
use cfdp_py.Proc.{pure}
use cfdp_py.Source.Queue.Send.{
  sending_file_data_fsm-IsRouted, handle_waiting_for_ack-IsRouted, handle_wait_for_finish-IsRouted,
}
use cfdp_py.Source.Queue.Begin.{transaction_start-IsRouted}
use cfdp_py.Source.Machine.{
  next_of, get_next_packet, check_awaited, check_inserted_packet, cancel_current, cancel_if_same,
  cancel_request, handle_file_data_sent, resume_before_retransmission, advance_from,
  fsm_advancement_after_packets_were_sent, send_eof, later_steps, file_data_step, begin_transaction,
  run_steps, run_if_requested, fsm_non_idle, check_packet, state_machine,
}
use cfdp_py.Source.Machine

module _ {F T : Type 0} where
  next_of-IsRouted :
      (pdus : List Pdu) (s : SourceState F T)
      → All IsForDest pdus
      → IsRouted s
      → IsRouted (next_of pdus s).1
  unfolding pure
  next_of-IsRouted [] s a h = h
  next_of-IsRouted (pdu ∷ pdus) s a h = a.1

  pub get_next_packet-IsRouted : Keeps IsRouted (get_next_packet {F = F} {T = T})
  unfolding get_next_packet
  get_next_packet-IsRouted = record { keep = λ s h. next_of-IsRouted s.pdus_to_be_sent s h h }

  pub check_awaited-IsRouted :
      (d : DirectiveType) (p : Pdu) → Keeps IsRouted (check_awaited {F = F} {T = T} d p)
  unfolding check_awaited
  check_awaited-IsRouted d p = search (routed_rules) depth 12

module _ {F T : Type 0} (env : SourceEnv F T) where
  pub check_inserted_packet-IsRouted : (p : Pdu) → Keeps IsRouted (check_inserted_packet env p)
  unfolding check_inserted_packet
  check_inserted_packet-IsRouted p = search (routed_rules, check_awaited-IsRouted) depth 20

  cancel_if_same-IsRouted :
      (a : TransactionId) (o : Option TransactionId) → Keeps IsRouted (cancel_if_same env a o)
  unfolding cancel_current
  cancel_if_same-IsRouted a none = Keeps-pure _
  cancel_if_same-IsRouted a (some id) =
      search (routed_rules, notice_of_cancellation_at-IsRouted) depth 12

  pub cancel_request-IsRouted : (a : TransactionId) → Keeps IsRouted (cancel_request env a)
  unfolding cancel_request
  cancel_request-IsRouted a = search (routed_rules, cancel_if_same-IsRouted) depth 12

  advance_from-IsRouted : (step : TransactionStep) → Keeps IsRouted (advance_from env step)
  unfolding resume_before_retransmission handle_file_data_sent
  advance_from-IsRouted sending_metadata = search (routed_rules) depth 12
  advance_from-IsRouted retransmitting = search (routed_rules) depth 12
  advance_from-IsRouted sending_file_data = search (routed_rules) depth 12
  advance_from-IsRouted sending_ack_of_finished = search (routed_rules) depth 12
  advance_from-IsRouted _ = Keeps-skip

  pub fsm_advancement_after_packets_were_sent-IsRouted :
      Keeps IsRouted (fsm_advancement_after_packets_were_sent env)
  unfolding fsm_advancement_after_packets_were_sent
  fsm_advancement_after_packets_were_sent-IsRouted =
      search (routed_rules, advance_from-IsRouted) depth 12

  in_step-IsRouted :
      (step : TransactionStep) (m : Proc (SourceState F T) (Unit {0}))
      → Keeps IsRouted m
      → Keeps IsRouted (Machine.in_step env step m)
  unfolding Machine.in_step
  in_step-IsRouted step m k = search (routed_rules) depth 12

  pub send_eof-IsRouted : Keeps IsRouted (send_eof env)
  unfolding send_eof
  send_eof-IsRouted =
      search
        (
          routed_rules, checksum_calculation-IsRouted, prepare_eof_pdu-IsRouted,
          handle_eof_sent-IsRouted,
        )
        depth 12

  pub later_steps-IsRouted : (p : Option Pdu) → Keeps IsRouted (later_steps env p)
  unfolding later_steps
  later_steps-IsRouted p =
      search
        (
          routed_rules, in_step-IsRouted, send_eof-IsRouted, handle_waiting_for_ack-IsRouted,
          handle_wait_for_finish-IsRouted, notice_of_completion-IsRouted,
        )
        depth 14

  pub file_data_step-IsRouted : (p : Option Pdu) → Keeps IsRouted (file_data_step env p)
  unfolding file_data_step
  file_data_step-IsRouted p =
      search (routed_rules, sending_file_data_fsm-IsRouted, later_steps-IsRouted) depth 12

  pub begin_transaction-IsRouted : (r : PutRequest) → Keeps IsRouted (begin_transaction env r)
  unfolding begin_transaction
  begin_transaction-IsRouted r =
      search (routed_rules, in_step-IsRouted, transaction_start-IsRouted) depth 12

  pub run_steps-IsRouted : (r : PutRequest) (p : Option Pdu) → Keeps IsRouted (run_steps env r p)
  unfolding run_steps
  run_steps-IsRouted r p =
      search
        (
          routed_rules, begin_transaction-IsRouted, prepare_metadata_pdu-IsRouted,
          file_data_step-IsRouted,
        )
        depth 12

  run_if_requested-IsRouted :
      (o : Option PutRequest) (p : Option Pdu) → Keeps IsRouted (run_if_requested env o p)
  run_if_requested-IsRouted none p = Keeps-skip
  run_if_requested-IsRouted (some r) p = run_steps-IsRouted r p

  pub fsm_non_idle-IsRouted : (p : Option Pdu) → Keeps IsRouted (fsm_non_idle env p)
  unfolding fsm_non_idle
  fsm_non_idle-IsRouted p =
      search
        (routed_rules, fsm_advancement_after_packets_were_sent-IsRouted, run_if_requested-IsRouted)
        depth 12

  check_packet-IsRouted : (p : Option Pdu) → Keeps IsRouted (check_packet env p)
  check_packet-IsRouted none = Keeps-skip
  check_packet-IsRouted (some pdu) = check_inserted_packet-IsRouted pdu

  pub state_machine-IsRouted : (p : Option Pdu) → Keeps IsRouted (state_machine env p)
  unfolding state_machine
  state_machine-IsRouted p =
      search (routed_rules, check_packet-IsRouted, fsm_non_idle-IsRouted) depth 12
