-- ===== src/Dest/Queue/Machine.antt =====
-- The calls of the handler keep the queue in order.
use cfdp_py.Base.Int.{pos}
use cfdp_py.Base.{length, All, ℕ, zero, suc, arith, false, Option, none, some, List, [], ◌∷◌, ◌≡◌}
use cfdp_py.Protocol.{
  positive_ack_limit_reached, Pdu, PduBody, file_data, eof, TransactionId, TransmissionMode,
  acknowledged, unacknowledged,
}
use cfdp_py.Proc.{pure, Proc}
use cfdp_py.Proc.Holds.{
  Keeps-gets, Keeps, Keeps-skip, Keeps-raise, Keeps-if, Keeps-bind, Keeps-pure,
}
use cfdp_py.User.{Env}
use cfdp_py.Dest.State.{is_canceled, DestState, TransactionStep}
use cfdp_py.Dest.Queue.{IsForSource, IsQueueOk, queue_rules}
use cfdp_py.Dest.Machine.{
  first_packet_not_metadata, handle_first_packet_not_metadata_pdu, get_next_packet, next_of,
  check_inserted_packet, cancel_current, cancel_if_same, cancel_request, reset, eof_ack_sent,
  fsm_advancement_after_packets_were_sent, handle_transfer_completion, start_positive_ack_procedure,
  handle_finished_pdu_sent, send_finished_again, positive_ack_limit, handle_positive_ack_procedures,
  handle_waiting_for_finished_ack, in_step, packet_or_skip, missing_data_packet, receive_packet,
  non_idle_fsm, check_packet, run_if_busy, state_machine_call, state_machine,
  refuse_first_directive,
}
use cfdp_py.Dest.Queue.Faults.{
  declare_fault-IsQueueOk, checksum_verify-IsQueueOk, notice_of_completion-IsQueueOk,
  prepare_finished_pdu-IsQueueOk, reset_internal-IsQueueOk,
  trigger_notice_of_completion_canceled-IsQueueOk,
}
use cfdp_py.Dest.Queue.Segments.{
  deferred_lost_segment_handling-IsQueueOk, start_deferred_lost_segment_handling-IsQueueOk,
}
use cfdp_py.Dest.Queue.Receive.{
  handle_fd_pdu-IsQueueOk, handle_fd_or_eof_pdu-IsQueueOk, check_limit_handling-IsQueueOk,
}
use cfdp_py.Dest.Queue.Start.{
  idle_fsm-IsQueueOk, reset_nak_activity_if_active-IsQueueOk,
  handle_waiting_for_missing_metadata-IsQueueOk,
}

module _ {F T : Type 0} where
  refuse_first_directive-IsQueueOk :
      (body : PduBody) (pdu : Pdu)
      → Keeps IsQueueOk (refuse_first_directive {F = F} {T = T} body pdu)
  refuse_first_directive-IsQueueOk (file_data o d m) pdu = Keeps-skip
  refuse_first_directive-IsQueueOk (eof c n k) pdu = Keeps-skip
  refuse_first_directive-IsQueueOk _ pdu = Keeps-raise _

  first_packet_not_metadata-IsQueueOk :
      (mode : TransmissionMode) (pdu : Pdu)
      → Keeps IsQueueOk (first_packet_not_metadata {F = F} {T = T} mode pdu)
  first_packet_not_metadata-IsQueueOk unacknowledged pdu = Keeps-raise _
  first_packet_not_metadata-IsQueueOk acknowledged pdu =
      refuse_first_directive-IsQueueOk pdu.body pdu

  handle_first_packet_not_metadata_pdu-IsQueueOk :
      (pdu : Pdu) → Keeps IsQueueOk (handle_first_packet_not_metadata_pdu {F = F} {T = T} pdu)
  unfolding handle_first_packet_not_metadata_pdu
  handle_first_packet_not_metadata_pdu-IsQueueOk pdu =
      first_packet_not_metadata-IsQueueOk pdu.pdu_conf.trans_mode pdu

  next_of-IsQueueOk :
      (s : DestState F T) (pdus : List Pdu)
      → IsQueueOk s
      → s.states.num_packets_ready ≡ pos (length pdus)
      → All IsForSource pdus
      → IsQueueOk (next_of pdus s).1
  unfolding pure
  next_of-IsQueueOk s [] h n a = h
  next_of-IsQueueOk s (pdu ∷ pdus) h n a = record { counted = ground arith; routed = a.1 }

  pub get_next_packet-IsQueueOk : Keeps IsQueueOk (get_next_packet {F = F} {T = T})
  unfolding get_next_packet
  get_next_packet-IsQueueOk = record {
    keep = λ s h. next_of-IsQueueOk s s.pdus_to_be_sent h h.counted h.routed;
  }

module _ {F T : Type 0} (env : Env F T) where
  pub check_inserted_packet-IsQueueOk :
      (pdu : Pdu) → Keeps IsQueueOk (check_inserted_packet env pdu)
  unfolding check_inserted_packet
  check_inserted_packet-IsQueueOk pdu =
      search (queue_rules, handle_first_packet_not_metadata_pdu-IsQueueOk) depth 14

  pub cancel_current-IsQueueOk : Keeps IsQueueOk (cancel_current env)
  unfolding cancel_current
  cancel_current-IsQueueOk =
      search (queue_rules, trigger_notice_of_completion_canceled-IsQueueOk) depth 12

  cancel_if_same-IsQueueOk :
      (id : TransactionId) (current : Option TransactionId)
      → Keeps IsQueueOk (cancel_if_same env id current)
  cancel_if_same-IsQueueOk id none = Keeps-pure false
  cancel_if_same-IsQueueOk id (some current) =
      Keeps-if _ _ _ cancel_current-IsQueueOk (Keeps-pure false)

  pub cancel_request-IsQueueOk : (id : TransactionId) → Keeps IsQueueOk (cancel_request env id)
  unfolding cancel_request
  cancel_request-IsQueueOk id = search (queue_rules, cancel_if_same-IsQueueOk) depth 12

  pub reset-IsQueueOk : Keeps IsQueueOk (reset env)
  unfolding reset
  reset-IsQueueOk = search (queue_rules, reset_internal-IsQueueOk) depth 12

  pub eof_ack_sent-IsQueueOk : Keeps IsQueueOk (eof_ack_sent env)
  unfolding eof_ack_sent
  eof_ack_sent-IsQueueOk =
      search
        (queue_rules, start_deferred_lost_segment_handling-IsQueueOk, checksum_verify-IsQueueOk)
        depth 12

  pub fsm_advancement_after_packets_were_sent-IsQueueOk :
      Keeps IsQueueOk (fsm_advancement_after_packets_were_sent env)
  unfolding fsm_advancement_after_packets_were_sent
  fsm_advancement_after_packets_were_sent-IsQueueOk =
      search (queue_rules, eof_ack_sent-IsQueueOk) depth 12

  pub handle_transfer_completion-IsQueueOk : Keeps IsQueueOk (handle_transfer_completion env)
  unfolding handle_transfer_completion
  handle_transfer_completion-IsQueueOk =
      search (queue_rules, notice_of_completion-IsQueueOk, reset_internal-IsQueueOk) depth 12

  pub start_positive_ack_procedure-IsQueueOk : Keeps IsQueueOk (start_positive_ack_procedure env)
  unfolding start_positive_ack_procedure
  start_positive_ack_procedure-IsQueueOk = search (queue_rules) depth 12

  pub handle_finished_pdu_sent-IsQueueOk : Keeps IsQueueOk (handle_finished_pdu_sent env)
  unfolding handle_finished_pdu_sent
  handle_finished_pdu_sent-IsQueueOk =
      search (queue_rules, start_positive_ack_procedure-IsQueueOk, reset_internal-IsQueueOk) depth
        12

  pub send_finished_again-IsQueueOk : Keeps IsQueueOk (send_finished_again env)
  unfolding send_finished_again
  send_finished_again-IsQueueOk = search (queue_rules, prepare_finished_pdu-IsQueueOk) depth 12

  pub in_step-IsQueueOk :
      (step : TransactionStep) (m : Proc (DestState F T) (Unit {0}))
      → Keeps IsQueueOk m
      → Keeps IsQueueOk (in_step env step m)
  unfolding in_step
  in_step-IsQueueOk step m k = search (queue_rules) depth 12

  packet_or_skip-IsQueueOk :
      (m : PduBody → Proc (DestState F T) (Unit {0})) (packet : Option Pdu)
      → ((body : PduBody) → Keeps IsQueueOk (m body))
      → Keeps IsQueueOk (packet_or_skip env m packet)
  packet_or_skip-IsQueueOk m none k = Keeps-skip
  packet_or_skip-IsQueueOk m (some pdu) k = k pdu.body

  missing_data_packet-IsQueueOk : (body : PduBody) → Keeps IsQueueOk (missing_data_packet env body)
  missing_data_packet-IsQueueOk (file_data o d m) =
      Keeps-bind _ _ (handle_fd_pdu-IsQueueOk env o d m)
        (λ _. reset_nak_activity_if_active-IsQueueOk env)
  missing_data_packet-IsQueueOk _ = Keeps-skip

  check_packet-IsQueueOk : (packet : Option Pdu) → Keeps IsQueueOk (check_packet env packet)
  unfolding check_packet
  check_packet-IsQueueOk none = Keeps-skip
  check_packet-IsQueueOk (some pdu) = check_inserted_packet-IsQueueOk pdu

  pub receive_packet-IsQueueOk : (packet : Option Pdu) → Keeps IsQueueOk (receive_packet env packet)
  unfolding receive_packet
  receive_packet-IsQueueOk packet =
      search (queue_rules, packet_or_skip-IsQueueOk, handle_fd_or_eof_pdu-IsQueueOk) depth 12

  module _ (again : Proc (DestState F T) (Unit {0})) (kept : Keeps IsQueueOk again) where
    pub positive_ack_limit-IsQueueOk : Keeps IsQueueOk (positive_ack_limit env again)
    unfolding positive_ack_limit
    positive_ack_limit-IsQueueOk =
        Keeps-bind _ _ (declare_fault-IsQueueOk env positive_ack_limit_reached) (λ _.
          Keeps-bind _ _ (Keeps-gets (λ s. s.params.completion_disposition))
            (λ d. Keeps-if (is_canceled d) _ _ kept send_finished_again-IsQueueOk))

    pub handle_positive_ack_procedures-IsQueueOk :
        Keeps IsQueueOk (handle_positive_ack_procedures env again)
    unfolding handle_positive_ack_procedures
    handle_positive_ack_procedures-IsQueueOk =
        search (queue_rules, positive_ack_limit-IsQueueOk, send_finished_again-IsQueueOk) depth 12

    pub handle_waiting_for_finished_ack-IsQueueOk :
        (packet : Option Pdu) → Keeps IsQueueOk (handle_waiting_for_finished_ack env again packet)
    unfolding handle_waiting_for_finished_ack
    handle_waiting_for_finished_ack-IsQueueOk packet =
        search (queue_rules, handle_positive_ack_procedures-IsQueueOk, reset_internal-IsQueueOk)
          depth 12

    pub non_idle_fsm-IsQueueOk :
        (packet : Option Pdu) → Keeps IsQueueOk (non_idle_fsm env again packet)
    unfolding non_idle_fsm
    non_idle_fsm-IsQueueOk packet =
        search
          (
            queue_rules, fsm_advancement_after_packets_were_sent-IsQueueOk,
            receive_packet-IsQueueOk, in_step-IsQueueOk,
            handle_waiting_for_missing_metadata-IsQueueOk, deferred_lost_segment_handling-IsQueueOk,
            check_limit_handling-IsQueueOk, packet_or_skip-IsQueueOk, missing_data_packet-IsQueueOk,
            handle_transfer_completion-IsQueueOk, prepare_finished_pdu-IsQueueOk,
            handle_finished_pdu_sent-IsQueueOk, handle_waiting_for_finished_ack-IsQueueOk,
          )
          depth 16

    pub run_if_busy-IsQueueOk :
        (packet : Option Pdu) → Keeps IsQueueOk (run_if_busy env again packet)
    unfolding run_if_busy
    run_if_busy-IsQueueOk packet = search (queue_rules, non_idle_fsm-IsQueueOk) depth 12

    pub state_machine_call-IsQueueOk :
        (packet : Option Pdu) → Keeps IsQueueOk (state_machine_call env again packet)
    unfolding state_machine_call
    state_machine_call-IsQueueOk packet =
        search (queue_rules, check_packet-IsQueueOk, idle_fsm-IsQueueOk, run_if_busy-IsQueueOk)
          depth 12

  pub state_machine-IsQueueOk :
      (depth : ℕ) (packet : Option Pdu) → Keeps IsQueueOk (state_machine env depth packet)
  unfolding state_machine
  state_machine-IsQueueOk zero packet = Keeps-raise _
  state_machine-IsQueueOk (suc depth) packet =
      state_machine_call-IsQueueOk (state_machine env depth none)
        (state_machine-IsQueueOk depth none) packet
