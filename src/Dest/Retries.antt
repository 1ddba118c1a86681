-- ===== src/Dest/Retries.antt =====
-- The positive acknowledgement procedure of the destination handler at its limit.
use cfdp_py.Base.{
  ℕ, zero, suc, ◌+◌, ◌≡◌, refl, true, none, some, [], ◌∷◌, ◌++◌, ap, ◌∙◌, arith, leb,
}
use cfdp_py.Protocol.{positive_ack_limit_reached, ignore_error, abandon_transaction, TransactionId}
use cfdp_py.Errors.{attribute_error, recursion_error}
use cfdp_py.Proc.{Proc, raised, run}
use cfdp_py.Mib.{get_fault_handler, report_fault, ignore_cb, RemoteEntityCfg}
use cfdp_py.User.{Env, fault_indication}
use cfdp_py.Dest.State.{
  DestState, CfdpState, canceled, modify_params, set_step, set_state, indicate,
  waiting_for_finished_ack,
}
use cfdp_py.Dest.Faults.{declare_fault, handle_fault, of_outcome, reset_internal, reset, abandon}
use cfdp_py.Dest.Machine.{
  handle_positive_ack_procedures, positive_ack_limit, send_finished_again, state_machine,
  state_machine_call, run_if_busy, non_idle_fsm, check_packet, in_step, receive_packet,
  fsm_advancement_after_packets_were_sent, handle_waiting_for_finished_ack,
}

-- The handler waits for the acknowledgement of its Finished PDU, whose timer ran out for the last
-- time.
pub record IsAtLimit {F T : Type 0} (env : Env F T) (id : TransactionId) (cfg : RemoteEntityCfg)
    (timer : T) (s : DestState F T) : Type 0 where
  pub is_busy : s.states.state ≡ CfdpState.busy
  pub waiting : s.states.step ≡ waiting_for_finished_ack
  pub no_packets : s.pdus_to_be_sent ≡ []
  pub transaction : s.params.transaction_id ≡ some id
  pub remote : s.params.remote_cfg ≡ some cfg
  pub timer_set : s.params.positive_ack_params.ack_timer ≡ some timer
  pub ran_out : env.timed_out timer s.now ≡ true
  pub limit :
      leb cfg.positive_ack_timer_expiration_limit (s.params.positive_ack_params.ack_counter + 1)
      ≡ true

module _ {F T : Type 0} (env : Env F T) (id : TransactionId) (cfg : RemoteEntityCfg)
    (timer : T) where
  -- Where the fault handler abandons the transaction at the limit, the procedure goes on with the
  -- timer that the reset took away, and raises an AttributeError in the idle state.
  pub abandon_at_limit_raises :
      (again : Proc (DestState F T) (Unit {0})) (s : DestState F T)
      → IsAtLimit env id cfg timer s
      → get_fault_handler positive_ack_limit_reached env.cfg.default_fault_handlers
        ≡ some abandon_transaction
      → ((handle_positive_ack_procedures env again s).0 ≡ raised attribute_error)
        × ((handle_positive_ack_procedures env again s).1.states.state ≡ CfdpState.idle)
  unfolding handle_positive_ack_procedures positive_ack_limit send_finished_again declare_fault
      handle_fault of_outcome report_fault abandon reset reset_internal run modify_params set_step
      set_state indicate
  abandon_at_limit_raises again s l f = ground arith

  ignored-IsAtLimit :
      (again : Proc (DestState F T) (Unit {0})) (s : DestState F T)
      → IsAtLimit env id cfg timer s
      → s.params.completion_disposition ≡ canceled
      → get_fault_handler positive_ack_limit_reached env.cfg.default_fault_handlers
        ≡ some ignore_error
      → (t : DestState F T) × (handle_positive_ack_procedures env again s ≡ again t)
        × IsAtLimit env id cfg timer t
        × (t.params.completion_disposition ≡ canceled)
  unfolding handle_positive_ack_procedures positive_ack_limit declare_fault handle_fault of_outcome
      report_fault run indicate
  ignored-IsAtLimit again s l d f = (
    record s {
      indications =
          s.indications
          ++ fault_indication (ignore_cb id positive_ack_limit_reached s.params.fp.progress) ∷ [];
    },
    ground arith,
    record {
      is_busy = l.is_busy;
      waiting = l.waiting;
      no_packets = l.no_packets;
      transaction = l.transaction;
      remote = l.remote;
      timer_set = l.timer_set;
      ran_out = l.ran_out;
      limit = l.limit;
    },
    d,
  )

  -- A call of the state machine at the limit runs the procedure and nothing else.
  call_at_limit :
      (again : Proc (DestState F T) (Unit {0})) (s : DestState F T)
      → IsAtLimit env id cfg timer s
      → (state_machine_call env again none s).0 ≡ (handle_positive_ack_procedures env again s).0
  unfolding state_machine_call run_if_busy non_idle_fsm check_packet in_step receive_packet
      fsm_advancement_after_packets_were_sent handle_waiting_for_finished_ack run
  call_at_limit again s l = ground arith

  -- Where the fault handler ignores the fault at the limit and the transaction was canceled before,
  -- the state machine calls itself without end: whatever depth the interpreter allows, it is reached.
  pub ignored_cancel_recurses :
      (depth : ℕ) (s : DestState F T)
      → IsAtLimit env id cfg timer s
      → s.params.completion_disposition ≡ canceled
      → get_fault_handler positive_ack_limit_reached env.cfg.default_fault_handlers
        ≡ some ignore_error
      → (state_machine env depth none s).0 ≡ raised recursion_error
  unfolding state_machine
  ignored_cancel_recurses zero s l d f = unfold run in refl
  ignored_cancel_recurses (suc depth) s l d f =
      let (t, e, l', d') = ignored-IsAtLimit (state_machine env depth none) s l d f in
      call_at_limit (state_machine env depth none) s l
      ∙ ap (λ r. r.0) e
      ∙ ignored_cancel_recurses depth t l' d' f
