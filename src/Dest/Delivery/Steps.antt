-- ===== src/Dest/Delivery/Steps.antt =====
-- The steps of `__non_idle_fsm` and `state_machine` of src/cfdppy/handler/dest.py, one at a time.
use cfdp_py.Dest.Start.{idle_fsm}
use cfdp_py.Dest.Receive.{handle_fd_or_eof_pdu}
use cfdp_py.Protocol.{Pdu}
use cfdp_py.Dest.State.{
  packets_ready, CfdpState, sending_eof_ack_pdu, receiving_file_data, same_step, TransactionStep,
  DestState,
}
use cfdp_py.Proc.{◌>>◌, returned, Proc, run}
use cfdp_py.Dest.Machine.{
  non_idle_fsm, check_inserted_packet, run_if_busy, check_packet, state_machine_call, in_step,
  receive_packet, fsm_advancement_after_packets_were_sent, state_machine,
}
use cfdp_py.User.{Env}
use cfdp_py.Base.{none, suc, arith, some, ℕ, ◌≡◌, true, false, []}

module _ {F T : Type 0} (env : Env F T) where
  pub other_step :
      (step : TransactionStep) (n m : Proc (DestState F T) (Unit {0})) (s : DestState F T)
      → same_step s.states.step step ≡ false
      → (in_step env step n >> m) s ≡ m s
  unfolding in_step run
  other_step step n m s differs = ground (arith, differs)

  pub other_last_step :
      (step : TransactionStep) (n : Proc (DestState F T) (Unit {0})) (s : DestState F T)
      → same_step s.states.step step ≡ false
      → in_step env step n s ≡ (returned tt, s)
  unfolding in_step run
  other_last_step step n s differs = ground (arith, differs)

  pub this_step :
      (step : TransactionStep) (n m : Proc (DestState F T) (Unit {0})) (s t : DestState F T)
      → same_step s.states.step step ≡ true
      → n s ≡ (returned tt, t)
      → (in_step env step n >> m) s ≡ m t
  unfolding in_step run
  this_step step n m s t same e = ground (arith, same, e)

  pub nothing_to_advance :
      (s : DestState F T)
      → s.pdus_to_be_sent ≡ []
      → same_step s.states.step sending_eof_ack_pdu ≡ false
      → fsm_advancement_after_packets_were_sent env s ≡ (returned tt, s)
  unfolding fsm_advancement_after_packets_were_sent run
  nothing_to_advance s none_queued differs = ground (arith, none_queued, differs)

  pub receives_packet :
      (pdu : Pdu) (s : DestState F T)
      → s.states.step ≡ receiving_file_data
      → receive_packet env (some pdu) s ≡ handle_fd_or_eof_pdu env pdu.body s
  unfolding receive_packet run
  receives_packet pdu s step = ground (arith, step)

  pub busy_call :
      (depth : ℕ) (pdu : Pdu) (s : DestState F T)
      → check_inserted_packet env pdu s ≡ (returned tt, s)
      → s.states.state ≡ CfdpState.busy
      → state_machine env (suc depth) (some pdu) s
        ≡ non_idle_fsm env (state_machine env depth none) (some pdu) s
  unfolding state_machine state_machine_call check_packet run_if_busy run
  busy_call depth pdu s passed busy = ground (arith, passed, busy)

  pub idle_call :
      (depth : ℕ) (pdu : Pdu) (s t : DestState F T)
      → check_inserted_packet env pdu s ≡ (returned tt, s)
      → s.states.state ≡ CfdpState.idle
      → idle_fsm env (some pdu) s ≡ (returned tt, t)
      → packets_ready t ≡ false
      → t.states.state ≡ CfdpState.busy
      → state_machine env (suc depth) (some pdu) s
        ≡ non_idle_fsm env (state_machine env depth none) (some pdu) t
  unfolding state_machine state_machine_call check_packet run_if_busy run
  idle_call depth pdu s t passed idle begun not_ready busy =
      ground (arith, passed, idle, begun, not_ready, busy)
