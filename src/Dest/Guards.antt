-- ===== src/Dest/Guards.antt =====
-- The test of the packets left to send in a call of the destination handler.
use cfdp_py.Base.{ℕ, suc, ◌≡◌, none, List, ◌∷◌, arith}
use cfdp_py.Protocol.{Pdu}
use cfdp_py.Errors.{unretrieved_pdus_to_be_sent}
use cfdp_py.Proc.{raised, run}
use cfdp_py.User.{Env}
use cfdp_py.Dest.State.{DestState, CfdpState}
use cfdp_py.Dest.Machine.{
  state_machine, state_machine_call, check_packet, run_if_busy, non_idle_fsm,
  fsm_advancement_after_packets_were_sent,
}

module _ {F T : Type 0} (env : Env F T) where
  -- A busy handler with a packet left to send raises on a call without a packet, whatever the step,
  -- and its state does not change: nothing is lost, and the call can be made again.
  pub state_machine-unretrieved :
      (depth : ℕ) (pdu : Pdu) (pdus : List Pdu) (s : DestState F T)
      → s.states.state ≡ CfdpState.busy
      → s.pdus_to_be_sent ≡ pdu ∷ pdus
      → state_machine env (suc depth) none s ≡ (raised unretrieved_pdus_to_be_sent, s)
  unfolding state_machine state_machine_call check_packet run_if_busy non_idle_fsm
      fsm_advancement_after_packets_were_sent run
  state_machine-unretrieved depth pdu pdus s b q = ground arith
