-- ===== src/Dest/Properties.antt =====
-- The properties of `DestHandler` of src/cfdppy/handler/dest.py that its user reads.
use cfdp_py.Protocol.{TransactionId, UnsignedByteField}
use cfdp_py.Base.Int.{ℤ}
use cfdp_py.Base.{Option, Bool, ℕ}
use cfdp_py.User.{Env}
use cfdp_py.Dest.State.{TransactionStep, CfdpState, DestState}

module _ {F T : Type 0} where
  unfoldable pub entity_id : Env F T → UnsignedByteField
  entity_id env = env.cfg.local_entity_id

  unfoldable pub closure_requested : DestState F T → Bool
  closure_requested s = s.params.closure_requested

  unfoldable pub progress : DestState F T → ℕ
  progress s = s.params.fp.progress

  unfoldable pub file_size : DestState F T → Option ℕ
  file_size s = s.params.fp.file_size

  unfoldable pub state : DestState F T → CfdpState
  state s = s.states.state

  unfoldable pub step : DestState F T → TransactionStep
  step s = s.states.step

  unfoldable pub transaction_id : DestState F T → Option TransactionId
  transaction_id s = s.params.transaction_id

  unfoldable pub current_check_counter : DestState F T → ℕ
  current_check_counter s = s.params.current_check_count

  unfoldable pub deferred_lost_segment_procedure_active : DestState F T → Bool
  deferred_lost_segment_procedure_active s =
      s.params.acked_params.deferred_lost_segment_detection_active

  unfoldable pub nak_activity_counter : DestState F T → ℕ
  nak_activity_counter s = s.params.acked_params.nak_activity_counter

  unfoldable pub positive_ack_counter : DestState F T → ℕ
  positive_ack_counter s = s.params.positive_ack_params.ack_counter

  unfoldable pub num_packets_ready : DestState F T → ℤ
  num_packets_ready s = s.states.num_packets_ready
