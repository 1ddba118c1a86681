-- ===== src/Source/Properties.antt =====
-- The properties of `SourceHandler` and of its fields in src/cfdppy/handler/source.py, with those that
-- can be assigned.
use cfdp_py.Request.{PutRequest}
use cfdp_py.Proc.{Proc}
use cfdp_py.Protocol.{TransactionId, TransmissionMode, PduConfig, UnsignedByteField}
use cfdp_py.Dest.State.{CfdpState}
use cfdp_py.Base.{none, Option, ℕ}
use cfdp_py.Source.Machine.{state_machine}
use cfdp_py.Source.State.{TransactionStep, SourceState, SourceEnv, TransferFields}

module _ {T : Type 0} where
  unfoldable pub source_id : TransferFields T → UnsignedByteField
  source_id p = p.pdu_conf.source_entity_id

  unfoldable pub set_source_id : UnsignedByteField → TransferFields T → TransferFields T
  set_source_id id p = record p { pdu_conf = record p.pdu_conf { source_entity_id = id } }

  unfoldable pub dest_id : TransferFields T → UnsignedByteField
  dest_id p = p.pdu_conf.dest_entity_id

  unfoldable pub set_dest_id : UnsignedByteField → TransferFields T → TransferFields T
  set_dest_id id p = record p { pdu_conf = record p.pdu_conf { dest_entity_id = id } }

  unfoldable pub set_transmission_mode : TransmissionMode → TransferFields T → TransferFields T
  set_transmission_mode mode p = record p { pdu_conf = record p.pdu_conf { trans_mode = mode } }

  unfoldable pub transaction_seq_num : TransferFields T → UnsignedByteField
  transaction_seq_num p = p.pdu_conf.transaction_seq_num

  unfoldable pub set_transaction_seq_num : UnsignedByteField → TransferFields T → TransferFields T
  set_transaction_seq_num number p = record p {
    pdu_conf = record p.pdu_conf { transaction_seq_num = number };
  }

module _ {F T : Type 0} where
  unfoldable pub entity_id : SourceEnv F T → UnsignedByteField
  entity_id env = env.cfg.local_entity_id

  -- The configuration of the local entity and the fields of the transfer change both.
  unfoldable pub set_entity_id :
      UnsignedByteField → SourceEnv F T → SourceState F T → SourceEnv F T × SourceState F T
  unfolding set_source_id
  set_entity_id id env s = (
    record env { env = record env.env { cfg = record env.env.cfg { local_entity_id = id } } },
    record s { params = set_source_id id s.params },
  )

  unfoldable pub pdu_conf : SourceState F T → PduConfig
  pdu_conf s = s.params.pdu_conf

  unfoldable pub positive_ack_counter : SourceState F T → ℕ
  positive_ack_counter s = s.params.positive_ack_params.ack_counter

  unfoldable pub state : SourceState F T → CfdpState
  state s = s.states.state

  unfoldable pub step : SourceState F T → TransactionStep
  step s = s.states.step

  unfoldable pub progress : SourceState F T → ℕ
  progress s = s.params.fp.progress

  unfoldable pub file_size : SourceState F T → Option ℕ
  file_size s = s.params.fp.file_size

  unfoldable pub get_put_request : SourceState F T → Option PutRequest
  get_put_request s = s.put_req

  unfoldable pub transaction_id : SourceState F T → Option TransactionId
  transaction_id s = s.params.transaction_id

  unfoldable pub state_machine_no_packet : SourceEnv F T → Proc (SourceState F T) (Unit {0})
  state_machine_no_packet env = state_machine env none
