-- ===== src/Source/State.antt =====
-- The state of the source handler: `SourceStateWrapper`, `_TransferFieldWrapper`,
-- `_SourceFileParams` and `_AckedModeParams` of src/cfdppy/handler/source.py, and the procedures that
-- write its fields.
use cfdp_py.Base.{ℕ, Bool, false, Option, none, some, List, [], ◌∷◌, ◌++◌, ◌==◌}
use cfdp_py.Base.Int.{ℤ, increment, is_positive}
use cfdp_py.Protocol.{
  TransactionId, TransmissionMode, FinishedParams, ConditionCode, PduConfig, Pdu, PduBody,
  UnsignedByteField,
}
use cfdp_py.Proc.{Proc, modify, on_part}
use cfdp_py.Mib.{RemoteEntityCfg}
use cfdp_py.User.{Env, Indication}
use cfdp_py.Request.{PutRequest}
use cfdp_py.Dest.State.{CfdpState, PositiveAckProcedureParams, mode_of}

pub data TransactionStep : Type 0 where
  idle transaction_start sending_metadata sending_file_data retransmitting : TransactionStep
  sending_eof waiting_for_eof_ack waiting_for_finished sending_ack_of_finished : TransactionStep
  notice_of_completion : TransactionStep

-- The value of the enumeration member.
abbrev pub step_value : TransactionStep → ℕ
step_value idle = 0
step_value transaction_start = 1
step_value sending_metadata = 3
step_value sending_file_data = 4
step_value retransmitting = 5
step_value sending_eof = 6
step_value waiting_for_eof_ack = 7
step_value waiting_for_finished = 8
step_value sending_ack_of_finished = 9
step_value notice_of_completion = 10

abbrev pub same_step : TransactionStep → TransactionStep → Bool
same_step a b = step_value a == step_value b

-- `crc32` is never read.
pub record SourceFileParams : Type 0 where
  pub progress : ℕ
  pub segment_len : ℕ
  pub metadata_only : Bool
  pub file_size : Option ℕ
  pub empty_file : Bool

-- `_SourceFileParams.empty()`: the file size is 0.
abbrev pub empty_fp : SourceFileParams
empty_fp = record {
  progress = 0;
  segment_len = 0;
  metadata_only = false;
  file_size = some 0;
  empty_file = false;
}

-- `reset()`: the file size is None.
unfoldable pub reset_fp : SourceFileParams → SourceFileParams
reset_fp fp = record {
  progress = 0;
  segment_len = 0;
  metadata_only = false;
  file_size = none;
  empty_file = false;
}

-- `_AckedModeParams`; its other two fields are never used.
pub record AckedModeParams : Type 0 where
  pub step_before_retransmission : Option TransactionStep

pub record TransferFields (T : Type 0) : Type 0 where
  pub transaction_id : Option TransactionId
  pub check_timer : Option T
  pub positive_ack_params : PositiveAckProcedureParams T
  pub cond_code_eof : Option ConditionCode
  pub ack_params : AckedModeParams
  pub fp : SourceFileParams
  pub finished_params : Option FinishedParams
  pub remote_cfg : Option RemoteEntityCfg
  pub closure_requested : Bool
  pub pdu_conf : PduConfig

-- `_TransferFieldWrapper(local_entity_id)`, with `PduConfig.empty()` of the packet library.
abbrev pub new_fields : {T : Type 0} → PduConfig → UnsignedByteField → TransferFields T
new_fields conf local_entity_id = record {
  transaction_id = none;
  check_timer = none;
  positive_ack_params = record { ack_timer = none; ack_counter = 0 };
  cond_code_eof = none;
  ack_params = record { step_before_retransmission = none };
  fp = empty_fp;
  finished_params = none;
  remote_cfg = none;
  closure_requested = false;
  pdu_conf = record conf { source_entity_id = local_entity_id };
}

-- `_TransferFieldWrapper.reset()`, which leaves `ack_params`.
unfoldable pub reset_fields : {T : Type 0} → PduConfig → TransferFields T → TransferFields T
unfolding reset_fp
reset_fields conf p = record {
  transaction_id = none;
  check_timer = none;
  positive_ack_params = record { ack_timer = none; ack_counter = 0 };
  cond_code_eof = none;
  ack_params = p.ack_params;
  fp = reset_fp p.fp;
  finished_params = none;
  remote_cfg = none;
  closure_requested = false;
  pdu_conf = conf;
}

pub record SourceStateWrapper : Type 0 where
  pub state : CfdpState
  pub step : TransactionStep
  pub num_packets_ready : ℤ

-- `indications` holds the calls of the user so far, `now` is the time of the clock, and `seq_count`
-- the state of the sequence number provider.
pub record SourceState (F T : Type 0) : Type 0 where
  pub states : SourceStateWrapper
  pub params : TransferFields T
  pub put_req : Option PutRequest
  pub pdus_to_be_sent : List Pdu
  pub store : F
  pub indications : List Indication
  pub now : ℕ
  pub seq_count : ℕ

-- What the source handler is given beside what both handlers are given: the sequence number
-- provider, which is a function of its count.
pub record SourceEnv (F T : Type 0) : Type 0 where
  pub env : Env F T
  pub open env use *
  pub seq_num : (seq_count : ℕ) → ℕ
  pub next_seq_count : (seq_count : ℕ) → ℕ
  pub max_bit_width : ℕ

module _ {F T : Type 0} where
  abbrev pub transmission_mode : SourceState F T → Option TransmissionMode
  transmission_mode s = mode_of s.states.state s.params.pdu_conf.trans_mode

  abbrev pub packets_ready : SourceState F T → Bool
  packets_ready s = is_positive s.states.num_packets_ready

  unfoldable pub modify_params :
      (TransferFields T → TransferFields T) → Proc (SourceState F T) (Unit {0})
  unfolding modify
  modify_params f = modify (λ s. record s { params = f s.params })

  abbrev pub modify_fp : (SourceFileParams → SourceFileParams) → Proc (SourceState F T) (Unit {0})
  modify_fp f = modify_params (λ p. record p { fp = f p.fp })

  abbrev pub modify_conf : (PduConfig → PduConfig) → Proc (SourceState F T) (Unit {0})
  modify_conf f = modify_params (λ p. record p { pdu_conf = f p.pdu_conf })

  unfoldable pub set_step : TransactionStep → Proc (SourceState F T) (Unit {0})
  unfolding modify
  set_step step = modify (λ s. record s { states = record s.states { step = step } })

  unfoldable pub set_state : CfdpState → Proc (SourceState F T) (Unit {0})
  unfolding modify
  set_state state = modify (λ s. record s { states = record s.states { state = state } })

  -- A call of the user.
  unfoldable pub indicate : Indication → Proc (SourceState F T) (Unit {0})
  unfolding modify
  indicate i = modify (λ s. record s { indications = s.indications ++ i ∷ [] })

  -- A call of the filestore.
  unfoldable pub on_store : {A : Type 0} → Proc F A → Proc (SourceState F T) A
  unfolding on_part
  on_store m = on_part (λ s. s.store) (λ f s. record s { store = f }) m

  -- `_add_packet_to_be_sent`, of a packet under the current configuration.
  unfoldable pub add_packet_to_be_sent : PduBody → Proc (SourceState F T) (Unit {0})
  unfolding modify
  add_packet_to_be_sent body = modify (λ s. record s {
    pdus_to_be_sent =
        s.pdus_to_be_sent ++ record { pdu_conf = s.params.pdu_conf; body = body } ∷ [];
    states = record s.states { num_packets_ready = increment s.states.num_packets_ready };
  })
