-- ===== src/Dest/State.antt =====
-- The state of the destination handler: `DestStateWrapper`, `_DestFieldWrapper`, `_DestFileParams`
-- and `_AckedModeParams` of src/cfdppy/handler/dest.py, and the procedures that write its fields.
use cfdp_py.Base.{ℕ, Bool, true, false, Option, none, some, List, [], ◌∷◌, ◌++◌, ◌==◌}
use cfdp_py.Base.Int.{ℤ, increment, is_positive}
use cfdp_py.FilePath.{FilePath, empty}
use cfdp_py.Protocol.{
  TransactionId, TransmissionMode, acknowledged, unacknowledged, ChecksumType, null_checksum,
  FinishedParams, data_incomplete, file_status_unreported, no_error, PduConfig, Pdu, PduBody,
}
use cfdp_py.Proc.{Proc, modify, on_part}
use cfdp_py.Mib.{RemoteEntityCfg}
use cfdp_py.User.{Indication}
use cfdp_py.Tracker.{LostSegmentTracker}

pub data CfdpState : Type 0 where
  idle busy suspended : CfdpState

abbrev pub is_idle : CfdpState → Bool
is_idle idle = true
is_idle _ = false

abbrev pub is_busy : CfdpState → Bool
is_busy busy = true
is_busy _ = false

pub data CompletionDisposition : Type 0 where
  completed canceled : CompletionDisposition

abbrev pub is_canceled : CompletionDisposition → Bool
is_canceled completed = false
is_canceled canceled = true

pub data TransactionStep : Type 0 where
  idle transaction_start waiting_for_metadata receiving_file_data : TransactionStep
  recv_file_data_with_check_limit_handling sending_eof_ack_pdu : TransactionStep
  waiting_for_missing_data transfer_completion sending_finished_pdu : TransactionStep
  waiting_for_finished_ack : TransactionStep

-- The value of the enumeration member.
abbrev pub step_value : TransactionStep → ℕ
step_value idle = 0
step_value transaction_start = 1
step_value waiting_for_metadata = 2
step_value receiving_file_data = 3
step_value recv_file_data_with_check_limit_handling = 4
step_value sending_eof_ack_pdu = 5
step_value waiting_for_missing_data = 6
step_value transfer_completion = 7
step_value sending_finished_pdu = 8
step_value waiting_for_finished_ack = 9

abbrev pub same_step : TransactionStep → TransactionStep → Bool
same_step a b = step_value a == step_value b

pub record DestFileParams : Type 0 where
  pub progress : ℕ
  pub segment_len : ℕ
  pub crc32 : List ℕ
  pub metadata_only : Bool
  pub file_size : Option ℕ
  pub file_name : FilePath
  pub file_size_eof : Option ℕ

abbrev pub empty_fp : DestFileParams
empty_fp = record {
  progress = 0;
  segment_len = 0;
  crc32 = [];
  metadata_only = false;
  file_size = none;
  file_name = empty;
  file_size_eof = none;
}

-- `_AckedModeParams` without `lost_seg_tracker`. Its default is one object, made when the class is
-- read, so the tracker of every new `_AckedModeParams` is that same object: it is a field of the
-- handler's state, which a new `_DestFieldWrapper` does not touch.
pub record AckedModeParams (T : Type 0) : Type 0 where
  pub metadata_missing : Bool
  pub last_start_offset : ℕ
  pub last_end_offset : ℕ
  pub deferred_lost_segment_detection_active : Bool
  pub procedure_timer : Option T
  pub nak_activity_counter : ℕ

pub record PositiveAckProcedureParams (T : Type 0) : Type 0 where
  pub ack_timer : Option T
  pub ack_counter : ℕ

pub record DestFields (T : Type 0) : Type 0 where
  pub transaction_id : Option TransactionId
  pub remote_cfg : Option RemoteEntityCfg
  pub check_timer : Option T
  pub current_check_count : ℕ
  pub closure_requested : Bool
  pub checksum_type : ChecksumType
  pub finished_params : FinishedParams
  pub completion_disposition : CompletionDisposition
  pub pdu_conf : PduConfig
  pub fp : DestFileParams
  pub acked_params : AckedModeParams T
  pub positive_ack_params : PositiveAckProcedureParams T

pub record DestStateWrapper : Type 0 where
  pub state : CfdpState
  pub step : TransactionStep
  pub transaction_id : Option TransactionId
  pub num_packets_ready : ℤ

-- `indications` holds the calls of the user so far, and `now` is the time of the clock.
pub record DestState (F T : Type 0) : Type 0 where
  pub states : DestStateWrapper
  pub params : DestFields T
  pub lost_seg_tracker : LostSegmentTracker
  pub pdus_to_be_sent : List Pdu
  pub store : F
  pub indications : List Indication
  pub now : ℕ

abbrev pub initial_finished : FinishedParams
initial_finished = record {
  delivery_code = data_incomplete;
  file_status = file_status_unreported;
  condition_code = no_error;
  fault_location = none;
}

-- `_DestFieldWrapper()`, with `PduConfig.empty()` of the packet library.
abbrev pub new_fields : {T : Type 0} → PduConfig → DestFields T
new_fields conf = record {
  transaction_id = none;
  remote_cfg = none;
  check_timer = none;
  current_check_count = 0;
  closure_requested = false;
  checksum_type = null_checksum;
  finished_params = initial_finished;
  completion_disposition = completed;
  pdu_conf = conf;
  fp = empty_fp;
  acked_params = record {
    metadata_missing = false;
    last_start_offset = 0;
    last_end_offset = 0;
    deferred_lost_segment_detection_active = false;
    procedure_timer = none;
    nak_activity_counter = 0;
  };
  positive_ack_params = record { ack_timer = none; ack_counter = 0 };
}

abbrev pub mode_of : CfdpState → TransmissionMode → Option TransmissionMode
mode_of idle m = none
mode_of busy m = some m
mode_of suspended m = some m

abbrev pub is_acked : Option TransmissionMode → Bool
is_acked none = false
is_acked (some acknowledged) = true
is_acked (some unacknowledged) = false

abbrev pub is_unacked : Option TransmissionMode → Bool
is_unacked none = false
is_unacked (some acknowledged) = false
is_unacked (some unacknowledged) = true

module _ {F T : Type 0} where
  abbrev pub transmission_mode : DestState F T → Option TransmissionMode
  transmission_mode s = mode_of s.states.state s.params.pdu_conf.trans_mode

  abbrev pub packets_ready : DestState F T → Bool
  packets_ready s = is_positive s.states.num_packets_ready

  unfoldable pub modify_params : (DestFields T → DestFields T) → Proc (DestState F T) (Unit {0})
  unfolding modify
  modify_params f = modify (λ s. record s { params = f s.params })

  abbrev pub modify_fp : (DestFileParams → DestFileParams) → Proc (DestState F T) (Unit {0})
  modify_fp f = modify_params (λ p. record p { fp = f p.fp })

  abbrev pub modify_acked :
      (AckedModeParams T → AckedModeParams T) → Proc (DestState F T) (Unit {0})
  modify_acked f = modify_params (λ p. record p { acked_params = f p.acked_params })

  abbrev pub modify_finished : (FinishedParams → FinishedParams) → Proc (DestState F T) (Unit {0})
  modify_finished f = modify_params (λ p. record p { finished_params = f p.finished_params })

  unfoldable pub set_tracker : LostSegmentTracker → Proc (DestState F T) (Unit {0})
  unfolding modify
  set_tracker t = modify (λ s. record s { lost_seg_tracker = t })

  unfoldable pub set_step : TransactionStep → Proc (DestState F T) (Unit {0})
  unfolding modify
  set_step step = modify (λ s. record s { states = record s.states { step = step } })

  unfoldable pub set_state : CfdpState → Proc (DestState F T) (Unit {0})
  unfolding modify
  set_state state = modify (λ s. record s { states = record s.states { state = state } })

  -- A call of the user.
  unfoldable pub indicate : Indication → Proc (DestState F T) (Unit {0})
  unfolding modify
  indicate i = modify (λ s. record s { indications = s.indications ++ i ∷ [] })

  -- A call of the filestore.
  unfoldable pub on_store : {A : Type 0} → Proc F A → Proc (DestState F T) A
  unfolding on_part
  on_store m = on_part (λ s. s.store) (λ f s. record s { store = f }) m

  -- `_add_packet_to_be_sent`, of a packet under the current configuration.
  unfoldable pub add_packet_to_be_sent : PduBody → Proc (DestState F T) (Unit {0})
  unfolding modify
  add_packet_to_be_sent body = modify (λ s. record s {
    pdus_to_be_sent =
        s.pdus_to_be_sent ++ record { pdu_conf = s.params.pdu_conf; body = body } ∷ [];
    states = record s.states { num_packets_ready = increment s.states.num_packets_ready };
  })
