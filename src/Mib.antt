-- ===== src/Mib.antt =====
-- src/cfdppy/mib.py: the fault handler table, the configurations and the table of remote entities.
pub mod Faults
pub mod Remotes
use cfdp_py.Base.{ℕ, Bool, true, false, Option, none, some, List, [], ◌∷◌, if◌then◌else◌, any}
use cfdp_py.Base.Dict
use cfdp_py.Protocol.{
  UnsignedByteField, TransmissionMode, ConditionCode, no_error, positive_ack_limit_reached,
  keep_alive_limit_reached, invalid_transmission_mode, filestore_rejection, file_checksum_failure,
  file_size_error, nak_limit_reached, inactivity_detected, check_limit_reached,
  unsupported_checksum_type, cancel_request_received, condition_number, FaultHandlerCode,
  notice_of_cancellation, notice_of_suspension, ignore_error, abandon_transaction, ChecksumType,
  TransactionId,
}
use cfdp_py.Errors.{Error, value_error}
use cfdp_py.Proc.{Outcome, returned, raised}

-- `DefaultFaultHandlerBase`, without the callbacks; a condition code stands as its number.
pub record DefaultFaultHandlers : Type 0 where
  pub handler_dict : List (ℕ × FaultHandlerCode)

abbrev entry : ConditionCode → FaultHandlerCode → ℕ × FaultHandlerCode
entry c h = (condition_number c, h)

abbrev pub default_fault_handlers : DefaultFaultHandlers
default_fault_handlers = record {
  handler_dict =
      entry cancel_request_received notice_of_cancellation
      ∷ entry positive_ack_limit_reached notice_of_cancellation
      ∷ entry keep_alive_limit_reached notice_of_cancellation
      ∷ entry invalid_transmission_mode notice_of_cancellation
      ∷ entry file_checksum_failure ignore_error
      ∷ entry file_size_error notice_of_cancellation
      ∷ entry filestore_rejection notice_of_cancellation
      ∷ entry nak_limit_reached notice_of_cancellation
      ∷ entry inactivity_detected notice_of_cancellation
      ∷ entry check_limit_reached notice_of_cancellation
      ∷ entry unsupported_checksum_type ignore_error
      ∷ [];
}

unfoldable pub get_fault_handler : ConditionCode → DefaultFaultHandlers → Option FaultHandlerCode
get_fault_handler c d = Dict.get (condition_number c) d.handler_dict

abbrev pub set_if_known :
    Option FaultHandlerCode
    → ConditionCode
    → FaultHandlerCode
    → DefaultFaultHandlers
    → Outcome DefaultFaultHandlers
set_if_known none c h d = raised value_error
set_if_known (some old) c h d =
    returned (record { handler_dict = Dict.update (condition_number c) h d.handler_dict })

unfoldable pub set_handler :
    ConditionCode → FaultHandlerCode → DefaultFaultHandlers → Outcome DefaultFaultHandlers
unfolding get_fault_handler
set_handler c h d = set_if_known (get_fault_handler c d) c h d

-- A call of one of the four fault callbacks of the user.
pub data FaultCallback : Type 0 where
  notice_of_cancellation_cb : TransactionId → ConditionCode → ℕ → FaultCallback
  notice_of_suspension_cb : TransactionId → ConditionCode → ℕ → FaultCallback
  ignore_cb : TransactionId → ConditionCode → ℕ → FaultCallback
  abandoned_cb : TransactionId → ConditionCode → ℕ → FaultCallback

abbrev pub callback_for : FaultHandlerCode → TransactionId → ConditionCode → ℕ → FaultCallback
callback_for notice_of_cancellation t c n = notice_of_cancellation_cb t c n
callback_for notice_of_suspension t c n = notice_of_suspension_cb t c n
callback_for ignore_error t c n = ignore_cb t c n
callback_for abandon_transaction t c n = abandoned_cb t c n

abbrev pub report_if_known :
    Option FaultHandlerCode → TransactionId → ConditionCode → ℕ → Outcome FaultCallback
report_if_known none t c n = raised value_error
report_if_known (some h) t c n = returned (callback_for h t c n)

-- `report_fault` calls one callback, or raises.
unfoldable pub report_fault :
    TransactionId → ConditionCode → ℕ → DefaultFaultHandlers → Outcome FaultCallback
unfolding get_fault_handler
report_fault t c progress d = report_if_known (get_fault_handler c d) t c progress

pub data EntityType : Type 0 where
  sending receiving : EntityType

pub record IndicationCfg : Type 0 where
  pub eof_sent_indication_required : Bool
  pub eof_recv_indication_required : Bool
  pub file_segment_recvd_indication_required : Bool
  pub transaction_finished_indication_required : Bool
  pub suspended_indication_required : Bool
  pub resumed_indication_required : Bool

abbrev pub default_indications : IndicationCfg
default_indications = record {
  eof_sent_indication_required = true;
  eof_recv_indication_required = true;
  file_segment_recvd_indication_required = true;
  transaction_finished_indication_required = true;
  suspended_indication_required = true;
  resumed_indication_required = true;
}

pub record LocalEntityCfg : Type 0 where
  pub local_entity_id : UnsignedByteField
  pub indication_cfg : IndicationCfg
  pub default_fault_handlers : DefaultFaultHandlers

-- The intervals are whole numbers of some unit that only the timers read.
pub record RemoteEntityCfg : Type 0 where
  pub entity_id : UnsignedByteField
  pub max_file_segment_len : Option ℕ
  pub max_packet_len : ℕ
  pub closure_requested : Bool
  pub crc_on_transmission : Bool
  pub default_transmission_mode : TransmissionMode
  pub crc_type : ChecksumType
  pub positive_ack_timer_interval_seconds : ℕ
  pub positive_ack_timer_expiration_limit : ℕ
  pub check_limit : ℕ
  pub disposition_on_cancellation : Bool
  pub immediate_nak_mode : Bool
  pub nak_timer_interval_seconds : ℕ
  pub nak_timer_expiration_limit : ℕ

pub record RemoteEntityCfgTable : Type 0 where
  pub remote_entity_dict : List (ℕ × RemoteEntityCfg)

unfoldable pub get_cfg : UnsignedByteField → RemoteEntityCfgTable → Option RemoteEntityCfg
get_cfg remote_entity_id t = Dict.get remote_entity_id.value t.remote_entity_dict

-- `cfg.entity_id in dict` looks a field of the packet library up among integer keys; whether it
-- matches a key is that library's equality and hash, the parameter `matches`.
module _ (matches : UnsignedByteField → ℕ → Bool) where
  unfoldable pub contains : UnsignedByteField → RemoteEntityCfgTable → Bool
  contains id t = any (λ (item : ℕ × RemoteEntityCfg). matches id item.0) t.remote_entity_dict

  abbrev pub put_cfg : RemoteEntityCfg → RemoteEntityCfgTable → RemoteEntityCfgTable
  put_cfg cfg t = record {
    remote_entity_dict = Dict.update cfg.entity_id.value cfg t.remote_entity_dict;
  }

  unfoldable pub add_config : RemoteEntityCfg → RemoteEntityCfgTable → RemoteEntityCfgTable × Bool
  unfolding contains
  add_config cfg t = if contains cfg.entity_id t then (t, false) else (put_cfg cfg t, true)

  unfoldable pub add_configs : List RemoteEntityCfg → RemoteEntityCfgTable → RemoteEntityCfgTable
  unfolding contains
  add_configs [] t = t
  add_configs (cfg ∷ cfgs) t =
      add_configs cfgs (if contains cfg.entity_id t then t else put_cfg cfg t)
