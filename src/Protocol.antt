-- ===== src/Protocol.antt =====
-- The protocol data of the packet library `spacepackets`, as far as cfdppy reads and writes it: the
-- members of its enumerations that the sources name, with one constructor for the others, and the
-- fields of its packets.
use cfdp_py.Base.{ℕ, ◌+◌, Bool, true, false, Option, none, some, List, ◌==◌}
use cfdp_py.FilePath.{Text}

-- `value` is the number and `byte_len` the width of the field.
pub record UnsignedByteField : Type 0 where
  pub value : ℕ
  pub byte_len : ℕ

pub data Direction : Type 0 where
  towards_receiver towards_sender : Direction

pub data TransmissionMode : Type 0 where
  acknowledged unacknowledged : TransmissionMode

pub data ConditionCode : Type 0 where
  no_error positive_ack_limit_reached keep_alive_limit_reached : ConditionCode
  invalid_transmission_mode filestore_rejection file_checksum_failure : ConditionCode
  file_size_error nak_limit_reached inactivity_detected check_limit_reached : ConditionCode
  unsupported_checksum_type cancel_request_received : ConditionCode
  other_condition : ℕ → ConditionCode

abbrev pub condition_number : ConditionCode → ℕ
condition_number no_error = 0
condition_number positive_ack_limit_reached = 1
condition_number keep_alive_limit_reached = 2
condition_number invalid_transmission_mode = 3
condition_number filestore_rejection = 4
condition_number file_checksum_failure = 5
condition_number file_size_error = 6
condition_number nak_limit_reached = 7
condition_number inactivity_detected = 8
condition_number check_limit_reached = 9
condition_number unsupported_checksum_type = 10
condition_number cancel_request_received = 11
condition_number (other_condition n) = 12 + n

abbrev pub same_condition : ConditionCode → ConditionCode → Bool
same_condition c d = condition_number c == condition_number d

pub data FaultHandlerCode : Type 0 where
  notice_of_cancellation notice_of_suspension ignore_error abandon_transaction : FaultHandlerCode

abbrev pub is_ignore_error : FaultHandlerCode → Bool
is_ignore_error ignore_error = true
is_ignore_error _ = false

pub data ChecksumType : Type 0 where
  modular crc_32c crc_32 null_checksum : ChecksumType
  other_checksum : ℕ → ChecksumType

abbrev pub is_null_checksum : ChecksumType → Bool
is_null_checksum null_checksum = true
is_null_checksum _ = false

pub data DirectiveType : Type 0 where
  eof_pdu finished_pdu ack_pdu metadata_pdu nak_pdu prompt_pdu keep_alive_pdu : DirectiveType
  other_directive : DirectiveType

pub data DeliveryCode : Type 0 where
  data_complete data_incomplete : DeliveryCode

pub data FileStatus : Type 0 where
  discarded_deliberately discarded_filestore_rejection : FileStatus
  file_retained file_status_unreported : FileStatus

abbrev pub is_file_retained : FileStatus → Bool
is_file_retained file_retained = true
is_file_retained _ = false

pub data TransactionStatus : Type 0 where
  undefined active terminated unrecognized : TransactionStatus

pub record TransactionId : Type 0 where
  pub source_entity_id : UnsignedByteField
  pub transaction_seq_num : UnsignedByteField

pub record FinishedParams : Type 0 where
  pub delivery_code : DeliveryCode
  pub file_status : FileStatus
  pub condition_code : ConditionCode
  pub fault_location : Option UnsignedByteField

pub data LargeFileFlag : Type 0 where
  normal large : LargeFileFlag

pub data SegmentationControl : Type 0 where
  no_record_boundaries_preservation record_boundaries_preservation : SegmentationControl

pub record PduConfig : Type 0 where
  pub source_entity_id : UnsignedByteField
  pub dest_entity_id : UnsignedByteField
  pub transaction_seq_num : UnsignedByteField
  pub trans_mode : TransmissionMode
  pub direction : Direction
  pub crc_flag : Bool
  pub file_flag : LargeFileFlag
  pub seg_ctrl : SegmentationControl

pub data ProxyMessageType : Type 0 where
  put_request put_response other_proxy : ProxyMessageType

-- A message to the user, as the accessors of the packet library describe it: whether it is a
-- reserved CFDP message, and then the originating transaction ID and the proxy operation in it.
pub data MessageToUser : Type 0 where
  plain_message : List ℕ → MessageToUser
  reserved_message : Option TransactionId → Option ProxyMessageType → MessageToUser

pub data Tlv : Type 0 where
  message_to_user : MessageToUser → Tlv
  filestore_request fault_handler_override flow_label : List ℕ → Tlv

pub record MetadataParams : Type 0 where
  pub closure_requested : Bool
  pub checksum_type : ChecksumType
  pub file_size : ℕ
  pub source_file_name : Option Text
  pub dest_file_name : Option Text

-- A `FILE_DATA` packet, or a file directive.
pub data PduBody : Type 0 where
  file_data : (offset : ℕ) → (bytes : List ℕ) → (segment_metadata : Option (List ℕ)) → PduBody
  eof : (checksum : List ℕ) → (file_size : ℕ) → ConditionCode → PduBody
  finished : FinishedParams → PduBody
  ack : DirectiveType → ConditionCode → TransactionStatus → PduBody
  metadata : MetadataParams → Option (List Tlv) → PduBody
  nak : (start_of_scope end_of_scope : ℕ) → (segment_requests : List (ℕ × ℕ)) → PduBody
  prompt keep_alive unknown_directive : PduBody

pub record Pdu : Type 0 where
  pub pdu_conf : PduConfig
  pub body : PduBody

-- `directive_type`, which a file data packet lacks.
abbrev pub directive_type : PduBody → Option DirectiveType
directive_type (file_data o d m) = none
directive_type (eof c n cond) = some eof_pdu
directive_type (finished p) = some finished_pdu
directive_type (ack d c t) = some ack_pdu
directive_type (metadata p o) = some metadata_pdu
directive_type (nak a b r) = some nak_pdu
directive_type prompt = some prompt_pdu
directive_type keep_alive = some keep_alive_pdu
directive_type unknown_directive = some other_directive

abbrev pub is_file_data : PduBody → Bool
is_file_data (file_data o d m) = true
is_file_data _ = false
