-- ===== src/User.antt =====
-- The calls of the user: the indications of src/cfdppy/user.py, with their parameters, and the fault
-- callbacks. A handler's state keeps the calls that it made, in order. Also the interface to the
-- virtual filestore of the user, and the timers.
use cfdp_py.Base.{ℕ, Bool, Option, List}
use cfdp_py.FilePath.{FilePath, Text}
use cfdp_py.Proc.{Proc}
use cfdp_py.Protocol.{
  UnsignedByteField, TransactionId, FinishedParams, MessageToUser, ChecksumType, PduConfig,
}
use cfdp_py.Mib.{FaultCallback, LocalEntityCfg, RemoteEntityCfgTable, EntityType}

pub record MetadataRecvParams : Type 0 where
  pub transaction_id : Option TransactionId
  pub source_id : UnsignedByteField
  pub file_size : Option ℕ
  pub source_file_name : Option Text
  pub dest_file_name : Option Text
  pub msgs_to_user : Option (List MessageToUser)

pub record FileSegmentRecvdParams : Type 0 where
  pub transaction_id : Option TransactionId
  pub offset : ℕ
  pub length : ℕ
  pub segment_metadata : Option (List ℕ)

pub record TransactionFinishedParams : Type 0 where
  pub transaction_id : Option TransactionId
  pub finished_params : FinishedParams

pub record TransactionParams : Type 0 where
  pub transaction_id : TransactionId
  pub originating_transaction_id : Option TransactionId

pub data Indication : Type 0 where
  transaction_indication : TransactionParams → Indication
  eof_sent_indication : TransactionId → Indication
  eof_recv_indication : TransactionId → Indication
  metadata_recv_indication : MetadataRecvParams → Indication
  file_segment_recv_indication : FileSegmentRecvdParams → Indication
  transaction_finished_indication : TransactionFinishedParams → Indication
  fault_indication : FaultCallback → Indication

-- What the handlers call of the `VirtualFilestore` of the user, on a store `F`. Any call may raise.
pub record Vfs (F : Type 0) : Type 0 where
  pub is_directory : FilePath → Proc F Bool
  pub file_exists : FilePath → Proc F Bool
  pub truncate_file : FilePath → Proc F (Unit {0})
  pub create_file : FilePath → Proc F (Unit {0})
  pub delete_file : FilePath → Proc F (Unit {0})
  pub file_size : FilePath → Proc F ℕ
  pub read_data : FilePath → (offset read_len : ℕ) → Proc F (List ℕ)
  pub write_data : FilePath → List ℕ → (offset : ℕ) → Proc F (Unit {0})
  pub calculate_checksum :
      ChecksumType → FilePath → (size_to_verify segment_len : ℕ) → Proc F (List ℕ)

-- What a handler is given, and what the packet library supplies: the countdowns `T` read at a time
-- of the clock, an empty configuration, the equality of transactions, and the two size computations.
pub record Env (F T : Type 0) : Type 0 where
  pub cfg : LocalEntityCfg
  pub remote_cfg_table : RemoteEntityCfgTable
  pub vfs : Vfs F
  pub from_seconds : (seconds now : ℕ) → T
  pub timed_out : T → (now : ℕ) → Bool
  pub busy : T → (now : ℕ) → Bool
  pub restart : T → (now : ℕ) → T
  pub provide_check_timer :
      (local_entity_id remote_entity_id : UnsignedByteField) → EntityType → (now : ℕ) → T
  pub empty_pdu_conf : PduConfig
  pub same_transaction : TransactionId → TransactionId → Bool
  pub max_seg_reqs : (max_packet_len : ℕ) → PduConfig → ℕ
  pub max_file_seg_len : PduConfig → (max_packet_len : ℕ) → ℕ
