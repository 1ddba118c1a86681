-- ===== src/Examples.antt =====
-- A small entity with one file, on which the theorems are tried out: a filestore that is the bytes
-- of that file, and countdowns that are the time of their end.
pub mod Copy
pub mod Retries
pub mod Answers
pub mod Losses
pub mod Restricted
pub mod Delivery
pub mod Reception
pub mod Tracker
pub mod Mib
pub mod Dest
pub mod Source
pub mod Filestore
use cfdp_py.Base.{
  ℕ, ◌+◌, ◌%◌, Bool, true, false, not, Option, none, some, List, [], ◌∷◌, ◌++◌, ◌==◌, leb, length,
  take, drop,
}
use cfdp_py.FilePath.{FilePath}
use cfdp_py.Protocol.{
  UnsignedByteField, TransactionId, acknowledged, modular, PduConfig, towards_receiver, normal,
  no_record_boundaries_preservation,
}
use cfdp_py.Proc.{pure, modify, gets}
use cfdp_py.Mib.{
  DefaultFaultHandlers, default_indications, LocalEntityCfg, RemoteEntityCfg, RemoteEntityCfgTable,
}
use cfdp_py.User.{Vfs, Env}

abbrev pub id_of : ℕ → UnsignedByteField
id_of n = record { value = n; byte_len = 1 }

abbrev pub a_transaction : TransactionId
a_transaction = record { source_entity_id = id_of 1; transaction_seq_num = id_of 7 }

abbrev pub a_conf : PduConfig
a_conf = record {
  source_entity_id = id_of 1;
  dest_entity_id = id_of 2;
  transaction_seq_num = id_of 7;
  trans_mode = acknowledged;
  direction = towards_receiver;
  crc_flag = false;
  file_flag = normal;
  seg_ctrl = no_record_boundaries_preservation;
}

abbrev pub a_remote : ℕ → RemoteEntityCfg
a_remote n = record {
  entity_id = id_of n;
  max_file_segment_len = some 2;
  max_packet_len = 100;
  closure_requested = false;
  crc_on_transmission = false;
  default_transmission_mode = acknowledged;
  crc_type = modular;
  positive_ack_timer_interval_seconds = 10;
  positive_ack_timer_expiration_limit = 1;
  check_limit = 2;
  disposition_on_cancellation = false;
  immediate_nak_mode = true;
  nak_timer_interval_seconds = 10;
  nak_timer_expiration_limit = 2;
}

abbrev pub a_table : RemoteEntityCfgTable
a_table = record { remote_entity_dict = (1, a_remote 1) ∷ (2, a_remote 2) ∷ [] }

abbrev pub a_path : FilePath
a_path = record { absolute = true; parts = (b'f' ∷ []) ∷ [] }

abbrev pub total : List ℕ → ℕ
total [] = 0
total (b ∷ bs) = b + total bs

abbrev pub one_file : Vfs (List ℕ)
one_file = record {
  is_directory = λ file store. (pure false) store;
  file_exists = λ file store. (pure true) store;
  truncate_file = λ file. modify (λ store. []);
  create_file = λ file. modify (λ store. []);
  delete_file = λ file. modify (λ store. []);
  file_size = λ file. gets (λ store. length store);
  read_data = λ file offset read_len. gets (λ store. take read_len (drop offset store));
  write_data = λ file bytes offset. modify (λ store. take offset store ++ bytes);
  calculate_checksum =
      λ kind file size segment_len. gets (λ store. total (take size store) % 256 ∷ []);
}

abbrev pub env_on : {F : Type 0} → Vfs F → (local : ℕ) → DefaultFaultHandlers → Env F ℕ
env_on vfs local faults = record {
  cfg = record {
    local_entity_id = id_of local;
    indication_cfg = default_indications;
    default_fault_handlers = faults;
  };
  remote_cfg_table = a_table;
  vfs = vfs;
  from_seconds = λ seconds now. now + seconds;
  timed_out = λ end now. leb end now;
  busy = λ end now. not (leb end now);
  restart = λ end now. now + 10;
  provide_check_timer = λ local_id remote_id kind now. now + 5;
  empty_pdu_conf = a_conf;
  same_transaction = λ a b. a.transaction_seq_num.value == b.transaction_seq_num.value;
  max_seg_reqs = λ max_packet_len conf. 4;
  max_file_seg_len = λ conf max_packet_len. 64;
}

abbrev pub an_env : (local : ℕ) → DefaultFaultHandlers → Env (List ℕ) ℕ
an_env local faults = env_on one_file local faults
