-- ===== src/Source/Sending.antt =====
-- A put request of a file in unacknowledged mode and without closure, in
-- src/cfdppy/handler/source.py: what it needs, and the handler's states in between.
pub mod Start
pub mod End
pub mod Rounds
pub mod Whole
use cfdp_py.User.{transaction_indication}
use cfdp_py.Base.Int.{pos}
use cfdp_py.Proc.{returned}
use cfdp_py.Source.Packets.{metadata_options}
use cfdp_py.Source.Begin.{
  check_for_originating_id, is_valid_width, get_or, widen, larger_entity_width, segment_len_of,
}
use cfdp_py.Protocol.{
  TransmissionMode, unacknowledged, normal, large, towards_receiver, metadata, Pdu, PduConfig,
  TransactionId, MetadataParams,
}
use cfdp_py.FilePath.{as_posix, FilePath}
use cfdp_py.Mib.{get_cfg, RemoteEntityCfg}
use cfdp_py.Base.{
  none, List, ◌∷◌, [], ◌++◌, ◌-◌, ◌^◌, false, ltb, ◌==◌, if◌then◌else◌, true, ◌/◌, Bool, some, ℕ,
  ◌≡◌,
}
use cfdp_py.Request.{PutRequest}
use cfdp_py.Source.State.{
  sending_file_data, TransactionStep, sending_metadata, SourceEnv, SourceState,
}
use cfdp_py.Dest.State.{CfdpState}

abbrev pub closure_of : PutRequest → RemoteEntityCfg → Bool
closure_of r cfg = get_or r.closure_requested cfg.closure_requested

abbrev pub trans_mode_of : PutRequest → RemoteEntityCfg → TransmissionMode
trans_mode_of r cfg = get_or r.trans_mode cfg.default_transmission_mode

module _ {F T : Type 0} (env : SourceEnv F T) (r : PutRequest) (cfg : RemoteEntityCfg)
    (size : ℕ) where
  abbrev width : ℕ
  width = larger_entity_width env.cfg.local_entity_id r.destination_id

  -- The configuration of the packets of the transaction.
  abbrev pub conf_of : SourceState F T → PduConfig
  conf_of s = record {
    source_entity_id = widen env.cfg.local_entity_id width;
    dest_entity_id = widen r.destination_id width;
    transaction_seq_num = record {
      value = env.seq_num s.seq_count;
      byte_len = env.max_bit_width / 8;
    };
    trans_mode = trans_mode_of r cfg;
    direction = towards_receiver;
    crc_flag = cfg.crc_on_transmission;
    file_flag = if ltb (2 ^ 32 - 1) size then large else normal;
    seg_ctrl = get_or r.seg_ctrl s.params.pdu_conf.seg_ctrl;
  }

  abbrev pub segment_len : SourceState F T → ℕ
  segment_len s =
      segment_len_of (env.max_file_seg_len (conf_of s) cfg.max_packet_len) cfg.max_file_segment_len

  abbrev pub transaction_of : SourceState F T → TransactionId
  transaction_of s = record {
    source_entity_id = env.cfg.local_entity_id;
    transaction_seq_num = (conf_of s).transaction_seq_num;
  }

module _ {F T : Type 0} (env : SourceEnv F T) (r : PutRequest) (cfg : RemoteEntityCfg)
    (source dest : FilePath) (size : ℕ) where
  -- The request names two files and a known entity, and the filestore has the source file, which is
  -- not empty.
  pub record CanSend (store : F) : Type 0 where
    pub of_file : r.source_file ≡ some source
    pub into_file : r.dest_file ≡ some dest
    pub known : get_cfg r.destination_id env.remote_cfg_table ≡ some cfg
    pub exists : env.vfs.file_exists source store ≡ (returned true, store)
    pub sized : env.vfs.file_size source store ≡ (returned size, store)
    pub not_empty : (size == 0) ≡ false
    pub valid_width : is_valid_width env env.max_bit_width ≡ true

  -- After the request, and after the start of its transaction.
  abbrev pub requested : SourceState F T → SourceState F T
  requested s = record s {
    put_req = some r;
    states = record s.states { state = CfdpState.busy; num_packets_ready = pos 0 };
    params = record s.params {
      remote_cfg = some cfg;
      closure_requested = closure_of r cfg;
      pdu_conf = record s.params.pdu_conf {
        dest_entity_id = r.destination_id;
        trans_mode = trans_mode_of r cfg;
      };
    };
  }

  abbrev pub started : SourceState F T → SourceState F T
  started s = record s {
    put_req = some r;
    states = record s.states {
      state = CfdpState.busy;
      step = sending_metadata;
      num_packets_ready = pos 0;
    };
    params = record s.params {
      remote_cfg = some cfg;
      closure_requested = closure_of r cfg;
      transaction_id = some (transaction_of env r cfg size s);
      pdu_conf = conf_of env r cfg size s;
      fp = record s.params.fp { file_size = some size; segment_len = segment_len env r cfg size s };
    };
    indications =
        s.indications
        ++ transaction_indication (record {
          transaction_id = transaction_of env r cfg size s;
          originating_transaction_id = check_for_originating_id r;
        })
          ∷ [];
    seq_count = env.next_seq_count s.seq_count;
  }

  -- The metadata packet.
  abbrev pub metadata_params : MetadataParams
  metadata_params = record {
    closure_requested = closure_of r cfg;
    checksum_type = cfg.crc_type;
    file_size = size;
    source_file_name = some (as_posix source);
    dest_file_name = some (as_posix dest);
  }

  abbrev pub metadata_of : SourceState F T → Pdu
  metadata_of s = record {
    pdu_conf = conf_of env r cfg size s;
    body = metadata metadata_params (some (metadata_options r));
  }

-- A handler without a transaction that has no file either.
pub record IsFresh {F T : Type 0} (s : SourceState F T) : Type 0 where
  pub is_idle_now : s.states.state ≡ CfdpState.idle
  pub in_step : s.states.step ≡ TransactionStep.idle
  pub none_queued : s.pdus_to_be_sent ≡ []
  pub at_start : s.params.fp.progress ≡ 0
  pub may_have_file : s.params.fp.metadata_only ≡ false
  pub no_result : s.params.finished_params ≡ none

-- The whole file is sent, in unacknowledged mode and without closure, and its checksum is `sum`.
pub record IsWhole {F T : Type 0} (env : SourceEnv F T) (r : PutRequest) (id : TransactionId)
    (size : ℕ) (sum : List ℕ) (s : SourceState F T) : Type 0 where
  pub cfg : RemoteEntityCfg
  pub source : FilePath
  pub is_busy : s.states.state ≡ CfdpState.busy
  pub in_step : s.states.step ≡ sending_file_data
  pub none_queued : s.pdus_to_be_sent ≡ []
  pub none_ready : s.states.num_packets_ready ≡ pos 0
  pub of_request : s.put_req ≡ some r
  pub of_file : r.source_file ≡ some source
  pub to_entity : s.params.remote_cfg ≡ some cfg
  pub of_transaction : s.params.transaction_id ≡ some id
  pub unacked : s.params.pdu_conf.trans_mode ≡ unacknowledged
  pub no_closure : s.params.closure_requested ≡ false
  pub no_result : s.params.finished_params ≡ none
  pub size_known : s.params.fp.file_size ≡ some size
  pub all_sent : s.params.fp.progress ≡ size
  pub sum_of :
      env.vfs.calculate_checksum cfg.crc_type source size s.params.fp.segment_len s.store
      ≡ (returned sum, s.store)
