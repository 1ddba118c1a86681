-- ===== src/Dest/Delivery.antt =====
-- A transfer without acknowledgements through the state machine of src/cfdppy/handler/dest.py: the
-- handlers' states in between.
pub mod Steps
pub mod Whole
pub mod Metadata
pub mod Begin
pub mod Data
pub mod End
use cfdp_py.Mib.{get_cfg}
use cfdp_py.FilePath.{is_some, FilePath}
use cfdp_py.Protocol.{
  file_retained, unacknowledged, towards_receiver, ChecksumType, Pdu, TransactionId,
}
use cfdp_py.Base.{none, some, false, [], true, ◌==◌, ◌≡◌, ℕ, List}
use cfdp_py.User.{Env}
use cfdp_py.Dest.State.{completed, receiving_file_data, CfdpState, DestState}

-- A packet for this entity from a known one.
pub record IsAccepted {F T : Type 0} (env : Env F T) (pdu : Pdu) : Type 0 where
  pub direction : pdu.pdu_conf.direction ≡ towards_receiver
  pub destination : (pdu.pdu_conf.dest_entity_id.value == env.cfg.local_entity_id.value) ≡ true
  pub source : is_some (get_cfg pdu.pdu_conf.source_entity_id env.remote_cfg_table) ≡ true

-- What the handler keeps while it receives a file whose size no EOF packet has told yet, in
-- unacknowledged mode and without a request for closure.
pub record IsReady {F T : Type 0} (id : TransactionId) (kind : ChecksumType) (name : FilePath)
    (s : DestState F T) : Type 0 where
  pub is_busy : s.states.state ≡ CfdpState.busy
  pub in_step : s.states.step ≡ receiving_file_data
  pub no_packets : s.pdus_to_be_sent ≡ []
  pub unacked : s.params.pdu_conf.trans_mode ≡ unacknowledged
  pub no_closure : s.params.closure_requested ≡ false
  pub of_transaction : s.params.transaction_id ≡ some id
  pub of_kind : s.params.checksum_type ≡ kind
  pub has_file : s.params.fp.metadata_only ≡ false
  pub no_eof : s.params.fp.file_size_eof ≡ none
  pub into : s.params.fp.file_name ≡ name
  pub retained : s.params.finished_params.file_status ≡ file_retained
  pub no_location : s.params.finished_params.fault_location ≡ none
  pub not_canceled : s.params.completion_disposition ≡ completed
