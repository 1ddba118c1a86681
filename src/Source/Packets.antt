-- ===== src/Source/Packets.antt =====
-- The packets of src/cfdppy/handler/source.py: metadata, file data, EOF and the acknowledgement.
use cfdp_py.Base.{ℕ, ◌+◌, ◌-◌, Option, none, some, List, [], ◌∷◌, ◌++◌, map, ltb, if◌then◌else◌}
use cfdp_py.FilePath.{as_posix}
use cfdp_py.Protocol.{
  ConditionCode, null_checksum, MetadataParams, Tlv, message_to_user, filestore_request,
  fault_handler_override, flow_label, file_data, eof, ack, metadata, finished_pdu, active,
}
use cfdp_py.Errors.{assertion_error, attribute_error, type_error}
use cfdp_py.Proc.{Proc, pure, gets, require, when, ◌>>=◌, ◌>>◌}
use cfdp_py.User.{eof_sent_indication}
use cfdp_py.Request.{PutRequest}
use cfdp_py.Request
use cfdp_py.Source.State.{
  SourceState, SourceEnv, modify_fp, indicate, on_store, add_packet_to_be_sent,
}

abbrev tlvs_of {ℓ} : {A : Type ℓ} → (A → Tlv) → Option (List A) → List Tlv
tlvs_of f none = []
tlvs_of f (some xs) = map f xs

abbrev tlv_of {ℓ} : {A : Type ℓ} → (A → Tlv) → Option A → List Tlv
tlv_of f none = []
tlv_of f (some x) = f x ∷ []

-- The options of the metadata, in the order in which they are appended.
unfoldable pub metadata_options : PutRequest → List Tlv
metadata_options r =
    tlvs_of filestore_request r.fs_requests
    ++ (tlvs_of fault_handler_override r.fault_handler_overrides
        ++ (tlv_of flow_label r.flow_label_tlv ++ tlvs_of message_to_user r.msgs_to_user))

-- How much the next file data packet holds.
unfoldable pub next_read_len : (file_size segment_len progress : ℕ) → ℕ
next_read_len file_size segment_len progress =
    if ltb file_size segment_len
    then file_size
    else if ltb file_size (progress + segment_len)
    then file_size - progress
    else segment_len

module _ {F T : Type 0} where
  unfoldable pub metadata_only_params : Proc (SourceState F T) MetadataParams
  metadata_only_params = do
    params ← gets (λ s. s.params)
    require assertion_error params.remote_cfg
    pure (record {
      closure_requested = params.closure_requested;
      checksum_type = null_checksum;
      file_size = 0;
      source_file_name = none;
      dest_file_name = none;
    })

  unfoldable pub prepare_metadata_base_params_with_metadata :
      PutRequest → Proc (SourceState F T) MetadataParams
  prepare_metadata_base_params_with_metadata r = do
    params ← gets (λ s. s.params)
    remote_cfg ← require assertion_error params.remote_cfg
    dest_file ← require attribute_error r.dest_file
    source_file ← require attribute_error r.source_file
    file_size ← require type_error params.fp.file_size
    pure (record {
      closure_requested = params.closure_requested;
      checksum_type = remote_cfg.crc_type;
      file_size = file_size;
      source_file_name = some (as_posix source_file);
      dest_file_name = some (as_posix dest_file);
    })

  unfoldable pub prepare_metadata_pdu : Proc (SourceState F T) (Unit {0})
  prepare_metadata_pdu = do
    put_req ← gets (λ s. s.put_req)
    r ← require assertion_error put_req
    params ←
        (if Request.metadata_only r
          then metadata_only_params
          else prepare_metadata_base_params_with_metadata r)
    add_packet_to_be_sent (metadata params (some (metadata_options r)))

  unfoldable pub prepare_finished_ack_packet : ConditionCode → Proc (SourceState F T) (Unit {0})
  prepare_finished_ack_packet condition_code =
      add_packet_to_be_sent (ack finished_pdu condition_code active)

module _ {F T : Type 0} (env : SourceEnv F T) where
  unfoldable pub prepare_file_data_pdu : (offset read_len : ℕ) → Proc (SourceState F T) (Unit {0})
  prepare_file_data_pdu offset read_len = do
    put_req ← gets (λ s. s.put_req)
    r ← require assertion_error put_req
    source_file ← require assertion_error r.source_file
    bytes ← on_store (env.vfs.read_data source_file offset read_len)
    add_packet_to_be_sent (file_data offset bytes none)

  unfoldable pub prepare_progressing_file_data_pdu : ℕ → Proc (SourceState F T) (Unit {0})
  prepare_progressing_file_data_pdu file_size = do
    fp ← gets (λ s. s.params.fp)
    let read_len = next_read_len file_size fp.segment_len fp.progress
    prepare_file_data_pdu fp.progress read_len
    modify_fp (λ fp. record fp { progress = fp.progress + read_len })

  unfoldable pub prepare_eof_pdu : List ℕ → Proc (SourceState F T) (Unit {0})
  prepare_eof_pdu checksum = do
    params ← gets (λ s. s.params)
    condition_code ← require assertion_error params.cond_code_eof
    add_packet_to_be_sent (eof checksum params.fp.progress condition_code)
    when env.cfg.indication_cfg.eof_sent_indication_required
        do id ← require assertion_error params.transaction_id; indicate (eof_sent_indication id)

  -- `_checksum_calculation`; a size of None fails in the comparison of the filestore.
  unfoldable pub checksum_calculation : Option ℕ → Proc (SourceState F T) (List ℕ)
  checksum_calculation size_to_calculate = do
    s ← gets (λ s. s)
    r ← require assertion_error s.put_req
    source_file ← require assertion_error r.source_file
    remote_cfg ← require assertion_error s.params.remote_cfg
    size ← require type_error size_to_calculate
    on_store
        (env.vfs.calculate_checksum remote_cfg.crc_type source_file size s.params.fp.segment_len)
