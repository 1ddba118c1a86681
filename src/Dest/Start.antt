-- ===== src/Dest/Start.antt =====
-- The first packet of a transaction, and metadata, in src/cfdppy/handler/dest.py.
use cfdp_py.Base.{
  ℕ, ◌+◌, Bool, true, false, ◌&&◌, Option, none, some, List, [], ◌∷◌, ◌++◌, ltb, if◌then◌else◌,
  length,
}
use cfdp_py.FilePath.{Text, of_text, joinpath, name}
use cfdp_py.Protocol.{
  filestore_rejection, file_retained, discarded_filestore_rejection, data_complete, towards_sender,
  MetadataParams, MessageToUser, Tlv, message_to_user, PduConfig, PduBody, Pdu, file_data, eof,
  metadata, nak, TransactionId,
}
use cfdp_py.Errors.{
  Error, assertion_error, type_error, value_error, permission_error, no_remote_entity_cfg_found,
}
use cfdp_py.Proc.{Proc, raise, gets, require, modify, skip, when, try_except, ◌>>=◌, ◌>>◌}
use cfdp_py.Mib.{get_cfg}
use cfdp_py.User.{Env, metadata_recv_indication}
use cfdp_py.Tracker.{reset}
use cfdp_py.Dest.State.{
  DestState, CfdpState, transfer_completion, sending_eof_ack_pdu, waiting_for_metadata,
  receiving_file_data, is_idle, new_fields, modify_params, modify_fp, modify_acked, modify_finished,
  set_tracker, set_step, set_state, indicate, on_store, add_packet_to_be_sent,
}
use cfdp_py.Dest.Faults.{declare_fault, prepare_eof_ack_packet}
use cfdp_py.Dest.Segments.{add_segment, reset_nak_activity_parameters}
use cfdp_py.Dest.Receive.{eof_indication}

-- The messages to the user among the options.
abbrev pub messages_of : List Tlv → List MessageToUser
messages_of [] = []
messages_of (message_to_user m ∷ tlvs) = m ∷ messages_of tlvs
messages_of (_ ∷ tlvs) = messages_of tlvs

abbrev pub map_option {ℓ κ} : {A : Type ℓ} {B : Type κ} → (A → B) → Option A → Option B
map_option f none = none
map_option f (some a) = some (f a)

-- The file size of the indication: none if there is no source file name.
abbrev indicated_size : Option Text → ℕ → Option ℕ
indicated_size none n = none
indicated_size (some t) n = some n

module _ {F T : Type 0} (env : Env F T) where
  -- The `else` branch of the guard of `_common_first_packet_handler`.
  unfoldable pub open_transaction : Pdu → Proc (DestState F T) (Unit {0})
  open_transaction pdu = do
    let conf = record pdu.pdu_conf { direction = towards_sender }
    let id : TransactionId = record {
      source_entity_id = conf.source_entity_id;
      transaction_seq_num = conf.transaction_seq_num;
    }
    set_state CfdpState.busy
    modify_params (λ p. record p {
      pdu_conf = conf;
      transaction_id = some id;
      remote_cfg = get_cfg conf.source_entity_id env.remote_cfg_table;
    })
    modify (λ s. record s { states = record s.states { transaction_id = some id } })

  unfoldable pub common_first_packet_handler : Pdu → Proc (DestState F T) (Unit {0})
  common_first_packet_handler pdu = do
    state ← gets (λ s. s.states.state)
    when (is_idle state) (open_transaction pdu)

  unfoldable pub common_first_packet_not_metadata_pdu_handler :
      Pdu → Proc (DestState F T) (Unit {0})
  common_first_packet_not_metadata_pdu_handler pdu = do
    modify_params (λ _. new_fields env.empty_pdu_conf)
    common_first_packet_handler pdu
    set_step waiting_for_metadata
    modify_acked (λ p. record p { metadata_missing = true })

  unfoldable pub handle_eof_without_previous_metadata : ℕ → Proc (DestState F T) (Unit {0})
  handle_eof_without_previous_metadata file_size = do
    modify_fp (λ fp. record fp { progress = file_size; file_size_eof = some file_size })
    modify_acked (λ p. record p { metadata_missing = true })
    when (ltb 0 file_size) do
      tracker ← gets (λ s. s.lost_seg_tracker)
      set_tracker (reset tracker)
      add_segment (0, file_size)
    eof_indication env
    prepare_eof_ack_packet env
    set_step sending_eof_ack_pdu

  abbrev nonempty_request : List ℕ → ℕ → List (ℕ × ℕ)
  nonempty_request [] progress = []
  nonempty_request (b ∷ bs) progress = (0, progress) ∷ []

  -- The re-request of the metadata, and of the file data so far.
  unfoldable pub request_metadata : Bool → List ℕ → Proc (DestState F T) (Unit {0})
  request_metadata first_pdu bytes = do
    s ← gets (λ s. s)
    let requests =
        (if first_pdu then (0, 0) ∷ [] else []) ++ nonempty_request bytes s.params.fp.progress
    remote_cfg ← require assertion_error s.params.remote_cfg
    when (remote_cfg.immediate_nak_mode && ltb 0 (length requests))
        (add_packet_to_be_sent (nak 0 s.params.fp.progress requests))

  unfoldable pub handle_fd_without_previous_metadata :
      Bool → ℕ → List ℕ → Proc (DestState F T) (Unit {0})
  handle_fd_without_previous_metadata first_pdu offset bytes = do
    let progress = offset + length bytes
    modify_fp (λ fp. record fp { progress = progress })
    when (ltb 0 (length bytes)) do
      add_segment ((if first_pdu then 0 else offset), progress)
      modify_acked (λ p. record p { last_start_offset = progress; last_end_offset = progress })
    request_metadata first_pdu bytes

  -- The body of the `try` statement of `_init_vfs_handling`.
  unfoldable pub prepare_file : Text → Proc (DestState F T) (Unit {0})
  prepare_file source_base_name = do
    given ← gets (λ s. s.params.fp.file_name)
    directory ← on_store (env.vfs.is_directory given)
    when directory (
        modify_fp
          (λ fp. record fp { file_name = joinpath fp.file_name (of_text source_base_name) }))
    file_name ← gets (λ s. s.params.fp.file_name)
    exists ← on_store (env.vfs.file_exists file_name)
    if exists
        then on_store (env.vfs.truncate_file file_name)
        else on_store (env.vfs.create_file file_name)
    modify_finished (λ p. record p { file_status = file_retained })

  unfoldable pub on_prepare_error : Error → Proc (DestState F T) (Unit {0})
  on_prepare_error permission_error = do
    modify_finished (λ p. record p { file_status = discarded_filestore_rejection })
    declare_fault env filestore_rejection
    skip
  on_prepare_error e = raise e

  unfoldable pub init_vfs_handling : Text → Proc (DestState F T) (Unit {0})
  init_vfs_handling source_base_name = try_except (prepare_file source_base_name) on_prepare_error

  -- The two file names of the metadata: without either of them there is no file.
  unfoldable pub take_file_names : Option Text → Option Text → Proc (DestState F T) (Unit {0})
  take_file_names (some source) (some dest) =
      modify_fp (λ fp. record fp { file_name = of_text dest })
  take_file_names _ _ = do
    modify_fp (λ fp. record fp { metadata_only = true })
    modify_finished (λ p. record p { delivery_code = data_complete })

  unfoldable pub begin_reception : Option Text → Proc (DestState F T) (Unit {0})
  begin_reception source_file_name = do
    metadata_only ← gets (λ s. s.params.fp.metadata_only)
    if metadata_only then set_step transfer_completion else do
      set_step receiving_file_data
      source ← require type_error source_file_name
      init_vfs_handling (name (of_text source))

  unfoldable pub handle_metadata_packet :
      PduConfig → MetadataParams → Option (List Tlv) → Proc (DestState F T) (Unit {0})
  handle_metadata_packet conf m options = do
    modify_params
        (λ p. record p { checksum_type = m.checksum_type; closure_requested = m.closure_requested })
    modify_acked (λ p. record p { metadata_missing = false })
    take_file_names m.source_file_name m.dest_file_name
    modify_fp (λ fp. record fp { file_size = some m.file_size })
    remote_cfg ← gets (λ s. s.params.remote_cfg)
    require (no_remote_entity_cfg_found conf.dest_entity_id) remote_cfg
    begin_reception m.source_file_name
    transaction_id ← gets (λ s. s.params.transaction_id)
    indicate (
        metadata_recv_indication (record {
          transaction_id = transaction_id;
          source_id = conf.source_entity_id;
          file_size = indicated_size m.source_file_name m.file_size;
          source_file_name = m.source_file_name;
          dest_file_name = m.dest_file_name;
          msgs_to_user = map_option messages_of options;
        }))

  unfoldable pub start_transaction :
      Pdu → MetadataParams → Option (List Tlv) → Proc (DestState F T) (Unit {0})
  start_transaction pdu m options = do
    state ← gets (λ s. s.states.state)
    when (is_idle state) do
      modify_params (λ _. new_fields env.empty_pdu_conf)
      common_first_packet_handler pdu
      handle_metadata_packet pdu.pdu_conf m options

  abbrev pub start_transaction_missing_metadata_recv_fd :
      Pdu → ℕ → List ℕ → Proc (DestState F T) (Unit {0})
  start_transaction_missing_metadata_recv_fd pdu offset bytes = do
    common_first_packet_not_metadata_pdu_handler pdu
    handle_fd_without_previous_metadata true offset bytes

  abbrev pub start_transaction_missing_metadata_recv_eof : Pdu → ℕ → Proc (DestState F T) (Unit {0})
  start_transaction_missing_metadata_recv_eof pdu file_size = do
    common_first_packet_not_metadata_pdu_handler pdu
    handle_eof_without_previous_metadata file_size

  -- `__idle_fsm` with a packet.
  unfoldable pub idle_packet : Pdu → PduBody → Proc (DestState F T) (Unit {0})
  idle_packet pdu (file_data offset bytes m) =
      start_transaction_missing_metadata_recv_fd pdu offset bytes
  idle_packet pdu (eof checksum file_size cond) =
      start_transaction_missing_metadata_recv_eof pdu file_size
  idle_packet pdu (metadata m options) = start_transaction pdu m options
  idle_packet pdu _ = raise value_error

  unfoldable pub idle_fsm : Option Pdu → Proc (DestState F T) (Unit {0})
  idle_fsm none = skip
  idle_fsm (some pdu) = idle_packet pdu pdu.body

  unfoldable pub reset_nak_activity_if_active : Proc (DestState F T) (Unit {0})
  reset_nak_activity_if_active = do
    active ← gets (λ s. s.params.acked_params.deferred_lost_segment_detection_active)
    when active (reset_nak_activity_parameters env)

  unfoldable pub missing_metadata_packet : Pdu → PduBody → Proc (DestState F T) (Unit {0})
  missing_metadata_packet pdu (file_data offset bytes m) =
      handle_fd_without_previous_metadata true offset bytes
  missing_metadata_packet pdu (metadata m options) = do
    handle_metadata_packet pdu.pdu_conf m options
    reset_nak_activity_if_active
  missing_metadata_packet pdu (eof checksum file_size cond) = do
    handle_eof_without_previous_metadata file_size
    reset_nak_activity_if_active
  missing_metadata_packet pdu _ = skip

  unfoldable pub handle_waiting_for_missing_metadata : Option Pdu → Proc (DestState F T) (Unit {0})
  handle_waiting_for_missing_metadata none = skip
  handle_waiting_for_missing_metadata (some pdu) = missing_metadata_packet pdu pdu.body
