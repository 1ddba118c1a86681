-- ===== src/Dest/Queue/Start.antt =====
-- The first packets of a transaction keep the queue in order.
use cfdp_py.Base.{ℕ, Bool, true, Option, none, some, List}
use cfdp_py.FilePath.{Text}
use cfdp_py.Protocol.{Pdu, PduBody, PduConfig, MetadataParams, Tlv, file_data, eof, metadata}
use cfdp_py.Errors.{Error}
use cfdp_py.Errors
use cfdp_py.Proc.Holds.{Keeps, Keeps-modify, Keeps-skip, Keeps-raise, Keeps-bind}
use cfdp_py.User.{Env}
use cfdp_py.Dest.Queue.{set_state-IsQueueOk, modify_params-IsQueueOk, IsQueueOk, queue_rules}
use cfdp_py.Dest.Start.{
  open_transaction, common_first_packet_handler, common_first_packet_not_metadata_pdu_handler,
  handle_eof_without_previous_metadata, request_metadata, handle_fd_without_previous_metadata,
  prepare_file, on_prepare_error, init_vfs_handling, take_file_names, begin_reception,
  handle_metadata_packet, start_transaction, idle_packet, idle_fsm, reset_nak_activity_if_active,
  missing_metadata_packet, handle_waiting_for_missing_metadata,
}
use cfdp_py.Dest.Queue.Faults.{declare_fault-IsQueueOk, prepare_eof_ack_packet-IsQueueOk}
use cfdp_py.Dest.Queue.Segments.{add_segment-IsQueueOk, reset_nak_activity_parameters-IsQueueOk}
use cfdp_py.Dest.Queue.Receive.{eof_indication-IsQueueOk}

module _ {F T : Type 0} (env : Env F T) where
  pub open_transaction-IsQueueOk : (pdu : Pdu) → Keeps IsQueueOk (open_transaction env pdu)
  unfolding open_transaction
  open_transaction-IsQueueOk pdu = Keeps-bind _ _ (set_state-IsQueueOk _) (λ _.
      Keeps-bind _ _ (modify_params-IsQueueOk _)
        (λ _. Keeps-modify _ (λ s h. record { counted = h.counted; routed = h.routed })))

  pub common_first_packet_handler-IsQueueOk :
      (pdu : Pdu) → Keeps IsQueueOk (common_first_packet_handler env pdu)
  unfolding common_first_packet_handler
  common_first_packet_handler-IsQueueOk pdu =
      search (queue_rules, open_transaction-IsQueueOk) depth 12

  pub common_first_packet_not_metadata_pdu_handler-IsQueueOk :
      (pdu : Pdu) → Keeps IsQueueOk (common_first_packet_not_metadata_pdu_handler env pdu)
  unfolding common_first_packet_not_metadata_pdu_handler
  common_first_packet_not_metadata_pdu_handler-IsQueueOk pdu =
      search (queue_rules, common_first_packet_handler-IsQueueOk) depth 12

  pub handle_eof_without_previous_metadata-IsQueueOk :
      (n : ℕ) → Keeps IsQueueOk (handle_eof_without_previous_metadata env n)
  unfolding handle_eof_without_previous_metadata
  handle_eof_without_previous_metadata-IsQueueOk n =
      search
        (
          queue_rules, add_segment-IsQueueOk, eof_indication-IsQueueOk,
          prepare_eof_ack_packet-IsQueueOk,
        )
        depth 14

  pub request_metadata-IsQueueOk :
      (b : Bool) (bytes : List ℕ) → Keeps IsQueueOk (request_metadata env b bytes)
  unfolding request_metadata
  request_metadata-IsQueueOk b bytes = search (queue_rules) depth 12

  pub handle_fd_without_previous_metadata-IsQueueOk :
      (b : Bool) (offset : ℕ) (bytes : List ℕ)
      → Keeps IsQueueOk (handle_fd_without_previous_metadata env b offset bytes)
  unfolding handle_fd_without_previous_metadata
  handle_fd_without_previous_metadata-IsQueueOk b offset bytes =
      search (queue_rules, add_segment-IsQueueOk, request_metadata-IsQueueOk) depth 12

  pub prepare_file-IsQueueOk : (name : Text) → Keeps IsQueueOk (prepare_file env name)
  unfolding prepare_file
  prepare_file-IsQueueOk name = search (queue_rules) depth 16

  pub on_prepare_error-IsQueueOk : (e : Error) → Keeps IsQueueOk (on_prepare_error env e)
  unfolding on_prepare_error
  on_prepare_error-IsQueueOk Errors.permission_error =
      search (queue_rules, declare_fault-IsQueueOk) depth 12
  on_prepare_error-IsQueueOk _ = Keeps-raise _

  pub init_vfs_handling-IsQueueOk : (name : Text) → Keeps IsQueueOk (init_vfs_handling env name)
  unfolding init_vfs_handling
  init_vfs_handling-IsQueueOk name =
      search (queue_rules, prepare_file-IsQueueOk, on_prepare_error-IsQueueOk) depth 12

  pub take_file_names-IsQueueOk :
      (source dest : Option Text) → Keeps IsQueueOk (take_file_names env source dest)
  unfolding take_file_names
  take_file_names-IsQueueOk none dest = search (queue_rules) depth 12
  take_file_names-IsQueueOk (some source) none = search (queue_rules) depth 12
  take_file_names-IsQueueOk (some source) (some dest) = search (queue_rules) depth 12

  pub begin_reception-IsQueueOk :
      (source : Option Text) → Keeps IsQueueOk (begin_reception env source)
  unfolding begin_reception
  begin_reception-IsQueueOk source = search (queue_rules, init_vfs_handling-IsQueueOk) depth 12

  pub handle_metadata_packet-IsQueueOk :
      (conf : PduConfig) (m : MetadataParams) (options : Option (List Tlv))
      → Keeps IsQueueOk (handle_metadata_packet env conf m options)
  unfolding handle_metadata_packet
  handle_metadata_packet-IsQueueOk conf m options =
      search (queue_rules, take_file_names-IsQueueOk, begin_reception-IsQueueOk) depth 16

  pub start_transaction-IsQueueOk :
      (pdu : Pdu) (m : MetadataParams) (options : Option (List Tlv))
      → Keeps IsQueueOk (start_transaction env pdu m options)
  unfolding start_transaction
  start_transaction-IsQueueOk pdu m options =
      search (queue_rules, common_first_packet_handler-IsQueueOk, handle_metadata_packet-IsQueueOk)
        depth 12

  pub idle_packet-IsQueueOk :
      (pdu : Pdu) (body : PduBody) → Keeps IsQueueOk (idle_packet env pdu body)
  unfolding idle_packet
  idle_packet-IsQueueOk pdu (file_data o d m) =
      Keeps-bind _ _ (common_first_packet_not_metadata_pdu_handler-IsQueueOk pdu)
        (λ _. handle_fd_without_previous_metadata-IsQueueOk true o d)
  idle_packet-IsQueueOk pdu (eof c n k) =
      Keeps-bind _ _ (common_first_packet_not_metadata_pdu_handler-IsQueueOk pdu)
        (λ _. handle_eof_without_previous_metadata-IsQueueOk n)
  idle_packet-IsQueueOk pdu (metadata m o) = start_transaction-IsQueueOk pdu m o
  idle_packet-IsQueueOk pdu _ = Keeps-raise _

  pub idle_fsm-IsQueueOk : (packet : Option Pdu) → Keeps IsQueueOk (idle_fsm env packet)
  unfolding idle_fsm
  idle_fsm-IsQueueOk none = Keeps-skip
  idle_fsm-IsQueueOk (some pdu) = idle_packet-IsQueueOk pdu pdu.body

  pub reset_nak_activity_if_active-IsQueueOk : Keeps IsQueueOk (reset_nak_activity_if_active env)
  unfolding reset_nak_activity_if_active
  reset_nak_activity_if_active-IsQueueOk =
      search (queue_rules, reset_nak_activity_parameters-IsQueueOk) depth 12

  missing_metadata_packet-IsQueueOk :
      (pdu : Pdu) (body : PduBody) → Keeps IsQueueOk (missing_metadata_packet env pdu body)
  unfolding missing_metadata_packet
  missing_metadata_packet-IsQueueOk pdu (file_data o d m) =
      handle_fd_without_previous_metadata-IsQueueOk true o d
  missing_metadata_packet-IsQueueOk pdu (eof c n k) =
      Keeps-bind _ _ (handle_eof_without_previous_metadata-IsQueueOk n)
        (λ _. reset_nak_activity_if_active-IsQueueOk)
  missing_metadata_packet-IsQueueOk pdu (metadata m o) =
      Keeps-bind _ _ (handle_metadata_packet-IsQueueOk pdu.pdu_conf m o)
        (λ _. reset_nak_activity_if_active-IsQueueOk)
  missing_metadata_packet-IsQueueOk pdu _ = Keeps-skip

  pub handle_waiting_for_missing_metadata-IsQueueOk :
      (packet : Option Pdu) → Keeps IsQueueOk (handle_waiting_for_missing_metadata env packet)
  unfolding handle_waiting_for_missing_metadata
  handle_waiting_for_missing_metadata-IsQueueOk none = Keeps-skip
  handle_waiting_for_missing_metadata-IsQueueOk (some pdu) =
      missing_metadata_packet-IsQueueOk pdu pdu.body
