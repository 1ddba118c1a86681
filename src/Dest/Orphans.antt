-- ===== src/Dest/Orphans.antt =====
-- Transactions of the destination handler that begin with their EOF packet, before the metadata.
use cfdp_py.Base.{
  ℕ, ◌≡◌, refl, inl, inr, Bool-cases, arith, Bool, true, false, Option, none, some, List, [],
}
use cfdp_py.FilePath.{Text}
use cfdp_py.Protocol.{
  Pdu, PduBody, PduConfig, ConditionCode, eof, metadata, file_data, MetadataParams, Tlv,
  FaultHandlerCode, notice_of_cancellation, notice_of_suspension, ignore_error, abandon_transaction,
}
use cfdp_py.Errors.{Error}
use cfdp_py.Errors
use cfdp_py.Proc.{Proc, Outcome, for_each, ◌>>◌, run}
use cfdp_py.Proc.Holds.{
  Keeps, Keeps-modify, Keeps-skip, Keeps-raise, Keeps-for, after_bind, keeps_rules,
}
use cfdp_py.User.{Env, Indication}
use cfdp_py.Tracker.{LostSegmentTracker, Segment}
use cfdp_py.Dest.State.{
  DestState, DestFields, CfdpState, TransactionStep, modify_params, set_step, set_state,
  set_tracker, indicate, on_store, add_packet_to_be_sent, is_idle,
}
use cfdp_py.Dest.Segments.{add_segment, reset_nak_activity_parameters}
use cfdp_py.Dest.Faults.{
  prepare_eof_ack_packet, declare_fault, handle_fault, of_outcome, reset_internal, reset, abandon,
  notice_of_cancellation_at,
}
use cfdp_py.Dest.Receive.{eof_indication}
use cfdp_py.Dest.Start.{
  open_transaction, common_first_packet_handler, common_first_packet_not_metadata_pdu_handler,
  handle_eof_without_previous_metadata, request_metadata, handle_fd_without_previous_metadata,
  prepare_file, on_prepare_error, init_vfs_handling, take_file_names, begin_reception,
  handle_metadata_packet, idle_packet, reset_nak_activity_if_active, missing_metadata_packet,
  handle_waiting_for_missing_metadata,
}

-- The handler has no checksum.
abbrev HasNoChecksum : {F T : Type 0} → DestState F T → Type 0
HasNoChecksum s = s.params.fp.crc32 ≡ []

module _ {F T : Type 0} where
  modify_params-HasNoChecksum :
      (f : DestFields T → DestFields T)
      → ((p : DestFields T) → p.fp.crc32 ≡ [] → (f p).fp.crc32 ≡ [])
      → Keeps HasNoChecksum (modify_params {F = F} f)
  unfolding modify_params
  modify_params-HasNoChecksum f k = record { keep = λ s h. k s.params h }

  set_tracker-HasNoChecksum :
      (t : LostSegmentTracker) → Keeps HasNoChecksum (set_tracker {F = F} {T = T} t)
  unfolding set_tracker
  set_tracker-HasNoChecksum t = record { keep = λ s h. h }

  set_step-HasNoChecksum :
      (step : TransactionStep) → Keeps HasNoChecksum (set_step {F = F} {T = T} step)
  unfolding set_step
  set_step-HasNoChecksum step = record { keep = λ s h. h }

  set_state-HasNoChecksum :
      (state : CfdpState) → Keeps HasNoChecksum (set_state {F = F} {T = T} state)
  unfolding set_state
  set_state-HasNoChecksum state = record { keep = λ s h. h }

  indicate-HasNoChecksum : (i : Indication) → Keeps HasNoChecksum (indicate {F = F} {T = T} i)
  unfolding indicate
  indicate-HasNoChecksum i = record { keep = λ s h. h }

  on_store-HasNoChecksum :
      {A : Type 0} (m : Proc F A) → Keeps HasNoChecksum (on_store {F = F} {T = T} m)
  unfolding on_store
  on_store-HasNoChecksum m = record { keep = λ s h. h }

  of_outcome-HasNoChecksum :
      {A : Type 0} (r : Outcome A) → Keeps HasNoChecksum (of_outcome {F = F} {T = T} r)
  unfolding of_outcome
  of_outcome-HasNoChecksum r = record { keep = λ s h. h }

  add_packet_to_be_sent-HasNoChecksum :
      (body : PduBody) → Keeps HasNoChecksum (add_packet_to_be_sent {F = F} {T = T} body)
  unfolding add_packet_to_be_sent
  add_packet_to_be_sent-HasNoChecksum body = record { keep = λ s h. h }

ruleset checksum_rules = (
  keeps_rules, modify_params-HasNoChecksum, set_tracker-HasNoChecksum, set_step-HasNoChecksum,
  set_state-HasNoChecksum, indicate-HasNoChecksum, on_store-HasNoChecksum, of_outcome-HasNoChecksum,
  add_packet_to_be_sent-HasNoChecksum, refl,
)

module _ {F T : Type 0} (env : Env F T) where
  add_segment-HasNoChecksum :
      (seg : Segment) → Keeps HasNoChecksum (add_segment {F = F} {T = T} seg)
  unfolding add_segment
  add_segment-HasNoChecksum seg = search (checksum_rules) depth 14

  notice_of_cancellation_at-HasNoChecksum :
      (c : ConditionCode) → Keeps HasNoChecksum (notice_of_cancellation_at {F = F} {T = T} c)
  unfolding notice_of_cancellation_at
  notice_of_cancellation_at-HasNoChecksum c = search (checksum_rules) depth 14

  reset_internal-HasNoChecksum : Keeps HasNoChecksum (reset_internal env false)
  unfolding reset_internal
  reset_internal-HasNoChecksum = search (checksum_rules, Keeps-modify) depth 14

  handle_fault-HasNoChecksum :
      (fh : FaultHandlerCode) (c : ConditionCode) → Keeps HasNoChecksum (handle_fault env fh c)
  unfolding handle_fault reset abandon
  handle_fault-HasNoChecksum notice_of_cancellation c =
      search (checksum_rules, notice_of_cancellation_at-HasNoChecksum) depth 14
  handle_fault-HasNoChecksum notice_of_suspension c = search (checksum_rules) depth 14
  handle_fault-HasNoChecksum abandon_transaction c =
      search (checksum_rules, reset_internal-HasNoChecksum) depth 14
  handle_fault-HasNoChecksum ignore_error c = search (checksum_rules) depth 14

  declare_fault-HasNoChecksum : (c : ConditionCode) → Keeps HasNoChecksum (declare_fault env c)
  unfolding declare_fault
  declare_fault-HasNoChecksum c = search (checksum_rules, handle_fault-HasNoChecksum) depth 14

  prepare_file-HasNoChecksum : (name : Text) → Keeps HasNoChecksum (prepare_file env name)
  unfolding prepare_file
  prepare_file-HasNoChecksum name = search (checksum_rules) depth 16

  on_prepare_error-HasNoChecksum : (e : Error) → Keeps HasNoChecksum (on_prepare_error env e)
  unfolding on_prepare_error
  on_prepare_error-HasNoChecksum Errors.permission_error =
      search (checksum_rules, declare_fault-HasNoChecksum) depth 12
  on_prepare_error-HasNoChecksum _ = Keeps-raise _

  init_vfs_handling-HasNoChecksum : (name : Text) → Keeps HasNoChecksum (init_vfs_handling env name)
  unfolding init_vfs_handling
  init_vfs_handling-HasNoChecksum name =
      search (checksum_rules, prepare_file-HasNoChecksum, on_prepare_error-HasNoChecksum) depth 14

  take_file_names-HasNoChecksum :
      (source dest : Option Text) → Keeps HasNoChecksum (take_file_names env source dest)
  unfolding take_file_names
  take_file_names-HasNoChecksum (some a) (some b) = search (checksum_rules) depth 12
  take_file_names-HasNoChecksum (some a) none = search (checksum_rules) depth 12
  take_file_names-HasNoChecksum none dest = search (checksum_rules) depth 12

  begin_reception-HasNoChecksum :
      (source : Option Text) → Keeps HasNoChecksum (begin_reception env source)
  unfolding begin_reception
  begin_reception-HasNoChecksum source =
      search (checksum_rules, init_vfs_handling-HasNoChecksum) depth 14

  handle_metadata_packet-HasNoChecksum :
      (c : PduConfig) (m : MetadataParams) (o : Option (List Tlv))
      → Keeps HasNoChecksum (handle_metadata_packet env c m o)
  unfolding handle_metadata_packet
  handle_metadata_packet-HasNoChecksum c m o =
      search (checksum_rules, take_file_names-HasNoChecksum, begin_reception-HasNoChecksum) depth 20

  eof_indication-HasNoChecksum : Keeps HasNoChecksum (eof_indication env)
  unfolding eof_indication
  eof_indication-HasNoChecksum = search (checksum_rules) depth 14

  prepare_eof_ack_packet-HasNoChecksum : Keeps HasNoChecksum (prepare_eof_ack_packet env)
  unfolding prepare_eof_ack_packet
  prepare_eof_ack_packet-HasNoChecksum = search (checksum_rules) depth 14

  handle_eof_without_previous_metadata-HasNoChecksum :
      (n : ℕ) → Keeps HasNoChecksum (handle_eof_without_previous_metadata env n)
  unfolding handle_eof_without_previous_metadata
  handle_eof_without_previous_metadata-HasNoChecksum n =
      search
        (
          checksum_rules, add_segment-HasNoChecksum, eof_indication-HasNoChecksum,
          prepare_eof_ack_packet-HasNoChecksum,
        )
        depth 16

  request_metadata-HasNoChecksum :
      (b : Bool) (bytes : List ℕ) → Keeps HasNoChecksum (request_metadata env b bytes)
  unfolding request_metadata
  request_metadata-HasNoChecksum b bytes = search (checksum_rules) depth 14

  handle_fd_without_previous_metadata-HasNoChecksum :
      (b : Bool) (offset : ℕ) (bytes : List ℕ)
      → Keeps HasNoChecksum (handle_fd_without_previous_metadata env b offset bytes)
  unfolding handle_fd_without_previous_metadata
  handle_fd_without_previous_metadata-HasNoChecksum b offset bytes =
      search (checksum_rules, add_segment-HasNoChecksum, request_metadata-HasNoChecksum) depth 14

  reset_nak_activity_if_active-HasNoChecksum :
      Keeps HasNoChecksum (reset_nak_activity_if_active env)
  unfolding reset_nak_activity_if_active reset_nak_activity_parameters
  reset_nak_activity_if_active-HasNoChecksum = search (checksum_rules) depth 14

  missing_metadata_packet-HasNoChecksum :
      (pdu : Pdu) (body : PduBody) → Keeps HasNoChecksum (missing_metadata_packet env pdu body)
  unfolding missing_metadata_packet
  missing_metadata_packet-HasNoChecksum pdu (file_data offset bytes m) =
      handle_fd_without_previous_metadata-HasNoChecksum true offset bytes
  missing_metadata_packet-HasNoChecksum pdu (metadata m o) =
      search
        (
          checksum_rules, handle_metadata_packet-HasNoChecksum,
          reset_nak_activity_if_active-HasNoChecksum,
        )
        depth 12
  missing_metadata_packet-HasNoChecksum pdu (eof c n k) =
      search
        (
          checksum_rules, handle_eof_without_previous_metadata-HasNoChecksum,
          reset_nak_activity_if_active-HasNoChecksum,
        )
        depth 12
  missing_metadata_packet-HasNoChecksum pdu _ = Keeps-skip

  handle_waiting_for_missing_metadata-HasNoChecksum :
      (pdu : Pdu) → Keeps HasNoChecksum (handle_waiting_for_missing_metadata env (some pdu))
  unfolding handle_waiting_for_missing_metadata
  handle_waiting_for_missing_metadata-HasNoChecksum pdu =
      missing_metadata_packet-HasNoChecksum pdu pdu.body

  open_transaction-HasNoChecksum : (pdu : Pdu) → Keeps HasNoChecksum (open_transaction env pdu)
  unfolding open_transaction
  open_transaction-HasNoChecksum pdu = search (checksum_rules, Keeps-modify) depth 12

  first_common-HasNoChecksum :
      (pdu : Pdu) (s : DestState F T)
      → HasNoChecksum (common_first_packet_not_metadata_pdu_handler env pdu s).1
  unfolding common_first_packet_not_metadata_pdu_handler common_first_packet_handler modify_params
      run open_transaction set_state set_step
  first_common-HasNoChecksum pdu s = elim (Bool-cases (is_idle s.states.state)) [
    | inl e ↦ ground arith
    | inr e ↦ ground arith
  ]

  idle_eof-HasNoChecksum :
      (pdu : Pdu) (checksum : List ℕ) (file_size : ℕ) (cond : ConditionCode)
      → (s : DestState F T) → HasNoChecksum (idle_packet env pdu (eof checksum file_size cond) s).1
  unfolding idle_packet
  idle_eof-HasNoChecksum pdu checksum file_size cond s =
      after_bind _ _ s (first_common-HasNoChecksum pdu s)
        (λ _. handle_eof_without_previous_metadata-HasNoChecksum file_size)

  -- Where a transaction begins with its EOF packet, the checksum of that packet is lost: whatever
  -- packets come while the metadata is missing, the metadata among them, and whether their handling
  -- returns or raises, the checksum that the handler compares with is the empty one.
  pub eof_first_loses_checksum :
      (pdu : Pdu) (checksum : List ℕ) (file_size : ℕ) (cond : ConditionCode) (later : List Pdu)
      → (s : DestState F T)
      → ((idle_packet env pdu (eof checksum file_size cond)
            >> for_each later (λ p. handle_waiting_for_missing_metadata env (some p)))
          s).1.params.fp.crc32
        ≡ []
  eof_first_loses_checksum pdu checksum file_size cond later s =
      after_bind _ _ s (idle_eof-HasNoChecksum pdu checksum file_size cond s)
        (λ _. Keeps-for later _ handle_waiting_for_missing_metadata-HasNoChecksum)
