-- ===== src/Dest/Mismatch.antt =====
-- What src/cfdppy/handler/dest.py makes of an EOF packet whose checksum is not that of the file.
pub mod Eof
use cfdp_py.Dest.Checksum.{computed, needs_no_checksum}
use cfdp_py.Dest.Segments.{add_segment}
use cfdp_py.FilePath.{text_eq}
use cfdp_py.Mib.{get_fault_handler}
use cfdp_py.Tracker.{LostSegmentTracker}
use cfdp_py.Protocol.{
  no_error, same_condition, file_size_error, file_checksum_failure, is_null_checksum,
  is_ignore_error, ignore_error, abandon_transaction, notice_of_suspension, notice_of_cancellation,
  ConditionCode, data_incomplete, FaultHandlerCode, PduBody,
}
use cfdp_py.Proc.{modify, ◌>>=◌, ◌>>◌, Proc, when, pure, returned, run, Outcome}
use cfdp_py.Dest.Receive.{
  handle_eof_pdu, check_unacked, verify_unacked, handle_no_error_eof, start_check_limit_handling,
  check_progress, eof_indication, fault_stops, handle_cancel_eof, file_transfer_complete_transition,
}
use cfdp_py.Base.{
  some, not, sym, if◌then◌else◌, ◌∙◌, ap, ltb, Bool-cases, ◌||◌, inr, arith, inl, Option-cases,
  Bool, ◌≡◌, refl, true, false, ℕ, List,
}
use cfdp_py.Proc.Holds.{after_bind, Outcome-cases, Keeps-modify, Keeps, keeps_rules, bind_cases}
use cfdp_py.User.{Indication, Env}
use cfdp_py.Dest.State.{
  transmission_mode, is_unacked, TransactionStep, CfdpState, DestState, DestFields, modify_params,
  set_step, set_state, indicate, on_store, set_tracker, add_packet_to_be_sent,
}
use cfdp_py.Dest.Faults.{
  checksum_verify, prepare_eof_ack_packet, trigger_notice_of_completion_canceled,
  notice_of_cancellation_at, handle_fault, declare_fault, reset_internal, reset, abandon,
  of_outcome,
}

-- The delivery is not marked as complete.
pub record IsIncomplete {F T : Type 0} (s : DestState F T) : Type 0 where
  pub code : s.params.finished_params.delivery_code ≡ data_incomplete

module _ {F T : Type 0} where
  pub modify_params-IsIncomplete :
      (f : DestFields T → DestFields T)
      → ((p : DestFields T)
          → p.finished_params.delivery_code ≡ data_incomplete
          → (f p).finished_params.delivery_code ≡ data_incomplete)
      → Keeps IsIncomplete (modify_params {F = F} f)
  unfolding modify_params
  modify_params-IsIncomplete f k = record { keep = λ s h. record { code = k s.params h.code } }

  pub set_tracker-IsIncomplete :
      (t : LostSegmentTracker) → Keeps IsIncomplete (set_tracker {F = F} {T = T} t)
  unfolding set_tracker
  set_tracker-IsIncomplete t = record { keep = λ s h. record { code = h.code } }

  pub set_step-IsIncomplete :
      (step : TransactionStep) → Keeps IsIncomplete (set_step {F = F} {T = T} step)
  unfolding set_step
  set_step-IsIncomplete step = record { keep = λ s h. record { code = h.code } }

  pub set_state-IsIncomplete :
      (state : CfdpState) → Keeps IsIncomplete (set_state {F = F} {T = T} state)
  unfolding set_state
  set_state-IsIncomplete state = record { keep = λ s h. record { code = h.code } }

  pub indicate-IsIncomplete : (i : Indication) → Keeps IsIncomplete (indicate {F = F} {T = T} i)
  unfolding indicate
  indicate-IsIncomplete i = record { keep = λ s h. record { code = h.code } }

  pub of_outcome-IsIncomplete :
      {A : Type 0} (r : Outcome A) → Keeps IsIncomplete (of_outcome {F = F} {T = T} r)
  unfolding of_outcome
  of_outcome-IsIncomplete r = record { keep = λ s h. h }

  pub add_packet-IsIncomplete :
      (body : PduBody) → Keeps IsIncomplete (add_packet_to_be_sent {F = F} {T = T} body)
  unfolding add_packet_to_be_sent
  add_packet-IsIncomplete body = record { keep = λ s h. record { code = h.code } }

pub ruleset incomplete_rules = (
  keeps_rules, set_tracker-IsIncomplete, set_step-IsIncomplete, set_state-IsIncomplete,
  indicate-IsIncomplete, of_outcome-IsIncomplete, add_packet-IsIncomplete,
  modify_params-IsIncomplete,
)

module _ {F T : Type 0} (env : Env F T) where
  pub reset_internal-IsIncomplete : Keeps IsIncomplete (reset_internal env false)
  unfolding reset_internal
  reset_internal-IsIncomplete = search (incomplete_rules, Keeps-modify) depth 12

  pub reset-IsIncomplete : Keeps IsIncomplete (reset env)
  unfolding reset
  reset-IsIncomplete = search (incomplete_rules, reset_internal-IsIncomplete) depth 12

  pub abandon-IsIncomplete : Keeps IsIncomplete (abandon env)
  unfolding abandon
  abandon-IsIncomplete = search (incomplete_rules, reset-IsIncomplete) depth 12

  pub cancellation-IsIncomplete :
      (c : ConditionCode) → Keeps IsIncomplete (notice_of_cancellation_at {F = F} {T = T} c)
  unfolding notice_of_cancellation_at
  cancellation-IsIncomplete c = search (incomplete_rules) depth 12

  pub handle_fault-IsIncomplete :
      (fh : FaultHandlerCode) (c : ConditionCode) → Keeps IsIncomplete (handle_fault env fh c)
  unfolding handle_fault
  handle_fault-IsIncomplete notice_of_cancellation c =
      search (incomplete_rules, cancellation-IsIncomplete) depth 12
  handle_fault-IsIncomplete notice_of_suspension c = search (incomplete_rules) depth 12
  handle_fault-IsIncomplete abandon_transaction c =
      search (incomplete_rules, abandon-IsIncomplete) depth 12
  handle_fault-IsIncomplete ignore_error c = search (incomplete_rules) depth 12

  pub declare_fault-IsIncomplete : (c : ConditionCode) → Keeps IsIncomplete (declare_fault env c)
  unfolding declare_fault
  declare_fault-IsIncomplete c = search (incomplete_rules, handle_fault-IsIncomplete) depth 16

  pub fault_stops-IsIncomplete :
      (b : Bool) (c : ConditionCode) → Keeps IsIncomplete (fault_stops env b c)
  unfolding fault_stops
  fault_stops-IsIncomplete false c = search (incomplete_rules) depth 12
  fault_stops-IsIncomplete true c = search (incomplete_rules, declare_fault-IsIncomplete) depth 12

  pub eof_indication-IsIncomplete : Keeps IsIncomplete (eof_indication env)
  unfolding eof_indication
  eof_indication-IsIncomplete = search (incomplete_rules) depth 12

  pub transition-IsIncomplete : Keeps IsIncomplete (file_transfer_complete_transition env)
  unfolding file_transfer_complete_transition prepare_eof_ack_packet
  transition-IsIncomplete = search (incomplete_rules) depth 14

  pub cancel_eof-IsIncomplete :
      (c : ConditionCode) (size : ℕ) → Keeps IsIncomplete (handle_cancel_eof env c size)
  unfolding handle_cancel_eof trigger_notice_of_completion_canceled
  cancel_eof-IsIncomplete c size = search (incomplete_rules) depth 14
