-- ===== src/Dest/Leftovers.antt =====
-- The tracker of lost segments from one transaction of the destination handler to the next.
use cfdp_py.Base.{◌≡◌, refl, false, Option, none, some, List}
use cfdp_py.FilePath.{Text}
use cfdp_py.Protocol.{
  Pdu, PduConfig, ConditionCode, MetadataParams, Tlv, FaultHandlerCode, notice_of_cancellation,
  notice_of_suspension, ignore_error, abandon_transaction,
}
use cfdp_py.Errors.{Error}
use cfdp_py.Errors
use cfdp_py.Proc.{Proc, Outcome, ◌>>◌}
use cfdp_py.Proc.Holds.{Keeps, Keeps-modify, Keeps-raise, keeps_rules}
use cfdp_py.User.{Env, Indication}
use cfdp_py.Tracker.{LostSegmentTracker}
use cfdp_py.Dest.State.{
  DestState, DestFields, CfdpState, TransactionStep, modify_params, set_step, set_state, indicate,
  on_store,
}
use cfdp_py.Dest.Faults.{
  declare_fault, handle_fault, of_outcome, reset_internal, reset, abandon,
  notice_of_cancellation_at,
}
use cfdp_py.Dest.Start.{
  open_transaction, common_first_packet_handler, prepare_file, on_prepare_error, init_vfs_handling,
  take_file_names, begin_reception, handle_metadata_packet, start_transaction,
}

module _ {F T : Type 0} (t : LostSegmentTracker) where
  abbrev HasTracker : DestState F T → Type 0
  HasTracker s = s.lost_seg_tracker ≡ t

  modify_params-HasTracker : (f : DestFields T → DestFields T) → Keeps HasTracker (modify_params f)
  unfolding modify_params
  modify_params-HasTracker f = record { keep = λ s h. h }

  set_step-HasTracker : (step : TransactionStep) → Keeps HasTracker (set_step step)
  unfolding set_step
  set_step-HasTracker step = record { keep = λ s h. h }

  set_state-HasTracker : (state : CfdpState) → Keeps HasTracker (set_state state)
  unfolding set_state
  set_state-HasTracker state = record { keep = λ s h. h }

  indicate-HasTracker : (i : Indication) → Keeps HasTracker (indicate i)
  unfolding indicate
  indicate-HasTracker i = record { keep = λ s h. h }

  on_store-HasTracker : {A : Type 0} (m : Proc F A) → Keeps HasTracker (on_store m)
  unfolding on_store
  on_store-HasTracker m = record { keep = λ s h. h }

  of_outcome-HasTracker : {A : Type 0} (r : Outcome A) → Keeps HasTracker (of_outcome r)
  unfolding of_outcome
  of_outcome-HasTracker r = record { keep = λ s h. h }

ruleset tracker_rules = (
  keeps_rules, modify_params-HasTracker, set_step-HasTracker, set_state-HasTracker,
  indicate-HasTracker, on_store-HasTracker, of_outcome-HasTracker,
)

module _ {F T : Type 0} (env : Env F T) (t : LostSegmentTracker) where
  notice_of_cancellation_at-HasTracker :
      (c : ConditionCode) → Keeps (HasTracker {F = F} {T = T} t) (notice_of_cancellation_at c)
  unfolding notice_of_cancellation_at
  notice_of_cancellation_at-HasTracker c = search (tracker_rules) depth 14

  reset_internal-HasTracker : Keeps (HasTracker {F = F} {T = T} t) (reset_internal env false)
  unfolding reset_internal
  reset_internal-HasTracker = search (tracker_rules, Keeps-modify) depth 14

  handle_fault-HasTracker :
      (fh : FaultHandlerCode) (c : ConditionCode)
      → Keeps (HasTracker {F = F} {T = T} t) (handle_fault env fh c)
  unfolding handle_fault reset abandon
  handle_fault-HasTracker notice_of_cancellation c =
      search (tracker_rules, notice_of_cancellation_at-HasTracker) depth 14
  handle_fault-HasTracker notice_of_suspension c = search (tracker_rules) depth 14
  handle_fault-HasTracker abandon_transaction c =
      search (tracker_rules, reset_internal-HasTracker) depth 14
  handle_fault-HasTracker ignore_error c = search (tracker_rules) depth 14

  declare_fault-HasTracker :
      (c : ConditionCode) → Keeps (HasTracker {F = F} {T = T} t) (declare_fault env c)
  unfolding declare_fault
  declare_fault-HasTracker c = search (tracker_rules, handle_fault-HasTracker) depth 14

  prepare_file-HasTracker :
      (name : Text) → Keeps (HasTracker {F = F} {T = T} t) (prepare_file env name)
  unfolding prepare_file
  prepare_file-HasTracker name = search (tracker_rules) depth 16

  on_prepare_error-HasTracker : (e : Error) → Keeps (HasTracker t) (on_prepare_error env e)
  unfolding on_prepare_error
  on_prepare_error-HasTracker Errors.permission_error =
      search (tracker_rules, declare_fault-HasTracker) depth 12
  on_prepare_error-HasTracker _ = Keeps-raise _

  init_vfs_handling-HasTracker :
      (name : Text) → Keeps (HasTracker {F = F} {T = T} t) (init_vfs_handling env name)
  unfolding init_vfs_handling
  init_vfs_handling-HasTracker name =
      search (tracker_rules, prepare_file-HasTracker, on_prepare_error-HasTracker) depth 14

  take_file_names-HasTracker :
      (source dest : Option Text) → Keeps (HasTracker t) (take_file_names env source dest)
  unfolding take_file_names
  take_file_names-HasTracker (some a) (some b) = search (tracker_rules) depth 12
  take_file_names-HasTracker (some a) none = search (tracker_rules) depth 12
  take_file_names-HasTracker none dest = search (tracker_rules) depth 12

  begin_reception-HasTracker :
      (source : Option Text) → Keeps (HasTracker {F = F} {T = T} t) (begin_reception env source)
  unfolding begin_reception
  begin_reception-HasTracker source = search (tracker_rules, init_vfs_handling-HasTracker) depth 14

  handle_metadata_packet-HasTracker :
      (c : PduConfig) (m : MetadataParams) (o : Option (List Tlv))
      → Keeps (HasTracker {F = F} {T = T} t) (handle_metadata_packet env c m o)
  unfolding handle_metadata_packet
  handle_metadata_packet-HasTracker c m o =
      search (tracker_rules, take_file_names-HasTracker, begin_reception-HasTracker) depth 20

  open_transaction-HasTracker :
      (pdu : Pdu) → Keeps (HasTracker {F = F} {T = T} t) (open_transaction env pdu)
  unfolding open_transaction
  open_transaction-HasTracker pdu = search (tracker_rules, Keeps-modify) depth 14

  start_transaction-HasTracker :
      (pdu : Pdu) (m : MetadataParams) (o : Option (List Tlv))
      → Keeps (HasTracker {F = F} {T = T} t) (start_transaction env pdu m o)
  unfolding start_transaction common_first_packet_handler
  start_transaction-HasTracker pdu m o =
      search (tracker_rules, open_transaction-HasTracker, handle_metadata_packet-HasTracker) depth
        14

  restart-HasTracker :
      (pdu : Pdu) (m : MetadataParams) (o : Option (List Tlv))
      → Keeps (HasTracker t) (reset env >> start_transaction env pdu m o)
  unfolding reset
  restart-HasTracker pdu m o =
      search (tracker_rules, reset_internal-HasTracker, start_transaction-HasTracker) depth 12

module _ {F T : Type 0} (env : Env F T) where
  -- A reset and the start of the next transaction by its metadata, whether it returns or raises,
  -- leave the segments that were lost in the transaction before in the tracker.
  pub start_transaction-leftovers :
      (pdu : Pdu) (m : MetadataParams) (options : Option (List Tlv)) (s : DestState F T)
      → ((reset env >> start_transaction env pdu m options) s).1.lost_seg_tracker
        ≡ s.lost_seg_tracker
  start_transaction-leftovers pdu m options s =
      (restart-HasTracker env s.lost_seg_tracker pdu m options).keep s refl
