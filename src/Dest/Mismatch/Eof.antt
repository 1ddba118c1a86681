-- ===== src/Dest/Mismatch/Eof.antt =====
-- The handling of an EOF packet with a wrong checksum in src/cfdppy/handler/dest.py.
use cfdp_py.Dest.Checksum.{computed, needs_no_checksum}
use cfdp_py.Dest.Segments.{add_segment}
use cfdp_py.FilePath.{text_eq}
use cfdp_py.Mib.{get_fault_handler}
use cfdp_py.Protocol.{
  no_error, same_condition, file_size_error, file_checksum_failure, is_null_checksum,
  is_ignore_error, ignore_error, abandon_transaction, notice_of_suspension, notice_of_cancellation,
  ConditionCode, data_incomplete, FaultHandlerCode,
}
use cfdp_py.Proc.{modify, ◌>>=◌, ◌>>◌, Proc, when, pure, returned, run, Outcome}
use cfdp_py.Dest.Receive.{
  handle_eof_pdu, check_unacked, verify_unacked, handle_no_error_eof, start_check_limit_handling,
  check_progress, eof_indication, fault_stops, handle_cancel_eof, file_transfer_complete_transition,
}
use cfdp_py.Base.{
  some, not, sym, if◌then◌else◌, ◌∙◌, ap, ltb, Bool-cases, ◌||◌, inr, arith, inl, Option-cases,
  Bool, ◌≡◌, true, false, ℕ, List,
}
use cfdp_py.Proc.Holds.{after_bind, Outcome-cases, Keeps, bind_cases}
use cfdp_py.User.{Env}
use cfdp_py.Dest.State.{
  transmission_mode, is_unacked, DestState, modify_params, set_step, set_state, indicate, on_store,
  set_tracker,
}
use cfdp_py.Dest.Faults.{
  checksum_verify, notice_of_cancellation_at, handle_fault, declare_fault, reset_internal, reset,
  abandon, of_outcome,
}
use cfdp_py.Dest.Mismatch.{
  IsIncomplete, incomplete_rules, declare_fault-IsIncomplete, fault_stops-IsIncomplete,
  eof_indication-IsIncomplete, transition-IsIncomplete, cancel_eof-IsIncomplete,
}
use cfdp_py.Dest.Checksum.{computed, needs_no_checksum}

module _ {F T : Type 0} (env : Env F T) where
  -- A fault that is ignored leaves the fields and the store alone.
  ignored :
      (c : ConditionCode) (s : DestState F T) (fh : FaultHandlerCode)
      → (declare_fault env c s).0 ≡ returned fh
      → is_ignore_error fh ≡ true
      → ((declare_fault env c s).1.params ≡ s.params) × ((declare_fault env c s).1.store ≡ s.store)
  unfolding declare_fault run of_outcome indicate
  ignored c s fh r i = elim (Option-cases (get_fault_handler c env.cfg.default_fault_handlers)) [
    | inl e ↦ ground (arith, e)
    | inr (ignore_error, e) ↦ unfold handle_fault in ground (arith, e)
    | inr (notice_of_cancellation, e) ↦
        unfold handle_fault notice_of_cancellation_at modify_params set_step in ground (arith, e)
    | inr (notice_of_suspension, e) ↦ unfold handle_fault in ground (arith, e)
    | inr (abandon_transaction, e) ↦
        unfold handle_fault abandon reset reset_internal modify_params set_step set_state in
        ground (arith, e)
  ]

  abbrev computed_at : DestState F T → Outcome (List ℕ)
  computed_at s =
      (env.vfs.calculate_checksum s.params.checksum_type s.params.fp.file_name s.params.fp.progress
        4096 s.store).0

  -- The checksum kept of the EOF packet is not that of the file, as far as one is computed.
  record HasMismatch (s : DestState F T) : Type 0 where
    incomplete : IsIncomplete s
    needs_checksum : (is_null_checksum s.params.checksum_type || s.params.fp.metadata_only) ≡ false
    differs : (sum : List ℕ) → computed_at s ≡ returned sum → text_eq sum s.params.fp.crc32 ≡ false

  -- The verification declares the fault, and the delivery is not marked as complete.
  checksum_verify-mismatch :
      (s : DestState F T) → HasMismatch s → IsIncomplete (checksum_verify env s).1
  unfolding checksum_verify on_store run
  checksum_verify-mismatch s h = elim (Outcome-cases (computed_at s)) [
    | inl (sum, e) ↦
        let t = record s {
          store =
              (env.vfs.calculate_checksum s.params.checksum_type s.params.fp.file_name
                s.params.fp.progress 4096 s.store).1;
        } in
        let kept : IsIncomplete (declare_fault env file_checksum_failure t).1 =
          (declare_fault-IsIncomplete env file_checksum_failure).keep t
            (record { code = h.incomplete.code }) in
        record { code = ground (arith, e, h.needs_checksum, h.differs sum e, kept.code) }
    | inr (err, e) ↦ record { code = ground (arith, e, h.needs_checksum, h.incomplete.code) }
  ]

  progress_same :
      (size : ℕ) (s : DestState F T)
      → (check_progress env size s).0 ≡ returned true
      → ((check_progress env size s).1.params ≡ s.params)
        × ((check_progress env size s).1.store ≡ s.store)
  unfolding check_progress fault_stops add_segment set_tracker run
  progress_same size s r = elim (Bool-cases (ltb size s.params.fp.progress)) [
    | inl e ↦ elim (Outcome-cases (declare_fault env file_size_error s).0) [
      | inl (fh, d) ↦ ground (arith, e, d, ignored file_size_error s fh d)
      | inr (err, d) ↦ ground (arith, e, d)
    ]
    | inr e ↦ ground (arith, e)
  ]

  same_fields :
      (s t : DestState F T)
      → t.params ≡ s.params
      → t.store ≡ s.store
      → HasMismatch s
      → HasMismatch t
  same_fields s t p f h = record {
    incomplete = record { code = ap (λ q. q.finished_params.delivery_code) p ∙ h.incomplete.code };
    needs_checksum =
        ap (λ q. is_null_checksum q.checksum_type || q.fp.metadata_only) p ∙ h.needs_checksum;
    differs = λ sum e.
        ap (λ q. text_eq sum q.fp.crc32) p
        ∙ h.differs sum (
            ap (λ x. computed_at (record s { store = x })) (sym f)
            ∙ ap (λ q. computed_at (record s { params = q; store = t.store })) (sym p)
            ∙ e);
  }

  start_check-IsIncomplete : Keeps IsIncomplete (start_check_limit_handling env)
  unfolding start_check_limit_handling
  start_check-IsIncomplete = search (incomplete_rules) depth 14

  progress-IsIncomplete : (size : ℕ) → Keeps IsIncomplete (check_progress env size)
  unfolding check_progress add_segment
  progress-IsIncomplete size = search (incomplete_rules, fault_stops-IsIncomplete) depth 16

  abbrev after_verification : Bool → Proc (DestState F T) Bool
  after_verification complete = if complete then pure true else do
    stop ← fault_stops env true file_checksum_failure
    when (not stop) (start_check_limit_handling env)
    pure false

  after_verification-IsIncomplete :
      (complete : Bool) → Keeps IsIncomplete (after_verification complete)
  after_verification-IsIncomplete complete =
      search (incomplete_rules, fault_stops-IsIncomplete, start_check-IsIncomplete) depth 16

  verified : (s : DestState F T) → HasMismatch s → IsIncomplete (verify_unacked env s).1
  unfolding verify_unacked
  verified s h =
      after_bind (checksum_verify env) after_verification s (checksum_verify-mismatch s h)
        after_verification-IsIncomplete

  checked : (s : DestState F T) → HasMismatch s → IsIncomplete (check_unacked env s).1
  unfolding check_unacked run
  checked s h = elim (Bool-cases (is_unacked (transmission_mode s))) [
    | inl e ↦ record { code = ground (arith, e, (verified s h).code) }
    | inr e ↦ record { code = ground (arith, e, h.incomplete.code) }
  ]

  regular :
      (size : ℕ) (s : DestState F T)
      → HasMismatch s
      → IsIncomplete (handle_no_error_eof env size s).1
  unfolding handle_no_error_eof
  regular size s h =
      bind_cases IsIncomplete (check_progress env size) _ s
        ((progress-IsIncomplete size).keep s h.incomplete) (go_on_as h)
    where
      go_on_as :
          HasMismatch s
          → (go_on : Bool) → (check_progress env size s).0 ≡ returned go_on
          → IsIncomplete
              ((if go_on then check_unacked env else pure false) (check_progress env size s).1).1
      go_on_as h true r =
          let (p, f) = progress_same size s r in
          checked (check_progress env size s).1 (same_fields s (check_progress env size s).1 p f h)
      go_on_as h false r = unfold pure in (progress-IsIncomplete size).keep s h.incomplete

  indication_same :
      (s : DestState F T)
      → ((eof_indication env s).1.params ≡ s.params) × ((eof_indication env s).1.store ≡ s.store)
  unfolding eof_indication run indicate
  indication_same s = elim (Bool-cases env.cfg.indication_cfg.eof_recv_indication_required) [
    | inl e ↦ ground (arith, e)
    | inr e ↦ ground (arith, e)
  ]

  abbrev by_condition : ConditionCode → ℕ → Proc (DestState F T) (Unit {0})
  by_condition cond size =
      if same_condition cond no_error
      then (do
        regular_completion ← handle_no_error_eof env size
        when regular_completion (file_transfer_complete_transition env))
      else do handle_cancel_eof env cond size; file_transfer_complete_transition env

  handled :
      (cond : ConditionCode) (size : ℕ) (s : DestState F T)
      → HasMismatch s
      → IsIncomplete (by_condition cond size s).1
  handled cond size s h = elim (Bool-cases (same_condition cond no_error)) [
    | inl e ↦ rw e (
        after_bind (handle_no_error_eof env size)
          (λ done. when done (file_transfer_complete_transition env)) s (regular size s h)
          completes)
    | inr e ↦ rw e (canceled.keep s h.incomplete)
  ]
    where
      completes :
          (done : Bool) → Keeps IsIncomplete (when done (file_transfer_complete_transition env))
      completes done = search (incomplete_rules, transition-IsIncomplete) depth 12

      canceled :
          Keeps IsIncomplete
            (do handle_cancel_eof env cond size; file_transfer_complete_transition env)
      canceled =
          search (incomplete_rules, transition-IsIncomplete, cancel_eof-IsIncomplete) depth 12

  -- An EOF packet whose checksum is not the one that the filestore computes for the file received so
  -- far, or where none can be computed, never marks the delivery as complete, if it was not complete
  -- before and the transfer needs a checksum: not in any mode, for any size and condition code, for
  -- any fault handlers, and whether the handling returns or raises.
  pub handle_eof_pdu-mismatch :
      (checksum : List ℕ) (size : ℕ) (cond : ConditionCode) (s : DestState F T)
      → s.params.finished_params.delivery_code ≡ data_incomplete
      → needs_no_checksum env s ≡ false
      → ((sum : List ℕ) → (computed env s).0 ≡ returned sum → text_eq sum checksum ≡ false)
      → (handle_eof_pdu env checksum size cond s).1.params.finished_params.delivery_code
        ≡ data_incomplete
  unfolding handle_eof_pdu modify_params modify ◌>>=◌
  handle_eof_pdu-mismatch checksum size cond s i n d =
      let t = record s {
        params = record s.params {
          fp = record s.params.fp { crc32 = checksum; file_size_eof = some size };
        };
      } in
      let inc : IsIncomplete t = record { code = i } in
      let h : HasMismatch t = record { incomplete = inc; needs_checksum = n; differs = d } in
      let (p, f) = indication_same t in
      let u = (eof_indication env t).1 in
      let all : IsIncomplete ((eof_indication env >> by_condition cond size) t).1 =
        bind_cases IsIncomplete (eof_indication env) (λ _. by_condition cond size) t
          ((eof_indication-IsIncomplete env).keep t inc)
          (λ a r. handled cond size u (same_fields t u p f h)) in
      all.code
