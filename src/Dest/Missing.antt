-- ===== src/Dest/Missing.antt =====
-- File data packets in any order at the destination handler of src/cfdppy/handler/dest.py: every byte
-- that has not arrived is known to be lost.
use cfdp_py.Proc.Steps.{gets_bind}
use cfdp_py.Dest.Segments.{lost_segment_handling}
use cfdp_py.Tracker.Cover.{covers}
use cfdp_py.Errors.{Error}
use cfdp_py.Dest.Receive.{
  handle_fd_pdu, write_file_data, exceeds_eof_size, reject_file, fault_stops, on_write_error,
}
use cfdp_py.Errors
use cfdp_py.Proc.{modify, try_except, skip, when, ◌>>◌, gets, ◌>>=◌, run, Proc, Outcome}
use cfdp_py.Protocol.{
  file_size_error, file_retained, notice_of_cancellation, notice_of_suspension, abandon_transaction,
  ignore_error, FaultHandlerCode, ConditionCode,
}
use cfdp_py.Dest.Faults.{
  reset, abandon, notice_of_cancellation_at, handle_fault, declare_fault, reset_internal,
  of_outcome,
}
use cfdp_py.User.{file_segment_recv_indication, Indication, Env}
use cfdp_py.Dest.State.{
  modify_fp, mode_of, DestFields, modify_finished, set_state, transmission_mode, is_acked,
  TransactionStep, indicate, modify_params, on_store, DestState, set_step,
}
use cfdp_py.Base.{
  inr, inl, Bool-cases, none, ◌||◌, ◌++◌, max, not, subst, ◌∙◌, length, ◌+◌, sym, ap, true, false,
  refl, arith, true, ◌≡◌, Bool, ℕ, List, [], ◌∷◌,
}
use cfdp_py.Proc.Holds.{Outcome-cases, Keeps-raise, Keeps, keeps_rules, after_bind}
use cfdp_py.Dest.Losses.{delivered, KnownAt, Known, moved, lost_segment_handling-Known}

-- In acknowledged mode the missing bytes are known.
pub record KnowsMissing {F T : Type 0} (packets : List (ℕ × List ℕ)) (s : DestState F T)
    : Type 0 where
  pub if_acked : is_acked (transmission_mode s) ≡ true → Known packets s

module _ {F T : Type 0} (packets : List (ℕ × List ℕ)) where
  abbrev K : DestState F T → Type 0
  K s = KnowsMissing packets s

  params_kept :
      (f : DestFields T → DestFields T)
      → ((p : DestFields T)
          → ((f p).acked_params ≡ p.acked_params)
            × ((f p).remote_cfg ≡ p.remote_cfg)
            × ((f p).pdu_conf ≡ p.pdu_conf))
      → Keeps K (modify_params f)
  unfolding modify_params
  params_kept f same = record {
    keep = λ s h. record {
      if_acked = λ a.
          let (p, c, m) = same s.params in
          let k =
            h.if_acked
              (ap (λ conf. is_acked (mode_of s.states.state conf.trans_mode)) (sym m) ∙ a) in
          moved packets _ _ s _ refl c
            (subst (λ q. KnownAt packets q.last_start_offset q.last_end_offset s) (sym p) k);
    };
  }

  step_kept : (step : TransactionStep) → Keeps K (set_step step)
  unfolding set_step
  step_kept step = record {
    keep = λ s h. record { if_acked = λ a. moved packets _ _ s _ refl refl (h.if_acked a) };
  }

  indicate_kept : (i : Indication) → Keeps K (indicate i)
  unfolding indicate
  indicate_kept i = record {
    keep = λ s h. record { if_acked = λ a. moved packets _ _ s _ refl refl (h.if_acked a) };
  }

  on_store_kept : {A : Type 0} (m : Proc F A) → Keeps K (on_store m)
  unfolding on_store
  on_store_kept m = record {
    keep = λ s h. record { if_acked = λ a. moved packets _ _ s _ refl refl (h.if_acked a) };
  }

  outcome_kept : {A : Type 0} (r : Outcome A) → Keeps K (of_outcome r)
  unfolding of_outcome
  outcome_kept r = record { keep = λ s h. h }

  reset_kept : (env : Env F T) (clear : Bool) → Keeps K (reset_internal env clear)
  reset_kept env clear = record {
    keep = λ s h. record {
      if_acked = λ a. unfold reset_internal modify_params set_state set_step run in ground arith;
    };
  }

  ruleset kept_rules =
      (keeps_rules, params_kept, step_kept, indicate_kept, on_store_kept, outcome_kept, reset_kept)

  module _ (env : Env F T) where
    handle_fault_kept :
        (fh : FaultHandlerCode) (cond : ConditionCode) → Keeps K (handle_fault env fh cond)
    unfolding handle_fault notice_of_cancellation_at abandon reset
    handle_fault_kept notice_of_cancellation cond = search (kept_rules) depth 12
    handle_fault_kept notice_of_suspension cond = search (kept_rules) depth 12
    handle_fault_kept abandon_transaction cond = search (kept_rules) depth 12
    handle_fault_kept ignore_error cond = search (kept_rules) depth 12

    declare_fault_kept : (cond : ConditionCode) → Keeps K (declare_fault env cond)
    unfolding declare_fault
    declare_fault_kept cond = search (kept_rules, handle_fault_kept) depth 16

    fault_stops_kept : (b : Bool) (cond : ConditionCode) → Keeps K (fault_stops env b cond)
    unfolding fault_stops
    fault_stops_kept false cond = search (kept_rules) depth 12
    fault_stops_kept true cond = search (kept_rules, declare_fault_kept) depth 12

    reject_file_kept : Keeps K (reject_file env)
    unfolding reject_file
    reject_file_kept = search (kept_rules, declare_fault_kept) depth 12

    on_write_error_kept : (e : Error) → Keeps K (on_write_error env e)
    unfolding on_write_error
    on_write_error_kept Errors.file_not_found_error = reject_file_kept
    on_write_error_kept Errors.permission_error = reject_file_kept
    on_write_error_kept _ = Keeps-raise _

    -- What follows on the detection of lost segments.
    abbrev write_part : ℕ → List ℕ → Proc (DestState F T) (Unit {0})
    write_part offset bytes = do
      file_name ← gets (λ s. s.params.fp.file_name)
      on_store (env.vfs.write_data file_name bytes offset)
      modify_finished (λ p. record p { file_status = file_retained })
      file_size_eof ← gets (λ s. s.params.fp.file_size_eof)
      stop ←
          fault_stops env (exceeds_eof_size file_size_eof (offset + length bytes)) file_size_error
      when (not stop)
          (modify_fp (λ fp. record fp { progress = max (offset + length bytes) fp.progress }))

    write_part_kept : (offset : ℕ) (bytes : List ℕ) → Keeps K (write_part offset bytes)
    write_part_kept offset bytes = search (kept_rules, fault_stops_kept) depth 16

-- The handler after these packets, whatever a call raised.
unfoldable pub receives :
    {F T : Type 0} → Env F T → List (ℕ × List ℕ) → DestState F T → DestState F T
receives env [] s = s
receives env ((offset, bytes) ∷ packets) s =
    receives env packets (handle_fd_pdu env offset bytes none s).1

delivered-append :
    (ps : List (ℕ × List ℕ)) (offset : ℕ) (bytes : List ℕ) (qs : List (ℕ × List ℕ)) (x : ℕ)
    → delivered (ps ++ ((offset, bytes) ∷ qs)) x ≡ delivered ((offset, bytes) ∷ (ps ++ qs)) x
delivered-append [] offset bytes qs x = refl
delivered-append ((o, b) ∷ ps) offset bytes qs x =
    ground (arith, delivered-append ps offset bytes qs x)

same_packets :
    {F T : Type 0} (ps qs : List (ℕ × List ℕ)) (s : DestState F T)
    → ((x : ℕ) → delivered ps x ≡ delivered qs x)
    → KnowsMissing ps s
    → KnowsMissing qs s
same_packets ps qs s e k = record {
  if_acked = λ a.
      let known = k.if_acked a in
      record {
        disjoint = known.disjoint;
        in_order = known.in_order;
        below = known.below;
        found = λ x h.
            ap (λ d. covers s.lost_seg_tracker.lost_segments x || d) (sym (e x)) ∙ known.found x h;
        remote_cfg = known.remote_cfg;
        configured = known.configured;
      };
}

module _ {F T : Type 0} (env : Env F T) where
  detected_by :
      (packets : List (ℕ × List ℕ)) (offset : ℕ) (bytes : List ℕ) (s : DestState F T) (acked : Bool)
      → is_acked (transmission_mode s) ≡ acked
      → KnowsMissing packets s
      → KnowsMissing
          ((offset, bytes) ∷ packets)
          (when acked (lost_segment_handling offset (length bytes)) s).1
  detected_by packets offset bytes s true a k = record {
    if_acked = λ _. lost_segment_handling-Known packets offset bytes s (k.if_acked a);
  }
  detected_by packets offset bytes s false a k = unfold skip in record { if_acked = λ t. cc }

  write_file_data-KnowsMissing :
      (packets : List (ℕ × List ℕ)) (offset : ℕ) (bytes : List ℕ) (s : DestState F T)
      → KnowsMissing packets s
      → KnowsMissing ((offset, bytes) ∷ packets) (write_file_data env offset bytes s).1
  unfolding write_file_data
  write_file_data-KnowsMissing packets offset bytes s k =
      let all = (offset, bytes) ∷ packets in
      subst (λ r. KnowsMissing all r.1) (sym (gets_bind transmission_mode _ s))
        (after_bind
          (when (is_acked (transmission_mode s)) (lost_segment_handling offset (length bytes)))
          (λ _. write_part all env offset bytes) s
          (detected_by packets offset bytes s (is_acked (transmission_mode s)) refl k)
          (λ _. write_part_kept all env offset bytes))

  tried :
      (packets more : List (ℕ × List ℕ)) (m : Proc (DestState F T) (Unit {0})) (s : DestState F T)
      → KnowsMissing more (m s).1
      → KnowsMissing more (try_except m (on_write_error env) s).1
  unfolding try_except
  tried packets more m s k = elim (Outcome-cases (m s).0) [
    | inl (a, r) ↦
        subst (λ o. KnowsMissing more (try_except (λ _. (o, (m s).1)) (on_write_error env) s).1)
          (sym r) k
    | inr (e, r) ↦
        subst (λ o. KnowsMissing more (try_except (λ _. (o, (m s).1)) (on_write_error env) s).1)
          (sym r) ((on_write_error_kept more env e).keep (m s).1 k)
  ]

  handle_fd_pdu-KnowsMissing :
      (packets : List (ℕ × List ℕ)) (offset : ℕ) (bytes : List ℕ) (s : DestState F T)
      → KnowsMissing packets s
      → KnowsMissing ((offset, bytes) ∷ packets) (handle_fd_pdu env offset bytes none s).1
  unfolding handle_fd_pdu
  handle_fd_pdu-KnowsMissing packets offset bytes s k =
      let i = file_segment_recv_indication (record {
        transaction_id = s.params.transaction_id;
        offset = offset;
        length = length bytes;
        segment_metadata = none;
      }) in
      let m = try_except (write_file_data env offset bytes) (on_write_error env) in
      let from : (t : DestState F T)
          → KnowsMissing packets t
          → KnowsMissing ((offset, bytes) ∷ packets) (m t).1 =
        λ t k.
          tried packets ((offset, bytes) ∷ packets) (write_file_data env offset bytes) t
            (write_file_data-KnowsMissing packets offset bytes t k) in
      elim (Bool-cases env.cfg.indication_cfg.file_segment_recvd_indication_required) [
        | inl e ↦
            let step : handle_fd_pdu env offset bytes none s ≡ m (indicate i s).1 =
              rw e (unfold ◌>>=◌ gets indicate modify skip in refl) in
            subst (λ r. KnowsMissing ((offset, bytes) ∷ packets) r.1) (sym step)
              (from (indicate i s).1 ((indicate_kept packets i).keep s k))
        | inr e ↦
            let step : handle_fd_pdu env offset bytes none s ≡ m s =
              rw e (unfold ◌>>=◌ skip in refl) in
            subst (λ r. KnowsMissing ((offset, bytes) ∷ packets) r.1) (sym step) (from s k)
      ]

  pub receives-KnowsMissing :
      (packets : List (ℕ × List ℕ)) (s : DestState F T) {acc : List (ℕ × List ℕ)}
      → KnowsMissing acc s
      → KnowsMissing (packets ++ acc) (receives env packets s)
  unfolding receives
  receives-KnowsMissing [] s k = k
  receives-KnowsMissing ((offset, bytes) ∷ packets) s {acc} k =
      same_packets _ _ _ (delivered-append packets offset bytes acc) (
        receives-KnowsMissing packets (handle_fd_pdu env offset bytes none s).1
          (handle_fd_pdu-KnowsMissing acc offset bytes s k))
