-- ===== src/Dest/Segments.antt =====
-- Lost segments in src/cfdppy/handler/dest.py: detection, and the deferred procedure with its NAK
-- sequences.
use cfdp_py.Base.{
  ℕ, ◌+◌, true, false, not, ◌&&◌, Option, none, some, List, [], ◌∷◌, ◌++◌, ◌==◌, leb, ltb,
  if◌then◌else◌, length,
}
use cfdp_py.Protocol.{nak_limit_reached, nak}
use cfdp_py.Errors.{assertion_error, value_error, type_error}
use cfdp_py.Proc.{Proc, pure, gets, require, skip, when, ◌>>=◌, ◌>>◌}
use cfdp_py.Mib.{RemoteEntityCfg}
use cfdp_py.User.{Env}
use cfdp_py.Tracker.{
  Segment, add_lost_segment, remove_lost_segment, coalesce_lost_segments, num_lost_segments,
}
use cfdp_py.Dest.State.{
  DestState, transfer_completion, waiting_for_metadata, waiting_for_missing_data, modify_acked,
  set_tracker, set_step, add_packet_to_be_sent,
}
use cfdp_py.Dest.Faults.{declare_fault, checksum_verify}

module _ {F T : Type 0} where
  unfoldable pub add_segment : Segment → Proc (DestState F T) (Unit {0})
  add_segment seg = do
    tracker ← gets (λ s. s.lost_seg_tracker)
    set_tracker (add_lost_segment seg tracker)

  -- `remove_lost_segment`, whose result the handler does not use.
  unfoldable pub remove_segment : Segment → Proc (DestState F T) (Unit {0})
  remove_segment seg = do
    tracker ← gets (λ s. s.lost_seg_tracker)
    removed ← require value_error (remove_lost_segment seg tracker)
    set_tracker removed.0

  -- The immediate NAK of a segment that was just found missing.
  unfoldable pub immediate_nak : Segment → ℕ → Proc (DestState F T) (Unit {0})
  immediate_nak lost_segment end_of_scope = do
    params ← gets (λ s. s.params)
    remote_cfg ← require assertion_error params.remote_cfg
    when remote_cfg.immediate_nak_mode
        (add_packet_to_be_sent (nak 0 end_of_scope (lost_segment ∷ [])))

  unfoldable pub lost_segment_handling : (offset data_len : ℕ) → Proc (DestState F T) (Unit {0})
  lost_segment_handling offset data_len = do
    acked ← gets (λ s. s.params.acked_params)
    when (ltb acked.last_end_offset offset) do
      add_segment (acked.last_end_offset, offset)
      immediate_nak (acked.last_end_offset, offset) (offset + data_len)
    when (leb acked.last_end_offset offset) (
        modify_acked
          (λ p. record p { last_start_offset = offset; last_end_offset = offset + data_len }))
    last_start_offset ← gets (λ s. s.params.acked_params.last_start_offset)
    when (leb (offset + data_len) last_start_offset) (remove_segment (offset, offset + data_len))

  -- One round of the loop over the lost segments, with the requests gathered so far.
  unfoldable pub next_request :
      (max_segments_in_one_pdu end_of_scope : ℕ)
      → List Segment
      → Proc (DestState F T) (List Segment)
  next_request max_segments_in_one_pdu end_of_scope requests =
      if length requests == max_segments_in_one_pdu
      then (do add_packet_to_be_sent (nak 0 end_of_scope requests); pure [])
      else pure requests

  unfoldable pub request_segments :
      (max_segments_in_one_pdu end_of_scope : ℕ)
      → List Segment
      → List Segment
      → Proc (DestState F T) (List Segment)
  request_segments max end_of_scope requests [] = pure requests
  request_segments max end_of_scope requests (seg ∷ segs) = do
    more ← next_request max end_of_scope (requests ++ seg ∷ [])
    request_segments max end_of_scope more segs

  unfoldable pub send_nak_sequence : ℕ → ℕ → Proc (DestState F T) (Unit {0})
  send_nak_sequence max_segments_in_one_pdu end_of_scope = do
    s ← gets (λ s. s)
    rest ←
        request_segments max_segments_in_one_pdu end_of_scope
          (if s.params.acked_params.metadata_missing then (0, 0) ∷ [] else [])
          s.lost_seg_tracker.lost_segments
    when (ltb 0 (length rest)) (add_packet_to_be_sent (nak 0 end_of_scope rest))

module _ {F T : Type 0} (env : Env F T) where
  -- The counter and the timer after a sequence that is not the first.
  unfoldable pub count_nak_activity : T → Proc (DestState F T) (Unit {0})
  count_nak_activity timer = do
    now ← gets (λ s. s.now)
    modify_acked (λ p. record p {
      nak_activity_counter = p.nak_activity_counter + 1;
      procedure_timer = some (env.restart timer now);
    })

  -- The first sequence starts the timer.
  unfoldable pub first_nak_sequence : RemoteEntityCfg → ℕ → Proc (DestState F T) (Unit {0})
  first_nak_sequence remote_cfg file_size_eof = do
    s ← gets (λ s. s)
    modify_acked (λ p. record p {
      procedure_timer = some (env.from_seconds remote_cfg.nak_timer_interval_seconds s.now);
    })
    send_nak_sequence (env.max_seg_reqs remote_cfg.max_packet_len s.params.pdu_conf) file_size_eof

  -- A later sequence waits for the timer, and gives up at the limit.
  unfoldable pub next_nak_sequence : T → RemoteEntityCfg → ℕ → Proc (DestState F T) (Unit {0})
  next_nak_sequence timer remote_cfg file_size_eof = do
    s ← gets (λ s. s)
    if env.busy timer s.now
        then skip
        else if s.params.acked_params.nak_activity_counter + 1
            == remote_cfg.nak_timer_expiration_limit
        then (do declare_fault env nak_limit_reached; skip)
        else do
          send_nak_sequence (env.max_seg_reqs remote_cfg.max_packet_len s.params.pdu_conf)
              file_size_eof
          count_nak_activity timer

  abbrev pub nak_sequence : Option T → RemoteEntityCfg → ℕ → Proc (DestState F T) (Unit {0})
  nak_sequence none remote_cfg file_size_eof = first_nak_sequence remote_cfg file_size_eof
  nak_sequence (some timer) remote_cfg file_size_eof =
      next_nak_sequence timer remote_cfg file_size_eof

  -- Everything has arrived.
  unfoldable pub end_deferred_procedure : Proc (DestState F T) (Unit {0})
  end_deferred_procedure = do
    checksum_verify env
    set_step transfer_completion
    modify_acked (λ p. record p { deferred_lost_segment_detection_active = false })

  unfoldable pub run_deferred_procedure : Proc (DestState F T) (Unit {0})
  run_deferred_procedure = do
    s ← gets (λ s. s)
    remote_cfg ← require assertion_error s.params.remote_cfg
    file_size_eof ← require assertion_error s.params.fp.file_size_eof
    if num_lost_segments s.lost_seg_tracker == 0 && not s.params.acked_params.metadata_missing
        then end_deferred_procedure
        else nak_sequence s.params.acked_params.procedure_timer remote_cfg file_size_eof

  unfoldable pub deferred_lost_segment_handling : Proc (DestState F T) (Unit {0})
  deferred_lost_segment_handling = do
    active ← gets (λ s. s.params.acked_params.deferred_lost_segment_detection_active)
    when active run_deferred_procedure

  unfoldable pub start_deferred_lost_segment_handling : Proc (DestState F T) (Unit {0})
  start_deferred_lost_segment_handling = do
    s ← gets (λ s. s)
    set_step (
        if s.params.acked_params.metadata_missing
        then waiting_for_metadata
        else waiting_for_missing_data)
    modify_acked (λ p. record p { deferred_lost_segment_detection_active = true })
    set_tracker (coalesce_lost_segments s.lost_seg_tracker)
    file_size_eof ← require type_error s.params.fp.file_size_eof
    modify_acked
        (λ p. record p { last_start_offset = file_size_eof; last_end_offset = file_size_eof })
    deferred_lost_segment_handling

  unfoldable pub reset_nak_activity_parameters : Proc (DestState F T) (Unit {0})
  reset_nak_activity_parameters = do
    s ← gets (λ s. s)
    timer ← require assertion_error s.params.acked_params.procedure_timer
    modify_acked (λ p. record p {
      nak_activity_counter = 0;
      procedure_timer = some (env.restart timer s.now);
    })
