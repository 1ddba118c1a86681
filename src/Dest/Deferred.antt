-- ===== src/Dest/Deferred.antt =====
-- The deferred lost segment procedure in src/cfdppy/handler/dest.py: everything missing is requested.
use cfdp_py.Mib.{RemoteEntityCfg}
use cfdp_py.User.{Env}
use cfdp_py.Base.{
  not, ◌&&◌, some, none, ◌+◌, ℕ, ◌<◌, ◌≡◌, refl, sym, true, false, arith, length, ◌==◌, subst,
}
use cfdp_py.Proc.{Outcome, returned, run}
use cfdp_py.Tracker.{num_lost_segments}
use cfdp_py.Dest.State.{modify_params, DestState}
use cfdp_py.Dest.Segments.{
  run_deferred_procedure, deferred_lost_segment_handling, count_nak_activity, next_nak_sequence,
  first_nak_sequence, send_nak_sequence,
}
use cfdp_py.Dest.Naks.{Requests, all_missing, metadata_request, send_nak_sequence_lem}

-- A NAK sequence is due: the first one, or one after the timer ran out below the limit.
pub data IsDue {F T : Type 0} (env : Env F T) (cfg : RemoteEntityCfg) (s : DestState F T)
    : Type 0 where
  first_time : s.params.acked_params.procedure_timer ≡ none → IsDue env cfg s
  ran_out :
      (timer : T)
      → s.params.acked_params.procedure_timer ≡ some timer
      → env.busy timer s.now ≡ false
      → (s.params.acked_params.nak_activity_counter + 1 == cfg.nak_timer_expiration_limit) ≡ false
      → IsDue env cfg s

module _ {F T : Type 0} (env : Env F T) (cfg : RemoteEntityCfg) (size : ℕ) where
  abbrev pub fitting : DestState F T → ℕ
  fitting s = env.max_seg_reqs cfg.max_packet_len s.params.pdu_conf

  abbrev Asks : DestState F T → Outcome (Unit {0}) × DestState F T → Type 0
  Asks s result = (result.0 ≡ returned tt) × Requests (fitting s) size (all_missing s) s result.1

  first_sequence :
      (s : DestState F T)
      → length (metadata_request s.params.acked_params.metadata_missing) < fitting s
      → Asks s (first_nak_sequence env cfg size s)
  unfolding first_nak_sequence modify_params run
  first_sequence s h =
      let s1 = record s {
        params = record s.params {
          acked_params = record s.params.acked_params {
            procedure_timer = some (env.from_seconds cfg.nak_timer_interval_seconds s.now);
          };
        };
      } in
      let (r, q) = send_nak_sequence_lem (fitting s) size s1 h in
      (r, record { packets = q.packets; queue = q.queue; together = q.together; each = q.each })

  later_sequence :
      (timer : T) (s : DestState F T)
      → env.busy timer s.now ≡ false
      → (s.params.acked_params.nak_activity_counter + 1 == cfg.nak_timer_expiration_limit) ≡ false
      → length (metadata_request s.params.acked_params.metadata_missing) < fitting s
      → Asks s (next_nak_sequence env timer cfg size s)
  later_sequence timer s b l h =
      let (r, q) = send_nak_sequence_lem (fitting s) size s h in
      let t = (send_nak_sequence (fitting s) size s).1 in
      let step : next_nak_sequence env timer cfg size s ≡ count_nak_activity env timer t =
        unfold next_nak_sequence run in ground (arith, b, l, r) in
      subst (Asks s) (sym step) (
        unfold count_nak_activity modify_params run in
        (
          refl,
          record { packets = q.packets; queue = q.queue; together = q.together; each = q.each },
        ))

  -- Where something is missing and a NAK sequence is due, the deferred procedure queues NAK PDUs that
  -- request together, in order, the missing metadata and every lost segment of the tracker, each PDU
  -- from zero to the size of the file, with at least one request and no more than fit in a packet.
  -- It does not raise. This wants room for one request, and for two where the metadata is missing.
  pub deferred-Requests :
      (s : DestState F T)
      → s.params.acked_params.deferred_lost_segment_detection_active ≡ true
      → s.params.remote_cfg ≡ some cfg
      → s.params.fp.file_size_eof ≡ some size
      → (num_lost_segments s.lost_seg_tracker == 0 && not s.params.acked_params.metadata_missing)
        ≡ false
      → IsDue env cfg s
      → length (metadata_request s.params.acked_params.metadata_missing) < fitting s
      → let result = deferred_lost_segment_handling env s in
        (result.0 ≡ returned tt) × Requests (fitting s) size (all_missing s) s result.1
  deferred-Requests s a c e m (first_time none_yet) h =
      let step : deferred_lost_segment_handling env s ≡ first_nak_sequence env cfg size s =
        unfold deferred_lost_segment_handling run_deferred_procedure run in
        ground (arith, a, c, e, m, none_yet) in
      subst (Asks s) (sym step) (first_sequence s h)
  deferred-Requests s a c e m (ran_out timer set b l) h =
      let step : deferred_lost_segment_handling env s ≡ next_nak_sequence env timer cfg size s =
        unfold deferred_lost_segment_handling run_deferred_procedure run in
        ground (arith, a, c, e, m, set) in
      subst (Asks s) (sym step) (later_sequence timer s b l h)
