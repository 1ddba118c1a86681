-- ===== src/Dest/Queue/Segments.antt =====
-- Lost segments keep the queue in order.
use cfdp_py.Base.{ℕ, Option, none, some, List, [], ◌∷◌}
use cfdp_py.Proc.Holds.{Keeps, Keeps-bind, Keeps-pure}
use cfdp_py.Mib.{RemoteEntityCfg}
use cfdp_py.User.{Env}
use cfdp_py.Tracker.{Segment}
use cfdp_py.Dest.Queue.{IsQueueOk, queue_rules}
use cfdp_py.Dest.Segments.{
  add_segment, remove_segment, immediate_nak, lost_segment_handling, next_request, request_segments,
  send_nak_sequence, count_nak_activity, first_nak_sequence, next_nak_sequence,
  end_deferred_procedure, run_deferred_procedure, nak_sequence, deferred_lost_segment_handling,
  start_deferred_lost_segment_handling, reset_nak_activity_parameters,
}
use cfdp_py.Dest.Queue.Faults.{declare_fault-IsQueueOk, checksum_verify-IsQueueOk}

module _ {F T : Type 0} where
  pub add_segment-IsQueueOk : (seg : Segment) → Keeps IsQueueOk (add_segment {F = F} {T = T} seg)
  unfolding add_segment
  add_segment-IsQueueOk seg = search (queue_rules) depth 12

  pub remove_segment-IsQueueOk :
      (seg : Segment) → Keeps IsQueueOk (remove_segment {F = F} {T = T} seg)
  unfolding remove_segment
  remove_segment-IsQueueOk seg = search (queue_rules) depth 12

  pub immediate_nak-IsQueueOk :
      (seg : Segment) (end : ℕ) → Keeps IsQueueOk (immediate_nak {F = F} {T = T} seg end)
  unfolding immediate_nak
  immediate_nak-IsQueueOk seg end = search (queue_rules) depth 12

  pub lost_segment_handling-IsQueueOk :
      (offset len : ℕ) → Keeps IsQueueOk (lost_segment_handling {F = F} {T = T} offset len)
  unfolding lost_segment_handling
  lost_segment_handling-IsQueueOk offset len =
      search (queue_rules, add_segment-IsQueueOk, remove_segment-IsQueueOk, immediate_nak-IsQueueOk)
        depth 12

  pub next_request-IsQueueOk :
      (max end : ℕ) (r : List Segment) → Keeps IsQueueOk (next_request {F = F} {T = T} max end r)
  unfolding next_request
  next_request-IsQueueOk max end r = search (queue_rules) depth 12

  pub request_segments-IsQueueOk :
      (max end : ℕ) (r segs : List Segment)
      → Keeps IsQueueOk (request_segments {F = F} {T = T} max end r segs)
  unfolding request_segments
  request_segments-IsQueueOk max end r [] = Keeps-pure r
  request_segments-IsQueueOk max end r (seg ∷ segs) =
      Keeps-bind _ _ (next_request-IsQueueOk max end _)
        (λ more. request_segments-IsQueueOk max end more segs)

  pub send_nak_sequence-IsQueueOk :
      (max end : ℕ) → Keeps IsQueueOk (send_nak_sequence {F = F} {T = T} max end)
  unfolding send_nak_sequence
  send_nak_sequence-IsQueueOk max end = search (queue_rules, request_segments-IsQueueOk) depth 12

module _ {F T : Type 0} (env : Env F T) where
  pub count_nak_activity-IsQueueOk : (timer : T) → Keeps IsQueueOk (count_nak_activity env timer)
  unfolding count_nak_activity
  count_nak_activity-IsQueueOk timer = search (queue_rules) depth 12

  pub first_nak_sequence-IsQueueOk :
      (cfg : RemoteEntityCfg) (end : ℕ) → Keeps IsQueueOk (first_nak_sequence env cfg end)
  unfolding first_nak_sequence
  first_nak_sequence-IsQueueOk cfg end = search (queue_rules, send_nak_sequence-IsQueueOk) depth 12

  pub next_nak_sequence-IsQueueOk :
      (timer : T) (cfg : RemoteEntityCfg) (end : ℕ)
      → Keeps IsQueueOk (next_nak_sequence env timer cfg end)
  unfolding next_nak_sequence
  next_nak_sequence-IsQueueOk timer cfg end =
      search
        (
          queue_rules, send_nak_sequence-IsQueueOk, count_nak_activity-IsQueueOk,
          declare_fault-IsQueueOk,
        )
        depth 12

  nak_sequence-IsQueueOk :
      (timer : Option T) (cfg : RemoteEntityCfg) (end : ℕ)
      → Keeps IsQueueOk (nak_sequence env timer cfg end)
  nak_sequence-IsQueueOk none cfg end = first_nak_sequence-IsQueueOk cfg end
  nak_sequence-IsQueueOk (some timer) cfg end = next_nak_sequence-IsQueueOk timer cfg end

  pub end_deferred_procedure-IsQueueOk : Keeps IsQueueOk (end_deferred_procedure env)
  unfolding end_deferred_procedure
  end_deferred_procedure-IsQueueOk = search (queue_rules, checksum_verify-IsQueueOk) depth 12

  pub run_deferred_procedure-IsQueueOk : Keeps IsQueueOk (run_deferred_procedure env)
  unfolding run_deferred_procedure
  run_deferred_procedure-IsQueueOk =
      search (queue_rules, end_deferred_procedure-IsQueueOk, nak_sequence-IsQueueOk) depth 12

  pub deferred_lost_segment_handling-IsQueueOk :
      Keeps IsQueueOk (deferred_lost_segment_handling env)
  unfolding deferred_lost_segment_handling
  deferred_lost_segment_handling-IsQueueOk =
      search (queue_rules, run_deferred_procedure-IsQueueOk) depth 12

  pub start_deferred_lost_segment_handling-IsQueueOk :
      Keeps IsQueueOk (start_deferred_lost_segment_handling env)
  unfolding start_deferred_lost_segment_handling
  start_deferred_lost_segment_handling-IsQueueOk =
      search (queue_rules, deferred_lost_segment_handling-IsQueueOk) depth 12

  pub reset_nak_activity_parameters-IsQueueOk : Keeps IsQueueOk (reset_nak_activity_parameters env)
  unfolding reset_nak_activity_parameters
  reset_nak_activity_parameters-IsQueueOk = search (queue_rules) depth 12
