-- ===== src/Dest/Naks.antt =====
-- The NAK sequence of `_deferred_lost_segment_handling` in src/cfdppy/handler/dest.py: what its
-- packets request.
pub mod Loop
use cfdp_py.Base.{
  ltb, Bool, if◌then◌else◌, ℕ, ◌≤◌, ◌<◌, ◌≡◌, refl, sym, ap, ◌∙◌, inl, inr, true, false, List, [],
  ◌∷◌, ◌++◌, map, append-nil, append_assoc, arith, length, length-append, All, ◌==◌, Bool-cases,
  subst,
}
use mathlib.Core.List.{map-append}
use cfdp_py.Protocol.{Pdu, PduConfig, nak}
use cfdp_py.Proc.{returned, skip, run}
use cfdp_py.Proc.Steps.{gets_bind, bind_step}
use cfdp_py.Tracker.{Segment}
use cfdp_py.Dest.State.{DestState, add_packet_to_be_sent}
use cfdp_py.Dest.Segments.{send_nak_sequence, next_request, request_segments}
use cfdp_py.Dest.Naks.Loop.{
  nak_pdu, short_step, All-append_one, all_of-append_one, Requested, request_segments_lem, all_of,
  Fits,
}

-- The metadata is requested by the segment from 0 to 0, before the lost segments.
abbrev pub metadata_request : Bool → List Segment
metadata_request missing = if missing then (0, 0) ∷ [] else []

-- Everything that is missing.
abbrev pub all_missing : {F T : Type 0} → DestState F T → List Segment
all_missing s =
    metadata_request s.params.acked_params.metadata_missing ++ s.lost_seg_tracker.lost_segments

-- The packets queued from `s` to `t` request these segments, and all of them fit.
pub record Requests {F T : Type 0} (max end_of_scope : ℕ) (all : List Segment) (s t : DestState F T)
    : Type 0 where
  pub packets : List (List Segment)
  pub queue :
      t.pdus_to_be_sent ≡ s.pdus_to_be_sent ++ map (nak_pdu s.params.pdu_conf end_of_scope) packets
  pub together : all_of packets ≡ all
  pub each : All (Fits max) packets

module _ {F T : Type 0} (max end_of_scope : ℕ) where
  add_last :
      (rest all : List Segment) (s t : DestState F T)
      → Fits max rest
      → Requested max end_of_scope all rest s t
      → Requests max end_of_scope all s (add_packet_to_be_sent (nak 0 end_of_scope rest) t).1
  unfolding add_packet_to_be_sent run
  add_last rest all s t f r = record {
    packets = r.packets ++ rest ∷ [];
    queue =
        ap (λ p. t.pdus_to_be_sent ++ nak_pdu p.pdu_conf end_of_scope rest ∷ []) r.same
        ∙ ap (λ pdus. pdus ++ nak_pdu s.params.pdu_conf end_of_scope rest ∷ []) r.queue
        ∙ append_assoc s.pdus_to_be_sent _ _
        ∙ ap (λ pdus. s.pdus_to_be_sent ++ pdus) (sym (map-append _ r.packets (rest ∷ [])));
    together = all_of-append_one r.packets rest ∙ r.together;
    each = All-append_one (Fits max) r.packets rest r.each f;
  }

  send_rest :
      (rest all : List Segment) (s t : DestState F T)
      → length rest < max
      → Requested max end_of_scope all rest s t
      → let result =
          (if ltb 0 (length rest) then add_packet_to_be_sent (nak 0 end_of_scope rest) else skip)
            t in
        (result.0 ≡ returned tt) × Requests max end_of_scope all s result.1
  send_rest [] all s t h r =
      unfold skip in
      (
        refl,
        record {
          packets = r.packets;
          queue = r.queue;
          together = sym (append-nil (all_of r.packets)) ∙ r.together;
          each = r.each;
        },
      )
  send_rest (x ∷ xs) all s t h r =
      let some_left : ltb 0 (length (x ∷ xs)) ≡ true = ground arith in
      rw some_left (
        unfold add_packet_to_be_sent run in refl,
        add_last (x ∷ xs) all s t (omega arith, omega arith) r,
      )

  after_requests :
      (rest : List Segment) (s t : DestState F T)
      → request_segments max end_of_scope
          (metadata_request s.params.acked_params.metadata_missing)
          s.lost_seg_tracker.lost_segments
          s
        ≡ (returned rest, t)
      → send_nak_sequence max end_of_scope s
        ≡ (if ltb 0 (length rest) then add_packet_to_be_sent (nak 0 end_of_scope rest) else skip) t
  unfolding send_nak_sequence
  after_requests rest s t e = gets_bind _ _ s ∙ bind_step _ _ s t rest e

  pub send_nak_sequence_lem :
      (s : DestState F T)
      → length (metadata_request s.params.acked_params.metadata_missing) < max
      → let result = send_nak_sequence max end_of_scope s in
        (result.0 ≡ returned tt) × Requests max end_of_scope (all_missing s) s result.1
  send_nak_sequence_lem s h =
      let first = metadata_request s.params.acked_params.metadata_missing in
      let segs = s.lost_seg_tracker.lost_segments in
      let (rest, r, l, q) = request_segments_lem max end_of_scope first segs s h in
      let t = (request_segments max end_of_scope first segs s).1 in
      let step = after_requests rest s t (ap (λ o. (o, t)) r) in
      subst (λ x. (x.0 ≡ returned tt) × Requests max end_of_scope (all_missing s) s x.1) (sym step)
        (send_rest rest (all_missing s) s t l q)

module _ {F T : Type 0} (max end_of_scope : ℕ) where
  nothing_split :
      (requests segs : List Segment) (s : DestState F T)
      → max ≤ length requests
      → request_segments max end_of_scope requests segs s ≡ (returned (requests ++ segs), s)
  nothing_split requests [] s h =
      unfold request_segments run in ap (λ all. (returned all, s)) (sym (append-nil requests))
  nothing_split requests (seg ∷ segs) s h =
      let longer = length-append requests (seg ∷ []) in
      short_step max end_of_scope requests segs seg s (ground (arith, longer))
      ∙ nothing_split (requests ++ seg ∷ []) segs s (omega (arith, longer))
      ∙ ap (λ all. (returned all, s)) (append_assoc requests (seg ∷ []) segs)

  -- Where a packet has room for one request and the metadata is missing, or for none, the NAK
  -- sequence is not split: one NAK PDU requests everything that is missing, however much that is.
  pub send_nak_sequence-unsplit :
      (s : DestState F T)
      → max ≤ length (metadata_request s.params.acked_params.metadata_missing)
      → 0 < length (all_missing s)
      → ((send_nak_sequence max end_of_scope s).0 ≡ returned tt)
        × ((send_nak_sequence max end_of_scope s).1.pdus_to_be_sent
            ≡ s.pdus_to_be_sent ++ nak_pdu s.params.pdu_conf end_of_scope (all_missing s) ∷ [])
  send_nak_sequence-unsplit s h n =
      let first = metadata_request s.params.acked_params.metadata_missing in
      let some_left : ltb 0 (length (all_missing s)) ≡ true = ground arith in
      let step =
        after_requests max end_of_scope (all_missing s) s s
          (nothing_split first s.lost_seg_tracker.lost_segments s h)
        ∙ ap
            (λ b.
              (if b then add_packet_to_be_sent (nak 0 end_of_scope (all_missing s)) else skip) s)
            some_left in
      (
        ap (λ x. x.0) step ∙ (unfold add_packet_to_be_sent run in refl),
        ap (λ x. x.1.pdus_to_be_sent) step ∙ (unfold add_packet_to_be_sent run in refl),
      )
