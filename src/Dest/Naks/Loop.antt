-- ===== src/Dest/Naks/Loop.antt =====
-- The loop of `_deferred_lost_segment_handling` in src/cfdppy/handler/dest.py over the segments that are
-- requested: the packets that it fills.
use cfdp_py.Base.{
  ℕ, ◌≤◌, ◌<◌, ◌≡◌, refl, sym, ap, ◌∙◌, inl, inr, true, false, List, [], ◌∷◌, ◌++◌, map, append-nil,
  append_assoc, arith, length, length-append, All, ◌==◌, Bool-cases, subst,
}
use cfdp_py.Protocol.{Pdu, PduConfig, nak}
use cfdp_py.Proc.{returned, run}
use cfdp_py.Proc.Steps.{bind_step}
use cfdp_py.Tracker.{Segment}
use cfdp_py.Dest.State.{DestState, add_packet_to_be_sent}
use cfdp_py.Dest.Segments.{next_request, request_segments}

-- All requests of several packets, in order.
abbrev pub all_of : List (List Segment) → List Segment
all_of [] = []
all_of (c ∷ cs) = c ++ all_of cs

-- A packet that requests these segments.
abbrev pub nak_pdu : PduConfig → ℕ → List Segment → Pdu
nak_pdu conf end_of_scope requests = record { pdu_conf = conf; body = nak 0 end_of_scope requests }

-- Each packet has at least one request, and no more than fit.
abbrev pub Fits : ℕ → List Segment → Type 0
Fits max requests = (0 < length requests) × (length requests ≤ max)

module _ {F T : Type 0} (max end_of_scope : ℕ) where
  -- The handler after the packet was queued.
  abbrev pub with_nak : List Segment → DestState F T → DestState F T
  with_nak requests s = (add_packet_to_be_sent (nak 0 end_of_scope requests) s).1

  pub full_step :
      (requests segs : List Segment) (seg : Segment) (s : DestState F T)
      → (length (requests ++ seg ∷ []) == max) ≡ true
      → request_segments max end_of_scope requests (seg ∷ segs) s
        ≡ request_segments max end_of_scope [] segs (with_nak (requests ++ seg ∷ []) s)
  unfolding request_segments
  full_step requests segs seg s e =
      bind_step (next_request max end_of_scope (requests ++ seg ∷ []))
        (λ more. request_segments max end_of_scope more segs) s (with_nak (requests ++ seg ∷ []) s)
        [] (unfold next_request add_packet_to_be_sent run in ground (arith, e))

  pub short_step :
      (requests segs : List Segment) (seg : Segment) (s : DestState F T)
      → (length (requests ++ seg ∷ []) == max) ≡ false
      → request_segments max end_of_scope requests (seg ∷ segs) s
        ≡ request_segments max end_of_scope (requests ++ seg ∷ []) segs s
  unfolding request_segments
  short_step requests segs seg s e =
      bind_step (next_request max end_of_scope (requests ++ seg ∷ []))
        (λ more. request_segments max end_of_scope more segs) s s (requests ++ seg ∷ [])
        (unfold next_request run in ground (arith, e))

  -- From `s` to `t` packets were queued that together with the rest request these segments.
  pub record Requested (all rest : List Segment) (s t : DestState F T) : Type 0 where
    pub packets : List (List Segment)
    pub queue :
        t.pdus_to_be_sent
        ≡ s.pdus_to_be_sent ++ map (nak_pdu s.params.pdu_conf end_of_scope) packets
    pub together : all_of packets ++ rest ≡ all
    pub each : All (Fits max) packets
    pub same : t.params ≡ s.params

  pub queued_first :
      (requests all rest : List Segment) (s t : DestState F T)
      → Fits max requests
      → Requested all rest (with_nak requests s) t
      → Requested (requests ++ all) rest s t
  unfolding add_packet_to_be_sent run
  queued_first requests all rest s t f r = record {
    packets = requests ∷ r.packets;
    queue =
        r.queue
        ∙ append_assoc s.pdus_to_be_sent (nak_pdu s.params.pdu_conf end_of_scope requests ∷ [])
            (map (nak_pdu s.params.pdu_conf end_of_scope) r.packets);
    together = append_assoc requests (all_of r.packets) rest ∙ ap (λ x. requests ++ x) r.together;
    each = (f, r.each);
    same = r.same;
  }

  pub request_segments_lem :
      (requests segs : List Segment) (s : DestState F T)
      → length requests < max
      → (rest : List Segment) × ((request_segments max end_of_scope requests segs s).0
          ≡ returned rest)
        × (length rest < max)
        × Requested (requests ++ segs) rest s (request_segments max end_of_scope requests segs s).1
  request_segments_lem requests [] s h = (
    requests,
    unfold request_segments run in refl,
    h,
    unfold request_segments run in
        record {
          packets = [];
          queue = sym (append-nil s.pdus_to_be_sent);
          together = sym (append-nil requests);
          each = tt;
          same = refl;
        },
  )
  request_segments_lem requests (seg ∷ segs) s h =
      elim (Bool-cases (length (requests ++ seg ∷ []) == max)) [
        | inl e ↦
            let s1 = with_nak (requests ++ seg ∷ []) s in
            let (rest, r, l, q) = request_segments_lem [] segs s1 (omega arith) in
            let step = full_step requests segs seg s e in
            (
              rest,
              ap (λ x. x.0) step ∙ r,
              l,
              subst (λ x. Requested (requests ++ (seg ∷ segs)) rest s x.1) (sym step)
                  (subst
                    (λ all. Requested all rest s (request_segments max end_of_scope [] segs s1).1)
                    (append_assoc requests (seg ∷ []) segs)
                    (queued_first (requests ++ seg ∷ []) segs rest s _
                      (ground (arith, length-append requests (seg ∷ []))) q)),
            )
        | inr e ↦
            let (rest, r, l, q) =
              request_segments_lem (requests ++ seg ∷ []) segs s
                (ground (arith, length-append requests (seg ∷ []))) in
            let step = short_step requests segs seg s e in
            (
              rest,
              ap (λ x. x.0) step ∙ r,
              l,
              subst (λ x. Requested (requests ++ (seg ∷ segs)) rest s x.1) (sym step)
                  (subst
                    (λ all.
                      Requested all rest s
                        (request_segments max end_of_scope (requests ++ seg ∷ []) segs s).1)
                    (append_assoc requests (seg ∷ []) segs) q),
            )
      ]

pub all_of-append_one :
    (packets : List (List Segment)) (rest : List Segment)
    → all_of (packets ++ rest ∷ []) ≡ all_of packets ++ rest
all_of-append_one [] rest = append-nil rest
all_of-append_one (c ∷ cs) rest =
    ap (λ x. c ++ x) (all_of-append_one cs rest) ∙ sym (append_assoc c (all_of cs) rest)

pub All-append_one {ℓ κ} :
    {A : Type ℓ} (P : A → Type κ) (xs : List A) (x : A) → All P xs → P x → All P (xs ++ x ∷ [])
All-append_one P [] x a p = (p, tt)
All-append_one P (y ∷ ys) x a p = (a.0, All-append_one P ys x a.1 p)
