-- ===== src/Dest/Queue.antt =====
-- The queue of the destination handler: its count, and to whom its packets go.
pub mod Faults
pub mod Segments
pub mod Receive
pub mod Start
pub mod Machine
use cfdp_py.Base.{ℕ, ◌≡◌, refl, false, List, [], ◌∷◌, ◌++◌, arith, length, length-append, All}
use cfdp_py.Base.Int.{pos}
use cfdp_py.Protocol.{
  Pdu, PduBody, FinishedParams, ConditionCode, nak, finished, ack, eof_pdu, active,
}
use cfdp_py.Proc.{Proc, Outcome, returned}
use cfdp_py.Proc.Holds.{Keeps, Keeps-skip, Keeps-bind, Keeps-modify, keeps_rules}
use cfdp_py.User.{Env, Indication}
use cfdp_py.Routing.{get_packet_destination, source_handler}
use cfdp_py.Tracker.{LostSegmentTracker}
use cfdp_py.Dest.State.{
  DestState, DestFields, CfdpState, TransactionStep, modify_params, set_tracker, set_step,
  set_state, indicate, on_store, add_packet_to_be_sent,
}
use cfdp_py.Dest.Faults.{notice_of_cancellation_at, of_outcome, reset_internal}

-- A packet for the source handler.
abbrev pub IsForSource : Pdu → Type 0
IsForSource pdu = get_packet_destination pdu.body ≡ returned source_handler

-- The count is the length of the queue, and every packet in it is routed to the source handler.
pub record IsQueueOk {F T : Type 0} (s : DestState F T) : Type 0 where
  pub counted : s.states.num_packets_ready ≡ pos (length s.pdus_to_be_sent)
  pub routed : All IsForSource s.pdus_to_be_sent

All-snoc :
    (pdus : List Pdu) (pdu : Pdu)
    → All IsForSource pdus
    → IsForSource pdu
    → All IsForSource (pdus ++ pdu ∷ [])
All-snoc [] pdu a p = (p, tt)
All-snoc (x ∷ xs) pdu a p = (a.0, All-snoc xs pdu a.1 p)

pub nak_routed :
    (a b : ℕ) (r : List (ℕ × ℕ)) → get_packet_destination (nak a b r) ≡ returned source_handler
unfolding get_packet_destination
nak_routed a b r = refl

pub finished_routed :
    (p : FinishedParams) → get_packet_destination (finished p) ≡ returned source_handler
unfolding get_packet_destination
finished_routed p = refl

pub ack_eof_routed :
    (c : ConditionCode) → get_packet_destination (ack eof_pdu c active) ≡ returned source_handler
unfolding get_packet_destination
ack_eof_routed c = refl

module _ {F T : Type 0} where
  pub modify_params-IsQueueOk :
      (f : DestFields T → DestFields T) → Keeps IsQueueOk (modify_params {F = F} f)
  unfolding modify_params
  modify_params-IsQueueOk f = record {
    keep = λ s h. record { counted = h.counted; routed = h.routed };
  }

  pub set_tracker-IsQueueOk :
      (t : LostSegmentTracker) → Keeps IsQueueOk (set_tracker {F = F} {T = T} t)
  unfolding set_tracker
  set_tracker-IsQueueOk t = record {
    keep = λ s h. record { counted = h.counted; routed = h.routed };
  }

  pub set_step-IsQueueOk :
      (step : TransactionStep) → Keeps IsQueueOk (set_step {F = F} {T = T} step)
  unfolding set_step
  set_step-IsQueueOk step = record {
    keep = λ s h. record { counted = h.counted; routed = h.routed };
  }

  pub set_state-IsQueueOk : (state : CfdpState) → Keeps IsQueueOk (set_state {F = F} {T = T} state)
  unfolding set_state
  set_state-IsQueueOk state = record {
    keep = λ s h. record { counted = h.counted; routed = h.routed };
  }

  pub indicate-IsQueueOk : (i : Indication) → Keeps IsQueueOk (indicate {F = F} {T = T} i)
  unfolding indicate
  indicate-IsQueueOk i = record { keep = λ s h. record { counted = h.counted; routed = h.routed } }

  pub on_store-IsQueueOk :
      {A : Type 0} (m : Proc F A) → Keeps IsQueueOk (on_store {F = F} {T = T} m)
  unfolding on_store
  on_store-IsQueueOk m = record { keep = λ s h. record { counted = h.counted; routed = h.routed } }

  pub of_outcome-IsQueueOk :
      {A : Type 0} (r : Outcome A) → Keeps IsQueueOk (of_outcome {F = F} {T = T} r)
  unfolding of_outcome
  of_outcome-IsQueueOk r = record { keep = λ s h. h }

  pub add_packet-IsQueueOk :
      (body : PduBody)
      → get_packet_destination body ≡ returned source_handler
      → Keeps IsQueueOk (add_packet_to_be_sent {F = F} {T = T} body)
  unfolding add_packet_to_be_sent
  add_packet-IsQueueOk body r = record {
    keep = λ s h. record {
      counted = ground (
        arith,
        length-append s.pdus_to_be_sent (record { pdu_conf = s.params.pdu_conf; body = body } ∷ []),
      );
      routed = All-snoc s.pdus_to_be_sent _ h.routed r;
    };
  }

pub ruleset queue_rules = (
  keeps_rules, modify_params-IsQueueOk, set_tracker-IsQueueOk, set_step-IsQueueOk,
  set_state-IsQueueOk, indicate-IsQueueOk, on_store-IsQueueOk, of_outcome-IsQueueOk,
  add_packet-IsQueueOk, nak_routed, finished_routed, ack_eof_routed,
)
