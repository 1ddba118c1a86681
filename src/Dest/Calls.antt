-- ===== src/Dest/Calls.antt =====
-- The destination handler under its user: `DestHandler.__init__`, and any sequence of the public
-- calls, between which the clock moves on.
use cfdp_py.Base.{ℕ, refl, Option, none, List, [], ◌∷◌}
use cfdp_py.Base.Int.{pos}
use cfdp_py.Protocol.{Pdu, TransactionId}
use cfdp_py.User.{Env}
use cfdp_py.Tracker.{init}
use cfdp_py.Dest.State.{DestState, CfdpState, TransactionStep, new_fields}
use cfdp_py.Dest.Machine.{state_machine, cancel_request, get_next_packet, reset}
use cfdp_py.Dest.Queue.{IsQueueOk}
use cfdp_py.Dest.Queue.Machine.{
  state_machine-IsQueueOk, cancel_request-IsQueueOk, get_next_packet-IsQueueOk, reset-IsQueueOk,
}

pub data Call : Type 0 where
  call_state_machine : Option Pdu → Call
  call_cancel_request : TransactionId → Call
  call_get_next_packet call_reset : Call
  wait_until : (now : ℕ) → Call

module _ {F T : Type 0} (env : Env F T) where
  -- A new handler, with the tracker of a new process.
  abbrev pub new_handler : F → ℕ → DestState F T
  new_handler store now = record {
    states = record {
      state = CfdpState.idle;
      step = TransactionStep.idle;
      transaction_id = none;
      num_packets_ready = pos 0;
    };
    params = new_fields env.empty_pdu_conf;
    lost_seg_tracker = init;
    pdus_to_be_sent = [];
    store = store;
    indications = [];
    now = now;
  }

  -- The state after a call, whether it returned or raised.
  unfoldable pub perform : (depth : ℕ) → Call → DestState F T → DestState F T
  perform depth (call_state_machine packet) s = (state_machine env depth packet s).1
  perform depth (call_cancel_request id) s = (cancel_request env id s).1
  perform depth call_get_next_packet s = (get_next_packet s).1
  perform depth call_reset s = (reset env s).1
  perform depth (wait_until now) s = record s { now = now }

  unfoldable pub performs : (depth : ℕ) → List Call → DestState F T → DestState F T
  unfolding perform
  performs depth [] s = s
  performs depth (call ∷ calls) s = performs depth calls (perform depth call s)

  new_handler-IsQueueOk : (store : F) (now : ℕ) → IsQueueOk (new_handler store now)
  new_handler-IsQueueOk store now = record { counted = refl; routed = tt }

  perform-IsQueueOk :
      (depth : ℕ) (call : Call) (s : DestState F T) → IsQueueOk s → IsQueueOk (perform depth call s)
  unfolding perform
  perform-IsQueueOk depth (call_state_machine packet) s h =
      (state_machine-IsQueueOk env depth packet).keep s h
  perform-IsQueueOk depth (call_cancel_request id) s h = (cancel_request-IsQueueOk env id).keep s h
  perform-IsQueueOk depth call_get_next_packet s h = get_next_packet-IsQueueOk.keep s h
  perform-IsQueueOk depth call_reset s h = (reset-IsQueueOk env).keep s h
  perform-IsQueueOk depth (wait_until now) s h = record { counted = h.counted; routed = h.routed }

  performs-IsQueueOk_from :
      (depth : ℕ) (calls : List Call) (s : DestState F T)
      → IsQueueOk s
      → IsQueueOk (performs depth calls s)
  unfolding performs
  performs-IsQueueOk_from depth [] s h = h
  performs-IsQueueOk_from depth (call ∷ calls) s h =
      performs-IsQueueOk_from depth calls (perform depth call s) (perform-IsQueueOk depth call s h)

  -- After any sequence of calls to a new handler, raising or not, the number of packets ready is the
  -- length of the queue, and every queued packet is one that the routing sends to the source handler.
  pub performs-IsQueueOk :
      (depth : ℕ) (calls : List Call) (store : F) (now : ℕ)
      → IsQueueOk (performs depth calls (new_handler store now))
  performs-IsQueueOk depth calls store now =
      performs-IsQueueOk_from depth calls (new_handler store now) (new_handler-IsQueueOk store now)
