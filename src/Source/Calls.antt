-- ===== src/Source/Calls.antt =====
-- The source handler under its user: `SourceHandler.__init__`, and any sequence of the public calls,
-- between which the clock moves on.
use cfdp_py.Base.{ℕ, true, Option, none, List, [], ◌∷◌}
use cfdp_py.Base.Int.{pos}
use cfdp_py.Protocol.{Pdu, TransactionId}
use cfdp_py.Request.{PutRequest}
use cfdp_py.Dest.State.{CfdpState}
use cfdp_py.Source.State.{SourceState, SourceEnv, TransactionStep, new_fields}
use cfdp_py.Source.Faults.{reset}
use cfdp_py.Source.Begin.{put_request_call}
use cfdp_py.Source.Machine.{state_machine, cancel_request, get_next_packet}
use cfdp_py.Source.Queue.{IsRouted}
use cfdp_py.Source.Queue.Faults.{reset_internal-IsRouted}
use cfdp_py.Source.Queue.Begin.{put_request_call-IsRouted}
use cfdp_py.Source.Queue.Machine.{
  state_machine-IsRouted, cancel_request-IsRouted, get_next_packet-IsRouted,
}

pub data Call : Type 0 where
  call_put_request : PutRequest → Call
  call_state_machine : Option Pdu → Call
  call_cancel_request : TransactionId → Call
  call_get_next_packet call_reset : Call
  wait_until : (now : ℕ) → Call

module _ {F T : Type 0} (env : SourceEnv F T) where
  abbrev pub new_handler : F → (now seq_count : ℕ) → SourceState F T
  new_handler store now seq_count = record {
    states = record {
      state = CfdpState.idle;
      step = TransactionStep.idle;
      num_packets_ready = pos 0;
    };
    params = new_fields env.empty_pdu_conf env.cfg.local_entity_id;
    put_req = none;
    pdus_to_be_sent = [];
    store = store;
    indications = [];
    now = now;
    seq_count = seq_count;
  }

  -- The state after a call, whether it returned or raised.
  unfoldable pub perform : Call → SourceState F T → SourceState F T
  perform (call_put_request r) s = (put_request_call env r s).1
  perform (call_state_machine packet) s = (state_machine env packet s).1
  perform (call_cancel_request id) s = (cancel_request env id s).1
  perform call_get_next_packet s = (get_next_packet s).1
  perform call_reset s = (reset env s).1
  perform (wait_until now) s = record s { now = now }

  unfoldable pub performs : List Call → SourceState F T → SourceState F T
  unfolding perform
  performs [] s = s
  performs (call ∷ calls) s = performs calls (perform call s)

  perform-IsRouted : (call : Call) (s : SourceState F T) → IsRouted s → IsRouted (perform call s)
  unfolding perform reset
  perform-IsRouted (call_put_request r) s h = (put_request_call-IsRouted env r).keep s h
  perform-IsRouted (call_state_machine packet) s h = (state_machine-IsRouted env packet).keep s h
  perform-IsRouted (call_cancel_request id) s h = (cancel_request-IsRouted env id).keep s h
  perform-IsRouted call_get_next_packet s h = get_next_packet-IsRouted.keep s h
  perform-IsRouted call_reset s h = (reset_internal-IsRouted env true).keep s h
  perform-IsRouted (wait_until now) s h = h

  performs-IsRouted_from :
      (calls : List Call) (s : SourceState F T) → IsRouted s → IsRouted (performs calls s)
  unfolding performs
  performs-IsRouted_from [] s h = h
  performs-IsRouted_from (call ∷ calls) s h =
      performs-IsRouted_from calls (perform call s) (perform-IsRouted call s h)

  -- After any sequence of calls to a new source handler, raising or not, every packet in the queue is
  -- one that the routing sends to the destination handler.
  pub performs-IsRouted :
      (calls : List Call) (store : F) (now seq_count : ℕ)
      → IsRouted (performs calls (new_handler store now seq_count))
  performs-IsRouted calls store now seq_count =
      performs-IsRouted_from calls (new_handler store now seq_count) tt
