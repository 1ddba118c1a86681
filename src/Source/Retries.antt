-- ===== src/Source/Retries.antt =====
-- The positive acknowledgement procedure of src/cfdppy/handler/source.py: the EOF packets that are sent
-- while no acknowledgement arrives.
pub mod Limit
use cfdp_py.Source.Transfer.{push}
use cfdp_py.Proc.Steps.{pure_step, bind_step}
use cfdp_py.User.{eof_sent_indication}
use cfdp_py.Base.Int.{ℤ, pos}
use cfdp_py.FilePath.{FilePath}
use cfdp_py.Protocol.{positive_ack_limit_reached, eof, ConditionCode, Pdu, TransactionId}
use cfdp_py.Proc.{pure, ◌>>=◌, returned, run, modify, ◌>>◌, Proc}
use cfdp_py.Mib.{RemoteEntityCfg}
use cfdp_py.Base.{
  suc, subst, replicate, refl, ◌≤◌, length, sym, ap, ◌∙◌, arith, ◌++◌, ◌<◌, if◌then◌else◌, true,
  none, [], ◌≡◌, ◌+◌, some, ◌∷◌, List, Option, ℕ,
}
use cfdp_py.Request.{PutRequest}
use cfdp_py.Dest.State.{CfdpState}
use cfdp_py.Source.State.{
  SourceState, SourceEnv, modify_params, on_store, indicate, add_packet_to_be_sent,
  waiting_for_eof_ack,
}
use cfdp_py.Source.Machine
use cfdp_py.Source.Machine.{
  state_machine, get_next_packet, fsm_non_idle, fsm_advancement_after_packets_were_sent,
  begin_transaction, run_steps, later_steps, file_data_step,
}
use cfdp_py.Source.Send.{handle_waiting_for_ack, handle_retransmission}
use cfdp_py.Source.Faults.{handle_positive_ack_procedures, send_eof_again, declare_fault}
use cfdp_py.Source.Packets.{checksum_calculation, prepare_eof_pdu}

-- The handler waits for the acknowledgement of its EOF packet, with no packet left to take; the
-- filestore answers the checksum `sum` for the source file.
pub record IsWaiting {F T : Type 0} (env : SourceEnv F T) (r : PutRequest) (cfg : RemoteEntityCfg)
    (id : TransactionId) (cond : ConditionCode) (sum : List ℕ) (timer : T) (count : ℕ)
    (s : SourceState F T) : Type 0 where
  pub source : FilePath
  pub size : ℕ
  pub is_busy : s.states.state ≡ CfdpState.busy
  pub in_step : s.states.step ≡ waiting_for_eof_ack
  pub none_queued : s.pdus_to_be_sent ≡ []
  pub none_ready : s.states.num_packets_ready ≡ pos 0
  pub of_request : s.put_req ≡ some r
  pub of_file : r.source_file ≡ some source
  pub to_entity : s.params.remote_cfg ≡ some cfg
  pub of_transaction : s.params.transaction_id ≡ some id
  pub condition : s.params.cond_code_eof ≡ some cond
  pub size_known : s.params.fp.file_size ≡ some size
  pub runs : s.params.positive_ack_params.ack_timer ≡ some timer
  pub counted : s.params.positive_ack_params.ack_counter ≡ count
  pub sum_of :
      env.vfs.calculate_checksum cfg.crc_type source size s.params.fp.segment_len s.store
      ≡ (returned sum, s.store)

module _ {F T : Type 0} (env : SourceEnv F T) where
  -- The user waits until this time, calls the state machine and takes a packet.
  unfoldable pub wait_and_call : (time : ℕ) → Proc (SourceState F T) (Option Pdu)
  wait_and_call time = do
    modify (λ s. record s { now = time })
    state_machine env none
    get_next_packet

-- The EOF packet with this condition code and checksum.
abbrev pub eof_again : {F T : Type 0} → ConditionCode → (checksum : List ℕ) → SourceState F T → Pdu
eof_again cond checksum s = record {
  pdu_conf = s.params.pdu_conf;
  body = eof checksum s.params.fp.progress cond;
}

module _ {F T : Type 0} (env : SourceEnv F T) (r : PutRequest) (cfg : RemoteEntityCfg)
    (id : TransactionId) (cond : ConditionCode) (sum : List ℕ) where
  abbrev pub counted_up : T → ℕ → SourceState F T → SourceState F T
  counted_up timer time s = record s {
    now = time;
    params = record s.params {
      positive_ack_params = record {
        ack_timer = some (env.restart timer time);
        ack_counter = s.params.positive_ack_params.ack_counter + 1;
      };
    };
    indications =
        if env.cfg.indication_cfg.eof_sent_indication_required
        then s.indications ++ eof_sent_indication id ∷ []
        else s.indications;
  }

  abbrev with_eof : T → ℕ → SourceState F T → SourceState F T
  with_eof timer time s = record (counted_up timer time s) {
    pdus_to_be_sent = eof_again cond sum s ∷ [];
    states = record s.states { num_packets_ready = pos 1 };
  }

  abbrev at_time : ℕ → SourceState F T → SourceState F T
  at_time time s = record s { now = time }

  sent_again :
      (timer : T) (count time : ℕ) (s : SourceState F T)
      → IsWaiting env r cfg id cond sum timer count s
      → env.timed_out timer time ≡ true
      → count + 1 < cfg.positive_ack_timer_expiration_limit
      → handle_positive_ack_procedures env (at_time time s) ≡ (returned tt, with_eof timer time s)
  unfolding handle_positive_ack_procedures send_eof_again checksum_calculation prepare_eof_pdu run
      modify_params on_store indicate add_packet_to_be_sent
  sent_again timer count time s w o l = ground (
    arith, w.none_queued, w.none_ready, w.of_request, w.of_file, w.to_entity, w.of_transaction,
    w.condition, w.size_known, w.runs, w.counted, w.sum_of,
  )

  waits :
      (s : SourceState F T)
      → s.pdus_to_be_sent ≡ []
      → s.states.step ≡ waiting_for_eof_ack
      → fsm_advancement_after_packets_were_sent env s ≡ (returned tt, s)
  unfolding fsm_advancement_after_packets_were_sent run
  waits s q i = ground (arith, q)

  one_call :
      (s t : SourceState F T)
      → s.states.state ≡ CfdpState.busy
      → s.put_req ≡ some r
      → s.states.step ≡ waiting_for_eof_ack
      → fsm_advancement_after_packets_were_sent env s ≡ (returned tt, s)
      → handle_positive_ack_procedures env s ≡ (returned tt, t)
      → t.states.step ≡ waiting_for_eof_ack
      → state_machine env none s ≡ (returned tt, t)
  unfolding state_machine fsm_non_idle run_steps begin_transaction Machine.in_step file_data_step
      later_steps handle_waiting_for_ack handle_retransmission run
  one_call s t b q i a e j = ground arith

  pub one_retry :
      (timer : T) (count time : ℕ) (s : SourceState F T)
      → IsWaiting env r cfg id cond sum timer count s
      → env.timed_out timer time ≡ true
      → count + 1 < cfg.positive_ack_timer_expiration_limit
      → wait_and_call env time s ≡ (returned (some (eof_again cond sum s)), counted_up timer time s)
  unfolding wait_and_call get_next_packet ◌>>=◌ modify pure
  one_retry timer count time s w o l =
      let t = with_eof timer time s in
      bind_step (state_machine env none) (λ _. get_next_packet) (at_time time s) t tt
        (one_call (at_time time s) t w.is_busy w.of_request w.in_step
          (waits (at_time time s) w.none_queued w.in_step) (sent_again timer count time s w o l)
          w.in_step)
      ∙ ap
          (λ (q : List Pdu × ℤ). (
            returned (some (eof_again cond sum s)),
            record (counted_up timer time s) {
              pdus_to_be_sent = q.0;
              states = record s.states { num_packets_ready = q.1 };
            },
          ))
          (ap (λ (q : List Pdu). (q, pos 0)) (sym w.none_queued)
            ∙ ap (λ (n : ℤ). (s.pdus_to_be_sent, n)) (sym w.none_ready))

  pub counted_up-IsWaiting :
      (timer : T) (count time : ℕ) (s : SourceState F T)
      → IsWaiting env r cfg id cond sum timer count s
      → IsWaiting env r cfg id cond sum
          (env.restart timer time)
          (count + 1)
          (counted_up timer time s)
  counted_up-IsWaiting timer count time s w = record {
    source = w.source;
    size = w.size;
    is_busy = w.is_busy;
    in_step = w.in_step;
    none_queued = w.none_queued;
    none_ready = w.none_ready;
    of_request = w.of_request;
    of_file = w.of_file;
    to_entity = w.to_entity;
    of_transaction = w.of_transaction;
    condition = w.condition;
    size_known = w.size_known;
    runs = refl;
    counted = ap (λ n. n + 1) w.counted;
    sum_of = w.sum_of;
  }
