-- ===== src/Source/Sending/End.antt =====
-- The last call of the state machine in src/cfdppy/handler/source.py for a file in unacknowledged mode
-- and without closure: the EOF packet and the notice of completion.
use cfdp_py.Proc.Steps.{bind_step}
use cfdp_py.User.{transaction_finished_indication, Indication, eof_sent_indication}
use cfdp_py.Source.Sending.{IsWhole}
use cfdp_py.Proc.{◌>>◌, returned, run}
use cfdp_py.Base.Int.{pos}
use cfdp_py.Source.Packets.{prepare_eof_pdu, checksum_calculation}
use cfdp_py.Base.{refl, true, none, ◌++◌, if◌then◌else◌, arith, [], ◌∷◌, ◌≡◌, some, List, ℕ}
use cfdp_py.Protocol.{file_status_unreported, data_complete, no_error, eof, Pdu, TransactionId}
use cfdp_py.Request.{PutRequest}
use cfdp_py.Dest.State.{CfdpState}
use cfdp_py.Source.Machine
use cfdp_py.Source.Machine.{
  state_machine, get_next_packet, fsm_non_idle, fsm_advancement_after_packets_were_sent,
  begin_transaction, run_steps, later_steps, file_data_step, handle_file_data_sent, send_eof,
}
use cfdp_py.Source.State
use cfdp_py.Source.State.{
  SourceState, SourceEnv, TransactionStep, modify_params, set_step, set_state, on_store, indicate,
  add_packet_to_be_sent, sending_eof, reset_fields, reset_fp,
}
use cfdp_py.Source.Faults.{notice_of_completion, finish_indication, reset_internal, handle_eof_sent}

abbrev pub the_end : TransactionId → Indication
the_end id = transaction_finished_indication (record {
  transaction_id = some id;
  finished_params = record {
    delivery_code = data_complete;
    file_status = file_status_unreported;
    condition_code = no_error;
    fault_location = none;
  };
})

module _ {F T : Type 0} (env : SourceEnv F T) (r : PutRequest) (id : TransactionId) (size : ℕ)
    (sum : List ℕ) where
  abbrev pub eof_of : SourceState F T → Pdu
  eof_of s = record { pdu_conf = s.params.pdu_conf; body = eof sum size no_error }

  abbrev at_eof : SourceState F T → SourceState F T
  at_eof s = record s {
    states = record s.states { step = sending_eof };
    params = record s.params { cond_code_eof = some no_error };
  }

  abbrev with_eof : SourceState F T → SourceState F T
  with_eof s = record s {
    states = record s.states { step = State.notice_of_completion; num_packets_ready = pos 1 };
    params = record s.params { cond_code_eof = some no_error };
    pdus_to_be_sent = eof_of s ∷ [];
    indications =
        if env.cfg.indication_cfg.eof_sent_indication_required
        then s.indications ++ eof_sent_indication id ∷ []
        else s.indications;
  }

  advanced :
      (s : SourceState F T)
      → IsWhole env r id size sum s
      → fsm_advancement_after_packets_were_sent env s ≡ (returned tt, at_eof s)
  unfolding fsm_advancement_after_packets_were_sent handle_file_data_sent run modify_params set_step
  advanced s w = ground (arith, w.none_queued, w.in_step, w.size_known, w.all_sent)

  eof_sent :
      (s : SourceState F T)
      → IsWhole env r id size sum s
      → send_eof env (at_eof s) ≡ (returned tt, with_eof s)
  unfolding send_eof checksum_calculation prepare_eof_pdu handle_eof_sent run modify_params set_step
      on_store indicate add_packet_to_be_sent
  eof_sent s w = ground (
    arith, w.none_queued, w.none_ready, w.of_request, w.of_file, w.to_entity, w.of_transaction,
    w.unacked, w.no_closure, w.size_known, w.all_sent, w.sum_of, w.is_busy,
  )

  abbrev ended : SourceState F T → SourceState F T
  ended s = record (with_eof s) {
    states = record {
      state = CfdpState.idle;
      step = TransactionStep.idle;
      num_packets_ready = pos 1;
    };
    params = reset_fields env.empty_pdu_conf s.params;
    indications = (with_eof s).indications ++ the_end id ∷ [];
  }

  abbrev pub taken : SourceState F T → SourceState F T
  taken s = record (ended s) {
    states = record (ended s).states { num_packets_ready = pos 0 };
    pdus_to_be_sent = [];
  }

  completed :
      (s : SourceState F T)
      → IsWhole env r id size sum s
      → env.cfg.indication_cfg.transaction_finished_indication_required ≡ true
      → notice_of_completion env (with_eof s) ≡ (returned tt, ended s)
  unfolding notice_of_completion finish_indication reset_internal run modify_params set_step
      set_state indicate reset_fields reset_fp
  completed s w told = ground (arith, w.of_transaction, w.no_result)

  ending_steps :
      (s t u : SourceState F T)
      → s.states.step ≡ sending_eof
      → send_eof env s ≡ (returned tt, t)
      → t.states.step ≡ State.notice_of_completion
      → notice_of_completion env t ≡ (returned tt, u)
      → file_data_step env none s ≡ (returned tt, u)
  unfolding file_data_step later_steps Machine.in_step run
  ending_steps s t u i e j f = ground arith

  ending_call :
      (s t u : SourceState F T)
      → s.states.state ≡ CfdpState.busy
      → fsm_advancement_after_packets_were_sent env s ≡ (returned tt, t)
      → t.put_req ≡ some r
      → t.states.step ≡ sending_eof
      → file_data_step env none t ≡ (returned tt, u)
      → state_machine env none s ≡ (returned tt, u)
  unfolding state_machine fsm_non_idle run_steps begin_transaction Machine.in_step run
  ending_call s t u b a q i e = ground arith

  -- The last call queues the EOF packet.
  pub last_packet :
      (s : SourceState F T)
      → IsWhole env r id size sum s
      → env.cfg.indication_cfg.transaction_finished_indication_required ≡ true
      → (state_machine env none >> get_next_packet) s ≡ (returned (some (eof_of s)), taken s)
  unfolding get_next_packet run
  last_packet s w told =
      bind_step (state_machine env none) (λ _. get_next_packet) s (ended s) tt
        (ending_call s (at_eof s) (ended s) w.is_busy (advanced s w) w.of_request refl (
          ending_steps (at_eof s) (with_eof s) (ended s) refl (eof_sent s w) refl
            (completed s w told)))
