-- ===== src/Source/Answers/Calls.antt =====
-- The calls of the state machine of src/cfdppy/handler/source.py that answer a NAK packet.
use cfdp_py.Dest.State.{CfdpState}
use cfdp_py.Source.Send.{handle_segment_req}
use cfdp_py.Proc.{for_each, returned, run}
use cfdp_py.Mib.{RemoteEntityCfg}
use cfdp_py.Protocol.{towards_sender, acknowledged, nak, Pdu}
use cfdp_py.Request.{PutRequest}
use cfdp_py.Base.{true, ◌<◌, suc, All, suc, false, arith, refl, ◌==◌, some, ◌≡◌, [], List, ℕ}
use cfdp_py.Source.State.{
  same_step, TransactionStep, sending_metadata, waiting_for_finished, waiting_for_eof_ack,
  sending_file_data, SourceState, SourceEnv, add_packet_to_be_sent, modify_params, set_step,
  retransmitting,
}
use cfdp_py.Source.Machine
use cfdp_py.Source.State
use cfdp_py.Source.Machine.{
  state_machine, fsm_non_idle, fsm_advancement_after_packets_were_sent, handle_file_data_sent,
  begin_transaction, run_steps, later_steps, file_data_step, check_inserted_packet, get_next_packet,
  resume_before_retransmission,
}
use cfdp_py.Source.Send.{
  handle_segment_req, handle_retransmission, retransmit, handle_retransmission_if_acked,
  sending_file_data_fsm, handle_waiting_for_ack, handle_wait_for_finish,
}
use cfdp_py.Source.Chunks.{ReadsFile, queued}
use cfdp_py.Source.Answers.{Answers, HasMetadata, IsServable, metadata_again, requests-Answers}

-- The handler can be asked for data again: while file data is left, or while it waits for the
-- acknowledgement of the EOF packet or for the Finished packet.
pub data CanServe {F T : Type 0} (s : SourceState F T) : Type 0 where
  in_data :
      (size : ℕ)
      → s.states.step ≡ sending_file_data
      → s.params.fp.file_size ≡ some size
      → s.params.fp.progress < size
      → CanServe s
  in_eof : s.states.step ≡ waiting_for_eof_ack → CanServe s
  in_finish : s.states.step ≡ waiting_for_finished → CanServe s

module _ {F T : Type 0} (env : SourceEnv F T) where
  -- The packets are queued, and the step is kept.
  abbrev pub serving : List Pdu → SourceState F T → SourceState F T
  serving pdus s = record (queued pdus s) {
    states = record (queued pdus s).states { step = retransmitting };
    params = record s.params {
      ack_params = record { step_before_retransmission = some s.states.step };
    };
  }

  retransmitted :
      (pdu : Pdu) (a b : ℕ) (requests : List (ℕ × ℕ)) (pdus : List Pdu) (s : SourceState F T)
      → pdu.body ≡ nak a b requests
      → for_each requests (handle_segment_req env) s ≡ (returned tt, queued pdus s)
      → handle_retransmission env (some pdu) s ≡ (returned true, serving pdus s)
  unfolding handle_retransmission retransmit run modify_params set_step
  retransmitted pdu a b requests pdus s n e = ground (arith, e)

  stays :
      (s : SourceState F T)
      → s.pdus_to_be_sent ≡ []
      → CanServe s
      → fsm_advancement_after_packets_were_sent env s ≡ (returned tt, s)
  unfolding fsm_advancement_after_packets_were_sent handle_file_data_sent run
  stays s q (in_data size i f p) = ground (arith, q)
  stays s q (in_eof i) = ground (arith, q)
  stays s q (in_finish i) = ground (arith, q)

  served :
      (pdu : Pdu) (s t : SourceState F T)
      → s.states.state ≡ CfdpState.busy
      → s.params.pdu_conf.trans_mode ≡ acknowledged
      → CanServe s
      → handle_retransmission env (some pdu) s ≡ (returned true, t)
      → t.states.step ≡ retransmitting
      → file_data_step env (some pdu) s ≡ (returned tt, t)
  unfolding file_data_step later_steps Machine.in_step sending_file_data_fsm
      handle_retransmission_if_acked handle_waiting_for_ack handle_wait_for_finish run
  served pdu s t b a (in_data size i f p) e j = ground arith
  served pdu s t b a (in_eof i) e j = ground arith
  served pdu s t b a (in_finish i) e j = ground arith

  NoStart : TransactionStep → Type 0
  NoStart step =
      (same_step step TransactionStep.idle ≡ false)
      × (same_step step State.transaction_start ≡ false)
      × (same_step step sending_metadata ≡ false)

  under_way : (s : SourceState F T) → CanServe s → NoStart s.states.step
  unfolding NoStart
  under_way s (in_data size i f p) = (ground arith, ground arith, ground arith)
  under_way s (in_eof i) = (ground arith, ground arith, ground arith)
  under_way s (in_finish i) = (ground arith, ground arith, ground arith)

  one_answer :
      (pdu : Pdu) (r : PutRequest) (s t : SourceState F T)
      → s.states.state ≡ CfdpState.busy
      → s.put_req ≡ some r
      → NoStart s.states.step
      → check_inserted_packet env pdu s ≡ (returned tt, s)
      → fsm_advancement_after_packets_were_sent env s ≡ (returned tt, s)
      → file_data_step env (some pdu) s ≡ (returned tt, t)
      → state_machine env (some pdu) s ≡ (returned tt, t)
  unfolding NoStart state_machine fsm_non_idle run_steps begin_transaction Machine.in_step run
  one_answer pdu r s t b q n c a e = ground (arith, n.0, n.1, n.2)

  resumes :
      (s : SourceState F T) (step : TransactionStep)
      → s.pdus_to_be_sent ≡ []
      → s.states.step ≡ retransmitting
      → s.params.ack_params.step_before_retransmission ≡ some step
      → fsm_advancement_after_packets_were_sent env s
        ≡ (returned tt, record s { states = record s.states { step = step } })
  unfolding fsm_advancement_after_packets_were_sent resume_before_retransmission run set_step
  resumes s step q i b = ground (arith, q)

-- The handler as it was before the NAK packet, but for the step that it remembers.
abbrev pub after_answer : {F T : Type 0} → SourceState F T → SourceState F T
after_answer s = record s {
  params = record s.params {
    ack_params = record { step_before_retransmission = some s.states.step };
  };
}

-- A packet for the sender of the transaction at hand.
pub record IsOwn {F T : Type 0} (env : SourceEnv F T) (cfg : RemoteEntityCfg) (pdu : Pdu)
    (s : SourceState F T) : Type 0 where
  pub direction : pdu.pdu_conf.direction ≡ towards_sender
  pub source : (pdu.pdu_conf.source_entity_id.value == env.cfg.local_entity_id.value) ≡ true
  pub dest : (pdu.pdu_conf.dest_entity_id.value == cfg.entity_id.value) ≡ true
  pub transaction :
      (pdu.pdu_conf.transaction_seq_num.value == s.params.pdu_conf.transaction_seq_num.value) ≡ true

module _ {F T : Type 0} (env : SourceEnv F T) (content : (offset read_len : ℕ) → List ℕ)
    (limit : ℕ) where
  nak_accepted :
      (pdu : Pdu) (a b : ℕ) (requests : List (ℕ × ℕ)) (cfg : RemoteEntityCfg) (s : SourceState F T)
      → s.params.remote_cfg ≡ some cfg
      → IsOwn env cfg pdu s
      → pdu.body ≡ nak a b requests
      → s.params.pdu_conf.trans_mode ≡ acknowledged
      → check_inserted_packet env pdu s ≡ (returned tt, s)
  unfolding check_inserted_packet run
  nak_accepted pdu a b requests cfg s c o n k =
      ground (arith, o.direction, o.source, o.dest, o.transaction)

  pub state_machine-Answers :
      (pdu : Pdu) (a b : ℕ) (requests : List (ℕ × ℕ)) (s : SourceState F T)
      → (m : HasMetadata s) → ReadsFile env content s
      → s.params.fp.segment_len ≡ suc limit
      → s.states.state ≡ CfdpState.busy
      → s.params.pdu_conf.trans_mode ≡ acknowledged
      → s.pdus_to_be_sent ≡ []
      → CanServe s
      → IsOwn env m.cfg pdu s
      → pdu.body ≡ nak a b requests
      → All (IsServable s.params.fp.progress) requests
      → (pdus : List Pdu) × (state_machine env (some pdu) s ≡ (returned tt, serving env pdus s))
        × Answers content (suc limit) (metadata_again s m) requests pdus
        × (fsm_advancement_after_packets_were_sent env (record (serving env pdus s) {
          pdus_to_be_sent = s.pdus_to_be_sent;
          states = record (serving env pdus s).states {
            num_packets_ready = s.states.num_packets_ready;
          };
        })
            ≡ (returned tt, after_answer s))
  state_machine-Answers pdu a b requests s m r l busy acked q c o n v =
      let (pdus, e, answers) = requests-Answers env content limit requests s m r l v in
      (
        pdus,
        one_answer env pdu m.request s (serving env pdus s) busy m.at_hand (under_way env s c)
            (nak_accepted pdu a b requests m.cfg s m.to_entity o n acked) (stays env s q c)
            (served env pdu s (serving env pdus s) busy acked c
              (retransmitted env pdu a b requests pdus s n e) refl),
        answers,
        resumes env _ s.states.step q refl refl,
      )
