-- ===== src/Dest/Delivery/Data.antt =====
-- A file data packet at a handler that is ready for it.
use cfdp_py.Dest.Delivery.Steps.{
  other_last_step, other_step, receives_packet, busy_call, nothing_to_advance,
}
use cfdp_py.Errors.{invalid_pdu_for_dest_handler}
use cfdp_py.Mib.{get_cfg}
use cfdp_py.Proc.Steps.{skip_last, gets_bind, bind_step, skip_when}
use cfdp_py.FilePath.{is_some, FilePath}
use cfdp_py.Proc.{raise, Proc, returned, run}
use cfdp_py.Protocol.{ChecksumType, TransactionId, file_data, Pdu, file_retained}
use cfdp_py.Routing.{dest_handler, get_packet_destination}
use cfdp_py.Dest.State.{
  waiting_for_finished_ack, sending_eof_ack_pdu, sending_finished_pdu, transfer_completion,
  waiting_for_missing_data, recv_file_data_with_check_limit_handling, waiting_for_metadata,
  same_step, transmission_mode, is_unacked, is_busy, receiving_file_data, is_idle, on_store,
  indicate, modify_params, DestState,
}
use cfdp_py.Dest.Faults.{of_outcome}
use cfdp_py.Dest.Receive.{
  handle_fd_or_eof_pdu, fault_stops, on_write_error, write_file_data, handle_fd_pdu,
}
use cfdp_py.Dest.Machine.{
  state_machine, receive_packet, fsm_advancement_after_packets_were_sent, non_idle_fsm,
  is_towards_receiver, is_source_handler, is_ack_or_prompt, is_metadata, check_inserted_packet,
}
use cfdp_py.User.{file_segment_recv_indication, Env}
use cfdp_py.Base.{
  suc, some, ◌==◌, refl, ap, ◌∙◌, not, ◌&&◌, inr, inl, Bool-cases, arith, none, ◌++◌, if◌then◌else◌,
  ◌≡◌, length, ◌+◌, max, List, ℕ, false, [], ◌∷◌,
}
use cfdp_py.Dest.Delivery.{IsAccepted, IsReady}

module _ {F T : Type 0} (env : Env F T) where
  -- The insertion test lets a packet for this handler through, where it is not a first packet and
  -- no acknowledgement or prompt.
  pub accepted :
      (pdu : Pdu) (s : DestState F T)
      → IsAccepted env pdu
      → get_packet_destination pdu.body ≡ returned dest_handler
      → (is_idle s.states.state && not (is_metadata pdu.body)) ≡ false
      → is_ack_or_prompt pdu.body ≡ false
      → check_inserted_packet env pdu s ≡ (returned tt, s)
  unfolding check_inserted_packet of_outcome
  accepted pdu s a d first other =
      skip_when (not (is_towards_receiver pdu.pdu_conf.direction)) _ _ s
        (ap (λ d. not (is_towards_receiver d)) a.direction)
      ∙ skip_when (not (pdu.pdu_conf.dest_entity_id.value == env.cfg.local_entity_id.value)) _ _ s
          (ap not a.destination)
      ∙ skip_when (not (is_some (get_cfg pdu.pdu_conf.source_entity_id env.remote_cfg_table))) _ _ s
          (ap not a.source)
      ∙ bind_step (of_outcome (get_packet_destination pdu.body)) _ s s dest_handler
          (ap (λ r. (r, s)) d)
      ∙ skip_when (is_source_handler dest_handler) (raise (invalid_pdu_for_dest_handler pdu)) _ s
          refl
      ∙ gets_bind (λ s. s) _ s
      ∙ skip_when (is_idle s.states.state && not (is_metadata pdu.body)) _ _ s first
      ∙ skip_last
          (is_ack_or_prompt pdu.body
            && (is_busy s.states.state && is_unacked (transmission_mode s)))
          _ s (ap (λ b. b && (is_busy s.states.state && is_unacked (transmission_mode s))) other)

  -- The handler after it.
  abbrev pub after_data : F → ℕ → List ℕ → DestState F T → DestState F T
  after_data store offset bytes s = record s {
    store = store;
    params = record s.params {
      finished_params = record s.params.finished_params { file_status = file_retained };
      fp = record s.params.fp { progress = max (offset + length bytes) s.params.fp.progress };
    };
    indications =
        if env.cfg.indication_cfg.file_segment_recvd_indication_required
        then s.indications
          ++ file_segment_recv_indication (record {
            transaction_id = s.params.transaction_id;
            offset = offset;
            length = length bytes;
            segment_metadata = none;
          })
            ∷ []
        else s.indications;
  }

  data_handled :
      (id : TransactionId) (kind : ChecksumType) (name : FilePath) (offset : ℕ) (bytes : List ℕ)
      (store : F) (s : DestState F T)
      → IsReady id kind name s
      → env.vfs.write_data name bytes offset s.store ≡ (returned tt, store)
      → handle_fd_pdu env offset bytes none s ≡ (returned tt, after_data store offset bytes s)
  unfolding handle_fd_pdu write_file_data on_write_error fault_stops run modify_params indicate
      on_store
  data_handled id kind name offset bytes store s i w =
      elim (Bool-cases env.cfg.indication_cfg.file_segment_recvd_indication_required) [
        | inl e ↦ ground (arith, i.unacked, i.no_eof, i.into, i.is_busy)
        | inr e ↦ ground (arith, i.unacked, i.no_eof, i.into, i.is_busy)
      ]

  -- A step that leaves the handler ready passes by the later steps of the state machine.
  pub ready_passes :
      (again : Proc (DestState F T) (Unit {0})) (pdu : Pdu) (s t : DestState F T)
      → s.states.step ≡ receiving_file_data
      → s.pdus_to_be_sent ≡ []
      → handle_fd_or_eof_pdu env pdu.body s ≡ (returned tt, t)
      → t.states.step ≡ receiving_file_data
      → non_idle_fsm env again (some pdu) s ≡ (returned tt, t)
  unfolding non_idle_fsm
  ready_passes again pdu s t step none_queued handled still =
      bind_step (fsm_advancement_after_packets_were_sent env) _ s s tt
        (nothing_to_advance env s none_queued (ap (λ x. same_step x sending_eof_ack_pdu) step))
      ∙ bind_step (receive_packet env (some pdu)) _ s t tt
          (receives_packet env pdu s step ∙ handled)
      ∙ other_step env waiting_for_metadata _ _ t (ap (λ x. same_step x waiting_for_metadata) still)
      ∙ other_step env recv_file_data_with_check_limit_handling _ _ t
          (ap (λ x. same_step x recv_file_data_with_check_limit_handling) still)
      ∙ other_step env waiting_for_missing_data _ _ t
          (ap (λ x. same_step x waiting_for_missing_data) still)
      ∙ other_step env transfer_completion _ _ t (ap (λ x. same_step x transfer_completion) still)
      ∙ other_step env sending_finished_pdu _ _ t (ap (λ x. same_step x sending_finished_pdu) still)
      ∙ other_last_step env waiting_for_finished_ack _ t
          (ap (λ x. same_step x waiting_for_finished_ack) still)

  -- A file data packet at a ready handler is written to the file, and the handler stays ready.
  pub data_call :
      (id : TransactionId) (kind : ChecksumType) (name : FilePath) (depth : ℕ) (pdu : Pdu)
      (offset : ℕ) (bytes : List ℕ) (store : F) (s : DestState F T)
      → IsAccepted env pdu
      → pdu.body ≡ file_data offset bytes none
      → IsReady id kind name s
      → env.vfs.write_data name bytes offset s.store ≡ (returned tt, store)
      → state_machine env (suc depth) (some pdu) s ≡ (returned tt, after_data store offset bytes s)
  data_call id kind name depth pdu offset bytes store s a b i w =
      busy_call env depth pdu s
        (accepted pdu s a (ap get_packet_destination b ∙ (unfold get_packet_destination in refl))
          (ap (λ x. is_idle x && not (is_metadata pdu.body)) i.is_busy) (ap is_ack_or_prompt b))
        i.is_busy
      ∙ ready_passes (state_machine env depth none) pdu s (after_data store offset bytes s)
          i.in_step i.no_packets
          (ap (λ x. handle_fd_or_eof_pdu env x s) b
            ∙ (unfold handle_fd_or_eof_pdu in data_handled id kind name offset bytes store s i w))
          i.in_step

  pub after_data-IsReady :
      (id : TransactionId) (kind : ChecksumType) (name : FilePath) (offset : ℕ) (bytes : List ℕ)
      (store : F) (s : DestState F T)
      → IsReady id kind name s
      → IsReady id kind name (after_data store offset bytes s)
  after_data-IsReady id kind name offset bytes store s i = record {
    is_busy = i.is_busy;
    in_step = i.in_step;
    no_packets = i.no_packets;
    unacked = i.unacked;
    no_closure = i.no_closure;
    of_transaction = i.of_transaction;
    of_kind = i.of_kind;
    has_file = i.has_file;
    no_eof = i.no_eof;
    into = i.into;
    retained = refl;
    no_location = i.no_location;
    not_canceled = i.not_canceled;
  }
