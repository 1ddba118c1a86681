-- ===== src/Dest/Delivery/End.antt =====
-- The EOF packet of a file that has arrived whole, and the completion of the transfer.
use cfdp_py.Routing.{get_packet_destination}
use cfdp_py.Dest.Delivery.Steps.{
  other_last_step, this_step, other_step, receives_packet, nothing_to_advance, busy_call,
}
use cfdp_py.Dest.Machine.{
  is_ack_or_prompt, is_metadata, receive_packet, fsm_advancement_after_packets_were_sent,
  state_machine, non_idle_fsm, handle_transfer_completion,
}
use cfdp_py.FilePath.{text_eq_refl, FilePath}
use cfdp_py.Proc.{Proc, modify, returned, run}
use cfdp_py.Dest.State.{
  waiting_for_finished_ack, sending_finished_pdu, waiting_for_missing_data,
  recv_file_data_with_check_limit_handling, waiting_for_metadata, sending_eof_ack_pdu, is_idle,
  same_step, receiving_file_data, modify_fp, completed, set_state, TransactionStep, CfdpState,
  new_fields, set_step, modify_params, on_store, indicate, transfer_completion, DestState,
}
use cfdp_py.Dest.Faults.{
  reset_internal, notice_of_completion, file_delivery_complete, checksum_verify,
}
use cfdp_py.Dest.Receive.{
  handle_fd_or_eof_pdu, file_transfer_complete_transition, verify_unacked, check_unacked,
  handle_no_error_eof, eof_indication, check_progress, handle_eof_pdu,
}
use cfdp_py.Protocol.{
  eof, Pdu, unacknowledged, no_error, is_null_checksum, data_complete, ChecksumType, TransactionId,
}
use cfdp_py.User.{transaction_finished_indication, Indication, eof_recv_indication, Env}
use cfdp_py.Base.{
  none, not, ◌&&◌, ap, suc, ◌∙◌, refl, inr, arith, Bool-cases, inl, ◌⊎◌, ◌≡◌, some, ◌++◌,
  if◌then◌else◌, ℕ, List, true, false, [], ◌∷◌,
}
use cfdp_py.Proc.Steps.{bind_step}
use cfdp_py.Dest.Delivery.{IsAccepted, IsReady}
use cfdp_py.Dest.Delivery.Data.{accepted}

module _ {F T : Type 0} (env : Env F T) where
  -- The checksum of the file in the store, as far as it has arrived, is this one; the null checksum
  -- is not looked at.
  abbrev pub HasChecksum : ChecksumType → FilePath → List ℕ → DestState F T → Type 0
  HasChecksum kind name checksum s =
      (is_null_checksum kind ≡ true)
      ⊎ (env.vfs.calculate_checksum kind name s.params.fp.progress 4096 s.store
          ≡ (returned checksum, s.store))

  abbrev completed_file : DestState F T → DestState F T
  completed_file s = record s {
    params = record s.params {
      finished_params = record s.params.finished_params {
        delivery_code = data_complete;
        condition_code = no_error;
      };
    };
  }

  verified :
      (kind : ChecksumType) (name : FilePath) (checksum : List ℕ) (s : DestState F T)
      → s.params.checksum_type ≡ kind
      → s.params.fp.metadata_only ≡ false
      → s.params.fp.file_name ≡ name
      → s.params.fp.crc32 ≡ checksum
      → HasChecksum kind name checksum s
      → checksum_verify env s ≡ (returned true, completed_file s)
  unfolding checksum_verify file_delivery_complete run on_store modify_params
  verified kind name checksum s k f n c (inl null) = ground (arith, k, null)
  verified kind name checksum s k f n c (inr sum) = elim (Bool-cases (is_null_checksum kind)) [
    | inl null ↦ ground (arith, k, null)
    | inr not_null ↦ ground (arith, k, f, n, c, sum, not_null, text_eq_refl checksum)
  ]

  abbrev with_eof : List ℕ → ℕ → DestState F T → DestState F T
  with_eof checksum size s = record s {
    params = record s.params {
      fp = record s.params.fp { crc32 = checksum; file_size_eof = some size };
    };
  }

  abbrev told : TransactionId → DestState F T → DestState F T
  told id s = record s {
    indications =
        if env.cfg.indication_cfg.eof_recv_indication_required
        then s.indications ++ eof_recv_indication id ∷ []
        else s.indications;
  }

  abbrev pub after_eof : TransactionId → List ℕ → ℕ → DestState F T → DestState F T
  after_eof id checksum size s =
      let t = completed_file (told id (with_eof checksum size s)) in
      record t { states = record t.states { step = transfer_completion } }

  eof_told :
      (id : TransactionId) (s : DestState F T)
      → s.params.transaction_id ≡ some id
      → eof_indication env s ≡ (returned tt, told id s)
  unfolding eof_indication run indicate
  eof_told id s t = elim (Bool-cases env.cfg.indication_cfg.eof_recv_indication_required) [
    | inl e ↦ ground (arith, e, t)
    | inr e ↦ ground (arith, e)
  ]

  whole_progress :
      (size : ℕ) (s : DestState F T)
      → s.params.fp.progress ≡ size
      → check_progress env size s ≡ (returned true, s)
  unfolding check_progress run
  whole_progress size s p = ground (arith, p)

  regular :
      (size : ℕ) (t : DestState F T)
      → t.states.state ≡ CfdpState.busy
      → t.params.pdu_conf.trans_mode ≡ unacknowledged
      → check_progress env size t ≡ (returned true, t)
      → checksum_verify env t ≡ (returned true, completed_file t)
      → handle_no_error_eof env size t ≡ (returned true, completed_file t)
  unfolding handle_no_error_eof check_unacked verify_unacked run
  regular size t busy unacked check verify = ground (arith, busy, unacked, check, verify)

  transition :
      (t : DestState F T)
      → t.states.state ≡ CfdpState.busy
      → t.params.pdu_conf.trans_mode ≡ unacknowledged
      → file_transfer_complete_transition env t
        ≡ (returned tt, record t { states = record t.states { step = transfer_completion } })
  unfolding file_transfer_complete_transition set_step run
  transition t busy unacked = ground (arith, busy, unacked)

  eof_handled :
      (id : TransactionId) (kind : ChecksumType) (name : FilePath) (checksum : List ℕ) (size : ℕ)
      (s : DestState F T)
      → IsReady id kind name s
      → s.params.fp.progress ≡ size
      → HasChecksum kind name checksum s
      → handle_eof_pdu env checksum size no_error s ≡ (returned tt, after_eof id checksum size s)
  unfolding handle_eof_pdu modify_params modify
  eof_handled id kind name checksum size s i p c =
      let t = told id (with_eof checksum size s) in
      let verify = verified kind name checksum t i.of_kind i.has_file i.into refl c in
      bind_step (modify_fp (λ fp. record fp { crc32 = checksum; file_size_eof = some size })) _ s
        (with_eof checksum size s) tt refl
      ∙ bind_step (eof_indication env) _ (with_eof checksum size s) t tt
          (eof_told id (with_eof checksum size s) i.of_transaction)
      ∙ bind_step (handle_no_error_eof env size) _ t (completed_file t) true
          (regular size t i.is_busy i.unacked (whole_progress size t p) verify)
      ∙ transition (completed_file t) i.is_busy i.unacked

  -- The handler after the completion: idle again, the user told of the end.
  abbrev pub finished_params_of : DestState F T → Indication
  finished_params_of s = transaction_finished_indication (record {
    transaction_id = s.params.transaction_id;
    finished_params = s.params.finished_params;
  })

  abbrev pub after_completion : DestState F T → DestState F T
  after_completion s = record s {
    params = new_fields env.empty_pdu_conf;
    states = record s.states { state = CfdpState.idle; step = TransactionStep.idle };
    indications =
        if env.cfg.indication_cfg.transaction_finished_indication_required
        then s.indications ++ finished_params_of s ∷ []
        else s.indications;
  }

  completed_handled :
      (s : DestState F T)
      → s.states.state ≡ CfdpState.busy
      → s.params.pdu_conf.trans_mode ≡ unacknowledged
      → s.params.closure_requested ≡ false
      → s.params.completion_disposition ≡ completed
      → handle_transfer_completion env s ≡ (returned tt, after_completion s)
  unfolding handle_transfer_completion notice_of_completion reset_internal set_step set_state
      modify_params indicate run
  completed_handled s busy unacked no_closure c =
      elim (Bool-cases env.cfg.indication_cfg.transaction_finished_indication_required) [
        | inl e ↦ ground (arith, e, busy, unacked, no_closure, c)
        | inr e ↦ ground (arith, e, busy, unacked, no_closure, c)
      ]

  ends :
      (again : Proc (DestState F T) (Unit {0})) (pdu : Pdu) (s t : DestState F T)
      → s.states.step ≡ receiving_file_data
      → s.pdus_to_be_sent ≡ []
      → handle_fd_or_eof_pdu env pdu.body s ≡ (returned tt, t)
      → t.states.step ≡ transfer_completion
      → handle_transfer_completion env t ≡ (returned tt, after_completion t)
      → non_idle_fsm env again (some pdu) s ≡ (returned tt, after_completion t)
  unfolding non_idle_fsm
  ends again pdu s t step none_queued handled still complete =
      bind_step (fsm_advancement_after_packets_were_sent env) _ s s tt
        (nothing_to_advance env s none_queued (ap (λ x. same_step x sending_eof_ack_pdu) step))
      ∙ bind_step (receive_packet env (some pdu)) _ s t tt
          (receives_packet env pdu s step ∙ handled)
      ∙ other_step env waiting_for_metadata _ _ t (ap (λ x. same_step x waiting_for_metadata) still)
      ∙ other_step env recv_file_data_with_check_limit_handling _ _ t
          (ap (λ x. same_step x recv_file_data_with_check_limit_handling) still)
      ∙ other_step env waiting_for_missing_data _ _ t
          (ap (λ x. same_step x waiting_for_missing_data) still)
      ∙ this_step env transfer_completion _ _ t (after_completion t)
          (ap (λ x. same_step x transfer_completion) still) complete
      ∙ other_step env sending_finished_pdu _ _ (after_completion t) refl
      ∙ other_last_step env waiting_for_finished_ack _ (after_completion t) refl

  -- The EOF packet of a file that has arrived whole completes the transfer in the same call.
  pub eof_call :
      (id : TransactionId) (kind : ChecksumType) (name : FilePath) (depth : ℕ) (pdu : Pdu)
      (checksum : List ℕ) (size : ℕ) (s : DestState F T)
      → IsAccepted env pdu
      → pdu.body ≡ eof checksum size no_error
      → IsReady id kind name s
      → s.params.fp.progress ≡ size
      → HasChecksum kind name checksum s
      → state_machine env (suc depth) (some pdu) s
        ≡ (returned tt, after_completion (after_eof id checksum size s))
  eof_call id kind name depth pdu checksum size s a b i p c =
      busy_call env depth pdu s
        (accepted env pdu s a
          (ap get_packet_destination b ∙ (unfold get_packet_destination in refl))
          (ap (λ x. is_idle x && not (is_metadata pdu.body)) i.is_busy) (ap is_ack_or_prompt b))
        i.is_busy
      ∙ ends (state_machine env depth none) pdu s (after_eof id checksum size s) i.in_step
          i.no_packets
          (ap (λ x. handle_fd_or_eof_pdu env x s) b
            ∙ (unfold handle_fd_or_eof_pdu in eof_handled id kind name checksum size s i p c))
          refl
          (completed_handled (after_eof id checksum size s) i.is_busy i.unacked i.no_closure
            i.not_canceled)
