-- ===== src/Dest/Delivery/Begin.antt =====
-- The metadata packet that starts the reception of a file.
use cfdp_py.Dest.Receive.{handle_fd_or_eof_pdu}
use cfdp_py.Routing.{get_packet_destination}
use cfdp_py.Dest.Machine.{is_ack_or_prompt, is_metadata, state_machine}
use cfdp_py.Mib.{get_cfg}
use cfdp_py.Proc.{when, skip, modify, ◌>>◌, returned, run}
use cfdp_py.Dest.Start.{
  open_transaction, idle_fsm, common_first_packet_handler, start_transaction, idle_packet,
  handle_metadata_packet,
}
use cfdp_py.FilePath.{of_text, is_some, Text}
use cfdp_py.Protocol.{unacknowledged, metadata, Pdu, Tlv, MetadataParams, PduConfig}
use cfdp_py.Dest.State.{set_state, is_idle, modify_params, new_fields, CfdpState, DestState}
use cfdp_py.User.{Env}
use cfdp_py.Base.{
  not, ◌&&◌, suc, none, ℕ, refl, ap, ◌∙◌, arith, List, some, Option, ◌≡◌, true, false,
}
use cfdp_py.Proc.Steps.{bind_step, gets_bind}
use cfdp_py.Dest.Delivery.{IsAccepted, IsReady}
use cfdp_py.Dest.Delivery.Data.{accepted, ready_passes}
use cfdp_py.Dest.Delivery.Steps.{idle_call}
use cfdp_py.Dest.Delivery.Metadata.{
  metadata_handled, opened, after_metadata, IsTarget, with_names, transaction_of, IsFree,
}

module _ {F T : Type 0} (env : Env F T) where
  emptied : DestState F T → DestState F T
  emptied s = record s { params = new_fields env.empty_pdu_conf }

  opened_packet :
      (pdu : Pdu) (s : DestState F T)
      → s.states.state ≡ CfdpState.idle
      → common_first_packet_handler env pdu (emptied s) ≡ (returned tt, opened env pdu.pdu_conf s)
  unfolding common_first_packet_handler open_transaction set_state modify_params run emptied
  opened_packet pdu s idle = ground (arith, idle)

  started :
      (pdu : Pdu) (m : MetadataParams) (options : Option (List Tlv)) (source dest : Text) (made : F)
      (s : DestState F T)
      → s.states.state ≡ CfdpState.idle
      → is_some (get_cfg pdu.pdu_conf.source_entity_id env.remote_cfg_table) ≡ true
      → IsTarget env (of_text dest) s.store made
      → start_transaction env pdu (with_names m source dest) options s
        ≡ (returned tt, after_metadata env pdu.pdu_conf m options source dest made s)
  unfolding start_transaction
  started pdu m options source dest made s idle c target =
      gets_bind (λ s. s.states.state) _ s
      ∙ ap
          (λ b.
            when b
              (do
                modify_params (λ _. new_fields env.empty_pdu_conf)
                common_first_packet_handler env pdu
                handle_metadata_packet env pdu.pdu_conf (with_names m source dest) options)
              s)
          (ap is_idle idle)
      ∙ bind_step (modify_params (λ _. new_fields env.empty_pdu_conf)) _ s (emptied s) tt
          (unfold modify_params modify emptied in refl)
      ∙ bind_step (common_first_packet_handler env pdu) _ (emptied s) (opened env pdu.pdu_conf s) tt
          (opened_packet pdu s idle)
      ∙ metadata_handled env pdu.pdu_conf m options source dest made s c target

  -- A metadata packet with both file names starts a transfer at a free handler.
  pub metadata_call :
      (depth : ℕ) (pdu : Pdu) (m : MetadataParams) (options : Option (List Tlv))
      (source dest : Text) (made : F) (s : DestState F T)
      → IsAccepted env pdu
      → pdu.body ≡ metadata (with_names m source dest) options
      → IsFree s
      → IsTarget env (of_text dest) s.store made
      → state_machine env (suc depth) (some pdu) s
        ≡ (returned tt, after_metadata env pdu.pdu_conf m options source dest made s)
  unfolding idle_fsm idle_packet
  metadata_call depth pdu m options source dest made s a b free target =
      let t = after_metadata env pdu.pdu_conf m options source dest made s in
      idle_call env depth pdu s t
        (accepted env pdu s a
          (ap get_packet_destination b ∙ (unfold get_packet_destination in refl))
          (ap (λ x. is_idle s.states.state && not (is_metadata x)) b ∙ ground arith)
          (ap is_ack_or_prompt b))
        free.is_idle_now
        (ap (λ x. idle_packet env pdu x s) b
          ∙ started pdu m options source dest made s free.is_idle_now a.source target)
        free.none_ready refl
      ∙ ready_passes env (state_machine env depth none) pdu t t refl free.no_packets
          (ap (λ x. handle_fd_or_eof_pdu env x t) b ∙ (unfold handle_fd_or_eof_pdu skip in refl))
          refl

  pub after_metadata-IsReady :
      (conf : PduConfig) (m : MetadataParams) (options : Option (List Tlv)) (source dest : Text)
      (made : F) (s : DestState F T)
      → conf.trans_mode ≡ unacknowledged
      → m.closure_requested ≡ false
      → IsFree s
      → IsReady
          (transaction_of conf)
          m.checksum_type
          (of_text dest)
          (after_metadata env conf m options source dest made s)
  after_metadata-IsReady conf m options source dest made s u c free = record {
    is_busy = refl;
    in_step = refl;
    no_packets = free.no_packets;
    unacked = u;
    no_closure = c;
    of_transaction = refl;
    of_kind = refl;
    has_file = refl;
    no_eof = refl;
    into = refl;
    retained = refl;
    no_location = refl;
    not_canceled = refl;
  }
