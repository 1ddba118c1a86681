-- ===== src/Dest/Insertion.antt =====
-- The packets that the destination handler takes from its user, `_check_inserted_packet` of
-- src/cfdppy/handler/dest.py.
use cfdp_py.Mib.{get_cfg}
use cfdp_py.FilePath.{is_some}
use cfdp_py.User.{Env}
use cfdp_py.Base.{
  ◌∙◌, inr, inl, Bool-cases, some, suc, ◌⊎◌, ◌≡◌, ◌==◌, ℕ, Bool, true, false, not, ◌&&◌, arith,
}
use cfdp_py.Protocol.{
  PduBody, file_data, eof, ack, metadata, prompt, finished_pdu, Pdu, TransmissionMode, acknowledged,
  unacknowledged,
}
use cfdp_py.Errors.{
  invalid_pdu_for_dest_handler, pdu_ignored_for_dest, invalid_mode_for_acked_mode_packet,
}
use cfdp_py.Proc.{Proc, raise, run, when, gets, ◌>>=◌, ◌>>◌}
use cfdp_py.Proc.Judged.{guard-Judged, Judged}
use cfdp_py.Routing.{get_packet_destination}
use cfdp_py.Dest.State.{DestState, CfdpState, is_busy, is_idle, is_unacked, transmission_mode}
use cfdp_py.Dest.Faults.{of_outcome}
use cfdp_py.Dest.Machine.{
  check_packet, state_machine_call, state_machine, is_towards_receiver, check_inserted_packet,
  handle_first_packet_not_metadata_pdu, is_ack_or_prompt, is_metadata, is_source_handler,
}

-- The packets that begin a transaction, by the mode in their header.
abbrev begins : TransmissionMode → PduBody → Bool
begins mode (metadata p o) = true
begins acknowledged (file_data o d m) = true
begins acknowledged (eof c n k) = true
begins mode _ = false

-- The packets of a transaction at hand, by whether acknowledgements are in use.
abbrev continues : (acks : Bool) → PduBody → Bool
continues acks (metadata p o) = true
continues acks (file_data o d m) = true
continues acks (eof c n k) = true
continues acks prompt = acks
continues acks (ack finished_pdu k t) = acks
continues acks _ = false

abbrev takes : CfdpState → (own of_packet : TransmissionMode) → PduBody → Bool
takes CfdpState.idle own of_packet body = begins of_packet body
takes CfdpState.busy acknowledged of_packet body = continues true body
takes CfdpState.busy unacknowledged of_packet body = continues false body
takes CfdpState.suspended own of_packet body = continues true body

module _ {F T : Type 0} where
  -- The part of the test after the addresses.
  abbrev by_content : Pdu → Proc (DestState F T) (Unit {0})
  by_content pdu = do
    destination ← of_outcome (get_packet_destination pdu.body)
    when (is_source_handler destination) (raise (invalid_pdu_for_dest_handler pdu))
    s ← gets (λ s. s)
    when (is_idle s.states.state && not (is_metadata pdu.body))
        (handle_first_packet_not_metadata_pdu pdu)
    when (is_ack_or_prompt pdu.body && (is_busy s.states.state && is_unacked (transmission_mode s)))
        (raise (pdu_ignored_for_dest invalid_mode_for_acked_mode_packet pdu))

  content-Judged :
      (pdu : Pdu) (s : DestState F T)
      → Judged
          (takes s.states.state s.params.pdu_conf.trans_mode pdu.pdu_conf.trans_mode pdu.body)
          (by_content pdu)
          s
  unfolding of_outcome get_packet_destination handle_first_packet_not_metadata_pdu run
  content-Judged pdu s = ground arith

module _ {F T : Type 0} (env : Env F T) where
  -- A packet for this entity from a known one, which the handler can begin or continue with.
  abbrev pub accepts_packet : Pdu → DestState F T → Bool
  accepts_packet pdu s =
      is_towards_receiver pdu.pdu_conf.direction
      && (pdu.pdu_conf.dest_entity_id.value == env.cfg.local_entity_id.value
          && (is_some (get_cfg pdu.pdu_conf.source_entity_id env.remote_cfg_table)
              && takes s.states.state s.params.pdu_conf.trans_mode pdu.pdu_conf.trans_mode
                  pdu.body))

  check-Judged :
      (pdu : Pdu) (s : DestState F T)
      → Judged (accepts_packet pdu s) (check_inserted_packet env pdu) s
  unfolding check_inserted_packet
  check-Judged pdu s =
      guard-Judged _ _ _ _ s
        (guard-Judged _ _ _ _ s (guard-Judged _ _ _ _ s (content-Judged pdu s)))

  refused-Judged :
      (depth : ℕ) (pdu : Pdu) (s : DestState F T)
      → Judged false (check_inserted_packet env pdu) s
      → Judged false (state_machine env (suc depth) (some pdu)) s
  unfolding state_machine state_machine_call check_packet run
  refused-Judged depth pdu s (r, e) = ground (arith, r, e)

  -- The insertion test returns exactly for a packet directed to the receiver, with the entity ID of
  -- this handler as its destination and a source with a known configuration, which fits the state: an
  -- idle handler takes metadata, and file data and EOF packets with acknowledged mode in their header;
  -- a busy one takes these three in any mode, and prompts and acknowledgements of a Finished packet
  -- unless its transfer is unacknowledged; a suspended one takes all five. The test never changes the
  -- state; and state_machine with a packet that is not accepted raises and leaves the whole state as
  -- it was, whatever the step.
  pub insertion_lem :
      (depth : ℕ) (pdu : Pdu) (s : DestState F T)
      → Judged (accepts_packet pdu s) (check_inserted_packet env pdu) s
        × ((accepts_packet pdu s ≡ true)
            ⊎ Judged false (state_machine env (suc depth) (some pdu)) s)
  insertion_lem depth pdu s =
      let j = check-Judged pdu s in
      (
        j,
        elim (Bool-cases (accepts_packet pdu s)) [
          | inl e ↦ inl e
          | inr e ↦ inr (refused-Judged depth pdu s (j.0 ∙ e, j.1))
        ],
      )
