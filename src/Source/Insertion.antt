-- ===== src/Source/Insertion.antt =====
-- The packets that the source handler takes from its user, `_check_inserted_packet` of
-- src/cfdppy/handler/source.py.
use cfdp_py.Base.{
  ◌≡◌, refl, ◌∙◌, ◌⊎◌, inl, inr, Bool, true, false, not, ◌&&◌, Option, none, some, arith, ◌==◌,
  Bool-cases,
}
use cfdp_py.Protocol.{
  PduBody, finished, ack, nak, keep_alive, unknown_directive, directive_type, Pdu,
  UnsignedByteField,
}
use cfdp_py.Errors.{
  Error, attribute_error, invalid_pdu_for_source_handler, pdu_ignored_for_source,
  ack_mode_packet_invalid_mode,
}
use cfdp_py.Proc.{Proc, raise, run, when, gets, require, ◌>>=◌, ◌>>◌}
use cfdp_py.Proc.Judged.{Judged, guard-Judged}
use cfdp_py.Mib.{RemoteEntityCfg}
use cfdp_py.Dest.State.{is_unacked}
use cfdp_py.Source.State.{
  SourceState, SourceEnv, waiting_for_eof_ack, waiting_for_finished, same_step,
}
use cfdp_py.Source.Machine.{
  check_inserted_packet, check_awaited, is_towards_sender, is_for_receiver, is_keep_alive_or_nak,
  is_nak, state_machine,
}

-- The packets of a transaction at hand, by whether acknowledgements are in use, and by whether the
-- handler waits for the acknowledgement of its EOF packet or for the Finished packet.
abbrev takes : (acks for_ack for_finished : Bool) → PduBody → Bool
takes acks for_ack for_finished (nak a b r) = acks
takes acks for_ack for_finished keep_alive = acks && (not for_ack && not for_finished)
takes acks for_ack for_finished (ack d k t) = not for_finished
takes acks for_ack for_finished (finished p) = not for_ack
takes acks for_ack for_finished unknown_directive = not for_ack && not for_finished
takes acks for_ack for_finished _ = false

-- Whether the entity is the one that the transaction at hand sends to.
abbrev is_remote : UnsignedByteField → Option RemoteEntityCfg → Bool
is_remote id none = false
is_remote id (some cfg) = id.value == cfg.entity_id.value

module _ {F T : Type 0} where
  abbrev by_content : Pdu → Proc (SourceState F T) (Unit {0})
  by_content pdu s =
      (do
        directive ← require attribute_error (directive_type pdu.body)
        when (is_for_receiver directive) (raise (invalid_pdu_for_source_handler pdu))
        when (is_unacked (some s.params.pdu_conf.trans_mode) && is_keep_alive_or_nak directive)
            (raise (pdu_ignored_for_source ack_mode_packet_invalid_mode pdu))
        when (not (is_nak directive)) (check_awaited directive pdu))
        s

  abbrev fits : PduBody → SourceState F T → Bool
  fits body s =
      takes (not (is_unacked (some s.params.pdu_conf.trans_mode)))
        (same_step s.states.step waiting_for_eof_ack) (same_step s.states.step waiting_for_finished)
        body

  content-Judged : (pdu : Pdu) (s : SourceState F T) → Judged (fits pdu.body s) (by_content pdu) s
  unfolding check_awaited run
  content-Judged pdu s = ground arith

module _ {F T : Type 0} where
  gets-Judged :
      {A : Type 0} (f : SourceState F T → A) (k : A → Proc (SourceState F T) (Unit {0}))
      (s : SourceState F T) (accepts : Bool)
      → Judged accepts (k (f s)) s
      → Judged accepts (gets f >>= k) s
  unfolding gets ◌>>=◌
  gets-Judged f k s accepts j = j

  remote-Judged :
      (id : UnsignedByteField) (found : Option RemoteEntityCfg) (accepts : Bool) (e : Error)
      (other : RemoteEntityCfg → Error) (m : Proc (SourceState F T) (Unit {0}))
      (s : SourceState F T)
      → Judged accepts m s
      → Judged
          (is_remote id found && accepts)
          (require e found >>= λ cfg.
            when (not (id.value == cfg.entity_id.value)) (raise (other cfg)) >> m)
          s
  unfolding require ◌>>=◌
  remote-Judged id none accepts e other m s j = (refl, refl)
  remote-Judged id (some cfg) accepts e other m s j =
      guard-Judged (id.value == cfg.entity_id.value) accepts (other cfg) m s j

module _ {F T : Type 0} (env : SourceEnv F T) where
  -- A packet of the transaction at hand, from its receiver, that the handler can go on with.
  abbrev pub accepts_packet : Pdu → SourceState F T → Bool
  accepts_packet pdu s =
      is_towards_sender pdu.pdu_conf.direction
      && (pdu.pdu_conf.source_entity_id.value == env.cfg.local_entity_id.value
          && (is_remote pdu.pdu_conf.dest_entity_id s.params.remote_cfg
              && (pdu.pdu_conf.transaction_seq_num.value
                    == s.params.pdu_conf.transaction_seq_num.value
                  && fits pdu.body s)))

  check-Judged :
      (pdu : Pdu) (s : SourceState F T)
      → Judged (accepts_packet pdu s) (check_inserted_packet env pdu) s
  unfolding check_inserted_packet
  check-Judged pdu s =
      gets-Judged (λ t. t.params) _ s _
        (guard-Judged _ _ _ _ s (
          guard-Judged _ _ _ _ s (
            remote-Judged pdu.pdu_conf.dest_entity_id _ _ _ _ _ s
              (guard-Judged _ _ _ _ s (content-Judged pdu s)))))

  refused-Judged :
      (pdu : Pdu) (s : SourceState F T)
      → Judged false (check_inserted_packet env pdu) s
      → Judged false (state_machine env (some pdu)) s
  unfolding state_machine run
  refused-Judged pdu s (r, e) = ground (arith, r, e)

  pub insertion_source_lem :
      (pdu : Pdu) (s : SourceState F T)
      → Judged (accepts_packet pdu s) (check_inserted_packet env pdu) s
        × ((accepts_packet pdu s ≡ true) ⊎ Judged false (state_machine env (some pdu)) s)
  insertion_source_lem pdu s =
      let j = check-Judged pdu s in
      (
        j,
        elim (Bool-cases (accepts_packet pdu s)) [
          | inl e ↦ inl e
          | inr e ↦ inr (refused-Judged pdu s (j.0 ∙ e, j.1))
        ],
      )
