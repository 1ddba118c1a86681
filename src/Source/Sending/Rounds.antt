-- ===== src/Source/Sending/Rounds.antt =====
-- The calls of the user of src/cfdppy/handler/source.py from the metadata packet on, until the handler
-- is idle again.
use cfdp_py.Source.Begin.{put_request_call}
use cfdp_py.Source.Chunks.{tile, chunk, tiled, Tiles}
use cfdp_py.Request.{PutRequest}
use cfdp_py.Proc.Agree.{bind_assoc}
use cfdp_py.Proc.Steps.{bind_same, bind_step, gets_bind}
use cfdp_py.Protocol.{TransactionId, Pdu, PduConfig}
use cfdp_py.Proc.{gets, ◌>>=◌, ◌>>◌, pure, returned, Proc, run}
use cfdp_py.Base.{
  min, inl, subst, ap, inr, All, ◌∷◌, ◌++◌, ◌≤◌, ◌-◌, true, sym, ◌∙◌, refl, ◌<◌, zero, some, arith,
  suc, [], none, if◌then◌else◌, ◌≡◌, Option, List, ℕ,
}
use cfdp_py.Dest.State.{CfdpState, is_idle}
use cfdp_py.Source.State.{SourceState, SourceEnv, sending_metadata, sending_file_data, set_step}
use cfdp_py.Source.Machine.{
  state_machine, get_next_packet, fsm_non_idle, fsm_advancement_after_packets_were_sent,
  handle_file_data_sent,
}
use cfdp_py.Source.Sending.{IsWhole}
use cfdp_py.Source.Sending.End.{eof_of, taken, last_packet}
use cfdp_py.Source.Transfer.{
  whole_here, push, one_packet, progressed-IsSending, IsSending, whole, lt_or_le, sent_len,
  progressed,
}

-- The user's loop, with a bound on its rounds: the packets it takes.
unfoldable pub run_until_idle :
    {F T : Type 0} → SourceEnv F T → (rounds : ℕ) → Proc (SourceState F T) (List Pdu)
run_until_idle env zero = pure []
run_until_idle env (suc rounds) = do
  state ← gets (λ s. s.states.state)
  if is_idle state then pure [] else do
    state_machine env none
    pdu ← get_next_packet
    pdus ← run_until_idle env rounds
    pure (push pdu pdus)

-- A put request and the loop after it.
unfoldable pub put_file :
    {F T : Type 0} → SourceEnv F T → PutRequest → (rounds : ℕ) → Proc (SourceState F T) (List Pdu)
put_file env r rounds = do put_request_call env r; run_until_idle env rounds

-- A packet of the transaction.
abbrev pub HasConf : PduConfig → Pdu → Type 0
HasConf conf pdu = pdu.pdu_conf ≡ conf

module _ {F T : Type 0} (env : SourceEnv F T) where
  idle_round :
      (rounds : ℕ) (s : SourceState F T)
      → s.states.state ≡ CfdpState.idle
      → run_until_idle env rounds s ≡ (returned [], s)
  unfolding run_until_idle run
  idle_round zero s i = refl
  idle_round (suc rounds) s i = ground arith

  busy_branch :
      {A : Type 0} (m n : Proc (SourceState F T) A) (state : CfdpState) (s : SourceState F T)
      → state ≡ CfdpState.busy
      → (if is_idle state then m else n) s ≡ n s
  busy_branch m n state s b = ground arith

  pub busy_round :
      (rounds : ℕ) (s t u : SourceState F T) (pdu : Option Pdu) (pdus : List Pdu)
      → s.states.state ≡ CfdpState.busy
      → (state_machine env none >> get_next_packet) s ≡ (returned pdu, t)
      → run_until_idle env rounds t ≡ (returned pdus, u)
      → run_until_idle env (suc rounds) s ≡ (returned (push pdu pdus), u)
  unfolding run_until_idle
  busy_round rounds s t u pdu pdus b e f =
      gets_bind _ _ s
      ∙ busy_branch _ _ _ s b
      ∙ sym (bind_assoc (state_machine env none) (λ _. get_next_packet) _ s)
      ∙ bind_step _ _ s t pdu e
      ∙ bind_step _ _ t u pdus f
      ∙ (unfold pure in refl)

  -- The advancement from the metadata to the file data may as well have been made before.
  pub same_call :
      (s t : SourceState F T)
      → s.states.state ≡ CfdpState.busy
      → t.states.state ≡ CfdpState.busy
      → fsm_advancement_after_packets_were_sent env s ≡ (returned tt, t)
      → fsm_advancement_after_packets_were_sent env t ≡ (returned tt, t)
      → state_machine env none s ≡ state_machine env none t
  unfolding state_machine fsm_non_idle run
  same_call s t b c a e = ground arith

  pub same_rounds :
      (rounds : ℕ) (s t : SourceState F T)
      → s.states.state ≡ CfdpState.busy
      → t.states.state ≡ CfdpState.busy
      → state_machine env none s ≡ state_machine env none t
      → run_until_idle env (suc rounds) s ≡ run_until_idle env (suc rounds) t
  unfolding run_until_idle
  same_rounds rounds s t b c e =
      gets_bind _ _ s
      ∙ busy_branch _ _ _ s b
      ∙ bind_same _ _ s t e
      ∙ sym (busy_branch _ _ _ t c)
      ∙ sym (gets_bind _ _ t)

  abbrev pub in_data : SourceState F T → SourceState F T
  in_data s = record s { states = record s.states { step = sending_file_data } }

  pub from_metadata :
      (s : SourceState F T)
      → s.pdus_to_be_sent ≡ []
      → s.states.step ≡ sending_metadata
      → fsm_advancement_after_packets_were_sent env s ≡ (returned tt, in_data s)
  unfolding fsm_advancement_after_packets_were_sent run set_step
  from_metadata s q i = ground (arith, q)

  pub from_data :
      (s : SourceState F T) (size : ℕ)
      → s.pdus_to_be_sent ≡ []
      → s.states.step ≡ sending_file_data
      → s.params.fp.file_size ≡ some size
      → s.params.fp.progress < size
      → fsm_advancement_after_packets_were_sent env s ≡ (returned tt, s)
  unfolding fsm_advancement_after_packets_were_sent handle_file_data_sent run
  from_data s size q i f p = ground (arith, q)

module _ {F T : Type 0} (env : SourceEnv F T) (content : (offset read_len : ℕ) → List ℕ)
    (size limit : ℕ) (r : PutRequest) (id : TransactionId) (sum : List ℕ) where
  abbrev pub ends_at : SourceState F T → SourceState F T
  ends_at s = taken env r id size sum (whole env content size limit s)

  abbrev last_of : SourceState F T → Pdu
  last_of s = eof_of env r id size sum s

  -- From the file data on.
  pub data_rounds :
      (rounds : ℕ) (s : SourceState F T)
      → IsSending env content size limit s
      → IsWhole env r id size sum (whole env content size limit s)
      → env.cfg.indication_cfg.transaction_finished_indication_required ≡ true
      → suc (size - s.params.fp.progress) ≤ rounds
      → (pdus : List Pdu) × (run_until_idle env rounds s
          ≡ (returned (pdus ++ last_of s ∷ []), ends_at s))
        × Tiles content (suc limit) s.params.fp.progress size pdus
        × All (HasConf s.params.pdu_conf) pdus
  data_rounds zero s i w told b = ground (arith, b)
  data_rounds (suc rounds) s i w told b = elim (lt_or_le s.params.fp.progress size) [
    | inr done ↦
        let e : s.params.fp.progress ≡ size = omega (arith, i.within, done) in
        let here = whole_here env content size limit s e in
        (
          [],
          ap (run_until_idle env (suc rounds)) (sym here)
              ∙ busy_round env rounds (whole env content size limit s) (ends_at s) (ends_at s) _ []
                  i.is_busy (last_packet env r id size sum _ w told)
                  (idle_round env rounds (ends_at s) refl),
          subst (λ end. Tiles content (suc limit) s.params.fp.progress end []) e tiled,
          tt,
        )
    | inl p ↦
        let next = progressed env content size limit s in
        let (pdus, e, t, a) =
          data_rounds rounds next (progressed-IsSending env content size limit s i p) w told
            (omega (arith, p, b)) in
        let pdu = chunk env content s s.params.fp.progress (sent_len env content size limit s) in
        (
          pdu ∷ pdus,
          busy_round env rounds s next (ends_at s) _ (pdus ++ last_of s ∷ []) i.is_busy
              (one_packet env content size limit s i p) e,
          tile _ (min limit (size - s.params.fp.progress - 1)) refl (omega arith) t,
          (refl, a),
        )
  ]
