-- ===== src/Source/Retries/Limit.antt =====
-- How often src/cfdppy/handler/source.py sends its EOF packet again.
use cfdp_py.Source.Transfer.{push}
use cfdp_py.Proc.Steps.{pure_step, bind_step}
use cfdp_py.Protocol.{positive_ack_limit_reached, ConditionCode, Pdu, TransactionId}
use cfdp_py.Proc.{pure, ◌>>=◌, returned, run, Proc}
use cfdp_py.Mib.{RemoteEntityCfg}
use cfdp_py.Base.{
  suc, subst, replicate, ◌≤◌, length, ◌∙◌, arith, ◌<◌, true, [], ◌≡◌, ◌+◌, ◌∷◌, List, ℕ,
}
use cfdp_py.Request.{PutRequest}
use cfdp_py.Source.State.{SourceState, SourceEnv}
use cfdp_py.Source.Faults.{handle_positive_ack_procedures, declare_fault}
use cfdp_py.Source.Retries.{
  IsWaiting, wait_and_call, eof_again, counted_up, one_retry, counted_up-IsWaiting,
}

module _ {F T : Type 0} (env : SourceEnv F T) where
  -- The same at several times: the packets.
  unfoldable pub retries : List ℕ → Proc (SourceState F T) (List Pdu)
  retries [] = pure []
  retries (time ∷ times) = do
    pdu ← wait_and_call env time
    pdus ← retries times
    pure (push pdu pdus)

  -- The countdown after it was restarted at these times, and that it ran out at each of them.
  abbrev pub restarted : T → List ℕ → T
  restarted timer [] = timer
  restarted timer (time ∷ times) = restarted (env.restart timer time) times

  abbrev pub RunsOut : T → List ℕ → Type 0
  RunsOut timer [] = Unit
  RunsOut timer (time ∷ times) =
      (env.timed_out timer time ≡ true) × RunsOut (env.restart timer time) times

module _ {F T : Type 0} (env : SourceEnv F T) (r : PutRequest) (cfg : RemoteEntityCfg)
    (id : TransactionId) (cond : ConditionCode) (sum : List ℕ) where
  all_retries :
      (times : List ℕ) (timer : T) (count : ℕ) (s : SourceState F T)
      → IsWaiting env r cfg id cond sum timer count s
      → RunsOut env timer times
      → count + length times < cfg.positive_ack_timer_expiration_limit
      → (t : SourceState F T) × (retries env times s
          ≡ (returned (replicate (length times) (eof_again cond sum s)), t))
        × IsWaiting env r cfg id cond sum (restarted env timer times) (count + length times) t
  unfolding retries
  all_retries [] timer count s w o l =
      (s, pure_step [] s, subst (λ n. IsWaiting env r cfg id cond sum timer n s) (omega arith) w)
  all_retries (time ∷ times) timer count s w (o, os) l =
      let next = counted_up env r cfg id cond sum timer time s in
      let (t, e, v) =
        all_retries times (env.restart timer time) (count + 1) next
          (counted_up-IsWaiting env r cfg id cond sum timer count time s w) os (omega (arith, l)) in
      (
        t,
        bind_step (wait_and_call env time) _ s next _
              (one_retry env r cfg id cond sum timer count time s w o (omega (arith, l)))
            ∙ bind_step (retries env times) _ next t _ e
            ∙ pure_step _ t,
        subst
            (λ n.
              IsWaiting env r cfg id cond sum (restarted env (env.restart timer time) times) n t)
            (omega arith) v,
      )

  limit_reached :
      (timer : T) (count time : ℕ) (s : SourceState F T)
      → IsWaiting env r cfg id cond sum timer count s
      → env.timed_out timer time ≡ true
      → cfg.positive_ack_timer_expiration_limit ≤ count + 1
      → handle_positive_ack_procedures env (record s { now = time })
        ≡ declare_fault env positive_ack_limit_reached (record s { now = time })
  unfolding handle_positive_ack_procedures run
  limit_reached timer count time s w o l = ground (arith, w.to_entity, w.runs, w.counted)

  -- While no acknowledgement of its EOF packet arrives, a handler sends it again at every timeout, with
  -- the same checksum, size and condition code, but only below the limit of the remote entity: a user
  -- who calls state_machine and get_next_packet at times at which the timer has run out, one fewer
  -- than the limit allows from the count at hand, takes one EOF packet at each of them. No call
  -- raises, and at the next timeout the procedure declares the fault that the limit is reached. The
  -- timeout at hand is counted: with a limit of 2 the EOF packet is sent again once, and the second
  -- timeout declares the fault.
  pub retries-limit :
      (times : List ℕ) (last : ℕ) (timer : T) (count : ℕ) (s : SourceState F T)
      → IsWaiting env r cfg id cond sum timer count s
      → RunsOut env timer times
      → env.timed_out (restarted env timer times) last ≡ true
      → count + suc (length times) ≡ cfg.positive_ack_timer_expiration_limit
      → (t : SourceState F T) × (retries env times s
          ≡ (returned (replicate (length times) (eof_again cond sum s)), t))
        × IsWaiting env r cfg id cond sum (restarted env timer times) (count + length times) t
        × (handle_positive_ack_procedures env (record t { now = last })
            ≡ declare_fault env positive_ack_limit_reached (record t { now = last }))
  retries-limit times last timer count s w o final l =
      let (t, e, v) = all_retries times timer count s w o (omega (arith, l)) in
      (
        t,
        e,
        v,
        limit_reached (restarted env timer times) (count + length times) last t v final
            (omega (arith, l)),
      )
