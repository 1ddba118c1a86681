-- ===== src/Source/Transfer.antt =====
-- The file data phase of src/cfdppy/handler/source.py under its user, who calls the state machine and
-- takes the packet that is ready, until the whole file is sent.
use cfdp_py.Base.{
  ℕ, zero, suc, ◌+◌, ◌-◌, min, ◌≤◌, ◌<◌, ◌≡◌, refl, sym, ap, ◌∙◌, ◌⊎◌, inl, inr, true, false,
  Option, none, some, List, [], ◌∷◌, arith, if◌then◌else◌, subst,
}
use cfdp_py.Base.Int.{pos}
use cfdp_py.Protocol.{Pdu}
use cfdp_py.Proc.{Proc, returned, run, pure, gets, ◌>>=◌, ◌>>◌}
use cfdp_py.Proc.Steps.{bind_step, gets_bind}
use cfdp_py.Proc.Agree.{bind_assoc}
use cfdp_py.Dest.State.{CfdpState}
use cfdp_py.Source.State.{SourceState, SourceEnv, sending_file_data}
use cfdp_py.Source.Chunks.{Tiles, tiled, tile, ReadsFile, send_file_data_lem, chunk}
use cfdp_py.Source.Send.{
  send_file_data, sending_file_data_fsm, handle_retransmission_if_acked, handle_retransmission,
}
use cfdp_py.Source.Machine
use cfdp_py.Source.Machine.{
  state_machine, fsm_non_idle, run_steps, begin_transaction, file_data_step,
  fsm_advancement_after_packets_were_sent, handle_file_data_sent, get_next_packet, is_whole,
}

abbrev pub push : Option Pdu → List Pdu → List Pdu
push none pdus = pdus
push (some pdu) pdus = pdu ∷ pdus

-- The user's loop, with a bound on its rounds: the packets it takes.
unfoldable pub transmit :
    {F T : Type 0} → SourceEnv F T → (rounds : ℕ) → Proc (SourceState F T) (List Pdu)
transmit env zero = pure []
transmit env (suc rounds) = do
  fp ← gets (λ s. s.params.fp)
  if is_whole fp.progress fp.file_size then pure [] else do
    state_machine env none
    pdu ← get_next_packet
    pdus ← transmit env rounds
    pure (push pdu pdus)

-- The handler sends the file, and no packet is left to take.
pub record IsSending {F T : Type 0} (env : SourceEnv F T) (content : (offset read_len : ℕ) → List ℕ)
    (size limit : ℕ) (s : SourceState F T) : Type 0 where
  pub is_busy : s.states.state ≡ CfdpState.busy
  pub in_step : s.states.step ≡ sending_file_data
  pub none_ready : s.states.num_packets_ready ≡ pos 0
  pub none_queued : s.pdus_to_be_sent ≡ []
  pub reads_file : ReadsFile env content s
  pub has_file : s.params.fp.metadata_only ≡ false
  pub size_known : s.params.fp.file_size ≡ some size
  pub segments : s.params.fp.segment_len ≡ suc limit
  pub fits : (s.params.fp.progress ≡ 0) ⊎ ((suc limit ≤ size) ⊎ (s.params.fp.progress ≡ size))
  pub within : s.params.fp.progress ≤ size

pub lt_or_le : (m n : ℕ) → (m < n) ⊎ (n ≤ m)
lt_or_le m n = ground arith

module _ {F T : Type 0} (env : SourceEnv F T) (content : (offset read_len : ℕ) → List ℕ)
    (size limit : ℕ) where
  abbrev pub sent_len : SourceState F T → ℕ
  sent_len s = suc (min limit (size - s.params.fp.progress - 1))

  abbrev pub progressed : SourceState F T → SourceState F T
  progressed s = record s {
    params = record s.params {
      fp = record s.params.fp { progress = s.params.fp.progress + sent_len s };
    };
  }

  one_call :
      (s t : SourceState F T)
      → IsSending env content size limit s
      → s.params.fp.progress < size
      → send_file_data env s ≡ (returned true, t)
      → state_machine env none s ≡ (returned tt, t)
  unfolding state_machine fsm_non_idle run_steps begin_transaction Machine.in_step file_data_step
      fsm_advancement_after_packets_were_sent handle_file_data_sent sending_file_data_fsm
      handle_retransmission_if_acked handle_retransmission run
  one_call s t i p e = ground (arith, i.reads_file.at_hand)

  fits_below :
      (progress : ℕ)
      → (progress ≡ 0) ⊎ ((suc limit ≤ size) ⊎ (progress ≡ size))
      → progress < size
      → (progress ≡ 0) ⊎ (suc limit ≤ size)
  fits_below progress (inl z) p = inl z
  fits_below progress (inr (inl l)) p = inr l
  fits_below progress (inr (inr e)) p = ground arith

  fits_after :
      (progress : ℕ)
      → (progress ≡ 0) ⊎ ((suc limit ≤ size) ⊎ (progress ≡ size))
      → progress < size
      → let after = progress + suc (min limit (size - progress - 1)) in
        (after ≡ 0) ⊎ ((suc limit ≤ size) ⊎ (after ≡ size))
  fits_after progress (inl z) p = elim (lt_or_le size (suc limit)) [
    | inl l ↦ inr (inr (omega arith))
    | inr l ↦ inr (inl l)
  ]
  fits_after progress (inr (inl l)) p = inr (inl l)
  fits_after progress (inr (inr e)) p = ground arith

  pub one_packet :
      (s : SourceState F T)
      → IsSending env content size limit s
      → s.params.fp.progress < size
      → ((state_machine env none >> get_next_packet) s)
        ≡ (returned (some (chunk env content s s.params.fp.progress (sent_len s))), progressed s)
  unfolding get_next_packet run
  one_packet s i p =
      bind_step (state_machine env none) (λ _. get_next_packet) s _ tt
        (one_call s _ i p (
          send_file_data_lem env content size limit s i.reads_file i.has_file i.size_known
            i.segments p (fits_below _ i.fits p)))
      ∙ ground (arith, i.none_queued, i.none_ready)

  pub progressed-IsSending :
      (s : SourceState F T)
      → IsSending env content size limit s
      → s.params.fp.progress < size
      → IsSending env content size limit (progressed s)
  progressed-IsSending s i p = record {
    is_busy = i.is_busy;
    in_step = i.in_step;
    none_ready = i.none_ready;
    none_queued = i.none_queued;
    reads_file = record {
      request = i.reads_file.request;
      file = i.reads_file.file;
      at_hand = i.reads_file.at_hand;
      of_request = i.reads_file.of_request;
      reads = i.reads_file.reads;
    };
    has_file = i.has_file;
    size_known = i.size_known;
    segments = i.segments;
    fits = fits_after _ i.fits p;
    within = omega (arith, p);
  }

  abbrev pub whole : SourceState F T → SourceState F T
  whole s = record s { params = record s.params { fp = record s.params.fp { progress = size } } }

  pub whole_here : (s : SourceState F T) → s.params.fp.progress ≡ size → whole s ≡ s
  whole_here s e =
      ap (λ p. record s { params = record s.params { fp = record s.params.fp { progress = p } } })
        (sym e)

  stop :
      (rounds : ℕ) (s : SourceState F T)
      → IsSending env content size limit s
      → s.params.fp.progress ≡ size
      → transmit env rounds s ≡ (returned [], s)
  unfolding transmit run
  stop zero s i e = refl
  stop (suc rounds) s i e = ground (arith, i.size_known)

  all_sent :
      (rounds : ℕ) (s : SourceState F T)
      → IsSending env content size limit s
      → size ≤ s.params.fp.progress
      → (pdus : List Pdu) × (transmit env rounds s ≡ (returned pdus, whole s))
        × Tiles content (suc limit) s.params.fp.progress size pdus
  all_sent rounds s i done =
      let e : s.params.fp.progress ≡ size = omega (arith, i.within, done) in
      (
        [],
        stop rounds s i e ∙ ap (λ t. (returned [], t)) (sym (whole_here s e)),
        subst (λ end. Tiles content (suc limit) s.params.fp.progress end []) e tiled,
      )

  below_branch :
      {A : Type 0} (m n : Proc (SourceState F T) A) (progress : ℕ) (s : SourceState F T)
      {found : Option ℕ}
      → found ≡ some size
      → progress < size
      → (if is_whole progress found then m else n) s ≡ n s
  below_branch m n progress s e p = ground arith

  go_on :
      (rounds : ℕ) (s : SourceState F T) (pdus : List Pdu)
      → IsSending env content size limit s
      → s.params.fp.progress < size
      → transmit env rounds (progressed s) ≡ (returned pdus, whole s)
      → transmit env (suc rounds) s
        ≡ (returned (chunk env content s s.params.fp.progress (sent_len s) ∷ pdus), whole s)
  unfolding transmit
  go_on rounds s pdus i p e =
      gets_bind _ _ s
      ∙ below_branch _ _ _ s i.size_known p
      ∙ sym (bind_assoc (state_machine env none) (λ _. get_next_packet) _ s)
      ∙ bind_step _ _ s (progressed s) _ (one_packet s i p)
      ∙ bind_step _ _ (progressed s) (whole s) pdus e
      ∙ (unfold pure in refl)

  -- A handler is busy in the file data phase with no packet ready or left to take, its filestore
  -- reads the source file, the size of which it knows, the segment length is at least one, the
  -- progress is within the size, and nothing is sent yet, or all is, or the size is at least one
  -- segment. Then a user who calls the state machine and takes the packet that is ready, at most once
  -- for every byte that is left, receives packets that hold the bytes of the file from the progress so
  -- far up to its end, in order and without a gap, each with at least one byte and at most the segment
  -- length. No call raises, and the handler differs from before in its progress only, which is the
  -- size of the file.
  pub transmit-Tiles :
      (rounds : ℕ) (s : SourceState F T)
      → IsSending env content size limit s
      → size - s.params.fp.progress ≤ rounds
      → (pdus : List Pdu) × (transmit env rounds s ≡ (returned pdus, whole s))
        × Tiles content (suc limit) s.params.fp.progress size pdus
  transmit-Tiles zero s i b = all_sent zero s i (omega (arith, b))
  transmit-Tiles (suc rounds) s i b = elim (lt_or_le s.params.fp.progress size) [
    | inr done ↦ all_sent (suc rounds) s i done
    | inl p ↦
        let (pdus, e, t) =
          transmit-Tiles rounds (progressed s) (progressed-IsSending s i p) (omega (arith, p, b)) in
        (
          chunk env content s s.params.fp.progress (sent_len s) ∷ pdus,
          go_on rounds s pdus i p e,
          tile _ (min limit (size - s.params.fp.progress - 1)) refl (omega arith) t,
        )
  ]
