-- ===== src/Source/Sending/Whole.antt =====
-- A put request and the calls of the user of src/cfdppy/handler/source.py after it, until the handler
-- is idle again.
use cfdp_py.Dest.State.{CfdpState}
use cfdp_py.User.{transaction_indication, eof_sent_indication, Indication}
use cfdp_py.Source.Sending.Start.{first_packet, request_taken}
use cfdp_py.Source.Begin.{check_for_originating_id, put_request_call}
use cfdp_py.FilePath.{FilePath}
use cfdp_py.Mib.{RemoteEntityCfg}
use cfdp_py.Source.Chunks.{Tiles}
use cfdp_py.Request.{PutRequest}
use cfdp_py.Proc.Steps.{bind_step}
use cfdp_py.Protocol.{no_error, unacknowledged, eof, Pdu}
use cfdp_py.Proc.{◌>>=◌, returned}
use cfdp_py.Base.{
  if◌then◌else◌, false, inl, subst, ap, All, ◌∷◌, ◌++◌, ◌≤◌, true, ◌∙◌, refl, ◌<◌, zero, arith, suc,
  [], ◌≡◌, List, ℕ,
}
use cfdp_py.Source.State.{SourceState, SourceEnv}
use cfdp_py.Source.Sending.{
  trans_mode_of, closure_of, CanSend, IsFresh, IsWhole, requested, started, metadata_of, conf_of,
  segment_len, transaction_of,
}
use cfdp_py.Source.Sending.End.{the_end}
use cfdp_py.Source.Transfer.{IsSending, whole}
use cfdp_py.Source.Sending.Rounds.{
  put_file, busy_round, from_data, from_metadata, same_call, same_rounds, ends_at, data_rounds,
  in_data, HasConf, run_until_idle,
}

-- In unacknowledged mode and without closure.
abbrev pub IsUnacked : PutRequest → RemoteEntityCfg → Type 0
IsUnacked r cfg = (trans_mode_of r cfg ≡ unacknowledged) × (closure_of r cfg ≡ false)

module _ {F T : Type 0} (env : SourceEnv F T) (r : PutRequest) (cfg : RemoteEntityCfg)
    (size : ℕ) where
  abbrev pub last_of : List ℕ → SourceState F T → Pdu
  last_of sum s = record { pdu_conf = conf_of env r cfg size s; body = eof sum size no_error }

  -- What the user is told, after everything that it was told before.
  abbrev pub told_of : SourceState F T → List Indication
  told_of s =
      let id = transaction_of env r cfg size s in
      let start =
        s.indications
        ++ transaction_indication (record {
          transaction_id = id;
          originating_transaction_id = check_for_originating_id r;
        })
          ∷ [] in
      (if env.cfg.indication_cfg.eof_sent_indication_required
        then start ++ eof_sent_indication id ∷ []
        else start)
      ++ the_end id ∷ []

module _ {F T : Type 0} (env : SourceEnv F T) (content : (offset read_len : ℕ) → List ℕ)
    (size limit : ℕ) (r : PutRequest) (cfg : RemoteEntityCfg) (source dest : FilePath)
    (sum : List ℕ) where
  -- What the filestore answers for the source file.
  pub record Reads (store : F) : Type 0 where
    pub reads :
        (offset read_len : ℕ)
        → env.vfs.read_data source offset read_len store
          ≡ (returned (content offset read_len), store)
    pub sum_of :
        env.vfs.calculate_checksum cfg.crc_type source size (suc limit) store
        ≡ (returned sum, store)

  abbrev sending : SourceState F T → SourceState F T
  sending s = in_data env (started env r cfg source dest size s)

  abbrev final : SourceState F T → SourceState F T
  final s = ends_at env content size limit r (transaction_of env r cfg size s) sum (sending s)

  sending-IsSending :
      (s : SourceState F T)
      → CanSend env r cfg source dest size s.store
      → IsFresh s
      → segment_len env r cfg size s ≡ suc limit
      → Reads s.store
      → IsSending env content size limit (sending s)
  sending-IsSending s c f l d = record {
    is_busy = refl;
    in_step = refl;
    none_ready = refl;
    none_queued = f.none_queued;
    reads_file = record {
      request = r;
      file = source;
      at_hand = refl;
      of_request = c.of_file;
      reads = d.reads;
    };
    has_file = f.may_have_file;
    size_known = refl;
    segments = l;
    fits = inl f.at_start;
    within = ground (arith, f.at_start);
  }

  sending-IsWhole :
      (s : SourceState F T)
      → CanSend env r cfg source dest size s.store
      → IsFresh s
      → segment_len env r cfg size s ≡ suc limit
      → Reads s.store
      → IsUnacked r cfg
      → IsWhole env r
          (transaction_of env r cfg size s)
          size
          sum
          (whole env content size limit (sending s))
  sending-IsWhole s c f l d (u, n) = record {
    cfg = cfg;
    source = source;
    is_busy = refl;
    in_step = refl;
    none_queued = f.none_queued;
    none_ready = refl;
    of_request = refl;
    of_file = c.of_file;
    to_entity = refl;
    of_transaction = refl;
    unacked = u;
    no_closure = n;
    no_result = f.no_result;
    size_known = refl;
    all_sent = refl;
    sum_of =
        ap (λ len. env.vfs.calculate_checksum cfg.crc_type source size len s.store) l ∙ d.sum_of;
  }

  -- All packets of a put request.
  put_packets :
      (rounds : ℕ) (s : SourceState F T)
      → CanSend env r cfg source dest size s.store
      → IsFresh s
      → segment_len env r cfg size s ≡ suc limit
      → Reads s.store
      → IsUnacked r cfg
      → env.cfg.indication_cfg.transaction_finished_indication_required ≡ true
      → suc (suc size) ≤ rounds
      → (pdus : List Pdu) × (put_file env r rounds s ≡ (
        returned (
            metadata_of env r cfg source dest size s ∷ (pdus ++ last_of env r cfg size sum s ∷ [])),
        final s,
      ))
        × Tiles content (suc limit) 0 size pdus
        × All (HasConf (conf_of env r cfg size s)) pdus
  unfolding put_file ◌>>=◌
  put_packets zero s c f l d u told b = ground (arith, b)
  put_packets (suc zero) s c f l d u told b = ground (arith, b)
  put_packets (suc (suc rounds)) s c f l d u told b =
      let start = started env r cfg source dest size s in
      let go = sending-IsSending s c f l d in
      let (pdus, e, t, a) =
        data_rounds env content size limit r (transaction_of env r cfg size s) sum (suc rounds)
          (sending s) go (sending-IsWhole s c f l d u) told (omega (arith, b, f.at_start)) in
      let below : s.params.fp.progress < size = ground (arith, f.at_start, c.not_empty) in
      let resumed = same_rounds env rounds start (sending s) refl refl (
        same_call env start (sending s) refl refl (from_metadata env start f.none_queued refl)
          (from_data env (sending s) size f.none_queued refl refl below)) in
      (
        pdus,
        bind_step (put_request_call env r) (λ _. run_until_idle env (suc (suc rounds))) s
              (requested env r cfg source dest size s) true
              (request_taken env r cfg source dest size s c f.is_idle_now)
            ∙ busy_round env (suc rounds) (requested env r cfg source dest size s) start (final s) _
                (pdus ++ last_of env r cfg size sum s ∷ []) refl
                (first_packet env r cfg source dest size s c f) (resumed ∙ e),
        subst (λ from. Tiles content (suc limit) from size pdus) f.at_start t,
        a,
      )

  -- A put request to an idle handler without a file, for a file of the filestore that is not empty and
  -- an entity that is known, in unacknowledged mode and without closure, is sent whole, where the
  -- sequence numbers have a width that the handler takes, a segment has room for a byte, and the user
  -- is to be told of the end of a transaction: a user who calls state_machine and get_next_packet
  -- until the handler is idle, for which two rounds more than the file has bytes are enough, takes the
  -- metadata packet with the size, the names and the checksum type, then packets that hold the bytes
  -- of the file in order and without a gap, each with at least one byte and at most the segment
  -- length, and then the EOF packet with the size and the checksum, all under the configuration of the
  -- transaction. No call raises, no packet is left, the filestore is unchanged, and the user is told
  -- of the start, of the EOF packet where that is required, and of the end.
  pub put_file-Tiles :
      (rounds : ℕ) (s : SourceState F T)
      → CanSend env r cfg source dest size s.store
      → IsFresh s
      → segment_len env r cfg size s ≡ suc limit
      → Reads s.store
      → IsUnacked r cfg
      → env.cfg.indication_cfg.transaction_finished_indication_required ≡ true
      → suc (suc size) ≤ rounds
      → let result = put_file env r rounds s in
        (pdus : List Pdu) × (result.0
          ≡ returned (
              metadata_of env r cfg source dest size s
              ∷ (pdus ++ last_of env r cfg size sum s ∷ [])))
        × Tiles content (suc limit) 0 size pdus
        × All (HasConf (conf_of env r cfg size s)) pdus
        × (result.1.states.state ≡ CfdpState.idle)
        × (result.1.store ≡ s.store)
        × (result.1.pdus_to_be_sent ≡ [])
        × (result.1.indications ≡ told_of env r cfg size s)
  put_file-Tiles rounds s c f l d u told b =
      let (pdus, e, t, a) = put_packets rounds s c f l d u told b in
      (
        pdus,
        ap (λ x. x.0) e,
        t,
        a,
        ap (λ x. x.1.states.state) e,
        ap (λ x. x.1.store) e,
        ap (λ x. x.1.pdus_to_be_sent) e,
        ap (λ x. x.1.indications) e,
      )
