-- ===== src/Source/Chunks.antt =====
-- The file data packets of src/cfdppy/handler/source.py: what they hold of the file.
use cfdp_py.Errors.{out_of_rounds}
use cfdp_py.Base.{
  replicate, ℕ, zero, suc, ◌+◌, ◌-◌, min, ◌≤◌, ◌<◌, ◌≡◌, refl, sym, ap, ◌∙◌, ◌⊎◌, true, false, none,
  some, List, [], ◌∷◌, ◌++◌, arith, append_assoc, append-nil, subst,
}
use cfdp_py.Base.Int.{ℤ, increment}
use cfdp_py.FilePath.{FilePath}
use cfdp_py.Protocol.{Pdu, file_data}
use cfdp_py.Proc.{raised, raise, returned, run, skip, ◌>>◌}
use cfdp_py.Proc.Steps.{bind_step}
use cfdp_py.Request.{PutRequest}
use cfdp_py.Source.State.{SourceState, SourceEnv, on_store, add_packet_to_be_sent, modify_params}
use cfdp_py.Source.Packets.{prepare_file_data_pdu, prepare_progressing_file_data_pdu, next_read_len}
use cfdp_py.Source.Send.{resend_chunks, resend_segment, send_file_data}

-- The packets hold the bytes of the file from `start` up to `end`, one after another, each of them
-- with 1 to `limit` bytes.
pub data Tiles (content : (offset read_len : ℕ) → List ℕ) (limit : ℕ)
    : (start end : ℕ) → List Pdu → Type 0 where
  tiled : {at : ℕ} → Tiles content limit at at []
  tile :
      {start end : ℕ} {pdus : List Pdu} (pdu : Pdu) (len : ℕ)
      → pdu.body ≡ file_data start (content start (suc len)) none
      → suc len ≤ limit
      → Tiles content limit (start + suc len) end pdus
      → Tiles content limit start end (pdu ∷ pdus)

-- The filestore reads the source file of the request at hand, which holds `content`.
pub record ReadsFile {F T : Type 0} (env : SourceEnv F T) (content : (offset read_len : ℕ) → List ℕ)
    (s : SourceState F T) : Type 0 where
  pub request : PutRequest
  pub file : FilePath
  pub at_hand : s.put_req ≡ some request
  pub of_request : request.source_file ≡ some file
  pub reads :
      (offset read_len : ℕ)
      → env.vfs.read_data file offset read_len s.store
        ≡ (returned (content offset read_len), s.store)

-- The number of packets ready after so many packets more.
abbrev pub add_count : List Pdu → ℤ → ℤ
add_count [] n = n
add_count (pdu ∷ pdus) n = add_count pdus (increment n)

-- The state with packets more at the end of its queue.
abbrev pub queued : {F T : Type 0} → List Pdu → SourceState F T → SourceState F T
queued pdus s = record s {
  pdus_to_be_sent = s.pdus_to_be_sent ++ pdus;
  states = record s.states { num_packets_ready = add_count pdus s.states.num_packets_ready };
}

module _ {F T : Type 0} (env : SourceEnv F T) (content : (offset read_len : ℕ) → List ℕ) where
  abbrev pub chunk : SourceState F T → (offset read_len : ℕ) → Pdu
  chunk s offset read_len = record {
    pdu_conf = s.params.pdu_conf;
    body = file_data offset (content offset read_len) none;
  }

  one_chunk :
      (offset read_len : ℕ) (s : SourceState F T)
      → ReadsFile env content s
      → prepare_file_data_pdu env offset read_len s
        ≡ (returned tt, queued (chunk s offset read_len ∷ []) s)
  unfolding prepare_file_data_pdu run on_store add_packet_to_be_sent
  one_chunk offset read_len s r = ground (arith, r.at_hand, r.of_request, r.reads offset read_len)

  pub queued-nil : (s : SourceState F T) → queued [] s ≡ s
  queued-nil s = ap (λ q. record s { pdus_to_be_sent = q }) (append-nil s.pdus_to_be_sent)

  queued-cons :
      (pdu : Pdu) (pdus : List Pdu) (s : SourceState F T)
      → queued pdus (queued (pdu ∷ []) s) ≡ queued (pdu ∷ pdus) s
  queued-cons pdu pdus s =
      ap
        (λ q. record s {
          pdus_to_be_sent = q;
          states = record s.states {
            num_packets_ready = add_count (pdu ∷ pdus) s.states.num_packets_ready;
          };
        })
        (append_assoc s.pdus_to_be_sent (pdu ∷ []) pdus)

  -- The loop ends within as many rounds as bytes are missing.
  chunks-Tiles :
      (rounds limit offset missing : ℕ) (s : SourceState F T)
      → missing ≤ rounds
      → ReadsFile env content s
      → (pdus : List Pdu) × (resend_chunks env rounds (suc limit) offset missing s
          ≡ (returned tt, queued pdus s))
        × Tiles content (suc limit) offset (offset + missing) pdus
  unfolding resend_chunks skip
  chunks-Tiles rounds limit offset zero s m r = (
    [],
    ap (λ q. (returned tt, q)) (sym (queued-nil s)),
    subst (λ end. Tiles content (suc limit) offset end []) (omega arith) tiled,
  )
  chunks-Tiles zero limit offset (suc missing) s m r = ground arith
  chunks-Tiles (suc rounds) limit offset (suc missing) s m r =
      let k = min missing limit in
      let pdu = chunk s offset (suc k) in
      let (pdus, e, t) =
        chunks-Tiles rounds limit (offset + suc k) (suc missing - suc k) (queued (pdu ∷ []) s)
          (omega arith)
          (record {
            request = r.request;
            file = r.file;
            at_hand = r.at_hand;
            of_request = r.of_request;
            reads = r.reads;
          }) in
      (
        pdu ∷ pdus,
        ap
              (λ d.
                (prepare_file_data_pdu env offset d
                    >> resend_chunks env rounds (suc limit) (offset + d) (suc missing - d))
                  s)
              (omega arith)
            ∙ bind_step _ _ s (queued (pdu ∷ []) s) tt (one_chunk offset (suc k) s r)
            ∙ e
            ∙ ap (λ q. (returned tt, q)) (queued-cons pdu pdus s),
        tile pdu k refl (omega arith)
            (subst (λ end. Tiles content (suc limit) (offset + suc k) end pdus) (omega arith) t),
      )

  pub resend_segment-Tiles :
      (start end limit : ℕ) (s : SourceState F T)
      → ReadsFile env content s
      → s.params.fp.segment_len ≡ suc limit
      → start ≤ end
      → start ≤ s.params.fp.progress
      → (pdus : List Pdu) × (resend_segment env start end s ≡ (returned tt, queued pdus s))
        × Tiles content (suc limit) start end pdus
  unfolding resend_segment run
  resend_segment-Tiles start end limit s r l o p =
      let (pdus, e, t) = chunks-Tiles (end - start) limit start (end - start) s (omega arith) r in
      (
        pdus,
        ground (arith, e),
        subst (λ at. Tiles content (suc limit) start at pdus) (omega arith) t,
      )

  -- Where the filestore reads the source file and the segment length is zero, the loop never ends if
  -- at least one byte is requested: any number of rounds is used up, and each of them queues a packet
  -- without data.
  pub resend_chunks-endless :
      (rounds offset missing : ℕ) (s : SourceState F T)
      → ReadsFile env content s
      → resend_chunks env rounds 0 offset (suc missing) s
        ≡ (raised out_of_rounds, queued (replicate rounds (chunk s offset 0)) s)
  unfolding resend_chunks raise
  resend_chunks-endless zero offset missing s r =
      ap (λ q. (raised out_of_rounds, q)) (sym (queued-nil s))
  resend_chunks-endless (suc rounds) offset missing s r =
      let pdu = chunk s offset 0 in
      let no_progress : suc missing - 0 ≡ suc missing = omega arith in
      let same_offset : offset + 0 ≡ offset = omega arith in
      ap
        (λ d.
          (prepare_file_data_pdu env offset d
              >> resend_chunks env rounds 0 (offset + d) (suc missing - d))
            s)
        (omega arith)
      ∙ bind_step _ _ s (queued (pdu ∷ []) s) tt (one_chunk offset 0 s r)
      ∙ ap (λ left. resend_chunks env rounds 0 (offset + 0) left (queued (pdu ∷ []) s)) no_progress
      ∙ ap (λ at. resend_chunks env rounds 0 at (suc missing) (queued (pdu ∷ []) s)) same_offset
      ∙ resend_chunks-endless rounds offset missing (queued (pdu ∷ []) s) (record {
        request = r.request;
        file = r.file;
        at_hand = r.at_hand;
        of_request = r.of_request;
        reads = r.reads;
      })
      ∙ ap (λ q. (raised out_of_rounds, q)) (queued-cons pdu (replicate rounds pdu) s)

  next_read_len_lem :
      (size limit progress : ℕ)
      → progress < size
      → (progress ≡ 0) ⊎ (suc limit ≤ size)
      → next_read_len size (suc limit) progress ≡ suc (min limit (size - progress - 1))
  unfolding next_read_len
  next_read_len_lem size limit progress p h = ground arith

  -- One step of sending the file, where data is left.
  pub send_file_data_lem :
      (size limit : ℕ) (s : SourceState F T)
      → ReadsFile env content s
      → s.params.fp.metadata_only ≡ false
      → s.params.fp.file_size ≡ some size
      → s.params.fp.segment_len ≡ suc limit
      → s.params.fp.progress < size
      → (s.params.fp.progress ≡ 0) ⊎ (suc limit ≤ size)
      → let len = suc (min limit (size - s.params.fp.progress - 1)) in
        send_file_data env s ≡ (
          returned true,
          record (queued (chunk s s.params.fp.progress len ∷ []) s) {
            params = record s.params {
              fp = record s.params.fp { progress = s.params.fp.progress + len };
            };
          },
        )
  unfolding send_file_data prepare_progressing_file_data_pdu prepare_file_data_pdu run on_store
      add_packet_to_be_sent modify_params
  send_file_data_lem size limit s r m z l p h = ground (
    arith,
    r.at_hand,
    r.of_request,
    r.reads s.params.fp.progress (suc (min limit (size - s.params.fp.progress - 1))),
    next_read_len_lem size limit s.params.fp.progress p h,
  )
