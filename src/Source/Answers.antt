-- ===== src/Source/Answers.antt =====
-- The answer of src/cfdppy/handler/source.py to the segment requests of a NAK packet.
pub mod Calls
use cfdp_py.Dest.State.{CfdpState}
use cfdp_py.Proc.Steps.{for_step, bind_step}
use cfdp_py.Source.Send.{handle_segment_req}
use cfdp_py.Proc.{skip, for_each, returned, run}
use cfdp_py.FilePath.{as_posix, FilePath}
use cfdp_py.Mib.{RemoteEntityCfg}
use cfdp_py.Source.Packets.{
  metadata_options, prepare_metadata_base_params_with_metadata, prepare_metadata_pdu,
}
use cfdp_py.Protocol.{directive_type, towards_sender, acknowledged, nak, metadata, Pdu}
use cfdp_py.Request.{PutRequest}
use cfdp_py.Base.{
  true, ◌<◌, zero, suc, sym, All, suc, ◌∙◌, false, ◌&&◌, arith, append_assoc, refl, ap, ◌==◌, ◌∷◌,
  ◌++◌, some, ◌≤◌, ◌≡◌, [], List, ℕ,
}
use cfdp_py.Base.Int.{increment, ℤ}
use cfdp_py.Request
use cfdp_py.Source.State.{
  same_step, TransactionStep, sending_metadata, waiting_for_finished, waiting_for_eof_ack,
  sending_file_data, SourceState, SourceEnv, add_packet_to_be_sent, modify_params, set_step,
  retransmitting,
}
use cfdp_py.Source.Machine
use cfdp_py.Source.State
use cfdp_py.Source.Machine.{
  state_machine, fsm_non_idle, fsm_advancement_after_packets_were_sent, handle_file_data_sent,
  begin_transaction, run_steps, later_steps, file_data_step, check_inserted_packet, get_next_packet,
  resume_before_retransmission,
}
use cfdp_py.Source.Send.{
  handle_segment_req, handle_retransmission, retransmit, handle_retransmission_if_acked,
  sending_file_data_fsm, handle_waiting_for_ack, handle_wait_for_finish,
}
use cfdp_py.Source.Chunks.{Tiles, ReadsFile, queued, queued-nil, add_count, resend_segment-Tiles}

-- The packets answer the requests one after another: the metadata where a request is (0, 0), and
-- the bytes of the file from the start to the end of any other.
pub data Answers (content : (offset read_len : ℕ) → List ℕ) (limit : ℕ) (first : Pdu)
    : List (ℕ × ℕ) → List Pdu → Type 0 where
  answered : Answers content limit first [] []
  answer_metadata :
      {requests : List (ℕ × ℕ)} {pdus : List Pdu}
      → Answers content limit first requests pdus
      → Answers content limit first ((0, 0) ∷ requests) (first ∷ pdus)
  answer_data :
      {start end : ℕ} {tiles : List Pdu} {requests : List (ℕ × ℕ)} {pdus : List Pdu}
      → (start == 0 && end == 0) ≡ false
      → Tiles content limit start end tiles
      → Answers content limit first requests pdus
      → Answers content limit first ((start, end) ∷ requests) (tiles ++ pdus)

-- The request begins in the data that was sent, and does not end before it begins.
abbrev pub IsServable : ℕ → ℕ × ℕ → Type 0
IsServable progress (start, end) = (start ≤ end) × (start ≤ progress)

-- The handler has the file of a request, its size and the configuration of the receiver at hand.
pub record HasMetadata {F T : Type 0} (s : SourceState F T) : Type 0 where
  pub request : PutRequest
  pub cfg : RemoteEntityCfg
  pub source : FilePath
  pub dest : FilePath
  pub size : ℕ
  pub at_hand : s.put_req ≡ some request
  pub of_file : request.source_file ≡ some source
  pub into_file : request.dest_file ≡ some dest
  pub to_entity : s.params.remote_cfg ≡ some cfg
  pub size_known : s.params.fp.file_size ≡ some size

add_count-append :
    (xs ys : List Pdu) (n : ℤ) → add_count ys (add_count xs n) ≡ add_count (xs ++ ys) n
add_count-append [] ys n = refl
add_count-append (x ∷ xs) ys n = add_count-append xs ys (increment n)

module _ {F T : Type 0} where
  -- The metadata packet of the transaction.
  abbrev pub metadata_again : (s : SourceState F T) → HasMetadata s → Pdu
  metadata_again s m = record {
    pdu_conf = s.params.pdu_conf;
    body =
        metadata
          (record {
            closure_requested = s.params.closure_requested;
            checksum_type = m.cfg.crc_type;
            file_size = m.size;
            source_file_name = some (as_posix m.source);
            dest_file_name = some (as_posix m.dest);
          })
          (some (metadata_options m.request));
  }

  metadata_queued :
      (s : SourceState F T)
      → (m : HasMetadata s)
      → prepare_metadata_pdu s ≡ (returned tt, queued (metadata_again s m ∷ []) s)
  unfolding prepare_metadata_pdu prepare_metadata_base_params_with_metadata Request.metadata_only
      run add_packet_to_be_sent
  metadata_queued s m = ground (arith, m.at_hand, m.of_file, m.into_file, m.to_entity, m.size_known)

  queued-append :
      (xs ys : List Pdu) (s : SourceState F T) → queued ys (queued xs s) ≡ queued (xs ++ ys) s
  queued-append xs ys s =
      ap (λ q. record (queued ys (queued xs s)) { pdus_to_be_sent = q })
        (append_assoc s.pdus_to_be_sent xs ys)
      ∙ ap
          (λ n. record s {
            pdus_to_be_sent = s.pdus_to_be_sent ++ (xs ++ ys);
            states = record s.states { num_packets_ready = n };
          })
          (add_count-append xs ys s.states.num_packets_ready)

module _ {F T : Type 0} (env : SourceEnv F T) (content : (offset read_len : ℕ) → List ℕ)
    (limit : ℕ) where
  one_request :
      (start end : ℕ) (requests : List (ℕ × ℕ)) (s : SourceState F T) (m : HasMetadata s)
      → ReadsFile env content s
      → s.params.fp.segment_len ≡ suc limit
      → IsServable s.params.fp.progress (start, end)
      → (pdus : List Pdu) × (handle_segment_req env (start, end) s ≡ (returned tt, queued pdus s))
        × ((rest : List Pdu)
            → Answers content (suc limit) (metadata_again s m) requests rest
            → Answers content
                (suc limit)
                (metadata_again s m)
                ((start, end) ∷ requests)
                (pdus ++ rest))
  unfolding handle_segment_req
  one_request zero zero requests s m r l v =
      (metadata_again s m ∷ [], metadata_queued s m, λ rest a. answer_metadata a)
  one_request zero (suc end) requests s m r l v =
      let (pdus, e, t) = resend_segment-Tiles env content zero (suc end) limit s r l v.0 v.1 in
      (pdus, ground (arith, e), λ rest a. answer_data (ground arith) t a)
  one_request (suc start) end requests s m r l v =
      let (pdus, e, t) = resend_segment-Tiles env content (suc start) end limit s r l v.0 v.1 in
      (pdus, ground (arith, e), λ rest a. answer_data (ground arith) t a)

  pub requests-Answers :
      (requests : List (ℕ × ℕ)) (s : SourceState F T) (m : HasMetadata s)
      → ReadsFile env content s
      → s.params.fp.segment_len ≡ suc limit
      → All (IsServable s.params.fp.progress) requests
      → (pdus : List Pdu) × (for_each requests (handle_segment_req env) s
          ≡ (returned tt, queued pdus s))
        × Answers content (suc limit) (metadata_again s m) requests pdus
  unfolding for_each skip
  requests-Answers [] s m r l v =
      ([], ap (λ q. (returned tt, q)) (sym (queued-nil env content s)), answered)
  requests-Answers ((start, end) ∷ requests) s m r l (v, vs) =
      let (pdus, e, add) = one_request start end requests s m r l v in
      let t = queued pdus s in
      let (rest, f, a) =
        requests-Answers requests t
          (record {
            request = m.request;
            cfg = m.cfg;
            source = m.source;
            dest = m.dest;
            size = m.size;
            at_hand = m.at_hand;
            of_file = m.of_file;
            into_file = m.into_file;
            to_entity = m.to_entity;
            size_known = m.size_known;
          })
          (record {
            request = r.request;
            file = r.file;
            at_hand = r.at_hand;
            of_request = r.of_request;
            reads = r.reads;
          })
          l vs in
      (
        pdus ++ rest,
        for_step (start, end) requests (handle_segment_req env) s t e
            ∙ f
            ∙ ap (λ q. (returned tt, q)) (queued-append pdus rest s),
        add rest a,
      )
