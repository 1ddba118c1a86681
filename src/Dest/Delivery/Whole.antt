-- ===== src/Dest/Delivery/Whole.antt =====
-- A whole file through the state machine of src/cfdppy/handler/dest.py on the native filestore.
use cfdp_py.Filestore.Create.{
  made_there, emptied_or_made, looked_up_there, no_directory_there, was_there, CanHold,
}
use cfdp_py.Filestore.Native.{native_filestore}
use cfdp_py.Dest.Machine.{state_machine}
use cfdp_py.Dest.State.{CfdpState, DestState}
use cfdp_py.Proc.{skip, run, ◌>>◌, returned, for_each, Proc}
use cfdp_py.FilePath.{of_text, Text, FilePath}
use cfdp_py.Crc.{calc_modular_checksum}
use cfdp_py.Filestore.{create_file, open_existing, truncate_file, put, file, node, Tree}
use cfdp_py.User.{transaction_finished_indication, Indication, Env}
use cfdp_py.Protocol.{
  UnsignedByteField, crc_32c, FileStatus, crc_32, file_retained, data_complete, no_error, eof,
  unacknowledged, metadata, Tlv, MetadataParams, null_checksum, modular, Pdu, TransactionId,
  other_checksum, ChecksumType,
}
use cfdp_py.Base.{
  inr, take-length, none, if◌then◌else◌, Option, refl, length-drop, drop, length-take, ap, ◌∙◌,
  arith, ◌+◌, ◌++◌, take, ◌≡◌, length, some, suc, ◌≤◌, All, ℕ, Bool, List, true, false, [], ◌∷◌,
}
use cfdp_py.Proc.Steps.{for_step}
use cfdp_py.Dest.Delivery.{IsAccepted, IsReady}
use cfdp_py.Dest.Delivery.Begin.{metadata_call, after_metadata-IsReady}
use cfdp_py.Dest.Delivery.Metadata.{with_names, transaction_of, IsFree, IsTarget, after_metadata}
use cfdp_py.Dest.Delivery.Data.{data_call, after_data, after_data-IsReady}
use cfdp_py.Dest.Delivery.End.{eof_call, after_eof, after_completion}
use cfdp_py.Dest.Reception.{on_native, part_of, appends, Tiles-ordered}
use cfdp_py.Source.Chunks.{Tiles, tiled, tile}
use cfdp_py.Filestore.Files.{put-node}
use cfdp_py.Filestore.Check.{
  modular_checksum, checksum_of_file, checksum_if_there, calculate_checksum, CrcCalculator,
  take-take, calculate_checksum-crc, IsIncremental,
}

-- The checksum of a file of the native filestore.
abbrev pub checksum_of : {C : Type 0} → CrcCalculator C → ChecksumType → List ℕ → List ℕ
checksum_of crc modular bytes = calc_modular_checksum bytes
checksum_of crc null_checksum bytes = crc.null_checksum_u32
checksum_of crc kind bytes = crc.digest (crc.update (crc.start kind) bytes)

abbrev pub is_supported : ChecksumType → Bool
is_supported (other_checksum n) = false
is_supported _ = true

-- The native filestore calculates it.
pub native_checksum :
    {C : Type 0} (crc : CrcCalculator C) (kind : ChecksumType) (name : FilePath) (bytes : List ℕ)
    (tree : Tree) (limit : ℕ)
    → IsIncremental crc
    → is_supported kind ≡ true
    → node name tree ≡ some (file bytes)
    → calculate_checksum crc kind name (length bytes) (suc limit) tree
      ≡ (returned (checksum_of crc kind bytes), tree)
native_checksum crc kind name bytes tree limit i supported e = of_kind kind supported
  where
    of_kind :
        (kind : ChecksumType)
        → is_supported kind ≡ true
        → calculate_checksum crc kind name (length bytes) (suc limit) tree
          ≡ (returned (checksum_of crc kind bytes), tree)
    of_kind modular k =
        unfold calculate_checksum checksum_if_there checksum_of_file modular_checksum open_existing
          run in
        ground (arith, e)
    of_kind null_checksum k = unfold calculate_checksum run in refl
    of_kind crc_32 k =
        calculate_checksum-crc crc crc_32 name (length bytes) limit bytes tree i refl e
        ∙ ap (λ b. (returned (crc.digest (crc.update (crc.start crc_32) b)), tree))
            (take-length bytes)
    of_kind crc_32c k =
        calculate_checksum-crc crc crc_32c name (length bytes) limit bytes tree i refl e
        ∙ ap (λ b. (returned (crc.digest (crc.update (crc.start crc_32c) b)), tree))
            (take-length bytes)
    of_kind (other_checksum n) k = cc

module _ {T C : Type 0} (env : Env Tree T) (crc : CrcCalculator C) (directory_size : ℕ)
    (full : List ℕ) (limit depth : ℕ) where
  abbrev here : Env Tree T
  here = on_native env crc directory_size

  abbrev receive : Pdu → Proc (DestState Tree T) (Unit {0})
  receive pdu = state_machine here (suc depth) (some pdu)

  data_calls :
      (id : TransactionId) (kind : ChecksumType) (name : FilePath) (rest : List Pdu)
      (s : DestState Tree T) {start end : ℕ} {pdus : List Pdu}
      → Tiles (part_of full) limit start end pdus
      → All (IsAccepted here) pdus
      → end ≤ length full
      → IsReady id kind name s
      → node name s.store ≡ some (file (take start full))
      → s.params.fp.progress ≡ start
      → (t : DestState Tree T) × (for_each (pdus ++ rest) receive s ≡ for_each rest receive t)
        × IsReady id kind name t
        × (node name t.store ≡ some (file (take end full)))
        × (t.params.fp.progress ≡ end)
  data_calls id kind name rest s tiled a b i e p = (s, refl, i, e, p)
  data_calls id kind name rest s (tile {start} {end} {pdus} pdu len body short more) a b i e p =
      let k = suc len in
      let w = part_of full start k in
      let fits : start + k ≤ length full =
        omega (arith, Tiles-ordered env crc directory_size full limit more, b) in
      let store = put name (file (take start full ++ w)) s.store in
      let written = appends env crc directory_size full limit name start k s e fits in
      let t = after_data here store start w s in
      let (u, q, i', e', p') =
        data_calls id kind name rest t more a.1 b
          (after_data-IsReady here id kind name start w store s i)
          (put-node name (take start full) (take start full ++ w) s.store e
            ∙ ap (λ bytes. some (file bytes)) (take-take start k full))
          (omega (arith, p, fits, length-take k (drop start full), length-drop start full)) in
      (
        u,
        for_step pdu (pdus ++ rest) receive s t
              (data_call here id kind name depth pdu start w store s a.0 body i written)
            ∙ q,
        i',
        e',
        p',
      )

  CanHold-IsTarget :
      (name : FilePath) (tree : Tree)
      → CanHold name tree
      → IsTarget here name tree (put name (file []) tree)
  unfolding native_filestore
  CanHold-IsTarget name tree h = record {
    no_directory = no_directory_there name tree h;
    exists = was_there name tree h;
    looked_up = looked_up_there name tree h;
    prepared = prepared_by h (emptied_or_made name tree h);
  }
    where
      prepared_by :
          (h : CanHold name tree)
          → (if was_there name tree h then truncate_file name else (do create_file name; skip)) tree
            ≡ (returned tt, put name (file []) tree)
          → (if was_there name tree h then truncate_file name else (do create_file name; skip)) tree
            ≡ (returned tt, put name (file []) tree)
      prepared_by h e = e

  -- A free destination handler on the native filestore that is given, one packet to each call of
  -- state_machine, the metadata packet of a transfer without acknowledgements and without closure,
  -- file data packets that hold a file one after another, and the EOF packet with the size and the
  -- checksum of that file, all of them for this entity and from a known one, ends with exactly this
  -- file in the store, whether a file was there before or not. No call raises, the handler is idle
  -- again, and the last thing the user is told is that the transaction finished without an error, with
  -- complete data and a retained file.
  pub transfer_delivers :
      (pdu last : Pdu) (m : MetadataParams) (options : Option (List Tlv)) (source dest : Text)
      (s : DestState Tree T) {pdus : List Pdu}
      → IsIncremental crc
      → is_supported m.checksum_type ≡ true
      → env.cfg.indication_cfg.transaction_finished_indication_required ≡ true
      → IsAccepted here pdu × All (IsAccepted here) pdus × IsAccepted here last
      → pdu.body ≡ metadata (with_names m source dest) options
      → pdu.pdu_conf.trans_mode ≡ unacknowledged
      → m.closure_requested ≡ false
      → Tiles (part_of full) limit 0 (length full) pdus
      → last.body ≡ eof (checksum_of crc m.checksum_type full) (length full) no_error
      → IsFree s
      → CanHold (of_text dest) s.store
      → let result = for_each (pdu ∷ (pdus ++ last ∷ [])) receive s in
        (result.0 ≡ returned tt)
        × (node (of_text dest) result.1.store ≡ some (file full))
        × (result.1.states.state ≡ CfdpState.idle)
        × ((before : List Indication) × (result.1.indications
              ≡ before
                ++ transaction_finished_indication (record {
                  transaction_id = some (transaction_of pdu.pdu_conf);
                  finished_params = record {
                    delivery_code = data_complete;
                    file_status = file_retained;
                    condition_code = no_error;
                    fault_location = none;
                  };
                })
                  ∷ []))
  transfer_delivers pdu last m options source dest s {pdus} inc sup told acc b unacked no_closure
        tiles e free hold =
      let name = of_text dest in
      let conf = pdu.pdu_conf in
      let made = put name (file []) s.store in
      let t = after_metadata here conf m options source dest made s in
      let first =
        metadata_call here depth pdu m options source dest made s acc.0 b free
          (CanHold-IsTarget name s.store hold) in
      let (u, data_step, i, n, p) =
        data_calls (transaction_of conf) m.checksum_type name (last ∷ []) t tiles acc.1
          (omega arith)
          (after_metadata-IsReady here conf m options source dest made s unacked no_closure free)
          (made_there name s.store hold) refl in
      let arrived : node name u.store ≡ some (file full) =
        n ∙ ap (λ bytes. some (file bytes)) (take-length full) in
      let sum = checksum_of crc m.checksum_type full in
      let done = after_completion here (after_eof here (transaction_of conf) sum (length full) u) in
      let end_step =
        eof_call here (transaction_of conf) m.checksum_type name depth last sum (length full) u
          acc.2 e i p
          (inr (
            unfold native_filestore in
            (ap (λ n. calculate_checksum crc m.checksum_type name n 4096 u.store) p
              ∙ native_checksum crc m.checksum_type name full u.store 4095 inc sup arrived))) in
      let all_steps : for_each (pdu ∷ (pdus ++ last ∷ [])) receive s ≡ (returned tt, done) =
        for_step pdu (pdus ++ last ∷ []) receive s t first
        ∙ data_step
        ∙ for_step last [] receive u done end_step
        ∙ (unfold for_each skip in refl) in
      let before = (after_eof here (transaction_of conf) sum (length full) u).indications in
      let end_of =
        λ (id : Option TransactionId) (status : FileStatus) (location : Option UnsignedByteField).
          transaction_finished_indication (record {
            transaction_id = id;
            finished_params = record {
              delivery_code = data_complete;
              file_status = status;
              condition_code = no_error;
              fault_location = location;
            };
          }) in
      let id = u.params.transaction_id in
      let status = u.params.finished_params.file_status in
      let location = u.params.finished_params.fault_location in
      (
        ap (λ r. r.0) all_steps,
        ap (λ r. node name r.1.store) all_steps ∙ arrived,
        ap (λ r. r.1.states.state) all_steps,
        (
          before,
          ap (λ r. r.1.indications) all_steps
              ∙ ap (λ b. if b then before ++ end_of id status location ∷ [] else before) told
              ∙ ap (λ x. before ++ end_of x status location ∷ []) i.of_transaction
              ∙ ap (λ x. before ++ end_of (some (transaction_of conf)) x location ∷ []) i.retained
              ∙ ap (λ x. before ++ end_of (some (transaction_of conf)) file_retained x ∷ [])
                  i.no_location,
        ),
      )
