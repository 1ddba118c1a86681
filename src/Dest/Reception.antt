-- ===== src/Dest/Reception.antt =====
-- File data that arrives in order at the destination handler, in unacknowledged mode.
use cfdp_py.Base.{
  refl, take, drop, length-take, length-drop, subst, ◌++◌, ◌≤◌, suc, ℕ, ◌+◌, max, ◌≡◌, inl, inr,
  Bool-cases, none, List, arith, length, some, sym, ap, ◌∙◌, ◌∷◌,
}
use cfdp_py.FilePath.{FilePath}
use cfdp_py.Protocol.{Pdu, file_data, unacknowledged}
use cfdp_py.Proc.{returned, run, for_each, skip}
use cfdp_py.Proc.Steps.{bind_step}
use cfdp_py.User.{Env}
use cfdp_py.Filestore.{write_data, Tree, node, file, put}
use cfdp_py.Filestore.Files.{put-node, write_data-append}
use cfdp_py.Filestore.Check.{CrcCalculator, take-take}
use cfdp_py.Filestore.Native.{native_filestore}
use cfdp_py.Source.Chunks.{Tiles, tiled, tile}
use cfdp_py.Dest.State.{DestState, CfdpState, modify_params, indicate, on_store}
use cfdp_py.Dest.Receive.{
  handle_fd_pdu, write_file_data, fault_stops, on_write_error, handle_fd_or_eof_pdu,
}

module _ {F T : Type 0} (env : Env F T) where
  -- The handler receives a file whose size no EOF packet has told yet, without acknowledgements.
  pub record IsReceiving (name : FilePath) (s : DestState F T) : Type 0 where
    pub is_busy : s.states.state ≡ CfdpState.busy
    pub unacked : s.params.pdu_conf.trans_mode ≡ unacknowledged
    pub no_eof : s.params.fp.file_size_eof ≡ none
    pub into : s.params.fp.file_name ≡ name

  fd_step :
      (name : FilePath) (offset : ℕ) (data_bytes : List ℕ) (store : F) (s : DestState F T)
      → IsReceiving name s
      → env.vfs.write_data name data_bytes offset s.store ≡ (returned tt, store)
      → let result = handle_fd_pdu env offset data_bytes none s in
        (result.0 ≡ returned tt)
        × (result.1.store ≡ store)
        × (result.1.params.fp.progress ≡ max (offset + length data_bytes) s.params.fp.progress)
        × (result.1.params.fp.file_name ≡ name)
        × (result.1.params.fp.file_size_eof ≡ none)
        × (result.1.params.pdu_conf.trans_mode ≡ unacknowledged)
        × (result.1.states.state ≡ CfdpState.busy)
  unfolding handle_fd_pdu write_file_data on_write_error fault_stops run modify_params indicate
      on_store
  fd_step name offset data_bytes store s i w =
      elim (Bool-cases env.cfg.indication_cfg.file_segment_recvd_indication_required) [
        | inl e ↦ ground arith
        | inr e ↦ ground arith
      ]

  fd_step-IsReceiving :
      (name : FilePath) (offset : ℕ) (data_bytes : List ℕ) (store : F) (s : DestState F T)
      → IsReceiving name s
      → env.vfs.write_data name data_bytes offset s.store ≡ (returned tt, store)
      → IsReceiving name (handle_fd_pdu env offset data_bytes none s).1
  fd_step-IsReceiving name offset data_bytes store s i w =
      let (r, t, p, n, z, m, b) = fd_step name offset data_bytes store s i w in
      record { is_busy = b; unacked = m; no_eof = z; into = n }

-- The handler's surroundings with the native filestore.
module _ {T C : Type 0} (env : Env Tree T) (crc : CrcCalculator C) (directory_size : ℕ) where
  abbrev pub on_native : Env Tree T
  on_native = record env { vfs = native_filestore crc directory_size }

-- The bytes of a file that a read returns.
abbrev pub part_of : List ℕ → (offset read_len : ℕ) → List ℕ
part_of full offset read_len = take read_len (drop offset full)

module _ {T C : Type 0} (env : Env Tree T) (crc : CrcCalculator C) (directory_size : ℕ)
    (full : List ℕ) (limit : ℕ) where
  pub Tiles-ordered :
      {start end : ℕ} {pdus : List Pdu} → Tiles (part_of full) limit start end pdus → start ≤ end
  Tiles-ordered tiled = omega arith
  Tiles-ordered (tile pdu len body short rest) = omega (arith, Tiles-ordered rest)

  pub appends :
      (name : FilePath) (start k : ℕ) (s : DestState Tree T)
      → node name s.store ≡ some (file (take start full))
      → start + k ≤ length full
      → (on_native env crc directory_size).vfs.write_data name (part_of full start k) start s.store
        ≡ (returned tt, put name (file (take start full ++ part_of full start k)) s.store)
  unfolding native_filestore
  appends name start k s e fits =
      let at_end : start ≡ length (take start full) = omega (arith, length-take start full, fits) in
      ap (λ offset. write_data name (part_of full start k) (some offset) s.store) at_end
      ∙ write_data-append name (take start full) (part_of full start k) s.store e

  first_packet :
      (pdu : Pdu) (pdus : List Pdu) (start : ℕ) (w : List ℕ) (s : DestState Tree T)
      → pdu.body ≡ file_data start w none
      → (handle_fd_pdu (on_native env crc directory_size) start w none s).0 ≡ returned tt
      → for_each
          (pdu ∷ pdus)
          (λ pdu. handle_fd_or_eof_pdu (on_native env crc directory_size) pdu.body)
          s
        ≡ for_each pdus
            (λ pdu. handle_fd_or_eof_pdu (on_native env crc directory_size) pdu.body)
            (handle_fd_pdu (on_native env crc directory_size) start w none s).1
  unfolding for_each handle_fd_or_eof_pdu
  first_packet pdu pdus start w s body r =
      bind_step (handle_fd_or_eof_pdu (on_native env crc directory_size) pdu.body)
        (λ _.
          for_each pdus (λ pdu. handle_fd_or_eof_pdu (on_native env crc directory_size) pdu.body))
        s (handle_fd_pdu (on_native env crc directory_size) start w none s).1 tt
        (ap (λ b. handle_fd_or_eof_pdu (on_native env crc directory_size) b s) body
          ∙ ap (λ x. (x, (handle_fd_pdu (on_native env crc directory_size) start w none s).1)) r)

  -- Packets that hold a file from the progress of a receiving handler on, as a sending handler makes
  -- them, taken in order, append to the file of the receiving handler: on the native filestore the
  -- file holds the bytes up to the end of the packets, no call raises, and the progress is that end.
  pub reception_lem :
      (name : FilePath) (s : DestState Tree T) {start end : ℕ} {pdus : List Pdu}
      → Tiles (part_of full) limit start end pdus
      → end ≤ length full
      → IsReceiving (on_native env crc directory_size) name s
      → node name s.store ≡ some (file (take start full))
      → s.params.fp.progress ≡ start
      → let result =
          for_each pdus
            (λ pdu. handle_fd_or_eof_pdu (on_native env crc directory_size) pdu.body)
            s in
        (result.0 ≡ returned tt)
        × (node name result.1.store ≡ some (file (take end full)))
        × (result.1.params.fp.progress ≡ end)
  reception_lem name s tiled b i e p = unfold for_each skip in (refl, e, p)
  reception_lem name s (tile {start} {end} {pdus} pdu len body short rest) b i e p =
      let k = suc len in
      let w = part_of full start k in
      let fits : start + k ≤ length full = omega (arith, Tiles-ordered rest, b) in
      let written = appends name start k s e fits in
      let (r1, t1, p1, _, _, _, _) =
        fd_step (on_native env crc directory_size) name start w _ s i written in
      let s1 = (handle_fd_pdu (on_native env crc directory_size) start w none s).1 in
      subst
        (λ r.
          (r.0 ≡ returned tt)
          × (node name r.1.store ≡ some (file (take end full)))
          × (r.1.params.fp.progress ≡ end))
        (sym (first_packet pdu pdus start w s body r1))
        (reception_lem name s1 rest b
          (fd_step-IsReceiving (on_native env crc directory_size) name start w _ s i written)
          (ap (node name) t1
            ∙ put-node name (take start full) (take start full ++ w) s.store e
            ∙ ap (λ bytes. some (file bytes)) (take-take start k full))
          (p1 ∙ omega (arith, p, fits, length-take k (drop start full), length-drop start full)))
