-- ===== src/Copy.antt =====
-- A file from the source handler to the destination handler of src/cfdppy/handler/, in
-- unacknowledged mode over a link that keeps every packet and their order.
pub mod Whole
use cfdp_py.Base.{take-length, ℕ, suc, ◌≤◌, ◌≡◌, ◌∙◌, ap, some, List, [], length, arith, subst}
use cfdp_py.FilePath.{FilePath}
use cfdp_py.Protocol.{Pdu}
use cfdp_py.Proc.{returned, for_each}
use cfdp_py.User.{Env}
use cfdp_py.Filestore.{Tree, node, file}
use cfdp_py.Filestore.Check.{CrcCalculator}
use cfdp_py.Source.State.{SourceState, SourceEnv}
use cfdp_py.Source.Chunks.{Tiles}
use cfdp_py.Source.Transfer.{IsSending, transmit, transmit-Tiles}
use cfdp_py.Dest.State.{DestState}
use cfdp_py.Dest.Receive.{handle_fd_or_eof_pdu}
use cfdp_py.Dest.Reception.{IsReceiving, on_native, part_of, reception_lem}

module _ {F T C : Type 0} (sender : SourceEnv F T) (env : Env Tree T) (crc : CrcCalculator C)
    (directory_size : ℕ) (full : List ℕ) (limit : ℕ) where
  -- A busy source handler is at the start of the file data phase with no packet ready or left to
  -- take, its filestore reads the file, the size of which it knows, and its segment length is at least
  -- one; a destination handler receives without acknowledgements into an empty file of the native
  -- filestore. Then a user who alternates state_machine and get_next_packet of the first, for at least
  -- as many rounds as the file has bytes, and lets the second handle these packets in order, copies
  -- the file byte for byte. No call on either side raises, and the progress of the receiver is the
  -- size of the file.
  pub transmit-reception :
      (rounds : ℕ) (s : SourceState F T) (target : FilePath) (d : DestState Tree T)
      → IsSending sender (part_of full) (length full) limit s
      → s.params.fp.progress ≡ 0
      → length full ≤ rounds
      → IsReceiving (on_native env crc directory_size) target d
      → node target d.store ≡ some (file [])
      → d.params.fp.progress ≡ 0
      → (pdus : List Pdu) × ((transmit sender rounds s).0 ≡ returned pdus)
        × (let result =
              for_each pdus
                (λ pdu. handle_fd_or_eof_pdu (on_native env crc directory_size) pdu.body)
                d in
            (result.0 ≡ returned tt)
            × (node target result.1.store ≡ some (file full))
            × (result.1.params.fp.progress ≡ length full))
  transmit-reception rounds s target d i p b receiving empty start =
      let (pdus, sent, tiles) =
        transmit-Tiles sender (part_of full) (length full) limit rounds s i (omega (arith, p, b)) in
      let (r, n, q) =
        reception_lem env crc directory_size full (suc limit) target d
          (subst (λ from. Tiles (part_of full) (suc limit) from (length full) pdus) p tiles)
          (omega arith) receiving empty start in
      (pdus, ap (λ x. x.0) sent, (r, n ∙ ap (λ bytes. some (file bytes)) (take-length full), q))
