-- ===== src/Copy/Whole.antt =====
-- A put request from the user of the source handler to the user of the destination handler of
-- src/cfdppy/handler/, both on native filestores, in unacknowledged mode over a link that keeps every
-- packet and their order.
use cfdp_py.Source.Packets.{metadata_options}
use cfdp_py.Filestore.Create.{CanHold}
use cfdp_py.Dest.Delivery.{IsAccepted}
use cfdp_py.Protocol.{no_error, file_retained, data_complete, Pdu}
use cfdp_py.Proc.{for_each, returned, run}
use cfdp_py.Filestore.Native.{native_filestore}
use cfdp_py.Source.Begin.{is_valid_width}
use cfdp_py.FilePath.{as_posix, of_text, is_some, FilePath}
use cfdp_py.Mib.{get_cfg, RemoteEntityCfg}
use cfdp_py.Request.{PutRequest}
use cfdp_py.Base.{
  refl, none, ◌++◌, ◌≤◌, suc, ◌∙◌, [], ◌∷◌, ap, All, arith, false, ◌==◌, true, some, ◌≡◌, length,
  List, ℕ,
}
use cfdp_py.Filestore.Check.{IsIncremental, CrcCalculator}
use cfdp_py.User.{transaction_finished_indication, Indication, Env}
use cfdp_py.Filestore.{open_existing, read_data, file, node, Tree}
use cfdp_py.Dest.Delivery.Whole.{checksum_of, is_supported, native_checksum, transfer_delivers}
use cfdp_py.Dest.Delivery.Metadata.{transaction_of, IsFree}
use cfdp_py.Dest.State.{CfdpState, DestState}
use cfdp_py.Dest.Reception.{part_of}
use cfdp_py.Dest.Reception
use cfdp_py.Filestore
use cfdp_py.Dest.Machine.{state_machine}
use cfdp_py.Source.OnNative.{on_native}
use cfdp_py.Source.State.{SourceState, SourceEnv}
use cfdp_py.Source.Sending.{CanSend, IsFresh, metadata_of, metadata_params, conf_of, segment_len}
use cfdp_py.Source.Sending.Whole.{put_file-Tiles, Reads, IsUnacked, last_of}
use cfdp_py.Source.Sending.Rounds.{put_file, HasConf}

module _ {T U C : Type 0} (sender : SourceEnv Tree T) (receiver : Env Tree U)
    (crc : CrcCalculator C) (sender_directory receiver_directory : ℕ) (full : List ℕ)
    (limit depth : ℕ) (r : PutRequest) (cfg : RemoteEntityCfg) (source dest : FilePath) where
  abbrev from : SourceEnv Tree T
  from = on_native sender crc sender_directory

  abbrev to : Env Tree U
  to = Reception.on_native receiver crc receiver_directory

  native-CanSend :
      (tree : Tree)
      → r.source_file ≡ some source
      → r.dest_file ≡ some dest
      → get_cfg r.destination_id sender.remote_cfg_table ≡ some cfg
      → is_valid_width sender sender.max_bit_width ≡ true
      → (length full == 0) ≡ false
      → node source tree ≡ some (file full)
      → CanSend from r cfg source dest (length full) tree
  native-CanSend tree f t k w e n = record {
    of_file = f;
    into_file = t;
    known = k;
    exists = unfold native_filestore Filestore.file_exists run in ground (arith, n);
    sized = unfold native_filestore Filestore.file_size run in ground (arith, n);
    not_empty = e;
    valid_width = w;
  }

  native-Reads :
      (tree : Tree)
      → IsIncremental crc
      → is_supported cfg.crc_type ≡ true
      → node source tree ≡ some (file full)
      → Reads from
          (part_of full)
          (length full)
          limit
          r
          cfg
          source
          dest
          (checksum_of crc cfg.crc_type full)
          tree
  native-Reads tree i k n = record {
    reads =
        λ offset read_len. unfold native_filestore read_data open_existing run in ground (arith, n);
    sum_of =
        unfold native_filestore in native_checksum crc cfg.crc_type source full tree limit i k n;
  }

  same_conf-IsAccepted :
      (first pdu : Pdu) → pdu.pdu_conf ≡ first.pdu_conf → IsAccepted to first → IsAccepted to pdu
  same_conf-IsAccepted first pdu e a = record {
    direction = ap (λ c. c.direction) e ∙ a.direction;
    destination =
        ap (λ c. c.dest_entity_id.value == receiver.cfg.local_entity_id.value) e ∙ a.destination;
    source = ap (λ c. is_some (get_cfg c.source_entity_id receiver.remote_cfg_table)) e ∙ a.source;
  }

  All-IsAccepted :
      (first : Pdu) (pdus : List Pdu)
      → All (HasConf first.pdu_conf) pdus
      → IsAccepted to first
      → All (IsAccepted to) pdus
  All-IsAccepted first [] h a = tt
  All-IsAccepted first (pdu ∷ pdus) (e, h) a =
      (same_conf-IsAccepted first pdu e a, All-IsAccepted first pdus h a)

  -- A put request in unacknowledged mode and without closure copies the file. The handler of the
  -- sender is idle and without a file, that of the receiver is free, both users are to be told of the
  -- end of a transaction, the file of the request is not empty, the entities know each other, the
  -- sequence numbers have a width that the sender takes, a segment has room for a byte, the checksum
  -- type is supported, the CRC calculator does not care how its input is cut, and the target can be
  -- made or overwritten. The user of the sender makes the request and calls state_machine and
  -- get_next_packet until the handler is idle, for which two rounds more than the file has bytes are
  -- enough; the user of the receiver passes the packets to its state_machine in their order. Then no
  -- call raises, both handlers are idle, the store of the sender is unchanged, the target holds
  -- exactly the bytes of the file, and the user of the receiver is told last that the transaction
  -- finished without an error, with complete data and a retained file.
  pub put_file-state_machine :
      (rounds : ℕ) (s : SourceState Tree T) (d : DestState Tree U)
      → IsIncremental crc
      → is_supported cfg.crc_type ≡ true
      → r.source_file ≡ some source
      → r.dest_file ≡ some dest
      → get_cfg r.destination_id sender.remote_cfg_table ≡ some cfg
      → is_valid_width sender sender.max_bit_width ≡ true
      → IsUnacked r cfg
      → sender.cfg.indication_cfg.transaction_finished_indication_required ≡ true
      → receiver.cfg.indication_cfg.transaction_finished_indication_required ≡ true
      → (length full == 0) ≡ false
      → node source s.store ≡ some (file full)
      → IsFresh s
      → segment_len from r cfg (length full) s ≡ suc limit
      → IsAccepted to (metadata_of from r cfg source dest (length full) s)
      → IsFree d
      → CanHold (of_text (as_posix dest)) d.store
      → suc (suc (length full)) ≤ rounds
      → let sent = put_file from r rounds s in
        (pdus : List Pdu) × (sent.0 ≡ returned pdus)
        × (sent.1.states.state ≡ CfdpState.idle)
        × (sent.1.store ≡ s.store)
        × (let result = for_each pdus (λ pdu. state_machine to (suc depth) (some pdu)) d in
            (result.0 ≡ returned tt)
            × (node (of_text (as_posix dest)) result.1.store ≡ some (file full))
            × (result.1.states.state ≡ CfdpState.idle)
            × ((before : List Indication) × (result.1.indications
                  ≡ before
                    ++ transaction_finished_indication (record {
                      transaction_id = some (transaction_of (conf_of from r cfg (length full) s));
                      finished_params = record {
                        delivery_code = data_complete;
                        file_status = file_retained;
                        condition_code = no_error;
                        fault_location = none;
                      };
                    })
                      ∷ [])))
  put_file-state_machine rounds s d inc sup f t k w u told_sender told e n fresh l a free hold b =
      let sum = checksum_of crc cfg.crc_type full in
      let first = metadata_of from r cfg source dest (length full) s in
      let last = last_of from r cfg (length full) sum s in
      let (pdus, sent, tiles, confs, idle, kept, left, said) =
        put_file-Tiles from (part_of full) (length full) limit r cfg source dest sum rounds s
          (native-CanSend s.store f t k w e n) fresh l (native-Reads s.store inc sup n) u
          told_sender b in
      (
        first ∷ (pdus ++ last ∷ []),
        sent,
        idle,
        kept,
        transfer_delivers receiver crc receiver_directory full (suc limit) depth first last
            (metadata_params from r cfg source dest (length full)) (some (metadata_options r))
            (as_posix source) (as_posix dest) d inc sup told
            (a, All-IsAccepted first pdus confs a, same_conf-IsAccepted first last refl a) refl u.0
            u.1 tiles refl free hold,
      )
