-- ===== src/Examples/Reception.antt =====
-- The reception of a file of three bytes in two packets, on a filestore with one empty file.
use cfdp_py.Base.{take, drop, ℕ, ◌≡◌, refl, none, some, List, [], ◌∷◌, arith}
use cfdp_py.FilePath.{path_eq}
use cfdp_py.Protocol.{Pdu, file_data, unacknowledged}
use cfdp_py.Proc.{returned, for_each}
use cfdp_py.Mib.{default_fault_handlers}
use cfdp_py.User.{Env}
use cfdp_py.Filestore.{Tree, node, entry, file}
use cfdp_py.Filestore.Native.{native_filestore}
use cfdp_py.Source.Chunks.{Tiles, tile, tiled}
use cfdp_py.Dest.State.{DestState, CfdpState, receiving_file_data, new_fields}
use cfdp_py.Dest.Calls.{new_handler}
use cfdp_py.Dest.Receive.{handle_fd_or_eof_pdu}
use cfdp_py.Dest.Reception.{IsReceiving, on_native, reception_lem}
use cfdp_py.Examples.{a_conf, a_path, a_remote, a_transaction, env_on}
use cfdp_py.Examples.Filestore.{adder}
use cfdp_py.Examples.Source.{sender, five_bytes, sending_from, five_bytes-IsSending}
use cfdp_py.Source.Transfer.{transmit}
use cfdp_py.Copy.{transmit-reception}

abbrev empty_file : Tree
empty_file = (a_path, file []) ∷ []

abbrev pub sent_bytes : List ℕ
sent_bytes = 11 ∷ 22 ∷ 33 ∷ []

abbrev pub tree_env : Env Tree ℕ
tree_env = env_on (native_filestore adder 0) 2 default_fault_handlers

abbrev pub packet : (offset : ℕ) → List ℕ → Pdu
packet offset bytes = record {
  pdu_conf = record a_conf { trans_mode = unacknowledged };
  body = file_data offset bytes none;
}

abbrev pub two_packets : List Pdu
two_packets = packet 0 (11 ∷ 22 ∷ []) ∷ packet 2 (33 ∷ []) ∷ []

pub two_packets-Tiles :
    Tiles (λ offset read_len. take read_len (drop offset sent_bytes)) 2 0 3 two_packets
two_packets-Tiles =
    tile (packet 0 (11 ∷ 22 ∷ [])) 1 refl (omega arith)
      (tile (packet 2 (33 ∷ [])) 0 refl (omega arith) tiled)

-- A handler that has the metadata and no file data yet.
abbrev fresh_receiver : DestState Tree ℕ
fresh_receiver = record (new_handler tree_env empty_file 0) {
  states = record (new_handler tree_env empty_file 0).states {
    state = CfdpState.busy;
    step = receiving_file_data;
    transaction_id = some a_transaction;
  };
  params = record (new_fields (record a_conf { trans_mode = unacknowledged })) {
    transaction_id = some a_transaction;
    remote_cfg = some (a_remote 1);
    fp = record (new_handler tree_env empty_file 0).params.fp {
      file_size = some 3;
      file_name = a_path;
    };
  };
}

fresh_receiver-IsReceiving : IsReceiving (on_native tree_env adder 0) a_path fresh_receiver
fresh_receiver-IsReceiving = record { is_busy = refl; unacked = refl; no_eof = refl; into = refl }

finds_empty : node a_path empty_file ≡ some (file [])
unfolding node entry path_eq
finds_empty = refl

reception_example :
    let result =
      for_each two_packets
        (λ pdu. handle_fd_or_eof_pdu (on_native tree_env adder 0) pdu.body)
        fresh_receiver in
    (result.0 ≡ returned tt)
    × (node a_path result.1.store ≡ some (file sent_bytes))
    × (result.1.params.fp.progress ≡ 3)
reception_example =
    reception_lem tree_env adder 0 sent_bytes 2 a_path fresh_receiver two_packets-Tiles
      (omega arith) fresh_receiver-IsReceiving finds_empty refl

copy_example :
    (pdus : List Pdu) × ((transmit sender 5 (sending_from 0)).0 ≡ returned pdus)
    × (let result =
          for_each pdus
            (λ pdu. handle_fd_or_eof_pdu (on_native tree_env adder 0) pdu.body)
            fresh_receiver in
        (result.0 ≡ returned tt)
        × (node a_path result.1.store ≡ some (file five_bytes))
        × (result.1.params.fp.progress ≡ 5))
copy_example =
    transmit-reception sender tree_env adder 0 five_bytes 1 5 (sending_from 0) a_path fresh_receiver
      five_bytes-IsSending refl (omega arith) fresh_receiver-IsReceiving finds_empty refl
