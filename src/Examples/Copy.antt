-- ===== src/Examples/Copy.antt =====
-- A put request for a file of three bytes, from one filestore to another one that is empty.
use cfdp_py.Filestore.Create.{fresh, CanHold}
use cfdp_py.Examples.Filestore.{adder-IsIncremental, adder}
use cfdp_py.Filestore.Native.{native_filestore}
use cfdp_py.Dest.Delivery.{IsAccepted}
use cfdp_py.Filestore.{file, entry, node, Tree}
use cfdp_py.User.{transaction_finished_indication, Indication, Env}
use cfdp_py.FilePath.{path_eq, as_posix, of_text}
use cfdp_py.Source.Chunks.{Tiles}
use cfdp_py.Protocol.{no_error, file_retained, data_complete, Pdu}
use cfdp_py.Proc.{for_each, returned, run}
use cfdp_py.Base.{none, some, arith, All, ◌++◌, ◌≡◌, ℕ, refl, [], ◌∷◌, List}
use cfdp_py.Mib.{get_cfg}
use cfdp_py.Base.Dict
use cfdp_py.Dest.Calls
use cfdp_py.Dest.State.{CfdpState, DestState}
use cfdp_py.Dest.Machine.{state_machine}
use cfdp_py.Dest.Reception
use cfdp_py.Dest.Delivery.Metadata.{transaction_of}
use cfdp_py.Source.State.{SourceState, SourceEnv}
use cfdp_py.Source.Calls.{new_handler}
use cfdp_py.Source.OnNative.{on_native}
use cfdp_py.Source.Begin.{widen, larger_entity_width, segment_len_of}
use cfdp_py.Source.Sending.{IsFresh, CanSend, metadata_of, conf_of}
use cfdp_py.Source.Sending.Rounds.{put_file, HasConf}
use cfdp_py.Source.Sending.Whole.{put_file-Tiles, Reads, last_of, told_of}
use cfdp_py.Copy.Whole.{put_file-state_machine}
use cfdp_py.Examples.{a_path, a_remote, id_of}
use cfdp_py.Examples.Source.{sender, sender_on, a_request, five_bytes, of_file}
use cfdp_py.Examples.Reception.{tree_env, sent_bytes}

new_handler-IsFresh :
    {F : Type 0} (env : SourceEnv F ℕ) (store : F) → IsFresh (new_handler env store 0 0)
new_handler-IsFresh env store = record {
  is_idle_now = refl;
  in_step = refl;
  none_queued = refl;
  at_start = refl;
  may_have_file = refl;
  no_result = refl;
}

abbrev fresh_sender : SourceState (List ℕ) ℕ
fresh_sender = new_handler sender five_bytes 0 0

five_bytes-CanSend : CanSend sender a_request (a_remote 2) a_path a_path 5 five_bytes
unfolding get_cfg Dict.get run
five_bytes-CanSend = record {
  of_file = refl;
  into_file = refl;
  known = refl;
  exists = refl;
  sized = refl;
  not_empty = refl;
  valid_width = refl;
}

five_bytes-Reads :
    Reads sender (of_file five_bytes) 5 1 a_request (a_remote 2) a_path a_path (165 ∷ []) five_bytes
unfolding run
five_bytes-Reads = record { reads = λ offset read_len. refl; sum_of = refl }

put_file_example :
    let result = put_file sender a_request 7 fresh_sender in
    (pdus : List Pdu) × (result.0
      ≡ returned (
          metadata_of sender a_request (a_remote 2) a_path a_path 5 fresh_sender
          ∷ (pdus ++ last_of sender a_request (a_remote 2) 5 (165 ∷ []) fresh_sender ∷ [])))
    × Tiles (of_file five_bytes) 2 0 5 pdus
    × All (HasConf (conf_of sender a_request (a_remote 2) 5 fresh_sender)) pdus
    × (result.1.states.state ≡ CfdpState.idle)
    × (result.1.store ≡ five_bytes)
    × (result.1.pdus_to_be_sent ≡ [])
    × (result.1.indications ≡ told_of sender a_request (a_remote 2) 5 fresh_sender)
unfolding segment_len_of
put_file_example =
    put_file-Tiles sender (of_file five_bytes) 5 1 a_request (a_remote 2) a_path a_path (165 ∷ []) 7
      fresh_sender five_bytes-CanSend (new_handler-IsFresh sender five_bytes) refl five_bytes-Reads
      (refl, refl) refl (omega arith)

-- The same on native filestores.
abbrev tree_sender : SourceEnv Tree ℕ
tree_sender = sender_on (native_filestore adder 0)

abbrev native_sender : SourceEnv Tree ℕ
native_sender = on_native tree_sender adder 0

abbrev native_receiver : Env Tree ℕ
native_receiver = Reception.on_native tree_env adder 0

abbrev small_tree : Tree
small_tree = (a_path, file sent_bytes) ∷ []

abbrev tree_source : SourceState Tree ℕ
tree_source = new_handler tree_sender small_tree 0 0

abbrev tree_target : DestState Tree ℕ
tree_target = Calls.new_handler tree_env [] 0

finds_source : node a_path small_tree ≡ some (file sent_bytes)
unfolding node entry path_eq
finds_source = refl

is_known : get_cfg (id_of 2) tree_sender.remote_cfg_table ≡ some (a_remote 2)
unfolding get_cfg Dict.get
is_known = refl

is_accepted :
    IsAccepted native_receiver
      (metadata_of native_sender a_request (a_remote 2) a_path a_path 3 tree_source)
unfolding get_cfg Dict.get widen larger_entity_width
is_accepted = record { direction = refl; destination = refl; source = refl }

has_room : CanHold (of_text (as_posix a_path)) []
unfolding of_text as_posix node entry
has_room = fresh refl tt

put_file_copy_example :
    let sent = put_file native_sender a_request 5 tree_source in
    (pdus : List Pdu) × (sent.0 ≡ returned pdus)
    × (sent.1.states.state ≡ CfdpState.idle)
    × (sent.1.store ≡ small_tree)
    × (let result = for_each pdus (λ pdu. state_machine native_receiver 1 (some pdu)) tree_target in
        (result.0 ≡ returned tt)
        × (node (of_text (as_posix a_path)) result.1.store ≡ some (file sent_bytes))
        × (result.1.states.state ≡ CfdpState.idle)
        × ((before : List Indication) × (result.1.indications
              ≡ before
                ++ transaction_finished_indication (record {
                  transaction_id =
                      some (
                        transaction_of
                          (conf_of native_sender a_request (a_remote 2) 3 tree_source));
                  finished_params = record {
                    delivery_code = data_complete;
                    file_status = file_retained;
                    condition_code = no_error;
                    fault_location = none;
                  };
                })
                  ∷ [])))
unfolding segment_len_of
put_file_copy_example =
    put_file-state_machine tree_sender tree_env adder 0 0 sent_bytes 1 0 a_request (a_remote 2)
      a_path a_path 5 tree_source tree_target adder-IsIncremental refl refl refl is_known refl
      (refl, refl) refl refl refl finds_source (new_handler-IsFresh tree_sender small_tree) refl
      is_accepted (record { is_idle_now = refl; no_packets = refl; none_ready = refl }) has_room
      (omega arith)
