-- ===== src/Examples/Delivery.antt =====
-- A file of three bytes through the state machine of the destination handler, on an empty filestore.
use cfdp_py.Base.Dict
use cfdp_py.Dest.Calls.{new_handler}
use cfdp_py.Dest.Machine.{state_machine}
use cfdp_py.Filestore.{file, entry, node, Tree}
use cfdp_py.Examples.{a_conf}
use cfdp_py.Dest.State.{CfdpState, DestState}
use cfdp_py.FilePath.{of_text, Text}
use cfdp_py.Mib.{get_cfg}
use cfdp_py.User.{transaction_finished_indication, Indication, Env}
use cfdp_py.Proc.{returned, for_each}
use cfdp_py.Protocol.{
  file_retained, data_complete, unacknowledged, no_error, eof, crc_32, metadata, MetadataParams,
  PduBody, Pdu,
}
use cfdp_py.Base.{List, ◌≡◌, some, refl, ℕ, none, ◌++◌, false, [], ◌∷◌}
use cfdp_py.Examples.Reception.{tree_env, sent_bytes, two_packets, two_packets-Tiles}
use cfdp_py.Examples.Filestore.{adder, adder-IsIncremental}
use cfdp_py.Dest.Delivery.{IsAccepted}
use cfdp_py.Dest.Delivery.Metadata.{with_names, transaction_of}
use cfdp_py.Dest.Delivery.Whole.{checksum_of, transfer_delivers}
use cfdp_py.Dest.Reception.{on_native}
use cfdp_py.Filestore.Create.{CanHold, fresh}

abbrev unacked_pdu : PduBody → Pdu
unacked_pdu body = record { pdu_conf = record a_conf { trans_mode = unacknowledged }; body = body }

abbrev the_metadata : MetadataParams
the_metadata = record {
  closure_requested = false;
  checksum_type = crc_32;
  file_size = 3;
  source_file_name = none;
  dest_file_name = none;
}

abbrev source_name : Text
source_name = b's' ∷ []

abbrev dest_name : Text
dest_name = b'/' ∷ b'f' ∷ []

abbrev first_pdu : Pdu
first_pdu = unacked_pdu (metadata (with_names the_metadata source_name dest_name) none)

abbrev last_pdu : Pdu
last_pdu = unacked_pdu (eof (checksum_of adder crc_32 sent_bytes) 3 no_error)

abbrev tree_handler : DestState Tree ℕ
tree_handler = new_handler tree_env [] 0

abbrev native_env : Env Tree ℕ
native_env = on_native tree_env adder 0

accepts : (body : PduBody) → IsAccepted native_env (unacked_pdu body)
unfolding get_cfg Dict.get
accepts body = record { direction = refl; destination = refl; source = refl }

has_room : CanHold (of_text dest_name) []
unfolding of_text node entry
has_room = fresh refl tt

transfer_delivers_example :
    let result =
      for_each
        (first_pdu ∷ (two_packets ++ last_pdu ∷ []))
        (λ pdu. state_machine native_env 1 (some pdu))
        tree_handler in
    (result.0 ≡ returned tt)
    × (node (of_text dest_name) result.1.store ≡ some (file sent_bytes))
    × (result.1.states.state ≡ CfdpState.idle)
    × ((before : List Indication) × (result.1.indications
          ≡ before
            ++ transaction_finished_indication (record {
              transaction_id = some (transaction_of a_conf);
              finished_params = record {
                delivery_code = data_complete;
                file_status = file_retained;
                condition_code = no_error;
                fault_location = none;
              };
            })
              ∷ []))
transfer_delivers_example =
    transfer_delivers tree_env adder 0 sent_bytes 2 0 first_pdu last_pdu the_metadata none
      source_name dest_name tree_handler adder-IsIncremental refl refl
      (accepts _, (accepts _, (accepts _, tt)), accepts _) refl refl refl two_packets-Tiles refl
      (record { is_idle_now = refl; no_packets = refl; none_ready = refl }) has_room
