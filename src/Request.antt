-- ===== src/Request.antt =====
-- `PutRequest` of src/cfdppy/request.py.
use cfdp_py.Base.{ℕ, Bool, ◌&&◌, not, Option, List}
use cfdp_py.FilePath.{FilePath, is_some}
use cfdp_py.Protocol.{UnsignedByteField, TransmissionMode, SegmentationControl, MessageToUser}

pub record PutRequest : Type 0 where
  pub destination_id : UnsignedByteField
  pub source_file : Option FilePath
  pub dest_file : Option FilePath
  pub trans_mode : Option TransmissionMode
  pub closure_requested : Option Bool
  pub seg_ctrl : Option SegmentationControl
  pub fault_handler_overrides : Option (List (List ℕ))
  pub flow_label_tlv : Option (List ℕ)
  pub msgs_to_user : Option (List MessageToUser)
  pub fs_requests : Option (List (List ℕ))

unfoldable pub metadata_only : PutRequest → Bool
metadata_only r = not (is_some r.source_file) && not (is_some r.dest_file)
