-- ===== src/Errors.antt =====
-- src/cfdppy/exceptions.py, and the exceptions of Python itself that the sources raise or may run into.
use cfdp_py.FilePath.{FilePath}
use cfdp_py.Protocol.{UnsignedByteField, Direction, ChecksumType, Pdu}

pub data PduIgnoredForSourceReason : Type 0 where
  ack_mode_packet_invalid_mode : PduIgnoredForSourceReason
  not_waiting_for_finished_pdu : PduIgnoredForSourceReason
  not_waiting_for_ack : PduIgnoredForSourceReason

pub data PduIgnoredForDestReason : Type 0 where
  first_packet_not_metadata_pdu : PduIgnoredForDestReason
  invalid_mode_for_acked_mode_packet : PduIgnoredForDestReason
  first_packet_in_acked_mode_not_metadata_not_eof_not_fd : PduIgnoredForDestReason

pub data Error : Type 0 where
  no_remote_entity_cfg_found : UnsignedByteField → Error
  source_file_does_not_exist : FilePath → Error
  checksum_not_implemented : ChecksumType → Error
  unretrieved_pdus_to_be_sent : Error
  invalid_nak_pdu : Error
  invalid_pdu_direction : (expected found : Direction) → Error
  invalid_source_id : (expected found : UnsignedByteField) → Error
  invalid_destination_id : (expected found : UnsignedByteField) → Error
  invalid_transaction_seq_num : (expected received : UnsignedByteField) → Error
  invalid_pdu_for_source_handler : Pdu → Error
  pdu_ignored_for_source : PduIgnoredForSourceReason → Pdu → Error
  invalid_pdu_for_dest_handler : Pdu → Error
  pdu_ignored_for_dest : PduIgnoredForDestReason → Pdu → Error
  assertion_error attribute_error type_error value_error recursion_error : Error
  file_not_found_error permission_error os_error : Error
  -- Not an exception: the model stopped a loop that needs more rounds than it was given.
  out_of_rounds : Error
