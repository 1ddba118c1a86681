-- ===== src/Routing.antt =====
-- `get_packet_destination` of src/cfdppy/handler/common.py.
use cfdp_py.Errors.{value_error}
use cfdp_py.Proc.{Outcome, returned, raised}
use cfdp_py.Protocol.{
  PduBody, file_data, eof, finished, ack, metadata, nak, prompt, keep_alive, unknown_directive,
  DirectiveType, eof_pdu, finished_pdu,
}

pub data PacketDestination : Type 0 where
  source_handler dest_handler : PacketDestination

-- The receiver of an acknowledgement, by the directive that it acknowledges.
abbrev ack_destination : DirectiveType → Outcome PacketDestination
ack_destination eof_pdu = returned source_handler
ack_destination finished_pdu = returned dest_handler
ack_destination _ = raised value_error

unfoldable pub get_packet_destination : PduBody → Outcome PacketDestination
get_packet_destination (file_data o d m) = returned dest_handler
get_packet_destination (metadata p o) = returned dest_handler
get_packet_destination (eof c n k) = returned dest_handler
get_packet_destination prompt = returned dest_handler
get_packet_destination (finished p) = returned source_handler
get_packet_destination (nak a b r) = returned source_handler
get_packet_destination keep_alive = returned source_handler
get_packet_destination (ack d k t) = ack_destination d
get_packet_destination unknown_directive = raised value_error
