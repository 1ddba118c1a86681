-- ===== src/Dest/Inactive.antt =====
-- `acknowledge_inactive_eof_pdu` of src/cfdppy/handler/dest.py.
use cfdp_py.Protocol.{
  PduConfig, ConditionCode, TransactionStatus, active, towards_sender, Pdu, ack, eof_pdu,
}
use cfdp_py.Errors.{value_error}
use cfdp_py.Proc.{Outcome, returned, raised}

-- The acknowledgement of an EOF packet with this configuration and condition code.
unfoldable pub acknowledge_inactive_eof_pdu :
    PduConfig → ConditionCode → TransactionStatus → Outcome Pdu
acknowledge_inactive_eof_pdu conf condition_code active = raised value_error
acknowledge_inactive_eof_pdu conf condition_code status = returned (record {
  pdu_conf = record conf { direction = towards_sender };
  body = ack eof_pdu condition_code status;
})
