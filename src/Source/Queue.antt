-- ===== src/Source/Queue.antt =====
-- The queue of the source handler: to whom its packets go.
pub mod Faults
pub mod Send
pub mod Begin
pub mod Machine
use cfdp_py.Base.{
  ℕ, zero, suc, ◌+◌, ◌-◌, min, Bool, true, false, Option, none, some, List, [], ◌∷◌, ◌++◌, ◌≡◌,
  refl, All,
}
use cfdp_py.FilePath.{FilePath}
use cfdp_py.Protocol.{
  Pdu, PduBody, ConditionCode, FaultHandlerCode, notice_of_cancellation, notice_of_suspension,
  ignore_error, abandon_transaction, FinishedParams, MetadataParams, Tlv, TransactionId,
  DirectiveType, eof_pdu, finished_pdu, ack_pdu, metadata_pdu, nak_pdu, prompt_pdu, keep_alive_pdu,
  other_directive, active, file_data, eof, finished, ack, metadata, nak, prompt, keep_alive,
  unknown_directive,
}
use cfdp_py.Proc.{Proc, Outcome, returned}
use cfdp_py.Proc.Holds.{
  Keeps, Keeps-modify, Keeps-skip, Keeps-raise, Keeps-bind, Keeps-pure, Keeps-for, Keeps-if,
  keeps_rules,
}
use cfdp_py.Mib.{RemoteEntityCfg}
use cfdp_py.User.{Indication}
use cfdp_py.Request.{PutRequest}
use cfdp_py.Routing.{get_packet_destination, dest_handler}
use cfdp_py.Dest.State.{CfdpState}
use cfdp_py.Source.State.{
  SourceState, SourceEnv, TransferFields, TransactionStep, modify_params, set_step, set_state,
  indicate, on_store, add_packet_to_be_sent, transaction_start, sending_metadata, sending_file_data,
  retransmitting, sending_eof, waiting_for_eof_ack, waiting_for_finished, sending_ack_of_finished,
}
use cfdp_py.Source.State
use cfdp_py.Source.Faults.{of_outcome}

-- A packet for the destination handler.
abbrev pub IsForDest : Pdu → Type 0
IsForDest pdu = get_packet_destination pdu.body ≡ returned dest_handler

-- Every packet in the queue is routed to the destination handler.
abbrev pub IsRouted : {F T : Type 0} → SourceState F T → Type 0
IsRouted s = All IsForDest s.pdus_to_be_sent

All-snoc :
    (pdus : List Pdu) (pdu : Pdu)
    → All IsForDest pdus
    → IsForDest pdu
    → All IsForDest (pdus ++ pdu ∷ [])
All-snoc [] pdu a p = (p, tt)
All-snoc (x ∷ xs) pdu a p = (a.0, All-snoc xs pdu a.1 p)

pub file_data_routed :
    (o : ℕ) (d : List ℕ) (m : Option (List ℕ))
    → get_packet_destination (file_data o d m) ≡ returned dest_handler
unfolding get_packet_destination
file_data_routed o d m = refl

pub metadata_routed :
    (p : MetadataParams) (o : Option (List Tlv))
    → get_packet_destination (metadata p o) ≡ returned dest_handler
unfolding get_packet_destination
metadata_routed p o = refl

pub eof_routed :
    (c : List ℕ) (n : ℕ) (k : ConditionCode)
    → get_packet_destination (eof c n k) ≡ returned dest_handler
unfolding get_packet_destination
eof_routed c n k = refl

pub ack_finished_routed :
    (c : ConditionCode) → get_packet_destination (ack finished_pdu c active) ≡ returned dest_handler
unfolding get_packet_destination
ack_finished_routed c = refl

module _ {F T : Type 0} where
  pub modify_params-IsRouted :
      (f : TransferFields T → TransferFields T) → Keeps IsRouted (modify_params {F = F} f)
  unfolding modify_params
  modify_params-IsRouted f = record { keep = λ s h. h }

  pub set_step-IsRouted : (step : TransactionStep) → Keeps IsRouted (set_step {F = F} {T = T} step)
  unfolding set_step
  set_step-IsRouted step = record { keep = λ s h. h }

  pub set_state-IsRouted : (state : CfdpState) → Keeps IsRouted (set_state {F = F} {T = T} state)
  unfolding set_state
  set_state-IsRouted state = record { keep = λ s h. h }

  pub indicate-IsRouted : (i : Indication) → Keeps IsRouted (indicate {F = F} {T = T} i)
  unfolding indicate
  indicate-IsRouted i = record { keep = λ s h. h }

  pub on_store-IsRouted : {A : Type 0} (m : Proc F A) → Keeps IsRouted (on_store {F = F} {T = T} m)
  unfolding on_store
  on_store-IsRouted m = record { keep = λ s h. h }

  pub of_outcome-IsRouted :
      {A : Type 0} (r : Outcome A) → Keeps IsRouted (of_outcome {F = F} {T = T} r)
  unfolding of_outcome
  of_outcome-IsRouted r = record { keep = λ s h. h }

  pub add_packet-IsRouted :
      (body : PduBody)
      → get_packet_destination body ≡ returned dest_handler
      → Keeps IsRouted (add_packet_to_be_sent {F = F} {T = T} body)
  unfolding add_packet_to_be_sent
  add_packet-IsRouted body r = record { keep = λ s h. All-snoc s.pdus_to_be_sent _ h r }

pub ruleset routed_rules = (
  keeps_rules, modify_params-IsRouted, set_step-IsRouted, set_state-IsRouted, indicate-IsRouted,
  on_store-IsRouted, of_outcome-IsRouted, add_packet-IsRouted, file_data_routed, metadata_routed,
  eof_routed, ack_finished_routed,
)
