-- ===== src/Mib/Faults.antt =====
-- Laws of the fault handler table.
use cfdp_py.Base.{ℕ, ◌≡◌, ◌⊎◌, inl, inr, Option-cases, none, some, arith, if◌then◌else◌}
use cfdp_py.Base.Dict
use cfdp_py.Base.Dict.{get-update}
use cfdp_py.Protocol.{
  ConditionCode, FaultHandlerCode, condition_number, same_condition, TransactionId,
}
use cfdp_py.Errors.{value_error}
use cfdp_py.Proc.{returned, raised}
use cfdp_py.Mib.{DefaultFaultHandlers, get_fault_handler, set_handler, report_fault, callback_for}

set_known_handler :
    (c : ConditionCode) (h old : FaultHandlerCode) (d : DefaultFaultHandlers)
    → get_fault_handler c d ≡ some old
    → (e : DefaultFaultHandlers) × (set_handler c h d ≡ returned e)
      × ((j : ConditionCode)
          → get_fault_handler j e ≡ (if same_condition c j then some h else get_fault_handler j d))
set_known_handler c h old d p = (
  record { handler_dict = Dict.update (condition_number c) h d.handler_dict },
  unfold set_handler in rw p,
  λ j.
      unfold get_fault_handler in
      get-update (condition_number j) (condition_number c) h d.handler_dict,
)

-- Setting the handler of a code that has none raises; of any other code, it changes the handler of
-- that code alone.
pub set_handler_lem :
    (c : ConditionCode) (h : FaultHandlerCode) (d : DefaultFaultHandlers)
    → ((get_fault_handler c d ≡ none) × (set_handler c h d ≡ raised value_error))
      ⊎ ((old : FaultHandlerCode) × (get_fault_handler c d ≡ some old)
          × ((e : DefaultFaultHandlers) × (set_handler c h d ≡ returned e)
              × ((j : ConditionCode)
                  → get_fault_handler j e
                    ≡ (if same_condition c j then some h else get_fault_handler j d))))
set_handler_lem c h d = elim (Option-cases (get_fault_handler c d)) [
  | inl p ↦ inl (p, unfold set_handler in rw p)
  | inr (old, p) ↦ inr (old, p, set_known_handler c h old d p)
]

-- After a handler is set, a fault of that code is reported to the callback of the new handler.
pub report_fault-set_handler :
    (c : ConditionCode) (h : FaultHandlerCode) (d e : DefaultFaultHandlers) (t : TransactionId)
    (n : ℕ)
    → set_handler c h d ≡ returned e
    → report_fault t c n e ≡ returned (callback_for h t c n)
unfolding report_fault set_handler
report_fault-set_handler c h d e t n p =
    ground (arith, get-update (condition_number c) (condition_number c) h d.handler_dict)
