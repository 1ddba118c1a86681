-- ===== src/Examples/Mib.antt =====
-- The theorems of the fault handlers and of the remote entities at the default table.
use cfdp_py.Base.{[], ◌∷◌, arith, ◌&&◌, ℕ, ◌≡◌, ◌⊎◌, refl, Bool, none, some, ◌==◌, if◌then◌else◌}
use cfdp_py.Base.Dict
use cfdp_py.Protocol.{
  ConditionCode, file_checksum_failure, same_condition, FaultHandlerCode, abandon_transaction,
  UnsignedByteField,
}
use cfdp_py.Errors.{value_error}
use cfdp_py.Proc.{returned, raised}
use cfdp_py.Mib.{
  add_configs, DefaultFaultHandlers, default_fault_handlers, get_fault_handler, set_handler,
  report_fault, callback_for, get_cfg, add_config,
}
use cfdp_py.Mib.Faults.{set_handler_lem, report_fault-set_handler}
use cfdp_py.Mib.Remotes.{IsKeyed, add_config_lem, add_configs-IsKeyed}
use cfdp_py.Examples.{a_transaction, a_remote, a_table, id_of}

set_handler_example :
    ((get_fault_handler file_checksum_failure default_fault_handlers ≡ none)
      × (set_handler file_checksum_failure abandon_transaction default_fault_handlers
          ≡ raised value_error))
    ⊎ ((old : FaultHandlerCode) × (get_fault_handler file_checksum_failure default_fault_handlers
          ≡ some old)
        × ((e : DefaultFaultHandlers) × (set_handler file_checksum_failure abandon_transaction
                default_fault_handlers
              ≡ returned e)
            × ((j : ConditionCode)
                → get_fault_handler j e ≡ (
                    if same_condition file_checksum_failure j
                    then some abandon_transaction
                    else get_fault_handler j default_fault_handlers))))
set_handler_example =
    set_handler_lem file_checksum_failure abandon_transaction default_fault_handlers

abbrev abandoning : DefaultFaultHandlers
unfolding Dict.update
abandoning = record {
  handler_dict = Dict.update 5 abandon_transaction default_fault_handlers.handler_dict;
}

sets_abandoning :
    set_handler file_checksum_failure abandon_transaction default_fault_handlers
    ≡ returned abandoning
unfolding set_handler get_fault_handler Dict.get Dict.update abandoning
sets_abandoning = refl

report_fault_example :
    report_fault a_transaction file_checksum_failure 3 abandoning
    ≡ returned (callback_for abandon_transaction a_transaction file_checksum_failure 3)
report_fault_example =
    report_fault-set_handler file_checksum_failure abandon_transaction default_fault_handlers
      abandoning a_transaction 3 sets_abandoning

abbrev by_value : UnsignedByteField → ℕ → Bool
by_value id k = id.value == k

add_config_example : get_cfg (id_of 3) (add_config by_value (a_remote 3) a_table).0 ≡ (
    if (add_config by_value (a_remote 3) a_table).1 && 3 == 3
    then some (a_remote 3)
    else get_cfg (id_of 3) a_table)
add_config_example = add_config_lem by_value (a_remote 3) a_table (id_of 3)

a_table-IsKeyed : IsKeyed a_table
unfolding get_cfg Dict.get
a_table-IsKeyed = record { own = λ id cfg h. ground arith }

add_configs-IsKeyed_example :
    IsKeyed (add_config by_value (a_remote 3) a_table).0
    × IsKeyed (add_configs by_value (a_remote 2 ∷ a_remote 4 ∷ a_remote 4 ∷ []) a_table)
add_configs-IsKeyed_example =
    add_configs-IsKeyed by_value (a_remote 3) (a_remote 2 ∷ a_remote 4 ∷ a_remote 4 ∷ []) a_table
      a_table-IsKeyed
