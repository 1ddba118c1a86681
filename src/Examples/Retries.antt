-- ===== src/Examples/Retries.antt =====
-- An EOF packet that is not acknowledged, with a limit of three.
use cfdp_py.Protocol.{positive_ack_limit_reached, no_error}
use cfdp_py.Proc.{returned, run}
use cfdp_py.Base.{replicate, refl, ◌≡◌, [], ◌∷◌, some, ℕ, List}
use cfdp_py.Mib.{RemoteEntityCfg}
use cfdp_py.Source.State.{SourceState, waiting_for_eof_ack}
use cfdp_py.Source.Faults.{handle_positive_ack_procedures, declare_fault}
use cfdp_py.Source.Retries.{IsWaiting, eof_again}
use cfdp_py.Source.Retries.Limit.{retries, retries-limit}
use cfdp_py.Examples.{a_path, a_remote, a_transaction}
use cfdp_py.Examples.Source.{sender, a_request, sending_from}

abbrev patient : RemoteEntityCfg
patient = record (a_remote 2) { positive_ack_timer_expiration_limit = 3 }

abbrev waiting : SourceState (List ℕ) ℕ
waiting = record (sending_from 5) {
  states = record (sending_from 5).states { step = waiting_for_eof_ack };
  params = record (sending_from 5).params {
    remote_cfg = some patient;
    cond_code_eof = some no_error;
    positive_ack_params = record { ack_timer = some 5; ack_counter = 0 };
  };
}

waiting-IsWaiting : IsWaiting sender a_request patient a_transaction no_error (165 ∷ []) 5 0 waiting
unfolding run
waiting-IsWaiting = record {
  source = a_path;
  size = 5;
  is_busy = refl;
  in_step = refl;
  none_queued = refl;
  none_ready = refl;
  of_request = refl;
  of_file = refl;
  to_entity = refl;
  of_transaction = refl;
  condition = refl;
  size_known = refl;
  runs = refl;
  counted = refl;
  sum_of = refl;
}

retries_example :
    (t : SourceState (List ℕ) ℕ) × (retries sender (5 ∷ 15 ∷ []) waiting
      ≡ (returned (replicate 2 (eof_again no_error (165 ∷ []) waiting)), t))
    × IsWaiting sender a_request patient a_transaction no_error (165 ∷ []) 25 2 t
    × (handle_positive_ack_procedures sender (record t { now = 25 })
        ≡ declare_fault sender positive_ack_limit_reached (record t { now = 25 }))
retries_example =
    retries-limit sender a_request patient a_transaction no_error (165 ∷ []) (5 ∷ 15 ∷ []) 25 5 0
      waiting waiting-IsWaiting (refl, (refl, tt)) refl refl
