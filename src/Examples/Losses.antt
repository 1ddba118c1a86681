-- ===== src/Examples/Losses.antt =====
-- Lost segments of the destination handler, and the NAK PDUs that request them.
use cfdp_py.Tracker.{num_lost_segments}
use cfdp_py.Mib.{default_fault_handlers}
use cfdp_py.Proc.{returned}
use cfdp_py.User.{Env}
use cfdp_py.Dest.State.{new_fields, receiving_file_data, CfdpState, DestState}
use cfdp_py.Dest.Segments.{send_nak_sequence, deferred_lost_segment_handling}
use cfdp_py.Base.{some, refl, ◌≡◌, ℕ, List, arith, ◌++◌, true, [], ◌∷◌}
use cfdp_py.Dest.Missing.{KnowsMissing, receives, receives-KnowsMissing}
use cfdp_py.Dest.Naks.{Requests, all_missing, send_nak_sequence-unsplit}
use cfdp_py.Dest.Naks.Loop.{nak_pdu}
use cfdp_py.Dest.Deferred.{first_time, deferred-Requests}
use cfdp_py.Dest.Calls.{new_handler}
use cfdp_py.Examples.{an_env, a_conf, a_remote, a_transaction}

abbrev acked_env : Env (List ℕ) ℕ
acked_env = an_env 2 default_fault_handlers

-- A handler in acknowledged mode that has received nothing yet.
abbrev acked_handler : DestState (List ℕ) ℕ
acked_handler = record (new_handler acked_env [] 0) {
  states = record (new_handler acked_env [] 0).states {
    state = CfdpState.busy;
    step = receiving_file_data;
  };
  params = record (new_fields a_conf) {
    transaction_id = some a_transaction;
    remote_cfg = some (a_remote 1);
  };
}

nothing_known : KnowsMissing [] acked_handler
nothing_known = record {
  if_acked = λ a. record {
    disjoint = tt;
    in_order = omega arith;
    below = λ x h. cc;
    found = λ x h. absurd (omega arith);
    remote_cfg = a_remote 1;
    configured = refl;
  };
}

-- Two packets with a gap, and one that fills a part of it.
abbrev some_data : List (ℕ × List ℕ)
some_data = (0, 11 ∷ 22 ∷ []) ∷ (5, 66 ∷ []) ∷ (3, 44 ∷ []) ∷ []

receives_example : KnowsMissing (some_data ++ []) (receives acked_env some_data acked_handler)
receives_example = receives-KnowsMissing acked_env some_data acked_handler nothing_known

-- The deferred procedure after the EOF PDU, with two lost segments and no metadata.
abbrev deferred_handler : DestState (List ℕ) ℕ
deferred_handler = record acked_handler {
  params = record acked_handler.params {
    fp = record acked_handler.params.fp { file_size_eof = some 9 };
    acked_params = record acked_handler.params.acked_params {
      metadata_missing = true;
      deferred_lost_segment_detection_active = true;
    };
  };
  lost_seg_tracker = record { lost_segments = (2, 3) ∷ (4, 5) ∷ [] };
}

deferred_example :
    ((deferred_lost_segment_handling acked_env deferred_handler).0 ≡ returned tt)
    × Requests 4 9
        (all_missing deferred_handler)
        deferred_handler
        (deferred_lost_segment_handling acked_env deferred_handler).1
deferred_example =
    deferred-Requests acked_env (a_remote 1) 9 deferred_handler refl refl refl
      (unfold num_lost_segments in refl) (first_time refl) (omega arith)

unsplit_example :
    ((send_nak_sequence 1 9 deferred_handler).0 ≡ returned tt)
    × ((send_nak_sequence 1 9 deferred_handler).1.pdus_to_be_sent
        ≡ [] ++ nak_pdu a_conf 9 (all_missing deferred_handler) ∷ [])
unsplit_example = send_nak_sequence-unsplit 1 9 deferred_handler (omega arith) (omega arith)
