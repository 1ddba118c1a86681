-- ===== src/Dest/Checksum.antt =====
-- How often the destination handler of src/cfdppy/handler/dest.py reports a checksum failure.
use cfdp_py.Base.{ℕ, ◌≡◌, Bool, false, ◌||◌, some, List, [], ◌∷◌, ◌++◌, arith, append_assoc}
use cfdp_py.FilePath.{text_eq}
use cfdp_py.Protocol.{file_checksum_failure, ignore_error, is_null_checksum, TransactionId}
use cfdp_py.Proc.{Outcome, returned, run}
use cfdp_py.Mib.{get_fault_handler, report_fault, ignore_cb, RemoteEntityCfg}
use cfdp_py.User.{Env, fault_indication}
use cfdp_py.Dest.State.{set_step, indicate, DestState, on_store, modify_params}
use cfdp_py.Dest.Faults.{
  checksum_verify, file_delivery_complete, declare_fault, handle_fault, of_outcome,
}
use cfdp_py.Dest.Receive.{verify_unacked, fault_stops, start_check_limit_handling}

module _ {F T : Type 0} (env : Env F T) (s : DestState F T) where
  -- The file's checksum as the filestore computes it over the received bytes.
  abbrev pub computed : Outcome (List ℕ) × F
  computed =
      env.vfs.calculate_checksum s.params.checksum_type s.params.fp.file_name s.params.fp.progress
        4096 s.store

  -- No checksum is needed.
  abbrev pub needs_no_checksum : Bool
  needs_no_checksum = is_null_checksum s.params.checksum_type || s.params.fp.metadata_only

  pub verify_unacked_reports_twice :
      (id : TransactionId) (cfg : RemoteEntityCfg) (c : List ℕ)
      → s.params.transaction_id ≡ some id
      → s.params.remote_cfg ≡ some cfg
      → needs_no_checksum ≡ false
      → computed.0 ≡ returned c
      → text_eq c s.params.fp.crc32 ≡ false
      → get_fault_handler file_checksum_failure env.cfg.default_fault_handlers ≡ some ignore_error
      → ((verify_unacked env s).0 ≡ returned false)
        × ((verify_unacked env s).1.indications
            ≡ s.indications
              ++ fault_indication (ignore_cb id file_checksum_failure s.params.fp.progress)
                ∷ fault_indication (ignore_cb id file_checksum_failure s.params.fp.progress)
                ∷ [])
  unfolding verify_unacked checksum_verify declare_fault handle_fault of_outcome fault_stops
      start_check_limit_handling file_delivery_complete run on_store modify_params report_fault
      set_step indicate
  verify_unacked_reports_twice id cfg c t r q p x f = ground (
    arith,
    append_assoc s.indications
        (fault_indication (ignore_cb id file_checksum_failure s.params.fp.progress) ∷ [])
        (fault_indication (ignore_cb id file_checksum_failure s.params.fp.progress) ∷ []),
  )
