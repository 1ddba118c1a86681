-- ===== src/Source/Requests.antt =====
-- What the source handler does with put requests and cancel requests of its user.
use cfdp_py.Base.{◌≡◌, ap, ◌∙◌, Bool, true, false, none, some, List, ◌∷◌, arith}
use cfdp_py.Base.Int.{pos, negsuc}
use cfdp_py.FilePath.{FilePath}
use cfdp_py.Protocol.{Pdu}
use cfdp_py.Errors.{type_error}
use cfdp_py.Proc.{returned, raised, run, ◌>>◌}
use cfdp_py.Mib.{get_cfg, RemoteEntityCfg}
use cfdp_py.Request.{PutRequest}
use cfdp_py.Request
use cfdp_py.Dest.State.{CfdpState}
use cfdp_py.Source.State.{
  SourceState, SourceEnv, modify_params, set_state, set_step, on_store, reset_fields, reset_fp,
}
use cfdp_py.Source.Faults.{reset_internal}
use cfdp_py.Source.Begin.{
  put_request_call, accept_request, check_source_file, setup_transmission_params, get_or,
  transaction_start, prepare_file_params, prepare_file_size, prepare_pdu_conf, set_file_flag,
}
use cfdp_py.Source.Machine.{get_next_packet}

module _ {F T : Type 0} (env : SourceEnv F T) where
  -- An idle handler takes a request whose source file exists and whose destination is known: it is
  -- busy, it sends in the mode and with the closure of the request where the request names them and
  -- of the remote entity otherwise, and it keeps the packets left to send.
  pub put_request_call_lem :
      (r : PutRequest) (s : SourceState F T) (cfg : RemoteEntityCfg) (file : FilePath) (store : F)
      → s.states.state ≡ CfdpState.idle
      → r.source_file ≡ some file
      → env.vfs.file_exists file s.store ≡ (returned true, store)
      → get_cfg r.destination_id env.remote_cfg_table ≡ some cfg
      → let result = put_request_call env r s in
        (result.0 ≡ returned true)
        × (result.1.states.state ≡ CfdpState.busy)
        × (result.1.put_req ≡ some r)
        × (result.1.params.remote_cfg ≡ some cfg)
        × (result.1.params.pdu_conf.dest_entity_id ≡ r.destination_id)
        × (result.1.params.pdu_conf.trans_mode ≡ get_or r.trans_mode cfg.default_transmission_mode)
        × (result.1.params.closure_requested ≡ get_or r.closure_requested cfg.closure_requested)
        × (result.1.pdus_to_be_sent ≡ s.pdus_to_be_sent)
  unfolding put_request_call accept_request check_source_file setup_transmission_params run
      modify_params set_state on_store
  put_request_call_lem r s cfg file store i f e k = ground arith

  -- A request that is accepted while a packet of the transaction before is left to send sets the
  -- number of packets ready to 0. The packet can still be taken, and then the number is -1.
  pub put_request-count :
      (r : PutRequest) (pdu : Pdu) (pdus : List Pdu) (s : SourceState F T)
      → s.pdus_to_be_sent ≡ pdu ∷ pdus
      → (accept_request env r s).0 ≡ returned true
      → ((accept_request env r s).1.states.num_packets_ready ≡ pos 0)
        × ((get_next_packet (accept_request env r s).1).0 ≡ returned (some pdu))
        × ((get_next_packet (accept_request env r s).1).1.states.num_packets_ready ≡ negsuc 0)
  unfolding accept_request check_source_file setup_transmission_params run modify_params set_state
      on_store get_next_packet
  put_request-count r pdu pdus s q h = ground arith

  start_without_size :
      (r : PutRequest) (cfg : RemoteEntityCfg) (file : FilePath) (s : SourceState F T)
      (exists sized : F)
      → r.source_file ≡ some file
      → Request.metadata_only r ≡ false
      → env.vfs.file_exists file s.store ≡ (returned true, exists)
      → env.vfs.file_size file exists ≡ (returned 0, sized)
      → s.params.fp.file_size ≡ none
      → s.params.fp.metadata_only ≡ false
      → s.params.remote_cfg ≡ some cfg
      → (transaction_start env r s).0 ≡ raised type_error
  unfolding transaction_start prepare_file_params prepare_file_size prepare_pdu_conf set_file_flag
      check_source_file run modify_params on_store
  start_without_size r cfg file s exists sized f m e z n o c = ground arith

  request_after_reset :
      (b : Bool) (r : PutRequest) (cfg : RemoteEntityCfg) (file : FilePath) (s : SourceState F T)
      (store : F)
      → r.source_file ≡ some file
      → get_cfg r.destination_id env.remote_cfg_table ≡ some cfg
      → env.vfs.file_exists file s.store ≡ (returned true, store)
      → let result = (reset_internal env b >> put_request_call env r) s in
        (result.0 ≡ returned true)
        × (result.1.params.fp.file_size ≡ none)
        × (result.1.params.fp.metadata_only ≡ false)
        × (result.1.params.remote_cfg ≡ some cfg)
        × (result.1.store ≡ store)
  unfolding reset_internal put_request_call accept_request check_source_file
      setup_transmission_params run modify_params set_state set_step on_store reset_fields reset_fp
  request_after_reset true r cfg file s store f k e = ground arith
  request_after_reset false r cfg file s store f k e = ground arith

  -- A handler that was reset takes a request for an empty file, but cannot start its transaction:
  -- the start raises a TypeError, though the file exists and the destination is known.
  pub transaction_start-empty_again :
      (b : Bool) (r : PutRequest) (cfg : RemoteEntityCfg) (file : FilePath) (s : SourceState F T)
      (store exists sized : F)
      → r.source_file ≡ some file
      → Request.metadata_only r ≡ false
      → get_cfg r.destination_id env.remote_cfg_table ≡ some cfg
      → env.vfs.file_exists file s.store ≡ (returned true, store)
      → env.vfs.file_exists file store ≡ (returned true, exists)
      → env.vfs.file_size file exists ≡ (returned 0, sized)
      → let requested = (reset_internal env b >> put_request_call env r) s in
        (requested.0 ≡ returned true)
        × ((transaction_start env r requested.1).0 ≡ raised type_error)
  transaction_start-empty_again b r cfg file s store exists sized f m k e1 e2 e3 =
      let (t, n, o, c, q) = request_after_reset b r cfg file s store f k e1 in
      (
        t,
        start_without_size r cfg file _ exists sized f m (ap (env.vfs.file_exists file) q ∙ e2) e3 n
            o c,
      )
