-- ===== src/Source/Queue/Begin.antt =====
-- Put requests and the start of a transaction keep the queue routed.
use cfdp_py.Base.{Option, none, some}
use cfdp_py.FilePath.{FilePath}
use cfdp_py.Proc.Holds.{Keeps, Keeps-modify, Keeps-skip}
use cfdp_py.Mib.{RemoteEntityCfg}
use cfdp_py.Request.{PutRequest}
use cfdp_py.Source.State.{SourceEnv}
use cfdp_py.Source.Queue.{IsRouted, routed_rules}
use cfdp_py.Source.Begin.{
  check_source_file, setup_transmission_params, accept_request, put_request_call, prepare_file_size,
  prepare_file_params, set_file_flag, prepare_pdu_conf, get_next_transfer_seq_num,
  calculate_max_file_seg_len,
}
use cfdp_py.Source.Begin

module _ {F T : Type 0} (env : SourceEnv F T) where
  check_source_file-IsRouted : (o : Option FilePath) → Keeps IsRouted (check_source_file env o)
  unfolding check_source_file
  check_source_file-IsRouted none = Keeps-skip
  check_source_file-IsRouted (some file) = search (routed_rules) depth 12

  pub setup_transmission_params-IsRouted :
      (r : PutRequest) (c : RemoteEntityCfg) → Keeps IsRouted (setup_transmission_params env r c)
  unfolding setup_transmission_params
  setup_transmission_params-IsRouted r c = search (routed_rules) depth 12

  pub accept_request-IsRouted : (r : PutRequest) → Keeps IsRouted (accept_request env r)
  unfolding accept_request
  accept_request-IsRouted r =
      search
        (routed_rules, check_source_file-IsRouted, setup_transmission_params-IsRouted, Keeps-modify)
        depth 16

  pub put_request_call-IsRouted : (r : PutRequest) → Keeps IsRouted (put_request_call env r)
  unfolding put_request_call
  put_request_call-IsRouted r = search (routed_rules, accept_request-IsRouted) depth 12

  pub prepare_file_size-IsRouted : (file : FilePath) → Keeps IsRouted (prepare_file_size env file)
  unfolding prepare_file_size
  prepare_file_size-IsRouted file = search (routed_rules, check_source_file-IsRouted) depth 12

  pub prepare_file_params-IsRouted : (r : PutRequest) → Keeps IsRouted (prepare_file_params env r)
  unfolding prepare_file_params
  prepare_file_params-IsRouted r = search (routed_rules, prepare_file_size-IsRouted) depth 12

  pub set_file_flag-IsRouted : Keeps IsRouted (set_file_flag env)
  unfolding set_file_flag
  set_file_flag-IsRouted = search (routed_rules) depth 12

  pub prepare_pdu_conf-IsRouted : (r : PutRequest) → Keeps IsRouted (prepare_pdu_conf env r)
  unfolding prepare_pdu_conf
  prepare_pdu_conf-IsRouted r = search (routed_rules, set_file_flag-IsRouted) depth 12

  pub get_next_transfer_seq_num-IsRouted : Keeps IsRouted (get_next_transfer_seq_num env)
  unfolding get_next_transfer_seq_num
  get_next_transfer_seq_num-IsRouted = search (routed_rules, Keeps-modify) depth 12

  pub calculate_max_file_seg_len-IsRouted : Keeps IsRouted (calculate_max_file_seg_len env)
  unfolding calculate_max_file_seg_len
  calculate_max_file_seg_len-IsRouted = search (routed_rules) depth 12

  pub transaction_start-IsRouted : (r : PutRequest) → Keeps IsRouted (Begin.transaction_start env r)
  unfolding Begin.transaction_start
  transaction_start-IsRouted r =
      search
        (
          routed_rules, prepare_file_params-IsRouted, prepare_pdu_conf-IsRouted,
          get_next_transfer_seq_num-IsRouted, calculate_max_file_seg_len-IsRouted,
        )
        depth 14
