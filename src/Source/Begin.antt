-- ===== src/Source/Begin.antt =====
-- Put requests and the start of a transaction in src/cfdppy/handler/source.py.
use cfdp_py.Base.{
  ℕ, ◌-◌, ◌/◌, ◌^◌, max, Bool, true, false, not, ◌||◌, Option, none, some, List, [], ◌∷◌, ◌==◌, ltb,
  if◌then◌else◌,
}
use cfdp_py.Base.Int.{pos}
use cfdp_py.FilePath.{FilePath}
use cfdp_py.Protocol.{
  UnsignedByteField, TransactionId, normal, large, towards_receiver, MessageToUser, plain_message,
  reserved_message, ProxyMessageType, put_response,
}
use cfdp_py.Errors.{
  assertion_error, type_error, value_error, source_file_does_not_exist, no_remote_entity_cfg_found,
}
use cfdp_py.Proc.{Proc, pure, raise, gets, require, modify, skip, when, ◌>>=◌, ◌>>◌}
use cfdp_py.Mib.{RemoteEntityCfg, get_cfg}
use cfdp_py.User.{transaction_indication}
use cfdp_py.Request.{PutRequest}
use cfdp_py.Request
use cfdp_py.Dest.State.{CfdpState, is_idle}
use cfdp_py.Source.State.{
  SourceState, SourceEnv, modify_params, modify_fp, modify_conf, set_state, indicate, on_store,
}

abbrev pub get_or {ℓ} : {A : Type ℓ} → Option A → A → A
get_or none d = d
get_or (some a) d = a

abbrev is_put_response : Option ProxyMessageType → Bool
is_put_response (some put_response) = true
is_put_response _ = false

abbrev last_id : Option TransactionId → Option TransactionId → Option TransactionId
last_id (some id) found = some id
last_id none found = found

-- The loop of `_check_for_originating_id`: the last originating ID, unless a proxy put response is
-- among the messages.
unfoldable pub scan_messages :
    (contains_proxy_put_response : Bool)
    → (originating_id : Option TransactionId) → List MessageToUser
    → Option TransactionId
scan_messages response found [] = if response then none else found
scan_messages response found (plain_message m ∷ msgs) = scan_messages response found msgs
scan_messages response found (reserved_message id proxy ∷ msgs) =
    scan_messages (is_put_response proxy || response) (last_id id found) msgs

unfoldable pub check_for_originating_id : PutRequest → Option TransactionId
unfolding scan_messages
check_for_originating_id r = scan_messages false none (get_or r.msgs_to_user [])

-- The field with a width that may be larger than its own.
unfoldable pub widen : UnsignedByteField → ℕ → UnsignedByteField
widen id width = if width == id.byte_len then id else record { value = id.value; byte_len = width }

unfoldable pub larger_entity_width : UnsignedByteField → UnsignedByteField → ℕ
larger_entity_width local dest = max local.byte_len dest.byte_len

-- The smaller of the derived and the configured segment length.
unfoldable pub segment_len_of : (derived : ℕ) → (max_file_segment_len : Option ℕ) → ℕ
segment_len_of derived none = derived
segment_len_of derived (some configured) = if ltb configured derived then configured else derived

module _ {F T : Type 0} (env : SourceEnv F T) where
  -- The test of the source file of a request.
  unfoldable pub check_source_file : Option FilePath → Proc (SourceState F T) (Unit {0})
  check_source_file none = skip
  check_source_file (some file) = do
    exists ← on_store (env.vfs.file_exists file)
    when (not exists) (raise (source_file_does_not_exist file))

  unfoldable pub setup_transmission_params :
      PutRequest → RemoteEntityCfg → Proc (SourceState F T) (Unit {0})
  setup_transmission_params r cfg = do
    modify_conf
        (λ conf. record conf { trans_mode = get_or r.trans_mode cfg.default_transmission_mode })
    modify_params
        (λ p. record p { closure_requested = get_or r.closure_requested cfg.closure_requested })

  unfoldable pub accept_request : PutRequest → Proc (SourceState F T) Bool
  accept_request r = do
    modify (λ s. record s { put_req = some r })
    check_source_file r.source_file
    let known = get_cfg r.destination_id env.remote_cfg_table
    modify_params (λ p. record p { remote_cfg = known })
    cfg ← require (no_remote_entity_cfg_found r.destination_id) known
    modify_conf (λ conf. record conf { dest_entity_id = r.destination_id })
    modify (λ s. record s { states = record s.states { num_packets_ready = pos 0 } })
    set_state CfdpState.busy
    setup_transmission_params r cfg
    pure true

  -- `put_request`: false if the handler is busy.
  unfoldable pub put_request_call : PutRequest → Proc (SourceState F T) Bool
  put_request_call r = do
    s ← gets (λ s. s)
    if is_idle s.states.state then accept_request r else pure false

  unfoldable pub prepare_file_size : FilePath → Proc (SourceState F T) (Unit {0})
  prepare_file_size file = do
    check_source_file (some file)
    size ← on_store (env.vfs.file_size file)
    if size == 0
        then modify_fp (λ fp. record fp { empty_file = true })
        else modify_fp (λ fp. record fp { file_size = some size })

  unfoldable pub prepare_file_params : PutRequest → Proc (SourceState F T) (Unit {0})
  prepare_file_params r =
      if Request.metadata_only r
      then modify_fp (λ fp. record fp { metadata_only = true })
      else do file ← require assertion_error r.source_file; prepare_file_size file

  -- The large file flag, from a size that must not be None.
  unfoldable pub set_file_flag : Proc (SourceState F T) (Unit {0})
  set_file_flag = do
    fp ← gets (λ s. s.params.fp)
    when (not fp.metadata_only) do
      file_size ← require type_error fp.file_size
      modify_conf
          (λ conf. record conf { file_flag = if ltb (2 ^ 32 - 1) file_size then large else normal })

  unfoldable pub prepare_pdu_conf : PutRequest → Proc (SourceState F T) (Unit {0})
  prepare_pdu_conf r = do
    params ← gets (λ s. s.params)
    cfg ← require assertion_error params.remote_cfg
    set_file_flag
    let width = larger_entity_width env.cfg.local_entity_id r.destination_id
    modify_conf (λ conf. record conf {
      seg_ctrl = get_or r.seg_ctrl conf.seg_ctrl;
      source_entity_id = widen env.cfg.local_entity_id width;
      dest_entity_id = widen r.destination_id width;
      crc_flag = cfg.crc_on_transmission;
      direction = towards_receiver;
    })

  abbrev pub is_valid_width : ℕ → Bool
  is_valid_width w = w == 8 || (w == 16 || w == 32)

  unfoldable pub get_next_transfer_seq_num : Proc (SourceState F T) (Unit {0})
  get_next_transfer_seq_num = do
    s ← gets (λ s. s)
    modify (λ s. record s { seq_count = env.next_seq_count s.seq_count })
    when (not (is_valid_width env.max_bit_width)) (raise value_error)
    modify_conf (λ conf. record conf {
      transaction_seq_num = record {
        value = env.seq_num s.seq_count;
        byte_len = env.max_bit_width / 8;
      };
    })

  unfoldable pub calculate_max_file_seg_len : Proc (SourceState F T) (Unit {0})
  calculate_max_file_seg_len = do
    params ← gets (λ s. s.params)
    cfg ← require assertion_error params.remote_cfg
    modify_fp (λ fp. record fp {
      segment_len =
          segment_len_of (env.max_file_seg_len params.pdu_conf cfg.max_packet_len)
            cfg.max_file_segment_len;
    })

  unfoldable pub transaction_start : PutRequest → Proc (SourceState F T) (Unit {0})
  transaction_start r = do
    prepare_file_params r
    prepare_pdu_conf r
    get_next_transfer_seq_num
    calculate_max_file_seg_len
    params ← gets (λ s. s.params)
    let id : TransactionId = record {
      source_entity_id = env.cfg.local_entity_id;
      transaction_seq_num = params.pdu_conf.transaction_seq_num;
    }
    modify_params (λ p. record p { transaction_id = some id })
    indicate (
        transaction_indication
          (record { transaction_id = id; originating_transaction_id = check_for_originating_id r }))
