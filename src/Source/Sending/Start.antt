-- ===== src/Source/Sending/Start.antt =====
-- The put request and the first call of the state machine in src/cfdppy/handler/source.py, which
-- starts the transaction and prepares the metadata packet.
use cfdp_py.Source.Packets.{prepare_metadata_base_params_with_metadata, prepare_metadata_pdu}
use cfdp_py.Source.Machine.{
  state_machine, get_next_packet, fsm_non_idle, fsm_advancement_after_packets_were_sent,
  begin_transaction, run_steps,
}
use cfdp_py.Source.Sending.{metadata_of, IsFresh, started, requested, CanSend}
use cfdp_py.Proc.{◌>>=◌, ◌>>◌, returned, run}
use cfdp_py.Source.Begin.{
  calculate_max_file_seg_len, get_next_transfer_seq_num, set_file_flag, prepare_pdu_conf,
  transaction_start, prepare_file_size, prepare_file_params, setup_transmission_params,
  check_source_file, accept_request, put_request_call,
}
use cfdp_py.Base.{refl, ◌∙◌, ap, [], none, false, some, Option, arith, true, ◌≡◌, ℕ}
use cfdp_py.FilePath.{FilePath}
use cfdp_py.Mib.{RemoteEntityCfg}
use cfdp_py.Request
use cfdp_py.Request.{PutRequest}
use cfdp_py.Dest.State.{CfdpState}
use cfdp_py.Source.Machine
use cfdp_py.Source.State.{
  TransactionStep, add_packet_to_be_sent, set_step, indicate, sending_metadata, modify_params,
  set_state, on_store, SourceEnv, SourceState,
}

module _ {F T : Type 0} (env : SourceEnv F T) (r : PutRequest) (cfg : RemoteEntityCfg)
    (source dest : FilePath) (size : ℕ) where
  source_checked :
      (found : Option FilePath) (s : SourceState F T)
      → found ≡ some source
      → env.vfs.file_exists source s.store ≡ (returned true, s.store)
      → check_source_file env found s ≡ (returned tt, s)
  unfolding check_source_file run on_store
  source_checked found s f e = ground arith

  pub request_taken :
      (s : SourceState F T)
      → CanSend env r cfg source dest size s.store
      → s.states.state ≡ CfdpState.idle
      → put_request_call env r s ≡ (returned true, requested env r cfg source dest size s)
  unfolding put_request_call accept_request setup_transmission_params run modify_params set_state
  request_taken s c i = ground (
    arith,
    c.known,
    source_checked r.source_file (record s { put_req = some r }) c.of_file c.exists,
  )

  with_size : SourceState F T → SourceState F T
  with_size s = record s {
    params = record s.params { fp = record s.params.fp { file_size = some size } };
  }

  file_params_prepared :
      (s : SourceState F T)
      → CanSend env r cfg source dest size s.store
      → prepare_file_params env r s ≡ (returned tt, with_size s)
  unfolding with_size prepare_file_params prepare_file_size Request.metadata_only check_source_file
      run modify_params on_store
  file_params_prepared s c = ground (arith, c.of_file, c.exists, c.sized, c.not_empty)

  transaction_started :
      (s : SourceState F T)
      → CanSend env r cfg source dest size s.store
      → s.params.fp.metadata_only ≡ false
      → (do transaction_start env r; set_step sending_metadata)
          (requested env r cfg source dest size s)
        ≡ (returned tt, started env r cfg source dest size s)
  unfolding with_size transaction_start prepare_pdu_conf set_file_flag get_next_transfer_seq_num
      calculate_max_file_seg_len run modify_params set_step indicate
  transaction_started s c m = ground (
    arith,
    m,
    c.known,
    c.valid_width,
    file_params_prepared (requested env r cfg source dest size s) c,
  )

  nothing_to_advance :
      (s : SourceState F T)
      → s.pdus_to_be_sent ≡ []
      → s.states.step ≡ TransactionStep.idle
      → fsm_advancement_after_packets_were_sent env s ≡ (returned tt, s)
  unfolding fsm_advancement_after_packets_were_sent run
  nothing_to_advance s q i = ground (arith, q)

  abbrev starting : SourceState F T → SourceState F T
  starting s = record s { states = record s.states { step = TransactionStep.transaction_start } }

  begins :
      (s t : SourceState F T)
      → s.states.step ≡ TransactionStep.idle
      → (do transaction_start env r; set_step sending_metadata) (starting s) ≡ (returned tt, t)
      → begin_transaction env r s ≡ (returned tt, t)
  unfolding begin_transaction Machine.in_step run set_step
  begins s t i e = ground arith

  metadata_step :
      (s t : SourceState F T)
      → s.states.state ≡ CfdpState.busy
      → s.put_req ≡ some r
      → fsm_advancement_after_packets_were_sent env s ≡ (returned tt, s)
      → begin_transaction env r s ≡ (returned tt, t)
      → t.states.step ≡ sending_metadata
      → state_machine env none s ≡ prepare_metadata_pdu t
  unfolding state_machine fsm_non_idle run_steps run
  metadata_step s t q p a e h = ground arith

  metadata_prepared :
      (s : SourceState F T)
      → CanSend env r cfg source dest size s.store
      → IsFresh s
      → (prepare_metadata_pdu >> get_next_packet) (started env r cfg source dest size s) ≡ (
        returned (some (metadata_of env r cfg source dest size s)),
        started env r cfg source dest size s,
      )
  unfolding get_next_packet prepare_metadata_pdu prepare_metadata_base_params_with_metadata
      Request.metadata_only run add_packet_to_be_sent
  metadata_prepared s c f = ground (arith, c.of_file, c.into_file, f.none_queued)

  -- The first call queues the metadata packet.
  pub first_packet :
      (s : SourceState F T)
      → CanSend env r cfg source dest size s.store
      → IsFresh s
      → (state_machine env none >> get_next_packet) (requested env r cfg source dest size s) ≡ (
        returned (some (metadata_of env r cfg source dest size s)),
        started env r cfg source dest size s,
      )
  unfolding ◌>>=◌
  first_packet s c f =
      let s1 = requested env r cfg source dest size s in
      let t = started env r cfg source dest size s in
      ap (λ x. ◌>>=◌ (λ (_ : SourceState F T). x) (λ _. get_next_packet) s1)
        (metadata_step s1 t refl refl (nothing_to_advance s1 f.none_queued f.in_step)
          (begins s1 t f.in_step (transaction_started (starting s) c f.may_have_file)) refl)
      ∙ metadata_prepared s c f
