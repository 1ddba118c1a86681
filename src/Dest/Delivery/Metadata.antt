-- ===== src/Dest/Delivery/Metadata.antt =====
-- The handling of the metadata packet that starts the reception of a file, in
-- src/cfdppy/handler/dest.py.
use cfdp_py.Errors.{no_remote_entity_cfg_found, type_error}
use cfdp_py.Mib.{get_cfg}
use cfdp_py.Proc.{try_except, modify, require, ◌>>=◌, ◌>>◌, returned, run}
use cfdp_py.Dest.Start.{
  take_file_names, on_prepare_error, messages_of, init_vfs_handling, map_option, begin_reception,
  prepare_file, handle_metadata_packet,
}
use cfdp_py.FilePath.{of_text, is_some, Text, FilePath}
use cfdp_py.Protocol.{Tlv, towards_sender, file_retained, TransactionId, MetadataParams, PduConfig}
use cfdp_py.Dest.State.{
  indicate, transfer_completion, set_step, modify_params, new_fields, on_store, receiving_file_data,
  packets_ready, CfdpState, DestState,
}
use cfdp_py.User.{metadata_recv_indication, Env}
use cfdp_py.Base.{
  none, refl, ap, ◌∙◌, inr, arith, inl, Bool-cases, ◌++◌, if◌then◌else◌, List, Bool, some, Option,
  ◌≡◌, true, false, [], ◌∷◌,
}
use cfdp_py.Proc.Steps.{bind_step, gets_bind}
use cfdp_py.FilePath.{name as file_name_of}

-- The calls of the filestore that make the file empty, whether it is there before or not.
pub record IsTarget {F T : Type 0} (env : Env F T) (name : FilePath) (store made : F) : Type 0 where
  pub no_directory : env.vfs.is_directory name store ≡ (returned false, store)
  pub exists : Bool
  pub looked_up : env.vfs.file_exists name store ≡ (returned exists, store)
  pub prepared :
      (if exists then env.vfs.truncate_file name else env.vfs.create_file name) store
      ≡ (returned tt, made)

-- The handler is idle, and no packet is left to take.
pub record IsFree {F T : Type 0} (s : DestState F T) : Type 0 where
  pub is_idle_now : s.states.state ≡ CfdpState.idle
  pub no_packets : s.pdus_to_be_sent ≡ []
  pub none_ready : packets_ready s ≡ false

-- The transaction of a packet.
abbrev pub transaction_of : PduConfig → TransactionId
transaction_of conf = record {
  source_entity_id = conf.source_entity_id;
  transaction_seq_num = conf.transaction_seq_num;
}

-- Metadata with both file names.
abbrev pub with_names : MetadataParams → (source dest : Text) → MetadataParams
with_names m source dest = record m { source_file_name = some source; dest_file_name = some dest }

pub some_of {ℓ} : {A : Type ℓ} (o : Option A) → is_some o ≡ true → (a : A) × (o ≡ some a)
some_of none e = cc
some_of (some a) e = (a, refl)

module _ {F T : Type 0} (env : Env F T) where
  abbrev pub opened : PduConfig → DestState F T → DestState F T
  opened conf s = record s {
    states = record s.states {
      state = CfdpState.busy;
      transaction_id = some (transaction_of conf);
    };
    params = record (new_fields (record conf { direction = towards_sender })) {
      transaction_id = some (transaction_of conf);
      remote_cfg = get_cfg conf.source_entity_id env.remote_cfg_table;
    };
  }

  abbrev pub receiving_of : MetadataParams → (dest : Text) → F → DestState F T → DestState F T
  receiving_of m dest store s = record s {
    store = store;
    states = record s.states { step = receiving_file_data };
    params = record s.params {
      closure_requested = m.closure_requested;
      checksum_type = m.checksum_type;
      finished_params = record s.params.finished_params { file_status = file_retained };
      fp = record s.params.fp { file_size = some m.file_size; file_name = of_text dest };
      acked_params = record s.params.acked_params { metadata_missing = false };
    };
  }

  abbrev pub after_metadata :
      PduConfig
      → MetadataParams
      → Option (List Tlv)
      → (source dest : Text) → F
      → DestState F T
      → DestState F T
  after_metadata conf m options source dest store s =
      let t = receiving_of m dest store (opened conf s) in
      record t {
        indications =
            t.indications
            ++ metadata_recv_indication (record {
              transaction_id = t.params.transaction_id;
              source_id = conf.source_entity_id;
              file_size = some m.file_size;
              source_file_name = some source;
              dest_file_name = some dest;
              msgs_to_user = map_option messages_of options;
            })
              ∷ [];
      }

  pub prepared_file :
      (base name : Text) (made : F) (s : DestState F T)
      → s.params.fp.file_name ≡ of_text name
      → IsTarget env (of_text name) s.store made
      → prepare_file env base s ≡ (
        returned tt,
        record s {
          store = made;
          params = record s.params {
            finished_params = record s.params.finished_params { file_status = file_retained };
          };
        },
      )
  unfolding prepare_file run on_store modify_params
  prepared_file base name made s n i = elim (Bool-cases i.exists) [
    | inl e ↦ ground (arith, n, e, i.no_directory, i.looked_up, i.prepared)
    | inr e ↦ ground (arith, n, e, i.no_directory, i.looked_up, i.prepared)
  ]

  -- The state when the reception begins.
  abbrev pub named : MetadataParams → (dest : Text) → DestState F T → DestState F T
  named m dest s = record s {
    params = record s.params {
      closure_requested = m.closure_requested;
      checksum_type = m.checksum_type;
      fp = record s.params.fp { file_size = some m.file_size; file_name = of_text dest };
      acked_params = record s.params.acked_params { metadata_missing = false };
    };
  }

  pub begun :
      (m : MetadataParams) (source dest : Text) (made : F) (s : DestState F T)
      → s.params.fp.metadata_only ≡ false
      → IsTarget env (of_text dest) s.store made
      → begin_reception env (some source) (named m dest s)
        ≡ (returned tt, receiving_of m dest made s)
  unfolding begin_reception init_vfs_handling
  begun m source dest made s not_only target =
      let t = named m dest s in
      let u = record t { states = record t.states { step = receiving_file_data } } in
      gets_bind (λ s. s.params.fp.metadata_only) _ t
      ∙ ap
          (λ b.
            (if b then set_step transfer_completion else (do
              set_step receiving_file_data
              source ← require type_error (some source)
              init_vfs_handling env (file_name_of (of_text source))))
              t)
          not_only
      ∙ bind_step (set_step receiving_file_data) _ t u tt (unfold set_step modify in refl)
      ∙ bind_step (require type_error (some source)) _ u u source (unfold require in refl)
      ∙ (unfold try_except in
          ap (λ o. try_except (λ _. o) (on_prepare_error env) u)
            (prepared_file (file_name_of (of_text source)) dest made u refl target))

  pub metadata_handled :
      (conf : PduConfig) (m : MetadataParams) (options : Option (List Tlv)) (source dest : Text)
      (made : F) (s : DestState F T)
      → is_some (get_cfg conf.source_entity_id env.remote_cfg_table) ≡ true
      → IsTarget env (of_text dest) s.store made
      → handle_metadata_packet env conf (with_names m source dest) options (opened conf s)
        ≡ (returned tt, after_metadata conf m options source dest made s)
  unfolding handle_metadata_packet modify_params modify take_file_names
  metadata_handled conf m options source dest made s c target =
      let t = opened conf s in
      let u = named m dest t in
      let v = receiving_of m dest made t in
      let (cfg, known) = some_of (get_cfg conf.source_entity_id env.remote_cfg_table) c in
      bind_step (modify_params _) _ t _ tt refl
      ∙ bind_step (modify_params _) _ _ _ tt refl
      ∙ bind_step (take_file_names env (some source) (some dest)) _ _ _ tt refl
      ∙ bind_step (modify_params _) _ _ u tt refl
      ∙ gets_bind (λ s. s.params.remote_cfg) _ u
      ∙ bind_step (require (no_remote_entity_cfg_found conf.dest_entity_id) u.params.remote_cfg) _ u
          u cfg
          (ap (λ o. require (no_remote_entity_cfg_found conf.dest_entity_id) o u) known
            ∙ (unfold require in refl))
      ∙ bind_step (begin_reception env (some source)) _ u v tt
          (begun m source dest made t refl target)
      ∙ gets_bind (λ s. s.params.transaction_id) _ v
      ∙ (unfold indicate in refl)
