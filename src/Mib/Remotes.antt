-- ===== src/Mib/Remotes.antt =====
-- Laws of `RemoteEntityCfgTable` of src/cfdppy/mib.py, whatever the equality of the packet library makes
-- of an entity ID among integer keys.
use cfdp_py.Base.{
  subst, ◌≡◌, Bool, true, ◌&&◌, some, List, [], ◌∷◌, arith, ◌==◌, if◌then◌else◌, ℕ, Bool-cases, inl,
  inr,
}
use cfdp_py.Base.Dict.{get-update}
use cfdp_py.Protocol.{UnsignedByteField}
use cfdp_py.Mib.{
  put_cfg, RemoteEntityCfg, RemoteEntityCfgTable, get_cfg, contains, add_config, add_configs,
}

-- A lookup answers with the configuration of the entity that is asked for.
pub record IsKeyed (t : RemoteEntityCfgTable) : Type 0 where
  pub own :
      (id : UnsignedByteField) (cfg : RemoteEntityCfg)
      → get_cfg id t ≡ some cfg
      → (cfg.entity_id.value == id.value) ≡ true

module _ (matches : UnsignedByteField → ℕ → Bool) where
  pub add_config_lem :
      (cfg : RemoteEntityCfg) (t : RemoteEntityCfgTable) (id : UnsignedByteField)
      → let result = add_config matches cfg t in
        get_cfg id result.0
        ≡ (if result.1 && cfg.entity_id.value == id.value then some cfg else get_cfg id t)
  unfolding add_config get_cfg
  add_config_lem cfg t id = elim (Bool-cases (contains matches cfg.entity_id t)) [
    | inl e ↦ ground (arith, e)
    | inr e ↦ ground (arith, e, get-update id.value cfg.entity_id.value cfg t.remote_entity_dict)
  ]

  add_config-IsKeyed :
      (cfg : RemoteEntityCfg) (t : RemoteEntityCfgTable)
      → IsKeyed t
      → IsKeyed (add_config matches cfg t).0
  add_config-IsKeyed cfg t k = record {
    own = λ id c h. ground (arith, h, add_config_lem cfg t id, k.own id c);
  }

  table_after :
      (cfg : RemoteEntityCfg) (t : RemoteEntityCfgTable)
      → (add_config matches cfg t).0
        ≡ (if contains matches cfg.entity_id t then t else put_cfg matches cfg t)
  unfolding add_config
  table_after cfg t = ground arith

  of_list :
      (cfgs : List RemoteEntityCfg) (t : RemoteEntityCfgTable)
      → IsKeyed t
      → IsKeyed (add_configs matches cfgs t)
  unfolding add_configs
  of_list [] t k = k
  of_list (c ∷ cfgs) t k =
      of_list cfgs (if contains matches c.entity_id t then t else put_cfg matches c t)
        (subst IsKeyed (table_after c t) (add_config-IsKeyed c t k))

  -- Where every lookup in a table answers with the configuration of the entity that is asked for, this
  -- stays so after add_config and after add_configs with any configurations, repeated ones included.
  pub add_configs-IsKeyed :
      (cfg : RemoteEntityCfg) (cfgs : List RemoteEntityCfg) (t : RemoteEntityCfgTable)
      → IsKeyed t
      → IsKeyed (add_config matches cfg t).0 × IsKeyed (add_configs matches cfgs t)
  add_configs-IsKeyed cfg cfgs t k = (add_config-IsKeyed cfg t k, of_list cfgs t k)
