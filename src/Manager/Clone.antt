-- ===== src/Manager/Clone.antt =====
-- volume_manager.py, `clone_volume` and `_clone_volume`.

pub mod Undo
use python_hpedockerplugin.Prelude.{
  ℕ, String, Bool, true, false, Option, none, some, List, [], ltb, ◌==◌, if◌then◌else◌,
}
use python_hpedockerplugin.Volume.{Volume, Spec, createvol, default_mount_conflict_delay}
use python_hpedockerplugin.Effect.{
  Call, is_vol_having_active_task, get_cpg, get_snapcpg, key_error, Env, M, pure, raise, gets,
  ◌>>=◌, ◌>>◌, try_else, ask, reset_undo,
}
use python_hpedockerplugin.Names.{get_3par_name, get_3par_vol_name, active_task_pattern}
use python_hpedockerplugin.Etcd.{get_vol_byname, save_vol}
use python_hpedockerplugin.Locks.{synchronized_volume}
use python_hpedockerplugin.Manager.{
  Response, success, failure, source_missing, active_task, clone_too_small, clone_of_snapshot,
  named, rollback_and_fail, clone_backend_volume, apply_volume_specs,
}

pub record CloneArgs : Type 0 where
  pub src_vol_name : String
  pub clone_name : String
  pub size : Option ℕ
  pub cpg : Option String
  pub snap_cpg : Option String
  pub current_backend : String
  pub clone_opts : Option (List (String × String))

-- `if not size: size = src_vol['size']`
abbrev pub size_or : ℕ → Option ℕ → ℕ
size_or default none = default
size_or default (some size) = if size == 0 then default else size

-- `src_vol.get(key, default)`
abbrev pub key_or : Option String → Option (Option String) → Option String
key_or default none = default
key_or default (some value) = value

abbrev pub is_snapshot : Volume → Bool
is_snapshot vol = elim vol.is_snap [ none ↦ false | some b ↦ b ]

-- What a record of an old version of the plug-in lacks.
abbrev pub upgraded_source : Volume → Volume
upgraded_source src_vol = record src_vol {
  compression = none;
  qos_name = none;
  mount_conflict_delay = some default_mount_conflict_delay;
  snapshots = some [];
}

abbrev pub clone_spec : CloneArgs → Volume → ℕ → ℕ → Option String → Option String → Spec
clone_spec args src_vol delay size cpg snap_cpg = record {
  display_name = args.clone_name;
  size = size;
  prov = src_vol.provisioning;
  flash_cache = src_vol.flash_cache;
  compression_val = src_vol.compression;
  qos = src_vol.qos_name;
  mount_conflict_delay = delay;
  is_snap = false;
  cpg = cpg;
  snap_cpg = snap_cpg;
  has_schedule = false;
  current_backend = args.current_backend;
}

module _ (env : Env) where
  abbrev pub saved_clone : CloneArgs → Volume → Volume → String → Volume
  saved_clone args src_vol clone_vol bkend_clone_name = record clone_vol {
    fs_owner = src_vol.fs_owner;
    fs_mode = src_vol.fs_mode;
    three_par_vol_name = bkend_clone_name;
    options = args.clone_opts;
  }

  -- The body of the `try` statement of `_clone_volume`.
  unfoldable pub clone_steps : CloneArgs → Volume → Volume → M (Unit {0})
  clone_steps args src_vol clone_vol = do
    bkend_clone_name ← clone_backend_volume env src_vol clone_vol
    apply_volume_specs env clone_vol
    save_vol env (saved_clone args src_vol clone_vol bkend_clone_name)

  unfoldable pub clone_with_delay :
      CloneArgs → Volume → ℕ → Option String → Option String → Option ℕ → M Response
  unfolding clone_steps
  clone_with_delay args src_vol size cpg snap_cpg none = raise (key_error "mount_conflict_delay")
  clone_with_delay args src_vol size cpg snap_cpg (some delay) = do
    uuid ← gets (λ s. env.uuid4 s.calls)
    let spec = clone_spec args src_vol delay size cpg snap_cpg
    let clone_vol = createvol (get_3par_name env.encode) uuid spec
    try_else (clone_steps args src_vol clone_vol) (rollback_and_fail env) (λ _. pure success)

  unfoldable pub clone_locked : CloneArgs → Volume → ℕ → Option String → Option String → M Response
  unfolding clone_with_delay
  clone_locked args src_vol size cpg snap_cpg = do
    reset_undo
    clone_with_delay args src_vol size cpg snap_cpg src_vol.mount_conflict_delay

  -- `_clone_volume`
  unfoldable pub clone_to : CloneArgs → Volume → ℕ → Option String → Option String → M Response
  unfolding clone_locked
  clone_to args src_vol size cpg snap_cpg =
      synchronized_volume env args.clone_name success (clone_locked args src_vol size cpg snap_cpg)

  -- `if not cpg: cpg = src_vol.get('cpg', driver.get_cpg(...))`; the driver is asked in any case.
  unfoldable pub choose_cpg : Volume → Option String → M (Option String)
  choose_cpg src_vol cpg = if named cpg then pure cpg else do
    found ← ask env (get_cpg src_vol.id) (λ h. some (env.text (get_cpg src_vol.id) h))
    pure (key_or found src_vol.cpg)

  unfoldable pub choose_snap_cpg : Volume → Option String → M (Option String)
  choose_snap_cpg src_vol snap_cpg = if named snap_cpg then pure snap_cpg else do
    found ← ask env (get_snapcpg src_vol.id) (λ h. some (env.text (get_snapcpg src_vol.id) h))
    pure (key_or found src_vol.snap_cpg)

  -- `if 'snapshots' not in src_vol: ...`
  unfoldable pub upgrade_source : Volume → M Volume
  upgrade_source src_vol = elim src_vol.snapshots [
    | none ↦ (do save_vol env (upgraded_source src_vol); pure (upgraded_source src_vol))
    | some snapshots ↦ pure src_vol
  ]

  unfoldable pub clone_idle : CloneArgs → Volume → M Response
  unfolding choose_cpg choose_snap_cpg upgrade_source clone_to
  clone_idle args src_vol = do
    let size = size_or src_vol.size args.size
    cpg ← choose_cpg src_vol args.cpg
    snap_cpg ← choose_snap_cpg src_vol args.snap_cpg
    if ltb size src_vol.size
        then pure (failure (clone_too_small size src_vol.size))
        else if is_snapshot src_vol
        then pure (failure (clone_of_snapshot args.src_vol_name))
        else do upgraded ← upgrade_source src_vol; clone_to args upgraded size cpg snap_cpg

  unfoldable pub clone_found : CloneArgs → Option Volume → M Response
  unfolding clone_idle
  clone_found args none = pure (failure (source_missing args.src_vol_name))
  clone_found args (some src_vol) = do
    let volume_3par = active_task_pattern (get_3par_vol_name env.encode src_vol.id)
    busy ←
        ask env (is_vol_having_active_task volume_3par)
          (env.flag (is_vol_having_active_task volume_3par))
    if busy then pure (failure (active_task args.src_vol_name)) else clone_idle args src_vol

  unfoldable pub clone_volume : CloneArgs → M Response
  unfolding clone_found
  clone_volume args =
      synchronized_volume env args.src_vol_name success
        do src_vol ← get_vol_byname env args.src_vol_name; clone_found args src_vol
