-- ===== src/Manager/Snapshot.antt =====
-- volume_manager.py, `create_snapshot` and `_create_snapshot`.

pub mod Undo
use python_hpedockerplugin.Prelude.{
  ℕ, String, Bool, true, false, Option, none, some, List, [], ◌∷◌, ◌++◌, if◌then◌else◌,
}
use python_hpedockerplugin.Volume.{Volume, Snapshot, SnapSchedule, Spec, createvol}
use python_hpedockerplugin.Effect.{
  Call, etcd_write, etcd_delete, delete_volume, create_snap_schedule, is_vol_having_active_task,
  get_snapcpg, Error, save_failed, Env, M, pure, raise, gets, ◌>>=◌, ◌>>◌, try_else, call, ask,
  reset_undo,
}
use python_hpedockerplugin.Effect.Undo.{ask_undo}
use python_hpedockerplugin.Names.{get_3par_name, get_3par_vol_name, active_task_pattern}
use python_hpedockerplugin.Etcd.{get_vol_byname, save_vol, update_vol}
use python_hpedockerplugin.Locks.{synchronized_volume}
use python_hpedockerplugin.Manager.{
  raised, Response, success, failure, source_missing, snapshot_exists, active_task,
  source_is_snapshot, named, rollback_and_fail,
}
use python_hpedockerplugin.Manager.Clone.{key_or, is_snapshot}

pub record SnapshotArgs : Type 0 where
  pub src_vol_name : String
  pub sched_name : String
  pub snapshot_name : String
  pub snap_prefix : Option String
  pub expiration_hrs : Option ℕ
  pub exphrs : Option ℕ
  pub retention_hrs : Option ℕ
  pub rethrs : Option ℕ
  pub mount_conflict_delay : ℕ
  pub has_schedule : Bool
  pub sched_frequency : Option String
  pub current_backend : String

abbrev pub snapshot_spec : SnapshotArgs → Volume → Option String → Spec
snapshot_spec args vol snap_cpg = record {
  display_name = args.snapshot_name;
  size = vol.size;
  prov = vol.provisioning;
  flash_cache = vol.flash_cache;
  compression_val = vol.compression;
  qos = none;
  mount_conflict_delay = args.mount_conflict_delay;
  is_snap = true;
  cpg = none;
  snap_cpg = snap_cpg;
  has_schedule = args.has_schedule;
  current_backend = args.current_backend;
}

-- The entry that the parent's record gets, `db_snapshot`.
unfoldable pub snapshot_entry : SnapshotArgs → Volume → String → Snapshot
snapshot_entry args vol snapshot_id = record {
  name = args.snapshot_name;
  id = snapshot_id;
  parent_name = args.src_vol_name;
  parent_id = vol.id;
  fs_mode = vol.fs_mode;
  fs_owner = vol.fs_owner;
  expiration_hours = args.expiration_hrs;
  retention_hours = args.retention_hrs;
  snap_schedule =
      if args.has_schedule
      then some (record {
        schedule_name = args.sched_name;
        snap_name_prefix = args.snap_prefix;
        sched_frequency = args.sched_frequency;
        sched_snap_exp_hrs = args.exphrs;
        sched_snap_ret_hrs = args.rethrs;
      })
      else none;
}

-- `vol['snapshots'].append(entry)`
abbrev pub with_snapshot : Volume → Snapshot → Volume
with_snapshot vol entry = record vol {
  snapshots = elim vol.snapshots [
    | none ↦ some (entry ∷ [])
    | some entries ↦ some (entries ++ entry ∷ [])
  ];
}

abbrev pub snapshot_record : SnapshotArgs → Volume → Volume → String → Volume
snapshot_record args vol snap_vol bkend_snap_name = record snap_vol {
  snap_metadata = some (snapshot_entry args vol snap_vol.id);
  backend = args.current_backend;
  three_par_vol_name = bkend_snap_name;
}

module _ (env : Env) where
  -- `_create_snapshot_record`
  unfoldable pub create_snapshot_record : Volume → M (Unit {0})
  unfolding ask_undo
  create_snapshot_record snap_vol =
      try_else (ask_undo env (etcd_write snap_vol) (λ _. tt) (λ _. etcd_delete snap_vol.id))
        (λ _. raise (save_failed snap_vol.display_name)) pure

  -- The last `try` statement.
  unfoldable pub record_steps : SnapshotArgs → Volume → Volume → String → M (Unit {0})
  unfolding create_snapshot_record
  record_steps args vol snap_vol bkend_snap_name = do
    create_snapshot_record (snapshot_record args vol snap_vol bkend_snap_name)
    save_vol env (with_snapshot vol (snapshot_entry args vol snap_vol.id))

  unfoldable pub record_snapshot : SnapshotArgs → Volume → Volume → String → M Response
  unfolding record_steps
  record_snapshot args vol snap_vol bkend_snap_name =
      try_else (record_steps args vol snap_vol bkend_snap_name) (rollback_and_fail env)
        (λ _. pure success)

  -- The snapshot on the array, and its undo step.
  unfoldable pub create_backend_snapshot : Volume → Volume → M String
  unfolding ask_undo
  create_backend_snapshot vol snap_vol =
      ask_undo env (Call.create_snapshot snap_vol.id vol.id)
        (env.text (Call.create_snapshot snap_vol.id vol.id)) (λ _. delete_volume snap_vol.id true)

  unfoldable pub snapshot_on_array : SnapshotArgs → Volume → Volume → M Response
  unfolding create_backend_snapshot record_snapshot
  snapshot_on_array args vol snap_vol = do
    reset_undo
    try_else (create_backend_snapshot vol snap_vol) (λ e. pure (failure (raised e)))
        (record_snapshot args vol snap_vol)

  -- `if snap_vol['has_schedule']: ...`
  unfoldable pub schedule_if_asked : SnapshotArgs → Volume → M (Unit {0})
  schedule_if_asked args vol =
      if args.has_schedule
      then call env (create_snap_schedule (get_3par_vol_name env.encode vol.id) args.sched_name)
      else pure tt

  unfoldable pub take_snapshot : SnapshotArgs → Volume → Volume → M Response
  unfolding schedule_if_asked snapshot_on_array
  take_snapshot args vol snap_vol =
      try_else (schedule_if_asked args vol) (λ e. pure (failure (raised e)))
        (λ _. snapshot_on_array args vol snap_vol)

  unfoldable pub snapshot_cpg : Volume → M (Option String)
  snapshot_cpg vol =
      if named (key_or none vol.snap_cpg) then pure (key_or none vol.snap_cpg) else do
        found ← ask env (get_snapcpg vol.id) (λ h. some (env.text (get_snapcpg vol.id) h))
        pure (key_or found vol.snap_cpg)

  -- The fields that a record of an old version lacks: two are saved, the rest is set in memory.
  unfoldable pub with_schedule_flag : Volume → M Volume
  with_schedule_flag vol = elim vol.has_schedule [
    | none ↦ (do
      update_vol env vol.id (λ v. record v { has_schedule = some false })
      pure (record vol { has_schedule = some false }))
    | some b ↦ pure vol
  ]

  unfoldable pub with_snap_flag : Volume → M Volume
  with_snap_flag vol = elim vol.is_snap [
    | none ↦ (do
      update_vol env vol.id (λ v. record v { is_snap = some false })
      pure (record vol { is_snap = some false }))
    | some b ↦ pure vol
  ]

  abbrev pub with_snapshot_list : SnapshotArgs → Volume → Volume
  with_snapshot_list args vol = elim vol.snapshots [
    | none ↦ record vol {
      snapshots = some [];
      compression = none;
      qos_name = none;
      mount_conflict_delay = some args.mount_conflict_delay;
      backend = args.current_backend;
    }
    | some entries ↦ vol
  ]

  unfoldable pub snapshot_of_volume : SnapshotArgs → Volume → M Response
  unfolding snapshot_cpg take_snapshot
  snapshot_of_volume args vol =
      if is_snapshot vol then pure (failure (source_is_snapshot args.src_vol_name)) else do
        snap_cpg ← snapshot_cpg vol
        uuid ← gets (λ s. env.uuid4 s.calls)
        let spec = snapshot_spec args vol snap_cpg
        take_snapshot args vol (createvol (get_3par_name env.encode) uuid spec)

  unfoldable pub snapshot_found : SnapshotArgs → Option Volume → M Response
  unfolding snapshot_of_volume with_schedule_flag with_snap_flag
  snapshot_found args none = pure (failure (source_missing args.src_vol_name))
  snapshot_found args (some found) = do
    scheduled ← with_schedule_flag found
    let volume_3par = active_task_pattern (get_3par_vol_name env.encode found.id)
    busy ←
        ask env (is_vol_having_active_task volume_3par)
          (env.flag (is_vol_having_active_task volume_3par))
    if busy then pure (failure (active_task args.src_vol_name)) else do
      flagged ← with_snap_flag scheduled
      snapshot_of_volume args (with_snapshot_list args flagged)

  -- `_create_snapshot`
  unfoldable pub create_snapshot_of : SnapshotArgs → M Response
  unfolding snapshot_found
  create_snapshot_of args =
      synchronized_volume env args.src_vol_name success
        do vol ← get_vol_byname env args.src_vol_name; snapshot_found args vol

  unfoldable pub snapshot_unless_exists : SnapshotArgs → Option Volume → M Response
  unfolding create_snapshot_of
  snapshot_unless_exists args (some snap) = pure (failure (snapshot_exists args.snapshot_name))
  snapshot_unless_exists args none = create_snapshot_of args

  unfoldable pub create_snapshot : SnapshotArgs → M Response
  unfolding snapshot_unless_exists
  create_snapshot args =
      synchronized_volume env args.snapshot_name success
        do snap ← get_vol_byname env args.snapshot_name; snapshot_unless_exists args snap
