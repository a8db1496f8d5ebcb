-- ===== src/Manager/Create.antt =====
-- volume_manager.py, `create_volume`.

pub mod Undo
use python_hpedockerplugin.Prelude.{ℕ, String, Bool, Option, none, some, str_eq, if◌then◌else◌}
use python_hpedockerplugin.Volume.{Flash, flag, RcgInfo, Volume, Spec, createvol}
use python_hpedockerplugin.Effect.{
  Call, get_qos_detail, get_vvset_detail, Error, rcg_not_found, Env, M, pure, raise, gets, ◌>>=◌,
  ◌>>◌, try_else, call, ask, reset_undo,
}
use python_hpedockerplugin.Names.{get_3par_name}
use python_hpedockerplugin.Etcd.{get_vol_byname, save_vol}
use python_hpedockerplugin.Locks.{synchronized_volume}
use python_hpedockerplugin.Manager.{
  raised, Response, success, failure, rollback_and_fail, create_backend_volume, apply_volume_specs,
  find_rcg, create_group, add_volume_to_rcg,
}

pub record CreateArgs : Type 0 where
  pub volname : String
  pub vol_size : ℕ
  pub vol_prov : String
  pub vol_flash : Option Flash
  pub compression_val : Option String
  pub vol_qos : Option String
  pub fs_owner : Option String
  pub fs_mode : Option String
  pub mount_conflict_delay : ℕ
  pub cpg : Option String
  pub snap_cpg : Option String
  pub current_backend : String
  pub rcg_name : Option String

-- The specification that `volume.createvol` gets.
abbrev pub spec_of : CreateArgs → Option Flash → Spec
spec_of args flash = record {
  display_name = args.volname;
  size = args.vol_size;
  prov = args.vol_prov;
  flash_cache = flash;
  compression_val = args.compression_val;
  qos = args.vol_qos;
  mount_conflict_delay = args.mount_conflict_delay;
  is_snap = Bool.false;
  cpg = args.cpg;
  snap_cpg = args.snap_cpg;
  has_schedule = Bool.false;
  current_backend = args.current_backend;
}

module _ (env : Env) where
  -- The check of a given qos name: its volume set has a qos rule, and where no flash cache was
  -- asked for, the volume takes that of the set.
  unfoldable pub check_qos : Option String → Option Flash → M (Option Flash)
  check_qos none flash = pure flash
  check_qos (some qos) (some flash) = do call env (get_qos_detail qos); pure (some flash)
  check_qos (some qos) none = do
    call env (get_qos_detail qos)
    enabled ← ask env (get_vvset_detail qos) (env.flag (get_vvset_detail qos))
    pure (if enabled then some (flag Bool.true) else none)

  -- `except HPEDriverRemoteCopyGroupNotFound`
  unfoldable pub create_if_not_found : String → Error → M RcgInfo
  create_if_not_found rcg_name (rcg_not_found name) = create_group env rcg_name
  create_if_not_found rcg_name e = raise e

  unfoldable pub replicate_volume : Volume → String → M (Option RcgInfo)
  unfolding create_if_not_found
  replicate_volume vol rcg_name = do
    info ← try_else (find_rcg env rcg_name) (create_if_not_found rcg_name) pure
    add_volume_to_rcg env vol rcg_name
    pure (some info)

  -- `if rcg_name: ...`
  unfoldable pub replicate_if_asked : Volume → Option String → M (Option RcgInfo)
  unfolding replicate_volume
  replicate_if_asked vol none = pure none
  replicate_if_asked vol (some rcg_name) =
      if str_eq rcg_name "" then pure none else replicate_volume vol rcg_name

  -- The record that is saved at the end.
  abbrev pub saved_volume : CreateArgs → Volume → String → Option RcgInfo → Volume
  saved_volume args vol bkend_vol_name info = record vol {
    rcg = info;
    fs_owner = args.fs_owner;
    fs_mode = args.fs_mode;
    three_par_vol_name = bkend_vol_name;
  }

  -- The body of the `try` statement.
  unfoldable pub create_steps : CreateArgs → Volume → M (Unit {0})
  unfolding replicate_if_asked
  create_steps args vol = do
    bkend_vol_name ← create_backend_volume env vol
    apply_volume_specs env vol
    info ← replicate_if_asked vol args.rcg_name
    save_vol env (saved_volume args vol bkend_vol_name info)

  unfoldable pub create_new : CreateArgs → Option Flash → M Response
  unfolding create_steps
  create_new args flash = do
    reset_undo
    uuid ← gets (λ s. env.uuid4 s.calls)
    let vol = createvol (get_3par_name env.encode) uuid (spec_of args flash)
    try_else (create_steps args vol) (rollback_and_fail env) (λ _. pure success)

  unfoldable pub create_unless_exists : CreateArgs → Option Volume → M Response
  unfolding create_new check_qos
  create_unless_exists args (some vol) = pure success
  create_unless_exists args none =
      try_else (check_qos args.vol_qos args.vol_flash) (λ e. pure (failure (raised e)))
        (create_new args)

  unfoldable pub create_volume_locked : CreateArgs → M Response
  unfolding create_unless_exists
  create_volume_locked args = do
    vol ← get_vol_byname env args.volname
    create_unless_exists args vol

  unfoldable pub create_volume : CreateArgs → M Response
  unfolding create_volume_locked
  create_volume args = synchronized_volume env args.volname success (create_volume_locked args)
