-- ===== src/Mount/Connect.antt =====
-- volume_manager.py, the inner function `_mount_volume` of `_synchronized_mount_volume`, and the
-- choice of the arrays that a volume is exported from.
pub mod Undo
use python_hpedockerplugin.Prelude.{
  String, Bool, true, false, ◌&&◌, Option, none, some, is_some, if◌then◌else◌,
}
use python_hpedockerplugin.Volume.{ConnectionInfo, RcgInfo, Volume}
use python_hpedockerplugin.Effect.{
  Array, primary, secondary, create_export, initialize_connection, terminate_connection,
  connect_volume, disconnect_volume, Error, mount_exception, Env, M, pure, raise, ◌>>=◌, ◌>>◌,
  try_else, call,
}
use python_hpedockerplugin.Effect.Undo.{ask_undo, rollback}
use python_hpedockerplugin.Replication.{Config, get_target_driver}

-- `device_info['path']` and the connection informations.
pub record Attached : Type 0 where
  pub device_path : String
  pub connection_info : ConnectionInfo

pub record Attachment : Type 0 where
  pub device_path : String
  pub pri_connection_info : ConnectionInfo
  pub sec_connection_info : Option ConnectionInfo

module _ (env : Env) where
  -- The first `try` statement.
  unfoldable pub initialize : Array → Volume → Bool → M ConnectionInfo
  unfolding ask_undo
  initialize array vol is_snap = do
    call env (create_export array vol.id is_snap)
    ask_undo env (initialize_connection array vol.id is_snap) (env.connection array vol.id)
        (λ _. terminate_connection array vol.id is_snap)

  -- Roll back, and raise the mount exception.
  unfoldable pub rollback_and_raise : {A : Type 0} → String → Error → M A
  rollback_and_raise reason e = do rollback env; raise (mount_exception reason)

  -- The second `try` statement.
  unfoldable pub connect : ConnectionInfo → M Attached
  unfolding ask_undo rollback_and_raise
  connect connection_info =
      try_else
        (ask_undo env (connect_volume connection_info) (env.text (connect_volume connection_info))
          (λ _. disconnect_volume connection_info))
        (rollback_and_raise "OS Brick connect volume failed")
        (λ device_path.
          pure (record { device_path = device_path; connection_info = connection_info }))

  -- `_mount_volume`
  unfoldable pub mount_on : Array → Volume → Bool → M Attached
  unfolding initialize connect rollback_and_raise
  mount_on array vol is_snap =
      try_else (initialize array vol is_snap) (rollback_and_raise "Initialize Connection Failed")
        connect

  -- The first device is the one that is used.
  unfoldable pub mount_on_both : Volume → Bool → M Attachment
  unfolding mount_on
  mount_on_both vol is_snap = do
    first ← mount_on primary vol is_snap
    second ← mount_on secondary vol is_snap
    pure (record {
      device_path = first.device_path;
      pri_connection_info = first.connection_info;
      sec_connection_info = some second.connection_info;
    })

  unfoldable pub mount_on_one : Array → Volume → Bool → M Attachment
  unfolding mount_on
  mount_on_one array vol is_snap = do
    only ← mount_on array vol is_snap
    pure (record {
      device_path = only.device_path;
      pri_connection_info = only.connection_info;
      sec_connection_info = none;
    })

  unfoldable pub mount_replicated : Config → Volume → RcgInfo → Bool → M Attachment
  unfolding mount_on_both mount_on_one
  mount_replicated config vol info is_snap =
      if config.quorum_witness
      then mount_on_both vol is_snap
      else do driver ← get_target_driver env info; mount_on_one driver vol is_snap

  unfoldable pub mount_arrays_for : Config → Volume → Option RcgInfo → Bool → M Attachment
  unfolding mount_replicated
  mount_arrays_for config vol none is_snap = mount_on_one primary vol is_snap
  mount_arrays_for config vol (some info) is_snap =
      if config.replication
      then mount_replicated config vol info is_snap
      else mount_on_one primary vol is_snap

  unfoldable pub mount_arrays : Config → Volume → Bool → M Attachment
  unfolding mount_arrays_for
  mount_arrays config vol is_snap = mount_arrays_for config vol vol.rcg is_snap
