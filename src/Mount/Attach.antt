-- ===== src/Mount/Attach.antt =====
-- volume_manager.py, `_synchronized_mount_volume`: from the connected device to the mounted
-- directory and the record in etcd. The test `path.exists is False` of the source compares a method
-- with a boolean, and is never true; `lfdir.exists` is a method, and always true.
pub mod Answers
pub mod Undo
use Prim.Native.String.{String, ◌++◌}
use python_hpedockerplugin.Prelude.{Bool, true, false, Option, none, some, str_eq, if◌then◌else◌}
use python_hpedockerplugin.Volume.{PathInfo, Volume, default_mount_volume}
use python_hpedockerplugin.Effect.{
  has_filesystem, create_filesystem, make_dir, remove_dir, mount_dir, umount_dir, chown, chmod,
  Error, Env, M, pure, gets, ◌>>=◌, ◌>>◌, try_else, call, ask,
}
use python_hpedockerplugin.Effect.Undo.{ask_undo, rollback}
use python_hpedockerplugin.Etcd.{update_vol}
use python_hpedockerplugin.Manager.{
  Response, failure, mounted, mount_failed, named, rollback_and_fail,
}
use python_hpedockerplugin.Replication.{Config}
use python_hpedockerplugin.Mount.{MountInfo}
use python_hpedockerplugin.Mount.Connect.{Attachment, mount_arrays}

-- What a request to mount gives, and `FilePath(device_info['path']).realpath()`.
pub record MountArgs : Type 0 where
  pub volname : String
  pub vol_mount : String
  pub mount_id : String

abbrev pub path_info_for : String → String → Attachment → String → PathInfo
path_info_for volname real_path attachment dir = record {
  name = volname;
  path = real_path;
  device_path = attachment.device_path;
  connection_info = attachment.pri_connection_info;
  mount_dir = dir;
  remote_connection_info = attachment.sec_connection_info;
}

module _ (env : Env) where
  unfoldable pub ensure_filesystem : String → M (Unit {0})
  ensure_filesystem real_path = do
    found ← ask env (has_filesystem real_path) (env.flag (has_filesystem real_path))
    if found then pure tt else call env (create_filesystem real_path)

  unfoldable pub set_owner : Option String → String → M (Unit {0})
  set_owner none dir = pure tt
  set_owner (some fs_owner) dir =
      if str_eq fs_owner "" then pure tt else call env (chown fs_owner dir)

  unfoldable pub set_mode : Option String → String → M (Unit {0})
  set_mode none dir = pure tt
  set_mode (some fs_mode) dir = if str_eq fs_mode "" then pure tt else call env (chmod fs_mode dir)

  -- The last `try` statement.
  unfoldable pub record_steps : Volume → MountInfo → PathInfo → M (Unit {0})
  unfolding set_owner set_mode
  record_steps vol node_mount_info path_info = do
    set_owner vol.fs_owner path_info.mount_dir
    set_mode vol.fs_mode path_info.mount_dir
    update_vol env vol.id (λ v. record v { node_mount_info = some node_mount_info })
    update_vol env vol.id (λ v. record v { path_info = some (some path_info) })

  unfoldable pub record_mount : Volume → MountInfo → PathInfo → M Response
  unfolding record_steps
  record_mount vol node_mount_info path_info =
      try_else (record_steps vol node_mount_info path_info) (rollback_and_fail env)
        (λ _. pure (mounted path_info.name path_info.mount_dir path_info.path))

  -- Roll back, and answer that the mount failed.
  unfoldable pub rollback_mount : Error → M Response
  rollback_mount e = do rollback env; pure (failure (mount_failed e))

  unfoldable pub remove_lost_found : String → M (Unit {0})
  remove_lost_found dir = call env (remove_dir (dir ++ "/lost+found"))

  unfoldable pub mount_at : Volume → MountInfo → PathInfo → M Response
  unfolding ask_undo rollback_mount remove_lost_found record_mount
  mount_at vol node_mount_info path_info =
      try_else
        (ask_undo env (mount_dir path_info.path path_info.mount_dir) (λ h. tt)
          (λ _. umount_dir path_info.mount_dir))
        rollback_mount
        (λ _. do remove_lost_found path_info.mount_dir; record_mount vol node_mount_info path_info)

  unfoldable pub mount_path : MountArgs → Volume → MountInfo → Attachment → String → M Response
  unfolding ensure_filesystem mount_at record_mount
  mount_path args vol node_mount_info attachment real_path = do
    ensure_filesystem real_path
    if str_eq args.vol_mount default_mount_volume
        then (do
          dir ←
              ask_undo env (make_dir attachment.device_path)
                (env.text (make_dir attachment.device_path)) remove_dir
          mount_at vol node_mount_info (path_info_for args.volname real_path attachment dir))
        else record_mount vol node_mount_info (path_info_for args.volname real_path attachment "")

  unfoldable pub mount_device : MountArgs → Volume → MountInfo → Attachment → M Response
  unfolding mount_path
  mount_device args vol node_mount_info attachment = do
    real_path ← gets (λ s. env.realpath attachment.device_path s.calls)
    mount_path args vol node_mount_info attachment real_path

  -- All that follows the fencing.
  unfoldable pub attach : Config → MountArgs → Volume → Bool → MountInfo → M Response
  unfolding mount_device
  attach config args vol is_snap node_mount_info = do
    attachment ← mount_arrays env config vol is_snap
    mount_device args vol node_mount_info attachment
