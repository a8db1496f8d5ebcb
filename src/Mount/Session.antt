-- ===== src/Mount/Session.antt =====
-- volume_manager.py, `mount_volume` and `_synchronized_mount_volume`: the decision between the first
-- mount, one more mount on this node, a mount after a reboot and a volume of another node.
use Prim.Native.String.{String}
use text.Mathlib.Text.{find?}
use python_hpedockerplugin.Prelude.{
  Bool, true, false, ◌&&◌, Option, none, some, [], ◌∷◌, contains, lookup, insert, is_some,
  if◌then◌else◌,
}
use python_hpedockerplugin.Volume.{
  PathInfo, Volume, Snapshot, stored_path_info, default_mount_conflict_delay,
}
use python_hpedockerplugin.Effect.{
  get_connector_properties, mount_dir, foreign, mount_exception, State, Env, M, pure, raise, gets,
  or_key_error, ◌>>=◌, ◌>>◌, try_else, call, reset_undo,
}
use python_hpedockerplugin.Etcd.{get_vol_byname, update_vol}
use python_hpedockerplugin.Locks.{synchronized_volume}
use python_hpedockerplugin.Manager.{Response, success}
use python_hpedockerplugin.Replication.{Config}
use python_hpedockerplugin.Mount.{
  MountInfo, Ownership, owned_and_mounted, owned_and_not_mounted, not_owned, or_type_error,
  is_vol_mounted_on_this_node, update_mount_id_list, get_success_response,
  wait_for_graceful_vol_unmount,
}
use python_hpedockerplugin.Mount.Fencing.{fence}
use python_hpedockerplugin.Mount.Attach.{MountArgs, rollback_mount, attach}

abbrev is_dm_device : String → Bool
is_dm_device path = is_some (find? path "dm-")

module _ (env : Env) where
  -- The owner and the mode of a snapshot are in its entry.
  unfoldable pub with_snapshot_owner : Volume → Option Snapshot → M Volume
  with_snapshot_owner vol none = raise (foreign "'NoneType' object has no attribute 'get'")
  with_snapshot_owner vol (some entry) =
      pure (record vol { fs_owner = entry.fs_owner; fs_mode = entry.fs_mode })

  -- The record of an older plugin gets `is_snap`.
  unfoldable pub with_snap_flag : Volume → Option Bool → M Volume
  unfolding with_snapshot_owner
  with_snap_flag vol none = do
    update_vol env vol.id (λ v. record v { is_snap = some false })
    pure (record vol { is_snap = some false })
  with_snap_flag vol (some false) = pure vol
  with_snap_flag vol (some true) = with_snapshot_owner vol vol.snap_metadata

  unfoldable pub with_delay : Volume → M Volume
  with_delay vol = if is_some vol.mount_conflict_delay then pure vol else do
    update_vol env vol.id
        (λ v. record v { mount_conflict_delay = some default_mount_conflict_delay })
    pure (record vol { mount_conflict_delay = some default_mount_conflict_delay })

  -- After a reboot the ids of before are dropped.
  unfoldable pub renew_mount_ids : String → Volume → MountInfo → String → M (Unit {0})
  renew_mount_ids node_id vol node_mount_info mount_id = do
    ids ← or_key_error node_id (lookup node_id node_mount_info)
    if contains mount_id ids
        then pure tt
        else update_vol env vol.id (λ v. record v {
          node_mount_info = some (insert node_id (mount_id ∷ []) node_mount_info);
        })

  unfoldable pub remount : Config → MountArgs → Volume → MountInfo → PathInfo → M Response
  unfolding renew_mount_ids
  remount config args vol node_mount_info path_info =
      try_else
        (do
          call env (mount_dir path_info.device_path path_info.mount_dir)
          update_vol env vol.id (λ v. record v { path_info = some (some path_info) }))
        (rollback_mount env)
        (λ _. do
          renew_mount_ids config.node_id vol node_mount_info args.mount_id
          get_success_response env vol)

  -- The volume is this node's, and is not mounted.
  unfoldable pub after_reboot :
      Config → MountArgs → Volume → Bool → MountInfo → PathInfo → M Response
  unfolding remount
  after_reboot config args vol is_snap node_mount_info path_info = do
    real_path ← gets (λ s. env.realpath path_info.device_path s.calls)
    usable ← gets (λ (s : State).
        is_dm_device real_path
        && env.exists path_info.mount_dir s.calls
        && env.exists real_path s.calls)
    if usable
        then remount config args vol node_mount_info (record path_info { path = real_path })
        else attach env config args vol is_snap node_mount_info

  unfoldable pub by_ownership :
      Config → MountArgs → Volume → Bool → MountInfo → Ownership → M Response
  unfolding after_reboot
  by_ownership config args vol is_snap node_mount_info owned_and_mounted = do
    update_mount_id_list env config.node_id vol node_mount_info args.mount_id
    get_success_response env vol
  by_ownership config args vol is_snap node_mount_info not_owned = do
    fence env config vol is_snap node_mount_info
    attach env config args vol is_snap ((config.node_id, args.mount_id ∷ []) ∷ [])
  by_ownership config args vol is_snap node_mount_info owned_and_not_mounted = do
    path_info ← or_type_error (stored_path_info vol)
    after_reboot config args vol is_snap node_mount_info path_info

  unfoldable pub by_mount_info : Config → MountArgs → Volume → Bool → Option MountInfo → M Response
  unfolding by_ownership
  by_mount_info config args vol is_snap none =
      attach env config args vol is_snap ((config.node_id, args.mount_id ∷ []) ∷ [])
  by_mount_info config args vol is_snap (some node_mount_info) = do
    flag ← is_vol_mounted_on_this_node env config.node_id node_mount_info vol
    by_ownership config args vol is_snap node_mount_info flag

  abbrev pub snap_flag : Volume → Bool
  snap_flag vol = elim vol.is_snap [ none ↦ false | some b ↦ b ]

  unfoldable pub mount_found : Config → MountArgs → Option Volume → M Response
  unfolding with_snap_flag with_delay by_mount_info
  mount_found config args none = raise (mount_exception args.volname)
  mount_found config args (some found) = do
    reset_undo
    flagged ← with_snap_flag found found.is_snap
    vol ← with_delay flagged
    by_mount_info config args vol (snap_flag vol) vol.node_mount_info

  -- `_synchronized_mount_volume`
  unfoldable pub synchronized_mount_volume : Config → MountArgs → M Response
  unfolding mount_found
  synchronized_mount_volume config args = synchronized_volume env args.volname success (do
    call env get_connector_properties
    vol ← get_vol_byname env args.volname
    mount_found config args vol)

  -- A volume of another node is waited for.
  unfoldable pub wait_if_not_owned : Config → Volume → Option MountInfo → M (Unit {0})
  wait_if_not_owned config vol none = pure tt
  wait_if_not_owned config vol (some []) = pure tt
  wait_if_not_owned config vol (some (entry ∷ rest)) = do
    flag ← is_vol_mounted_on_this_node env config.node_id (entry ∷ rest) vol
    elim flag [ not_owned ↦ (do wait_for_graceful_vol_unmount env vol; pure tt) | _ ↦ pure tt ]

  unfoldable pub wait_for_owner : Config → MountArgs → Option Volume → M (Unit {0})
  unfolding wait_if_not_owned
  wait_for_owner config args none = raise (mount_exception args.volname)
  wait_for_owner config args (some vol) = wait_if_not_owned config vol vol.node_mount_info

  unfoldable pub mount_volume : Config → MountArgs → M Response
  unfolding wait_for_owner synchronized_mount_volume
  mount_volume config args = do
    vol ← get_vol_byname env args.volname
    wait_for_owner config args vol
    synchronized_mount_volume config args
