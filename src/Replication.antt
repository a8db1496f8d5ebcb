-- ===== src/Replication.antt =====
-- volume_manager.py, `_get_target_driver` and `_force_remove_vlun`: on which array a replicated
-- volume is active.
pub mod Roles
use python_hpedockerplugin.Prelude.{
  ℕ, String, Bool, true, false, not, ◌&&◌, Option, none, some, ◌==◌, if◌then◌else◌,
}
use python_hpedockerplugin.Volume.{RcgInfo, rcg_info, lock_failure_text, Volume}
use python_hpedockerplugin.Effect.{
  Array, primary, secondary, get_rcg, force_remove_vlun, Error, foreign, rcg_in_transition,
  rcg_not_found, force_remove_vlun_failed, Result, ok, err, Rcg, Env, M, pure, raise, ◌>>=◌, ◌>>◌,
  try_else, call, ask,
}
use python_hpedockerplugin.Names.{get_3par_name}

-- What the manager knows of the configuration.
pub record Config : Type 0 where
  pub node_id : String
  -- `tgt_bkend_config`: replication is configured
  pub replication : Bool
  -- `tgt_bkend_config.quorum_witness_ip`: Peer Persistence
  pub quorum_witness : Bool

-- PRIMARY and PRIMARY_REV are the same number.
abbrev pub primary_role : ℕ
primary_role = 1

abbrev pub secondary_role : ℕ
secondary_role = 2

-- Neither array decides: the last lines of `_get_target_driver`.
unfoldable pub target_of_remote : String → Option Rcg → Result Array
target_of_remote rcg_name none = err (rcg_not_found rcg_name)
target_of_remote rcg_name (some remote) =
    if remote.role == primary_role && remote.role_reversed
    then ok secondary
    else err (rcg_not_found rcg_name)

-- The decision of `_get_target_driver` on the two groups that it fetched.
unfoldable pub target_array : String → Option Rcg → Option Rcg → Result Array
unfolding target_of_remote
target_array rcg_name (some local) (some remote) =
    if local.role == primary_role
      && not local.role_reversed
      && remote.role == secondary_role
      && not remote.role_reversed
    then ok primary
    else if local.role == primary_role
        && not local.role_reversed
        && remote.role == primary_role
        && remote.role_reversed
    then ok secondary
    else if remote.role == primary_role
        && remote.role_reversed
        && local.role == secondary_role
        && local.role_reversed
    then ok secondary
    else err (rcg_in_transition rcg_name)
target_array rcg_name (some local) none =
    if local.role == primary_role && not local.role_reversed
    then ok primary
    else target_of_remote rcg_name none
target_array rcg_name none remote = target_of_remote rcg_name remote

unfoldable pub or_raise : {A : Type 0} → Result A → M A
or_raise (ok a) = pure a
or_raise (err e) = raise e

module _ (env : Env) where
  -- A group that cannot be fetched is None. What the array answers is taken to have the keys that are
  -- read of it.
  unfoldable pub fetch_rcg : Array → String → M (Option Rcg)
  fetch_rcg array name =
      try_else (ask env (get_rcg array name) (env.rcg array name)) (λ e. pure none)
        (λ found. pure (some found))

  unfoldable pub get_target_driver : RcgInfo → M Array
  unfolding fetch_rcg target_array or_raise
  get_target_driver lock_failure_text = raise (foreign "'str' object has no attribute 'get'")
  get_target_driver (rcg_info local_rcg_name remote_rcg_name) = do
    local_rcg ← fetch_rcg primary local_rcg_name
    remote_rcg ← fetch_rcg secondary remote_rcg_name
    or_raise (target_array local_rcg_name local_rcg remote_rcg)

  unfoldable pub force_remove_replicated : Config → String → RcgInfo → M (Unit {0})
  unfolding get_target_driver
  force_remove_replicated config bkend_vol_name info =
      if config.quorum_witness
      then (do
        call env (force_remove_vlun primary bkend_vol_name)
        call env (force_remove_vlun secondary bkend_vol_name))
      else try_else
          (do driver ← get_target_driver info; call env (force_remove_vlun driver bkend_vol_name))
          (λ e. raise (force_remove_vlun_failed bkend_vol_name)) pure

  unfoldable pub force_remove_for : Config → String → Option RcgInfo → M (Unit {0})
  unfolding force_remove_replicated
  force_remove_for config bkend_vol_name none = call env (force_remove_vlun primary bkend_vol_name)
  force_remove_for config bkend_vol_name (some info) =
      if config.replication
      then force_remove_replicated config bkend_vol_name info
      else call env (force_remove_vlun primary bkend_vol_name)

  -- `_force_remove_vlun`
  unfoldable pub force_remove_volume_vlun : Config → Volume → Bool → M (Unit {0})
  unfolding force_remove_for
  force_remove_volume_vlun config vol is_snap =
      force_remove_for config (get_3par_name env.encode vol.id is_snap) vol.rcg
