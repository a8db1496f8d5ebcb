-- ===== src/Manager.antt =====
-- volume_manager.py: what the operations share, the answers to Docker and the helpers that register
-- undo steps.
pub mod Tracked
pub mod Undone
pub mod Create
pub mod Clone
pub mod Snapshot
pub mod Remove
pub mod Inspect
use python_hpedockerplugin.Prelude.{
  ℕ, String, Bool, true, false, Option, none, some, List, str_eq, is_some, ◌&&◌, not, ◌==◌,
  if◌then◌else◌,
}
use python_hpedockerplugin.Volume.{
  Flash, flag, flash_truth, RcgInfo, rcg_info, lock_failure_text, Volume,
}
use python_hpedockerplugin.Effect.{
  Array, primary, Call, create_volume, delete_volume, create_cloned_volume, get_qos_detail,
  get_vvset_detail, create_vvs, delete_vvset, set_flash_cache, add_to_volume_set,
  remove_from_volume_set, get_rcg, create_rcg, delete_rcg, add_to_rcg, remove_from_rcg, Error, Env,
  M, pure, ◌>>=◌, ◌>>◌, try_else, call, ask, append_undo,
}
use python_hpedockerplugin.Effect.Undo.{ask_undo, rollback}
use python_hpedockerplugin.Names.{get_3par_name, get_3par_vol_name}
use python_hpedockerplugin.Locks.{synchronized_rcg}

-- The texts of the answers. `raised` is the text of an exception.
pub data Message : Type 0 where
  raised : Error → Message
  source_missing volume_missing has_child_snapshots snapshot_missing snapshot_exists :
      String → Message
  active_task source_is_snapshot clone_of_snapshot : String → Message
  clone_too_small : (size source_size : ℕ) → Message
  parent_missing : String → Message
  mount_failed : Error → Message

-- The JSON objects that Docker gets.
pub data Response : Type 0 where
  -- {"Err": ""}
  success : Response
  failure : Message → Response
  mounted : (name mountpoint devicename : String) → Response

-- `_rollback(undo_steps)`, and then the answer with the exception's text.
unfoldable pub rollback_and_fail : Env → Error → M Response
rollback_and_fail env e = do rollback env; pure (failure (raised e))

-- The truth value of a text that may be None.
abbrev pub named : Option String → Bool
named none = false
named (some t) = not (str_eq t "")

module _ (env : Env) where
  -- `_create_volume`
  unfoldable pub create_backend_volume : Volume → M String
  unfolding ask_undo
  create_backend_volume vol =
      ask_undo env (create_volume vol.id) (env.text (create_volume vol.id))
        (λ _. delete_volume vol.id false)

  -- `__clone_volume__`
  unfoldable pub clone_backend_volume : Volume → Volume → M String
  unfolding ask_undo
  clone_backend_volume src_vol clone_vol =
      ask_undo env (create_cloned_volume clone_vol.id src_vol.id)
        (env.text (create_cloned_volume clone_vol.id src_vol.id))
        (λ _. delete_volume clone_vol.id false)

  -- `_create_vvs`
  unfoldable pub create_volume_set : String → M String
  unfolding ask_undo
  create_volume_set id =
      ask_undo env (create_vvs id) (env.text (create_vvs id)) (λ _. delete_vvset id)

  unfoldable pub add_volume_to_vvset : String → Volume → M String
  unfolding ask_undo
  add_volume_to_vvset vvs_name vol =
      ask_undo env (add_to_volume_set vol.id vvs_name)
        (env.text (add_to_volume_set vol.id vvs_name))
        (λ bkend_vol_name. remove_from_volume_set bkend_vol_name vvs_name)

  -- If the volume asks for flash cache and is in no volume set, one is created for it.
  unfoldable pub volume_set_for : Volume → M (Option String)
  unfolding create_volume_set
  volume_set_for vol =
      if flash_truth vol.flash_cache && not (named vol.qos_name)
      then (do name ← create_volume_set vol.id; pure (some name))
      else pure vol.qos_name

  -- `if vvs_name is not None: ...` and `if vvs_name: ...`
  unfoldable pub apply_volume_set : Volume → Option String → M (Unit {0})
  unfolding add_volume_to_vvset
  apply_volume_set vol none = pure tt
  apply_volume_set vol (some vvs_name) = do
    call env (set_flash_cache vol.flash_cache vvs_name)
    if not (str_eq vvs_name "") then (do add_volume_to_vvset vvs_name vol; pure tt) else pure tt

  unfoldable pub apply_volume_specs : Volume → M (Unit {0})
  unfolding volume_set_for apply_volume_set
  apply_volume_specs vol = do vvs_name ← volume_set_for vol; apply_volume_set vol vvs_name

  unfoldable pub find_rcg : String → M RcgInfo
  find_rcg rcg_name =
      ask env (get_rcg primary rcg_name)
        (λ h. rcg_info rcg_name (env.rcg primary rcg_name h).remote_group_name)

  -- Under the lock of the group. Where the lock fails, its wrapper returns a text.
  unfoldable pub create_group : String → M RcgInfo
  unfolding ask_undo
  create_group rcg_name = synchronized_rcg env rcg_name lock_failure_text (
      ask_undo env (create_rcg rcg_name) (λ h. rcg_info rcg_name (env.text (create_rcg rcg_name) h))
        (λ _. delete_rcg rcg_name))

  unfoldable pub add_volume_to_rcg : Volume → String → M (Unit {0})
  unfolding ask_undo
  add_volume_to_rcg vol rcg_name =
      let bkend_vol_name = get_3par_vol_name env.encode vol.id in
      ask_undo env (add_to_rcg bkend_vol_name rcg_name) (λ _. tt)
        (λ _. remove_from_rcg bkend_vol_name rcg_name)
