-- ===== src/File/Create.antt =====
-- file_manager.py: how a share is created, and how a new group is made for it.
pub mod Tries
use Prim.Native.String.{◌++◌ as append}
use python_hpedockerplugin.Prelude.{
  ℕ, zero, suc, String, Bool, true, false, Option, none, some, List, [], ◌∷◌, if◌then◌else◌,
}
use python_hpedockerplugin.IpPool.{counter_of, counted}
use python_hpedockerplugin.File.{
  creating, failed, Share, save_backend, save_share, Error, foreign, metadata_not_found,
  fpg_already_exists, fpg_not_found, share_creation_failed, default_fpg_not_present, max_shares,
  key_error, value_error, type_error, index_error, stop_iteration, created_fpg, claimed_ip,
  created_vfs, Env, M, pure, raise, gets, modify, ◌>>=◌, ◌>>◌, try_except, call,
  get_backend_metadata, get_share, with_lock,
}
use python_hpedockerplugin.File.Commands.{
  Config, share_now, execute_create_fpg, execute_claim, execute_mark_in_use, execute_create_vfs,
}
use python_hpedockerplugin.File.Place.{
  unexecute_all, create_share_and_quota, find_fpg_for, add_undo, placed, Placement, on_existing,
  on_default,
}

-- The exceptions that mean that there is no default group.
abbrev pub needs_new_fpg : Error → Bool
needs_new_fpg max_shares = true
needs_new_fpg metadata_not_found = true
needs_new_fpg default_fpg_not_present = true
needs_new_fpg fpg_not_found = true
needs_new_fpg e = false

-- PluginException and its subclasses.
abbrev pub is_plugin_exception : Error → Bool
is_plugin_exception foreign = false
is_plugin_exception key_error = false
is_plugin_exception value_error = false
is_plugin_exception type_error = false
is_plugin_exception index_error = false
is_plugin_exception stop_iteration = false
is_plugin_exception e = true

module _ (env : Env) (config : Config) (pick : String → List String → String) (share : Share) where
  -- A new group with the name given.
  unfoldable pub make_fpg : (fpg : String) → (set_default : Bool) → M (Unit {0})
  make_fpg fpg set_default = do
    execute_create_fpg env config share.cpg fpg set_default
    modify (add_undo (created_fpg share.cpg fpg set_default))

  unfoldable pub next_number : M ℕ
  next_number = with_lock env config.backend (do
    metadata ← try_except (get_backend_metadata env >>= λ m. pure (some m)) no_metadata
    call env (save_backend (counted metadata (counter_of metadata)))
    pure (counter_of metadata))
    where
      no_metadata : {A : Type 0} → Error → M (Option A)
      no_metadata metadata_not_found = pure none
      no_metadata e = raise e

  unfoldable pub retry : M (String × String) → Error → M (String × String)
  retry again fpg_already_exists = again
  retry again e = raise e

  -- The names are generated anew while a group has them; `tries` bounds the loop.
  module _ (fpg_name vfs_name : ℕ → String) where
    unfoldable pub make_default : (tries : ℕ) → M (String × String)
    make_default zero = raise fpg_already_exists
    make_default (suc tries) =
        let again = make_default tries in
        next_number >>= λ n.
        try_except (make_fpg (fpg_name n) true >> pure (fpg_name n, vfs_name n)) (retry again)

    unfoldable pub new_fpg : (tries : ℕ) → Placement → M (String × String)
    new_fpg tries (on_existing fpg) = make_fpg fpg false >> pure (fpg, append fpg "_vfs")
    new_fpg tries on_default = make_default tries

    unfoldable pub create_on_new : (tries : ℕ) → Placement → M (Unit {0})
    create_on_new tries placement = do
      (fpg, vfs) ← new_fpg tries placement
      modify (λ s. placed fpg vfs s.progress.vfs_ips s)
      (ip, netmask) ← execute_claim env config pick
      modify (add_undo (claimed_ip ip))
      execute_create_vfs env config share.cpg fpg vfs ip netmask
      modify (add_undo created_vfs)
      execute_mark_in_use env config ip
      modify (placed fpg vfs ((ip, netmask) ∷ []))
      create_share_and_quota env config share

    unfoldable pub on_new_if : (tries : ℕ) → Placement → Bool → M (Unit {0})
    on_new_if tries placement true =
        try_except (create_on_new tries placement) (λ e. raise share_creation_failed)
    on_new_if tries placement false = raise share_creation_failed

    abbrev cpg_lock : String
    cpg_lock = append config.backend (append "/" share.cpg)

    unfoldable pub create_share_on_fpg : (tries : ℕ) → Placement → M (Unit {0})
    create_share_on_fpg tries placement = with_lock env cpg_lock (
        try_except
          (gets (share_now share creating) >>= λ now.
            call env (save_share now) >> find_fpg_for env config share placement)
          (λ e. on_new_if tries placement (needs_new_fpg e)))

    -- The share is marked, and what was done is undone.
    unfoldable pub mark_failed : Error → M (Unit {0})
    mark_failed e =
        if is_plugin_exception e
        then (gets (share_now share failed) >>= λ now.
            call env (save_share now) >> unexecute_all env config share)
        else raise e

    unfoldable pub create_new : (tries : ℕ) → Placement → M (Unit {0})
    create_new tries placement = try_except (create_share_on_fpg tries placement) mark_failed

    unfoldable pub create_if_missing : (tries : ℕ) → Placement → Bool → M (Unit {0})
    create_if_missing tries placement true = pure tt
    create_if_missing tries placement false = create_new tries placement

    unfoldable pub not_there : Error → M Bool
    not_there metadata_not_found = pure false
    not_there e = raise e

    -- `_create_share`, under the lock of the share's name.
    unfoldable pub create_share_locked : (tries : ℕ) → Placement → M (Unit {0})
    create_share_locked tries placement =
        try_except (get_share env share.name >> pure true) not_there
        >>= create_if_missing tries placement
