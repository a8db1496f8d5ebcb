-- ===== src/File/Commands.antt =====
-- The commands of cmd on file provisioning groups, servers, shares and quotas: what each does, and how
-- it is undone. A command that completes is entered into the undo list by file_manager.py.
pub mod Shares
use Prim.Native.String.{◌++◌ as append}
use python_hpedockerplugin.Prelude.{
  ℕ, zero, suc, String, Bool, Option, none, some, List, [], ◌∷◌, ◌++◌, contains, insert, is_some,
  lookup, if◌then◌else◌,
}
use python_hpedockerplugin.IpPool.{
  BackendMetadata, Pool, available, new_metadata, with_locked, without_ip, moved,
}
use python_hpedockerplugin.File.{
  Status, creating, failed, available as is_available, Share, FpgInfo, save_backend, save_fpg,
  delete_fpg_metadata, save_share, create_fpg, delete_fpg, create_vfs, create_share, delete_share,
  delete_file_store, update_quotas, remove_quota, get_all_vfs, Error, metadata_not_found,
  etcd_failed, share_backend, save_failed, fpg_creation_failed, vfs_creation_failed,
  share_creation_failed, set_quota_failed, pool_exhausted, value_error, Result, err, ok, Command,
  created_fpg, claimed_ip, created_vfs, created_share, set_quota, Env, State, M, pure, raise, gets,
  modify, or_raise, ◌>>=◌, ◌>>◌, try_except, call, ask, get_backend_metadata, get_fpg_metadata,
  get_share, with_lock,
}
use python_hpedockerplugin.File.Defaults.{
  add_default_fpg, remove_as_default_fpg, Removal, unchanged, changed,
}

pub record Config : Type 0 where
  pub backend : String
  pub default_fpg_size : Option ℕ
  pub server_ip_pool : Pool

abbrev pub fpg_size_of : Option ℕ → ℕ
fpg_size_of none = 16
fpg_size_of (some zero) = 16
fpg_size_of (some (suc n)) = suc n

unfoldable pub of_result : {A : Type 0} → Result A → M A
of_result (ok a) = pure a
of_result (err e) = raise e

-- The share that is created, as far as it has come.
abbrev pub share_now : Share → Status → State → Share
share_now share status s = record share {
  id = s.progress.id;
  fpg = s.progress.fpg;
  vfs = s.progress.vfs;
  vfs_ips = s.progress.vfs_ips;
  status = some status;
}

abbrev pub or_none : Option String → String
or_none none = "None"
or_none (some text) = text

abbrev pub or_empty : {A : Type 0} → Option (List A) → List A
or_empty none = []
or_empty (some l) = l

-- The metadata with the server, and its address added to those of the netmask.
abbrev pub with_vfs : FpgInfo → (vfs ip netmask : String) → FpgInfo
with_vfs info vfs ip netmask = record info {
  vfs = some vfs;
  ips = some (
      insert netmask (or_empty (lookup netmask (or_empty info.ips)) ++ ip ∷ [])
        (or_empty info.ips));
}

-- The first address of the pool that is free; which element of a set is the first, Python does not say.
unfoldable pub find_available :
    (pick : String → List String → String) → Pool → List String → Option (String × String)
find_available pick [] total = none
find_available pick ((netmask, ips) ∷ pool) total =
    let later = find_available pick pool total in
    elim (available ips total) [ [] ↦ later | ip ∷ rest ↦ some (pick ip rest, netmask) ]

module _ (env : Env) (config : Config) where
  abbrev pub fpg_lock : (cpg fpg : String) → String
  fpg_lock cpg fpg = append config.backend (append "/" (append cpg (append "/" fpg)))

  -- CreateFpgCmd
  unfoldable pub on_add_default_error : {A : Type 0} → Error → M A
  on_add_default_error metadata_not_found = raise metadata_not_found
  on_add_default_error e = raise etcd_failed

  unfoldable pub add_to_default_fpg : (cpg fpg : String) → M (Unit {0})
  add_to_default_fpg cpg fpg = with_lock env config.backend (
      try_except
        (get_backend_metadata env >>= λ metadata.
          call env (save_backend (add_default_fpg cpg fpg metadata)))
        on_add_default_error)

  unfoldable pub on_create_fpg_error : {A : Type 0} → Error → M A
  on_create_fpg_error share_backend = raise fpg_creation_failed
  on_create_fpg_error metadata_not_found = raise fpg_creation_failed
  on_create_fpg_error e = raise e

  unfoldable pub execute_create_fpg : (cpg fpg : String) → (set_default : Bool) → M (Unit {0})
  execute_create_fpg cpg fpg set_default =
      let size = fpg_size_of config.default_fpg_size in
      with_lock env (fpg_lock cpg fpg) (
        try_except
          (call env (create_fpg cpg fpg size)
            >> ((if set_default then add_to_default_fpg cpg fpg else pure tt)
                >> call env (
                    save_fpg cpg fpg
                      (record { fpg = fpg; fpg_size = size; vfs = none; ips = none }))))
          on_create_fpg_error)

  -- `except Exception`, with no more than a line in the log.
  unfoldable pub ignoring : M (Unit {0}) → M (Unit {0})
  ignoring m = try_except m (λ e. pure tt)

  unfoldable pub save_removal : Removal → M (Unit {0})
  save_removal unchanged = pure tt
  save_removal (changed metadata) = call env (save_backend metadata)

  unfoldable pub unset_default : (cpg fpg : String) → M (Unit {0})
  unset_default cpg fpg = with_lock env config.backend (do
    metadata ← get_backend_metadata env
    removal ← of_result (remove_as_default_fpg cpg fpg metadata)
    save_removal removal)

  unfoldable pub unexecute_create_fpg : (cpg fpg : String) → (default_set : Bool) → M (Unit {0})
  unexecute_create_fpg cpg fpg default_set = do
    ignoring (call env (delete_fpg fpg))
    if default_set then ignoring (unset_default cpg fpg) else pure tt
    ignoring (call env (delete_fpg_metadata cpg fpg))

  -- ClaimAvailableIPCmd
  unfoldable pub create_metadata : Error → M BackendMetadata
  create_metadata metadata_not_found = call env (save_backend new_metadata) >> pure new_metadata
  create_metadata e = raise e

  unfoldable pub on_claim_error : {A : Type 0} → Error → M A
  on_claim_error pool_exhausted = raise vfs_creation_failed
  on_claim_error metadata_not_found = raise vfs_creation_failed
  on_claim_error e = raise e

  unfoldable pub execute_claim : (pick : String → List String → String) → M (String × String)
  execute_claim pick =
      try_except
        (with_lock env config.backend (do
          metadata ← try_except (get_backend_metadata env) create_metadata
          on_array ← ask env get_all_vfs (env.texts get_all_vfs)
          claimed ←
              or_raise pool_exhausted (
                find_available pick config.server_ip_pool (on_array ++ metadata.ips_locked_for_use))
          call env (save_backend (with_locked metadata claimed.0))
          pure claimed))
        on_claim_error

  unfoldable pub execute_mark_in_use : String → M (Unit {0})
  execute_mark_in_use ip = with_lock env config.backend (
      try_except
        (get_backend_metadata env >>= λ metadata.
          if contains ip metadata.ips_locked_for_use
          then call env (save_backend (moved metadata ip))
          else raise value_error)
        (λ e. raise vfs_creation_failed))

  unfoldable pub unexecute_claim : String → M (Unit {0})
  unexecute_claim ip = with_lock env config.backend (do
    metadata ← get_backend_metadata env
    call env (save_backend (without_ip metadata (some ip))))

  -- CreateVfsCmd
  unfoldable pub on_create_vfs_error : {A : Type 0} → Error → M A
  on_create_vfs_error share_backend = raise vfs_creation_failed
  on_create_vfs_error e = raise e

  unfoldable pub execute_create_vfs : (cpg fpg vfs ip netmask : String) → M (Unit {0})
  execute_create_vfs cpg fpg vfs ip netmask =
      try_except
        (call env (create_vfs vfs ip netmask fpg)
          >> with_lock env (fpg_lock cpg fpg) (do
            info ← get_fpg_metadata env cpg fpg
            call env (save_fpg cpg fpg (with_vfs info vfs ip netmask))))
        on_create_vfs_error

  -- CreateShareCmd; `created` says whether the array has created the share.
  unfoldable pub unexecute_create_share : (id fpg name : String) → M (Unit {0})
  unexecute_create_share id fpg name = do
    call env (delete_share id)
    call env (delete_file_store fpg name)

  unfoldable pub save_created : Share → M (Unit {0})
  save_created share = do
    id ← gets (λ s. env.text (create_share share.name) s.calls)
    modify (λ s. record s { progress = record s.progress { id = some id } })
    now ← gets (share_now share creating)
    call env (save_share now)

  unfoldable pub undo_created : Share → Error → M (Unit {0})
  undo_created share e = do
    now ← gets (share_now share creating)
    unexecute_create_share (or_none now.id) (or_none now.fpg) share.name
    raise share_creation_failed

  unfoldable pub execute_create_share : Share → M (Unit {0})
  execute_create_share share = do
    try_except (call env (create_share share.name)) (λ e. raise share_creation_failed)
    try_except (save_created share) (undo_created share)

  -- SetQuotaCmd
  abbrev pub with_quota : Share → String → Share
  with_quota share quota_id = record share { quota_id = some quota_id; status = some is_available }

  abbrev pub without_quota : Share → Share
  without_quota share =
      if is_some share.quota_id
      then record share { quota_id = none; status = some failed }
      else share

  unfoldable pub unexecute_set_quota : (name quota_id : String) → M (Unit {0})
  unexecute_set_quota name quota_id = ignoring (do
    call env (remove_quota quota_id)
    share ← get_share env name
    call env (save_share (without_quota share)))

  unfoldable pub on_set_quota_error : String → Option String → Error → M String
  on_set_quota_error name quota_id share_backend =
      (elim quota_id [ none ↦ pure tt | some id ↦ unexecute_set_quota name id ])
      >> raise set_quota_failed
  on_set_quota_error name quota_id save_failed =
      (elim quota_id [ none ↦ pure tt | some id ↦ unexecute_set_quota name id ])
      >> raise set_quota_failed
  on_set_quota_error name quota_id e = raise e

  unfoldable pub execute_set_quota : (name : String) → (size : ℕ) → (fpg vfs : String) → M String
  execute_set_quota name size fpg vfs = do
    quota_id ←
        try_except
          (ask env (update_quotas name size fpg vfs) (env.text (update_quotas name size fpg vfs)))
          (on_set_quota_error name none)
    try_except
        (do
          share ← get_share env name
          call env (save_share (with_quota share quota_id))
          pure quota_id)
        (on_set_quota_error name (some quota_id))

  unfoldable pub unexecute : Command → M (Unit {0})
  unexecute (created_fpg cpg fpg default_set) = unexecute_create_fpg cpg fpg default_set
  unexecute (claimed_ip ip) = unexecute_claim ip
  unexecute created_vfs = pure tt
  unexecute (created_share id fpg name) = unexecute_create_share id fpg name
  unexecute (set_quota name quota_id) = unexecute_set_quota name quota_id
