-- ===== src/File/Place.antt =====
-- file_manager.py: on which group a share is created, where a group is named or there are default ones.
pub mod Capacity
use python_hpedockerplugin.Prelude.{
  ℕ, ◌+◌, ◌*◌, String, Bool, true, false, Option, none, some, List, [], ◌∷◌, ◌++◌, leb, is_empty,
  str_eq, if◌then◌else◌,
}
use python_hpedockerplugin.File.{
  Share, FpgInfo, VfsInfo, get_fpg, get_quotas, get_vfs, Error, metadata_not_found, fpg_not_found,
  share_creation_failed, set_quota_failed, default_fpg_not_present, capacity_insufficient,
  invalid_input, key_error, index_error, stop_iteration, Command, created_share, set_quota, Env,
  State, M, pure, raise, gets, modify, ◌>>=◌, ◌>>◌, try_except, ask, get_backend_metadata,
  get_fpg_metadata,
}
use python_hpedockerplugin.File.Defaults.{fpgs_of, defaults_of}
use python_hpedockerplugin.File.Commands.{
  Config, or_none, execute_create_share, execute_set_quota, unexecute,
}

abbrev pub sum : List ℕ → ℕ
sum [] = 0
sum (n ∷ ns) = let rest = sum ns in n + rest

-- Sizes and quotas are in MiB, the capacity of a group in GiB.
abbrev pub has_room : (size capacity : ℕ) → (quotas : List ℕ) → Bool
has_room size capacity quotas = leb (sum quotas + size) (capacity * 1024)

abbrev pub add_undo : Command → State → State
add_undo command s = record s { undo_cmds = s.undo_cmds ++ command ∷ [] }

abbrev pub placed : (fpg vfs : String) → List (String × String) → State → State
placed fpg vfs vfs_ips s = record s {
  progress = record s.progress { fpg = some fpg; vfs = some vfs; vfs_ips = vfs_ips };
}

-- How the groups for a share are found, and how a new one is made.
pub data Placement : Type 0 where
  on_existing : (fpg : String) → Placement
  on_default : Placement

module _ (env : Env) (config : Config) (share : Share) where
  -- `_unexecute`: the newest command first; an exception ends it.
  unfoldable pub unexecute_in : List Command → M (Unit {0})
  unexecute_in [] = pure tt
  unexecute_in (command ∷ commands) =
      let later = unexecute_in commands in later >> unexecute env config command

  unfoldable pub unexecute_all : M (Unit {0})
  unexecute_all = gets (λ s. s.undo_cmds) >>= unexecute_in

  unfoldable pub clear_undo : M (Unit {0})
  clear_undo = modify (λ s. record s { undo_cmds = [] })

  unfoldable pub create_share_and_quota : M (Unit {0})
  create_share_and_quota = do
    execute_create_share env config share
    modify (λ s.
        add_undo (created_share (or_none s.progress.id) (or_none s.progress.fpg) share.name) s)
    progress ← gets (λ s. s.progress)
    quota_id ←
        execute_set_quota env config share.name share.size (or_none progress.fpg)
          (or_none progress.vfs)
    modify (add_undo (set_quota share.name quota_id))

  unfoldable pub place_at :
      (fpg : String) → Option String → Option (List (String × List String)) → M (Unit {0})
  place_at fpg none ips = raise key_error
  place_at fpg (some vfs) none = raise key_error
  place_at fpg (some vfs) (some []) = raise stop_iteration
  place_at fpg (some vfs) (some ((netmask, []) ∷ rest)) = raise index_error
  place_at fpg (some vfs) (some ((netmask, ip ∷ ips) ∷ rest)) =
      modify (placed fpg vfs ((ip, netmask) ∷ []))

  unfoldable pub attempt : FpgInfo → M (Unit {0})
  attempt info = place_at info.fpg info.vfs info.ips >> create_share_and_quota

  unfoldable pub check_space : (fpg : String) → (capacity : ℕ) → M (Unit {0})
  check_space fpg capacity = do
    quotas ← ask env (get_quotas fpg) (env.numbers (get_quotas fpg))
    if has_room share.size capacity quotas then pure tt else raise capacity_insufficient

  abbrev pub info_of : (fpg : String) → VfsInfo → FpgInfo
  info_of fpg server = record {
    fpg = fpg;
    fpg_size = 0;
    vfs = some server.name;
    ips = some ((server.netmask, server.ip ∷ []) ∷ []);
  }

  -- A group that the plug-in did not make.
  unfoldable pub legacy_fpg : (fpg : String) → Error → M FpgInfo
  legacy_fpg fpg metadata_not_found = do
    capacity ← ask env (get_fpg fpg) (env.number (get_fpg fpg))
    cpg ← gets (λ s. env.text (get_fpg fpg) s.calls)
    check_space fpg capacity
    if str_eq cpg share.cpg then pure tt else raise invalid_input
    server ← ask env (get_vfs fpg) (env.vfs_info fpg)
    pure (info_of fpg server)
  legacy_fpg fpg e = raise e

  unfoldable pub existing_fpg : (fpg : String) → M FpgInfo
  existing_fpg fpg =
      try_except
        (do
          info ← get_fpg_metadata env share.cpg fpg
          capacity ← ask env (get_fpg fpg) (env.number (get_fpg fpg))
          check_space fpg capacity
          pure info)
        (legacy_fpg fpg)

  unfoldable pub existing_failed : Error → M (Unit {0})
  existing_failed set_quota_failed = unexecute_all >> (clear_undo >> raise share_creation_failed)
  existing_failed stop_iteration = clear_undo
  existing_failed e = raise e

  unfoldable pub create_on_existing : (fpg : String) → M (Unit {0})
  create_on_existing fpg = existing_fpg fpg >>= λ info. try_except (attempt info) existing_failed

  unfoldable pub default_names : M (List String)
  default_names = do
    metadata ← try_except (get_backend_metadata env) no_defaults
    if is_empty (defaults_of metadata)
        then raise default_fpg_not_present
        else pure (fpgs_of share.cpg (defaults_of metadata))
    where
      no_defaults : {A : Type 0} → Error → M A
      no_defaults metadata_not_found = raise default_fpg_not_present
      no_defaults e = raise e

  unfoldable pub server_if : (fpg : String) → Bool → M (Option FpgInfo)
  server_if fpg true =
      ask env (get_vfs fpg) (env.vfs_info fpg) >>= λ server. pure (some (info_of fpg server))
  server_if fpg false = pure none

  unfoldable pub skip_missing : Error → M (Option FpgInfo)
  skip_missing fpg_not_found = pure none
  skip_missing e = raise e

  -- A default group with room for the share; one that the array does not have is passed over.
  unfoldable pub candidate : (fpg : String) → M (Option FpgInfo)
  candidate fpg =
      try_except
        (do
          capacity ← ask env (get_fpg fpg) (env.number (get_fpg fpg))
          quotas ← ask env (get_quotas fpg) (env.numbers (get_quotas fpg))
          server_if fpg (has_room share.size capacity quotas))
        skip_missing

  -- Whether the search ends with this group.
  unfoldable pub default_failed : Error → M Bool
  default_failed set_quota_failed = unexecute_all >> (clear_undo >> pure false)
  default_failed stop_iteration = clear_undo >> pure true
  default_failed e = raise e

  unfoldable pub try_candidate : Option FpgInfo → M Bool
  try_candidate none = pure false
  try_candidate (some info) = try_except (attempt info >> pure true) default_failed

  unfoldable pub try_defaults : List String → M (Unit {0})
  try_defaults [] = raise default_fpg_not_present
  try_defaults (fpg ∷ fpgs) =
      let later = try_defaults fpgs in
      candidate fpg >>= λ found.
      try_candidate found >>= λ finished. if finished then pure tt else later

  unfoldable pub find_fpg_for : Placement → M (Unit {0})
  find_fpg_for (on_existing fpg) = create_on_existing fpg
  find_fpg_for on_default = default_names >>= try_defaults
