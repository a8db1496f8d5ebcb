-- ===== src/File.antt =====
-- The world of file_manager.py and of the commands in cmd. Every statement that leaves the process is
-- a `Call`; what the array, the host and the etcd client do with it is an `Env`, a function of the call
-- and of all calls made before it. The metadata in etcd are part of the state: those of the backend,
-- of its file provisioning groups and of the shares (class HpeFilePersonaEtcdClient, HpeShareEtcdClient).
pub mod Returns
pub mod Keeps
pub mod Mount
pub mod Defaults
pub mod Commands
pub mod Place
pub mod Create
pub mod Delete
use python_hpedockerplugin.Prelude.{
  ℕ, String, Bool, true, false, Option, none, some, List, [], ◌∷◌, lookup, insert, remove_key,
  str_eq, if◌then◌else◌,
}
use python_hpedockerplugin.Python.{ℤ}
use python_hpedockerplugin.IpPool.{BackendMetadata}

pub data Status : Type 0 where
  creating failed available : Status
  unknown : String → Status

-- share.create_metadata, with the keys that file_manager.py and the commands add.
pub record Share : Type 0 where
  pub name : String
  pub id : Option String
  pub backend : String
  pub cpg : String
  pub fpg : Option String
  pub vfs : Option String
  pub size : ℕ
  pub readonly : Bool
  pub nfs_options : Option String
  pub comment : Option String
  pub client_ips : List String
  pub fs_mode : Option String
  pub fs_owner : Option String
  pub status : Option Status
  pub quota_id : Option String
  pub vfs_ips : List (String × String)
  -- the mount ids of each node
  pub path_info : Option (List (String × List String))

-- The metadata of a group: its addresses by netmask.
pub record FpgInfo : Type 0 where
  pub fpg : String
  pub fpg_size : ℕ
  pub vfs : Option String
  pub ips : Option (List (String × List String))

pub data Call : Type 0 where
  lock unlock : String → Call
  read_backend get_all_vfs : Call
  save_backend : BackendMetadata → Call
  read_fpg delete_fpg_metadata : (cpg fpg : String) → Call
  save_fpg : (cpg fpg : String) → FpgInfo → Call
  read_share delete_share_metadata : String → Call
  save_share : Share → Call
  create_fpg : (cpg fpg : String) → (size : ℕ) → Call
  delete_fpg get_fpg get_quotas get_vfs shares_present : (fpg : String) → Call
  create_vfs : (vfs ip netmask fpg : String) → Call
  create_share delete_share : String → Call
  delete_file_store : (fpg name : String) → Call
  update_quotas : (name : String) → (size : ℕ) → (fpg vfs : String) → Call
  remove_quota : String → Call
  add_client_ip remove_client_ip : (id ip : String) → Call
  usr_check : (owner : Option (ℤ × ℤ)) → Call
  set_acl : (mode id : String) → Call
  chmod : (mode : ℤ) → (target : String) → Call
  chown : (owner : ℤ × ℤ) → (target : String) → Call
  make_dir remove_dir umount remove_contents : String → Call
  mount : (share_path mount_dir : String) → Call

-- The exceptions.
pub data Error : Type 0 where
  foreign lock_failed metadata_not_found save_failed etcd_failed share_backend : Error
  fpg_creation_failed fpg_already_exists fpg_not_found vfs_creation_failed : Error
  share_creation_failed set_quota_failed pool_exhausted default_fpg_not_present : Error
  capacity_insufficient max_shares invalid_input : Error
  key_error value_error type_error index_error stop_iteration : Error

pub data Result (A : Type 0) : Type 0 where
  err : Error → Result A
  ok : A → Result A

abbrev pub History : Type 0
History = List Call

-- The commands that completed, as far as their undo needs them.
pub data Command : Type 0 where
  created_fpg : (cpg fpg : String) → (default_set : Bool) → Command
  claimed_ip : String → Command
  created_vfs : Command
  created_share : (id fpg name : String) → Command
  set_quota : (name quota_id : String) → Command

-- What share creation has entered into `share_args` so far.
pub record Progress : Type 0 where
  pub id : Option String
  pub fpg : Option String
  pub vfs : Option String
  pub vfs_ips : List (String × String)

pub record State : Type 0 where
  pub backend_metadata : Option BackendMetadata
  -- by `cpg/fpg`
  pub fpgs : List ((String × String) × FpgInfo)
  pub shares : List (String × Share)
  -- the newest first
  pub calls : History
  -- of the creation that runs: `undo_cmds`, the oldest first, and `share_args`
  pub undo_cmds : List Command
  pub progress : Progress

-- The virtual file server of a group, as the array tells it.
pub record VfsInfo : Type 0 where
  pub name : String
  pub ip : String
  pub netmask : String

pub record Env : Type 0 where
  pub outcome : Call → History → Option Error
  pub text : Call → History → String
  pub number : Call → History → ℕ
  pub flag : Call → History → Bool
  pub numbers : Call → History → List ℕ
  pub texts : Call → History → List String
  pub vfs_info : String → History → VfsInfo

abbrev pub M : Type 0 → Type 0
M A = State → Result A × State

unfoldable pub modify : (State → State) → M (Unit {0})
modify f s = (ok tt, f s)

module _ {A : Type 0} where
  unfoldable pub pure : A → M A
  pure a s = (ok a, s)

  unfoldable pub raise : Error → M A
  raise e s = (err e, s)

  unfoldable pub gets : (State → A) → M A
  gets f s = (ok (f s), s)

  unfoldable pub or_raise : Error → Option A → M A
  or_raise e none = raise e
  or_raise e (some a) = pure a

module _ {A B : Type 0} where
  abbrev pub continue : Result A → (A → M B) → M B
  continue (ok a) f s = f a s
  continue (err e) f s = (err e, s)

  infixl 5 ◌>>=◌ ◌>>◌
  unfoldable pub ◌>>=◌ : M A → (A → M B) → M B
  ◌>>=◌ m f s = let (r, after) = m s in continue r f after

  abbrev pub ◌>>◌ : M A → M B → M B
  m >> n = m >>= λ _. n

  abbrev pub finish : Result A → M B → M A
  finish r last s = let (q, after) = last s in elim q [ err e ↦ (err e, after) | ok b ↦ (r, after) ]

module _ {A : Type 0} where
  abbrev pub recover : Result A → (Error → M A) → M A
  recover (ok a) handler s = (ok a, s)
  recover (err e) handler s = handler e s

  -- `try: m` / `except Exception as ex: handler`
  unfoldable pub try_except : M A → (Error → M A) → M A
  try_except m handler s = let (r, after) = m s in recover r handler after

-- What a completed call did to the metadata.
abbrev pub same_pair : String × String → String × String → Bool
same_pair (a, b) (c, d) = if str_eq a c then str_eq b d else false

unfoldable pub find_fpg : String × String → List ((String × String) × FpgInfo) → Option FpgInfo
find_fpg key [] = none
find_fpg key ((k, info) ∷ rest) =
    let later = find_fpg key rest in if same_pair k key then some info else later

unfoldable pub drop_fpg :
    String × String → List ((String × String) × FpgInfo) → List ((String × String) × FpgInfo)
drop_fpg key [] = []
drop_fpg key ((k, info) ∷ rest) =
    let later = drop_fpg key rest in if same_pair k key then later else (k, info) ∷ later

abbrev pub effect : Call → State → State
effect (save_backend metadata) s = record s { backend_metadata = some metadata }
effect (save_fpg cpg fpg info) s = record s {
  fpgs = ((cpg, fpg), info) ∷ drop_fpg (cpg, fpg) s.fpgs;
}
effect (delete_fpg_metadata cpg fpg) s = record s { fpgs = drop_fpg (cpg, fpg) s.fpgs }
effect (save_share share) s = record s { shares = insert share.name share s.shares }
effect (delete_share_metadata name) s = record s { shares = remove_key name s.shares }
effect c s = s

abbrev pub made : Call → State → State
made c s = record s { calls = c ∷ s.calls }

abbrev pub answer : Call → Option Error → M (Unit {0})
answer c (some e) s = (err e, made c s)
answer c none s = (ok tt, made c (effect c s))

unfoldable pub call : Env → Call → M (Unit {0})
call env c s = answer c (env.outcome c s.calls) s

-- A call whose answer is used.
unfoldable pub ask : {A : Type 0} → Env → Call → (History → A) → M A
ask env c f = call env c >> gets (λ s. f s.calls)

module _ (env : Env) where
  unfoldable pub get_backend_metadata : M BackendMetadata
  get_backend_metadata = do
    call env read_backend
    stored ← gets (λ s. s.backend_metadata)
    or_raise metadata_not_found stored

  unfoldable pub get_fpg_metadata : (cpg fpg : String) → M FpgInfo
  get_fpg_metadata cpg fpg = do
    call env (read_fpg cpg fpg)
    stored ← gets (λ s. find_fpg (cpg, fpg) s.fpgs)
    or_raise metadata_not_found stored

  unfoldable pub get_share : String → M Share
  get_share name = do
    call env (read_share name)
    stored ← gets (λ s. lookup name s.shares)
    or_raise metadata_not_found stored

  -- `with lock: body`: the lock is released however the body ends.
  unfoldable pub with_lock : {A : Type 0} → String → M A → M A
  with_lock name body = call env (lock name) >> λ s.
      let (r, after) = body s in finish r (call env (unlock name)) after
