-- ===== src/Effect.antt =====
-- The world of volume_manager.py. Every statement that leaves the process is a `Call`. The array,
-- OS Brick, the host's commands and the etcd client are not in the repository, or are behind a
-- driver: what they answer is an `Env`, a function of the call and of all calls made before it in
-- the request, so that it covers every behaviour of those parts.
pub mod Trace
pub mod Keeps
pub mod Undo
pub mod Tracked
pub mod Reaches
pub mod Splits
use python_hpedockerplugin.Prelude.{
  ℕ, String, Bool, Option, none, some, List, [], ◌∷◌, ◌++◌, insert, remove_key,
}
use python_hpedockerplugin.Volume.{Flash, ConnectionInfo, Volume}

-- The two arrays of a replication setup: `_primary_driver` and `_remote_driver`.
pub data Array : Type 0 where
  primary secondary : Array

pub data Call : Type 0 where
  lock_volume unlock_volume lock_rcg unlock_rcg : String → Call
  etcd_read : String → Call
  -- `write` in save_vol, `update` in update_vol, `delete` in delete_vol
  etcd_write etcd_update : Volume → Call
  etcd_delete : String → Call
  -- the assignment `undo_steps = []`
  begin_undo : Call
  create_volume : String → Call
  delete_volume : (id : String) (is_snapshot : Bool) → Call
  create_cloned_volume : (clone_id src_id : String) → Call
  create_snapshot : (id volume_id : String) → Call
  create_snap_schedule : (src_name sched_name : String) → Call
  force_remove_schedule : String → Call
  is_vol_having_active_task : String → Call
  get_snapshots_by_vol : (id : String) → Call
  get_cpg get_snapcpg : String → Call
  get_qos_detail get_vvset_detail : String → Call
  create_vvs delete_vvset : String → Call
  set_flash_cache : Option Flash → String → Call
  add_to_volume_set remove_from_volume_set : (vol vvs_name : String) → Call
  get_rcg : Array → String → Call
  create_rcg delete_rcg : String → Call
  add_to_rcg remove_from_rcg : (vol_name rcg_name : String) → Call
  force_remove_vlun : Array → String → Call
  create_export initialize_connection terminate_connection :
      Array → (id : String) (is_snap : Bool) → Call
  get_connector_properties : Call
  connect_volume disconnect_volume : ConnectionInfo → Call
  check_if_mounted mount_dir : (src tgt : String) → Call
  has_filesystem create_filesystem : String → Call
  make_dir remove_dir umount_dir : String → Call
  chown chmod : (value path : String) → Call
  sleep : Call

-- The exceptions.
pub data Error : Type 0 where
  -- raised by a part that is not modelled
  foreign : String → Error
  key_error : String → Error
  etcd_key_not_found lock_failed unlock_failed save_failed : String → Error
  mount_exception umount_exception rcg_not_found rcg_in_transition : String → Error
  force_remove_vlun_failed : String → Error

pub data Result (A : Type 0) : Type 0 where
  -- the exception that was raised
  err : Error → Result A
  -- the value that was returned
  ok : A → Result A

abbrev pub History : Type 0
History = List Call

-- What etcd holds under /volumes, by volume id.
abbrev pub Store : Type 0
Store = List (String × Volume)

pub record Rcg : Type 0 where
  pub role : ℕ
  pub role_reversed : Bool
  pub remote_group_name : String

pub record Env : Type 0 where
  -- the exception that a call raises, if it raises one
  pub outcome : Call → History → Option Error
  -- texts, flags and records that a call returns
  pub text : Call → History → String
  pub flag : Call → History → Bool
  pub texts : Call → History → List String
  pub rcg : Array → String → History → Rcg
  pub connection : Array → String → History → ConnectionInfo
  -- uuid.uuid4()
  pub uuid4 : History → String
  -- base64 of the 16 bytes of a uuid, without its padding
  pub encode : String → String
  -- os.path.realpath and os.path.exists
  pub realpath : String → History → String
  pub exists : String → History → Bool
  -- what other nodes wrote to etcd while this one slept
  pub others : History → Store → Store

pub record State : Type 0 where
  pub etcd : Store
  -- all calls of the request, the newest first
  pub calls : History
  -- the undo list of the operation that runs, the oldest first
  pub undo_steps : List Call

abbrev pub start : Store → State
start etcd = record { etcd = etcd; calls = []; undo_steps = [] }

abbrev pub M : Type 0 → Type 0
M A = State → Result A × State

module _ {A : Type 0} where
  pub pure : A → M A
  pure a s = (ok a, s)

  pub raise : Error → M A
  raise e s = (err e, s)

  pub gets : (State → A) → M A
  gets f s = (ok (f s), s)

  -- `d[key]`: the value, if the key is there.
  unfoldable pub or_key_error : String → Option A → M A
  unfolding pure raise
  or_key_error key none = raise (key_error key)
  or_key_error key (some a) = pure a

module _ {A B : Type 0} where
  abbrev pub continue : Result A → (A → M B) → M B
  continue (ok a) f s = f a s
  continue (err e) f s = (err e, s)

  infixl 5 ◌>>=◌ ◌>>◌
  unfoldable pub ◌>>=◌ : M A → (A → M B) → M B
  unfolding pure raise gets or_key_error
  ◌>>=◌ m f s = let (r, s') = m s in continue r f s'

  abbrev pub ◌>>◌ : M A → M B → M B
  m >> n = m >>= λ _. n

  abbrev pub resume : Result A → (Error → M B) → (A → M B) → M B
  resume (ok a) handler success s = success a s
  resume (err e) handler success s = handler e s

  -- `try: m` / `except Exception as ex: handler` / `else: success`
  unfoldable pub try_else : M A → (Error → M B) → (A → M B) → M B
  try_else m handler success s = let (r, s') = m s in resume r handler success s'

-- What a call that did not raise did to etcd.
abbrev pub effect : Env → Call → History → Store → Store
effect env (etcd_write vol) h store = insert vol.id vol store
effect env (etcd_update vol) h store = insert vol.id vol store
effect env (etcd_delete id) h store = remove_key id store
effect env sleep h store = env.others h store
effect env c h store = store

abbrev pub answer : Env → Call → Option Error → M (Unit {0})
answer env c (some e) s = (err e, record s { calls = c ∷ s.calls })
answer env c none s = (ok tt, record s { etcd = effect env c s.calls s.etcd; calls = c ∷ s.calls })

unfoldable pub call : Env → Call → M (Unit {0})
call env c s = answer env c (env.outcome c s.calls) s

-- A call whose answer is used.
unfoldable pub ask : {A : Type 0} → Env → Call → (History → A) → M A
unfolding call ◌>>=◌
ask env c f = call env c >> gets (λ s. f s.calls)

-- `undo_steps = []`
unfoldable pub reset_undo : M (Unit {0})
reset_undo s = (ok tt, record s { calls = begin_undo ∷ s.calls; undo_steps = [] })

-- `undo_steps.append(step)`
unfoldable pub append_undo : Call → M (Unit {0})
append_undo c s = (ok tt, record s { undo_steps = s.undo_steps ++ c ∷ [] })
