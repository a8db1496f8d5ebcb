-- ===== src/Etcd.antt =====
-- etcdutil.py, the class EtcdUtil: volume records under /volumes, read and written through the etcd
-- client. The order of the store is the order in which etcd lists the children.
pub mod Keeps
pub mod Find
use text.Mathlib.Text.{starts_with}
use python_hpedockerplugin.Prelude.{
  ℕ, String, Bool, Option, none, some, List, [], ◌∷◌, str_eq, lookup, if◌then◌else◌,
}
use python_hpedockerplugin.Volume.{Volume, PathInfo, stored_path_info}
use python_hpedockerplugin.Effect.{
  etcd_read, etcd_write, etcd_update, etcd_delete, etcd_key_not_found, save_failed, Store, Env, M,
  pure, raise, gets, ◌>>=◌, ◌>>◌, try_else, call,
}

unfoldable pub find_byname : String → Store → Option Volume
find_byname volname [] = none
find_byname volname ((key, vol) ∷ rest) =
    let later = find_byname volname rest in
    if starts_with vol.display_name volname
    then (if str_eq vol.display_name volname then some vol else later)
    else if str_eq vol.name volname
    then some vol
    else later

unfoldable pub or_not_found : String → Option Volume → M Volume
or_not_found volid none = raise (etcd_key_not_found volid)
or_not_found volid (some vol) = pure vol

module _ (env : Env) where
  unfoldable pub get_vol_byname : String → M (Option Volume)
  get_vol_byname volname = do
    call env (etcd_read "/volumes/")
    gets (λ s. find_byname volname s.etcd)

  unfoldable pub get_vol_by_id : String → M Volume
  unfolding or_not_found
  get_vol_by_id volid = do
    call env (etcd_read volid)
    found ← gets (λ s. lookup volid s.etcd)
    or_not_found volid found

  unfoldable pub save_vol : Volume → M (Unit {0})
  save_vol vol =
      try_else (call env (etcd_write vol)) (λ _. raise (save_failed vol.display_name)) pure

  -- `volval[key] = val`, as a change of the record.
  unfoldable pub update_vol : String → (Volume → Volume) → M (Unit {0})
  update_vol volid assign = do vol ← get_vol_by_id volid; call env (etcd_update (assign vol))

  unfoldable pub delete_vol : Volume → M (Unit {0})
  delete_vol vol = call env (etcd_delete vol.id)

abbrev pub path_info_of : Option Volume → Option PathInfo
path_info_of none = none
path_info_of (some vol) = stored_path_info vol

unfoldable pub get_vol_path_info : Env → String → M (Option PathInfo)
get_vol_path_info env volname = do vol ← get_vol_byname env volname; pure (path_info_of vol)
