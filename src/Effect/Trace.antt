-- ===== src/Effect/Trace.antt =====
-- What a history of calls leaves to undo, stated without the operations' own undo lists.
use python_hpedockerplugin.Prelude.{Bool, true, false, Option, none, some, List, [], ◌∷◌, ◌++◌}
use python_hpedockerplugin.Effect.{
  Call, etcd_write, etcd_update, etcd_delete, begin_undo, create_volume, delete_volume,
  create_cloned_volume, create_snapshot, create_vvs, delete_vvset, add_to_volume_set,
  remove_from_volume_set, create_rcg, delete_rcg, add_to_rcg, remove_from_rcg,
  initialize_connection, terminate_connection, connect_volume, disconnect_volume, make_dir,
  remove_dir, mount_dir, umount_dir, sleep, Error, History, Env,
}

-- The call that takes back what a completed call did.
unfoldable pub compensation : Env → Call → History → List Call
compensation env (create_volume id) h = delete_volume id false ∷ []
compensation env (create_cloned_volume id src) h = delete_volume id false ∷ []
compensation env (create_snapshot id parent) h = delete_volume id true ∷ []
compensation env (create_vvs id) h = delete_vvset id ∷ []
compensation env (add_to_volume_set vol vvs) h =
    remove_from_volume_set (env.text (add_to_volume_set vol vvs) (add_to_volume_set vol vvs ∷ h))
      vvs
    ∷ []
compensation env (create_rcg name) h = delete_rcg name ∷ []
compensation env (add_to_rcg vol name) h = remove_from_rcg vol name ∷ []
compensation env (initialize_connection array id snap) h = terminate_connection array id snap ∷ []
compensation env (connect_volume target) h = disconnect_volume target ∷ []
compensation env (make_dir path) h = remove_dir (env.text (make_dir path) (make_dir path ∷ h)) ∷ []
compensation env (mount_dir src tgt) h = umount_dir tgt ∷ []
compensation env (etcd_write vol) h = etcd_delete vol.id ∷ []
compensation env c h = []

abbrev pub when_completed : Option Error → List Call → List Call
when_completed none cs = cs
when_completed (some e) cs = []

-- The compensations of the calls that completed since the undo list was last emptied, the oldest
-- call's first.
unfoldable pub compensations : Env → History → List Call
compensations env [] = []
compensations env (begin_undo ∷ h) = []
compensations env (c ∷ h) =
    compensations env h ++ when_completed (env.outcome c h) (compensation env c h)

-- Calls that leave nothing to undo and do not change etcd.
abbrev pub plain : Call → Bool
plain begin_undo = false
plain (create_volume id) = false
plain (create_cloned_volume id src) = false
plain (create_snapshot id parent) = false
plain (create_vvs id) = false
plain (add_to_volume_set vol vvs) = false
plain (create_rcg name) = false
plain (add_to_rcg vol name) = false
plain (initialize_connection array id snap) = false
plain (connect_volume target) = false
plain (make_dir path) = false
plain (mount_dir src tgt) = false
plain (etcd_write vol) = false
plain (etcd_update vol) = false
plain (etcd_delete id) = false
plain sleep = false
plain c = true
