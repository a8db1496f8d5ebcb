-- ===== src/Mount/Attach/Undo.antt =====
-- What a mount leaves behind when it answers with an error.
use mathlib.Core.List.{append-nil}
use python_hpedockerplugin.Prelude.{
  ◌≡◌, refl, sym, ◌∙◌, String, Bool, Option, none, some, [], ◌∷◌, str_eq,
}
use python_hpedockerplugin.Volume.{Volume, PathInfo}
use python_hpedockerplugin.Effect.{
  etcd_update, make_dir, mount_dir, remove_dir, umount_dir, Error, ok, History, Env, State, ◌>>=◌,
  call, reset_undo,
}
use python_hpedockerplugin.Effect.Keeps.{Keeps, keeps_rules}
use python_hpedockerplugin.Effect.Trace.{when_completed, compensation, compensations}
use python_hpedockerplugin.Effect.Undo.{ask_undo}
use python_hpedockerplugin.Effect.Tracked.{
  RolledBack, call-cases, Keeps-plain-Tracked, Keeps-ask_undo, Keeps-ask-Tracked,
}
use python_hpedockerplugin.Etcd.{get_vol_by_id, or_not_found, update_vol}
use python_hpedockerplugin.Manager.{Message, failure}
use python_hpedockerplugin.Replication.{Config}
use python_hpedockerplugin.Mount.{MountInfo}
use python_hpedockerplugin.Mount.Connect.{Attachment, mount_arrays}
use python_hpedockerplugin.Mount.Connect.Undo.{mount_arrays_for-Splits}
use python_hpedockerplugin.Mount.Attach.{
  MountArgs, ensure_filesystem, set_owner, set_mode, record_steps, record_mount, remove_lost_found,
  mount_at, mount_path, mount_device, attach,
}
use python_hpedockerplugin.Mount.Attach.Answers.{
  Going, OnAnswer, answered, Answers, continue-Answers, Answers-bind, Answers-if, Answers-try,
  rollback_mount-Answers, rollback_and_fail-Answers, mounted-Answers,
}

module _ (env : Env) where
  nothing_due : (o : Option Error) → when_completed o [] ≡ []
  nothing_due none = refl
  nothing_due (some e) = refl

  due-etcd_update :
      (vol : Volume) (h : History) → compensations env (etcd_update vol ∷ h) ≡ compensations env h
  unfolding compensations compensation
  due-etcd_update vol h =
      rw (nothing_due (env.outcome (etcd_update vol) h)) (append-nil (compensations env h))

  etcd_update-Going : (vol : Volume) → Keeps (Going env) (call env (etcd_update vol))
  etcd_update-Going vol = record {
    at = λ s going.
        let due = going.undo ∙ sym (due-etcd_update vol s.calls) in
        call-cases env (Going env) (etcd_update vol) s
          (λ e raised. record { undo = due; harmless = going.harmless; kept = tt })
          (λ done. record { undo = due; harmless = going.harmless; kept = tt });
  }

  or_not_found-Going :
      (volid : String) (found : Option Volume) → Keeps (Going env) (or_not_found volid found)
  unfolding or_not_found
  or_not_found-Going volid none = search keeps_rules
  or_not_found-Going volid (some vol) = search keeps_rules

  update_vol-Going :
      (volid : String) (assign : Volume → Volume) → Keeps (Going env) (update_vol env volid assign)
  unfolding update_vol get_vol_by_id
  update_vol-Going volid assign =
      search (keeps_rules, Keeps-plain-Tracked env, or_not_found-Going, etcd_update-Going) depth 8

  set_owner-Going : (o : Option String) (dir : String) → Keeps (Going env) (set_owner env o dir)
  unfolding set_owner
  set_owner-Going none dir = search keeps_rules
  set_owner-Going (some o) dir = search (keeps_rules, Keeps-plain-Tracked env)

  set_mode-Going : (o : Option String) (dir : String) → Keeps (Going env) (set_mode env o dir)
  unfolding set_mode
  set_mode-Going none dir = search keeps_rules
  set_mode-Going (some o) dir = search (keeps_rules, Keeps-plain-Tracked env)

  record_steps-Going :
      (vol : Volume) (node_mount_info : MountInfo) (path_info : PathInfo)
      → Keeps (Going env) (record_steps env vol node_mount_info path_info)
  unfolding record_steps
  record_steps-Going vol node_mount_info path_info =
      search (keeps_rules, set_owner-Going, set_mode-Going, update_vol-Going) depth 8

  record_mount-Answers :
      (vol : Volume) (node_mount_info : MountInfo) (path_info : PathInfo)
      → Answers env (record_mount env vol node_mount_info path_info)
  unfolding record_mount
  record_mount-Answers vol node_mount_info path_info =
      Answers-try env _ _ _ (record_steps-Going vol node_mount_info path_info)
        (rollback_and_fail-Answers env) (λ u. mounted-Answers env _ _ _)

  make_dir-Going :
      (device : String)
      → Keeps (Going env) (ask_undo env (make_dir device) (env.text (make_dir device)) remove_dir)
  unfolding compensation
  make_dir-Going device = Keeps-ask_undo env _ _ _ (λ h. refl) (λ h store k. k) (λ a h store k. k)

  mount_dir-Going :
      (src dir : String)
      → Keeps (Going env) (ask_undo env (mount_dir src dir) (λ h. tt) (λ _. umount_dir dir))
  unfolding compensation
  mount_dir-Going src dir = Keeps-ask_undo env _ _ _ (λ h. refl) (λ h store k. k) (λ a h store k. k)

  mount_at-Answers :
      (vol : Volume) (node_mount_info : MountInfo) (path_info : PathInfo)
      → Answers env (mount_at env vol node_mount_info path_info)
  unfolding mount_at remove_lost_found
  mount_at-Answers vol node_mount_info path_info =
      Answers-try env _ _ _ (mount_dir-Going _ _) (rollback_mount-Answers env) λ u.
        Answers-bind env _ _ (Keeps-plain-Tracked env _ refl)
          λ v. record_mount-Answers vol node_mount_info path_info

  ensure_filesystem-Going : (path : String) → Keeps (Going env) (ensure_filesystem env path)
  unfolding ensure_filesystem
  ensure_filesystem-Going path =
      search (keeps_rules, Keeps-plain-Tracked env, Keeps-ask-Tracked env) depth 8

  mount_path-Answers :
      (args : MountArgs) (vol : Volume) (node_mount_info : MountInfo) (attachment : Attachment)
      (real_path : String)
      → Answers env (mount_path env args vol node_mount_info attachment real_path)
  unfolding mount_path
  mount_path-Answers args vol node_mount_info attachment real_path =
      Answers-bind env _ _ (ensure_filesystem-Going real_path) λ u.
        Answers-if env (str_eq args.vol_mount _) _ _
          (Answers-bind env _ _ (make_dir-Going _) (λ dir. mount_at-Answers vol node_mount_info _))
          (record_mount-Answers vol node_mount_info _)

  mount_device-Answers :
      (args : MountArgs) (vol : Volume) (node_mount_info : MountInfo) (attachment : Attachment)
      → Answers env (mount_device env args vol node_mount_info attachment)
  unfolding mount_device
  mount_device-Answers args vol node_mount_info attachment =
      Answers-bind env _ _ (search keeps_rules)
        (λ path. mount_path-Answers args vol node_mount_info attachment path)

  attach_on :
      (config : Config) (args : MountArgs) (vol : Volume) (is_snap : Bool)
      (node_mount_info : MountInfo) (s : State)
      → Going env s
      → OnAnswer env (attach env config args vol is_snap node_mount_info s)
  unfolding attach mount_arrays ◌>>=◌
  attach_on config args vol is_snap node_mount_info s going =
      continue-Answers env (mount_arrays env config vol is_snap s).0 _ _
        ((mount_arrays_for-Splits env config vol vol.rcg is_snap).at s going)
        (mount_device-Answers args vol node_mount_info)

-- Where attaching a volume answers with an error text, the calls made since the undo list was emptied
-- are followed by exactly the compensating call of each that completed, the newest first: the
-- directory is unmounted and removed, the devices are disconnected and the exports are terminated.
pub attach-RolledBack :
    (env : Env) (config : Config) (args : MountArgs) (vol : Volume) (is_snap : Bool)
    (node_mount_info : MountInfo) (s : State) (m : Message)
    → (attach env config args vol is_snap node_mount_info (reset_undo s).1).0 ≡ ok (failure m)
    → RolledBack env (attach env config args vol is_snap node_mount_info (reset_undo s).1).1.calls
unfolding reset_undo compensations
attach-RolledBack env config args vol is_snap node_mount_info s m failed =
    answered env _ _ m failed (
      attach_on env config args vol is_snap node_mount_info (reset_undo s).1
        (record { undo = refl; harmless = tt; kept = tt }))
