-- ===== src/Mount/Fencing/First.antt =====
-- A volume of another node is fenced before it is attached.
use python_hpedockerplugin.Prelude.{
  String, ◌≡◌, ◌⊎◌, refl, sym, ap, ◌∙◌, inl, inr, Bool, Option, none, some, List, [], ◌∷◌, ◌++◌,
  lookup, insert, remove_key, Option-cases,
}
use python_hpedockerplugin.Volume.{RcgInfo, PathInfo, Volume}
use python_hpedockerplugin.Effect.{
  Call, etcd_read, etcd_update, Store, Result, ok, err, Env, State, ◌>>=◌, call, continue,
}
use python_hpedockerplugin.Effect.Reaches.{OnOk}
use python_hpedockerplugin.Etcd.{get_vol_by_id, or_not_found, update_vol}
use python_hpedockerplugin.Manager.{Response}
use python_hpedockerplugin.Names.{get_3par_name}
use python_hpedockerplugin.Replication.{Config, force_remove_volume_vlun}
use python_hpedockerplugin.Mount.{MountInfo, not_owned}
use python_hpedockerplugin.Mount.Fencing.{old_paths, replace_old_path, first_node, remember, fence}
use python_hpedockerplugin.Mount.Fencing.Since.{
  Since, Removed, Reading, Anything, more_calls, force_remove_for-Keeps, force_remove_for-Removed,
}
use python_hpedockerplugin.Mount.Attach.{MountArgs, attach}
use python_hpedockerplugin.Mount.Session.{by_ownership}

-- The record that stands under the volume's id has one more old path: that of the first node of the
-- mount info, behind those of the other nodes. Nothing else changes in etcd.
abbrev pub Remembered :
    Volume → MountInfo → Option (Option PathInfo) → (before after : Store) → Type 0
Remembered vol node_mount_info none before after = after ≡ before
Remembered vol [] (some path_info) before after = ⊥
Remembered vol ((node_id, ids) ∷ rest) (some path_info) before after =
    (current : Volume) × ((lookup vol.id before ≡ some current)
      × (after
          ≡ insert current.id
              (record current {
                old_path_info =
                    some (remove_key node_id (old_paths vol) ++ (node_id, path_info) ∷ []);
              })
              before))

more-Removed :
    (config : Config) (rcg : Option RcgInfo) (name : String) (c : Call) (made : List Call)
    → Removed config rcg name made
    → Removed config rcg name (c ∷ made)
more-Removed config none name c made h = inr h
more-Removed config (some info) name c made h = by_config config.replication config.quorum_witness h
  where
    by_config :
        (replication witness : Bool)
        → Removed
            (record config { replication = replication; quorum_witness = witness })
            (some info)
            name
            made
        → Removed
            (record config { replication = replication; quorum_witness = witness })
            (some info)
            name
            (c ∷ made)
    by_config Bool.false witness q = inr q
    by_config Bool.true Bool.true q = (inr q.0, inr q.1)
    by_config Bool.true Bool.false q = (q.0, inr q.1)

-- What an update of a record did: where it raised, etcd is as it was.
abbrev Updated : String → (Volume → Volume) → State → Result (Unit {0}) × State → Type 0
Updated volid assign s (ok u, t) =
    (current : Volume) × ((lookup volid s.etcd ≡ some current)
      × ((t.etcd ≡ insert (assign current).id (assign current) s.etcd)
          × (t.calls ≡ etcd_update (assign current) ∷ etcd_read volid ∷ s.calls)))
Updated volid assign s (err e, t) =
    (t.etcd ≡ s.etcd)
    × ((t.calls ≡ etcd_read volid ∷ s.calls)
        ⊎ ((v : Volume) × (t.calls ≡ etcd_update v ∷ etcd_read volid ∷ s.calls)))

update_vol-Updated :
    (env : Env) (volid : String) (assign : Volume → Volume) (s : State)
    → Updated volid assign s (update_vol env volid assign s)
unfolding update_vol get_vol_by_id or_not_found call ◌>>=◌
update_vol-Updated env volid assign s =
    elim (Option-cases (env.outcome (etcd_read volid) s.calls)) [
      | inr (x, e) ↦ rw (e, update_vol) (refl, inl refl)
      | inl e ↦ elim (Option-cases (lookup volid s.etcd)) [
        | inl f ↦ rw (e, f, update_vol) (refl, inl refl)
        | inr (v, f) ↦
            elim (Option-cases (env.outcome (etcd_update (assign v)) (etcd_read volid ∷ s.calls))) [
              | inr (x, g) ↦ rw (e, f, g, update_vol) (refl, inr (assign v, refl))
              | inl g ↦ rw (e, f, g, update_vol) (v, (f, (refl, refl)))
            ]
      ]
    ]

module _ (base : State) (vol : Volume) (P : List Call → Type 0)
    (more : (c : Call) (made : List Call) → P made → P (c ∷ made)) where
  -- What is known after the fence, where it returned and where it raised.
  abbrev IsRemembered : MountInfo → Option (Option PathInfo) → Result (Unit {0}) × State → Type 0
  IsRemembered node_mount_info path (ok u, t) =
      Since P base t × Remembered vol node_mount_info path base.etcd t.etcd
  IsRemembered node_mount_info path (err e, t) = Since P base t × (t.etcd ≡ base.etcd)

  updated :
      (node_id : String) (ids : List String) (rest : MountInfo) (path_info : Option PathInfo)
      (s : State) (r : Result (Unit {0})) (t : State)
      → Reading P base s
      → Updated vol.id
          (λ v. record v {
            old_path_info = some (remove_key node_id (old_paths vol) ++ (node_id, path_info) ∷ []);
          })
          s
          (r, t)
      → IsRemembered ((node_id, ids) ∷ rest) (some path_info) (r, t)
  updated node_id ids rest path_info s (ok u) t h (current, (found, (stored, made))) = (
    more_calls P _ tt (more _) made (
        more_calls P {t = record s { calls = etcd_read vol.id ∷ s.calls }} (etcd_read vol.id) tt
          (more (etcd_read vol.id)) refl h.0),
    (current, (ap (λ store. lookup vol.id store) (sym h.1) ∙ found, cc (stored, h.1))),
  )
  updated node_id ids rest path_info s (err e) t h (same, inl made) =
      (more_calls P (etcd_read vol.id) tt (more (etcd_read vol.id)) made h.0, same ∙ h.1)
  updated node_id ids rest path_info s (err e) t h (same, inr (v, made)) = (
    more_calls P (etcd_update v) tt (more (etcd_update v)) made (
        more_calls P {t = record s { calls = etcd_read vol.id ∷ s.calls }} (etcd_read vol.id) tt
          (more (etcd_read vol.id)) refl h.0),
    same ∙ h.1,
  )

  remember-IsRemembered :
      (env : Env) (node_mount_info : MountInfo) (path : Option (Option PathInfo)) (s : State)
      → Reading P base s
      → IsRemembered node_mount_info path (remember env vol node_mount_info path s)
  unfolding remember first_node ◌>>=◌ replace_old_path
  remember-IsRemembered env node_mount_info none s h = h
  remember-IsRemembered env [] (some path_info) s h = h
  remember-IsRemembered env ((node_id, ids) ∷ rest) (some path_info) s h =
      updated node_id ids rest path_info s _ _ h (update_vol-Updated env vol.id _ s)

module _ (env : Env) (config : Config) (args : MountArgs) (vol : Volume) (is_snap : Bool)
    (node_mount_info : MountInfo) (base : State) where
  -- What is known of a mount after its fence.
  abbrev pub AfterFence : Result (Unit {0}) × State → Result Response × State → Type 0
  AfterFence (err e, s) final =
      Since Anything base s × ((s.etcd ≡ base.etcd) × (final ≡ (err e, s)))
  AfterFence (ok u, s) final =
      Since (Removed config vol.rcg (get_3par_name env.encode vol.id is_snap)) base s
      × (Remembered vol node_mount_info vol.path_info base.etcd s.etcd
          × (final
              ≡ attach env config args vol is_snap ((config.node_id, args.mount_id ∷ []) ∷ []) s))

  abbrev IsFenced : Result (Unit {0}) × State → Type 0
  IsFenced (err e, s) = Since Anything base s × (s.etcd ≡ base.etcd)
  IsFenced (ok u, s) =
      Since (Removed config vol.rcg (get_3par_name env.encode vol.id is_snap)) base s
      × Remembered vol node_mount_info vol.path_info base.etcd s.etcd

  remembered :
      (r : Result (Unit {0})) (s : State)
      → OnOk
          (λ u. Reading (Removed config vol.rcg (get_3par_name env.encode vol.id is_snap)) base)
          (r, s)
      → Reading Anything base s
      → IsFenced (continue r (λ u. remember env vol node_mount_info vol.path_info) s)
  remembered (err e) s removed h = h
  remembered (ok u) s removed h = forget (remember env vol node_mount_info vol.path_info s).0 _ (
      remember-IsRemembered base vol _ (more-Removed config vol.rcg _) env node_mount_info
        vol.path_info s removed)
    where
      forget :
          (r : Result (Unit {0})) (t : State)
          → IsRemembered base vol
              (Removed config vol.rcg (get_3par_name env.encode vol.id is_snap))
              (more-Removed config vol.rcg (get_3par_name env.encode vol.id is_snap))
              node_mount_info
              vol.path_info
              (r, t)
          → IsFenced (r, t)
      forget (ok u) t k = k
      forget (err e) t k =
          (record { made = k.0.made; calls = k.0.calls; fencing = k.0.fencing; holds = tt }, k.1)

  at_base : Reading Anything base base
  at_base = (record { made = []; calls = refl; fencing = tt; holds = tt }, refl)

  fence-IsFenced : IsFenced (fence env config vol is_snap node_mount_info base)
  unfolding fence force_remove_volume_vlun ◌>>=◌
  fence-IsFenced =
      remembered _ _ ((force_remove_for-Removed env base config _ vol.rcg).at base at_base)
        ((force_remove_for-Keeps env base config _ vol.rcg).at base at_base)

  after_fence :
      (r : Result (Unit {0})) (s : State)
      → IsFenced (r, s)
      → AfterFence
          (r, s)
          (continue r
            (λ u. attach env config args vol is_snap ((config.node_id, args.mount_id ∷ []) ∷ []))
            s)
  after_fence (ok u) s fenced = (fenced.0, (fenced.1, refl))
  after_fence (err e) s fenced = (fenced.0, (fenced.1, refl))

-- A mount of a volume that another node has mounted first removes the volume's exports by force: on
-- the primary array without replication, on both arrays under Peer Persistence, else on one. Then,
-- where the record has a path, that path is stored in the record as the old path of the other node,
-- which is the first of the mount info, and etcd changes in nothing else. Only where all this succeeds
-- is the volume attached to this node. Where it raises, so does the mount, etcd is as it was, and the
-- mount made no call but those of the fence: nothing is exported, connected or mounted.
pub by_ownership-AfterFence :
    (env : Env) (config : Config) (args : MountArgs) (vol : Volume) (is_snap : Bool)
    (node_mount_info : MountInfo) (base : State)
    → AfterFence env config args vol is_snap node_mount_info base
        (fence env config vol is_snap node_mount_info base)
        (by_ownership env config args vol is_snap node_mount_info not_owned base)
unfolding by_ownership ◌>>=◌
by_ownership-AfterFence env config args vol is_snap node_mount_info base =
    after_fence env config args vol is_snap node_mount_info base _ _
      (fence-IsFenced env config args vol is_snap node_mount_info base)
