-- ===== src/Manager/Inspect/Sync.antt =====
-- What a synchronisation with the array leaves of the snapshots of a volume.
use python_hpedockerplugin.Prelude.{
  String, ◌≡◌, refl, ap, ◌∙◌, Bool, true, false, List, [], ◌∷◌, All, Bool-cases, inl, inr,
  if◌then◌else◌,
}
use python_hpedockerplugin.Volume.{Snapshot}
use python_hpedockerplugin.Effect.{Env}
use python_hpedockerplugin.Manager.Inspect.{
  is_on_array, get_snapshots_to_be_deleted, remove_snapshot, remove_snapshots,
}

module _ (env : Env) (same : Snapshot → Snapshot → Bool) (bkend_snapshots : List String) where
  abbrev on_array : Snapshot → Bool
  on_array ss = is_on_array env same bkend_snapshots ss

  -- The snapshots that the array has, in the order of the record.
  unfoldable pub kept : List Snapshot → List Snapshot
  kept [] = []
  kept (ss ∷ db_snapshots) = let rest = kept db_snapshots in if on_array ss then ss ∷ rest else rest

  abbrev to_delete : List Snapshot → List Snapshot
  to_delete db_snapshots = get_snapshots_to_be_deleted env same db_snapshots bkend_snapshots

  to_delete-All :
      (db_snapshots : List Snapshot) → All (λ ss. on_array ss ≡ false) (to_delete db_snapshots)
  unfolding get_snapshots_to_be_deleted
  to_delete-All [] = tt
  to_delete-All (ss ∷ db_snapshots) = elim (Bool-cases (on_array ss)) [
    | inl e ↦ rw e (to_delete-All db_snapshots)
    | inr e ↦ rw e (e, to_delete-All db_snapshots)
  ]

  module _ (same_refl : (ss : Snapshot) → same ss ss ≡ true)
      (same_id : (s t : Snapshot) → same s t ≡ true → s.id ≡ t.id) where
    not_same : (s t : Snapshot) → on_array s ≡ true → on_array t ≡ false → same s t ≡ false
    not_same s t present absent = elim (Bool-cases (same s t)) [
      | inl e ↦ cc (present, absent, same_id s t e)
      | inr e ↦ e
    ]

    remove_snapshots-kept :
        (ss : Snapshot) (removed snapshots : List Snapshot)
        → on_array ss ≡ true
        → All (λ t. on_array t ≡ false) removed
        → remove_snapshots same removed (ss ∷ snapshots)
          ≡ ss ∷ remove_snapshots same removed snapshots
    unfolding remove_snapshots remove_snapshot
    remove_snapshots-kept ss [] snapshots present absent = refl
    remove_snapshots-kept ss (t ∷ removed) snapshots present absent =
        rw (not_same ss t present absent.0)
          (remove_snapshots-kept ss removed (remove_snapshot same t snapshots) present absent.1)

    remove_snapshots-first :
        (ss : Snapshot) (removed snapshots : List Snapshot)
        → remove_snapshots same (ss ∷ removed) (ss ∷ snapshots)
          ≡ remove_snapshots same removed snapshots
    unfolding remove_snapshots remove_snapshot
    remove_snapshots-first ss removed snapshots = rw (same_refl ss) refl

    remove_snapshots-all :
        (db_snapshots : List Snapshot)
        → remove_snapshots same (to_delete db_snapshots) db_snapshots ≡ kept db_snapshots
    unfolding kept get_snapshots_to_be_deleted remove_snapshots remove_snapshot
    remove_snapshots-all [] = refl
    remove_snapshots-all (ss ∷ db_snapshots) = elim (Bool-cases (on_array ss)) [
      | inl e ↦ rw e (
          remove_snapshots-kept ss (to_delete db_snapshots) db_snapshots e
            (to_delete-All db_snapshots)
          ∙ ap (λ l. ss ∷ l) (remove_snapshots-all db_snapshots))
      | inr e ↦ rw e (
          remove_snapshots-first ss (to_delete db_snapshots) db_snapshots
          ∙ remove_snapshots-all db_snapshots)
    ]

-- The snapshots that a synchronisation leaves in the record of a volume are those that the array has,
-- in their order, whatever equality of records the removal of one from the list goes by, if a record
-- equals itself and equal records have the same id.
pub remove_snapshots-get_snapshots_to_be_deleted :
    (env : Env) (same : Snapshot → Snapshot → Bool) (bkend_snapshots : List String)
    (db_snapshots : List Snapshot)
    → ((ss : Snapshot) → same ss ss ≡ true)
    → ((s t : Snapshot) → same s t ≡ true → s.id ≡ t.id)
    → remove_snapshots same
        (get_snapshots_to_be_deleted env same db_snapshots bkend_snapshots)
        db_snapshots
      ≡ kept env same bkend_snapshots db_snapshots
remove_snapshots-get_snapshots_to_be_deleted env same bkend_snapshots db_snapshots same_refl
      same_id =
    remove_snapshots-all env same bkend_snapshots same_refl same_id db_snapshots
