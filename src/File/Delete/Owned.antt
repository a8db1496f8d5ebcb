-- ===== src/File/Delete/Owned.antt =====
-- The thread of cmd/cmd_deleteshare.py deletes only groups that the plug-in made.
use python_hpedockerplugin.Prelude.{
  String, ◌≡◌, refl, sym, ap, ◌∙◌, Bool, true, false, Option, none, some, Option-cases, inl, inr,
  [], ◌∷◌,
}
use python_hpedockerplugin.IpPool.{BackendMetadata}
use python_hpedockerplugin.File.{
  Share, Call, FpgInfo, delete_fpg, lock, unlock, shares_present, delete_file_store, read_fpg,
  Error, metadata_not_found, ok, State, History, Env, M, pure, raise, gets, or_raise, ◌>>=◌,
  try_except, call, ask, made, find_fpg, get_fpg_metadata,
}
use python_hpedockerplugin.File.Keeps.{
  Keeps, IsHarmless, Keeps-pure, Keeps-raise, Keeps-gets, Keeps-if, Keeps-call, Keeps-bind,
  Keeps-known, Keeps-try, Keeps-with_lock,
}
use python_hpedockerplugin.File.Mount.{Host}
use python_hpedockerplugin.File.Commands.{Config, ignoring}
use python_hpedockerplugin.File.Delete.{
  not_owned, fpg_owned_by_docker, delete_fpg_if, continue_delete,
}

-- A group was deleted on the array.
abbrev pub deletes_fpg : History → Bool
deletes_fpg [] = false
deletes_fpg (delete_fpg fpg ∷ h) = true
deletes_fpg (c ∷ h) = deletes_fpg h

-- The group has no metadata, no group was deleted, and the metadata of the backend are as given.
pub record IsUntouched (cpg fpg : String) (metadata : Option BackendMetadata) (s : State)
    : Type 0 where
  pub no_record : find_fpg (cpg, fpg) s.fpgs ≡ none
  pub none_deleted : deletes_fpg s.calls ≡ false
  pub same_metadata : s.backend_metadata ≡ metadata

module _ (env : Env) (config : Config) (host : Host) (share : Share) (fpg : String)
    (metadata : Option BackendMetadata) where
  abbrev Untouched : State → Type 0
  Untouched = IsUntouched share.cpg fpg metadata

  logged :
      (c : Call) (s : State)
      → deletes_fpg (c ∷ s.calls) ≡ deletes_fpg s.calls
      → Untouched s
      → Untouched (made c s)
  logged c s same h = record {
    no_record = h.no_record;
    none_deleted = same ∙ h.none_deleted;
    same_metadata = h.same_metadata;
  }

  lock-IsHarmless : (name : String) → IsHarmless Untouched (lock name)
  lock-IsHarmless name = record { done = λ s. logged _ s refl; refused = λ s. logged _ s refl }

  unlock-IsHarmless : (name : String) → IsHarmless Untouched (unlock name)
  unlock-IsHarmless name = record { done = λ s. logged _ s refl; refused = λ s. logged _ s refl }

  file_store-IsHarmless : (name : String) → IsHarmless Untouched (delete_file_store fpg name)
  file_store-IsHarmless name = record {
    done = λ s. logged _ s refl;
    refused = λ s. logged _ s refl;
  }

  present-IsHarmless : IsHarmless Untouched (shares_present fpg)
  present-IsHarmless = record { done = λ s. logged _ s refl; refused = λ s. logged _ s refl }

  read-IsHarmless : IsHarmless Untouched (read_fpg share.cpg fpg)
  read-IsHarmless = record { done = λ s. logged _ s refl; refused = λ s. logged _ s refl }

  or_raise-Untouched : (o : Option FpgInfo) → Keeps Untouched (or_raise metadata_not_found o)
  unfolding or_raise
  or_raise-Untouched none = Keeps-raise _
  or_raise-Untouched (some info) = Keeps-pure _

  get_fpg_metadata-Untouched : Keeps Untouched (get_fpg_metadata env share.cpg fpg)
  unfolding get_fpg_metadata
  get_fpg_metadata-Untouched =
      Keeps-bind _ _ (Keeps-call env _ read-IsHarmless)
        λ u. Keeps-bind _ _ (Keeps-gets _) λ stored. or_raise-Untouched stored

  not_owned-Untouched : (e : Error) → Keeps Untouched (not_owned env config host share e)
  unfolding not_owned
  not_owned-Untouched metadata_not_found = Keeps-pure _
  not_owned-Untouched e = Keeps-raise _

  not_owned-false :
      (e : Error) (s : State) (b : Bool)
      → (not_owned env config host share e s).0 ≡ ok b
      → b ≡ false
  unfolding not_owned pure raise
  not_owned-false metadata_not_found s b e = cc e
  not_owned-false x s b e = cc e

  owned_eq :
      (s : State)
      → find_fpg (share.cpg, fpg) s.fpgs ≡ none
      → (x : Error) × (fpg_owned_by_docker env config host share fpg s
          ≡ not_owned env config host share x (made (read_fpg share.cpg fpg) s))
  unfolding fpg_owned_by_docker get_fpg_metadata ◌>>=◌ try_except call gets or_raise pure raise
  owned_eq s absent = elim (Option-cases (env.outcome (read_fpg share.cpg fpg) s.calls)) [
    | inr (x, o) ↦ (x, rw (o, fpg_owned_by_docker) refl)
    | inl o ↦ (metadata_not_found, rw (o, absent, fpg_owned_by_docker) refl)
  ]

  -- A group without metadata is not taken for one of the plug-in.
  fpg_owned-false :
      (s : State) (b : Bool)
      → Untouched s
      → (fpg_owned_by_docker env config host share fpg s).0 ≡ ok b
      → b ≡ false
  fpg_owned-false s b h e =
      let (x, same) = owned_eq s h.no_record in
      not_owned-false x (made (read_fpg share.cpg fpg) s) b (ap (λ r. r.0) (sym same) ∙ e)

  fpg_owned-Untouched : Keeps Untouched (fpg_owned_by_docker env config host share fpg)
  unfolding fpg_owned_by_docker
  fpg_owned-Untouched =
      Keeps-try _ _ (Keeps-bind _ _ get_fpg_metadata-Untouched (λ info. Keeps-pure _))
        not_owned-Untouched

  delete_fpg_if-Untouched :
      (present : Bool) → Keeps Untouched (delete_fpg_if env config host share fpg present)
  unfolding delete_fpg_if
  delete_fpg_if-Untouched present =
      Keeps-if present _ _ (λ h. Keeps-pure _)
        (λ last.
          Keeps-known (λ b. b ≡ false) _ _ fpg_owned-Untouched fpg_owned-false
            λ owned never. Keeps-if owned _ _ (λ is_owned. cc) (λ not_owned. Keeps-pure _))

  ignored-Untouched :
      (m : M (Unit {0})) → Keeps Untouched m → Keeps Untouched (ignoring env config m)
  unfolding ignoring
  ignored-Untouched m h = Keeps-try _ _ h (λ e. Keeps-pure _)

  continue_delete-Untouched : Keeps Untouched (continue_delete env config host share fpg)
  unfolding continue_delete ask
  continue_delete-Untouched =
      Keeps-bind _ _ (ignored-Untouched _ (Keeps-call env _ (file_store-IsHarmless share.name)))
        λ u. Keeps-with_lock env _ _ (lock-IsHarmless _) (unlock-IsHarmless _) (
          Keeps-bind _ _ (Keeps-bind _ _ (Keeps-call env _ present-IsHarmless) (λ v. Keeps-gets _))
            delete_fpg_if-Untouched)

-- The second part of a share's deletion, for a group of which etcd has no metadata, which the plug-in
-- did not make: whatever the array and etcd answer, no group is deleted on the array, the group gets no
-- metadata, and the metadata of the backend stay as they are, its addresses and default groups included.
pub continue_delete-IsUntouched :
    (env : Env) (config : Config) (host : Host) (share : Share) (fpg : String) (s : State)
    → find_fpg (share.cpg, fpg) s.fpgs ≡ none
    → deletes_fpg s.calls ≡ false
    → IsUntouched share.cpg fpg s.backend_metadata (continue_delete env config host share fpg s).1
continue_delete-IsUntouched env config host share fpg s absent none_before =
    (continue_delete-Untouched env config host share fpg s.backend_metadata).at s
      (record { no_record = absent; none_deleted = none_before; same_metadata = refl })
