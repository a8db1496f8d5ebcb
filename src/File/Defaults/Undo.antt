-- ===== src/File/Defaults/Undo.antt =====
-- A default file provisioning group that is taken back.
use python_hpedockerplugin.Prelude.{
  String, ◌≡◌, ◌≢◌, refl, ap, ◌∙◌, true, false, Option, none, some, List, [], ◌∷◌, ◌++◌, contains,
  lookup, insert, is_empty, lookup-insert, arith, eq_iff, eq_refl, if◌then◌else◌,
}
use python_hpedockerplugin.IpPool.{BackendMetadata}
use python_hpedockerplugin.File.{ok}
use python_hpedockerplugin.File.Defaults.{
  Defaults, with_defaults, or_empty, fpgs_of, defaults_of, add_default_fpg, changed, unset,
  unset_listed, remove_as_default_fpg, without_default, remove_fpg_from_default_fpgs,
}
use python_hpedockerplugin.File.Mount.Records.{remove_first-append, remove_key-insert}

insert-insert :
    (key : String) (old new : List String) (dict : Defaults)
    → insert key new (insert key old dict) ≡ insert key new dict
unfolding insert
insert-insert key old new [] = ground (arith, eq_refl key)
insert-insert key old new ((k, v) ∷ dict) =
    ground (arith, insert-insert key old new dict, eq_refl key)

insert-same :
    (key : String) (value : List String) (dict : Defaults)
    → lookup key dict ≡ some value
    → insert key value dict ≡ dict
unfolding insert lookup
insert-same key value [] e = cc
insert-same key value ((k, v) ∷ dict) e = ground (arith, insert-same key value dict, eq_iff k key)

contains-last : (x : String) (xs : List String) → contains x (xs ++ x ∷ []) ≡ true
unfolding contains
contains-last x [] = ground (arith, eq_refl x)
contains-last x (y ∷ ys) = ground (arith, contains-last x ys)

module _ (cpg fpg : String) (metadata : BackendMetadata) where
  -- The defaults as a dictionary, an absent one being empty.
  abbrev before : Defaults
  before = defaults_of metadata

  restored :
      (fpgs : List String)
      → fpgs_of cpg before ≡ fpgs
      → is_empty fpgs ≡ false
      → insert cpg fpgs (insert cpg (fpgs ++ fpg ∷ []) before) ≡ before
  restored fpgs e some_fpgs =
      insert-insert cpg (fpgs ++ fpg ∷ []) fpgs before
      ∙ insert-same cpg fpgs before (listed (lookup cpg before) e)
    where
      listed : (o : Option (List String)) → or_empty o ≡ fpgs → o ≡ some fpgs
      listed none h = cc (h, some_fpgs)
      listed (some fs) h = ap some h

unset_listed-last :
    (cpg fpg : String) (metadata : BackendMetadata) (defaults : Defaults) (fpgs : List String)
    → contains fpg fpgs ≡ false
    → unset_listed cpg fpg metadata defaults (fpgs ++ fpg ∷ [])
      ≡ ok (changed (unset cpg metadata defaults fpgs))
unset_listed-last cpg fpg metadata defaults [] new =
    rw (contains-last fpg [], remove_first-append fpg [] new) refl
unset_listed-last cpg fpg metadata defaults (x ∷ xs) new =
    rw (contains-last fpg (x ∷ xs), remove_first-append fpg (x ∷ xs) new) refl

insert-some :
    (key : String) (value : List String) (dict : Defaults)
    → is_empty (insert key value dict) ≡ false
unfolding insert
insert-some key value [] = refl
insert-some key value ((k, v) ∷ dict) = ground arith

fpgs_of-insert :
    (cpg : String) (fpgs : List String) (defaults : Defaults)
    → fpgs_of cpg (insert cpg fpgs defaults) ≡ fpgs
fpgs_of-insert cpg fpgs defaults = ground (arith, lookup-insert cpg cpg fpgs defaults, eq_refl cpg)

unset-restored :
    (cpg fpg : String) (metadata : BackendMetadata) (fpgs : List String)
    → fpgs_of cpg (defaults_of metadata) ≡ fpgs
    → unset cpg metadata (insert cpg (fpgs ++ fpg ∷ []) (defaults_of metadata)) fpgs
      ≡ with_defaults metadata (if is_empty fpgs then none else some (defaults_of metadata))
unset-restored cpg fpg metadata [] e = refl
unset-restored cpg fpg metadata (x ∷ xs) e =
    ap (λ d. with_defaults metadata (some d)) (restored cpg fpg metadata (x ∷ xs) e refl)

-- Taking a default group back when a creation is undone, where it was no default group before: the
-- default groups of before are restored if its group of disks had others. If it had none, the metadata
-- are left without default groups, those of all other groups of disks included.
pub remove_as_default_fpg-add_default_fpg :
    (cpg fpg : String) (metadata : BackendMetadata)
    → contains fpg (fpgs_of cpg (defaults_of metadata)) ≡ false
    → remove_as_default_fpg cpg fpg (add_default_fpg cpg fpg metadata)
      ≡ ok (
          changed (
            with_defaults metadata (
              if is_empty (fpgs_of cpg (defaults_of metadata))
              then none
              else some (defaults_of metadata))))
unfolding remove_as_default_fpg
remove_as_default_fpg-add_default_fpg cpg fpg metadata new =
    let fpgs = fpgs_of cpg (defaults_of metadata) in
    let defaults = insert cpg (fpgs ++ fpg ∷ []) (defaults_of metadata) in
    rw
      (
        insert-some cpg (fpgs ++ fpg ∷ []) (defaults_of metadata),
        fpgs_of-insert cpg (fpgs ++ fpg ∷ []) (defaults_of metadata),
      )
      (unset_listed-last cpg fpg (add_default_fpg cpg fpg metadata) defaults fpgs new
        ∙ ap (λ (m : BackendMetadata). ok (changed m)) (unset-restored cpg fpg metadata fpgs refl))

-- The group of disks has no empty list of default groups.
abbrev pub HasNoEmpty : String → Defaults → Type 0
HasNoEmpty cpg defaults = lookup cpg defaults ≢ some []

without_default-insert :
    (cpg fpg : String) (metadata : BackendMetadata) (listed : Option (List String))
    → lookup cpg (defaults_of metadata) ≡ listed
    → HasNoEmpty cpg (defaults_of metadata)
    → without_default cpg
        (insert cpg (or_empty listed ++ fpg ∷ []) (defaults_of metadata))
        (or_empty listed)
      ≡ defaults_of metadata
without_default-insert cpg fpg metadata none e no_empty =
    remove_key-insert cpg (fpg ∷ []) (defaults_of metadata) e
without_default-insert cpg fpg metadata (some []) e no_empty = absurd (no_empty e)
without_default-insert cpg fpg metadata (some (x ∷ xs)) e no_empty =
    restored cpg fpg metadata (x ∷ xs) (ap or_empty e) refl

-- Taking a group out of the default groups when its share is deleted, where it was no default group
-- before it was added and its group of disks had no empty list of them: the default groups of before
-- are restored, those of all other groups of disks untouched.
pub remove_fpg_from_default_fpgs-add_default_fpg :
    (cpg fpg : String) (metadata : BackendMetadata)
    → contains fpg (fpgs_of cpg (defaults_of metadata)) ≡ false
    → HasNoEmpty cpg (defaults_of metadata)
    → remove_fpg_from_default_fpgs cpg fpg (add_default_fpg cpg fpg metadata)
      ≡ ok (with_defaults metadata (some (defaults_of metadata)))
unfolding remove_fpg_from_default_fpgs
remove_fpg_from_default_fpgs-add_default_fpg cpg fpg metadata new no_empty =
    let fpgs = fpgs_of cpg (defaults_of metadata) in
    rw
      (
        insert-some cpg (fpgs ++ fpg ∷ []) (defaults_of metadata),
        lookup-insert cpg cpg (fpgs ++ fpg ∷ []) (defaults_of metadata),
        eq_refl cpg,
        contains-last fpg fpgs,
        remove_first-append fpg fpgs new,
      )
      (ap (λ (d : Defaults). ok (with_defaults metadata (some d)))
        (without_default-insert cpg fpg metadata (lookup cpg (defaults_of metadata)) refl no_empty))
