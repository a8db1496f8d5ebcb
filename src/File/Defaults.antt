-- ===== src/File/Defaults.antt =====
-- cmd/cmd_createfpg.py and cmd/cmd_deleteshare.py: the default file provisioning groups of each group
-- of disks, in the metadata of a backend, and the addresses that are given back.
pub mod Undo
use python_hpedockerplugin.Prelude.{
  String, Bool, true, false, Option, none, some, List, [], ◌∷◌, ◌++◌, contains, lookup, insert,
  remove_key, is_empty, if◌then◌else◌,
}
use python_hpedockerplugin.IpPool.{BackendMetadata, remove_first}
use python_hpedockerplugin.File.{Error, key_error, value_error, type_error, Result, err, ok}

abbrev pub Defaults : Type 0
Defaults = List (String × List String)

abbrev pub with_defaults : BackendMetadata → Option Defaults → BackendMetadata
with_defaults metadata defaults = record metadata { default_fpgs = defaults }

-- An absent and an empty list of a group of disks are alike.
abbrev pub or_empty : Option (List String) → List String
or_empty none = []
or_empty (some fpgs) = fpgs

abbrev pub fpgs_of : String → Defaults → List String
fpgs_of cpg defaults = or_empty (lookup cpg defaults)

abbrev pub defaults_of : BackendMetadata → Defaults
defaults_of metadata = elim metadata.default_fpgs [ none ↦ [] | some defaults ↦ defaults ]

-- `_add_to_default_fpg`: what it does to the metadata that it has read.
abbrev pub add_default_fpg : (cpg fpg : String) → BackendMetadata → BackendMetadata
add_default_fpg cpg fpg metadata =
    with_defaults metadata
      (some (insert cpg (fpgs_of cpg (defaults_of metadata) ++ fpg ∷ []) (defaults_of metadata)))

-- What a removal leaves: nothing changed, and nothing is saved; or new metadata.
pub data Removal : Type 0 where
  unchanged : Removal
  changed : BackendMetadata → Removal

-- The list of the group of disks without the group; with its last group, all default groups go.
abbrev pub unset : (cpg : String) → BackendMetadata → Defaults → List String → BackendMetadata
unset cpg metadata defaults [] = with_defaults metadata none
unset cpg metadata defaults (left ∷ rest) =
    with_defaults metadata (some (insert cpg (left ∷ rest) defaults))

abbrev pub unset_listed :
    (cpg fpg : String) → BackendMetadata → Defaults → List String → Result Removal
unset_listed cpg fpg metadata defaults [] = ok (changed metadata)
unset_listed cpg fpg metadata defaults (first ∷ fpgs) =
    if contains fpg (first ∷ fpgs)
    then ok (changed (unset cpg metadata defaults (remove_first fpg (first ∷ fpgs))))
    else err value_error

-- `_remove_as_default_fpg`: what it does to the metadata that it has read.
unfoldable pub remove_as_default_fpg : (cpg fpg : String) → BackendMetadata → Result Removal
remove_as_default_fpg cpg fpg metadata = elim metadata.default_fpgs [
  | none ↦ err key_error
  | some defaults ↦
      if is_empty defaults
      then ok unchanged
      else unset_listed cpg fpg metadata defaults (fpgs_of cpg defaults)
]

-- `_release_ip`: the address of the share's server.
unfoldable pub release_ip : String → BackendMetadata → Result BackendMetadata
release_ip ip metadata =
    if contains ip metadata.ips_in_use
    then ok (record metadata { ips_in_use = remove_first ip metadata.ips_in_use })
    else err value_error

abbrev pub without_default : (cpg : String) → Defaults → List String → Defaults
without_default cpg defaults [] = remove_key cpg defaults
without_default cpg defaults (left ∷ rest) = insert cpg (left ∷ rest) defaults

-- `_remove_fpg_from_default_fpgs`: a group of disks without default groups is a TypeError.
unfoldable pub remove_fpg_from_default_fpgs :
    (cpg fpg : String) → BackendMetadata → Result BackendMetadata
remove_fpg_from_default_fpgs cpg fpg metadata =
    if is_empty (defaults_of metadata)
    then ok metadata
    else elim (lookup cpg (defaults_of metadata)) [
      | none ↦ err type_error
      | some fpgs ↦
          if contains fpg fpgs
          then ok (
              with_defaults metadata
                (some (without_default cpg (defaults_of metadata) (remove_first fpg fpgs))))
          else ok metadata
    ]
