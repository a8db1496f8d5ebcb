-- ===== src/Request/Volume.antt =====
-- request_validator.py: the requests to the block driver.
pub mod Dispatch
use python_hpedockerplugin.Prelude.{
  ℕ, ◌<◌, String, Bool, true, false, not, Option, none, some, List, [], ◌∷◌, contains, lookup,
  is_empty, length, ltb, str_eq, if◌then◌else◌,
}
use python_hpedockerplugin.Request.{
  Operation, create_snapshot_schedule, create_snapshot, clone_volume, import_volume,
  create_replicated_volume, display_help, create_volume, create_share, create_share_help, Reason,
  mutually_exclusive, no_such_backend, Checked, valid, invalid, Opts, Contents, and_then, check,
  keys, opts_of, missing, validate_name, validate_opts,
}

-- `operations_map`: the options that select an operation, in the order in which they are tried. The
-- source spells `snaphotPrefix`.
abbrev pub operations_map : List (List String × Operation)
operations_map =
    (("virtualCopyOf" ∷ "scheduleName" ∷ [], create_snapshot_schedule)
      ∷ ("virtualCopyOf" ∷ "scheduleFrequency" ∷ [], create_snapshot_schedule)
      ∷ ("virtualCopyOf" ∷ "snaphotPrefix" ∷ [], create_snapshot_schedule)
      ∷ ("virtualCopyOf" ∷ [], create_snapshot)
      ∷ ("cloneOf" ∷ [], clone_volume)
      ∷ ("importVol" ∷ [], import_volume)
      ∷ ("replicationGroup" ∷ [], create_replicated_volume)
      ∷ ("help" ∷ [], display_help)
      ∷ [])

-- The first entry whose options were all received, else the regular volume.
unfoldable pub first_found : List (List String × Operation) → List String → Operation
unfolding missing
first_found [] received = create_volume
first_found ((op_name, operation) ∷ rest) received =
    let later = first_found rest received in
    if is_empty (missing op_name received) then operation else later

unfoldable pub operation_of : List String → Operation
unfolding first_found
operation_of received = first_found operations_map received

abbrev pub exclusive_ops : List String
exclusive_ops = "virtualCopyOf" ∷ "cloneOf" ∷ "importVol" ∷ "replicationGroup" ∷ []

-- `_validate_mutually_exclusive_ops`
unfoldable pub validate_mutually_exclusive_ops : List String → Checked (Unit {0})
unfolding check missing
validate_mutually_exclusive_ops received =
    check (not (ltb (length (missing exclusive_ops received)) 3)) mutually_exclusive

abbrev pub valid_opts : Operation → List String
valid_opts create_snapshot_schedule =
    "virtualCopyOf" ∷ "scheduleFrequency" ∷ "scheduleName" ∷ "snapshotPrefix" ∷ "expHrs" ∷ "retHrs"
    ∷ "mountConflictDelay" ∷ "size" ∷ "manager" ∷ []
valid_opts create_snapshot =
    "virtualCopyOf" ∷ "retentionHours" ∷ "expirationHours" ∷ "mountConflictDelay" ∷ "size"
    ∷ "manager" ∷ []
valid_opts clone_volume =
    "cloneOf" ∷ "size" ∷ "cpg" ∷ "snapcpg" ∷ "mountConflictDelay" ∷ "manager" ∷ []
valid_opts import_volume = "importVol" ∷ "backend" ∷ "mountConflictDelay" ∷ "manager" ∷ []
valid_opts create_replicated_volume =
    "replicationGroup" ∷ "size" ∷ "provisioning" ∷ "backend" ∷ "mountConflictDelay" ∷ "compression"
    ∷ "manager" ∷ []
valid_opts display_help = "help" ∷ []
valid_opts create_volume =
    "compression" ∷ "size" ∷ "provisioning" ∷ "flash-cache" ∷ "qos-name" ∷ "fsOwner" ∷ "fsMode"
    ∷ "mountConflictDelay" ∷ "cpg" ∷ "snapcpg" ∷ "backend" ∷ "manager" ∷ []
valid_opts create_share = []
valid_opts create_share_help = []

abbrev pub mandatory_opts : Operation → List String
mandatory_opts create_snapshot_schedule =
    "scheduleName" ∷ "snapshotPrefix" ∷ "scheduleFrequency" ∷ []
mandatory_opts operation = []

-- The backend of an import: `DEFAULT` where none is given.
abbrev pub backend_of : Opts → String
backend_of opts = elim (lookup "backend" opts) [
  | none ↦ "DEFAULT"
  | some name ↦ if str_eq name "" then "DEFAULT" else name
]

module _ (backends : List String) where
  unfoldable pub validate_backend : Operation → Opts → Checked (Unit {0})
  unfolding check
  validate_backend import_volume opts =
      check (contains (backend_of opts) backends) (no_such_backend (backend_of opts))
  validate_backend operation opts = valid tt

  -- The validator of the operation.
  unfoldable pub validate_operation : Operation → Opts → Checked (Unit {0})
  unfolding and_then validate_backend
  validate_operation operation opts =
      and_then (validate_opts operation opts (valid_opts operation) (mandatory_opts operation))
        (validate_backend operation opts)

  unfoldable pub validate_given : Opts → Checked (Unit {0})
  unfolding and_then validate_operation operation_of
  validate_given opts =
      if is_empty opts
      then valid tt
      else and_then (validate_mutually_exclusive_ops (keys opts))
          (validate_operation (operation_of (keys opts)) opts)

  unfoldable pub validate_request : Contents → Checked (Unit {0})
  unfolding and_then validate_given
  validate_request contents =
      and_then (validate_name contents.name) (validate_given (opts_of contents))
