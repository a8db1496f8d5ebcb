-- ===== src/Api/Routes.antt =====
-- hpe_storage_api.py with request_router.py: which driver gets the requests for a name. Shares come
-- first; what the file driver does not know goes to the block driver.
pub mod Single
use python_hpedockerplugin.Prelude.{
  ℕ, String, Bool, true, false, not, ◌&&◌, Option, none, some, List, [], ◌∷◌, ◌++◌, contains,
  is_empty, length, ltb, if◌then◌else◌,
}
use python_hpedockerplugin.Orchestrator.{Manager}
use python_hpedockerplugin.Prelude.{lookup}

-- How a call of a driver ends.
pub data Outcome : Type 0 where
  returned : Outcome
  metadata_not_found plugin_exception other_exception : Outcome

-- The answer of a handler: of a driver, of the handler itself, or an exception that leaves it.
pub data Served : Type 0 where
  by_file by_block : Served
  error_of_file error_of_block : Served
  raised_by_file raised_by_block : Served
  -- `{"Err": ""}` and a text of the handler
  nothing_done not_configured invalid_name : Served

-- The drivers that are configured, and whether a share has the name.
pub record Drivers : Type 0 where
  pub has_file : Bool
  pub has_block : Bool
  pub has_share : Bool
  -- how the file driver's and the block driver's operations end
  pub file_outcome : Outcome
  pub block_outcome : Outcome

-- `route_remove_request`, `route_mount_request`, `route_unmount_request`, `get_object_details` and
-- `route_get_path_request`: the share's metadata are read first.
unfoldable pub route : Drivers → Outcome
route drivers =
    if drivers.has_file && drivers.has_share then drivers.file_outcome else metadata_not_found

-- An exception of the block driver leaves the handler.
abbrev pub block_or_raise : Outcome → Served
block_or_raise returned = by_block
block_or_raise metadata_not_found = raised_by_block
block_or_raise plugin_exception = raised_by_block
block_or_raise other_exception = raised_by_block

-- An exception of the block driver becomes the text of an error.
abbrev pub block_or_error : Outcome → Served
block_or_error returned = by_block
block_or_error metadata_not_found = error_of_block
block_or_error plugin_exception = error_of_block
block_or_error other_exception = error_of_block

abbrev pub if_block : Drivers → Served → Served → Served
if_block drivers block otherwise = if drivers.has_block then block else otherwise

-- `except EtcdMetadataNotFound: pass`; other exceptions leave the handler.
abbrev pub else_block : Outcome → Served → Served
else_block returned block = by_file
else_block metadata_not_found block = block
else_block plugin_exception block = raised_by_file
else_block other_exception block = raised_by_file

-- `volumedriver_remove` turns all exceptions into errors.
unfoldable pub remove_by : Outcome → Served → Served
remove_by returned block = by_file
remove_by metadata_not_found block = block
remove_by plugin_exception block = error_of_file
remove_by other_exception block = error_of_file

unfoldable pub volumedriver_remove : Drivers → Served
unfolding remove_by route
volumedriver_remove drivers =
    remove_by (route drivers) (if_block drivers (block_or_error drivers.block_outcome) nothing_done)

unfoldable pub volumedriver_unmount : Drivers → Served
unfolding route
volumedriver_unmount drivers =
    else_block (route drivers)
      (if_block drivers (block_or_raise drivers.block_outcome) not_configured)

unfoldable pub volumedriver_mount : Drivers → Served
unfolding route
volumedriver_mount drivers =
    else_block (route drivers)
      (if_block drivers (block_or_error drivers.block_outcome) not_configured)

unfoldable pub volumedriver_path : Drivers → Served
unfolding route
volumedriver_path drivers =
    else_block (route drivers)
      (if_block drivers (block_or_raise drivers.block_outcome) nothing_done)

-- `tokens` is the name taken apart at its slashes.
unfoldable pub volumedriver_get : (tokens : List (List ℕ)) → Drivers → Served
unfolding route
volumedriver_get tokens drivers =
    if ltb 2 (length tokens)
    then invalid_name
    else else_block (route drivers)
        (if_block drivers (block_or_raise drivers.block_outcome) nothing_done)

-- The shares and then the volumes; `none` is an answer without a list.
unfoldable pub volumedriver_list :
    {A : Type 0} → (has_block : Bool) → (shares volumes : List A) → Option (List A)
volumedriver_list has_block shares volumes =
    let final_list = shares ++ (if has_block then volumes else []) in
    if is_empty final_list then none else some final_list

-- The default backend of a driver, whose own name for it is `own`; the name of the other driver's is not
-- allowed.
unfoldable pub default_backend : (own other : String) → List String → Option String
default_backend own other backends =
    let chosen =
      if contains "DEFAULT" backends
      then some "DEFAULT"
      else if contains own backends
      then some own
      else none in
    elim chosen [ none ↦ none | some name ↦ if contains other backends then none else some name ]

-- The manager that lists the volumes.
unfoldable pub lists_with : (own : String) → List (String × Manager) → Bool
lists_with own managers = elim (lookup "DEFAULT" managers) [
  | some manager ↦ manager.mgr
  | none ↦ elim (lookup own managers) [ none ↦ false | some manager ↦ manager.mgr ]
]
