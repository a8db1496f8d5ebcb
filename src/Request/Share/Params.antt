-- ===== src/Request/Share/Params.antt =====
-- request_context.py, the class FileRequestContextBuilder: what a request for a share asks of the file
-- manager. `config` is the part of a backend's configuration that is read here.
pub mod Accepted
use python_hpedockerplugin.Prelude.{
  ℕ, suc, ◌+◌, ◌*◌, String, Bool, true, false, not, ◌&&◌, Option, none, some, List, [], ◌∷◌, lookup,
  is_empty, is_some, str_eq, if◌then◌else◌,
}
use python_hpedockerplugin.Request.{
  Operation, create_share, create_share_help, Reason, reserved_for_block, not_configured,
  not_an_integer, no_cpg, owner_missing, share_too_large, file_not_enabled, bad_readonly, bad_help,
  Checked, valid, invalid, Opts, Contents, opts_of, check, validate_name, validate_opts,
}
use python_hpedockerplugin.Request.Share.{validate_fs_mode, validate_fs_owner}
use python_hpedockerplugin.Python.{ℤ, pos, negsuc, above, int, int_of_codes, lower_is}

pub record FileConfig : Type 0 where
  pub hpe3par_cpg : List String
  pub hpe3par_default_fpg_size : ℕ

-- share.create_metadata
pub record ShareArgs : Type 0 where
  pub backend : String
  pub cpg : String
  pub fpg : Option String
  pub name : String
  -- in MiB
  pub size : ℤ
  pub readonly : Bool
  pub nfs_options : Option String
  pub comment : Option String
  pub fs_mode : Option String
  pub fs_owner : Option String

pub data Context : Type 0 where
  share_context : ShareArgs → Context
  help_context backends_context : Context

infixl 5 ◌>>=◌ ◌>>◌
unfoldable pub ◌>>=◌ : {A B : Type 0} → Checked A → (A → Checked B) → Checked B
valid a >>= f = f a
invalid reason >>= f = invalid reason

abbrev pub ◌>>◌ : {A B : Type 0} → Checked A → Checked B → Checked B
m >> n = m >>= λ _. n

-- `_get_str_option`, without a list of valid values: an empty text counts as absent.
abbrev pub get_str_option : Opts → String → Option String → Option String
get_str_option opts option_name default = elim (lookup option_name opts) [
  | none ↦ default
  | some opt ↦ if str_eq opt "" then default else some opt
]

abbrev pub int_or : Option String → ℤ → String → Checked ℤ
int_or none default option_name = valid default
int_or (some opt) default option_name = elim (int opt) [
  | none ↦ invalid (not_an_integer option_name)
  | some n ↦ valid n
]

-- `_get_int_option`
unfoldable pub get_int_option : Opts → String → ℤ → Checked ℤ
get_int_option opts option_name default =
    int_or (get_str_option opts option_name none) default option_name

abbrev pub first_of : List String → Option String
first_of [] = none
first_of (cpg ∷ cpgs) = some cpg

abbrev pub scaled : ℤ → ℤ
scaled (pos n) = pos (n * 1024)
scaled (negsuc n) = negsuc (n * 1024 + 1023)

unfoldable pub check_if_given : (String → Checked (Unit {0})) → Option String → Checked (Unit {0})
check_if_given validate none = valid tt
check_if_given validate (some value) = validate value

unfoldable pub or_invalid : {A : Type 0} → Option A → Reason → Checked A
or_invalid none reason = invalid reason
or_invalid (some a) reason = valid a

abbrev pub text_or : Option String → String → String
text_or none default = default
text_or (some value) default = value

unfoldable pub readonly_of : String → Checked Bool
readonly_of readonly_str =
    if lower_is readonly_str "true"
    then valid true
    else if lower_is readonly_str "false"
    then valid false
    else invalid (bad_readonly readonly_str)

abbrev pub is_int : List ℕ → Bool
is_int field = is_some (int_of_codes field)

abbrev pub share_opts : List String
share_opts =
    "backend" ∷ "filePersona" ∷ "cpg" ∷ "fpg" ∷ "size" ∷ "mountConflictDelay" ∷ "fsMode" ∷ "fsOwner"
    ∷ []

abbrev pub help_opts : List String
help_opts = "filePersona" ∷ "help" ∷ "mountConflictDelay" ∷ []

module _ (backend_configs : List (String × FileConfig)) (def_backend_name : String) where
  abbrev pub backend_name : Opts → String
  backend_name opts = text_or (get_str_option opts "backend" none) def_backend_name

  -- `_create_share_req_params`
  unfoldable pub create_share_req_params : String → Opts → Checked ShareArgs
  create_share_req_params name opts = do
    check (not (str_eq (backend_name opts) "DEFAULT_BLOCK"))
        (reserved_for_block (backend_name opts))
    config ←
        or_invalid (lookup (backend_name opts) backend_configs) (not_configured (backend_name opts))
    cpg ← or_invalid (get_str_option opts "cpg" (first_of config.hpe3par_cpg)) no_cpg
    check (not (str_eq cpg "")) no_cpg
    check_if_given validate_fs_mode (get_str_option opts "fsMode" none)
    check_if_given (validate_fs_owner is_int) (get_str_option opts "fsOwner" none)
    check
        (not (
          is_some (get_str_option opts "fsMode" none)
          && not (is_some (get_str_option opts "fsOwner" none))))
        owner_missing
    size_gib ← get_int_option opts "size" (pos 1024)
    check (not (above size_gib (config.hpe3par_default_fpg_size * 1024))) share_too_large
    readonly ← readonly_of (text_or (get_str_option opts "readonly" none) "false")
    valid (record {
      backend = backend_name opts;
      cpg = cpg;
      fpg = get_str_option opts "fpg" none;
      name = name;
      size = scaled size_gib;
      readonly = readonly;
      nfs_options = get_str_option opts "nfsOptions" none;
      comment = get_str_option opts "comment" none;
      fs_mode = get_str_option opts "fsMode" none;
      fs_owner = get_str_option opts "fsOwner" none;
    })

  unfoldable pub create_share_req_ctxt : String → Opts → Checked Context
  create_share_req_ctxt name opts = do
    validate_opts create_share opts share_opts ("filePersona" ∷ [])
    share_args ← create_share_req_params name opts
    valid (share_context share_args)

  unfoldable pub help_of : Option String → Checked Context
  help_of none = valid help_context
  help_of (some value) =
      if str_eq value "backends" then valid backends_context else invalid (bad_help value)

  unfoldable pub create_help_req_ctxt : Opts → Checked Context
  create_help_req_ctxt opts = do
    validate_opts create_share_help opts help_opts []
    help_of (get_str_option opts "help" none)

  -- The first operation whose options are all given; a request without them builds nothing.
  unfoldable pub build_given : String → Opts → Checked (Option Context)
  build_given name opts =
      if is_some (lookup "filePersona" opts) && is_some (lookup "help" opts)
      then (create_help_req_ctxt opts >>= λ context. valid (some context))
      else if is_some (lookup "filePersona" opts)
      then (create_share_req_ctxt name opts >>= λ context. valid (some context))
      else valid none

  unfoldable pub build_request_context : Contents → Checked (Option Context)
  build_request_context contents = do
    validate_name contents.name
    build_given contents.name (opts_of contents)

-- RequestContextBuilderFactory: without a file driver every request is refused.
unfoldable pub build_with :
    Option (List (String × FileConfig)) → String → Contents → Checked (Option Context)
build_with none def_backend_name contents = invalid file_not_enabled
build_with (some backend_configs) def_backend_name contents =
    build_request_context backend_configs def_backend_name contents
