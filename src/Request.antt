-- ===== src/Request.antt =====
-- request_validator.py and request_context.py: what the two validators of requests share. A request
-- has a name and options; the options are a dictionary of texts, and a request without options has
-- none or an empty dictionary. The texts of the errors are a data type.
pub mod Volume
pub mod Share
use Prim.Native.Char.{Char, code}
use python_hpedockerplugin.Prelude.{
  ℕ, ◌+◌, String, Bool, true, false, ◌&&◌, ◌||◌, Option, none, some, List, [], ◌∷◌, contains,
  is_empty, leb, ◌==◌, if◌then◌else◌,
}

pub data Operation : Type 0 where
  create_snapshot_schedule create_snapshot clone_volume import_volume create_replicated_volume :
      Operation
  display_help create_volume create_share create_share_help : Operation

-- exception.InvalidInput, by its text.
pub data Reason : Type 0 where
  invalid_name : String → Reason
  mutually_exclusive : Reason
  missing_mandatory invalid_options : Operation → Reason
  no_such_backend : String → Reason
  bad_acl bad_type duplicate_flags invalid_flags duplicate_permissions invalid_permissions : Reason
  bad_mode bad_owner owner_not_numeric : Reason
  reserved_for_block not_configured not_an_integer : String → Reason
  no_cpg owner_missing share_too_large file_not_enabled : Reason
  bad_readonly bad_help : String → Reason

pub data Checked (A : Type 0) : Type 0 where
  valid : A → Checked A
  invalid : Reason → Checked A

abbrev pub Opts : Type 0
Opts = List (String × String)

pub record Contents : Type 0 where
  pub name : String
  pub opts : Option Opts

-- One check after another: the first failure is raised.
unfoldable pub and_then : {A B : Type 0} → Checked A → Checked B → Checked B
and_then (valid a) next = next
and_then (invalid reason) next = invalid reason

unfoldable pub check : Bool → Reason → Checked (Unit {0})
check true reason = valid tt
check false reason = invalid reason

abbrev pub keys : Opts → List String
keys [] = []
keys ((k, v) ∷ opts) = k ∷ keys opts

abbrev pub opts_of : Contents → Opts
opts_of contents = elim contents.opts [ none ↦ [] | some opts ↦ opts ]

-- `set(wanted) - set(received)`, for texts that are all different.
unfoldable pub missing : List String → List String → List String
missing [] received = []
missing (w ∷ wanted) received =
    let rest = missing wanted received in if contains w received then rest else w ∷ rest

-- The code points of a text.
unfoldable pub codes : String → List ℕ
codes (String.◌∷◌ head rest) = code head ∷ codes rest
codes String.[] = []

abbrev between : ℕ → ℕ → ℕ → Bool
between low high c = leb low c && leb c high

-- `[A-Za-z0-9]` and `[A-Za-z0-9_-]`
unfoldable pub is_alphanumeric : ℕ → Bool
is_alphanumeric c = between b'A' b'Z' c || between b'a' b'z' c || between b'0' b'9' c

unfoldable pub is_name_char : ℕ → Bool
unfolding is_alphanumeric
is_name_char c = is_alphanumeric c || c == b'_' || c == b'-'

-- `[A-Za-z0-9_-]*$`: the end is also seen before a last line feed.
unfoldable pub all_name_chars : List ℕ → Bool
unfolding is_name_char
all_name_chars [] = true
all_name_chars (c ∷ []) = is_name_char c || c == 10
all_name_chars (c ∷ d ∷ cs) = let rest = all_name_chars (d ∷ cs) in is_name_char c && rest

-- `^[A-Za-z0-9]+[A-Za-z0-9_-]+$`
unfoldable pub is_valid_name : List ℕ → Bool
unfolding is_alphanumeric all_name_chars
is_valid_name [] = false
is_valid_name (c ∷ []) = false
is_valid_name (c ∷ d ∷ cs) = is_alphanumeric c && is_name_char d && all_name_chars (d ∷ cs)

-- `_validate_name`
unfoldable pub validate_name : String → Checked (Unit {0})
unfolding check is_valid_name codes
validate_name vol_name = check (is_valid_name (codes vol_name)) (invalid_name vol_name)

-- `_validate_opts`, where the request has options.
unfoldable pub validate_opts :
    Operation → Opts → (valid_opts mandatory_opts : List String) → Checked (Unit {0})
unfolding and_then check missing
validate_opts operation opts valid_opts mandatory_opts =
    if is_empty opts
    then valid tt
    else and_then
        (check (is_empty (missing mandatory_opts (keys opts))) (missing_mandatory operation))
        (check (is_empty (missing (keys opts) valid_opts)) (invalid_options operation))
