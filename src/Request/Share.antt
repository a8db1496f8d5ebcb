-- ===== src/Request/Share.antt =====
-- request_context.py, the class FileRequestContextBuilder: the owner and the mode of a share.
pub mod Acl
pub mod Params
use python_hpedockerplugin.Prelude.{
  ℕ, String, Bool, true, false, ◌&&◌, not, Option, none, some, List, [], ◌∷◌, length, ltb, leb,
  ◌==◌, is_empty, if◌then◌else◌,
}
use python_hpedockerplugin.Request.{
  Checked, valid, invalid, bad_acl, bad_type, duplicate_flags, invalid_flags, duplicate_permissions,
  invalid_permissions, bad_mode, bad_owner, owner_not_numeric, and_then, check, codes,
}

abbrev pub has : ℕ → List ℕ → Bool
has c [] = false
has c (d ∷ ds) = if d == c then true else has c ds

-- `s.split(sep)`: the first field is the one being read.
unfoldable pub split_at : ℕ → List ℕ → List (List ℕ)
split_at sep [] = [] ∷ []
split_at sep (c ∷ cs) =
    let rest = split_at sep cs in
    if c == sep
    then [] ∷ rest
    else elim rest [ [] ↦ (c ∷ []) ∷ [] | field ∷ fields ↦ (c ∷ field) ∷ fields ]

-- `list(set(xs))`: one of each.
unfoldable pub distinct : List ℕ → List ℕ
distinct [] = []
distinct (c ∷ cs) = let rest = distinct cs in if has c rest then rest else c ∷ rest

-- `set(xs) - set(allowed)`
unfoldable pub not_in : List ℕ → List ℕ → List ℕ
not_in [] allowed = []
not_in (c ∷ cs) allowed = let rest = not_in cs allowed in if has c allowed then rest else c ∷ rest

abbrev pub valid_type : List ℕ
valid_type = b'A' ∷ b'D' ∷ b'U' ∷ b'L' ∷ []

abbrev pub valid_flag : List ℕ
valid_flag = b'f' ∷ b'd' ∷ b'p' ∷ b'i' ∷ b'S' ∷ b'F' ∷ b'g' ∷ []

abbrev pub valid_perm : List ℕ
valid_perm =
    b'r' ∷ b'w' ∷ b'a' ∷ b'x' ∷ b'd' ∷ b'D' ∷ b't' ∷ b'T' ∷ b'n' ∷ b'N' ∷ b'c' ∷ b'C' ∷ b'o' ∷ b'y'
    ∷ []

-- `vtype not in valid_type`: the type is a single letter.
unfoldable pub is_valid_type : List ℕ → Bool
is_valid_type (c ∷ []) = has c valid_type
is_valid_type cs = false

-- `_check_valid_fsMode_string`, of the fields of one entry.
unfoldable pub check_fields : List (List ℕ) → Checked (Unit {0})
unfolding and_then check distinct not_in is_valid_type
check_fields (vtype ∷ flags ∷ perms ∷ []) = and_then (check (is_valid_type vtype) bad_type) (
    and_then (check (not (ltb (length (distinct flags)) (length flags))) duplicate_flags) (
      and_then (check (is_empty (not_in (distinct flags) valid_flag)) invalid_flags) (
        and_then (check (not (ltb (length (distinct perms)) (length perms))) duplicate_permissions)
          (check (is_empty (not_in (distinct perms) valid_perm)) invalid_permissions))))
check_fields fields = invalid bad_acl

unfoldable pub check_valid_fs_mode_string : List ℕ → Checked (Unit {0})
unfolding check_fields split_at
check_valid_fs_mode_string value = check_fields (split_at b':' value)

unfoldable pub check_entries : List (List ℕ) → Checked (Unit {0})
unfolding and_then check_valid_fs_mode_string
check_entries [] = valid tt
check_entries (value ∷ rest) =
    let later = check_entries rest in and_then (check_valid_fs_mode_string value) later

-- `_check_is_valid_acl_string`
unfoldable pub check_is_valid_acl_string : List ℕ → Checked (Unit {0})
unfolding and_then check check_entries split_at
check_is_valid_acl_string fs_mode =
    let entries = split_at b',' fs_mode in
    and_then (check (length entries == 3) bad_acl) (check_entries entries)

abbrev is_octal : ℕ → Bool
is_octal c = leb b'0' c && leb c b'7'

-- `^0[0-7]{3}$`: the end is also seen before a last line feed.
unfoldable pub is_valid_octal_num : List ℕ → Bool
is_valid_octal_num (z ∷ a ∷ b ∷ c ∷ []) = z == b'0' && is_octal a && is_octal b && is_octal c
is_valid_octal_num (z ∷ a ∷ b ∷ c ∷ e ∷ []) =
    z == b'0' && is_octal a && is_octal b && is_octal c && e == 10
is_valid_octal_num cs = false

unfoldable pub validate_fs_mode : String → Checked (Unit {0})
unfolding check check_is_valid_acl_string is_valid_octal_num codes
validate_fs_mode fs_mode =
    if has b':' (codes fs_mode)
    then check_is_valid_acl_string (codes fs_mode)
    else check (is_valid_octal_num (codes fs_mode)) bad_mode

-- `is_int` says whether Python's `int` reads a text.
module _ (is_int : List ℕ → Bool) where
  unfoldable pub all_int : List (List ℕ) → Bool
  all_int [] = true
  all_int (f ∷ fs) = let rest = all_int fs in is_int f && rest

  unfoldable pub validate_fs_owner : String → Checked (Unit {0})
  unfolding and_then check all_int split_at codes
  validate_fs_owner fs_owner =
      let fields = split_at b':' (codes fs_owner) in
      and_then (check (length fields == 2) bad_owner) (check (all_int fields) owner_not_numeric)
