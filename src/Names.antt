-- ===== src/Names.antt =====
-- hpe/utils.py: the names that a volume, a snapshot, a volume set and a remote copy group have on
-- the array. `encode` stands for `uuid.UUID` and `oslo_base64.encode_as_text`, which are not in the
-- repository.
pub mod Allowed
pub mod Decoded
use Prim.Native.Char.{Char, code}
use Prim.Native.String.{◌++◌, slice}
use python_hpedockerplugin.Prelude.{
  ℕ, zero, suc, String, Bool, true, false, ◌&&◌, ◌==◌, if◌then◌else◌,
}

-- `s.replace(old, new)` for single characters.
unfoldable pub replace_char : ℕ → Char → String → String
replace_char old new String.[] = String.[]
replace_char old new (String.◌∷◌ c s) =
    String.◌∷◌ (if code c == old then new else c) (replace_char old new s)

-- `s.replace(old, '')` for a single character.
unfoldable pub remove_char : ℕ → String → String
remove_char old String.[] = String.[]
remove_char old (String.◌∷◌ c s) =
    let rest = remove_char old s in if code c == old then rest else String.◌∷◌ c rest

module _ (encode : String → String) where
  unfoldable pub encode_name : String → String
  unfolding replace_char remove_char
  encode_name name =
      remove_char b'='
        (replace_char b'/' "-" (replace_char b'+' "." (encode (remove_char b'-' name))))

  unfoldable pub get_3par_vol_name : String → String
  unfolding encode_name
  get_3par_vol_name volume_id = "dcv-" ++ encode_name volume_id

  unfoldable pub get_3par_name : String → Bool → String
  unfolding encode_name
  get_3par_name volume_id true = "dcs-" ++ encode_name volume_id
  get_3par_name volume_id false = "dcv-" ++ encode_name volume_id

  unfoldable pub get_3par_snap_name : String → String
  unfolding encode_name
  get_3par_snap_name snapshot_id = "dcs-" ++ encode_name snapshot_id

  unfoldable pub get_3par_vvs_name : String → String
  unfolding encode_name
  get_3par_vvs_name volume_id = "vvs-" ++ encode_name volume_id

  unfoldable pub get_3par_rcg_name : String → String
  unfolding encode_name
  get_3par_rcg_name id = slice ("rcg-" ++ encode_name id) 0 22

-- The text starts with `dcv-`.
abbrev pub starts_with_dcv : String → Bool
starts_with_dcv (String.◌∷◌ d (String.◌∷◌ c (String.◌∷◌ v (String.◌∷◌ dash s)))) =
    code d == b'd' && code c == b'c' && code v == b'v' && code dash == b'-'
starts_with_dcv s = false

-- `s.replace('dcv-', '')`, wherever it stands; `inside` is what is left of an occurrence.
unfoldable pub remove_dcv : (inside : ℕ) → String → String
remove_dcv inside String.[] = String.[]
remove_dcv (suc n) (String.◌∷◌ c s) = remove_dcv n s
remove_dcv zero (String.◌∷◌ c s) = elim (starts_with_dcv (String.◌∷◌ c s)) [
  | true ↦ remove_dcv 3 s
  | false ↦ String.◌∷◌ c (remove_dcv 0 s)
]

-- `_decode_name`; `decode` stands for `oslo_base64.decode_as_bytes` and `uuid.UUID`.
unfoldable pub decode_name : (decode : String → String) → String → String
unfolding remove_dcv replace_char
decode_name decode name =
    decode (replace_char b'-' "/" (replace_char b'.' "+" (remove_dcv 0 name)) ++ "==")

unfoldable pub get_vol_id : (decode : String → String) → String → String
unfolding decode_name
get_vol_id decode volume_name = decode_name decode volume_name

-- volume_manager.py, `"*%s" % volume_3par`: a task on the array names its volumes with a prefix.
unfoldable pub active_task_pattern : String → String
active_task_pattern volume_3par = "*" ++ volume_3par
