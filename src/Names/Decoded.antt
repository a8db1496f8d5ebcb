-- ===== src/Names/Decoded.antt =====
-- The identifier of a volume, read from its name on the array.
use Prim.Native.Char.{Char, code}
use Prim.Native.String.{◌++◌, String}
use Prim.Native.String.append.{nil, cons}
use text.Mathlib.TextEquality.{Char-path}
use python_hpedockerplugin.Prelude.{
  ◌≡◌, refl, sym, ap, subst, Bool, true, false, ◌||◌, ◌==◌, Bool-cases, inl, inr, arith,
}
use python_hpedockerplugin.Names.{
  replace_char, remove_char, encode_name, get_3par_vol_name, starts_with_dcv, remove_dcv,
  decode_name, get_vol_id,
}
use python_hpedockerplugin.Names.Allowed.{Lacks}

-- `dcv-` stands somewhere in the text.
unfoldable pub contains_dcv : String → Bool
contains_dcv String.[] = false
contains_dcv (String.◌∷◌ c s) =
    let rest = contains_dcv s in starts_with_dcv (String.◌∷◌ c s) || rest

-- Base64 of 16 bytes: two `=` at the end and nowhere else, and neither a dot nor a dash.
pub record IsBase64 (s : String) : Type 0 where
  pub padded : remove_char b'=' s ++ "==" ≡ s
  pub no_dot : Lacks b'.' s
  pub no_dash : Lacks b'-' s

-- What `_decode_name` undoes.
abbrev restore : String → String
restore s = replace_char b'-' "/" (replace_char b'.' "+" s)

abbrev mangle : String → String
mangle s = remove_char b'=' (replace_char b'/' "-" (replace_char b'+' "." s))

-- The equation of one character, for the character of a code point.
at_code :
    (c d : Char) (s : String)
    → (code c == code d) ≡ true
    → restore (mangle (String.◌∷◌ d s)) ≡ remove_char b'=' (String.◌∷◌ d s)
    → restore (mangle (String.◌∷◌ c s)) ≡ remove_char b'=' (String.◌∷◌ c s)
at_code c d s same h =
    subst (λ x. restore (mangle (String.◌∷◌ x s)) ≡ remove_char b'=' (String.◌∷◌ x s))
      (sym (Char-path c d (ground arith))) h

restore-mangle :
    (s : String) → Lacks b'.' s → Lacks b'-' s → restore (mangle s) ≡ remove_char b'=' s
unfolding replace_char remove_char
restore-mangle String.[] dot dash = refl
restore-mangle (String.◌∷◌ c s) dot dash =
    let rest = restore-mangle s dot.1 dash.1 in
    elim (Bool-cases (code c == b'+')) [
      | inl plus ↦ at_code c "+" s plus (ap (String.◌∷◌ "+") rest)
      | inr not_plus ↦ elim (Bool-cases (code c == b'/')) [
        | inl slash ↦ at_code c "/" s slash (ap (String.◌∷◌ "/") rest)
        | inr not_slash ↦ elim (Bool-cases (code c == b'=')) [
          | inl equals ↦ at_code c "=" s equals rest
          | inr not_equals ↦
              rw (not_plus, not_slash, not_equals, dot.0, dash.0) (ap (String.◌∷◌ c) rest)
        ]
      ]
    ]

remove_dcv-none : (s : String) → contains_dcv s ≡ false → remove_dcv 0 s ≡ s
unfolding remove_dcv contains_dcv
remove_dcv-none String.[] h = refl
remove_dcv-none (String.◌∷◌ c s) h = elim (Bool-cases (starts_with_dcv (String.◌∷◌ c s))) [
  | inl e ↦ ground arith
  | inr e ↦ rw (e, remove_dcv) (ap (String.◌∷◌ c) (remove_dcv-none s (ground arith)))
]

after_prefix : (s : String) → remove_dcv 0 ("dcv-" ++ s) ≡ remove_dcv 0 s
unfolding remove_dcv
after_prefix s = rw (cons "d" "cv-" s, cons "c" "v-" s, cons "v" "-" s, cons "-" "" s, nil s) refl

-- The name on the array of a volume gives back the volume's id, if base64 and its decoding fit
-- together and the encoded id has no `dcv-` of its own, which would be taken out as well.
pub get_vol_id-get_3par_vol_name :
    (encode decode : String → String) (id : String)
    → IsBase64 (encode (remove_char b'-' id))
    → decode (encode (remove_char b'-' id)) ≡ id
    → contains_dcv (encode_name encode id) ≡ false
    → get_vol_id decode (get_3par_vol_name encode id) ≡ id
unfolding get_vol_id decode_name get_3par_vol_name encode_name
get_vol_id-get_3par_vol_name encode decode id base64 inverse no_prefix =
    let encoded = encode (remove_char b'-' id) in
    rw
      (
        after_prefix (mangle encoded),
        remove_dcv-none (mangle encoded) no_prefix,
        restore-mangle encoded base64.no_dot base64.no_dash,
        base64.padded,
      )
      inverse
