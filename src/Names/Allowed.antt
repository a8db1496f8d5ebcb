-- ===== src/Names/Allowed.antt =====
-- The characters of the names on the array.
use Prim.Native.Char.{Char, code}
use Prim.Native.String.{String}
use python_hpedockerplugin.Prelude.{ℕ, ◌≡◌, refl, false, ◌==◌, Bool-cases, inl, inr}
use python_hpedockerplugin.Names.{replace_char, remove_char, encode_name}

-- The character, by its code point, is not in the text.
abbrev pub Lacks : ℕ → String → Type 0
Lacks k String.[] = Unit
Lacks k (String.◌∷◌ c s) = ((code c == k) ≡ false) × Lacks k s

remove_char-Lacks : (old : ℕ) (s : String) → Lacks old (remove_char old s)
unfolding remove_char
remove_char-Lacks old String.[] = tt
remove_char-Lacks old (String.◌∷◌ c s) = elim (Bool-cases (code c == old)) [
  | inl e ↦ rw (e, remove_char) (remove_char-Lacks old s)
  | inr e ↦ rw (e, remove_char) (e, remove_char-Lacks old s)
]

remove_char-still : (k old : ℕ) (s : String) → Lacks k s → Lacks k (remove_char old s)
unfolding remove_char
remove_char-still k old String.[] h = tt
remove_char-still k old (String.◌∷◌ c s) h = elim (Bool-cases (code c == old)) [
  | inl e ↦ rw (e, remove_char) (remove_char-still k old s h.1)
  | inr e ↦ rw (e, remove_char) (h.0, remove_char-still k old s h.1)
]

replace_char-Lacks :
    (old : ℕ) (new : Char) (s : String)
    → (code new == old) ≡ false
    → Lacks old (replace_char old new s)
unfolding replace_char
replace_char-Lacks old new String.[] fresh = tt
replace_char-Lacks old new (String.◌∷◌ c s) fresh = elim (Bool-cases (code c == old)) [
  | inl e ↦ rw (e, replace_char) (fresh, replace_char-Lacks old new s fresh)
  | inr e ↦ rw (e, replace_char) (e, replace_char-Lacks old new s fresh)
]

pub replace_char-still :
    (k old : ℕ) (new : Char) (s : String)
    → (code new == k) ≡ false
    → Lacks k s
    → Lacks k (replace_char old new s)
unfolding replace_char
replace_char-still k old new String.[] fresh h = tt
replace_char-still k old new (String.◌∷◌ c s) fresh h = elim (Bool-cases (code c == old)) [
  | inl e ↦ rw (e, replace_char) (fresh, replace_char-still k old new s fresh h.1)
  | inr e ↦ rw (e, replace_char) (h.0, replace_char-still k old new s fresh h.1)
]

-- Whatever base64 gives for a name, the name on the array has no `+`, no `/` and no `=`, which the
-- array does not take.
pub encode_name-Lacks :
    (encode : String → String) (name : String)
    → Lacks b'+' (encode_name encode name)
      × (Lacks b'/' (encode_name encode name) × Lacks b'=' (encode_name encode name))
unfolding encode_name
encode_name-Lacks encode name =
    let encoded = encode (remove_char b'-' name) in
    let dotted = replace_char b'+' "." encoded in
    let dashed = replace_char b'/' "-" dotted in
    (
      remove_char-still b'+' b'=' dashed
          (replace_char-still b'+' b'/' "-" dotted refl (replace_char-Lacks b'+' "." encoded refl)),
      (
        remove_char-still b'/' b'=' dashed (replace_char-Lacks b'/' "-" dotted refl),
        remove_char-Lacks b'=' dashed,
      ),
    )
