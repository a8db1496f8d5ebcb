-- ===== src/Python.antt =====
-- What the source uses of Python's `int`, `str.lower` and `str.split`, on the code points of a text,
-- and the truth value of an optional text.
use python_hpedockerplugin.Prelude.{
  ℕ, zero, suc, ◌+◌, ◌*◌, ◌-◌, String, Bool, true, false, not, ◌&&◌, ◌||◌, Option, none, some, List,
  [], ◌∷◌, leb, ltb, ◌==◌, is_empty, length, str_eq, if◌then◌else◌,
}
use python_hpedockerplugin.Request.{codes}

-- `pos n` is n, `negsuc n` is -(n + 1).
pub data ℤ : Type 0 where
  pos negsuc : ℕ → ℤ

abbrev pub is_zero : ℤ → Bool
is_zero (pos n) = n == 0
is_zero (negsuc n) = false

-- `m < n` for a natural n.
abbrev pub below : ℤ → ℕ → Bool
below (pos m) n = ltb m n
below (negsuc m) n = true

-- `m > n` for a natural n.
abbrev pub above : ℤ → ℕ → Bool
above (pos m) n = ltb n m
above (negsuc m) n = false

-- `m > n`
abbrev pub greater : ℤ → ℤ → Bool
greater (pos m) (pos n) = ltb n m
greater (pos m) (negsuc n) = true
greater (negsuc m) (pos n) = false
greater (negsuc m) (negsuc n) = ltb m n

pub data Token : Type 0 where
  digit : ℕ → Token
  underscore other : Token

abbrev token : ℕ → Token
token c =
    if leb b'0' c && leb c b'9' then digit (c - b'0') else if c == b'_' then underscore else other

-- The characters that `int` skips around a number.
abbrev is_space : ℕ → Bool
is_space c = leb 9 c && leb c 13 || leb 28 c && leb c 32 || c == 133 || c == 160

abbrev skip_spaces : List ℕ → List ℕ
skip_spaces [] = []
skip_spaces (c ∷ cs) = let rest = skip_spaces cs in if is_space c then rest else c ∷ cs

abbrev drop_last_spaces : List ℕ → List ℕ
drop_last_spaces [] = []
drop_last_spaces (c ∷ cs) =
    let rest = drop_last_spaces cs in if is_space c && is_empty rest then [] else c ∷ rest

-- Digits, with single underscores between them: `n` is the value read, `after_digit` whether the last
-- character was a digit.
unfoldable pub read_digits : (n : ℕ) (after_digit : Bool) → List ℕ → Option ℕ
read_digits n true [] = some n
read_digits n false [] = none
read_digits n after_digit (c ∷ cs) = elim (token c) [
  | digit d ↦ read_digits (n * 10 + d) true cs
  | underscore ↦ if after_digit then read_digits n false cs else none
  | other ↦ none
]

abbrev negated : ℕ → ℤ
negated zero = pos 0
negated (suc n) = negsuc n

abbrev with_sign : (ℕ → ℤ) → Option ℕ → Option ℤ
with_sign sign none = none
with_sign sign (some n) = some (sign n)

unfoldable pub signed : List ℕ → Option ℤ
unfolding read_digits
signed [] = none
signed (c ∷ cs) =
    if c == b'-'
    then with_sign negated (read_digits 0 false cs)
    else if c == b'+'
    then with_sign pos (read_digits 0 false cs)
    else with_sign pos (read_digits 0 false (c ∷ cs))

unfoldable pub int_of_codes : List ℕ → Option ℤ
unfolding signed
int_of_codes cs = signed (drop_last_spaces (skip_spaces cs))

-- `int(s)`: none is a ValueError.
unfoldable pub int : String → Option ℤ
unfolding int_of_codes codes
int s = int_of_codes (codes s)

abbrev lower_code : ℕ → ℕ
lower_code c = if leb b'A' c && leb c b'Z' then c + 32 else c

abbrev same_codes : List ℕ → List ℕ → Bool
same_codes [] [] = true
same_codes (c ∷ cs) (d ∷ ds) = let rest = same_codes cs ds in lower_code c == d && rest
same_codes cs ds = false

-- `s.lower() == word`, for a word of small ASCII letters.
unfoldable pub lower_is : String → String → Bool
unfolding codes
lower_is s word = same_codes (codes s) (codes word)

-- `s.lower() in words`
abbrev pub lower_in : String → List String → Bool
lower_in s [] = false
lower_in s (word ∷ words) = let rest = lower_in s words in lower_is s word || rest

-- An optional text in a condition: absent and empty are false.
abbrev pub truthy : Option String → Bool
truthy none = false
truthy (some s) = not (str_eq s "")

-- `len(s)`
abbrev pub text_length : String → ℕ
text_length s = length (codes s)
