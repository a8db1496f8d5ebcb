-- ===== src/Password.antt =====
-- hpe/utils.py, `PasswordDecryptor._key_check`: the passphrase is brought to the length of an AES key.
-- Texts are lists of code points. The decryption itself is a library's.
pub mod Length
use python_hpedockerplugin.Prelude.{
  ℕ, zero, suc, ◌-◌, Bool, true, false, ◌&&◌, List, [], ◌∷◌, ◌++◌, length, ltb, if◌then◌else◌,
}

-- `s[:n]`
unfoldable pub take : {A : Type 0} → ℕ → List A → List A
take zero xs = []
take (suc n) [] = []
take (suc n) (x ∷ xs) = x ∷ take n xs

-- `string.ascii_letters`
abbrev pub ascii_letters : List ℕ
ascii_letters =
    b'a' ∷ b'b' ∷ b'c' ∷ b'd' ∷ b'e' ∷ b'f' ∷ b'g' ∷ b'h' ∷ b'i' ∷ b'j' ∷ b'k' ∷ b'l' ∷ b'm' ∷ b'n'
    ∷ b'o' ∷ b'p' ∷ b'q' ∷ b'r' ∷ b's' ∷ b't' ∷ b'u' ∷ b'v' ∷ b'w' ∷ b'x' ∷ b'y' ∷ b'z' ∷ b'A'
    ∷ b'B' ∷ b'C' ∷ b'D' ∷ b'E' ∷ b'F' ∷ b'G' ∷ b'H' ∷ b'I' ∷ b'J' ∷ b'K' ∷ b'L' ∷ b'M' ∷ b'N'
    ∷ b'O' ∷ b'P' ∷ b'Q' ∷ b'R' ∷ b'S' ∷ b'T' ∷ b'U' ∷ b'V' ∷ b'W' ∷ b'X' ∷ b'Y' ∷ b'Z' ∷ []

-- `key + padding_string[:n - KEY_LEN]`
unfoldable pub pad : ℕ → List ℕ → List ℕ
unfolding take
pad n key = key ++ take (n - length key) ascii_letters

unfoldable pub key_check : List ℕ → List ℕ
unfolding pad take
key_check key =
    if ltb (length key) 16
    then pad 16 key
    else if ltb 16 (length key) && ltb (length key) 24
    then pad 24 key
    else if ltb 24 (length key) && ltb (length key) 32
    then pad 32 key
    else if ltb 32 (length key)
    then take 32 key
    else key
