-- ===== src/Password/Length.antt =====
-- The length of the key.
use python_hpedockerplugin.Prelude.{
  ℕ, zero, suc, ◌-◌, ◌≤◌, ◌≡◌, refl, ◌⊎◌, List, [], ◌∷◌, length, length-append, arith,
}
use python_hpedockerplugin.Password.{take, ascii_letters, pad, key_check}

length-take : (n : ℕ) (xs : List ℕ) → n ≤ length xs → length (take n xs) ≡ n
unfolding take
length-take zero xs h = refl
length-take (suc n) [] h = omega arith
length-take (suc n) (x ∷ xs) h = omega (arith, length-take n xs (omega arith))

length-pad : (n : ℕ) (key : List ℕ) → length key ≤ n → n ≤ 52 → length (pad n key) ≡ n
unfolding pad
length-pad n key short bound = omega (
  arith,
  length-append key (take (n - length key) ascii_letters),
  length-take (n - length key) ascii_letters (omega arith),
)

-- Whatever the passphrase, the key has 16, 24 or 32 characters, as AES asks.
pub length-key_check :
    (key : List ℕ)
    → (length (key_check key) ≡ 16)
      ⊎ ((length (key_check key) ≡ 24) ⊎ (length (key_check key) ≡ 32))
unfolding key_check
length-key_check key =
    ground (arith, length-pad 16 key, length-pad 24 key, length-pad 32 key, length-take 32 key)
