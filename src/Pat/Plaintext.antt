-- ===== src/Pat/Plaintext.antt =====
-- The plaintext of a token: `newPATPlaintext`, `HashPersonalAccessToken` and `patPrefixOf` of
-- internal/store/pat.go. `Text(62)` of math/big is written out, on fuel for 64 digits.
pub mod Laws
use Prim.Native.Char.{Char}
use Prim.Native.String.{[], ◌∷◌, len, slice}
use mathlib.Core.List as List
use metafusion_auth.Text.{trim, rune_count}
use metafusion_auth.Prelude.{
  ℕ, zero, suc, ◌+◌, ◌-◌, ◌*◌, ◌/◌, ◌%◌, String, List, Option, none, some, ltb, leb, nat_eq,
  if◌then◌else◌,
}

abbrev pub pat_prefix : String
pat_prefix = "mfp_"

abbrev pub pat_secret_bytes : ℕ
pat_secret_bytes = 32

abbrev pub pat_secret_chars : ℕ
pat_secret_chars = 43

abbrev pub pat_prefix_chars : ℕ
pat_prefix_chars = 12

abbrev pub alphabet : String
alphabet = "0123456789abcdefghijklmnopqrstuvwxyzABCDEFGHIJKLMNOPQRSTUVWXYZ"

-- The i-th character of a text; a digit is always in the alphabet.
unfoldable pub char_of : String → ℕ → Char
char_of [] i = "0"
char_of (c ∷ s) zero = c
char_of (c ∷ s) (suc i) = char_of s i

unfoldable pub base62_digits : ℕ → ℕ → String → String
unfolding char_of
base62_digits zero n acc = acc
base62_digits (suc fuel) n acc =
    let rest = base62_digits fuel (n / 62) (char_of alphabet (n % 62) ∷ acc) in
    if nat_eq n 0 then acc else rest

-- `Text(62)`
unfoldable pub base62 : ℕ → String
base62 n = if nat_eq n 0 then "0" else base62_digits 64 n []

unfoldable pub repeat_zero : ℕ → String → String
repeat_zero zero s = s
repeat_zero (suc n) s = "0" ∷ repeat_zero n s

-- `new(big.Int).SetBytes(raw)`
unfoldable pub set_bytes : ℕ → List ℕ → ℕ
set_bytes acc List.[] = acc
set_bytes acc (List.◌∷◌ b bs) = set_bytes (acc * 256 + b) bs

-- A prefix before a text.
unfoldable pub prepend : String → String → String
prepend [] s = s
prepend (c ∷ p) s = c ∷ prepend p s

-- The digits are ASCII, so `len(secret)` counts characters. `none` is the error "pat secret width overflow".
unfoldable pub new_pat_plaintext : List ℕ → Option String
unfolding base62 repeat_zero set_bytes prepend rune_count
new_pat_plaintext raw =
    let secret = base62 (set_bytes 0 raw) in
    if ltb pat_secret_chars (rune_count secret)
    then none
    else some (prepend pat_prefix (repeat_zero (pat_secret_chars - rune_count secret) secret))

-- `patPrefixOf`
unfoldable pub pat_prefix_of : String → String
pat_prefix_of plain =
    if leb (len plain) pat_prefix_chars then plain else slice plain 0 pat_prefix_chars

-- `HashPersonalAccessToken`, over the hexadecimal SHA-256 of a text.
abbrev pub hash_token : (String → String) → String → String
hash_token sha256_hex token = sha256_hex (trim token)
