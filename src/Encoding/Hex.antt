-- ===== src/Encoding/Hex.antt =====
-- encoding/hex as operators/network/internal/stacksoperation/nonce.go uses it, over lists of bytes,
-- and the digest check `canonicalHash` of that file.
pub mod Canonical
use stacks_k8s.Common.{
  ℕ, ◌+◌, ◌-◌, ◌*◌, ◌/◌, ◌%◌, ◌≡◌, Bool, true, false, ◌&&◌, ◌||◌, Option, none, some, List, [], ◌∷◌,
  ltb, leb, ◌==◌, nat_eq, list_eq, if◌then◌else◌, length,
}

abbrev pub Bytes : Type 0
Bytes = List ℕ

-- `hextable[n]`, for a half byte.
unfoldable pub hex_digit : ℕ → ℕ
hex_digit n = if ltb n 10 then 48 + n else 87 + n

-- `reverseHexTable[c]`: upper case is read too.
unfoldable pub from_hex_char : ℕ → Option ℕ
from_hex_char c =
    if leb 48 c && leb c 57
    then some (c - 48)
    else if leb 97 c && leb c 102
    then some (c - 87)
    else if leb 65 c && leb c 70
    then some (c - 55)
    else none

unfoldable pub encode_to_string : Bytes → Bytes
encode_to_string [] = []
encode_to_string (b ∷ bs) = hex_digit (b / 16) ∷ hex_digit (b % 16) ∷ encode_to_string bs

module _ {ℓ κ} {A : Type ℓ} {B : Type κ} where
  infixl 5 ◌>>=◌
  abbrev pub ◌>>=◌ : Option A → (A → Option B) → Option B
  none >>= next = none
  some value >>= next = next value

unfoldable pub decode_string : Bytes → Option Bytes
decode_string [] = some []
decode_string (a ∷ []) = none
decode_string (a ∷ b ∷ rest) = do
  x ← from_hex_char a
  y ← from_hex_char b
  raw ← decode_string rest
  some ((x * 16 + y) ∷ raw)

is_digest : Bytes → Option Bytes → Bool
is_digest value none = false
is_digest value (some raw) = length raw == 32 && encode_to_string raw == value

unfoldable pub canonical_hash : Bytes → Bool
unfolding is_digest
canonical_hash value = is_digest value (decode_string value)

abbrev pub IsLowerHex : ℕ → Type 0
IsLowerHex c = (leb 48 c && leb c 57 || leb 97 c && leb c 102) ≡ true
