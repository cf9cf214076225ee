-- ===== src/Identity.antt =====
-- libs/stacks/identity: c32 addresses (address.go), and of identity.go the checksum and the encoding
-- in an alphabet. SHA-256 of crypto/sha256 is an argument. A Go string is a list of bytes; a
-- `[20]byte` is a list of 20 bytes.
pub mod Digits
pub mod Address
pub mod Examples
use mathlib.Core.Option
use stacks_k8s.Common.{
  ℕ, zero, suc, ◌+◌, ◌*◌, ◌/◌, ◌%◌, ◌^◌, Bool, ◌||◌, Option, none, some, List, [], ◌∷◌, ◌++◌, ltb,
  leb, ◌==◌, ◌/=◌, nat_eq, list_eq, if◌then◌else◌, length, get_elem?, take, drop, Result, ok, err,
}
use stacks_k8s.Encoding.Hex.{Bytes}
use stacks_k8s.Encoding.BigEndian.{set_bytes, fill_bytes}

-- "0123456789ABCDEFGHJKMNPQRSTVWXYZ".
abbrev pub c32 : Bytes
c32 =
    48 ∷ 49 ∷ 50 ∷ 51 ∷ 52 ∷ 53 ∷ 54 ∷ 55 ∷ 56 ∷ 57 ∷ 65 ∷ 66 ∷ 67 ∷ 68 ∷ 69 ∷ 70 ∷ 71 ∷ 72 ∷ 74
    ∷ 75 ∷ 77 ∷ 78 ∷ 80 ∷ 81 ∷ 82 ∷ 83 ∷ 84 ∷ 86 ∷ 87 ∷ 88 ∷ 89 ∷ 90 ∷ []

-- `alphabet[i]`, for an index in range.
unfoldable pub char_at : Bytes → ℕ → ℕ
char_at alphabet i = elim (get_elem? alphabet i) [ none ↦ 0 | some c ↦ c ]

-- `strings.IndexByte`.
unfoldable pub index_byte : Bytes → ℕ → Option ℕ
index_byte [] c = none
index_byte (d ∷ ds) c =
    let rest = Option.map suc (index_byte ds c) in if d == c then some 0 else rest

-- The digits of `n`, before `out`: the loop appends them and then reverses. The fuel is `n`.
pub to_digits : ℕ → Bytes → ℕ → Bytes → Bytes
to_digits zero alphabet n out = out
to_digits (suc fuel) alphabet n out =
    let rest =
      to_digits fuel alphabet (n / length alphabet)
        (char_at alphabet (n % length alphabet) ∷ out) in
    if n == 0 then out else rest

-- One zero digit for each leading zero byte.
pub leading_zeros : Bytes → Bytes → Bytes → Bytes
leading_zeros alphabet [] out = out
leading_zeros alphabet (v ∷ bs) out =
    let rest = leading_zeros alphabet bs (char_at alphabet 0 ∷ out) in if v /= 0 then out else rest

pub encode : Bytes → Bytes → Bytes
unfolding to_digits leading_zeros
encode b alphabet = leading_zeros alphabet b (to_digits (set_bytes b) alphabet (set_bytes b) [])

pub checksum : (Bytes → Bytes) → Bytes → Bytes
checksum sha256 b = take 4 (sha256 (sha256 b))

unfoldable pub encode_address : (Bytes → Bytes) → ℕ → Bytes → Result Bytes
unfolding encode checksum
encode_address sha256 version hash =
    if leb 32 version
    then err "invalid address version"
    else ok (83 ∷ char_at c32 version ∷ encode (hash ++ checksum sha256 (version ∷ hash)) c32)

-- The loop over the digits.
unfoldable pub from_digits : ℕ → Bytes → Option ℕ
from_digits n [] = some n
from_digits n (c ∷ cs) = elim (index_byte c32 c) [
  | none ↦ none
  | some digit ↦ from_digits (n * 32 + digit) cs
]

-- The payload is known: its checksum, and that the address is the one that it encodes to.
pub check_payload : (Bytes → Bytes) → Bytes → ℕ → Bytes → Result (ℕ × Bytes)
check_payload sha256 address version payload =
    let hash = take 20 payload in
    if drop 20 payload /= checksum sha256 (version ∷ hash)
    then err "invalid address checksum"
    else elim (encode_address sha256 version hash) [
      | err e ↦ err "noncanonical address"
      | ok canonical ↦
          if canonical /= address then err "noncanonical address" else ok (version, hash)
    ]

pub check_number : (Bytes → Bytes) → Bytes → ℕ → Option ℕ → Result (ℕ × Bytes)
unfolding check_payload
check_number sha256 address version none = err "invalid c32 digit"
check_number sha256 address version (some n) =
    if leb (256 ^ 24) n
    then err "oversized address"
    else check_payload sha256 address version (fill_bytes 24 n)

pub check_version : (Bytes → Bytes) → Bytes → Bytes → Option ℕ → Result (ℕ × Bytes)
unfolding check_number from_digits
check_version sha256 address digits none = err "invalid address version"
check_version sha256 address digits (some version) =
    check_number sha256 address version (from_digits 0 digits)

unfoldable pub decode_address : (Bytes → Bytes) → Bytes → Result (ℕ × Bytes)
unfolding check_version
decode_address sha256 [] = err "invalid Stacks address"
decode_address sha256 (s ∷ []) = err "invalid Stacks address"
decode_address sha256 (s ∷ v ∷ digits) =
    let address = s ∷ v ∷ digits in
    if ltb (length address) 3 || ltb 41 (length address) || s /= 83
    then err "invalid Stacks address"
    else check_version sha256 address digits (index_byte c32 v)
