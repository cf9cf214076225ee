-- ===== src/Encoding/Hex/Canonical.antt =====
-- What the digest check accepts.
use stacks_k8s.Common.{
  ℕ, ◌+◌, ◌-◌, ◌*◌, ◌/◌, ◌%◌, ◌<◌, ◌≡◌, refl, ap, ◌↔◌, inl, inr, true, Option, none, some, [], ◌∷◌,
  arith, nat_eq, list_beq_iff, length, All, Option-cases,
}
use stacks_k8s.Encoding.Hex.{
  Bytes, hex_digit, from_hex_char, encode_to_string, decode_string, is_digest, canonical_hash,
  IsLowerHex, ◌>>=◌,
}

hex_digit-IsLowerHex : (n : ℕ) → n < 16 → IsLowerHex (hex_digit n)
unfolding hex_digit
hex_digit-IsLowerHex n h = ground arith

from_hex_char-lt : (c x : ℕ) → from_hex_char c ≡ some x → x < 16
unfolding from_hex_char
from_hex_char-lt c x h = ground arith

-- A lower-case digit is read, and written back as it was.
from_hex_char-IsLowerHex :
    (c : ℕ) → IsLowerHex c → (x : ℕ) × (from_hex_char c ≡ some x) × (hex_digit x ≡ c) × (x < 16)
unfolding from_hex_char hex_digit
from_hex_char-IsLowerHex c h = elim (Option-cases (from_hex_char c)) [
  | inl e ↦ ground arith
  | inr (x, e) ↦ (x, e, ground arith, ground arith)
]

-- The parts of a decoded text of two digits or more.
decode-cons :
    (a b : ℕ) (rest raw : Bytes)
    → decode_string (a ∷ b ∷ rest) ≡ some raw
    → (x : ℕ) × (y : ℕ) × (r : Bytes) × (from_hex_char a ≡ some x)
      × (from_hex_char b ≡ some y)
      × (decode_string rest ≡ some r)
      × (raw ≡ (x * 16 + y) ∷ r)
unfolding decode_string
decode-cons a b rest raw h = split (from_hex_char a) (from_hex_char b) (decode_string rest) h
  where
    split :
        (p q : Option ℕ) (o : Option Bytes)
        → (p >>= λ x. q >>= λ y. o >>= λ t. some ((x * 16 + y) ∷ t)) ≡ some raw
        → (x : ℕ) × (y : ℕ) × (r : Bytes) × (p ≡ some x)
          × (q ≡ some y)
          × (o ≡ some r)
          × (raw ≡ (x * 16 + y) ∷ r)
    split none q o e = cc
    split (some x) none o e = cc
    split (some x) (some y) none e = cc
    split (some x) (some y) (some r) e = (x, y, r, refl, refl, refl, cc)

length-decode : (v raw : Bytes) → decode_string v ≡ some raw → length v ≡ 2 * length raw
length-decode [] raw h = unfold decode_string in ground arith
length-decode (a ∷ []) raw h = unfold decode_string in cc
length-decode (a ∷ b ∷ rest) raw h =
    let (x, y, r, hx, hy, hr, e) = decode-cons a b rest raw h in
    omega (arith, ap length e, length-decode rest r hr)

decode-byte : (v raw : Bytes) → decode_string v ≡ some raw → All (λ b. b < 256) raw
decode-byte [] raw h = unfold decode_string in ground arith
decode-byte (a ∷ []) raw h = unfold decode_string in cc
decode-byte (a ∷ b ∷ rest) raw h =
    let (x, y, r, hx, hy, hr, e) = decode-cons a b rest raw h in
    rw e (omega (arith, from_hex_char-lt a x hx, from_hex_char-lt b y hy), decode-byte rest r hr)

encode-All : (raw : Bytes) → All (λ b. b < 256) raw → All IsLowerHex (encode_to_string raw)
unfolding encode_to_string
encode-All [] h = tt
encode-All (b ∷ bs) h = (
  hex_digit-IsLowerHex (b / 16) (omega arith),
  (hex_digit-IsLowerHex (b % 16) (omega arith), encode-All bs h.1),
)

decode-lower :
    (v : Bytes) (n : ℕ)
    → length v ≡ 2 * n
    → All IsLowerHex v
    → (raw : Bytes) × (decode_string v ≡ some raw) × (encode_to_string raw ≡ v) × (length raw ≡ n)
unfolding decode_string encode_to_string
decode-lower [] n l h = ([], refl, refl, omega arith)
decode-lower (a ∷ []) n l h = absurd (omega arith)
decode-lower (a ∷ b ∷ rest) n l (ha, (hb, hr)) =
    let (x, ex, dx, lx) = from_hex_char-IsLowerHex a ha in
    let (y, ey, dy, ly) = from_hex_char-IsLowerHex b hb in
    let (raw, e, d, k) = decode-lower rest (n - 1) (omega arith) hr in
    let hi : (x * 16 + y) / 16 ≡ x = omega arith in
    let lo : (x * 16 + y) % 16 ≡ y = omega arith in
    ((x * 16 + y) ∷ raw, rw (ex, ey, e), rw (hi, lo, dx, dy, d), omega arith)

-- A digest is accepted exactly when it is 64 lower-case hexadecimal digits.
pub canonical_hash_iff :
    (v : Bytes) → (canonical_hash v ≡ true) ↔ ((length v ≡ 64) × All IsLowerHex v)
unfolding canonical_hash
canonical_hash_iff v = (accepted (decode_string v) refl, λ h. made h)
  where
    accepted :
        (o : Option Bytes)
        → decode_string v ≡ o
        → is_digest v o ≡ true
        → (length v ≡ 64) × All IsLowerHex v
    accepted none e h = cc
    accepted (some raw) e h =
        let len : length raw ≡ 32 = ground arith in
        let back : encode_to_string raw ≡ v =
          ground (arith, list_beq_iff nat_eq (encode_to_string raw) v) in
        (omega (arith, length-decode v raw e), rw back at (encode-All raw (decode-byte v raw e)))

    made : (length v ≡ 64) × All IsLowerHex v → canonical_hash v ≡ true
    made h =
        let (raw, e, d, k) = decode-lower v 32 h.0 h.1 in
        rw e (ground (arith, list_beq_iff nat_eq (encode_to_string raw) v))
