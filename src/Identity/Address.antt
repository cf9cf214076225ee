-- ===== src/Identity/Address.antt =====
-- Addresses are read back as they were written, and written as they were read.
use stacks_k8s.Common.{
  ℕ, suc, ◌^◌, ◌≤◌, ◌<◌, ◌≡◌, refl, ap, ◌∙◌, Bool, true, false, Option, none, some, [], ◌∷◌, ◌++◌,
  arith, ltb, leb, ◌/=◌, nat_eq, list_eq, list_beq_iff, if◌then◌else◌, length, length-append,
  length-take, take, drop, take-append_length, drop-append_length, inl, inr, Bool-cases, All,
  Result, ok, err, ==-refl, guard-eq-ok, All-take, All-append,
}
use stacks_k8s.Encoding.Hex.{Bytes}
use mathlib.Core.Path.{subst}
use stacks_k8s.Encoding.BigEndian.{
  IsByte, set_bytes, fill_bytes, fill_bytes-set_bytes, set_bytes-lt, length-fill_bytes,
  fill_bytes-IsByte,
}
use stacks_k8s.Identity.{
  c32, char_at, index_byte, encode, from_digits, checksum, encode_address, check_payload,
  check_number, check_version, decode_address,
}
use stacks_k8s.Identity.Digits.{index_byte-char_at, from_digits-encode, length-encode}

-- SHA-256 answers 32 bytes.
pub record IsSha256 (sha256 : Bytes → Bytes) : Type 0 where
  pub size : (b : Bytes) → length (sha256 b) ≡ 32
  pub bytes : (b : Bytes) → All IsByte (sha256 b)

-- Version and hash, as an address has them.
pub record IsAddressData (version : ℕ) (hash : Bytes) : Type 0 where
  pub version_range : version < 32
  pub hash_length : length hash ≡ 20
  pub hash_bytes : All IsByte hash

checked :
    (sha256 : Bytes → Bytes) (address : Bytes) (version : ℕ) (hash : Bytes) (r : ℕ × Bytes)
    (b : Bool) (e : Result Bytes)
    → encode_address sha256 version hash ≡ e
    → (if b then err "invalid address checksum" else elim e [
      | err x ↦ err "noncanonical address"
      | ok canonical ↦
          if canonical /= address then err "noncanonical address" else ok (version, hash)
    ])
      ≡ ok r
    → (encode_address sha256 version hash ≡ ok address) × (r ≡ (version, hash))
checked sha256 address version hash r true e g h = cc
checked sha256 address version hash r false (err x) g h = cc
checked sha256 address version hash r false (ok canonical) g h =
    elim (Bool-cases (canonical /= address)) [
      | inl n ↦ cc (rw n at h)
      | inr n ↦ (
        g ∙ ap ok (ground (arith, list_beq_iff nat_eq canonical address)),
        ground (arith, rw n at h),
      )
    ]

check_payload-eq-ok :
    (sha256 : Bytes → Bytes) (address : Bytes) (version : ℕ) (payload : Bytes) (r : ℕ × Bytes)
    → check_payload sha256 address version payload ≡ ok r
    → (encode_address sha256 version (take 20 payload) ≡ ok address)
      × (r ≡ (version, take 20 payload))
unfolding check_payload
check_payload-eq-ok sha256 address version payload r h =
    checked sha256 address version (take 20 payload) r
      (drop 20 payload /= checksum sha256 (version ∷ take 20 payload)) _ refl h

pub encode_address-IsBelow :
    (sha256 : Bytes → Bytes) (version : ℕ) (hash a : Bytes)
    → encode_address sha256 version hash ≡ ok a
    → version < 32
unfolding encode_address
encode_address-IsBelow sha256 version hash a h =
    ground (arith, (guard-eq-ok (leb 32 version) _ _ h).0)

check_number-eq-ok :
    (sha256 : Bytes → Bytes) (address : Bytes) (version : ℕ) (o : Option ℕ) (r : ℕ × Bytes)
    → check_number sha256 address version o ≡ ok r
    → (encode_address sha256 r.0 r.1 ≡ ok address) × IsAddressData r.0 r.1
unfolding check_number
check_number-eq-ok sha256 address version none r h = cc
check_number-eq-ok sha256 address version (some n) r h =
    let payload = fill_bytes 24 n in
    let (e, eq) =
      check_payload-eq-ok sha256 address version payload r
        (guard-eq-ok (leb (256 ^ 24) n) _ _ h).1 in
    rw eq (
      e,
      record {
        version_range = encode_address-IsBelow sha256 version (take 20 payload) address e;
        hash_length = omega (arith, length-take 20 payload, length-fill_bytes 24 n);
        hash_bytes = All-take IsByte 20 payload (fill_bytes-IsByte 24 n);
      },
    )

check_version-eq-ok :
    (sha256 : Bytes → Bytes) (address digits : Bytes) (o : Option ℕ) (r : ℕ × Bytes)
    → check_version sha256 address digits o ≡ ok r
    → (encode_address sha256 r.0 r.1 ≡ ok address) × IsAddressData r.0 r.1
unfolding check_version
check_version-eq-ok sha256 address digits none r h = cc
check_version-eq-ok sha256 address digits (some version) r h =
    check_number-eq-ok sha256 address version (from_digits 0 digits) r h

-- An address that DecodeAddress accepts is the one that EncodeAddress writes for the version and
-- the hash that it answers, the version is below 32 and the hash has 20 bytes.
pub encode_address-decode_address :
    (sha256 : Bytes → Bytes) (address : Bytes) (r : ℕ × Bytes)
    → decode_address sha256 address ≡ ok r
    → (encode_address sha256 r.0 r.1 ≡ ok address) × IsAddressData r.0 r.1
unfolding decode_address
encode_address-decode_address sha256 [] r h = cc
encode_address-decode_address sha256 (s ∷ []) r h = cc
encode_address-decode_address sha256 (s ∷ v ∷ digits) r h =
    check_version-eq-ok sha256 (s ∷ v ∷ digits) digits (index_byte c32 v) r (guard-eq-ok _ _ _ h).1

-- The payload that an address is written from: the hash and its checksum.
payload_of : (Bytes → Bytes) → ℕ → Bytes → Bytes
payload_of sha256 version hash = hash ++ checksum sha256 (version ∷ hash)

payload_shape :
    (sha256 : Bytes → Bytes) (version : ℕ) (hash : Bytes)
    → IsSha256 sha256
    → IsAddressData version hash
    → (length (payload_of sha256 version hash) ≡ 24) × All IsByte (payload_of sha256 version hash)
unfolding payload_of checksum
payload_shape sha256 version hash s d =
    let twice = sha256 (sha256 (version ∷ hash)) in
    (
      omega (
        arith,
        length-append hash (take 4 twice),
        length-take 4 twice,
        s.size (sha256 (version ∷ hash)),
        d.hash_length,
      ),
      All-append IsByte hash (take 4 twice) d.hash_bytes
          (All-take IsByte 4 twice (s.bytes (sha256 (version ∷ hash)))),
    )

check_payload-payload_of :
    (sha256 : Bytes → Bytes) (address : Bytes) (version : ℕ) (hash : Bytes)
    → length hash ≡ 20
    → encode_address sha256 version hash ≡ ok address
    → check_payload sha256 address version (payload_of sha256 version hash) ≡ ok (version, hash)
unfolding check_payload payload_of
check_payload-payload_of sha256 address version hash n e =
    let sum = checksum sha256 (version ∷ hash) in
    let front : take 20 (payload_of sha256 version hash) ≡ hash =
      subst (λ k. take k (hash ++ sum) ≡ hash) n (take-append_length hash sum) in
    let back : drop 20 (payload_of sha256 version hash) ≡ sum =
      subst (λ k. drop k (hash ++ sum) ≡ sum) n (drop-append_length hash sum) in
    rw (front, back, ==-refl sum, e, ==-refl address) (ap (λ k. ok (version, k)) front)

check_number-payload_of :
    (sha256 : Bytes → Bytes) (address : Bytes) (version : ℕ) (hash : Bytes)
    → IsSha256 sha256
    → IsAddressData version hash
    → encode_address sha256 version hash ≡ ok address
    → check_number sha256 address version (some (set_bytes (payload_of sha256 version hash)))
      ≡ ok (version, hash)
unfolding check_number
check_number-payload_of sha256 address version hash s d e =
    let (n, bytes) = payload_shape sha256 version hash s d in
    let payload = payload_of sha256 version hash in
    let fits : set_bytes payload < 256 ^ 24 =
      subst (λ k. set_bytes payload < 256 ^ k) n (set_bytes-lt payload bytes) in
    let in_range : leb (256 ^ 24) (set_bytes payload) ≡ false = ground (arith, fits) in
    rw in_range (
      ap (check_payload sha256 address version) (fill_bytes-set_bytes 24 payload bytes n)
      ∙ check_payload-payload_of sha256 address version hash d.hash_length e)

encode_address-shape :
    (sha256 : Bytes → Bytes) (version : ℕ) (hash address : Bytes)
    → encode_address sha256 version hash ≡ ok address
    → address ≡ 83 ∷ char_at c32 version ∷ encode (payload_of sha256 version hash) c32
unfolding encode_address payload_of
encode_address-shape sha256 version hash address h = cc (guard-eq-ok (leb 32 version) _ _ h).1

decode_address-digits :
    (sha256 : Bytes → Bytes) (version : ℕ) (digits : Bytes)
    → version < 32
    → 1 ≤ length digits
    → length digits ≤ 39
    → decode_address sha256 (83 ∷ char_at c32 version ∷ digits)
      ≡ check_number sha256 (83 ∷ char_at c32 version ∷ digits) version (from_digits 0 digits)
unfolding decode_address check_version
decode_address-digits sha256 version digits v low high =
    let short : ltb (suc (suc (length digits))) 3 ≡ false = ground (arith, low) in
    let long : ltb 41 (suc (suc (length digits))) ≡ false = ground (arith, high) in
    rw (short, long, index_byte-char_at version v) refl

-- Version and hash that EncodeAddress writes are read back by DecodeAddress from what it wrote,
-- for a hash of 20 bytes, a version below 32 and a SHA-256 that answers 32 bytes.
pub decode_address-encode_address :
    (sha256 : Bytes → Bytes) (version : ℕ) (hash address : Bytes)
    → IsSha256 sha256
    → IsAddressData version hash
    → encode_address sha256 version hash ≡ ok address
    → decode_address sha256 address ≡ ok (version, hash)
decode_address-encode_address sha256 version hash address s d h =
    let (n, bytes) = payload_shape sha256 version hash s d in
    let payload = payload_of sha256 version hash in
    let (low, high) = length-encode payload bytes n in
    let shape = encode_address-shape sha256 version hash address h in
    ap (decode_address sha256) shape
    ∙ decode_address-digits sha256 version (encode payload c32) d.version_range low high
    ∙ ap (λ o. check_number sha256 (83 ∷ char_at c32 version ∷ encode payload c32) version o)
        (from_digits-encode payload)
    ∙ check_number-payload_of sha256 _ version hash s d (h ∙ ap ok shape)
