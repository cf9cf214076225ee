-- ===== src/Identity/Examples.antt =====
-- An address of version 26 and a hash of zeros, with a digest in place of SHA-256 whose first four
-- bytes are 0, 0, 0 and 1.
use stacks_k8s.Common.{◌≡◌, refl, [], ◌∷◌, ◌++◌, arith, replicate, All-replicate, ok}
use stacks_k8s.Encoding.Hex.{Bytes}
use stacks_k8s.Encoding.BigEndian.{IsByte, set_bytes, fill_bytes}
use stacks_k8s.Identity.{char_at, index_byte, encode_address, decode_address}
use stacks_k8s.Identity.Address.{
  IsSha256, IsAddressData, encode_address-decode_address, decode_address-encode_address,
}

abbrev pub toy_sha256 : Bytes → Bytes
toy_sha256 b = 0 ∷ 0 ∷ 0 ∷ 1 ∷ replicate 28 0

abbrev pub zero_hash : Bytes
zero_hash = replicate 20 0

-- "ST000000000000000000000001".
abbrev pub sample_address : Bytes
sample_address = 83 ∷ 84 ∷ replicate 23 48 ++ (49 ∷ [])

pub toy_sha256-IsSha256 : IsSha256 toy_sha256
toy_sha256-IsSha256 = record {
  size = λ b. refl;
  bytes = λ b. (
    omega arith,
    (omega arith, (omega arith, (omega arith, All-replicate IsByte 28 0 (omega arith)))),
  );
}

sample_data : IsAddressData 26 zero_hash
sample_data = record {
  version_range = omega arith;
  hash_length = refl;
  hash_bytes = All-replicate IsByte 20 0 (omega arith);
}

encode_address-sample_address : encode_address toy_sha256 26 zero_hash ≡ ok sample_address
unfolding encode_address char_at set_bytes
encode_address-sample_address = refl

pub decode_address-sample_address : decode_address toy_sha256 sample_address ≡ ok (26, zero_hash)
unfolding decode_address encode_address index_byte fill_bytes char_at set_bytes
decode_address-sample_address = refl

encode_address-decode_address_example :
    (encode_address toy_sha256 26 zero_hash ≡ ok sample_address) × IsAddressData 26 zero_hash
encode_address-decode_address_example =
    encode_address-decode_address toy_sha256 sample_address (26, zero_hash)
      decode_address-sample_address

decode_address-encode_address_example :
    decode_address toy_sha256 sample_address ≡ ok (26, zero_hash)
decode_address-encode_address_example =
    decode_address-encode_address toy_sha256 26 zero_hash sample_address toy_sha256-IsSha256
      sample_data encode_address-sample_address
