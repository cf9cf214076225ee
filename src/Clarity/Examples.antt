-- ===== src/Clarity/Examples.antt =====
-- A tuple with a list, an optional, an Int and a principal, encoded and decoded under the default
-- limits.
use stacks_k8s.Common.{
  ◌≡◌, ◌≤◌, refl, true, none, some, [], ◌∷◌, ◌++◌, arith, replicate, length, All, all, ltb,
  list_beq_iff, nat_eq, ok, err,
}
use stacks_k8s.Common.Int.{negsuc}
use stacks_k8s.Encoding.Hex.{Bytes}
use stacks_k8s.Encoding.BigEndian.{IsByte, set_bytes, fill_bytes}
use stacks_k8s.Identity.{char_at, index_byte, encode_address, decode_address}
use stacks_k8s.Identity.Examples.{toy_sha256, toy_sha256-IsSha256, sample_address}
use stacks_k8s.Clarity.{
  Value, value, no_items, item, no_fields, field, uint, default_limits, Builtins, ltb_bytes,
  valid_name, valid_contract_name,
}
use stacks_k8s.Clarity.Encode.{encode_with_limits}
use stacks_k8s.Clarity.Decode.{decode_with_limits}
use stacks_k8s.Clarity.Normal.{normal, IsMap}
use stacks_k8s.Clarity.RoundTrip.{decode_with_limits-encode_with_limits, decode_with_limits-append}
use stacks_k8s.Clarity.Canonical.{encode_with_limits-decode_with_limits}

abbrev pub toy_builtins : Builtins
toy_builtins = record { sha256 = toy_sha256; valid_utf8 = λ b. true }

-- The same list under "a" and, with parts that its type does not select, an Int under "b": the
-- entries are not in order.
abbrev sample_value : Value
sample_value = value 12 none [] [] no_items (
    field (98 ∷ []) (value 0 (some (negsuc 4)) (1 ∷ []) [] no_items no_fields) (
      field (97 ∷ [])
        (value 11 none [] []
          (item (uint 7) (
            item
              (value 10 none [] []
                (item (value 6 none [] (sample_address ++ (46 ∷ 112 ∷ [])) no_items no_fields)
                  no_items)
                no_fields)
              no_items))
          no_fields)
        no_fields))

abbrev sample_raw : Bytes
sample_raw =
    12 ∷ 0 ∷ 0 ∷ 0 ∷ 2 ∷ 1 ∷ 97 ∷ 11 ∷ 0 ∷ 0 ∷ 0 ∷ 2 ∷ 1 ∷ replicate 15 0
    ++ (7 ∷ 10 ∷ 6 ∷ 26 ∷ replicate 20 0)
    ++ (1 ∷ 112 ∷ 1 ∷ 98 ∷ 0 ∷ replicate 15 255)
    ++ (251 ∷ [])

encode_with_limits-sample_value :
    encode_with_limits toy_builtins sample_value default_limits ≡ ok sample_raw
unfolding encode_with_limits fill_bytes decode_address encode_address index_byte char_at set_bytes
    ltb_bytes valid_name valid_contract_name
encode_with_limits-sample_value = refl

pub all-IsByte : (bs : Bytes) → all (λ b. ltb b 256) bs ≡ true → All IsByte bs
all-IsByte [] h = tt
all-IsByte (b ∷ bs) h = (ground (arith, h), all-IsByte bs (ground (arith, h)))

sample_value-IsMap : IsMap sample_value
sample_value-IsMap = (
  tt,
  (
    (λ q. ground (arith, (list_beq_iff nat_eq (98 ∷ []) (97 ∷ [])).1 q), tt),
    (tt, tt),
    (tt, (((tt, tt), ((((tt, tt), tt), tt), tt)), tt), tt),
  ),
)

decode_with_limits-encode_with_limits_example :
    (decode_with_limits toy_builtins sample_raw default_limits ≡ ok (normal sample_value))
    × (length sample_raw ≤ 1_048_576)
decode_with_limits-encode_with_limits_example =
    decode_with_limits-encode_with_limits toy_builtins sample_value default_limits sample_raw
      sample_value-IsMap encode_with_limits-sample_value

encode_with_limits-decode_with_limits_example :
    encode_with_limits toy_builtins (normal sample_value) default_limits ≡ ok sample_raw
encode_with_limits-decode_with_limits_example =
    encode_with_limits-decode_with_limits toy_builtins sample_raw default_limits
      (normal sample_value) toy_sha256-IsSha256 (all-IsByte sample_raw refl)
      (decode_with_limits-encode_with_limits toy_builtins sample_value default_limits sample_raw
        sample_value-IsMap encode_with_limits-sample_value).0

decode_with_limits-append_example :
    decode_with_limits toy_builtins (sample_raw ++ (3 ∷ [])) default_limits
    ≡ err "trailing Clarity bytes"
decode_with_limits-append_example =
    decode_with_limits-append toy_builtins sample_value default_limits sample_raw 3 []
      sample_value-IsMap encode_with_limits-sample_value
