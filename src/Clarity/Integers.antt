-- ===== src/Clarity/Integers.antt =====
-- The 16 bytes of an Int and of a UInt.
use mathlib.Core.Path.{subst}
use stacks_k8s.Common.{
  ℕ, zero, suc, ◌+◌, ◌-◌, ◌*◌, ◌/◌, ◌%◌, ◌^◌, ◌≤◌, ◌<◌, ◌≡◌, refl, ap, ◌∙◌, true, false, ◌&&◌, ◌||◌,
  some, [], ◌∷◌, ◌++◌, arith, ltb, leb, ◌==◌, nat_eq, if◌then◌else◌, length, All, inl, inr,
  Bool-cases, ok, guard-eq-ok,
}
use stacks_k8s.Common.Int.{ℤ, pos, negsuc, pos_part, neg_part, ◌-ℤ◌}
use stacks_k8s.Encoding.Hex.{Bytes}
use stacks_k8s.Encoding.BigEndian.{
  IsByte, value_from, set_bytes, value_from_bounds, fill_bytes, length-fill_bytes,
  set_bytes-fill_bytes, fill_bytes-set_bytes, set_bytes-lt, fill_bytes-IsByte,
}
use stacks_k8s.Clarity.{int_type, uint_type}
use stacks_k8s.Clarity.Encode.{twos_complement, encode_integer}
use stacks_k8s.Clarity.Decode.{decode_integer}

-- The integer of 128 bits.
from_bits : ℕ → ℕ → ℤ
from_bits t n = if t == int_type && leb (2 ^ 127) n then pos n -ℤ pos (2 ^ 128) else pos n

sign_bit :
    (b v : ℕ)
    → b < 256
    → b * 256 ^ 15 ≤ v
    → v < (b + 1) * 256 ^ 15
    → (b / 128 % 2 == 1) ≡ leb (2 ^ 127) v
sign_bit b v h lo hi = ground (arith, lo, hi)

decode_integer-from_bits :
    (t : ℕ) (bs : Bytes)
    → All IsByte bs
    → length bs ≡ 16
    → decode_integer t bs ≡ from_bits t (set_bytes bs)
unfolding decode_integer from_bits set_bytes value_from
decode_integer-from_bits t [] h n = absurd (omega arith)
decode_integer-from_bits t (b ∷ bs) (hb, h) n =
    let fifteen : length bs ≡ 15 = omega (arith, n) in
    let (lo, hi) =
      subst
        (λ k.
          ((0 * 256 + b) * 256 ^ k ≤ value_from (0 * 256 + b) bs)
          × (value_from (0 * 256 + b) bs < (0 * 256 + b + 1) * 256 ^ k))
        fifteen (value_from_bounds (0 * 256 + b) bs h) in
    rw (sign_bit b (value_from (0 * 256 + b) bs) hb (omega (arith, lo)) (omega (arith, hi))) refl

-- The 128 bits that are written for an integer.
to_bits : ℕ → ℤ → ℕ
to_bits t n = if t == uint_type then pos_part n else twos_complement n

encode_integer-to_bits :
    (t : ℕ) (b : Bytes) (n : ℤ) (out : Bytes)
    → (t == int_type || t == uint_type) ≡ true
    → encode_integer t b (some n) ≡ ok out
    → (out ≡ b ++ fill_bytes 16 (to_bits t n))
      × (to_bits t n < 256 ^ 16)
      × (from_bits t (to_bits t n) ≡ n)
unfolding encode_integer to_bits twos_complement from_bits ◌-ℤ◌
encode_integer-to_bits zero b (pos k) out c h =
    let (range, same) = guard-eq-ok (ltb (2 ^ 127) 0 || leb (2 ^ 127) k) _ _ h in
    (cc same, ground (arith, range), ground (arith, range))
encode_integer-to_bits zero b (negsuc k) out c h =
    let (range, same) = guard-eq-ok (ltb (2 ^ 127) (suc k) || leb (2 ^ 127) 0) _ _ h in
    (cc same, ground (arith, range), ground (arith, range))
encode_integer-to_bits (suc zero) b n out c h =
    let (range, same) = guard-eq-ok (ltb 0 (neg_part n) || leb (2 ^ 128) (pos_part n)) _ _ h in
    (cc same, ground (arith, range), ground (arith, range))
encode_integer-to_bits (suc (suc t)) b n out c h = absurd (ground (arith, c))

encode_integer-from_bits :
    (t : ℕ) (b : Bytes) (m : ℕ)
    → (t == int_type || t == uint_type) ≡ true
    → m < 256 ^ 16
    → encode_integer t b (some (from_bits t m)) ≡ ok (b ++ fill_bytes 16 m)
unfolding encode_integer twos_complement from_bits ◌-ℤ◌
encode_integer-from_bits zero b m c h = elim (Bool-cases (leb (2 ^ 127) m)) [
  | inl e ↦
      let n : from_bits 0 m ≡ negsuc (2 ^ 128 - m - 1) = ground (arith, e, h) in
      let range : (ltb (2 ^ 127) (suc (2 ^ 128 - m - 1)) || leb (2 ^ 127) 0) ≡ false =
        ground (arith, e) in
      let bits : 2 ^ 128 - (2 ^ 128 - m - 1 + 1) ≡ m = omega (arith, h) in
      ap (λ i. encode_integer 0 b (some i)) n ∙ rw range (ap (λ k. ok (b ++ fill_bytes 16 k)) bits)
  | inr e ↦
      let n : from_bits 0 m ≡ pos m = ground (arith, e) in
      let range : (ltb (2 ^ 127) 0 || leb (2 ^ 127) m) ≡ false = ground (arith, e) in
      ap (λ i. encode_integer 0 b (some i)) n ∙ rw range refl
]
encode_integer-from_bits (suc zero) b m c h =
    let fits : leb (2 ^ 128) m ≡ false = ground (arith, h) in rw fits refl
encode_integer-from_bits (suc (suc t)) b m c h = absurd (ground (arith, c))

pub decode_integer-encode_integer :
    (t : ℕ) (b : Bytes) (n : ℤ) (out : Bytes)
    → (t == int_type || t == uint_type) ≡ true
    → encode_integer t b (some n) ≡ ok out
    → (w : Bytes) × (out ≡ b ++ w) × (length w ≡ 16) × (decode_integer t w ≡ n)
decode_integer-encode_integer t b n out c h =
    let (written, small, same) = encode_integer-to_bits t b n out c h in
    let w = fill_bytes 16 (to_bits t n) in
    (
      w,
      written,
      length-fill_bytes 16 (to_bits t n),
      decode_integer-from_bits t w (fill_bytes-IsByte 16 (to_bits t n))
            (length-fill_bytes 16 (to_bits t n))
          ∙ ap (from_bits t) (set_bytes-fill_bytes 16 (to_bits t n) small)
          ∙ same,
    )

pub encode_integer-decode_integer :
    (t : ℕ) (b w : Bytes)
    → (t == int_type || t == uint_type) ≡ true
    → All IsByte w
    → length w ≡ 16
    → encode_integer t b (some (decode_integer t w)) ≡ ok (b ++ w)
encode_integer-decode_integer t b w c bytes n =
    ap (λ i. encode_integer t b (some i)) (decode_integer-from_bits t w bytes n)
    ∙ encode_integer-from_bits t b (set_bytes w) c
        (subst (λ k. set_bytes w < 256 ^ k) n (set_bytes-lt w bytes))
    ∙ ap (λ x. ok (b ++ x)) (fill_bytes-set_bytes 16 w bytes n)
