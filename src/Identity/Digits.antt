-- ===== src/Identity/Digits.antt =====
-- The digits of a number in the c32 alphabet.
use native.Mathlib.Nat.{pow-succ'}
use stacks_k8s.Common.{
  ℕ, zero, suc, ◌+◌, ◌*◌, ◌/◌, ◌%◌, ◌^◌, ◌≤◌, ◌<◌, ◌≡◌, refl, ap, ◌∙◌, Bool, true, ◌&&◌, some, [],
  ◌∷◌, arith, ◌==◌, nat_eq, option_eq, length, inl, inr, Bool-cases, All,
}
use stacks_k8s.Encoding.Hex.{Bytes}
use stacks_k8s.Encoding.BigEndian.{IsByte, value_from, set_bytes, set_bytes-lt}
use stacks_k8s.Identity.{c32, char_at, index_byte, to_digits, leading_zeros, encode, from_digits}

-- The digits from `i` down that are found in the alphabet where they stand.
found : ℕ → Bool
found zero = true
found (suc i) = option_eq.same (index_byte c32 (char_at c32 i)) (some i) && found i

all_found : found 32 ≡ true
unfolding found index_byte char_at
all_found = refl

index_byte-found : (i d : ℕ) → found i ≡ true → d < i → index_byte c32 (char_at c32 d) ≡ some d
unfolding found
index_byte-found zero d h lt = absurd (omega arith)
index_byte-found (suc i) d h lt = elim (Bool-cases (d == i)) [
  | inl e ↦
      let last : d ≡ i = ground (arith, e) in
      rw last ((option_eq.same_iff (index_byte c32 (char_at c32 i)) (some i)).0 (ground (arith, h)))
  | inr e ↦ index_byte-found i d (ground (arith, h)) (ground (arith, e, lt))
]

-- Each digit is read back from its character.
pub index_byte-char_at : (d : ℕ) → d < 32 → index_byte c32 (char_at c32 d) ≡ some d
index_byte-char_at d h = index_byte-found 32 d all_found h

from_digits-char_at :
    (n d : ℕ) (rest : Bytes)
    → d < 32
    → from_digits n (char_at c32 d ∷ rest) ≡ from_digits (n * 32 + d) rest
unfolding from_digits
from_digits-char_at n d rest h = rw (index_byte-char_at d h, from_digits) refl

from_digits-to_digits :
    (fuel n : ℕ) (rest : Bytes)
    → n ≤ fuel
    → from_digits 0 (to_digits fuel c32 n rest) ≡ from_digits n rest
unfolding to_digits
from_digits-to_digits zero n rest h = let e : n ≡ 0 = omega arith in rw e refl
from_digits-to_digits (suc fuel) n rest h = elim (Bool-cases (n == 0)) [
  | inl e ↦ let z : n ≡ 0 = ground arith in rw z refl
  | inr e ↦
      let back : n / 32 * 32 + n % 32 ≡ n = omega arith in
      rw e (
        from_digits-to_digits fuel (n / 32) (char_at c32 (n % 32) ∷ rest) (ground arith)
        ∙ from_digits-char_at (n / 32) (n % 32) rest (omega arith)
        ∙ ap (λ k. from_digits k rest) back)
]

from_digits-leading_zeros :
    (bs out : Bytes) → from_digits 0 (leading_zeros c32 bs out) ≡ from_digits 0 out
unfolding leading_zeros
from_digits-leading_zeros [] out = refl
from_digits-leading_zeros (v ∷ bs) out = elim (Bool-cases (v == 0)) [
  | inl e ↦ rw e (
      from_digits-leading_zeros bs (char_at c32 0 ∷ out)
      ∙ from_digits-char_at 0 0 out (omega arith))
  | inr e ↦ rw e refl
]

-- The digits of an encoding stand for the number that its bytes stand for.
pub from_digits-encode : (b : Bytes) → from_digits 0 (encode b c32) ≡ some (set_bytes b)
unfolding encode from_digits
from_digits-encode b =
    from_digits-leading_zeros b (to_digits (set_bytes b) c32 (set_bytes b) [])
    ∙ from_digits-to_digits (set_bytes b) (set_bytes b) [] (omega arith)

length-to_digits :
    (fuel n k : ℕ) (out : Bytes) → n < 32 ^ k → length (to_digits fuel c32 n out) ≤ k + length out
unfolding to_digits
length-to_digits zero n k out h = omega arith
length-to_digits (suc fuel) n zero out h = let z : n ≡ 0 = omega arith in rw z (omega arith)
length-to_digits (suc fuel) n (suc k) out h = elim (Bool-cases (n == 0)) [
  | inl e ↦ rw e (omega arith)
  | inr e ↦ rw e (
      omega (
        arith,
        length-to_digits fuel (n / 32) k (char_at c32 (n % 32) ∷ out)
            (omega (arith, pow-succ' 32 k)),
      ))
]

length-le-to_digits :
    (fuel n : ℕ) (alphabet out : Bytes) → length out ≤ length (to_digits fuel alphabet n out)
unfolding to_digits
length-le-to_digits zero n alphabet out = omega arith
length-le-to_digits (suc fuel) n alphabet out = elim (Bool-cases (n == 0)) [
  | inl e ↦ rw e (omega arith)
  | inr e ↦ rw e (
      omega (
        arith,
        length-le-to_digits fuel (n / length alphabet) alphabet
            (char_at alphabet (n % length alphabet) ∷ out),
      ))
]

length-le-leading_zeros :
    (alphabet bs out : Bytes) → length out ≤ length (leading_zeros alphabet bs out)
unfolding leading_zeros
length-le-leading_zeros alphabet [] out = omega arith
length-le-leading_zeros alphabet (v ∷ bs) out = elim (Bool-cases (v == 0)) [
  | inl e ↦ rw e (omega (arith, length-le-leading_zeros alphabet bs (char_at alphabet 0 ∷ out)))
  | inr e ↦ rw e (omega arith)
]

length-leading_zeros :
    (bs : Bytes) (k extra : ℕ) (out : Bytes)
    → All IsByte bs
    → 256 ^ length bs ≤ 32 ^ k
    → ((j : ℕ) → set_bytes bs < 32 ^ j → length out ≤ j + extra)
    → length (leading_zeros c32 bs out) ≤ k + extra
unfolding leading_zeros set_bytes
length-leading_zeros [] k extra out h p d = d k (omega (arith, p))
length-leading_zeros (v ∷ bs) zero extra out h p d =
    absurd (omega (arith, pow-succ' 256 (length bs), set_bytes-lt bs h.1))
length-leading_zeros (v ∷ bs) (suc k) extra out (hv, h) p d = elim (Bool-cases (v == 0)) [
  | inr e ↦ rw e (d (suc k) (omega (arith, set_bytes-lt (v ∷ bs) (hv, h))))
  | inl e ↦
      let z : v ≡ 0 = ground arith in
      rw e (
        omega (
          arith,
          length-leading_zeros bs k (suc extra) (char_at c32 0 ∷ out) h
              (omega (arith, pow-succ' 256 (length bs), pow-succ' 32 k))
              (λ j q. omega (arith, d j (rw z q))),
        ))
]

le-value_from : (acc : ℕ) (bs : Bytes) → acc ≤ value_from acc bs
unfolding value_from
le-value_from acc [] = omega arith
le-value_from acc (b ∷ bs) = omega (arith, le-value_from (acc * 256 + b) bs)

to_digits_nonempty :
    (fuel n : ℕ) (alphabet : Bytes) → 0 < n → n ≤ fuel → 1 ≤ length (to_digits fuel alphabet n [])
unfolding to_digits
to_digits_nonempty zero n alphabet h k = absurd (omega arith)
to_digits_nonempty (suc fuel) n alphabet h k = elim (Bool-cases (n == 0)) [
  | inl e ↦ absurd (ground arith)
  | inr e ↦ rw e (
      length-le-to_digits fuel (n / length alphabet) alphabet
        (char_at alphabet (n % length alphabet) ∷ []))
]

encode_nonempty : (v : ℕ) (bs : Bytes) → 1 ≤ length (encode (v ∷ bs) c32)
unfolding encode leading_zeros set_bytes value_from
encode_nonempty v bs = elim (Bool-cases (v == 0)) [
  | inl e ↦
      let n = set_bytes (v ∷ bs) in
      rw e (omega (arith, length-le-leading_zeros c32 bs (char_at c32 0 ∷ to_digits n c32 n [])))
  | inr e ↦
      let lower = le-value_from (0 * 256 + v) bs in
      rw e (
        to_digits_nonempty (set_bytes (v ∷ bs)) (set_bytes (v ∷ bs)) c32 (ground (arith, lower))
          (omega arith))
]

-- The encoding of a payload of 24 bytes has from 1 to 39 digits.
pub length-encode :
    (b : Bytes)
    → All IsByte b
    → length b ≡ 24
    → (1 ≤ length (encode b c32)) × (length (encode b c32) ≤ 39)
length-encode [] h n = absurd (omega arith)
length-encode (v ∷ bs) h n = (
  encode_nonempty v bs,
  unfold encode in
      omega (
        arith,
        length-leading_zeros (v ∷ bs) 39 0
            (to_digits (set_bytes (v ∷ bs)) c32 (set_bytes (v ∷ bs)) []) h (rw n (omega arith))
            (λ j q.
              omega (arith, length-to_digits (set_bytes (v ∷ bs)) (set_bytes (v ∷ bs)) j [] q)),
      ),
)
