-- ===== src/Clarity/Dots.antt =====
-- A principal's text is cut at its dots, and nothing of it gets lost.
use mathlib.Core.Path.{subst}
use stacks_k8s.Common.{
  ℕ, ◌+◌, ◌*◌, ◌≡◌, refl, sym, ap, ◌∙◌, true, false, some, List, [], ◌∷◌, ◌++◌, arith, leb, ◌==◌,
  nat_eq, all, All, inl, inr, Bool-cases, Option-cases, ok, guard-eq-ok,
}
use stacks_k8s.Encoding.Hex.{Bytes}
use stacks_k8s.Identity.{c32, char_at, index_byte, from_digits, encode, checksum, encode_address}
use stacks_k8s.Identity.Digits.{index_byte-char_at, from_digits-encode}
use stacks_k8s.Clarity.{
  is_letter, is_digit, is_name_byte, name_pattern, valid_name, is_contract_byte,
  valid_contract_name,
}
use stacks_k8s.Clarity.Encode.{split_dots}

abbrev pub NotDot : ℕ → Type 0
NotDot c = (c == 46) ≡ false

unfoldable pub join_dots : List Bytes → Bytes
join_dots [] = []
join_dots (p ∷ []) = p
join_dots (p ∷ q ∷ parts) = p ++ (46 ∷ join_dots (q ∷ parts))

split_dots_some : (s : Bytes) → (p : Bytes) × (ps : List Bytes) × (split_dots s ≡ p ∷ ps)
unfolding split_dots
split_dots_some [] = ([], [], refl)
split_dots_some (c ∷ s) = elim (Bool-cases (c == 46)) [
  | inl e ↦ ([], split_dots s, rw e refl)
  | inr e ↦ let (p, ps, q) = split_dots_some s in (c ∷ p, ps, rw (e, q) refl)
]

join_dots-cons :
    (c : ℕ) (p : Bytes) (ps : List Bytes) → join_dots ((c ∷ p) ∷ ps) ≡ c ∷ join_dots (p ∷ ps)
unfolding join_dots
join_dots-cons c p [] = refl
join_dots-cons c p (q ∷ ps) = refl

pub join_dots-split_dots : (s : Bytes) → join_dots (split_dots s) ≡ s
unfolding split_dots join_dots
join_dots-split_dots [] = refl
join_dots-split_dots (c ∷ s) =
    let (p, ps, q) = split_dots_some s in
    let whole : join_dots (p ∷ ps) ≡ s = ap join_dots (sym q) ∙ join_dots-split_dots s in
    elim (Bool-cases (c == 46)) [
      | inl e ↦ let dot : c ≡ 46 = ground (arith, e) in rw (e, q, whole, dot) refl
      | inr e ↦ rw (e, q) (join_dots-cons c p ps ∙ ap (λ x. c ∷ x) whole)
    ]

pub split_dots-append : (a s : Bytes) → All NotDot a → split_dots (a ++ (46 ∷ s)) ≡ a ∷ split_dots s
unfolding split_dots
split_dots-append [] s h = refl
split_dots-append (c ∷ a) s (n, h) = rw (n, split_dots-append a s h) refl

pub split_dots-NotDot : (a : Bytes) → All NotDot a → split_dots a ≡ a ∷ []
unfolding split_dots
split_dots-NotDot [] h = refl
split_dots-NotDot (c ∷ a) (n, h) = rw (n, split_dots-NotDot a h) refl

index_byte-NotDot : (c d : ℕ) → index_byte c32 c ≡ some d → NotDot c
unfolding index_byte
index_byte-NotDot c d h = elim (Bool-cases (c == 46)) [
  | inr e ↦ e
  | inl e ↦ let dot : c ≡ 46 = ground (arith, e) in cc (rw dot at h)
]

from_digits-NotDot : (cs : Bytes) (n m : ℕ) → from_digits n cs ≡ some m → All NotDot cs
unfolding from_digits
from_digits-NotDot [] n m h = tt
from_digits-NotDot (c ∷ cs) n m h = elim (Option-cases (index_byte c32 c)) [
  | inl e ↦ cc (rw (from_digits, e) at h)
  | inr (d, e) ↦
      (index_byte-NotDot c d e, from_digits-NotDot cs (n * 32 + d) m (rw (from_digits, e) at h))
]

address_NotDot : (v : ℕ) (cs : Bytes) → NotDot v → All NotDot cs → All NotDot (83 ∷ v ∷ cs)
address_NotDot v cs h k = (refl, (h, k))

-- No address has a dot.
pub encode_address-NotDot :
    (sha256 : Bytes → Bytes) (version : ℕ) (hash address : Bytes)
    → encode_address sha256 version hash ≡ ok address
    → All NotDot address
unfolding encode_address
encode_address-NotDot sha256 version hash address h =
    let (low, same) = guard-eq-ok (leb 32 version) _ _ h in
    let payload = hash ++ checksum sha256 (version ∷ hash) in
    let shape : 83 ∷ char_at c32 version ∷ encode payload c32 ≡ address = cc same in
    subst (All NotDot) shape (
      address_NotDot (char_at c32 version) (encode payload c32)
        (index_byte-NotDot (char_at c32 version) version
          (index_byte-char_at version (ground (arith, low))))
        (from_digits-NotDot (encode payload c32) 0 _ (from_digits-encode payload)))

byte-NotDot : (c : ℕ) → is_contract_byte c ≡ true → NotDot c
unfolding is_contract_byte
byte-NotDot c h = ground (arith, h)

is_contract_byte-NotDot : (s : Bytes) → all is_contract_byte s ≡ true → All NotDot s
is_contract_byte-NotDot [] h = tt
is_contract_byte-NotDot (c ∷ s) h =
    (byte-NotDot c (ground (arith, h)), is_contract_byte-NotDot s (ground (arith, h)))

pub valid_contract_name-NotDot : (s : Bytes) → valid_contract_name s ≡ true → All NotDot s
unfolding valid_contract_name
valid_contract_name-NotDot [] h = tt
valid_contract_name-NotDot (c ∷ s) h = is_contract_byte-NotDot (c ∷ s) (ground (arith, h))

is_name_byte-is_contract_byte : (c : ℕ) → is_contract_byte c ≡ true → is_name_byte c ≡ true
unfolding is_contract_byte is_name_byte
is_name_byte-is_contract_byte c h = elim (Bool-cases (is_letter c)) [
  | inl e ↦ rw e refl
  | inr e ↦ elim (Bool-cases (is_digit c)) [
    | inl f ↦ rw (e, f) refl
    | inr f ↦ elim (Bool-cases (c == 45)) [
      | inl m ↦ let minus : c ≡ 45 = ground (arith, m) in rw minus refl
      | inr m ↦ let under : c ≡ 95 = ground (arith, rw (e, f, m) at h) in rw under refl
    ]
  ]
]

all-is_name_byte : (s : Bytes) → all is_contract_byte s ≡ true → all is_name_byte s ≡ true
all-is_name_byte [] h = refl
all-is_name_byte (c ∷ s) h = ground (arith, is_name_byte-is_contract_byte c, all-is_name_byte s)

-- A contract's name is a name.
pub valid_name-valid_contract_name :
    (s : Bytes) → valid_contract_name s ≡ true → valid_name s ≡ true
unfolding valid_contract_name valid_name name_pattern
valid_name-valid_contract_name [] h = cc
valid_name-valid_contract_name (c ∷ []) h = ground (arith, h)
valid_name-valid_contract_name (c ∷ d ∷ s) h = ground (arith, h, all-is_name_byte (d ∷ s))
