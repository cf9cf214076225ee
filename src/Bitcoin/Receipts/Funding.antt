-- ===== src/Bitcoin/Receipts/Funding.antt =====
-- The funding counts: what an increment does, and when it fits.
use stacks_k8s.Common.{
  ◌≡◌, refl, inl, inr, String, true, false, Option, none, some, List, [], ◌∷◌, arith, ◌==◌,
  string_eq, nat_eq, if◌then◌else◌, Option-cases, Bool-cases, is_some,
}
use stacks_k8s.Common.Int.{ℤ, pos, negsuc, ◌+ℤ◌, ◌-ℤ◌, ◌≤ℤ◌, +ℤ_parts, -ℤ_parts, ltb_ℤ, int_eq}
use text.Mathlib.TextEquality.{eq_iff}
use stacks_k8s.Bitcoin.Types.{binding_eq, BitcoinFundingCount}
use stacks_k8s.Bitcoin.Receipts.{add_funding, prepend, max_int32}

-- The outputs that a wallet is credited with: those of its count, or none.
abbrev pub outputs_of : String → List BitcoinFundingCount → ℤ
outputs_of uid [] = pos 0
outputs_of uid (c ∷ cs) = if c.wallet_uid == uid then c.outputs else outputs_of uid cs

zero_plus : (b : ℤ) → pos 0 +ℤ b ≡ b
unfolding ◌+ℤ◌
zero_plus (pos n) = ground arith
zero_plus (negsuc n) = ground arith

pub outputs_of-add_funding :
    (uid w : String) (b : ℤ) (l l' : List BitcoinFundingCount)
    → add_funding uid b l ≡ some l'
    → outputs_of w l' ≡ (if w == uid then outputs_of w l +ℤ b else outputs_of w l)
unfolding add_funding
outputs_of-add_funding uid w b [] l' h = ground (arith, eq_iff w uid, eq_iff uid w, zero_plus b)
outputs_of-add_funding uid w b (c ∷ cs) l' h = elim (Option-cases (add_funding uid b cs)) [
  | inl e ↦ ground (arith, eq_iff w uid, eq_iff c.wallet_uid uid, eq_iff c.wallet_uid w)
  | inr (r, e) ↦ ground (
    arith,
    eq_iff w uid,
    eq_iff c.wallet_uid uid,
    eq_iff c.wallet_uid w,
    outputs_of-add_funding uid w b cs r,
  )
]

no_overflow : (o b : ℤ) → o +ℤ b ≤ℤ max_int32 → ltb_ℤ (max_int32 -ℤ b) o ≡ false
no_overflow o b h = ground (arith, +ℤ_parts o b, -ℤ_parts max_int32 b)

prepend-is_some :
    (c : BitcoinFundingCount) (o : Option (List BitcoinFundingCount))
    → is_some o ≡ true
    → is_some (prepend c o) ≡ true
unfolding prepend
prepend-is_some c none h = h
prepend-is_some c (some l) h = refl

-- An increment that keeps the wallet's outputs in 32 bits is made.
pub add_funding-fits :
    (uid : String) (b : ℤ) (l : List BitcoinFundingCount)
    → outputs_of uid l +ℤ b ≤ℤ max_int32
    → is_some (add_funding uid b l) ≡ true
unfolding add_funding
add_funding-fits uid b [] h = refl
add_funding-fits uid b (c ∷ cs) h = elim (Bool-cases (c.wallet_uid == uid)) [
  | inl e ↦
      let fits : c.outputs +ℤ b ≤ℤ max_int32 = rw e at h in
      rw (e, no_overflow c.outputs b fits) refl
  | inr e ↦
      let fits : outputs_of uid cs +ℤ b ≤ℤ max_int32 = rw e at h in
      rw e (prepend-is_some c _ (add_funding-fits uid b cs fits))
]
