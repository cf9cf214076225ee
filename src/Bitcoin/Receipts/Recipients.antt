-- ===== src/Bitcoin/Receipts/Recipients.antt =====
-- Which offers name a recipient, said without the order of the loop over the miner wallets.
use stacks_k8s.Common.{
  ◌≡◌, refl, ◌⊎◌, inl, inr, ◌↔◌, Bool, true, false, ◌&&◌, ◌||◌, List, [], ◌∷◌, arith, ◌==◌,
  string_eq, if◌then◌else◌, any, Bool-cases, ◌∙◌,
}
use stacks_k8s.Common.Int.{ℤ, ◌<ℤ◌, ltb_ℤ}
use text.Mathlib.TextEquality.{eq_iff}
use stacks_k8s.Bitcoin.Types.{
  binding_eq, binding_beq_iff, BitcoinBlockOffer, FrozenBitcoinWallet, BitcoinInitialization,
}
use stacks_k8s.Bitcoin.Receipts.{scan_wallets, recipient}

-- The offer pays this wallet, at its frozen address.
abbrev pub Pays : BitcoinBlockOffer → FrozenBitcoinWallet → Type 0
Pays offer w = (w.wallet ≡ offer.wallet) × (w.address ≡ offer.address)

-- The offer pays one of these wallets.
abbrev pub PaysAny : BitcoinBlockOffer → List FrozenBitcoinWallet → Type 0
PaysAny offer [] = ⊥
PaysAny offer (w ∷ ws) = Pays offer w ⊎ PaysAny offer ws

-- The offer pays the payout wallet or a miner wallet.
abbrev pub PaysKnown : BitcoinInitialization → BitcoinBlockOffer → Type 0
PaysKnown initial offer =
    Pays offer initial.spec.payout_wallet ⊎ PaysAny offer initial.spec.miner_wallets

-- The offer pays a miner wallet while Bitcoin is below the minimum height.
abbrev pub Funds : BitcoinInitialization → BitcoinBlockOffer → Type 0
Funds initial offer =
    PaysAny offer initial.spec.miner_wallets
    × (offer.expected_height <ℤ initial.spec.minimum_height)

abbrev pays : BitcoinBlockOffer → FrozenBitcoinWallet → Bool
pays offer w = w.wallet == offer.wallet && w.address == offer.address

false_absurd : ◌≡◌ {A = Bool} false true → ⊥
false_absurd h = cc

pays_iff :
    (offer : BitcoinBlockOffer) (w : FrozenBitcoinWallet) → (pays offer w ≡ true) ↔ Pays offer w
pays_iff offer w = (
  λ h. ground (arith, binding_beq_iff w.wallet offer.wallet, eq_iff w.address offer.address),
  λ h. ground (arith, binding_beq_iff w.wallet offer.wallet, eq_iff w.address offer.address),
)

paid_among_iff :
    (offer : BitcoinBlockOffer) (ws : List FrozenBitcoinWallet)
    → (any (pays offer) ws ≡ true) ↔ PaysAny offer ws
paid_among_iff offer [] = (λ h. absurd (cc), λ h. absurd h)
paid_among_iff offer (w ∷ ws) = (
  λ h. ground (arith, pays_iff offer w, paid_among_iff offer ws),
  λ h. ground (arith, pays_iff offer w, paid_among_iff offer ws),
)

scan_wallets-any :
    (offer : BitcoinBlockOffer) (minimum : ℤ) (known funding : Bool) (ws : List FrozenBitcoinWallet)
    → scan_wallets offer minimum (known, funding) ws ≡ (
      known || any (pays offer) ws,
      if any (pays offer) ws then ltb_ℤ offer.expected_height minimum else funding,
    )
unfolding scan_wallets
scan_wallets-any offer minimum known funding [] = ground arith
scan_wallets-any offer minimum known funding (w ∷ ws) = elim (Bool-cases (pays offer w)) [
  | inl e ↦
      let ih = scan_wallets-any offer minimum true (ltb_ℤ offer.expected_height minimum) ws in
      rw e (ih ∙ ground arith)
  | inr e ↦ rw e (scan_wallets-any offer minimum known funding ws)
]

paid_iff :
    (offer : BitcoinBlockOffer) (w : FrozenBitcoinWallet)
    → ((offer.wallet == w.wallet && offer.address == w.address) ≡ true) ↔ Pays offer w
paid_iff offer w = (
  λ h. ground (arith, binding_beq_iff offer.wallet w.wallet, eq_iff offer.address w.address),
  λ h. ground (arith, binding_beq_iff offer.wallet w.wallet, eq_iff offer.address w.address),
)

either : {P Q : Type 0} (b c : Bool) → (b ≡ true) ↔ P → (c ≡ true) ↔ Q → ((b || c) ≡ true) ↔ (P ⊎ Q)
either true c p q = (λ h. inl (p.0 refl), λ h. refl)
either false c p q =
    (λ h. inr (q.0 h), λ h. elim h [ inl x ↦ absurd (false_absurd (p.1 x)) | inr y ↦ q.1 y ])

guarded :
    {P Q : Type 0} (b c : Bool)
    → (b ≡ true) ↔ P
    → (c ≡ true) ↔ Q
    → ((if b then c else false) ≡ true) ↔ (P × Q)
guarded true c p q = (λ h. (p.0 refl, q.0 h), λ h. q.1 h.1)
guarded false c p q = (λ h. absurd (cc), λ h. absurd (false_absurd (p.1 h.0)))

below_iff : (a b : ℤ) → (ltb_ℤ a b ≡ true) ↔ (a <ℤ b)
below_iff a b = (λ h. ground arith, λ h. ground arith)

-- The recipient is known exactly where the offer pays the payout wallet or a miner wallet.
pub recipient_known :
    (initial : BitcoinInitialization) (offer : BitcoinBlockOffer)
    → ((recipient initial offer).0 ≡ true) ↔ PaysKnown initial offer
unfolding recipient
recipient_known initial offer = rw (scan_wallets-any offer _ _ _ initial.spec.miner_wallets) (
    either _ _ (paid_iff offer initial.spec.payout_wallet)
      (paid_among_iff offer initial.spec.miner_wallets))

-- The recipient is funded exactly where the offer pays a miner wallet below the minimum height.
pub funding_iff :
    (initial : BitcoinInitialization) (offer : BitcoinBlockOffer)
    → ((recipient initial offer).1 ≡ true) ↔ Funds initial offer
unfolding recipient
funding_iff initial offer = rw (scan_wallets-any offer _ _ _ initial.spec.miner_wallets) (
    guarded _ _ (paid_among_iff offer initial.spec.miner_wallets)
      (below_iff offer.expected_height initial.spec.minimum_height))
