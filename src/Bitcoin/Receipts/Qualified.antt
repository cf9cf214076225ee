-- ===== src/Bitcoin/Receipts/Qualified.antt =====
-- A receipt that qualifies is consumed.
use stacks_k8s.Common.{
  ◌≡◌, ◌≢◌, refl, ◌⊎◌, inl, inr, String, List, Bool, true, false, not, ◌&&◌, ◌||◌, Option, none,
  some, arith, ◌==◌, ◌/=◌, string_eq, nat_eq, Bool-cases, is_some,
}
use stacks_k8s.Common.Int.{ℤ, pos, ◌<ℤ◌, ◌≤ℤ◌, ◌+ℤ◌, max_ℤ, int_eq, beq_ℤ_iff, leb_ℤ, ltb_ℤ}
use text.Mathlib.TextEquality.{eq_iff}
use stacks_k8s.Bitcoin.Types.{
  ObjectMeta, binding_eq, binding_beq_iff, BitcoinBlockOffer, BitcoinRpcReceipt,
  BitcoinFundingCount, BitcoinInitialization, BitcoinExecution,
}
use stacks_k8s.Bitcoin.Receipts.{
  receipt_matches, offer_matches, recipient, max_int32, funded_by, initialization_binding,
  account_offer, account_receipt, retained, account_bootstrap_receipt,
}
use stacks_k8s.Bitcoin.Receipts.Recipients.{PaysKnown, Funds, recipient_known, funding_iff}
use stacks_k8s.Bitcoin.Receipts.Funding.{outputs_of, add_funding-fits}
use stacks_k8s.Bitcoin.Receipts.Matching.{Accounted}

-- What makes an accounting consume a receipt: the tests, a known recipient, and a funding count that
-- stays in 32 bits where one is credited.
pub record Qualifies (is_controlled_by : ObjectMeta → ObjectMeta → Bool) (root : ObjectMeta)
    (initial : BitcoinInitialization) (execution : BitcoinExecution) (receipt : BitcoinRpcReceipt)
    (offer : BitcoinBlockOffer) : Type 0 where
  pub accounted : Accounted is_controlled_by root initial execution receipt offer
  pub payee : PaysKnown initial offer
  pub room :
      (¬ Funds initial offer)
      ⊎ (outputs_of offer.wallet.uid initial.status.funded +ℤ max_ℤ offer.count (pos 1)
          ≤ℤ max_int32)

both : (b c : Bool) → b ≡ true → c ≡ true → (b && c) ≡ true
both b c h k = ground arith

differ : (a b : String) → a ≢ b → (a /= b) ≡ true
differ a b h = ground (arith, eq_iff a b)

from_bootstrap : (m : String) → (m ≡ "") ⊎ (m ≡ "Bootstrap") → (m == "" || m == "Bootstrap") ≡ true
from_bootstrap m h = ground (arith, eq_iff m "", eq_iff m "Bootstrap")

newer_lem : (n l : ℤ) → l <ℤ n → not (leb_ℤ n l) ≡ true
newer_lem n l h = ground arith

height_lem : (h : ℤ) → pos 0 ≤ℤ h → not (ltb_ℤ h (pos 0)) ≡ true
height_lem h k = ground arith

module _ (is_controlled_by : ObjectMeta → ObjectMeta → Bool) (root : ObjectMeta)
    (initial : BitcoinInitialization) (execution : BitcoinExecution) (receipt : BitcoinRpcReceipt)
    (offer : BitcoinBlockOffer)
    (a : Accounted is_controlled_by root initial execution receipt offer) where
  Accounted-receipt_matches : receipt_matches initial receipt ≡ true
  unfolding receipt_matches
  Accounted-receipt_matches =
      both _ _
        (both _ _
          (both _ _
            (both _ _ ((eq_iff receipt.request.method "Generate").1 a.generated)
              (rw a.no_action refl))
            ((binding_beq_iff receipt.request.reservation (initialization_binding initial)).1
              a.reserved))
          ((binding_beq_iff receipt.request.target.participant initial.spec.target).1 a.on_target))
        a.attributable

  Accounted-offer_matches : offer_matches initial execution offer ≡ true
  unfolding offer_matches
  Accounted-offer_matches =
      both _ _
        (both _ _
          (both _ _
            (both _ _
              (both _ _
                (both _ _
                  (both _ _
                    (both _ _
                      (both _ _ (from_bootstrap offer.mode a.bootstrap) (
                        (binding_beq_iff offer.initialization (initialization_binding initial)).1
                          a.initialization))
                      ((eq_iff offer.production.kind "StacksNetworkParticipant").1
                        a.production_kind))
                    (differ offer.production.uid "" a.production_uid))
                  (differ offer.production.name "" a.production_name))
                (newer_lem offer.number initial.status.last_accounted_offer a.newer))
              ((beq_ℤ_iff offer.number execution.status.completed_offer).1 a.completed))
            (height_lem offer.expected_height a.height))
          (newer_lem offer.ceiling offer.expected_height a.below))
        a.authorized

  Accounted-named :
      (execution.spec.network_uid /= root.uid
        || not (is_controlled_by execution.meta root)
        || execution.spec.participant /= initial.spec.target)
      ≡ false
  Accounted-named = ground (
    arith,
    a.network_named,
    a.controlled,
    a.participant_named,
    eq_iff execution.spec.network_uid root.uid,
    binding_beq_iff execution.spec.participant initial.spec.target,
  )

  account_is :
      account_bootstrap_receipt is_controlled_by root initial execution
      ≡ account_offer initial execution offer
  unfolding account_bootstrap_receipt retained account_receipt
  account_is =
      rw (Accounted-named, a.retained_receipt, a.retained_offer, Accounted-receipt_matches) refl

funded_by-is_some :
    (initial : BitcoinInitialization) (n : ℤ) (o : Option (List BitcoinFundingCount))
    → is_some o ≡ true
    → (funded_by initial n o).1 ≡ true
unfolding funded_by
funded_by-is_some initial n none h = absurd (cc)
funded_by-is_some initial n (some l) h = refl

-- Every receipt that qualifies is consumed.
pub Qualifies-account :
    (is_controlled_by : ObjectMeta → ObjectMeta → Bool) (root : ObjectMeta)
    (initial : BitcoinInitialization) (execution : BitcoinExecution) (receipt : BitcoinRpcReceipt)
    (offer : BitcoinBlockOffer)
    → Qualifies is_controlled_by root initial execution receipt offer
    → (account_bootstrap_receipt is_controlled_by root initial execution).1 ≡ true
unfolding account_offer
Qualifies-account is_controlled_by root initial execution receipt offer q =
    let matched =
      Accounted-offer_matches is_controlled_by root initial execution receipt offer q.accounted in
    let known = (recipient_known initial offer).1 q.payee in
    rw
      (account_is is_controlled_by root initial execution receipt offer q.accounted, matched, known)
      (elim (Bool-cases (recipient initial offer).1) [
        | inr f ↦ rw f (unfold funded_by in refl)
        | inl f ↦ elim q.room [
          | inl unfunded ↦ absurd (unfunded ((funding_iff initial offer).0 f))
          | inr fits ↦ rw f (
              funded_by-is_some initial offer.number _ (
                add_funding-fits offer.wallet.uid (max_ℤ offer.count (pos 1)) initial.status.funded
                  fits))
        ]
      ])
