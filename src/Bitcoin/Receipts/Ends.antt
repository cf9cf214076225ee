-- ===== src/Bitcoin/Receipts/Ends.antt =====
-- The ways in which the accounting of a receipt ends.
use stacks_k8s.Common.{
  ◌≡◌, refl, ◌⊎◌, inl, inr, ◌↔◌, Bool, true, false, not, ◌||◌, Option, none, some, List, [], ◌∷◌,
  arith, ◌/=◌, string_eq, nat_eq, Bool-cases, All, all,
}
use stacks_k8s.Common.Int.{pos, max_ℤ, int_eq}
use stacks_k8s.Encoding.Hex.{Bytes, canonical_hash, IsLowerHex}
use stacks_k8s.Encoding.Hex.Canonical.{canonical_hash_iff}
use stacks_k8s.Bitcoin.Types.{
  ObjectMeta, binding_eq, BitcoinBlockOffer, BitcoinRpcReceipt, BitcoinFundingCount,
  BitcoinInitialization, BitcoinExecution,
}
use stacks_k8s.Bitcoin.Receipts.{
  hash_valid, digit_or_lower, receipt_matches, offer_matches, recipient, add_funding, advance,
  funded_by, account_offer, account_receipt, retained, account_bootstrap_receipt,
}
use stacks_k8s.Bitcoin.Receipts.Matching.{
  Accounted, Named, Matched, offer_matches-Offered, receipt_matches-Matched, execution_parts,
}

all-All : (v : Bytes) → (all digit_or_lower v ≡ true) ↔ All IsLowerHex v
all-All [] = (λ h. tt, λ h. refl)
all-All (c ∷ cs) = (λ h. ground (arith, all-All cs), λ h. ground (arith, all-All cs))

-- The two digest checks of the repository, of the Bitcoin control plane and of the Stacks operations,
-- accept the same texts.
pub hash_valid-canonical_hash : (v : Bytes) → (hash_valid v ≡ true) ↔ (canonical_hash v ≡ true)
unfolding hash_valid
hash_valid-canonical_hash v = (
  λ h. ground (arith, canonical_hash_iff v, all-All v),
  λ h. ground (arith, canonical_hash_iff v, all-All v),
)

-- How an accounting ends: nothing changes, or one receipt is consumed.
pub data Ends (is_controlled_by : ObjectMeta → ObjectMeta → Bool) (root : ObjectMeta)
    (initial : BitcoinInitialization) (execution : BitcoinExecution)
    (r : BitcoinInitialization × Bool) : Type 0 where
  refused : r ≡ (initial, false) → Ends is_controlled_by root initial execution r
  consumed :
      (receipt : BitcoinRpcReceipt) (offer : BitcoinBlockOffer) (funded : List BitcoinFundingCount)
      → Accounted is_controlled_by root initial execution receipt offer
      → ((recipient initial offer).0 ≡ true)
      → (((recipient initial offer).1 ≡ false) × (funded ≡ initial.status.funded))
        ⊎ (((recipient initial offer).1 ≡ true)
            × (add_funding offer.wallet.uid (max_ℤ offer.count (pos 1)) initial.status.funded
                ≡ some funded))
      → r ≡ (advance initial offer.number funded, true)
      → Ends is_controlled_by root initial execution r

module _ (is_controlled_by : ObjectMeta → ObjectMeta → Bool) (root : ObjectMeta)
    (initial : BitcoinInitialization) (execution : BitcoinExecution)
    (named : Named is_controlled_by root initial execution) (receipt : BitcoinRpcReceipt)
    (last : execution.status.last_receipt ≡ some receipt) where
  account_offer-Ends :
      (offer : BitcoinBlockOffer)
      → receipt.request.offer ≡ some offer
      → Matched initial receipt
      → Ends is_controlled_by root initial execution (account_offer initial execution offer)
  account_offer-Ends offer has matched = elim (Bool-cases (offer_matches initial execution offer)) [
    | inr m ↦ unfold account_offer in refused (rw m)
    | inl m ↦ elim (Bool-cases (recipient initial offer).0) [
      | inr k ↦ unfold account_offer in refused (rw (m, k))
      | inl k ↦ elim (Bool-cases (recipient initial offer).1) [
        | inr f ↦
            unfold account_offer in
            consumed receipt offer initial.status.funded (facts m) k (inl (f, refl)) (rw (m, k, f))
        | inl f ↦
            unfold account_offer in
            rw (m, k, f)
              (credited m k f
                (add_funding offer.wallet.uid (max_ℤ offer.count (pos 1)) initial.status.funded)
                refl)
      ]
    ]
  ]
    where
      facts :
          offer_matches initial execution offer ≡ true
          → Accounted is_controlled_by root initial execution receipt offer
      facts m =
          let o = offer_matches-Offered initial execution offer m in
          record {
            network_named = named.network_named;
            controlled = named.controlled;
            participant_named = named.participant_named;
            retained_receipt = last;
            generated = matched.generated;
            no_action = matched.no_action;
            retained_offer = has;
            reserved = matched.reserved;
            on_target = matched.on_target;
            attributable = matched.attributable;
            bootstrap = o.bootstrap;
            initialization = o.initialization;
            production_kind = o.production_kind;
            production_uid = o.production_uid;
            production_name = o.production_name;
            newer = o.newer;
            completed = o.completed;
            height = o.height;
            below = o.below;
            authorized = o.authorized;
          }

      credited :
          offer_matches initial execution offer ≡ true
          → (recipient initial offer).0 ≡ true
          → (recipient initial offer).1 ≡ true
          → (o : Option (List BitcoinFundingCount))
          → add_funding offer.wallet.uid (max_ℤ offer.count (pos 1)) initial.status.funded ≡ o
          → Ends is_controlled_by root initial execution (funded_by initial offer.number o)
      credited m k f none e = unfold funded_by in refused refl
      credited m k f (some l) e =
          consumed receipt offer l (facts m) k (inr (f, e)) (unfold funded_by in refl)

  account_receipt-Ends :
      (o : Option BitcoinBlockOffer)
      → receipt.request.offer ≡ o
      → Ends is_controlled_by root initial execution (account_receipt initial execution receipt o)
  account_receipt-Ends none e = unfold account_receipt in refused refl
  account_receipt-Ends (some offer) e = elim (Bool-cases (receipt_matches initial receipt)) [
    | inr m ↦ unfold account_receipt in refused (rw m)
    | inl m ↦
        unfold account_receipt in
        rw m (account_offer-Ends offer e (receipt_matches-Matched initial receipt m))
  ]

module _ (is_controlled_by : ObjectMeta → ObjectMeta → Bool) (root : ObjectMeta)
    (initial : BitcoinInitialization) (execution : BitcoinExecution) where
  retained-Ends :
      Named is_controlled_by root initial execution
      → (o : Option BitcoinRpcReceipt) → execution.status.last_receipt ≡ o
      → Ends is_controlled_by root initial execution (retained initial execution o)
  retained-Ends named none e = unfold retained in refused refl
  retained-Ends named (some receipt) e =
      unfold retained in
      account_receipt-Ends is_controlled_by root initial execution named receipt e
        receipt.request.offer refl

  pub ends :
      Ends is_controlled_by root initial execution
        (account_bootstrap_receipt is_controlled_by root initial execution)
  ends =
      elim (Bool-cases (
        execution.spec.network_uid /= root.uid
        || not (is_controlled_by execution.meta root)
        || execution.spec.participant /= initial.spec.target)) [
          | inl e ↦ refused (unfold account_bootstrap_receipt in rw e)
          | inr e ↦
              unfold account_bootstrap_receipt in
              rw e (
                retained-Ends (execution_parts is_controlled_by root initial execution e)
                  execution.status.last_receipt refl)
        ]
