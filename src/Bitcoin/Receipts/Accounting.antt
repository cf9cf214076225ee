-- ===== src/Bitcoin/Receipts/Accounting.antt =====
-- A receipt is accounted at most once, and exactly.
use stacks_k8s.Common.{
  ◌≤◌, ◌≡◌, refl, ap, ◌⊎◌, inl, inr, String, Bool, true, false, some, List, [], ◌∷◌, ◌==◌,
  string_eq, if◌then◌else◌,
}
use stacks_k8s.Common.Int.{ℤ, pos, max_ℤ, ◌+ℤ◌, int_eq}
use mathlib.Core.Path.{subst}
use stacks_k8s.Bitcoin.Types.{
  ObjectMeta, BitcoinBlockOffer, BitcoinRpcReceipt, BitcoinFundingCount, BitcoinInitialization,
  BitcoinExecution,
}
use stacks_k8s.Bitcoin.Receipts.{recipient, add_funding, advance, account_bootstrap_receipt}
use stacks_k8s.Bitcoin.Receipts.Recipients.{PaysKnown, Funds, recipient_known, funding_iff}
use stacks_k8s.Bitcoin.Receipts.Funding.{outputs_of, outputs_of-add_funding}
use stacks_k8s.Bitcoin.Receipts.Matching.{Accounted}
use stacks_k8s.Bitcoin.Receipts.Qualified.{Qualifies, Qualifies-account}
use stacks_k8s.Bitcoin.Receipts.Calls.{
  Call, receipt_number, consumed_numbers, Above, occurrences, Above-occurrences,
}
use stacks_k8s.Bitcoin.Receipts.Ends.{Ends, refused, consumed, ends}

-- What the accounting of an offer changes: the cursor, and the count of the miner wallet that it funds.
pub record Credits (initial : BitcoinInitialization) (offer : BitcoinBlockOffer)
    (result : BitcoinInitialization) : Type 0 where
  pub known_recipient : PaysKnown initial offer
  pub cursor : result.status.last_accounted_offer ≡ offer.number
  pub meta_kept : result.meta ≡ initial.meta
  pub spec_kept : result.spec ≡ initial.spec
  pub production_kept : result.status.production ≡ initial.status.production
  pub opportunity_kept : result.status.next_opportunity_at ≡ initial.status.next_opportunity_at
  pub offer_kept : result.status.offer ≡ initial.status.offer
  pub ceiling_kept :
      result.status.first_ceiling_observed_at ≡ initial.status.first_ceiling_observed_at
  pub prepared_kept : result.status.prepared_at ≡ initial.status.prepared_at
  pub phase_kept : result.status.phase ≡ initial.status.phase
  pub reason_kept : result.status.reason ≡ initial.status.reason
  pub credited :
      ((¬ Funds initial offer) × (result.status.funded ≡ initial.status.funded))
      ⊎ (Funds initial offer
          × ((w : String)
              → outputs_of w result.status.funded ≡ (
                  if w == offer.wallet.uid
                  then outputs_of w initial.status.funded +ℤ max_ℤ offer.count (pos 1)
                  else outputs_of w initial.status.funded)))

credit :
    (initial : BitcoinInitialization) (offer : BitcoinBlockOffer)
    (funded : List BitcoinFundingCount)
    → (((recipient initial offer).1 ≡ false) × (funded ≡ initial.status.funded))
      ⊎ (((recipient initial offer).1 ≡ true)
          × (add_funding offer.wallet.uid (max_ℤ offer.count (pos 1)) initial.status.funded
              ≡ some funded))
    → ((¬ Funds initial offer) × (funded ≡ initial.status.funded))
      ⊎ (Funds initial offer
          × ((w : String)
              → outputs_of w funded ≡ (
                  if w == offer.wallet.uid
                  then outputs_of w initial.status.funded +ℤ max_ℤ offer.count (pos 1)
                  else outputs_of w initial.status.funded)))
credit initial offer funded (inl (f, g)) =
    inl ((λ p. let t = (funding_iff initial offer).1 p in cc), g)
credit initial offer funded (inr (f, g)) = inr (
  (funding_iff initial offer).0 f,
  λ w.
      outputs_of-add_funding offer.wallet.uid w (max_ℤ offer.count (pos 1)) initial.status.funded
        funded g,
)

module _ (is_controlled_by : ObjectMeta → ObjectMeta → Bool) (root : ObjectMeta)
    (initial : BitcoinInitialization) (execution : BitcoinExecution) where
  -- The two results of an accounting.
  abbrev pub Accounts : BitcoinInitialization × Bool → Type 0
  Accounts r =
      ((r.1 ≡ false)
        × (r.0 ≡ initial)
        × ((receipt : BitcoinRpcReceipt) (offer : BitcoinBlockOffer)
            → ¬ Qualifies is_controlled_by root initial execution receipt offer))
      ⊎ ((receipt : BitcoinRpcReceipt) × (offer : BitcoinBlockOffer) × (r.1 ≡ true)
          × Accounted is_controlled_by root initial execution receipt offer
          × Credits initial offer r.0)

  consumes :
      (r : BitcoinInitialization × Bool)
      → account_bootstrap_receipt is_controlled_by root initial execution ≡ r
      → Ends is_controlled_by root initial execution r
      → Accounts r
  consumes r s (refused e) = inl (
    ap (λ p. p.1) e,
    ap (λ p. p.0) e,
    λ receipt offer q.
        let t = Qualifies-account is_controlled_by root initial execution receipt offer q in
        let f = ap (λ p. p.1) e in let g = ap (λ p. p.1) s in cc,
  )
  consumes r s (consumed receipt offer funded a k how e) = inr (
    receipt,
    offer,
    ap (λ p. p.1) e,
    a,
    rw e (
        unfold advance in
        record {
          known_recipient = (recipient_known initial offer).0 k;
          cursor = refl;
          meta_kept = refl;
          spec_kept = refl;
          production_kept = refl;
          opportunity_kept = refl;
          offer_kept = refl;
          ceiling_kept = refl;
          prepared_kept = refl;
          phase_kept = refl;
          reason_kept = refl;
          credited = credit initial offer funded how;
        }),
  )

  -- Accounting changes nothing where no receipt qualifies, or consumes the execution record's retained
  -- receipt. It then has checked that the record is of this network and of the initialization's
  -- target, and that the receipt is of a Generate call without action, with a valid block hash,
  -- reserved by this initialization on this target, for an offer that is of the bootstrap mode, names
  -- this initialization and a participant that produces, is newer than the cursor, is the completed
  -- one, is for a height that is not negative and below its ceiling, and is authorized; the offer pays
  -- the payout wallet or a miner wallet at its frozen address. The cursor moves to the offer; a miner
  -- wallet that is paid below the minimum height gets the blocks generated added to its count, and no
  -- other; all else is kept. A receipt qualifies if it passes these tests and the count, where one is
  -- credited, stays in 32 bits.
  pub account_consumes :
      Accounts (account_bootstrap_receipt is_controlled_by root initial execution)
  account_consumes = consumes _ refl (ends is_controlled_by root initial execution)

module _ (is_controlled_by : ObjectMeta → ObjectMeta → Bool) where
  receipt_number_is :
      (execution : BitcoinExecution) (receipt : BitcoinRpcReceipt) (offer : BitcoinBlockOffer)
      → execution.status.last_receipt ≡ some receipt
      → receipt.request.offer ≡ some offer
      → receipt_number execution ≡ offer.number
  receipt_number_is execution receipt offer h k = rw (h, k) refl

  increases :
      (calls : List Call) (initial : BitcoinInitialization)
      → Above initial.status.last_accounted_offer (consumed_numbers is_controlled_by initial calls)
  unfolding consumed_numbers
  increases [] initial = tt
  increases (c ∷ cs) initial =
      elim (account_consumes is_controlled_by c.network initial c.execution) [
        | inl (f, same, none_qualifies) ↦ rw (f, same) (increases cs initial)
        | inr (receipt, offer, t, a, k) ↦
            let n =
              receipt_number_is c.execution receipt offer a.retained_receipt a.retained_offer in
            let next =
              (account_bootstrap_receipt is_controlled_by c.network initial c.execution).0 in
            rw (t, n)
              (
                a.newer,
                subst (λ m. Above m (consumed_numbers is_controlled_by next cs)) k.cursor
                    (increases cs next),
              )
      ]

  -- Whatever execution records are accounted, and in whatever order, the offers whose receipts are
  -- consumed have strictly increasing numbers, above the cursor at first: so no offer's receipt is
  -- consumed twice.
  pub account_once :
      (initial : BitcoinInitialization) (calls : List Call)
      → Above initial.status.last_accounted_offer (consumed_numbers is_controlled_by initial calls)
        × ((n : ℤ) → occurrences n (consumed_numbers is_controlled_by initial calls) ≤ 1)
  account_once initial calls =
      let above = increases calls initial in (above, λ n. Above-occurrences _ n _ above)
