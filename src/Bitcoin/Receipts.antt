-- ===== src/Bitcoin/Receipts.antt =====
-- operators/network/internal/bitcoincontrol/bootstrap_receipts.go: a bootstrap receipt is accounted
-- once, and funds the wallet that it names. `is_controlled_by` is the metadata test of Kubernetes'
-- apimachinery. The initialization's record is returned with Go's Boolean result.
pub mod Recipients
pub mod Matching
pub mod Funding
pub mod Qualified
pub mod Ends
pub mod Calls
pub mod Accounting
use stacks_k8s.Common.{
  ℕ, ◌+◌, ◌≡◌, String, Bool, true, false, not, ◌&&◌, ◌||◌, Option, none, some, List, [], ◌∷◌, ◌==◌,
  ◌/=◌, string_eq, nat_eq, is_none, if◌then◌else◌, length, all, leb,
}
use stacks_k8s.Common.Int.{ℤ, pos, ltb_ℤ, leb_ℤ, max_ℤ, ◌+ℤ◌, ◌-ℤ◌, int_eq}
use stacks_k8s.Encoding.Hex.{Bytes, canonical_hash}
use stacks_k8s.Bitcoin.Types.{
  ObjectMeta, Binding, binding_eq, capture, BitcoinBlockOffer, BitcoinRpcReceipt,
  FrozenBitcoinWallet, BitcoinFundingCount, BitcoinInitialization, BitcoinInitializationSpec,
  BitcoinExecution,
}
use stacks_k8s.Bitcoin.Batch.{offer_count_authorized}

abbrev digit_or_lower : ℕ → Bool
digit_or_lower c = leb 48 c && leb c 57 || leb 97 c && leb c 102

-- `hashValid` of wallets.go.
unfoldable pub hash_valid : Bytes → Bool
hash_valid value = if length value /= 64 then false else all digit_or_lower value

abbrev pub initialization_binding : BitcoinInitialization → Binding
initialization_binding initial = capture "BitcoinInitialization" initial.meta

-- The receipt belongs to this execution record and this initialization.
pub receipt_matches : BitcoinInitialization → BitcoinRpcReceipt → Bool
receipt_matches initial receipt =
    receipt.request.method == "Generate"
    && is_none receipt.request.action
    && receipt.request.reservation == initialization_binding initial
    && receipt.request.target.participant == initial.spec.target
    && hash_valid receipt.block_hash

pub offer_matches : BitcoinInitialization → BitcoinExecution → BitcoinBlockOffer → Bool
offer_matches initial execution offer =
    (offer.mode == "" || offer.mode == "Bootstrap")
    && offer.initialization == initialization_binding initial
    && offer.production.kind == "StacksNetworkParticipant"
    && offer.production.uid /= ""
    && offer.production.name /= ""
    && not (leb_ℤ offer.number initial.status.last_accounted_offer)
    && offer.number == execution.status.completed_offer
    && not (ltb_ℤ offer.expected_height (pos 0))
    && not (leb_ℤ offer.ceiling offer.expected_height)
    && offer_count_authorized initial.spec offer

-- The loop over the miner wallets: is the recipient known, and is it funded.
pub scan_wallets : BitcoinBlockOffer → ℤ → Bool × Bool → List FrozenBitcoinWallet → Bool × Bool
scan_wallets offer minimum state [] = state
scan_wallets offer minimum (known, funding) (w ∷ ws) =
    scan_wallets offer minimum
      (if w.wallet == offer.wallet && w.address == offer.address
        then (true, ltb_ℤ offer.expected_height minimum)
        else (known, funding))
      ws

abbrev pub max_int32 : ℤ
max_int32 = pos 2_147_483_647

-- The loop over the funding counts: `none` where the count would overflow.
pub prepend :
    BitcoinFundingCount → Option (List BitcoinFundingCount) → Option (List BitcoinFundingCount)
prepend c none = none
prepend c (some l) = some (c ∷ l)

-- `count.Outputs += blocks` is an int32 addition behind the guard that keeps it in range.
unfoldable pub add_funding :
    String → ℤ → List BitcoinFundingCount → Option (List BitcoinFundingCount)
unfolding prepend
add_funding uid blocks [] = some (record { wallet_uid = uid; outputs = blocks } ∷ [])
add_funding uid blocks (count ∷ counts) =
    let rest = prepend count (add_funding uid blocks counts) in
    let bumped = record count { outputs = count.outputs +ℤ blocks } in
    if count.wallet_uid == uid
    then if ltb_ℤ (max_int32 -ℤ blocks) count.outputs then none else some (bumped ∷ counts)
    else rest

pub advance : BitcoinInitialization → ℤ → List BitcoinFundingCount → BitcoinInitialization
advance initial number funded = record initial {
  status = record initial.status { last_accounted_offer = number; funded = funded };
}

funded_by :
    BitcoinInitialization → ℤ → Option (List BitcoinFundingCount) → BitcoinInitialization × Bool
unfolding advance
funded_by initial number none = (initial, false)
funded_by initial number (some funded) = (advance initial number funded, true)

pub recipient : BitcoinInitialization → BitcoinBlockOffer → Bool × Bool
unfolding scan_wallets
recipient initial offer =
    let payout = initial.spec.payout_wallet in
    scan_wallets offer initial.spec.minimum_height
      (offer.wallet == payout.wallet && offer.address == payout.address, false)
      initial.spec.miner_wallets

account_offer :
    BitcoinInitialization → BitcoinExecution → BitcoinBlockOffer → BitcoinInitialization × Bool
unfolding offer_matches recipient funded_by
account_offer initial execution offer =
    let (known, funding) = recipient initial offer in
    if not (offer_matches initial execution offer)
    then (initial, false)
    else if not known
    then (initial, false)
    else if funding
    then funded_by initial offer.number
        (add_funding offer.wallet.uid (max_ℤ offer.count (pos 1)) initial.status.funded)
    else funded_by initial offer.number (some initial.status.funded)

account_receipt :
    BitcoinInitialization
    → BitcoinExecution
    → BitcoinRpcReceipt
    → Option BitcoinBlockOffer
    → BitcoinInitialization × Bool
unfolding receipt_matches account_offer
account_receipt initial execution receipt none = (initial, false)
account_receipt initial execution receipt (some offer) =
    if receipt_matches initial receipt
    then account_offer initial execution offer
    else (initial, false)

retained :
    BitcoinInitialization
    → BitcoinExecution
    → Option BitcoinRpcReceipt
    → BitcoinInitialization × Bool
unfolding account_receipt
retained initial execution none = (initial, false)
retained initial execution (some receipt) =
    account_receipt initial execution receipt receipt.request.offer

unfoldable pub account_bootstrap_receipt :
    (ObjectMeta → ObjectMeta → Bool)
    → ObjectMeta
    → BitcoinInitialization
    → BitcoinExecution
    → BitcoinInitialization × Bool
unfolding retained hash_valid
account_bootstrap_receipt is_controlled_by root initial execution =
    if execution.spec.network_uid /= root.uid
      || not (is_controlled_by execution.meta root)
      || execution.spec.participant /= initial.spec.target
    then (initial, false)
    else retained initial execution execution.status.last_receipt
