-- ===== src/Nonce/Settlement.antt =====
-- When a pending submission is settled.
use stacks_k8s.Common.{
  ℕ, ◌+◌, ◌<◌, ◌≡◌, refl, sym, ◌↔◌, ◌⊎◌, inl, inr, true, false, Option, none, some, arith, ◌==◌,
  list_eq, nat_eq, list_beq_iff, Bool-cases, if◌then◌else◌, Result, ok, err, nat_beq_iff,
}
use mathlib.Core.Path.{subst}
use stacks_k8s.Encoding.Hex.{Bytes}
use stacks_k8s.Nonce.{
  Inclusion, World, NonceStream, PendingSubmission, TransactionPostcondition, inc, max_uint64,
  observe, observe_pending, settle_observed, settle_pending, supported_postcondition,
  complete_evidence, pending_count, observe_inclusion,
}
use stacks_k8s.Nonce.Accounting.{IsAccounted, Pinned}

-- What an observation of the pending submission `p` may do.
pub data Observed (w : World) (now : ℕ) (s : NonceStream) (p : PendingSubmission) (s' : NonceStream)
    : Type 0 where
  unseen :
      s' ≡ s
      → ((i : Inclusion) → w.inclusion p.node p.transaction.txid ≡ ok i → i.found ≡ false)
      → Observed w now s p s'
  seen :
      (i : Inclusion)
      → w.inclusion p.node p.transaction.txid ≡ ok i
      → i.found ≡ true
      → s'.pending ≡ none
      → s'.facts.included ≡ s.facts.included + 1
      → s'.facts.offered ≡ s.facts.offered
      → ((s'.exhausted ≡ true) × (p.nonce ≡ max_uint64))
        ⊎ ((s'.exhausted ≡ false) × (s'.next ≡ p.nonce + 1))
      → Observed w now s p s'

included_free :
    (s : NonceStream) (p : PendingSubmission)
    → s.pending ≡ some p
    → IsAccounted s
    → s.facts.included + 1 < 18_446_744_073_709_551_616
included_free s p e h = unfold pending_count in ground arith

-- The nonce after a settled submission: used up, or one more.
advance :
    (s : NonceStream) (p : PendingSubmission)
    → Pinned s (some p)
    → IsAccounted s
    → (((p.nonce == max_uint64) ≡ true) × (p.nonce ≡ max_uint64))
      ⊎ (((p.nonce == max_uint64) ≡ false)
          × ((if p.nonce == max_uint64 then s.next else inc p.nonce) ≡ p.nonce + 1))
advance s p k h = elim (Bool-cases (p.nonce == max_uint64)) [
  | inl e ↦ inl (e, (nat_beq_iff p.nonce max_uint64).0 e)
  | inr e ↦ inr (e, ground arith)
]

observed :
    (w : World) (now : ℕ) (s : NonceStream) (p : PendingSubmission) (r : Result Inclusion)
    → w.inclusion p.node p.transaction.txid ≡ r
    → s.pending ≡ some p
    → IsAccounted s
    → Observed w now s p (observe_inclusion s now p r).stream
unfolding observe_inclusion
observed w now s p (err e) q g h = unseen refl (λ i f. cc)
observed w now s p (ok i) q g h = elim (Bool-cases i.found) [
  | inr f ↦ rw f (unseen refl (λ j e. cc))
  | inl f ↦
      let free : (s.facts.included == max_uint64) ≡ false = ground (arith, included_free s p g h) in
      rw (f, free)
        (seen i q f refl (ground (arith, included_free s p g h)) refl
          (advance s p (rw g at h.pinned) h))
]

-- Observing a pending submission asks its own node about its own transaction. Nothing changes until
-- the node finds the transaction; then it is counted once, nothing is pending, and the next nonce is
-- one more, or the stream is exhausted at the last nonce. The counter is never full at that point.
pub observe_settles :
    (w : World) (now : ℕ) (s : NonceStream) (p : PendingSubmission)
    → s.pending ≡ some p
    → IsAccounted s
    → Observed w now s p (observe w now s).stream
unfolding observe
observe_settles w now s p g h =
    subst (λ q. Observed w now s p (observe_pending w now s q).stream) (sym g)
      (unfold observe_pending in
        observed w now s p (w.inclusion p.node p.transaction.txid) refl g h)

-- When a postcondition settles the pending submission.
pub record Attributed (txid : Bytes) (n : ℕ) (o : TransactionPostcondition) (p : PendingSubmission)
    : Type 0 where
  pub same_pending : p.transaction.txid ≡ txid
  pub same_observed : o.txid ≡ txid
  pub next_nonce : n ≡ p.nonce + 1
  pub nonce_left : p.nonce < max_uint64
  pub kind_supported : supported_postcondition o.kind ≡ true
  pub evidence : complete_evidence o ≡ true

settle_iff :
    (txid : Bytes) (n : ℕ) (o : TransactionPostcondition) (s : NonceStream) (p : PendingSubmission)
    → s.pending ≡ some p
    → IsAccounted s
    → ((settle_pending txid n o s (some p)).stream.pending ≡ none) ↔ Attributed txid n o p
unfolding settle_pending pending_count
settle_iff txid n o s p g h = (
  λ e. ground (arith, list_beq_iff nat_eq p.transaction.txid txid, list_beq_iff nat_eq o.txid txid),
  λ a. ground (arith, list_beq_iff nat_eq p.transaction.txid txid, list_beq_iff nat_eq o.txid txid),
)

settle_counts :
    (txid : Bytes) (n : ℕ) (o : TransactionPostcondition) (s : NonceStream)
    (q : Option PendingSubmission)
    → (settle_pending txid n o s q).stream.facts.included ≡ s.facts.included
unfolding settle_pending
settle_counts txid n o s none = refl
settle_counts txid n o s (some p) = ground arith

-- In a stream that accounts for its submissions, a postcondition settles the pending one exactly when it names that transaction, the
-- account's next nonce follows the pending one, its kind is supported and its evidence is complete.
-- It never counts as an inclusion.
pub settle_observed_settles :
    (txid : Bytes) (n : ℕ) (o : TransactionPostcondition) (s : NonceStream) (p : PendingSubmission)
    → s.pending ≡ some p
    → IsAccounted s
    → (((settle_observed txid n o s).stream.pending ≡ none) ↔ Attributed txid n o p)
      × ((settle_observed txid n o s).stream.facts.included ≡ s.facts.included)
unfolding settle_observed
settle_observed_settles txid n o s p g h = (
  subst (λ q. ((settle_pending txid n o s q).stream.pending ≡ none) ↔ Attributed txid n o p) (sym g)
      (settle_iff txid n o s p g h),
  settle_counts txid n o s s.pending,
)
