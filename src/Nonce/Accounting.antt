-- ===== src/Nonce/Accounting.antt =====
-- The counters of a nonce stream account for every submission.
use stacks_k8s.Common.{
  ℕ, ◌+◌, ◌<◌, ◌≡◌, refl, ◌∙◌, ◌≢◌, String, true, false, Option, none, some, arith, ok, nat_beq_iff,
}
use stacks_k8s.Encoding.Hex.{Bytes}
use stacks_k8s.Nonce.Gates.{Offered, quiet, ready, sent, offer_cases}
use stacks_k8s.Nonce.{
  inc, Transaction, SubmitAnswer, accepted, refused, failed, Account, NodeRef, World, Inputs,
  NonceStream, PendingSubmission, TransactionPostcondition, Outcome, max_uint64, pending_count,
  observe, observe_pending, record_offer, after_submit, initialize, offer, settle_pending,
  settle_observed, new_stream,
}

-- What a pending submission is tied to.
abbrev pub Pinned : NonceStream → Option PendingSubmission → Type 0
Pinned s none = Unit
Pinned s (some p) =
    (p.nonce ≡ s.next)
    × (s.initialized ≡ true)
    × (s.exhausted ≡ false)
    × (s.facts.last_txid ≡ p.transaction.txid)

pub record IsAccounted (s : NonceStream) : Type 0 where
  pub offered_fits : s.facts.offered < 18_446_744_073_709_551_616
  pub next_fits : s.next < 18_446_744_073_709_551_616
  pub conserved : s.facts.offered ≡ s.facts.accepted + s.facts.rejected + s.facts.uncertain
  pub settled :
      s.facts.accepted + s.facts.uncertain
      ≡ s.facts.included + s.facts.postcondition_observed + pending_count s
  pub pinned : Pinned s s.pending
  pub unset : s.initialized ≡ false → s.next ≡ 0

-- A node answers an account's nonce as a uint64.
pub record AnswersUint64 (w : World) : Type 0 where
  pub account_fits :
      (n : NodeRef) (a : String) (x : Account)
      → w.account n a ≡ ok x
      → x.nonce < 18_446_744_073_709_551_616

pub new_stream-IsAccounted : (a : String) → IsAccounted (new_stream a)
unfolding new_stream pending_count
new_stream-IsAccounted a = ground arith

observe_pending-IsAccounted :
    (w : World) (now : ℕ) (s : NonceStream) (o : Option PendingSubmission)
    → s.pending ≡ o
    → IsAccounted s
    → IsAccounted (observe_pending w now s o).stream
unfolding observe_pending pending_count
observe_pending-IsAccounted w now s none e h = h
observe_pending-IsAccounted w now s (some p) e h = ground arith

pub observe-IsAccounted :
    (w : World) (now : ℕ) (s : NonceStream) → IsAccounted s → IsAccounted (observe w now s).stream
unfolding observe
observe-IsAccounted w now s h = observe_pending-IsAccounted w now s s.pending refl h

pub initialize-IsAccounted :
    (s : NonceStream) (n : ℕ)
    → n < 18_446_744_073_709_551_616
    → s.pending ≡ none
    → IsAccounted s
    → IsAccounted (initialize s n)
unfolding initialize pending_count
initialize-IsAccounted s n f p h = ground arith

pub initialize_facts :
    (s : NonceStream) (n : ℕ)
    → ((initialize s n).initialized ≡ true)
      × ((initialize s n).pending ≡ s.pending)
      × ((initialize s n).exhausted ≡ s.exhausted)
      × ((initialize s n).facts ≡ s.facts)
unfolding initialize
initialize_facts s n = ground arith

submit-IsAccounted :
    (clock : ℕ → ℕ) (s : NonceStream) (node : NodeRef) (tx : Transaction) (r : SubmitAnswer)
    → IsAccounted s
    → s.pending ≡ none
    → s.initialized ≡ true
    → s.exhausted ≡ false
    → s.facts.offered ≢ max_uint64
    → IsAccounted (after_submit clock (record_offer s node tx) node tx r).stream
unfolding after_submit record_offer pending_count
submit-IsAccounted clock s node tx accepted h p i x n = ground arith
submit-IsAccounted clock s node tx (refused r) h p i x n = ground arith
submit-IsAccounted clock s node tx failed h p i x n = ground arith

cleared-IsAccounted :
    (digest : Bytes → Bytes) (w : World) (i : Inputs) (s : NonceStream) (o : Outcome)
    → AnswersUint64 w
    → IsAccounted s
    → Offered digest w i s o
    → IsAccounted o.stream
cleared-IsAccounted digest w i s o u h (quiet q e) = rw e h
cleared-IsAccounted digest w i s o u h (ready node a p x r q e) =
    rw e (initialize-IsAccounted s a.nonce (u.account_fits node s.address a r) p h)
cleared-IsAccounted digest w i s o u h (sent clock node a tx c e) =
    let (set, same, kept, facts) = initialize_facts s a.nonce in
    let fits = u.account_fits node s.address a c.account_read in
    rw e (
      submit-IsAccounted clock (initialize s a.nonce) node tx (w.submit node tx)
        (initialize-IsAccounted s a.nonce fits c.idle_before h) (same ∙ c.idle_before) set
        (kept ∙ c.not_exhausted) (λ m. c.counter_free (cc)))

-- Whatever the environment answers, an offer keeps the account of the submissions.
pub offer-IsAccounted :
    (digest : Bytes → Bytes) (w : World) (i : Inputs) (s : NonceStream)
    → AnswersUint64 w
    → IsAccounted s
    → IsAccounted (offer digest w i s).stream
offer-IsAccounted digest w i s u h =
    cleared-IsAccounted digest w i s (offer digest w i s) u h (offer_cases digest w i s)

settle_pending-IsAccounted :
    (t : Bytes) (n : ℕ) (o : TransactionPostcondition) (s : NonceStream)
    (q : Option PendingSubmission)
    → s.pending ≡ q
    → IsAccounted s
    → IsAccounted (settle_pending t n o s q).stream
unfolding settle_pending pending_count
settle_pending-IsAccounted t n o s none e h = h
settle_pending-IsAccounted t n o s (some p) e h =
    ground (arith, nat_beq_iff p.nonce max_uint64, nat_beq_iff n (inc p.nonce))

-- A settled observation keeps the account of the submissions.
pub settle_observed-IsAccounted :
    (t : Bytes) (n : ℕ) (o : TransactionPostcondition) (s : NonceStream)
    → IsAccounted s
    → IsAccounted (settle_observed t n o s).stream
unfolding settle_observed
settle_observed-IsAccounted t n o s h = settle_pending-IsAccounted t n o s s.pending refl h
