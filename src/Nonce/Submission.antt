-- ===== src/Nonce/Submission.antt =====
-- What an offer sends, and what it leaves behind.
use stacks_k8s.Common.{
  ℕ, ◌+◌, ◌≡◌, ◌≢◌, false, refl, ap, ◌∙◌, sym, inl, inr, Bool, true, Option, none, some, arith,
  ◌==◌, list_eq, nat_eq, list_beq_iff, Bool-cases, ◌&&◌,
}
use mathlib.Core.Path.{subst, subst₂}
use stacks_k8s.Encoding.Hex.{Bytes}
use stacks_k8s.Nonce.{
  Transaction, SubmitAnswer, SubmissionRejection, accepted, refused, failed, Account, NodeRef,
  World, Inputs, NonceStream, Outcome, record_offer, after_submit, initialize, offer, definite, inc,
}
use stacks_k8s.Nonce.Gates.{Cleared, Offered, quiet, ready, sent, offer_cases}

sent_is :
    (clock : ℕ → ℕ) (s : NonceStream) (node : NodeRef) (tx : Transaction) (r : SubmitAnswer)
    → (after_submit clock s node tx r).sent ≡ some (node, tx)
unfolding after_submit
sent_is clock s node tx accepted = refl
sent_is clock s node tx (refused r) = ground arith
sent_is clock s node tx failed = refl

-- The parts of an equation between two sends.
sent_parts :
    (n m : NodeRef) (t u : Transaction)
    → ◌≡◌ {A = Option (NodeRef × Transaction)} (some (n, t)) (some (m, u))
    → (n ≡ m) × (t ≡ u)
sent_parts n m t u e = (cc, cc)

-- What a send leaves behind: the pending transaction, counted as accepted or as uncertain, or a
-- definite refusal of exactly it, also counted. The node's answer decides which.
pub data Left (w : World) (s : NonceStream) (clock : ℕ → ℕ) (node : NodeRef) (a : Account)
    (tx : Transaction) (s' : NonceStream) : Type 0 where
  accepted_waits :
      w.submit node tx ≡ accepted
      → s'.pending ≡ some (record { node = node; transaction = tx; nonce = a.nonce })
      → s'.next ≡ a.nonce
      → s'.facts.accepted ≡ inc s.facts.accepted
      → s'.facts.uncertain ≡ s.facts.uncertain
      → s'.facts.rejected ≡ s.facts.rejected
      → Left w s clock node a tx s'
  uncertain_waits :
      w.submit node tx ≢ accepted
      → ((r : SubmissionRejection)
          → w.submit node tx ≡ refused r
          → r.txid ≡ tx.txid
          → definite r ≡ false)
      → s'.pending ≡ some (record { node = node; transaction = tx; nonce = a.nonce })
      → s'.next ≡ a.nonce
      → s'.facts.accepted ≡ s.facts.accepted
      → s'.facts.uncertain ≡ inc s.facts.uncertain
      → s'.facts.rejected ≡ s.facts.rejected
      → Left w s clock node a tx s'
  freed :
      (r : SubmissionRejection)
      → w.submit node tx ≡ refused r
      → r.txid ≡ tx.txid
      → definite r ≡ true
      → s'.pending ≡ none
      → s'.next ≡ a.nonce
      → s'.facts.rejected ≡ inc s.facts.rejected
      → s'.facts.accepted ≡ s.facts.accepted
      → s'.facts.uncertain ≡ s.facts.uncertain
      → s'.retry_at ≡ clock 1 + 5_000_000_000
      → Left w s clock node a tx s'

-- Initialising the nonce leaves the counters.
initialize-facts : (s : NonceStream) (n : ℕ) → (initialize s n).facts ≡ s.facts
unfolding initialize
initialize-facts s n = ground arith

refused_inj : (r r' : SubmissionRejection) → refused r ≡ refused r' → r ≡ r'
refused_inj r r' e = cc

-- A refusal that is not both exact and definite is not definite where it is exact.
inexact : (id id' : Bytes) (d : Bool) → (id == id' && d) ≡ false → id ≡ id' → d ≡ false
inexact id id' d h e =
    let same : (id == id') ≡ true = (list_beq_iff nat_eq id id').1 e in ground (arith, same)

and_parts : (b c : Bool) → (b && c) ≡ true → (b ≡ true) × (c ≡ true)
and_parts b c h = ground arith

submit-Left :
    (clock : ℕ → ℕ) (w : World) (s : NonceStream) (node : NodeRef) (a : Account) (tx : Transaction)
    (r : SubmitAnswer)
    → w.submit node tx ≡ r
    → a.nonce ≡ (initialize s a.nonce).next
    → Left w s clock node a tx
        (after_submit clock (record_offer (initialize s a.nonce) node tx) node tx r).stream
unfolding after_submit record_offer
submit-Left clock w s node a tx accepted q n =
    let f = initialize-facts s a.nonce in
    accepted_waits q (rw (← n)) (sym n) (ap (λ x. inc x.accepted) f) (ap (λ x. x.uncertain) f)
      (ap (λ x. x.rejected) f)
submit-Left clock w s node a tx failed q n =
    let f = initialize-facts s a.nonce in
    uncertain_waits (λ e. cc) (λ r e t. absurd (cc)) (rw (← n)) (sym n) (ap (λ x. x.accepted) f)
      (ap (λ x. inc x.uncertain) f) (ap (λ x. x.rejected) f)
submit-Left clock w s node a tx (refused r) q n =
    let f = initialize-facts s a.nonce in
    elim (Bool-cases (r.txid == tx.txid && definite r)) [
      | inl e ↦
          let parts = and_parts (r.txid == tx.txid) (definite r) e in
          rw e (
            freed r q ((list_beq_iff nat_eq r.txid tx.txid).0 parts.0) parts.1 refl (sym n)
              (ap (λ x. inc x.rejected) f) (ap (λ x. x.accepted) f) (ap (λ x. x.uncertain) f) refl)
      | inr e ↦ rw e (
          uncertain_waits (λ h. cc)
            (λ r' h t.
              let same : r ≡ r' = refused_inj r r' (sym q ∙ h) in
              subst (λ x. definite x ≡ false) same
                (inexact r.txid tx.txid (definite r) e (ap (λ x. x.txid) same ∙ t)))
            (rw (← n)) (sym n) (ap (λ x. x.accepted) f) (ap (λ x. inc x.uncertain) f)
            (ap (λ x. x.rejected) f))
    ]

cleared :
    (digest : Bytes → Bytes) (w : World) (i : Inputs) (s : NonceStream) (o : Outcome)
    (node : NodeRef) (tx : Transaction)
    → Offered digest w i s o
    → o.sent ≡ some (node, tx)
    → (clock : ℕ → ℕ) × (a : Account) × Cleared digest w i s clock node a tx
      × Left w s clock node a tx o.stream
cleared digest w i s o node tx (quiet q e) h = absurd (cc)
cleared digest w i s o node tx (ready n a p x r q e) h = absurd (cc)
cleared digest w i s o node tx (sent clock n a t c e) h =
    let same = sent_parts n node t tx (
      sym (sent_is clock (record_offer (initialize s a.nonce) n t) n t (w.submit n t))
      ∙ ap (λ r. r.sent) (sym e)
      ∙ h) in
    (
      clock,
      a,
      subst₂ (λ n' t'. Cleared digest w i s clock n' a t') same.0 same.1 c,
      subst₂ (λ n' t'. Left w s clock n' a t' o.stream) same.0 same.1
          (rw e (submit-Left clock w s n a t (w.submit n t) refl c.nonce_agrees)),
    )

-- An offer sends a transaction only if no submission is pending, the backoff after a refusal is
-- over, no counter is exhausted, all inputs are given, the node's account shows the expected nonce
-- and the funds, the transaction is well formed and was built for that nonce, and the send was
-- authorized. Where the node accepted it, it stays pending with its node and nonce and is counted as
-- accepted; where the node refused exactly it for an allow-listed reason, nothing is pending, the
-- refusal is counted and the next offer waits for five seconds after the refusal; after any other
-- answer it stays pending and is counted as uncertain. The expected nonce is the one sent.
pub offer-Cleared :
    (digest : Bytes → Bytes) (w : World) (i : Inputs) (s : NonceStream) (node : NodeRef)
    (tx : Transaction)
    → (offer digest w i s).sent ≡ some (node, tx)
    → (clock : ℕ → ℕ) × (a : Account) × Cleared digest w i s clock node a tx
      × Left w s clock node a tx (offer digest w i s).stream
offer-Cleared digest w i s node tx h =
    cleared digest w i s (offer digest w i s) node tx (offer_cases digest w i s) h
