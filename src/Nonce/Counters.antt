-- ===== src/Nonce/Counters.antt =====
-- `executionCountersAdvance` of operators/network/internal/stacksworker/outage.go, the check on the
-- counters that a worker publishes, and that a nonce stream's counters pass it.
use mathlib.Core.Path.{subst}
use stacks_k8s.Common.{
  ℕ, ◌≤◌, ◌≡◌, ◌≢◌, refl, Bool, true, false, ◌&&◌, Option, none, some, List, [], ◌∷◌, arith, leb,
  All,
}
use stacks_k8s.Encoding.Hex.{Bytes}
use stacks_k8s.Nonce.{
  Transaction, SubmitAnswer, accepted, refused, failed, NodeRef, World, Inputs, NonceStream,
  TransactionExecutionStatus, PendingSubmission, TransactionPostcondition, Outcome, max_uint64,
  observe, observe_pending, record_offer, after_submit, initialize, offer, settle_pending,
  settle_observed,
}
use stacks_k8s.Nonce.Gates.{Offered, quiet, ready, sent, offer_cases}
use stacks_k8s.Nonce.Accounting.{
  IsAccounted, AnswersUint64, initialize_facts, initialize-IsAccounted,
}
use stacks_k8s.Nonce.Runs.{
  Call, observes, offers, settles, perform, run, Answers, perform-IsAccounted,
}

unfoldable pub execution_counters_advance :
    Option TransactionExecutionStatus → Option TransactionExecutionStatus → Bool
execution_counters_advance none current = true
execution_counters_advance (some previous) none = false
execution_counters_advance (some previous) (some current) =
    leb previous.offered current.offered
    && leb previous.accepted current.accepted
    && leb previous.included current.included
    && leb previous.rejected current.rejected
    && leb previous.uncertain current.uncertain
    && leb previous.postcondition_observed current.postcondition_observed

record Advance (a b : TransactionExecutionStatus) : Type 0 where
  offered : a.offered ≤ b.offered
  accepted_more : a.accepted ≤ b.accepted
  included : a.included ≤ b.included
  rejected : a.rejected ≤ b.rejected
  uncertain : a.uncertain ≤ b.uncertain
  postcondition_observed : a.postcondition_observed ≤ b.postcondition_observed

Advance-refl : (a : TransactionExecutionStatus) → Advance a a
Advance-refl a = ground arith

Advance-trans : (a b c : TransactionExecutionStatus) → Advance a b → Advance b c → Advance a c
Advance-trans a b c p q = ground arith

observe_pending-Advance :
    (w : World) (now : ℕ) (s : NonceStream) (o : Option PendingSubmission)
    → IsAccounted s
    → s.pending ≡ o
    → Advance s.facts (observe_pending w now s o).stream.facts
unfolding observe_pending
observe_pending-Advance w now s none h e = Advance-refl s.facts
observe_pending-Advance w now s (some p) h e = ground arith

submit-Advance :
    (clock : ℕ → ℕ) (s : NonceStream) (node : NodeRef) (tx : Transaction) (r : SubmitAnswer)
    → IsAccounted s
    → s.facts.offered ≢ max_uint64
    → Advance s.facts (after_submit clock (record_offer s node tx) node tx r).stream.facts
unfolding after_submit record_offer
submit-Advance clock s node tx accepted h n = ground arith
submit-Advance clock s node tx (refused r) h n = ground arith
submit-Advance clock s node tx failed h n = ground arith

offer-Advance :
    (digest : Bytes → Bytes) (w : World) (i : Inputs) (s : NonceStream) (o : Outcome)
    → AnswersUint64 w
    → IsAccounted s
    → Offered digest w i s o
    → Advance s.facts o.stream.facts
offer-Advance digest w i s o u h (quiet q e) = rw e (Advance-refl s.facts)
offer-Advance digest w i s o u h (ready node a p x r q e) =
    rw (e, (initialize_facts s a.nonce).3) (Advance-refl s.facts)
offer-Advance digest w i s o u h (sent clock node a tx c e) =
    let (set, same, kept, facts) = initialize_facts s a.nonce in
    let fits = u.account_fits node s.address a c.account_read in
    let more =
      submit-Advance clock (initialize s a.nonce) node tx (w.submit node tx)
        (initialize-IsAccounted s a.nonce fits c.idle_before h) (λ m. c.counter_free (cc)) in
    rw e (
      subst
        (λ f.
          Advance f
            (after_submit clock (record_offer (initialize s a.nonce) node tx) node tx
              (w.submit node tx)).stream.facts)
        facts more)

settle_pending-Advance :
    (t : Bytes) (n : ℕ) (o : TransactionPostcondition) (s : NonceStream)
    (q : Option PendingSubmission)
    → IsAccounted s
    → s.pending ≡ q
    → Advance s.facts (settle_pending t n o s q).stream.facts
unfolding settle_pending
settle_pending-Advance t n o s none h e = Advance-refl s.facts
settle_pending-Advance t n o s (some p) h e = ground arith

perform-Advance :
    (digest : Bytes → Bytes) (s : NonceStream) (c : Call)
    → Answers c
    → IsAccounted s
    → Advance s.facts (perform digest s c).stream.facts
unfolding observe settle_observed
perform-Advance digest s (observes w now) u h = observe_pending-Advance w now s s.pending h refl
perform-Advance digest s (offers w i) u h =
    offer-Advance digest w i s (offer digest w i s) u h (offer_cases digest w i s)
perform-Advance digest s (settles t n o) u h = settle_pending-Advance t n o s s.pending h refl

run-Advance :
    (digest : Bytes → Bytes) (s : NonceStream) (cs : List Call)
    → All Answers cs
    → IsAccounted s
    → Advance s.facts (run digest s cs).facts
unfolding run
run-Advance digest s [] u h = Advance-refl s.facts
run-Advance digest s (c ∷ cs) u h =
    let s' = (perform digest s c).stream in
    Advance-trans s.facts s'.facts (run digest s' cs).facts (perform-Advance digest s c u.0 h)
      (run-Advance digest s' cs u.1 (perform-IsAccounted digest s c u.0 h))

-- What a nonce stream publishes always passes the worker's check: after any calls, in any order,
-- against nodes that answer an account's nonce as a uint64, no counter of a stream that accounts for
-- its submissions has gone back.
pub run_counters_advance :
    (digest : Bytes → Bytes) (s : NonceStream) (cs : List Call)
    → All Answers cs
    → IsAccounted s
    → execution_counters_advance (some s.facts) (some (run digest s cs).facts) ≡ true
unfolding execution_counters_advance
run_counters_advance digest s cs u h = let a = run-Advance digest s cs u h in ground (arith, a)
