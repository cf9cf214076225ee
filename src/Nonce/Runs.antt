-- ===== src/Nonce/Runs.antt =====
-- Sequences of calls on one stream, in any order and against any environment.
use stacks_k8s.Common.{
  ℕ, suc, ◌≤◌, ◌≡◌, refl, ap, ◌⊎◌, inl, inr, Option, none, some, List, [], ◌∷◌, ◌++◌, arith,
  if◌then◌else◌, All, nat_beq_iff,
}
use stacks_k8s.Encoding.Hex.{Bytes}
use stacks_k8s.Nonce.{
  Transaction, SubmitAnswer, accepted, refused, failed, NodeRef, World, Inputs, NonceStream,
  PendingSubmission, TransactionPostcondition, Outcome, max_uint64, inc, observe, observe_pending,
  record_offer, after_submit, initialize, offer, settle_pending, settle_observed,
}
use stacks_k8s.Nonce.Gates.{Offered, quiet, ready, sent, offer_cases}
use stacks_k8s.Nonce.Accounting.{
  IsAccounted, AnswersUint64, observe-IsAccounted, offer-IsAccounted, settle_observed-IsAccounted,
}

-- A call on the stream, with what its environment answers.
pub data Call : Type 0 where
  observes : World → ℕ → Call
  offers : World → Inputs → Call
  settles : Bytes → ℕ → TransactionPostcondition → Call

abbrev pub perform : (Bytes → Bytes) → NonceStream → Call → Outcome
perform digest s (observes w now) = observe w now s
perform digest s (offers w i) = offer digest w i s
perform digest s (settles t n o) = settle_observed t n o s

abbrev pub Answers : Call → Type 0
Answers (observes w now) = Unit
Answers (offers w i) = AnswersUint64 w
Answers (settles t n o) = Unit

unfoldable pub run : (Bytes → Bytes) → NonceStream → List Call → NonceStream
run digest s [] = s
run digest s (c ∷ cs) = run digest (perform digest s c).stream cs

-- The nonce of a submission that a call has settled: pending before it, and not after it.
abbrev pub settled_nonce : Option PendingSubmission → Option PendingSubmission → List ℕ
settled_nonce (some p) none = p.nonce ∷ []
settled_nonce _ _ = []

unfoldable pub settlements : (Bytes → Bytes) → NonceStream → List Call → List ℕ
settlements digest s [] = []
settlements digest s (c ∷ cs) =
    let s' = (perform digest s c).stream in
    settled_nonce s.pending s'.pending ++ settlements digest s' cs

-- Strictly increasing, from `n` on.
abbrev pub IsIncreasing : ℕ → List ℕ → Type 0
IsIncreasing n [] = Unit
IsIncreasing n (x ∷ xs) = (n ≤ x) × IsIncreasing (suc x) xs

IsIncreasing-le : (m n : ℕ) (l : List ℕ) → m ≤ n → IsIncreasing n l → IsIncreasing m l
IsIncreasing-le m n [] h i = tt
IsIncreasing-le m n (x ∷ xs) h i = (omega arith, i.1)

pub perform-IsAccounted :
    (digest : Bytes → Bytes) (s : NonceStream) (c : Call)
    → Answers c
    → IsAccounted s
    → IsAccounted (perform digest s c).stream
perform-IsAccounted digest s (observes w now) u h = observe-IsAccounted w now s h
perform-IsAccounted digest s (offers w i) u h = offer-IsAccounted digest w i s u h
perform-IsAccounted digest s (settles t n o) u h = settle_observed-IsAccounted t n o s h

-- After any calls, in any order, against nodes that answer an account's nonce as a uint64, a stream
-- that accounts for its submissions still does: each one offered is accepted, rejected or uncertain,
-- and each accepted or uncertain one is included, observed by its postcondition or pending.
pub run-IsAccounted :
    (digest : Bytes → Bytes) (s : NonceStream) (cs : List Call)
    → All Answers cs
    → IsAccounted s
    → IsAccounted (run digest s cs)
unfolding run
run-IsAccounted digest s [] u h = h
run-IsAccounted digest s (c ∷ cs) u h =
    run-IsAccounted digest (perform digest s c).stream cs u.1 (perform-IsAccounted digest s c u.0 h)

-- No nonce below this one is submitted again.
abbrev floor : NonceStream → ℕ
floor s = if s.exhausted then 18_446_744_073_709_551_616 else s.next

abbrev Settles :
    NonceStream → NonceStream → Option PendingSubmission → Option PendingSubmission → Type 0
Settles s s' (some p) none = (floor s ≤ p.nonce) × (suc p.nonce ≤ floor s')
Settles s s' _ _ = floor s ≤ floor s'

observe-Settles :
    (w : World) (now : ℕ) (s : NonceStream) (q : Option PendingSubmission)
    → s.pending ≡ q
    → IsAccounted s
    → let s' = (observe_pending w now s q).stream in Settles s s' q s'.pending
unfolding observe_pending
observe-Settles w now s none e h = ground arith
observe-Settles w now s (some p) e h = ground (arith, nat_beq_iff p.nonce max_uint64)

settle-Settles :
    (t : Bytes) (n : ℕ) (o : TransactionPostcondition) (s : NonceStream)
    (q : Option PendingSubmission)
    → s.pending ≡ q
    → IsAccounted s
    → let s' = (settle_pending t n o s q).stream in Settles s s' q s'.pending
unfolding settle_pending
settle-Settles t n o s none e h = ground arith
settle-Settles t n o s (some p) e h =
    ground (arith, nat_beq_iff p.nonce max_uint64, nat_beq_iff n (inc p.nonce))

submit-floor :
    (clock : ℕ → ℕ) (s : NonceStream) (node : NodeRef) (tx : Transaction) (r : SubmitAnswer)
    → floor (after_submit clock (record_offer s node tx) node tx r).stream ≡ floor s
unfolding after_submit record_offer
submit-floor clock s node tx accepted = refl
submit-floor clock s node tx (refused r) = ground arith
submit-floor clock s node tx failed = refl

initialize-floor : (s : NonceStream) (n : ℕ) → IsAccounted s → floor s ≤ floor (initialize s n)
unfolding initialize
initialize-floor s n h = ground arith

Settles-same :
    (s s' : NonceStream) (q q' : Option PendingSubmission)
    → (q ≡ none) ⊎ (q' ≡ q)
    → floor s ≤ floor s'
    → Settles s s' q q'
Settles-same s s' none q' e h = h
Settles-same s s' (some p) none (inl e) h = cc
Settles-same s s' (some p) none (inr e) h = cc
Settles-same s s' (some p) (some p') e h = h

cleared-Settles :
    (digest : Bytes → Bytes) (w : World) (i : Inputs) (s : NonceStream) (o : Outcome)
    → IsAccounted s
    → Offered digest w i s o
    → Settles s o.stream s.pending o.stream.pending
cleared-Settles digest w i s o h (quiet q e) =
    Settles-same s o.stream s.pending o.stream.pending (inr (ap (λ t. t.pending) e))
      (rw e (omega arith))
cleared-Settles digest w i s o h (ready node a p x r q e) =
    Settles-same s o.stream s.pending o.stream.pending (inl p) (rw e (initialize-floor s a.nonce h))
cleared-Settles digest w i s o h (sent clock node a tx c e) =
    Settles-same s o.stream s.pending o.stream.pending (inl c.idle_before) (
      rw e (
        rw (submit-floor clock (initialize s a.nonce) node tx (w.submit node tx))
          (initialize-floor s a.nonce h)))

perform-Settles :
    (digest : Bytes → Bytes) (s : NonceStream) (c : Call)
    → IsAccounted s
    → let s' = (perform digest s c).stream in Settles s s' s.pending s'.pending
perform-Settles digest s (observes w now) h =
    unfold observe in observe-Settles w now s s.pending refl h
perform-Settles digest s (offers w i) h =
    cleared-Settles digest w i s (offer digest w i s) h (offer_cases digest w i s)
perform-Settles digest s (settles t n o) h =
    unfold settle_observed in settle-Settles t n o s s.pending refl h

increase :
    (s s' : NonceStream) (q q' : Option PendingSubmission) (l : List ℕ)
    → Settles s s' q q'
    → IsIncreasing (floor s') l
    → IsIncreasing (floor s) (settled_nonce q q' ++ l)
increase s s' (some p) none l h i = (h.0, IsIncreasing-le (suc p.nonce) (floor s') l h.1 i)
increase s s' none none l h i = IsIncreasing-le (floor s) (floor s') l h i
increase s s' none (some p) l h i = IsIncreasing-le (floor s) (floor s') l h i
increase s s' (some p) (some p') l h i = IsIncreasing-le (floor s) (floor s') l h i

settlements_above :
    (digest : Bytes → Bytes) (s : NonceStream) (cs : List Call)
    → All Answers cs
    → IsAccounted s
    → IsIncreasing (floor s) (settlements digest s cs)
unfolding settlements
settlements_above digest s [] u h = tt
settlements_above digest s (c ∷ cs) u h =
    let s' = (perform digest s c).stream in
    increase s s' s.pending s'.pending (settlements digest s' cs) (perform-Settles digest s c h)
      (settlements_above digest s' cs u.1 (perform-IsAccounted digest s c u.0 h))

-- Over any calls, in any order, from a stream whose counters account for its submissions and against
-- nodes that answer an account's nonce as a uint64, the nonces of the submissions that are settled, by
-- inclusion or by an observed postcondition, strictly increase: no nonce is settled twice.
pub settlements_increase :
    (digest : Bytes → Bytes) (s : NonceStream) (cs : List Call)
    → All Answers cs
    → IsAccounted s
    → IsIncreasing 0 (settlements digest s cs)
settlements_increase digest s cs u h =
    IsIncreasing-le 0 (floor s) (settlements digest s cs) (omega arith)
      (settlements_above digest s cs u h)
