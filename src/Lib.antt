-- ===== src/Lib.antt =====
-- A model of parts of stacks-k8s, the operators that run Stacks and Bitcoin networks on Kubernetes,
-- with theorems on their accounting, their limits and their shutdown.
--
-- The program's parts and their files:
--   Nonce: operators/network/internal/stacksoperation/nonce.go. `NonceStream` is the state of one
--     account: the next nonce, the one outstanding submission, the public counters. `offer`, `observe`
--     and `settle_observed` are its methods Offer, Observe and SettleObserved; each returns the stream
--     after the call, the transaction that the call sent, and Go's reason and error. A node's answers
--     are a `World`. Nonce/Gates and Nonce/Submission are about what an offer has checked, Nonce/Accounting
--     about the counters, Nonce/Settlement about how a submission ends, Nonce/Runs about sequences of
--     calls, Nonce/Counters about the check of stacksworker/outage.go on published counters. Nonce/Examples holds runs of it.
--   Bitcoin: operators/network/internal/bitcoincontrol. Types holds the records of
--     apis/network/bitcoin/v1alpha2. Batch is generation_batch.go: the scheduler sizes an opportunity and
--     the worker authorizes it. Receipts is bootstrap_receipts.go: `account_bootstrap_receipt` returns the
--     initialization that Go changes in place, with Go's Boolean; Matching, Recipients, Funding, Qualified and
--     Ends are about its tests and endings, Calls about sequences of accountings, Accounting about the whole.
--     Gates is `currentGate` of gates.go: which frozen gate bounds generation; Ladder, Recorded and Order are
--     about the gates, the recorded progress and the authority. Drain is drain.go: `stop` returns the worker after it and the record
--     that it writes, Ways has the ways through it and Handover what it writes; Drain/Check is CheckDrained, which decides on the actor's disposal from that record;
--     Drain/Pause is acknowledgePause.
--     Fixtures and Examples hold runs.
--   Cadence: operators/network/internal/cadence/cadence.go and bitcoincontrol/action_cadence.go, the delays
--     between generated blocks.
--   Faucet: operators/network/internal/faucetrequest/status.go, the phase of a faucet request. Queue is
--     stacksoperation/faucet_queue.go, the notices beside a worker's entries, and Capacity is about their number.
--   Retry: operators/observability/internal/recorder/retry.go, the backoff of one event source.
--   Identity: libs/stacks/identity, c32 addresses: `encode_address` and `decode_address`. Identity/Digits is
--     about the digits of a number in an alphabet, Identity/Address about addresses read and written.
--   Clarity: libs/stacks/clarity, the consensus encoding of values. Clarity has the values and the names,
--     Encode is value.go, Decode is decode.go, whose unread slice is passed on with each result. Wire says what
--     a step has written or read and how steps compose; Parts, Integers, Dots, Principals, Cases and Normal are
--     about the parts; Written and RoundTrip lead from the encoder to the decoder, Read and Canonical back.
--   Transaction: libs/stacks/transaction/transaction.go and libs/stacks/internal/keys/keys.go: payloads, the
--     body that is signed and the patches to it. Layout and Body are about the offsets, Signing about what a reader of a
--     transaction finds, Calls about contract calls, whose account, names and arguments are those of Identity
--     and Clarity.
--   Worker: operators/network/internal/stacksworker. Worker has the records of apis/network/v1alpha2 that a
--     session is decided on, and the lookups of session.go. Project is ProjectSession: the fact, and the ledger
--     that Go changes in place. Retained, Steps and Ledger are about what a projection keeps, Settled about
--     disposals, Stop is CheckActorStop of drain.go.
--   Encoding: encoding/hex as the above use it, and their digest check; BigEndian, numbers as bytes.
--   Common: names of the libraries that are passed on, equality tests by instances, `Result` for Go's
--     value and error, lists and integers over the native numbers.
--
-- How the code is read: a handler that reads, checks and returns early is one function per stage, by
-- clauses on what it has read, composed as the code composes it. What the API server, a node, the clock,
-- a digest or a random source answers is an argument. Pointers that may be nil and fields that may be
-- absent are options. An error is its message, except where Go passes another package's error on. An int32
-- or int64 is an integer; the one subtraction that can wrap, of two heights, is `sub64`, and a uint64
-- counter is increased modulo 2 ^ 64. Locks are left out: each function is one critical section, and the
-- flags that other goroutines change are arguments. The callers of the faucet queue hold its lock for each
-- call only, so that a run there is any sequence of calls. Every function is by structural recursion. The
-- codec's is on the levels of nesting that its depth limit leaves: at none, the code's own limit test refuses.
-- The one fuel is that of `to_digits`, the division loop of an address: it is the number itself, which each
-- division makes smaller, so that the loop always ends at zero.
--
-- Not modelled: the reconcilers' loops and the construction of Kubernetes objects, which are calls of the
-- API server; the JSON and HTTP of the RPC clients; secp256k1 and the digests, which are
-- third-party or Go's and are arguments; the other Bitcoin actions and overrides; the rest of the observability operator; generated code.
pub mod Common
pub mod Encoding
pub mod Identity
pub mod Clarity
pub mod Transaction
pub mod Worker
pub mod Nonce
pub mod Bitcoin
pub mod Faucet
pub mod Cadence
pub mod Retry
