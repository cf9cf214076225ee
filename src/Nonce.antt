-- ===== src/Nonce.antt =====
-- operators/network/internal/stacksoperation/nonce.go: one account's nonce stream, which submits
-- one transaction at a time and accounts for every submission. With it the parts of
-- libs/stacks/transaction/transaction.go and libs/stacks/rpc/rejection.go that it calls.
-- Times are nanoseconds since Go's zero time; a uint64 is a number below 2 ^ 64.
mod Types
pub mod Gates
pub mod Accounting
pub mod Submission
pub mod Settlement
pub mod Runs
pub mod Counters
pub mod Examples
pub use Types.*
use Prim.Native.String.{◌++◌ as append}
use stacks_k8s.Common.{
  ℕ, ◌+◌, ◌-◌, ◌%◌, ◌^◌, String, Bool, true, false, not, ◌&&◌, ◌||◌, Option, none, some, List, [],
  ◌∷◌, ltb, leb, ◌==◌, ◌/=◌, nat_eq, string_eq, list_eq, if◌then◌else◌, length, is_some, Result, ok,
  err, drop, take,
}
use stacks_k8s.Common.Int.{ℤ, pos, ltb_ℤ}
use stacks_k8s.Encoding.Hex.{Bytes, encode_to_string, canonical_hash}

-- `digest` is SHA512/256 of crypto/sha512.
unfoldable pub id : (Bytes → Bytes) → Bytes → Bytes
id digest raw = encode_to_string (digest raw)

unfoldable pub valid : (Bytes → Bytes) → Transaction → Bool
unfolding id
valid digest tx =
    ltb 0 (length tx.bytes) && leb (length tx.bytes) 1_048_576 && id digest tx.bytes == tx.txid

unfoldable pub validation_rejection_reason : String → Bool
validation_rejection_reason reason =
    reason == "FeeTooLow"
    || reason == "BadNonce"
    || reason == "ConflictingNonceInMempool"
    || reason == "NotEnoughFunds"

pub definite : SubmissionRejection → Bool
unfolding validation_rejection_reason
definite r = validation_rejection_reason r.reason

abbrev pub max_uint64 : ℕ
max_uint64 = 18_446_744_073_709_551_615

-- `counter++` on a uint64.
abbrev pub inc : ℕ → ℕ
inc n = (n + 1) % 18_446_744_073_709_551_616

unfoldable pub pending_count : NonceStream → ℕ
pending_count s = elim (s.pending) [ none ↦ 0 | some p ↦ 1 ]

include : NonceStream → ℕ → PendingSubmission → Inclusion → Outcome
include s now p inclusion =
    let facts = record s.facts {
      included = inc s.facts.included;
      last_inclusion = some (record {
        txid = p.transaction.txid;
        block_id = inclusion.block_id;
        success = inclusion.success;
        observed_at = now;
      });
    } in
    let exhausted = p.nonce == max_uint64 in
    let settled = record s {
      facts = facts;
      exhausted = exhausted;
      next = if exhausted then s.next else inc p.nonce;
      pending = none;
    } in
    hold settled (if inclusion.success then "Included" else "ExecutionRejected")

observe_inclusion : NonceStream → ℕ → PendingSubmission → Result Inclusion → Outcome
unfolding include
observe_inclusion s now p (err e) = fail s "InclusionUnavailable" e
observe_inclusion s now p (ok inclusion) =
    if not inclusion.found
    then hold s "AwaitingInclusion"
    else if s.facts.included == max_uint64
    then fail s "CounterExhausted" "transaction counter exhausted"
    else include s now p inclusion

observe_pending : World → ℕ → NonceStream → Option PendingSubmission → Outcome
unfolding observe_inclusion
observe_pending w now s none = hold s "Idle"
observe_pending w now s (some p) = observe_inclusion s now p (w.inclusion p.node p.transaction.txid)

unfoldable pub observe : World → ℕ → NonceStream → Outcome
unfolding observe_pending
observe w now s = observe_pending w now s s.pending

-- The state recorded before the only send.
pub record_offer : NonceStream → NodeRef → Transaction → NonceStream
record_offer s node tx = record s {
  pending = some (record { node = node; transaction = tx; nonce = s.next });
  facts = record s.facts { offered = inc s.facts.offered; last_txid = tx.txid };
  rejection_reason = "";
}

mark_accepted : NonceStream → NonceStream
mark_accepted s = record s { facts = record s.facts { accepted = inc s.facts.accepted } }

mark_uncertain : NonceStream → NonceStream
mark_uncertain s = record s { facts = record s.facts { uncertain = inc s.facts.uncertain } }

-- A definite refusal frees the stream after five seconds.
mark_rejected : NonceStream → ℕ → String → NonceStream
mark_rejected s now reason = record s {
  facts = record s.facts { rejected = inc s.facts.rejected };
  pending = none;
  retry_at = now + 5_000_000_000;
  rejection_reason = append "Rejected" reason;
}

abbrev pub sent_outcome : NonceStream → NodeRef → Transaction → String → Outcome
sent_outcome s node tx reason = record {
  stream = s;
  sent = some (node, tx);
  reason = reason;
  error = none;
}

pub after_submit : (ℕ → ℕ) → NonceStream → NodeRef → Transaction → SubmitAnswer → Outcome
unfolding mark_accepted mark_uncertain mark_rejected
after_submit clock s node tx accepted = sent_outcome (mark_accepted s) node tx "Accepted"
after_submit clock s node tx failed = sent_outcome (mark_uncertain s) node tx "SubmissionUncertain"
after_submit clock s node tx (refused r) =
    if r.txid == tx.txid && definite r
    then sent_outcome (mark_rejected s (clock 1) r.reason) node tx (append "Rejected" r.reason)
    else sent_outcome (mark_uncertain s) node tx "SubmissionUncertain"

-- `authorize` has answered: the send.
send : World → (ℕ → ℕ) → NodeRef → Transaction → NonceStream → Option String → Outcome
unfolding after_submit record_offer
send w clock node tx s (some e) = fail s "AuthorizationUnavailable" e
send w clock node tx s none = after_submit clock (record_offer s node tx) node tx (w.submit node tx)

built :
    (Bytes → Bytes)
    → World
    → (ℕ → ℕ)
    → NodeRef
    → Option String
    → NonceStream
    → Result Transaction
    → Outcome
unfolding send
built digest w clock node authorized s (err e) = fail s "ConstructionFailed" e
built digest w clock node authorized s (ok tx) =
    if not (valid digest tx)
    then fail s "ConstructionFailed" "invalid signed transaction"
    else send w clock node tx s authorized

-- The canonical account is known: initialise, compare nonces and funds, build.
pub initialize : NonceStream → ℕ → NonceStream
initialize s nonce = if s.initialized then s else record s { next = nonce; initialized = true }

funded :
    (Bytes → Bytes)
    → World
    → (ℕ → ℕ)
    → NodeRef
    → ℤ
    → Option String
    → (ℕ → Result Transaction)
    → NonceStream
    → Account
    → Option ℤ
    → Option ℤ
    → Outcome
unfolding built
funded digest w clock node amount authorized build s account (some balance) (some locked) =
    let s' = initialize s account.nonce in
    if account.nonce /= s'.next
    then hold s' "NonceMismatch"
    else if ltb_ℤ balance amount
    then hold s' "InsufficientFunds"
    else built digest w clock node authorized s' (build s'.next)
funded digest w clock node amount authorized build s account _ _ =
    fail s "AccountUnavailable" "incomplete account balance"

with_account :
    (Bytes → Bytes)
    → World
    → (ℕ → ℕ)
    → NodeRef
    → ℤ
    → Option String
    → (ℕ → Result Transaction)
    → NonceStream
    → Result Account
    → Outcome
unfolding funded
with_account digest w clock node amount authorized build s (err e) = fail s "AccountUnavailable" e
with_account digest w clock node amount authorized build s (ok account) =
    funded digest w clock node amount authorized build s account account.balance account.locked

-- What the caller passes; `none` is a nil argument. `authorize` is what a call of it returns.
pub record Inputs : Type 0 where
  pub clock : Option (ℕ → ℕ)
  pub node : Option NodeRef
  pub amount : Option ℤ
  pub authorize : Option (Option String)
  pub build : Option (ℕ → Result Transaction)

complete :
    (Bytes → Bytes)
    → World
    → (ℕ → ℕ)
    → NonceStream
    → Option NodeRef
    → Option ℤ
    → Option (Option String)
    → Option (ℕ → Result Transaction)
    → Outcome
unfolding with_account
complete digest w clock s (some node) (some amount) (some authorized) (some build) =
    if ltb_ℤ amount (pos 0)
    then fail s "InvalidInputs" "incomplete transaction inputs"
    else with_account digest w clock node amount authorized build s (w.account node s.address)
complete digest w clock s _ _ _ _ = fail s "InvalidInputs" "incomplete transaction inputs"

timed : (Bytes → Bytes) → World → Inputs → NonceStream → Option (ℕ → ℕ) → Outcome
unfolding complete
timed digest w i s none = fail s "InvalidInputs" "missing transaction clock"
timed digest w i s (some clock) =
    if ltb (clock 0) s.retry_at
    then hold s "RejectionBackoff"
    else if s.exhausted || s.facts.offered == max_uint64
    then fail s "CounterExhausted" "transaction counter exhausted"
    else complete digest w clock s i.node i.amount i.authorize i.build

idle : (Bytes → Bytes) → World → Inputs → NonceStream → Option PendingSubmission → Outcome
unfolding timed
idle digest w i s (some p) = hold s "AwaitingInclusion"
idle digest w i s none = timed digest w i s i.clock

unfoldable pub offer : (Bytes → Bytes) → World → Inputs → NonceStream → Outcome
unfolding idle initialize
offer digest w i s = idle digest w i s s.pending

unfoldable pub supported_postcondition : String → Bool
supported_postcondition kind =
    kind == "PoX4Enrollment"
    || kind == "PoX4Extension"
    || kind == "ContractDeployment"
    || kind == "RegistryInitialization"
    || kind == "ManagerDeployment"
    || kind == "SignerRegistration"
    || kind == "PoX5Enrollment"
    || kind == "PoX5Extension"

-- `sha256:` as bytes, and the tests of the digest and of the observation's other evidence.
abbrev pub sha256_prefix : Bytes
sha256_prefix = 115 ∷ 104 ∷ 97 ∷ 50 ∷ 53 ∷ 54 ∷ 58 ∷ []

unfoldable pub complete_evidence : TransactionPostcondition → Bool
complete_evidence o =
    take 7 o.state_digest == sha256_prefix
    && canonical_hash (drop 7 o.state_digest)
    && canonical_hash o.stacks_tip
    && o.observed_at /= 0

settle_pending :
    Bytes → ℕ → TransactionPostcondition → NonceStream → Option PendingSubmission → Outcome
settle_pending txid next_nonce o s none =
    fail s "ObservationMismatch" "postcondition does not match pending transaction"
settle_pending txid next_nonce o s (some p) =
    if p.transaction.txid /= txid || o.txid /= txid
    then fail s "ObservationMismatch" "postcondition does not match pending transaction"
    else if p.nonce == max_uint64 || next_nonce /= inc p.nonce
    then hold s "NonceMismatch"
    else if not (supported_postcondition o.kind)
    then fail s "ObservationMismatch" "unsupported postcondition"
    else if not (complete_evidence o)
    then fail s "ObservationMismatch" "incomplete postcondition evidence"
    else if s.facts.postcondition_observed == max_uint64
    then fail s "CounterExhausted" "postcondition counter exhausted"
    else hold
        (record s {
          facts = record s.facts {
            postcondition_observed = inc s.facts.postcondition_observed;
            last_postcondition = some o;
          };
          next = next_nonce;
          pending = none;
        })
        "StateObserved"

unfoldable pub settle_observed : Bytes → ℕ → TransactionPostcondition → NonceStream → Outcome
unfolding settle_pending
settle_observed txid next_nonce o s = settle_pending txid next_nonce o s s.pending

-- A worker's stream before any call.
unfoldable pub new_stream : String → NonceStream
new_stream address = record {
  address = address;
  next = 0;
  initialized = false;
  exhausted = false;
  pending = none;
  facts = record {
    offered = 0;
    accepted = 0;
    included = 0;
    rejected = 0;
    uncertain = 0;
    postcondition_observed = 0;
    last_postcondition = none;
    last_txid = [];
    last_inclusion = none;
  };
  retry_at = 0;
  rejection_reason = "";
}
