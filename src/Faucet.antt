-- ===== src/Faucet.antt =====
-- operators/network/internal/faucetrequest/status.go: the phase of a faucet request, from its
-- admission and from its worker's evidence, with the parts of
-- apis/network/stacks/v1alpha2/faucet_request_types.go that it reads. `time.ParseDuration` is an
-- argument. A time is a number of nanoseconds since Go's zero time, a hash a list of bytes.
pub mod Phases
pub mod Queue
pub mod Capacity
pub mod QueueExamples
pub mod Examples
use stacks_k8s.Common.{
  ℕ, ◌+◌, String, Bool, true, false, not, ◌&&◌, ◌||◌, Option, none, some, ltb, leb, ◌==◌, ◌/=◌,
  string_eq, nat_eq, if◌then◌else◌, length,
}
use stacks_k8s.Common.Int.{ℤ, pos, negsuc}
use stacks_k8s.Encoding.Hex.{Bytes}

pub record FaucetBinding : Type 0 where
  pub name : String
  pub uid : String
  pub fingerprint : String

pub record FaucetAdmission : Type 0 where
  pub decision : String
  pub reason : String
  pub expires_at : String
  pub network_uid : String
  pub faucet : Option FaucetBinding
  pub worker : Option FaucetBinding
  pub profile_digest : String
  pub source_account : Option FaucetBinding
  pub target : Option FaucetBinding
  pub destination_account : Option FaucetBinding
  pub destination : String
  pub amount_micro_stx : String
  pub fee_micro_stx : String

pub record FaucetExecution : Type 0 where
  pub phase : String
  pub reason : String
  pub network_uid : String
  pub faucet_uid : String
  pub worker_uid : String
  pub process_nonce : String
  pub no_send : Bool
  pub txid : Bytes
  pub destination : String
  pub amount_micro_stx : String
  pub inclusion_block_id : Bytes
  pub observed_at : ℕ

-- `creation_timestamp` is 0 where `IsZero` holds.
pub record StacksFaucetRequest : Type 0 where
  pub timeout : String
  pub creation_timestamp : ℕ
  pub admission : Option FaucetAdmission
  pub execution : Option FaucetExecution

abbrev pub hour : ℕ
hour = 3_600_000_000_000

abbrev pub lifetime : ℕ → Option ℤ → Option ℕ
lifetime created none = none
lifetime created (some (negsuc n)) = none
lifetime created (some (pos d)) =
    if d == 0 || ltb hour d || created == 0 then none else some (created + d)

unfoldable pub deadline : (String → Option ℤ) → StacksFaucetRequest → Option ℕ
deadline parse_duration request =
    lifetime request.creation_timestamp (parse_duration request.timeout)

abbrev pub bound :
    FaucetAdmission → FaucetExecution → Option FaucetBinding → Option FaucetBinding → Bool
bound a e none worker = false
bound a e (some faucet) none = false
bound a e (some faucet) (some worker) =
    e.network_uid == a.network_uid
    && e.faucet_uid == faucet.uid
    && e.worker_uid == worker.uid
    && e.process_nonce /= ""
    && e.destination == a.destination
    && e.amount_micro_stx == a.amount_micro_stx

pub matching : Option FaucetAdmission → Option FaucetExecution → Bool
matching none e = false
matching (some a) none = false
matching (some a) (some e) = a.decision == "Admitted" && bound a e a.faucet a.worker

pub matching_execution : StacksFaucetRequest → Bool
unfolding matching
matching_execution request = matching request.admission request.execution

-- `RejectionReasonPrefix` followed by a reason that `rpc.ValidationRejectionReason` accepts.
abbrev pub native_refusal : String → Bool
native_refusal reason =
    reason == "RejectedFeeTooLow"
    || reason == "RejectedBadNonce"
    || reason == "RejectedConflictingNonceInMempool"
    || reason == "RejectedNotEnoughFunds"

-- A length of 64 in both identifiers.
abbrev pub has_hash : Bytes → Bool
has_hash b = length b == 64

pub terminal_execution : FaucetExecution → Bool
terminal_execution e =
    if e.phase == "Completed"
    then not e.no_send && has_hash e.txid && has_hash e.inclusion_block_id
    else if e.phase == "Rejected"
    then e.no_send && length e.txid == 0
      || not e.no_send
        && has_hash e.txid
        && (has_hash e.inclusion_block_id || native_refusal e.reason)
    else if e.phase == "Expired"
    then e.no_send && length e.txid == 0
    else false

-- `err != nil || !now.Before(deadline)`.
abbrev pub late : ℕ → Option ℕ → Bool
late now none = true
late now (some d) = leb d now

-- Of an admitted request whose evidence settles nothing.
pub unsettled_phase : FaucetExecution → Bool → String × String
unsettled_phase e expired =
    if expired
    then ("Inconclusive", "DeadlineOutcomeUnknown")
    else if e.phase == "Submitted"
    then ("Submitted", e.reason)
    else if e.phase == "Inconclusive"
    then ("Inconclusive", e.reason)
    else ("Pending", "AwaitingWorkerEvidence")

-- Of an admitted request; the evidence is there if it matches the admission.
pub admitted_phase : Option FaucetExecution → Bool → String × String
unfolding terminal_execution unsettled_phase
admitted_phase none expired =
    if expired
    then ("Inconclusive", "DeadlineOutcomeUnknown")
    else ("Pending", "AwaitingWorkerEvidence")
admitted_phase (some e) expired =
    if terminal_execution e then (e.phase, e.reason) else unsettled_phase e expired

-- `MatchingExecution`, with the evidence that it accepts.
pub evidence : StacksFaucetRequest → Option FaucetExecution
unfolding matching_execution
evidence request = if matching_execution request then request.execution else none

pub decided_phase :
    (String → Option ℤ) → StacksFaucetRequest → ℕ → Option FaucetAdmission → String × String
unfolding admitted_phase evidence deadline
decided_phase parse_duration request now none = ("Pending", "AdmissionPending")
decided_phase parse_duration request now (some a) =
    if a.decision == "Rejected" || a.decision == "Expired"
    then (a.decision, a.reason)
    else if a.decision /= "Admitted"
    then ("Pending", a.reason)
    else admitted_phase (evidence request) (late now (deadline parse_duration request))

pub project_phase : (String → Option ℤ) → StacksFaucetRequest → ℕ → String × String
unfolding decided_phase
project_phase parse_duration request now =
    decided_phase parse_duration request now request.admission
