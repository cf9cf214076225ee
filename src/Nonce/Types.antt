-- ===== src/Nonce/Types.antt =====
-- The data of one account's nonce stream: operators/network/internal/stacksoperation/nonce.go,
-- apis/network/v1alpha2/operation_types.go and pox_types.go, and what libs/stacks answers.
use stacks_k8s.Common.{ℕ, String, Bool, Option, none, some, Result}
use stacks_k8s.Common.Int.{ℤ}
use stacks_k8s.Encoding.Hex.{Bytes}

pub record Transaction : Type 0 where
  pub bytes : Bytes
  pub txid : Bytes

-- libs/stacks/rpc: a matched native refusal of one submission.
pub record SubmissionRejection : Type 0 where
  pub reason : String
  pub txid : Bytes

pub record Account : Type 0 where
  pub nonce : ℕ
  pub balance : Option ℤ
  pub locked : Option ℤ
  pub unlock_height : ℕ

pub record Inclusion : Type 0 where
  pub found : Bool
  pub success : Bool
  pub block_id : String

-- `failed` is an error that is no `SubmissionRejection`.
pub data SubmitAnswer : Type 0 where
  accepted : SubmitAnswer
  refused : SubmissionRejection → SubmitAnswer
  failed : SubmitAnswer

-- The interface value of a node is known by a number; what it answers is the environment's.
abbrev pub NodeRef : Type 0
NodeRef = ℕ

pub record World : Type 0 where
  pub account : NodeRef → String → Result Account
  pub inclusion : NodeRef → Bytes → Result Inclusion
  pub submit : NodeRef → Transaction → SubmitAnswer

pub record TransactionInclusion : Type 0 where
  pub txid : Bytes
  pub block_id : String
  pub success : Bool
  pub observed_at : ℕ

pub record TransactionPostcondition : Type 0 where
  pub txid : Bytes
  pub kind : String
  pub state_digest : Bytes
  pub stacks_tip : Bytes
  pub observed_at : ℕ

pub record TransactionExecutionStatus : Type 0 where
  pub offered : ℕ
  pub accepted : ℕ
  pub included : ℕ
  pub rejected : ℕ
  pub uncertain : ℕ
  pub postcondition_observed : ℕ
  pub last_postcondition : Option TransactionPostcondition
  pub last_txid : Bytes
  pub last_inclusion : Option TransactionInclusion

pub record PendingSubmission : Type 0 where
  pub node : NodeRef
  pub transaction : Transaction
  pub nonce : ℕ

pub record NonceStream : Type 0 where
  pub address : String
  pub next : ℕ
  pub initialized : Bool
  pub exhausted : Bool
  pub pending : Option PendingSubmission
  pub facts : TransactionExecutionStatus
  pub retry_at : ℕ
  pub rejection_reason : String

-- The stream after a call, what the call sent, and Go's `(string, error)`.
pub record Outcome : Type 0 where
  pub stream : NonceStream
  pub sent : Option (NodeRef × Transaction)
  pub reason : String
  pub error : Option String

abbrev pub hold : NonceStream → String → Outcome
hold s reason = record { stream = s; sent = none; reason = reason; error = none }

abbrev pub fail : NonceStream → String → String → Outcome
fail s reason message = record { stream = s; sent = none; reason = reason; error = some message }
