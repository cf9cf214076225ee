-- ===== src/Bitcoin/Types.antt =====
-- The API values that the Bitcoin controllers read and write:
-- apis/network/bitcoin/v1alpha2/execution_types.go and apis/network/common/v1alpha2/types.go.
-- A `types.UID`, a name and an enumeration are texts; a hash is a list of bytes; an int32 or int64 is
-- an integer; a time is a number of nanoseconds since Go's zero time.
use stacks_k8s.Common.{
  ℕ, ◌≡◌, ◌↔◌, String, Bool, true, ◌&&◌, Option, List, arith, ◌==◌, Eq, string_eq,
}
use stacks_k8s.Common.Int.{ℤ}
use stacks_k8s.Encoding.Hex.{Bytes}
use text.Mathlib.TextEquality.{eq_iff}

pub record Binding : Type 0 where
  pub kind : String
  pub name : String
  pub uid : String
  pub fingerprint : String

abbrev pub binding_beq : Binding → Binding → Bool
binding_beq a b =
    a.kind == b.kind && a.name == b.name && a.uid == b.uid && a.fingerprint == b.fingerprint

pub binding_beq_iff : (a b : Binding) → (binding_beq a b ≡ true) ↔ (a ≡ b)
binding_beq_iff a b = (
  λ h. ground (
    arith,
    eq_iff a.kind b.kind,
    eq_iff a.name b.name,
    eq_iff a.uid b.uid,
    eq_iff a.fingerprint b.fingerprint,
  ),
  λ h. ground (
    arith,
    eq_iff a.kind b.kind,
    eq_iff a.name b.name,
    eq_iff a.uid b.uid,
    eq_iff a.fingerprint b.fingerprint,
  ),
)

instance abbrev pub binding_eq : Eq Binding
binding_eq = record { same = binding_beq; same_iff = binding_beq_iff }

-- What the controllers read of an object's metadata. `owner` is the UID of its controller reference.
pub record ObjectMeta : Type 0 where
  pub name : String
  pub uid : String
  pub generation : ℤ
  pub deletion_timestamp : Option ℕ
  pub owner : Option String

-- `omitempty` values are empty: count 0, mode "", no override, no target.
pub record BitcoinBlockOffer : Type 0 where
  pub count : ℤ
  pub override : Option Binding
  pub mode : String
  pub target : Option Binding
  pub initialization : Binding
  pub production : Binding
  pub policy_digest : String
  pub number : ℤ
  pub address : String
  pub wallet : Binding
  pub expected_height : ℤ
  pub expected_tip : Bytes
  pub ceiling : ℤ
  pub expires_at : ℕ

pub record BitcoinTargetIdentity : Type 0 where
  pub participant : Binding
  pub pod : Binding
  pub container_id : String
  pub endpoint : String
  pub configuration : Binding
  pub credentials : Binding
  pub policy_digest : String

pub record BitcoinWalletOperation : Type 0 where
  pub wallet : Binding
  pub name : String
  pub descriptor : String

pub record BitcoinArmedRpc : Type 0 where
  pub action : Option Binding
  pub address : String
  pub block_hash : Bytes
  pub id : String
  pub process_nonce : String
  pub reservation : Binding
  pub target : BitcoinTargetIdentity
  pub method : String
  pub wallet : Option BitcoinWalletOperation
  pub offer : Option BitcoinBlockOffer
  pub armed_at : ℕ

pub record BitcoinRpcReceipt : Type 0 where
  pub request : BitcoinArmedRpc
  pub received_at : ℕ
  pub block_hash : Bytes

pub record FrozenBitcoinWallet : Type 0 where
  pub wallet : Binding
  pub name : String
  pub address : String
  pub descriptor : String

pub record BitcoinInitializationSpec : Type 0 where
  pub network_uid : String
  pub genesis : Binding
  pub production : Binding
  pub target : Binding
  pub nodes : List Binding
  pub minimum_height : ℤ
  pub mature_outputs_per_miner : ℤ
  pub batch_generation : Bool
  pub miner_wallets : List FrozenBitcoinWallet
  pub payout_wallet : FrozenBitcoinWallet

pub record BitcoinFundingCount : Type 0 where
  pub wallet_uid : String
  pub outputs : ℤ

-- The part of the status that bootstrap scheduling and accounting keep.
pub record BitcoinInitializationStatus : Type 0 where
  pub production : Option Binding
  pub next_opportunity_at : Option ℕ
  pub offer : Option BitcoinBlockOffer
  pub last_accounted_offer : ℤ
  pub funded : List BitcoinFundingCount
  pub first_ceiling_observed_at : Option ℕ
  pub prepared_at : Option ℕ
  pub phase : String
  pub reason : String

pub record BitcoinInitialization : Type 0 where
  pub meta : ObjectMeta
  pub spec : BitcoinInitializationSpec
  pub status : BitcoinInitializationStatus

pub record BitcoinDrainStatus : Type 0 where
  pub process_nonce : String
  pub network_generation : ℤ
  pub reason : String
  pub requested_at : ℕ
  pub completed_at : ℕ
  pub outcome : String

-- The part of a finite action's reservation that draining reads and writes.
pub record BitcoinActionReservation : Type 0 where
  pub request : Binding
  pub reorganization : Bool
  pub stop_reason : String
  pub effect_uncertain : Bool
  pub invalidation_acknowledged : Bool
  pub cleanup_acknowledged : Bool
  pub cleanup_unsafe : Bool

pub record BitcoinControlAcknowledgement : Type 0 where
  pub network_generation : ℤ
  pub process_nonce : String
  pub operation : String
  pub observed_at : ℕ
  pub heartbeat_at : ℕ

pub record BitcoinExecutionSpec : Type 0 where
  pub network_uid : String
  pub participant : Binding
  pub offer : Option BitcoinBlockOffer

-- The part of the status that accounting and draining keep; `observed` is whether an observation
-- has been published.
pub record BitcoinExecutionStatus : Type 0 where
  pub action : Option BitcoinActionReservation
  pub armed : Option BitcoinArmedRpc
  pub last_receipt : Option BitcoinRpcReceipt
  pub completed_offer : ℤ
  pub drain : Option BitcoinDrainStatus
  pub control : Option BitcoinControlAcknowledgement
  pub observed : Bool
  pub phase : String

pub record BitcoinExecution : Type 0 where
  pub meta : ObjectMeta
  pub spec : BitcoinExecutionSpec
  pub status : BitcoinExecutionStatus

-- operators/network/internal/objectref: a reference captures a kind, a name and a UID.
abbrev pub capture : String → ObjectMeta → Binding
capture kind m = record { kind = kind; name = m.name; uid = m.uid; fingerprint = "" }
