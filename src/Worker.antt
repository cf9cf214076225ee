-- ===== src/Worker.antt =====
-- operators/network/internal/stacksworker: the retained session of one Stacks worker (session.go),
-- whose children have the actors' stop check (drain.go). Arguments are the answers of helpers that
-- hash names or read a profile from a Pod, of the ownership test of apimachinery, and of the API
-- server. A time is a number of nanoseconds since Go's zero time; a timestamp that may be nil is a Boolean.
pub mod Project
pub mod Retained
pub mod Steps
pub mod Ledger
pub mod Settled
pub mod Stop
pub mod Examples
use stacks_k8s.Common.{
  ℕ, String, Bool, true, false, not, ◌&&◌, ◌||◌, Option, none, some, List, [], ◌∷◌, length, ◌==◌,
  ◌/=◌, string_eq, nat_eq, if◌then◌else◌, any, is_some, is_none,
}
use stacks_k8s.Common.Int.{ℤ, pos, ◌-ℤ◌, leb_ℤ, ltb_ℤ, int_eq}

pub record WorkerPodBinding : Type 0 where
  pub kind : String
  pub name : String
  pub uid : String

pub record WorkerShutdown : Type 0 where
  pub network_generation : ℤ
  pub reason : String
  pub requested_at : ℤ

pub record WorkerDisposal : Type 0 where
  pub outcome : String
  pub process_nonce : String
  pub observed_at : ℤ
  pub terminated : Bool

pub record WorkerSession : Type 0 where
  pub pod : WorkerPodBinding
  pub profile_digest : String
  pub shutdown : Option WorkerShutdown
  pub disposal : Option WorkerDisposal

pub record InstanceIdentity : Type 0 where
  pub name : String
  pub uid : String
  pub removing : Bool
  pub worker : Option WorkerSession

pub record WorkerExecutionStatus : Type 0 where
  pub pod_uid : String
  pub process_nonce : String
  pub profile_digest : String
  pub network_generation : ℤ
  pub phase : String
  pub reason : String
  pub pending : ℤ
  pub observed_at : ℤ

pub record WorkerCandidate : Type 0 where
  pub pod : WorkerPodBinding
  pub profile_digest : String

pub record Entry : Type 0 where
  pub name : String
  pub kind : String

pub record Condition : Type 0 where
  pub type_name : String
  pub status : String

pub record StacksNetwork : Type 0 where
  pub uid : String
  pub namespace : String
  pub generation : ℤ
  pub deleting : Bool
  pub operation : String
  pub participants : List Entry
  pub phase : String
  pub conditions : List Condition
  pub identities : List InstanceIdentity

-- `candidate` is that of the runtime status, where there is one.
pub record StacksNetworkParticipant : Type 0 where
  pub name : String
  pub namespace : String
  pub uid : String
  pub deleting : Bool
  pub network_uid : String
  pub participant_name : String
  pub kind : String
  pub execution : Option WorkerExecutionStatus
  pub candidate : Option WorkerCandidate

pub record OwnerReference : Type 0 where
  pub api_version : String
  pub kind : String
  pub name : String
  pub uid : String

-- The reason of a container's `State.Terminated`, where it is set.
pub record ContainerStatus : Type 0 where
  pub name : String
  pub terminated : Option String

pub record Pod : Type 0 where
  pub name : String
  pub uid : String
  pub deleting : Bool
  pub owner : Option OwnerReference
  pub network_label : String
  pub participant_label : String
  pub restart_policy : String
  pub profile_annotation : String
  pub node_name : String
  pub phase : String
  pub containers : ℕ
  pub init_containers : ℕ
  pub ephemeral_containers : ℕ
  pub container_statuses : List ContainerStatus
  pub init_container_statuses : ℕ

-- The direct read of the Pod: an error other than NotFound, no Pod, or the Pod.
pub data PodRead : Type 0 where
  unavailable : PodRead
  absent : PodRead
  present : Pod → PodRead

pub record SessionFact : Type 0 where
  pub changed : Bool
  pub failed : Bool
  pub unknown : Bool
  pub reason : String

-- What is asked of code elsewhere: IsControlledBy(p, root), PendingWorkerAllocation(root, p), Name(p),
-- and whether profileFromPod reads the Pod.
pub record Inputs : Type 0 where
  pub controlled : Bool
  pub pending_allocation : Bool
  pub worker_name : String
  pub profile_read : Pod → Bool

pub data Lookup : Type 0 where
  found : InstanceIdentity → Lookup
  allocating : Lookup
  lost : String → Lookup

-- The loop over the ledger.
unfoldable pub find_identity : StacksNetworkParticipant → Lookup → List InstanceIdentity → Lookup
find_identity p missing [] = missing
find_identity p missing (id ∷ ids) =
    let rest = find_identity p missing ids in
    if id.name == p.participant_name
    then (if id.uid /= p.uid then lost "participant identity changed" else found id)
    else rest

unfoldable pub session : Inputs → StacksNetwork → StacksNetworkParticipant → Lookup
unfolding find_identity
session i root p =
    if root.uid /= p.network_uid || root.namespace /= p.namespace || not i.controlled
    then lost "network identity changed"
    else find_identity p
        (if i.pending_allocation then allocating else lost "participant identity ledger missing")
        root.identities

-- `failed`.
unfoldable pub network_failed : StacksNetwork → Bool
network_failed root =
    root.phase == "Failed"
    || any (λ c. c.type_name == "Failed" && c.status == "True") root.conditions

unfoldable pub stopped_reason : StacksNetwork → StacksNetworkParticipant → InstanceIdentity → String
stopped_reason root p id =
    if root.deleting
    then "NetworkDeleting"
    else if root.operation == "Stopped"
    then "NetworkStopped"
    else if p.deleting || id.removing
    then "ParticipantRemoved"
    else if any (λ e. e.name == p.participant_name && e.kind == p.kind) root.participants
    then ""
    else "ParticipantRemoved"

unfoldable pub terminal : Pod → Bool
terminal pod = pod.phase == "Succeeded" || pod.phase == "Failed"

exited : ContainerStatus → Bool
exited status =
    status.name == "worker"
    && elim status.terminated [ none ↦ false | some reason ↦ reason /= "ContainerStatusUnknown" ]

unfoldable pub terminated : Pod → Bool
unfolding terminal exited
terminated pod =
    if pod.deleting
      && pod.node_name == ""
      && length pod.container_statuses == 0
      && pod.init_container_statuses == 0
    then true
    else if not (terminal pod)
        || pod.containers /= 1
        || pod.init_containers /= 0
        || pod.ephemeral_containers /= 0
    then false
    else any exited pod.container_statuses

unfoldable pub owned_pod : Pod → StacksNetworkParticipant → Bool
owned_pod pod p = elim pod.owner [
  | none ↦ false
  | some owner ↦
      owner.api_version == "network.stacks.org/v1alpha2"
      && owner.kind == "StacksNetworkParticipant"
      && owner.name == p.name
      && owner.uid == p.uid
      && pod.network_label == p.network_uid
      && pod.participant_label == p.uid
]
