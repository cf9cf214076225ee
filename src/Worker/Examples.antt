-- ===== src/Worker/Examples.antt =====
-- One worker: bound, asked to shut down when the network stops, and disposed of on its answer.
use stacks_k8s.Common.{
  ◌≡◌, refl, true, false, not, ◌&&◌, none, some, [], ◌∷◌, ◌/=◌, string_eq, All, Result, ok, ◌⊎◌,
}
use stacks_k8s.Common.Int.{pos}
use stacks_k8s.Worker.{
  WorkerShutdown, WorkerDisposal, WorkerSession, WorkerExecutionStatus, StacksNetwork,
  StacksNetworkParticipant, OwnerReference, Pod, present, Inputs, owned_pod, terminated,
}
use stacks_k8s.Worker.Project.{bound_worker, project_session}
use stacks_k8s.Worker.Ledger.{
  KeptLedger, project_session-KeptLedger, Projection, project_all, project_all-KeptLedger,
}
use stacks_k8s.Worker.Settled.{IsSettled, bound_worker-Evidence}
use stacks_k8s.Worker.Stop.{check_actor_stop, Disposed, check_actor_stop-Disposed}

abbrev sample_inputs : Inputs
sample_inputs = record {
  controlled = true;
  pending_allocation = false;
  worker_name = "w";
  profile_read = λ pod. true;
}

abbrev sample_pod : Pod
sample_pod = record {
  name = "w";
  uid = "pod-1";
  deleting = false;
  owner = some (record {
    api_version = "network.stacks.org/v1alpha2";
    kind = "StacksNetworkParticipant";
    name = "p";
    uid = "u";
  });
  network_label = "n";
  participant_label = "u";
  restart_policy = "Never";
  profile_annotation = "sha256:1";
  node_name = "node";
  phase = "Running";
  containers = 1;
  init_containers = 0;
  ephemeral_containers = 0;
  container_statuses = [];
  init_container_statuses = 0;
}

abbrev asked : WorkerShutdown
asked = record { network_generation = pos 4; reason = "NetworkStopped"; requested_at = pos 100 }

abbrev asked_session : WorkerSession
asked_session = record {
  pod = record { kind = "Pod"; name = "w"; uid = "pod-1" };
  profile_digest = "sha256:1";
  shutdown = some asked;
  disposal = none;
}

abbrev answer : WorkerExecutionStatus
answer = record {
  pod_uid = "pod-1";
  process_nonce = "nonce";
  profile_digest = "sha256:1";
  network_generation = pos 4;
  phase = "Settled";
  reason = "NetworkStopped";
  pending = pos 0;
  observed_at = pos 200;
}

abbrev sample_participant : StacksNetworkParticipant
sample_participant = record {
  name = "p";
  namespace = "ns";
  uid = "u";
  deleting = false;
  network_uid = "n";
  participant_name = "stacker";
  kind = "StacksStacker";
  execution = some answer;
  candidate = none;
}

abbrev with_session : WorkerSession → StacksNetwork
with_session s = record {
  uid = "n";
  namespace = "ns";
  generation = pos 4;
  deleting = false;
  operation = "Stopped";
  participants = record { name = "stacker"; kind = "StacksStacker" } ∷ [];
  phase = "Running";
  conditions = [];
  identities =
      record { name = "node"; uid = "v"; removing = false; worker = none }
      ∷ record { name = "stacker"; uid = "u"; removing = false; worker = some s }
      ∷ [];
}

abbrev settled_disposal : WorkerDisposal
settled_disposal = record {
  outcome = "Settled";
  process_nonce = "nonce";
  observed_at = pos 200;
  terminated = false;
}

abbrev settled_session : WorkerSession
settled_session = record asked_session { disposal = some settled_disposal }

-- The answer is taken for the disposal.
answered :
    (project_session sample_inputs
      (with_session asked_session)
      sample_participant
      (present sample_pod)
      (pos 300)).1
    ≡ (with_session settled_session).identities
unfolding project_session owned_pod terminated
answered = refl

project_session-KeptLedger_example :
    KeptLedger
      (with_session asked_session).identities
      (project_session sample_inputs
        (with_session asked_session)
        sample_participant
        (present sample_pod)
        (pos 300)).1
    × ((project_session sample_inputs
            (with_session asked_session)
            sample_participant
            (present sample_pod)
            (pos 300)).0.changed
          ≡ false
        → (project_session sample_inputs
            (with_session asked_session)
            sample_participant
            (present sample_pod)
            (pos 300)).1
          ≡ (with_session asked_session).identities)
project_session-KeptLedger_example =
    project_session-KeptLedger sample_inputs (with_session asked_session) sample_participant
      (present sample_pod) (pos 300)

abbrev sample_projection : Projection
sample_projection = record {
  inputs = sample_inputs;
  root = with_session asked_session;
  participant = sample_participant;
  read = present sample_pod;
  now = pos 300;
}

project_all-KeptLedger_example : KeptLedger (with_session asked_session).identities (
    project_all
      (sample_projection ∷ sample_projection ∷ [])
      (with_session asked_session).identities)
project_all-KeptLedger_example =
    project_all-KeptLedger (sample_projection ∷ sample_projection ∷ [])
      (with_session asked_session).identities

settled_after :
    (bound_worker sample_inputs
      (with_session asked_session)
      sample_participant
      asked_session
      "NetworkStopped"
      (pos 300)
      (present sample_pod)).1.disposal
    ≡ some settled_disposal
unfolding bound_worker owned_pod terminated
settled_after = refl

bound_worker-Evidence_example : IsSettled asked_session (some answer) settled_disposal
bound_worker-Evidence_example =
    bound_worker-Evidence sample_inputs (with_session asked_session) sample_participant
      asked_session "NetworkStopped" (pos 300) (present sample_pod) settled_disposal refl
      settled_after refl

abbrev sample_actor : StacksNetworkParticipant
sample_actor = record sample_participant {
  name = "node-1";
  uid = "v";
  participant_name = "node";
  kind = "StacksNode";
}

abbrev sample_owner : OwnerReference
sample_owner = record {
  api_version = "network.stacks.org/v1alpha2";
  kind = "StacksNetwork";
  name = "network";
  uid = "n";
}

released :
    check_actor_stop sample_inputs
      (ok (with_session settled_session))
      (some sample_owner)
      sample_actor
    ≡ ok true
unfolding check_actor_stop
released = refl

check_actor_stop-Disposed_example :
    (root : StacksNetwork) × (◌≡◌ {A = Result StacksNetwork}
      (ok (with_session settled_session))
      (ok root))
    × (((root.operation /= "Stopped" && not root.deleting) ≡ true)
        ⊎ All (λ id. Disposed id.worker) root.identities)
check_actor_stop-Disposed_example =
    check_actor_stop-Disposed sample_inputs (ok (with_session settled_session)) (some sample_owner)
      sample_actor released
