-- ===== src/Worker/Project.antt =====
-- ProjectSession of session.go: what a fresh read of a worker's Pod does to its retained session.
-- Each stage answers the fact and the identity after it; the ledger is put together at the end.
use stacks_k8s.Common.{
  String, Bool, true, false, not, ◌&&◌, ◌||◌, Option, none, some, List, [], ◌∷◌, ◌==◌, ◌/=◌,
  string_eq, if◌then◌else◌,
}
use stacks_k8s.Common.Int.{ℤ, pos, ◌-ℤ◌, leb_ℤ, ltb_ℤ, int_eq}
use stacks_k8s.Worker.{
  WorkerShutdown, WorkerDisposal, WorkerSession, InstanceIdentity, WorkerExecutionStatus,
  WorkerCandidate, StacksNetwork, StacksNetworkParticipant, Pod, PodRead, unavailable, absent,
  present, SessionFact, Inputs, Lookup, found, allocating, lost, session, network_failed,
  stopped_reason, terminal, terminated, owned_pod,
}

-- ShutdownBound: 30 seconds.
abbrev pub shutdown_bound : ℤ
shutdown_bound = pos 30_000_000_000

abbrev pub quiet : String → SessionFact
quiet reason = record { changed = false; failed = false; unknown = false; reason = reason }

abbrev pub fails : String → SessionFact
fails reason = record { changed = false; failed = true; unknown = false; reason = reason }

abbrev pub changes : String → SessionFact
changes reason = record { changed = true; failed = false; unknown = false; reason = reason }

abbrev pub unknowns : Bool → String → SessionFact
unknowns failed reason = record {
  changed = false;
  failed = failed;
  unknown = true;
  reason = reason;
}

abbrev Outcome : Type 0
Outcome = SessionFact × WorkerSession

-- A candidate's Pod that was read.
unfoldable pub bind_pod :
    Inputs → StacksNetworkParticipant → WorkerCandidate → Pod → SessionFact × Option WorkerSession
bind_pod i p candidate pod =
    if pod.name /= i.worker_name
      || candidate.pod.kind /= "Pod"
      || candidate.pod.name /= pod.name
      || candidate.pod.uid == ""
      || candidate.pod.uid /= pod.uid
      || not (owned_pod pod p)
      || pod.restart_policy /= "Never"
      || candidate.profile_digest == ""
      || pod.profile_annotation /= candidate.profile_digest
    then (fails "CandidateConflict", none)
    else if pod.deleting || terminal pod
    then (quiet "InactiveCandidateExited", none)
    else if not (i.profile_read pod)
    then (fails "CandidateProfileChanged", none)
    else (
      changes "WorkerBound",
      some (record {
        pod = candidate.pod;
        profile_digest = candidate.profile_digest;
        shutdown = none;
        disposal = none;
      }),
    )

unfoldable pub bind_candidate :
    Inputs
    → StacksNetworkParticipant
    → Option WorkerCandidate
    → PodRead
    → SessionFact × Option WorkerSession
unfolding bind_pod
bind_candidate i p none read = (quiet "CandidatePending", none)
bind_candidate i p (some candidate) unavailable = (unknowns false "CandidateUnavailable", none)
bind_candidate i p (some candidate) absent = (unknowns false "CandidateUnavailable", none)
bind_candidate i p (some candidate) (present pod) = bind_pod i p candidate pod

-- The worker is not bound yet.
unfoldable pub bind_worker :
    Inputs
    → StacksNetwork
    → StacksNetworkParticipant
    → InstanceIdentity
    → PodRead
    → SessionFact × Option WorkerSession
unfolding bind_candidate
bind_worker i root p id read =
    if elim p.execution [ none ↦ false | some execution ↦ execution.phase /= "Inactive" ]
    then (fails "WorkerBindingLost", none)
    else if stopped_reason root p id /= "" || root.operation /= "Running" || network_failed root
    then (quiet "ActivationHeld", none)
    else bind_candidate i p p.candidate read

-- A session that is disposed of.
unfoldable pub confirm : WorkerSession → WorkerDisposal → Pod → Outcome
confirm s d pod =
    if terminated pod && not d.terminated
    then (
      record {
        changed = true;
        failed = d.outcome == "Unsettled";
        unknown = false;
        reason = "WorkerTerminationConfirmed";
      },
      record s { disposal = some (record d { terminated = true }) },
    )
    else (
      record {
        changed = false;
        failed = d.outcome == "Unsettled";
        unknown = not d.terminated;
        reason = "WorkerDisposing";
      },
      s,
    )

abbrev unsettled : ℤ → Pod → WorkerDisposal
unsettled now pod = record {
  outcome = "Unsettled";
  process_nonce = "";
  observed_at = now;
  terminated = terminated pod;
}

abbrev requested : StacksNetwork → String → ℤ → WorkerShutdown
requested root reason now = record {
  network_generation = root.generation;
  reason = reason;
  requested_at = now;
}

-- The Pod of a session without shutdown or disposal has exited or is being deleted.
unfoldable pub exited_worker : StacksNetwork → WorkerSession → String → Pod → ℤ → Outcome
exited_worker root s reason pod now =
    if reason /= ""
    then (
      record {
        changed = true;
        failed = true;
        unknown = not (terminated pod);
        reason = "PriorWorkerExitUnsettled";
      },
      record s { shutdown = some (requested root reason now); disposal = some (unsettled now pod) },
    )
    else (
      record {
        changed = false;
        failed = true;
        unknown = not (terminated pod);
        reason = "BoundWorkerExited";
      },
      s,
    )

pub protocol_failed : WorkerSession → Option WorkerExecutionStatus → Bool
protocol_failed s none = false
protocol_failed s (some execution) =
    execution.pod_uid == s.pod.uid
    && execution.profile_digest == s.profile_digest
    && execution.phase == "Failed"

-- No shutdown is recorded yet.
unfoldable pub running :
    Inputs → StacksNetwork → StacksNetworkParticipant → WorkerSession → String → Pod → ℤ → Outcome
unfolding exited_worker protocol_failed
running i root p s reason pod now =
    if pod.deleting || terminal pod
    then exited_worker root s reason pod now
    else if reason /= ""
    then (
      changes "WorkerShutdownRequested",
      record s { shutdown = some (requested root reason now) },
    )
    else if protocol_failed s p.execution
    then (fails "WorkerProtocolFailed", s)
    else if not (i.profile_read pod)
    then (fails "WorkerProfileChanged", s)
    else (quiet "WorkerBound", s)

-- The execution record answers this shutdown of this process.
unfoldable pub acknowledges : WorkerSession → WorkerShutdown → WorkerExecutionStatus → Bool
acknowledges s shutdown execution =
    execution.pod_uid == s.pod.uid
    && execution.process_nonce /= ""
    && execution.profile_digest == s.profile_digest
    && execution.network_generation == shutdown.network_generation
    && execution.reason == shutdown.reason
    && (execution.phase == "Settled" || execution.phase == "Unsettled")

unfoldable pub acknowledge : WorkerSession → WorkerExecutionStatus → Pod → Outcome
acknowledge s execution pod =
    let outcome = if ltb_ℤ (pos 0) execution.pending then "Unsettled" else execution.phase in
    (
      record {
        changed = true;
        failed = outcome == "Unsettled";
        unknown = false;
        reason = "WorkerDisposalAcknowledged";
      },
      record s {
        disposal = some (record {
          outcome = outcome;
          process_nonce = execution.process_nonce;
          observed_at = execution.observed_at;
          terminated = terminated pod;
        });
      },
    )

unfoldable pub expire : WorkerSession → WorkerShutdown → Pod → ℤ → Outcome
expire s shutdown pod now =
    if terminal pod || pod.deleting || leb_ℤ shutdown_bound (now -ℤ shutdown.requested_at)
    then (
      record {
        changed = true;
        failed = true;
        unknown = not (terminated pod);
        reason = "WorkerSettlementUnconfirmed";
      },
      record s { disposal = some (unsettled now pod) },
    )
    else (quiet "WorkerDraining", s)

unfoldable pub draining :
    WorkerSession → WorkerShutdown → Option WorkerExecutionStatus → Pod → ℤ → Outcome
unfolding acknowledges acknowledge expire
draining s shutdown none pod now = expire s shutdown pod now
draining s shutdown (some execution) pod now =
    if acknowledges s shutdown execution
    then acknowledge s execution pod
    else expire s shutdown pod now

unfoldable pub undisposed :
    Inputs
    → StacksNetwork
    → StacksNetworkParticipant
    → WorkerSession
    → String
    → Pod
    → ℤ
    → Option WorkerShutdown
    → Outcome
unfolding running draining
undisposed i root p s reason pod now none = running i root p s reason pod now
undisposed i root p s reason pod now (some shutdown) = draining s shutdown p.execution pod now

unfoldable pub observed :
    Inputs
    → StacksNetwork
    → StacksNetworkParticipant
    → WorkerSession
    → String
    → Pod
    → ℤ
    → Option WorkerDisposal
    → Outcome
unfolding confirm undisposed
observed i root p s reason pod now (some disposal) = confirm s disposal pod
observed i root p s reason pod now none = undisposed i root p s reason pod now s.shutdown

-- The Pod of a bound session could not be read.
unfoldable pub missing : WorkerSession → Outcome
missing s =
    if elim s.disposal [ none ↦ false | some disposal ↦ disposal.terminated ]
    then (quiet "WorkerDisposed", s)
    else (unknowns true "BoundWorkerLost", s)

unfoldable pub read_worker :
    Inputs
    → StacksNetwork
    → StacksNetworkParticipant
    → WorkerSession
    → String
    → ℤ
    → PodRead
    → Outcome
unfolding missing observed
read_worker i root p s reason now unavailable = missing s
read_worker i root p s reason now absent = missing s
read_worker i root p s reason now (present pod) =
    if pod.uid /= s.pod.uid || not (owned_pod pod p) || pod.profile_annotation /= s.profile_digest
    then (unknowns true "BoundWorkerReplaced", s)
    else observed i root p s reason pod now s.disposal

-- The worker is bound.
unfoldable pub bound_worker :
    Inputs
    → StacksNetwork
    → StacksNetworkParticipant
    → WorkerSession
    → String
    → ℤ
    → PodRead
    → Outcome
unfolding read_worker
bound_worker i root p s reason now read =
    if s.pod.uid == "" || s.pod.name /= i.worker_name || s.profile_digest == ""
    then (fails "WorkerBindingCorrupt", s)
    else read_worker i root p s reason now read

unfoldable pub project_identity :
    Inputs
    → StacksNetwork
    → StacksNetworkParticipant
    → PodRead
    → ℤ
    → InstanceIdentity
    → Option WorkerSession
    → SessionFact × Option WorkerSession
unfolding bind_worker bound_worker
project_identity i root p read now id none = bind_worker i root p id read
project_identity i root p read now id (some s) =
    let r = bound_worker i root p s (stopped_reason root p id) now read in (r.0, some r.1)

-- The entry of the ledger that the lookup found.
unfoldable pub put_worker :
    StacksNetworkParticipant → Option WorkerSession → List InstanceIdentity → List InstanceIdentity
put_worker p w [] = []
put_worker p w (id ∷ ids) =
    let rest = put_worker p w ids in
    if id.name == p.participant_name then record id { worker = w } ∷ ids else id ∷ rest

unfoldable pub project_found :
    Inputs
    → StacksNetwork
    → StacksNetworkParticipant
    → PodRead
    → ℤ
    → Lookup
    → SessionFact × List InstanceIdentity
unfolding project_identity put_worker
project_found i root p read now allocating = (unknowns false "AllocationPending", root.identities)
project_found i root p read now (lost reason) = (fails "WorkerIdentityLost", root.identities)
project_found i root p unavailable now (found id) =
    (unknowns false "WorkerObservationUnavailable", root.identities)
project_found i root p absent now (found id) =
    let r = project_identity i root p absent now id id.worker in
    (r.0, put_worker p r.1 root.identities)
project_found i root p (present pod) now (found id) =
    let r = project_identity i root p (present pod) now id id.worker in
    (r.0, put_worker p r.1 root.identities)

unfoldable pub project_session :
    Inputs
    → StacksNetwork
    → StacksNetworkParticipant
    → PodRead
    → ℤ
    → SessionFact × List InstanceIdentity
unfolding session project_found
project_session i root p read now = project_found i root p read now (session i root p)
