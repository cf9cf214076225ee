-- ===== src/Worker/Steps.antt =====
-- Each stage of ProjectSession on a bound worker keeps its session.
use stacks_k8s.Common.{
  String, ◌≡◌, refl, true, false, not, ◌||◌, Option, none, some, ◌/=◌, ◌==◌, string_eq, Bool-cases,
  inl, inr,
}
use stacks_k8s.Common.Int.{ℤ, ◌-ℤ◌, leb_ℤ}
use stacks_k8s.Worker.{
  WorkerShutdown, WorkerDisposal, WorkerSession, WorkerExecutionStatus, StacksNetwork,
  StacksNetworkParticipant, Pod, PodRead, unavailable, absent, present, SessionFact, Inputs,
  terminal, owned_pod,
}
use stacks_k8s.Worker.Project.{
  shutdown_bound, exited_worker, running, protocol_failed, acknowledges, acknowledge, expire,
  draining, undisposed, observed, missing, read_worker, bound_worker,
}
use stacks_k8s.Worker.Retained.{
  KeptShutdown-refl, IsRetained, IsStep, same-IsStep, confirm-IsStep, added-IsRetained,
}

-- A result that changes the session, as the fact says.
changed-IsStep :
    (s t : WorkerSession) (fact : SessionFact)
    → fact.changed ≡ true
    → IsRetained s t
    → IsStep s (fact, t)
changed-IsStep s t fact c h = record { retained = h; unchanged = λ q. cc (c, q) }

exited_worker-IsStep :
    (root : StacksNetwork) (s : WorkerSession) (reason : String) (pod : Pod) (now : ℤ)
    → s.shutdown ≡ none
    → s.disposal ≡ none
    → IsStep s (exited_worker root s reason pod now)
unfolding exited_worker
exited_worker-IsStep root s reason pod now e d = elim (Bool-cases (reason /= "")) [
  | inl q ↦ rw q (changed-IsStep s _ _ refl (added-IsRetained s _ _ (rw e tt) d))
  | inr q ↦ rw q (same-IsStep s _)
]

running-IsStep :
    (i : Inputs) (root : StacksNetwork) (p : StacksNetworkParticipant) (s : WorkerSession)
    (reason : String) (pod : Pod) (now : ℤ)
    → s.shutdown ≡ none
    → s.disposal ≡ none
    → IsStep s (running i root p s reason pod now)
unfolding running
running-IsStep i root p s reason pod now e d = elim (Bool-cases (pod.deleting || terminal pod)) [
  | inl q ↦ rw q (exited_worker-IsStep root s reason pod now e d)
  | inr q ↦ elim (Bool-cases (reason /= "")) [
    | inl k ↦ rw (q, k) (changed-IsStep s _ _ refl (added-IsRetained s _ s.disposal (rw e tt) d))
    | inr k ↦ elim (Bool-cases (protocol_failed s p.execution)) [
      | inl f ↦ rw (q, k, f) (same-IsStep s _)
      | inr f ↦ elim (Bool-cases (not (i.profile_read pod))) [
        | inl g ↦ rw (q, k, f, g) (same-IsStep s _)
        | inr g ↦ rw (q, k, f, g) (same-IsStep s _)
      ]
    ]
  ]
]

expire-IsStep :
    (s : WorkerSession) (shutdown : WorkerShutdown) (pod : Pod) (now : ℤ)
    → s.disposal ≡ none
    → IsStep s (expire s shutdown pod now)
unfolding expire
expire-IsStep s shutdown pod now d =
    elim (Bool-cases
      (terminal pod || pod.deleting || leb_ℤ shutdown_bound (now -ℤ shutdown.requested_at))) [
        | inl q ↦ rw q (
            changed-IsStep s _ _ refl
              (added-IsRetained s s.shutdown _ (KeptShutdown-refl s.shutdown) d))
        | inr q ↦ rw q (same-IsStep s _)
      ]

draining-IsStep :
    (s : WorkerSession) (shutdown : WorkerShutdown) (e : Option WorkerExecutionStatus) (pod : Pod)
    (now : ℤ)
    → s.disposal ≡ none
    → IsStep s (draining s shutdown e pod now)
unfolding draining acknowledge
draining-IsStep s shutdown none pod now d = expire-IsStep s shutdown pod now d
draining-IsStep s shutdown (some e) pod now d = elim (Bool-cases (acknowledges s shutdown e)) [
  | inl q ↦
      rw q (
        changed-IsStep s _ _ refl
          (added-IsRetained s s.shutdown _ (KeptShutdown-refl s.shutdown) d))
  | inr q ↦ rw q (expire-IsStep s shutdown pod now d)
]

undisposed-IsStep :
    (i : Inputs) (root : StacksNetwork) (p : StacksNetworkParticipant) (s : WorkerSession)
    (reason : String) (pod : Pod) (now : ℤ) (x : Option WorkerShutdown)
    → s.shutdown ≡ x
    → s.disposal ≡ none
    → IsStep s (undisposed i root p s reason pod now x)
unfolding undisposed
undisposed-IsStep i root p s reason pod now none e d = running-IsStep i root p s reason pod now e d
undisposed-IsStep i root p s reason pod now (some x) e d = draining-IsStep s x p.execution pod now d

observed-IsStep :
    (i : Inputs) (root : StacksNetwork) (p : StacksNetworkParticipant) (s : WorkerSession)
    (reason : String) (pod : Pod) (now : ℤ) (x : Option WorkerDisposal)
    → s.disposal ≡ x
    → IsStep s (observed i root p s reason pod now x)
unfolding observed
observed-IsStep i root p s reason pod now (some x) d = confirm-IsStep s x pod d
observed-IsStep i root p s reason pod now none d =
    undisposed-IsStep i root p s reason pod now s.shutdown refl d

missing-IsStep : (s : WorkerSession) → IsStep s (missing s)
unfolding missing
missing-IsStep s =
    elim (Bool-cases (elim s.disposal [ none ↦ false | some disposal ↦ disposal.terminated ])) [
      | inl q ↦ rw q (same-IsStep s _)
      | inr q ↦ rw q (same-IsStep s _)
    ]

read_worker-IsStep :
    (i : Inputs) (root : StacksNetwork) (p : StacksNetworkParticipant) (s : WorkerSession)
    (reason : String) (now : ℤ) (read : PodRead)
    → IsStep s (read_worker i root p s reason now read)
unfolding read_worker
read_worker-IsStep i root p s reason now unavailable = missing-IsStep s
read_worker-IsStep i root p s reason now absent = missing-IsStep s
read_worker-IsStep i root p s reason now (present pod) =
    elim (Bool-cases (
      pod.uid /= s.pod.uid
      || not (owned_pod pod p)
      || pod.profile_annotation /= s.profile_digest)) [
        | inl q ↦ rw q (same-IsStep s _)
        | inr q ↦ rw q (observed-IsStep i root p s reason pod now s.disposal refl)
      ]

pub bound_worker-IsStep :
    (i : Inputs) (root : StacksNetwork) (p : StacksNetworkParticipant) (s : WorkerSession)
    (reason : String) (now : ℤ) (read : PodRead)
    → IsStep s (bound_worker i root p s reason now read)
unfolding bound_worker
bound_worker-IsStep i root p s reason now read =
    elim (Bool-cases (s.pod.uid == "" || s.pod.name /= i.worker_name || s.profile_digest == "")) [
      | inl q ↦ rw q (same-IsStep s _)
      | inr q ↦ rw q (read_worker-IsStep i root p s reason now read)
    ]
