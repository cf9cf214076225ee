-- ===== src/Worker/Settled.antt =====
-- What a disposal that ProjectSession records as Settled rests on.
use mathlib.Core.Option.{some_inj}
use stacks_k8s.Common.{
  String, ◌≡◌, refl, sym, ap, ◌∙◌, true, false, not, ◌||◌, Option, none, some, ◌/=◌, ◌==◌,
  string_eq, Bool-cases, inl, inr, if◌then◌else◌, arith,
}
use stacks_k8s.Common.Int.{ℤ, pos, ◌-ℤ◌, leb_ℤ, ltb_ℤ}
use stacks_k8s.Worker.{
  WorkerShutdown, WorkerDisposal, WorkerSession, WorkerExecutionStatus, StacksNetwork,
  StacksNetworkParticipant, Pod, PodRead, unavailable, absent, present, Inputs, terminal, owned_pod,
}
use stacks_k8s.Worker.Project.{
  shutdown_bound, exited_worker, running, protocol_failed, acknowledges, acknowledge, expire,
  draining, undisposed, observed, missing, read_worker, bound_worker,
}

-- The record that the worker's process wrote answers the shutdown, and has nothing pending.
pub record IsSettled (s : WorkerSession) (execution : Option WorkerExecutionStatus)
    (d : WorkerDisposal) : Type 0 where
  pub shutdown : WorkerShutdown
  pub requested : s.shutdown ≡ some shutdown
  pub record_of : WorkerExecutionStatus
  pub written : execution ≡ some record_of
  pub answers : acknowledges s shutdown record_of ≡ true
  pub settled : record_of.phase ≡ "Settled"
  pub nothing_pending : ltb_ℤ (pos 0) record_of.pending ≡ false
  pub nonce : d.process_nonce ≡ record_of.process_nonce

-- A disposal in the result is not Settled, or rests on that record.
abbrev pub Evidence : WorkerSession → Option WorkerExecutionStatus → Option WorkerDisposal → Type 0
Evidence s e after = (d : WorkerDisposal) → after ≡ some d → d.outcome ≡ "Settled" → IsSettled s e d

same-Evidence :
    (s : WorkerSession) (e : Option WorkerExecutionStatus)
    → s.disposal ≡ none
    → Evidence s e s.disposal
same-Evidence s e n d h o = absurd (ground (arith, n, h))

outcomes_differ : ◌≡◌ {A = String} "Unsettled" "Settled" → ⊥
outcomes_differ clash =
    let same = (string_eq.same_iff "Unsettled" "Settled").1 clash in absurd (cc same)

unsettled-Evidence :
    (s : WorkerSession) (e : Option WorkerExecutionStatus) (u : WorkerDisposal)
    → u.outcome ≡ "Unsettled"
    → Evidence s e (some u)
unsettled-Evidence s e u o d h k =
    let same : u ≡ d = some_inj.0 h in
    absurd (outcomes_differ (sym o ∙ ap (λ (x : WorkerDisposal). x.outcome) same ∙ k))

acknowledge-Evidence :
    (s : WorkerSession) (shutdown : WorkerShutdown) (e : WorkerExecutionStatus) (pod : Pod)
    → s.shutdown ≡ some shutdown
    → acknowledges s shutdown e ≡ true
    → Evidence s (some e) ((acknowledge s e pod).1.disposal)
unfolding acknowledge
acknowledge-Evidence s shutdown e pod q a d h o =
    let same = some_inj.0 h in
    let outcome : (if ltb_ℤ (pos 0) e.pending then "Unsettled" else e.phase) ≡ "Settled" =
      ap (λ (x : WorkerDisposal). x.outcome) same ∙ o in
    elim (Bool-cases (ltb_ℤ (pos 0) e.pending)) [
      | inl b ↦ absurd (outcomes_differ (rw b at outcome))
      | inr b ↦ record {
        shutdown = shutdown;
        requested = q;
        record_of = e;
        written = refl;
        answers = a;
        settled = rw b at outcome;
        nothing_pending = b;
        nonce = sym (ap (λ (x : WorkerDisposal). x.process_nonce) same);
      }
    ]

expire-Evidence :
    (s : WorkerSession) (e : Option WorkerExecutionStatus) (shutdown : WorkerShutdown) (pod : Pod)
    (now : ℤ)
    → s.disposal ≡ none
    → Evidence s e ((expire s shutdown pod now).1.disposal)
unfolding expire
expire-Evidence s e shutdown pod now n =
    elim (Bool-cases
      (terminal pod || pod.deleting || leb_ℤ shutdown_bound (now -ℤ shutdown.requested_at))) [
        | inl q ↦ rw q (unsettled-Evidence s e _ refl)
        | inr q ↦ rw q (same-Evidence s e n)
      ]

draining-Evidence :
    (s : WorkerSession) (shutdown : WorkerShutdown) (e : Option WorkerExecutionStatus) (pod : Pod)
    (now : ℤ)
    → s.shutdown ≡ some shutdown
    → s.disposal ≡ none
    → Evidence s e ((draining s shutdown e pod now).1.disposal)
unfolding draining
draining-Evidence s shutdown none pod now q n = expire-Evidence s none shutdown pod now n
draining-Evidence s shutdown (some e) pod now q n = elim (Bool-cases (acknowledges s shutdown e)) [
  | inl a ↦ rw a (acknowledge-Evidence s shutdown e pod q a)
  | inr a ↦ rw a (expire-Evidence s (some e) shutdown pod now n)
]

exited_worker-Evidence :
    (root : StacksNetwork) (s : WorkerSession) (e : Option WorkerExecutionStatus) (reason : String)
    (pod : Pod) (now : ℤ)
    → s.disposal ≡ none
    → Evidence s e ((exited_worker root s reason pod now).1.disposal)
unfolding exited_worker
exited_worker-Evidence root s e reason pod now n = elim (Bool-cases (reason /= "")) [
  | inl q ↦ rw q (unsettled-Evidence s e _ refl)
  | inr q ↦ rw q (same-Evidence s e n)
]

running-Evidence :
    (i : Inputs) (root : StacksNetwork) (p : StacksNetworkParticipant) (s : WorkerSession)
    (reason : String) (pod : Pod) (now : ℤ)
    → s.disposal ≡ none
    → Evidence s p.execution ((running i root p s reason pod now).1.disposal)
unfolding running
running-Evidence i root p s reason pod now n = elim (Bool-cases (pod.deleting || terminal pod)) [
  | inl q ↦ rw q (exited_worker-Evidence root s p.execution reason pod now n)
  | inr q ↦ elim (Bool-cases (reason /= "")) [
    | inl k ↦ rw (q, k) (λ d h o. absurd (ground (arith, n, h)))
    | inr k ↦ elim (Bool-cases (protocol_failed s p.execution)) [
      | inl f ↦ rw (q, k, f) (same-Evidence s p.execution n)
      | inr f ↦ elim (Bool-cases (not (i.profile_read pod))) [
        | inl g ↦ rw (q, k, f, g) (same-Evidence s p.execution n)
        | inr g ↦ rw (q, k, f, g) (same-Evidence s p.execution n)
      ]
    ]
  ]
]

undisposed-Evidence :
    (i : Inputs) (root : StacksNetwork) (p : StacksNetworkParticipant) (s : WorkerSession)
    (reason : String) (pod : Pod) (now : ℤ) (x : Option WorkerShutdown)
    → s.shutdown ≡ x
    → s.disposal ≡ none
    → Evidence s p.execution ((undisposed i root p s reason pod now x).1.disposal)
unfolding undisposed
undisposed-Evidence i root p s reason pod now none e n =
    running-Evidence i root p s reason pod now n
undisposed-Evidence i root p s reason pod now (some x) e n =
    draining-Evidence s x p.execution pod now e n

observed-Evidence :
    (i : Inputs) (root : StacksNetwork) (p : StacksNetworkParticipant) (s : WorkerSession)
    (reason : String) (pod : Pod) (now : ℤ) (x : Option WorkerDisposal)
    → s.disposal ≡ x
    → s.disposal ≡ none
    → Evidence s p.execution ((observed i root p s reason pod now x).1.disposal)
unfolding observed
observed-Evidence i root p s reason pod now none e n =
    undisposed-Evidence i root p s reason pod now s.shutdown refl n
observed-Evidence i root p s reason pod now (some x) e n = λ d h o. absurd (ground (arith, e, n))

missing-Evidence :
    (s : WorkerSession) (e : Option WorkerExecutionStatus)
    → s.disposal ≡ none
    → Evidence s e ((missing s).1.disposal)
unfolding missing
missing-Evidence s e n =
    elim (Bool-cases (elim s.disposal [ none ↦ false | some disposal ↦ disposal.terminated ])) [
      | inl q ↦ rw q (same-Evidence s e n)
      | inr q ↦ rw q (same-Evidence s e n)
    ]

read_worker-Evidence :
    (i : Inputs) (root : StacksNetwork) (p : StacksNetworkParticipant) (s : WorkerSession)
    (reason : String) (now : ℤ) (read : PodRead)
    → s.disposal ≡ none
    → Evidence s p.execution ((read_worker i root p s reason now read).1.disposal)
unfolding read_worker
read_worker-Evidence i root p s reason now unavailable n = missing-Evidence s p.execution n
read_worker-Evidence i root p s reason now absent n = missing-Evidence s p.execution n
read_worker-Evidence i root p s reason now (present pod) n =
    elim (Bool-cases (
      pod.uid /= s.pod.uid
      || not (owned_pod pod p)
      || pod.profile_annotation /= s.profile_digest)) [
        | inl q ↦ rw q (same-Evidence s p.execution n)
        | inr q ↦ rw q (observed-Evidence i root p s reason pod now s.disposal refl n)
      ]

-- A bound worker that had no disposal gets one with the outcome Settled only when a shutdown was
-- recorded before and the worker's own execution record answers it: written by the bound Pod, with
-- a process nonce, the session's profile, the shutdown's generation and reason, the phase Settled
-- and nothing pending. The disposal carries that record's nonce.
pub bound_worker-Evidence :
    (i : Inputs) (root : StacksNetwork) (p : StacksNetworkParticipant) (s : WorkerSession)
    (reason : String) (now : ℤ) (read : PodRead) (d : WorkerDisposal)
    → s.disposal ≡ none
    → (bound_worker i root p s reason now read).1.disposal ≡ some d
    → d.outcome ≡ "Settled"
    → IsSettled s p.execution d
unfolding bound_worker
bound_worker-Evidence i root p s reason now read d n =
    elim (Bool-cases (s.pod.uid == "" || s.pod.name /= i.worker_name || s.profile_digest == "")) [
      | inl q ↦ rw q (same-Evidence s p.execution n d)
      | inr q ↦ rw q (read_worker-Evidence i root p s reason now read n d)
    ]
