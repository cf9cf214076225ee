-- ===== src/Worker/Stop.antt =====
-- CheckActorStop of drain.go: whether a Stacks node or signer may stop, from the retained sessions.
-- The root is read by the API server; a time is counted from Go's zero time.
use stacks_k8s.Common.{
  ◌≡◌, refl, ap, ◌∙◌, Bool, true, false, not, ◌&&◌, ◌||◌, Option, none, some, List, [], ◌∷◌, ◌==◌,
  ◌/=◌, All, arith, Bool-cases, inl, inr, string_eq, if◌then◌else◌, Result, ok, err, ◌>>=◌,
  >>=-eq-ok, guard-eq-ok, ◌⊎◌,
}
use stacks_k8s.Common.Int.{pos, ltb_ℤ, int_eq}
use stacks_k8s.Worker.{
  WorkerShutdown, WorkerDisposal, WorkerSession, InstanceIdentity, StacksNetwork,
  StacksNetworkParticipant, OwnerReference, Inputs, Lookup, found, allocating, lost, session,
}

unfoldable pub unidentified : InstanceIdentity → WorkerSession → Bool
unidentified id s =
    id.uid == ""
    || id.name == ""
    || s.pod.kind /= "Pod"
    || s.pod.name == ""
    || s.pod.uid == ""
    || s.profile_digest == ""

unfoldable pub undisposed_shutdown : Option WorkerShutdown → Bool
undisposed_shutdown none = true
undisposed_shutdown (some shutdown) =
    ltb_ℤ shutdown.network_generation (pos 1)
    || shutdown.reason /= "NetworkStopped"
      && shutdown.reason /= "NetworkDeleting"
      && shutdown.reason /= "ParticipantRemoved"
    || shutdown.requested_at == pos 0

unfoldable pub unstated : WorkerSession → WorkerDisposal → Bool
unfolding undisposed_shutdown
unstated s d =
    undisposed_shutdown s.shutdown
    || d.observed_at == pos 0
    || d.outcome /= "Settled" && d.outcome /= "Unsettled"

-- One retained session: refused, still to be waited for, or disposed of.
unfoldable pub check_disposal : WorkerSession → Option WorkerDisposal → Result Bool
unfolding unstated
check_disposal s none = ok false
check_disposal s (some d) =
    if unstated s d then err "retained worker disposition unavailable" else ok true

unfoldable pub check_worker : InstanceIdentity → Option WorkerSession → Result Bool
unfolding unidentified check_disposal
check_worker id none = ok true
check_worker id (some s) =
    if unidentified id s
    then err "retained worker identity unavailable"
    else check_disposal s s.disposal

-- The loop over the ledger.
unfoldable pub check_workers : List InstanceIdentity → Result Bool
unfolding check_worker
check_workers [] = ok true
check_workers (id ∷ ids) =
    let rest = check_workers ids in
    check_worker id id.worker >>= λ disposed. if disposed then rest else ok false

unfoldable pub check_root : Inputs → StacksNetwork → StacksNetworkParticipant → Lookup → Result Bool
unfolding check_workers
check_root i root actor allocating = err "participant identity publication pending"
check_root i root actor (lost reason) = err reason
check_root i root actor (found id) =
    if root.operation /= "Stopped" && not root.deleting
    then ok true
    else check_workers root.identities

unfoldable pub unowned : StacksNetwork → Option OwnerReference → Bool
unowned root none = true
unowned root (some owner) =
    root.uid == ""
    || owner.api_version /= "network.stacks.org/v1alpha2"
    || owner.kind /= "StacksNetwork"
    || owner.name /= "network"

unfoldable pub check_actor_stop :
    Inputs → Result StacksNetwork → Option OwnerReference → StacksNetworkParticipant → Result Bool
unfolding check_root unowned session
check_actor_stop i read owner actor =
    if actor.kind /= "StacksNode" && actor.kind /= "StacksSigner"
    then err "unsupported Stacks actor kind"
    else read >>= λ root.
        if unowned root owner
        then err "actor root ownership unavailable"
        else check_root i root actor (session i root actor)

-- A worker that was never bound, or whose shutdown and disposal are recorded and stated.
abbrev pub Disposed : Option WorkerSession → Type 0
Disposed none = Unit
Disposed (some s) =
    (shutdown : WorkerShutdown) × (d : WorkerDisposal) × (s.shutdown ≡ some shutdown)
    × (s.disposal ≡ some d)
    × ((d.outcome == "Settled" || d.outcome == "Unsettled") ≡ true)

check_disposal-Disposed :
    (s : WorkerSession) (x : Option WorkerShutdown) (y : Option WorkerDisposal)
    → s.shutdown ≡ x
    → s.disposal ≡ y
    → check_disposal s y ≡ ok true
    → Disposed (some s)
unfolding check_disposal
check_disposal-Disposed s x none e f h = cc
check_disposal-Disposed s none (some d) e f h =
    absurd (ground (arith, e, (guard-eq-ok (unstated s d) _ _ h).0))
check_disposal-Disposed s (some x) (some d) e f h =
    (x, d, e, f, ground (arith, (guard-eq-ok (unstated s d) _ _ h).0))

check_worker-Disposed :
    (id : InstanceIdentity) (w : Option WorkerSession) → check_worker id w ≡ ok true → Disposed w
unfolding check_worker
check_worker-Disposed id none h = tt
check_worker-Disposed id (some s) h =
    check_disposal-Disposed s s.shutdown s.disposal refl refl
      (guard-eq-ok (unidentified id s) _ _ h).1

check_workers-Disposed :
    (ids : List InstanceIdentity) → check_workers ids ≡ ok true → All (λ id. Disposed id.worker) ids
unfolding check_workers
check_workers-Disposed [] h = tt
check_workers-Disposed (id ∷ ids) h =
    let (disposed, first, rest) =
      >>=-eq-ok (check_worker id id.worker)
        (λ disposed. if disposed then check_workers ids else ok false) h in
    elim (Bool-cases disposed) [
      | inl e ↦ (
        check_worker-Disposed id id.worker (first ∙ ap ok e),
        check_workers-Disposed ids (rw e at rest),
      )
      | inr e ↦ cc (rw e at rest)
    ]

check_root-Disposed :
    (i : Inputs) (root : StacksNetwork) (actor : StacksNetworkParticipant) (f : Lookup)
    → check_root i root actor f ≡ ok true
    → ((root.operation /= "Stopped" && not root.deleting) ≡ true)
      ⊎ All (λ id. Disposed id.worker) root.identities
unfolding check_root
check_root-Disposed i root actor allocating h = cc
check_root-Disposed i root actor (lost reason) h = cc
check_root-Disposed i root actor (found id) h =
    elim (Bool-cases (root.operation /= "Stopped" && not root.deleting)) [
      | inl e ↦ inl e
      | inr e ↦ inr (check_workers-Disposed root.identities (rw e at h))
    ]

-- An actor may stop only on a root that was read, and of a root that is stopped or being deleted
-- only when every retained worker has its shutdown and its disposal recorded, with an outcome that
-- is Settled or Unsettled.
pub check_actor_stop-Disposed :
    (i : Inputs) (read : Result StacksNetwork) (owner : Option OwnerReference)
    (actor : StacksNetworkParticipant)
    → check_actor_stop i read owner actor ≡ ok true
    → (root : StacksNetwork) × (read ≡ ok root)
      × (((root.operation /= "Stopped" && not root.deleting) ≡ true)
          ⊎ All (λ id. Disposed id.worker) root.identities)
unfolding check_actor_stop
check_actor_stop-Disposed i read owner actor h =
    let (_, run) = guard-eq-ok (actor.kind /= "StacksNode" && actor.kind /= "StacksSigner") _ _ h in
    let (root, got, owned) =
      >>=-eq-ok read
        (λ root.
          if unowned root owner
          then err "actor root ownership unavailable"
          else check_root i root actor (session i root actor))
        run in
    (
      root,
      got,
      check_root-Disposed i root actor (session i root actor)
          (guard-eq-ok (unowned root owner) _ _ owned).1,
    )
