-- ===== src/Worker/Ledger.antt =====
-- The ledger of identities under ProjectSession, over any sequence of projections.
use mathlib.Core.Path.{subst}
use stacks_k8s.Common.{
  String, ◌≡◌, refl, sym, ap, ◌∙◌, Bool, true, false, not, ◌||◌, Option, none, some, List, [], ◌∷◌,
  ◌/=◌, ◌==◌, string_eq, Bool-cases, inl, inr, if◌then◌else◌, arith,
}
use stacks_k8s.Common.Int.{ℤ}
use stacks_k8s.Worker.{
  WorkerSession, InstanceIdentity, WorkerCandidate, StacksNetwork, StacksNetworkParticipant,
  PodRead, unavailable, absent, present, SessionFact, Inputs, Lookup, found, allocating, lost,
  find_identity, session, stopped_reason,
}
use stacks_k8s.Worker.Project.{
  bind_pod, bind_candidate, bind_worker, project_identity, put_worker, project_found,
  project_session,
}
use stacks_k8s.Worker.Retained.{IsRetained, IsRetained-refl, IsRetained-trans}
use stacks_k8s.Worker.Steps.{bound_worker-IsStep}

-- A bound worker stays bound, with its session retained.
abbrev pub KeptWorker : Option WorkerSession → Option WorkerSession → Type 0
KeptWorker none after = Unit
KeptWorker (some s) after = (t : WorkerSession) × (after ≡ some t) × IsRetained s t

pub record Kept (before after : InstanceIdentity) : Type 0 where
  pub name : after.name ≡ before.name
  pub uid : after.uid ≡ before.uid
  pub removing : after.removing ≡ before.removing
  pub worker : KeptWorker before.worker after.worker

-- Entry by entry.
pub data KeptLedger : List InstanceIdentity → List InstanceIdentity → Type 0 where
  kept_nothing : KeptLedger [] []
  kept_entry :
      {x y : InstanceIdentity} {xs ys : List InstanceIdentity}
      → Kept x y
      → KeptLedger xs ys
      → KeptLedger (x ∷ xs) (y ∷ ys)

KeptWorker-refl : (w : Option WorkerSession) → KeptWorker w w
KeptWorker-refl none = tt
KeptWorker-refl (some s) = (s, refl, IsRetained-refl s)

Kept-refl : (x : InstanceIdentity) → Kept x x
Kept-refl x = record { name = refl; uid = refl; removing = refl; worker = KeptWorker-refl x.worker }

KeptLedger-refl : (ids : List InstanceIdentity) → KeptLedger ids ids
KeptLedger-refl [] = kept_nothing
KeptLedger-refl (x ∷ xs) = kept_entry (Kept-refl x) (KeptLedger-refl xs)

KeptWorker-trans : (u v w : Option WorkerSession) → KeptWorker u v → KeptWorker v w → KeptWorker u w
KeptWorker-trans none v w h k = tt
KeptWorker-trans (some s) none w (t, h, _) k = cc
KeptWorker-trans (some s) (some v) w (t, h, r) (u, k, q) =
    let same : t ≡ v = cc h in (u, k, IsRetained-trans s v u (subst (IsRetained s) same r) q)

Kept-trans : (x y z : InstanceIdentity) → Kept x y → Kept y z → Kept x z
Kept-trans x y z h k = record {
  name = k.name ∙ h.name;
  uid = k.uid ∙ h.uid;
  removing = k.removing ∙ h.removing;
  worker = KeptWorker-trans x.worker y.worker z.worker h.worker k.worker;
}

KeptLedger-trans :
    {xs ys zs : List InstanceIdentity} → KeptLedger xs ys → KeptLedger ys zs → KeptLedger xs zs
KeptLedger-trans kept_nothing k = k
KeptLedger-trans (kept_entry h hs) (kept_entry k ks) =
    kept_entry (Kept-trans _ _ _ h k) (KeptLedger-trans hs ks)

-- Without a change nothing was bound.
abbrev Unbound : SessionFact × Option WorkerSession → Type 0
Unbound r = r.0.changed ≡ false → r.1 ≡ none

bind_candidate-Unbound :
    (i : Inputs) (p : StacksNetworkParticipant) (c : Option WorkerCandidate) (read : PodRead)
    → Unbound (bind_candidate i p c read)
unfolding bind_candidate bind_pod
bind_candidate-Unbound i p none read = λ h. refl
bind_candidate-Unbound i p (some c) unavailable = λ h. refl
bind_candidate-Unbound i p (some c) absent = λ h. refl
bind_candidate-Unbound i p (some c) (present pod) = λ h. ground (arith, h)

bind_worker-Unbound :
    (i : Inputs) (root : StacksNetwork) (p : StacksNetworkParticipant) (id : InstanceIdentity)
    (read : PodRead)
    → Unbound (bind_worker i root p id read)
unfolding bind_worker
bind_worker-Unbound i root p id read =
    λ h. ground (arith, h, bind_candidate-Unbound i p p.candidate read)

project_identity-Kept :
    (i : Inputs) (root : StacksNetwork) (p : StacksNetworkParticipant) (read : PodRead) (now : ℤ)
    (id : InstanceIdentity) (w : Option WorkerSession)
    → KeptWorker w (project_identity i root p read now id w).1
      × ((project_identity i root p read now id w).0.changed ≡ false
          → (project_identity i root p read now id w).1 ≡ w)
unfolding project_identity
project_identity-Kept i root p read now id none = (tt, bind_worker-Unbound i root p id read)
project_identity-Kept i root p read now id (some s) =
    let step = bound_worker-IsStep i root p s (stopped_reason root p id) now read in
    ((_, refl, step.retained), λ h. ap some (step.unchanged h))

put_worker-Kept :
    (p : StacksNetworkParticipant) (m : Lookup) (id : InstanceIdentity) (w : Option WorkerSession)
    (ids : List InstanceIdentity)
    → ((x : InstanceIdentity) → m ≡ found x → ⊥)
    → find_identity p m ids ≡ found id
    → KeptWorker id.worker w
    → KeptLedger ids (put_worker p w ids) × (w ≡ id.worker → put_worker p w ids ≡ ids)
unfolding find_identity put_worker
put_worker-Kept p m id w [] n h k = absurd (n id h)
put_worker-Kept p m id w (x ∷ ids) n h k = elim (Bool-cases (x.name == p.participant_name)) [
  | inr q ↦
      let (l, e) = put_worker-Kept p m id w ids n (rw q at h) k in
      rw q (kept_entry (Kept-refl x) l, λ u. ap (λ t. x ∷ t) (e u))
  | inl q ↦ elim (Bool-cases (x.uid /= p.uid)) [
    | inl d ↦ cc (rw (q, d) at h)
    | inr d ↦
        let same : x ≡ id = cc (rw (q, d) at h) in
        let worker = subst (λ y. KeptWorker y.worker w) (sym same) k in
        rw q (
          kept_entry (record { name = refl; uid = refl; removing = refl; worker = worker })
              (KeptLedger-refl ids),
          λ u.
              ap (λ (v : Option WorkerSession). record x { worker = v } ∷ ids)
                (u ∙ ap (λ (y : InstanceIdentity). y.worker) (sym same)),
        )
  ]
]

project_found-Kept :
    (i : Inputs) (root : StacksNetwork) (p : StacksNetworkParticipant) (read : PodRead) (now : ℤ)
    (m f : Lookup)
    → ((x : InstanceIdentity) → m ≡ found x → ⊥)
    → find_identity p m root.identities ≡ f
    → KeptLedger root.identities (project_found i root p read now f).1
      × ((project_found i root p read now f).0.changed ≡ false
          → (project_found i root p read now f).1 ≡ root.identities)
unfolding project_found
project_found-Kept i root p read now m allocating n h = (KeptLedger-refl root.identities, λ u. refl)
project_found-Kept i root p read now m (lost reason) n h =
    (KeptLedger-refl root.identities, λ u. refl)
project_found-Kept i root p unavailable now m (found id) n h =
    (KeptLedger-refl root.identities, λ u. refl)
project_found-Kept i root p absent now m (found id) n h =
    let (k, u) = project_identity-Kept i root p absent now id id.worker in
    let (l, e) = put_worker-Kept p m id _ root.identities n h k in (l, λ c. e (u c))
project_found-Kept i root p (present pod) now m (found id) n h =
    let (k, u) = project_identity-Kept i root p (present pod) now id id.worker in
    let (l, e) = put_worker-Kept p m id _ root.identities n h k in (l, λ c. e (u c))

lost-Kept :
    (i : Inputs) (root : StacksNetwork) (p : StacksNetworkParticipant) (read : PodRead) (now : ℤ)
    (reason : String)
    → KeptLedger root.identities (project_found i root p read now (lost reason)).1
      × ((project_found i root p read now (lost reason)).0.changed ≡ false
          → (project_found i root p read now (lost reason)).1 ≡ root.identities)
unfolding project_found
lost-Kept i root p read now reason = (KeptLedger-refl root.identities, λ u. refl)

none_found :
    (b : Bool) (x : InstanceIdentity)
    → (if b then allocating else lost "participant identity ledger missing") ≡ found x
    → ⊥
none_found true x h = absurd (cc h)
none_found false x h = absurd (cc h)

-- A projection keeps the ledger: the same identities in the same order, and every bound worker with
-- its Pod, its profile, its recorded shutdown and its recorded disposal, of which at most the
-- termination becomes known. When it does not ask for the ledger to be written, it has not changed
-- it.
pub project_session-KeptLedger :
    (i : Inputs) (root : StacksNetwork) (p : StacksNetworkParticipant) (read : PodRead) (now : ℤ)
    → KeptLedger root.identities (project_session i root p read now).1
      × ((project_session i root p read now).0.changed ≡ false
          → (project_session i root p read now).1 ≡ root.identities)
unfolding project_session session
project_session-KeptLedger i root p read now =
    let missing =
      if i.pending_allocation then allocating else lost "participant identity ledger missing" in
    elim (Bool-cases
      (root.uid /= p.network_uid || root.namespace /= p.namespace || not i.controlled)) [
        | inl q ↦ rw q (lost-Kept i root p read now "network identity changed")
        | inr q ↦ rw q (
            project_found-Kept i root p read now missing (find_identity p missing root.identities)
              (none_found i.pending_allocation) refl)
      ]

-- One projection of a worker: everything but the ledger may differ from one to the next.
pub record Projection : Type 0 where
  pub inputs : Inputs
  pub root : StacksNetwork
  pub participant : StacksNetworkParticipant
  pub read : PodRead
  pub now : ℤ

pub project_all : List Projection → List InstanceIdentity → List InstanceIdentity
project_all [] ids = ids
project_all (x ∷ xs) ids =
    project_all xs
      (project_session x.inputs (record x.root { identities = ids }) x.participant x.read x.now).1

-- Over any sequence of projections, of any participants and any reads, the ledger keeps every
-- identity, and every worker that was bound keeps its session: no worker is rebound, no shutdown is
-- taken back or restated, and no disposal's outcome changes.
pub project_all-KeptLedger :
    (xs : List Projection) (ids : List InstanceIdentity) → KeptLedger ids (project_all xs ids)
unfolding project_all
project_all-KeptLedger [] ids = KeptLedger-refl ids
project_all-KeptLedger (x ∷ xs) ids =
    KeptLedger-trans
      (project_session-KeptLedger x.inputs (record x.root { identities = ids }) x.participant x.read
        x.now).0
      (project_all-KeptLedger xs _)
