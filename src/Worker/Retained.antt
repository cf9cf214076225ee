-- ===== src/Worker/Retained.antt =====
-- A projection retains the session of a bound worker: nothing of it is replaced or taken back.
use stacks_k8s.Common.{
  ◌≡◌, refl, ◌∙◌, true, false, not, ◌&&◌, Option, none, some, string_eq, Bool-cases, inl, inr,
}
use stacks_k8s.Worker.{WorkerShutdown, WorkerDisposal, WorkerSession, Pod, SessionFact, terminated}
use stacks_k8s.Worker.Project.{confirm}

-- A shutdown that is recorded stays as it is.
abbrev pub KeptShutdown : Option WorkerShutdown → Option WorkerShutdown → Type 0
KeptShutdown none after = Unit
KeptShutdown (some shutdown) after = after ≡ some shutdown

-- A disposal stays, but that its termination may become known.
pub record SameDisposal (before after : WorkerDisposal) : Type 0 where
  pub outcome : after.outcome ≡ before.outcome
  pub process_nonce : after.process_nonce ≡ before.process_nonce
  pub observed_at : after.observed_at ≡ before.observed_at
  pub terminated : before.terminated ≡ true → after.terminated ≡ true

abbrev pub KeptDisposal : Option WorkerDisposal → Option WorkerDisposal → Type 0
KeptDisposal none after = Unit
KeptDisposal (some before) after = (d : WorkerDisposal) × (after ≡ some d) × SameDisposal before d

pub record IsRetained (before after : WorkerSession) : Type 0 where
  pub pod : after.pod ≡ before.pod
  pub profile_digest : after.profile_digest ≡ before.profile_digest
  pub shutdown : KeptShutdown before.shutdown after.shutdown
  pub disposal : KeptDisposal before.disposal after.disposal

pub KeptShutdown-refl : (x : Option WorkerShutdown) → KeptShutdown x x
KeptShutdown-refl none = tt
KeptShutdown-refl (some x) = refl

SameDisposal-refl : (d : WorkerDisposal) → SameDisposal d d
SameDisposal-refl d = record {
  outcome = refl;
  process_nonce = refl;
  observed_at = refl;
  terminated = λ h. h;
}

pub KeptDisposal-refl : (x : Option WorkerDisposal) → KeptDisposal x x
KeptDisposal-refl none = tt
KeptDisposal-refl (some d) = (d, refl, SameDisposal-refl d)

pub IsRetained-refl : (s : WorkerSession) → IsRetained s s
IsRetained-refl s = record {
  pod = refl;
  profile_digest = refl;
  shutdown = KeptShutdown-refl s.shutdown;
  disposal = KeptDisposal-refl s.disposal;
}

KeptShutdown-trans :
    (x y z : Option WorkerShutdown) → KeptShutdown x y → KeptShutdown y z → KeptShutdown x z
KeptShutdown-trans none y z h k = tt
KeptShutdown-trans (some a) none z h k = cc
KeptShutdown-trans (some a) (some b) z h k = k ∙ h

KeptDisposal-trans :
    (x y z : Option WorkerDisposal) → KeptDisposal x y → KeptDisposal y z → KeptDisposal x z
KeptDisposal-trans none y z h k = tt
KeptDisposal-trans (some a) none z (d, h, _) k = cc
KeptDisposal-trans (some a) (some b) z (d, h, s) (e, k, t) =
    let same : b ≡ d = cc h in
    (
      e,
      k,
      record {
        outcome = cc (t.outcome, s.outcome, same);
        process_nonce = cc (t.process_nonce, s.process_nonce, same);
        observed_at = cc (t.observed_at, s.observed_at, same);
        terminated = λ q. t.terminated (cc (s.terminated q, same));
      },
    )

pub IsRetained-trans : (s t u : WorkerSession) → IsRetained s t → IsRetained t u → IsRetained s u
IsRetained-trans s t u h k = record {
  pod = k.pod ∙ h.pod;
  profile_digest = k.profile_digest ∙ h.profile_digest;
  shutdown = KeptShutdown-trans s.shutdown t.shutdown u.shutdown h.shutdown k.shutdown;
  disposal = KeptDisposal-trans s.disposal t.disposal u.disposal h.disposal k.disposal;
}

-- What holds of one projection of a bound session.
pub record IsStep (s : WorkerSession) (r : SessionFact × WorkerSession) : Type 0 where
  pub retained : IsRetained s r.1
  pub unchanged : r.0.changed ≡ false → r.1 ≡ s

pub same-IsStep : (s : WorkerSession) (fact : SessionFact) → IsStep s (fact, s)
same-IsStep s fact = record { retained = IsRetained-refl s; unchanged = λ h. refl }

pub confirm-IsStep :
    (s : WorkerSession) (d : WorkerDisposal) (pod : Pod)
    → s.disposal ≡ some d
    → IsStep s (confirm s d pod)
unfolding confirm
confirm-IsStep s d pod e = elim (Bool-cases (terminated pod && not d.terminated)) [
  | inr q ↦ rw q (same-IsStep s _)
  | inl q ↦ rw q (record {
    retained = record {
      pod = refl;
      profile_digest = refl;
      shutdown = KeptShutdown-refl s.shutdown;
      disposal = rw e (
        _,
        refl,
        record { outcome = refl; process_nonce = refl; observed_at = refl; terminated = λ h. refl },
      );
    };
    unchanged = λ h. cc;
  })
]

-- A shutdown or a disposal is put where there was none.
pub added-IsRetained :
    (s : WorkerSession) (x : Option WorkerShutdown) (d : Option WorkerDisposal)
    → KeptShutdown s.shutdown x
    → s.disposal ≡ none
    → IsRetained s (record s { shutdown = x; disposal = d })
added-IsRetained s x d h e = record {
  pod = refl;
  profile_digest = refl;
  shutdown = h;
  disposal = rw e tt;
}
