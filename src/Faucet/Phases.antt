-- ===== src/Faucet/Phases.antt =====
-- The phases that a request is reported in: what they rest on and which are final.
use stacks_k8s.Common.{
  ℕ, ◌≤◌, ◌≡◌, refl, inl, inr, String, Bool, true, false, ◌||◌, Option, none, some, arith, ◌==◌,
  ◌/=◌, string_eq, nat_eq, if◌then◌else◌, Bool-cases, length,
}
use stacks_k8s.Common.Int.{ℤ}
use text.Mathlib.TextEquality.{eq_iff}
use stacks_k8s.Faucet.{
  FaucetAdmission, FaucetExecution, StacksFaucetRequest, deadline, matching_execution,
  terminal_execution, late, unsettled_phase, admitted_phase, evidence, decided_phase, project_phase,
}

abbrev pub is_final : String → Bool
is_final phase =
    phase == "Completed" || phase == "Rejected" || phase == "Expired" || phase == "Inconclusive"

late_mono : (now later : ℕ) (d : Option ℕ) → now ≤ later → late now d ≡ true → late later d ≡ true
late_mono now later none h l = refl
late_mono now later (some d) h l = ground arith

unsettled_phase_stays :
    (e : FaucetExecution) (before after : Bool)
    → (before ≡ true → after ≡ true)
    → is_final ((unsettled_phase e before).0) ≡ true
    → (unsettled_phase e after).0 ≡ (unsettled_phase e before).0
unfolding unsettled_phase
unsettled_phase_stays e true true h f = refl
unsettled_phase_stays e true false h f = absurd (ground (arith, h refl))
unsettled_phase_stays e false false h f = refl
unsettled_phase_stays e false true h f = elim (Bool-cases (e.phase == "Submitted")) [
  | inl s ↦ absurd (ground (arith, rw s at f))
  | inr s ↦ elim (Bool-cases (e.phase == "Inconclusive")) [
    | inl i ↦ rw (s, i) refl
    | inr i ↦ absurd (ground (arith, rw (s, i) at f))
  ]
]

admitted_phase_stays :
    (e : Option FaucetExecution) (before after : Bool)
    → (before ≡ true → after ≡ true)
    → is_final ((admitted_phase e before).0) ≡ true
    → (admitted_phase e after).0 ≡ (admitted_phase e before).0
unfolding admitted_phase
admitted_phase_stays none true true h f = refl
admitted_phase_stays none true false h f = absurd (ground (arith, h refl))
admitted_phase_stays none false after h f = cc
admitted_phase_stays (some e) before after h f = elim (Bool-cases (terminal_execution e)) [
  | inl t ↦ rw t refl
  | inr t ↦ rw t (unsettled_phase_stays e before after h (rw t at f))
]

decided_phase_stays :
    (parse_duration : String → Option ℤ) (request : StacksFaucetRequest) (now later : ℕ)
    (a : Option FaucetAdmission)
    → now ≤ later
    → is_final ((decided_phase parse_duration request now a).0) ≡ true
    → (decided_phase parse_duration request later a).0
      ≡ (decided_phase parse_duration request now a).0
unfolding decided_phase
decided_phase_stays parse_duration request now later none h f = refl
decided_phase_stays parse_duration request now later (some a) h f =
    elim (Bool-cases (a.decision == "Rejected" || a.decision == "Expired")) [
      | inl r ↦ rw r refl
      | inr r ↦ elim (Bool-cases (a.decision /= "Admitted")) [
        | inl n ↦ rw (r, n) refl
        | inr n ↦
            rw (r, n)
              (admitted_phase_stays (evidence request) _ _
                (late_mono now later (deadline parse_duration request) h) (rw (r, n) at f))
      ]
    ]

-- A phase Completed, Rejected, Expired or Inconclusive is reported again at every later time, while
-- the request's specification, admission and evidence stay as they are.
pub project_phase_stays :
    (parse_duration : String → Option ℤ) (request : StacksFaucetRequest) (now later : ℕ)
    → now ≤ later
    → is_final ((project_phase parse_duration request now).0) ≡ true
    → (project_phase parse_duration request later).0 ≡ (project_phase parse_duration request now).0
unfolding project_phase
project_phase_stays parse_duration request now later h f =
    decided_phase_stays parse_duration request now later request.admission h f

-- What stands behind an evidence that a request is reported by.
pub record Included (request : StacksFaucetRequest) : Type 0 where
  pub admission : FaucetAdmission
  pub admitted : request.admission ≡ some admission
  pub granted : admission.decision ≡ "Admitted"
  pub execution : FaucetExecution
  pub reported : request.execution ≡ some execution
  pub matches : matching_execution request ≡ true
  pub sent : execution.no_send ≡ false
  pub txid_length : length execution.txid ≡ 64
  pub inclusion_length : length execution.inclusion_block_id ≡ 64

evidence_matches :
    (request : StacksFaucetRequest) (e : FaucetExecution)
    → evidence request ≡ some e
    → (request.execution ≡ some e) × (matching_execution request ≡ true)
unfolding evidence
evidence_matches request e h = elim (Bool-cases (matching_execution request)) [
  | inl m ↦ (ground (arith, rw m at h), m)
  | inr m ↦ absurd (ground (arith, rw m at h))
]

completed_terminal :
    (e : FaucetExecution)
    → e.phase ≡ "Completed"
    → terminal_execution e ≡ true
    → (e.no_send ≡ false) × (length e.txid ≡ 64) × (length e.inclusion_block_id ≡ 64)
unfolding terminal_execution
completed_terminal e p t = let c = (eq_iff e.phase "Completed").1 p in ground (arith, rw c at t)

neither :
    (b : Bool) (x y : String × String)
    → (x.0 == "Completed") ≡ false
    → (y.0 == "Completed") ≡ false
    → ((if b then x else y).0 == "Completed") ≡ false
neither true x y p q = p
neither false x y p q = q

unsettled_phase-Completed :
    (e : FaucetExecution) (expired : Bool) → ((unsettled_phase e expired).0 == "Completed") ≡ false
unfolding unsettled_phase
unsettled_phase-Completed e expired =
    neither expired _ _ refl (
      neither (e.phase == "Submitted") _ _ refl (neither (e.phase == "Inconclusive") _ _ refl refl))

without_evidence : (x : Bool) → ((admitted_phase none x).0 == "Completed") ≡ false
unfolding admitted_phase
without_evidence x = neither x _ _ refl refl

differs : (s : String) → (s == "Completed") ≡ false → s ≡ "Completed" → ⊥
differs s h e = ground (arith, rw e at h)

undecided : (d : String) → d ≡ "Completed" → (d == "Rejected" || d == "Expired") ≡ false
undecided d h = rw h refl

completed_evidence :
    (e : FaucetExecution) (expired : Bool)
    → (admitted_phase (some e) expired).0 ≡ "Completed"
    → (e.no_send ≡ false) × (length e.txid ≡ 64) × (length e.inclusion_block_id ≡ 64)
unfolding admitted_phase
completed_evidence e expired h = elim (Bool-cases (terminal_execution e)) [
  | inl t ↦ completed_terminal e (rw t at h) t
  | inr t ↦ absurd (differs _ (unsettled_phase-Completed e expired) (rw t at h))
]

included :
    (request : StacksFaucetRequest) (a : FaucetAdmission) (o : Option FaucetExecution)
    (expired : Bool)
    → request.admission ≡ some a
    → a.decision ≡ "Admitted"
    → evidence request ≡ o
    → (admitted_phase o expired).0 ≡ "Completed"
    → Included request
included request a none expired g d o h = absurd (differs _ (without_evidence expired) h)
included request a (some e) expired g d o h =
    let (sent, txid, inclusion) = completed_evidence e expired h in
    let (reported, matches) = evidence_matches request e o in
    record {
      admission = a;
      admitted = g;
      granted = d;
      execution = e;
      reported = reported;
      matches = matches;
      sent = sent;
      txid_length = txid;
      inclusion_length = inclusion;
    }

decided_completed :
    (parse_duration : String → Option ℤ) (request : StacksFaucetRequest) (now : ℕ)
    (a : Option FaucetAdmission)
    → request.admission ≡ a
    → (decided_phase parse_duration request now a).0 ≡ "Completed"
    → Included request
unfolding decided_phase
decided_completed parse_duration request now none g h = cc
decided_completed parse_duration request now (some a) g h =
    elim (Bool-cases (a.decision == "Rejected" || a.decision == "Expired")) [
      | inl r ↦ cc (undecided a.decision (rw r at h))
      | inr r ↦ elim (Bool-cases (a.decision /= "Admitted")) [
        | inl n ↦ absurd (differs "Pending" refl (rw (r, n) at h))
        | inr n ↦
            included request a (evidence request) _ g (ground (arith, eq_iff a.decision "Admitted"))
              refl (rw (r, n) at h)
      ]
    ]

-- A request is reported Completed only on evidence that belongs to its admission, which is granted:
-- an execution that was sent, with a transaction and an inclusion block identifier of 64 characters.
pub project_phase_completed :
    (parse_duration : String → Option ℤ) (request : StacksFaucetRequest) (now : ℕ)
    → (project_phase parse_duration request now).0 ≡ "Completed"
    → Included request
unfolding project_phase
project_phase_completed parse_duration request now h =
    decided_completed parse_duration request now request.admission refl h
