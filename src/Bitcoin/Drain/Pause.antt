-- ===== src/Bitcoin/Drain/Pause.antt =====
-- `acknowledgePause` of operators/network/internal/bitcoincontrol/drain.go: a worker's record of a
-- pause. `clock k` is the answer of the k-th of the four places that read the clock.
use stacks_k8s.Common.{
  ℕ, ◌-◌, ◌≡◌, refl, sym, ap, inl, inr, String, Bool, true, false, ◌&&◌, ◌||◌, Option, none, some,
  arith, ltb, leb, ◌==◌, ◌/=◌, string_eq, if◌then◌else◌, is_some, Result, ok, err, Bool-cases,
}
use stacks_k8s.Common.Int.{ℤ, int_eq, beq_ℤ_iff}
use mathlib.Core.Option.{some_inj}
use text.Mathlib.TextEquality.{eq_iff}
use stacks_k8s.Bitcoin.Types.{BitcoinControlAcknowledgement, BitcoinExecution}
use stacks_k8s.Bitcoin.Drain.{NetworkRoot, Worker}

-- `foundation.ObservationPolicy().HeartbeatIntervalSeconds`.
abbrev pub heartbeat_interval : ℕ
heartbeat_interval = 5_000_000_000

-- The acknowledgement is this process's, of this pause.
abbrev pub own_pause : String → ℤ → BitcoinControlAcknowledgement → Bool
own_pause nonce generation ack =
    ack.network_generation == generation && ack.operation == "Paused" && ack.process_nonce == nonce

abbrev pub is_fresh : String → ℤ → (ℕ → ℕ) → Option BitcoinControlAcknowledgement → Bool
is_fresh nonce generation clock none = false
is_fresh nonce generation clock (some ack) =
    own_pause nonce generation ack
    && leb ack.heartbeat_at (clock 0)
    && ltb (clock 1 - ack.heartbeat_at) heartbeat_interval

abbrev pub first_acknowledgement : String → ℤ → (ℕ → ℕ) → BitcoinControlAcknowledgement
first_acknowledgement nonce generation clock = record {
  network_generation = generation;
  process_nonce = nonce;
  operation = "Paused";
  observed_at = clock 2;
  heartbeat_at = clock 3;
}

abbrev pub heartbeat :
    String → ℤ → (ℕ → ℕ) → Option BitcoinControlAcknowledgement → BitcoinControlAcknowledgement
heartbeat nonce generation clock none = first_acknowledgement nonce generation clock
heartbeat nonce generation clock (some ack) =
    if own_pause nonce generation ack
    then record ack { heartbeat_at = clock 3 }
    else first_acknowledgement nonce generation clock

-- Go's `(bool, error)`, and the status that is sent.
pub record Pausing : Type 0 where
  pub handled : Bool
  pub error : Option String
  pub sent : Option BitcoinExecution

acknowledge :
    Worker
    → (ℕ → ℕ)
    → Option String
    → BitcoinExecution
    → NetworkRoot
    → Option BitcoinControlAcknowledgement
    → Pausing
acknowledge w clock update before root ack =
    if root.operation /= "Paused"
    then record { handled = false; error = none; sent = none }
    else if w.active || is_some before.status.armed
    then record { handled = true; error = none; sent = none }
    else if is_fresh w.process_nonce root.meta.generation clock ack
    then record { handled = true; error = none; sent = none }
    else record {
      handled = true;
      error = update;
      sent = some (record before {
        status = record before.status {
          control = some (heartbeat w.process_nonce root.meta.generation clock ack);
        };
      });
    }

unfoldable pub acknowledge_pause :
    Worker → Result NetworkRoot → (ℕ → ℕ) → Option String → BitcoinExecution → Pausing
unfolding acknowledge
acknowledge_pause w (err e) clock update before = record {
  handled = false;
  error = some e;
  sent = none;
}
acknowledge_pause w (ok root) clock update before =
    if root.meta.uid /= before.spec.network_uid
    then record { handled = false; error = some "owning network replaced"; sent = none }
    else acknowledge w clock update before root before.status.control

-- An acknowledgement by the worker of the pause of the network as it is.
pub record IsPaused (w : Worker) (root : NetworkRoot) (clock : ℕ → ℕ) (before e : BitcoinExecution)
    : Type 0 where
  pub pause_asked : root.operation ≡ "Paused"
  pub quiet : w.active ≡ false
  pub unarmed : before.status.armed ≡ none
  pub ack : BitcoinControlAcknowledgement
  pub ack_sent : e.status.control ≡ some ack
  pub own_nonce : ack.process_nonce ≡ w.process_nonce
  pub own_generation : ack.network_generation ≡ root.meta.generation
  pub own_operation : ack.operation ≡ "Paused"
  pub beat : ack.heartbeat_at ≡ clock 3

heartbeat_own :
    (nonce : String) (generation : ℤ) (clock : ℕ → ℕ) (o : Option BitcoinControlAcknowledgement)
    → ((heartbeat nonce generation clock o).process_nonce ≡ nonce)
      × ((heartbeat nonce generation clock o).network_generation ≡ generation)
      × ((heartbeat nonce generation clock o).operation ≡ "Paused")
      × ((heartbeat nonce generation clock o).heartbeat_at ≡ clock 3)
heartbeat_own nonce generation clock none = (refl, refl, refl, refl)
heartbeat_own nonce generation clock (some ack) =
    elim (Bool-cases (own_pause nonce generation ack)) [
      | inr n ↦ rw n (refl, refl, refl, refl)
      | inl y ↦ rw y (
        ground (arith, eq_iff ack.process_nonce nonce),
        ground (arith, beq_ℤ_iff ack.network_generation generation),
        ground (arith, eq_iff ack.operation "Paused"),
        refl,
      )
    ]

idle_worker :
    {A : Type 0} (active : Bool) (armed : Option A)
    → (active || is_some armed) ≡ false
    → (active ≡ false) × (armed ≡ none)
idle_worker true armed h = cc
idle_worker false none h = (refl, refl)
idle_worker false (some a) h = cc

acknowledge-IsPaused :
    (w : Worker) (clock : ℕ → ℕ) (update : Option String) (before e : BitcoinExecution)
    (root : NetworkRoot)
    → (acknowledge w clock update before root before.status.control).sent ≡ some e
    → IsPaused w root clock before e
unfolding acknowledge
acknowledge-IsPaused w clock update before e root h =
    elim (Bool-cases (root.operation /= "Paused")) [
      | inl p ↦ absurd (impossible (rw (acknowledge, p) at h))
      | inr p ↦ elim (Bool-cases (w.active || is_some before.status.armed)) [
        | inl q ↦ absurd (impossible (rw (acknowledge, p, q) at h))
        | inr q ↦
            elim (Bool-cases
              (is_fresh w.process_nonce root.meta.generation clock before.status.control)) [
                | inl f ↦ absurd (impossible (rw (acknowledge, p, q, f) at h))
                | inr f ↦ sending p q (some_inj.0 (rw (acknowledge, p, q, f) at h))
              ]
      ]
    ]
  where
    impossible : none ≡ some e → ⊥
    impossible x = cc

    sending :
        (root.operation /= "Paused") ≡ false
        → (w.active || is_some before.status.armed) ≡ false
        → record before {
          status = record before.status {
            control =
                some (heartbeat w.process_nonce root.meta.generation clock before.status.control);
          };
        }
          ≡ e
        → IsPaused w root clock before e
    sending p q same =
        let (quiet, unarmed) = idle_worker w.active before.status.armed q in
        let (nonce, generation, operation, beat) =
          heartbeat_own w.process_nonce root.meta.generation clock before.status.control in
        record {
          pause_asked = ground (arith, eq_iff root.operation "Paused");
          quiet = quiet;
          unarmed = unarmed;
          ack = heartbeat w.process_nonce root.meta.generation clock before.status.control;
          ack_sent = sym (ap (λ x. x.status.control) same);
          own_nonce = nonce;
          own_generation = generation;
          own_operation = operation;
          beat = beat;
        }

-- A worker sends an acknowledgement of a pause only while the network asks for one, no send of its
-- own is in flight and nothing is armed; and it carries the worker's nonce, the network's generation
-- and the time of the send as its heartbeat.
pub acknowledge_pause-IsPaused :
    (w : Worker) (root : NetworkRoot) (clock : ℕ → ℕ) (update : Option String)
    (before e : BitcoinExecution)
    → (acknowledge_pause w (ok root) clock update before).sent ≡ some e
    → IsPaused w root clock before e
unfolding acknowledge_pause
acknowledge_pause-IsPaused w root clock update before e h =
    elim (Bool-cases (root.meta.uid /= before.spec.network_uid)) [
      | inl r ↦ cc (rw (acknowledge_pause, r) at h)
      | inr r ↦ acknowledge-IsPaused w clock update before e root (rw (acknowledge_pause, r) at h)
    ]
