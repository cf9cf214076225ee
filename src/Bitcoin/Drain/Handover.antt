-- ===== src/Bitcoin/Drain/Handover.antt =====
-- What a stopped worker writes.
use stacks_k8s.Common.{
  ◌≡◌, ◌≢◌, ◌↔◌, refl, ◌⊎◌, inl, inr, String, Bool, true, false, ◌||◌, Option, none, some, arith,
  string_eq, if◌then◌else◌, is_some, ok,
}
use mathlib.Core.Option
use mathlib.Core.Option.{some_inj}
use stacks_k8s.Common.Int.{int_eq}
use mathlib.Core.Path.{subst}
use text.Mathlib.TextEquality.{eq_iff}
use stacks_k8s.Bitcoin.Types.{BitcoinActionReservation, BitcoinDrainStatus, BitcoinExecution}
use stacks_k8s.Bitcoin.Drain.{
  NetworkRoot, Participant, stop_reason, terminal_reason, Worker, StopReads, Stopped, closing,
  stopped_action, shut, stop,
}
use stacks_k8s.Bitcoin.Drain.Ways.{Stopping, running, already, unwritten, written, stop_cases}

-- Where `stop` answers that it stopped, the worker's admission is closed; where it does not, the
-- worker is as it was and nothing is sent.
pub stop_closes :
    (w : Worker) (reads : StopReads) (before : BitcoinExecution)
    → (((stop w reads before).stopped ≡ true) × ((stop w reads before).worker.closed ≡ true))
      ⊎ (((stop w reads before).stopped ≡ false)
          × ((stop w reads before).worker ≡ w)
          × ((stop w reads before).sent ≡ none))
unfolding shut
stop_closes w reads before = closes (stop_cases w reads before)
  where
    closes :
        {o : Stopped}
        → Stopping w reads before o
        → ((o.stopped ≡ true) × (o.worker.closed ≡ true))
          ⊎ ((o.stopped ≡ false) × (o.worker ≡ w) × (o.sent ≡ none))
    closes (running e) = inr (refl, refl, refl)
    closes already = inl (refl, refl)
    closes (unwritten e) = inl (refl, refl)
    closes (written root p current g o m h u t) = inl (refl, refl)

-- What stopping does to a reserved action: only its stop reason is filled in, if it had none, and it
-- is marked uncertain and unsafe where that holds.
pub record Halted (reason : String) (unsettled : Bool) (a b : BitcoinActionReservation)
    : Type 0 where
  pub request_kept : b.request ≡ a.request
  pub reorganization_kept : b.reorganization ≡ a.reorganization
  pub invalidation_kept : b.invalidation_acknowledged ≡ a.invalidation_acknowledged
  pub cleanup_kept : b.cleanup_acknowledged ≡ a.cleanup_acknowledged
  pub reason_filled : a.stop_reason ≡ "" → b.stop_reason ≡ reason
  pub reason_kept : a.stop_reason ≢ "" → b.stop_reason ≡ a.stop_reason
  pub uncertain_if :
      (b.effect_uncertain ≡ true) ↔ ((a.effect_uncertain ≡ true) ⊎ (unsettled ≡ true))
  pub unsafe_if : (b.cleanup_unsafe ≡ true) ↔ (
      (a.cleanup_unsafe ≡ true)
      ⊎ ((a.reorganization ≡ true)
          × (a.invalidation_acknowledged ≡ true)
          × (a.cleanup_acknowledged ≡ false)))

abbrev pub HaltedAction :
    String → Bool → Option BitcoinActionReservation → Option BitcoinActionReservation → Type 0
HaltedAction reason unsettled none none = Unit
HaltedAction reason unsettled (some a) (some b) = Halted reason unsettled a b
HaltedAction reason unsettled none (some b) = ⊥
HaltedAction reason unsettled (some a) none = ⊥

stopped_action-Halted :
    (reason : String) (unsettled : Bool) (a : BitcoinActionReservation)
    → Halted reason unsettled a (stopped_action reason unsettled a)
unfolding stopped_action
stopped_action-Halted reason unsettled a = record {
  request_kept = refl;
  reorganization_kept = refl;
  invalidation_kept = refl;
  cleanup_kept = refl;
  reason_filled = λ h. ground (arith, eq_iff a.stop_reason "");
  reason_kept = λ h. ground (arith, eq_iff a.stop_reason "");
  uncertain_if = (λ h. ground arith, λ h. ground arith);
  unsafe_if = (λ h. ground arith, λ h. ground arith);
}

map-Halted :
    (reason : String) (unsettled : Bool) (o : Option BitcoinActionReservation)
    → HaltedAction reason unsettled o (Option.map (stopped_action reason unsettled) o)
map-Halted reason unsettled none = tt
map-Halted reason unsettled (some a) = stopped_action-Halted reason unsettled a

-- What the record that `stop` sends says.
pub record Sent (w : Worker) (reads : StopReads) (before e : BitcoinExecution) : Type 0 where
  pub root : NetworkRoot
  pub root_read : reads.root ≡ ok root
  pub own_network : root.meta.uid ≡ before.spec.network_uid
  pub participant : Option Participant
  pub participant_read : reads.participant ≡ ok participant
  pub current : BitcoinExecution
  pub current_read : reads.reread ≡ ok current
  pub identity : e.meta.uid ≡ before.meta.uid
  pub meta_kept : e.meta ≡ current.meta
  pub spec_kept : e.spec ≡ current.spec
  pub armed_kept : e.status.armed ≡ current.status.armed
  pub receipt_kept : e.status.last_receipt ≡ current.status.last_receipt
  pub completed_kept : e.status.completed_offer ≡ current.status.completed_offer
  pub control_kept : e.status.control ≡ current.status.control
  pub observed_kept : e.status.observed ≡ current.status.observed
  pub action_halted :
      HaltedAction
        (stop_reason root participant)
        (is_some current.status.armed || reads.active_after)
        current.status.action
        e.status.action
  pub blocked :
      (is_some current.status.armed || reads.active_after) ≡ true → e.status.phase ≡ "Blocked"
  pub phase_kept :
      (is_some current.status.armed || reads.active_after) ≡ false
      → e.status.phase ≡ current.status.phase
  pub drain : BitcoinDrainStatus
  pub drain_sent : e.status.drain ≡ some drain
  pub own_nonce : drain.process_nonce ≡ w.process_nonce
  pub generation : drain.network_generation ≡ root.meta.generation
  pub reason : drain.reason ≡ stop_reason root participant
  pub terminal : terminal_reason drain.reason ≡ true
  pub requested : drain.requested_at ≡ reads.started
  pub completed : drain.completed_at ≡ reads.finished
  pub outcome :
      ((drain.outcome ≡ "Uncertain")
        ⊎ ((drain.outcome ≡ "Drained")
            × (e.status.armed ≡ none)
            × (e.status.action ≡ none)
            × (reads.active_after ≡ false)))
  pub uncertain_only :
      drain.outcome ≡ "Uncertain"
      → (is_some current.status.action || (is_some current.status.armed || reads.active_after))
        ≡ true

module _ {A B C : Type 0} where
  settled_cases :
      (f : A → C) (action : Option A) (armed : Option B) (active : Bool) (o : String)
      → o ≡ (if is_some action || (is_some armed || active) then "Uncertain" else "Drained")
      → (o ≡ "Uncertain")
        ⊎ ((o ≡ "Drained") × (armed ≡ none) × (Option.map f action ≡ none) × (active ≡ false))
  settled_cases f (some a) armed active o h = inl h
  settled_cases f none (some b) active o h = inl h
  settled_cases f none none true o h = inl h
  settled_cases f none none false o h = inr (h, refl, refl, refl)

uncertain_cases :
    (b : Bool) (o : String)
    → o ≡ (if b then "Uncertain" else "Drained")
    → o ≡ "Uncertain"
    → b ≡ true
uncertain_cases true o h u = refl
uncertain_cases false o h u = absurd (cc)

phase_blocked : (b : Bool) (o : String) → b ≡ true → (if b then "Blocked" else o) ≡ "Blocked"
phase_blocked b o h = rw h refl

phase_same : (b : Bool) (o : String) → b ≡ false → (if b then "Blocked" else o) ≡ o
phase_same b o h = rw h refl

closing-Sent :
    (w : Worker) (reads : StopReads) (before current : BitcoinExecution) (root : NetworkRoot)
    (p : Option Participant)
    → reads.root ≡ ok root
    → root.meta.uid ≡ before.spec.network_uid
    → reads.participant ≡ ok p
    → reads.reread ≡ ok current
    → current.meta.uid ≡ before.meta.uid
    → terminal_reason (stop_reason root p) ≡ true
    → Sent w reads before (
        closing w.process_nonce root.meta.generation
          (stop_reason root p)
          reads.started
          reads.finished
          reads.active_after
          current)
unfolding closing
closing-Sent w reads before current root p g o m r u t = record {
  root = root;
  root_read = g;
  own_network = o;
  participant = p;
  participant_read = m;
  current = current;
  current_read = r;
  identity = u;
  meta_kept = refl;
  spec_kept = refl;
  armed_kept = refl;
  receipt_kept = refl;
  completed_kept = refl;
  control_kept = refl;
  observed_kept = refl;
  action_halted = map-Halted _ _ current.status.action;
  blocked = phase_blocked _ _;
  phase_kept = phase_same _ _;
  drain = _;
  drain_sent = refl;
  own_nonce = refl;
  generation = refl;
  reason = refl;
  terminal = t;
  requested = refl;
  completed = refl;
  outcome = settled_cases _ current.status.action current.status.armed reads.active_after _ refl;
  uncertain_only = uncertain_cases _ _ refl;
}

-- A record that `stop` sends is the record read again, of the worker's network and the same UID, of
-- which only the action, the phase and the drain are written. A reserved action keeps its request and
-- acknowledgements, and its stop reason if it has one; otherwise it gets the reason of the stop. It is
-- uncertain if it was or an RPC is armed or in flight, and unsafe to clean up if it was or is a
-- reorganization whose invalidation is acknowledged and cleanup is not. The phase is Blocked if an RPC
-- is armed or in flight, and kept otherwise. The drain carries the worker's nonce, the network's
-- generation, the terminal reason that the network and the participant that were read give, and both
-- times; its outcome is Uncertain exactly when something is armed, reserved or in flight, and Drained
-- otherwise.
pub stop_sends :
    (w : Worker) (reads : StopReads) (before e : BitcoinExecution)
    → (stop w reads before).sent ≡ some e
    → Sent w reads before e
stop_sends w reads before e = sends (stop_cases w reads before)
  where
    sends : {o : Stopped} → Stopping w reads before o → o.sent ≡ some e → Sent w reads before e
    sends (running x) h = cc
    sends already h = cc
    sends (unwritten x) h = cc
    sends (written root p current g o m r u t) h =
        subst (Sent w reads before) (some_inj.0 h)
          (closing-Sent w reads before current root p g o m r u t)
