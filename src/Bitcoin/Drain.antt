-- ===== src/Bitcoin/Drain.antt =====
-- operators/network/internal/bitcoincontrol/drain.go: when a Bitcoin control worker stops for good,
-- and what it writes for that. The answers of the API server to reads and updates are arguments.
pub mod Check
pub mod Pause
pub mod Ways
pub mod Handover
pub mod Disposal
pub mod Examples
use stacks_k8s.Common.{
  ℕ, String, Bool, true, false, not, ◌&&◌, ◌||◌, Option, none, some, List, [], ◌∷◌, ltb, ◌==◌, ◌/=◌,
  string_eq, if◌then◌else◌, any, is_some, is_none, Result, ok, err,
}
use mathlib.Core.Option
use stacks_k8s.Common.Int.{ℤ, ltb_ℤ, int_eq}
use stacks_k8s.Bitcoin.Types.{
  ObjectMeta, Binding, BitcoinActionReservation, BitcoinDrainStatus, BitcoinExecution,
}

pub record Condition : Type 0 where
  pub type_name : String
  pub status : String

pub record Member : Type 0 where
  pub name : String
  pub kind : String

pub record NetworkIdentity : Type 0 where
  pub name : String
  pub uid : String
  pub removing : Bool

-- `execution_refs` is none where the network has no Bitcoin status.
pub record NetworkRoot : Type 0 where
  pub meta : ObjectMeta
  pub operation : String
  pub participants : List Member
  pub phase : String
  pub conditions : List Condition
  pub identities : List NetworkIdentity
  pub execution_refs : Option (List Binding)

pub record BitcoinControl : Type 0 where
  pub terminated : Bool
  pub observed_generation : ℤ
  pub network_generation : ℤ
  pub deployment_ref : Option Binding
  pub pods : List Binding

pub record Participant : Type 0 where
  pub meta : ObjectMeta
  pub network_uid : String
  pub participant_name : String
  pub kind : String
  pub control : Option BitcoinControl

-- `failed` of admission.go.
failed : NetworkRoot → Bool
failed root =
    root.phase == "Failed"
    || any (λ c. c.type_name == "Failed" && c.status == "True") root.conditions

removed_identity : Participant → NetworkIdentity → Bool
removed_identity p id = id.name == p.participant_name && (id.uid /= p.meta.uid || id.removing)

member_reason : NetworkRoot → Option Participant → String
unfolding removed_identity
member_reason root none = "ParticipantRemoved"
member_reason root (some p) =
    if any (removed_identity p) root.identities
    then "ParticipantRemoved"
    else if is_some p.meta.deletion_timestamp
    then "ParticipantRemoved"
    else if any (λ m. m.name == p.participant_name && m.kind == p.kind) root.participants
    then ""
    else "ParticipantRemoved"

pub stop_reason : NetworkRoot → Option Participant → String
unfolding failed
stop_reason root p =
    if failed root
    then "NetworkFailed"
    else if is_some root.meta.deletion_timestamp
    then "NetworkDeleting"
    else if root.operation == "Stopped"
    then "NetworkStopped"
    else member_reason root p

pub terminal_reason : String → Bool
terminal_reason r =
    r == "ParticipantRemoved"
    || r == "NetworkStopped"
    || r == "NetworkDeleting"
    || r == "NetworkFailed"

acknowledged : NetworkRoot → Option BitcoinDrainStatus → Bool
unfolding terminal_reason
acknowledged root none = false
acknowledged root (some d) =
    if d.process_nonce == "" || ltb_ℤ root.meta.generation d.network_generation
    then false
    else terminal_reason d.reason && (d.outcome == "Drained" || d.outcome == "Uncertain")

terminal_drain_acknowledged : BitcoinExecution → NetworkRoot → Bool
unfolding acknowledged
terminal_drain_acknowledged record_read root = acknowledged root record_read.status.drain

-- The part of `Worker` that stopping reads and writes.
pub record Worker : Type 0 where
  pub process_nonce : String
  pub closed : Bool
  pub active : Bool

-- The answers that `stop` reads: `reread` is the second read of the record, `active_after` whether a
-- send is still in flight once `drain` has waited, `update` the answer to the status update.
pub record StopReads : Type 0 where
  pub root : Result NetworkRoot
  pub participant : Result (Option Participant)
  pub started : ℕ
  pub active_after : Bool
  pub reread : Result BitcoinExecution
  pub finished : ℕ
  pub update : Option String

-- `(stopped, error)`, the worker, and the status that `stop` sends, if it does.
pub record Stopped : Type 0 where
  pub stopped : Bool
  pub error : Option String
  pub worker : Worker
  pub sent : Option BitcoinExecution

pub stopped_action : String → Bool → BitcoinActionReservation → BitcoinActionReservation
stopped_action reason uncertain action = record action {
  stop_reason = if action.stop_reason == "" then reason else action.stop_reason;
  effect_uncertain = action.effect_uncertain || uncertain;
  cleanup_unsafe =
      action.cleanup_unsafe
      || action.reorganization
        && action.invalidation_acknowledged
        && not action.cleanup_acknowledged;
}

-- The record with its action, phase and drain written.
pub closing : String → ℤ → String → ℕ → ℕ → Bool → BitcoinExecution → BitcoinExecution
unfolding stopped_action
closing nonce generation reason started finished active current =
    let unsettled = is_some current.status.armed || active in
    let action = Option.map (stopped_action reason unsettled) current.status.action in
    let drain : BitcoinDrainStatus = record {
      process_nonce = nonce;
      network_generation = generation;
      reason = reason;
      requested_at = started;
      completed_at = finished;
      outcome = if is_some current.status.action || unsettled then "Uncertain" else "Drained";
    } in
    record current {
      status = record current.status {
        action = action;
        phase = if unsettled then "Blocked" else current.status.phase;
        drain = some drain;
      };
    }

pub shut : Worker → Bool → Worker
shut w active = record w { closed = true; active = active }

-- After `drain`: the record read again, checked, and written.
finish :
    Worker → StopReads → NetworkRoot → String → BitcoinExecution → Result BitcoinExecution → Stopped
unfolding shut
finish w reads root reason before (err e) = record {
  stopped = true;
  error = some e;
  worker = shut w reads.active_after;
  sent = none;
}
finish w reads root reason before (ok current) =
    if current.meta.uid /= before.meta.uid
    then record {
      stopped = true;
      error = some "execution record replaced during drain";
      worker = shut w reads.active_after;
      sent = none;
    }
    else record {
      stopped = true;
      error = reads.update;
      worker = shut w reads.active_after;
      sent = some (
          closing w.process_nonce root.meta.generation reason reads.started reads.finished
            reads.active_after current);
    }

refused : Worker → String → Stopped
refused w e = record { stopped = false; error = some e; worker = w; sent = none }

reasoned : Worker → StopReads → NetworkRoot → BitcoinExecution → String → Stopped
unfolding finish
reasoned w reads root before reason =
    if reason == ""
    then record { stopped = false; error = none; worker = w; sent = none }
    else if terminal_drain_acknowledged before root
    then record { stopped = true; error = none; worker = shut w w.active; sent = none }
    else finish w reads root reason before reads.reread

with_participant :
    Worker → StopReads → NetworkRoot → BitcoinExecution → Result (Option Participant) → Stopped
unfolding reasoned refused
with_participant w reads root before (err e) = refused w e
with_participant w reads root before (ok p) = reasoned w reads root before (stop_reason root p)

with_root : Worker → StopReads → BitcoinExecution → Result NetworkRoot → Stopped
unfolding with_participant refused
with_root w reads before (err e) = refused w e
with_root w reads before (ok root) =
    if root.meta.uid /= before.spec.network_uid
    then refused w "owning network replaced"
    else with_participant w reads root before reads.participant

pub stop : Worker → StopReads → BitcoinExecution → Stopped
unfolding with_root
stop w reads before = with_root w reads before reads.root
