-- ===== src/Bitcoin/Drain/Ways.antt =====
-- The ways through `stop`, and that every reason to stop is a terminal one.
use stacks_k8s.Common.{
  ◌≡◌, refl, inl, inr, String, Bool, true, false, ◌&&◌, Option, none, some, arith, ◌==◌, ◌/=◌,
  string_eq, if◌then◌else◌, Bool-cases, any, is_some, Result, ok, err,
}
use stacks_k8s.Common.Int.{int_eq}
use text.Mathlib.TextEquality.{eq_iff}
use stacks_k8s.Bitcoin.Types.{BitcoinExecution}
use stacks_k8s.Bitcoin.Drain.{
  NetworkRoot, Participant, removed_identity, member_reason, stop_reason, terminal_reason,
  terminal_drain_acknowledged, Worker, StopReads, Stopped, closing, shut, finish, refused, reasoned,
  with_participant, with_root, stop,
}

record IsStop (r : String) : Type 0 where
  terminal : (r == "") ≡ false → terminal_reason r ≡ true

choose : (b : Bool) (x y : String) → IsStop x → IsStop y → IsStop (if b then x else y)
choose true x y p q = p
choose false x y p q = q

removed-IsStop : IsStop "ParticipantRemoved"
unfolding terminal_reason
removed-IsStop = record { terminal = λ h. refl }

none-IsStop : IsStop ""
none-IsStop = record { terminal = λ h. cc }

stopped-IsStop : IsStop "NetworkStopped"
unfolding terminal_reason
stopped-IsStop = record { terminal = λ h. refl }

deleting-IsStop : IsStop "NetworkDeleting"
unfolding terminal_reason
deleting-IsStop = record { terminal = λ h. refl }

failing-IsStop : IsStop "NetworkFailed"
unfolding terminal_reason
failing-IsStop = record { terminal = λ h. refl }

member_reason-IsStop : (root : NetworkRoot) (p : Option Participant) → IsStop (member_reason root p)
unfolding member_reason
member_reason-IsStop root none = removed-IsStop
member_reason-IsStop root (some p) =
    choose (any (removed_identity p) root.identities) _ _ removed-IsStop (
      choose (is_some p.meta.deletion_timestamp) _ _ removed-IsStop (
        choose (any (λ m. m.name == p.participant_name && m.kind == p.kind) root.participants) _ _
          none-IsStop removed-IsStop))

stop_reason-IsStop : (root : NetworkRoot) (p : Option Participant) → IsStop (stop_reason root p)
unfolding stop_reason
stop_reason-IsStop root p =
    choose _ _ _ failing-IsStop
      (choose _ _ _ deleting-IsStop (choose _ _ _ stopped-IsStop (member_reason-IsStop root p)))

-- The ways through `stop`.
pub data Stopping (w : Worker) (reads : StopReads) (before : BitcoinExecution)
    : Stopped → Type 0 where
  running :
      (e : Option String)
      → Stopping w reads before (record { stopped = false; error = e; worker = w; sent = none })
  already :
      Stopping w reads before
        (record { stopped = true; error = none; worker = shut w w.active; sent = none })
  unwritten :
      (e : String)
      → Stopping w reads before (record {
        stopped = true;
        error = some e;
        worker = shut w reads.active_after;
        sent = none;
      })
  written :
      (root : NetworkRoot) (p : Option Participant) (current : BitcoinExecution)
      → reads.root ≡ ok root
      → root.meta.uid ≡ before.spec.network_uid
      → reads.participant ≡ ok p
      → reads.reread ≡ ok current
      → current.meta.uid ≡ before.meta.uid
      → terminal_reason (stop_reason root p) ≡ true
      → Stopping w reads before (record {
        stopped = true;
        error = reads.update;
        worker = shut w reads.active_after;
        sent = some (
            closing w.process_nonce root.meta.generation
              (stop_reason root p)
              reads.started
              reads.finished
              reads.active_after
              current);
      })

finish_cases :
    (w : Worker) (reads : StopReads) (root : NetworkRoot) (p : Option Participant)
    (before : BitcoinExecution) (r : Result BitcoinExecution)
    → reads.root ≡ ok root
    → root.meta.uid ≡ before.spec.network_uid
    → reads.participant ≡ ok p
    → reads.reread ≡ r
    → terminal_reason (stop_reason root p) ≡ true
    → Stopping w reads before (finish w reads root (stop_reason root p) before r)
unfolding finish
finish_cases w reads root p before (err e) g o m h t = unwritten e
finish_cases w reads root p before (ok current) g o m h t =
    elim (Bool-cases (current.meta.uid /= before.meta.uid)) [
      | inl e ↦ rw e (unwritten "execution record replaced during drain")
      | inr e ↦ rw e (
          written root p current g o m h (ground (arith, eq_iff current.meta.uid before.meta.uid))
            t)
    ]

with_participant_cases :
    (w : Worker) (reads : StopReads) (root : NetworkRoot) (before : BitcoinExecution)
    (r : Result (Option Participant))
    → reads.root ≡ ok root
    → root.meta.uid ≡ before.spec.network_uid
    → reads.participant ≡ r
    → Stopping w reads before (with_participant w reads root before r)
unfolding with_participant refused reasoned
with_participant_cases w reads root before (err e) g o m = running (some e)
with_participant_cases w reads root before (ok p) g o m =
    elim (Bool-cases (stop_reason root p == "")) [
      | inl e ↦ rw e (running none)
      | inr e ↦ elim (Bool-cases (terminal_drain_acknowledged before root)) [
        | inl d ↦ rw (e, d) already
        | inr d ↦
            rw (e, d)
              (finish_cases w reads root p before reads.reread g o m refl
                ((stop_reason-IsStop root p).terminal e))
      ]
    ]

with_root_cases :
    (w : Worker) (reads : StopReads) (before : BitcoinExecution) (r : Result NetworkRoot)
    → reads.root ≡ r
    → Stopping w reads before (with_root w reads before r)
unfolding with_root refused
with_root_cases w reads before (err e) g = running (some e)
with_root_cases w reads before (ok root) g =
    elim (Bool-cases (root.meta.uid /= before.spec.network_uid)) [
      | inl e ↦ rw e (running (some "owning network replaced"))
      | inr e ↦ rw e (
          with_participant_cases w reads root before reads.participant g
            (ground (arith, eq_iff root.meta.uid before.spec.network_uid)) refl)
    ]

pub stop_cases :
    (w : Worker) (reads : StopReads) (before : BitcoinExecution)
    → Stopping w reads before (stop w reads before)
unfolding stop
stop_cases w reads before = with_root_cases w reads before reads.root refl
