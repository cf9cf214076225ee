-- ===== src/Bitcoin/Drain/Disposal.antt =====
-- A record that `stop` sent lets `CheckDrained` release its actor.
use stacks_k8s.Common.{
  ◌≡◌, refl, sym, ap, ◌⊎◌, inl, inr, String, Bool, true, false, not, ◌&&◌, ◌||◌, Option, none, some,
  List, [], ◌∷◌, ◌++◌, arith, ◌==◌, string_eq, if◌then◌else◌, Bool-cases, All, is_some, is_none,
  Result, ok, ==-refl,
}
use stacks_k8s.Common.Int.{int_eq, ◌≤ℤ◌}
use mathlib.Core.Path.{subst}
use text.Mathlib.TextEquality.{eq_iff}
use stacks_k8s.Bitcoin.Types.{ObjectMeta, Binding, BitcoinDrainStatus, BitcoinExecution}
use stacks_k8s.Bitcoin.Drain.{
  NetworkRoot, Participant, stop_reason, terminal_reason, acknowledged, terminal_drain_acknowledged,
  Worker, StopReads, stop,
}
use stacks_k8s.Bitcoin.Drain.Check.{
  releasing, check_record, matched, scan_records, terminated, drained_by, disposable, check_drained,
}
use stacks_k8s.Bitcoin.Drain.Handover.{Sent, stop_sends}

acknowledged_drain :
    (root : NetworkRoot) (d : BitcoinDrainStatus)
    → (d.process_nonce == "") ≡ false
    → d.network_generation ≤ℤ root.meta.generation
    → terminal_reason d.reason ≡ true
    → (d.outcome == "Drained" || d.outcome == "Uncertain") ≡ true
    → acknowledged root (some d) ≡ true
unfolding acknowledged
acknowledged_drain root d n g t o = ground arith

release :
    (quiet unarmed : Bool) (root : NetworkRoot) (o : Option BitcoinDrainStatus)
    (d : BitcoinDrainStatus)
    → o ≡ some d
    → acknowledged root (some d) ≡ true
    → (d.outcome == "Uncertain" || d.outcome == "Drained" && unarmed) ≡ true
    → (if quiet then true else if not (acknowledged root o) then false else releasing unarmed o)
      ≡ true
release true unarmed root o d e a r = refl
release false unarmed root o d e a r = rw (e, a) r

outcome_known :
    {A B C : Type 0} (o : String) (armed : Option A)
    → (o ≡ "Uncertain") ⊎ ((o ≡ "Drained") × (armed ≡ none) × B × C)
    → (o == "Drained" || o == "Uncertain") ≡ true
outcome_known o armed (inl h) = rw h refl
outcome_known o armed (inr (h, n, b, c)) = rw h refl

outcome_releases :
    {A B C : Type 0} (o : String) (armed : Option A)
    → (o ≡ "Uncertain") ⊎ ((o ≡ "Drained") × (armed ≡ none) × B × C)
    → (o == "Uncertain" || o == "Drained" && is_none armed) ≡ true
outcome_releases o armed (inl h) = rw h refl
outcome_releases o armed (inr (h, n, b, c)) = rw (h, n) refl

-- A sent drain of an earlier or the same generation, by a worker with a nonce, releases its record.
check_record-Sent :
    (w : Worker) (reads : StopReads) (before e : BitcoinExecution) (root : NetworkRoot)
    (s : Sent w reads before e)
    → (w.process_nonce == "") ≡ false
    → s.root.meta.generation ≤ℤ root.meta.generation
    → check_record root e ≡ true
unfolding check_record terminal_drain_acknowledged
check_record-Sent w reads before e root s n g =
    release _ _ root e.status.drain s.drain s.drain_sent
      (acknowledged_drain root s.drain (rw s.own_nonce n) (rw s.generation g) s.terminal
        (outcome_known s.drain.outcome e.status.armed s.outcome))
      (outcome_releases s.drain.outcome e.status.armed s.outcome)

-- References whose records belong to another participant.
abbrev pub Foreign : (String → Result BitcoinExecution) → Participant → Binding → Type 0
Foreign get p ref =
    (e : BitcoinExecution) × (get ref.name ≡ ok e)
    × (e.meta.uid ≡ ref.uid)
    × ((e.spec.participant.uid == p.meta.uid) ≡ false)

scan_records_found :
    (get : String → Result BitcoinExecution) (deployment : Result (Option ObjectMeta))
    (root : NetworkRoot) (p : Participant) (others : List Binding) (ref : Binding)
    (refs : List Binding) (e : BitcoinExecution)
    → All (Foreign get p) others
    → get ref.name ≡ ok e
    → e.meta.uid ≡ ref.uid
    → e.spec.participant.uid ≡ p.meta.uid
    → check_record root e ≡ true
    → scan_records get deployment root p (others ++ ref ∷ refs) ≡ ok true
unfolding scan_records matched
scan_records_found get deployment root p [] ref refs e f g u q c =
    rw (g, u, q, ==-refl ref.uid, ==-refl p.meta.uid) (ap ok c)
scan_records_found get deployment root p (o ∷ os) ref refs e ((x, h, v, n), f) g u q c =
    rw (h, v, n, ==-refl o.uid) (scan_records_found get deployment root p os ref refs e f g u q c)

disposable_found :
    (is_controlled_by : ObjectMeta → ObjectMeta → Bool) (get : String → Result BitcoinExecution)
    (deployment : Result (Option ObjectMeta)) (root : NetworkRoot) (p current : Participant)
    → drained_by get deployment root p root.execution_refs ≡ ok true
    → disposable is_controlled_by get deployment (ok current) root p ≡ ok true
unfolding disposable
disposable_found is_controlled_by get deployment root p current h =
    elim (Bool-cases (is_some root.meta.deletion_timestamp && is_controlled_by p.meta root.meta)) [
      | inr e ↦ rw e h
      | inl e ↦ elim (Bool-cases (terminated is_controlled_by root p current)) [
        | inl t ↦ rw (e, t) refl
        | inr t ↦ rw (e, t) h
      ]
    ]

-- Once a worker with a process nonce, stopped by the network as `seen`, has sent the record `e`, and
-- the API server holds `e` under a reference of the network's status that comes after records of
-- other participants only, `CheckDrained` releases the participant that the record is for, at the
-- same or a later generation of the network, as long as the participant still has a reason to stop
-- and its second read succeeds.
pub stop_releases :
    (w : Worker) (reads : StopReads) (before e : BitcoinExecution)
    (is_controlled_by : ObjectMeta → ObjectMeta → Bool) (get : String → Result BitcoinExecution)
    (deployment : Result (Option ObjectMeta)) (seen root : NetworkRoot) (p current : Participant)
    (others : List Binding) (ref : Binding) (refs : List Binding)
    → (stop w reads before).sent ≡ some e
    → (w.process_nonce == "") ≡ false
    → reads.root ≡ ok seen
    → seen.meta.generation ≤ℤ root.meta.generation
    → root.meta.uid ≡ p.network_uid
    → (stop_reason root (some p) == "") ≡ false
    → root.execution_refs ≡ some (others ++ ref ∷ refs)
    → All (Foreign get p) others
    → get ref.name ≡ ok e
    → e.meta.uid ≡ ref.uid
    → e.spec.participant.uid ≡ p.meta.uid
    → check_drained is_controlled_by (ok root) get deployment (ok current) p ≡ ok true
unfolding check_drained drained_by
stop_releases w reads before e is_controlled_by get deployment seen root p current others ref refs
      sent n read g net reason listed f got u q =
    let s : Sent w reads before e = stop_sends w reads before e sent in
    let same : s.root ≡ seen = cc (s.root_read, read) in
    rw ((eq_iff root.meta.uid p.network_uid).1 net, reason)
      (disposable_found is_controlled_by get deployment root p current (
        rw listed (
          scan_records_found get deployment root p others ref refs e f got u q (
            check_record-Sent w reads before e root s n
              (subst (λ r. r.meta.generation ≤ℤ root.meta.generation) (sym same) g)))))
