-- ===== src/Bitcoin/Drain/Check.antt =====
-- `CheckDrained` of operators/network/internal/bitcoincontrol/drain.go: when the actor of a stopped
-- worker may be disposed of. The answers of the API server to reads are arguments: of a record by its
-- name, of the deployment under the name that internal/naming computes, of the participant again. So
-- is the metadata test of Kubernetes' apimachinery.
use stacks_k8s.Common.{
  String, Bool, true, false, not, ◌&&◌, ◌||◌, Option, none, some, List, [], ◌∷◌, ltb, ◌==◌, ◌/=◌,
  string_eq, if◌then◌else◌, length, is_some, is_none, Result, ok, err,
}
use stacks_k8s.Common.Int.{int_eq}
use stacks_k8s.Bitcoin.Types.{ObjectMeta, Binding, BitcoinDrainStatus, BitcoinExecution}
use stacks_k8s.Bitcoin.Drain.{NetworkRoot, Participant, stop_reason, terminal_drain_acknowledged}

abbrev pub releasing : Bool → Option BitcoinDrainStatus → Bool
releasing unarmed none = false
releasing unarmed (some d) = d.outcome == "Uncertain" || d.outcome == "Drained" && unarmed

-- What a record says of its participant's disposal.
unfoldable pub check_record : NetworkRoot → BitcoinExecution → Bool
unfolding terminal_drain_acknowledged
check_record root e =
    if is_none e.status.armed && not e.status.observed && is_none e.status.last_receipt
    then true
    else if not (terminal_drain_acknowledged e root)
    then false
    else releasing (is_none e.status.armed) e.status.drain

pub never_activated : Participant → Result (Option ObjectMeta) → Result Bool
never_activated p deployment =
    if elim p.control [ none ↦ false | some c ↦ is_some c.deployment_ref || ltb 0 (length c.pods) ]
    then ok false
    else elim deployment [ err e ↦ err e | ok none ↦ ok true | ok (some d) ↦ ok false ]

unfoldable pub matched :
    NetworkRoot → Participant → Binding → Result Bool → Result BitcoinExecution → Result Bool
unfolding check_record
matched root p ref rest (err e) = err e
matched root p ref rest (ok e) =
    if e.meta.uid /= ref.uid
    then err "execution record replaced"
    else if e.spec.participant.uid /= p.meta.uid
    then rest
    else ok (check_record root e)

unfoldable pub scan_records :
    (String → Result BitcoinExecution)
    → Result (Option ObjectMeta)
    → NetworkRoot
    → Participant
    → List Binding
    → Result Bool
unfolding matched never_activated
scan_records get deployment root p [] = never_activated p deployment
scan_records get deployment root p (ref ∷ refs) =
    matched root p ref (scan_records get deployment root p refs) (get ref.name)

-- Confirmed termination, while the network is being deleted.
pub terminated : (ObjectMeta → ObjectMeta → Bool) → NetworkRoot → Participant → Participant → Bool
terminated is_controlled_by root p current =
    current.meta.uid == p.meta.uid
    && current.network_uid == root.meta.uid
    && is_controlled_by current.meta root.meta
    && elim current.control [
      | none ↦ false
      | some c ↦
          c.terminated
          && c.observed_generation == current.meta.generation
          && c.network_generation == root.meta.generation
    ]

-- `CheckDrained`, past the read of the network: `again` answers the second read of the participant.
unfoldable pub drained_by :
    (String → Result BitcoinExecution)
    → Result (Option ObjectMeta)
    → NetworkRoot
    → Participant
    → Option (List Binding)
    → Result Bool
unfolding scan_records
drained_by get deployment root p none = never_activated p deployment
drained_by get deployment root p (some refs) = scan_records get deployment root p refs

unfoldable pub disposable :
    (ObjectMeta → ObjectMeta → Bool)
    → (String → Result BitcoinExecution)
    → Result (Option ObjectMeta)
    → Result Participant
    → NetworkRoot
    → Participant
    → Result Bool
unfolding drained_by terminated
disposable is_controlled_by get deployment again root p =
    let rest = drained_by get deployment root p root.execution_refs in
    if is_some root.meta.deletion_timestamp && is_controlled_by p.meta root.meta
    then elim again [
      | err e ↦ err e
      | ok current ↦ if terminated is_controlled_by root p current then ok true else rest
    ]
    else rest

unfoldable pub check_drained :
    (ObjectMeta → ObjectMeta → Bool)
    → Result NetworkRoot
    → (String → Result BitcoinExecution)
    → Result (Option ObjectMeta)
    → Result Participant
    → Participant
    → Result Bool
unfolding disposable
check_drained is_controlled_by root get deployment again p = elim root [
  | err e ↦ err e
  | ok r ↦
      if r.meta.uid /= p.network_uid
      then err "owning network identity unavailable"
      else if stop_reason r (some p) == ""
      then ok false
      else disposable is_controlled_by get deployment again r p
]
