-- ===== src/Faucet/QueueExamples.antt =====
-- A request is noticed, becomes an entry and is forgotten.
use stacks_k8s.Common.{
  ◌+◌, ◌≤◌, ◌≡◌, refl, List, ◌∷◌, String, true, false, Option, none, some, [], length, arith,
}
use stacks_k8s.Common.Int.{ℤ, pos}
use stacks_k8s.Faucet.{FaucetBinding, StacksFaucetRequest, deadline}
use stacks_k8s.Faucet.Queue.{
  capacity, FaucetRole, CollectionEvent, collection_changed, put_entry, forget_entry,
}
use stacks_k8s.Faucet.Capacity.{
  Operation, change, settle, drop_entry, step, run, unqueued, run-held,
}

abbrev minute : String → Option ℤ
minute s = some (pos 60_000_000_000)

abbrev bind : String → FaucetBinding
bind uid = record { name = "b"; uid = uid; fingerprint = "" }

abbrev noticed_request : StacksFaucetRequest
noticed_request = record {
  timeout = "1m";
  creation_timestamp = 5;
  admission = some (record {
    decision = "Admitted";
    reason = "";
    expires_at = "";
    network_uid = "n";
    faucet = some (bind "f");
    worker = some (bind "pod");
    profile_digest = "";
    source_account = none;
    target = none;
    destination_account = none;
    destination = "";
    amount_micro_stx = "1";
    fee_micro_stx = "1";
  });
  execution = none;
}

abbrev new_role : FaucetRole
new_role = record {
  namespace = "ns";
  participant_uid = "f";
  pod_uid = "pod";
  notices = [];
  entries = [];
  rescan = false;
}

abbrev sample_event : CollectionEvent
sample_event = record {
  watched = true;
  namespace = "ns";
  name = "r";
  uid = "r1";
  request = some noticed_request;
  deleted = false;
}

abbrev operations : List Operation
operations = change sample_event ∷ settle "r1" ∷ settle "r2" ∷ drop_entry "r1" ∷ []

one_unqueued : unqueued minute operations new_role ≡ 1
unfolding unqueued step collection_changed put_entry forget_entry deadline
one_unqueued = refl

run-held_example :
    (length (run minute operations new_role).notices ≤ capacity)
    × (length (run minute operations new_role).notices
          + length (run minute operations new_role).entries
        ≤ capacity + unqueued minute operations new_role)
run-held_example = run-held minute operations new_role (omega arith)
