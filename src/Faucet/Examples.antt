-- ===== src/Faucet/Examples.antt =====
-- A request in its admitted states, and the theorems there.
use stacks_k8s.Common.{◌≡◌, refl, String, true, false, Option, none, some, arith, replicate}
use stacks_k8s.Common.Int.{ℤ, pos}
use stacks_k8s.Faucet.{
  FaucetBinding, FaucetAdmission, FaucetExecution, StacksFaucetRequest, matching_execution,
  terminal_execution, project_phase,
}
use stacks_k8s.Faucet.Phases.{Included, is_final, project_phase_stays, project_phase_completed}

abbrev binding : String → FaucetBinding
binding uid = record { name = uid; uid = uid; fingerprint = "" }

abbrev admission : FaucetAdmission
admission = record {
  decision = "Admitted";
  reason = "Admitted";
  expires_at = "2026-01-01T00:10:00Z";
  network_uid = "net";
  faucet = some (binding "faucet");
  worker = some (binding "worker");
  profile_digest = "";
  source_account = some (binding "source");
  target = some (binding "target");
  destination_account = none;
  destination = "ST1";
  amount_micro_stx = "5";
  fee_micro_stx = "3000";
}

abbrev completed : FaucetExecution
completed = record {
  phase = "Completed";
  reason = "Included";
  network_uid = "net";
  faucet_uid = "faucet";
  worker_uid = "worker";
  process_nonce = "n";
  no_send = false;
  txid = replicate 64 97;
  destination = "ST1";
  amount_micro_stx = "5";
  inclusion_block_id = replicate 64 98;
  observed_at = 90;
}

abbrev request : Option FaucetExecution → StacksFaucetRequest
request e = record {
  timeout = "10m";
  creation_timestamp = 1;
  admission = some admission;
  execution = e;
}

abbrev ten_minutes : String → Option ℤ
ten_minutes s = some (pos 600_000_000_000)

completed_now : (project_phase ten_minutes (request (some completed)) 100).0 ≡ "Completed"
unfolding project_phase matching_execution terminal_execution
completed_now = refl

project_phase_completed_example : Included (request (some completed))
project_phase_completed_example =
    project_phase_completed ten_minutes (request (some completed)) 100 completed_now

pending_first : (project_phase ten_minutes (request none) 100).0 ≡ "Pending"
unfolding project_phase matching_execution
pending_first = refl

overdue : is_final (project_phase ten_minutes (request none) 600_000_000_001).0 ≡ true
unfolding project_phase matching_execution
overdue = refl

project_phase_stays_example :
    (project_phase ten_minutes (request none) 600_000_000_005).0
    ≡ (project_phase ten_minutes (request none) 600_000_000_001).0
project_phase_stays_example =
    project_phase_stays ten_minutes (request none) 600_000_000_001 600_000_000_005 (omega arith)
      overdue
