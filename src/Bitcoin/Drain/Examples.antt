-- ===== src/Bitcoin/Drain/Examples.antt =====
-- A worker stopped by the suspension of its network, with an RPC still armed, and its actor's
-- disposal.
use stacks_k8s.Common.{
  ◌+◌, ◌≡◌, refl, ◌⊎◌, String, true, false, Result, ◌==◌, string_eq, if◌then◌else◌, none, some, [],
  ◌∷◌, arith, ok, err,
}
use stacks_k8s.Common.Int.{pos}
use stacks_k8s.Bitcoin.Types.{BitcoinActionReservation, BitcoinExecution}
use stacks_k8s.Bitcoin.Fixtures.{named, bound, owned, receipt, execution, network}
use stacks_k8s.Bitcoin.Drain.{
  NetworkRoot, Participant, stop_reason, terminal_drain_acknowledged, closing, Worker, StopReads,
  stop,
}
use stacks_k8s.Bitcoin.Drain.Check.{check_drained}
use stacks_k8s.Bitcoin.Drain.Pause.{acknowledge_pause, IsPaused, acknowledge_pause-IsPaused}
use stacks_k8s.Bitcoin.Drain.Handover.{Sent, stop_closes, stop_sends}
use stacks_k8s.Bitcoin.Drain.Disposal.{stop_releases}

abbrev stopped_network : NetworkRoot
stopped_network = record {
  meta = network;
  operation = "Stopped";
  participants = record { name = "btc"; kind = "BitcoinNode" } ∷ [];
  phase = "Running";
  conditions = [];
  identities = [];
  execution_refs = some (bound "BitcoinExecution" "other" ∷ bound "BitcoinExecution" "exec" ∷ []);
}

abbrev node : Participant
node = record {
  meta = named "node" "node";
  network_uid = "net";
  participant_name = "btc";
  kind = "BitcoinNode";
  control = none;
}

abbrev reserved : BitcoinActionReservation
reserved = record {
  request = bound "BitcoinReorganization" "reorg";
  reorganization = true;
  stop_reason = "";
  effect_uncertain = false;
  invalidation_acknowledged = true;
  cleanup_acknowledged = false;
  cleanup_unsafe = false;
}

abbrev armed : BitcoinExecution
armed = record execution {
  status = record execution.status { armed = some receipt.request; action = some reserved };
}

abbrev other : BitcoinExecution
other = record execution {
  meta = named "other" "other";
  spec = record execution.spec { participant = bound "StacksNetworkParticipant" "another" };
}

abbrev worker : Worker
worker = record { process_nonce = "n"; closed = false; active = true }

abbrev reads : StopReads
reads = record {
  root = ok stopped_network;
  participant = ok (some node);
  started = 60;
  active_after = true;
  reread = ok armed;
  finished = 61;
  update = none;
}

abbrev written : BitcoinExecution
written = record armed {
  status = record armed.status {
    action = some (record reserved {
      stop_reason = "NetworkStopped";
      effect_uncertain = true;
      cleanup_unsafe = true;
    });
    phase = "Blocked";
    drain = some (record {
      process_nonce = "n";
      network_generation = pos 1;
      reason = "NetworkStopped";
      requested_at = 60;
      completed_at = 61;
      outcome = "Uncertain";
    });
  };
}

stop_sends_written : (stop worker reads armed).sent ≡ some written
unfolding stop stop_reason terminal_drain_acknowledged closing
stop_sends_written = refl

stop_closes_example :
    (((stop worker reads armed).stopped ≡ true) × ((stop worker reads armed).worker.closed ≡ true))
    ⊎ (((stop worker reads armed).stopped ≡ false)
        × ((stop worker reads armed).worker ≡ worker)
        × ((stop worker reads armed).sent ≡ none))
stop_closes_example = stop_closes worker reads armed

stop_sends_example : Sent worker reads armed written
stop_sends_example = stop_sends worker reads armed written stop_sends_written

-- The API server, which holds two execution records.
abbrev served : String → Result BitcoinExecution
served name =
    if name == "exec" then ok written else if name == "other" then ok other else err "not found"

still_stopping : (stop_reason stopped_network (some node) == "") ≡ false
unfolding stop_reason
still_stopping = refl

stop_releases_example :
    check_drained owned (ok stopped_network) served (ok none) (ok node) node ≡ ok true
stop_releases_example =
    stop_releases worker reads armed written owned served (ok none) stopped_network stopped_network
      node node (bound "BitcoinExecution" "other" ∷ []) (bound "BitcoinExecution" "exec") []
      stop_sends_written refl refl (omega arith) refl still_stopping refl
      ((other, refl, refl, refl), tt) refl refl refl

abbrev paused_network : NetworkRoot
paused_network = record stopped_network { operation = "Paused" }

abbrev quiet_worker : Worker
quiet_worker = record worker { active = false }

abbrev acknowledged_record : BitcoinExecution
acknowledged_record = record execution {
  status = record execution.status {
    control = some (record {
      network_generation = pos 1;
      process_nonce = "n";
      operation = "Paused";
      observed_at = 72;
      heartbeat_at = 73;
    });
  };
}

pause_sent :
    (acknowledge_pause quiet_worker (ok paused_network) (λ k. 70 + k) none execution).sent
    ≡ some acknowledged_record
unfolding acknowledge_pause
pause_sent = refl

acknowledge_pause-IsPaused_example :
    IsPaused quiet_worker paused_network (λ k. 70 + k) execution acknowledged_record
acknowledge_pause-IsPaused_example =
    acknowledge_pause-IsPaused quiet_worker paused_network (λ k. 70 + k) none execution
      acknowledged_record pause_sent
