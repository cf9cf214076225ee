-- ===== src/Bitcoin/Examples.antt =====
-- Runs of the Bitcoin control plane at concrete inputs, and the theorems there.
use stacks_k8s.Common.{
  ◌≤◌, List, ◌≡◌, refl, ◌⊎◌, ◌↔◌, true, false, ◌||◌, none, some, [], ◌∷◌, arith, ◌==◌, string_eq,
  option_eq, replicate, ok,
}
use stacks_k8s.Common.Int.{ℤ, pos, ◌≤ℤ◌, ◌+ℤ◌, sub64}
use stacks_k8s.Encoding.Hex.{canonical_hash}
use stacks_k8s.Bitcoin.Types.{BitcoinBlockOffer, BitcoinExecution}
use stacks_k8s.Bitcoin.Batch.{
  offer_blocks, offer_count_authorized, offer_count_authorized_bounds, bootstrap_batch,
  bootstrap_batch_authorized,
}
use stacks_k8s.Bitcoin.Receipts.{add_funding, hash_valid, account_bootstrap_receipt}
use stacks_k8s.Bitcoin.Receipts.Ends.{hash_valid-canonical_hash}
use stacks_k8s.Bitcoin.Receipts.Calls.{Call, consumed_numbers, Above, occurrences}
use stacks_k8s.Bitcoin.Receipts.Accounting.{Accounts, account_consumes, account_once}
use stacks_k8s.Bitcoin.Gates.{
  InitializationStatus, NetworkView, StacksGenesis, GateAuthority, current_gate,
}
use stacks_k8s.Bitcoin.Gates.Order.{Frozen, current_gate-Frozen}
use stacks_k8s.Bitcoin.Fixtures.{named, owned, initial, opportunity, receipt, execution, network}

opportunity_authorized : offer_count_authorized initial.spec opportunity ≡ true
unfolding offer_count_authorized sub64
opportunity_authorized = refl

offer_count_authorized_bounds_example :
    (pos 0 ≤ℤ opportunity.expected_height)
    × (pos 1 ≤ℤ offer_blocks opportunity)
    × (opportunity.expected_height +ℤ offer_blocks opportunity ≤ℤ opportunity.ceiling)
    × ((offer_blocks opportunity ≡ pos 1)
        ⊎ ((initial.spec.batch_generation ≡ true)
            × (offer_blocks opportunity ≤ℤ pos 500)
            × (opportunity.ceiling ≡ initial.spec.minimum_height)
            × ((opportunity.mode == "" || opportunity.mode == "Bootstrap") ≡ true)))
offer_count_authorized_bounds_example =
    offer_count_authorized_bounds initial.spec opportunity (omega arith) (omega arith)
      opportunity_authorized

ten_selected : pos 10 ≡ bootstrap_batch initial.spec (pos 100) (pos 200) (pos 10)
unfolding bootstrap_batch sub64
ten_selected = refl

bootstrap_batch_authorized_example :
    (offer_count_authorized initial.spec opportunity ≡ true)
    × (pos 1 ≤ℤ pos 10 → offer_blocks opportunity ≤ℤ pos 10)
bootstrap_batch_authorized_example =
    bootstrap_batch_authorized initial.spec opportunity (pos 10) (omega arith) (omega arith)
      (omega arith) (omega arith) refl ten_selected

hash_valid-canonical_hash_example :
    (hash_valid (replicate 64 98) ≡ true) ↔ (canonical_hash (replicate 64 98) ≡ true)
hash_valid-canonical_hash_example = hash_valid-canonical_hash (replicate 64 98)

abbrev second_opportunity : BitcoinBlockOffer
second_opportunity = record opportunity { number = pos 2; expected_height = pos 110 }

abbrev second_execution : BitcoinExecution
second_execution = record execution {
  status = record execution.status {
    completed_offer = pos 2;
    last_receipt =
        some
          (record receipt { request = record receipt.request { offer = some second_opportunity } });
  };
}

account_consumes_example :
    Accounts owned network initial execution
      (account_bootstrap_receipt owned network initial execution)
account_consumes_example = account_consumes owned network initial execution

-- The receipt, the receipt of a later offer, and the first one again.
abbrev calls : List Call
calls =
    record { network = network; execution = execution }
    ∷ record { network = network; execution = second_execution }
    ∷ record { network = network; execution = execution }
    ∷ []

two_consumed : consumed_numbers owned initial calls ≡ pos 1 ∷ pos 2 ∷ []
unfolding consumed_numbers account_bootstrap_receipt add_funding offer_count_authorized sub64
two_consumed = refl

account_once_example :
    Above (pos 0) (consumed_numbers owned initial calls)
    × ((n : ℤ) → occurrences n (consumed_numbers owned initial calls) ≤ 1)
account_once_example = account_once owned initial calls

abbrev genesis : StacksGenesis
genesis = record {
  meta = named "genesis" "gen";
  source_network_uid = "net";
  gates =
      record { name = "PrepareBitcoin"; bitcoin_ceiling = pos 200; target_cycle = none }
      ∷ record { name = "Pox4"; bitcoin_ceiling = pos 240; target_cycle = some (pos 12) }
      ∷ [];
  chain_digest = "chain";
  spec_digest = "f";
}

abbrev progress : InitializationStatus
progress = record {
  genesis_uid = "gen";
  genesis_digest = "chain";
  gate_index = pos 1;
  authorized_ceiling = pos 240;
  completed = false;
  gates =
      record { name = "PrepareBitcoin"; first_ceiling_observed_at = some 3; completed_at = some 4 }
      ∷ record { name = "Pox4"; first_ceiling_observed_at = none; completed_at = none }
      ∷ [];
}

abbrev view : NetworkView
view = record {
  meta = network;
  genesis_ref =
      some (record { kind = "StacksGenesis"; name = "gen"; uid = "gen"; fingerprint = "f" });
  genesis_digest = "chain";
  initialization = some progress;
}

abbrev second_gate : GateAuthority
second_gate = record {
  genesis = genesis;
  gate = record { name = "Pox4"; bitcoin_ceiling = pos 240; target_cycle = some (pos 12) };
  index = 1;
}

second_gate_current : current_gate owned (λ name. ok genesis) view initial ≡ ok second_gate
unfolding current_gate
second_gate_current = refl

current_gate-Frozen_example : Frozen owned (λ name. ok genesis) view initial second_gate
current_gate-Frozen_example =
    current_gate-Frozen owned (λ name. ok genesis) view initial second_gate second_gate_current
