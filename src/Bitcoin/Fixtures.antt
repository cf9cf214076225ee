-- ===== src/Bitcoin/Fixtures.antt =====
-- The objects that the examples run on: a network, its Bitcoin initialization and an execution
-- record with a receipt for ten blocks.
use stacks_k8s.Common.{
  String, Bool, true, none, some, [], ◌∷◌, ◌==◌, string_eq, option_eq, replicate,
}
use stacks_k8s.Common.Int.{pos}
use stacks_k8s.Bitcoin.Types.{
  ObjectMeta, Binding, capture, BitcoinBlockOffer, BitcoinRpcReceipt, FrozenBitcoinWallet,
  BitcoinInitialization, BitcoinExecution,
}

abbrev pub named : String → String → ObjectMeta
named name uid = record {
  name = name;
  uid = uid;
  generation = pos 1;
  deletion_timestamp = none;
  owner = some "net";
}

abbrev pub bound : String → String → Binding
bound kind uid = record { kind = kind; name = uid; uid = uid; fingerprint = "f" }

-- The test of ownership by the UID of the controller reference.
abbrev pub owned : ObjectMeta → ObjectMeta → Bool
owned child parent = child.owner == some parent.uid

abbrev pub wallet : String → FrozenBitcoinWallet
wallet uid = record { wallet = bound "Wallet" uid; name = uid; address = uid; descriptor = "d" }

abbrev pub initial : BitcoinInitialization
initial = record {
  meta = named "bootstrap" "init";
  spec = record {
    network_uid = "net";
    genesis = bound "StacksGenesis" "gen";
    production = bound "StacksNetworkParticipant" "prod";
    target = bound "StacksNetworkParticipant" "node";
    nodes = [];
    minimum_height = pos 200;
    mature_outputs_per_miner = pos 10;
    batch_generation = true;
    miner_wallets = wallet "miner" ∷ [];
    payout_wallet = wallet "payout";
  };
  status = record {
    production = none;
    next_opportunity_at = none;
    offer = none;
    last_accounted_offer = pos 0;
    funded = [];
    first_ceiling_observed_at = none;
    prepared_at = some 5;
    phase = "Preparing";
    reason = "";
  };
}

abbrev pub opportunity : BitcoinBlockOffer
opportunity = record {
  count = pos 10;
  override = none;
  mode = "";
  target = none;
  initialization = capture "BitcoinInitialization" initial.meta;
  production = bound "StacksNetworkParticipant" "prod";
  policy_digest = "p";
  number = pos 1;
  address = "miner";
  wallet = bound "Wallet" "miner";
  expected_height = pos 100;
  expected_tip = replicate 64 97;
  ceiling = pos 200;
  expires_at = 50;
}

abbrev pub receipt : BitcoinRpcReceipt
receipt = record {
  request = record {
    action = none;
    address = "miner";
    block_hash = [];
    id = "1";
    process_nonce = "n";
    reservation = capture "BitcoinInitialization" initial.meta;
    target = record {
      participant = bound "StacksNetworkParticipant" "node";
      pod = bound "Pod" "pod";
      container_id = "c";
      endpoint = "e";
      configuration = bound "ConfigMap" "cm";
      credentials = bound "Secret" "s";
      policy_digest = "p";
    };
    method = "Generate";
    wallet = none;
    offer = some opportunity;
    armed_at = 40;
  };
  received_at = 41;
  block_hash = replicate 64 98;
}

abbrev pub execution : BitcoinExecution
execution = record {
  meta = named "execution" "exec";
  spec = record {
    network_uid = "net";
    participant = bound "StacksNetworkParticipant" "node";
    offer = none;
  };
  status = record {
    action = none;
    armed = none;
    last_receipt = some receipt;
    completed_offer = pos 1;
    drain = none;
    control = none;
    observed = true;
    phase = "Ready";
  };
}

abbrev pub network : ObjectMeta
network = record {
  name = "network";
  uid = "net";
  generation = pos 1;
  deletion_timestamp = none;
  owner = none;
}
