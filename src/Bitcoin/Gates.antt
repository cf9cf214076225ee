-- ===== src/Bitcoin/Gates.antt =====
-- operators/network/internal/bitcoincontrol/gates.go, `currentGate`: which frozen gate bounds
-- generation now. The genesis record that the API returns, the digests of
-- operators/network/internal/foundation (SHA-256 of a canonical encoding) and the metadata test of
-- Kubernetes' apimachinery are arguments.
pub mod Ladder
pub mod Recorded
pub mod Order
use stacks_k8s.Common.{
  ℕ, zero, suc, ◌+◌, ◌≡◌, String, Bool, true, false, not, ◌&&◌, ◌||◌, Option, none, some, List, [],
  ◌∷◌, ltb, ◌==◌, ◌/=◌, string_eq, nat_eq, if◌then◌else◌, length, get_elem?, is_some, is_none,
  Result, ok, err, ◌>>=◌,
}
use stacks_k8s.Common.Int.{ℤ, pos, negsuc, ltb_ℤ, leb_ℤ, int_eq}
use stacks_k8s.Bitcoin.Types.{ObjectMeta, Binding, BitcoinInitialization}

pub record Gate : Type 0 where
  pub name : String
  pub bitcoin_ceiling : ℤ
  pub target_cycle : Option ℤ

pub record GateObservation : Type 0 where
  pub name : String
  pub first_ceiling_observed_at : Option ℕ
  pub completed_at : Option ℕ

pub record InitializationStatus : Type 0 where
  pub genesis_uid : String
  pub genesis_digest : String
  pub gate_index : ℤ
  pub authorized_ceiling : ℤ
  pub completed : Bool
  pub gates : List GateObservation

-- What `currentGate` reads of the network and of its genesis; `chain_digest` and `spec_digest` are
-- the digests of the genesis' chain and of its whole specification.
pub record NetworkView : Type 0 where
  pub meta : ObjectMeta
  pub genesis_ref : Option Binding
  pub genesis_digest : String
  pub initialization : Option InitializationStatus

pub record StacksGenesis : Type 0 where
  pub meta : ObjectMeta
  pub source_network_uid : String
  pub gates : List Gate
  pub chain_digest : String
  pub spec_digest : String

pub record GateAuthority : Type 0 where
  pub genesis : StacksGenesis
  pub gate : Gate
  pub index : ℕ

-- `len(gates) == 0 || gates[0].Name != ... || gates[0].BitcoinCeiling != ...`, negated.
abbrev pub first_gate_frozen : ℤ → List Gate → Bool
first_gate_frozen minimum [] = false
first_gate_frozen minimum (g ∷ gs) = g.name == "PrepareBitcoin" && g.bitcoin_ceiling == minimum

-- The loop over the gates, from index `i` on; `previous` is the ceiling of the gate before.
pub check_gates : ℕ → ℕ → Option ℤ → List Gate → List GateObservation → Result (Unit {0})
check_gates index i previous [] observed = ok tt
check_gates index i previous (g ∷ gs) [] = err "bootstrap ceiling differs from frozen requirements"
check_gates index i previous (g ∷ gs) (o ∷ os) =
    let rest = check_gates index (suc i) (some g.bitcoin_ceiling) gs os in
    if o.name /= g.name || elim previous [ none ↦ false | some c ↦ leb_ℤ g.bitcoin_ceiling c ]
    then err "bootstrap gate order differs"
    else if ltb i index && is_none o.completed_at
    then err "prior bootstrap gate is incomplete"
    else if not (ltb i index) && is_some o.completed_at
    then err "bootstrap completion index differs"
    else rest

-- `gates[index]`, where it is in range and its ceiling is the authorized one.
ceiling_at : List Gate → ℤ → ℕ → Option Gate
ceiling_at gates authorized index = elim (get_elem? gates index) [
  | none ↦ none
  | some g ↦ if g.bitcoin_ceiling == authorized then some g else none
]

initial_gate : StacksGenesis → BitcoinInitialization → List Gate → Result GateAuthority
initial_gate genesis initial [] = err "initial frozen gate unavailable"
initial_gate genesis initial (g ∷ gs) =
    if g.name /= "PrepareBitcoin" || g.bitcoin_ceiling /= initial.spec.minimum_height
    then err "initial frozen gate unavailable"
    else ok (record { genesis = genesis; gate = g; index = 0 })

gate_at :
    StacksGenesis
    → BitcoinInitialization
    → InitializationStatus
    → ℕ
    → Option Gate
    → Result GateAuthority
unfolding check_gates
gate_at genesis initial state index none = err "bootstrap ceiling differs from frozen requirements"
gate_at genesis initial state index (some gate) =
    if length state.gates /= length genesis.gates
      || not (first_gate_frozen initial.spec.minimum_height genesis.gates)
    then err "bootstrap ceiling differs from frozen requirements"
    else check_gates index 0 none genesis.gates state.gates >>= λ _.
        if ltb 0 index && is_none initial.status.prepared_at
        then err "missing retained Bitcoin preparation"
        else ok (record { genesis = genesis; gate = gate; index = index })

-- `int(state.GateIndex)`: a negative index is refused.
pub retained_gate :
    StacksGenesis → BitcoinInitialization → InitializationStatus → ℤ → Result GateAuthority
unfolding gate_at ceiling_at
retained_gate genesis initial state (negsuc n) =
    err "bootstrap ceiling differs from frozen requirements"
retained_gate genesis initial state (pos n) =
    gate_at genesis initial state n (ceiling_at genesis.gates state.authorized_ceiling n)

stated :
    NetworkView
    → BitcoinInitialization
    → Binding
    → StacksGenesis
    → Option InitializationStatus
    → Result GateAuthority
unfolding retained_gate initial_gate
stated root initial ref genesis none = initial_gate genesis initial genesis.gates
stated root initial ref genesis (some state) =
    if state.completed
      || leb_ℤ state.authorized_ceiling (pos 0)
      || state.genesis_uid /= ref.uid
      || state.genesis_digest /= root.genesis_digest
    then err "bootstrap gate authority unavailable"
    else retained_gate genesis initial state state.gate_index

identified :
    (ObjectMeta → ObjectMeta → Bool)
    → NetworkView
    → BitcoinInitialization
    → Binding
    → Result StacksGenesis
    → Result GateAuthority
unfolding stated
identified is_controlled_by root initial ref (err e) = err e
identified is_controlled_by root initial ref (ok genesis) =
    if genesis.meta.uid /= ref.uid
      || genesis.source_network_uid /= root.meta.uid
      || is_some genesis.meta.deletion_timestamp
      || not (is_controlled_by genesis.meta root.meta)
      || genesis.chain_digest /= root.genesis_digest
      || genesis.spec_digest /= ref.fingerprint
    then err "bootstrap genesis identity differs"
    else stated root initial ref genesis root.initialization

referenced :
    (ObjectMeta → ObjectMeta → Bool)
    → (String → Result StacksGenesis)
    → NetworkView
    → BitcoinInitialization
    → Option Binding
    → Result GateAuthority
unfolding identified
referenced is_controlled_by get root initial none = err "bootstrap gate authority unavailable"
referenced is_controlled_by get root initial (some ref) =
    if ref.kind /= "StacksGenesis"
      || ref.name /= initial.spec.genesis.name
      || ref.uid /= initial.spec.genesis.uid
      || ref.fingerprint /= initial.spec.genesis.fingerprint
    then err "bootstrap gate authority unavailable"
    else identified is_controlled_by root initial ref (get ref.name)

unfoldable pub current_gate :
    (ObjectMeta → ObjectMeta → Bool)
    → (String → Result StacksGenesis)
    → NetworkView
    → BitcoinInitialization
    → Result GateAuthority
unfolding referenced
current_gate is_controlled_by get root initial =
    referenced is_controlled_by get root initial root.genesis_ref
