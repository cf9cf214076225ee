-- ===== src/Bitcoin/Gates/Order.antt =====
-- What a gate authority guarantees.
use stacks_k8s.Common.{
  ℕ, ◌≡◌, refl, ap, sym, ◌∙◌, String, Bool, true, false, not, ◌||◌, Option, none, some, List, [],
  ◌∷◌, arith, ◌/=◌, string_eq, nat_eq, get_elem?, is_some, Result, ok, err,
}
use stacks_k8s.Common.Int.{int_eq, beq_ℤ_iff}
use mathlib.Core.Path.{subst}
use text.Mathlib.TextEquality.{eq_iff}
use stacks_k8s.Bitcoin.Types.{ObjectMeta, Binding, BitcoinInitialization}
use stacks_k8s.Bitcoin.Gates.{
  Gate, InitializationStatus, NetworkView, StacksGenesis, GateAuthority, initial_gate, stated,
  identified, referenced, current_gate,
}
use stacks_k8s.Bitcoin.Gates.Ladder.{names_agree}
use stacks_k8s.Bitcoin.Gates.Recorded.{Recorded, retained_gate_sound, guard, ok_inj}

-- What an authority rests on: before the network records an initialization, the first frozen gate;
-- afterwards, the gate that the record names.
pub data Stands (root : NetworkView) (initial : BitcoinInitialization) (ref : Binding)
    (a : GateAuthority) : Type 0 where
  first :
      root.initialization ≡ none
      → a.index ≡ 0
      → get_elem? a.genesis.gates 0 ≡ some a.gate
      → a.gate.name ≡ "PrepareBitcoin"
      → a.gate.bitcoin_ceiling ≡ initial.spec.minimum_height
      → Stands root initial ref a
  recorded :
      (state : InitializationStatus)
      → root.initialization ≡ some state
      → state.genesis_uid ≡ ref.uid
      → state.genesis_digest ≡ root.genesis_digest
      → Recorded initial state a
      → Stands root initial ref a

-- What every authority guarantees: the genesis that the network and the initialization name, read
-- from the API, and the gate that stands.
pub record Frozen (is_controlled_by : ObjectMeta → ObjectMeta → Bool)
    (get : String → Result StacksGenesis) (root : NetworkView) (initial : BitcoinInitialization)
    (a : GateAuthority) : Type 0 where
  pub ref : Binding
  pub ref_stated : root.genesis_ref ≡ some ref
  pub ref_kind : ref.kind ≡ "StacksGenesis"
  pub ref_name : ref.name ≡ initial.spec.genesis.name
  pub ref_uid : ref.uid ≡ initial.spec.genesis.uid
  pub ref_fingerprint : ref.fingerprint ≡ initial.spec.genesis.fingerprint
  pub genesis_read : get ref.name ≡ ok a.genesis
  pub genesis_bound : a.genesis.meta.uid ≡ ref.uid
  pub genesis_source : a.genesis.source_network_uid ≡ root.meta.uid
  pub genesis_kept : a.genesis.meta.deletion_timestamp ≡ none
  pub genesis_owned : is_controlled_by a.genesis.meta root.meta ≡ true
  pub genesis_chain : a.genesis.chain_digest ≡ root.genesis_digest
  pub genesis_intact : a.genesis.spec_digest ≡ ref.fingerprint
  pub stands : Stands root initial ref a

-- The answer keeps the genesis that it is given, and its gate stands.
Standing : NetworkView → BitcoinInitialization → Binding → StacksGenesis → GateAuthority → Type 0
Standing root initial ref genesis a = (a.genesis ≡ genesis) × Stands root initial ref a

initial_gate_sound :
    (root : NetworkView) (initial : BitcoinInitialization) (ref : Binding) (genesis : StacksGenesis)
    (gates : List Gate) (a : GateAuthority)
    → genesis.gates ≡ gates
    → root.initialization ≡ none
    → initial_gate genesis initial gates ≡ ok a
    → Standing root initial ref genesis a
unfolding initial_gate Standing
initial_gate_sound root initial ref genesis [] a g s h = absurd (cc)
initial_gate_sound root initial ref genesis (x ∷ xs) a g s h =
    let (same, h1) =
      guard (x.name /= "PrepareBitcoin" || x.bitcoin_ceiling /= initial.spec.minimum_height) _ _ a
        h in
    let made = ok_inj _ a h1 in
    let (named, ceiled) = names_agree x.name "PrepareBitcoin" _ same in
    subst (λ b. (b.genesis ≡ genesis) × Stands root initial ref b) made
      (
        refl,
        first s refl (ap (λ l. get_elem? l 0) g) named
            (ground (arith, ceiled, beq_ℤ_iff x.bitcoin_ceiling initial.spec.minimum_height)),
      )

stated_sound :
    (root : NetworkView) (initial : BitcoinInitialization) (ref : Binding) (genesis : StacksGenesis)
    (o : Option InitializationStatus) (a : GateAuthority)
    → root.initialization ≡ o
    → stated root initial ref genesis o ≡ ok a
    → Standing root initial ref genesis a
unfolding stated Standing
stated_sound root initial ref genesis none a s h =
    initial_gate_sound root initial ref genesis genesis.gates a refl s h
stated_sound root initial ref genesis (some state) a s h =
    let (open_run, h1) = guard _ _ _ a h in
    let (same, r) =
      retained_gate_sound genesis initial state state.gate_index a refl (ground (arith))
        (ground (arith)) h1 in
    (
      same,
      recorded state s (ground (arith, eq_iff state.genesis_uid ref.uid))
          (ground (arith, eq_iff state.genesis_digest root.genesis_digest)) r,
    )

-- The six tests of the genesis that was read.
six_tests :
    (u u' n n' c c' f f' : String) (d : Option ℕ) (o : Bool)
    → (u /= u' || n /= n' || is_some d || not o || c /= c' || f /= f') ≡ false
    → (u ≡ u') × (n ≡ n') × (d ≡ none) × (o ≡ true) × (c ≡ c') × (f ≡ f')
six_tests u u' n n' c c' f f' d o h =
    ground (arith, eq_iff u u', eq_iff n n', eq_iff c c', eq_iff f f')

identified_sound :
    (is_controlled_by : ObjectMeta → ObjectMeta → Bool) (get : String → Result StacksGenesis)
    (root : NetworkView) (initial : BitcoinInitialization) (ref : Binding)
    (r : Result StacksGenesis) (a : GateAuthority)
    → root.genesis_ref ≡ some ref
    → (ref.kind ≡ "StacksGenesis")
      × (ref.name ≡ initial.spec.genesis.name)
      × (ref.uid ≡ initial.spec.genesis.uid)
      × (ref.fingerprint ≡ initial.spec.genesis.fingerprint)
    → get ref.name ≡ r
    → identified is_controlled_by root initial ref r ≡ ok a
    → Frozen is_controlled_by get root initial a
unfolding identified Standing
identified_sound is_controlled_by get root initial ref (err e) a q f g h = absurd (cc)
identified_sound is_controlled_by get root initial ref (ok genesis) a q (k, n, u, f) g h =
    let (tests, h1) = guard _ _ (stated root initial ref genesis root.initialization) a h in
    let (uid, source, kept, owner, chain, intact) = six_tests _ _ _ _ _ _ _ _ _ _ tests in
    let (same, stand) = stated_sound root initial ref genesis root.initialization a refl h1 in
    record {
      ref = ref;
      ref_stated = q;
      ref_kind = k;
      ref_name = n;
      ref_uid = u;
      ref_fingerprint = f;
      genesis_read = g ∙ ap ok (sym same);
      genesis_bound = ap (λ x. x.meta.uid) same ∙ uid;
      genesis_source = ap (λ x. x.source_network_uid) same ∙ source;
      genesis_kept = ap (λ x. x.meta.deletion_timestamp) same ∙ kept;
      genesis_owned = ap (λ x. is_controlled_by x.meta root.meta) same ∙ owner;
      genesis_chain = ap (λ x. x.chain_digest) same ∙ chain;
      genesis_intact = ap (λ x. x.spec_digest) same ∙ intact;
      stands = stand;
    }

four_tests :
    (k k' n n' u u' f f' : String)
    → (k /= k' || n /= n' || u /= u' || f /= f') ≡ false
    → (k ≡ k') × (n ≡ n') × (u ≡ u') × (f ≡ f')
four_tests k k' n n' u u' f f' h =
    ground (arith, eq_iff k k', eq_iff n n', eq_iff u u', eq_iff f f')

referenced_sound :
    (is_controlled_by : ObjectMeta → ObjectMeta → Bool) (get : String → Result StacksGenesis)
    (root : NetworkView) (initial : BitcoinInitialization) (o : Option Binding) (a : GateAuthority)
    → root.genesis_ref ≡ o
    → referenced is_controlled_by get root initial o ≡ ok a
    → Frozen is_controlled_by get root initial a
unfolding referenced
referenced_sound is_controlled_by get root initial none a q h = absurd (cc)
referenced_sound is_controlled_by get root initial (some ref) a q h =
    let (tests, h1) = guard _ _ _ a h in
    identified_sound is_controlled_by get root initial ref (get ref.name) a q
      (four_tests _ _ _ _ _ _ _ _ tests) refl h1

-- Where `current_gate` returns an authority, its genesis is the one read under the network's
-- reference, which agrees with the initialization's in kind, name, UID and fingerprint; that genesis
-- has the referenced UID and fingerprint, is of this network and controlled by it, carries the
-- network's chain digest and is not being deleted. If the network has recorded no initialization,
-- the gate is the first frozen one, PrepareBitcoin, at the minimum height. If it has, for this genesis
-- and chain: the gate is the frozen one at the recorded index and its ceiling is the authorized one
-- and positive; the run is not completed; the frozen ceilings strictly increase and the first gate is
-- the initialization's; frozen and observed gates are equally many and agree in name, exactly those
-- before the index are observed complete, and past the first gate the preparation is recorded.
pub current_gate-Frozen :
    (is_controlled_by : ObjectMeta → ObjectMeta → Bool) (get : String → Result StacksGenesis)
    (root : NetworkView) (initial : BitcoinInitialization) (a : GateAuthority)
    → current_gate is_controlled_by get root initial ≡ ok a
    → Frozen is_controlled_by get root initial a
unfolding current_gate
current_gate-Frozen is_controlled_by get root initial a h =
    referenced_sound is_controlled_by get root initial root.genesis_ref a refl h
