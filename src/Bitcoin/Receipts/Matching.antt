-- ===== src/Bitcoin/Receipts/Matching.antt =====
-- What the tests of a retained receipt say, of the execution record, the receipt and its offer.
use stacks_k8s.Common.{
  ◌≡◌, ◌≢◌, refl, ◌&&◌, ◌==◌, is_none, ◌⊎◌, String, Bool, true, false, not, ◌||◌, Option, none,
  some, arith, ◌/=◌, string_eq, nat_eq,
}
use stacks_k8s.Common.Int.{pos, ◌<ℤ◌, ◌≤ℤ◌, int_eq, beq_ℤ_iff}
use text.Mathlib.TextEquality.{eq_iff}
use stacks_k8s.Bitcoin.Types.{
  ObjectMeta, binding_eq, binding_beq_iff, BitcoinBlockOffer, BitcoinRpcReceipt,
  BitcoinInitialization, BitcoinExecution,
}
use stacks_k8s.Bitcoin.Batch.{offer_count_authorized}
use stacks_k8s.Bitcoin.Receipts.{hash_valid, receipt_matches, offer_matches, initialization_binding}

-- What an account of a receipt has checked: of the execution record, of the receipt and of its offer.
pub record Accounted (is_controlled_by : ObjectMeta → ObjectMeta → Bool) (root : ObjectMeta)
    (initial : BitcoinInitialization) (execution : BitcoinExecution) (receipt : BitcoinRpcReceipt)
    (offer : BitcoinBlockOffer) : Type 0 where
  pub network_named : execution.spec.network_uid ≡ root.uid
  pub controlled : is_controlled_by execution.meta root ≡ true
  pub participant_named : execution.spec.participant ≡ initial.spec.target
  pub retained_receipt : execution.status.last_receipt ≡ some receipt
  pub generated : receipt.request.method ≡ "Generate"
  pub no_action : receipt.request.action ≡ none
  pub retained_offer : receipt.request.offer ≡ some offer
  pub reserved : receipt.request.reservation ≡ initialization_binding initial
  pub on_target : receipt.request.target.participant ≡ initial.spec.target
  pub attributable : hash_valid receipt.block_hash ≡ true
  pub bootstrap : (offer.mode ≡ "") ⊎ (offer.mode ≡ "Bootstrap")
  pub initialization : offer.initialization ≡ initialization_binding initial
  pub production_kind : offer.production.kind ≡ "StacksNetworkParticipant"
  pub production_uid : offer.production.uid ≢ ""
  pub production_name : offer.production.name ≢ ""
  pub newer : initial.status.last_accounted_offer <ℤ offer.number
  pub completed : offer.number ≡ execution.status.completed_offer
  pub height : pos 0 ≤ℤ offer.expected_height
  pub below : offer.expected_height <ℤ offer.ceiling
  pub authorized : offer_count_authorized initial.spec offer ≡ true

-- What the tests of the execution record say.
pub record Named (is_controlled_by : ObjectMeta → ObjectMeta → Bool) (root : ObjectMeta)
    (initial : BitcoinInitialization) (execution : BitcoinExecution) : Type 0 where
  pub network_named : execution.spec.network_uid ≡ root.uid
  pub controlled : is_controlled_by execution.meta root ≡ true
  pub participant_named : execution.spec.participant ≡ initial.spec.target

-- What the tests of the receipt say.
pub record Matched (initial : BitcoinInitialization) (receipt : BitcoinRpcReceipt) : Type 0 where
  pub generated : receipt.request.method ≡ "Generate"
  pub no_action : receipt.request.action ≡ none
  pub reserved : receipt.request.reservation ≡ initialization_binding initial
  pub on_target : receipt.request.target.participant ≡ initial.spec.target
  pub attributable : hash_valid receipt.block_hash ≡ true

-- What the tests of the offer say.
pub record Offered (initial : BitcoinInitialization) (execution : BitcoinExecution)
    (offer : BitcoinBlockOffer) : Type 0 where
  pub bootstrap : (offer.mode ≡ "") ⊎ (offer.mode ≡ "Bootstrap")
  pub initialization : offer.initialization ≡ initialization_binding initial
  pub production_kind : offer.production.kind ≡ "StacksNetworkParticipant"
  pub production_uid : offer.production.uid ≢ ""
  pub production_name : offer.production.name ≢ ""
  pub newer : initial.status.last_accounted_offer <ℤ offer.number
  pub completed : offer.number ≡ execution.status.completed_offer
  pub height : pos 0 ≤ℤ offer.expected_height
  pub below : offer.expected_height <ℤ offer.ceiling
  pub authorized : offer_count_authorized initial.spec offer ≡ true

and_parts : (b c : Bool) → (b && c) ≡ true → (b ≡ true) × (c ≡ true)
and_parts b c h = ground arith

in_bootstrap : (m : String) → (m == "" || m == "Bootstrap") ≡ true → (m ≡ "") ⊎ (m ≡ "Bootstrap")
in_bootstrap m h = ground (arith, eq_iff m "", eq_iff m "Bootstrap")

differs : (a b : String) → (a /= b) ≡ true → a ≢ b
differs a b h = λ e. ground (arith, eq_iff a b)

is_none_sound : {A : Type 0} (o : Option A) → is_none o ≡ true → o ≡ none
is_none_sound none h = refl
is_none_sound (some x) h = absurd (cc)

pub offer_matches-Offered :
    (initial : BitcoinInitialization) (execution : BitcoinExecution) (offer : BitcoinBlockOffer)
    → offer_matches initial execution offer ≡ true
    → Offered initial execution offer
unfolding offer_matches
offer_matches-Offered initial execution offer h =
    let (h1, authorized) = and_parts _ _ h in
    let (h2, below) = and_parts _ _ h1 in
    let (h3, height) = and_parts _ _ h2 in
    let (h4, completed) = and_parts _ _ h3 in
    let (h5, newer) = and_parts _ _ h4 in
    let (h6, name) = and_parts _ _ h5 in
    let (h7, uid) = and_parts _ _ h6 in
    let (h8, kind) = and_parts _ _ h7 in
    let (mode, init) =
      and_parts (offer.mode == "" || offer.mode == "Bootstrap")
        (offer.initialization == initialization_binding initial) h8 in
    record {
      bootstrap = in_bootstrap offer.mode mode;
      initialization =
          (binding_beq_iff offer.initialization (initialization_binding initial)).0 init;
      production_kind = (eq_iff offer.production.kind "StacksNetworkParticipant").0 kind;
      production_uid = differs offer.production.uid "" uid;
      production_name = differs offer.production.name "" name;
      newer = ground (arith, newer);
      completed = (beq_ℤ_iff offer.number execution.status.completed_offer).0 completed;
      height = ground (arith, height);
      below = ground (arith, below);
      authorized = authorized;
    }

pub receipt_matches-Matched :
    (initial : BitcoinInitialization) (receipt : BitcoinRpcReceipt)
    → receipt_matches initial receipt ≡ true
    → Matched initial receipt
unfolding receipt_matches
receipt_matches-Matched initial receipt h =
    let (h1, hash) = and_parts _ _ h in
    let (h2, target) = and_parts _ _ h1 in
    let (h3, reserved) = and_parts _ _ h2 in
    let (method, action) = and_parts _ _ h3 in
    record {
      generated = (eq_iff receipt.request.method "Generate").0 method;
      no_action = is_none_sound receipt.request.action action;
      reserved =
          (binding_beq_iff receipt.request.reservation (initialization_binding initial)).0 reserved;
      on_target = (binding_beq_iff receipt.request.target.participant initial.spec.target).0 target;
      attributable = hash;
    }

pub execution_parts :
    (is_controlled_by : ObjectMeta → ObjectMeta → Bool) (root : ObjectMeta)
    (initial : BitcoinInitialization) (execution : BitcoinExecution)
    → (execution.spec.network_uid /= root.uid
        || not (is_controlled_by execution.meta root)
        || execution.spec.participant /= initial.spec.target)
      ≡ false
    → Named is_controlled_by root initial execution
execution_parts is_controlled_by root initial execution e = record {
  network_named = ground (arith, e, eq_iff execution.spec.network_uid root.uid);
  controlled = ground (arith, e);
  participant_named =
      ground (arith, e, binding_beq_iff execution.spec.participant initial.spec.target);
}
