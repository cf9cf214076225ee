-- ===== src/Bitcoin/Batch.antt =====
-- operators/network/internal/bitcoincontrol/generation_batch.go: how many blocks one opportunity may
-- generate, where it is selected and where it is authorized.
use stacks_k8s.Common.{
  ◌∙◌, ◌≡◌, ◌⊎◌, inl, inr, Bool, true, false, ◌&&◌, ◌||◌, arith, ◌==◌, ◌/=◌, string_eq,
  if◌then◌else◌, Bool-cases,
}
use stacks_k8s.Common.Int.{
  ℤ, pos, ◌≤ℤ◌, ◌<ℤ◌, ltb_ℤ, leb_ℤ, min_ℤ, int_eq, sub64, sub64_parts, FitsInt64, beq_ℤ_iff, ◌+ℤ◌,
  int_laws,
}
use text.Mathlib.TextEquality.{eq_iff}
use stacks_k8s.Bitcoin.Types.{BitcoinBlockOffer, BitcoinInitializationSpec}

-- `MaxGeneratedBlocks` of libs/bitcoin/rpc.
abbrev pub max_generated_blocks : ℤ
max_generated_blocks = pos 500

unfoldable pub offer_blocks : BitcoinBlockOffer → ℤ
offer_blocks offer = if ltb_ℤ offer.count (pos 1) then pos 1 else offer.count

unfoldable pub batch_limit : BitcoinInitializationSpec → ℤ
batch_limit spec = if spec.batch_generation then max_generated_blocks else pos 1

unfoldable pub offer_count_authorized : BitcoinInitializationSpec → BitcoinBlockOffer → Bool
unfolding offer_blocks batch_limit
offer_count_authorized spec offer =
    let blocks = offer_blocks offer in
    if ltb_ℤ offer.count (pos 0)
    then false
    else if ltb_ℤ offer.expected_height (pos 0)
        || leb_ℤ offer.ceiling offer.expected_height
        || ltb_ℤ (sub64 offer.ceiling offer.expected_height) blocks
    then false
    else if blocks == pos 1
    then true
    else (offer.mode == "" || offer.mode == "Bootstrap")
      && offer.ceiling == spec.minimum_height
      && leb_ℤ blocks (batch_limit spec)

-- `int32(blocks)`: the value is at most 500.
unfoldable pub bootstrap_batch : BitcoinInitializationSpec → ℤ → ℤ → ℤ → ℤ
unfolding batch_limit
bootstrap_batch spec height ceiling remaining =
    let room = min_ℤ (min_ℤ (batch_limit spec) (sub64 ceiling height)) max_generated_blocks in
    let blocks = if ltb_ℤ (pos 0) remaining then min_ℤ room remaining else room in
    if leb_ℤ blocks (pos 1) || ceiling /= spec.minimum_height then pos 0 else blocks

authorized_room :
    (spec : BitcoinInitializationSpec) (offer : BitcoinBlockOffer)
    → offer_count_authorized spec offer ≡ true
    → (pos 0 ≤ℤ offer.expected_height)
      × (offer.expected_height <ℤ offer.ceiling)
      × (offer_blocks offer ≤ℤ sub64 offer.ceiling offer.expected_height)
unfolding offer_count_authorized
authorized_room spec offer h = ground arith

authorized_batch :
    (spec : BitcoinInitializationSpec) (offer : BitcoinBlockOffer)
    → offer_count_authorized spec offer ≡ true
    → (offer_blocks offer ≡ pos 1)
      ⊎ ((spec.batch_generation ≡ true)
          × (offer_blocks offer ≤ℤ pos 500)
          × (offer.ceiling ≡ spec.minimum_height)
          × ((offer.mode == "" || offer.mode == "Bootstrap") ≡ true))
authorized_batch spec offer h = elim (Bool-cases (offer_blocks offer == pos 1)) [
  | inl e ↦ inl ((beq_ℤ_iff (offer_blocks offer) (pos 1)).0 e)
  | inr e ↦ inr (batch e)
]
  where
    batch :
        (offer_blocks offer == pos 1) ≡ false
        → (spec.batch_generation ≡ true)
          × (offer_blocks offer ≤ℤ pos 500)
          × (offer.ceiling ≡ spec.minimum_height)
          × ((offer.mode == "" || offer.mode == "Bootstrap") ≡ true)
    batch e =
        unfold offer_count_authorized in ground (arith, beq_ℤ_iff offer.ceiling spec.minimum_height)

offer_blocks_pos : (offer : BitcoinBlockOffer) → pos 1 ≤ℤ offer_blocks offer
unfolding offer_blocks
offer_blocks_pos offer = ground arith

-- An authorized opportunity ends at or below its ceiling, and starts at a height. More than one block
-- is generated only for a bootstrap opportunity of a batching initialization, at most 500, under the
-- frozen first ceiling.
pub offer_count_authorized_bounds :
    (spec : BitcoinInitializationSpec) (offer : BitcoinBlockOffer)
    → FitsInt64 offer.expected_height
    → FitsInt64 offer.ceiling
    → offer_count_authorized spec offer ≡ true
    → (pos 0 ≤ℤ offer.expected_height)
      × (pos 1 ≤ℤ offer_blocks offer)
      × (offer.expected_height +ℤ offer_blocks offer ≤ℤ offer.ceiling)
      × ((offer_blocks offer ≡ pos 1)
          ⊎ ((spec.batch_generation ≡ true)
              × (offer_blocks offer ≤ℤ pos 500)
              × (offer.ceiling ≡ spec.minimum_height)
              × ((offer.mode == "" || offer.mode == "Bootstrap") ≡ true)))
offer_count_authorized_bounds spec offer fh fc h =
    let (low, below, room) = authorized_room spec offer h in
    let one = offer_blocks_pos offer in
    let exact = sub64_parts offer.ceiling offer.expected_height (omega arith) fc low fh in
    (low, one, omega int_laws, authorized_batch spec offer h)

single :
    (spec : BitcoinInitializationSpec) (offer : BitcoinBlockOffer) (remaining : ℤ)
    → pos 0 ≤ℤ offer.expected_height
    → offer.expected_height <ℤ offer.ceiling
    → offer.count ≡ pos 0
    → pos 1 ≤ℤ sub64 offer.ceiling offer.expected_height
    → (offer_count_authorized spec offer ≡ true)
      × (pos 1 ≤ℤ remaining → offer_blocks offer ≤ℤ remaining)
unfolding offer_count_authorized
single spec offer remaining low below c room = (ground arith, ground arith)

batch_value :
    (spec : BitcoinInitializationSpec) (height ceiling remaining : ℤ)
    → let b = bootstrap_batch spec height ceiling remaining in
      (b ≡ pos 0)
      ⊎ ((pos 2 ≤ℤ b)
          × (b ≤ℤ batch_limit spec)
          × (b ≤ℤ sub64 ceiling height)
          × (ceiling ≡ spec.minimum_height)
          × (pos 1 ≤ℤ remaining → b ≤ℤ remaining))
batch_value spec height ceiling remaining =
    elim (Bool-cases (bootstrap_batch spec height ceiling remaining == pos 0)) [
      | inl e ↦ inl ((beq_ℤ_iff _ (pos 0)).0 e)
      | inr e ↦ inr (
        unfold bootstrap_batch in ground arith,
        unfold bootstrap_batch in ground arith,
        unfold bootstrap_batch in ground arith,
        unfold bootstrap_batch in ground (arith, beq_ℤ_iff ceiling spec.minimum_height),
        unfold bootstrap_batch in ground arith,
      )
    ]

batched :
    (spec : BitcoinInitializationSpec) (offer : BitcoinBlockOffer) (remaining b : ℤ)
    → pos 0 ≤ℤ offer.expected_height
    → offer.expected_height <ℤ offer.ceiling
    → offer.mode ≡ ""
    → offer.count ≡ b
    → pos 2 ≤ℤ b
    → b ≤ℤ batch_limit spec
    → b ≤ℤ sub64 offer.ceiling offer.expected_height
    → offer.ceiling ≡ spec.minimum_height
    → (pos 1 ≤ℤ remaining → b ≤ℤ remaining)
    → (offer_count_authorized spec offer ≡ true)
      × (pos 1 ≤ℤ remaining → offer_blocks offer ≤ℤ remaining)
unfolding offer_count_authorized
batched spec offer remaining b low below m c two limit room first need = (
  ground (arith, eq_iff offer.mode "", beq_ℤ_iff offer.ceiling spec.minimum_height),
  ground arith,
)

-- What the scheduler selects the worker authorizes: an opportunity of the first gate with the
-- selected count, at a height below its ceiling, is authorized, and funds no more outputs than remain.
pub bootstrap_batch_authorized :
    (spec : BitcoinInitializationSpec) (offer : BitcoinBlockOffer) (remaining : ℤ)
    → FitsInt64 offer.expected_height
    → FitsInt64 offer.ceiling
    → pos 0 ≤ℤ offer.expected_height
    → offer.expected_height <ℤ offer.ceiling
    → offer.mode ≡ ""
    → offer.count ≡ bootstrap_batch spec offer.expected_height offer.ceiling remaining
    → (offer_count_authorized spec offer ≡ true)
      × (pos 1 ≤ℤ remaining → offer_blocks offer ≤ℤ remaining)
bootstrap_batch_authorized spec offer remaining fh fc low below m c =
    let exact = sub64_parts offer.ceiling offer.expected_height (omega arith) fc low fh in
    elim (batch_value spec offer.expected_height offer.ceiling remaining) [
      | inl z ↦ single spec offer remaining low below (c ∙ z) (omega arith)
      | inr (two, limit, room, first, need) ↦
          batched spec offer remaining _ low below m c two limit room first need
    ]
