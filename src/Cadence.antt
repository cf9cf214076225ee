-- ===== src/Cadence.antt =====
-- operators/network/internal/cadence/cadence.go and
-- operators/network/internal/bitcoincontrol/action_cadence.go: the bounded delays between generated
-- blocks, with apis/network/actions/v1alpha2/cadence.go. The random number of math/rand/v2, seeded
-- by the SHA-256 digest of a key, is an argument: `int_n key n` is the `IntN(n)` of that key.
-- Durations and times are nanoseconds; a time counts from Go's zero time.
pub mod Delays
pub mod Examples
use stacks_k8s.Common.{
  ℕ, zero, suc, ◌+◌, ◌-◌, ◌*◌, ◌%◌, ◌≡◌, String, Bool, true, false, not, ◌&&◌, ◌||◌, Option, none,
  some, List, [], ◌∷◌, ltb, leb, ◌==◌, ◌/=◌, string_eq, nat_eq, if◌then◌else◌, length, get_elem?,
  all, Result, ok, err, ◌>>=◌,
}
use stacks_k8s.Common.Int.{ℤ, pos, negsuc, ltb_ℤ, leb_ℤ, int_eq, ◌-ℤ◌, pos_part}

abbrev pub second : ℕ
second = 1_000_000_000

unfoldable pub seconds : (String → ℕ → ℕ) → ℤ → ℤ → String → Result ℕ
seconds int_n (negsuc l) upper key = err "invalid cadence bounds"
seconds int_n (pos lower) (negsuc u) key = err "invalid cadence bounds"
seconds int_n (pos lower) (pos upper) key =
    if ltb upper lower || ltb 86_400 upper
    then err "invalid cadence bounds"
    else ok ((lower + int_n key (upper - lower + 1)) * second)

-- Rounds up to a microsecond.
unfoldable pub due : ℕ → ℕ → ℕ
due anchor delay =
    let value = anchor + delay in
    let rounded = value - value % 1000 in if ltb rounded value then rounded + 1000 else rounded

pub record GenerationCadence : Type 0 where
  pub mode : String
  pub interval_seconds : ℤ
  pub min_seconds : ℤ
  pub max_seconds : ℤ
  pub delays_seconds : List ℤ

abbrev pub within : ℤ → ℤ → ℤ → Bool
within lower upper x = leb_ℤ lower x && leb_ℤ x upper

-- The first test: fields of another mode are zero.
abbrev pub misplaced : GenerationCadence → ℤ → Bool
misplaced c count =
    ltb_ℤ count (pos 1)
    || ltb_ℤ (pos 100) count
    || c.mode /= "Fixed" && c.interval_seconds /= pos 0
    || c.mode /= "Uniform" && (c.min_seconds /= pos 0 || c.max_seconds /= pos 0)
    || c.mode /= "Explicit" && length c.delays_seconds /= 0

-- The switch over the modes.
abbrev pub supported : GenerationCadence → ℤ → Result (Unit {0})
supported c count =
    if c.mode == "Immediate"
    then ok tt
    else if c.mode == "Fixed"
    then if within (pos 1) (pos 60) c.interval_seconds
      then ok tt
      else err "unsupported finite cadence"
    else if c.mode == "Uniform"
    then if leb_ℤ (pos 1) c.min_seconds
        && leb_ℤ c.min_seconds c.max_seconds
        && leb_ℤ c.max_seconds (pos 60)
      then ok tt
      else err "unsupported finite cadence"
    else if c.mode == "Explicit"
    then if length c.delays_seconds == pos_part count - 1
      then if all (within (pos 0) (pos 60)) c.delays_seconds
        then ok tt
        else err "invalid explicit delay"
      else err "unsupported finite cadence"
    else err "unsupported finite cadence"

unfoldable pub validate_action_cadence : GenerationCadence → ℤ → Result (Unit {0})
validate_action_cadence c count =
    if misplaced c count then err "invalid finite cadence" else supported c count

-- `c.DelaysSeconds[completed-1]`; out of range Go panics.
pub explicit_delay : (String → ℕ → ℕ) → String → Option ℤ → Result ℕ
explicit_delay int_n key none = err "index out of range"
explicit_delay int_n key (some d) = seconds int_n d d key

pub moded_delay : (String → ℕ → ℕ) → GenerationCadence → ℤ → String → Result ℕ
unfolding explicit_delay
moded_delay int_n c completed key =
    if c.mode == "Immediate"
    then ok 0
    else if c.mode == "Fixed"
    then seconds int_n c.interval_seconds c.interval_seconds key
    else if c.mode == "Uniform"
    then seconds int_n c.min_seconds c.max_seconds key
    else if c.mode == "Explicit"
    then explicit_delay int_n key (get_elem? c.delays_seconds (pos_part completed - 1))
    else err "unsupported finite cadence"

unfoldable pub action_delay : (String → ℕ → ℕ) → GenerationCadence → ℤ → ℤ → String → Result ℕ
unfolding moded_delay
action_delay int_n c count completed key = validate_action_cadence c count >>= λ _.
    if ltb_ℤ completed (pos 1) || leb_ℤ count completed
    then err "delay requires a non-final receipt"
    else moded_delay int_n c completed key
