-- ===== src/Cadence/Delays.antt =====
-- The bounds of the delays, and that an admitted cadence has one for each non-final receipt.
use stacks_k8s.Common.{
  ℕ, zero, suc, ◌+◌, ◌-◌, ◌*◌, ◌%◌, ◌≤◌, ◌<◌, ◌≡◌, refl, inl, inr, String, true, false, ◌||◌, some,
  List, [], ◌∷◌, arith, ltb, ◌==◌, string_eq, nat_eq, Bool-cases, length, get_elem?, all, Result,
  ok,
}
use stacks_k8s.Common.Int.{ℤ, pos, negsuc, ltb_ℤ, leb_ℤ, int_eq, ◌≤ℤ◌, ◌<ℤ◌}
use stacks_k8s.Cadence.{
  second, seconds, due, GenerationCadence, within, misplaced, supported, validate_action_cadence,
  explicit_delay, moded_delay, action_delay,
}

-- Rounding never shortens a delay, adds less than a microsecond, and ends on a whole one.
pub due_rounds :
    (anchor delay : ℕ)
    → (anchor + delay ≤ due anchor delay)
      × (due anchor delay < anchor + delay + 1000)
      × (due anchor delay % 1000 ≡ 0)
unfolding due
due_rounds anchor delay = (ground arith, ground arith, ground arith)

-- With `0 ≤ lower ≤ upper ≤ 86400` a sampled delay is a whole number of seconds between the bounds,
-- where the sample `int_n key n` is below a positive `n`.
pub seconds_bounds :
    (int_n : String → ℕ → ℕ) (lower upper : ℕ) (key : String)
    → ((n : ℕ) → 0 < n → int_n key n < n)
    → lower ≤ upper
    → upper ≤ 86_400
    → (s : ℕ) × (seconds int_n (pos lower) (pos upper) key ≡ ok (s * second))
      × (lower ≤ s)
      × (s ≤ upper)
unfolding seconds
seconds_bounds int_n lower upper key below h k =
    let fits : (ltb upper lower || ltb 86_400 upper) ≡ false = ground arith in
    let sampled = below (upper - lower + 1) (omega arith) in
    (lower + int_n key (upper - lower + 1), rw fits refl, omega arith, omega (arith, sampled))

abbrev pub HasDelay : Result ℕ → Type 0
HasDelay r = (s : ℕ) × (r ≡ ok (s * second)) × (s ≤ 60)

seconds-HasDelay :
    (int_n : String → ℕ → ℕ) (lower upper : ℤ) (key : String)
    → ((n : ℕ) → 0 < n → int_n key n < n)
    → pos 0 ≤ℤ lower
    → lower ≤ℤ upper
    → upper ≤ℤ pos 60
    → HasDelay (seconds int_n lower upper key)
seconds-HasDelay int_n (negsuc l) upper key below a b c = absurd (omega arith)
seconds-HasDelay int_n (pos l) (negsuc u) key below a b c = absurd (omega arith)
seconds-HasDelay int_n (pos l) (pos u) key below a b c =
    let (s, e, lo, hi) = seconds_bounds int_n l u key below (omega arith) (omega arith) in
    (s, e, omega (arith, hi))

all-get :
    (ds : List ℤ) (i : ℕ)
    → all (within (pos 0) (pos 60)) ds ≡ true
    → i < length ds
    → (d : ℤ) × (get_elem? ds i ≡ some d) × (pos 0 ≤ℤ d) × (d ≤ℤ pos 60)
all-get [] i h k = absurd (omega arith)
all-get (d ∷ ds) zero h k = (d, refl, ground arith, ground arith)
all-get (d ∷ ds) (suc i) h k = all-get ds i (ground arith) (omega arith)

validated :
    (c : GenerationCadence) (count : ℤ)
    → validate_action_cadence c count ≡ ok tt
    → supported c count ≡ ok tt
unfolding validate_action_cadence
validated c count h = elim (Bool-cases (misplaced c count)) [
  | inl m ↦ cc (rw m at h)
  | inr m ↦ rw m at h
]

explicit_delay-HasDelay :
    (int_n : String → ℕ → ℕ) (ds : List ℤ) (i : ℕ) (key : String)
    → ((n : ℕ) → 0 < n → int_n key n < n)
    → all (within (pos 0) (pos 60)) ds ≡ true
    → i < length ds
    → HasDelay (explicit_delay int_n key (get_elem? ds i))
unfolding explicit_delay
explicit_delay-HasDelay int_n ds i key below h k =
    let (d, found, lo, hi) = all-get ds i h k in
    rw found (seconds-HasDelay int_n d d key below lo (omega arith) hi)

moded_delay-HasDelay :
    (int_n : String → ℕ → ℕ) (c : GenerationCadence) (count completed : ℤ) (key : String)
    → ((n : ℕ) → 0 < n → int_n key n < n)
    → supported c count ≡ ok tt
    → pos 1 ≤ℤ completed
    → completed <ℤ count
    → HasDelay (moded_delay int_n c completed key)
unfolding moded_delay
moded_delay-HasDelay int_n c count completed key below v lo hi =
    elim (Bool-cases (c.mode == "Immediate")) [
      | inl m ↦ rw m (0, refl, omega arith)
      | inr m ↦ elim (Bool-cases (c.mode == "Fixed")) [
        | inl f ↦
            rw (m, f)
              (seconds-HasDelay int_n _ _ key below (ground (arith, rw (m, f) at v)) (omega arith)
                (ground (arith, rw (m, f) at v)))
        | inr f ↦ elim (Bool-cases (c.mode == "Uniform")) [
          | inl u ↦
              rw (m, f, u)
                (seconds-HasDelay int_n _ _ key below (ground (arith, rw (m, f, u) at v))
                  (ground (arith, rw (m, f, u) at v)) (ground (arith, rw (m, f, u) at v)))
          | inr u ↦ elim (Bool-cases (c.mode == "Explicit")) [
            | inl e ↦
                let x = rw (m, f, u, e) at v in
                rw (m, f, u, e)
                  (explicit_delay-HasDelay int_n c.delays_seconds _ key below (ground (arith, x))
                    (ground (arith, x)))
            | inr e ↦ absurd (ground (arith, rw (m, f, u, e) at v))
          ]
        ]
      ]
    ]

-- An admitted cadence has, for each receipt that is not the last, a delay of at most 60 whole
-- seconds, where the sample `int_n key n` is below a positive `n`.
pub action_delay_total :
    (int_n : String → ℕ → ℕ) (c : GenerationCadence) (count completed : ℤ) (key : String)
    → ((n : ℕ) → 0 < n → int_n key n < n)
    → validate_action_cadence c count ≡ ok tt
    → pos 1 ≤ℤ completed
    → completed <ℤ count
    → HasDelay (action_delay int_n c count completed key)
unfolding action_delay
action_delay_total int_n c count completed key below v lo hi =
    let open_run : (ltb_ℤ completed (pos 1) || leb_ℤ count completed) ≡ false = ground arith in
    rw (v, open_run)
      (moded_delay-HasDelay int_n c count completed key below (validated c count v) lo hi)
