-- ===== src/Retry/Backoff.antt =====
-- The backoff stays within its bounds over any history, and doubles over failures.
use stacks_k8s.Common.{
  ℕ, zero, suc, ◌*◌, ◌/◌, ◌≤◌, ◌≡◌, refl, Bool, true, false, Option, none, some, arith, nat_eq, ◌⊎◌,
  inl, inr,
}
use stacks_k8s.Retry.{
  SourceError, terminal, transient, SourceRetry, second, reset, back_off, base_delay, next,
}

-- Unset, or from one second to half a minute.
pub record IsBackoff (r : SourceRetry) : Type 0 where
  pub set : (r.delay ≡ 0) ⊎ (second ≤ r.delay)
  pub capped : r.delay ≤ 30 * second

-- `wait.Jitter(d, 1)` adds at most the duration itself.
pub record IsJitter (jitter : ℕ → ℕ) : Type 0 where
  pub longer : (d : ℕ) → d ≤ jitter d
  pub bounded : (d : ℕ) → jitter d ≤ 2 * d

back_off-bounds :
    (r : SourceRetry)
    → IsBackoff r
    → (second ≤ (back_off r).delay) × ((back_off r).delay ≤ 30 * second)
unfolding back_off
back_off-bounds r b = (ground (arith, b.set), ground (arith, b.capped))

waits :
    (jitter : ℕ → ℕ) (e : Option SourceError) (d : ℕ)
    → IsJitter jitter
    → second ≤ d
    → d ≤ 30 * second
    → (250_000_000 ≤ jitter (base_delay e d / 2)) × (jitter (base_delay e d / 2) ≤ 60 * second)
waits jitter (some terminal) d j lo hi =
    (omega (arith, j.longer (60 * second / 2)), omega (arith, j.bounded (60 * second / 2)))
waits jitter (some transient) d j lo hi =
    (omega (arith, j.longer (d / 2)), omega (arith, j.bounded (d / 2)))
waits jitter none d j lo hi = (omega (arith, j.longer (d / 2)), omega (arith, j.bounded (d / 2)))

failed_bounds :
    (jitter : ℕ → ℕ) (r : SourceRetry) (e : Option SourceError)
    → IsJitter jitter
    → IsBackoff r
    → IsBackoff (back_off r)
      × (250_000_000 ≤ jitter (base_delay e (back_off r).delay / 2))
      × (jitter (base_delay e (back_off r).delay / 2) ≤ 60 * second)
failed_bounds jitter r e j b =
    let (lo, hi) = back_off-bounds r b in
    let (low, high) = waits jitter e (back_off r).delay j lo hi in
    (record { set = inr lo; capped = hi }, low, high)

reset-IsBackoff : (r : SourceRetry) → IsBackoff (reset r)
unfolding reset
reset-IsBackoff r = record { set = inl refl; capped = omega arith }

-- From an unset or bounded backoff each call leaves a bounded one, and waits from a quarter of a
-- second to a minute, where jitter at most doubles a duration and never shortens it.
pub next_bounds :
    (jitter : ℕ → ℕ) (r : SourceRetry) (e : Option SourceError) (healthy : Bool)
    → IsJitter jitter
    → IsBackoff r
    → IsBackoff (next jitter r e healthy).0
      × (250_000_000 ≤ (next jitter r e healthy).1)
      × ((next jitter r e healthy).1 ≤ 60 * second)
unfolding next
next_bounds jitter r none true j b = (reset-IsBackoff r, omega arith, omega arith)
next_bounds jitter r (some x) true j b =
    failed_bounds jitter (reset r) (some x) j (reset-IsBackoff r)
next_bounds jitter r none false j b = failed_bounds jitter r none j b
next_bounds jitter r (some x) false j b = failed_bounds jitter r (some x) j b

-- The state after `n` failures of an unhealthy subscription.
unfoldable pub failures : (ℕ → ℕ) → SourceRetry → ℕ → SourceRetry
failures jitter r zero = r
failures jitter r (suc n) = (next jitter (failures jitter r n) (some transient) false).0
