-- ===== src/Retry.antt =====
-- operators/observability/internal/recorder/retry.go: the backoff of one event source's
-- subscription. Durations are nanoseconds. `jitter` is `wait.Jitter(d, 1)` of Kubernetes'
-- apimachinery, and a class of error is what its tests say of it.
pub mod Backoff
pub mod Examples
use stacks_k8s.Common.{
  ℕ, ◌+◌, ◌*◌, ◌/◌, Bool, true, false, ◌&&◌, Option, none, some, List, [], ◌∷◌, min, ◌==◌, nat_eq,
  if◌then◌else◌, is_none,
}

-- `terminal`: `IsNotFound`, `IsForbidden` or `IsUnauthorized`.
pub data SourceError : Type 0 where
  terminal : SourceError
  transient : SourceError

pub record SourceRetry : Type 0 where
  pub delay : ℕ

abbrev pub second : ℕ
second = 1_000_000_000

reset : SourceRetry → SourceRetry
reset r = record r { delay = 0 }

-- One second, then twice as long up to half a minute.
back_off : SourceRetry → SourceRetry
back_off r = record r { delay = if r.delay == 0 then second else min (2 * r.delay) (30 * second) }

abbrev pub base_delay : Option SourceError → ℕ → ℕ
base_delay (some terminal) delay = 60 * second
base_delay (some transient) delay = delay
base_delay none delay = delay

-- The retry state and the time to wait.
unfoldable pub next : (ℕ → ℕ) → SourceRetry → Option SourceError → Bool → SourceRetry × ℕ
unfolding reset back_off
next jitter r e healthy =
    let r' = if healthy then reset r else r in
    let failed = back_off r' in
    if healthy && is_none e
    then (r', 250_000_000)
    else (failed, jitter (base_delay e failed.delay / 2))
