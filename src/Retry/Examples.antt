-- ===== src/Retry/Examples.antt =====
-- Backoffs at concrete failures, and the theorems there.
use stacks_k8s.Common.{ℕ, ◌*◌, ◌+◌, ◌/◌, ◌≤◌, ◌≡◌, refl, true, false, none, some, arith, inl}
use stacks_k8s.Retry.{transient, terminal, SourceRetry, second, next}
use stacks_k8s.Retry.Backoff.{IsBackoff, IsJitter, next_bounds}

abbrev fresh : SourceRetry
fresh = record { delay = 0 }

-- Adds a third of the duration.
abbrev third : ℕ → ℕ
third d = d + d / 3

third-IsJitter : IsJitter third
third-IsJitter = record { longer = λ d. omega arith; bounded = λ d. omega arith }

fresh-IsBackoff : IsBackoff fresh
fresh-IsBackoff = record { set = inl refl; capped = omega arith }

next_bounds_example :
    IsBackoff (next third fresh (some transient) false).0
    × (250_000_000 ≤ (next third fresh (some transient) false).1)
    × ((next third fresh (some transient) false).1 ≤ 60 * second)
next_bounds_example = next_bounds third fresh (some transient) false third-IsJitter fresh-IsBackoff

minute_for_forbidden : (next third fresh (some terminal) false).1 ≡ 40 * second
unfolding next
minute_for_forbidden = refl

quick_reconnect : (next third fresh none true).1 ≡ 250_000_000
unfolding next
quick_reconnect = refl
