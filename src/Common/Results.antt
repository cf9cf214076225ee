-- ===== src/Common/Results.antt =====
-- Go's `(value, error)` pairs: an error is known by its message.
use Prim.Native.String.{String}
use mathlib.Core.Path.{◌≡◌, refl, ap}
use mathlib.Core.Bool.{Bool, true, false}
use stacks_k8s.Common.Tests.{if◌then◌else◌}

pub data Result {ℓ} (A : Type ℓ) : Type ℓ where
  ok : A → Result A
  err : String → Result A

module _ {ℓ κ} {A : Type ℓ} {B : Type κ} where
  infixl 5 ◌>>=◌
  -- Go's `if err != nil { return ..., err }`.
  abbrev pub ◌>>=◌ : Result A → (A → Result B) → Result B
  err message >>= next = err message
  ok value >>= next = next value

  -- A chain that succeeds has succeeded in its first step, and in the rest after it.
  pub >>=-eq-ok :
      (first : Result A) (next : A → Result B) {last : B}
      → first >>= next ≡ ok last
      → (value : A) × (first ≡ ok value) × (next value ≡ ok last)
  >>=-eq-ok (err message) next done = cc
  >>=-eq-ok (ok value) next done = (value, refl, done)

  -- A step that succeeds hands its result on.
  pub >>=-ok :
      {first : Result A} {value : A} (next : A → Result B)
      → first ≡ ok value
      → (first >>= next) ≡ next value
  >>=-ok next e = ap (λ r. r >>= next) e

module _ {ℓ} {A : Type ℓ} where
  -- Code that succeeds behind a guard was not stopped by it.
  pub guard-eq-ok :
      (stop : Bool) (message : String) (rest : Result A) {last : A}
      → (if stop then err message else rest) ≡ ok last
      → (stop ≡ false) × (rest ≡ ok last)
  guard-eq-ok true message rest done = cc
  guard-eq-ok false message rest done = (refl, done)
