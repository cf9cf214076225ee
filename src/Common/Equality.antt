-- ===== src/Common/Equality.antt =====
-- Boolean equality of numbers, texts, truth values and options, by instances.
use Prim.Native.Nat.{ℕ}
use Prim.Native.String.{String}
use mathlib.Core.Path.{◌≡◌, refl}
use mathlib.Core.Logic.{◌↔◌}
use mathlib.Core.Bool.{Bool, true, false}
use mathlib.Core.Option.{Option, none, some}
use mathlib.Core.List.{List, [], ◌∷◌}
use mathlib.Core.Bool.{◌&&◌, not}
use native.Mathlib.Omega.{arith}
use text.Mathlib.Text.{◌==◌ as str_eq}
use text.Mathlib.TextEquality.{eq_iff}
use stacks_k8s.Common.Tests.{nat_beq, nat_beq_iff}

pub record Eq {ℓ} (A : Type ℓ) : Type ℓ where
  pub same : A → A → Bool
  pub same_iff : (a b : A) → (same a b ≡ true) ↔ (a ≡ b)

instance abbrev pub string_eq : Eq String
string_eq = record { same = str_eq; same_iff = eq_iff }

instance abbrev pub nat_eq : Eq ℕ
nat_eq = record { same = nat_beq; same_iff = nat_beq_iff }

infix 50 ◌==◌ ◌/=◌
abbrev pub ◌/=◌ {ℓ} : {A : Type ℓ} ⦃e : Eq A⦄ → A → A → Bool
◌/=◌ ⦃e⦄ a b = not (e.same a b)

abbrev pub ◌==◌ {ℓ} : {A : Type ℓ} ⦃e : Eq A⦄ → A → A → Bool
◌==◌ ⦃e⦄ = e.same

module _ {ℓ} {A : Type ℓ} where
  abbrev pub option_beq : Eq A → Option A → Option A → Bool
  option_beq e none none = true
  option_beq e none (some b) = false
  option_beq e (some a) none = false
  option_beq e (some a) (some b) = e.same a b

  pub option_beq_iff : (e : Eq A) (a b : Option A) → (option_beq e a b ≡ true) ↔ (a ≡ b)
  option_beq_iff e none none = (λ h. refl, λ h. refl)
  option_beq_iff e none (some b) = (λ h. cc, λ h. cc)
  option_beq_iff e (some a) none = (λ h. cc, λ h. cc)
  option_beq_iff e (some a) (some b) =
      (λ h. cc ((e.same_iff a b).0 h), λ h. (e.same_iff a b).1 (cc))

  instance abbrev pub option_eq : ⦃e : Eq A⦄ → Eq (Option A)
  option_eq ⦃e⦄ = record { same = option_beq e; same_iff = option_beq_iff e }

module _ {ℓ} {A : Type ℓ} where
  abbrev pub list_beq : Eq A → List A → List A → Bool
  list_beq e [] [] = true
  list_beq e [] (y ∷ ys) = false
  list_beq e (x ∷ xs) [] = false
  list_beq e (x ∷ xs) (y ∷ ys) = e.same x y && list_beq e xs ys

  pub list_beq_iff : (e : Eq A) (a b : List A) → (list_beq e a b ≡ true) ↔ (a ≡ b)
  list_beq_iff e [] [] = (λ h. refl, λ h. refl)
  list_beq_iff e [] (y ∷ ys) = (λ h. cc, λ h. cc)
  list_beq_iff e (x ∷ xs) [] = (λ h. cc, λ h. cc)
  list_beq_iff e (x ∷ xs) (y ∷ ys) = (
    λ h. ground (arith, e.same_iff x y, list_beq_iff e xs ys),
    λ h. ground (arith, e.same_iff x y, list_beq_iff e xs ys),
  )

  instance abbrev pub list_eq : ⦃e : Eq A⦄ → Eq (List A)
  list_eq ⦃e⦄ = record { same = list_beq e; same_iff = list_beq_iff e }

module _ {ℓ} {A : Type ℓ} ⦃e : Eq A⦄ where
  pub ==-refl : (a : A) → (a == a) ≡ true
  ==-refl a = (e.same_iff a a).1 refl
