-- ===== src/Bitcoin/Gates/Ladder.antt =====
-- What a passed check of the frozen gates against the observed ones says.
use stacks_k8s.Common.{
  ℕ, zero, suc, ◌-◌, ◌≡◌, inl, inr, String, Bool, true, false, not, ◌&&◌, ◌||◌, Option, none, some,
  List, [], ◌∷◌, arith, ltb, ltb→lt, ◌/=◌, string_eq, nat_eq, if◌then◌else◌, Bool-cases, length,
  is_some, is_none, Result, ok, err,
}
use stacks_k8s.Common.Int.{ℤ, leb_ℤ, int_eq, ◌<ℤ◌}
use text.Mathlib.TextEquality.{eq_iff}
use stacks_k8s.Bitcoin.Gates.{Gate, GateObservation, check_gates}

-- The ceilings strictly increase.
abbrev pub Rising : Option ℤ → List Gate → Type 0
Rising previous [] = Unit
Rising none (g ∷ gs) = Rising (some g.bitcoin_ceiling) gs
Rising (some c) (g ∷ gs) = (c <ℤ g.bitcoin_ceiling) × Rising (some g.bitcoin_ceiling) gs

-- The first `n` gates are observed complete, and no other.
abbrev pub Progress : ℕ → List GateObservation → Type 0
Progress n [] = Unit
Progress zero (o ∷ os) = (o.completed_at ≡ none) × Progress zero os
Progress (suc n) (o ∷ os) = (is_some o.completed_at ≡ true) × Progress n os

abbrev pub SameNames : List Gate → List GateObservation → Type 0
SameNames [] os = Unit
SameNames (g ∷ gs) [] = ⊥
SameNames (g ∷ gs) (o ∷ os) = (o.name ≡ g.name) × SameNames gs os

Progress-step :
    (index i : ℕ) (o : GateObservation) (os : List GateObservation)
    → (ltb i index && is_none o.completed_at) ≡ false
    → (not (ltb i index) && is_some o.completed_at) ≡ false
    → Progress (index - suc i) os
    → Progress (index - i) (o ∷ os)
Progress-step index i o os h k p = elim (Bool-cases (ltb i index)) [
  | inl e ↦
      let s : index - i ≡ suc (index - suc i) = omega (arith, ltb→lt i index e) in
      rw s (ground arith, p)
  | inr e ↦
      let s : index - i ≡ 0 = ground arith in
      let z : index - suc i ≡ 0 = ground arith in rw s (ground arith, rw z at p)
]

ladder :
    (b c d : Bool) (r : Result (Unit {0})) (x y z : String)
    → (if b then err x else if c then err y else if d then err z else r) ≡ ok tt
    → (b ≡ false) × (c ≡ false) × (d ≡ false) × (r ≡ ok tt)
ladder b c d r x y z h = ground arith

pub names_agree : (a b : String) (x : Bool) → (a /= b || x) ≡ false → (a ≡ b) × (x ≡ false)
names_agree a b x h = ground (arith, eq_iff a b)

check_gates-cons :
    (index i : ℕ) (previous : Option ℤ) (g : Gate) (gs : List Gate) (o : GateObservation)
    (os : List GateObservation)
    → check_gates index i previous (g ∷ gs) (o ∷ os) ≡ ok tt
    → (o.name ≡ g.name)
      × (elim previous [ none ↦ false | some c ↦ leb_ℤ g.bitcoin_ceiling c ] ≡ false)
      × ((ltb i index && is_none o.completed_at) ≡ false)
      × ((not (ltb i index) && is_some o.completed_at) ≡ false)
      × (check_gates index (suc i) (some g.bitcoin_ceiling) gs os ≡ ok tt)
unfolding check_gates
check_gates-cons index i previous g gs o os h =
    let (first, prior, later, more) = ladder _ _ _ _ _ _ _ h in
    let (same, rising) = names_agree o.name g.name _ first in (same, rising, prior, later, more)

pub check_gates_sound :
    (index i : ℕ) (previous : Option ℤ) (gs : List Gate) (os : List GateObservation)
    → length gs ≡ length os
    → check_gates index i previous gs os ≡ ok tt
    → Rising previous gs × Progress (index - i) os × SameNames gs os
check_gates_sound index i previous [] [] l h = (tt, tt, tt)
check_gates_sound index i previous [] (o ∷ os) l h = absurd (omega arith)
check_gates_sound index i previous (g ∷ gs) [] l h = absurd (omega arith)
check_gates_sound index i none (g ∷ gs) (o ∷ os) l h =
    let (n, r, b, c, more) = check_gates-cons index i none g gs o os h in
    let (rise, progress, names) =
      check_gates_sound index (suc i) (some g.bitcoin_ceiling) gs os (omega arith) more in
    (rise, Progress-step index i o os b c progress, (n, names))
check_gates_sound index i (some p) (g ∷ gs) (o ∷ os) l h =
    let (n, r, b, c, more) = check_gates-cons index i (some p) g gs o os h in
    let (rise, progress, names) =
      check_gates_sound index (suc i) (some g.bitcoin_ceiling) gs os (omega arith) more in
    ((ground arith, rise), Progress-step index i o os b c progress, (n, names))
