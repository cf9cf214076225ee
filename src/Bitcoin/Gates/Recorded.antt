-- ===== src/Bitcoin/Gates/Recorded.antt =====
-- What an authority over a recorded initialization guarantees.
use stacks_k8s.Common.{
  ℕ, ◌-◌, ◌<◌, ◌≡◌, ap, sym, ◌∙◌, inl, inr, String, Bool, true, false, not, ◌&&◌, ◌||◌, Option,
  none, some, List, arith, ltb, ◌==◌, ◌/=◌, string_eq, nat_eq, if◌then◌else◌, Bool-cases,
  Option-cases, length, get_elem?, is_some, is_none, Result, ok, err, >>=-eq-ok,
}
use stacks_k8s.Common.Int.{ℤ, pos, negsuc, leb_ℤ, int_eq, ◌≤ℤ◌, beq_ℤ_iff}
use mathlib.Core.Path.{subst}
use stacks_k8s.Bitcoin.Types.{BitcoinInitialization}
use stacks_k8s.Bitcoin.Gates.{
  Gate, InitializationStatus, StacksGenesis, GateAuthority, first_gate_frozen, check_gates,
  ceiling_at, gate_at, retained_gate,
}
use stacks_k8s.Bitcoin.Gates.Ladder.{Rising, Progress, SameNames, check_gates_sound}

pub guard :
    {A : Type 0} (b : Bool) (x : String) (r : Result A) (a : A)
    → (if b then err x else r) ≡ ok a
    → (b ≡ false) × (r ≡ ok a)
guard b x r a h = ground arith

pub ok_inj : (b a : GateAuthority) → ◌≡◌ {A = Result GateAuthority} (ok b) (ok a) → b ≡ a
ok_inj b a e = cc

-- What an authority over a recorded initialization rests on.
pub record Recorded (initial : BitcoinInitialization) (state : InitializationStatus)
    (a : GateAuthority) : Type 0 where
  pub at_index : get_elem? a.genesis.gates a.index ≡ some a.gate
  pub index_recorded : state.gate_index ≡ pos a.index
  pub authorized : a.gate.bitcoin_ceiling ≡ state.authorized_ceiling
  pub ceiling_pos : pos 1 ≤ℤ a.gate.bitcoin_ceiling
  pub open_run : state.completed ≡ false
  pub rising : Rising none a.genesis.gates
  pub progress : Progress a.index state.gates
  pub names : SameNames a.genesis.gates state.gates
  pub first_frozen : first_gate_frozen initial.spec.minimum_height a.genesis.gates ≡ true
  pub prepared : 0 < a.index → is_some initial.status.prepared_at ≡ true
  pub same_length : length state.gates ≡ length a.genesis.gates

gate_at_sound :
    (genesis : StacksGenesis) (initial : BitcoinInitialization) (state : InitializationStatus)
    (index : ℕ) (o : Option Gate) (a : GateAuthority)
    → gate_at genesis initial state index o ≡ ok a
    → (a.genesis ≡ genesis)
      × (a.index ≡ index)
      × (o ≡ some a.gate)
      × Rising none genesis.gates
      × Progress index state.gates
      × SameNames genesis.gates state.gates
      × (first_gate_frozen initial.spec.minimum_height genesis.gates ≡ true)
      × (0 < index → is_some initial.status.prepared_at ≡ true)
      × (length state.gates ≡ length genesis.gates)
unfolding gate_at
gate_at_sound genesis initial state index none a h = cc
gate_at_sound genesis initial state index (some gate) a h =
    let (guards, h1) =
      guard
        (length state.gates /= length genesis.gates
          || not (first_gate_frozen initial.spec.minimum_height genesis.gates))
        _ _ a h in
    let (u, checked, h2) = >>=-eq-ok (check_gates index 0 none genesis.gates state.gates) _ h1 in
    let (ready, h3) = guard (ltb 0 index && is_none initial.status.prepared_at) _ _ a h2 in
    let zero_gone : index - 0 ≡ index = omega arith in
    let same : length genesis.gates ≡ length state.gates = ground arith in
    let first : first_gate_frozen initial.spec.minimum_height genesis.gates ≡ true = ground arith in
    let (rise, progress, names) =
      check_gates_sound index 0 none genesis.gates state.gates same checked in
    (
      ground arith,
      ground arith,
      ground arith,
      rise,
      subst (λ n. Progress n state.gates) zero_gone progress,
      names,
      first,
      λ p. ground arith,
      sym same,
    )

ceiling_at_sound :
    (gates : List Gate) (authorized : ℤ) (index : ℕ) (g : Gate)
    → ceiling_at gates authorized index ≡ some g
    → (get_elem? gates index ≡ some g) × (g.bitcoin_ceiling ≡ authorized)
unfolding ceiling_at
ceiling_at_sound gates authorized index g h = elim (Option-cases (get_elem? gates index)) [
  | inl e ↦ absurd (ground (arith, rw (ceiling_at, e) at h))
  | inr (k, e) ↦ elim (Bool-cases (k.bitcoin_ceiling == authorized)) [
    | inl t ↦
        let s : k ≡ g = ground (arith, rw (ceiling_at, e, t) at h) in
        (
          e ∙ ap some s,
          ap (λ x. x.bitcoin_ceiling) (sym s) ∙ (beq_ℤ_iff k.bitcoin_ceiling authorized).0 t,
        )
    | inr t ↦ absurd (ground (arith, rw (ceiling_at, e, t) at h))
  ]
]

pub retained_gate_sound :
    (genesis : StacksGenesis) (initial : BitcoinInitialization) (state : InitializationStatus)
    (recorded : ℤ) (a : GateAuthority)
    → state.gate_index ≡ recorded
    → leb_ℤ state.authorized_ceiling (pos 0) ≡ false
    → state.completed ≡ false
    → retained_gate genesis initial state recorded ≡ ok a
    → (a.genesis ≡ genesis) × Recorded initial state a
unfolding retained_gate
retained_gate_sound genesis initial state (negsuc n) a r c d h = absurd (cc)
retained_gate_sound genesis initial state (pos n) a i c d h =
    let (same, at, found, rise, progress, names, first, ready, long) =
      gate_at_sound genesis initial state n _ a h in
    let (place, ceiling) = ceiling_at_sound genesis.gates state.authorized_ceiling n a.gate found in
    let r : Recorded initial state a = record {
      at_index = ap (get_elem? a.genesis.gates) at ∙ (ap (λ x. get_elem? x.gates n) same ∙ place);
      index_recorded = i ∙ ap pos (sym at);
      authorized = ceiling;
      ceiling_pos = ground (arith, ceiling);
      open_run = d;
      rising = subst (λ x. Rising none x.gates) (sym same) rise;
      progress = subst (λ i. Progress i state.gates) (sym at) progress;
      names = subst (λ x. SameNames x.gates state.gates) (sym same) names;
      first_frozen = ap (λ x. first_gate_frozen initial.spec.minimum_height x.gates) same ∙ first;
      prepared = λ p. ready (omega (arith, at));
      same_length = long ∙ ap (λ x. length x.gates) (sym same);
    } in
    (same, r)
