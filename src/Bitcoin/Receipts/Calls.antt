-- ===== src/Bitcoin/Receipts/Calls.antt =====
-- Sequences of accountings, of any execution records, and the receipts that they consume.
use stacks_k8s.Common.{
  ℕ, ◌+◌, ◌≤◌, ◌≡◌, refl, ap, inl, inr, Bool, none, some, List, [], ◌∷◌, arith, ◌==◌, string_eq,
  if◌then◌else◌, Bool-cases,
}
use stacks_k8s.Common.Int.{ℤ, pos, pos_part, neg_part, ◌<ℤ◌, ◌≤ℤ◌, int_eq, beq_ℤ_iff}
use stacks_k8s.Bitcoin.Types.{ObjectMeta, BitcoinInitialization, BitcoinExecution}
use stacks_k8s.Bitcoin.Receipts.{account_bootstrap_receipt}

-- A call of the accounting: the network that it is for, and the execution record that it reads.
pub record Call : Type 0 where
  pub network : ObjectMeta
  pub execution : BitcoinExecution

-- The number of the offer that the record's retained receipt is for; 0 where there is none.
abbrev pub receipt_number : BitcoinExecution → ℤ
receipt_number execution = elim execution.status.last_receipt [
  | none ↦ pos 0
  | some r ↦ elim r.request.offer [ none ↦ pos 0 | some o ↦ o.number ]
]

-- The offers whose receipts are consumed by the calls, one after the other, in the order of the
-- calls. Each call may read any record.
unfoldable pub consumed_numbers :
    (ObjectMeta → ObjectMeta → Bool) → BitcoinInitialization → List Call → List ℤ
consumed_numbers is_controlled_by initial [] = []
consumed_numbers is_controlled_by initial (c ∷ cs) =
    let r = account_bootstrap_receipt is_controlled_by c.network initial c.execution in
    let rest = consumed_numbers is_controlled_by r.0 cs in
    if r.1 then receipt_number c.execution ∷ rest else rest

-- The numbers strictly increase, from above `n`.
abbrev pub Above : ℤ → List ℤ → Type 0
Above n [] = Unit
Above n (x ∷ xs) = (n <ℤ x) × Above x xs

abbrev pub occurrences : ℤ → List ℤ → ℕ
occurrences n [] = 0
occurrences n (x ∷ xs) = (if x == n then 1 else 0) + occurrences n xs

Above-occurrences_none : (m n : ℤ) (xs : List ℤ) → Above m xs → n ≤ℤ m → occurrences n xs ≡ 0
Above-occurrences_none m n [] a h = refl
Above-occurrences_none m n (x ∷ xs) (g, a) h =
    ground (arith, Above-occurrences_none x n xs a (omega (arith, g, h)))

pub Above-occurrences : (m n : ℤ) (xs : List ℤ) → Above m xs → occurrences n xs ≤ 1
Above-occurrences m n [] a = omega arith
Above-occurrences m n (x ∷ xs) (g, a) = elim (Bool-cases (x == n)) [
  | inl e ↦
      let same : x ≡ n = (beq_ℤ_iff x n).0 e in
      let gone : occurrences n xs ≡ 0 =
        Above-occurrences_none x n xs a (omega (arith, ap pos_part same, ap neg_part same)) in
      rw (e, gone) (omega arith)
  | inr e ↦ rw e (omega (arith, Above-occurrences x n xs a))
]
