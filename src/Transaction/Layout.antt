-- ===== src/Transaction/Layout.antt =====
-- The bytes of a signed transaction.
use mathlib.Core.Path.{subst}
use mathlib.Core.List.{append_assoc}
use stacks_k8s.Common.{
  ℕ, zero, suc, ◌+◌, ◌≡◌, refl, sym, ap, ◌∙◌, [], ◌∷◌, ◌++◌, arith, length, length-append, take,
  drop, take-append_length, drop-append_length,
}
use stacks_k8s.Encoding.Hex.{Bytes}
use stacks_k8s.Transaction.{write_at}

take_at :
    (n k : ℕ) (a m rest : Bytes)
    → length a ≡ n
    → length m ≡ k
    → take k (drop n (a ++ (m ++ rest))) ≡ m
take_at n k a m rest ea em =
    subst (λ n. take k (drop n (a ++ (m ++ rest))) ≡ m) ea
      (rw (drop-append_length a (m ++ rest))
        (subst (λ k. take k (m ++ rest) ≡ m) em (take-append_length m rest)))

drop-length_add : (a b : Bytes) (k : ℕ) → drop (length a + k) (a ++ b) ≡ drop k b
drop-length_add [] b k = let e : 0 + k ≡ k = omega arith in rw e refl
drop-length_add (x ∷ a) b k =
    let e : length (x ∷ a) + k ≡ suc (length a + k) = omega arith in rw e (drop-length_add a b k)

write_at-append :
    (n : ℕ) (a old patch rest : Bytes)
    → length a ≡ n
    → length old ≡ length patch
    → write_at n patch (a ++ (old ++ rest)) ≡ a ++ (patch ++ rest)
unfolding write_at
write_at-append n a old patch rest ea e =
    let front = take-append_length a (old ++ rest) in
    let back : drop (length a + length patch) (a ++ (old ++ rest)) ≡ rest =
      drop-length_add a (old ++ rest) (length patch)
      ∙ subst (λ k. drop k (old ++ rest) ≡ rest) e (drop-append_length old rest) in
    subst (λ n. write_at n patch (a ++ (old ++ rest)) ≡ a ++ (patch ++ rest)) ea (cc (front, back))

drop-nil : (k : ℕ) → ◌≡◌ {A = Bytes} (drop k []) []
drop-nil zero = refl
drop-nil (suc k) = refl

drop-drop : (n k : ℕ) (b : Bytes) → drop (n + k) b ≡ drop k (drop n b)
drop-drop zero k b = let e : 0 + k ≡ k = omega arith in rw e refl
drop-drop (suc n) k [] = let e : suc n + k ≡ suc (n + k) = omega arith in rw e (sym (drop-nil k))
drop-drop (suc n) k (x ∷ b) =
    let e : suc n + k ≡ suc (n + k) = omega arith in rw e (drop-drop n k b)

-- The parts of a transaction: the prefix of 27 bytes, nonce, fee, key encoding, signature, and what
-- follows it.
unfoldable pub layout : Bytes → Bytes → Bytes → ℕ → Bytes → Bytes → Bytes
layout prefix nonce fee encoding signature tail =
    prefix ++ (nonce ++ (fee ++ (encoding ∷ signature ++ tail)))

-- Its parts where the offsets expect them.
pub record IsLayout (prefix nonce fee signature : Bytes) : Type 0 where
  pub prefix_length : length prefix ≡ 27
  pub nonce_length : length nonce ≡ 8
  pub fee_length : length fee ≡ 8
  pub signature_length : length signature ≡ 65

module _ (prefix nonce fee : Bytes) (encoding : ℕ) (signature tail : Bytes)
    (s : IsLayout prefix nonce fee signature) where
  before_fee : length (prefix ++ nonce) ≡ 35
  before_fee = omega (arith, length-append prefix nonce, s.prefix_length, s.nonce_length)

  before_signature : length (prefix ++ (nonce ++ (fee ++ (encoding ∷ [])))) ≡ 44
  before_signature = omega (
    arith,
    length-append prefix (nonce ++ (fee ++ (encoding ∷ []))),
    length-append nonce (fee ++ (encoding ∷ [])),
    length-append fee (encoding ∷ []),
    s.prefix_length,
    s.nonce_length,
    s.fee_length,
  )

  to_signature :
      layout prefix nonce fee encoding signature tail
      ≡ (prefix ++ (nonce ++ (fee ++ (encoding ∷ [])))) ++ (signature ++ tail)
  unfolding layout
  to_signature = simp append_assoc

  to_fee :
      layout prefix nonce fee encoding signature tail
      ≡ (prefix ++ nonce) ++ (fee ++ (encoding ∷ signature ++ tail))
  unfolding layout
  to_fee = sym (append_assoc prefix nonce (fee ++ (encoding ∷ signature ++ tail)))

  pub take-nonce : take 8 (drop 27 (layout prefix nonce fee encoding signature tail)) ≡ nonce
  unfolding layout
  take-nonce =
      take_at 27 8 prefix nonce (fee ++ (encoding ∷ signature ++ tail)) s.prefix_length
        s.nonce_length

  pub take-fee : take 8 (drop 35 (layout prefix nonce fee encoding signature tail)) ≡ fee
  take-fee =
      ap (λ x. take 8 (drop 35 x)) to_fee
      ∙ take_at 35 8 (prefix ++ nonce) fee (encoding ∷ signature ++ tail) before_fee s.fee_length

  pub take-signature :
      take 65 (drop 44 (layout prefix nonce fee encoding signature tail)) ≡ signature
  take-signature =
      ap (λ x. take 65 (drop 44 x)) to_signature
      ∙ take_at 44 65 (prefix ++ (nonce ++ (fee ++ (encoding ∷ [])))) signature tail
          before_signature s.signature_length

  pub drop-tail : drop 109 (layout prefix nonce fee encoding signature tail) ≡ tail
  drop-tail =
      let front = prefix ++ (nonce ++ (fee ++ (encoding ∷ []))) in
      ap (drop 109) to_signature
      ∙ subst (λ n. drop (n + 65) (front ++ (signature ++ tail)) ≡ tail) before_signature
          (drop-length_add front (signature ++ tail) 65
            ∙ subst (λ n. drop n (signature ++ tail) ≡ tail) s.signature_length
                (drop-append_length signature tail))

  pub write_at-nonce :
      (other : Bytes)
      → length other ≡ 8
      → write_at 27 other (layout prefix nonce fee encoding signature tail)
        ≡ layout prefix other fee encoding signature tail
  unfolding layout
  write_at-nonce other n =
      write_at-append 27 prefix nonce other (fee ++ (encoding ∷ signature ++ tail)) s.prefix_length
        (omega (arith, n, s.nonce_length))

  pub write_at-fee :
      (other : Bytes)
      → length other ≡ 8
      → write_at 35 other (layout prefix nonce fee encoding signature tail)
        ≡ layout prefix nonce other encoding signature tail
  unfolding layout
  write_at-fee other n =
      ap (write_at 35 other) to_fee
      ∙ write_at-append 35 (prefix ++ nonce) fee other (encoding ∷ signature ++ tail) before_fee
          (omega (arith, n, s.fee_length))
      ∙ append_assoc prefix nonce (other ++ (encoding ∷ signature ++ tail))

  pub write_at-signature :
      (other : Bytes)
      → length other ≡ 65
      → write_at 44 other (layout prefix nonce fee encoding signature tail)
        ≡ layout prefix nonce fee encoding other tail
  unfolding layout
  write_at-signature other n =
      let front = prefix ++ (nonce ++ (fee ++ (encoding ∷ []))) in
      ap (write_at 44 other) to_signature
      ∙ write_at-append 44 front signature other tail before_signature
          (omega (arith, n, s.signature_length))
      ∙ simp append_assoc

  pub length-layout : length (layout prefix nonce fee encoding signature tail) ≡ 109 + length tail
  unfolding layout
  length-layout = omega (
    arith,
    length-append prefix (nonce ++ (fee ++ (encoding ∷ signature ++ tail))),
    length-append nonce (fee ++ (encoding ∷ signature ++ tail)),
    length-append fee (encoding ∷ signature ++ tail),
    length-append signature tail,
    s.prefix_length,
    s.nonce_length,
    s.fee_length,
    s.signature_length,
  )

pub drop_six : (b : Bytes) → drop 115 b ≡ drop 6 (drop 109 b)
drop_six b = drop-drop 109 6 b
