-- ===== src/Encoding/BigEndian.antt =====
-- Numbers as big-endian bytes: `SetBytes` and `FillBytes` of math/big, and the 32-bit writes and
-- reads of encoding/binary.
use native.Mathlib.Nat.{pow-succ'}
use native.Mathlib.Nat.{zero-add, mul_left_comm}
use mathlib.Core.Path.{subst, subst₂, sym}
use mathlib.Core.List.{append-nil}
use stacks_k8s.Common.{
  ℕ, zero, suc, ◌+◌, ◌*◌, ◌/◌, ◌%◌, ◌^◌, ◌≤◌, ◌<◌, ◌≡◌, refl, ap, ◌∙◌, [], ◌∷◌, ◌++◌, arith, length,
  All,
}
use stacks_k8s.Encoding.Hex.{Bytes}

abbrev pub IsByte : ℕ → Type 0
IsByte b = b < 256

-- The number of `bs`, behind the digits of `acc`.
unfoldable pub value_from : ℕ → Bytes → ℕ
value_from acc [] = acc
value_from acc (b ∷ bs) = value_from (acc * 256 + b) bs

unfoldable pub set_bytes : Bytes → ℕ
unfolding value_from
set_bytes bs = value_from 0 bs

-- The lowest `w` digits of `n`, before `rest`.
unfoldable pub put_before : ℕ → ℕ → Bytes → Bytes
put_before zero n rest = rest
put_before (suc w) n rest = put_before w (n / 256) (n % 256 ∷ rest)

unfoldable pub fill_bytes : ℕ → ℕ → Bytes
unfolding put_before
fill_bytes w n = put_before w n []

pub put_before-append :
    (w n : ℕ) (rest more : Bytes) → put_before w n (rest ++ more) ≡ put_before w n rest ++ more
unfolding put_before
put_before-append zero n rest more = refl
put_before-append (suc w) n rest more = put_before-append w (n / 256) (n % 256 ∷ rest) more

pub put_before-value_from :
    (bs : Bytes) (w acc : ℕ) (rest : Bytes)
    → All IsByte bs
    → put_before (length bs + w) (value_from acc bs) rest ≡ put_before w acc (bs ++ rest)
unfolding value_from put_before
put_before-value_from [] w acc rest h = rw zero-add refl
put_before-value_from (b ∷ bs) w acc rest (hb, h) =
    let reach : suc (length bs) + w ≡ length bs + suc w = omega arith in
    let high : (acc * 256 + b) / 256 ≡ acc = omega arith in
    let low : (acc * 256 + b) % 256 ≡ b = omega arith in
    rw reach (
      put_before-value_from bs (suc w) (acc * 256 + b) rest h
      ∙ subst₂ (λ x y. put_before w x (y ∷ bs ++ rest) ≡ put_before w acc (b ∷ bs ++ rest))
          (sym high) (sym low) refl)

pub length-put_before : (w n : ℕ) (rest : Bytes) → length (put_before w n rest) ≡ w + length rest
unfolding put_before
length-put_before zero n rest = omega arith
length-put_before (suc w) n rest = omega (arith, length-put_before w (n / 256) (n % 256 ∷ rest))

pub put_before-IsByte :
    (w n : ℕ) (rest : Bytes) → All IsByte rest → All IsByte (put_before w n rest)
unfolding put_before
put_before-IsByte zero n rest h = h
put_before-IsByte (suc w) n rest h = put_before-IsByte w (n / 256) (n % 256 ∷ rest) (omega arith, h)

scale : (a t u : ℕ) → u ≡ 256 * t → a * u ≡ 256 * (a * t)
scale a t u h = rw h (mul_left_comm a 256 t)

enclose :
    (a b t v : ℕ)
    → b < 256
    → (a * 256 + b) * t ≤ v
    → v < (a * 256 + b + 1) * t
    → (256 * (a * t) ≤ v) × (v < 256 * (a * t) + 256 * t)
enclose a b t v h lo hi = (grind (arith, lo), grind (arith, hi))

pub value_from-put_before :
    (w n acc : ℕ) (rest : Bytes)
    → n < 256 ^ w
    → value_from acc (put_before w n rest) ≡ value_from (acc * 256 ^ w + n) rest
unfolding value_from put_before
value_from-put_before zero n acc rest h =
    let none_left : acc * 1 + n ≡ acc = omega arith in rw none_left refl
value_from-put_before (suc w) n acc rest h =
    let more = pow-succ' 256 w in
    let sum : (acc * 256 ^ w + n / 256) * 256 + n % 256 ≡ acc * 256 ^ suc w + n =
      omega (arith, scale acc (256 ^ w) (256 ^ suc w) more) in
    value_from-put_before w (n / 256) acc (n % 256 ∷ rest) (omega (arith, more))
    ∙ ap (λ k. value_from k rest) sum

pub value_from_bounds :
    (acc : ℕ) (bs : Bytes)
    → All IsByte bs
    → (acc * 256 ^ length bs ≤ value_from acc bs)
      × (value_from acc bs < (acc + 1) * 256 ^ length bs)
unfolding value_from
value_from_bounds acc [] h = (omega arith, omega arith)
value_from_bounds acc (b ∷ bs) (hb, h) =
    let more = pow-succ' 256 (length bs) in
    let (lo, hi) = value_from_bounds (acc * 256 + b) bs h in
    let (low, high) = enclose acc b (256 ^ length bs) (value_from acc (b ∷ bs)) hb lo hi in
    let one = scale acc (256 ^ length bs) (256 ^ suc (length bs)) more in
    let two = scale (acc + 1) (256 ^ length bs) (256 ^ suc (length bs)) more in
    (omega (arith, one, low), omega (arith, two, high, more))

pub fill_bytes-set_bytes :
    (w : ℕ) (bs : Bytes) → All IsByte bs → length bs ≡ w → fill_bytes w (set_bytes bs) ≡ bs
unfolding fill_bytes set_bytes put_before
fill_bytes-set_bytes w bs h n =
    let whole : length bs + 0 ≡ w = omega (arith, n) in
    subst (λ k. put_before k (value_from 0 bs) [] ≡ bs) whole
      (put_before-value_from bs 0 0 [] h ∙ append-nil bs)

pub set_bytes-fill_bytes : (w n : ℕ) → n < 256 ^ w → set_bytes (fill_bytes w n) ≡ n
unfolding fill_bytes set_bytes value_from
set_bytes-fill_bytes w n h =
    let plain : 0 * 256 ^ w + n ≡ n = omega arith in value_from-put_before w n 0 [] h ∙ plain

pub set_bytes-lt : (bs : Bytes) → All IsByte bs → set_bytes bs < 256 ^ length bs
unfolding set_bytes
set_bytes-lt bs h = omega (arith, (value_from_bounds 0 bs h).1)

pub length-fill_bytes : (w n : ℕ) → length (fill_bytes w n) ≡ w
unfolding fill_bytes
length-fill_bytes w n = omega (arith, length-put_before w n [])

pub fill_bytes-IsByte : (w n : ℕ) → All IsByte (fill_bytes w n)
unfolding fill_bytes
fill_bytes-IsByte w n = put_before-IsByte w n [] tt
