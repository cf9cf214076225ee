-- ===== src/Clarity/Parts.antt =====
-- The decoder's take, count and name: what they read is what the encoder writes for it.
use mathlib.Core.Path.{subst}
use stacks_k8s.Common.{
  ℕ, ◌%◌, ◌^◌, ◌≤◌, ◌<◌, ◌≡◌, refl, sym, ap, ◌∙◌, true, false, not, [], ◌∷◌, ◌++◌, arith, ltb,
  length, length-append, length-take, take, drop, take-append-drop, take-append_length,
  drop-append_length, All, All-of-append, ok, >>=-eq-ok, >>=-ok, guard-eq-ok,
}
use stacks_k8s.Encoding.Hex.{Bytes}
use stacks_k8s.Encoding.BigEndian.{
  IsByte, set_bytes, fill_bytes, length-fill_bytes, set_bytes-fill_bytes, fill_bytes-set_bytes,
  set_bytes-lt,
}
use stacks_k8s.Clarity.{valid_name}
use stacks_k8s.Clarity.Decode.{take_bytes, take_byte, check_count, count, check_name, name}

pub take_bytes-append :
    (n : ℕ) (w rest : Bytes) → length w ≡ n → take_bytes n (w ++ rest) ≡ ok (w, rest)
unfolding take_bytes
take_bytes-append n w rest e =
    let enough : ltb (length (w ++ rest)) (length w) ≡ false =
      ground (arith, length-append w rest) in
    subst (λ k. take_bytes k (w ++ rest) ≡ ok (w, rest)) e
      (rw (enough, take-append_length w rest, drop-append_length w rest) refl)

pub take_bytes-eq-ok :
    (n : ℕ) (raw w rest : Bytes)
    → take_bytes n raw ≡ ok (w, rest)
    → (raw ≡ w ++ rest) × (length w ≡ n)
unfolding take_bytes
take_bytes-eq-ok n raw w rest h =
    let (enough, parts) = guard-eq-ok (ltb (length raw) n) _ _ h in
    let front : w ≡ take n raw = cc parts in
    let back : rest ≡ drop n raw = cc parts in
    rw (front, back) (sym (take-append-drop n raw), ground (arith, enough, length-take n raw))

pub count-append :
    (n : ℕ) (rest : Bytes)
    → n < 256 ^ 4
    → n ≤ length rest
    → count (fill_bytes 4 n ++ rest) ≡ ok (n, rest)
unfolding count check_count
count-append n rest small fits =
    let enough : ltb (length rest) n ≡ false = ground (arith, fits) in
    >>=-ok check_count (take_bytes-append 4 (fill_bytes 4 n) rest (length-fill_bytes 4 n))
    ∙ rw (set_bytes-fill_bytes 4 n small, enough) refl

pub count-eq-ok :
    (raw : Bytes) (n : ℕ) (rest : Bytes)
    → All IsByte raw
    → count raw ≡ ok (n, rest)
    → (raw ≡ fill_bytes 4 n ++ rest) × (n < 256 ^ 4) × (n ≤ length rest)
unfolding count check_count
count-eq-ok raw n rest bytes h =
    let ((b, more), taken, checked) = >>=-eq-ok (take_bytes 4 raw) check_count h in
    let (split, size) = take_bytes-eq-ok 4 raw b more taken in
    let (enough, parts) = guard-eq-ok (ltb (length more) (set_bytes b)) _ _ checked in
    let number : n ≡ set_bytes b = cc parts in
    let left_over : rest ≡ more = cc parts in
    let b_bytes : All IsByte b = (All-of-append IsByte b more (subst (All IsByte) split bytes)).0 in
    let back = fill_bytes-set_bytes 4 b b_bytes size in
    rw (number, left_over)
      (
        split ∙ ap (λ x. x ++ more) (sym back),
        subst (λ k. set_bytes b < 256 ^ k) size (set_bytes-lt b b_bytes),
        ground (arith, enough),
      )

pub length-name : (k : Bytes) → valid_name k ≡ true → (0 < length k) × (length k ≤ 128)
unfolding valid_name
length-name k v = ground arith

pub name-append :
    (k rest : Bytes) → valid_name k ≡ true → name (length k % 256 ∷ k ++ rest) ≡ ok (k, rest)
unfolding name take_byte check_name
name-append k rest v =
    let short : length k % 256 ≡ length k = omega (arith, length-name k v) in
    >>=-ok check_name (take_bytes-append (length k % 256) k rest (sym short)) ∙ rw v refl

pub name-eq-ok :
    (raw k rest : Bytes)
    → name raw ≡ ok (k, rest)
    → (raw ≡ length k % 256 ∷ k ++ rest) × (valid_name k ≡ true)
unfolding name take_byte check_name
name-eq-ok [] k rest h = cc
name-eq-ok (b ∷ raw) k rest h =
    let ((w, more), taken, checked) = >>=-eq-ok (take_bytes b raw) check_name h in
    let (split, size) = take_bytes-eq-ok b raw w more taken in
    let (named, parts) = guard-eq-ok (not (valid_name w)) _ _ checked in
    let good : valid_name w ≡ true = ground (arith, named) in
    let first : b ≡ length w % 256 = omega (arith, length-name w good, size) in
    let key : k ≡ w = cc parts in
    let left_over : rest ≡ more = cc parts in rw (key, left_over) (cc (split, first), good)
