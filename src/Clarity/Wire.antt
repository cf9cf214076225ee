-- ===== src/Clarity/Wire.antt =====
-- What a step of the codec has written, or read: the bytes in between, and how steps compose.
use mathlib.Core.Path.{subst}
use mathlib.Core.List.{append_assoc, append-nil, []}
use stacks_k8s.Common.{
  ℕ, ◌+◌, ◌≤◌, ◌≡◌, refl, sym, ap, ◌∙◌, Bool, false, ◌++◌, arith, length, length-append,
  if◌then◌else◌, Result, ok, err, ◌>>=◌, >>=-ok, All, All-of-append,
}
use Prim.Native.String.{String}
use stacks_k8s.Encoding.Hex.{Bytes}
use stacks_k8s.Encoding.BigEndian.{IsByte}

-- `out` is `b` and then bytes from which `dec` reads `a`, whatever follows them.
pub record IsWritten {ℓ} {A : Type ℓ} (dec : Bytes → Result (A × Bytes)) (b out : Bytes) (least : ℕ)
    (a : A) : Type ℓ where
  pub wire : Bytes
  pub split : out ≡ b ++ wire
  pub size : least ≤ length wire
  pub back : (rest : Bytes) → dec (wire ++ rest) ≡ ok (a, rest)

-- `raw` is bytes that `put` writes where there is room for them, and then `rest`.
pub record IsRead (put : Bytes → Result Bytes) (raw rest : Bytes) (least most : ℕ) : Type 0 where
  pub wire : Bytes
  pub split : raw ≡ wire ++ rest
  pub size : least ≤ length wire
  pub write : (b : Bytes) → length b + length wire ≤ most → put b ≡ ok (b ++ wire)

module _ {ℓ κ} {A : Type ℓ} {C : Type κ} where
  -- One step after another.
  pub then-IsWritten :
      {dec : Bytes → Result (A × Bytes)} (next : A → Bytes → Result (C × Bytes)) {b m out : Bytes}
      {j k : ℕ} {a : A} {c : C}
      → IsWritten dec b m j a
      → IsWritten (next a) m out k c
      → IsWritten (λ raw. dec raw >>= λ r. next r.0 r.1) b out (j + k) c
  then-IsWritten {dec} next {b} {m} {out} {j} {k} {a} {c} first later = record {
    wire = first.wire ++ later.wire;
    split =
        later.split ∙ ap (λ x. x ++ later.wire) first.split ∙ append_assoc b first.wire later.wire;
    size = omega (arith, length-append first.wire later.wire, first.size, later.size);
    back = λ rest.
        ap (λ x. dec x >>= λ r. next r.0 r.1) (append_assoc first.wire later.wire rest)
        ∙ >>=-ok (λ r. next r.0 r.1) (first.back (later.wire ++ rest))
        ∙ later.back rest;
  }

  -- A step whose result is put into a larger one.
  pub map-IsWritten :
      (f : A → C) {dec : Bytes → Result (A × Bytes)} {b out : Bytes} {k : ℕ} {a : A}
      → IsWritten dec b out k a
      → IsWritten (λ raw. dec raw >>= λ s. ok (f s.0, s.1)) b out k (f a)
  map-IsWritten f w = record {
    wire = w.wire;
    split = w.split;
    size = w.size;
    back = λ rest. >>=-ok (λ s. ok (f s.0, s.1)) (w.back rest);
  }

module _ {ℓ} {A : Type ℓ} {dec : Bytes → Result (A × Bytes)} {b out : Bytes} {k : ℕ} {a : A} where
  pub fewer-IsWritten : {j : ℕ} → j ≤ k → IsWritten dec b out k a → IsWritten dec b out j a
  fewer-IsWritten le w = record {
    wire = w.wire;
    split = w.split;
    size = omega (arith, le, w.size);
    back = w.back;
  }

  pub guard-IsWritten :
      (stop : Bool) (message : String)
      → stop ≡ false
      → IsWritten dec b out k a
      → IsWritten (λ raw. if stop then err message else dec raw) b out k a
  guard-IsWritten stop message e w = record {
    wire = w.wire;
    split = w.split;
    size = w.size;
    back = λ rest. rw e (w.back rest);
  }

module _ {raw m rest : Bytes} {j k most : ℕ} where
  pub then-IsRead :
      (put next : Bytes → Result Bytes)
      → IsRead put raw m j most
      → IsRead next m rest k most
      → IsRead (λ b. put b >>= next) raw rest (j + k) most
  then-IsRead put next first later = record {
    wire = first.wire ++ later.wire;
    split =
        first.split
        ∙ ap (λ x. first.wire ++ x) later.split
        ∙ sym (append_assoc first.wire later.wire rest);
    size = omega (arith, length-append first.wire later.wire, first.size, later.size);
    write = λ b room.
        let total = length-append first.wire later.wire in
        >>=-ok next (first.write b (omega (arith, total, room)))
        ∙ later.write (b ++ first.wire) (omega (arith, total, room, length-append b first.wire))
        ∙ ap ok (append_assoc b first.wire later.wire);
  }

-- The bytes after those that were read are bytes too.
pub rest_bytes :
    {put : Bytes → Result Bytes} {raw rest : Bytes} {least most : ℕ}
    → IsRead put raw rest least most
    → All IsByte raw
    → All IsByte rest
rest_bytes {rest = rest} r bytes =
    (All-of-append IsByte r.wire rest (subst (All IsByte) r.split bytes)).1

pub fewer-IsRead :
    {put : Bytes → Result Bytes} {raw rest : Bytes} {j k most : ℕ}
    → j ≤ k
    → IsRead put raw rest k most
    → IsRead put raw rest j most
fewer-IsRead le r = record {
  wire = r.wire;
  split = r.split;
  size = omega (arith, le, r.size);
  write = r.write;
}

-- Nothing is read for nothing.
pub nothing-IsRead :
    {put : Bytes → Result Bytes} {raw : Bytes} {most : ℕ}
    → ((b : Bytes) → put b ≡ ok b)
    → IsRead put raw raw 0 most
nothing-IsRead same = record {
  wire = [];
  split = refl;
  size = omega arith;
  write = λ b room. same b ∙ ap ok (sym (append-nil b));
}

pub same-IsRead :
    {put other : Bytes → Result Bytes} {raw rest : Bytes} {least most : ℕ}
    → ((b : Bytes) → other b ≡ put b)
    → IsRead put raw rest least most
    → IsRead other raw rest least most
same-IsRead same r = record {
  wire = r.wire;
  split = r.split;
  size = r.size;
  write = λ b room. same b ∙ r.write b room;
}
