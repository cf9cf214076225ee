-- ===== src/Clarity/Principals.antt =====
-- Principals: what is written is read back, and what is read is what is written.
use mathlib.Core.Path.{subst}
use mathlib.Core.List.{append_assoc, append-nil}
use stacks_k8s.Common.{
  ℕ, suc, ◌%◌, ◌≡◌, refl, sym, ap, ◌∙◌, true, false, not, ◌||◌, none, List, [], ◌∷◌, ◌++◌, arith,
  ◌==◌, nat_eq, length, length-append, All, All-of-append, inl, inr, Bool-cases, ok, >>=-eq-ok,
  >>=-ok, guard-eq-ok,
}
use stacks_k8s.Encoding.Hex.{Bytes}
use stacks_k8s.Encoding.BigEndian.{IsByte}
use stacks_k8s.Identity.{decode_address, encode_address}
use stacks_k8s.Identity.Address.{
  IsSha256, IsAddressData, encode_address-IsBelow, encode_address-decode_address,
  decode_address-encode_address,
}
use stacks_k8s.Clarity.{
  Value, value, no_items, no_fields, standard_principal, contract_principal, Builtins,
  valid_contract_name,
}
use stacks_k8s.Clarity.Encode.{split_dots, encode_contract, encode_account, encode_principal}
use stacks_k8s.Clarity.Decode.{
  take_bytes, name, contract_value, principal_value, account_value, decode_principal,
}
use stacks_k8s.Clarity.Parts.{take_bytes-append, take_bytes-eq-ok, name-append, name-eq-ok}
use stacks_k8s.Clarity.Dots.{
  NotDot, join_dots, join_dots-split_dots, split_dots-append, split_dots-NotDot,
  encode_address-NotDot, valid_contract_name-NotDot, valid_name-valid_contract_name,
}
use stacks_k8s.Clarity.Wire.{IsWritten, IsRead}

abbrev pub text_value : ℕ → Bytes → Value
text_value t x = value t none [] x no_items no_fields

account_value-encode_address :
    (g : Builtins) (t version : ℕ) (hash address raw rest : Bytes)
    → length hash ≡ 20
    → encode_address g.sha256 version hash ≡ ok address
    → raw ≡ version ∷ hash ++ rest
    → decode_principal g t raw ≡ principal_value t rest address
unfolding decode_principal account_value
account_value-encode_address g t version hash address raw rest n e q =
    ap (λ r. decode_principal g t r) q
    ∙ >>=-ok (account_value g t) (take_bytes-append 21 (version ∷ hash) rest (ap suc n))
    ∙ >>=-ok (principal_value t rest) e

encode_account-eq-ok :
    (g : Builtins) (b address out : Bytes)
    → encode_account g b address ≡ ok out
    → (r : ℕ × Bytes) × (out ≡ b ++ (r.0 ∷ r.1))
      × (encode_address g.sha256 r.0 r.1 ≡ ok address)
      × IsAddressData r.0 r.1
unfolding encode_account
encode_account-eq-ok g b address out h =
    let (r, decoded, same) = >>=-eq-ok (decode_address g.sha256 address) _ h in
    let (e, d) = encode_address-decode_address g.sha256 address r decoded in (r, cc same, e, d)

write_principal :
    (g : Builtins) (t : ℕ) (b x : Bytes) (parts : List Bytes) (out : Bytes)
    → (t == standard_principal || t == contract_principal) ≡ true
    → join_dots parts ≡ x
    → encode_principal g t b parts ≡ ok out
    → IsWritten (decode_principal g t) b out 21 (text_value t x)
unfolding encode_principal join_dots principal_value encode_contract contract_value
write_principal g t b x [] out c j h = cc
write_principal g t b x (address ∷ []) out c j h =
    let (standard, done) = guard-eq-ok (t == contract_principal) _ _ h in
    let ((version, hash), split, e, d) = encode_account-eq-ok g b address out done in
    record {
      wire = version ∷ hash;
      split = split;
      size = omega (arith, d.hash_length);
      back = λ rest.
          account_value-encode_address g t version hash address _ rest d.hash_length e refl
          ∙ rw standard (ap (λ k. ok (text_value t k, rest)) j);
    }
write_principal g t b x (address ∷ n ∷ []) out c j h =
    let (other, chain) = guard-eq-ok (t == standard_principal) _ _ h in
    let contract : (t == contract_principal) ≡ true = ground (arith, other, c) in
    let (middle, first, second) =
      >>=-eq-ok (encode_account g b address) (λ b. encode_contract b n) chain in
    let ((version, hash), split, e, d) = encode_account-eq-ok g b address middle first in
    let (named, same) = guard-eq-ok (not (valid_contract_name n)) _ _ second in
    let good : valid_contract_name n ≡ true = ground (arith, named) in
    record {
      wire = version ∷ hash ++ (length n % 256 ∷ n);
      split =
          cc same
          ∙ ap (λ m. m ++ (length n % 256 ∷ n)) split
          ∙ append_assoc b (version ∷ hash) (length n % 256 ∷ n);
      size = omega (arith, d.hash_length, length-append hash (length n % 256 ∷ n));
      back = λ rest.
          account_value-encode_address g t version hash address _ ((length n % 256 ∷ n) ++ rest)
            d.hash_length e (append_assoc (version ∷ hash) (length n % 256 ∷ n) rest)
          ∙ rw contract (
              >>=-ok (contract_value t address)
                (name-append n rest (valid_name-valid_contract_name n good))
              ∙ rw good (ap (λ k. ok (text_value t k, rest)) j));
    }
write_principal g t b x (address ∷ n ∷ more ∷ parts) out c j h = cc

-- A principal that the encoder accepts is read back.
pub decode_principal-encode_principal :
    (g : Builtins) (t : ℕ) (b x out : Bytes)
    → (t == standard_principal || t == contract_principal) ≡ true
    → encode_principal g t b (split_dots x) ≡ ok out
    → IsWritten (decode_principal g t) b out 21 (text_value t x)
decode_principal-encode_principal g t b x out c h =
    write_principal g t b x (split_dots x) out c (join_dots-split_dots x) h

encode_address-Account :
    (g : Builtins) (b : Bytes) (version : ℕ) (hash address : Bytes)
    → IsSha256 g.sha256
    → All IsByte hash
    → length hash ≡ 20
    → encode_address g.sha256 version hash ≡ ok address
    → encode_account g b address ≡ ok (b ++ (version ∷ hash))
unfolding encode_account
encode_address-Account g b version hash address s bytes n e =
    let d : IsAddressData version hash = record {
      version_range = encode_address-IsBelow g.sha256 version hash address e;
      hash_length = n;
      hash_bytes = bytes;
    } in
    >>=-ok (λ r. ok (b ++ (r.0 ∷ r.1)))
      (decode_address-encode_address g.sha256 version hash address s d e)

read_account :
    (g : Builtins) (t : ℕ) (v : Value) (raw more rest address : Bytes)
    → (t == standard_principal || t == contract_principal) ≡ true
    → All NotDot address
    → principal_value t more address ≡ ok (v, rest)
    → (x : Bytes) × (v ≡ text_value t x)
      × (tail : Bytes) × (more ≡ tail ++ rest)
      × ((b b1 : Bytes)
          → encode_account g b address ≡ ok b1
          → encode_principal g t b (split_dots x) ≡ ok (b1 ++ tail))
unfolding principal_value contract_value
read_account g t v raw more rest address c nd h = elim (Bool-cases (t == contract_principal)) [
  | inr e ↦
      let same = rw e at h in
      (
        address,
        cc same,
        [],
        cc same,
        λ b b1 q.
            unfold encode_principal in
            rw (split_dots-NotDot address nd, e) (q ∙ ap ok (sym (append-nil b1))),
      )
  | inl e ↦
      let other : (t == standard_principal) ≡ false = ground (arith, e) in
      let ((n, after), named, checked) =
        >>=-eq-ok (name more) (contract_value t address) (rw e at h) in
      let (split, valid) = name-eq-ok more n after named in
      let (contract, same) = guard-eq-ok (not (valid_contract_name n)) _ _ checked in
      let good : valid_contract_name n ≡ true = ground (arith, contract) in
      (
        address ++ (46 ∷ n),
        cc same,
        length n % 256 ∷ n,
        cc (split, same),
        λ b b1 q.
            unfold encode_principal in
            rw
              (
                split_dots-append address n nd,
                split_dots-NotDot n (valid_contract_name-NotDot n good),
                other,
                q,
                good,
              )
              refl,
      )
]

hash-IsRead :
    (g : Builtins) (t : ℕ) (v : Value) (raw w more rest : Bytes) (most : ℕ)
    → IsSha256 g.sha256
    → All IsByte w
    → (t == standard_principal || t == contract_principal) ≡ true
    → length w ≡ 21
    → raw ≡ w ++ more
    → account_value g t (w, more) ≡ ok (v, rest)
    → (x : Bytes) × (v ≡ text_value t x)
      × IsRead (λ b. encode_principal g t b (split_dots x)) raw rest 21 most
unfolding account_value
hash-IsRead g t v raw [] more rest most s bytes c n q h = cc
hash-IsRead g t v raw (version ∷ hash) more rest most s (_, bytes) c n q h =
    let (address, e, after) =
      >>=-eq-ok (encode_address g.sha256 version hash) (principal_value t more) h in
    let nd = encode_address-NotDot g.sha256 version hash address e in
    let (x, same, tail, left_over, put) = read_account g t v raw more rest address c nd after in
    (
      x,
      same,
      record {
        wire = version ∷ hash ++ tail;
        split =
            q
            ∙ ap (λ m. version ∷ hash ++ m) left_over
            ∙ sym (append_assoc (version ∷ hash) tail rest);
        size = omega (arith, n, length-append hash tail);
        write = λ b room.
            put b (b ++ (version ∷ hash))
              (encode_address-Account g b version hash address s bytes (omega (arith, n)) e)
            ∙ ap ok (append_assoc b (version ∷ hash) tail);
      },
    )

-- A principal that the decoder accepts is one that the encoder writes for it.
pub encode_principal-decode_principal :
    (g : Builtins) (t : ℕ) (v : Value) (raw rest : Bytes) (most : ℕ)
    → IsSha256 g.sha256
    → All IsByte raw
    → (t == standard_principal || t == contract_principal) ≡ true
    → decode_principal g t raw ≡ ok (v, rest)
    → (x : Bytes) × (v ≡ text_value t x)
      × IsRead (λ b. encode_principal g t b (split_dots x)) raw rest 21 most
unfolding decode_principal account_value
encode_principal-decode_principal g t v raw rest most s bytes c h =
    let ((w, more), taken, after) = >>=-eq-ok (take_bytes 21 raw) (account_value g t) h in
    let (split, size) = take_bytes-eq-ok 21 raw w more taken in
    let (w_bytes, _) = All-of-append IsByte w more (subst (All IsByte) split bytes) in
    hash-IsRead g t v raw w more rest most s w_bytes c size split after
