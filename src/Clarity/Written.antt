-- ===== src/Clarity/Written.antt =====
-- What the encoder writes, the decoder reads back.
use mathlib.Core.Path.{subst₂}
use mathlib.Core.List.{append_assoc, append-nil}
use stacks_k8s.Common.{
  ℕ, ◌+◌, ◌*◌, ◌/◌, ◌%◌, ◌^◌, ◌<◌, ◌≡◌, refl, ap, ◌∙◌, true, false, not, ◌||◌, none, [], ◌∷◌, ◌++◌,
  arith, leb, ltb, nat_eq, if◌then◌else◌, length, length-append, Result, ok, err, ◌>>=◌, >>=-eq-ok,
  >>=-ok, guard-eq-ok,
}
use stacks_k8s.Encoding.Hex.{Bytes}
use stacks_k8s.Encoding.BigEndian.{fill_bytes, length-fill_bytes}
use stacks_k8s.Clarity.{
  Value, value, Items, no_items, item, Fields, no_fields, field, Limits, Builtins, ltb_bytes,
  valid_name,
}
use stacks_k8s.Clarity.Encode.{
  append_data, count_items, count_fields, valid_names, sort_fields, encode_items, encode_fields,
  encode_wrapped, encode_list, encode_tuple,
}
use stacks_k8s.Clarity.Decode.{
  take_bytes, count, name, data_value, decode_data, decode_items, decode_fields, decode_list,
  tuple_count, decode_tuple,
}
use stacks_k8s.Clarity.Parts.{take_bytes-append, count-append, length-name, name-append}
use stacks_k8s.Clarity.Normal.{
  normal, normal_items, normal_fields, IsMap, IsMapItems, IsMapFields, Ascending,
  normal_fields-sort_fields, Ascending-sort_fields, IsMapFields-sort_fields,
  count_fields-sort_fields, valid_names-sort_fields,
}
use stacks_k8s.Clarity.Wire.{
  IsWritten, then-IsWritten, map-IsWritten, fewer-IsWritten, guard-IsWritten,
}

-- A count, where what follows it has at least as many bytes.
pub count-IsWritten :
    {A : Type 0} (next : ℕ → Bytes → Result (A × Bytes)) (b out : Bytes) (n : ℕ) (a : A)
    → n < 256 ^ 4
    → IsWritten (next n) (b ++ fill_bytes 4 n) out n a
    → IsWritten (λ raw. count raw >>= λ r. next r.0 r.1) b out 4 a
count-IsWritten next b out n a small w = record {
  wire = fill_bytes 4 n ++ w.wire;
  split = w.split ∙ append_assoc b (fill_bytes 4 n) w.wire;
  size = omega (arith, length-append (fill_bytes 4 n) w.wire, length-fill_bytes 4 n);
  back = λ rest.
      ap (λ x. count x >>= λ r. next r.0 r.1) (append_assoc (fill_bytes 4 n) w.wire rest)
      ∙ >>=-ok (λ r. next r.0 r.1)
          (count-append n (w.wire ++ rest) small (omega (arith, w.size, length-append w.wire rest)))
      ∙ w.back rest;
}

tuple_count-IsWritten :
    {A : Type 0} (next : ℕ → Bytes → Result (A × Bytes)) (b out : Bytes) (n : ℕ) (a : A)
    → n < 256 ^ 4
    → IsWritten (next n) (b ++ fill_bytes 4 n) out (n * 3) a
    → IsWritten (λ raw. tuple_count (count raw) >>= λ r. next r.0 r.1) b out 4 a
unfolding tuple_count
tuple_count-IsWritten next b out n a small w = record {
  wire = fill_bytes 4 n ++ w.wire;
  split = w.split ∙ append_assoc b (fill_bytes 4 n) w.wire;
  size = omega (arith, length-append (fill_bytes 4 n) w.wire, length-fill_bytes 4 n);
  back = λ rest.
      let total = length-append w.wire rest in
      let enough : ltb (length (w.wire ++ rest) / 3) n ≡ false = ground (arith, total, w.size) in
      ap (λ x. tuple_count (count x) >>= λ r. next r.0 r.1)
        (append_assoc (fill_bytes 4 n) w.wire rest)
      ∙ ap (λ c. tuple_count c >>= λ r. next r.0 r.1)
          (count-append n (w.wire ++ rest) small (omega (arith, w.size, total)))
      ∙ rw enough (w.back rest);
}

take-IsWritten :
    (b payload : Bytes)
    → IsWritten (take_bytes (length payload)) b (b ++ payload) (length payload) payload
take-IsWritten b payload = record {
  wire = payload;
  split = refl;
  size = omega arith;
  back = λ rest. take_bytes-append (length payload) payload rest refl;
}

pub name-IsWritten :
    (b k : Bytes) → valid_name k ≡ true → IsWritten name b (b ++ (length k % 256 ∷ k)) 2 k
name-IsWritten b k v = record {
  wire = length k % 256 ∷ k;
  split = refl;
  size = omega (arith, length-name k v);
  back = λ rest. name-append k rest v;
}

-- Buffers and strings.
pub data-IsWritten :
    (g : Builtins) (l : Limits) (t : ℕ) (b payload out : Bytes) (v : Value)
    → ((rest : Bytes) → data_value g t (payload, rest) ≡ ok (v, rest))
    → append_data l b payload ≡ ok out
    → IsWritten (decode_data g t) b out 4 v
unfolding append_data decode_data
data-IsWritten g l t b payload out v read h =
    let (range, same) =
      guard-eq-ok
        (leb 4_294_967_296 (length payload) || ltb l.max_bytes (length b + 4 + length payload)) _ _
        h in
    record {
      wire = fill_bytes 4 (length payload) ++ payload;
      split = cc (same, append_assoc b (fill_bytes 4 (length payload)) payload);
      size = omega (
        arith,
        length-append (fill_bytes 4 (length payload)) payload,
        length-fill_bytes 4 (length payload),
      );
      back = λ rest.
          ap (λ x. decode_data g t x) (append_assoc (fill_bytes 4 (length payload)) payload rest)
          ∙ >>=-ok (λ r. take_bytes r.0 r.1 >>= data_value g t)
              (count-append (length payload) (payload ++ rest) (ground (arith, range))
                (omega (arith, length-append payload rest)))
          ∙ >>=-ok (data_value g t) (take_bytes-append (length payload) payload rest refl)
          ∙ read rest;
    }

-- The loops, for an `enc` and a `dec` that go together.
module _ (enc : Bytes → Value → Result Bytes) (dec : Bytes → Result (Value × Bytes))
    (each : (b : Bytes) (v : Value) (out : Bytes)
      → IsMap v
      → enc b v ≡ ok out
      → IsWritten dec b out 1 (normal v)) where
  pub items-IsWritten :
      (b : Bytes) (vs : Items) (out : Bytes)
      → IsMapItems vs
      → encode_items enc b vs ≡ ok out
      → IsWritten (decode_items dec (count_items vs)) b out (count_items vs) (normal_items vs)
  unfolding encode_items decode_items count_items normal_items
  items-IsWritten b no_items out m h = record {
    wire = [];
    split = cc (h, append-nil b);
    size = omega arith;
    back = λ rest. refl;
  }
  items-IsWritten b (item v vs) out (mv, m) h =
      let (middle, first, later) = >>=-eq-ok (enc b v) (λ b. encode_items enc b vs) h in
      fewer-IsWritten (omega arith) (
        then-IsWritten
          (λ v raw. decode_items dec (count_items vs) raw >>= λ s. ok (item v s.0, s.1))
          (each b v middle mv first)
          (map-IsWritten (item (normal v)) (items-IsWritten middle vs out m later)))

  pub fields-IsWritten :
      (b previous : Bytes) (fs : Fields) (out : Bytes)
      → Ascending previous fs
      → valid_names fs ≡ true
      → IsMapFields fs
      → encode_fields enc b fs ≡ ok out
      → IsWritten
          (decode_fields dec (count_fields fs) previous)
          b
          out
          (count_fields fs * 3)
          (normal_fields fs)
  unfolding encode_fields decode_fields count_fields normal_fields valid_names
  fields-IsWritten b previous no_fields out a h m q = record {
    wire = [];
    split = cc (q, append-nil b);
    size = omega arith;
    back = λ rest. refl;
  }
  fields-IsWritten b previous (field k v fs) out (p, a) h (_, mv, m) q =
      let valid : valid_name k ≡ true = ground (arith, h) in
      let named = b ++ (length k % 256 ∷ k) in
      let (middle, first, later) = >>=-eq-ok (enc named v) (λ b. encode_fields enc b fs) q in
      let after : not (ltb_bytes previous k) ≡ false = ground (arith, p) in
      fewer-IsWritten (omega arith) (
        then-IsWritten
          (λ k raw.
            if not (ltb_bytes previous k)
            then err "noncanonical tuple keys"
            else dec raw >>= λ r.
                decode_fields dec (count_fields fs) k r.1 >>= λ s. ok (field k r.0 s.0, s.1))
          (name-IsWritten b k valid)
          (guard-IsWritten (not (ltb_bytes previous k)) _ after (
            then-IsWritten
              (λ v raw. decode_fields dec (count_fields fs) k raw >>= λ s. ok (field k v s.0, s.1))
              (each named v middle mv first)
              (map-IsWritten (field k (normal v))
                (fields-IsWritten middle k fs out a (ground (arith, h)) m later)))))

  pub wrapped-IsWritten :
      (t : ℕ) (b : Bytes) (vs : Items) (out : Bytes)
      → IsMapItems vs
      → encode_wrapped enc b vs ≡ ok out
      → IsWritten
          (λ raw. dec raw >>= λ r. ok (value t none [] [] (item r.0 no_items) no_fields, r.1))
          b
          out
          0
          (value t none [] [] (normal_items vs) no_fields)
  unfolding encode_wrapped normal_items
  wrapped-IsWritten t b no_items out m h = cc
  wrapped-IsWritten t b (item v no_items) out (mv, _) h =
      fewer-IsWritten (omega arith)
        (map-IsWritten (λ v. value t none [] [] (item v no_items) no_fields) (each b v out mv h))
  wrapped-IsWritten t b (item v (item w vs)) out m h = cc

  pub list-IsWritten :
      (l : Limits) (t : ℕ) (b : Bytes) (vs : Items) (out : Bytes)
      → IsMapItems vs
      → encode_list enc l b vs ≡ ok out
      → IsWritten (decode_list dec t) b out 0 (value t none [] [] (normal_items vs) no_fields)
  unfolding encode_list decode_list
  list-IsWritten l t b vs out m h =
      let (range, done) =
        guard-eq-ok (leb 4_294_967_296 (count_items vs) || ltb l.max_bytes (count_items vs)) _ _
          h in
      fewer-IsWritten (omega arith) (
        count-IsWritten
          (λ n raw. decode_items dec n raw >>= λ s. ok (value t none [] [] s.0 no_fields, s.1)) b
          out (count_items vs) _ (ground (arith, range))
          (map-IsWritten (λ vs. value t none [] [] vs no_fields)
            (items-IsWritten (b ++ fill_bytes 4 (count_items vs)) vs out m done)))

  pub tuple-IsWritten :
      (l : Limits) (t : ℕ) (b : Bytes) (fs : Fields) (out : Bytes)
      → IsMapFields fs
      → encode_tuple enc l b fs ≡ ok out
      → IsWritten
          (decode_tuple dec t)
          b
          out
          0
          (value t none [] [] no_items (sort_fields (normal_fields fs)))
  unfolding encode_tuple decode_tuple
  tuple-IsWritten l t b fs out m h =
      let (range, done) =
        guard-eq-ok (leb 4_294_967_296 (count_fields fs) || ltb (l.max_bytes / 3) (count_fields fs))
          _ _ h in
      let (named, written) = guard-eq-ok (not (valid_names fs)) _ _ done in
      let valid : valid_names fs ≡ true = ground (arith, named) in
      let n = count_fields-sort_fields fs in
      let loop =
        fields-IsWritten (b ++ fill_bytes 4 (count_fields fs)) [] (sort_fields fs) out
          (Ascending-sort_fields fs valid m) (valid_names-sort_fields fs valid)
          (IsMapFields-sort_fields fs m) written in
      fewer-IsWritten (omega arith) (
        tuple_count-IsWritten
          (λ n raw. decode_fields dec n [] raw >>= λ s. ok (value t none [] [] no_items s.0, s.1)) b
          out (count_fields fs) _ (ground (arith, range))
          (map-IsWritten (λ fs. value t none [] [] no_items fs)
            (subst₂
              (λ n fs'.
                IsWritten (decode_fields dec n []) (b ++ fill_bytes 4 (count_fields fs)) out (n * 3)
                  fs')
              n (normal_fields-sort_fields fs) loop)))
