-- ===== src/Clarity/Read.antt =====
-- What the decoder reads is what the encoder writes: buffers, strings and the loops.
use mathlib.Core.Path.{subst, subst₂}
use mathlib.Core.List.{append_assoc}
use Prim.Native.String.{String}
use stacks_k8s.Common.{
  ℕ, zero, suc, ◌+◌, ◌*◌, ◌/◌, ◌%◌, ◌≤◌, ◌≡◌, refl, sym, ap, ◌∙◌, Bool, true, false, not, ◌||◌,
  none, [], ◌∷◌, ◌++◌, arith, leb, ltb, nat_eq, if◌then◌else◌, length, length-append, Result, ok,
  err, ◌>>=◌, >>=-eq-ok, guard-eq-ok, All, All-of-append,
}
use stacks_k8s.Encoding.Hex.{Bytes}
use stacks_k8s.Encoding.BigEndian.{IsByte, fill_bytes, length-fill_bytes}
use stacks_k8s.Clarity.{
  Value, value, Items, no_items, item, Fields, no_fields, field, Limits, Builtins, ltb_bytes,
}
use stacks_k8s.Clarity.Encode.{
  append_data, count_items, count_fields, valid_names, encode_items, encode_fields, encode_list,
  encode_tuple,
}
use stacks_k8s.Clarity.Decode.{
  take_bytes, count, name, data_value, decode_data, decode_items, decode_fields, decode_list,
  tuple_count, decode_tuple,
}
use stacks_k8s.Clarity.Parts.{take_bytes-eq-ok, count-eq-ok, length-name, name-eq-ok}
use stacks_k8s.Clarity.Normal.{Ascending, sort_fields-Ascending}
use stacks_k8s.Clarity.Wire.{
  IsRead, then-IsRead, rest_bytes, fewer-IsRead, nothing-IsRead, same-IsRead,
}

-- Buffers and strings: their bytes, behind the count.
pub data-IsRead :
    (g : Builtins) (l : Limits) (t : ℕ) (raw rest : Bytes) (v : Value)
    → All IsByte raw
    → decode_data g t raw ≡ ok (v, rest)
    → (payload more : Bytes) × (data_value g t (payload, more) ≡ ok (v, rest))
      × IsRead (λ b. append_data l b payload) raw more 4 l.max_bytes
unfolding decode_data append_data
data-IsRead g l t raw rest v bytes h =
    let ((n, after), counted, taken) =
      >>=-eq-ok (count raw) (λ r. take_bytes r.0 r.1 >>= data_value g t) h in
    let ((payload, more), took, read) = >>=-eq-ok (take_bytes n after) (data_value g t) taken in
    let (split, small, _) = count-eq-ok raw n after bytes counted in
    let (parts, size) = take_bytes-eq-ok n after payload more took in
    let head = fill_bytes 4 (length payload) in
    let total = length-append head payload in
    let four = length-fill_bytes 4 (length payload) in
    (
      payload,
      more,
      read,
      record {
        wire = head ++ payload;
        split =
            split
            ∙ subst₂ (λ k a. fill_bytes 4 k ++ a ≡ head ++ payload ++ more) size (sym parts)
                (sym (append_assoc head payload more));
        size = omega (arith, total, four);
        write = λ b room.
            let range : (leb 4_294_967_296 (length payload)
                  || ltb l.max_bytes (length b + 4 + length payload))
                ≡ false =
              ground (arith, small, size, total, four, room) in
            rw range (ap ok (append_assoc b head payload));
      },
    )

name-IsRead :
    (raw k rest : Bytes) (most : ℕ)
    → name raw ≡ ok (k, rest)
    → IsRead (λ b. ok (b ++ (length k % 256 ∷ k))) raw rest 2 most
name-IsRead raw k rest most h =
    let (split, valid) = name-eq-ok raw k rest h in
    record {
      wire = length k % 256 ∷ k;
      split = split;
      size = omega (arith, length-name k valid);
      write = λ b room. refl;
    }

-- A count, and the loop behind it, under the encoder's guard on the count.
counted-IsRead :
    (l : Limits) (n m : ℕ) (loop : Bytes → Result Bytes) (stop : Bool) (message : String)
    (raw after rest : Bytes) (least : ℕ)
    → m ≡ n
    → raw ≡ fill_bytes 4 n ++ after
    → IsRead loop after rest least l.max_bytes
    → (least ≤ l.max_bytes → stop ≡ false)
    → IsRead (λ b. if stop then err message else loop (b ++ fill_bytes 4 m)) raw rest 0 l.max_bytes
counted-IsRead l n m loop stop message raw after rest least e split r range =
    let head = fill_bytes 4 n in
    let total = length-append head r.wire in
    record {
      wire = head ++ r.wire;
      split = split ∙ ap (λ x. head ++ x) r.split ∙ sym (append_assoc head r.wire rest);
      size = omega arith;
      write = λ b room.
          rw (range (omega (arith, total, r.size, room)), e)
            (r.write (b ++ head) (omega (arith, total, length-append b head, room))
              ∙ ap ok (append_assoc b head r.wire));
    }

tuple_count-eq-ok : (c : Result (ℕ × Bytes)) (r : ℕ × Bytes) → tuple_count c ≡ ok r → c ≡ ok r
unfolding tuple_count
tuple_count-eq-ok (err message) r h = cc
tuple_count-eq-ok (ok (n, raw)) r h = (guard-eq-ok (ltb (length raw / 3) n) _ _ h).1

module _ (enc : Bytes → Value → Result Bytes) (dec : Bytes → Result (Value × Bytes)) (l : Limits)
    (each : (raw : Bytes) (v : Value) (rest : Bytes)
      → All IsByte raw
      → dec raw ≡ ok (v, rest)
      → IsRead (λ b. enc b v) raw rest 1 l.max_bytes) where
  items-IsRead :
      (n : ℕ) (raw : Bytes) (vs : Items) (rest : Bytes)
      → All IsByte raw
      → decode_items dec n raw ≡ ok (vs, rest)
      → (count_items vs ≡ n) × IsRead (λ b. encode_items enc b vs) raw rest n l.max_bytes
  unfolding encode_items decode_items count_items
  items-IsRead zero raw vs rest bytes h =
      let e : vs ≡ no_items = cc h in
      let f : rest ≡ raw = cc h in rw (e, f) (refl, nothing-IsRead (λ b. refl))
  items-IsRead (suc n) raw vs rest bytes h =
      let ((v, after), first, loop) =
        >>=-eq-ok (dec raw) (λ r. decode_items dec n r.1 >>= λ s. ok (item r.0 s.0, s.1)) h in
      let ((ws, last), later, same) =
        >>=-eq-ok (decode_items dec n after) (λ s. ok (item v s.0, s.1)) loop in
      let e : vs ≡ item v ws = cc same in
      let f : rest ≡ last = cc same in
      let r = each raw v after bytes first in
      let (number, s) = items-IsRead n after ws last (rest_bytes r bytes) later in
      rw (e, f)
        (
          ap suc number,
          fewer-IsRead (omega arith) (then-IsRead (λ b. enc b v) (λ b. encode_items enc b ws) r s),
        )

  fields-IsRead :
      (n : ℕ) (previous raw : Bytes) (fs : Fields) (rest : Bytes)
      → All IsByte raw
      → decode_fields dec n previous raw ≡ ok (fs, rest)
      → (count_fields fs ≡ n)
        × Ascending previous fs
        × (valid_names fs ≡ true)
        × IsRead (λ b. encode_fields enc b fs) raw rest (n * 3) l.max_bytes
  unfolding encode_fields decode_fields count_fields valid_names
  fields-IsRead zero previous raw fs rest bytes h =
      let e : fs ≡ no_fields = cc h in
      let f : rest ≡ raw = cc h in rw (e, f) (refl, tt, refl, nothing-IsRead (λ b. refl))
  fields-IsRead (suc n) previous raw fs rest bytes h =
      let ((k, body), named, guarded) =
        >>=-eq-ok (name raw)
          (λ k.
            if not (ltb_bytes previous k.0)
            then err "noncanonical tuple keys"
            else dec k.1 >>= λ r. decode_fields dec n k.0 r.1 >>= λ s. ok (field k.0 r.0 s.0, s.1))
          h in
      let (above, chain) = guard-eq-ok (not (ltb_bytes previous k)) _ _ guarded in
      let ((v, after), first, loop) =
        >>=-eq-ok (dec body) (λ r. decode_fields dec n k r.1 >>= λ s. ok (field k r.0 s.0, s.1))
          chain in
      let ((gs, last), later, same) =
        >>=-eq-ok (decode_fields dec n k after) (λ s. ok (field k v s.0, s.1)) loop in
      let e : fs ≡ field k v gs = cc same in
      let f : rest ≡ last = cc same in
      let key = name-IsRead raw k body l.max_bytes named in
      let valid = (name-eq-ok raw k body named).1 in
      let r = each body v after (rest_bytes key bytes) first in
      let (number, ascending, names, s) =
        fields-IsRead n k after gs last (rest_bytes r (rest_bytes key bytes)) later in
      subst₂
        (λ fs rest.
          (count_fields fs ≡ suc n)
          × Ascending previous fs
          × (valid_names fs ≡ true)
          × IsRead (λ b. encode_fields enc b fs) raw rest (suc n * 3) l.max_bytes)
        (sym e) (sym f)
        (
          ap suc number,
          (ground (arith, above), ascending),
          rw valid names,
          fewer-IsRead (omega arith) (
              then-IsRead (λ b. ok (b ++ (length k % 256 ∷ k)))
                (λ b. enc b v >>= λ b. encode_fields enc b gs) key
                (then-IsRead (λ b. enc b v) (λ b. encode_fields enc b gs) r s)),
        )

  pub list-IsRead :
      (t : ℕ) (raw : Bytes) (v : Value) (rest : Bytes)
      → All IsByte raw
      → decode_list dec t raw ≡ ok (v, rest)
      → (vs : Items) × (v ≡ value t none [] [] vs no_fields)
        × IsRead (λ b. encode_list enc l b vs) raw rest 0 l.max_bytes
  unfolding decode_list encode_list
  list-IsRead t raw v rest bytes h =
      let ((n, after), counted, loop) =
        >>=-eq-ok (count raw)
          (λ n. decode_items dec n.0 n.1 >>= λ s. ok (value t none [] [] s.0 no_fields, s.1)) h in
      let ((vs, last), items, same) =
        >>=-eq-ok (decode_items dec n after) (λ s. ok (value t none [] [] s.0 no_fields, s.1))
          loop in
      let (split, small, _) = count-eq-ok raw n after bytes counted in
      let f : rest ≡ last = cc same in
      let after_bytes =
        (All-of-append IsByte (fill_bytes 4 n) after (subst (All IsByte) split bytes)).1 in
      let (number, r) = items-IsRead n after vs last after_bytes items in
      (
        vs,
        cc same,
        subst (λ k. IsRead (λ b. encode_list enc l b vs) raw k 0 l.max_bytes) (sym f)
            (counted-IsRead l n (count_items vs) (λ b. encode_items enc b vs)
              (leb 4_294_967_296 (count_items vs) || ltb l.max_bytes (count_items vs))
              "list too large" raw after last n number split r
              (λ fits. ground (arith, small, number, fits))),
      )

  pub tuple-IsRead :
      (t : ℕ) (raw : Bytes) (v : Value) (rest : Bytes)
      → All IsByte raw
      → decode_tuple dec t raw ≡ ok (v, rest)
      → (fs : Fields) × (v ≡ value t none [] [] no_items fs)
        × IsRead (λ b. encode_tuple enc l b fs) raw rest 0 l.max_bytes
  unfolding decode_tuple encode_tuple tuple_count
  tuple-IsRead t raw v rest bytes h =
      let ((n, after), checked, loop) =
        >>=-eq-ok (tuple_count (count raw))
          (λ n. decode_fields dec n.0 [] n.1 >>= λ s. ok (value t none [] [] no_items s.0, s.1))
          h in
      let ((fs, last), fields, same) =
        >>=-eq-ok (decode_fields dec n [] after) (λ s. ok (value t none [] [] no_items s.0, s.1))
          loop in
      let counted = tuple_count-eq-ok (count raw) (n, after) checked in
      let (split, small, _) = count-eq-ok raw n after bytes counted in
      let f : rest ≡ last = cc same in
      let after_bytes =
        (All-of-append IsByte (fill_bytes 4 n) after (subst (All IsByte) split bytes)).1 in
      let (number, ascending, names, r) = fields-IsRead n [] after fs last after_bytes fields in
      let sorted = sort_fields-Ascending [] fs ascending in
      let stop = leb 4_294_967_296 (count_fields fs) || ltb (l.max_bytes / 3) (count_fields fs) in
      let loop_read =
        counted-IsRead l n (count_fields fs) (λ b. encode_fields enc b fs) stop "tuple too large"
          raw after last (n * 3) number split r (λ fits. ground (arith, small, number, fits)) in
      (
        fs,
        cc same,
        subst (λ k. IsRead (λ b. encode_tuple enc l b fs) raw k 0 l.max_bytes) (sym f)
            (same-IsRead
              (λ b. rw names (
                ap
                  (λ s.
                    if stop
                    then err "tuple too large"
                    else encode_fields enc (b ++ fill_bytes 4 (count_fields fs)) s)
                  sorted))
              loop_read),
      )
