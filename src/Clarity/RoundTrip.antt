-- ===== src/Clarity/RoundTrip.antt =====
-- A value that is encoded is decoded again.
use mathlib.Core.List.{append-nil}
use stacks_k8s.Common.{
  ℕ, zero, suc, ◌≤◌, ◌≡◌, refl, sym, ap, ◌∙◌, Bool, true, false, not, ◌&&◌, ◌||◌, Option, none,
  some, [], ◌∷◌, ◌++◌, arith, leb, ltb, ◌==◌, nat_eq, if◌then◌else◌, length, Result, ok, err, ◌>>=◌,
  >>=-eq-ok, >>=-ok, guard-eq-ok, any,
}
use stacks_k8s.Common.Int.{ℤ}
use stacks_k8s.Encoding.Hex.{Bytes}
use stacks_k8s.Clarity.{
  Value, value, Items, no_items, Fields, no_fields, int_type, uint_type, buffer_type, ascii_type,
  Case, integer_case, buffer_case, text_case, constant_case, principal_case, wrapper_case,
  list_case, tuple_case, no_case, case_of, Limits, Builtins,
}
use stacks_k8s.Clarity.Encode.{
  append_data, encode_integer, check_text, sort_fields, encode_case, type_of, check_size,
  encode_value, encode_with_limits,
}
use stacks_k8s.Clarity.Decode.{
  take_bytes, take_byte, integer_value, data_value, decode_data, decode_case, decode_value,
  check_rest, decode_with_limits,
}
use stacks_k8s.Clarity.Parts.{take_bytes-append}
use stacks_k8s.Clarity.Integers.{decode_integer-encode_integer}
use stacks_k8s.Clarity.Principals.{decode_principal-encode_principal}
use stacks_k8s.Clarity.Cases.{Selects, case_of-Selects}
use stacks_k8s.Clarity.Normal.{keep, normal, normal_items, normal_fields, IsMap}
use stacks_k8s.Clarity.Written.{data-IsWritten, wrapped-IsWritten, list-IsWritten, tuple-IsWritten}
use stacks_k8s.Clarity.Wire.{IsWritten, then-IsWritten, fewer-IsWritten}

integer-IsWritten :
    (t : ℕ) (b : Bytes) (i : Option ℤ) (out : Bytes)
    → (t == int_type || t == uint_type) ≡ true
    → encode_integer t b i ≡ ok out
    → IsWritten
        (λ raw. take_bytes 16 raw >>= integer_value t)
        b
        out
        0
        (value t i [] [] no_items no_fields)
unfolding encode_integer integer_value
integer-IsWritten t b none out c h = cc
integer-IsWritten t b (some n) out c h =
    let (w, split, size, same) = decode_integer-encode_integer t b n out c h in
    record {
      wire = w;
      split = split;
      size = omega arith;
      back = λ rest.
          >>=-ok (integer_value t) (take_bytes-append 16 w rest size)
          ∙ ap (λ n. ok (value t (some n) [] [] no_items no_fields, rest)) same;
    }

check_text-same : (g : Builtins) (t : ℕ) (x y : Bytes) → check_text g t x ≡ ok y → y ≡ x
unfolding check_text
check_text-same g t x y h =
    let (_, more) = guard-eq-ok (not (g.valid_utf8 x)) _ _ h in
    let (_, same) = guard-eq-ok (t == ascii_type && any (λ c. ltb 127 c) x) _ _ more in cc same

text-IsWritten :
    (g : Builtins) (l : Limits) (t : ℕ) (b x out : Bytes)
    → (t == buffer_type) ≡ false
    → check_text g t x >>= (λ x. append_data l b x) ≡ ok out
    → IsWritten (decode_data g t) b out 0 (value t none [] x no_items no_fields)
unfolding data_value
text-IsWritten g l t b x out c h =
    let (y, checked, done) = >>=-eq-ok (check_text g t x) (λ x. append_data l b x) h in
    let same = check_text-same g t x y checked in
    fewer-IsWritten (omega arith) (
      data-IsWritten g l t b x out (value t none [] x no_items no_fields)
        (λ rest.
          rw c
            (>>=-ok (λ x. ok (value t none [] x no_items no_fields, rest)) (checked ∙ ap ok same)))
        (ap (append_data l b) (sym same) ∙ done))

buffer-IsWritten :
    (g : Builtins) (l : Limits) (t : ℕ) (b bs out : Bytes)
    → (t == buffer_type) ≡ true
    → append_data l b bs ≡ ok out
    → IsWritten (decode_data g t) b out 0 (value t none bs [] no_items no_fields)
unfolding data_value
buffer-IsWritten g l t b bs out c h =
    fewer-IsWritten (omega arith)
      (data-IsWritten g l t b bs out (value t none bs [] no_items no_fields) (λ rest. rw c refl) h)

module _ (enc : Bytes → Value → Result Bytes) (dec : Bytes → Result (Value × Bytes))
    (each : (b : Bytes) (v : Value) (out : Bytes)
      → IsMap v
      → enc b v ≡ ok out
      → IsWritten dec b out 1 (normal v))
    (g : Builtins) (l : Limits) where
  case-IsWritten :
      (c : Case) (b : Bytes) (t : ℕ) (i : Option ℤ) (bs x : Bytes) (vs : Items) (fs : Fields)
      (out : Bytes)
      → Selects c t
      → IsMap (value t i bs x vs fs)
      → encode_case enc g l b c (value t i bs x vs fs) ≡ ok out
      → IsWritten
          (decode_case dec g c t)
          b
          out
          0
          (keep c t i bs x (normal_items vs) (sort_fields (normal_fields fs)))
  unfolding encode_case decode_case keep
  case-IsWritten integer_case b t i bs x vs fs out s m h = integer-IsWritten t b i out s h
  case-IsWritten buffer_case b t i bs x vs fs out s m h = buffer-IsWritten g l t b bs out s h
  case-IsWritten text_case b t i bs x vs fs out s m h = text-IsWritten g l t b x out s h
  case-IsWritten constant_case b t i bs x vs fs out s m h = record {
    wire = [];
    split = cc (h, append-nil b);
    size = omega arith;
    back = λ rest. refl;
  }
  case-IsWritten principal_case b t i bs x vs fs out s m h =
      fewer-IsWritten (omega arith) (decode_principal-encode_principal g t b x out s h)
  case-IsWritten wrapper_case b t i bs x vs fs out s (m, _) h =
      wrapped-IsWritten enc dec each t b vs out m h
  case-IsWritten list_case b t i bs x vs fs out s (m, _) h =
      list-IsWritten enc dec each l t b vs out m h
  case-IsWritten tuple_case b t i bs x vs fs out s (_, m) h =
      tuple-IsWritten enc dec each l t b fs out m h
  case-IsWritten no_case b t i bs x vs fs out s m h = cc

check_size-eq-ok :
    (l : Limits) (b out : Bytes) → check_size l b ≡ ok out → (out ≡ b) × (length out ≤ l.max_bytes)
unfolding check_size
check_size-eq-ok l b out h =
    let (fits, same) = guard-eq-ok (ltb l.max_bytes (length b)) _ _ h in
    let e : out ≡ b = cc same in rw e (refl, ground (arith, fits))

-- One value, with the bytes before it and any after.
pub value-IsWritten :
    (left : ℕ) (g : Builtins) (l : Limits) (b : Bytes) (v : Value) (out : Bytes)
    → IsMap v
    → encode_value left g l b v ≡ ok out
    → IsWritten (decode_value left g) b out 1 (normal v) × (length out ≤ l.max_bytes)
unfolding encode_value decode_value normal type_of take_byte
value-IsWritten zero g l b v out m h = cc
value-IsWritten (suc left) g l b (value t i bs x vs fs) out m h =
    let (_, run) = guard-eq-ok (leb l.max_bytes (length b)) _ _ h in
    let enc = encode_value left g l in
    let (written, cased, checked) =
      >>=-eq-ok
        (encode_case (encode_value left g l) g l (b ++ (t ∷ [])) (case_of t) (value t i bs x vs fs))
        (check_size l) run in
    let (same, fits) = check_size-eq-ok l written out checked in
    let tag : IsWritten take_byte b (b ++ (t ∷ [])) 1 t = record {
      wire = t ∷ [];
      split = refl;
      size = omega arith;
      back = λ rest. refl;
    } in
    (
      then-IsWritten (λ t raw. decode_case (decode_value left g) g (case_of t) t raw) tag
          (case-IsWritten (encode_value left g l) (decode_value left g)
            (λ b v out m h. (value-IsWritten left g l b v out m h).0) g l (case_of t)
            (b ++ (t ∷ [])) t i bs x vs fs out (case_of-Selects t) m (cased ∙ ap ok (sym same))),
      fits,
    )

-- What the encoder writes under limits, the decoder reads under the same limits, as the part of
-- the value that its type selects; the bytes are no more than MaxBytes. The lists of entries
-- stand for maps.
pub decode_with_limits-encode_with_limits :
    (g : Builtins) (v : Value) (l : Limits) (raw : Bytes)
    → IsMap v
    → encode_with_limits g v l ≡ ok raw
    → (decode_with_limits g raw l ≡ ok (normal v)) × (length raw ≤ l.max_bytes)
unfolding encode_with_limits decode_with_limits
decode_with_limits-encode_with_limits g v l raw m h =
    let (range, run) =
      guard-eq-ok (ltb l.max_bytes 1 || ltb l.max_depth 1 || ltb 256 l.max_depth) _ _ h in
    let (w, fits) = value-IsWritten l.max_depth g l [] v raw m run in
    let whole : raw ≡ w.wire ++ [] = w.split ∙ sym (append-nil w.wire) in
    let limits : (ltb l.max_bytes 1
          || ltb l.max_depth 1
          || ltb 256 l.max_depth
          || ltb l.max_bytes (length raw))
        ≡ false =
      ground (arith, range, fits) in
    (rw limits (>>=-ok check_rest (ap (decode_value l.max_depth g) whole ∙ w.back [])), fits)

last_guard : (a b c d : Bool) → (a || b || c) ≡ false → (a || b || c || d) ≡ d
last_guard false false false d h = refl
last_guard false false true d h = cc
last_guard false true c d h = cc
last_guard true b c d h = cc

-- What the encoder writes under limits, with any byte more behind it, is refused by the decoder
-- under the same limits: for its size where that is over MaxBytes, and for the trailing bytes
-- otherwise. The lists of entries stand for maps.
pub decode_with_limits-append :
    (g : Builtins) (v : Value) (l : Limits) (raw : Bytes) (x : ℕ) (more : Bytes)
    → IsMap v
    → encode_with_limits g v l ≡ ok raw
    → decode_with_limits g (raw ++ (x ∷ more)) l ≡ (
        if ltb l.max_bytes (length (raw ++ (x ∷ more)))
        then err "exceeded Clarity resource limit"
        else err "trailing Clarity bytes")
unfolding encode_with_limits decode_with_limits
decode_with_limits-append g v l raw x more m h =
    let (range, run) =
      guard-eq-ok (ltb l.max_bytes 1 || ltb l.max_depth 1 || ltb 256 l.max_depth) _ _ h in
    let (w, _) = value-IsWritten l.max_depth g l [] v raw m run in
    let limits : (ltb l.max_bytes 1
          || ltb l.max_depth 1
          || ltb 256 l.max_depth
          || ltb l.max_bytes (length (raw ++ (x ∷ more))))
        ≡ ltb l.max_bytes (length (raw ++ (x ∷ more))) =
      last_guard (ltb l.max_bytes 1) (ltb l.max_depth 1) (ltb 256 l.max_depth) _ range in
    let read : decode_value l.max_depth g (raw ++ (x ∷ more)) ≡ ok (normal v, x ∷ more) =
      ap (λ r. decode_value l.max_depth g (r ++ (x ∷ more))) w.split ∙ w.back (x ∷ more) in
    ap
      (λ stop.
        if stop
        then err "exceeded Clarity resource limit"
        else decode_value l.max_depth g (raw ++ (x ∷ more)) >>= check_rest)
      limits
    ∙ ap
        (λ r.
          if ltb l.max_bytes (length (raw ++ (x ∷ more)))
          then err "exceeded Clarity resource limit"
          else r)
        (>>=-ok check_rest read)
