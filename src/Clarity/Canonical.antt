-- ===== src/Clarity/Canonical.antt =====
-- Bytes that are decoded are the bytes that the value is encoded to: no value has two encodings.
use mathlib.Core.Path.{subst, subst₂}
use mathlib.Core.List.{append-nil}
use stacks_k8s.Common.{
  ℕ, zero, suc, ◌+◌, ◌≤◌, ◌≡◌, refl, sym, ap, ◌∙◌, false, not, ◌&&◌, ◌||◌, none, some, [], ◌∷◌,
  ◌++◌, arith, leb, ltb, ◌==◌, nat_eq, length, length-append, Result, ok, ◌>>=◌, >>=-eq-ok, >>=-ok,
  guard-eq-ok, any, All, All-of-append,
}
use stacks_k8s.Encoding.Hex.{Bytes}
use stacks_k8s.Encoding.BigEndian.{IsByte}
use stacks_k8s.Identity.Address.{IsSha256}
use stacks_k8s.Clarity.{
  Value, value, no_items, item, no_fields, ascii_type, Case, integer_case, buffer_case, text_case,
  constant_case, principal_case, wrapper_case, list_case, tuple_case, no_case, case_of, Limits,
  Builtins,
}
use stacks_k8s.Clarity.Encode.{
  append_data, check_text, encode_wrapped, encode_case, type_of, check_size, encode_value,
  encode_with_limits,
}
use stacks_k8s.Clarity.Decode.{
  take_bytes, take_byte, integer_value, decode_integer, data_value, decode_data, decode_case,
  decode_value, check_rest, decode_with_limits,
}
use stacks_k8s.Clarity.Parts.{take_bytes-eq-ok}
use stacks_k8s.Clarity.Integers.{encode_integer-decode_integer}
use stacks_k8s.Clarity.Principals.{encode_principal-decode_principal}
use stacks_k8s.Clarity.Cases.{Selects, case_of-Selects}
use stacks_k8s.Clarity.Read.{data-IsRead, list-IsRead, tuple-IsRead}
use stacks_k8s.Clarity.Wire.{
  IsRead, then-IsRead, fewer-IsRead, nothing-IsRead, same-IsRead, rest_bytes,
}

check_text-eq-ok :
    (g : Builtins) (t : ℕ) (x y : Bytes)
    → check_text g t x ≡ ok y
    → (y ≡ x) × (check_text g t x ≡ ok x)
unfolding check_text
check_text-eq-ok g t x y h =
    let (_, more) = guard-eq-ok (not (g.valid_utf8 x)) _ _ h in
    let (_, same) = guard-eq-ok (t == ascii_type && any (λ c. ltb 127 c) x) _ _ more in
    let e : y ≡ x = cc same in (e, h ∙ ap ok e)

module _ (enc : Bytes → Value → Result Bytes) (dec : Bytes → Result (Value × Bytes)) (g : Builtins)
    (l : Limits)
    (each : (raw : Bytes) (v : Value) (rest : Bytes)
      → All IsByte raw
      → dec raw ≡ ok (v, rest)
      → IsRead (λ b. enc b v) raw rest 1 l.max_bytes)
    (sha : IsSha256 g.sha256) where
  -- What the switch reads is written by the same case.
  abbrev CaseRead : Case → ℕ → Bytes → Value → Bytes → Type 0
  CaseRead c t raw v rest =
      (type_of v ≡ t) × IsRead (λ b. encode_case enc g l b c v) raw rest 0 l.max_bytes

  integer-IsRead :
      (t : ℕ) (raw : Bytes) (v : Value) (rest : Bytes)
      → Selects integer_case t
      → All IsByte raw
      → take_bytes 16 raw >>= integer_value t ≡ ok (v, rest)
      → CaseRead integer_case t raw v rest
  unfolding integer_value encode_case type_of
  integer-IsRead t raw v rest s bytes h =
      let ((w, more), taken, same) = >>=-eq-ok (take_bytes 16 raw) (integer_value t) h in
      let (split, size) = take_bytes-eq-ok 16 raw w more taken in
      let w_bytes = (All-of-append IsByte w more (subst (All IsByte) split bytes)).0 in
      let e : v ≡ value t (some (decode_integer t w)) [] [] no_items no_fields = cc same in
      rw e (
        refl,
        record {
          wire = w;
          split = cc (split, same);
          size = omega arith;
          write = λ b room. encode_integer-decode_integer t b w s w_bytes size;
        },
      )

  buffer-IsRead :
      (t : ℕ) (raw : Bytes) (v : Value) (rest : Bytes)
      → Selects buffer_case t
      → All IsByte raw
      → decode_data g t raw ≡ ok (v, rest)
      → CaseRead buffer_case t raw v rest
  unfolding data_value encode_case type_of
  buffer-IsRead t raw v rest s bytes h =
      let (payload, more, read, r) = data-IsRead g l t raw rest v bytes h in
      let same = rw s at read in
      let e : v ≡ value t none payload [] no_items no_fields = cc same in
      let f : rest ≡ more = cc same in rw (e, f) (refl, fewer-IsRead (omega arith) r)

  text-IsRead :
      (t : ℕ) (raw : Bytes) (v : Value) (rest : Bytes)
      → Selects text_case t
      → All IsByte raw
      → decode_data g t raw ≡ ok (v, rest)
      → CaseRead text_case t raw v rest
  unfolding data_value encode_case type_of
  text-IsRead t raw v rest s bytes h =
      let (payload, more, read, r) = data-IsRead g l t raw rest v bytes h in
      let (x, checked, same) =
        >>=-eq-ok (check_text g t payload) (λ x. ok (value t none [] x no_items no_fields, more))
          (rw s at read) in
      let (text, fine) = check_text-eq-ok g t payload x checked in
      let e : v ≡ value t none [] payload no_items no_fields = cc (same, text) in
      let f : rest ≡ more = cc same in
      rw (e, f)
        (
          refl,
          same-IsRead (λ b. >>=-ok (λ x. append_data l b x) fine) (fewer-IsRead (omega arith) r),
        )

  wrapper-IsRead :
      (t : ℕ) (raw : Bytes) (v : Value) (rest : Bytes)
      → All IsByte raw
      → decode_case dec g wrapper_case t raw ≡ ok (v, rest)
      → CaseRead wrapper_case t raw v rest
  unfolding decode_case encode_case type_of encode_wrapped
  wrapper-IsRead t raw v rest bytes h =
      let ((w, more), first, same) =
        >>=-eq-ok (dec raw) (λ r. ok (value t none [] [] (item r.0 no_items) no_fields, r.1)) h in
      let e : v ≡ value t none [] [] (item w no_items) no_fields = cc same in
      let f : rest ≡ more = cc same in
      subst₂ (CaseRead wrapper_case t raw) (sym e) (sym f)
        (refl, fewer-IsRead (omega arith) (each raw w more bytes first))

  case-IsRead :
      (c : Case) (t : ℕ) (raw : Bytes) (v : Value) (rest : Bytes)
      → Selects c t
      → All IsByte raw
      → decode_case dec g c t raw ≡ ok (v, rest)
      → CaseRead c t raw v rest
  unfolding decode_case encode_case type_of
  case-IsRead integer_case t raw v rest s bytes h = integer-IsRead t raw v rest s bytes h
  case-IsRead buffer_case t raw v rest s bytes h = buffer-IsRead t raw v rest s bytes h
  case-IsRead text_case t raw v rest s bytes h = text-IsRead t raw v rest s bytes h
  case-IsRead constant_case t raw v rest s bytes h =
      let e : v ≡ value t none [] [] no_items no_fields = cc h in
      let f : rest ≡ raw = cc h in rw (e, f) (refl, nothing-IsRead (λ b. refl))
  case-IsRead principal_case t raw v rest s bytes h =
      let (x, e, r) = encode_principal-decode_principal g t v raw rest l.max_bytes sha bytes s h in
      rw e (refl, fewer-IsRead (omega arith) r)
  case-IsRead wrapper_case t raw v rest s bytes h = wrapper-IsRead t raw v rest bytes h
  case-IsRead list_case t raw v rest s bytes h =
      let (vs, e, r) = list-IsRead enc dec l each t raw v rest bytes h in rw e (refl, r)
  case-IsRead tuple_case t raw v rest s bytes h =
      let (fs, e, r) = tuple-IsRead enc dec l each t raw v rest bytes h in rw e (refl, r)
  case-IsRead no_case t raw v rest s bytes h = cc

take_byte-IsRead :
    (raw : Bytes) (t : ℕ) (rest : Bytes) (most : ℕ)
    → take_byte raw ≡ ok (t, rest)
    → IsRead (λ b. ok (b ++ (t ∷ []))) raw rest 1 most
unfolding take_byte
take_byte-IsRead [] t rest most h = cc
take_byte-IsRead (b ∷ raw) t rest most h = record {
  wire = t ∷ [];
  split = cc h;
  size = omega arith;
  write = λ b room. refl;
}

-- The limits of one level hold where there is room for what it writes.
level-IsRead :
    (left : ℕ) (g : Builtins) (l : Limits) (v : Value) (raw rest : Bytes)
    → IsRead
        (λ b.
          encode_case (encode_value left g l) g l (b ++ (type_of v ∷ [])) (case_of (type_of v)) v)
        raw
        rest
        1
        l.max_bytes
    → IsRead (λ b. encode_value (suc left) g l b v) raw rest 1 l.max_bytes
unfolding encode_value check_size
level-IsRead left g l v raw rest r = record {
  wire = r.wire;
  split = r.split;
  size = r.size;
  write = λ b room.
      let more : leb l.max_bytes (length b) ≡ false = ground (arith, r.size, room) in
      let fits : ltb l.max_bytes (length (b ++ r.wire)) ≡ false =
        ground (arith, room, length-append b r.wire) in
      rw more (>>=-ok (check_size l) (r.write b room) ∙ rw fits refl);
}

-- One value, and what follows it.
pub value-IsRead :
    (left : ℕ) (g : Builtins) (l : Limits)
    → IsSha256 g.sha256
    → (raw : Bytes) (v : Value) (rest : Bytes) → All IsByte raw
    → decode_value left g raw ≡ ok (v, rest)
    → IsRead (λ b. encode_value left g l b v) raw rest 1 l.max_bytes
unfolding decode_value
value-IsRead zero g l sha raw v rest bytes h = cc
value-IsRead (suc left) g l sha raw v rest bytes h =
    let ((t, after), tagged, cased) =
      >>=-eq-ok (take_byte raw)
        (λ tag. decode_case (decode_value left g) g (case_of tag.0) tag.0 tag.1) h in
    let tag = take_byte-IsRead raw t after l.max_bytes tagged in
    let (same, r) =
      case-IsRead (encode_value left g l) (decode_value left g) g l (value-IsRead left g l sha) sha
        (case_of t) t after v rest (case_of-Selects t) (rest_bytes tag bytes) cased in
    level-IsRead left g l v raw rest (
      subst
        (λ t.
          IsRead (λ b. encode_case (encode_value left g l) g l (b ++ (t ∷ [])) (case_of t) v) raw
            rest 1 l.max_bytes)
        (sym same)
        (fewer-IsRead (omega arith) (
          then-IsRead (λ b. ok (b ++ (t ∷ [])))
            (λ b. encode_case (encode_value left g l) g l b (case_of t) v) tag r)))

check_rest-eq-ok :
    (w : Value) (rest : Bytes) (v : Value) → check_rest (w, rest) ≡ ok v → (v ≡ w) × (rest ≡ [])
unfolding check_rest
check_rest-eq-ok w [] v h = (cc h, refl)
check_rest-eq-ok w (b ∷ rest) v h = cc

-- Bytes that the decoder accepts under limits are, byte for byte, what the encoder writes under
-- the same limits for the value that was decoded, for a SHA-256 that answers 32 bytes.
pub encode_with_limits-decode_with_limits :
    (g : Builtins) (raw : Bytes) (l : Limits) (v : Value)
    → IsSha256 g.sha256
    → All IsByte raw
    → decode_with_limits g raw l ≡ ok v
    → encode_with_limits g v l ≡ ok raw
unfolding decode_with_limits encode_with_limits
encode_with_limits-decode_with_limits g raw l v sha bytes h =
    let (range, run) =
      guard-eq-ok
        (ltb l.max_bytes 1
          || ltb l.max_depth 1
          || ltb 256 l.max_depth
          || ltb l.max_bytes (length raw))
        _ _ h in
    let ((w, rest), read, checked) = >>=-eq-ok (decode_value l.max_depth g raw) check_rest run in
    let (same, none_left) = check_rest-eq-ok w rest v checked in
    let r = value-IsRead l.max_depth g l sha raw w rest bytes read in
    let whole : raw ≡ r.wire = r.split ∙ ap (λ x. r.wire ++ x) none_left ∙ append-nil r.wire in
    let limits : (ltb l.max_bytes 1 || ltb l.max_depth 1 || ltb 256 l.max_depth) ≡ false =
      ground (arith, range) in
    let room : 0 + length r.wire ≤ l.max_bytes =
      subst (λ x. 0 + length x ≤ l.max_bytes) whole (ground (arith, range)) in
    rw (limits, same) (r.write [] room ∙ ap ok (sym whole))
