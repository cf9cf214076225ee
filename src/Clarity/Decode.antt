-- ===== src/Clarity/Decode.antt =====
-- libs/stacks/clarity/decode.go: the decoder. Its unread slice is passed on with each result, and
-- `left` is as in the encoder.
use stacks_k8s.Common.{
  ℕ, zero, suc, ◌/◌, ◌%◌, ◌^◌, not, ◌&&◌, ◌||◌, none, some, [], ◌∷◌, ◌++◌, ltb, ◌==◌, nat_eq,
  if◌then◌else◌, length, take, drop, Result, ok, err, ◌>>=◌,
}
use stacks_k8s.Common.Int.{ℤ, pos, ◌-ℤ◌}
use stacks_k8s.Encoding.Hex.{Bytes}
use stacks_k8s.Encoding.BigEndian.{set_bytes}
use stacks_k8s.Identity.{encode_address}
use stacks_k8s.Clarity.{
  Value, value, Items, no_items, item, Fields, no_fields, field, int_type, buffer_type,
  contract_principal, Case, integer_case, buffer_case, text_case, constant_case, principal_case,
  wrapper_case, list_case, tuple_case, no_case, case_of, Limits, default_limits, Builtins,
  valid_name, valid_contract_name, ltb_bytes,
}
use stacks_k8s.Clarity.Encode.{check_text}

-- take.
unfoldable pub take_bytes : ℕ → Bytes → Result (Bytes × Bytes)
take_bytes n raw =
    if ltb (length raw) n then err "truncated Clarity value" else ok (take n raw, drop n raw)

-- The first byte of `take(1)`.
unfoldable pub take_byte : Bytes → Result (ℕ × Bytes)
take_byte [] = err "truncated Clarity value"
take_byte (b ∷ raw) = ok (b, raw)

unfoldable pub check_count : Bytes × Bytes → Result (ℕ × Bytes)
check_count (b, raw) =
    if ltb (length raw) (set_bytes b) then err "invalid Clarity count" else ok (set_bytes b, raw)

unfoldable pub count : Bytes → Result (ℕ × Bytes)
unfolding take_bytes check_count
count raw = take_bytes 4 raw >>= check_count

unfoldable pub check_name : Bytes × Bytes → Result (Bytes × Bytes)
check_name (b, raw) = if not (valid_name b) then err "invalid Clarity name" else ok (b, raw)

unfoldable pub name : Bytes → Result (Bytes × Bytes)
unfolding take_byte take_bytes check_name
name raw = take_byte raw >>= λ r. take_bytes r.0 r.1 >>= check_name

-- The integer of 16 bytes: bit 7 of the first is the sign of an Int.
unfoldable pub decode_integer : ℕ → Bytes → ℤ
unfolding set_bytes
decode_integer t [] = pos 0
decode_integer t (b ∷ bs) =
    if t == int_type && b / 128 % 2 == 1
    then pos (set_bytes (b ∷ bs)) -ℤ pos (2 ^ 128)
    else pos (set_bytes (b ∷ bs))

unfoldable pub integer_value : ℕ → Bytes × Bytes → Result (Value × Bytes)
unfolding decode_integer
integer_value t (b, raw) = ok (value t (some (decode_integer t b)) [] [] no_items no_fields, raw)

unfoldable pub data_value : Builtins → ℕ → Bytes × Bytes → Result (Value × Bytes)
unfolding check_text
data_value g t (b, raw) =
    if t == buffer_type
    then ok (value t none b [] no_items no_fields, raw)
    else check_text g t b >>= λ x. ok (value t none [] x no_items no_fields, raw)

-- Buffer, ASCII and UTF8.
unfoldable pub decode_data : Builtins → ℕ → Bytes → Result (Value × Bytes)
unfolding count take_bytes data_value
decode_data g t raw = count raw >>= λ r. take_bytes r.0 r.1 >>= data_value g t

unfoldable pub contract_value : ℕ → Bytes → Bytes × Bytes → Result (Value × Bytes)
contract_value t address (n, raw) =
    if not (valid_contract_name n)
    then err "invalid contract name"
    else ok (value t none [] (address ++ (46 ∷ n)) no_items no_fields, raw)

unfoldable pub principal_value : ℕ → Bytes → Bytes → Result (Value × Bytes)
unfolding name contract_value
principal_value t raw address =
    if t == contract_principal
    then name raw >>= contract_value t address
    else ok (value t none [] address no_items no_fields, raw)

-- Of the 21 bytes the version comes first.
unfoldable pub account_value : Builtins → ℕ → Bytes × Bytes → Result (Value × Bytes)
unfolding principal_value
account_value g t ([], raw) = err "truncated Clarity value"
account_value g t (version ∷ hash, raw) =
    encode_address g.sha256 version hash >>= principal_value t raw

unfoldable pub decode_principal : Builtins → ℕ → Bytes → Result (Value × Bytes)
unfolding take_bytes account_value
decode_principal g t raw = take_bytes 21 raw >>= account_value g t

-- The loops; `dec` is `value` one level down.
unfoldable pub decode_items : (Bytes → Result (Value × Bytes)) → ℕ → Bytes → Result (Items × Bytes)
decode_items dec zero raw = ok (no_items, raw)
decode_items dec (suc n) raw =
    dec raw >>= λ r. decode_items dec n r.1 >>= λ s. ok (item r.0 s.0, s.1)

-- Each name comes after the one before: the map has none of them yet.
unfoldable pub decode_fields :
    (Bytes → Result (Value × Bytes)) → ℕ → Bytes → Bytes → Result (Fields × Bytes)
unfolding name
decode_fields dec zero previous raw = ok (no_fields, raw)
decode_fields dec (suc n) previous raw = name raw >>= λ k.
    if not (ltb_bytes previous k.0)
    then err "noncanonical tuple keys"
    else dec k.1 >>= λ r. decode_fields dec n k.0 r.1 >>= λ s. ok (field k.0 r.0 s.0, s.1)

unfoldable pub decode_list : (Bytes → Result (Value × Bytes)) → ℕ → Bytes → Result (Value × Bytes)
unfolding count decode_items
decode_list dec t raw =
    count raw >>= λ n. decode_items dec n.0 n.1 >>= λ s. ok (value t none [] [] s.0 no_fields, s.1)

unfoldable pub tuple_count : Result (ℕ × Bytes) → Result (ℕ × Bytes)
tuple_count (err message) = err "invalid tuple count"
tuple_count (ok (n, raw)) =
    if ltb (length raw / 3) n then err "invalid tuple count" else ok (n, raw)

unfoldable pub decode_tuple : (Bytes → Result (Value × Bytes)) → ℕ → Bytes → Result (Value × Bytes)
unfolding count tuple_count decode_fields
decode_tuple dec t raw = tuple_count (count raw) >>= λ n.
    decode_fields dec n.0 [] n.1 >>= λ s. ok (value t none [] [] no_items s.0, s.1)

-- The switch, after the tag.
unfoldable pub decode_case :
    (Bytes → Result (Value × Bytes)) → Builtins → Case → ℕ → Bytes → Result (Value × Bytes)
unfolding take_bytes integer_value decode_data decode_principal decode_list decode_tuple
decode_case dec g integer_case t raw = take_bytes 16 raw >>= integer_value t
decode_case dec g buffer_case t raw = decode_data g t raw
decode_case dec g text_case t raw = decode_data g t raw
decode_case dec g constant_case t raw = ok (value t none [] [] no_items no_fields, raw)
decode_case dec g principal_case t raw = decode_principal g t raw
decode_case dec g wrapper_case t raw =
    dec raw >>= λ r. ok (value t none [] [] (item r.0 no_items) no_fields, r.1)
decode_case dec g list_case t raw = decode_list dec t raw
decode_case dec g tuple_case t raw = decode_tuple dec t raw
decode_case dec g no_case t raw = err "unsupported Clarity type"

unfoldable pub decode_value : ℕ → Builtins → Bytes → Result (Value × Bytes)
unfolding take_byte decode_case case_of
decode_value zero g raw = err "exceeded Clarity depth limit"
decode_value (suc left) g raw =
    take_byte raw >>= λ tag. decode_case (decode_value left g) g (case_of tag.0) tag.0 tag.1

unfoldable pub check_rest : Value × Bytes → Result Value
check_rest (v, []) = ok v
check_rest (v, b ∷ raw) = err "trailing Clarity bytes"

unfoldable pub decode_with_limits : Builtins → Bytes → Limits → Result Value
unfolding decode_value check_rest
decode_with_limits g raw l =
    if ltb l.max_bytes 1 || ltb l.max_depth 1 || ltb 256 l.max_depth || ltb l.max_bytes (length raw)
    then err "exceeded Clarity resource limit"
    else decode_value l.max_depth g raw >>= check_rest

unfoldable pub decode : Builtins → Bytes → Result Value
unfolding decode_with_limits
decode g raw = decode_with_limits g raw default_limits
