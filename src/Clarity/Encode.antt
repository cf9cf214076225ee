-- ===== src/Clarity/Encode.antt =====
-- libs/stacks/clarity/value.go: EncodeWithLimits and encode. The recursion is on `left`, the number
-- of levels that `depth` has left: MaxDepth + 1 - depth. At 0 the code's test `depth > l.MaxDepth`
-- holds, so no run ends for want of levels otherwise than the code does.
use stacks_k8s.Common.{
  ℕ, zero, suc, ◌+◌, ◌-◌, ◌/◌, ◌%◌, ◌^◌, Bool, true, not, ◌&&◌, ◌||◌, Option, none, some, List, [],
  ◌∷◌, ◌++◌, ltb, leb, ◌==◌, nat_eq, if◌then◌else◌, length, any, Result, ok, err, ◌>>=◌,
}
use stacks_k8s.Common.Int.{ℤ, pos, negsuc, pos_part, neg_part}
use stacks_k8s.Encoding.Hex.{Bytes}
use stacks_k8s.Encoding.BigEndian.{fill_bytes}
use stacks_k8s.Identity.{decode_address}
use stacks_k8s.Clarity.{
  Value, value, Items, no_items, item, Fields, no_fields, field, uint_type, ascii_type,
  standard_principal, contract_principal, Case, integer_case, buffer_case, text_case, constant_case,
  principal_case, wrapper_case, list_case, tuple_case, no_case, case_of, Limits, default_limits,
  Builtins, valid_name, valid_contract_name, ltb_bytes,
}

-- appendData.
unfoldable pub append_data : Limits → Bytes → Bytes → Result Bytes
append_data l b payload =
    if leb 4_294_967_296 (length payload) || ltb l.max_bytes (length b + 4 + length payload)
    then err "exceeded Clarity byte limit"
    else ok (b ++ fill_bytes 4 (length payload) ++ payload)

-- The 128 bits of an Int in range.
unfoldable pub twos_complement : ℤ → ℕ
twos_complement (pos n) = n
twos_complement (negsuc n) = 2 ^ 128 - (n + 1)

unfoldable pub encode_integer : ℕ → Bytes → Option ℤ → Result Bytes
unfolding twos_complement
encode_integer t b none = err "missing Clarity integer"
encode_integer t b (some n) =
    if t == uint_type
    then (if ltb 0 (neg_part n) || leb (2 ^ 128) (pos_part n)
        then err "uint128 out of range"
        else ok (b ++ fill_bytes 16 (pos_part n)))
    else if ltb (2 ^ 127) (neg_part n) || leb (2 ^ 127) (pos_part n)
    then err "int128 out of range"
    else ok (b ++ fill_bytes 16 (twos_complement n))

-- Text of an ASCII or a UTF8 value.
unfoldable pub check_text : Builtins → ℕ → Bytes → Result Bytes
check_text g t text =
    if not (g.valid_utf8 text)
    then err "invalid UTF-8"
    else if t == ascii_type && any (λ c. ltb 127 c) text
    then err "invalid ASCII"
    else ok text

-- `strings.Split(s, ".")`.
unfoldable pub split_dots : Bytes → List Bytes
split_dots [] = [] ∷ []
split_dots (c ∷ s) =
    if c == 46
    then [] ∷ split_dots s
    else elim (split_dots s) [ [] ↦ [] | part ∷ parts ↦ (c ∷ part) ∷ parts ]

unfoldable pub encode_contract : Bytes → Bytes → Result Bytes
encode_contract b name =
    if not (valid_contract_name name)
    then err "invalid contract name"
    else ok (b ++ (length name % 256 ∷ name))

unfoldable pub encode_account : Builtins → Bytes → Bytes → Result Bytes
encode_account g b address = decode_address g.sha256 address >>= λ r. ok (b ++ (r.0 ∷ r.1))

unfoldable pub encode_principal : Builtins → ℕ → Bytes → List Bytes → Result Bytes
unfolding encode_account encode_contract
encode_principal g t b [] = err "invalid principal"
encode_principal g t b (address ∷ []) =
    if t == contract_principal then err "invalid principal" else encode_account g b address
encode_principal g t b (address ∷ name ∷ []) =
    if t == standard_principal
    then err "invalid principal"
    else encode_account g b address >>= λ b. encode_contract b name
encode_principal g t b (address ∷ name ∷ more ∷ parts) = err "invalid principal"

unfoldable pub count_items : Items → ℕ
count_items no_items = 0
count_items (item v vs) = suc (count_items vs)

unfoldable pub count_fields : Fields → ℕ
count_fields no_fields = 0
count_fields (field k v fs) = suc (count_fields fs)

unfoldable pub valid_names : Fields → Bool
valid_names no_fields = true
valid_names (field k v fs) = valid_name k && valid_names fs

-- `sort.Strings` of the names, with the value of each.
unfoldable pub insert_field : Bytes → Value → Fields → Fields
insert_field k v no_fields = field k v no_fields
insert_field k v (field n w fs) =
    let rest = insert_field k v fs in
    if ltb_bytes k n then field k v (field n w fs) else field n w rest

unfoldable pub sort_fields : Fields → Fields
unfolding insert_field
sort_fields no_fields = no_fields
sort_fields (field k v fs) = insert_field k v (sort_fields fs)

-- The loops; `enc` is `encode` one level down.
unfoldable pub encode_items : (Bytes → Value → Result Bytes) → Bytes → Items → Result Bytes
encode_items enc b no_items = ok b
encode_items enc b (item v vs) = enc b v >>= λ b. encode_items enc b vs

unfoldable pub encode_fields : (Bytes → Value → Result Bytes) → Bytes → Fields → Result Bytes
encode_fields enc b no_fields = ok b
encode_fields enc b (field k v fs) =
    enc (b ++ (length k % 256 ∷ k)) v >>= λ b. encode_fields enc b fs

unfoldable pub encode_wrapped : (Bytes → Value → Result Bytes) → Bytes → Items → Result Bytes
encode_wrapped enc b no_items = err "expected one wrapped value"
encode_wrapped enc b (item v no_items) = enc b v
encode_wrapped enc b (item v (item w vs)) = err "expected one wrapped value"

unfoldable pub encode_list : (Bytes → Value → Result Bytes) → Limits → Bytes → Items → Result Bytes
unfolding count_items encode_items
encode_list enc l b vs =
    if leb 4_294_967_296 (count_items vs) || ltb l.max_bytes (count_items vs)
    then err "list too large"
    else encode_items enc (b ++ fill_bytes 4 (count_items vs)) vs

unfoldable pub encode_tuple :
    (Bytes → Value → Result Bytes) → Limits → Bytes → Fields → Result Bytes
unfolding count_fields valid_names sort_fields encode_fields
encode_tuple enc l b fs =
    if leb 4_294_967_296 (count_fields fs) || ltb (l.max_bytes / 3) (count_fields fs)
    then err "tuple too large"
    else if not (valid_names fs)
    then err "invalid tuple key"
    else encode_fields enc (b ++ fill_bytes 4 (count_fields fs)) (sort_fields fs)

-- The switch, after the tag.
unfoldable pub encode_case :
    (Bytes → Value → Result Bytes) → Builtins → Limits → Bytes → Case → Value → Result Bytes
unfolding encode_integer append_data check_text split_dots encode_principal encode_wrapped
    encode_list encode_tuple
encode_case enc g l b integer_case (value t i bs x vs fs) = encode_integer t b i
encode_case enc g l b buffer_case (value t i bs x vs fs) = append_data l b bs
encode_case enc g l b text_case (value t i bs x vs fs) = check_text g t x >>= λ x. append_data l b x
encode_case enc g l b constant_case (value t i bs x vs fs) = ok b
encode_case enc g l b principal_case (value t i bs x vs fs) = encode_principal g t b (split_dots x)
encode_case enc g l b wrapper_case (value t i bs x vs fs) = encode_wrapped enc b vs
encode_case enc g l b list_case (value t i bs x vs fs) = encode_list enc l b vs
encode_case enc g l b tuple_case (value t i bs x vs fs) = encode_tuple enc l b fs
encode_case enc g l b no_case (value t i bs x vs fs) = err "unsupported Clarity type"

unfoldable pub type_of : Value → ℕ
type_of (value t i bs x vs fs) = t

-- What follows the switch.
unfoldable pub check_size : Limits → Bytes → Result Bytes
check_size l b = if ltb l.max_bytes (length b) then err "exceeded Clarity byte limit" else ok b

unfoldable pub encode_value : ℕ → Builtins → Limits → Bytes → Value → Result Bytes
unfolding encode_case type_of check_size case_of
encode_value zero g l b v = err "exceeded Clarity resource limit"
encode_value (suc left) g l b v =
    if leb l.max_bytes (length b)
    then err "exceeded Clarity resource limit"
    else encode_case (encode_value left g l) g l (b ++ (type_of v ∷ [])) (case_of (type_of v)) v
      >>= λ b. check_size l b

unfoldable pub encode_with_limits : Builtins → Value → Limits → Result Bytes
unfolding encode_value
encode_with_limits g v l =
    if ltb l.max_bytes 1 || ltb l.max_depth 1 || ltb 256 l.max_depth
    then err "invalid codec limits"
    else encode_value l.max_depth g l [] v

unfoldable pub encode : Builtins → Value → Result Bytes
unfolding encode_with_limits
encode g v = encode_with_limits g v default_limits
