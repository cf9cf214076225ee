-- ===== src/Transaction/Calls.antt =====
-- A contract call is read back from the bytes of its transaction.
use mathlib.Core.List.{append-nil}
use stacks_k8s.Common.{
  ℕ, suc, ◌+◌, ◌≡◌, ◌<◌, ◌^◌, refl, sym, ap, ◌∙◌, not, ◌||◌, List, [], ◌∷◌, ◌++◌, arith, ltb, ◌/=◌,
  nat_eq, if◌then◌else◌, length, drop, All, Result, ok, err, ◌>>=◌, >>=-eq-ok, >>=-ok, guard-eq-ok,
}
use stacks_k8s.Encoding.Hex.{Bytes}
use stacks_k8s.Encoding.BigEndian.{fill_bytes}
use stacks_k8s.Identity.{decode_address, encode_address}
use stacks_k8s.Identity.Address.{encode_address-decode_address}
use stacks_k8s.Clarity.{
  Value, Items, no_items, item, default_limits, Builtins, valid_name, valid_contract_name,
}
use stacks_k8s.Clarity.Encode.{encode, encode_with_limits}
use stacks_k8s.Clarity.Decode.{take_bytes, name, count, decode_items, decode_value}
use stacks_k8s.Clarity.Parts.{take_bytes-append}
use stacks_k8s.Clarity.Dots.{valid_name-valid_contract_name}
use stacks_k8s.Clarity.Normal.{normal, IsMap}
use stacks_k8s.Clarity.Wire.{IsWritten, then-IsWritten, map-IsWritten, fewer-IsWritten}
use stacks_k8s.Clarity.Written.{count-IsWritten, name-IsWritten}
use stacks_k8s.Clarity.RoundTrip.{value-IsWritten}
use stacks_k8s.Transaction.{
  Crypto, Options, Transaction, append_name, append_args, call_payload, call, sign,
}
use stacks_k8s.Transaction.Body.{IsRipemd160}
use stacks_k8s.Transaction.Signing.{set_bytes-sign}

-- What a contract call says.
pub record CallData : Type 0 where
  pub address : Bytes
  pub contract : Bytes
  pub function : Bytes
  pub args : Items

check_account : Builtins → Bytes × Bytes → Result (Bytes × Bytes)
check_account g ([], raw) = err "no contract call"
check_account g (kind ∷ [], raw) = err "no contract call"
check_account g (kind ∷ version ∷ hash, raw) =
    if kind /= 2
    then err "no contract call"
    else encode_address g.sha256 version hash >>= λ a. ok (a, raw)

read_account : Builtins → Bytes → Result (Bytes × Bytes)
read_account g raw = take_bytes 22 raw >>= check_account g

read_args : Builtins → Bytes → Result (Items × Bytes)
read_args g raw = count raw >>= λ n. decode_items (decode_value 32 g) n.0 n.1

-- The reader of a payload: account, two names, and the arguments behind their count.
pub read_call : Builtins → Bytes → Result (CallData × Bytes)
read_call g raw = read_account g raw >>= λ a. name a.1 >>= λ k. name k.1 >>= λ f.
    read_args g f.1 >>= λ s.
    ok (record { address = a.0; contract = k.0; function = f.0; args = s.0 }, s.1)

pub normal_args : List Value → Items
normal_args [] = no_items
normal_args (v ∷ vs) = item (normal v) (normal_args vs)

arg-IsWritten :
    (g : Builtins) (b : Bytes) (v : Value) (raw : Bytes)
    → IsMap v
    → encode g v ≡ ok raw
    → IsWritten (decode_value 32 g) b (b ++ raw) 1 (normal v)
unfolding encode encode_with_limits
arg-IsWritten g b v raw m h =
    let (w, _) = value-IsWritten 32 g default_limits [] v raw m h in
    record { wire = w.wire; split = ap (λ x. b ++ x) w.split; size = w.size; back = w.back }

args-IsWritten :
    (g : Builtins) (b : Bytes) (args : List Value) (out : Bytes)
    → All IsMap args
    → append_args g b args ≡ ok out
    → IsWritten
        (decode_items (decode_value 32 g) (length args))
        b
        out
        (length args)
        (normal_args args)
unfolding append_args decode_items normal_args
args-IsWritten g b [] out m h = record {
  wire = [];
  split = cc (h, append-nil b);
  size = omega arith;
  back = λ rest. refl;
}
args-IsWritten g b (v ∷ vs) out (mv, m) h =
    let (raw, encoded, checked) =
      >>=-eq-ok (encode g v)
        (λ raw.
          if ltb 1_048_576 (length b + length raw)
          then err "transaction too large"
          else append_args g (b ++ raw) vs)
        h in
    let (_, loop) = guard-eq-ok (ltb 1_048_576 (length b + length raw)) _ _ checked in
    fewer-IsWritten (omega arith) (
      then-IsWritten
        (λ v raw. decode_items (decode_value 32 g) (length vs) raw >>= λ s. ok (item v s.0, s.1))
        (arg-IsWritten g b v raw mv encoded)
        (map-IsWritten (item (normal v)) (args-IsWritten g (b ++ raw) vs out m loop)))

account-IsWritten :
    (g : Builtins) (version : ℕ) (hash address : Bytes)
    → length hash ≡ 20
    → encode_address g.sha256 version hash ≡ ok address
    → IsWritten (read_account g) [] (2 ∷ version ∷ hash) 22 address
unfolding read_account check_account
account-IsWritten g version hash address n e = record {
  wire = 2 ∷ version ∷ hash;
  split = refl;
  size = omega (arith, n);
  back = λ rest.
      >>=-ok (check_account g)
        (take_bytes-append 22 (2 ∷ version ∷ hash) rest (ap (λ k. suc (suc k)) n))
      ∙ >>=-ok (λ a. ok (a, rest)) e;
}

call-IsWritten :
    (g : Builtins) (address contract function : Bytes) (args : List Value) (payload : Bytes)
    → All IsMap args
    → call_payload g address contract function args ≡ ok payload
    → IsWritten (read_call g) [] payload 0 (record {
      address = address;
      contract = contract;
      function = function;
      args = normal_args args;
    })
unfolding call_payload read_call read_args append_name
call-IsWritten g address contract function args payload m h =
    let ((version, hash), decoded, guarded) =
      >>=-eq-ok (decode_address g.sha256 address)
        (λ r.
          if not (valid_contract_name contract)
            || not (valid_name function)
            || ltb 1024 (length args)
          then err "invalid contract call"
          else append_args g
              (append_name (append_name (2 ∷ r.0 ∷ r.1) contract) function
                ++ fill_bytes 4 (length args))
              args)
        h in
    let (good, loop) =
      guard-eq-ok
        (not (valid_contract_name contract) || not (valid_name function) || ltb 1024 (length args))
        _ _ guarded in
    let (e, d) = encode_address-decode_address g.sha256 address (version, hash) decoded in
    let contract_fine = valid_name-valid_contract_name contract (ground (arith, good)) in
    let head = 2 ∷ version ∷ hash in
    let two = append_name head contract in
    let three = append_name two function in
    fewer-IsWritten (omega arith) (
      then-IsWritten
        (λ a raw. name raw >>= λ k. name k.1 >>= λ f. read_args g f.1 >>= λ s.
          ok (record { address = a; contract = k.0; function = f.0; args = s.0 }, s.1))
        (account-IsWritten g version hash address d.hash_length e)
        (then-IsWritten
          (λ k raw. name raw >>= λ f. read_args g f.1 >>= λ s.
            ok (record { address = address; contract = k; function = f.0; args = s.0 }, s.1))
          (name-IsWritten head contract contract_fine)
          (then-IsWritten
            (λ f raw. read_args g raw >>= λ s.
              ok (record { address = address; contract = contract; function = f; args = s.0 }, s.1))
            (name-IsWritten two function (ground (arith, good)))
            (map-IsWritten
              (λ s. record {
                address = address;
                contract = contract;
                function = function;
                args = s;
              })
              (count-IsWritten (λ n raw. decode_items (decode_value 32 g) n raw) three payload
                (length args) (normal_args args) (ground (arith, good))
                (args-IsWritten g (three ++ fill_bytes 4 (length args)) args payload m loop))))))

-- A contract call that the package signs is read back from the transaction's bytes after its first
-- 115: the account, the contract, the function and the arguments' selected parts, with nothing left
-- over. Nonce and fee are 64-bit numbers, and the arguments' lists of entries stand for maps.
pub read_call-call :
    (c : Crypto) (o : Options) (address contract function : Bytes) (args : List Value)
    (tx : Transaction)
    → IsRipemd160 c.ripemd160
    → o.nonce < 2 ^ 64
    → o.fee < 2 ^ 64
    → All IsMap args
    → call c o address contract function args ≡ ok tx
    → read_call c.builtins (drop 115 tx.bytes)
      ≡ ok (
        record {
          address = address;
          contract = contract;
          function = function;
          args = normal_args args;
        },
        [],
      )
unfolding call
read_call-call c o address contract function args tx r n f m h =
    let (payload, made, signed_it) =
      >>=-eq-ok (call_payload c.builtins address contract function args) (sign c o) h in
    let (_, _, tail) = set_bytes-sign c o payload tx r n f signed_it in
    let w = call-IsWritten c.builtins address contract function args payload m made in
    ap (read_call c.builtins) (tail ∙ w.split ∙ sym (append-nil w.wire)) ∙ w.back []
