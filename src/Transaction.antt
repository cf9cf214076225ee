-- ===== src/Transaction.antt =====
-- libs/stacks/transaction/transaction.go, with the keys of libs/stacks/internal/keys/keys.go: signed
-- transfers, contract calls and publications. Cryptography and UTF-8 are arguments; a private key is
-- its 32 bytes; an unsigned integer of w bits is a number, written in w / 8 bytes.
pub mod Layout
pub mod Body
pub mod Signing
pub mod Calls
pub mod Examples
use stacks_k8s.Common.{
  ℕ, zero, suc, ◌+◌, ◌%◌, ◌^◌, Bool, true, false, not, ◌&&◌, ◌||◌, Option, none, some, List, [],
  ◌∷◌, ◌++◌, ltb, leb, ◌==◌, ◌/=◌, nat_eq, list_eq, if◌then◌else◌, length, any, take, drop,
  replicate, Result, ok, err, ◌>>=◌,
}
use stacks_k8s.Encoding.Hex.{Bytes, encode_to_string, decode_string}
use stacks_k8s.Encoding.BigEndian.{fill_bytes}
use stacks_k8s.Identity.{decode_address}
use stacks_k8s.Clarity.{
  Value, value, no_items, no_fields, standard_principal, contract_principal, Builtins, valid_name,
  valid_contract_name,
}
use stacks_k8s.Clarity.Encode.{encode}

-- What the package calls outside the repository: `invalid_scalar` is
-- `scalar.SetByteSlice(raw) || scalar.IsZero()` of secp256k1, and the rest are its encodings of the
-- public key, its compact signature, and the digests of crypto/sha512 and x/crypto/ripemd160.
pub record Crypto : Type 0 where
  pub builtins : Builtins
  pub sha512_256 : Bytes → Bytes
  pub ripemd160 : Bytes → Bytes
  pub invalid_scalar : Bytes → Bool
  pub serialize_uncompressed : Bytes → Bytes
  pub serialize_compressed : Bytes → Bytes
  pub sign_compact : Bytes → Bytes → Bytes

abbrev pub mainnet : ℕ
mainnet = 0

abbrev pub testnet : ℕ
testnet = 128

abbrev pub allow : ℕ
allow = 1

abbrev pub deny : ℕ
deny = 2

pub record Options : Type 0 where
  pub version : ℕ
  pub chain_id : ℕ
  pub nonce : ℕ
  pub fee : ℕ
  pub post_condition_mode : ℕ
  pub private_key : Bytes

pub record Transaction : Type 0 where
  pub bytes : Bytes
  pub tx_id : Bytes

-- `ID`.
unfoldable pub id_of : Crypto → Bytes → Bytes
id_of c raw = encode_to_string (c.sha512_256 raw)

unfoldable pub valid : Crypto → Transaction → Bool
unfolding id_of
valid c tx =
    ltb 0 (length tx.bytes) && leb (length tx.bytes) 1_048_576 && id_of c tx.bytes == tx.tx_id

-- `copy` into an array of `n` zero bytes.
unfoldable pub copy_into : ℕ → Bytes → Bytes
copy_into n b = take n (b ++ replicate n 0)

-- The bytes of `b` from `offset` on are replaced by those of `patch`, within its length.
unfoldable pub write_at : ℕ → Bytes → Bytes → Bytes
write_at offset patch b = take offset b ++ (patch ++ drop (offset + length patch) b)

-- keys.Parse.
unfoldable pub check_scalar : Crypto → Bool → Option Bytes → Result (Bytes × Bool)
check_scalar c compressed none = err "private key must encode a 32-byte scalar"
check_scalar c compressed (some raw) =
    if length raw /= 32
    then err "private key must encode a 32-byte scalar"
    else if c.invalid_scalar raw
    then err "private scalar out of range"
    else ok (raw, compressed)

unfoldable pub parse : Crypto → Bytes → Result (Bytes × Bool)
unfolding check_scalar
parse c s =
    let compressed = length s == 66 && drop 64 s == 48 ∷ 49 ∷ [] in
    check_scalar c compressed (decode_string (if compressed then take 64 s else s))

-- `out[0] -= 27`, of a byte.
unfoldable pub sub_first : Bytes → Bytes
sub_first [] = []
sub_first (b ∷ bs) = (b + 229) % 256 ∷ bs

-- keys.Sign.
unfoldable pub sign_digest : Crypto → Bytes → Bytes → Bytes
unfolding sub_first copy_into
sign_digest c key digest = sub_first (copy_into 65 (c.sign_compact key digest))

-- The bytes before the signature.
unfoldable pub header : Crypto → Options → Bytes → Bool → Bytes
header c o key compressed =
    let public_key =
      if compressed then c.serialize_compressed key else c.serialize_uncompressed key in
    let encoding = if compressed then 0 else 1 in
    (o.version ∷ fill_bytes 4 o.chain_id ++ (4 ∷ 0 ∷ c.ripemd160 (c.builtins.sha256 public_key)))
    ++ (replicate 16 0 ++ (encoding ∷ []))

-- The initial body, whose nonce, fee and signature are zero.
unfoldable pub initial_body : Crypto → Options → Bytes → Bool → Bytes → Bytes
unfolding header
initial_body c o key compressed payload =
    header c o key compressed
    ++ (replicate 65 0 ++ (3 ∷ o.post_condition_mode ∷ 0 ∷ 0 ∷ 0 ∷ 0 ∷ payload))

unfoldable pub signing_digest : Crypto → Bytes → Bytes → Bytes → Bytes
signing_digest c b fee nonce = c.sha512_256 (c.sha512_256 b ++ (4 ∷ fee ++ nonce))

unfoldable pub sign_body : Crypto → Options → Bytes → Bool → Bytes → Bytes
sign_body c o key compressed payload =
    let b = initial_body c o key compressed payload in
    let digest = signing_digest c b (fill_bytes 8 o.fee) (fill_bytes 8 o.nonce) in
    write_at 35 (fill_bytes 8 o.fee) (
      write_at 27 (fill_bytes 8 o.nonce)
        (write_at (length (header c o key compressed)) (sign_digest c key digest) b))

unfoldable pub signed : Crypto → Options → Bytes → Bytes × Bool → Result Transaction
unfolding initial_body sign_body id_of
signed c o payload (key, compressed) =
    if ltb 1_048_576 (length (initial_body c o key compressed payload))
    then err "transaction too large"
    else ok (record {
      bytes = sign_body c o key compressed payload;
      tx_id = id_of c (sign_body c o key compressed payload);
    })

unfoldable pub sign : Crypto → Options → Bytes → Result Transaction
unfolding signed parse
sign c o payload =
    if o.version /= mainnet && o.version /= testnet
      || o.post_condition_mode /= allow && o.post_condition_mode /= deny
    then err "unsupported transaction options"
    else parse c o.private_key >>= signed c o payload

unfoldable pub append_name : Bytes → Bytes → Bytes
append_name b s = b ++ (length s % 256 ∷ s)

-- `clarity.Principal` and then `clarity.Encode` of what it answers.
unfoldable pub principal : Builtins → Bytes → Result Value
principal g s =
    let t = if any (λ c. c == 46) s then contract_principal else standard_principal in
    let v = value t none [] s no_items no_fields in encode g v >>= λ b. ok v

unfoldable pub transfer : Crypto → Options → Bytes → ℕ → Bytes → Result Transaction
unfolding principal copy_into sign
transfer c o recipient amount memo = principal c.builtins recipient >>= λ p.
    encode c.builtins p >>= λ b.
    if ltb 34 (length memo) || not (c.builtins.valid_utf8 memo)
    then err "invalid transfer memo"
    else sign c o (0 ∷ b ++ (fill_bytes 8 amount ++ copy_into 34 memo))

-- The loop over the arguments.
unfoldable pub append_args : Builtins → Bytes → List Value → Result Bytes
append_args g payload [] = ok payload
append_args g payload (arg ∷ args) = encode g arg >>= λ raw.
    if ltb 1_048_576 (length payload + length raw)
    then err "transaction too large"
    else append_args g (payload ++ raw) args

unfoldable pub call_payload : Builtins → Bytes → Bytes → Bytes → List Value → Result Bytes
unfolding append_name append_args
call_payload g address contract function args = decode_address g.sha256 address >>= λ r.
    if not (valid_contract_name contract) || not (valid_name function) || ltb 1024 (length args)
    then err "invalid contract call"
    else append_args g
        (append_name (append_name (2 ∷ r.0 ∷ r.1) contract) function ++ fill_bytes 4 (length args))
        args

unfoldable pub call : Crypto → Options → Bytes → Bytes → Bytes → List Value → Result Transaction
unfolding call_payload sign
call c o address contract function args =
    call_payload c.builtins address contract function args >>= sign c o

unfoldable pub deploy : Crypto → Options → Bytes → Bytes → ℕ → Result Transaction
unfolding append_name sign
deploy c o name source version =
    if not (valid_contract_name name)
      || ltb version 1
      || ltb 6 version
      || length source == 0
      || ltb 131_072 (length source)
    then err "invalid contract publication"
    else if any (λ c. ltb 127 c) source
    then err "contract source must be ASCII"
    else sign c o (append_name (6 ∷ version ∷ []) name ++ (fill_bytes 4 (length source) ++ source))
