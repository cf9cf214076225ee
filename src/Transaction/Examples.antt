-- ===== src/Transaction/Examples.antt =====
-- A contract call signed with digests and signatures of zeros.
use stacks_k8s.Common.{
  ◌≡◌, refl, Bool, true, false, ◌||◌, [], ◌∷◌, ◌++◌, ◌==◌, nat_eq, arith, replicate, length, take,
  drop, ok,
}
use stacks_k8s.Encoding.Hex.{Bytes, decode_string, from_hex_char}
use stacks_k8s.Encoding.BigEndian.{set_bytes, fill_bytes}
use stacks_k8s.Identity.{char_at, index_byte, encode_address, decode_address}
use stacks_k8s.Identity.Examples.{sample_address}
use stacks_k8s.Clarity.{uint, valid_name, valid_contract_name}
use stacks_k8s.Clarity.Encode.{encode}
use stacks_k8s.Clarity.Examples.{toy_builtins}
use stacks_k8s.Transaction.{
  Crypto, Options, Transaction, mainnet, testnet, allow, deny, valid, parse, sign_digest,
  initial_body, sign_body, id_of, sign, call,
}
use stacks_k8s.Transaction.Body.{IsRipemd160, digest_of}
use stacks_k8s.Transaction.Signing.{take-sign, set_bytes-sign, valid-sign}
use stacks_k8s.Transaction.Calls.{read_call, normal_args, read_call-call}

abbrev toy_crypto : Crypto
toy_crypto = record {
  builtins = toy_builtins;
  sha512_256 = λ b. replicate 32 (length b);
  ripemd160 = λ b. replicate 20 7;
  invalid_scalar = λ raw. false;
  serialize_uncompressed = λ key. 4 ∷ key;
  serialize_compressed = λ key. 2 ∷ key;
  sign_compact = λ key digest. 31 ∷ key ++ digest;
}

-- A key of 32 bytes of 0x11, and the compression marker.
abbrev sample_options : Options
sample_options = record {
  version = 128;
  chain_id = 2_147_483_648;
  nonce = 300;
  fee = 5;
  post_condition_mode = 2;
  private_key = replicate 64 49 ++ (48 ∷ 49 ∷ []);
}

abbrev sample_payload : Bytes
sample_payload = 6 ∷ 1 ∷ 1 ∷ 97 ∷ 0 ∷ 0 ∷ 0 ∷ 1 ∷ 40 ∷ []

abbrev sample_bytes : Bytes
sample_bytes = sign_body toy_crypto sample_options (replicate 32 17) true sample_payload

abbrev sample_tx : Transaction
sample_tx = record { bytes = sample_bytes; tx_id = id_of toy_crypto sample_bytes }

sign-sample_payload : sign toy_crypto sample_options sample_payload ≡ ok sample_tx
unfolding sign initial_body decode_string from_hex_char fill_bytes
sign-sample_payload = refl

toy_ripemd160 : IsRipemd160 toy_crypto.ripemd160
toy_ripemd160 b = refl

take-sign_example :
    (key : Bytes) × (compressed : Bool) × (parse toy_crypto sample_options.private_key
      ≡ ok (key, compressed))
    × (take 65 (drop 44 sample_bytes)
        ≡ sign_digest toy_crypto key (digest_of toy_crypto sample_bytes))
take-sign_example =
    take-sign toy_crypto sample_options sample_payload sample_tx toy_ripemd160 sign-sample_payload

set_bytes-sign_example :
    (set_bytes (take 8 (drop 27 sample_bytes)) ≡ 300)
    × (set_bytes (take 8 (drop 35 sample_bytes)) ≡ 5)
    × (drop 115 sample_bytes ≡ sample_payload)
set_bytes-sign_example =
    set_bytes-sign toy_crypto sample_options sample_payload sample_tx toy_ripemd160 (omega arith)
      (omega arith) sign-sample_payload

valid-sign_example :
    (valid toy_crypto sample_tx ≡ true)
    × ((128 == mainnet || 128 == testnet) ≡ true)
    × ((2 == allow || 2 == deny) ≡ true)
valid-sign_example =
    valid-sign toy_crypto sample_options sample_payload sample_tx toy_ripemd160 sign-sample_payload

-- "mint" of contract "p" with 7.
abbrev call_payload_bytes : Bytes
call_payload_bytes =
    2 ∷ 26 ∷ replicate 20 0
    ++ (1 ∷ 112 ∷ 4 ∷ 109 ∷ 105 ∷ 110 ∷ 116 ∷ 0 ∷ 0 ∷ 0 ∷ 1 ∷ 1 ∷ replicate 15 0 ++ (7 ∷ []))

abbrev call_bytes : Bytes
call_bytes = sign_body toy_crypto sample_options (replicate 32 17) true call_payload_bytes

abbrev call_tx : Transaction
call_tx = record { bytes = call_bytes; tx_id = id_of toy_crypto call_bytes }

call-mint :
    call toy_crypto sample_options sample_address
      (112 ∷ [])
      (109 ∷ 105 ∷ 110 ∷ 116 ∷ [])
      (uint 7 ∷ [])
    ≡ ok call_tx
unfolding call encode initial_body fill_bytes decode_address encode_address index_byte char_at
    set_bytes valid_name valid_contract_name decode_string from_hex_char
call-mint = refl

read_call-call_example :
    read_call toy_builtins (drop 115 call_bytes)
    ≡ ok (
      record {
        address = sample_address;
        contract = 112 ∷ [];
        function = 109 ∷ 105 ∷ 110 ∷ 116 ∷ [];
        args = normal_args (uint 7 ∷ []);
      },
      [],
    )
read_call-call_example =
    read_call-call toy_crypto sample_options sample_address (112 ∷ []) (109 ∷ 105 ∷ 110 ∷ 116 ∷ [])
      (uint 7 ∷ []) call_tx toy_ripemd160 (omega arith) (omega arith) ((tt, tt), tt) call-mint
