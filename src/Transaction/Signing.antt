-- ===== src/Transaction/Signing.antt =====
-- Whoever reads a signed transaction finds what was signed.
use mathlib.Core.Path.{subst}
use stacks_k8s.Common.{
  ◌≡◌, ◌<◌, ◌≤◌, ◌^◌, sym, ap, ◌∙◌, Bool, true, ◌&&◌, ◌||◌, arith, ltb, leb, ◌==◌, ◌/=◌, nat_eq,
  ==-refl, list_eq, length, take, drop, ok, >>=-eq-ok, guard-eq-ok,
}
use stacks_k8s.Encoding.Hex.{Bytes}
use stacks_k8s.Encoding.BigEndian.{set_bytes, set_bytes-fill_bytes}
use stacks_k8s.Transaction.{
  Crypto, Options, Transaction, mainnet, testnet, allow, deny, id_of, valid, parse, sign_digest,
  initial_body, sign_body, signed, sign,
}
use stacks_k8s.Transaction.Layout.{take-nonce, take-fee, drop-tail, length-layout, drop_six}
use stacks_k8s.Transaction.Body.{
  IsRipemd160, digest_of, tail, written_nonce, written_fee, all_fit, sign_body-layout,
  signature-digest_of, length-sign_body,
}

-- What a transaction is made of, when one is answered.
sign-eq-ok :
    (c : Crypto) (o : Options) (payload : Bytes) (tx : Transaction)
    → sign c o payload ≡ ok tx
    → (key : Bytes) × (compressed : Bool) × (parse c o.private_key ≡ ok (key, compressed))
      × (length (initial_body c o key compressed payload) ≤ 1_048_576)
      × (tx.bytes ≡ sign_body c o key compressed payload)
      × (tx.tx_id ≡ id_of c (sign_body c o key compressed payload))
unfolding sign signed
sign-eq-ok c o payload tx h =
    let (_, run) =
      guard-eq-ok
        (o.version /= mainnet && o.version /= testnet
          || o.post_condition_mode /= allow && o.post_condition_mode /= deny)
        _ _ h in
    let ((key, compressed), parsed, done) =
      >>=-eq-ok (parse c o.private_key) (signed c o payload) run in
    let (small, same) =
      guard-eq-ok (ltb 1_048_576 (length (initial_body c o key compressed payload))) _ _ done in
    (key, compressed, parsed, ground (arith, small), cc same, cc same)

-- The signature in a transaction that sign answers is keys.Sign of the parsed key on the digest
-- that the transaction's own bytes give, with its nonce and fee read from them and the rest of the
-- body taken with nonce, fee and signature set to zero.
pub take-sign :
    (c : Crypto) (o : Options) (payload : Bytes) (tx : Transaction)
    → IsRipemd160 c.ripemd160
    → sign c o payload ≡ ok tx
    → (key : Bytes) × (compressed : Bool) × (parse c o.private_key ≡ ok (key, compressed))
      × (take 65 (drop 44 tx.bytes) ≡ sign_digest c key (digest_of c tx.bytes))
take-sign c o payload tx r h =
    let (key, compressed, parsed, _, e, _) = sign-eq-ok c o payload tx h in
    (
      key,
      compressed,
      parsed,
      subst (λ b. take 65 (drop 44 b) ≡ sign_digest c key (digest_of c b)) (sym e)
          (signature-digest_of c o key compressed payload r),
    )

-- Of a transaction that sign answers, the nonce and the fee are read back at their offsets as
-- 64-bit numbers, and the payload is what stands after the first 115 bytes.
pub set_bytes-sign :
    (c : Crypto) (o : Options) (payload : Bytes) (tx : Transaction)
    → IsRipemd160 c.ripemd160
    → o.nonce < 2 ^ 64
    → o.fee < 2 ^ 64
    → sign c o payload ≡ ok tx
    → (set_bytes (take 8 (drop 27 tx.bytes)) ≡ o.nonce)
      × (set_bytes (take 8 (drop 35 tx.bytes)) ≡ o.fee)
      × (drop 115 tx.bytes ≡ payload)
unfolding written_nonce written_fee tail
set_bytes-sign c o payload tx r n f h =
    let (key, compressed, parsed, _, e, _) = sign-eq-ok c o payload tx h in
    let shape = e ∙ sign_body-layout c o key compressed payload r in
    let at = all_fit c o key compressed payload r in
    (
      ap (λ x. set_bytes (take 8 (drop 27 x))) shape
          ∙ ap set_bytes (take-nonce _ _ _ _ _ _ at)
          ∙ set_bytes-fill_bytes 8 o.nonce n,
      ap (λ x. set_bytes (take 8 (drop 35 x))) shape
          ∙ ap set_bytes (take-fee _ _ _ _ _ _ at)
          ∙ set_bytes-fill_bytes 8 o.fee f,
      drop_six tx.bytes
          ∙ ap (λ x. drop 6 (drop 109 x)) shape
          ∙ ap (drop 6) (drop-tail _ _ _ _ _ _ at),
    )

valid-id_of :
    (c : Crypto) (tx : Transaction)
    → 0 < length tx.bytes
    → length tx.bytes ≤ 1_048_576
    → tx.tx_id ≡ id_of c tx.bytes
    → valid c tx ≡ true
unfolding valid
valid-id_of c tx low high e =
    let nonempty : ltb 0 (length tx.bytes) ≡ true = ground (arith, low) in
    let few : leb (length tx.bytes) 1_048_576 ≡ true = ground (arith, high) in
    let same : (id_of c tx.bytes == tx.tx_id) ≡ true =
      subst (λ t. (id_of c tx.bytes == t) ≡ true) (sym e) (==-refl (id_of c tx.bytes)) in
    rw (nonempty, few) same

-- Every transaction that sign answers passes the package's own check: it is not empty, has at most
-- 1 MiB and bears the identifier of its bytes. Its options name a known version and mode.
pub valid-sign :
    (c : Crypto) (o : Options) (payload : Bytes) (tx : Transaction)
    → IsRipemd160 c.ripemd160
    → sign c o payload ≡ ok tx
    → (valid c tx ≡ true)
      × ((o.version == mainnet || o.version == testnet) ≡ true)
      × ((o.post_condition_mode == allow || o.post_condition_mode == deny) ≡ true)
unfolding sign
valid-sign c o payload tx r h =
    let (key, compressed, _, small, e, i) = sign-eq-ok c o payload tx h in
    let (known, _) =
      guard-eq-ok
        (o.version /= mainnet && o.version /= testnet
          || o.post_condition_mode /= allow && o.post_condition_mode /= deny)
        _ _ h in
    let size = ap length e ∙ length-sign_body c o key compressed payload r in
    let tail_size =
      ap length (e ∙ sign_body-layout c o key compressed payload r)
      ∙ length-layout _ _ _ _ _ _ (all_fit c o key compressed payload r) in
    (
      valid-id_of c tx (omega (arith, tail_size)) (omega (arith, size, small))
          (i ∙ ap (id_of c) (sym e)),
      ground (arith, known),
      ground (arith, known),
    )
