-- ===== src/Transaction/Body.antt =====
-- The body of a transaction, before and after it is signed.
use mathlib.Core.List.{append_assoc}
use stacks_k8s.Common.{
  ℕ, ◌≡◌, refl, sym, ap, ◌∙◌, Bool, [], ◌∷◌, ◌++◌, arith, nat_eq, list_eq, if◌then◌else◌, length,
  length-append, take, drop, replicate, length-take,
}
use stacks_k8s.Encoding.Hex.{Bytes}
use stacks_k8s.Encoding.BigEndian.{fill_bytes, length-fill_bytes}
use stacks_k8s.Transaction.{
  Crypto, Options, copy_into, write_at, sub_first, sign_digest, header, initial_body,
  signing_digest, sign_body,
}
use stacks_k8s.Transaction.Layout.{
  layout, IsLayout, take-nonce, take-fee, take-signature, write_at-nonce, write_at-fee,
  write_at-signature, length-layout,
}

-- RIPEMD-160 answers 20 bytes.
abbrev pub IsRipemd160 : (Bytes → Bytes) → Type 0
IsRipemd160 ripemd160 = (b : Bytes) → length (ripemd160 b) ≡ 20

-- `raw` with nonce, fee and signature set to zero.
abbrev pub cleared : Bytes → Bytes
cleared raw =
    write_at 44 (replicate 65 0) (write_at 35 (replicate 8 0) (write_at 27 (replicate 8 0) raw))

-- The digest that the signature of `raw` is for, from `raw` alone.
abbrev pub digest_of : Crypto → Bytes → Bytes
digest_of c raw = signing_digest c (cleared raw) (take 8 (drop 35 raw)) (take 8 (drop 27 raw))

length-sub_first : (b : Bytes) → length (sub_first b) ≡ length b
unfolding sub_first
length-sub_first [] = refl
length-sub_first (x ∷ b) = refl

length-sign_digest : (c : Crypto) (key digest : Bytes) → length (sign_digest c key digest) ≡ 65
unfolding sign_digest copy_into
length-sign_digest c key digest =
    let compact = c.sign_compact key digest in
    omega (
      arith,
      length-sub_first (take 65 (compact ++ replicate 65 0)),
      length-take 65 (compact ++ replicate 65 0),
      length-append compact (replicate 65 0),
    )

module _ (c : Crypto) (o : Options) (key : Bytes) (compressed : Bool) (payload : Bytes)
    (h : IsRipemd160 c.ripemd160) where
  unfoldable pub public_key : Bytes
  public_key = if compressed then c.serialize_compressed key else c.serialize_uncompressed key

  unfoldable pub prefix : Bytes
  unfolding public_key
  prefix =
      o.version ∷ fill_bytes 4 o.chain_id ++ (4 ∷ 0 ∷ c.ripemd160 (c.builtins.sha256 public_key))

  unfoldable pub tail : Bytes
  tail = 3 ∷ o.post_condition_mode ∷ 0 ∷ 0 ∷ 0 ∷ 0 ∷ payload

  unfoldable pub encoding : ℕ
  encoding = if compressed then 0 else 1

  length-prefix : length prefix ≡ 27
  unfolding prefix
  length-prefix =
      let digest = c.ripemd160 (c.builtins.sha256 public_key) in
      omega (
        arith,
        length-append (fill_bytes 4 o.chain_id) (4 ∷ 0 ∷ digest),
        length-fill_bytes 4 o.chain_id,
        h (c.builtins.sha256 public_key),
      )

  fits :
      (nonce fee signature : Bytes)
      → length nonce ≡ 8
      → length fee ≡ 8
      → length signature ≡ 65
      → IsLayout prefix nonce fee signature
  fits nonce fee signature n f s = record {
    prefix_length = length-prefix;
    nonce_length = n;
    fee_length = f;
    signature_length = s;
  }

  initial_body-layout :
      initial_body c o key compressed payload
      ≡ layout prefix (replicate 8 0) (replicate 8 0) encoding (replicate 65 0) tail
  unfolding initial_body layout prefix tail encoding
  initial_body-layout = simp append_assoc

  length-header : length (header c o key compressed) ≡ 44
  unfolding header prefix encoding
  length-header =
      omega (arith, length-append prefix (replicate 16 0 ++ (encoding ∷ [])), length-prefix)

  zeros : Bytes
  zeros = replicate 8 0

  no_signature : Bytes
  no_signature = replicate 65 0

  unfoldable pub written_nonce : Bytes
  written_nonce = fill_bytes 8 o.nonce

  unfoldable pub written_fee : Bytes
  written_fee = fill_bytes 8 o.fee

  unfoldable pub signature : Bytes
  signature = sign_digest c key (
      signing_digest c (initial_body c o key compressed payload) (fill_bytes 8 o.fee)
        (fill_bytes 8 o.nonce))

  length-signature : length signature ≡ 65
  unfolding signature
  length-signature = length-sign_digest c key _

  -- The signed body keeps its layout, with nonce, fee and signature in it.
  pub sign_body-layout :
      sign_body c o key compressed payload
      ≡ layout prefix written_nonce written_fee encoding signature tail
  unfolding sign_body zeros no_signature written_nonce written_fee signature
  sign_body-layout =
      let n = length-fill_bytes 8 o.nonce in
      let f = length-fill_bytes 8 o.fee in
      ap
        (λ n. write_at 35 written_fee (
          write_at 27 written_nonce
            (write_at n signature (initial_body c o key compressed payload))))
        length-header
      ∙ ap (λ b. write_at 35 written_fee (write_at 27 written_nonce (write_at 44 signature b)))
          initial_body-layout
      ∙ ap (λ x. write_at 35 written_fee (write_at 27 written_nonce x))
          (write_at-signature prefix zeros zeros encoding no_signature tail
            (fits zeros zeros no_signature refl refl refl) signature length-signature)
      ∙ ap (write_at 35 written_fee) (
          write_at-nonce prefix zeros zeros encoding signature tail
            (fits zeros zeros signature refl refl length-signature) written_nonce n)
      ∙ write_at-fee prefix written_nonce zeros encoding signature tail
          (fits written_nonce zeros signature n refl length-signature) written_fee f

  pub all_fit : IsLayout prefix written_nonce written_fee signature
  unfolding written_nonce written_fee
  all_fit =
      fits written_nonce written_fee signature (length-fill_bytes 8 o.nonce)
        (length-fill_bytes 8 o.fee) length-signature

  cleared-sign_body :
      cleared (sign_body c o key compressed payload) ≡ initial_body c o key compressed payload
  unfolding zeros no_signature written_fee
  cleared-sign_body =
      let f = length-fill_bytes 8 o.fee in
      ap cleared sign_body-layout
      ∙ ap (λ x. write_at 44 no_signature (write_at 35 zeros x))
          (write_at-nonce prefix written_nonce written_fee encoding signature tail all_fit zeros
            refl)
      ∙ ap (write_at 44 no_signature) (
          write_at-fee prefix zeros written_fee encoding signature tail
            (fits zeros written_fee signature refl f length-signature) zeros refl)
      ∙ write_at-signature prefix zeros zeros encoding signature tail
          (fits zeros zeros signature refl refl length-signature) no_signature refl
      ∙ sym initial_body-layout

  -- The signature in the body is for the digest that the body itself gives.
  pub signature-digest_of :
      take 65 (drop 44 (sign_body c o key compressed payload))
      ≡ sign_digest c key (digest_of c (sign_body c o key compressed payload))
  unfolding written_nonce written_fee signature
  signature-digest_of =
      let nonce =
        ap (λ x. take 8 (drop 27 x)) sign_body-layout
        ∙ take-nonce prefix written_nonce written_fee encoding signature tail all_fit in
      let fee =
        ap (λ x. take 8 (drop 35 x)) sign_body-layout
        ∙ take-fee prefix written_nonce written_fee encoding signature tail all_fit in
      ap (λ x. take 65 (drop 44 x)) sign_body-layout
      ∙ take-signature prefix written_nonce written_fee encoding signature tail all_fit
      ∙ cc (cleared-sign_body, nonce, fee)

  pub length-sign_body :
      length (sign_body c o key compressed payload)
      ≡ length (initial_body c o key compressed payload)
  unfolding written_nonce written_fee
  length-sign_body =
      ap length sign_body-layout
      ∙ length-layout prefix written_nonce written_fee encoding signature tail all_fit
      ∙ sym (
          length-layout prefix (replicate 8 0) (replicate 8 0) encoding (replicate 65 0) tail
            (fits (replicate 8 0) (replicate 8 0) (replicate 65 0) refl refl refl))
      ∙ sym (ap length initial_body-layout)
