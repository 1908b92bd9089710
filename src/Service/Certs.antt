-- ===== src/Service/Certs.antt =====
-- internal/app/service/csr.go and cert.go: certificate requests and certificates.
pub mod Blocks
use cm_saas_letsencrypt_ca_c.Base.{
  Option, ℕ, zero, suc, none, some, List, [], ◌∷◌, ◌++◌, map, Text, text, text_eq, trim_space,
  is_empty, if◌then◌else◌, length,
}
use cm_saas_letsencrypt_ca_c.Errors.{fail, spinning, Result, ok, err, wrap_result, ◌>>=◌}
use cm_saas_letsencrypt_ca_c.Names.{dedupe_lower}
use cm_saas_letsencrypt_ca_c.Acme.Pem.{Block}
use cm_saas_letsencrypt_ca_c.Service.{Platform}

abbrev pub or_common_name : List Text → Text → List Text
or_common_name [] [] = []
or_common_name [] (c ∷ name) = (c ∷ name) ∷ []
or_common_name (n ∷ names) common_name = n ∷ names

module _ (W : Platform) where
  abbrev pub from_base64 : Text → Result Text → Result Text
  from_base64 message (ok der) = ok der
  from_base64 message (err e) = err (fail message)

  -- The DER of a request, from PEM or base64.
  abbrev pub request_der : Text → Result Text
  request_der csr = elim (W.keys.pem_decode csr) [
    | some (b, rest) ↦ ok b.bytes
    | none ↦
        from_base64 (text "CSR is not valid PEM or base64 DER") (W.b64_std_decode (trim_space csr))
  ]

  -- `parseCSR`
  unfoldable pub parse_csr : Text → Result (Text × List Text)
  parse_csr csr = do
    der ← request_der csr
    (dns_names, common_name) ← wrap_result (text "parse CSR") (W.parse_request der)
    ok (der, dedupe_lower (or_common_name dns_names common_name))

  -- The round for what the reader of PEM gives.
  abbrev pub block_step :
      List Text
      → Option (Block × Text)
      → (Text → List Text → Result (List Text))
      → Result (List Text)
  block_step certs none next = ok certs
  block_step certs (some (b, rest)) next =
      if text_eq b.kind (text "CERTIFICATE")
      then (wrap_result (text "parse certificate") (W.parse_certificate b.bytes) >>= λ cert.
          next rest (certs ++ cert ∷ []))
      else next rest certs

  -- The loop of `parseCertificatePEM`, with the rounds left. The reader of PEM takes a character at
  -- least for each block, so the length of the text is enough; `spinning` marks the end of the rounds.
  unfoldable pub read_blocks : ℕ → Text → List Text → Result (List Text)
  read_blocks zero rest certs = err spinning
  read_blocks (suc rounds) rest certs =
      block_step certs (W.keys.pem_decode rest) (read_blocks rounds)

  -- `parseCertificatePEM`
  unfoldable pub parse_certificate_pem : Text → Result (List Text)
  parse_certificate_pem pem = do
    certs ← read_blocks (suc (length pem)) pem []
    if is_empty certs then err (fail (text "no certificate PEM blocks found")) else ok certs

  -- A certificate that is no PEM: base64 DER.
  abbrev pub single_certificate : Text → Result (Text × List Text)
  single_certificate cert_data = elim (W.b64_std_decode cert_data) [
    | err e ↦ err (fail (text "failed to parse certificate data: not valid PEM or base64 DER"))
    | ok der ↦ elim (W.parse_certificate der) [
      | err e ↦ err (fail (text "failed to parse certificate data: not valid PEM or base64 DER"))
      | ok raw ↦ ok (W.b64_std raw, [])
    ]
  ]

  -- The leaf and the chain, or the other reading where there is no chain.
  abbrev pub split_chain : Text → Result (List Text) → Result (Text × List Text)
  split_chain cert_data (err e) = single_certificate cert_data
  split_chain cert_data (ok []) = single_certificate cert_data
  split_chain cert_data (ok (leaf ∷ chain)) = ok (W.b64_std leaf, map W.b64_std chain)

  -- `parseCertificateData`
  unfoldable pub parse_certificate_data : Text → Result (Text × List Text)
  parse_certificate_data cert_data = split_chain cert_data (parse_certificate_pem cert_data)

  -- `decodeCertToDER`
  unfoldable pub decode_cert_to_der : Text → Result Text
  decode_cert_to_der cert_data = elim (W.keys.pem_decode cert_data) [
    | some (b, rest) ↦ ok b.bytes
    | none ↦
        from_base64 (text "certificate is not valid PEM or base64 DER") (W.b64_std_decode cert_data)
  ]
