-- ===== src/Acme/Jws.antt =====
-- `signJWS`, `jwk` and `coord` of internal/acme/jws.go.
pub mod Halves
use cm_saas_letsencrypt_ca_c.Base.{
  ℕ, zero, suc, ◌/◌, ◌%◌, Option, none, some, [], ◌∷◌, ◌++◌, Text, text,
}
use cm_saas_letsencrypt_ca_c.Acme.Types.{AccountKey, Jwk, Header, Signed}
use cm_saas_letsencrypt_ca_c.Acme.Outside.{Outside}
use cm_saas_letsencrypt_ca_c.Acme.Act.{Act, pure, lift, gets, in_context, ◌>>=◌}

-- `big.Int.FillBytes` into a buffer of the given length, big-endian. A number that does not fit
-- makes Go panic; the numbers here are P-256 coordinates and signature halves, which fit.
unfoldable pub fill_bytes : ℕ → ℕ → Text
fill_bytes zero v = []
fill_bytes (suc n) v = fill_bytes n (v / 256) ++ (v % 256) ∷ []

module _ (O : Outside) where
  unfoldable pub coord : ℕ → Text
  coord i = O.b64 (fill_bytes 32 i)

  unfoldable pub jwk : AccountKey → Jwk
  jwk k = record { crv = text "P-256"; kty = text "EC"; x = coord k.x; y = coord k.y }

  -- With an account URL the header names the account by it, and otherwise it carries the key.
  unfoldable pub protected_header : AccountKey → Text → Text → Text → Header
  protected_header k nonce url [] = record {
    alg = text "ES256";
    nonce = nonce;
    url = url;
    kid = none;
    jwk = some (jwk k);
  }
  protected_header k nonce url (c ∷ kid) = record {
    alg = text "ES256";
    nonce = nonce;
    url = url;
    kid = some (c ∷ kid);
    jwk = none;
  }

  -- A payload of nil is the empty text, which makes a POST-as-GET.
  unfoldable pub encode_payload : Option Text → Text
  encode_payload none = []
  encode_payload (some payload) = O.b64 payload

  -- The two halves of a signature, each in 32 bytes.
  unfoldable pub signature_bytes : ℕ × ℕ → Text
  signature_bytes (r, s) = fill_bytes 32 r ++ fill_bytes 32 s

  unfoldable pub sign_jws : AccountKey → Option Text → Text → Text → Text → Act Signed
  sign_jws k payload nonce url kid = do
    let header = protected_header k nonce url kid
    ph ← lift (O.header_json header)
    log ← gets (λ s. s.log)
    let input = O.b64 ph ++ (text "." ++ encode_payload payload)
    rs ← in_context (text "acme: sign jws") (lift (O.sign log k (O.sha256 input)))
    pure (record {
      header = header;
      protected = O.b64 ph;
      payload = encode_payload payload;
      signature = O.b64 (signature_bytes rs);
    })
