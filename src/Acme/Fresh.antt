-- ===== src/Acme/Fresh.antt =====
-- `GenerateAccountKey` and `AccountKey.PEM` of internal/acme/jws.go.
use cm_saas_letsencrypt_ca_c.Base.{List, Text, text}
use cm_saas_letsencrypt_ca_c.Errors.{Result, ok, wrap_result, ◌>>=◌}
use cm_saas_letsencrypt_ca_c.Acme.Types.{AccountKey}
use cm_saas_letsencrypt_ca_c.Acme.Outside.{Event}
use cm_saas_letsencrypt_ca_c.Acme.Pem.{Block}

-- `ecdsa.GenerateKey`, `x509.MarshalECPrivateKey` and `pem.EncodeToMemory`.
pub record KeyMaker : Type 0 where
  pub generate : List Event → Result AccountKey
  pub marshal : AccountKey → Result Text
  pub pem_encode : Block → Text

module _ (K : KeyMaker) where
  unfoldable pub generate_account_key : List Event → Result AccountKey
  generate_account_key log = wrap_result (text "generate account key") (K.generate log)

  unfoldable pub key_pem : AccountKey → Result Text
  key_pem key = wrap_result (text "acme: marshal account key") (K.marshal key) >>= λ der.
      ok (K.pem_encode (record { kind = text "EC PRIVATE KEY"; bytes = der }))
