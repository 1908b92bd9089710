-- ===== src/Service/Revoke.antt =====
-- `RevokeCertificate` of internal/app/service/certificate.go.
use cm_saas_letsencrypt_ca_c.Base.{ℕ, none, some, List, Text, text, is_empty, if◌then◌else◌}
use cm_saas_letsencrypt_ca_c.Errors.{err_text, Result, ok, err}
use cm_saas_letsencrypt_ca_c.Acme.Outside.{Event}
use cm_saas_letsencrypt_ca_c.Acme.Act.{Act, ◌>>◌}
use cm_saas_letsencrypt_ca_c.Acme.Revoke.{revoke_cert}
use cm_saas_letsencrypt_ca_c.Domain.{
  Connection, CertificateRevocationData, RevocationDetails, RevocationStatus,
}
use cm_saas_letsencrypt_ca_c.Service.{Platform, ensure_account, with_client}
use cm_saas_letsencrypt_ca_c.Service.Certs.{decode_cert_to_der}

-- `failedRevocation`
abbrev pub failed_revocation : Text → RevocationDetails
failed_revocation message = record {
  status = RevocationStatus.failed;
  error_message = some message;
}

abbrev pub submitted : RevocationDetails
submitted = record { status = RevocationStatus.submitted; error_message = none }

-- An error of `RevokeCert` is an answer of the operation and no error of it.
abbrev pub outcome : Result (Unit {0}) → Result RevocationDetails
outcome (ok _) = ok submitted
outcome (err e) = ok (failed_revocation (err_text e))

module _ (W : Platform) where
  unfoldable pub revoke_der : Text → ℕ → Act RevocationDetails
  revoke_der der reason s = let (r, s') = revoke_cert W.outside der reason s in (outcome r, s')

  -- The part of the operation behind the client.
  unfoldable pub ask_revocation : Connection → Text → ℕ → Act RevocationDetails
  ask_revocation conn der reason = do ensure_account W conn; revoke_der der reason

  abbrev pub revoke_decoded :
      Connection → Result Text → ℕ → List Event → Result RevocationDetails × List Event
  revoke_decoded conn (err e) reason log = (ok (failed_revocation (err_text e)), log)
  revoke_decoded conn (ok der) reason log = with_client W conn (ask_revocation conn der reason) log

  unfoldable pub revoke_certificate :
      Connection
      → CertificateRevocationData
      → ℕ
      → List Event
      → Result RevocationDetails × List Event
  revoke_certificate conn given reason log =
      if is_empty given.certificate_content
      then (ok (failed_revocation (text "ACME revocation requires the certificate content")), log)
      else revoke_decoded conn (decode_cert_to_der W given.certificate_content) reason log
