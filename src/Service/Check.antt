-- ===== src/Service/Check.antt =====
-- `CheckOrder`, `CheckCertificate` and `RetrieveCertificates` of
-- internal/app/service/certificate.go.
use cm_saas_letsencrypt_ca_c.Base.{
  ℕ, Option, none, some, List, [], Text, text_eq, is_empty, if◌then◌else◌,
}
use cm_saas_letsencrypt_ca_c.Errors.{Problem, problem_text, Result}
use cm_saas_letsencrypt_ca_c.Acme.Types.{Order, status_valid, status_invalid}
use cm_saas_letsencrypt_ca_c.Acme.Outside.{Event}
use cm_saas_letsencrypt_ca_c.Acme.Act.{Act, pure, lift, ◌>>=◌, ◌>>◌}
use cm_saas_letsencrypt_ca_c.Acme.Order.{get_order, get_certificate}
use cm_saas_letsencrypt_ca_c.Domain.{
  Connection, OrderDetails, OrderStatus, CertificateDetails, CertificateStatus, ImportDetails,
  ImportStatus,
}
use cm_saas_letsencrypt_ca_c.Service.{Platform, ensure_account, with_client}
use cm_saas_letsencrypt_ca_c.Service.Certs.{parse_certificate_data}

abbrev pub problem_message : Option Problem → Text
problem_message none = []
problem_message (some p) = problem_text p

-- The `switch` of `CheckOrder`.
unfoldable pub order_details : Text → Order → OrderDetails
order_details id order =
    if text_eq order.status status_valid
    then record { id = id; status = OrderStatus.completed; certificate_id = id; error_message = [] }
    else if text_eq order.status status_invalid
    then record {
      id = id;
      status = OrderStatus.failed;
      certificate_id = [];
      error_message = problem_message order.error;
    }
    else record {
      id = id;
      status = OrderStatus.processing;
      certificate_id = [];
      error_message = [];
    }

abbrev pub without_certificate : Text → CertificateStatus → Text → CertificateDetails
without_certificate id status message = record {
  id = id;
  status = status;
  certificate = [];
  chain = [];
  error_message = message;
}

module _ (W : Platform) where
  -- The part of `CheckOrder` behind the client.
  unfoldable pub ask_order : Connection → Text → Act OrderDetails
  ask_order conn id = do
    ensure_account W conn
    order ← get_order W.outside id
    pure (order_details id order)

  unfoldable pub check_order : Connection → Text → List Event → Result OrderDetails × List Event
  check_order conn id = with_client W conn (ask_order conn id)

  -- The case of a valid order with a certificate.
  unfoldable pub download : Text → Text → Act CertificateDetails
  download id url = do
    pem ← get_certificate W.outside url
    (leaf, chain) ← lift (parse_certificate_data W pem)
    pure (record {
      id = id;
      status = CertificateStatus.issued;
      certificate = leaf;
      chain = chain;
      error_message = [];
    })

  -- The `switch` of `CheckCertificate`.
  unfoldable pub certificate_of : Text → Order → Act CertificateDetails
  certificate_of id order =
      if text_eq order.status status_valid
      then (if is_empty order.certificate
          then pure (without_certificate id CertificateStatus.requested [])
          else download id order.certificate)
      else if text_eq order.status status_invalid
      then pure (without_certificate id CertificateStatus.failed (problem_message order.error))
      else pure (without_certificate id CertificateStatus.pending [])

  -- The part of `CheckCertificate` behind the client.
  unfoldable pub ask_certificate : Connection → Text → Act CertificateDetails
  ask_certificate conn id = do
    ensure_account W conn
    order ← get_order W.outside id
    certificate_of id order

  unfoldable pub check_certificate :
      Connection → Text → List Event → Result CertificateDetails × List Event
  check_certificate conn id = with_client W conn (ask_certificate conn id)

-- `RetrieveCertificates`: nothing can be listed, whatever is asked.
unfoldable pub retrieve_certificates : Connection → Text → ℕ → ImportDetails
retrieve_certificates conn cursor batch_size = record {
  import_status = ImportStatus.completed;
  last_processed_certificate_id = [];
  import_certificates = [];
}
