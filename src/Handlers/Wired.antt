-- ===== src/Handlers/Wired.antt =====
-- cmd/cm-saas-letsencrypt-ca-connector/app/app.go: the one service behind all interfaces, and the
-- connector as it runs.
use cm_saas_letsencrypt_ca_c.Base.{none, some, Option, List, [], ◌∷◌, Text}
use cm_saas_letsencrypt_ca_c.Errors.{Result, ok, err}
use cm_saas_letsencrypt_ca_c.Acme.Outside.{Event}
use cm_saas_letsencrypt_ca_c.Domain.{
  Connection, Product, ProductError, CertificateDetails, OrderDetails,
}
use cm_saas_letsencrypt_ca_c.Service.{Platform}
use cm_saas_letsencrypt_ca_c.Service.Issue.{request_certificate}
use cm_saas_letsencrypt_ca_c.Service.Check.{check_order, check_certificate, retrieve_certificates}
use cm_saas_letsencrypt_ca_c.Service.Revoke.{revoke_certificate}
use cm_saas_letsencrypt_ca_c.Service.TestConnection.{test_connection}
use cm_saas_letsencrypt_ca_c.Service.Options.{get_options}
use cm_saas_letsencrypt_ca_c.Handlers.{HttpRequest, Response, Work, WebhookService}
use cm_saas_letsencrypt_ca_c.Handlers.Server.{Host, server}

-- `ValidateProduct`: there is nothing to validate.
unfoldable pub validate_product : Connection → Text → Product → List ProductError
validate_product conn name product = []

-- No certificate yet, and the order.
abbrev pub ordered : Result OrderDetails → Result (Option CertificateDetails × Option OrderDetails)
ordered (ok d) = ok (none, some d)
ordered (err e) = err e

module _ (W : Platform) where
  -- `*service.Service` as the three interfaces.
  abbrev pub service : WebhookService
  service = record {
    test_connection = test_connection W;
    get_options = λ conn log. (ok (get_options W conn, []), log);
    validate_product = λ conn name product log. (ok (validate_product conn name product), log);
    request_certificate = λ conn csr product option validity details log.
        (ordered (request_certificate W conn csr log).0, (request_certificate W conn csr log).1);
    check_order = check_order W;
    check_certificate = check_certificate W;
    retrieve_certificates = λ conn option configuration cursor size log.
        (ok (retrieve_certificates conn cursor size), log);
    revoke_certificate = revoke_certificate W;
  }

  -- The connector: the server over the service.
  unfoldable pub connector : Host → HttpRequest → Work Response
  connector H = server H service

  -- The trace behind a sequence of HTTP requests.
  unfoldable pub traffic : Host → List HttpRequest → List Event → List Event
  traffic H [] log = log
  traffic H (r ∷ rs) log = traffic H rs (connector H r log).1
