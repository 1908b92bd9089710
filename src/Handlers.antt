-- ===== src/Handlers.antt =====
-- internal/app/letsencrypt: the webhook handlers, over the interfaces of the services that they
-- call and over the JSON binding of the HTTP library.
pub mod Server
pub mod Wired
use cm_saas_letsencrypt_ca_c.Base.{ℕ, Option, List, ◌++◌, Text, text}
use cm_saas_letsencrypt_ca_c.Errors.{
  Err, fail, wrap, acme, outside, panicked, spinning, err_text, Result, ok, err,
}
use cm_saas_letsencrypt_ca_c.Errors.Doing.{answer}
use cm_saas_letsencrypt_ca_c.Acme.Outside.{Event}
use cm_saas_letsencrypt_ca_c.Domain.{
  Connection, Product, ProductError, ProductDetails, ProductOption, ImportOption,
  ImportConfiguration, ImportDetails, OrderDetails, CertificateDetails, CertificateRevocationData,
  RevocationStatus, RevocationDetails,
}

-- A request to the connector. Reading the body may fail.
pub record HttpRequest : Type 0 where
  pub method : Text
  pub path : Text
  pub headers : List (Text × Text)
  pub body : Result Text

pub record TestConnectionRequest : Type 0 where
  pub connection : Connection

pub record GetOptionsRequest : Type 0 where
  pub connection : Connection

pub record ValidateProductRequest : Type 0 where
  pub connection : Connection
  pub product_name : Text
  pub product : Product

pub record RequestCertificateRequest : Type 0 where
  pub connection : Connection
  pub validity_seconds : ℕ
  pub product_option_name : Text
  pub product : Product
  pub pkcs10_request : Text
  pub product_details : Option ProductDetails

pub record CheckOrderRequest : Type 0 where
  pub connection : Connection
  pub id : Text

pub record CheckCertificateRequest : Type 0 where
  pub connection : Connection
  pub id : Text

pub record ImportCertificatesRequest : Type 0 where
  pub connection : Connection
  pub option : ImportOption
  pub configuration : ImportConfiguration
  pub last_processed_certificate_id : Text
  pub batch_size : ℕ

pub record RevokeCertificateRequest : Type 0 where
  pub connection : Connection
  pub certificate_revocation_data : CertificateRevocationData
  pub reason : ℕ

pub data TestConnectionStatus : Type 0 where
  success failed : TestConnectionStatus

pub record TestConnectionResponse : Type 0 where
  pub result : TestConnectionStatus
  pub message : Text

pub record GetOptionsResponse : Type 0 where
  pub product_options : List ProductOption
  pub import_options : List ImportOption

pub record ValidateProductResponse : Type 0 where
  pub errors : List ProductError

pub record RequestCertificateResponse : Type 0 where
  pub certificate_details : Option CertificateDetails
  pub order_details : Option OrderDetails

pub record RevokeCertificateResponse : Type 0 where
  pub revocation_status : RevocationStatus
  pub error_message : Option Text

-- What `c.String` and `c.JSON` write.
pub data Reply : Type 0 where
  plain : Text → Reply
  tested : TestConnectionResponse → Reply
  options : GetOptionsResponse → Reply
  validated : ValidateProductResponse → Reply
  requested : RequestCertificateResponse → Reply
  order : OrderDetails → Reply
  certificate : CertificateDetails → Reply
  imported : ImportDetails → Reply
  revoked : RevokeCertificateResponse → Reply

pub record Response : Type 0 where
  pub status : ℕ
  pub reply : Reply

-- What leaves a result or an error, on the trace of the program.
abbrev pub Work : Type 0 → Type 0
Work A = List Event → Result A × List Event

-- The interfaces `ConnectionService`, `OptionsService` and `CertificateService`.
pub record WebhookService : Type 0 where
  pub test_connection : Connection → Work Text
  pub get_options : Connection → Work (List ProductOption × List ImportOption)
  pub validate_product : Connection → Text → Product → Work (List ProductError)
  pub request_certificate :
      Connection
      → Text
      → Product
      → Text
      → ℕ
      → Option ProductDetails
      → Work (Option CertificateDetails × Option OrderDetails)
  pub check_order : Connection → Text → Work OrderDetails
  pub check_certificate : Connection → Text → Work CertificateDetails
  pub retrieve_certificates :
      Connection → ImportOption → ImportConfiguration → Text → ℕ → Work ImportDetails
  pub revoke_certificate : Connection → CertificateRevocationData → ℕ → Work RevocationDetails

-- `c.Bind` of the HTTP library at each type of request.
pub record Binder : Type 0 where
  pub bind_test_connection : HttpRequest → Result TestConnectionRequest
  pub bind_get_options : HttpRequest → Result GetOptionsRequest
  pub bind_validate_product : HttpRequest → Result ValidateProductRequest
  pub bind_request_certificate : HttpRequest → Result RequestCertificateRequest
  pub bind_check_order : HttpRequest → Result CheckOrderRequest
  pub bind_check_certificate : HttpRequest → Result CheckCertificateRequest
  pub bind_import_certificates : HttpRequest → Result ImportCertificatesRequest
  pub bind_revoke_certificate : HttpRequest → Result RevokeCertificateRequest

abbrev pub bad_request : Text → Response
bad_request message = record { status = 400; reply = plain message }

abbrev pub json : Reply → Response
json reply = record { status = 200; reply = reply }

-- A handler that cannot bind its request calls no service.
unfoldable pub with_bound : {A : Type 0} → Result A → (A → Work Response) → Work Response
with_bound (err e) f log = (ok (bad_request (text "failed to unmarshal json: " ++ err_text e)), log)
with_bound (ok a) f log = f a log

unfoldable pub respond : {A : Type 0} → (Text → Response) → (A → Response) → Work A → Work Response
respond bad good work log = let (r, log') = work log in (answer bad good r, log')

abbrev pub test_failed : Text → Response
test_failed message = json (
    tested (record {
      result = TestConnectionStatus.failed;
      message = text "failed to connect to ACME directory: " ++ message;
    }))

abbrev pub test_succeeded : Text → Response
test_succeeded message = json (tested (record { result = success; message = message }))

module _ (B : Binder) (S : WebhookService) where
  unfoldable pub handle_test_connection : HttpRequest → Work Response
  handle_test_connection r =
      with_bound (B.bind_test_connection r)
        λ req. respond test_failed test_succeeded (S.test_connection req.connection)

  unfoldable pub handle_get_options : HttpRequest → Work Response
  handle_get_options r = with_bound (B.bind_get_options r) λ req.
      respond bad_request
        (λ found. json (options (record { product_options = found.0; import_options = found.1 })))
        (S.get_options req.connection)

  unfoldable pub handle_validate_product : HttpRequest → Work Response
  handle_validate_product r = with_bound (B.bind_validate_product r) λ req.
      respond bad_request (λ errors. json (validated (record { errors = errors })))
        (S.validate_product req.connection req.product_name req.product)

  unfoldable pub handle_request_certificate : HttpRequest → Work Response
  handle_request_certificate r = with_bound (B.bind_request_certificate r) λ req.
      respond bad_request
        (λ issued.
          json (requested (record { certificate_details = issued.0; order_details = issued.1 })))
        (S.request_certificate req.connection req.pkcs10_request req.product req.product_option_name
          req.validity_seconds req.product_details)

  unfoldable pub handle_check_order : HttpRequest → Work Response
  handle_check_order r =
      with_bound (B.bind_check_order r) λ req.
        respond bad_request (λ found. json (order found)) (S.check_order req.connection req.id)

  unfoldable pub handle_check_certificate : HttpRequest → Work Response
  handle_check_certificate r = with_bound (B.bind_check_certificate r) λ req.
      respond bad_request (λ found. json (certificate found))
        (S.check_certificate req.connection req.id)

  unfoldable pub handle_import_certificates : HttpRequest → Work Response
  handle_import_certificates r = with_bound (B.bind_import_certificates r) λ req.
      respond (λ message. bad_request (text "failed to retrieve certificates: " ++ message))
        (λ page. json (imported page))
        (S.retrieve_certificates req.connection req.option req.configuration
          req.last_processed_certificate_id req.batch_size)

  unfoldable pub handle_revoke_certificate : HttpRequest → Work Response
  handle_revoke_certificate r = with_bound (B.bind_revoke_certificate r) λ req.
      respond bad_request
        (λ done. json (
          revoked (record { revocation_status = done.status; error_message = done.error_message })))
        (S.revoke_certificate req.connection req.certificate_revocation_data req.reason)
