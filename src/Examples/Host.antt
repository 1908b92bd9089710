-- ===== src/Examples/Host.antt =====
-- A server to try the handlers on: the bodies are texts, and encryption puts a byte before them.
use cm_saas_letsencrypt_ca_c.Base.{false, none, some, [], ◌∷◌, Text, text}
use cm_saas_letsencrypt_ca_c.Errors.{Result, ok, err, outside, fail}
use cm_saas_letsencrypt_ca_c.Domain.{ImportOption, CertificateRevocationData}
use cm_saas_letsencrypt_ca_c.Handlers.{HttpRequest, Binder}
use cm_saas_letsencrypt_ca_c.Handlers.Server.{Host}
use cm_saas_letsencrypt_ca_c.Examples.Lab.{manual_connection}

-- A body stands for the id that it carries, and no body for no JSON.
abbrev with_id : {A : Type 0} → (Text → A) → HttpRequest → Result A
with_id f r = elim r.body [
  | ok body ↦ elim body [ [] ↦ err (outside (text "EOF")) | c ∷ s ↦ ok (f (c ∷ s)) ]
  | err e ↦ err e
]

abbrev no_option : ImportOption
no_option = record { name = []; description = []; settings = record { profile_id = [] } }

abbrev a_certificate : CertificateRevocationData
a_certificate = record {
  serial_number = [];
  ca_certificate_identifier = [];
  ca_order_identifier = [];
  fingerprint = [];
  issuer_dn = [];
  certificate_content = [];
}

abbrev lab_binder : Binder
lab_binder = record {
  bind_test_connection = with_id (λ id. record { connection = manual_connection });
  bind_get_options = with_id (λ id. record { connection = manual_connection });
  bind_validate_product =
      with_id
        (λ id. record { connection = manual_connection; product_name = id; product = record {} });
  bind_request_certificate = with_id (λ id. record {
    connection = manual_connection;
    validity_seconds = 0;
    product_option_name = [];
    product = record {};
    pkcs10_request = id;
    product_details = none;
  });
  bind_check_order = with_id (λ id. record { connection = manual_connection; id = id });
  bind_check_certificate = with_id (λ id. record { connection = manual_connection; id = id });
  bind_import_certificates = with_id (λ id. record {
    connection = manual_connection;
    option = no_option;
    configuration = record { include_expired_certificates = false };
    last_processed_certificate_id = id;
    batch_size = 10;
  });
  bind_revoke_certificate = with_id (λ id. record {
    connection = manual_connection;
    certificate_revocation_data = a_certificate;
    reason = 0;
  });
}

abbrev unsealed : Text → Result Text
unsealed [] = err (outside (text "not a JWE"))
unsealed (c ∷ s) = ok s

abbrev pub lab_host : Host
lab_host = record {
  key_file = ok (1 ∷ []);
  pem_decode = λ content. some (record { kind = []; bytes = content }, []);
  parse_private_key = λ bytes. ok bytes;
  parse_encrypted = unsealed;
  decrypt = λ key object. ok object;
  no_route = λ r. err (fail (text "Not Found"));
  binder = lab_binder;
}

-- A request for the state of an order.
abbrev pub order_request : Text → HttpRequest
order_request body = record {
  method = text "POST";
  path = text "/v1/checkorder";
  headers = [];
  body = ok body;
}
