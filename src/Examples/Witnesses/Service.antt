-- ===== src/Examples/Witnesses/Service.antt =====
-- The theorems on the webhooks at concrete inputs.
use cm_saas_letsencrypt_ca_c.Base.{Text, ◌≡◌, ◌↔◌, List, [], ◌∷◌, All, text}
use cm_saas_letsencrypt_ca_c.Examples.Lab.{
  lab_order, lab, lab_ca, lab_session, manual_connection, auto_connection, lab-IssuesFresh,
}
use cm_saas_letsencrypt_ca_c.Names.{parse_domain_list}
use cm_saas_letsencrypt_ca_c.Names.Distinct.{Distinct}
use cm_saas_letsencrypt_ca_c.Acme.Engine.Nonces.{used}
use cm_saas_letsencrypt_ca_c.Domain.{CertificateRevocationData}
use cm_saas_letsencrypt_ca_c.Service.{issuer_of}
use cm_saas_letsencrypt_ca_c.Service.Issue.{request_certificate, ensure_standing_records}
use cm_saas_letsencrypt_ca_c.Service.Issue.Published.{published, ensure_standing_records-published}
use cm_saas_letsencrypt_ca_c.Service.Issued.{request_certificate-Issued}
use cm_saas_letsencrypt_ca_c.Service.Opened.{Issued}
use cm_saas_letsencrypt_ca_c.Service.Check.{check_order, check_certificate, order_details}
use cm_saas_letsencrypt_ca_c.Service.TestConnection.{test_connection}
use cm_saas_letsencrypt_ca_c.Service.TestConnection.Verified.{
  Succeeds, IsLive, test_connection-IsLive,
}
use cm_saas_letsencrypt_ca_c.Service.NoDns.{dns_calls, manual_request_no_dns}
use cm_saas_letsencrypt_ca_c.Service.Nonces.{
  Webhook, request, order, certificate, revoke, connection_test, serve_all, serve_all_single_use,
}
use cm_saas_letsencrypt_ca_c.Service.Reported.{
  TellsOrder, TellsCertificate, check_order-TellsOrder, check_certificate-TellsCertificate,
}
use cm_saas_letsencrypt_ca_c.Service.AutoMode.{PublishedAll, request_certificate-PublishedAll}
use cm_saas_letsencrypt_ca_c.Examples.Runs.{
  auto_mode, auto_request_runs, check_order_runs, lab_certificate, check_certificate_runs,
  lab_details, request_runs, manual_mode, manual_client, registered, client_runs, registration_runs,
  two_names, publish_runs,
}

request_certificate-Issued_example :
    Issued lab_ca lab_details (request_certificate lab manual_connection [] []).1
request_certificate-Issued_example =
    request_certificate-Issued lab manual_connection [] [] lab_details request_runs

abbrev revocation_data : CertificateRevocationData
revocation_data = record {
  serial_number = [];
  ca_certificate_identifier = [];
  ca_order_identifier = [];
  fingerprint = [];
  issuer_dn = [];
  certificate_content = 99 ∷ [];
}

abbrev some_hooks : List Webhook
some_hooks =
    request manual_connection []
    ∷ order manual_connection (3 ∷ [])
    ∷ request auto_connection []
    ∷ certificate manual_connection (3 ∷ [])
    ∷ revoke manual_connection revocation_data 1
    ∷ connection_test auto_connection
    ∷ []

serve_all_single_use_example : Distinct (used (serve_all lab some_hooks []))
serve_all_single_use_example = serve_all_single_use lab lab-IssuesFresh some_hooks

test_connection-IsLive_example :
    Succeeds (test_connection lab manual_connection []).0
    ↔ All
        (IsLive lab (issuer_of manual_connection) registered.client.account_url registered.log)
        (parse_domain_list manual_connection.configuration.verification_domains)
test_connection-IsLive_example =
    test_connection-IsLive lab manual_connection manual_client [] registered manual_mode client_runs
      registration_runs

ensure_standing_records-published_example :
    (ensure_standing_records lab auto_connection two_names lab_session).1.log
    ≡ published (text "Z1") (issuer_of auto_connection) lab_session.client.account_url two_names []
ensure_standing_records-published_example =
    ensure_standing_records-published lab auto_connection two_names lab_session publish_runs

manual_request_no_dns_example : dns_calls (request_certificate lab manual_connection [] []).1 ≡ []
manual_request_no_dns_example = manual_request_no_dns lab manual_connection [] [] manual_mode

check_order-TellsOrder_example :
    TellsOrder lab_ca
      (3 ∷ [])
      (order_details (3 ∷ []) lab_order)
      (check_order lab manual_connection (3 ∷ []) []).1
check_order-TellsOrder_example =
    check_order-TellsOrder lab manual_connection (3 ∷ []) [] (order_details (3 ∷ []) lab_order)
      check_order_runs

check_certificate-TellsCertificate_example :
    TellsCertificate lab
      (3 ∷ [])
      lab_certificate
      (check_certificate lab manual_connection (3 ∷ []) []).1
check_certificate-TellsCertificate_example =
    check_certificate-TellsCertificate lab manual_connection (3 ∷ []) [] lab_certificate
      check_certificate_runs

request_certificate-PublishedAll_example :
    PublishedAll lab auto_connection [] [] (request_certificate lab auto_connection [] []).1
request_certificate-PublishedAll_example =
    request_certificate-PublishedAll lab auto_connection [] [] lab_details auto_mode
      auto_request_runs

abbrev some_pem : Text
some_pem = 3 ∷ []
