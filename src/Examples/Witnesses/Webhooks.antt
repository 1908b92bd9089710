-- ===== src/Examples/Witnesses/Webhooks.antt =====
-- The theorems on the server at concrete inputs.
use cm_saas_letsencrypt_ca_c.Base.{◌≡◌, ◌≤◌, refl, some, List, [], ◌∷◌, length, Text, text}
use cm_saas_letsencrypt_ca_c.Errors.{ok, err, outside}
use cm_saas_letsencrypt_ca_c.Service.Nonces.{Webhook, serve_all}
use cm_saas_letsencrypt_ca_c.Errors.Doing.{answer}
use cm_saas_letsencrypt_ca_c.Handlers.{
  HttpRequest, Response, imported, with_bound, respond, handle_import_certificates,
}
use cm_saas_letsencrypt_ca_c.Domain.{ImportStatus}
use cm_saas_letsencrypt_ca_c.Service.Check.{retrieve_certificates}
use cm_saas_letsencrypt_ca_c.Handlers.Server.{
  encryption_key, decrypted, decrypting, v1_routes, routed, server,
}
use cm_saas_letsencrypt_ca_c.Handlers.Server.Encrypted.{
  IsWebhook, server-encrypted, server-undecryptable,
}
use cm_saas_letsencrypt_ca_c.Handlers.Server.Statuses.{server-Fits}
use cm_saas_letsencrypt_ca_c.Handlers.Server.Kinds.{import_page, Fits}
use cm_saas_letsencrypt_ca_c.Handlers.Server.Traffic.{traffic-serve_all}
use cm_saas_letsencrypt_ca_c.Handlers.Wired.{service, traffic}
use cm_saas_letsencrypt_ca_c.Examples.Lab.{lab}
use cm_saas_letsencrypt_ca_c.Examples.Host.{lab_host, order_request}

order_request-IsWebhook : (body : Text) → IsWebhook lab_host (service lab) (order_request body)
unfolding v1_routes text
order_request-IsWebhook body = record { post = refl; listed = refl; no_health_check = refl }

lab_key : encryption_key lab_host ≡ some (1 ∷ [])
unfolding encryption_key
lab_key = refl

opens : decrypted lab_host (1 ∷ []) (order_request (9 ∷ 3 ∷ [])) ≡ ok (3 ∷ [])
unfolding decrypted
opens = refl

server-encrypted_example :
    server lab_host (service lab) (order_request (9 ∷ 3 ∷ [])) []
    ≡ server
        (record lab_host { key_file = err (outside []) })
        (service lab)
        (order_request (3 ∷ []))
        []
server-encrypted_example =
    server-encrypted lab_host (service lab) (1 ∷ []) (3 ∷ []) (outside [])
      (order_request (9 ∷ 3 ∷ [])) [] lab_key (order_request-IsWebhook (9 ∷ 3 ∷ [])) opens

refused : decrypted lab_host (1 ∷ []) (order_request []) ≡ err (outside (text "not a JWE"))
unfolding decrypted
refused = refl

server-undecryptable_example :
    server lab_host (service lab) (order_request []) [] ≡ (err (outside (text "not a JWE")), [])
server-undecryptable_example =
    server-undecryptable lab_host (service lab) (1 ∷ []) (outside (text "not a JWE"))
      (order_request []) [] lab_key (order_request-IsWebhook []) refused

traffic-serve_all_example :
    (hs : List Webhook) × (length hs ≤ 2)
    × (traffic lab lab_host (order_request (9 ∷ 3 ∷ []) ∷ order_request [] ∷ []) []
        ≡ serve_all lab hs [])
traffic-serve_all_example =
    traffic-serve_all lab lab_host (order_request (9 ∷ 3 ∷ []) ∷ order_request [] ∷ []) []

abbrev import_request : HttpRequest
import_request = record (order_request (9 ∷ 3 ∷ [])) { path = text "/v1/importcertificates" }

abbrev empty_page : Response
empty_page = record {
  status = 200;
  reply = imported (record {
    import_status = ImportStatus.completed;
    last_processed_certificate_id = [];
    import_certificates = [];
  });
}

import_runs : (server lab_host (service lab) import_request []).0 ≡ ok empty_page
unfolding server routed v1_routes encryption_key decrypting decrypted handle_import_certificates
    with_bound respond answer retrieve_certificates text
import_runs = refl

server-Fits_example : Fits import_page empty_page
unfolding text
server-Fits_example =
    server-Fits lab_host (service lab) import_request [] import_page empty_page refl refl refl
      import_runs
