-- ===== src/Handlers/Server.antt =====
-- internal/handler/web/web.go: the routes of the connector, and the middleware that decrypts the
-- bodies of requests.
pub mod Encrypted
pub mod Statuses
pub mod Traffic
pub mod Kinds
use cm_saas_letsencrypt_ca_c.Base.{
  Bool, true, false, ◌&&◌, Option, none, some, List, [], ◌∷◌, ◌++◌, Text, text, text_eq,
  if◌then◌else◌,
}
use cm_saas_letsencrypt_ca_c.Errors
use cm_saas_letsencrypt_ca_c.Errors.{Result, ok, err}
use cm_saas_letsencrypt_ca_c.Acme.Outside.{Event}
use cm_saas_letsencrypt_ca_c.Acme.Pem.{Block}
use cm_saas_letsencrypt_ca_c.Handlers.{
  HttpRequest, Response, Work, WebhookService, Binder, plain, handle_test_connection,
  handle_get_options, handle_validate_product, handle_request_certificate, handle_check_order,
  handle_check_certificate, handle_import_certificates, handle_revoke_certificate,
}

-- What the server calls and does not implement: the key file, PEM and RSA keys, JWE, and the answer
-- of the HTTP library where no route fits, behind the middleware or not.
pub record Host : Type 0 where
  -- `os.ReadFile("/keys/payload-encryption-key.pem")`
  pub key_file : Result Text
  pub pem_decode : Text → Option (Block × Text)
  -- `x509.ParsePKCS1PrivateKey`
  pub parse_private_key : Text → Result Text
  -- `jose.ParseEncrypted`
  pub parse_encrypted : Text → Result Text
  -- `object.Decrypt(pk)`: the key, then the object
  pub decrypt : Text → Text → Result Text
  pub no_route : HttpRequest → Result Response
  pub binder : Binder

abbrev pub Handler : Type 0
Handler = HttpRequest → Work Response

abbrev pub is_health_check : HttpRequest → Bool
is_health_check r = text_eq r.method (text "GET") && text_eq r.path (text "/healthz")

abbrev pub with_body : Text → HttpRequest → HttpRequest
with_body body r = record r { body = ok body }

module _ (H : Host) where
  abbrev pub key_in : Option (Block × Text) → Option Text
  key_in none = none
  key_in (some (block, rest)) = elim (H.parse_private_key block.bytes) [
    | ok k ↦ some k
    | err e ↦ none
  ]

  -- The key of `addPayloadEncryptionMiddleware`; without one the bodies are taken as they are.
  abbrev pub key_of : Result Text → Option Text
  key_of (err e) = none
  key_of (ok content) = key_in (H.pem_decode content)

  unfoldable pub encryption_key : Option Text
  encryption_key = key_of H.key_file

  -- The body behind reading, parsing and decrypting.
  unfoldable pub decrypted : Text → HttpRequest → Result Text
  decrypted key r =
      Errors.◌>>=◌ r.body
        λ body. Errors.◌>>=◌ (H.parse_encrypted body) λ object. H.decrypt key object

  abbrev pub go_on : Handler → HttpRequest → Result Text → Work Response
  go_on next r (err e) log = (err e, log)
  go_on next r (ok body) log = next (with_body body r) log

  -- The function that the middleware puts before a handler.
  unfoldable pub decrypting : Text → Handler → Handler
  decrypting key next r = go_on next r (decrypted key r)

  abbrev pub through : Option Text → Handler → Handler
  through none next = next
  through (some key) next = decrypting key next

  -- The handler of a path, behind the middleware.
  unfoldable pub routed : Option Text → List (Text × Handler) → HttpRequest → Work Response
  routed key [] r log = (H.no_route r, log)
  routed key ((path, handler) ∷ routes) r log =
      let rest = routed key routes r log in
      if text_eq path r.path then through key handler r log else rest

  module _ (S : WebhookService) where
    -- The routes below "/v1" of `RegisterHandlers`.
    unfoldable pub v1_routes : List (Text × Handler)
    v1_routes =
        (text "/v1/testconnection", handle_test_connection H.binder S)
        ∷ (text "/v1/getoptions", handle_get_options H.binder S)
        ∷ (text "/v1/validateproduct", handle_validate_product H.binder S)
        ∷ (text "/v1/requestcertificate", handle_request_certificate H.binder S)
        ∷ (text "/v1/checkorder", handle_check_order H.binder S)
        ∷ (text "/v1/checkcertificate", handle_check_certificate H.binder S)
        ∷ (text "/v1/importcertificates", handle_import_certificates H.binder S)
        ∷ (text "/v1/revokecertificate", handle_revoke_certificate H.binder S)
        ∷ []

    -- The server with its routes.
    unfoldable pub server : Handler
    server r log =
        if is_health_check r
        then (ok (record { status = 200; reply = plain (text "OK") }), log)
        else if text_eq r.method (text "POST")
        then routed encryption_key v1_routes r log
        else (H.no_route r, log)
