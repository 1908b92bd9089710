-- ===== src/Handlers/Server/Encrypted.antt =====
-- internal/handler/web/web.go: what the encryption of request bodies changes.
use cm_saas_letsencrypt_ca_c.Base.{
  ◌≡◌, refl, arith, true, false, none, some, List, [], ◌∷◌, Text, text, text_eq, map, member,
  Bool-cases, inl, inr,
}
use cm_saas_letsencrypt_ca_c.Errors.{Err, ok, err}
use cm_saas_letsencrypt_ca_c.Acme.Outside.{Event}
use cm_saas_letsencrypt_ca_c.Handlers.{HttpRequest, WebhookService}
use cm_saas_letsencrypt_ca_c.Handlers.Server.{
  Host, Handler, encryption_key, decrypted, decrypting, with_body, v1_routes, routed,
  is_health_check, server,
}

abbrev path_of : Text × Handler → Text
path_of route = route.0

-- A request for one of the webhooks.
pub record IsWebhook (H : Host) (S : WebhookService) (r : HttpRequest) : Type 0 where
  pub post : text_eq r.method (text "POST") ≡ true
  pub listed : member r.path (map path_of (v1_routes H S)) ≡ true
  pub no_health_check : is_health_check r ≡ false

module _ (H : Host) where
  -- Routing with a key, on a path of the table.
  routed-decrypted :
      (key body : Text) (routes : List (Text × Handler)) (r : HttpRequest) (log : List Event)
      → member r.path (map path_of routes) ≡ true
      → decrypted H key r ≡ ok body
      → routed H (some key) routes r log ≡ routed H none routes (with_body body r) log
  unfolding routed decrypting
  routed-decrypted key body [] r log m d = cc
  routed-decrypted key body ((path, handler) ∷ routes) r log m d =
      elim (Bool-cases (text_eq path r.path)) [
        | inl here ↦ rw (here, d) refl
        | inr there ↦ rw there (routed-decrypted key body routes r log (ground arith) d)
      ]

  routed-rejected :
      (key : Text) (e : Err) (routes : List (Text × Handler)) (r : HttpRequest) (log : List Event)
      → member r.path (map path_of routes) ≡ true
      → decrypted H key r ≡ err e
      → routed H (some key) routes r log ≡ (err e, log)
  unfolding routed decrypting
  routed-rejected key e [] r log m d = cc
  routed-rejected key e ((path, handler) ∷ routes) r log m d =
      elim (Bool-cases (text_eq path r.path)) [
        | inl here ↦ rw (here, d) refl
        | inr there ↦ rw there (routed-rejected key e routes r log (ground arith) d)
      ]

-- Without a key the routing asks nothing else of the host.
routed_plain :
    (H : Host) (e : Err) (routes : List (Text × Handler)) (r : HttpRequest) (log : List Event)
    → routed (record H { key_file = err e }) none routes r log ≡ routed H none routes r log
unfolding routed
routed_plain H e [] r log = refl
routed_plain H e ((path, handler) ∷ routes) r log = rw (routed_plain H e routes r log) refl

same_routes :
    (H : Host) (S : WebhookService) (e : Err)
    → v1_routes (record H { key_file = err e }) S ≡ v1_routes H S
unfolding v1_routes
same_routes H S e = refl

-- With an encryption key, a webhook request whose body decrypts is answered, with all its effects,
-- as the request with the plain body is answered by a server that has no key.
pub server-encrypted :
    (H : Host) (S : WebhookService) (key body : Text) (no_file : Err) (r : HttpRequest)
    (log : List Event)
    → encryption_key H ≡ some key
    → IsWebhook H S r
    → decrypted H key r ≡ ok body
    → server H S r log ≡ server (record H { key_file = err no_file }) S (with_body body r) log
unfolding server encryption_key
server-encrypted H S key body no_file r log k w d =
    rw (w.no_health_check, w.post, k, same_routes H S no_file)
      (rw (routed_plain H no_file (v1_routes H S) (with_body body r) log)
        (routed-decrypted H key body (v1_routes H S) r log w.listed d))

-- With an encryption key, a webhook request whose body cannot be read or decrypted has no effect: no
-- handler runs, and the error is passed on to the HTTP library.
pub server-undecryptable :
    (H : Host) (S : WebhookService) (key : Text) (e : Err) (r : HttpRequest) (log : List Event)
    → encryption_key H ≡ some key
    → IsWebhook H S r
    → decrypted H key r ≡ err e
    → server H S r log ≡ (err e, log)
unfolding server
server-undecryptable H S key e r log k w d =
    rw (w.no_health_check, w.post, k) (routed-rejected H key e (v1_routes H S) r log w.listed d)
