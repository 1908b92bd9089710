-- ===== src/Handlers/Server/Statuses.antt =====
-- internal/handler/web/web.go and internal/app/letsencrypt: the status and the kind of body of each
-- response.
use cm_saas_letsencrypt_ca_c.Base.{
  ◌≡◌, refl, inl, inr, true, false, Option, none, some, List, [], ◌∷◌, Text, text, text_eq,
  if◌then◌else◌, Bool-cases,
}
use cm_saas_letsencrypt_ca_c.Errors.{Result, ok, err}
use cm_saas_letsencrypt_ca_c.Acme.Outside.{Event}
use cm_saas_letsencrypt_ca_c.Handlers.{HttpRequest, Response, WebhookService}
use cm_saas_letsencrypt_ca_c.Handlers.Server.{
  Host, Handler, encryption_key, decrypted, decrypting, go_on, through, with_body, v1_routes,
  routed, is_health_check, server,
}
use cm_saas_letsencrypt_ca_c.Handlers.Server.Kinds.{
  Kind, webhook_kinds, Fits, Gives, Gives-test_connection, Gives-get_options,
  Gives-validate_product, Gives-request_certificate, Gives-check_order, Gives-check_certificate,
  Gives-import_certificates, Gives-revoke_certificate,
}

-- The webhooks, by what they answer.
-- The routes stand for the paths in order, each with a handler of the kind.
abbrev AllGive : List (Text × Handler) → List (Text × Kind) → Type 0
AllGive [] [] = Unit
AllGive ((p, h) ∷ routes) ((q, k) ∷ kinds) = (p ≡ q) × Gives k h × AllGive routes kinds
AllGive _ _ = ⊥

v1_routes-AllGive : (H : Host) (S : WebhookService) → AllGive (v1_routes H S) webhook_kinds
unfolding v1_routes
v1_routes-AllGive H S = (
  refl,
  Gives-test_connection H S,
  (
    refl,
    Gives-get_options H S,
    (
      refl,
      Gives-validate_product H S,
      (
        refl,
        Gives-request_certificate H S,
        (
          refl,
          Gives-check_order H S,
          (
            refl,
            Gives-check_certificate H S,
            (refl, Gives-import_certificates H S, (refl, Gives-revoke_certificate H S, tt)),
          ),
        ),
      ),
    ),
  ),
)

abbrev pub kind_at : Text → List (Text × Kind) → Option Kind
kind_at path [] = none
kind_at path ((q, k) ∷ kinds) =
    let rest = kind_at path kinds in if text_eq q path then some k else rest

module _ (H : Host) where
  go_on-Fits :
      (k : Kind) (next : Handler) (r : HttpRequest) (body : Result Text) (log : List Event)
      (resp : Response)
      → Gives k next
      → (go_on H next r body log).0 ≡ ok resp
      → Fits k resp
  go_on-Fits k next r (err e) log resp g h = cc
  go_on-Fits k next r (ok body) log resp g h = g.fits (with_body body r) log resp h

  through-Fits :
      (key : Option Text) (k : Kind) (next : Handler) (r : HttpRequest) (log : List Event)
      (resp : Response)
      → Gives k next
      → (through H key next r log).0 ≡ ok resp
      → Fits k resp
  unfolding decrypting
  through-Fits none k next r log resp g h = g.fits r log resp h
  through-Fits (some key) k next r log resp g h =
      go_on-Fits k next r (decrypted H key r) log resp g h

  routed-Fits :
      (key : Option Text) (routes : List (Text × Handler)) (kinds : List (Text × Kind))
      (r : HttpRequest) (log : List Event) (k : Kind) (resp : Response)
      → AllGive routes kinds
      → kind_at r.path kinds ≡ some k
      → (routed H key routes r log).0 ≡ ok resp
      → Fits k resp
  unfolding routed
  routed-Fits key [] [] r log k resp a e h = cc
  routed-Fits key [] (q ∷ kinds) r log k resp a e h = absurd a
  routed-Fits key (p ∷ routes) [] r log k resp a e h = absurd a
  routed-Fits key ((p, handler) ∷ routes) ((q, k') ∷ kinds) r log k resp (same, g, a) e h =
      elim (Bool-cases (text_eq q r.path)) [
        | inl here ↦
            let e' : some k' ≡ some k = rw here at e in
            let known : k' ≡ k = cc in
            rw (← known) (through-Fits key k' handler r log resp g (rw (same, here) at h))
        | inr there ↦
            routed-Fits key routes kinds r log k resp a (rw there at e) (rw (same, there) at h)
      ]

-- A POST request to the path of a webhook that is answered is answered with the status 200 and a
-- reply of the kind that belongs to the path, or with the status 400 and a message, whether or not
-- the bodies are encrypted.
pub server-Fits :
    (H : Host) (S : WebhookService) (r : HttpRequest) (log : List Event) (k : Kind)
    (resp : Response)
    → text_eq r.method (text "POST") ≡ true
    → is_health_check r ≡ false
    → kind_at r.path webhook_kinds ≡ some k
    → (server H S r log).0 ≡ ok resp
    → Fits k resp
unfolding server
server-Fits H S r log k resp post no_health e h =
    routed-Fits H (encryption_key H) (v1_routes H S) webhook_kinds r log k resp
      (v1_routes-AllGive H S) e (rw (no_health, post) at h)
