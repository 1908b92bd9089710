-- ===== src/Handlers/Server/Traffic.antt =====
-- cmd/cm-saas-letsencrypt-ca-connector/app/app.go: the running connector against the operations of
-- the service.
use cm_saas_letsencrypt_ca_c.Base.{
  suc, ◌≤◌, ◌≡◌, refl, arith, Option, none, some, List, [], ◌∷◌, length, Text, text, text_eq,
  Bool-cases, inl, inr,
}
use cm_saas_letsencrypt_ca_c.Errors.{Result, ok, err}
use cm_saas_letsencrypt_ca_c.Acme.Outside.{Event}
use cm_saas_letsencrypt_ca_c.Service.{Platform}
use cm_saas_letsencrypt_ca_c.Service.Nonces.{
  Webhook, request, order, certificate, revoke, connection_test, serve, serve_all,
}
use cm_saas_letsencrypt_ca_c.Handlers.{
  HttpRequest, Response, Work, with_bound, respond, handle_test_connection, handle_get_options,
  handle_validate_product, handle_request_certificate, handle_check_order, handle_check_certificate,
  handle_import_certificates, handle_revoke_certificate,
}
use cm_saas_letsencrypt_ca_c.Handlers.Server.{
  Host, Handler, encryption_key, decrypted, decrypting, go_on, through, with_body, v1_routes,
  routed, is_health_check, server,
}
use cm_saas_letsencrypt_ca_c.Handlers.Wired.{service, connector, traffic}

module _ (W : Platform) where
  -- The trace grows by what one operation of the service does, or not at all.
  data Step (log : List Event) : List Event → Type 0 where
    idle : Step log log
    served : (h : Webhook) → Step log (serve W h log)

  -- A handler runs one operation at most.
  record IsThin (handler : Handler) : Type 0 where
    step : (r : HttpRequest) (log : List Event) → Step log (handler r log).1

  respond-Step :
      {A B : Type 0} (bound : Result B) (bad : Text → Response) (good : A → Response)
      (call : B → Work A) (log : List Event)
      → ((b : B) → Step log (call b log).1)
      → Step log (with_bound bound (λ req. respond bad good (call req)) log).1
  unfolding with_bound respond
  respond-Step (err e) bad good call log h = idle
  respond-Step (ok b) bad good call log h = h b

  -- One step, then the operations behind it.
  Step-serve_all :
      (log log' : List Event) (rs : List HttpRequest) (end : List Event) (hs : List Webhook)
      → length hs ≤ length rs
      → end ≡ serve_all W hs log'
      → Step log log'
      → (all : List Webhook) × (length all ≤ suc (length rs)) × (end ≡ serve_all W all log)
  unfolding serve_all
  Step-serve_all log log' rs end hs few same idle = (hs, omega (arith, few), same)
  Step-serve_all log log' rs end hs few same (served h) = (h ∷ hs, omega (arith, few), same)

  module _ (H : Host) where
    IsThin-test_connection : IsThin (handle_test_connection H.binder (service W))
    unfolding handle_test_connection serve
    IsThin-test_connection = record {
      step = λ r log. respond-Step _ _ _ _ log (λ req. served (connection_test req.connection));
    }

    IsThin-get_options : IsThin (handle_get_options H.binder (service W))
    unfolding handle_get_options serve
    IsThin-get_options = record { step = λ r log. respond-Step _ _ _ _ log (λ req. idle) }

    IsThin-validate_product : IsThin (handle_validate_product H.binder (service W))
    unfolding handle_validate_product serve
    IsThin-validate_product = record { step = λ r log. respond-Step _ _ _ _ log (λ req. idle) }

    IsThin-request_certificate : IsThin (handle_request_certificate H.binder (service W))
    unfolding handle_request_certificate serve
    IsThin-request_certificate = record {
      step = λ r log.
          respond-Step _ _ _ _ log (λ req. served (request req.connection req.pkcs10_request));
    }

    IsThin-check_order : IsThin (handle_check_order H.binder (service W))
    unfolding handle_check_order serve
    IsThin-check_order = record {
      step = λ r log. respond-Step _ _ _ _ log (λ req. served (order req.connection req.id));
    }

    IsThin-check_certificate : IsThin (handle_check_certificate H.binder (service W))
    unfolding handle_check_certificate serve
    IsThin-check_certificate = record {
      step = λ r log. respond-Step _ _ _ _ log (λ req. served (certificate req.connection req.id));
    }

    IsThin-import_certificates : IsThin (handle_import_certificates H.binder (service W))
    unfolding handle_import_certificates serve
    IsThin-import_certificates = record { step = λ r log. respond-Step _ _ _ _ log (λ req. idle) }

    IsThin-revoke_certificate : IsThin (handle_revoke_certificate H.binder (service W))
    unfolding handle_revoke_certificate serve
    IsThin-revoke_certificate = record {
      step = λ r log.
          respond-Step _ _ _ _ log
            (λ req. served (revoke req.connection req.certificate_revocation_data req.reason));
    }

    abbrev AllThin : List (Text × Handler) → Type 0
    AllThin [] = Unit
    AllThin ((p, h) ∷ routes) = IsThin h × AllThin routes

    v1_routes-AllThin : AllThin (v1_routes H (service W))
    unfolding v1_routes
    v1_routes-AllThin = (
      IsThin-test_connection,
      (
        IsThin-get_options,
        (
          IsThin-validate_product,
          (
            IsThin-request_certificate,
            (
              IsThin-check_order,
              (
                IsThin-check_certificate,
                (IsThin-import_certificates, (IsThin-revoke_certificate, tt)),
              ),
            ),
          ),
        ),
      ),
    )

    go_on-Step :
        (next : Handler) (r : HttpRequest) (body : Result Text) (log : List Event)
        → IsThin next
        → Step log (go_on H next r body log).1
    go_on-Step next r (err e) log t = idle
    go_on-Step next r (ok body) log t = t.step (with_body body r) log

    through-Step :
        (key : Option Text) (next : Handler) (r : HttpRequest) (log : List Event)
        → IsThin next
        → Step log (through H key next r log).1
    unfolding decrypting
    through-Step none next r log t = t.step r log
    through-Step (some key) next r log t = go_on-Step next r (decrypted H key r) log t

    routed-Step :
        (key : Option Text) (routes : List (Text × Handler)) (r : HttpRequest) (log : List Event)
        → AllThin routes
        → Step log (routed H key routes r log).1
    unfolding routed
    routed-Step key [] r log t = idle
    routed-Step key ((p, handler) ∷ routes) r log (t, ts) = elim (Bool-cases (text_eq p r.path)) [
      | inl here ↦ rw here (through-Step key handler r log t)
      | inr there ↦ rw there (routed-Step key routes r log ts)
    ]

    connector-Step : (r : HttpRequest) (log : List Event) → Step log (connector W H r log).1
    unfolding connector server
    connector-Step r log = elim (Bool-cases (is_health_check r)) [
      | inl health ↦ rw health idle
      | inr other ↦ elim (Bool-cases (text_eq r.method (text "POST"))) [
        | inl post ↦
            rw (other, post)
              (routed-Step (encryption_key H) (v1_routes H (service W)) r log v1_routes-AllThin)
        | inr not_post ↦ rw (other, not_post) idle
      ]
    ]

    -- Whatever is requested, the effects of HTTP traffic on the connector are those of a sequence of
    -- service operations, at most one for each request.
    pub traffic-serve_all :
        (rs : List HttpRequest) (log : List Event)
        → (hs : List Webhook) × (length hs ≤ length rs) × (traffic W H rs log ≡ serve_all W hs log)
    unfolding traffic serve_all
    traffic-serve_all [] log = ([], omega arith, refl)
    traffic-serve_all (r ∷ rs) log =
        let (hs, few, same) = traffic-serve_all rs (connector W H r log).1 in
        Step-serve_all log (connector W H r log).1 rs (traffic W H rs (connector W H r log).1) hs
          few same (connector-Step r log)
