-- ===== src/Handlers/Server/Kinds.antt =====
-- internal/app/letsencrypt: the status and the kind of body of what each handler responds.
use cm_saas_letsencrypt_ca_c.Base.{◌≡◌, refl, ◌⊎◌, inl, inr, List, [], ◌∷◌, Text, text}
use cm_saas_letsencrypt_ca_c.Errors.{fail, wrap, acme, outside, panicked, spinning, Result, ok, err}
use cm_saas_letsencrypt_ca_c.Acme.Outside.{Event}
use cm_saas_letsencrypt_ca_c.Errors.Doing.{answer}
use cm_saas_letsencrypt_ca_c.Handlers.{
  HttpRequest, Reply, plain, tested, options, validated, requested, order, certificate, imported,
  revoked, Response, Work, WebhookService, with_bound, respond, handle_test_connection,
  handle_get_options, handle_validate_product, handle_request_certificate, handle_check_order,
  handle_check_certificate, handle_import_certificates, handle_revoke_certificate,
}
use cm_saas_letsencrypt_ca_c.Handlers.Server.{Host, Handler}

pub data Kind : Type 0 where
  message test_result option_list error_list issuance order_state certificate_state import_page
        revocation :
      Kind

abbrev pub kind_of : Reply → Kind
kind_of (plain m) = message
kind_of (tested r) = test_result
kind_of (options r) = option_list
kind_of (validated r) = error_list
kind_of (requested r) = issuance
kind_of (order r) = order_state
kind_of (certificate r) = certificate_state
kind_of (imported r) = import_page
kind_of (revoked r) = revocation

-- What the certificate manager expects of each path.
abbrev pub webhook_kinds : List (Text × Kind)
webhook_kinds =
    (text "/v1/testconnection", test_result)
    ∷ (text "/v1/getoptions", option_list)
    ∷ (text "/v1/validateproduct", error_list)
    ∷ (text "/v1/requestcertificate", issuance)
    ∷ (text "/v1/checkorder", order_state)
    ∷ (text "/v1/checkcertificate", certificate_state)
    ∷ (text "/v1/importcertificates", import_page)
    ∷ (text "/v1/revokecertificate", revocation)
    ∷ []

-- The status and the reply are those of a webhook: 200 with a reply of the kind, or 400 with a
-- message.
abbrev pub Fits : Kind → Response → Type 0
Fits k resp =
    ((resp.status ≡ 200) × (kind_of resp.reply ≡ k))
    ⊎ ((resp.status ≡ 400) × (kind_of resp.reply ≡ message))

-- Each response of a handler fits its kind.
pub record Gives (k : Kind) (handler : Handler) : Type 0 where
  pub fits :
      (r : HttpRequest) (log : List Event) (resp : Response)
      → (handler r log).0 ≡ ok resp
      → Fits k resp

pub ok-Fits : {k : Kind} {a : Response} (resp : Response) → Fits k a → ok a ≡ ok resp → Fits k resp
ok-Fits {a = a} resp f h = let e : a ≡ resp = cc in rw (← e) f

module _ {A : Type 0} (k : Kind) (bad : Text → Response) (good : A → Response)
    (bad_fits : (m : Text) → Fits k (bad m)) (good_fits : (a : A) → Fits k (good a)) where
  pub answer-Fits : (r : Result A) (resp : Response) → answer bad good r ≡ ok resp → Fits k resp
  unfolding answer
  answer-Fits (ok a) resp h = ok-Fits resp (good_fits a) h
  answer-Fits (err panicked) resp h = cc
  answer-Fits (err spinning) resp h = cc
  answer-Fits (err (fail m)) resp h = ok-Fits resp (bad_fits _) h
  answer-Fits (err (wrap c e)) resp h = ok-Fits resp (bad_fits _) h
  answer-Fits (err (acme p)) resp h = ok-Fits resp (bad_fits _) h
  answer-Fits (err (outside m)) resp h = ok-Fits resp (bad_fits _) h

  pub with_bound-Fits :
      {B : Type 0} (bound : Result B) (call : B → Work A) (log : List Event) (resp : Response)
      → (with_bound bound (λ req. respond bad good (call req)) log).0 ≡ ok resp
      → Fits k resp
  unfolding with_bound respond
  with_bound-Fits (err e) call log resp h = ok-Fits resp (inr (refl, refl)) h
  with_bound-Fits (ok b) call log resp h = answer-Fits (call b log).0 resp h

module _ (H : Host) (S : WebhookService) where
  pub Gives-test_connection : Gives test_result (handle_test_connection H.binder S)
  unfolding handle_test_connection
  Gives-test_connection = record {
    fits = λ r. with_bound-Fits test_result _ _ (λ m. inl (refl, refl)) (λ a. inl (refl, refl)) _ _;
  }

  -- The other handlers answer an error of the service with the status 400.
  pub Gives-get_options : Gives option_list (handle_get_options H.binder S)
  unfolding handle_get_options
  Gives-get_options = record {
    fits = λ r. with_bound-Fits option_list _ _ (λ m. inr (refl, refl)) (λ a. inl (refl, refl)) _ _;
  }

  pub Gives-validate_product : Gives error_list (handle_validate_product H.binder S)
  unfolding handle_validate_product
  Gives-validate_product = record {
    fits = λ r. with_bound-Fits error_list _ _ (λ m. inr (refl, refl)) (λ a. inl (refl, refl)) _ _;
  }

  pub Gives-request_certificate : Gives issuance (handle_request_certificate H.binder S)
  unfolding handle_request_certificate
  Gives-request_certificate = record {
    fits = λ r. with_bound-Fits issuance _ _ (λ m. inr (refl, refl)) (λ a. inl (refl, refl)) _ _;
  }

  pub Gives-check_order : Gives order_state (handle_check_order H.binder S)
  unfolding handle_check_order
  Gives-check_order = record {
    fits = λ r. with_bound-Fits order_state _ _ (λ m. inr (refl, refl)) (λ a. inl (refl, refl)) _ _;
  }

  pub Gives-check_certificate : Gives certificate_state (handle_check_certificate H.binder S)
  unfolding handle_check_certificate
  Gives-check_certificate = record {
    fits = λ r.
        with_bound-Fits certificate_state _ _ (λ m. inr (refl, refl)) (λ a. inl (refl, refl)) _ _;
  }

  pub Gives-import_certificates : Gives import_page (handle_import_certificates H.binder S)
  unfolding handle_import_certificates
  Gives-import_certificates = record {
    fits = λ r. with_bound-Fits import_page _ _ (λ m. inr (refl, refl)) (λ a. inl (refl, refl)) _ _;
  }

  pub Gives-revoke_certificate : Gives revocation (handle_revoke_certificate H.binder S)
  unfolding handle_revoke_certificate
  Gives-revoke_certificate = record {
    fits = λ r. with_bound-Fits revocation _ _ (λ m. inr (refl, refl)) (λ a. inl (refl, refl)) _ _;
  }
