-- ===== src/Acme/Order.antt =====
-- internal/acme/order.go: orders, authorizations, challenges and certificates.
use cm_saas_letsencrypt_ca_c.Base.{List, [], map, none, some, Text, text}
use cm_saas_letsencrypt_ca_c.Errors.{Identifier}
use cm_saas_letsencrypt_ca_c.Acme.Types.{Order, Challenge, Authorization, identifiers, csr}
use cm_saas_letsencrypt_ca_c.Acme.Outside.{Outside}
use cm_saas_letsencrypt_ca_c.Acme.Act.{Act, pure, lift, in_context, ◌>>=◌, ◌>>◌}
use cm_saas_letsencrypt_ca_c.Acme.Client.{directory, post_signed}
use cm_saas_letsencrypt_ca_c.Acme.Account.{unexpected, require, is_ok, is_created_or_ok}

abbrev pub dns_identifier : Text → Identifier
dns_identifier name = record { kind = text "dns"; value = name }

module _ (O : Outside) where
  unfoldable pub new_order : List Text → Act Order
  new_order dns_names = do
    dir ← directory O
    body ← lift (O.payload_json (identifiers (map dns_identifier dns_names)))
    r ← in_context (text "acme: newOrder") (post_signed O dir.new_order (some body))
    lift (require (is_created_or_ok r) (unexpected (text "acme: newOrder") r))
    o ← in_context (text "acme: parse order") (lift (O.read_order r.body))
    pure (record o { url = r.location })

  unfoldable pub get_order : Text → Act Order
  get_order url = do
    r ← in_context (text "acme: get order") (post_signed O url none)
    lift (require (is_ok r) (unexpected (text "acme: get order") r))
    o ← in_context (text "acme: parse order") (lift (O.read_order r.body))
    pure (record o { url = url })

  unfoldable pub get_authorization : Text → Act Authorization
  get_authorization url = do
    r ← in_context (text "acme: get authorization") (post_signed O url none)
    lift (require (is_ok r) (unexpected (text "acme: get authorization") r))
    in_context (text "acme: parse authorization") (lift (O.read_authorization r.body))

  unfoldable pub accept_challenge : Text → Act Challenge
  accept_challenge url = do
    r ← in_context (text "acme: accept challenge") (post_signed O url (some (text "{}")))
    lift (require (is_ok r) (unexpected (text "acme: accept challenge") r))
    in_context (text "acme: parse challenge") (lift (O.read_challenge r.body))

  -- The URL of an order is no part of its JSON, so it stays empty here.
  unfoldable pub finalize : Text → Text → Act Order
  finalize url csr_der = do
    body ← lift (O.payload_json (csr (O.b64 csr_der)))
    r ← in_context (text "acme: finalize") (post_signed O url (some body))
    lift (require (is_ok r) (unexpected (text "acme: finalize") r))
    o ← in_context (text "acme: parse finalized order") (lift (O.read_order r.body))
    pure (record o { url = [] })

  unfoldable pub get_certificate : Text → Act Text
  get_certificate url = do
    r ← in_context (text "acme: get certificate") (post_signed O url none)
    lift (require (is_ok r) (unexpected (text "acme: get certificate") r))
    pure r.body
