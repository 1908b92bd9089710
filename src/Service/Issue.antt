-- ===== src/Service/Issue.antt =====
-- `RequestCertificate` and `ensureStandingRecords` of internal/app/service/certificate.go.
pub mod Published
use cm_saas_letsencrypt_ca_c.Base.{
  Bool, true, false, not, List, [], ◌∷◌, ◌++◌, Text, text, is_empty, if◌then◌else◌, text_eq,
}
use cm_saas_letsencrypt_ca_c.Errors.{Err, fail, Result, ok, err}
use cm_saas_letsencrypt_ca_c.Record.{Params, Record, generate}
use cm_saas_letsencrypt_ca_c.Acme.Outside.{Outside, Event, ensure}
use cm_saas_letsencrypt_ca_c.Acme.Act.{Act, pure, raise, lift, gets, in_context, ◌>>=◌, ◌>>◌}
use cm_saas_letsencrypt_ca_c.Acme.Account.{require}
use cm_saas_letsencrypt_ca_c.Acme.Order.{new_order, finalize}
use cm_saas_letsencrypt_ca_c.Acme.Persist.{PollConfig, default_poll, resolve_authorization}
use cm_saas_letsencrypt_ca_c.Domain.{Connection, OrderDetails, OrderStatus}
use cm_saas_letsencrypt_ca_c.Service.{
  Platform, issuer_of, is_auto_mode, ensure_account, new_publisher, call_provider, with_client,
}
use cm_saas_letsencrypt_ca_c.Service.Certs.{parse_csr}

abbrev pub plain_params : Text → Text → Text → Params
plain_params domain issuer uri = record {
  domain = domain;
  issuer_domain = issuer;
  account_uri = uri;
  wildcard = false;
  persist_until = 0;
}

module _ (W : Platform) where
  -- The loop of `ensureStandingRecords` over the identifiers.
  unfoldable pub ensure_all : Text → Text → Text → List Text → Act (Unit {0})
  ensure_all zone issuer uri [] = pure tt
  ensure_all zone issuer uri (name ∷ names) = do
    rec ← lift (generate (plain_params name issuer uri))
    in_context (text "publish standing record for " ++ name)
        (call_provider W (ensure zone rec.fqdn rec.value))
    ensure_all zone issuer uri names

  unfoldable pub ensure_standing_records : Connection → List Text → Act (Unit {0})
  ensure_standing_records conn names = do
    lift (
        require (not (is_empty conn.configuration.hosted_zone_id))
          (fail (text "auto mode requires a DNS hosted zone ID")))
    lift (new_publisher W conn)
    uri ← gets (λ s. s.client.account_url)
    ensure_all conn.configuration.hosted_zone_id (issuer_of conn) uri names

  -- The loop over the order's authorizations.
  unfoldable pub resolve_all : List Text → PollConfig → Act (Unit {0})
  resolve_all [] poll = pure tt
  resolve_all (url ∷ urls) poll = do resolve_authorization W.outside url poll; resolve_all urls poll

  abbrev pub publish_if_auto : Connection → List Text → Act (Unit {0})
  publish_if_auto conn names =
      if is_auto_mode conn then ensure_standing_records conn names else pure tt

  -- The part of the operation behind the client.
  unfoldable pub issue : Connection → Text → Act OrderDetails
  issue conn csr = do
    in_context (text "register ACME account") (ensure_account W conn)
    (der, names) ← lift (parse_csr W csr)
    lift (require (not (is_empty names)) (fail (text "CSR contains no DNS names to order")))
    publish_if_auto conn names
    order ← new_order W.outside names
    resolve_all order.authorizations default_poll
    _ ← finalize W.outside order.finalize der
    pure (record {
      id = order.url;
      status = OrderStatus.processing;
      certificate_id = [];
      error_message = [];
    })

  -- `RequestCertificate`. The certificate details are always nil.
  unfoldable pub request_certificate :
      Connection → Text → List Event → Result OrderDetails × List Event
  request_certificate conn csr = with_client W conn (issue conn csr)
