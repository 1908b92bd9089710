-- ===== src/Service.antt =====
-- internal/app/service: the webhook operations on top of the ACME engine. This file holds the
-- library calls, the client of a connection and the publisher (internal/app/service/service.go).
pub mod Certs
pub mod Issue
pub mod Check
pub mod Revoke
pub mod TestConnection
pub mod Options
pub mod Kept
pub mod NoDns
pub mod Nonces
pub mod Issued
pub mod Reported
pub mod AutoMode
pub mod Opened
pub mod Details
use cm_saas_letsencrypt_ca_c.Base.{
  ℕ, Bool, true, false, ◌&&◌, ◌||◌, not, Option, none, some, List, [], ◌∷◌, ◌++◌, Text, text,
  text_eq, lower, trim_space, is_empty, if◌then◌else◌,
}
use cm_saas_letsencrypt_ca_c.Errors.{Err, fail, wrap, Result, ok, err, wrap_result, ◌>>=◌}
use cm_saas_letsencrypt_ca_c.Record.{quoted}
use cm_saas_letsencrypt_ca_c.Acme.Types.{AccountKey, Client}
use cm_saas_letsencrypt_ca_c.Acme.Outside.{Outside, Event, DnsCall, dns}
use cm_saas_letsencrypt_ca_c.Acme.Act.{Session, Act, lift, gets, emit}
use cm_saas_letsencrypt_ca_c.Acme.Act
use cm_saas_letsencrypt_ca_c.Acme.Account.{register}
use cm_saas_letsencrypt_ca_c.Acme.Pem.{Block, parse_account_key, KeyReader}
use cm_saas_letsencrypt_ca_c.Domain.{Connection}

-- What the service calls and does not implement, beside the CA: the readers of keys, requests and
-- certificates, DNS lookups, and the DNS provider behind the interface `publisher.Publisher`.
pub record Platform : Type 0 where
  pub outside : Outside
  pub keys : KeyReader
  -- `base64.StdEncoding`
  pub b64_std : Text → Text
  pub b64_std_decode : Text → Result Text
  -- `x509.ParseCertificateRequest`: the DNS names and the common name
  pub parse_request : Text → Result (List Text × Text)
  -- `x509.ParseCertificate`: the raw DER
  pub parse_certificate : Text → Result Text
  pub sha1 : Text → Text
  -- `net.DefaultResolver.LookupTXT`, `none` for an error
  pub lookup_txt : List Event → Text → Option (List Text)
  -- `config.LoadDefaultConfig`, with the static keys if they are given
  pub load_aws : Option (Text × Text) → Result (Unit {0})
  -- `Publisher.EnsureRecord` and `Publisher.Validate`
  pub provider : List Event → DnsCall → Result (Unit {0})

abbrev pub default_directory_url : Text
default_directory_url = text "https://acme-staging-v02.api.letsencrypt.org/directory"

abbrev pub default_issuer_domain : Text
default_issuer_domain = text "letsencrypt.org"

abbrev pub or_default : Text → Text → Text
or_default u d = if is_empty u then d else u

unfoldable pub directory_url_of : Connection → Text
directory_url_of conn =
    or_default (trim_space conn.configuration.directory_url) default_directory_url

unfoldable pub issuer_of : Connection → Text
issuer_of conn = or_default (trim_space conn.configuration.issuer_domain) default_issuer_domain

abbrev pub provider_of : Connection → Text
provider_of conn = lower (trim_space conn.configuration.dns_provider)

-- Whether a DNS provider is selected. The field `dcv_mode` plays no part.
unfoldable pub is_auto_mode : Connection → Bool
is_auto_mode conn =
    not (is_empty (provider_of conn)) && not (text_eq (provider_of conn) (text "none"))

-- A client that has neither registered nor asked for anything.
abbrev pub new_client : Connection → AccountKey → Client
new_client conn key = record {
  directory_url = directory_url_of conn;
  key = key;
  issuer_domain = issuer_of conn;
  account_url = [];
  dir = none;
  nonce = [];
}

abbrev pub run_with : {A : Type 0} → Result Client → Act A → List Event → Result A × List Event
run_with (err e) m log = (err e, log)
run_with (ok client) m log = let (r, s) = m (record { client = client; log = log }) in (r, s.log)

module _ (W : Platform) where
  unfoldable pub build_client : Connection → Result Client
  build_client conn =
      if is_empty (trim_space conn.credentials.account_key)
      then err (fail (text "ACME account key is required — configure it in the connection"))
      else do
        key ←
            wrap_result (text "invalid ACME account key")
              (parse_account_key W.keys conn.credentials.account_key)
        ok (new_client conn key)

  abbrev pub contacts_of : Text → List Text
  contacts_of [] = []
  contacts_of (c ∷ s) = (c ∷ s) ∷ []

  unfoldable pub ensure_account : Connection → Act (Unit {0})
  ensure_account conn = register W.outside (contacts_of (trim_space conn.configuration.contact))

  abbrev pub static_keys : Connection → Option (Text × Text)
  static_keys conn =
      if is_empty conn.credentials.access_key_id
      then none
      else some (conn.credentials.access_key_id, conn.credentials.secret_access_key)

  -- Whether the provider is one that is implemented.
  abbrev pub is_supported : Text → Bool
  is_supported p = is_empty p || text_eq p (text "route53") || text_eq p (text "aws_route_53")

  unfoldable pub new_publisher : Connection → Result (Unit {0})
  new_publisher conn =
      if is_supported (provider_of conn)
      then W.load_aws (static_keys conn)
      else err (
          fail (
            text "unsupported auto-mode DNS provider "
            ++ (quoted conn.configuration.dns_provider ++ text " (only route53 is implemented)")))

  -- A call of the publisher, with its trace.
  unfoldable pub call_provider : DnsCall → Act (Unit {0})
  call_provider call =
      Act.◌>>=◌ (gets (λ s. s.log))
        λ log. Act.◌>>=◌ (emit (dns call)) λ _. lift (W.provider log call)

  -- A webhook: a fresh client for the connection, then the operation.
  unfoldable pub with_client :
      {A : Type 0} → Connection → Act A → List Event → Result A × List Event
  with_client conn m log = run_with (build_client conn) m log
