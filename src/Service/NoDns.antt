-- ===== src/Service/NoDns.antt =====
-- Which webhooks call the DNS provider.
use cm_saas_letsencrypt_ca_c.Base.{
  ℕ, ◌≡◌, refl, false, List, [], ◌∷◌, Text, is_empty, Bool-cases, inl, inr,
}
use cm_saas_letsencrypt_ca_c.Errors.{Result, ok, err}
use cm_saas_letsencrypt_ca_c.Acme.Types.{Client}
use cm_saas_letsencrypt_ca_c.Acme.Outside.{Event, DnsCall, answered, unanswered, slept, dns}
use cm_saas_letsencrypt_ca_c.Acme.Act.{Session, Act}
use cm_saas_letsencrypt_ca_c.Acme.Act.Keeps.{Keeps, Keeps-pure}
use cm_saas_letsencrypt_ca_c.Acme.Engine.{IsKept}
use cm_saas_letsencrypt_ca_c.Acme.Engine.Log.{IsClosed, OnLog, engine-IsKept}
use cm_saas_letsencrypt_ca_c.Domain.{Connection, CertificateRevocationData}
use cm_saas_letsencrypt_ca_c.Service.{Platform, is_auto_mode, build_client, run_with, with_client}
use cm_saas_letsencrypt_ca_c.Service.Issue.{publish_if_auto, issue, request_certificate}
use cm_saas_letsencrypt_ca_c.Service.Check.{
  ask_order, check_order, ask_certificate, check_certificate,
}
use cm_saas_letsencrypt_ca_c.Service.Revoke.{ask_revocation, revoke_decoded, revoke_certificate}
use cm_saas_letsencrypt_ca_c.Service.Certs.{decode_cert_to_der}
use cm_saas_letsencrypt_ca_c.Service.TestConnection.{test, test_connection}
use cm_saas_letsencrypt_ca_c.Service.Kept.{
  issue-Keeps, ask_order-Keeps, ask_certificate-Keeps, ask_revocation-Keeps, test-Keeps,
  test_branch-Keeps_manual,
}

-- The calls of the DNS provider in a trace, the newest first.
abbrev pub dns_calls : List Event → List DnsCall
dns_calls [] = []
dns_calls (answered req r ∷ log) = dns_calls log
dns_calls (unanswered req ∷ log) = dns_calls log
dns_calls (slept n ∷ log) = dns_calls log
dns_calls (dns call ∷ log) = call ∷ dns_calls log

abbrev pub Called : List DnsCall → List Event → Type 0
Called calls log = dns_calls log ≡ calls

pub Called-IsClosed : (calls : List DnsCall) → IsClosed (Called calls)
Called-IsClosed calls = record {
  on_answer = λ log req r h. h;
  on_silence = λ log req h. h;
  on_pause = λ log n h. h;
}

run_with-log :
    (Q : List Event → Type 0) {A : Type 0} (c : Result Client) (m : Act A)
    → Keeps (OnLog Q) m
    → (log : List Event) → Q log
    → Q (run_with c m log).1
run_with-log Q (err e) m k log h = h
run_with-log Q (ok client) m k log h = k.keep (record { client = client; log = log }) h

-- A webhook keeps of the trace what its operation keeps.
pub with_client-log :
    (W : Platform) (Q : List Event → Type 0) {A : Type 0} (conn : Connection) (m : Act A)
    → Keeps (OnLog Q) m
    → (log : List Event) → Q log
    → Q (with_client W conn m log).1
unfolding with_client
with_client-log W Q conn m k log h = run_with-log Q (build_client W conn) m k log h

module _ (W : Platform) where
  engine : (calls : List DnsCall) → IsKept W.outside (OnLog (Called calls))
  engine calls = engine-IsKept W.outside (Called-IsClosed calls)

  no_publisher :
      (conn : Connection)
      → is_auto_mode conn ≡ false
      → {P : Session → Type 0} (names : List Text) → Keeps P (publish_if_auto W conn names)
  no_publisher conn manual names = rw manual (Keeps-pure tt)

  -- Without a DNS provider in the connection, a request for a certificate makes no call of a
  -- provider, whether it succeeds or fails and however the CA answers.
  pub manual_request_no_dns :
      (conn : Connection) (csr : Text) (log : List Event)
      → is_auto_mode conn ≡ false
      → dns_calls (request_certificate W conn csr log).1 ≡ dns_calls log
  unfolding request_certificate
  manual_request_no_dns conn csr log manual =
      with_client-log W (Called (dns_calls log)) conn (issue W conn csr)
        (issue-Keeps W (engine (dns_calls log)) conn csr (no_publisher conn manual)) log refl

  -- Nor does a connection test.
  pub manual_test_no_dns :
      (conn : Connection) (log : List Event)
      → is_auto_mode conn ≡ false
      → dns_calls (test_connection W conn log).1 ≡ dns_calls log
  unfolding test_connection
  manual_test_no_dns conn log manual =
      with_client-log W (Called (dns_calls log)) conn (test W conn)
        (test-Keeps W (engine (dns_calls log)) conn
          λ uri. test_branch-Keeps_manual W (engine (dns_calls log)) conn uri manual)
        log refl

  revoke_decoded_no_dns :
      (conn : Connection) (der : Result Text) (reason : ℕ) (log : List Event)
      → dns_calls (revoke_decoded W conn der reason log).1 ≡ dns_calls log
  revoke_decoded_no_dns conn (err e) reason log = refl
  revoke_decoded_no_dns conn (ok der) reason log =
      with_client-log W (Called (dns_calls log)) conn (ask_revocation W conn der reason)
        (ask_revocation-Keeps W (engine (dns_calls log)) conn der reason) log refl

  revoke_no_dns :
      (conn : Connection) (given : CertificateRevocationData) (reason : ℕ) (log : List Event)
      → dns_calls (revoke_certificate W conn given reason log).1 ≡ dns_calls log
  unfolding revoke_certificate
  revoke_no_dns conn given reason log = elim (Bool-cases (is_empty given.certificate_content)) [
    | inl y ↦ rw y
    | inr n ↦
        rw n
          (revoke_decoded_no_dns conn (decode_cert_to_der W given.certificate_content) reason log)
  ]

  -- Checking an order, fetching a certificate and revoking one make no call of a DNS provider, in
  -- either mode.
  pub other_webhooks_no_dns :
      (conn : Connection) (id : Text) (given : CertificateRevocationData) (reason : ℕ)
      (log : List Event)
      → (dns_calls (check_order W conn id log).1 ≡ dns_calls log)
        × (dns_calls (check_certificate W conn id log).1 ≡ dns_calls log)
        × (dns_calls (revoke_certificate W conn given reason log).1 ≡ dns_calls log)
  unfolding check_order check_certificate
  other_webhooks_no_dns conn id given reason log = (
    with_client-log W (Called (dns_calls log)) conn (ask_order W conn id)
        (ask_order-Keeps W (engine (dns_calls log)) conn id) log refl,
    with_client-log W (Called (dns_calls log)) conn (ask_certificate W conn id)
        (ask_certificate-Keeps W (engine (dns_calls log)) conn id) log refl,
    revoke_no_dns conn given reason log,
  )
