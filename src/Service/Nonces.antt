-- ===== src/Service/Nonces.antt =====
-- Replay nonces across webhooks: each uses a client of its own, and all share the CA.
use cm_saas_letsencrypt_ca_c.Base.{
  ℕ, ◌≡◌, refl, List, [], ◌∷◌, Text, is_empty, Bool-cases, inl, inr,
}
use cm_saas_letsencrypt_ca_c.Names.Distinct.{Distinct}
use cm_saas_letsencrypt_ca_c.Errors.{Result, ok, err}
use cm_saas_letsencrypt_ca_c.Acme.Types.{Client}
use cm_saas_letsencrypt_ca_c.Acme.Outside.{Event, DnsCall, dns}
use cm_saas_letsencrypt_ca_c.Acme.Act.{Act, emit}
use cm_saas_letsencrypt_ca_c.Acme.Act.Keeps.{Keeps, keeps_rules}
use cm_saas_letsencrypt_ca_c.Acme.Engine.Nonces.{IssuesFresh, IsSound, used}
use cm_saas_letsencrypt_ca_c.Acme.Engine.SingleUse.{engine-IsSafe}
use cm_saas_letsencrypt_ca_c.Acme.Engine.Cached.{IsSafe, IsReady-nil}
use cm_saas_letsencrypt_ca_c.Domain.{Connection, CertificateRevocationData}
use cm_saas_letsencrypt_ca_c.Service.{Platform, build_client, run_with, with_client, call_provider}
use cm_saas_letsencrypt_ca_c.Service.Issue.{request_certificate}
use cm_saas_letsencrypt_ca_c.Service.Check.{check_order, check_certificate}
use cm_saas_letsencrypt_ca_c.Service.Revoke.{revoke_decoded, revoke_certificate}
use cm_saas_letsencrypt_ca_c.Service.Certs.{decode_cert_to_der}
use cm_saas_letsencrypt_ca_c.Service.TestConnection.{test_connection}
use cm_saas_letsencrypt_ca_c.Service.Kept.{
  build_client-nonce, issue-Keeps, publish_if_auto-Keeps, ask_order-Keeps, ask_certificate-Keeps,
  ask_revocation-Keeps, test-Keeps, test_branch-Keeps,
}

-- A request to the connector.
pub data Webhook : Type 0 where
  request : Connection → Text → Webhook
  order : Connection → Text → Webhook
  certificate : Connection → Text → Webhook
  revoke : Connection → CertificateRevocationData → ℕ → Webhook
  connection_test : Connection → Webhook

module _ (W : Platform) where
  -- The trace behind one request, and behind a sequence of requests.
  unfoldable pub serve : Webhook → List Event → List Event
  serve (request conn csr) log = (request_certificate W conn csr log).1
  serve (order conn id) log = (check_order W conn id log).1
  serve (certificate conn id) log = (check_certificate W conn id log).1
  serve (revoke conn given reason) log = (revoke_certificate W conn given reason log).1
  serve (connection_test conn) log = (test_connection W conn log).1

  unfoldable pub serve_all : List Webhook → List Event → List Event
  serve_all [] log = log
  serve_all (h ∷ hs) log = serve_all hs (serve h log)

module _ (W : Platform) (fresh : IssuesFresh W.outside) where
  dns-IsSafe : (call : DnsCall) → Keeps IsSafe (emit (dns call))
  unfolding emit
  dns-IsSafe call = record {
    keep = λ s h. record {
      sound = record { once = h.sound.once; from_ca = h.sound.from_ca };
      ready = record { is_issued = h.ready.is_issued; is_unused = h.ready.is_unused };
    };
  }

  call_provider-IsSafe : (call : DnsCall) → Keeps IsSafe (call_provider W call)
  unfolding call_provider
  call_provider-IsSafe call = search (keeps_rules, dns-IsSafe) depth 10

  run_with-IsSound :
      {A : Type 0} (c : Result Client) (m : Act A)
      → ((client : Client) → c ≡ ok client → client.nonce ≡ [])
      → Keeps IsSafe m
      → (log : List Event) → IsSound log
      → IsSound (run_with c m log).1
  run_with-IsSound (err e) m new k log h = h
  run_with-IsSound (ok client) m new k log h =
      (k.keep (record { client = client; log = log })
        (record { sound = h; ready = IsReady-nil log client.nonce (new client refl) })).sound

  with_client-IsSound :
      {A : Type 0} (conn : Connection) (m : Act A)
      → Keeps IsSafe m
      → (log : List Event) → IsSound log
      → IsSound (with_client W conn m log).1
  unfolding with_client
  with_client-IsSound conn m k =
      run_with-IsSound (build_client W conn) m (build_client-nonce W conn) k

  revoke_decoded-IsSound :
      (conn : Connection) (der : Result Text) (reason : ℕ) (log : List Event)
      → IsSound log
      → IsSound (revoke_decoded W conn der reason log).1
  revoke_decoded-IsSound conn (err e) reason log h = h
  revoke_decoded-IsSound conn (ok der) reason log h =
      with_client-IsSound conn _
        (ask_revocation-Keeps W (engine-IsSafe W.outside fresh) conn der reason) log h

  revoke-IsSound :
      (conn : Connection) (given : CertificateRevocationData) (reason : ℕ) (log : List Event)
      → IsSound log
      → IsSound (revoke_certificate W conn given reason log).1
  unfolding revoke_certificate
  revoke-IsSound conn given reason log h = elim (Bool-cases (is_empty given.certificate_content)) [
    | inl y ↦ rw y h
    | inr n ↦
        rw n (
          revoke_decoded-IsSound conn (decode_cert_to_der W given.certificate_content) reason log h)
  ]

  serve-IsSound : (h : Webhook) (log : List Event) → IsSound log → IsSound (serve W h log)
  unfolding serve request_certificate check_order check_certificate test_connection
  serve-IsSound (request conn csr) log h =
      with_client-IsSound conn _
        (issue-Keeps W (engine-IsSafe W.outside fresh) conn csr
          (publish_if_auto-Keeps W (engine-IsSafe W.outside fresh) call_provider-IsSafe conn))
        log h
  serve-IsSound (order conn id) log h =
      with_client-IsSound conn _ (ask_order-Keeps W (engine-IsSafe W.outside fresh) conn id) log h
  serve-IsSound (certificate conn id) log h =
      with_client-IsSound conn _ (ask_certificate-Keeps W (engine-IsSafe W.outside fresh) conn id)
        log h
  serve-IsSound (revoke conn given reason) log h = revoke-IsSound conn given reason log h
  serve-IsSound (connection_test conn) log h =
      with_client-IsSound conn _
        (test-Keeps W (engine-IsSafe W.outside fresh) conn
          (test_branch-Keeps W (engine-IsSafe W.outside fresh) call_provider-IsSafe conn))
        log h

  serve_all-IsSound :
      (hs : List Webhook) (log : List Event) → IsSound log → IsSound (serve_all W hs log)
  unfolding serve_all
  serve_all-IsSound [] log h = h
  serve_all-IsSound (w ∷ hs) log h = serve_all-IsSound hs (serve W w log) (serve-IsSound w log h)

  -- Over any sequence of webhooks, from the first request on, no two signed requests to the CA carry
  -- the same replay nonce, if the CA never issues a nonce that it has issued before.
  pub serve_all_single_use : (hs : List Webhook) → Distinct (used (serve_all W hs []))
  serve_all_single_use hs =
      (serve_all-IsSound hs [] (record { once = tt; from_ca = λ n m. cc })).once
