-- ===== src/Service/AutoMode.antt =====
-- `RequestCertificate` in auto mode: what it does to the DNS provider.
use cm_saas_letsencrypt_ca_c.Acme.Act.Leads.{
  Anything, Leads, Leads-after, Leads-pure, Leads-lift_by, Leads-bind,
}
use cm_saas_letsencrypt_ca_c.Base.{◌≡◌, refl, ap, ◌∙◌, true, List, [], ◌∷◌, Text}
use cm_saas_letsencrypt_ca_c.Errors.{ok}
use cm_saas_letsencrypt_ca_c.Acme.Outside.{Event, DnsCall, dns}
use cm_saas_letsencrypt_ca_c.Acme.Act.{Session, Act}
use cm_saas_letsencrypt_ca_c.Acme.Act.Keeps.{Keeps, Keeps-in_context}
use cm_saas_letsencrypt_ca_c.Acme.Persist.{default_poll}
use cm_saas_letsencrypt_ca_c.Acme.Engine
use cm_saas_letsencrypt_ca_c.Acme.Engine.{IsKept}
use cm_saas_letsencrypt_ca_c.Acme.Engine.Log.{OnLog, engine-IsKept}
use cm_saas_letsencrypt_ca_c.Acme.Engine.Answers.{Keeps-before}
use cm_saas_letsencrypt_ca_c.Domain.{Connection, OrderDetails}
use cm_saas_letsencrypt_ca_c.Service.{Platform, issuer_of, is_auto_mode, build_client, with_client}
use cm_saas_letsencrypt_ca_c.Service.Certs.{parse_csr}
use cm_saas_letsencrypt_ca_c.Service.Issue.{publish_if_auto, issue, request_certificate}
use cm_saas_letsencrypt_ca_c.Service.Issue.Published.{publishing, published, standing_records-log}
use cm_saas_letsencrypt_ca_c.Service.Issued.{run_with-result}
use cm_saas_letsencrypt_ca_c.Service.Kept.{ensure_account-Keeps, resolve_all-Keeps}
use cm_saas_letsencrypt_ca_c.Service.NoDns.{dns_calls, Called, Called-IsClosed}

-- The calls that publish the names, behind those before; the newest call comes first.
abbrev pub calls_for : Text → Text → Text → List Text → List DnsCall → List DnsCall
calls_for zone issuer uri [] calls = calls
calls_for zone issuer uri (name ∷ names) calls =
    calls_for zone issuer uri names (publishing zone issuer uri name ∷ calls)

dns_calls-published :
    (zone issuer uri : Text) (names : List Text) (log : List Event)
    → dns_calls (published zone issuer uri names log)
      ≡ calls_for zone issuer uri names (dns_calls log)
dns_calls-published zone issuer uri [] log = refl
dns_calls-published zone issuer uri (name ∷ names) log =
    dns_calls-published zone issuer uri names (dns (publishing zone issuer uri name) ∷ log)

-- A condition that does not speak of the state.
given_result :
    {A : Type 0} {E : Type 0} {P : Session → Type 0} {Q : A → Session → Type 0} {m : Act A}
    → (E → Leads P Q Anything m)
    → Leads (λ s. P s × E) Q Anything m
given_result l = record { lead = λ s h. (l h.1).lead s h.0 }

-- The calls of a request: one for each name of the CSR.
pub record PublishedAll (W : Platform) (conn : Connection) (csr : Text) (calls : List DnsCall)
    (log : List Event) : Type 0 where
  pub der : Text
  pub names : List Text
  pub uri : Text
  pub parsed : parse_csr W csr ≡ ok (der, names)
  pub called :
      dns_calls log ≡ calls_for conn.configuration.hosted_zone_id (issuer_of conn) uri names calls

module _ (W : Platform) (conn : Connection) (calls : List DnsCall) where
  engine : (now : List DnsCall) → IsKept W.outside (OnLog (Called now))
  engine now = engine-IsKept W.outside (Called-IsClosed now)

  abbrev Behind : List Text → Session → Type 0
  Behind names s =
      (uri : Text) × (dns_calls s.log
        ≡ calls_for conn.configuration.hosted_zone_id (issuer_of conn) uri names calls)

  publish-Behind :
      (names : List Text)
      → is_auto_mode conn ≡ true
      → Leads (OnLog (Called calls)) (λ _. Behind names) Anything (publish_if_auto W conn names)
  publish-Behind names auto = rw auto (record {
    lead = λ s h.
        let zone = conn.configuration.hosted_zone_id in
        (Leads-after _
            (λ u t e. (
              s.client.account_url,
              ap (λ (log : List Event). dns_calls log) e
                  ∙ (dns_calls-published zone (issuer_of conn) s.client.account_url names s.log
                      ∙ ap
                          (λ (now : List DnsCall).
                            calls_for zone (issuer_of conn) s.client.account_url names now)
                          h),
            ))
            (standing_records-log W conn names s)).lead
          s refl;
  })

  kept-Behind :
      {A : Type 0} (names : List Text) (m : Act A)
      → ((now : List DnsCall) → Keeps (OnLog (Called now)) m)
      → Leads (Behind names) (λ _. Behind names) Anything m
  kept-Behind names m k = record {
    lead = λ s h. (Leads-after m (λ a t e. (h.0, e)) (Keeps-before m (k _))).lead s h.1;
  }

  issue-PublishedAll :
      (csr : Text)
      → is_auto_mode conn ≡ true
      → Leads
          (OnLog (Called calls))
          (λ _ s. PublishedAll W conn csr calls s.log)
          Anything
          (issue W conn csr)
  unfolding issue
  issue-PublishedAll csr auto =
      Leads-bind _ _
        (Keeps-before _ (Keeps-in_context _ _ (ensure_account-Keeps W (engine calls) conn)))
        λ _.
          Leads-bind {Q = λ request s. OnLog (Called calls) s × (parse_csr W csr ≡ ok request)} _ _
            (Leads-lift_by _ (λ request e s h. (h, e)) (λ s h. tt))
            λ request.
              Leads-bind {Q = λ _ s. OnLog (Called calls) s × (parse_csr W csr ≡ ok request)} _ _
                (Leads-lift_by _ (λ u e s h. h) (λ s h. tt))
                λ _. given_result λ parsed.
                  Leads-after {Q = λ _. Behind request.1} _
                    (λ d t b. record {
                      der = request.0;
                      names = request.1;
                      uri = b.0;
                      parsed = parsed;
                      called = b.1;
                    })
                    (Leads-bind _ _ (publish-Behind request.1 auto) λ _.
                      Leads-bind _ _
                        (kept-Behind request.1 _
                          (λ now. Engine.new_order-Keeps W.outside (engine now) request.1))
                        λ order.
                          Leads-bind _ _
                            (kept-Behind request.1 _ (λ now.
                              resolve_all-Keeps W (engine now) order.authorizations default_poll))
                            λ _.
                              Leads-bind _ _
                                (kept-Behind request.1 _ (λ now.
                                  Engine.finalize-Keeps W.outside (engine now) order.finalize
                                    request.0))
                                λ _. Leads-pure _ (λ s h. h))

-- In auto mode a request that succeeds has made exactly one call of the DNS provider for each name of
-- the CSR, in their order and in the configured zone, with the name's standing record for the
-- connection's issuer and one account, and no other call.
pub request_certificate-PublishedAll :
    (W : Platform) (conn : Connection) (csr : Text) (log : List Event) (d : OrderDetails)
    → is_auto_mode conn ≡ true
    → (request_certificate W conn csr log).0 ≡ ok d
    → PublishedAll W conn csr (dns_calls log) (request_certificate W conn csr log).1
unfolding request_certificate with_client
request_certificate-PublishedAll W conn csr log d auto h =
    run_with-result W (Called (dns_calls log)) (λ _ l. PublishedAll W conn csr (dns_calls log) l)
      (build_client W conn) (issue W conn csr) log d
      (issue-PublishedAll W conn (dns_calls log) csr auto) refl h
