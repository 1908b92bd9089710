-- ===== src/Service/Issue/Published.antt =====
-- `ensureStandingRecords`: the records that auto mode publishes.
use mathlib.Core.Path.{subst}
use cm_saas_letsencrypt_ca_c.Acme.Act.Leads.{
  Anything, Leads, Leads-pure, Leads-lift_by, Leads-gets, Leads-bind, Leads-in_context,
  Leads_result, Outcome,
}
use cm_saas_letsencrypt_ca_c.Base.{◌≡◌, refl, sym, ap, List, [], ◌∷◌, Text}
use cm_saas_letsencrypt_ca_c.Errors.{ok}
use cm_saas_letsencrypt_ca_c.Record.{Record}
use cm_saas_letsencrypt_ca_c.Record.Laws.{record_of, generate-ok}
use cm_saas_letsencrypt_ca_c.Acme.Outside.{Event, DnsCall, ensure, dns}
use cm_saas_letsencrypt_ca_c.Acme.Act.{Session, emit}
use cm_saas_letsencrypt_ca_c.Service.{Platform, issuer_of, call_provider}
use cm_saas_letsencrypt_ca_c.Service.Issue.{plain_params, ensure_all, ensure_standing_records}
use cm_saas_letsencrypt_ca_c.Domain.{Connection}

-- The call that publishes the record of a name.
abbrev pub publishing : Text → Text → Text → Text → DnsCall
publishing zone issuer uri name =
    let rec = record_of (plain_params name issuer uri) in ensure zone rec.fqdn rec.value

-- The trace with the records of the names published, one after the other.
abbrev pub published : Text → Text → Text → List Text → List Event → List Event
published zone issuer uri [] log = log
published zone issuer uri (name ∷ names) log =
    published zone issuer uri names (dns (publishing zone issuer uri name) ∷ log)

module _ (W : Platform) where
  call_provider-log :
      (call : DnsCall) (log : List Event)
      → Leads (λ s. s.log ≡ log) (λ _ s. s.log ≡ dns call ∷ log) Anything (call_provider W call)
  unfolding call_provider emit
  call_provider-log call log =
      Leads-bind {Q = λ _ s. s.log ≡ log} _ _ (Leads-gets _ (λ s h. h)) λ l.
        Leads-bind {Q = λ _ s. s.log ≡ dns call ∷ log} _ _
          (record { lead = λ s h. ap (λ (t : List Event). dns call ∷ t) h })
          λ _. Leads-lift_by _ (λ u e s h. h) (λ s h. tt)

  record_call :
      (zone issuer uri name : Text) (rec : Record) (log : List Event)
      → Leads
          (λ s. (s.log ≡ log) × (rec ≡ record_of (plain_params name issuer uri)))
          (λ _ s. s.log ≡ dns (publishing zone issuer uri name) ∷ log)
          Anything
          (call_provider W (ensure zone rec.fqdn rec.value))
  record_call zone issuer uri name rec log = record {
    lead = λ s h.
        subst
          (λ (x : Record).
            Outcome (λ _ t. t.log ≡ dns (publishing zone issuer uri name) ∷ log) Anything
              (call_provider W (ensure zone x.fqdn x.value) s).0
              (call_provider W (ensure zone x.fqdn x.value) s).1)
          (sym h.1) ((call_provider-log (publishing zone issuer uri name) log).lead s h.0);
  }

  ensure_all-log :
      (zone issuer uri : Text) (names : List Text) (log : List Event)
      → Leads
          (λ s. s.log ≡ log)
          (λ _ s. s.log ≡ published zone issuer uri names log)
          Anything
          (ensure_all W zone issuer uri names)
  unfolding ensure_all
  ensure_all-log zone issuer uri [] log = Leads-pure tt (λ s h. h)
  ensure_all-log zone issuer uri (name ∷ names) log =
      Leads-bind {Q = λ rec s. (s.log ≡ log) × (rec ≡ record_of (plain_params name issuer uri))} _ _
        (Leads-lift_by _ (λ rec e s h. (h, (generate-ok (plain_params name issuer uri) rec e).1))
          (λ s h. tt))
        λ rec.
          Leads-bind {Q = λ _ s. s.log ≡ dns (publishing zone issuer uri name) ∷ log} _ _
            (Leads-in_context _ _ (record_call zone issuer uri name rec log))
            λ _. ensure_all-log zone issuer uri names (dns (publishing zone issuer uri name) ∷ log)

  pub standing_records-log :
      (conn : Connection) (names : List Text) (s : Session)
      → Leads
          (λ t. t ≡ s)
          (λ _ t.
            t.log
            ≡ published conn.configuration.hosted_zone_id
                (issuer_of conn)
                s.client.account_url
                names
                s.log)
          Anything
          (ensure_standing_records W conn names)
  unfolding ensure_standing_records
  standing_records-log conn names s =
      Leads-bind {Q = λ _ t. t ≡ s} _ _ (Leads-lift_by _ (λ u e t h. h) (λ t h. tt)) λ _.
        Leads-bind {Q = λ _ t. t ≡ s} _ _ (Leads-lift_by _ (λ u e t h. h) (λ t h. tt)) λ _.
          Leads-bind {Q = λ uri t. (t ≡ s) × (uri ≡ s.client.account_url)} _ _
            (Leads-gets _ (λ t h. (h, ap (λ (x : Session). x.client.account_url) h)))
            λ uri. record {
              lead = λ t h.
                  subst
                    (λ u.
                      Outcome
                        (λ _ x.
                          x.log
                          ≡ published conn.configuration.hosted_zone_id (issuer_of conn)
                              s.client.account_url names s.log)
                        Anything
                        (ensure_all W conn.configuration.hosted_zone_id (issuer_of conn) u names
                          t).0
                        (ensure_all W conn.configuration.hosted_zone_id (issuer_of conn) u names
                          t).1)
                    (sym h.1)
                    ((ensure_all-log conn.configuration.hosted_zone_id (issuer_of conn)
                        s.client.account_url names s.log).lead
                      t (ap (λ (x : Session). x.log) h.0));
            }

  -- When auto mode publishes without an error, it has made exactly one call of the DNS provider for
  -- each name, in the order of the names and in the configured zone, with the standing record of that
  -- name for the issuer and the account of the client, and nothing else has happened.
  pub ensure_standing_records-published :
      (conn : Connection) (names : List Text) (s : Session)
      → (ensure_standing_records W conn names s).0 ≡ ok tt
      → (ensure_standing_records W conn names s).1.log
        ≡ published conn.configuration.hosted_zone_id
            (issuer_of conn)
            s.client.account_url
            names
            s.log
  ensure_standing_records-published conn names s h =
      Leads_result
        (λ _ t.
          t.log
          ≡ published conn.configuration.hosted_zone_id (issuer_of conn) s.client.account_url names
              s.log)
        Anything _ (standing_records-log conn names s) s tt refl h
