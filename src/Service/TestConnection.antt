-- ===== src/Service/TestConnection.antt =====
-- `TestConnection` of internal/app/service/connection.go.
pub mod Verified
use cm_saas_letsencrypt_ca_c.Base.{
  ℕ, suc, ◌+◌, Bool, true, false, not, Option, none, some, List, [], ◌∷◌, ◌++◌, Text, text,
  is_empty, if◌then◌else◌, join, length, decimal,
}
use cm_saas_letsencrypt_ca_c.Errors.{Err, fail, Result, ok, err}
use cm_saas_letsencrypt_ca_c.Record.{Record, generate, quoted}
use cm_saas_letsencrypt_ca_c.Names.{parse_domain_list}
use cm_saas_letsencrypt_ca_c.Live.{record_live}
use cm_saas_letsencrypt_ca_c.Acme.Outside.{Event, validate}
use cm_saas_letsencrypt_ca_c.Acme.Act.{Act, pure, raise, lift, gets, in_context, ◌>>=◌, ◌>>◌}
use cm_saas_letsencrypt_ca_c.Acme.Account.{require}
use cm_saas_letsencrypt_ca_c.Domain.{Connection}
use cm_saas_letsencrypt_ca_c.Service.{
  Platform, issuer_of, is_auto_mode, ensure_account, new_publisher, call_provider, with_client,
}
use cm_saas_letsencrypt_ca_c.Service.Issue.{plain_params}

abbrev pub wanted_value : Connection → Text → Text
wanted_value conn uri = issuer_of conn ++ (text "; accounturi=" ++ uri)

module _ (W : Platform) where
  -- What the loop says of one domain: nothing if its record is live.
  abbrev pub complaint : Text → Text → List Event → Text → Result Record → Option Text
  complaint issuer uri log d (err e) = some (d ++ text " (invalid name)")
  complaint issuer uri log d (ok rec) =
      if record_live (W.lookup_txt log rec.fqdn) uri issuer then none else some d

  abbrev pub tally : Option Text → List Text × ℕ → List Text × ℕ
  tally none (missing, verified) = (missing, suc verified)
  tally (some c) (missing, verified) = (missing ++ c ∷ [], verified)

  -- The loop over the domains, with `missing` and `verified`.
  unfoldable pub check_domains :
      Text → Text → List Event → List Text → List Text × ℕ → List Text × ℕ
  check_domains issuer uri log [] counts = counts
  check_domains issuer uri log (d ∷ ds) counts =
      check_domains issuer uri log ds
        (tally (complaint issuer uri log d (generate (plain_params d issuer uri))) counts)

  -- The messages behind the loop.
  unfoldable pub verdict : Connection → Text → List Text → List Text × ℕ → Result Text
  verdict conn uri domains ([], verified) = ok (
      text "Verified ✓ — all "
      ++ (decimal (length domains)
          ++ text
              " domain(s) have a live standing record bound to this account. You can continue."))
  verdict conn uri domains (m ∷ missing, verified) = err (
      fail (
        text "standing record not live (or not yet propagated) for "
        ++ (decimal (length (m ∷ missing))
            ++ (text " of "
                ++ (decimal (length domains)
                    ++ (text " domain(s): "
                        ++ (join (m ∷ missing) (text ", ")
                            ++ (text ". Publish _validation-persist.<domain> TXT with value "
                                ++ (quoted (wanted_value conn uri)
                                    ++ (text " for each, then Re-Test Connection. ("
                                        ++ (decimal verified
                                            ++ (text " of "
                                                ++ (decimal (length domains)
                                                    ++ text " already verified.)")))))))))))))

  abbrev pub connected : Connection → Text → Text
  connected conn uri =
      text "Connected — ACME account "
      ++ (uri
          ++ (text
                " registered (DNS-persist / manual mode). Add the customer's domains to 'Verification Domains' and Test Connection to confirm their standing records. Standing record value: "
              ++ quoted (wanted_value conn uri)))

  unfoldable pub test_manual : Connection → Text → Act Text
  test_manual conn uri = do
    log ← gets (λ s. s.log)
    let domains = parse_domain_list conn.configuration.verification_domains
    if is_empty domains
        then pure (connected conn uri)
        else lift
            (verdict conn uri domains (check_domains (issuer_of conn) uri log domains ([], 0)))

  abbrev pub auto_message : Connection → Text → Text
  auto_message conn uri =
      text "Connected. ACME account URI: "
      ++ (uri
          ++ (text ". DNS provider ("
              ++ (conn.configuration.dns_provider
                  ++ text
                      ") verified — the connector will publish validation records automatically.")))

  unfoldable pub test_auto : Connection → Text → Act Text
  test_auto conn uri = do
    lift (
        require (not (is_empty conn.configuration.hosted_zone_id))
          (fail (text "a DNS provider is selected but the Hosted Zone ID is empty")))
    lift (new_publisher W conn)
    in_context (text "DNS provider check failed")
        (call_provider W (validate conn.configuration.hosted_zone_id))
    pure (auto_message conn uri)

  -- The part of the operation behind the client.
  unfoldable pub test : Connection → Act Text
  test conn = do
    ensure_account W conn
    uri ← gets (λ s. s.client.account_url)
    if is_auto_mode conn then test_auto conn uri else test_manual conn uri

  unfoldable pub test_connection : Connection → List Event → Result Text × List Event
  test_connection conn = with_client W conn (test conn)
