-- ===== src/Tool.antt =====
-- cmd/dnspersist-tool/core.go: the operations of the onboarding tool.
pub mod Email
pub mod Lines
pub mod Machine
pub mod Cli
pub mod Web
pub mod Records
use cm_saas_letsencrypt_ca_c.Base.{
  ℕ, Bool, true, false, ◌&&◌, Option, none, some, List, [], ◌∷◌, ◌++◌, map, length, Text, text,
  text_eq, trim_prefix, is_empty, if◌then◌else◌, or_else,
}
use cm_saas_letsencrypt_ca_c.Errors.{Err, fail, Result, ok, err, wrap_result, ◌>>=◌}
use cm_saas_letsencrypt_ca_c.Record.{label, Params, Record, generate}
use cm_saas_letsencrypt_ca_c.Names.{certificate_names}
use cm_saas_letsencrypt_ca_c.Live.{tool_issuer, tool_record_live}
use cm_saas_letsencrypt_ca_c.Acme.Types.{Client, AccountKey}
use cm_saas_letsencrypt_ca_c.Acme.Outside.{Event}
use cm_saas_letsencrypt_ca_c.Acme.Act.{Session, Act, lift, gets, in_context}
use cm_saas_letsencrypt_ca_c.Acme.Act
use cm_saas_letsencrypt_ca_c.Acme.Account.{register}
use cm_saas_letsencrypt_ca_c.Acme.Pem.{Block, parse_account_key}
use cm_saas_letsencrypt_ca_c.Service.{Platform, run_with}
use cm_saas_letsencrypt_ca_c.Plan.{HostPlan, specs, collapse, sort}
use cm_saas_letsencrypt_ca_c.Tool.Records.{
  dir_staging, dir_prod, dir_url, record_value, RecordLine, DomainResult, PlanRecord, ZonePlan,
  tool_params, line_of, record_lines, tool_client, contact_list, add_records,
}

module _ (W : Platform) where
  -- The account of the key, then an operation: `clientForKeyPEM` without a contact.
  unfoldable pub with_key :
      {A : Type 0} → Text → Bool → (Text → Act A) → List Event → Result A × List Event
  with_key key_pem prod m log =
      run_with (parse_account_key W.keys key_pem >>= λ key. ok (tool_client prod key))
        (Act.◌>>=◌ (in_context (text "register/resolve ACME account") (register W.outside []))
          λ _. Act.◌>>=◌ (gets (λ s. s.client.account_url)) m)
        log

  abbrev pub with_uri : {A : Type 0} → Text → Result A → Act (Text × A)
  with_uri uri r = lift (r >>= λ a. ok (uri, a))

  unfoldable pub op_records :
      Text → List Text → Bool → Bool → List Event → Result (Text × List RecordLine) × List Event
  op_records key_pem domains wildcard prod =
      with_key key_pem prod (λ uri. with_uri uri (record_lines uri wildcard domains))

  abbrev pub is_live : Text → List Event → Result Record → Bool
  is_live uri log (err e) = false
  is_live uri log (ok rec) = tool_record_live (W.lookup_txt log rec.fqdn) uri

  -- The loop of `opValidate`.
  unfoldable pub validate_domains : Text → List Event → List Text → List DomainResult
  validate_domains uri log [] = []
  validate_domains uri log (d ∷ ds) =
      record { domain = d; live = is_live uri log (generate (tool_params uri false d)) }
      ∷ validate_domains uri log ds

  unfoldable pub op_validate :
      Text → List Text → Bool → List Event → Result (Text × List DomainResult) × List Event
  op_validate key_pem domains prod =
      with_key key_pem prod λ uri.
        Act.◌>>=◌ (gets (λ s. s.log)) λ log. lift (ok (uri, validate_domains uri log domains))

  module _ (parse_names : Text → Result (List Text × Text))
      (etld_plus_one : Text → Option Text) where
    abbrev pub certificate_der : Text → Option (Block × Text) → Text
    certificate_der cert_data none = cert_data
    certificate_der cert_data (some (b, rest)) = b.bytes

    -- `certSANsFromBytes`, from the reader of a certificate's names and its common name.
    unfoldable pub cert_sans : Text → Result (List Text)
    cert_sans cert_data = do
      (dns_names, common_name) ←
          wrap_result (text "parse certificate")
            (parse_names (certificate_der cert_data (W.keys.pem_decode cert_data)))
      ok (certificate_names dns_names common_name)

    abbrev pub zone_or : Text → Option Text → Text
    zone_or base none = base
    zone_or base (some zone) = if is_empty zone then base else zone

    -- `publicsuffix.EffectiveTLDPlusOne`, or the base itself.
    abbrev pub zone_of : Text → Text
    zone_of base = zone_or base (etld_plus_one base)

    abbrev pub base_of_host : HostPlan → Text
    base_of_host p = trim_prefix p.host (label ++ text ".")

    abbrev pub checked : Bool → Text → List Event → Text → Option Bool
    checked check uri log fqdn =
        if check then some (tool_record_live (W.lookup_txt log fqdn) uri) else none

    -- The loop over the flags of a host.
    unfoldable pub host_records :
        Bool → Text → List Event → HostPlan → List Bool → Result (List PlanRecord)
    host_records check uri log p [] = ok []
    host_records check uri log p (wildcard ∷ flags) = do
      rec ← generate (tool_params uri wildcard (base_of_host p))
      rest ← host_records check uri log p flags
      ok (
          record {
            fqdn = rec.fqdn;
            value = rec.value;
            covers = p.covers;
            live = checked check uri log rec.fqdn;
          }
          ∷ rest)

    -- The loop of `opPlan` over the hosts.
    unfoldable pub zone_plans :
        Bool → Text → List Event → List HostPlan → List ZonePlan → Result (List ZonePlan)
    zone_plans check uri log [] zones = ok zones
    zone_plans check uri log (p ∷ plans) zones = do
      recs ← host_records check uri log p (specs p)
      zone_plans check uri log plans (add_records (zone_of (base_of_host p)) recs zones)

    abbrev pub by_zone : ZonePlan → Text
    by_zone z = z.zone

    abbrev pub sorted_zones : Result (List ZonePlan) → Result (List ZonePlan)
    sorted_zones r = r >>= λ zones. ok (sort by_zone zones)

    abbrev pub plan_for :
        Text
        → Text
        → Bool
        → Bool
        → List Text
        → List Event
        → Result (Text × (List ZonePlan × ℕ)) × List Event
    plan_for cert_data key_pem prod check [] log =
        (err (fail (text "no DNS names found in the certificate")), log)
    plan_for cert_data key_pem prod check (n ∷ names) log =
        with_key key_pem prod
          (λ uri. Act.◌>>=◌ (gets (λ s. s.log)) λ seen. with_uri uri (
            sorted_zones (zone_plans check uri seen (collapse (n ∷ names)) []) >>= λ zones.
            ok (zones, length (n ∷ names))))
          log

    abbrev pub plan_from :
        Text
        → Text
        → Bool
        → Bool
        → Result (List Text)
        → List Event
        → Result (Text × (List ZonePlan × ℕ)) × List Event
    plan_from cert_data key_pem prod check (err e) log = (err e, log)
    plan_from cert_data key_pem prod check (ok names) log =
        plan_for cert_data key_pem prod check names log

    -- `opPlan`: the account, the zones, and the number of names.
    unfoldable pub op_plan :
        Text → Text → Bool → Bool → List Event → Result (Text × (List ZonePlan × ℕ)) × List Event
    op_plan cert_data key_pem prod check log =
        plan_from cert_data key_pem prod check (cert_sans cert_data) log
