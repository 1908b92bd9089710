-- ===== src/Tool/Cli.antt =====
-- cmd/dnspersist-tool/main.go: the commands of the tool, on flags that are already parsed.
pub mod Main
pub mod Verdicts
pub mod Files
pub mod Flags
pub mod Reports
use cm_saas_letsencrypt_ca_c.Base.{
  ℕ, suc, ◌+◌, ◌-◌, ◌==◌, ltb, Bool, true, false, not, ◌&&◌, ◌||◌, Option, none, some, List, [],
  ◌∷◌, ◌++◌, length, is_some, join, replace_char, Text, text, is_empty, decimal, if◌then◌else◌,
}
use cm_saas_letsencrypt_ca_c.Errors.{Err, fail, Result, ok, err}
use cm_saas_letsencrypt_ca_c.Errors.Doing.{pure, lift, in_context, ◌>>=◌, ◌>>◌}
use cm_saas_letsencrypt_ca_c.Record.{quoted}
use cm_saas_letsencrypt_ca_c.Names.{split_domains}
use cm_saas_letsencrypt_ca_c.Onboard.{OnboardResult, run_onboard}
use cm_saas_letsencrypt_ca_c.Tool.{op_records, op_validate, op_plan}
use cm_saas_letsencrypt_ca_c.Tool.Records.{
  dir_url, record_value, RecordLine, DomainResult, PlanRecord, ZonePlan,
}
use cm_saas_letsencrypt_ca_c.Tool.Email.{op_email}
use cm_saas_letsencrypt_ca_c.Tool.Machine.{
  Bench, Machine, Job, file_at, on_events, on_exchanges, print, read_file, write_file,
  op_new_account,
}
use cm_saas_letsencrypt_ca_c.Tool.Cli.Flags.{
  NewAccountFlags, RecordsFlags, ValidateFlags, PlanFlags, OnboardFlags,
}
use cm_saas_letsencrypt_ca_c.Tool.Cli.Reports.{
  account_report, record_text, records_text, records_report, verdict_line, verdict_lines,
  record_count, status_text, missing, plan_lines, zone_lines, plan_heading, key_file, app_line,
  onboard_report,
}

abbrev pub refuse : {A : Type 0} → Text → Job A
refuse message = lift (err (fail message))

-- The check of `cmdNewAccount` that no file is there.
unfoldable pub check_absent : Text → Job (Unit {0})
check_absent out s = (
  if is_some (file_at out s.files)
      then err
          (fail (out ++ text " already exists — refusing to overwrite an existing account key"))
      else ok tt,
  s,
)

abbrev pub validate_verdict : List DomainResult → Job (Unit {0})
validate_verdict results =
    let count = (verdict_lines results).1 in
    if count == length results
    then pure tt
    else refuse (decimal (length results - count) ++ text " domain(s) not yet live")

unfoldable pub report_results : List DomainResult → Job (Unit {0})
report_results results = do
  print (verdict_lines results).0
  print (
      text "\n"
      ++ (decimal (verdict_lines results).1
          ++ (text " of " ++ (decimal (length results) ++ text " domain(s) verified.\n"))))
  validate_verdict results

abbrev pub plan_verdict : Bool → ℕ → Job (Unit {0})
plan_verdict validate count =
    if validate && ltb 0 count
    then refuse (decimal count ++ text " planned record(s) not live yet")
    else pure tt

unfoldable pub report_plan : Bool → Text → List ZonePlan → ℕ → Job (Unit {0})
report_plan validate uri zones san_count = do
  print (plan_heading uri san_count zones)
  print (zone_lines zones).0
  plan_verdict validate (zone_lines zones).1

module _ (B : Bench) where
  -- `cmdNewAccount`
  unfoldable pub cmd_new_account : NewAccountFlags → Job (Unit {0})
  cmd_new_account f = do
    check_absent f.out
    (pem, uri) ← on_events (op_new_account B f.prod f.contact)
    write_file B f.out pem
    print (account_report f.out f.prod uri)

  -- `cmdRecords` behind the check of its flags.
  unfoldable pub print_records : RecordsFlags → Text → Job (Unit {0})
  print_records f key_pem =
      if f.email
      then (on_events (op_email B.platform key_pem (split_domains f.domains) f.wildcard f.prod)
          >>= λ mail. print mail.1)
      else (on_events (op_records B.platform key_pem (split_domains f.domains) f.wildcard f.prod)
          >>= λ found. print (records_report f found.0 found.1))

  unfoldable pub cmd_records : RecordsFlags → Job (Unit {0})
  cmd_records f =
      if is_empty f.key || is_empty f.domains
      then refuse (text "-key and -domains are required")
      else (read_file B f.key >>= λ key_pem. print_records f key_pem)

  -- `cmdValidate`
  unfoldable pub cmd_validate : ValidateFlags → Job (Unit {0})
  cmd_validate f =
      if is_empty f.key || is_empty f.domains
      then refuse (text "-key and -domains are required")
      else (read_file B f.key >>= λ key_pem.
          on_events (op_validate B.platform key_pem (split_domains f.domains) f.prod) >>= λ answer.
          report_results answer.1)

  -- `cmdPlan`
  unfoldable pub cmd_plan : PlanFlags → Job (Unit {0})
  cmd_plan f =
      if is_empty f.cert || is_empty f.key
      then refuse (text "-cert and -key are required")
      else (read_file B f.cert >>= λ cert_data. read_file B f.key >>= λ key_pem.
          on_events
            (op_plan B.platform B.parse_names B.etld_plus_one cert_data key_pem f.prod f.validate)
          >>= λ plan. report_plan f.validate plan.0 plan.1.0 plan.1.1)

  -- The key that `cmdOnboard` generates, written before anything is created.
  unfoldable pub generated_key : OnboardFlags → Job Text
  generated_key f = do
    (pem, uri) ←
        in_context (text "generate Let's Encrypt account") (on_events (op_new_account B f.prod []))
    write_file B (key_file f) pem
    print (
        text "Generated Let's Encrypt account key -> "
        ++ (key_file f ++ (text "   (URI " ++ (uri ++ text ")   KEEP SAFE — back it up.\n\n"))))
    pure pem

  unfoldable pub onboard_key : OnboardFlags → Job Text
  onboard_key f = if f.gen_key then generated_key f else read_file B f.key

  unfoldable pub onboard_customer : OnboardFlags → Text → Job (Unit {0})
  onboard_customer f key_pem =
      on_exchanges (
        run_onboard B.manager f.cm_key f.plugin f.name key_pem (dir_url f.prod)
          (split_domains f.domains) f.app)
      >>= λ r. print (onboard_report f.name r)

  -- `cmdOnboard`
  unfoldable pub cmd_onboard : OnboardFlags → Job (Unit {0})
  cmd_onboard f =
      if is_empty f.cm_key || is_empty f.name
      then refuse (text "-cmkey and -name are required")
      else if is_empty f.key && not f.gen_key
      then refuse (text "provide -key <pem> or -genkey to generate one")
      else (onboard_key f >>= λ key_pem. onboard_customer f key_pem)
