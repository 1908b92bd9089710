-- ===== src/Tool/Cli/Reports.antt =====
-- cmd/dnspersist-tool/main.go: what the commands print, and what they count.
use cm_saas_letsencrypt_ca_c.Base.{
  ℕ, suc, ◌+◌, Bool, Option, none, some, List, [], ◌∷◌, ◌++◌, length, join, replace_char, Text,
  text, is_empty, decimal, if◌then◌else◌,
}
use cm_saas_letsencrypt_ca_c.Record.{quoted}
use cm_saas_letsencrypt_ca_c.Onboard.{OnboardResult}
use cm_saas_letsencrypt_ca_c.Tool.Records.{
  dir_url, record_value, RecordLine, DomainResult, PlanRecord, ZonePlan,
}
use cm_saas_letsencrypt_ca_c.Tool.Cli.Flags.{RecordsFlags, OnboardFlags}

abbrev pub account_report : Text → Bool → Text → Text
account_report out prod uri =
    text "Generated ACME account key  -> "
    ++ (out
        ++ (text "   (KEEP SAFE — back it up; losing it orphans every record)\n"
            ++ (text "Directory                   -> "
                ++ (dir_url prod
                    ++ (text "\nAccount URI                 -> "
                        ++ (uri
                            ++ (text
                                  "\n\nStanding record VALUE (identical for every domain on this account):\n  "
                                ++ (record_value uri
                                    ++ (text "\n\nNext:  dnspersist records -key "
                                        ++ (out ++ text " -domains <customer domains>\n"))))))))))

abbrev pub record_text : Text → Text → Text → Text
record_text fqdn value status =
    fqdn ++ (text ".\tIN TXT\t" ++ (quoted value ++ (status ++ text "\n")))

-- The loop that prints the records.
abbrev pub records_text : List RecordLine → Text
records_text [] = []
records_text (r ∷ recs) = record_text r.fqdn r.value [] ++ records_text recs

abbrev pub records_report : RecordsFlags → Text → List RecordLine → Text
records_report f uri recs =
    text "# Account URI: "
    ++ (uri
        ++ (text
              "\n# Publish these TXT records — one per domain, each in that domain's DNS zone:\n\n"
            ++ (records_text recs
                ++ (text "\n# When the customer has published them:  dnspersist validate -key "
                    ++ (f.key ++ (text " -domains " ++ (f.domains ++ text "\n")))))))

abbrev pub verdict_line : DomainResult → Text
verdict_line r =
    if r.live
    then text "  OK " ++ (r.domain ++ text "\n")
    else text "  x  "
      ++ (r.domain ++ text "  (no live _validation-persist record bound to this account)\n")

-- The loop of `cmdValidate`: what is printed, and the number of live records.
unfoldable pub verdict_lines : List DomainResult → Text × ℕ
verdict_lines [] = ([], 0)
verdict_lines (r ∷ results) =
    let (lines, count) = verdict_lines results in
    (verdict_line r ++ lines, (if r.live then suc count else count))

abbrev pub record_count : List ZonePlan → ℕ
record_count [] = 0
record_count (z ∷ zones) = length z.records + record_count zones

abbrev pub status_text : Option Bool → Text
status_text none = []
status_text (some live) = if live then text "   [live]" else text "   [MISSING]"

abbrev pub missing : Option Bool → ℕ
missing none = 0
missing (some live) = if live then 0 else 1

-- The inner loop of `cmdPlan`, with the number of missing records.
unfoldable pub plan_lines : List PlanRecord → Text × ℕ
plan_lines [] = ([], 0)
plan_lines (r ∷ recs) =
    let (lines, count) = plan_lines recs in
    (
      text "  "
          ++ (record_text r.fqdn r.value (status_text r.live)
              ++ (text "      covers: " ++ (join r.covers (text ", ") ++ (text "\n" ++ lines)))),
      missing r.live + count,
    )

-- The outer loop.
unfoldable pub zone_lines : List ZonePlan → Text × ℕ
zone_lines [] = ([], 0)
zone_lines (z ∷ zones) =
    let (lines, count) = zone_lines zones in
    let (own, own_count) = plan_lines z.records in
    (text "Zone " ++ (z.zone ++ (text ":\n" ++ (own ++ (text "\n" ++ lines)))), own_count + count)

abbrev pub plan_heading : Text → ℕ → List ZonePlan → Text
plan_heading uri san_count zones =
    text "# DNS-persist plan for account "
    ++ (uri
        ++ (text "\n# "
            ++ (decimal san_count
                ++ (text " SAN(s) -> "
                    ++ (decimal (record_count zones)
                        ++ (text " record(s) across "
                            ++ (decimal (length zones) ++ text " zone(s)\n\n")))))))

abbrev pub key_file : OnboardFlags → Text
key_file f =
    if is_empty f.out then replace_char b' ' (text "-") f.name ++ text "-acct.pem" else f.out

abbrev pub app_line : OnboardResult → Text
app_line r =
    if is_empty r.app_id
    then []
    else text "application       " ++ (r.app_name ++ (text "   (" ++ (r.app_id ++ text ")\n")))

abbrev pub onboard_report : Text → OnboardResult → Text
onboard_report name r =
    text "CA account        "
    ++ (name
        ++ (text "   ("
            ++ (r.ca_id
                ++ (text ")\nproduct option    "
                    ++ (r.product_option_id
                        ++ (text "\nissuing template  "
                            ++ (r.template_name
                                ++ (text "   ("
                                    ++ (r.template_id
                                        ++ (text ")\n"
                                            ++ (app_line r
                                                ++ text
                                                    "\nReady to issue — the CA and template are now selectable in CM.\n")))))))))))
