-- ===== src/Tool/Email.antt =====
-- `buildCustomerEmail` and `opEmail` of cmd/dnspersist-tool/core.go.
use cm_saas_letsencrypt_ca_c.Base.{
  ℕ, suc, Bool, List, [], ◌∷◌, ◌++◌, Text, text, trim_prefix, if◌then◌else◌, decimal,
}
use cm_saas_letsencrypt_ca_c.Errors.{Result, ok, err}
use cm_saas_letsencrypt_ca_c.Record.{label}
use cm_saas_letsencrypt_ca_c.Acme.Outside.{Event}
use cm_saas_letsencrypt_ca_c.Service.{Platform}
use cm_saas_letsencrypt_ca_c.Tool.{op_records}
use cm_saas_letsencrypt_ca_c.Tool.Records.{RecordLine}

-- The lines for one record, with its number.
unfoldable pub record_entry : ℕ → RecordLine → Text
record_entry i r =
    decimal i
    ++ (text ") Domain: "
        ++ (trim_prefix r.fqdn (label ++ text ".")
            ++ (text "\n   Type:  TXT\n   Name:  "
                ++ (label
                    ++ (text "   (if your provider asks for the full name, use: "
                        ++ (r.fqdn
                            ++ (text ")\n   Value: "
                                ++ (r.value
                                    ++ text
                                        "\n   TTL:   300 (or your provider's default)\n\n"))))))))

unfoldable pub record_entries : ℕ → List RecordLine → Text
record_entries i [] = []
record_entries i (r ∷ recs) = record_entry i r ++ record_entries (suc i) recs

abbrev pub email_opening : Text
email_opening =
    text
      "Subject: Action needed - add one DNS TXT record per domain (one-time; enables auto-renewing certificates)\n\nHi,\n\n"
    ++ (text
          "To issue and then AUTOMATICALLY RENEW the TLS/SSL certificate(s) for your domain(s), please add one DNS TXT record per domain wherever your DNS is managed. This is a ONE-TIME setup - once it is in place, certificates renew on their own with no further DNS changes.\n\n"
        ++ (text
              "This record is only a validation marker. It does NOT affect your website, email, or any existing DNS.\n\n"
            ++ text "Record(s) to create:\n\n"))

abbrev pub email_notes : Text
email_notes =
    text "Please note (applies to any DNS provider):\n"
    ++ (text
          "- The Value is a single line. Paste it exactly, keeping the whole string together (spaces and semicolons included).\n"
        ++ (text
              "- If your provider shows a plain value box, do NOT add quotation marks; some providers add them for you.\n"
            ++ text
                "- Please do not delete this record - it must stay in place so renewals keep working.\n"))

abbrev pub wildcard_note : Bool → Text
wildcard_note wildcard =
    if wildcard
    then text
        "- This record also covers all sub-domains (*.your-domain) for wildcard certificates.\n"
    else []

abbrev pub email_closing : Text
email_closing =
    text "\nReply once it is added and we will confirm everything checks out. Thank you!\n"
    ++ text
        "\nP.S. Where DNS records live in common providers: AWS Route 53 -> Hosted zones -> your domain -> Create record. Cloudflare -> DNS -> Records -> Add record. GoDaddy -> Domain -> DNS -> Add. Azure DNS -> your DNS zone -> Record sets -> Add.\n"

unfoldable pub customer_email : List RecordLine → Bool → Text
customer_email recs wildcard =
    email_opening
    ++ (record_entries 1 recs ++ (email_notes ++ (wildcard_note wildcard ++ email_closing)))

abbrev pub mailed :
    Bool → Result (Text × List RecordLine) × List Event → Result (Text × Text) × List Event
mailed wildcard (err e, log) = (err e, log)
mailed wildcard (ok (uri, recs), log) = (ok (uri, customer_email recs wildcard), log)

-- `opEmail`
unfoldable pub op_email :
    Platform → Text → List Text → Bool → Bool → List Event → Result (Text × Text) × List Event
op_email W key_pem domains wildcard prod log =
    mailed wildcard (op_records W key_pem domains wildcard prod log)
