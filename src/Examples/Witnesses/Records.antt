-- ===== src/Examples/Witnesses/Records.antt =====
-- The theorems on records, names, checks and errors at concrete inputs.
use cm_saas_letsencrypt_ca_c.Base.{
  lower, ◌||◌, ◌≡◌, true, false, some, Text, [], ◌∷◌, ◌++◌, text, join,
}
use cm_saas_letsencrypt_ca_c.Errors.{ok}
use cm_saas_letsencrypt_ca_c.Record.{generate, zone_file}
use cm_saas_letsencrypt_ca_c.Record.Written.{policy_text, until_text, generate_written}
use cm_saas_letsencrypt_ca_c.Record.Quoting.{read_quoted, zone_file-read_quoted}
use cm_saas_letsencrypt_ca_c.Names.{parse_domain_list, split_domains}
use cm_saas_letsencrypt_ca_c.Names.Distinct.{split_domains-parse_domain_list}
use cm_saas_letsencrypt_ca_c.Names.Pasted.{fields_of, domains_of, parse_domain_list-join}
use cm_saas_letsencrypt_ca_c.Names.Once.{each_once}
use cm_saas_letsencrypt_ca_c.Live.{record_live}
use cm_saas_letsencrypt_ca_c.Live.Accepts.{record_live-generate, record_live_extended}
use cm_saas_letsencrypt_ca_c.Examples.Texts.{
  lab_params, lab_record, record_runs, issuer-HasNoSpace, uri-HasNoSpace, prefix-HasNoSpace,
  uri_extended, lab_record-IsPrintable, domain-IsGiven, issuer-IsPadded, uri-IsPadded, pasted_items,
  pasted_items-IsPasted, comma_space, comma_there,
}

generate_written_example :
    generate lab_params
    ≡ ok (record {
      fqdn = text "_validation-persist." ++ lower (text "Example.com");
      kind = text "TXT";
      value =
          lower (text "LetsEncrypt.org")
          ++ (text "; accounturi="
              ++ (text "https://ca/acct/12" ++ (policy_text (false || true) ++ until_text 0)));
    })
generate_written_example =
    generate_written lab_params (text "Example.com") (text "LetsEncrypt.org")
      (text "https://ca/acct/12") true true domain-IsGiven issuer-IsPadded uri-IsPadded

zone_file-read_quoted_example :
    (line : Text) × (zone_file lab_record ≡ lab_record.fqdn ++ (text ". IN TXT " ++ (b'"' ∷ line)))
    × (read_quoted false line ≡ some (lab_record.value, []))
zone_file-read_quoted_example = zone_file-read_quoted lab_record lab_record-IsPrintable

split_domains-parse_domain_list_example :
    split_domains (text "a.de,b.de") ≡ parse_domain_list (text "a.de,b.de")
split_domains-parse_domain_list_example = split_domains-parse_domain_list (text "a.de,b.de")

abbrev lower_a : Text
lower_a = 97 ∷ []

record_live-generate_example :
    record_live
      (some (text "v=spf1" ∷ lab_record.value ∷ []))
      lab_params.account_uri
      lab_params.issuer_domain
    ≡ true
record_live-generate_example =
    record_live-generate lab_params lab_record record_runs issuer-HasNoSpace (text "v=spf1" ∷ []) []
      uri-HasNoSpace

-- The record of account 12 is accepted for account 1.
record_live_extended_example :
    record_live (some (lab_record.value ∷ [])) (text "https://ca/acct/1") lab_params.issuer_domain
    ≡ true
record_live_extended_example =
    record_live_extended lab_params lab_record record_runs issuer-HasNoSpace [] []
      (text "https://ca/acct/1") (text "2") prefix-HasNoSpace uri_extended

parse_domain_list-join_example :
    parse_domain_list (join (fields_of pasted_items) (text ", "))
    ≡ each_once (domains_of pasted_items)
parse_domain_list-join_example =
    parse_domain_list-join pasted_items (text ", ") comma_there comma_space pasted_items-IsPasted
