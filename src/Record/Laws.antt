-- ===== src/Record/Laws.antt =====
-- What `Generate` accepts and what it writes.
use cm_saas_letsencrypt_ca_c.Base.{◌≡◌, false, ◌++◌, text, trim_space, join, is_empty, arith}
use cm_saas_letsencrypt_ca_c.Errors.{ok}
use cm_saas_letsencrypt_ca_c.Record.{
  label, Params, Record, base_of, normal_issuer, fields_of, generate,
}

-- The record that parameters stand for.
abbrev pub record_of : Params → Record
record_of p = record {
  fqdn = label ++ (text "." ++ base_of p.domain);
  kind = text "TXT";
  value = join (fields_of p) (text "; ");
}

abbrev pub IsComplete : Params → Type 0
IsComplete p =
    (is_empty (base_of p.domain) ≡ false)
    × (is_empty (normal_issuer p.issuer_domain) ≡ false)
    × (is_empty (trim_space p.account_uri) ≡ false)

pub generate-ok : (p : Params) (r : Record) → generate p ≡ ok r → IsComplete p × (r ≡ record_of p)
unfolding generate
generate-ok p r h = ground arith

pub generate_complete : (p : Params) → IsComplete p → generate p ≡ ok (record_of p)
unfolding generate
generate_complete p h = ground arith
