-- ===== src/Names.antt =====
-- The lists of domain names that the program reads: `parseDomainList`
-- (internal/app/service/connection.go), `dedupeLower` (internal/app/service/csr.go), `splitDomains`,
-- `normalizeContact` and the names of a certificate (cmd/dnspersist-tool/core.go).
pub mod Distinct
pub mod Pasted
pub mod Once
pub mod Dots
use cm_saas_letsencrypt_ca_c.Base.{
  ℕ, Bool, ◌||◌, List, [], ◌∷◌, ◌++◌, Text, text, lower, trim, trim_space, trim_prefix, trim_suffix,
  has_prefix, fields_func, member, is_empty, if◌then◌else◌, ◌==◌,
}
use cm_saas_letsencrypt_ca_c.Record.{label}

-- The loop of all four functions: each field is cleaned, and kept if it is neither empty nor seen.
unfoldable pub collect : (Text → Text) → List Text → List Text → List Text → List Text
collect clean [] seen out = out
collect clean (f ∷ fs) seen out =
    let d = clean f in
    let skip = collect clean fs seen out in
    let keep = collect clean fs (d ∷ seen) (out ++ d ∷ []) in
    if is_empty d || member d seen then skip else keep

unfoldable pub is_separator : ℕ → Bool
is_separator r = r == b'\n' || r == b'\r' || r == b',' || r == b' ' || r == b'\t' || r == b';'

-- `splitDomains` tests the same characters in another order.
unfoldable pub is_delimiter : ℕ → Bool
is_delimiter r = r == b',' || r == b' ' || r == b'\n' || r == b'\t' || r == b'\r' || r == b';'

abbrev pub is_dot : ℕ → Bool
is_dot c = c == b'.'

unfoldable pub clean_domain : Text → Text
clean_domain f =
    trim_prefix (trim_prefix (lower (trim is_dot (trim_space f))) (label ++ text ".")) (text "*.")

unfoldable pub parse_domain_list : Text → List Text
unfolding collect clean_domain is_separator
parse_domain_list raw = collect clean_domain (fields_func is_separator raw) [] []

unfoldable pub split_domains : Text → List Text
unfolding collect clean_domain is_delimiter
split_domains s = collect clean_domain (fields_func is_delimiter s) [] []

unfoldable pub clean_name : Text → Text
clean_name s = lower (trim_space s)

unfoldable pub dedupe_lower : List Text → List Text
unfolding collect clean_name
dedupe_lower xs = collect clean_name xs [] []

unfoldable pub clean_san : Text → Text
clean_san n = lower (trim_space (trim_suffix n (text ".")))

-- The names of a parsed certificate: its DNS names, then its common name.
unfoldable pub certificate_names : List Text → Text → List Text
unfolding collect clean_san
certificate_names dns_names common_name = collect clean_san (dns_names ++ common_name ∷ []) [] []

abbrev pub with_scheme : Text → Text
with_scheme c =
    if is_empty c || has_prefix (lower c) (text "mailto:") then c else text "mailto:" ++ c

unfoldable pub normalize_contact : Text → Text
normalize_contact c = with_scheme (trim_space c)
