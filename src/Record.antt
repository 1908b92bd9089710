-- ===== src/Record.antt =====
-- internal/record/generate.go: the standing `_validation-persist` TXT record.
pub mod Laws
pub mod Quoting
pub mod Written
use cm_saas_letsencrypt_ca_c.Base.{
  ℕ, zero, suc, ◌+◌, ◌/◌, ◌%◌, ltb, Bool, true, false, ◌||◌, List, [], ◌∷◌, ◌++◌, Text, text, lower,
  trim_space, trim_prefix, trim_suffix, has_prefix, join, is_empty, if◌then◌else◌, decimal, ◌==◌,
}
use cm_saas_letsencrypt_ca_c.Errors.{Err, fail, Result, ok, err}

abbrev pub label : Text
label = text "_validation-persist"

-- `PersistUntil` is a signed number of which the code asks whether it is positive: the values up
-- to 0 are all `zero` here.
pub record Params : Type 0 where
  pub domain : Text
  pub issuer_domain : Text
  pub account_uri : Text
  pub wildcard : Bool
  pub persist_until : ℕ

pub record Record : Type 0 where
  pub fqdn : Text
  pub kind : Text
  pub value : Text

-- The four normalised inputs.
unfoldable pub base_of : Text → Text
base_of domain =
    lower (trim_suffix (trim_space (trim_prefix (trim_space domain) (text "*."))) (text "."))

unfoldable pub is_wildcard : Params → Bool
is_wildcard p = p.wildcard || has_prefix (trim_space p.domain) (text "*.")

unfoldable pub normal_issuer : Text → Text
normal_issuer issuer = lower (trim_space issuer)

abbrev pub policy_field : Bool → List Text
policy_field true = text "policy=wildcard" ∷ []
policy_field false = []

abbrev pub until_field : ℕ → List Text
until_field zero = []
until_field (suc n) = (text "persistUntil=" ++ decimal (suc n)) ∷ []

-- The fields that are joined to the record's value.
unfoldable pub fields_of : Params → List Text
fields_of p =
    normal_issuer p.issuer_domain
    ∷ (text "accounturi=" ++ trim_space p.account_uri)
    ∷ (policy_field (is_wildcard p) ++ until_field p.persist_until)

unfoldable pub generate : Params → Result Record
generate p =
    if is_empty (base_of p.domain)
    then err (fail (text "record: domain is required"))
    else if is_empty (normal_issuer p.issuer_domain)
    then err (fail (text "record: issuer domain is required"))
    else if is_empty (trim_space p.account_uri)
    then err (fail (text "record: account URI is required"))
    else ok (record {
      fqdn = label ++ (text "." ++ base_of p.domain);
      kind = text "TXT";
      value = join (fields_of p) (text "; ");
    })

abbrev pub hex_digit : ℕ → ℕ
hex_digit n = if ltb n 10 then 48 + n else 87 + n

abbrev pub is_control : ℕ → Bool
is_control c = ltb c 32 || c == 127

-- What `%q` writes for a control character of ASCII.
unfoldable pub quote_control : ℕ → Text
quote_control c =
    if c == 7
    then text "\\a"
    else if c == 8
    then text "\\b"
    else if c == 9
    then text "\\t"
    else if c == 10
    then text "\\n"
    else if c == 11
    then text "\\v"
    else if c == 12
    then text "\\f"
    else if c == 13
    then text "\\r"
    else text "\\x" ++ (hex_digit (c / 16) ∷ hex_digit (c % 16) ∷ [])

-- What `%q` writes for a character; one beyond ASCII is taken to be printable.
abbrev pub quote_char : ℕ → Text
quote_char c =
    if c == b'"' || c == b'\\'
    then b'\\' ∷ c ∷ []
    else if is_control c
    then quote_control c
    else c ∷ []

unfoldable pub quote_body : Text → Text
quote_body [] = []
quote_body (c ∷ s) = quote_char c ++ quote_body s

-- `%q` of a text
unfoldable pub quoted : Text → Text
unfolding quote_body
quoted s = text "\"" ++ (quote_body s ++ text "\"")

-- `Record.ZoneFile`
unfoldable pub zone_file : Record → Text
unfolding quoted
zone_file r = r.fqdn ++ (text ". IN TXT " ++ quoted r.value)
