-- ===== src/Live.antt =====
-- `recordLive` of internal/app/service/connection.go and of cmd/dnspersist-tool/core.go: whether a
-- TXT record that DNS answers binds a domain to the account. The answer of the resolver is an
-- argument, `none` for an error.
pub mod Accepts
use cm_saas_letsencrypt_ca_c.Base.{
  Bool, true, false, ◌||◌, ◌&&◌, Option, none, some, List, [], ◌∷◌, ◌++◌, Text, text, lower,
  trim_space, has_prefix, contains, replace_char,
}

-- `strings.ReplaceAll(strings.ToLower(t), " ", "")`
unfoldable pub squeeze : Text → Text
squeeze t = replace_char 32 [] (lower t)

abbrev pub wanted : Text → Text
wanted account_uri = text "accounturi=" ++ lower account_uri

unfoldable pub names_account : Text → Text → Text → Bool
unfolding squeeze
names_account issuer want t =
    has_prefix (squeeze t) (issuer ++ text ";") && contains (squeeze t) want

-- The loop over the answers.
unfoldable pub any_names_account : Text → Text → List Text → Bool
unfolding names_account
any_names_account issuer want [] = false
any_names_account issuer want (t ∷ ts) =
    names_account issuer want t || any_names_account issuer want ts

-- The connector's check, for the issuer of the connection.
unfoldable pub record_live : Option (List Text) → Text → Text → Bool
unfolding any_names_account
record_live none account_uri issuer = false
record_live (some txts) account_uri issuer =
    any_names_account (lower (trim_space issuer)) (wanted account_uri) txts

abbrev pub tool_issuer : Text
tool_issuer = text "letsencrypt.org"

-- The onboarding tool's check, for its fixed issuer.
unfoldable pub tool_record_live : Option (List Text) → Text → Bool
unfolding any_names_account
tool_record_live none account_uri = false
tool_record_live (some txts) account_uri = any_names_account tool_issuer (wanted account_uri) txts
