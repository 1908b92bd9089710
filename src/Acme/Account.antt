-- ===== src/Acme/Account.antt =====
-- internal/acme/account.go: the account of the client's key.
use cm_saas_letsencrypt_ca_c.Base.{
  Bool, ◌||◌, not, List, ◌++◌, some, Text, text, is_empty, if◌then◌else◌, ◌==◌, decimal,
}
use cm_saas_letsencrypt_ca_c.Errors.{Err, fail, Result, ok, err}
use cm_saas_letsencrypt_ca_c.Acme.Types.{Client, Response, registration, existing_only}
use cm_saas_letsencrypt_ca_c.Acme.Outside.{Outside}
use cm_saas_letsencrypt_ca_c.Acme.Act.{Act, lift, in_context, update, ◌>>=◌, ◌>>◌}
use cm_saas_letsencrypt_ca_c.Acme.Client.{directory, post_signed}

-- `fmt.Errorf("… unexpected status %d: %s", status, body)`
abbrev pub unexpected : Text → Response → Err
unexpected context r =
    fail (context ++ (text " unexpected status " ++ (decimal r.status ++ (text ": " ++ r.body))))

-- `if !wanted { return unexpected }`
abbrev pub require : Bool → Err → Result (Unit {0})
require wanted e = if wanted then ok tt else err e

abbrev pub is_ok : Response → Bool
is_ok r = r.status == 200

abbrev pub is_created_or_ok : Response → Bool
is_created_or_ok r = r.status == 201 || r.status == 200

unfoldable pub set_account : Text → Client → Client
set_account url c = record c { account_url = url }

module _ (O : Outside) where
  unfoldable pub register : List Text → Act (Unit {0})
  register contacts = do
    dir ← directory O
    body ← lift (O.payload_json (registration contacts))
    r ← in_context (text "acme: newAccount") (post_signed O dir.new_account (some body))
    lift (require (is_created_or_ok r) (unexpected (text "acme: newAccount") r))
    lift (
        require (not (is_empty r.location))
          (fail (text "acme: newAccount returned no Location (account URL)")))
    update (set_account r.location)

  unfoldable pub lookup_account : Act (Unit {0})
  lookup_account = do
    dir ← directory O
    body ← lift (O.payload_json existing_only)
    r ← in_context (text "acme: lookup account") (post_signed O dir.new_account (some body))
    lift (require (is_ok r) (unexpected (text "acme: lookup account") r))
    lift (
        require (not (is_empty r.location))
          (fail (text "acme: lookup account returned no Location (account URL)")))
    update (set_account r.location)
