-- ===== src/Acme/Revoke.antt =====
-- internal/acme/revoke.go.
use cm_saas_letsencrypt_ca_c.Base.{ℕ, zero, suc, Option, none, some, Text, text}
use cm_saas_letsencrypt_ca_c.Acme.Types.{revocation}
use cm_saas_letsencrypt_ca_c.Acme.Outside.{Outside}
use cm_saas_letsencrypt_ca_c.Acme.Act.{Act, lift, in_context, ◌>>=◌}
use cm_saas_letsencrypt_ca_c.Acme.Client.{directory, post_signed}
use cm_saas_letsencrypt_ca_c.Acme.Account.{unexpected, require, is_ok}

-- Reason 0 is left out. The code leaves out negative reasons too, which are 0 here.
abbrev pub reason_member : ℕ → Option ℕ
reason_member zero = none
reason_member (suc r) = some (suc r)

module _ (O : Outside) where
  unfoldable pub revoke_cert : Text → ℕ → Act (Unit {0})
  revoke_cert cert_der reason = do
    dir ← directory O
    body ← lift (O.payload_json (revocation (O.b64 cert_der) (reason_member reason)))
    r ← in_context (text "acme: revoke") (post_signed O dir.revoke_cert (some body))
    lift (require (is_ok r) (unexpected (text "acme: revoke") r))
