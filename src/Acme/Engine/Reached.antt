-- ===== src/Acme/Engine/Reached.antt =====
-- The client of internal/acme as a state machine: its methods are the steps, one session the state.
use cm_saas_letsencrypt_ca_c.Base.{ℕ, List, Text}
use cm_saas_letsencrypt_ca_c.Acme.Outside.{Outside}
use cm_saas_letsencrypt_ca_c.Acme.Act.{Session}
use cm_saas_letsencrypt_ca_c.Acme.Account.{register, lookup_account}
use cm_saas_letsencrypt_ca_c.Acme.Order.{
  new_order, get_order, get_authorization, accept_challenge, finalize, get_certificate,
}
use cm_saas_letsencrypt_ca_c.Acme.Persist.{
  PollConfig, wait_for_authz, wait_for_order, resolve_authorization,
}
use cm_saas_letsencrypt_ca_c.Acme.Revoke.{revoke_cert}
use cm_saas_letsencrypt_ca_c.Acme.Engine
use cm_saas_letsencrypt_ca_c.Acme.Engine.{IsKept}
use cm_saas_letsencrypt_ca_c.Acme.Engine.Nonces.{IssuesFresh}
use cm_saas_letsencrypt_ca_c.Acme.Engine.Cached.{IsSafe}
use cm_saas_letsencrypt_ca_c.Acme.Engine.SingleUse.{engine-IsSafe}

-- A call of a method of the client in the session `s`, whether it succeeds or fails.
pub data Step (O : Outside) (s : Session) : Session → Type 0 where
  registers : (contacts : List Text) → Step O s (register O contacts s).1
  looks_up : Step O s (lookup_account O s).1
  orders : (names : List Text) → Step O s (new_order O names s).1
  reads_order : (url : Text) → Step O s (get_order O url s).1
  reads_authorization : (url : Text) → Step O s (get_authorization O url s).1
  accepts : (url : Text) → Step O s (accept_challenge O url s).1
  awaits_authorization : (url : Text) (poll : PollConfig) → Step O s (wait_for_authz O url poll s).1
  resolves : (url : Text) (poll : PollConfig) → Step O s (resolve_authorization O url poll s).1
  finalizes : (url csr : Text) → Step O s (finalize O url csr s).1
  awaits_order : (url : Text) (poll : PollConfig) → Step O s (wait_for_order O url poll s).1
  downloads : (url : Text) → Step O s (get_certificate O url s).1
  revokes : (der : Text) (reason : ℕ) → Step O s (revoke_cert O der reason s).1

-- The sessions that calls of the methods reach from `s`, in any order.
pub data Reaches (O : Outside) (s : Session) : Session → Type 0 where
  here : Reaches O s s
  after : {t u : Session} → Reaches O s t → Step O t u → Reaches O s u

module _ (O : Outside) {P : Session → Type 0} (K : IsKept O P) where
  step-Keeps : (s t : Session) → Step O s t → P s → P t
  step-Keeps s _ (registers contacts) h = (Engine.register-Keeps O K contacts).keep s h
  step-Keeps s _ looks_up h = (Engine.lookup_account-Keeps O K).keep s h
  step-Keeps s _ (orders names) h = (Engine.new_order-Keeps O K names).keep s h
  step-Keeps s _ (reads_order url) h = (Engine.get_order-Keeps O K url).keep s h
  step-Keeps s _ (reads_authorization url) h = (Engine.get_authorization-Keeps O K url).keep s h
  step-Keeps s _ (accepts url) h = (Engine.accept_challenge-Keeps O K url).keep s h
  step-Keeps s _ (awaits_authorization url poll) h =
      (Engine.wait_for_authz-Keeps O K url poll).keep s h
  step-Keeps s _ (resolves url poll) h = (Engine.resolve_authorization-Keeps O K url poll).keep s h
  step-Keeps s _ (finalizes url csr) h = (Engine.finalize-Keeps O K url csr).keep s h
  step-Keeps s _ (awaits_order url poll) h = (Engine.wait_for_order-Keeps O K url poll).keep s h
  step-Keeps s _ (downloads url) h = (Engine.get_certificate-Keeps O K url).keep s h
  step-Keeps s _ (revokes der reason) h = (Engine.revoke_cert-Keeps O K der reason).keep s h

  reaches-Keeps : (s t : Session) → Reaches O s t → P s → P t
  reaches-Keeps s _ here h = h
  reaches-Keeps s u (after {t} r step) h = step-Keeps t u step (reaches-Keeps s t r h)

-- Whatever calls of the client's methods come one after the other, failed ones included, from a
-- session whose trace uses each nonce once and only as issued, and whose cached nonce is issued and
-- unused, the session that they reach is such a one again, if the CA never issues a nonce that it
-- has issued before.
pub reaches-IsSafe :
    (O : Outside) (s t : Session) → IssuesFresh O → Reaches O s t → IsSafe s → IsSafe t
reaches-IsSafe O s t fresh r h = reaches-Keeps O (engine-IsSafe O fresh) s t r h
