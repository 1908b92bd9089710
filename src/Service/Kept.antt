-- ===== src/Service/Kept.antt =====
-- Invariants of the webhooks, from what the engine and the calls of the DNS provider keep.
use cm_saas_letsencrypt_ca_c.Base.{arith, ℕ, ◌≡◌, false, List, [], ◌∷◌, Text, if◌then◌else◌}
use cm_saas_letsencrypt_ca_c.Errors.{ok}
use cm_saas_letsencrypt_ca_c.Acme.Types.{Client, Order}
use cm_saas_letsencrypt_ca_c.Acme.Outside.{DnsCall}
use cm_saas_letsencrypt_ca_c.Acme.Act.{Session}
use cm_saas_letsencrypt_ca_c.Acme.Act.Keeps.{
  Keeps, keeps_rules, Keeps-bind, Keeps-gets, Keeps-pure, Keeps-lift, Keeps-if, Keeps-in_context,
}
use cm_saas_letsencrypt_ca_c.Acme.Persist.{PollConfig}
use cm_saas_letsencrypt_ca_c.Acme.Engine
use cm_saas_letsencrypt_ca_c.Acme.Engine.{IsKept}
use cm_saas_letsencrypt_ca_c.Domain.{Connection}
use cm_saas_letsencrypt_ca_c.Service.{
  Platform, is_auto_mode, build_client, ensure_account, call_provider,
}
use cm_saas_letsencrypt_ca_c.Service.Issue.{
  ensure_all, ensure_standing_records, resolve_all, publish_if_auto, issue,
}
use cm_saas_letsencrypt_ca_c.Service.TestConnection.{test, test_auto, test_manual}
use cm_saas_letsencrypt_ca_c.Service.Check.{ask_order, ask_certificate, certificate_of, download}
use cm_saas_letsencrypt_ca_c.Service.Revoke.{revoke_der, ask_revocation}

-- What a statement about the state needs to hold behind a call of the DNS provider.
abbrev pub KeptByDns : Platform → (Session → Type 0) → Type 0
KeptByDns W P = (call : DnsCall) → Keeps P (call_provider W call)

-- A new client caches no nonce.
pub build_client-nonce :
    (W : Platform) (conn : Connection) (c : Client) → build_client W conn ≡ ok c → c.nonce ≡ []
unfolding build_client
build_client-nonce W conn c h = ground arith

module _ (W : Platform) {P : Session → Type 0} (K : IsKept W.outside P) where
  pub ensure_account-Keeps : (conn : Connection) → Keeps P (ensure_account W conn)
  unfolding ensure_account
  ensure_account-Keeps conn = Engine.register-Keeps W.outside K _

  pub resolve_all-Keeps : (urls : List Text) (poll : PollConfig) → Keeps P (resolve_all W urls poll)
  unfolding resolve_all
  resolve_all-Keeps [] poll = Keeps-pure tt
  resolve_all-Keeps (url ∷ urls) poll =
      Keeps-bind _ _ (Engine.resolve_authorization-Keeps W.outside K url poll)
        λ _. resolve_all-Keeps urls poll

  -- The operation on the ACME side, given what is done for the DNS provider.
  pub issue-Keeps :
      (conn : Connection) (csr : Text)
      → ((names : List Text) → Keeps P (publish_if_auto W conn names))
      → Keeps P (issue W conn csr)
  unfolding issue
  issue-Keeps conn csr publish =
      search
        (
          keeps_rules,
          ensure_account-Keeps,
          resolve_all-Keeps,
          Engine.new_order-Keeps W.outside K,
          Engine.finalize-Keeps W.outside K,
        )
        depth 40

  ensure_all-Keeps :
      KeptByDns W P
      → (zone issuer uri : Text) (names : List Text) → Keeps P (ensure_all W zone issuer uri names)
  unfolding ensure_all
  ensure_all-Keeps k zone issuer uri [] = Keeps-pure tt
  ensure_all-Keeps k zone issuer uri (name ∷ names) = Keeps-bind _ _ (Keeps-lift _) λ rec.
      Keeps-bind _ _ (Keeps-in_context _ _ (k _)) λ _. ensure_all-Keeps k zone issuer uri names

  pub publish_if_auto-Keeps :
      KeptByDns W P
      → (conn : Connection) (names : List Text) → Keeps P (publish_if_auto W conn names)
  unfolding ensure_standing_records
  publish_if_auto-Keeps k conn names = search (keeps_rules, ensure_all-Keeps) depth 20

  pub ask_order-Keeps : (conn : Connection) (id : Text) → Keeps P (ask_order W conn id)
  unfolding ask_order
  ask_order-Keeps conn id =
      search (keeps_rules, ensure_account-Keeps, Engine.get_order-Keeps W.outside K) depth 20

  certificate_of-Keeps : (id : Text) (order : Order) → Keeps P (certificate_of W id order)
  unfolding certificate_of download
  certificate_of-Keeps id order =
      search (keeps_rules, Engine.get_certificate-Keeps W.outside K) depth 20

  pub ask_certificate-Keeps : (conn : Connection) (id : Text) → Keeps P (ask_certificate W conn id)
  unfolding ask_certificate
  ask_certificate-Keeps conn id =
      search
        (
          keeps_rules,
          ensure_account-Keeps,
          certificate_of-Keeps,
          Engine.get_order-Keeps W.outside K,
        )
        depth 20

  revoke_der-Keeps : (der : Text) (reason : ℕ) → Keeps P (revoke_der W der reason)
  unfolding revoke_der
  revoke_der-Keeps der reason = record {
    keep = (Engine.revoke_cert-Keeps W.outside K der reason).keep;
  }

  pub ask_revocation-Keeps :
      (conn : Connection) (der : Text) (reason : ℕ) → Keeps P (ask_revocation W conn der reason)
  unfolding ask_revocation
  ask_revocation-Keeps conn der reason =
      search (keeps_rules, ensure_account-Keeps, revoke_der-Keeps) depth 20

  test_auto-Keeps :
      KeptByDns W P → (conn : Connection) (uri : Text) → Keeps P (test_auto W conn uri)
  unfolding test_auto
  test_auto-Keeps k conn uri = Keeps-bind _ _ (Keeps-lift _) λ _.
      Keeps-bind _ _ (Keeps-lift _)
        λ _. Keeps-bind _ _ (Keeps-in_context _ _ (k _)) λ _. Keeps-pure _

  test_manual-Keeps : (conn : Connection) (uri : Text) → Keeps P (test_manual W conn uri)
  unfolding test_manual
  test_manual-Keeps conn uri = search keeps_rules depth 20

  pub test-Keeps :
      (conn : Connection)
      → ((uri : Text)
          → Keeps P (if is_auto_mode conn then test_auto W conn uri else test_manual W conn uri))
      → Keeps P (test W conn)
  unfolding test
  test-Keeps conn k =
      Keeps-bind _ _ (ensure_account-Keeps conn) λ _. Keeps-bind _ _ (Keeps-gets _) k

  pub test_branch-Keeps :
      KeptByDns W P
      → (conn : Connection) (uri : Text)
      → Keeps P (if is_auto_mode conn then test_auto W conn uri else test_manual W conn uri)
  test_branch-Keeps k conn uri =
      Keeps-if _ _ _ (test_auto-Keeps k conn uri) (test_manual-Keeps conn uri)

  pub test_branch-Keeps_manual :
      (conn : Connection) (uri : Text)
      → is_auto_mode conn ≡ false
      → Keeps P (if is_auto_mode conn then test_auto W conn uri else test_manual W conn uri)
  test_branch-Keeps_manual conn uri manual = rw manual (test_manual-Keeps conn uri)
