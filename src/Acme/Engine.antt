-- ===== src/Acme/Engine.antt =====
-- Invariants of the whole ACME engine, from what its three primitives keep: the directory, the
-- signed POST and the pause of a poll.
pub mod Posts
pub mod Log
pub mod Nonces
pub mod SingleUse
pub mod Answers
pub mod Validated
pub mod Cached
pub mod Reached
use cm_saas_letsencrypt_ca_c.Base.{ℕ, zero, suc, ◌≡◌, Option, none, some, List, Text}
use cm_saas_letsencrypt_ca_c.Errors.{Err}
use cm_saas_letsencrypt_ca_c.Acme.Types.{Authorization, Client}
use cm_saas_letsencrypt_ca_c.Acme.Outside.{Outside}
use cm_saas_letsencrypt_ca_c.Acme.Act.{Session, Act, update}
use cm_saas_letsencrypt_ca_c.Acme.Act.Keeps.{
  Keeps, keeps_rules, Keeps-raise, Keeps-pure, Keeps-bind, Keeps-gets, Keeps-if,
}
use cm_saas_letsencrypt_ca_c.Acme.Client.{directory, post_signed}
use cm_saas_letsencrypt_ca_c.Acme.Account.{register, lookup_account, set_account}
use cm_saas_letsencrypt_ca_c.Acme.Order.{
  new_order, get_order, get_authorization, accept_challenge, finalize, get_certificate,
}
use cm_saas_letsencrypt_ca_c.Acme.Persist.{
  PollConfig, pause, poll_loop, poll_until, settled, wait_for_authz, wait_for_order, fulfil,
  resolve_authorization,
}
use cm_saas_letsencrypt_ca_c.Acme.Revoke.{revoke_cert}

-- What the invariant needs of the primitives.
pub record IsKept (O : Outside) (P : Session → Type 0) : Type 0 where
  pub kept_directory : Keeps P (directory O)
  pub kept_post : (url : Text) (payload : Option Text) → Keeps P (post_signed O url payload)
  pub kept_pause : (interval : ℕ) → Keeps P (pause O interval)
  pub kept_account : (url : Text) → Keeps P (update (set_account url))

module _ (O : Outside) {P : Session → Type 0} (K : IsKept O P) where
  directory_kept : Keeps P (directory O)
  directory_kept = K.kept_directory

  post_kept : (url : Text) (payload : Option Text) → Keeps P (post_signed O url payload)
  post_kept url payload = K.kept_post url payload

  account_kept : (url : Text) → Keeps P (update (set_account url))
  account_kept url = K.kept_account url

  pub register-Keeps : (contacts : List Text) → Keeps P (register O contacts)
  unfolding register
  register-Keeps contacts = search (keeps_rules, directory_kept, post_kept, account_kept) depth 40

  pub lookup_account-Keeps : Keeps P (lookup_account O)
  unfolding lookup_account
  lookup_account-Keeps = search (keeps_rules, directory_kept, post_kept, account_kept) depth 40

  pub new_order-Keeps : (names : List Text) → Keeps P (new_order O names)
  unfolding new_order
  new_order-Keeps names = search (keeps_rules, directory_kept, post_kept) depth 40

  pub get_order-Keeps : (url : Text) → Keeps P (get_order O url)
  unfolding get_order
  get_order-Keeps url = search (keeps_rules, post_kept) depth 40

  pub get_authorization-Keeps : (url : Text) → Keeps P (get_authorization O url)
  unfolding get_authorization
  get_authorization-Keeps url = search (keeps_rules, post_kept) depth 40

  pub accept_challenge-Keeps : (url : Text) → Keeps P (accept_challenge O url)
  unfolding accept_challenge
  accept_challenge-Keeps url = search (keeps_rules, post_kept) depth 40

  pub finalize-Keeps : (url der : Text) → Keeps P (finalize O url der)
  unfolding finalize
  finalize-Keeps url der = search (keeps_rules, post_kept) depth 40

  pub get_certificate-Keeps : (url : Text) → Keeps P (get_certificate O url)
  unfolding get_certificate
  get_certificate-Keeps url = search (keeps_rules, post_kept) depth 40

  pub revoke_cert-Keeps : (der : Text) (reason : ℕ) → Keeps P (revoke_cert O der reason)
  unfolding revoke_cert
  revoke_cert-Keeps der reason = search (keeps_rules, directory_kept, post_kept) depth 40

  module _ {A : Type 0} (fetch : Act A) (status : A → Text) (timed_out : A → Err)
      (k_fetch : Keeps P fetch) where
    poll_loop-Keeps :
        (rounds deadline interval : ℕ)
        → Keeps P (poll_loop O fetch status timed_out rounds deadline interval)
    unfolding poll_loop
    poll_loop-Keeps zero deadline interval = Keeps-pure none
    poll_loop-Keeps (suc rounds) deadline interval = Keeps-bind _ _ k_fetch λ a.
        Keeps-bind _ _ (Keeps-gets _) λ now.
          Keeps-if _ _ _
            (Keeps-if _ _ _ (Keeps-raise _) (
              Keeps-bind _ _ (K.kept_pause interval) λ _. poll_loop-Keeps rounds deadline interval))
            (Keeps-pure _)

    poll_until-Keeps : (poll : PollConfig) → Keeps P (poll_until O fetch status timed_out poll)
    unfolding poll_until
    poll_until-Keeps poll =
        Keeps-bind _ _ (Keeps-gets _) λ start. Keeps-bind _ _ (poll_loop-Keeps _ _ _) settled-Keeps
      where
        settled-Keeps : (found : Option A) → Keeps P (settled O fetch status timed_out found)
        settled-Keeps none = Keeps-raise _
        settled-Keeps (some a) = Keeps-pure a

  pub wait_for_authz-Keeps : (url : Text) (poll : PollConfig) → Keeps P (wait_for_authz O url poll)
  unfolding wait_for_authz
  wait_for_authz-Keeps url poll =
      poll_until-Keeps (get_authorization O url) _ _ (get_authorization-Keeps url) poll

  pub wait_for_order-Keeps : (url : Text) (poll : PollConfig) → Keeps P (wait_for_order O url poll)
  unfolding wait_for_order
  wait_for_order-Keeps url poll = poll_until-Keeps (get_order O url) _ _ (get_order-Keeps url) poll

  fulfil-Keeps :
      (url : Text) (poll : PollConfig) (authz : Authorization) → Keeps P (fulfil O url poll authz)
  unfolding fulfil
  fulfil-Keeps url poll authz =
      search (keeps_rules, accept_challenge-Keeps, wait_for_authz-Keeps) depth 40

  pub resolve_authorization-Keeps :
      (url : Text) (poll : PollConfig) → Keeps P (resolve_authorization O url poll)
  unfolding resolve_authorization
  resolve_authorization-Keeps url poll =
      search (keeps_rules, get_authorization-Keeps, fulfil-Keeps) depth 40
