-- ===== src/Examples/Remembering.antt =====
-- The certificate manager of the lab lists what was posted, and keeps it.
use cm_saas_letsencrypt_ca_c.Examples.Portal.{
  portal_ca, at_accounts, at_options, at_templates, is_post, is_ok, made, accounts_of, templates_of,
  portal_world, respond, object_id, portal,
}
use mathlib.Core.List.{append_cancel_left, append_cancel_right}
use cm_saas_letsencrypt_ca_c.Base.{
  ℕ, zero, suc, ◌≡◌, ◌≢◌, refl, sym, ap, arith, Bool, true, false, ◌&&◌, Option, List, [], ◌∷◌,
  ◌++◌, Text, text, text_eq, text_eq_refl, text_eq→eq, Bool-cases, inl, inr, leb,
}
use cm_saas_letsencrypt_ca_c.Errors.{ok}
use cm_saas_letsencrypt_ca_c.Onboard.Calls.{
  Json, post, CmRequest, Exchange, CmClient, cm_base, request_of, exchange,
}
use cm_saas_letsencrypt_ca_c.Onboard.Accounts.{
  accounts_path, options_path, find_named, first_option,
}
use cm_saas_letsencrypt_ca_c.Onboard.Templates.{templates_path, template_named}
use cm_saas_letsencrypt_ca_c.Onboard.Reuse.{Shows, Remembers}

pub portal-accounts :
    Shows portal accounts_path portal.read_accounts (λ log. (portal_world log).accounts)
portal-accounts = record {
  url = refl;
  body = λ log. made at_accounts log ∷ made at_options log ∷ [];
  answered = λ c log. rw (text_eq_refl (cm_base ++ accounts_path)) refl;
  readable = λ log. refl;
}

pub templates_apart :
    (text_eq (cm_base ++ templates_path) (cm_base ++ accounts_path) ≡ false)
    × (text_eq (cm_base ++ templates_path) (cm_base ++ options_path portal_ca) ≡ false)
unfolding text
templates_apart = (refl, refl)

pub portal-templates :
    Shows portal templates_path portal.read_templates (λ log. (portal_world log).templates)
portal-templates = record {
  url = refl;
  body = λ log. made at_templates log ∷ [];
  answered = λ c log.
      rw (templates_apart.0, templates_apart.1, text_eq_refl (cm_base ++ templates_path)) refl;
  readable = λ log. refl;
}

pub made-cons :
    (here : CmRequest → Bool) (e : Exchange) (log : List Exchange) (n : ℕ)
    → made here log ≡ suc n
    → (k : ℕ) × (made here (e ∷ log) ≡ suc k)
made-cons here e log n h =
    elim (Bool-cases (here e.request && is_post e.request.method && is_ok e.answer)) [
      | inl here_now ↦ (0, rw here_now refl)
      | inr elsewhere ↦ (n, rw elsewhere h)
    ]

pub accounts_named :
    (name : Text) (a b o p : ℕ)
    → (find_named name (accounts_of (suc a) o)).0 ≡ (find_named name (accounts_of (suc b) p)).0
unfolding find_named
accounts_named name a b zero zero = refl
accounts_named name a b zero (suc p) = ground arith
accounts_named name a b (suc o) zero = ground arith
accounts_named name a b (suc o) (suc p) = refl

pub portal-account_stays :
    (name : Text) (a b o p : ℕ)
    → ((n : ℕ) → a ≡ suc n → (k : ℕ) × (b ≡ suc k))
    → (find_named name (accounts_of a o)).0 ≢ []
    → (find_named name (accounts_of b p)).0 ≡ (find_named name (accounts_of a o)).0
unfolding find_named
portal-account_stays name zero b o p grows h = absurd (h refl)
portal-account_stays name (suc a) b o p grows h =
    let (k, e) = grows a refl in rw e (accounts_named name k a p o)

pub portal-option_stays :
    (id : Text) (a b o p : ℕ)
    → ((n : ℕ) → a ≡ suc n → (k : ℕ) × (b ≡ suc k))
    → ((n : ℕ) → o ≡ suc n → (k : ℕ) × (p ≡ suc k))
    → first_option id (accounts_of a o) ≢ []
    → first_option id (accounts_of b p) ≡ first_option id (accounts_of a o)
unfolding first_option
portal-option_stays id zero b o p grows more h = absurd (h refl)
portal-option_stays id (suc a) b zero p grows more h = ground arith
portal-option_stays id (suc a) b (suc o) p grows more h =
    let (k, e) = grows a refl in let (j, q) = more o refl in rw (e, q) refl

pub portal-template_stays :
    (name : Text) (t u : ℕ)
    → ((n : ℕ) → t ≡ suc n → (k : ℕ) × (u ≡ suc k))
    → template_named name (templates_of t) ≢ []
    → template_named name (templates_of u) ≡ template_named name (templates_of t)
unfolding template_named
portal-template_stays name zero u grows h = absurd (h refl)
portal-template_stays name (suc t) u grows h = let (k, e) = grows t refl in rw e refl

pub options_path_inj :
    (id id' : Text) → cm_base ++ options_path id ≡ cm_base ++ options_path id' → id ≡ id'
options_path_inj id id' h =
    append_cancel_right id id' _ (append_cancel_left _ _ _ (append_cancel_left cm_base _ _ h))

-- An answer to a POST for product options that carries an id.
pub portal-respond :
    (accounts options templates : Bool) (a o t status : ℕ) (answer option : Text)
    → respond accounts options templates post a o t ≡ (status, answer)
    → object_id answer ≡ ok option
    → option ≢ []
    → (options ≡ true) × (option ≡ 111 ∷ []) × ((n : ℕ) × (a ≡ suc n))
portal-respond true options templates a o t status answer option h r n =
    let q = rw (← ap (λ p. p.1) h) at r in absurd (n cc)
portal-respond false true templates zero o t status answer option h r n =
    let q = rw (← ap (λ p. p.1) h) at r in absurd (n cc)
portal-respond false true templates (suc a) o t status answer option h r n =
    let q = rw (← ap (λ p. p.1) h) at r in (refl, cc, (a, refl))
portal-respond false false true a o t status answer option h r n =
    let q = rw (← ap (λ p. p.1) h) at r in absurd (n cc)
portal-respond false false false a o t status answer option h r n =
    let q = rw (← ap (λ p. p.1) h) at r in cc

pub ok_inj : {A : Type 0} {a b : A} → ok a ≡ ok b → a ≡ b
ok_inj h = cc

pub portal-option_listed :
    (c : CmClient) (log : List Exchange) (id : Text) (body : Option Json) (status : ℕ)
    (answer option : Text)
    → leb 300 status ≡ false
    → portal.send log (request_of c post (options_path id) body) ≡ ok (status, answer)
    → portal.read_id answer ≡ ok option
    → option ≢ []
    → first_option id
        (portal_world (
          exchange (request_of c post (options_path id) body) (ok (status, answer)) ∷ log)).accounts
      ≡ option
unfolding first_option
portal-option_listed c log id body status answer option small sent read n =
    let r = request_of c post (options_path id) body in
    let e = exchange r (ok (status, answer)) in
    let (here, same, (m, there)) =
      portal-respond (at_accounts r) (at_options r) (at_templates r) (made at_accounts log)
        (made at_options log) (made at_templates log) status answer option (ok_inj sent) read n in
    let known = options_path_inj id portal_ca (text_eq→eq _ _ here) in
    let (k, still) = made-cons at_accounts e log m there in
    let listed : made at_options (e ∷ log) ≡ 1 = rw here refl in
    let shown : (portal_world (e ∷ log)).accounts ≡ accounts_of (suc k) 1 =
      rw (still, listed) refl in
    rw shown (rw known (sym same))

pub portal-Remembers : Remembers portal portal_world
portal-Remembers = record {
  shows_accounts = portal-accounts;
  shows_templates = portal-templates;
  account_stays = λ e log name. portal-account_stays name _ _ _ _ (made-cons at_accounts e log);
  option_stays = λ e log id.
      portal-option_stays id _ _ _ _ (made-cons at_accounts e log) (made-cons at_options e log);
  template_stays = λ e log name. portal-template_stays name _ _ (made-cons at_templates e log);
  option_listed = portal-option_listed;
}
