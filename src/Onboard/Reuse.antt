-- ===== src/Onboard/Reuse.antt =====
-- cmd/dnspersist-tool/cm.go: onboarding again under the same name, at a certificate manager that
-- lists what it has.
use cm_saas_letsencrypt_ca_c.Base.{
  ℕ, ◌≡◌, ◌≢◌, refl, ◌∙◌, Bool, false, Option, none, List, [], ◌∷◌, ◌++◌, Text, is_empty, leb,
}
use cm_saas_letsencrypt_ca_c.Errors.{Result, ok}
use cm_saas_letsencrypt_ca_c.Errors.Doing.{pure, lift, ignoring_error, in_context, ◌>>=◌}
use cm_saas_letsencrypt_ca_c.Onboard.Calls.{
  Json, get, post, Exchange, CaAccount, IssuingTemplate, Manager, CmClient, cm_base, call,
  call_into, request_of, exchange,
}
use cm_saas_letsencrypt_ca_c.Onboard.Accounts.{
  accounts_path, options_path, find_named, first_option, find_account, create_ca,
  account_product_option_id, register_product,
}
use cm_saas_letsencrypt_ca_c.Onboard.Templates.{
  templates_path, template_named, template_id_by_name, create_template,
}
use cm_saas_letsencrypt_ca_c.Onboard.{with_app, onboard_with, onboarded, template_of}

-- What the certificate manager holds.
pub record World : Type 0 where
  pub accounts : List CaAccount
  pub templates : List IssuingTemplate

-- A listing is answered by a JSON object that the decoder reads.
pub record Shows {A : Type 0} (M : Manager) (path : Text) (read : Text → Result A)
    (held : List Exchange → A) : Type 0 where
  pub url : M.check_url (cm_base ++ path) ≡ ok tt
  pub body : List Exchange → Text
  pub answered :
      (c : CmClient) (log : List Exchange)
      → M.send log (request_of c get path none) ≡ ok (200, b'{' ∷ body log)
  pub readable : (log : List Exchange) → read (b'{' ∷ body log) ≡ ok (held log)

-- What the tool relies on: the manager lists what it holds, nothing that can be found is replaced,
-- and a product option is listed for its account under the id that its registration answered.
pub record Remembers (M : Manager) (world : List Exchange → World) : Type 0 where
  pub shows_accounts : Shows M accounts_path M.read_accounts (λ log. (world log).accounts)
  pub shows_templates : Shows M templates_path M.read_templates (λ log. (world log).templates)
  pub account_stays :
      (e : Exchange) (log : List Exchange) (name : Text)
      → (find_named name (world log).accounts).0 ≢ []
      → (find_named name (world (e ∷ log)).accounts).0 ≡ (find_named name (world log).accounts).0
  pub option_stays :
      (e : Exchange) (log : List Exchange) (id : Text)
      → first_option id (world log).accounts ≢ []
      → first_option id (world (e ∷ log)).accounts ≡ first_option id (world log).accounts
  pub template_stays :
      (e : Exchange) (log : List Exchange) (name : Text)
      → template_named name (world log).templates ≢ []
      → template_named name (world (e ∷ log)).templates ≡ template_named name (world log).templates
  pub option_listed :
      (c : CmClient) (log : List Exchange) (id : Text) (body : Option Json) (status : ℕ)
      (answer option : Text)
      → leb 300 status ≡ false
      → M.send log (request_of c post (options_path id) body) ≡ ok (status, answer)
      → M.read_id answer ≡ ok option
      → option ≢ []
      → first_option id
          (world (
            exchange (request_of c post (options_path id) body) (ok (status, answer))
            ∷ log)).accounts
        ≡ option

-- The manager holds all that an onboarding creates, beside the application.
pub record Holds (world : List Exchange → World) (name ca option template : Text)
    (log : List Exchange) : Type 0 where
  pub account : (find_named name (world log).accounts).0 ≡ ca
  pub product : first_option ca (world log).accounts ≡ option
  pub templated : template_named (template_of name) (world log).templates ≡ template
  pub has_account : ca ≢ []
  pub has_option : option ≢ []
  pub has_template : template ≢ []

pub is_empty-ne-nil : (s : Text) → s ≢ [] → is_empty s ≡ false
is_empty-ne-nil [] n = absurd (n refl)
is_empty-ne-nil (c ∷ s) n = refl

-- What is found stays found.
pub lasts :
    (f : List Exchange → Text)
    → ((e : Exchange) (log : List Exchange) → f log ≢ [] → f (e ∷ log) ≡ f log)
    → (later log : List Exchange) (id : Text) → f log ≡ id
    → id ≢ []
    → f (later ++ log) ≡ id
lasts f stays [] log id h n = h
lasts f stays (e ∷ later) log id h n =
    let ih = lasts f stays later log id h n in stays e (later ++ log) (rw ih n) ∙ ih

module _ (M : Manager) (world : List Exchange → World) (R : Remembers M world) where
  open R use {
    shows_accounts, shows_templates, account_stays, option_stays, template_stays, option_listed,
  }

  Shows-call_into :
      {A : Type 0} (c : CmClient) (path : Text) (read : Text → Result A) (a : A)
      (held : List Exchange → A) (log : List Exchange)
      → Shows M path read held
      → call_into M c get path none read a log ≡ (
        ok (held log),
        exchange (request_of c get path none) (M.send log (request_of c get path none)) ∷ log,
      )
  unfolding call_into call ◌>>=◌ lift
  Shows-call_into c path read a held log h = rw (h.url, h.answered c log, h.readable log) refl

  -- A listing that was asked for.
  abbrev pub got : CmClient → Text → List Exchange → Exchange
  got c path log = exchange (request_of c get path none) (M.send log (request_of c get path none))

  pub find_account_lem :
      (c : CmClient) (name : Text) (log : List Exchange)
      → find_account M c name log
        ≡ (ok (find_named name (world log).accounts), got c accounts_path log ∷ log)
  unfolding find_account ◌>>=◌ pure
  find_account_lem c name log =
      rw (Shows-call_into c accounts_path M.read_accounts [] _ log shows_accounts) refl

  pub option_id_lem :
      (c : CmClient) (id : Text) (log : List Exchange)
      → account_product_option_id M c id log
        ≡ (ok (first_option id (world log).accounts), got c accounts_path log ∷ log)
  unfolding account_product_option_id ◌>>=◌ pure
  option_id_lem c id log =
      rw (Shows-call_into c accounts_path M.read_accounts [] _ log shows_accounts) refl

  pub template_id_lem :
      (c : CmClient) (name : Text) (log : List Exchange)
      → template_id_by_name M c name log
        ≡ (ok (template_named name (world log).templates), got c templates_path log ∷ log)
  unfolding template_id_by_name ◌>>=◌ pure
  template_id_lem c name log =
      rw (Shows-call_into c templates_path M.read_templates [] _ log shows_templates) refl

  create_ca_found :
      (c : CmClient) (name pem url : Text) (prod : Bool) (log : List Exchange) (ca : Text)
      → (find_named name (world log).accounts).0 ≡ ca
      → is_empty ca ≡ false
      → create_ca M c name pem url prod log ≡ (ok ca, got c accounts_path log ∷ log)
  unfolding create_ca ◌>>=◌ ignoring_error pure
  create_ca_found c name pem url prod log ca h n =
      rw (find_account_lem c name log) (rw h (rw n refl))

  register_product_found :
      (c : CmClient) (ca : Text) (log : List Exchange) (option : Text)
      → first_option ca (world log).accounts ≡ option
      → is_empty option ≡ false
      → register_product M c ca log ≡ (ok option, got c accounts_path log ∷ log)
  unfolding register_product ◌>>=◌ ignoring_error pure
  register_product_found c ca log option h n = rw (option_id_lem c ca log) (rw h (rw n refl))

  create_template_found :
      (c : CmClient) (name option : Text) (domains : List Text) (log : List Exchange) (id : Text)
      → template_named name (world log).templates ≡ id
      → is_empty id ≡ false
      → create_template M c name option domains log ≡ (ok id, got c templates_path log ∷ log)
  unfolding create_template ◌>>=◌ ignoring_error pure
  create_template_found c name option domains log id h n =
      rw (template_id_lem c name log) (rw h (rw n refl))

  pub Holds-append :
      (later log : List Exchange) (name ca option template : Text)
      → Holds world name ca option template log
      → Holds world name ca option template (later ++ log)
  Holds-append later log name ca option template h = record {
    account =
        lasts (λ (l : List Exchange). (find_named name (world l).accounts).0)
          (λ e l. account_stays e l name) later log ca h.account h.has_account;
    product =
        lasts (λ (l : List Exchange). first_option ca (world l).accounts)
          (λ e l. option_stays e l ca) later log option h.product h.has_option;
    templated =
        lasts (λ (l : List Exchange). template_named (template_of name) (world l).templates)
          (λ e l. template_stays e l (template_of name)) later log template h.templated
          h.has_template;
    has_account = h.has_account;
    has_option = h.has_option;
    has_template = h.has_template;
  }

  -- The three listings of an onboarding that finds all it needs.
  abbrev pub looked_up : CmClient → List Exchange → List Exchange
  looked_up c log =
      let first = got c accounts_path log ∷ log in
      let second = got c accounts_path first ∷ first in got c templates_path second ∷ second

  pub onboard_with_found :
      (c : CmClient) (name pem url : Text) (domains : List Text) (app : Bool) (log : List Exchange)
      (ca option template : Text)
      → Holds world name ca option template log
      → onboard_with M c name pem url domains app log
        ≡ with_app M c name app (onboarded name ca option template) (looked_up c log)
  unfolding onboard_with ◌>>=◌ in_context
  onboard_with_found c name pem url domains app log ca option template h =
      let first = got c accounts_path log ∷ log in
      let second = got c accounts_path first ∷ first in
      let h1 = Holds-append (got c accounts_path log ∷ []) log name ca option template h in
      let h2 = Holds-append (got c accounts_path first ∷ []) first name ca option template h1 in
      rw (create_ca_found c name pem url false log ca h.account (is_empty-ne-nil ca h.has_account))
        (rw
          (register_product_found c ca first option h1.product
            (is_empty-ne-nil option h1.has_option))
          (rw
            (create_template_found c (template_of name) option domains second template h2.templated
              (is_empty-ne-nil template h2.has_template))
            refl))
