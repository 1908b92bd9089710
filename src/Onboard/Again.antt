-- ===== src/Onboard/Again.antt =====
-- cmd/dnspersist-tool/cm.go: what an onboarding that succeeded leaves behind, and what the same
-- onboarding does a second time.
use cm_saas_letsencrypt_ca_c.Base.{
  ℕ, ◌≡◌, ◌≢◌, refl, ap, Bool, true, false, Option, List, [], ◌∷◌, ◌++◌, Text,
}
use cm_saas_letsencrypt_ca_c.Errors.{ok}
use cm_saas_letsencrypt_ca_c.Errors.Doing.{lift, ignoring_error, ◌>>=◌}
use cm_saas_letsencrypt_ca_c.Onboard.Calls.{
  Json, post, Exchange, Manager, CmClient, Steps, decoded, call_into,
}
use cm_saas_letsencrypt_ca_c.Onboard.Accounts.{
  options_path, find_named, first_option, find_account, create_new_ca, create_ca, created_id,
  register_product,
}
use cm_saas_letsencrypt_ca_c.Onboard.Templates.{
  template_named, template_id_by_name, create_new_template, create_template, created_template,
}
use cm_saas_letsencrypt_ca_c.Onboard.{with_app, onboard_with, OnboardResult, onboarded, template_of}
use cm_saas_letsencrypt_ca_c.Onboard.Posts.{
  AtMost, Added, Added-trans, AtMost-register_product, AtMost-create_template, AtMost-with_app,
}
use cm_saas_letsencrypt_ca_c.Onboard.Reuse.{
  World, Remembers, Holds, looked_up, find_account_lem, option_id_lem, template_id_lem,
  Holds-append, onboard_with_found, lasts,
}
use cm_saas_letsencrypt_ca_c.Onboard.Gives.{
  Gives, bind-ok, in_context-ok, pure-ok, lift-ok, Sent, call-ok, checked-ok, found-ok, lookup-ok,
}

module _ (M : Manager) (world : List Exchange → World) (R : Remembers M world) (c : CmClient) where
  open R use {account_stays, option_stays, template_stays, option_listed}

  account_id : Text → List Exchange → Text
  account_id name log = (find_named name (world log).accounts).0

  -- The lookup that ends the creation of an account.
  find_account-created :
      (name : Text) (log : List Exchange) (ca : Text) (log' : List Exchange)
      → Gives (find_account M c name >>= λ found. created_id M c name found.0) log ca log'
      → (account_id name log' ≡ ca) × (ca ≢ [])
  unfolding account_id ◌>>=◌ lift
  find_account-created name log ca log' h =
      let g = rw (find_account_lem M world R c name log) at h in
      let (same, there) = checked-ok _ _ ca (ap (λ p. p.0) g) in
      found-ok (account_id name) (λ e l. account_stays e l name) _ log ca log' same there
        (ap (λ p. p.1) g)

  create_new_ca-ok :
      (name pem url : Text) (log : List Exchange) (ca : Text) (log' : List Exchange)
      → Gives (create_new_ca M c name pem url) log ca log'
      → (account_id name log' ≡ ca) × (ca ≢ [])
  unfolding create_new_ca
  create_new_ca-ok name pem url log ca log' h =
      let (edge, log1, _, h1) = bind-ok _ _ log ca log' h in
      let (sealed, log2, _, h2) = bind-ok _ _ log1 ca log' h1 in
      let (answer, log3, _, h3) = bind-ok _ _ log2 ca log' h2 in
      find_account-created name log3 ca log' h3

  create_ca-ok :
      (name pem url : Text) (prod : Bool) (log : List Exchange) (ca : Text) (log' : List Exchange)
      → Gives (create_ca M c name pem url prod) log ca log'
      → (account_id name log' ≡ ca) × (ca ≢ [])
  unfolding create_ca ◌>>=◌ ignoring_error account_id
  create_ca-ok name pem url prod log ca log' h =
      lookup-ok (account_id name) (λ e l. account_stays e l name) _ log _ _ ca log' refl
        (create_new_ca-ok name pem url _ ca log') (rw (find_account_lem M world R c name log) at h)

  template_id_by_name-created :
      (name : Text) (log : List Exchange) (id : Text) (log' : List Exchange)
      → Gives
          (template_id_by_name M c name >>= λ found. created_template M c name found)
          log
          id
          log'
      → (template_named name (world log').templates ≡ id) × (id ≢ [])
  unfolding ◌>>=◌ lift
  template_id_by_name-created name log id log' h =
      let g = rw (template_id_lem M world R c name log) at h in
      let (same, there) = checked-ok _ _ id (ap (λ p. p.0) g) in
      found-ok (λ l. template_named name (world l).templates) (λ e l. template_stays e l name) _ log
        id log' same there (ap (λ p. p.1) g)

  create_new_template-ok :
      (name option : Text) (domains : List Text) (log : List Exchange) (id : Text)
      (log' : List Exchange)
      → Gives (create_new_template M c name option domains) log id log'
      → (template_named name (world log').templates ≡ id) × (id ≢ [])
  unfolding create_new_template
  create_new_template-ok name option domains log id log' h =
      let (answer, log1, _, h1) = bind-ok _ _ log id log' h in
      template_id_by_name-created name log1 id log' h1

  create_template-ok :
      (name option : Text) (domains : List Text) (log : List Exchange) (id : Text)
      (log' : List Exchange)
      → Gives (create_template M c name option domains) log id log'
      → (template_named name (world log').templates ≡ id) × (id ≢ [])
  unfolding create_template ◌>>=◌ ignoring_error
  create_template-ok name option domains log id log' h =
      lookup-ok (λ l. template_named name (world l).templates) (λ e l. template_stays e l name) _
        log _ _ id log' refl (create_new_template-ok name option domains _ id log')
        (rw (template_id_lem M world R c name log) at h)

  decoded-ok :
      (answer option : Text)
      → decoded M M.read_id [] answer ≡ ok option
      → option ≢ []
      → M.read_id answer ≡ ok option
  decoded-ok [] option h n = absurd (n cc)
  decoded-ok (d ∷ answer) option h n = h

  -- The registration of a product option, whose answer carries its id.
  post_option-ok :
      (ca : Text) (body : Option Json) (log : List Exchange) (option : Text) (log' : List Exchange)
      → Gives (call_into M c post (options_path ca) body M.read_id []) log option log'
      → option ≢ []
      → first_option ca (world log').accounts ≡ option
  unfolding call_into Sent
  post_option-ok ca body log option log' h n =
      let (answer, mid, sent, h1) = bind-ok _ _ log option log' h in
      let (status, small, replied, goes) =
        call-ok M c post (options_path ca) body log answer mid sent in
      let (read, same) = lift-ok (decoded M M.read_id [] answer) option mid log' h1 in
      rw (← same, goes)
        (option_listed c log ca body status answer option small replied
          (decoded-ok answer option read n) n)

  register_product-ok :
      (ca : Text) (log : List Exchange) (option : Text) (log' : List Exchange)
      → Gives (register_product M c ca) log option log'
      → option ≢ []
      → first_option ca (world log').accounts ≡ option
  unfolding register_product ◌>>=◌ ignoring_error
  register_product-ok ca log option log' h n =
      let f = λ (l : List Exchange). first_option ca (world l).accounts in
      (lookup-ok f (λ e l. option_stays e l ca) _ log _ _ option log' refl
        (λ k. (post_option-ok ca _ _ option log' k n, n))
        (rw (option_id_lem M world R c ca log) at h)).0

  lasts-Added :
      (f : List Exchange → Text)
      → ((e : Exchange) (log : List Exchange) → f log ≢ [] → f (e ∷ log) ≡ f log)
      → {n : ℕ} {log log' : List Exchange} {id : Text} → Added n log log'
      → f log ≡ id
      → id ≢ []
      → f log' ≡ id
  lasts-Added f stays {log = log} {id = id} a e n = rw a.goes_on (lasts f stays a.added log id e n)

  Added-Gives :
      {A : Type 0} {n : ℕ} {m : Steps A} {log log' : List Exchange} {a : A}
      → AtMost n m
      → Gives m log a log'
      → Added n log log'
  Added-Gives {log = log} b h = rw h at (b.bound log)

  -- The ids that an onboarding answers.
  abbrev IdsOf : OnboardResult → Text → Text → Text → Type 0
  IdsOf r ca option template =
      (r.ca_id ≡ ca) × (r.product_option_id ≡ option) × (r.template_id ≡ template)

  with_app-ok :
      (name : Text) (app : Bool) (r0 r : OnboardResult) (log log' : List Exchange)
      → Gives (with_app M c name app r0) log r log'
      → IdsOf r r0.ca_id r0.product_option_id r0.template_id
  with_app-ok name false r0 r log log' h =
      let (same, goes) = pure-ok r0 r log log' h in rw (← same) (refl, refl, refl)
  with_app-ok name true r0 r log log' h =
      let (id, mid, _, h1) = bind-ok _ _ log r log' h in
      let (same, goes) = pure-ok _ r mid log' h1 in rw (← same) (refl, refl, refl)

  -- What an onboarding that succeeded leaves behind.
  onboard_with-Holds :
      (name pem url : Text) (domains : List Text) (app : Bool) (log : List Exchange)
      (r : OnboardResult) (log' : List Exchange)
      → Gives (onboard_with M c name pem url domains app) log r log'
      → r.product_option_id ≢ []
      → Holds world name r.ca_id r.product_option_id r.template_id log'
  unfolding onboard_with account_id
  onboard_with-Holds name pem url domains app log r log' h n =
      let (ca, log1, h1, k1) = bind-ok _ _ log r log' h in
      let (option, log2, h2, k2) = bind-ok _ _ log1 r log' k1 in
      let (template, log3, h3, k3) = bind-ok _ _ log2 r log' k2 in
      let (same_ca, same_option, same_template) =
        with_app-ok name app (onboarded name ca option template) r log3 log' k3 in
      let (account, has_account) =
        create_ca-ok name pem url false log ca log1 (in_context-ok _ _ log ca log1 h1) in
      let has_option : option ≢ [] = rw (← same_option) n in
      let product =
        register_product-ok ca log1 option log2 (in_context-ok _ _ log1 option log2 h2)
          has_option in
      let (templated, has_template) =
        create_template-ok (template_of name) option domains log2 template log3
          (in_context-ok _ _ log2 template log3 h3) in
      let later3 = Added-Gives (AtMost-with_app M c name app _) k3 in
      let later2 =
        Added-Gives (AtMost-create_template M c (template_of name) option domains)
          (in_context-ok _ _ log2 template log3 h3) in
      let later1 =
        Added-Gives (AtMost-register_product M c ca) (in_context-ok _ _ log1 option log2 h2) in
      rw (same_ca, same_option, same_template)
        (record {
          account =
              lasts-Added (account_id name) (λ e l. account_stays e l name)
                (Added-trans later1 (Added-trans later2 later3)) account has_account;
          product =
              lasts-Added (λ l. first_option ca (world l).accounts) (λ e l. option_stays e l ca)
                (Added-trans later2 later3) product has_option;
          templated =
              lasts-Added (λ l. template_named (template_of name) (world l).templates)
                (λ e l. template_stays e l (template_of name)) later3 templated has_template;
          has_account = has_account;
          has_option = has_option;
          has_template = has_template;
        })

  -- A second onboarding behind the client goes on where the ids are known.
  pub onboard_again :
      (name pem url pem' url' : Text) (domains domains' : List Text) (app app' : Bool)
      (log : List Exchange) (r : OnboardResult) (log' later : List Exchange) (d : CmClient)
      → Gives (onboard_with M c name pem url domains app) log r log'
      → r.product_option_id ≢ []
      → onboard_with M d name pem' url' domains' app' (later ++ log')
        ≡ with_app M d name app'
            (onboarded name r.ca_id r.product_option_id r.template_id)
            (looked_up M world R d (later ++ log'))
  onboard_again name pem url pem' url' domains domains' app app' log r log' later d h n =
      onboard_with_found M world R d name pem' url' domains' app' (later ++ log') r.ca_id
        r.product_option_id r.template_id
        (Holds-append M world R later log' name r.ca_id r.product_option_id r.template_id
          (onboard_with-Holds name pem url domains app log r log' h n))
