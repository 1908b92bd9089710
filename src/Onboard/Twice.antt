-- ===== src/Onboard/Twice.antt =====
-- cmd/dnspersist-tool/cm.go: `runOnboard` for a customer who was onboarded before.
use cm_saas_letsencrypt_ca_c.Base.{
  ℕ, ◌<◌, ◌∷◌, leb, some, text, ◌≡◌, ◌≢◌, refl, sym, ap, ◌∙◌, arith, Bool, true, false, List, [],
  ◌++◌, Text,
}
use cm_saas_letsencrypt_ca_c.Errors.{ok}
use cm_saas_letsencrypt_ca_c.Errors.Doing.{pure}
use cm_saas_letsencrypt_ca_c.Onboard.Calls.{
  Json, str, arr, obj, nil, cons, end, prop, CmRequest, Exchange, Manager, CmClient, new_cm_client,
  post, call_into,
}
use cm_saas_letsencrypt_ca_c.Onboard.Templates.{create_application}
use cm_saas_letsencrypt_ca_c.Onboard.{with_app, run_onboard, OnboardResult, onboarded}
use cm_saas_letsencrypt_ca_c.Onboard.Posts.{posts, Added, posts-append, AtMost-team_id}
use cm_saas_letsencrypt_ca_c.Onboard.Reuse.{World, Remembers, looked_up}
use cm_saas_letsencrypt_ca_c.Onboard.Gives.{
  Gives, bind-ok, in_context-ok, pure-ok, lift-ok, Sent, call-ok,
}
use cm_saas_letsencrypt_ca_c.Onboard.Again.{onboard_again}

-- At a certificate manager that lists what it holds: once an onboarding has succeeded with a
-- product option, any later onboarding of the same name without an application sends no POST
-- request, and answers the ids of the first.
pub run_onboard_again :
    (M : Manager) (world : List Exchange → World)
    → Remembers M world
    → (key key' plugin plugin' name pem pem' url url' : Text) (domains domains' : List Text)
      (app : Bool) (log : List Exchange) (r : OnboardResult) (log' later : List Exchange)
    → run_onboard M key plugin name pem url domains app log ≡ (ok r, log')
    → r.product_option_id ≢ []
    → let again = run_onboard M key' plugin' name pem' url' domains' false (later ++ log') in
      (again.0 ≡ ok (onboarded name r.ca_id r.product_option_id r.template_id))
      × (posts again.1 ≡ posts (later ++ log'))
unfolding run_onboard pure
run_onboard_again M world R key key' plugin plugin' name pem pem' url url' domains domains' app log
      r log' later h n =
    rw
      (onboard_again M world R (new_cm_client key plugin) name pem url pem' url' domains domains'
        app false log r log' later (new_cm_client key' plugin') h n)
      (refl, omega arith)

Added-none_posted : {log log' : List Exchange} → Added 0 log log' → posts log' ≡ posts log
Added-none_posted {log} a = omega (arith, a.few, ap posts a.goes_on, posts-append a.added log)

-- The body of a request for an application of one team with one issuing template.
abbrev pub application_body : Text → Text → Text → Text → Json
application_body name team template template_id = obj (
    prop (text "name") (str name) (
      prop (text "ownerIdsAndTypes")
        (arr (
          cons
            (obj
              (prop (text "ownerId") (str team) (prop (text "ownerType") (str (text "TEAM")) end)))
            nil))
        (prop (text "certificateIssuingTemplateAliasIdMap")
          (obj (prop template (str template_id) end)) end)))

-- The trace goes on by requests that are no POST, and by a last one that asks for an application of
-- the name and was accepted.
pub record Requested (name template template_id : Text) (log log' : List Exchange) : Type 0 where
  pub team : Text
  pub request : CmRequest
  pub status : ℕ
  pub answer : Text
  pub before : List Exchange
  pub newest : log' ≡ record { request = request; answer = ok (status, answer) } ∷ before
  pub no_post : posts before ≡ posts log
  pub posted : request.method ≡ post
  pub to : request.url ≡ text "https://api.venafi.cloud/outagedetection/v1/applications"
  pub asked : request.body ≡ some (application_body name team template template_id)
  pub accepted : status < 300

goes_back :
    {name template template_id : Text} {log mid log' : List Exchange}
    → posts mid ≡ posts log
    → Requested name template template_id mid log'
    → Requested name template template_id log log'
goes_back e q = record {
  team = q.team;
  request = q.request;
  status = q.status;
  answer = q.answer;
  before = q.before;
  newest = q.newest;
  no_post = q.no_post ∙ e;
  posted = q.posted;
  to = q.to;
  asked = q.asked;
  accepted = q.accepted;
}

small_lem : (status : ℕ) → leb 300 status ≡ false → status < 300
small_lem status h = ground arith

-- A call of `createApplication` that succeeds.
create_application-Requested :
    (M : Manager) (c : CmClient) (name template template_id : Text) (log : List Exchange)
    (id : Text) (log' : List Exchange)
    → Gives (create_application M c name template template_id) log id log'
    → Requested name template template_id log log'
unfolding create_application Sent call_into text
create_application-Requested M c name template template_id log id log' h =
    let (team, log1, h1, k1) = bind-ok _ _ log id log' h in
    let (created, log2, h2, k2) = bind-ok _ _ log1 id log' k1 in
    let (answer, log3, h3, k3) = bind-ok _ _ log1 created log2 h2 in
    let (status, small, _, goes) = call-ok M c post _ _ log1 answer log3 h3 in
    let (_, same) = lift-ok _ created log3 log2 k3 in
    let (_, same') = pure-ok _ id log2 log' k2 in
    record {
      team = team;
      request = _;
      status = status;
      answer = answer;
      before = log1;
      newest = sym same' ∙ (sym same ∙ goes);
      no_post = Added-none_posted (rw h1 at ((AtMost-team_id M c).bound log));
      posted = refl;
      to = refl;
      asked = refl;
      accepted = small_lem status small;
    }

looked_up-posts :
    (M : Manager) (world : List Exchange → World) (R : Remembers M world) (d : CmClient)
    (log : List Exchange)
    → posts (looked_up M world R d log) ≡ posts log
looked_up-posts M world R d log = omega arith

with_app-Requested :
    (M : Manager) (c : CmClient) (name : Text) (r0 r : OnboardResult) (log log' : List Exchange)
    → Gives (with_app M c name true r0) log r log'
    → Requested (name ++ text " app") r0.template_name r0.template_id log log'
with_app-Requested M c name r0 r log log' h =
    let (id, mid, h1, k1) = bind-ok _ _ log r log' h in
    let (_, same) = pure-ok _ r mid log' k1 in
    rw (← same)
      (create_application-Requested M c _ _ _ log id mid (in_context-ok _ _ log id mid h1))

-- At a certificate manager that lists what it holds: once an onboarding has succeeded with a
-- product option, each later onboarding of the same name that asks for an application and succeeds
-- has sent one POST request, its last request, which asks for an application of that name with the
-- first onboarding's template, and was accepted; so it asks for a further application each time.
pub run_onboard_new_app :
    (M : Manager) (world : List Exchange → World)
    → Remembers M world
    → (key key' plugin plugin' name pem pem' url url' : Text) (domains domains' : List Text)
      (app : Bool) (log : List Exchange) (r : OnboardResult) (log' later : List Exchange)
      (r' : OnboardResult) (log'' : List Exchange)
    → run_onboard M key plugin name pem url domains app log ≡ (ok r, log')
    → r.product_option_id ≢ []
    → run_onboard M key' plugin' name pem' url' domains' true (later ++ log') ≡ (ok r', log'')
    → Requested (name ++ text " app") (name ++ text " template") r.template_id (later ++ log') log''
unfolding run_onboard
run_onboard_new_app M world R key key' plugin plugin' name pem pem' url url' domains domains' app
      log r log' later r' log'' h n again =
    let d = new_cm_client key' plugin' in
    let known =
      onboard_again M world R (new_cm_client key plugin) name pem url pem' url' domains domains' app
        true log r log' later d h n in
    let quiet = looked_up-posts M world R d (later ++ log') in
    let last =
      with_app-Requested M d name (onboarded name r.ca_id r.product_option_id r.template_id) r'
        (looked_up M world R d (later ++ log')) log'' (sym known ∙ again) in
    goes_back quiet last
