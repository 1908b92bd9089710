-- ===== src/Onboard/Posts.antt =====
-- cmd/dnspersist-tool/cm.go: how many resources an onboarding can create, whatever is answered.
use cm_saas_letsencrypt_ca_c.Base.{
  ℕ, ◌+◌, ◌≤◌, ◌≡◌, refl, sym, ap, ◌∙◌, ◌++◌, append_assoc, Bool, true, false, Option, none, some,
  List, [], ◌∷◌, Text, is_empty, arith, if◌then◌else◌,
}
use cm_saas_letsencrypt_ca_c.Errors.{Result, ok, err}
use cm_saas_letsencrypt_ca_c.Errors.Doing.{pure, lift, ignoring_error, in_context, ◌>>=◌, proceed}
use cm_saas_letsencrypt_ca_c.Onboard.Calls.{
  Json, Method, get, post, CmRequest, Exchange, Manager, CmClient, new_cm_client, Steps, transmit,
  call, call_into,
}
use cm_saas_letsencrypt_ca_c.Onboard.Accounts.{
  edge_info, find_account, sealed_key, create_new_ca, create_ca, account_product_option_id,
  register_product,
}
use cm_saas_letsencrypt_ca_c.Onboard.Templates.{
  team_id, template_id_by_name, create_new_template, create_template, create_application,
}
use cm_saas_letsencrypt_ca_c.Onboard.{with_app, onboard_with, run_onboard, OnboardResult}

abbrev pub cost : Method → ℕ
cost get = 0
cost post = 1

-- The number of POST requests that were sent.
abbrev pub posts : List Exchange → ℕ
posts [] = 0
posts (e ∷ log) = cost e.request.method + posts log

pub posts-append : (xs ys : List Exchange) → posts (xs ++ ys) ≡ posts xs + posts ys
posts-append [] ys = omega arith
posts-append (e ∷ xs) ys = omega (arith, posts-append xs ys)

-- A trace that goes on from another, by at most so many POST requests.
pub record Added (n : ℕ) (log log' : List Exchange) : Type 0 where
  pub added : List Exchange
  pub goes_on : log' ≡ added ++ log
  pub few : posts added ≤ n

Added-none : (n : ℕ) (log : List Exchange) → Added n log log
Added-none n log = record { added = []; goes_on = refl; few = omega arith }

pub Added-trans : {n k : ℕ} {a b c : List Exchange} → Added n a b → Added k b c → Added (n + k) a c
Added-trans {a = a} p q = record {
  added = q.added ++ p.added;
  goes_on =
      q.goes_on
      ∙ (ap (λ (l : List Exchange). q.added ++ l) p.goes_on ∙ sym (append_assoc q.added p.added a));
  few = omega (arith, p.few, q.few, posts-append q.added p.added);
}

-- The steps only add to the trace, and at most so many POST requests.
pub record AtMost {A : Type 0} (n : ℕ) (m : Steps A) : Type 0 where
  pub bound : (log : List Exchange) → Added n log (m log).1

module _ {A : Type 0} where
  AtMost-pure : {n : ℕ} (a : A) → AtMost n (pure a)
  unfolding pure
  AtMost-pure a = record { bound = Added-none _ }

  AtMost-lift : {n : ℕ} (r : Result A) → AtMost n (lift r)
  unfolding lift
  AtMost-lift r = record { bound = Added-none _ }

  AtMost-ignoring_error : {n : ℕ} (a : A) (m : Steps A) → AtMost n m → AtMost n (ignoring_error a m)
  unfolding ignoring_error
  AtMost-ignoring_error a m h = record { bound = λ log. h.bound log }

  AtMost-in_context : {n : ℕ} (t : Text) (m : Steps A) → AtMost n m → AtMost n (in_context t m)
  unfolding in_context
  AtMost-in_context t m h = record { bound = λ log. h.bound log }

  AtMost-if :
      {n : ℕ} (b : Bool) (m k : Steps A) → AtMost n m → AtMost n k → AtMost n (if b then m else k)
  AtMost-if true m k hm hk = hm
  AtMost-if false m k hm hk = hk

module _ {A B : Type 0} where
  AtMost-proceed :
      {k : ℕ} (r : Result A) (f : A → Steps B)
      → ((a : A) → AtMost k (f a))
      → (log : List Exchange) → Added k log (proceed r f log).1
  AtMost-proceed (ok a) f h log = (h a).bound log
  AtMost-proceed (err e) f h log = Added-none _ log

  AtMost-bind :
      (n k : ℕ) {m : Steps A} {f : A → Steps B}
      → AtMost n m
      → ((a : A) → AtMost k (f a))
      → AtMost (n + k) (m >>= f)
  unfolding ◌>>=◌
  AtMost-bind n k {m} {f} hm hf = record {
    bound = λ log. Added-trans (hm.bound log) (AtMost-proceed (m log).0 f hf (m log).1);
  }

Added-transmit :
    (M : Manager) (u : Result (Unit {0})) (k : Method) (path : Text) (r : CmRequest)
    (log : List Exchange)
    → r.method ≡ k
    → Added (cost k) log (transmit M u k path r log).1
Added-transmit M (err e) k path r log h = Added-none _ log
Added-transmit M (ok _) k path r log h = record {
  added = record { request = r; answer = M.send log r } ∷ [];
  goes_on = refl;
  few = rw (← h) (omega arith);
}

module _ (M : Manager) (c : CmClient) where
  AtMost-call :
      (k : Method) (path : Text) (body : Option Json) → AtMost (cost k) (call M c k path body)
  unfolding call
  AtMost-call k path body = record { bound = λ log. Added-transmit M _ k path _ log refl }

  module _ {A : Type 0} (read : Text → Result A) (a : A) where
    AtMost-get : (path : Text) → AtMost 0 (call_into M c get path none read a)
    unfolding call_into
    AtMost-get path = AtMost-bind 0 0 (AtMost-call get path none) (λ t. AtMost-lift _)

    AtMost-post :
        (path : Text) (body : Json) → AtMost 1 (call_into M c post path (some body) read a)
    unfolding call_into
    AtMost-post path body = AtMost-bind 1 0 (AtMost-call post path (some body)) (λ t. AtMost-lift _)

  AtMost-edge_info : AtMost 0 (edge_info M c)
  unfolding edge_info
  AtMost-edge_info = AtMost-bind 0 0 (AtMost-get _ _ _) λ es.
      AtMost-bind 0 0 (AtMost-lift _) λ e. AtMost-bind 0 0 (AtMost-get _ _ _) λ k. AtMost-pure _

  AtMost-find_account : (name : Text) → AtMost 0 (find_account M c name)
  unfolding find_account
  AtMost-find_account name = AtMost-bind 0 0 (AtMost-get _ _ _) (λ accounts. AtMost-pure _)

  AtMost-sealed_key : (pem key : Text) → AtMost 0 (sealed_key M c pem key)
  AtMost-sealed_key pem key = record { bound = Added-none 0 }

  AtMost-create_new_ca : (name pem url : Text) → AtMost 1 (create_new_ca M c name pem url)
  unfolding create_new_ca
  AtMost-create_new_ca name pem url = AtMost-bind 0 1 AtMost-edge_info λ e.
      AtMost-bind 0 1 (AtMost-sealed_key _ _) λ sealed.
        AtMost-bind 1 0 (AtMost-call post _ _)
          λ _. AtMost-bind 0 0 (AtMost-find_account name) λ found. AtMost-lift _

  AtMost-create_ca :
      (name pem url : Text) (prod : Bool) → AtMost 1 (create_ca M c name pem url prod)
  unfolding create_ca
  AtMost-create_ca name pem url prod =
      AtMost-bind 0 1 (AtMost-ignoring_error _ _ (AtMost-find_account name)) λ found.
        AtMost-if (is_empty found.0) _ _ (AtMost-create_new_ca name pem url) (AtMost-pure _)

  pub AtMost-register_product : (id : Text) → AtMost 1 (register_product M c id)
  unfolding register_product account_product_option_id
  AtMost-register_product id =
      AtMost-bind 0 1
        (AtMost-ignoring_error _ _ (AtMost-bind 0 0 (AtMost-get _ _ _) (λ accounts. AtMost-pure _)))
        λ found. AtMost-if (is_empty found) _ _ (AtMost-post _ _ _ _) (AtMost-pure _)

  AtMost-template_id_by_name : (name : Text) → AtMost 0 (template_id_by_name M c name)
  unfolding template_id_by_name
  AtMost-template_id_by_name name = AtMost-bind 0 0 (AtMost-get _ _ _) (λ templates. AtMost-pure _)

  pub AtMost-create_template :
      (name option : Text) (domains : List Text)
      → AtMost 1 (create_template M c name option domains)
  unfolding create_template create_new_template
  AtMost-create_template name option domains =
      AtMost-bind 0 1 (AtMost-ignoring_error _ _ (AtMost-template_id_by_name name)) λ found.
        AtMost-if (is_empty found) _ _
          (AtMost-bind 1 0 (AtMost-call post _ _)
            λ _. AtMost-bind 0 0 (AtMost-template_id_by_name name) λ id. AtMost-lift _)
          (AtMost-pure _)

  pub AtMost-team_id : AtMost 0 (team_id M c)
  unfolding team_id
  AtMost-team_id = AtMost-bind 0 0 (AtMost-get _ _ _) (λ teams. AtMost-lift _)

  pub AtMost-create_application :
      (name template id : Text) → AtMost 1 (create_application M c name template id)
  unfolding create_application
  AtMost-create_application name template id =
      AtMost-bind 0 1 AtMost-team_id
        λ team. AtMost-bind 1 0 (AtMost-post _ _ _ _) λ created. AtMost-pure _

  pub AtMost-with_app :
      (name : Text) (app : Bool) (r : OnboardResult)
      → AtMost (if app then 1 else 0) (with_app M c name app r)
  AtMost-with_app name false r = AtMost-pure r
  AtMost-with_app name true r =
      AtMost-bind 1 0 (AtMost-in_context _ _ (AtMost-create_application _ _ _)) λ id. AtMost-pure _

  -- The steps before the application.
  AtMost-onboard_with :
      (name pem url : Text) (domains : List Text) (app : Bool)
      → AtMost (1 + (1 + (1 + (if app then 1 else 0)))) (onboard_with M c name pem url domains app)
  unfolding onboard_with
  AtMost-onboard_with name pem url domains app =
      AtMost-bind 1 _ (AtMost-in_context _ _ (AtMost-create_ca name pem url false)) λ ca.
        AtMost-bind 1 _ (AtMost-in_context _ _ (AtMost-register_product ca)) λ option.
          AtMost-bind 1 _ (AtMost-in_context _ _ (AtMost-create_template _ option domains))
            λ id. AtMost-with_app name app _

-- Whatever the certificate manager answers, an onboarding only adds to what was sent, and sends at
-- most three POST requests, one more where an application is asked for.
pub run_onboard-Added :
    (M : Manager) (cm_key plugin_id name pem url : Text) (domains : List Text) (app : Bool)
    (log : List Exchange)
    → Added
        (3 + (if app then 1 else 0))
        log
        (run_onboard M cm_key plugin_id name pem url domains app log).1
unfolding run_onboard
run_onboard-Added M cm_key plugin_id name pem url domains app log =
    let c = new_cm_client cm_key plugin_id in
    let added = (AtMost-onboard_with M c name pem url domains app).bound log in
    record { added = added.added; goes_on = added.goes_on; few = omega (arith, added.few) }
