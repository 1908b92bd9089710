-- ===== src/Acme/Engine/Validated.antt =====
-- `ResolveAuthorization` returns without an error only for an authorization that the CA has reported
-- as valid.
use cm_saas_letsencrypt_ca_c.Acme.Act.Leads.{
  Anything, anyway, Leads, Leads-weaker, Leads-pure, Leads-raise, Leads-lift_by, Leads-gets,
  Leads-if, Leads_result, Leads-if_by, Leads-bind, Leads-in_context,
}
use cm_saas_letsencrypt_ca_c.Base.{
  ℕ, zero, suc, ◌≡◌, refl, Bool, true, false, Option, none, some, List, Text, text_eq, text_eq_iff,
  ltb, ==_iff,
}
use cm_saas_letsencrypt_ca_c.Errors.{Err, ok}
use cm_saas_letsencrypt_ca_c.Acme.Types.{Authorization, Response, status_valid, status_invalid}
use cm_saas_letsencrypt_ca_c.Acme.Outside.{Outside, Event}
use cm_saas_letsencrypt_ca_c.Acme.Act.{Session, Act, gets, lift}
use cm_saas_letsencrypt_ca_c.Acme.Account.{require, is_ok}
use cm_saas_letsencrypt_ca_c.Acme.Order.{get_authorization, accept_challenge}
use cm_saas_letsencrypt_ca_c.Acme.Persist.{
  PollConfig, pause, poll_loop, poll_until, settled, wait_for_authz, judge, record_error, fulfil,
  resolve_authorization, is_waiting,
}
use cm_saas_letsencrypt_ca_c.Acme.Engine.Log.{IsClosed}
use cm_saas_letsencrypt_ca_c.Acme.Engine.Answers.{Answered, post_signed-Posted}

-- A signed request for the URL was answered with this authorization.
pub record Reported (O : Outside) (url : Text) (a : Authorization) (log : List Event) : Type 0 where
  pub answer : Response
  pub in_trace : Answered (λ _. Unit) url answer log
  pub accepted : answer.status ≡ 200
  pub body : O.read_authorization answer.body ≡ ok a

-- The CA has reported the authorization as valid.
pub record Validated (O : Outside) (url : Text) (log : List Event) : Type 0 where
  pub authorization : Authorization
  pub reported : Reported O url authorization log
  pub is_valid : authorization.status ≡ status_valid

module _ (O : Outside) where
  pub anything-IsClosed : IsClosed (λ _. Unit)
  anything-IsClosed = record {
    on_answer = λ log req r h. tt;
    on_silence = λ log req h. tt;
    on_pause = λ log n h. tt;
  }

  pub required : (b : Bool) (e : Err) → require b e ≡ ok tt → b ≡ true
  required true e h = refl
  required false e h = cc

  pub get_authorization-Reported :
      (url : Text)
      → Leads Anything (λ a s. Reported O url a s.log) Anything (get_authorization O url)
  unfolding get_authorization
  get_authorization-Reported url =
      Leads-bind _ _ (Leads-in_context _ _ (post_signed-Posted O anything-IsClosed url none)) λ r.
        Leads-bind {Q = λ _ s. Answered (λ _. Unit) url r s.log × (r.status ≡ 200)} _ _
          (Leads-lift_by _ (λ u e s h. (h.0, (==_iff r.status 200).0 (required (is_ok r) _ e)))
            (λ s h. tt))
          λ _. Leads-in_context _ _ (
            Leads-lift_by _
              (λ a e s h. record { answer = r; in_trace = h.0; accepted = h.1; body = e })
              (λ s h. tt))

  -- What a poll hands on comes from its last fetch.
  abbrev Fetched : {A : Type 0} → (A → Session → Type 0) → Option A → Session → Type 0
  Fetched Q none s = Unit
  Fetched Q (some a) s = Q a s

  module _ {A : Type 0} (fetch : Act A) (status : A → Text) (timed_out : A → Err)
      (Q : A → Session → Type 0) (fetched : Leads Anything Q Anything fetch) where
    poll_loop-Fetched :
        (rounds deadline interval : ℕ)
        → Leads Anything
            (Fetched Q)
            Anything
            (poll_loop O fetch status timed_out rounds deadline interval)
    unfolding poll_loop
    poll_loop-Fetched zero deadline interval = Leads-pure none (λ s h. tt)
    poll_loop-Fetched (suc rounds) deadline interval = Leads-bind _ _ fetched λ a.
        Leads-bind {Q = λ _. Q a} _ _ (Leads-gets _ (λ s h. h)) λ now.
          Leads-if_by (is_waiting (status a)) _ _
            (λ waits.
              Leads-if_by (ltb deadline now) _ _ (λ late. Leads-raise _ (λ s h. tt))
                (λ early.
                  Leads-bind {Q = λ _. Anything} _ _
                    (Leads-weaker _ (λ s h. tt) (anyway (pause O interval)))
                    λ _. poll_loop-Fetched rounds deadline interval))
            (λ done. Leads-pure (some a) (λ s h. h))

    settled-Fetched :
        (found : Option A)
        → Leads (Fetched Q found) Q Anything (settled O fetch status timed_out found)
    settled-Fetched none = Leads-raise _ (λ s h. tt)
    settled-Fetched (some a) = Leads-pure a (λ s h. h)

    poll_until-Fetched :
        (poll : PollConfig) → Leads Anything Q Anything (poll_until O fetch status timed_out poll)
    unfolding poll_until
    poll_until-Fetched poll =
        Leads-bind {Q = λ _. Anything} _ _ (anyway (gets _))
          λ start. Leads-bind _ _ (poll_loop-Fetched _ _ _) settled-Fetched

  wait-Reported :
      (url : Text) (poll : PollConfig)
      → Leads Anything (λ a s. Reported O url a s.log) Anything (wait_for_authz O url poll)
  unfolding wait_for_authz
  wait-Reported url poll =
      poll_until-Fetched (get_authorization O url) _ _ _ (get_authorization-Reported url) poll

  record_error-never :
      {P : Session → Type 0} {Q : Unit {0} → Session → Type 0} (a : Authorization)
      → Leads P Q Anything (record_error O a)
  record_error-never a =
      Leads-bind {Q = λ _. Anything} _ _ (Leads-gets _ (λ s h. tt)) λ c. Leads-raise _ (λ s h. tt)

  judge-Validated :
      (url : Text) (a : Authorization)
      → Leads (λ s. Reported O url a s.log) (λ _ s. Validated O url s.log) Anything (judge O a)
  judge-Validated url a =
      Leads-if_by (text_eq a.status status_valid) _ _
        (λ valid. Leads-pure tt λ s h. record {
          authorization = a;
          reported = h;
          is_valid = (text_eq_iff a.status status_valid).0 valid;
        })
        (λ other. record_error-never a)

  fulfil-Validated :
      (url : Text) (poll : PollConfig) (a : Authorization)
      → Leads Anything (λ _ s. Validated O url s.log) Anything (fulfil O url poll a)
  unfolding fulfil
  fulfil-Validated url poll a = Leads-bind {Q = λ _. Anything} _ _ (anyway (lift _)) λ ch.
      Leads-bind {Q = λ _. Anything} _ _ (anyway (gets _)) λ issuer.
        Leads-bind {Q = λ _. Anything} _ _ (anyway (lift _)) λ _.
          Leads-bind {Q = λ _. Anything} _ _ (anyway (accept_challenge O ch.url))
            λ _. Leads-bind _ _ (wait-Reported url poll) λ final. judge-Validated url final

  pub resolve_authorization-Leads :
      (url : Text) (poll : PollConfig)
      → Leads Anything (λ _ s. Validated O url s.log) Anything (resolve_authorization O url poll)
  unfolding resolve_authorization
  resolve_authorization-Leads url poll = Leads-bind _ _ (get_authorization-Reported url) λ a.
      Leads-if_by (text_eq a.status status_valid) _ _
        (λ valid. Leads-pure tt λ s h. record {
          authorization = a;
          reported = h;
          is_valid = (text_eq_iff a.status status_valid).0 valid;
        })
        (λ other. Leads-if (text_eq a.status status_invalid) _ _ (record_error-never a) (
          Leads-if (is_waiting a.status) _ _
            (Leads-weaker _ (λ s h. tt) (fulfil-Validated url poll a)) (Leads-raise _ (λ s h. tt))))

-- An authorization is resolved without an error only if the CA has answered a signed request for it
-- with status 200 and an authorization in status "valid".
pub resolve_authorization-Validated :
    (O : Outside) (url : Text) (poll : PollConfig) (s : Session)
    → (resolve_authorization O url poll s).0 ≡ ok tt
    → Validated O url (resolve_authorization O url poll s).1.log
resolve_authorization-Validated O url poll s h =
    Leads_result (λ _ t. Validated O url t.log) Anything _ (resolve_authorization-Leads O url poll)
      s tt tt h
