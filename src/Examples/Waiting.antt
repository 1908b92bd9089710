-- ===== src/Examples/Waiting.antt =====
-- A CA that grants an authorization as soon as its client has waited once.
use mathlib.Core.Path.{subst}
use cm_saas_letsencrypt_ca_c.Base.{
  ℕ, zero, suc, ◌≡◌, ◌≤◌, refl, sym, false, true, some, ◌⊎◌, inl, inr, List, [], ◌∷◌, Text, text,
  arith,
}
use cm_saas_letsencrypt_ca_c.Errors.{Result, ok, err}
use cm_saas_letsencrypt_ca_c.Acme.Types.{Client, Authorization, Response}
use cm_saas_letsencrypt_ca_c.Acme.Outside.{Outside, Event}
use cm_saas_letsencrypt_ca_c.Acme.Act.{Session}
use cm_saas_letsencrypt_ca_c.Acme.Act.Leads.{Leads}
use cm_saas_letsencrypt_ca_c.Acme.Order.{get_authorization, accept_challenge}
use cm_saas_letsencrypt_ca_c.Acme.Persist.{
  is_waiting, default_poll, find_challenge, names_issuer, validate_issuer,
}
use cm_saas_letsencrypt_ca_c.Acme.Persist.Rounds.{HasClock}
use cm_saas_letsencrypt_ca_c.Acme.Persist.Settles.{Never, Settles, ok-Outcome}
use cm_saas_letsencrypt_ca_c.Acme.Persist.Resolves.{IsValid, Offered, Grants}
use cm_saas_letsencrypt_ca_c.Examples.Lab.{
  lab_directory, lab_ca, lab_client, lab_authorization, lab_challenge, lab-HasClock,
}
use cm_saas_letsencrypt_ca_c.Examples.Workshop.{tool_runs}

abbrev progress : ℕ → Text
progress zero = 119 ∷ []
progress (suc n) = []

abbrev authorization_of : Text → Authorization
authorization_of [] = lab_authorization
authorization_of (c ∷ s) = record lab_authorization { status = text "pending" }

abbrev told : Text → Result Response → Result Response
told body (err e) = err e
told body (ok r) = ok (record r { body = body })

abbrev pub slow_ca : Outside
slow_ca = record lab_ca {
  http = λ log req. told (progress (lab_ca.now log)) (lab_ca.http log req);
  read_authorization = λ body. ok (authorization_of body);
}

-- A client with the directory and a nonce in its cache.
abbrev warm : Text → Client
warm n = record lab_client { dir = some lab_directory; nonce = 110 ∷ n }

abbrev pub IsWarm : Session → Type 0
IsWarm s = (n : Text) × (s.client ≡ warm n)

abbrev pub slow_session : Session
slow_session = record { client = warm []; log = [] }

-- What a request for the authorization brings, and an acceptance of the challenge.
abbrev Gets : Session → Type 0
Gets s =
    ((get_authorization slow_ca (5 ∷ []) s).0 ≡ ok (authorization_of (progress (lab_ca.now s.log))))
    × IsWarm (get_authorization slow_ca (5 ∷ []) s).1
    × (lab_ca.now (get_authorization slow_ca (5 ∷ []) s).1.log ≡ lab_ca.now s.log)

abbrev Accepts : Session → Type 0
Accepts s =
    ((accept_challenge slow_ca lab_challenge.url s).0 ≡ ok lab_challenge)
    × IsWarm (accept_challenge slow_ca lab_challenge.url s).1

warm-Gets : (n : Text) (log : List Event) → Gets (record { client = warm n; log = log })
unfolding tool_runs get_authorization
warm-Gets n log = (refl, (_, refl), refl)

warm-Accepts : (n : Text) (log : List Event) → Accepts (record { client = warm n; log = log })
unfolding tool_runs accept_challenge
warm-Accepts n log = (refl, (_, refl))

-- A statement about the warm client holds in each warm session.
from_warm :
    (F : Session → Type 0)
    → ((n : Text) (log : List Event) → F (record { client = warm n; log = log }))
    → (s : Session) → IsWarm s
    → F s
from_warm F f s (n, e) = subst (λ c. F (record { client = c; log = s.log })) (sym e) (f n s.log)

brought-IsFetched :
    (now : ℕ) (t : Session)
    → IsWarm t
    → lab_ca.now t.log ≡ now
    → ((is_waiting (authorization_of (progress now)).status ≡ false)
        × IsValid (authorization_of (progress now)))
      ⊎ ((is_waiting (authorization_of (progress now)).status ≡ true)
          × IsWarm t
          × (slow_ca.now t.log ≤ 0))
unfolding text
brought-IsFetched zero t w e = inr (refl, w, omega (arith, e))
brought-IsFetched (suc n) t w e = inl (refl, refl)

slow-Settles : Settles slow_ca (get_authorization slow_ca (5 ∷ [])) (λ a. a.status) IsValid 0 IsWarm
slow-Settles = record {
  answers = record {
    lead = λ s h.
        let (brought, w, e) = from_warm Gets warm-Gets s h in
        ok-Outcome _ _ (get_authorization slow_ca (5 ∷ []) s).0
          (get_authorization slow_ca (5 ∷ []) s).1 _ brought
          (brought-IsFetched (lab_ca.now s.log) (get_authorization slow_ca (5 ∷ []) s).1 w e);
  };
  lives = λ s h. refl;
  rests = λ s n h. h;
}

accept-IsWarm : Leads IsWarm (λ _. IsWarm) Never (accept_challenge slow_ca lab_challenge.url)
accept-IsWarm = record {
  lead = λ s h.
      let (accepted, w) = from_warm Accepts warm-Accepts s h in
      ok-Outcome _ _ (accept_challenge slow_ca lab_challenge.url s).0
        (accept_challenge slow_ca lab_challenge.url s).1 lab_challenge accepted w;
}

still_offered :
    (now : ℕ) → find_challenge (authorization_of (progress now)).challenges ≡ some lab_challenge
unfolding tool_runs find_challenge
still_offered zero = refl
still_offered (suc n) = refl

warm_issuer :
    (n : Text) (log : List Event) → validate_issuer lab_challenge (warm n).issuer_domain ≡ ok tt
unfolding tool_runs validate_issuer names_issuer
warm_issuer n log = refl

each_offers :
    (now : ℕ) (t : Session) → IsWarm t → Offered slow_ca IsWarm t (authorization_of (progress now))
each_offers now t w = (
  lab_challenge,
  still_offered now,
  from_warm (λ s. validate_issuer lab_challenge s.client.issuer_domain ≡ ok tt) warm_issuer t w,
  accept-IsWarm,
)

pub slow-Grants : Grants slow_ca (5 ∷ []) default_poll 0 IsWarm
slow-Grants = record {
  settles = slow-Settles;
  offers = record {
    lead = λ s h.
        let (brought, w, e) = from_warm Gets warm-Gets s h in
        ok-Outcome _ _ (get_authorization slow_ca (5 ∷ []) s).0
          (get_authorization slow_ca (5 ∷ []) s).1 _ brought
          (λ _. each_offers (lab_ca.now s.log) (get_authorization slow_ca (5 ∷ []) s).1 w);
  };
  timely = λ s h. omega arith;
}

pub slow-HasClock : HasClock slow_ca
slow-HasClock = record {
  never_back = lab-HasClock.never_back;
  pause_passes = lab-HasClock.pause_passes;
}
