-- ===== src/Onboard/Gives.antt =====
-- cmd/dnspersist-tool/cm.go: what can be said of steps that ended without an error.
use cm_saas_letsencrypt_ca_c.Base.{
  ℕ, ◌≡◌, ◌≢◌, refl, sym, ap, ◌∙◌, arith, Bool, true, false, Option, List, [], ◌∷◌, Text, is_empty,
  if◌then◌else◌, leb,
}
use cm_saas_letsencrypt_ca_c.Errors.{
  Err, Result, ok, err, wrap_result, fail, wrap, acme, outside, panicked, spinning,
}
use cm_saas_letsencrypt_ca_c.Errors.Doing.{pure, lift, in_context, ◌>>=◌, proceed}
use cm_saas_letsencrypt_ca_c.Onboard.Calls.{
  Json, Method, CmRequest, Exchange, Manager, CmClient, Steps, transmit, body_of, call, request_of,
  exchange,
}

-- The steps return a value and leave a trace.
abbrev pub Gives : {A : Type 0} → Steps A → List Exchange → A → List Exchange → Type 0
Gives m log a log' = m log ≡ (ok a, log')

pub proceed-ok :
    {A B : Type 0} (r : Result A) (f : A → Steps B) (mid : List Exchange) (b : B)
    (log' : List Exchange)
    → proceed r f mid ≡ (ok b, log')
    → (a : A) × (r ≡ ok a) × (f a mid ≡ (ok b, log'))
proceed-ok (ok a) f mid b log' h = (a, refl, h)
proceed-ok (err e) f mid b log' h = cc

pub bind-ok :
    {A B : Type 0} (m : Steps A) (f : A → Steps B) (log : List Exchange) (b : B)
    (log' : List Exchange)
    → Gives (m >>= f) log b log'
    → (a : A) × (mid : List Exchange) × Gives m log a mid × Gives (f a) mid b log'
unfolding ◌>>=◌
bind-ok m f log b log' h =
    let (a, e, k) = proceed-ok (m log).0 f (m log).1 b log' h in
    (a, (m log).1, (λ i. (e i, (m log).1)), k)

pub wrap_result-ok :
    {A : Type 0} (t : Text) (r : Result A) (a : A) → wrap_result t r ≡ ok a → r ≡ ok a
wrap_result-ok t (ok b) a h = h
wrap_result-ok t (err (fail m)) a h = cc
wrap_result-ok t (err (wrap c e)) a h = cc
wrap_result-ok t (err (acme p)) a h = cc
wrap_result-ok t (err (outside m)) a h = cc
wrap_result-ok t (err panicked) a h = cc
wrap_result-ok t (err spinning) a h = cc

pub in_context-ok :
    {A : Type 0} (t : Text) (m : Steps A) (log : List Exchange) (a : A) (log' : List Exchange)
    → Gives (in_context t m) log a log'
    → Gives m log a log'
unfolding in_context
in_context-ok t m log a log' h =
    λ i. (wrap_result-ok t (m log).0 a (ap (λ p. p.0) h) i, ap (λ p. p.1) h i)

pub pure-ok :
    {A : Type 0} (a b : A) (log log' : List Exchange)
    → Gives (pure a) log b log'
    → (a ≡ b) × (log ≡ log')
unfolding pure
pure-ok a b log log' h = (cc, cc)

pub lift-ok :
    {A : Type 0} (r : Result A) (b : A) (log log' : List Exchange)
    → Gives (lift r) log b log'
    → (r ≡ ok b) × (log ≡ log')
unfolding lift
lift-ok r b log log' h = (cc, cc)

-- The answer behind a `do` without an error.
unfoldable pub Sent : Manager → CmRequest → List Exchange → Text → List Exchange → Type 0
Sent M request log answer log' =
    (status : ℕ) × (leb 300 status ≡ false)
    × (M.send log request ≡ ok (status, answer))
    × (log' ≡ exchange request (ok (status, answer)) ∷ log)

pub body_of-ok :
    (k : Method) (path : Text) (r : Result (ℕ × Text)) (answer : Text)
    → body_of k path r ≡ ok answer
    → (status : ℕ) × (leb 300 status ≡ false) × (r ≡ ok (status, answer))
body_of-ok k path (err e) answer h = cc
body_of-ok k path (ok (status, body)) answer h = (status, ground arith, ground arith)

pub transmit-ok :
    (M : Manager) (u : Result (Unit {0})) (k : Method) (path : Text) (request : CmRequest)
    (log : List Exchange) (answer : Text) (log' : List Exchange)
    → Gives (transmit M u k path request) log answer log'
    → Sent M request log answer log'
unfolding Sent
transmit-ok M (err e) k path request log answer log' h = cc
transmit-ok M (ok u) k path request log answer log' h =
    let (status, small, sent) = body_of-ok k path (M.send log request) answer (ap (λ p. p.0) h) in
    (
      status,
      small,
      sent,
      sym (ap (λ p. p.1) h) ∙ ap (λ (r : Result (ℕ × Text)). exchange request r ∷ log) sent,
    )

pub call-ok :
    (M : Manager) (c : CmClient) (k : Method) (path : Text) (body : Option Json)
    (log : List Exchange) (answer : Text) (log' : List Exchange)
    → Gives (call M c k path body) log answer log'
    → Sent M (request_of c k path body) log answer log'
unfolding call
call-ok M c k path body log answer log' h = transmit-ok M _ k path _ log answer log' h

-- A check that an id is there.
pub checked-ok :
    (id : Text) (e : Err) (found : Text)
    → (if is_empty id then err e else ok id) ≡ ok found
    → (id ≡ found) × (found ≢ [])
checked-ok [] e found h = cc
checked-ok (d ∷ id) e found h = (ground arith, cc)

module _ (f : List Exchange → Text)
    (stays : (e : Exchange) (log : List Exchange) → f log ≢ [] → f (e ∷ log) ≡ f log) where
  -- A lookup that ends a creation, or that makes it needless.
  pub found-ok :
      (g : Exchange) (log : List Exchange) (id : Text) (log' : List Exchange)
      → (f log ≡ id)
      → (id ≢ [])
      → (g ∷ log ≡ log')
      → (f log' ≡ id) × (id ≢ [])
  found-ok g log id log' e n l = (rw (← l) (stays g log (rw e n) ∙ e), n)

  pub lookup-ok :
      (g : Exchange) (log : List Exchange) (b : Bool) (m : Steps Text) (id : Text)
      (log' : List Exchange)
      → b ≡ is_empty (f log)
      → (Gives m (g ∷ log) id log' → (f log' ≡ id) × (id ≢ []))
      → Gives (if b then m else pure (f log)) (g ∷ log) id log'
      → (f log' ≡ id) × (id ≢ [])
  lookup-ok g log true m id log' e k h = k h
  lookup-ok g log false m id log' e k h =
      let (same, goes) = pure-ok (f log) id (g ∷ log) log' h in
      let there : f log ≢ [] = λ z. let q = e ∙ ap is_empty z in cc in
      found-ok g log id log' same (rw (← same) there) goes
