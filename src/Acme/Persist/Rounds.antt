-- ===== src/Acme/Persist/Rounds.antt =====
-- The polls of `waitForAuthz` and `WaitForOrder` of internal/acme/dnspersist.go end.
use native.Mathlib.Nat.{lt-div-mul-add}
use cm_saas_letsencrypt_ca_c.Base.{
  ltb-false, ℕ, zero, suc, ◌+◌, ◌*◌, ◌/◌, ◌≤◌, ◌<◌, ◌≡◌, ◌≢◌, refl, false, Option, none, some, List,
  ◌∷◌, Text, arith, ltb,
}
use cm_saas_letsencrypt_ca_c.Acme.Act.Leads.{
  Anything, Leads, Leads-weaker, Leads-pure, Leads-raise, Leads-lift, Leads-gets, Leads-if_by,
  Leads-absurd, Leads-bind, Keeps-Leads, Leads_result,
}
use cm_saas_letsencrypt_ca_c.Errors.{Err, ok}
use cm_saas_letsencrypt_ca_c.Acme.Outside.{Outside, Event, answered, unanswered, slept}
use cm_saas_letsencrypt_ca_c.Acme.Act.{Session, Act, emit, gets, ◌>>◌}
use cm_saas_letsencrypt_ca_c.Acme.Act.Keeps.{Keeps}
use cm_saas_letsencrypt_ca_c.Acme.Order.{get_order, get_authorization}
use cm_saas_letsencrypt_ca_c.Acme.Persist.{
  PollConfig, with_defaults, or_default, default_poll, rounds_of, is_waiting, pause, poll_loop,
  authz_timeout, order_timeout,
}
use cm_saas_letsencrypt_ca_c.Acme.Engine
use cm_saas_letsencrypt_ca_c.Acme.Engine.Log.{IsClosed, OnLog, engine-IsKept}

-- A clock that does not go back, and that a pause moves by its length.
pub record HasClock (O : Outside) : Type 0 where
  pub never_back : (log : List Event) (e : Event) → O.now log ≤ O.now (e ∷ log)
  pub pause_passes : (log : List Event) (n : ℕ) → O.now log + n ≤ O.now (slept n ∷ log)

or_default-pos : (n d : ℕ) → 0 < d → 0 < or_default n d
or_default-pos zero d h = h
or_default-pos (suc n) d h = omega arith

with_defaults-pos : (p : PollConfig) → 0 < (with_defaults p).interval
unfolding with_defaults
with_defaults-pos p = or_default-pos p.interval default_poll.interval (omega arith)

enough_time :
    (now timeout interval : ℕ)
    → 0 < interval
    → now + timeout < now + suc (timeout / interval) * interval
enough_time now timeout interval h = omega (arith, lt-div-mul-add {a = timeout} h)

module _ (O : Outside) {A : Type 0} (fetch : Act A) (status : A → Text) (timed_out : A → Err)
    (clock : HasClock O)
    (k_fetch : (Q : List Event → Type 0) → IsClosed Q → Keeps (OnLog Q) fetch) where
  -- With `n` intervals more the deadline has passed.
  abbrev Near : ℕ → ℕ → ℕ → List Event → Type 0
  Near deadline interval n log = deadline < O.now log + n * interval

  Near-IsClosed : (deadline interval n : ℕ) → IsClosed (Near deadline interval n)
  Near-IsClosed deadline interval n = record {
    on_answer = λ log req r h. omega (arith, clock.never_back log (answered req r));
    on_silence = λ log req h. omega (arith, clock.never_back log (unanswered req));
    on_pause = λ log m h. omega (arith, clock.never_back log (slept m));
  }

  fetch-Near :
      (deadline interval n : ℕ)
      → Leads
          (OnLog (Near deadline interval n))
          (λ _. OnLog (Near deadline interval n))
          Anything
          fetch
  fetch-Near deadline interval n =
      Keeps-Leads fetch (λ s h. tt)
        (k_fetch (Near deadline interval n) (Near-IsClosed deadline interval n))

  one_nearer :
      (deadline interval n now later : ℕ)
      → deadline < now + suc n * interval
      → now + interval ≤ later
      → deadline < later + n * interval
  one_nearer deadline interval n now later near passed = omega arith

  pause-Near :
      (deadline interval n : ℕ)
      → Leads
          (OnLog (Near deadline interval (suc n)))
          (λ _. OnLog (Near deadline interval n))
          Anything
          (pause O interval)
  unfolding pause emit gets
  pause-Near deadline interval n =
      Leads-bind _ _ (Keeps-Leads (gets _) (λ s h. tt) (record { keep = λ s h. h })) λ log.
        Leads-bind _ _ (Leads-lift (O.cancelled log) (λ a s h. h) (λ s h. tt)) λ _. record {
          lead = λ s h.
              one_nearer deadline interval n (O.now s.log) (O.now (slept interval ∷ s.log)) h
                (clock.pause_passes s.log interval);
        }

  abbrev NotOut : Option A → Session → Type 0
  NotOut found s = found ≢ none

  -- A round, from what follows it.
  round_ends :
      (r deadline interval : ℕ)
      → ((now : ℕ)
          → ltb deadline now ≡ false
          → Leads
              (λ s. OnLog (Near deadline interval r) s × (now ≡ O.now s.log))
              NotOut
              Anything
              (pause O interval >> poll_loop O fetch status timed_out r deadline interval))
      → Leads
          (OnLog (Near deadline interval r))
          NotOut
          Anything
          (poll_loop O fetch status timed_out (suc r) deadline interval)
  unfolding poll_loop
  round_ends r deadline interval again = Leads-bind _ _ (fetch-Near deadline interval r) λ a.
      Leads-bind {Q = λ now s. OnLog (Near deadline interval r) s × (now ≡ O.now s.log)} _ _
        (Leads-gets _ (λ s h. (h, refl)))
        λ now.
          Leads-if_by (is_waiting (status a)) _ _
            (λ waits.
              Leads-if_by (ltb deadline now) _ _ (λ late. Leads-raise _ (λ s h. tt)) (again now))
            (λ done. Leads-pure (some a) (λ s h e. cc))

  loop_ends :
      (r deadline interval : ℕ)
      → Leads
          (OnLog (Near deadline interval r))
          NotOut
          Anything
          (poll_loop O fetch status timed_out (suc r) deadline interval)
  loop_ends zero deadline interval =
      round_ends zero deadline interval
        λ now early. Leads-absurd _ (λ s h. omega (arith, h.0, h.1, ltb-false deadline now early))
  loop_ends (suc r) deadline interval = round_ends (suc r) deadline interval λ now early.
      Leads-weaker _ (λ s h. h.0)
        (Leads-bind _ _ (pause-Near deadline interval r) λ _. loop_ends r deadline interval)

  pub loop_returns :
      (p : PollConfig) (s : Session)
      → (poll_loop O fetch status timed_out
          (rounds_of (with_defaults p))
          (O.now s.log + (with_defaults p).timeout)
          (with_defaults p).interval
          s).0
        ≢ ok none
  unfolding rounds_of
  loop_returns p s e =
      Leads_result NotOut Anything _ (loop_ends _ _ _) s none
        (enough_time (O.now s.log) (with_defaults p).timeout (with_defaults p).interval
          (with_defaults-pos p))
        e refl

-- The rounds of the model are enough: with a clock that does not go back and that a pause moves by
-- its length, the loops of both waits end by themselves before the rounds run out, whatever the
-- server answers and whatever the configured interval and timeout are.
pub waits_end :
    (O : Outside) (url : Text) (p : PollConfig) (s : Session)
    → HasClock O
    → ((poll_loop O
          (get_authorization O url)
          (λ a. a.status)
          (authz_timeout O)
          (rounds_of (with_defaults p))
          (O.now s.log + (with_defaults p).timeout)
          (with_defaults p).interval
          s).0
        ≢ ok none)
      × ((poll_loop O
            (get_order O url)
            (λ a. a.status)
            (order_timeout O)
            (rounds_of (with_defaults p))
            (O.now s.log + (with_defaults p).timeout)
            (with_defaults p).interval
            s).0
          ≢ ok none)
waits_end O url p s clock = (
  loop_returns O (get_authorization O url) (λ a. a.status) (authz_timeout O) clock
      (λ Q closed. Engine.get_authorization-Keeps O (engine-IsKept O closed) url) p s,
  loop_returns O (get_order O url) (λ a. a.status) (order_timeout O) clock
      (λ Q closed. Engine.get_order-Keeps O (engine-IsKept O closed) url) p s,
)
