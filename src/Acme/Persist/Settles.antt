-- ===== src/Acme/Persist/Settles.antt =====
-- The poll of `waitForAuthz` of internal/acme/dnspersist.go succeeds at a CA that settles in time.
use cm_saas_letsencrypt_ca_c.Base.{
  ℕ, zero, suc, ◌+◌, ◌≤◌, ◌≡◌, ◌≢◌, refl, ap, ◌∙◌, true, false, Bool, ◌⊎◌, inl, inr, Option, none,
  some, ◌∷◌, Text, arith, ltb,
}
use cm_saas_letsencrypt_ca_c.Acme.Act.Leads.{
  Leads, Outcome, Leads-weaker, Leads-pure, Leads-gets, Leads-if_by, Leads-absurd, Leads-bind,
}
use cm_saas_letsencrypt_ca_c.Errors.{Err, Result, ok, err}
use cm_saas_letsencrypt_ca_c.Acme.Types.{Authorization}
use cm_saas_letsencrypt_ca_c.Acme.Outside.{Outside, slept}
use cm_saas_letsencrypt_ca_c.Acme.Act.{Session, Act, emit, gets, lift, pure, ◌>>=◌}
use cm_saas_letsencrypt_ca_c.Acme.Order.{get_authorization}
use cm_saas_letsencrypt_ca_c.Acme.Persist.{
  PollConfig, with_defaults, rounds_of, is_waiting, pause, poll_loop, poll_until, authz_timeout,
  wait_for_authz,
}
use cm_saas_letsencrypt_ca_c.Acme.Engine
use cm_saas_letsencrypt_ca_c.Acme.Engine.Log.{engine-IsKept}
use cm_saas_letsencrypt_ca_c.Acme.Persist.Rounds.{HasClock, loop_returns}

abbrev pub Never : Session → Type 0
Never s = ⊥

-- From the states of the invariant on, the fetch succeeds, and what it brings after the moment
-- `ready` has a settled status and what is asked for; the call is not cancelled, and a pause keeps
-- the invariant.
pub record Settles {A : Type 0} (O : Outside) (fetch : Act A) (status : A → Text)
    (Done : A → Type 0) (ready : ℕ) (Inv : Session → Type 0) : Type 0 where
  pub answers :
      Leads Inv
        (λ a s.
          ((is_waiting (status a) ≡ false) × Done a)
          ⊎ ((is_waiting (status a) ≡ true) × Inv s × (O.now s.log ≤ ready)))
        Never
        fetch
  pub lives : (s : Session) → Inv s → O.cancelled s.log ≡ ok tt
  pub rests : (s : Session) (n : ℕ) → Inv s → Inv (record s { log = slept n ∷ s.log })

pub returns_ok :
    {A : Type 0} (Q : A → Session → Type 0) (r : Result A) (s : Session)
    → Outcome Q Never r s
    → (a : A) × (r ≡ ok a) × Q a s
returns_ok Q (ok a) s h = (a, refl, h)
returns_ok Q (err e) s h = absurd h

pub still_waiting :
    {D P Q : Type 0} (b : Bool) → b ≡ true → ((b ≡ false) × D) ⊎ ((b ≡ true) × P × Q) → P × Q
still_waiting b waits (inl (done, d)) = cc
still_waiting b waits (inr (again, h, k)) = (h, k)

pub at_rest : {D P Q : Type 0} (b : Bool) → b ≡ false → ((b ≡ false) × D) ⊎ ((b ≡ true) × P × Q) → D
at_rest b rests (inl (done, d)) = d
at_rest b rests (inr (again, h, k)) = cc

pub ok-Outcome :
    {A : Type 0} (Q : A → Session → Type 0) (R : Session → Type 0) (r : Result A) (s : Session)
    (a : A)
    → r ≡ ok a
    → Q a s
    → Outcome Q R r s
ok-Outcome Q R r s a e q = rw e q

in_time : (deadline now ready : ℕ) → ltb deadline now ≡ true → now ≤ ready → ready ≤ deadline → ⊥
in_time deadline now ready late h p = ground arith

module _ (O : Outside) {A : Type 0} (fetch : Act A) (status : A → Text) (Done : A → Type 0)
    (timed_out : A → Err) (ready : ℕ) (Inv : Session → Type 0)
    (S : Settles O fetch status Done ready Inv) where
  -- What a poll hands on, if the rounds did not run out.
  abbrev IsFound : Option A → Session → Type 0
  IsFound none s = Unit
  IsFound (some a) s = (is_waiting (status a) ≡ false) × Done a

  abbrev IsFetched : A → Session → Type 0
  IsFetched a s =
      ((is_waiting (status a) ≡ false) × Done a)
      ⊎ ((is_waiting (status a) ≡ true) × Inv s × (O.now s.log ≤ ready))

  pause-Inv : (interval : ℕ) → Leads Inv (λ _. Inv) Never (pause O interval)
  unfolding pause emit gets ◌>>=◌ lift
  pause-Inv interval = record { lead = λ s h. rw (S.lives s h) (S.rests s interval h) }

  loop-IsFound :
      (rounds deadline interval : ℕ)
      → ready ≤ deadline
      → Leads Inv IsFound Never (poll_loop O fetch status timed_out rounds deadline interval)
  unfolding poll_loop
  loop-IsFound zero deadline interval p = Leads-pure none (λ s h. tt)
  loop-IsFound (suc rounds) deadline interval p = Leads-bind {Q = IsFetched} _ _ S.answers λ a.
      Leads-bind {Q = λ now s. IsFetched a s × (now ≡ O.now s.log)} _ _
        (Leads-gets _ (λ s h. (h, refl)))
        λ now.
          Leads-if_by (is_waiting (status a)) _ _
            (λ waits.
              Leads-if_by (ltb deadline now) _ _
                (λ late.
                  Leads-absurd _ (λ s h.
                    in_time deadline now ready late (rw h.1 (still_waiting _ waits h.0).1) p))
                (λ early.
                  Leads-weaker _ (λ s h. (still_waiting _ waits h.0).0)
                    (Leads-bind _ _ (pause-Inv interval)
                      λ _. loop-IsFound rounds deadline interval p)))
            (λ done. Leads-pure (some a) (λ s h. (done, at_rest _ done h.0)))

  found_some :
      (found : Option A) (s : Session)
      → found ≢ none
      → IsFound found s
      → (a : A) × (found ≡ some a) × (is_waiting (status a) ≡ false) × Done a
  found_some none s n h = absurd (n refl)
  found_some (some a) s n h = (a, refl, h.0, h.1)

  poll_until-settles :
      (p : PollConfig) (s : Session)
      → Inv s
      → ready ≤ O.now s.log + (with_defaults p).timeout
      → ((poll_loop O fetch status timed_out
            (rounds_of (with_defaults p))
            (O.now s.log + (with_defaults p).timeout)
            (with_defaults p).interval
            s).0
          ≢ ok none)
      → (a : A) × ((poll_until O fetch status timed_out p s).0 ≡ ok a)
        × (is_waiting (status a) ≡ false)
        × Done a
  unfolding poll_until ◌>>=◌ gets pure
  poll_until-settles p s h early ends =
      let loop =
        poll_loop O fetch status timed_out (rounds_of (with_defaults p))
          (O.now s.log + (with_defaults p).timeout) (with_defaults p).interval in
      let (found, e, q) =
        returns_ok IsFound (loop s).0 (loop s).1 ((loop-IsFound _ _ _ early).lead s h) in
      let (a, there, rests, done) = found_some found (loop s).1 (λ z. ends (e ∙ ap ok z)) q in
      (a, rw (e ∙ ap ok there) refl, rests, done)

-- At a CA that answers each poll, with a settled status and what is asked for from some moment on
-- that lies within the timeout, and with a call that is not cancelled, waitForAuthz returns the
-- authorization with a settled status and what is asked for: it neither fails nor times out.
pub wait_for_authz-settles :
    (O : Outside) (url : Text) (p : PollConfig) (Done : Authorization → Type 0) (ready : ℕ)
    (Inv : Session → Type 0) (s : Session)
    → HasClock O
    → Settles O (get_authorization O url) (λ a. a.status) Done ready Inv
    → Inv s
    → ready ≤ O.now s.log + (with_defaults p).timeout
    → (a : Authorization) × ((wait_for_authz O url p s).0 ≡ ok a)
      × (is_waiting a.status ≡ false)
      × Done a
unfolding wait_for_authz
wait_for_authz-settles O url p Done ready Inv s clock S h early =
    poll_until-settles O (get_authorization O url) (λ a. a.status) Done (authz_timeout O) ready Inv
      S p s h early
      (loop_returns O (get_authorization O url) (λ a. a.status) (authz_timeout O) clock
        (λ Q closed. Engine.get_authorization-Keeps O (engine-IsKept O closed) url) p s)
