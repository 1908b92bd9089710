-- ===== src/Acme/Persist/Settled.antt =====
-- The polls of waitForAuthz and WaitForOrder of internal/acme/dnspersist.go hand on settled resources.
use cm_saas_letsencrypt_ca_c.Base.{ℕ, zero, suc, ◌≡◌, false, Option, none, some, Text, ltb}
use cm_saas_letsencrypt_ca_c.Acme.Act.Leads.{
  Anything, anyway, Leads, Leads-pure, Leads-raise, Leads-if_by, Leads-bind, Leads_result,
}
use cm_saas_letsencrypt_ca_c.Errors.{Err, ok}
use cm_saas_letsencrypt_ca_c.Acme.Types.{Authorization}
use cm_saas_letsencrypt_ca_c.Acme.Outside.{Outside}
use cm_saas_letsencrypt_ca_c.Acme.Act.{Session, Act, gets}
use cm_saas_letsencrypt_ca_c.Acme.Order.{get_authorization}
use cm_saas_letsencrypt_ca_c.Acme.Persist.{
  PollConfig, is_waiting, pause, poll_loop, poll_until, settled, authz_timeout, wait_for_authz,
}

-- What a poll hands on: a resource whose status is settled, if the rounds did not run out.
abbrev pub IsSettled : {A : Type 0} → (A → Text) → Option A → Session → Type 0
IsSettled status none s = Unit
IsSettled status (some a) s = is_waiting (status a) ≡ false

module _ (O : Outside) {A : Type 0} (fetch : Act A) (status : A → Text) (timed_out : A → Err) where
  pub poll_loop-IsSettled :
      (rounds deadline interval : ℕ)
      → Leads Anything
          (IsSettled status)
          Anything
          (poll_loop O fetch status timed_out rounds deadline interval)
  unfolding poll_loop
  poll_loop-IsSettled zero deadline interval = Leads-pure none (λ s h. tt)
  poll_loop-IsSettled (suc rounds) deadline interval = Leads-bind _ _ (anyway fetch) λ a.
      Leads-bind _ _ (anyway (gets _)) λ now.
        Leads-if_by (is_waiting (status a)) _ _
          (λ waits.
            Leads-if_by (ltb deadline now) _ _ (λ late. Leads-raise _ (λ s h. tt))
              (λ early.
                Leads-bind _ _ (anyway (pause O interval))
                  λ _. poll_loop-IsSettled rounds deadline interval))
          (λ done. Leads-pure (some a) (λ s h. done))

  pub settled-Leads :
      (found : Option A)
      → Leads
          (IsSettled status found)
          (λ a s. is_waiting (status a) ≡ false)
          Anything
          (settled O fetch status timed_out found)
  settled-Leads none = Leads-raise _ (λ s h. tt)
  settled-Leads (some a) = Leads-pure a (λ s h. h)

  pub poll_until-IsSettled :
      (poll : PollConfig)
      → Leads Anything
          (λ a s. is_waiting (status a) ≡ false)
          Anything
          (poll_until O fetch status timed_out poll)
  unfolding poll_until
  poll_until-IsSettled poll =
      Leads-bind _ _ (anyway (gets _))
        λ start. Leads-bind _ _ (poll_loop-IsSettled _ _ _) settled-Leads

-- A wait for an authorization that returns one returns it in a status other than "pending" and
-- "processing".
pub wait_for_authz-settled :
    (O : Outside) (url : Text) (poll : PollConfig) (s : Session) (a : Authorization)
    → (wait_for_authz O url poll s).0 ≡ ok a
    → is_waiting a.status ≡ false
unfolding wait_for_authz
wait_for_authz-settled O url poll s a h =
    Leads_result (λ b t. is_waiting b.status ≡ false) Anything _
      (poll_until-IsSettled O (get_authorization O url) (λ b. b.status) (authz_timeout O) poll) s a
      tt h
