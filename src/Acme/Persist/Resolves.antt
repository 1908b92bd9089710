-- ===== src/Acme/Persist/Resolves.antt =====
-- ResolveAuthorization of internal/acme/dnspersist.go succeeds at a CA that grants what it checks.
use cm_saas_letsencrypt_ca_c.Base.{
  ℕ, ◌+◌, ◌≤◌, ◌≡◌, refl, true, false, ◌⊎◌, some, Text, text, text_eq, text_eq_iff,
}
use cm_saas_letsencrypt_ca_c.Errors.{Result, ok, err}
use cm_saas_letsencrypt_ca_c.Acme.Types.{Authorization, Challenge, status_valid, status_invalid}
use cm_saas_letsencrypt_ca_c.Acme.Outside.{Outside}
use cm_saas_letsencrypt_ca_c.Acme.Act.{Session, gets, lift, ◌>>=◌}
use cm_saas_letsencrypt_ca_c.Acme.Act.Leads.{
  Anything, Leads, Outcome, Leads-weaker, Leads-pure, Leads-if_by, Leads-absurd, Leads-bind,
}
use cm_saas_letsencrypt_ca_c.Acme.Order.{get_authorization, accept_challenge}
use cm_saas_letsencrypt_ca_c.Acme.Persist.{
  PollConfig, with_defaults, is_waiting, find_challenge, validate_issuer, wait_for_authz, judge,
  fulfil, resolve_authorization,
}
use cm_saas_letsencrypt_ca_c.Acme.Persist.Rounds.{HasClock}
use cm_saas_letsencrypt_ca_c.Acme.Persist.Settles.{
  Never, returns_ok, Settles, ok-Outcome, still_waiting, at_rest, wait_for_authz-settles,
}

abbrev pub IsValid : Authorization → Type 0
IsValid a = text_eq a.status status_valid ≡ true

-- The authorization offers a dns-persist-01 challenge for the issuer of the client, which the CA
-- lets the client accept.
abbrev pub Offered : Outside → (Session → Type 0) → Session → Authorization → Type 0
Offered O Inv s a =
    (ch : Challenge) × (find_challenge a.challenges ≡ some ch)
    × (validate_issuer ch s.client.issuer_domain ≡ ok tt)
    × Leads Inv (λ _. Inv) Never (accept_challenge O ch.url)

-- A CA that offers the challenge, and settles the authorization as valid within the timeout.
pub record Grants (O : Outside) (url : Text) (p : PollConfig) (ready : ℕ) (Inv : Session → Type 0)
    : Type 0 where
  pub settles : Settles O (get_authorization O url) (λ a. a.status) IsValid ready Inv
  pub offers :
      Leads Inv
        (λ a s. is_waiting a.status ≡ true → Offered O Inv s a)
        Anything
        (get_authorization O url)
  pub timely : (s : Session) → Inv s → ready ≤ O.now s.log + (with_defaults p).timeout

both-Outcome :
    {A : Type 0} (Q T : A → Session → Type 0) (R : Session → Type 0) (r : Result A) (s : Session)
    → Outcome Q Never r s
    → Outcome T R r s
    → Outcome (λ a t. Q a t × T a t) Never r s
both-Outcome Q T R (ok a) s h k = (h, k)
both-Outcome Q T R (err e) s h k = h

invalid_rests : (status : Text) → text_eq status status_invalid ≡ true → is_waiting status ≡ false
unfolding text
invalid_rests status h = rw ((text_eq_iff status status_invalid).0 h) refl

module _ (O : Outside) (url : Text) (p : PollConfig) (ready : ℕ) (Inv : Session → Type 0)
    (clock : HasClock O) (G : Grants O url p ready Inv) where
  abbrev IsFetched : Authorization → Session → Type 0
  IsFetched a s =
      ((is_waiting a.status ≡ false) × IsValid a)
      ⊎ ((is_waiting a.status ≡ true) × Inv s × (O.now s.log ≤ ready))

  wait-Leads : Leads Inv (λ a _. IsValid a) Never (wait_for_authz O url p)
  wait-Leads = record {
    lead = λ s h.
        let (a, e, rests, valid) =
          wait_for_authz-settles O url p IsValid ready Inv s clock G.settles h (G.timely s h) in
        ok-Outcome _ _ (wait_for_authz O url p s).0 (wait_for_authz O url p s).1 a e valid;
  }

  judge-Leads : (a : Authorization) → Leads (λ _. IsValid a) (λ _. Anything) Never (judge O a)
  judge-Leads a =
      Leads-if_by (text_eq a.status status_valid) _ _ (λ y. Leads-pure tt (λ s h. tt))
        (λ n. Leads-absurd _ (λ s h. cc))

  accepted-Leads :
      (ch : Challenge)
      → Leads Inv (λ _. Inv) Never (accept_challenge O ch.url)
      → Leads Inv
          (λ _. Anything)
          Never
          (accept_challenge O ch.url >>= λ _. wait_for_authz O url p >>= λ a. judge O a)
  accepted-Leads ch accept = Leads-bind _ _ accept λ _. Leads-bind _ _ wait-Leads judge-Leads

  fulfil-Leads :
      (a : Authorization)
      → Leads (λ s. Inv s × Offered O Inv s a) (λ _. Anything) Never (fulfil O url p a)
  unfolding fulfil ◌>>=◌ lift gets
  fulfil-Leads a = record {
    lead =
        λ s (h, (ch, found, fits, accept)). rw (found, fits) ((accepted-Leads ch accept).lead s h);
  }

  resolve-Leads : Leads Inv (λ _. Anything) Never (resolve_authorization O url p)
  unfolding resolve_authorization
  resolve-Leads =
      Leads-bind {Q = λ a s. IsFetched a s × (is_waiting a.status ≡ true → Offered O Inv s a)} _ _
        (record {
          lead = λ s h.
              both-Outcome _ _ Anything (get_authorization O url s).0 (get_authorization O url s).1
                (G.settles.answers.lead s h) (G.offers.lead s h);
        })
        λ a.
          Leads-if_by (text_eq a.status status_valid) _ _ (λ y. Leads-pure tt (λ s h. tt))
            (λ not_valid.
              Leads-if_by (text_eq a.status status_invalid) _ _
                (λ invalid.
                  Leads-absurd _
                    (λ s h. cc (not_valid, at_rest _ (invalid_rests a.status invalid) h.0)))
                (λ _.
                  Leads-if_by (is_waiting a.status) _ _
                    (λ waits.
                      Leads-weaker _ (λ s h. ((still_waiting _ waits h.0).0, h.1 waits))
                        (fulfil-Leads a))
                    (λ rests. Leads-absurd _ (λ s h. cc (not_valid, at_rest _ rests h.0)))))

-- At a CA that offers a dns-persist-01 challenge for the issuer of the client in each authorization
-- that waits, lets the client accept it, and has the authorization valid from some moment on that
-- lies within the timeout of a wait, with a call that is not cancelled, ResolveAuthorization
-- succeeds.
pub resolve_authorization-grants :
    (O : Outside) (url : Text) (p : PollConfig) (ready : ℕ) (Inv : Session → Type 0) (s : Session)
    → HasClock O
    → Grants O url p ready Inv
    → Inv s
    → (resolve_authorization O url p s).0 ≡ ok tt
resolve_authorization-grants O url p ready Inv s clock G h =
    (returns_ok _ _ _ ((resolve-Leads O url p ready Inv clock G).lead s h)).1
