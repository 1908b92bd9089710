-- ===== src/Acme/Act/Leads.antt =====
-- Conditions before and behind an action: what holds of the result and the state if it returns, and
-- what holds of the state if it fails.
use mathlib.Core.Path.{subst}
use cm_saas_letsencrypt_ca_c.Base.{◌≡◌, refl, Bool, true, false, if◌then◌else◌, Text}
use cm_saas_letsencrypt_ca_c.Errors.{
  Err, fail, wrap, acme, outside, panicked, spinning, Result, ok, err, wrap_result,
}
use cm_saas_letsencrypt_ca_c.Acme.Act.Keeps.{Keeps}
use cm_saas_letsencrypt_ca_c.Acme.Act.{
  Session, Act, pure, raise, lift, gets, in_context, ◌>>=◌, proceed,
}

module _ {A : Type 0} where
  abbrev pub Outcome : (A → Session → Type 0) → (Session → Type 0) → Result A → Session → Type 0
  Outcome Q R (ok a) s = Q a s
  Outcome Q R (err e) s = R s

  pub record Leads (P : Session → Type 0) (Q : A → Session → Type 0) (R : Session → Type 0)
      (m : Act A) : Type 0 where
    pub lead : (s : Session) → P s → Outcome Q R (m s).0 (m s).1

module _ {A : Type 0} (Q : A → Session → Type 0) (R : Session → Type 0) where
  wrap-Outcome :
      (context : Text) (r : Result A) (s : Session)
      → Outcome Q R r s
      → Outcome Q R (wrap_result context r) s
  wrap-Outcome context (ok a) s h = h
  wrap-Outcome context (err panicked) s h = h
  wrap-Outcome context (err (fail m)) s h = h
  wrap-Outcome context (err (wrap c e)) s h = h
  wrap-Outcome context (err (acme p)) s h = h
  wrap-Outcome context (err (outside m)) s h = h
  wrap-Outcome context (err spinning) s h = h

module _ {A B : Type 0} (Q : A → Session → Type 0) (T : B → Session → Type 0)
    (R : Session → Type 0) where
  proceed-Outcome :
      (f : A → Act B)
      → ((a : A) → Leads (Q a) T R (f a))
      → (r : Result A) (s : Session) → Outcome Q R r s
      → Outcome T R (proceed r f s).0 (proceed r f s).1
  proceed-Outcome f lf (ok a) s h = (lf a).lead s h
  proceed-Outcome f lf (err e) s h = h

module _ {A : Type 0} {P : Session → Type 0} {Q : A → Session → Type 0} {R : Session → Type 0} where
  pub Leads-pure : (a : A) → ((s : Session) → P s → Q a s) → Leads P Q R (pure a)
  unfolding pure
  Leads-pure a h = record { lead = h }

  pub Leads-raise : (e : Err) → ((s : Session) → P s → R s) → Leads P Q R (raise {A = A} e)
  unfolding raise
  Leads-raise e h = record { lead = h }

  pub Leads-lift :
      (r : Result A)
      → ((a : A) (s : Session) → P s → Q a s)
      → ((s : Session) → P s → R s)
      → Leads P Q R (lift r)
  unfolding lift
  Leads-lift (ok a) h k = record { lead = h a }
  Leads-lift (err e) h k = record { lead = k }

  -- A result may be used with the equation that it came from.
  pub Leads-lift_by :
      (r : Result A)
      → ((a : A) → r ≡ ok a → (s : Session) → P s → Q a s)
      → ((s : Session) → P s → R s)
      → Leads P Q R (lift r)
  unfolding lift
  Leads-lift_by (ok a) h k = record { lead = h a refl }
  Leads-lift_by (err e) h k = record { lead = k }

  pub Leads-gets : (f : Session → A) → ((s : Session) → P s → Q (f s) s) → Leads P Q R (gets f)
  unfolding gets
  Leads-gets f h = record { lead = h }

  pub Leads-if :
      (b : Bool) (m n : Act A) → Leads P Q R m → Leads P Q R n → Leads P Q R (if b then m else n)
  Leads-if true m n lm ln = lm
  Leads-if false m n lm ln = ln

  -- A branch may use the test that led to it.
  pub Leads-if_by :
      (b : Bool) (m n : Act A)
      → (b ≡ true → Leads P Q R m)
      → (b ≡ false → Leads P Q R n)
      → Leads P Q R (if b then m else n)
  Leads-if_by true m n lm ln = lm refl
  Leads-if_by false m n lm ln = ln refl

  pub Leads-absurd : (m : Act A) → ((s : Session) → P s → ⊥) → Leads P Q R m
  Leads-absurd m h = record { lead = λ s p. absurd (h s p) }

  pub Leads-in_context :
      (context : Text) (m : Act A) → Leads P Q R m → Leads P Q R (in_context context m)
  unfolding in_context
  Leads-in_context context m l = record {
    lead = λ s h. wrap-Outcome Q R context (m s).0 (m s).1 (l.lead s h);
  }

  pub Leads-weaker :
      (m : Act A) {P' : Session → Type 0}
      → ((s : Session) → P' s → P s)
      → Leads P Q R m
      → Leads P' Q R m
  Leads-weaker m w l = record { lead = λ s h. l.lead s (w s h) }

after_Outcome :
    {A : Type 0} (Q T : A → Session → Type 0) (R : Session → Type 0) (r : Result A) (s : Session)
    → ((a : A) (s : Session) → Q a s → T a s)
    → Outcome Q R r s
    → Outcome T R r s
after_Outcome Q T R (ok a) s w h = w a s h
after_Outcome Q T R (err e) s w h = h

pub Leads-after :
    {A : Type 0} {P : Session → Type 0} {Q T : A → Session → Type 0} {R : Session → Type 0}
    (m : Act A)
    → ((a : A) (s : Session) → Q a s → T a s)
    → Leads P Q R m
    → Leads P T R m
Leads-after {Q} {T} {R} m w l = record {
  lead = λ s h. after_Outcome Q T R (m s).0 (m s).1 w (l.lead s h);
}

module _ {A B : Type 0} {P : Session → Type 0} {Q : A → Session → Type 0} {T : B → Session → Type 0}
    {R : Session → Type 0} where
  pub Leads-bind :
      (m : Act A) (f : A → Act B)
      → Leads P Q R m
      → ((a : A) → Leads (Q a) T R (f a))
      → Leads P T R (m >>= f)
  unfolding ◌>>=◌
  Leads-bind m f lm lf = record {
    lead = λ s h. proceed-Outcome Q T R f lf (m s).0 (m s).1 (lm.lead s h);
  }

same-Outcome :
    {A : Type 0} (P R : Session → Type 0) (r : Result A) (s : Session)
    → (P s → R s)
    → P s
    → Outcome (λ (_ : A). P) R r s
same-Outcome P R (ok a) s w h = h
same-Outcome P R (err e) s w h = w h

-- An invariant is condition and result in one, and the other way round.
pub Keeps-Leads :
    {A : Type 0} {P R : Session → Type 0} (m : Act A)
    → ((s : Session) → P s → R s)
    → Keeps P m
    → Leads P (λ (_ : A). P) R m
Keeps-Leads {P} {R} m w k = record {
  lead = λ s h. same-Outcome P R (m s).0 (m s).1 (w (m s).1) (k.keep s h);
}

same_back :
    {A : Type 0} (P : Session → Type 0) (r : Result A) (s : Session)
    → Outcome (λ (_ : A). P) P r s
    → P s
same_back P (ok a) s h = h
same_back P (err e) s h = h

pub Leads-Keeps :
    {A : Type 0} {P : Session → Type 0} (m : Act A) → Leads P (λ (_ : A). P) P m → Keeps P m
Leads-Keeps {P} m l = record { keep = λ s h. same_back P (m s).0 (m s).1 (l.lead s h) }

-- The result of a run that returns.
ok_outcome :
    {A : Type 0} (Q : A → Session → Type 0) (R : Session → Type 0) (r : Result A) (s : Session)
    (a : A)
    → r ≡ ok a
    → Outcome Q R r s
    → Q a s
ok_outcome Q R (ok b) s a e h = subst (λ x. Q x s) (ok-injective e) h
  where
    ok-injective : ok b ≡ ok a → b ≡ a
    ok-injective p = cc
ok_outcome Q R (err x) s a e h = cc

pub Leads_result :
    {A : Type 0} {P : Session → Type 0} (Q : A → Session → Type 0) (R : Session → Type 0)
    (m : Act A)
    → Leads P Q R m
    → (s : Session) (a : A) → P s
    → (m s).0 ≡ ok a
    → Q a (m s).1
Leads_result Q R m l s a h e = ok_outcome Q R (m s).0 (m s).1 a e (l.lead s h)

abbrev pub Anything : Session → Type 0
Anything s = Unit

pub anyway : {A : Type 0} (m : Act A) → Leads Anything (λ _. Anything) Anything m
anyway m = Keeps-Leads m (λ s h. tt) (record { keep = λ s h. tt })
