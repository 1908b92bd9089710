-- ===== src/Acme/Act/Keeps.antt =====
-- Invariants of actions, one rule for each way in which an action is built.
use cm_saas_letsencrypt_ca_c.Base.{Bool, true, false, if◌then◌else◌, Text}
use cm_saas_letsencrypt_ca_c.Errors.{Err, Result, ok, err}
use cm_saas_letsencrypt_ca_c.Acme.Act.{Session, Act, pure, raise, lift, gets, in_context, ◌>>=◌}

-- Whatever the action returns, the invariant still holds behind it.
pub record Keeps {A : Type 0} (P : Session → Type 0) (m : Act A) : Type 0 where
  pub keep : (s : Session) → P s → P (m s).1

module _ {A : Type 0} {P : Session → Type 0} where
  pub Keeps-pure : (a : A) → Keeps P (pure a)
  unfolding pure
  Keeps-pure a = record { keep = λ s h. h }

  pub Keeps-raise : (e : Err) → Keeps P (raise {A = A} e)
  unfolding raise
  Keeps-raise e = record { keep = λ s h. h }

  pub Keeps-lift : (r : Result A) → Keeps P (lift r)
  unfolding lift
  Keeps-lift r = record { keep = λ s h. h }

  pub Keeps-gets : (f : Session → A) → Keeps P (gets f)
  unfolding gets
  Keeps-gets f = record { keep = λ s h. h }

  pub Keeps-in_context : (context : Text) (m : Act A) → Keeps P m → Keeps P (in_context context m)
  unfolding in_context
  Keeps-in_context context m k = record { keep = λ s h. k.keep s h }

  pub Keeps-if : (b : Bool) (m n : Act A) → Keeps P m → Keeps P n → Keeps P (if b then m else n)
  Keeps-if true m n km kn = km
  Keeps-if false m n km kn = kn

module _ {A B : Type 0} {P : Session → Type 0} where
  Keeps-bind_result :
      (r : Result A) (f : A → Act B) → ((a : A) → Keeps P (f a)) → Keeps P (lift r >>= f)
  unfolding ◌>>=◌ lift
  Keeps-bind_result (ok a) f kf = record { keep = λ s h. (kf a).keep s h }
  Keeps-bind_result (err e) f kf = record { keep = λ s h. h }

  pub Keeps-bind :
      (m : Act A) (f : A → Act B) → Keeps P m → ((a : A) → Keeps P (f a)) → Keeps P (m >>= f)
  unfolding ◌>>=◌ lift
  Keeps-bind m f km kf = record {
    keep = λ s h. let (r, s') = m s in (Keeps-bind_result r f kf).keep s' (km.keep s h);
  }

pub ruleset keeps_rules =
    (Keeps-pure, Keeps-raise, Keeps-lift, Keeps-gets, Keeps-in_context, Keeps-if, Keeps-bind)
