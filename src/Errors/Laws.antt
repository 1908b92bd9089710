-- ===== src/Errors/Laws.antt =====
-- What the rendering of a problem document gives the operator.
use cm_saas_letsencrypt_ca_c.Base.{◌≡◌, ◌≢◌, refl, [], ◌∷◌, Text, text}
use cm_saas_letsencrypt_ca_c.Errors.{
  Problem, problem, problem_text, or_unknown, Err, fail, wrap, acme, outside, panicked, spinning,
  err, wrap_result,
}

or_unknown-ne-nil : (s : Text) → or_unknown s ≢ []
unfolding text
or_unknown-ne-nil [] h = cc
or_unknown-ne-nil (c ∷ s) h = cc

-- A problem document never renders as the empty text, whatever parts the server left out.
pub problem_text-ne-nil : (p : Problem) → problem_text p ≢ []
unfolding problem_text
problem_text-ne-nil (problem kind detail status identifier subs) = or_unknown-ne-nil _

-- Wrapping an error is an error.
pub wrap_result-err :
    {A : Type 0} (context : Text) (e : Err)
    → (e' : Err) × (wrap_result {A = A} context (err e) ≡ err e')
wrap_result-err context panicked = (_, refl)
wrap_result-err context (fail m) = (_, refl)
wrap_result-err context (wrap c e) = (_, refl)
wrap_result-err context (acme p) = (_, refl)
wrap_result-err context (outside m) = (_, refl)
wrap_result-err context spinning = (_, refl)
