-- ===== src/Errors/Doing.antt =====
-- Functions that change a state and may return an error, for any type of state. What was done
-- before an error stays done.
use cm_saas_letsencrypt_ca_c.Base.{Text}
use cm_saas_letsencrypt_ca_c.Errors.{
  fail, wrap, acme, outside, panicked, spinning, err_text, Result, ok, err, wrap_result,
}

abbrev pub Doing : Type 0 → Type 0 → Type 0
Doing S A = S → Result A × S

abbrev pub or_zero : {A : Type 0} → A → Result A → A
or_zero zero_value (ok a) = a
or_zero zero_value (err e) = zero_value

module _ {S A : Type 0} where
  unfoldable pub pure : A → Doing S A
  pure a s = (ok a, s)

  unfoldable pub lift : Result A → Doing S A
  lift r s = (r, s)

  -- `a, _ := m`: an error is dropped, and the value is then the zero value.
  unfoldable pub ignoring_error : A → Doing S A → Doing S A
  ignoring_error zero_value m s = let (r, s') = m s in (ok (or_zero zero_value r), s')

  -- `fmt.Errorf("context: %w", err)` around what a function does.
  unfoldable pub in_context : Text → Doing S A → Doing S A
  in_context context m s = let (r, s') = m s in (wrap_result context r, s')

module _ {S A B : Type 0} where
  abbrev pub proceed : Result A → (A → Doing S B) → Doing S B
  proceed (ok a) f s = f a s
  proceed (err e) f s = (err e, s)

  infixl 10 ◌>>=◌ ◌>>◌
  unfoldable pub ◌>>=◌ : Doing S A → (A → Doing S B) → Doing S B
  ◌>>=◌ m f s = let (r, s') = m s in proceed r f s'

  abbrev pub ◌>>◌ : Doing S A → Doing S B → Doing S B
  m >> n = m >>= λ _. n

-- What an HTTP handler answers to the result of an operation, from the text of an error or from the
-- value. A panic is no error that a handler sees.
unfoldable pub answer : {A R : Type 0} → (Text → R) → (A → R) → Result A → Result R
answer bad good (ok a) = ok (good a)
answer bad good (err panicked) = err panicked
answer bad good (err spinning) = err spinning
answer bad good (err (fail m)) = ok (bad (err_text (fail m)))
answer bad good (err (wrap c e)) = ok (bad (err_text (wrap c e)))
answer bad good (err (acme p)) = ok (bad (err_text (acme p)))
answer bad good (err (outside m)) = ok (bad (err_text (outside m)))
