-- ===== src/Acme/Act.antt =====
-- Methods that change a state and may return an error. What was done before an error stays done, so
-- the state comes back with the error too.
pub mod Keeps
pub mod Leads
use cm_saas_letsencrypt_ca_c.Base.{List, ◌∷◌, Text}
use cm_saas_letsencrypt_ca_c.Errors.{Err, Result, ok, err, wrap_result}
use cm_saas_letsencrypt_ca_c.Acme.Types.{Client}
use cm_saas_letsencrypt_ca_c.Acme.Outside.{Event}

-- A client in use, and what has happened so far.
pub record Session : Type 0 where
  pub client : Client
  pub log : List Event

abbrev pub Act : Type 0 → Type 0
Act A = Session → Result A × Session

module _ {A : Type 0} where
  unfoldable pub pure : A → Act A
  pure a s = (ok a, s)

  unfoldable pub raise : Err → Act A
  raise e s = (err e, s)

  -- A step that neither reads nor changes the state.
  unfoldable pub lift : Result A → Act A
  lift r s = (r, s)

  unfoldable pub gets : (Session → A) → Act A
  gets f s = (ok (f s), s)

  -- An action whose error gets a context.
  unfoldable pub in_context : Text → Act A → Act A
  in_context context m s = let (r, s') = m s in (wrap_result context r, s')

unfoldable pub emit : Event → Act (Unit {0})
emit e s = (ok tt, record s { log = e ∷ s.log })

unfoldable pub update : (Client → Client) → Act (Unit {0})
update f s = (ok tt, record s { client = f s.client })

module _ {A B : Type 0} where
  abbrev pub proceed : Result A → (A → Act B) → Act B
  proceed (ok a) f s = f a s
  proceed (err e) f s = (err e, s)

  infixl 10 ◌>>=◌ ◌>>◌
  unfoldable pub ◌>>=◌ : Act A → (A → Act B) → Act B
  ◌>>=◌ m f s = let (r, s') = m s in proceed r f s'

  abbrev pub ◌>>◌ : Act A → Act B → Act B
  m >> n = m >>= λ _. n
