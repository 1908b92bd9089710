-- ===== src/Errors.antt =====
-- Errors as values: the ACME problem documents of internal/acme/types.go with their rendering, and
-- the ways in which the code builds an `error`.
pub mod Laws
pub mod Doing
use cm_saas_letsencrypt_ca_c.Base.{ℕ, ◌++◌, [], ◌∷◌, Option, none, some, Text, text}

pub record Identifier : Type 0 where
  pub kind : Text
  pub value : Text

-- The fields are Type, Detail, Status, Identifier and Subproblems.
mutual
  pub data Problem : Type 0 where
    problem : Text → Text → ℕ → Option Identifier → Problems → Problem

  pub data Problems : Type 0 where
    end : Problems
    more : Problem → Problems → Problems

abbrev pub type_of : Problem → Text
type_of (problem kind detail status identifier subs) = kind

abbrev pub detail_of : Problem → Text
detail_of (problem kind detail status identifier subs) = detail

abbrev pub status_of : Problem → ℕ
status_of (problem kind detail status identifier subs) = status

-- The type and the detail, joined by ": " where both are there.
abbrev pub headline : Text → Text → Text
headline kind [] = kind
headline [] (d ∷ detail) = d ∷ detail
headline (c ∷ kind) (d ∷ detail) = (c ∷ kind) ++ (text ": " ++ (d ∷ detail))

abbrev pub subject : Option Identifier → Text
subject none = []
subject (some i) = i.value ++ text ": "

abbrev pub or_unknown : Text → Text
or_unknown [] = text "unknown acme problem"
or_unknown (c ∷ s) = c ∷ s

-- `Problem.Error`
unfoldable mutual
  pub problem_text : Problem → Text
  problem_text (problem kind detail status identifier subs) =
      or_unknown (headline kind detail ++ sub_texts subs)

  sub_texts : Problems → Text
  sub_texts end = []
  sub_texts (more (problem kind detail status identifier subs) rest) =
      text " ["
      ++ (subject identifier
          ++ (or_unknown (headline kind detail ++ sub_texts subs) ++ (text "]" ++ sub_texts rest)))

-- `errors.New` and `fmt.Errorf` without an inner error; `fmt.Errorf("…: %w", err)`; a problem as
-- an error; an error of a library. `panicked` is a run-time panic, which leaves every function that
-- it passes. `spinning` is no error of the code: it marks a loop of the model that ran out of its
-- rounds.
pub data Err : Type 0 where
  fail : Text → Err
  wrap : Text → Err → Err
  acme : Problem → Err
  outside : Text → Err
  panicked : Err
  spinning : Err

-- `err.Error()`
unfoldable pub err_text : Err → Text
unfolding problem_text
err_text (fail message) = message
err_text (wrap context err) = context ++ (text ": " ++ err_text err)
err_text (acme p) = problem_text p
err_text (outside message) = message
err_text panicked = []
err_text spinning = []

pub data Result {ℓ} (A : Type ℓ) : Type ℓ where
  ok : A → Result A
  err : Err → Result A

infixl 10 ◌>>=◌
abbrev pub ◌>>=◌ {ℓ κ} : {A : Type ℓ} {B : Type κ} → Result A → (A → Result B) → Result B
ok a >>= f = f a
err e >>= f = err e

-- `fmt.Errorf("context: %w", err)` on the way out; a panic passes as it is.
abbrev pub wrap_result {ℓ} : {A : Type ℓ} → Text → Result A → Result A
wrap_result context (ok a) = ok a
wrap_result context (err panicked) = err panicked
wrap_result context (err (fail m)) = err (wrap context (fail m))
wrap_result context (err (wrap c e)) = err (wrap context (wrap c e))
wrap_result context (err (acme p)) = err (wrap context (acme p))
wrap_result context (err (outside m)) = err (wrap context (outside m))
wrap_result context (err spinning) = err spinning
