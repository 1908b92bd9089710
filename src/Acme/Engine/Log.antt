-- ===== src/Acme/Engine/Log.antt =====
-- Isolation of the engine: what it adds to the trace are HTTP exchanges and pauses, so a statement
-- about the trace that these cannot break holds behind every operation.
use cm_saas_letsencrypt_ca_c.Base.{ℕ, Option, none, some, List, [], ◌∷◌, Text}
use cm_saas_letsencrypt_ca_c.Errors.{Result, ok, err}
use cm_saas_letsencrypt_ca_c.Acme.Types.{Directory, Client, Request, Response, AccountKey}
use cm_saas_letsencrypt_ca_c.Acme.Outside.{Outside, Event, answered, unanswered, slept}
use cm_saas_letsencrypt_ca_c.Acme.Act.{Session, update, emit}
use cm_saas_letsencrypt_ca_c.Acme.Act.Keeps.{Keeps, keeps_rules, Keeps-bind, Keeps-gets, Keeps-pure}
use cm_saas_letsencrypt_ca_c.Acme.Jws.{sign_jws}
use cm_saas_letsencrypt_ca_c.Acme.Client.{
  send, record_answer, fetch_directory, directory, cached_directory, set_nonce, fetch_nonce,
  take_nonce, get_nonce, keep_nonce, post_once,
}
use cm_saas_letsencrypt_ca_c.Acme.Account.{set_account}
use cm_saas_letsencrypt_ca_c.Acme.Persist.{pause}
use cm_saas_letsencrypt_ca_c.Acme.Engine.{IsKept}
use cm_saas_letsencrypt_ca_c.Acme.Engine.Posts.{post_signed-Keeps}

-- What the events of the engine cannot break.
pub record IsClosed (Q : List Event → Type 0) : Type 0 where
  pub on_answer :
      (log : List Event) (req : Request) (r : Response) → Q log → Q (answered req r ∷ log)
  pub on_silence : (log : List Event) (req : Request) → Q log → Q (unanswered req ∷ log)
  pub on_pause : (log : List Event) (n : ℕ) → Q log → Q (slept n ∷ log)

abbrev pub OnLog : (List Event → Type 0) → Session → Type 0
OnLog Q s = Q s.log

module _ (O : Outside) {Q : List Event → Type 0} (closed : IsClosed Q) where
  update-Keeps : (f : Client → Client) → Keeps (OnLog Q) (update f)
  unfolding update
  update-Keeps f = record { keep = λ s h. h }

  answered-Keeps : (req : Request) (r : Response) → Keeps (OnLog Q) (emit (answered req r))
  unfolding emit
  answered-Keeps req r = record { keep = λ s h. closed.on_answer s.log req r h }

  unanswered-Keeps : (req : Request) → Keeps (OnLog Q) (emit (unanswered req))
  unfolding emit
  unanswered-Keeps req = record { keep = λ s h. closed.on_silence s.log req h }

  slept-Keeps : (n : ℕ) → Keeps (OnLog Q) (emit (slept n))
  unfolding emit
  slept-Keeps n = record { keep = λ s h. closed.on_pause s.log n h }

  record_answer-Keeps :
      (req : Request) (a : Result Response) → Keeps (OnLog Q) (record_answer O req a)
  record_answer-Keeps req (ok r) = search (keeps_rules, answered-Keeps) depth 10
  record_answer-Keeps req (err e) = search (keeps_rules, unanswered-Keeps) depth 10

  send-Keeps : (req : Request) → Keeps (OnLog Q) (send O req)
  unfolding send
  send-Keeps req = Keeps-bind _ _ (Keeps-gets _) λ log. record_answer-Keeps req (O.http log req)

  fetch_directory-Keeps : Keeps (OnLog Q) (fetch_directory O)
  unfolding fetch_directory
  fetch_directory-Keeps = search (keeps_rules, send-Keeps, update-Keeps) depth 40

  cached-Keeps : (d : Option Directory) → Keeps (OnLog Q) (cached_directory O d)
  cached-Keeps none = fetch_directory-Keeps
  cached-Keeps (some d) = Keeps-pure d

  pub directory-Keeps : Keeps (OnLog Q) (directory O)
  unfolding directory
  directory-Keeps = Keeps-bind _ _ (Keeps-gets _) cached-Keeps

  fetch_nonce-Keeps : Keeps (OnLog Q) (fetch_nonce O)
  unfolding fetch_nonce
  fetch_nonce-Keeps = search (keeps_rules, directory-Keeps, send-Keeps) depth 40

  take_nonce-Keeps : (n : Text) → Keeps (OnLog Q) (take_nonce O n)
  take_nonce-Keeps [] = fetch_nonce-Keeps
  take_nonce-Keeps (c ∷ n) = search (keeps_rules, update-Keeps) depth 10

  keep_nonce-Keeps : (n : Text) → Keeps (OnLog Q) (keep_nonce O n)
  keep_nonce-Keeps [] = Keeps-pure tt
  keep_nonce-Keeps (c ∷ n) = update-Keeps (set_nonce O (c ∷ n))

  pub sign_jws-Keeps :
      (k : AccountKey) (p : Option Text) (n u a : Text) → Keeps (OnLog Q) (sign_jws O k p n u a)
  unfolding sign_jws
  sign_jws-Keeps k p n u a = search keeps_rules depth 40

  pub get_nonce-Keeps : Keeps (OnLog Q) (get_nonce O)
  unfolding get_nonce
  get_nonce-Keeps = Keeps-bind _ _ (Keeps-gets _) take_nonce-Keeps

  pub post_once-Keeps : (url : Text) (p : Option Text) → Keeps (OnLog Q) (post_once O url p)
  unfolding post_once
  post_once-Keeps url p =
      search (keeps_rules, get_nonce-Keeps, sign_jws-Keeps, send-Keeps, keep_nonce-Keeps) depth 40

  pause-Keeps : (interval : ℕ) → Keeps (OnLog Q) (pause O interval)
  unfolding pause
  pause-Keeps interval = search (keeps_rules, slept-Keeps) depth 10

  -- The engine keeps every statement about the trace that its own events cannot break.
  pub engine-IsKept : IsKept O (OnLog Q)
  engine-IsKept = record {
    kept_directory = directory-Keeps;
    kept_post = post_signed-Keeps O directory-Keeps post_once-Keeps;
    kept_pause = pause-Keeps;
    kept_account = λ url. update-Keeps (set_account url);
  }
