-- ===== src/Acme/Engine/Answers.antt =====
-- Where the answers of signed requests come from: an answer that the engine hands on is in the trace,
-- and the trace before it has what the caller had made sure of.
use cm_saas_letsencrypt_ca_c.Acme.Act.Leads.{
  Anything, Leads, Leads-weaker, Leads-pure, Leads-raise, Leads-lift, Leads-gets, Leads-if_by,
  Leads-bind, Leads-in_context, Keeps-Leads, Outcome,
}
use cm_saas_letsencrypt_ca_c.Base.{
  ℕ, zero, suc, ◌≡◌, false, Option, none, some, List, [], ◌∷◌, Text, leb, ◌&&◌, ◌==◌,
}
use cm_saas_letsencrypt_ca_c.Errors.{Problem, Result, ok, err}
use cm_saas_letsencrypt_ca_c.Acme.Types.{Client, post, Signed, Response}
use cm_saas_letsencrypt_ca_c.Acme.Outside.{Outside, Event, answered}
use cm_saas_letsencrypt_ca_c.Acme.Act.{Session, Act, update, emit}
use cm_saas_letsencrypt_ca_c.Acme.Act.Keeps.{Keeps}
use cm_saas_letsencrypt_ca_c.Acme.Client.{
  send, record_answer, keep_nonce, post_once, post_loop, post_signed, parse_problem, is_bad_nonce,
}
use cm_saas_letsencrypt_ca_c.Acme.Engine.Log.{
  IsClosed, OnLog, directory-Keeps, post_once-Keeps, get_nonce-Keeps, sign_jws-Keeps,
}

-- A signed request for the URL was answered by `r`, and the trace before it satisfies `P`.
pub data Answered (P : List Event → Type 0) (url : Text) (r : Response) : List Event → Type 0 where
  latest :
      (signed : Signed) (log : List Event)
      → P log
      → Answered P url r (answered (post url signed) r ∷ log)
  earlier : (e : Event) (log : List Event) → Answered P url r log → Answered P url r (e ∷ log)

module _ {P : List Event → Type 0} {url : Text} {r : Response} where
  -- What has been answered stays answered.
  pub Answered-IsClosed : IsClosed (Answered P url r)
  Answered-IsClosed = record {
    on_answer = λ log req s h. earlier _ log h;
    on_silence = λ log req h. earlier _ log h;
    on_pause = λ log n h. earlier _ log h;
  }

-- An action that keeps a condition and reaches another has both behind it.
pub Leads-both :
    {A : Type 0} {P : Session → Type 0} {Q : A → Session → Type 0} (m : Act A)
    → Keeps P m
    → Leads P Q Anything m
    → Leads P (λ a s. P s × Q a s) Anything m
Leads-both {A} {P} {Q} m k l = record {
  lead = λ s h. pair (m s).0 (m s).1 (k.keep s h) (l.lead s h);
}
  where
    pair :
        (r : Result A) (s : Session)
        → P s
        → Outcome Q Anything r s
        → Outcome (λ a t. P t × Q a t) Anything r s
    pair (ok a) s h q = (h, q)
    pair (err e) s h q = tt

pub Keeps-before :
    {A : Type 0} {P : Session → Type 0} (m : Act A) → Keeps P m → Leads P (λ _. P) Anything m
Keeps-before m k = Keeps-Leads m (λ s h. tt) k

module _ (O : Outside) {P : List Event → Type 0} (closed : IsClosed P) where
  record_answer-Answered :
      (url : Text) (signed : Signed) (a : Result Response)
      → Leads
          (OnLog P)
          (λ r s. Answered P url r s.log)
          Anything
          (record_answer O (post url signed) a)
  unfolding emit
  record_answer-Answered url signed (ok r) =
      Leads-bind {Q = λ _ s. Answered P url r s.log} _ _
        (record { lead = λ s h. latest signed s.log h }) λ _. Leads-pure r (λ s h. h)
  record_answer-Answered url signed (err e) =
      Leads-bind {Q = λ _. Anything} _ _ (record { lead = λ s h. tt })
        λ _. Leads-raise e (λ s h. tt)

  send-Answered :
      (url : Text) (signed : Signed)
      → Leads (OnLog P) (λ r s. Answered P url r s.log) Anything (send O (post url signed))
  unfolding send
  send-Answered url signed =
      Leads-bind {Q = λ _. OnLog P} _ _ (Leads-gets _ (λ s h. h))
        λ log. record_answer-Answered url signed _

  update-Answered :
      (url : Text) (r : Response) (f : Client → Client)
      → Leads (λ s. Answered P url r s.log) (λ _ s. Answered P url r s.log) Anything (update f)
  unfolding update
  update-Answered url r f = record { lead = λ s h. h }

  keep_nonce-Answered :
      (url : Text) (r : Response) (n : Text)
      → Leads
          (λ s. Answered P url r s.log)
          (λ _ s. Answered P url r s.log)
          Anything
          (keep_nonce O n)
  keep_nonce-Answered url r [] = Leads-pure tt (λ s h. h)
  keep_nonce-Answered url r (c ∷ n) = update-Answered url r _

  post_once-Answered :
      (url : Text) (payload : Option Text)
      → Leads (OnLog P) (λ r s. Answered P url r s.log) Anything (post_once O url payload)
  unfolding post_once
  post_once-Answered url payload =
      Leads-bind _ _ (Keeps-before _ (get_nonce-Keeps O closed)) λ nonce.
        Leads-bind {Q = λ _. OnLog P} _ _ (Leads-gets _ (λ s h. h)) λ key.
          Leads-bind {Q = λ _. OnLog P} _ _ (Leads-gets _ (λ s h. h)) λ kid.
            Leads-bind _ _ (Keeps-before _ (sign_jws-Keeps O closed key payload nonce url kid))
              λ signed.
                Leads-bind {Q = λ _. OnLog P} _ _ (Leads-lift _ (λ a s h. h) (λ s h. tt)) λ _.
                  Leads-bind _ _ (Leads-in_context _ _ (send-Answered url signed)) λ r.
                    Leads-bind _ _ (keep_nonce-Answered url r r.replay_nonce)
                      λ _. Leads-pure r (λ s h. h)

  -- What a signed POST that returns leaves behind: the answer, which is no error of the server.
  abbrev pub Posted : Text → Response → Session → Type 0
  Posted url r s = Answered P url r s.log × (leb 400 r.status ≡ false)

  -- A round of the loop, from what follows it.
  round-Posted :
      (rounds attempt : ℕ) (last : Option Problem) (url : Text) (payload : Option Text)
      → ((p : Problem)
          → Leads
              (OnLog P)
              (Posted url)
              Anything
              (post_loop O rounds (suc attempt) (some p) url payload))
      → Leads (OnLog P) (Posted url) Anything (post_loop O (suc rounds) attempt last url payload)
  unfolding post_loop
  round-Posted rounds attempt last url payload again =
      Leads-bind _ _
        (Leads-both _ (post_once-Keeps O closed url payload) (post_once-Answered url payload))
        λ r.
          Leads-if_by (leb 400 r.status) _ _
            (λ bad.
              Leads-if_by (attempt == 0 && is_bad_nonce O (parse_problem O r.body r.status)) _ _
                (λ retry. Leads-weaker _ (λ s h. h.0) (again _))
                (λ final. Leads-raise _ (λ s h. tt)))
            (λ good. Leads-pure r (λ s h. (h.1, good)))

  post_loop-Posted :
      (rounds attempt : ℕ) (p : Problem) (url : Text) (payload : Option Text)
      → Leads (OnLog P) (Posted url) Anything (post_loop O rounds attempt (some p) url payload)
  unfolding post_loop
  post_loop-Posted zero attempt p url payload = Leads-raise _ (λ s h. tt)
  post_loop-Posted (suc rounds) attempt p url payload =
      round-Posted rounds attempt (some p) url payload
        λ q. post_loop-Posted rounds (suc attempt) q url payload

  pub post_signed-Posted :
      (url : Text) (payload : Option Text)
      → Leads (OnLog P) (Posted url) Anything (post_signed O url payload)
  unfolding post_signed
  post_signed-Posted url payload =
      Leads-bind _ _ (Keeps-before _ (directory-Keeps O closed))
        λ dir. round-Posted 1 0 none url payload λ p. post_loop-Posted 1 1 p url payload
