-- ===== src/Acme/Engine/Cached.antt =====
-- A replay nonce in the cache and in hand, up to the calls that send a request: internal/acme/client.go.
use cm_saas_letsencrypt_ca_c.Base.{◌≡◌, ◌≢◌, refl, Option, none, some, List, [], ◌∷◌, Text}
use cm_saas_letsencrypt_ca_c.Errors.{Result, ok, err}
use cm_saas_letsencrypt_ca_c.Acme.Types.{Directory, Request, get, Response}
use cm_saas_letsencrypt_ca_c.Acme.Outside.{Outside, Event, answered, unanswered}
use cm_saas_letsencrypt_ca_c.Acme.Act.{Session, update, emit, pure, raise, ◌>>=◌}
use cm_saas_letsencrypt_ca_c.Acme.Act.Keeps.{Keeps, keeps_rules, Keeps-bind, Keeps-gets, Keeps-pure}
use cm_saas_letsencrypt_ca_c.Acme.Act.Leads.{Leads, Leads-gets, Leads-bind}
use cm_saas_letsencrypt_ca_c.Acme.Client.{
  send, record_answer, set_dir, fetch_directory, directory, cached_directory,
}
use cm_saas_letsencrypt_ca_c.Acme.Engine.Nonces.{
  IssuesFresh, IsSound, IsReady, IsSpendable, silence-IsSound, answer-IsSound, answer-IsReady,
  get-IsReady,
}

pub record IsSafe (s : Session) : Type 0 where
  pub sound : IsSound s.log
  pub ready : IsReady s.client.nonce s.log

-- Within an operation: nothing is cached, and the nonce `n` may be used.
pub record Holds (n : Text) (s : Session) : Type 0 where
  pub sound : IsSound s.log
  pub ready : IsReady n s.log
  pub nothing_cached : s.client.nonce ≡ []

abbrev pub HoldsUsable : Text → Session → Type 0
HoldsUsable n s = Holds n s × (n ≢ [])

pub IsReady-nil : (log : List Event) (n : Text) → n ≡ [] → IsReady n log
IsReady-nil log n e = record { is_issued = λ p. absurd (p e); is_unused = λ p. absurd (p e) }

pub Holds-IsSafe : (n : Text) (s : Session) → Holds n s → IsSafe s
Holds-IsSafe n s h = record {
  sound = h.sound;
  ready = IsReady-nil s.log s.client.nonce h.nothing_cached;
}

-- GET requests and a new directory change neither condition.
module _ (O : Outside) {P : Session → Type 0}
    (on_answer : (s : Session) (url : Text) (r : Response)
      → P s
      → P (record s { log = answered (get url) r ∷ s.log }))
    (on_silence : (s : Session) (url : Text)
      → P s
      → P (record s { log = unanswered (get url) ∷ s.log }))
    (on_directory : (s : Session) (d : Directory)
      → P s
      → P (record s { client = record s.client { dir = some d } })) where
  pub answer-Keeps : (url : Text) (a : Result Response) → Keeps P (record_answer O (get url) a)
  unfolding ◌>>=◌ emit pure raise
  answer-Keeps url (ok r) = record { keep = λ s h. on_answer s url r h }
  answer-Keeps url (err e) = record { keep = λ s h. on_silence s url h }

  pub send-Keeps : (url : Text) → Keeps P (send O (get url))
  unfolding send
  send-Keeps url = Keeps-bind _ _ (Keeps-gets _) λ log. answer-Keeps url (O.http log (get url))

  pub set_dir-Keeps : (d : Directory) → Keeps P (update (set_dir O d))
  unfolding update set_dir
  set_dir-Keeps d = record { keep = λ s h. on_directory s d h }

  pub fetch_directory-Keeps : Keeps P (fetch_directory O)
  unfolding fetch_directory
  fetch_directory-Keeps = search (keeps_rules, send-Keeps, set_dir-Keeps) depth 40

  pub cached-Keeps : (d : Option Directory) → Keeps P (cached_directory O d)
  cached-Keeps none = fetch_directory-Keeps
  cached-Keeps (some d) = Keeps-pure d

  pub directory-Keeps : Keeps P (directory O)
  unfolding directory
  directory-Keeps = Keeps-bind _ _ (Keeps-gets _) cached-Keeps

module _ (O : Outside) where
  pub directory-IsSafe : Keeps IsSafe (directory O)
  directory-IsSafe =
      directory-Keeps O
        (λ s url r h. record {
          sound = answer-IsSound (get url) s.log tt h.sound r;
          ready = get-IsReady s.client.nonce url r s.log h.ready;
        })
        (λ s url h. record {
          sound = silence-IsSound (get url) s.log tt h.sound;
          ready = record { is_issued = h.ready.is_issued; is_unused = h.ready.is_unused };
        })
        (λ s d h. record { sound = h.sound; ready = h.ready })

  pub directory-Holds : Keeps (Holds []) (directory O)
  directory-Holds =
      directory-Keeps O
        (λ s url r h. record {
          sound = answer-IsSound (get url) s.log tt h.sound r;
          ready = IsReady-nil _ [] refl;
          nothing_cached = h.nothing_cached;
        })
        (λ s url h. record {
          sound = silence-IsSound (get url) s.log tt h.sound;
          ready = IsReady-nil _ [] refl;
          nothing_cached = h.nothing_cached;
        })
        (λ s d h. record { sound = h.sound; ready = h.ready; nothing_cached = h.nothing_cached })

module _ (O : Outside) (fresh : IssuesFresh O) (req : Request) where
  abbrev pub Sendable : Session → Type 0
  Sendable s = IsSpendable req s.log × IsSound s.log × (s.client.nonce ≡ [])

  pub answer-Leads :
      (log : List Event) (a : Result Response)
      → O.http log req ≡ a
      → Leads
          (λ s. Sendable s × (s.log ≡ log))
          (λ r. Holds r.replay_nonce)
          IsSafe
          (record_answer O req a)
  unfolding ◌>>=◌ emit pure raise
  answer-Leads log (ok r) e = record {
    lead = λ s (h, at_log). record {
      sound = answer-IsSound req s.log h.0 h.1 r;
      ready = answer-IsReady req s.log h.0 h.1 r (λ p. rw at_log (fresh log req r e p));
      nothing_cached = h.2;
    };
  }
  answer-Leads log (err x) e = record {
    lead = λ s (h, at_log). record {
      sound = silence-IsSound req s.log h.0 h.1;
      ready = IsReady-nil _ s.client.nonce h.2;
    };
  }

  pub send-Leads : Leads Sendable (λ r. Holds r.replay_nonce) IsSafe (send O req)
  unfolding send
  send-Leads =
      Leads-bind _ _ (Leads-gets (λ s. s.log) (λ s h. (h, refl)))
        λ log. answer-Leads log (O.http log req) refl
