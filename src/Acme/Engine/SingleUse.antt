-- ===== src/Acme/Engine/SingleUse.antt =====
-- Every operation of the engine uses each replay nonce once.
use mathlib.Core.Path.{subst}
use cm_saas_letsencrypt_ca_c.Base.{ℕ, ◌≡◌, refl, Option, [], ◌∷◌, Text, is_empty, if◌then◌else◌}
use cm_saas_letsencrypt_ca_c.Errors.{Err}
use cm_saas_letsencrypt_ca_c.Acme.Types.{AccountKey, head, post, Signed}
use cm_saas_letsencrypt_ca_c.Acme.Outside.{Outside, slept}
use cm_saas_letsencrypt_ca_c.Acme.Act.{Session, update, emit, pure, raise}
use cm_saas_letsencrypt_ca_c.Acme.Act.Keeps.{Keeps, keeps_rules}
use cm_saas_letsencrypt_ca_c.Acme.Act.Leads.{
  Leads, Leads-pure, Leads-raise, Leads-lift, Leads-gets, Leads-in_context, Leads-weaker,
  Leads-bind, Keeps-Leads, Leads-Keeps,
}
use cm_saas_letsencrypt_ca_c.Acme.Jws.{protected_header, sign_jws}
use cm_saas_letsencrypt_ca_c.Acme.Client.{
  directory, set_nonce, fetch_nonce, take_nonce, get_nonce, keep_nonce, post_once,
}
use cm_saas_letsencrypt_ca_c.Acme.Account.{set_account}
use cm_saas_letsencrypt_ca_c.Acme.Persist.{pause}
use cm_saas_letsencrypt_ca_c.Acme.Engine.{IsKept}
use cm_saas_letsencrypt_ca_c.Acme.Engine.Posts.{post_signed-Keeps}
use cm_saas_letsencrypt_ca_c.Acme.Engine.Nonces.{IssuesFresh, IsReady}
use cm_saas_letsencrypt_ca_c.Acme.Engine.Cached.{
  IsSafe, Holds, HoldsUsable, IsReady-nil, Holds-IsSafe, directory-IsSafe, directory-Holds,
  Sendable, send-Leads,
}

-- Between two operations: the cached nonce, if there is one, may be used.
module _ (O : Outside) (fresh : IssuesFresh O) where
  abbrev IsEmpty : Session → Type 0
  IsEmpty = Holds []

  empty-IsSafe : (s : Session) → IsEmpty s → IsSafe s
  empty-IsSafe s h = Holds-IsSafe [] s h

  usable :
      (n : Text) (e : Err)
      → Leads (Holds n) HoldsUsable IsSafe (if is_empty n then raise e else pure n)
  usable [] e = Leads-raise e empty-IsSafe
  usable (c ∷ n) e = Leads-pure (c ∷ n) (λ s h. (h, λ p. cc))

  Sendable-head : (url : Text) (s : Session) → IsEmpty s → Sendable O fresh (head url) s
  Sendable-head url s h = (tt, h.sound, h.nothing_cached)

  fetch_nonce-Leads : Leads IsEmpty HoldsUsable IsSafe (fetch_nonce O)
  unfolding fetch_nonce
  fetch_nonce-Leads =
      Leads-bind _ _ (Keeps-Leads (directory O) empty-IsSafe (directory-Holds O)) λ dir.
        Leads-bind _ _ (Leads-lift (O.check_url dir.new_nonce) (λ _ s h. h) empty-IsSafe) λ _.
          Leads-bind _ _
            (Leads-in_context _ _ (
              Leads-weaker _ (Sendable-head dir.new_nonce)
                (send-Leads O fresh (head dir.new_nonce))))
            λ r. usable r.replay_nonce _

  -- What `get_nonce` finds in the cache.
  abbrev IsCached : Text → Session → Type 0
  IsCached n s = IsSafe s × (s.client.nonce ≡ n)

  forget-Leads : (n : Text) → Leads (IsCached n) (λ _. Holds n) IsSafe (update (set_nonce O []))
  unfolding update set_nonce
  forget-Leads n = record {
    lead = λ s h. record {
      sound = h.0.sound;
      ready = subst (λ m. IsReady m s.log) h.1 h.0.ready;
      nothing_cached = refl;
    };
  }

  -- A cached nonce leaves the cache when it is handed out.
  take-Leads : (n : Text) → Leads (IsCached n) HoldsUsable IsSafe (take_nonce O n)
  take-Leads [] = Leads-weaker _ uncached fetch_nonce-Leads
    where
      uncached : (s : Session) → IsCached [] s → IsEmpty s
      uncached s h = record {
        sound = h.0.sound;
        ready = IsReady-nil s.log [] refl;
        nothing_cached = h.1;
      }
  take-Leads (c ∷ n) =
      Leads-bind _ _ (forget-Leads (c ∷ n)) λ _. Leads-pure (c ∷ n) (λ s h. (h, λ p. cc))

  get_nonce-Leads : Leads IsSafe HoldsUsable IsSafe (get_nonce O)
  unfolding get_nonce
  get_nonce-Leads = Leads-bind _ _ (Leads-gets (λ s. s.client.nonce) (λ s h. (h, refl))) take-Leads

  header-nonce : (k : AccountKey) (n url kid : Text) → (protected_header O k n url kid).nonce ≡ n
  unfolding protected_header
  header-nonce k n url [] = refl
  header-nonce k n url (c ∷ kid) = refl

  -- A signed request that carries the nonce in hand.
  abbrev IsSigned : Text → Signed → Session → Type 0
  IsSigned n signed s = HoldsUsable n s × (signed.header.nonce ≡ n)

  in_hand-IsSafe : (n : Text) (s : Session) → HoldsUsable n s → IsSafe s
  in_hand-IsSafe n s h = Holds-IsSafe n s h.0

  sign_jws-Leads :
      (k : AccountKey) (payload : Option Text) (n url kid : Text)
      → Leads (HoldsUsable n) (IsSigned n) IsSafe (sign_jws O k payload n url kid)
  unfolding sign_jws
  sign_jws-Leads k payload n url kid =
      Leads-bind _ _
        (Leads-lift (O.header_json (protected_header O k n url kid)) (λ _ s h. h)
          (in_hand-IsSafe n))
        λ ph. Leads-bind _ _ (Leads-gets (λ s. s.log) (λ s h. h)) λ log.
          Leads-bind _ _ (Leads-in_context _ _ (Leads-lift _ (λ _ s h. h) (in_hand-IsSafe n)))
            λ rs. Leads-pure _ (λ s h. (h, header-nonce k n url kid))

  Sendable-post :
      (n url : Text) (signed : Signed) (s : Session)
      → IsSigned n signed s
      → Sendable O fresh (post url signed) s
  Sendable-post n url signed s ((h, p), e) =
      rw e ((h.ready.is_issued p, h.ready.is_unused p), h.sound, h.nothing_cached)

  keep-Leads : (n : Text) → Leads (Holds n) (λ _. IsSafe) IsSafe (keep_nonce O n)
  unfolding update set_nonce
  keep-Leads [] = Leads-pure tt empty-IsSafe
  keep-Leads (c ∷ n) = record { lead = λ s h. record { sound = h.sound; ready = h.ready } }

  post_once-Leads :
      (url : Text) (payload : Option Text)
      → Leads IsSafe (λ _. IsSafe) IsSafe (post_once O url payload)
  unfolding post_once
  post_once-Leads url payload = Leads-bind _ _ get_nonce-Leads λ n.
      Leads-bind _ _ (Leads-gets _ (λ s h. h)) λ key.
        Leads-bind _ _ (Leads-gets _ (λ s h. h)) λ kid.
          Leads-bind _ _ (sign_jws-Leads key payload n url kid) λ signed.
            Leads-bind _ _ (Leads-lift _ (λ _ s h. h) (λ s h. in_hand-IsSafe n s h.0)) λ _.
              Leads-bind _ _
                (Leads-in_context _ _ (
                  Leads-weaker _ (Sendable-post n url signed)
                    (send-Leads O fresh (post url signed))))
                λ r. Leads-bind _ _ (keep-Leads r.replay_nonce) λ _. Leads-pure r (λ s h. h)

  slept-IsSafe : (interval : ℕ) → Keeps IsSafe (emit (slept interval))
  unfolding emit
  slept-IsSafe interval = record {
    keep = λ s h. record {
      sound = record { once = h.sound.once; from_ca = h.sound.from_ca };
      ready = record { is_issued = h.ready.is_issued; is_unused = h.ready.is_unused };
    };
  }

  pause-IsSafe : (interval : ℕ) → Keeps IsSafe (pause O interval)
  unfolding pause
  pause-IsSafe interval = search (keeps_rules, slept-IsSafe) depth 10

  account-IsSafe : (url : Text) → Keeps IsSafe (update (set_account url))
  unfolding update set_account
  account-IsSafe url = record { keep = λ s h. record { sound = h.sound; ready = h.ready } }

  -- Whatever the engine does, each nonce is used once and only after the CA has issued it.
  pub engine-IsSafe : IsKept O IsSafe
  engine-IsSafe = record {
    kept_directory = directory-IsSafe O;
    kept_post =
        post_signed-Keeps O (directory-IsSafe O)
          (λ url payload. Leads-Keeps _ (post_once-Leads url payload));
    kept_pause = pause-IsSafe;
    kept_account = account-IsSafe;
  }
