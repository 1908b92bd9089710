-- ===== src/Service/TestConnection/Verified.antt =====
-- The manual branch of `TestConnection`: which domains it accepts and what it counts.
use mathlib.Core.Path.{subst}
use cm_saas_letsencrypt_ca_c.Base.{
  ℕ, suc, ◌+◌, ◌≡◌, refl, arith, ◌↔◌, true, false, Option, none, some, List, [], ◌∷◌, ◌++◌, Text,
  All, length, length-append, is_empty, if◌then◌else◌, Bool-cases, inl, inr,
}
use cm_saas_letsencrypt_ca_c.Errors.{Err, Result, ok, err}
use cm_saas_letsencrypt_ca_c.Record.{Record, generate}
use cm_saas_letsencrypt_ca_c.Names.{parse_domain_list}
use cm_saas_letsencrypt_ca_c.Live.{record_live}
use cm_saas_letsencrypt_ca_c.Acme.Outside.{Event}
use cm_saas_letsencrypt_ca_c.Acme.Act.{Session, pure, lift, gets, ◌>>=◌}
use cm_saas_letsencrypt_ca_c.Domain.{Connection}
use cm_saas_letsencrypt_ca_c.Service.{
  Platform, issuer_of, is_auto_mode, build_client, ensure_account, with_client,
}
use cm_saas_letsencrypt_ca_c.Acme.Types.{Client}
use cm_saas_letsencrypt_ca_c.Service.Issue.{plain_params}
use cm_saas_letsencrypt_ca_c.Service.TestConnection.{
  complaint, tally, check_domains, verdict, connected, test_manual, test, test_connection,
}

-- The name has a standing record, and what a lookup of it finds passes the live check.
pub record IsLive (W : Platform) (issuer uri : Text) (log : List Event) (d : Text) : Type 0 where
  pub standing : Record
  pub generated : generate (plain_params d issuer uri) ≡ ok standing
  pub found : record_live (W.lookup_txt log standing.fqdn) uri issuer ≡ true

module _ (W : Platform) (issuer uri : Text) (log : List Event) where
  refused :
      (d : Text) (e : Err)
      → generate (plain_params d issuer uri) ≡ err e
      → IsLive W issuer uri log d
      → ⊥
  refused d e g h = let g' = h.generated in cc

  same_record :
      (d : Text) (rec : Record)
      → generate (plain_params d issuer uri) ≡ ok rec
      → IsLive W issuer uri log d
      → record_live (W.lookup_txt log rec.fqdn) uri issuer ≡ true
  same_record d rec g h =
      subst (λ (x : Record). record_live (W.lookup_txt log x.fqdn) uri issuer ≡ true)
        (one_record h.standing h.generated) h.found
    where
      one_record : (x : Record) → generate (plain_params d issuer uri) ≡ ok x → x ≡ rec
      one_record x e = cc

  complaint-none :
      (d : Text) (r : Result Record)
      → generate (plain_params d issuer uri) ≡ r
      → (complaint W issuer uri log d r ≡ none) ↔ IsLive W issuer uri log d
  complaint-none d (err e) g = (λ h. cc, λ h. absurd (refused d e g h))
  complaint-none d (ok rec) g =
      elim (Bool-cases (record_live (W.lookup_txt log rec.fqdn) uri issuer)) [
        | inl y ↦ (λ h. record { standing = rec; generated = g; found = y }, λ h. rw y refl)
        | inr n ↦ (rw n (λ h. cc), λ h. let live = same_record d rec g h in cc)
      ]

  not_empty : (missing : List Text) (c : Text) → missing ++ c ∷ [] ≡ [] → ⊥
  not_empty [] c h = cc
  not_empty (m ∷ missing) c h = cc

  -- One round of the loop, for what the rest of it decides.
  round_live :
      (ds : List Text) (o : Option Text) (L R : Type 0) (missing : List Text) (verified : ℕ)
      → (o ≡ none) ↔ L
      → ((m : List Text) (v : ℕ)
          → ((check_domains W issuer uri log ds (m, v)).0 ≡ []) ↔ ((m ≡ []) × R))
      → ((check_domains W issuer uri log ds (tally W o (missing, verified))).0 ≡ [])
        ↔ ((missing ≡ []) × (L × R))
  round_live ds none L R missing verified live rest = (
    λ h. let r = (rest missing (suc verified)).0 h in (r.0, (live.0 refl, r.1)),
    λ h. (rest missing (suc verified)).1 (h.0, h.1.1),
  )
  round_live ds (some c) L R missing verified live rest = (
    λ h. absurd (not_empty missing c ((rest (missing ++ c ∷ []) verified).0 h).0),
    λ h. let e = live.1 h.1.0 in cc,
  )

  All-IsLive :
      (ds missing : List Text) (verified : ℕ)
      → ((check_domains W issuer uri log ds (missing, verified)).0 ≡ [])
        ↔ ((missing ≡ []) × All (IsLive W issuer uri log) ds)
  unfolding check_domains
  All-IsLive [] missing verified = (λ h. (h, tt), λ h. h.0)
  All-IsLive (d ∷ ds) missing verified =
      round_live ds _ (IsLive W issuer uri log d) (All (IsLive W issuer uri log) ds) missing
        verified (complaint-none d _ refl) (All-IsLive ds)

  one_more :
      (o : Option Text) (counts : List Text × ℕ)
      → length (tally W o counts).0 + (tally W o counts).1 ≡ length counts.0 + suc counts.1
  one_more none (missing, verified) = refl
  one_more (some c) (missing, verified) = omega (arith, length-append missing (c ∷ []))

  -- Each domain is counted once: as missing, or as verified.
  pub check_domains-length :
      (ds : List Text) (counts : List Text × ℕ)
      → length (check_domains W issuer uri log ds counts).0
          + (check_domains W issuer uri log ds counts).1
        ≡ length counts.0 + counts.1 + length ds
  unfolding check_domains
  check_domains-length [] counts = omega arith
  check_domains-length (d ∷ ds) counts =
      let o = complaint W issuer uri log d (generate (plain_params d issuer uri)) in
      omega (arith, one_more o counts, check_domains-length ds (tally W o counts))

-- Whether a result is a success.
abbrev pub Succeeds : {A : Type 0} → Result A → Type 0
Succeeds {A} r = (a : A) × (r ≡ ok a)

verdict-Succeeds :
    (W : Platform) (conn : Connection) (uri : Text) (domains : List Text) (counts : List Text × ℕ)
    → Succeeds (verdict W conn uri domains counts) ↔ (counts.0 ≡ [])
unfolding verdict
verdict-Succeeds W conn uri domains ([], verified) = (λ h. refl, λ h. (_, refl))
verdict-Succeeds W conn uri domains (m ∷ missing, verified) = (λ h. let e = h.1 in cc, λ h. cc)

listed-IsLive :
    (W : Platform) (conn : Connection) (uri : Text) (log : List Event) (domains : List Text)
    → Succeeds
        (verdict W conn uri domains (check_domains W (issuer_of conn) uri log domains ([], 0)))
      ↔ All (IsLive W (issuer_of conn) uri log) domains
listed-IsLive W conn uri log domains =
    let v =
      verdict-Succeeds W conn uri domains
        (check_domains W (issuer_of conn) uri log domains ([], 0)) in
    let a = All-IsLive W (issuer_of conn) uri log domains [] 0 in
    (λ h. (a.0 (v.0 h)).1, λ h. v.1 (a.1 (refl, h)))

-- The branches behind the list of domains.
listed :
    (W : Platform) (conn : Connection) (uri : Text) (s : Session) (ds : List Text)
    → Succeeds
        ((if is_empty ds
            then pure (connected W conn uri)
            else lift
                (verdict W conn uri ds (check_domains W (issuer_of conn) uri s.log ds ([], 0))))
          s).0
      ↔ All (IsLive W (issuer_of conn) uri s.log) ds
unfolding pure lift
listed W conn uri s [] = (λ h. tt, λ h. (_, refl))
listed W conn uri s (d ∷ ds) = listed-IsLive W conn uri s.log (d ∷ ds)

test_manual-IsLive :
    (W : Platform) (conn : Connection) (uri : Text) (s : Session)
    → Succeeds (test_manual W conn uri s).0
      ↔ All
          (IsLive W (issuer_of conn) uri s.log)
          (parse_domain_list conn.configuration.verification_domains)
unfolding test_manual pure lift gets ◌>>=◌
test_manual-IsLive W conn uri s =
    listed W conn uri s (parse_domain_list conn.configuration.verification_domains)

-- A connection test in manual mode whose account key can be read and whose account is registered
-- succeeds exactly when each of the listed domains has a standing record, and the values that DNS
-- answers for its name pass the live check for the issuer and the registered account.
pub test_connection-IsLive :
    (W : Platform) (conn : Connection) (c : Client) (log : List Event) (s : Session)
    → is_auto_mode conn ≡ false
    → build_client W conn ≡ ok c
    → ensure_account W conn (record { client = c; log = log }) ≡ (ok tt, s)
    → Succeeds (test_connection W conn log).0
      ↔ All
          (IsLive W (issuer_of conn) s.client.account_url s.log)
          (parse_domain_list conn.configuration.verification_domains)
unfolding test_connection test with_client gets ◌>>=◌
test_connection-IsLive W conn c log s manual built registered =
    rw (built, registered, manual) (test_manual-IsLive W conn s.client.account_url s)
