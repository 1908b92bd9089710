-- ===== src/Live/Accepts.antt =====
-- Which records the check accepts.
use cm_saas_letsencrypt_ca_c.Base.{
  ◌≡◌, refl, sym, ap, ◌∙◌, Bool, true, false, ◌||◌, some, List, [], ◌∷◌, ◌++◌, append_assoc,
  append-nil, Text, text, lower, lower_char, trim_space, has_prefix, contains, replace_char, arith,
  All, ◌==◌, join,
}
use cm_saas_letsencrypt_ca_c.Base.Trim.{
  HasNoSpace, lower_idem, trim_space_clear, is_space-lower_char,
}
use cm_saas_letsencrypt_ca_c.Base.Search.{
  contains-append, has_prefix-append, replace_char-append, replace_char_absent, lower-append,
}
use cm_saas_letsencrypt_ca_c.Errors.{ok}
use cm_saas_letsencrypt_ca_c.Record.{
  Params, Record, generate, fields_of, normal_issuer, policy_field, until_field, is_wildcard,
}
use cm_saas_letsencrypt_ca_c.Record.Laws.{generate-ok}
use cm_saas_letsencrypt_ca_c.Live.{squeeze, wanted, names_account, any_names_account, record_live}

squeeze-append : (s t : Text) → squeeze (s ++ t) ≡ squeeze s ++ squeeze t
unfolding squeeze
squeeze-append s t =
    ap (replace_char 32 []) (lower-append s t) ∙ replace_char-append 32 [] (lower s) (lower t)

HasNoSpace-blank : (s : Text) → HasNoSpace s → All (λ c. (c == 32) ≡ false) (lower s)
HasNoSpace-blank [] h = tt
HasNoSpace-blank (c ∷ s) (hc, hs) = (ground (arith, is_space-lower_char c), HasNoSpace-blank s hs)

-- Without a space inside, squeezing is lowering.
squeeze_clear : (s : Text) → HasNoSpace s → squeeze s ≡ lower s
unfolding squeeze
squeeze_clear s h = replace_char_absent 32 [] (lower s) (HasNoSpace-blank s h)

squeeze-semicolon : squeeze (text "; ") ≡ text ";"
unfolding squeeze text lower_char replace_char
squeeze-semicolon = refl

squeeze-accounturi : squeeze (text "accounturi=") ≡ text "accounturi="
unfolding squeeze text lower_char replace_char
squeeze-accounturi = refl

HasNoSpace-lower : (s : Text) → HasNoSpace s → HasNoSpace (lower s)
HasNoSpace-lower [] h = tt
HasNoSpace-lower (c ∷ s) (hc, hs) = (is_space-lower_char c ∙ hc, HasNoSpace-lower s hs)

module _ (issuer uri rest : Text) (clear : HasNoSpace issuer) (low : lower issuer ≡ issuer)
    (clear_uri : HasNoSpace uri) where
  -- A value with the issuer in front and the account behind it, squeezed.
  squeeze-value :
      squeeze (issuer ++ (text "; " ++ ((text "accounturi=" ++ uri) ++ rest)))
      ≡ issuer ++ (text ";" ++ (wanted uri ++ squeeze rest))
  squeeze-value = rw (
    squeeze-append,
    squeeze_clear issuer clear,
    low,
    squeeze-append,
    squeeze-semicolon,
    squeeze-append,
    squeeze-append,
    squeeze-accounturi,
    squeeze_clear uri clear_uri,
  )

  has_issuer :
      has_prefix (issuer ++ (text ";" ++ (wanted uri ++ squeeze rest))) (issuer ++ text ";") ≡ true
  has_issuer =
      rw (← append_assoc issuer (text ";") (wanted uri ++ squeeze rest))
        (has_prefix-append (issuer ++ text ";") _)

  has_account : contains (issuer ++ (text ";" ++ (wanted uri ++ squeeze rest))) (wanted uri) ≡ true
  has_account =
      rw (← append_assoc issuer (text ";") (wanted uri ++ squeeze rest))
        (contains-append (issuer ++ text ";") (wanted uri) _)

accepts :
    (issuer want t n : Text)
    → squeeze t ≡ n
    → has_prefix n (issuer ++ text ";") ≡ true
    → contains n want ≡ true
    → names_account issuer want t ≡ true
unfolding names_account
accepts issuer want t n e a b = rw (e, a, b)

any-cons :
    (issuer want t : Text) (ts : List Text)
    → any_names_account issuer want (t ∷ ts)
      ≡ (names_account issuer want t || any_names_account issuer want ts)
unfolding any_names_account
any-cons issuer want t ts = refl

or-true : (b : Bool) → (b || true) ≡ true
or-true true = refl
or-true false = refl

any-append :
    (issuer want t : Text) (before later : List Text)
    → names_account issuer want t ≡ true
    → any_names_account issuer want (before ++ t ∷ later) ≡ true
any-append issuer want t [] later h = rw (any-cons, h)
any-append issuer want t (u ∷ before) later h =
    rw (any-cons, any-append issuer want t before later h) (or-true _)

join-cons :
    (x : Text) (xs : List Text) (sep : Text) → (rest : Text) × (join (x ∷ xs) sep ≡ x ++ rest)
unfolding join
join-cons x [] sep = ([], sym (append-nil x))
join-cons x (y ∷ xs) sep = (_, refl)

value-generate :
    (p : Params) (r : Record)
    → generate p ≡ ok r
    → (rest : Text) × (r.value
        ≡ normal_issuer p.issuer_domain
          ++ (text "; " ++ ((text "accounturi=" ++ trim_space p.account_uri) ++ rest)))
unfolding fields_of join
value-generate p r h =
    let (rest, e) =
      join-cons (text "accounturi=" ++ trim_space p.account_uri)
        (policy_field (is_wildcard p) ++ until_field p.persist_until) (text "; ") in
    (
      rest,
      rw ((generate-ok p r h).1)
          (ap (λ (t : Text). normal_issuer p.issuer_domain ++ (text "; " ++ t)) e),
    )

record_live-some :
    (txts : List Text) (uri issuer : Text)
    → record_live (some txts) uri issuer
      ≡ any_names_account (normal_issuer issuer) (wanted uri) txts
unfolding record_live normal_issuer
record_live-some txts uri issuer = refl

normal_issuer-low : (issuer : Text) → lower (normal_issuer issuer) ≡ normal_issuer issuer
unfolding normal_issuer
normal_issuer-low issuer = lower_idem (trim_space issuer)

normal_issuer-HasNoSpace :
    (issuer : Text) → HasNoSpace (trim_space issuer) → HasNoSpace (normal_issuer issuer)
unfolding normal_issuer
normal_issuer-HasNoSpace issuer h = HasNoSpace-lower (trim_space issuer) h

names_account-value :
    (issuer uri extra rest value : Text)
    → HasNoSpace issuer
    → lower issuer ≡ issuer
    → HasNoSpace uri
    → value ≡ issuer ++ (text "; " ++ ((text "accounturi=" ++ (uri ++ extra)) ++ rest))
    → names_account issuer (wanted uri) value ≡ true
names_account-value issuer uri extra rest value clear low hu e =
    accepts issuer (wanted uri) value _
      (ap squeeze (e ∙ regroup) ∙ squeeze-value issuer uri (extra ++ rest) clear low hu)
      (has_issuer issuer uri (extra ++ rest) clear low hu)
      (has_account issuer uri (extra ++ rest) clear low hu)
  where
    regroup :
        issuer ++ (text "; " ++ ((text "accounturi=" ++ (uri ++ extra)) ++ rest))
        ≡ issuer ++ (text "; " ++ ((text "accounturi=" ++ uri) ++ (extra ++ rest)))
    regroup = simp append_assoc

module _ (p : Params) (r : Record) (generated : generate p ≡ ok r)
    (clear : HasNoSpace (trim_space p.issuer_domain)) (before later : List Text) where
  -- The check for one account accepts a record that was generated for any account whose trimmed URI
  -- begins with that account's URI, so also for another account of the same issuer: `extra` is what
  -- the other URI has behind it. The checked URI and the trimmed issuer have no space inside, and any
  -- other TXT values may stand beside the record.
  pub record_live_extended :
      (uri extra : Text)
      → HasNoSpace uri
      → trim_space p.account_uri ≡ uri ++ extra
      → record_live (some (before ++ r.value ∷ later)) uri p.issuer_domain ≡ true
  record_live_extended uri extra hu e =
      let (rest, value) = value-generate p r generated in
      record_live-some _ uri p.issuer_domain
      ∙ any-append (normal_issuer p.issuer_domain) (wanted uri) r.value before later (
          names_account-value (normal_issuer p.issuer_domain) uri extra rest r.value
            (normal_issuer-HasNoSpace p.issuer_domain clear) (normal_issuer-low p.issuer_domain) hu
            (rw e at value))

  -- A generated record is live once DNS answers it, whatever other TXT values stand beside it: what
  -- `Generate` writes is what `recordLive` accepts for the same issuer and account, with or without
  -- the wildcard policy and the expiry, if the URI and the trimmed issuer have no space inside.
  pub record_live-generate :
      HasNoSpace p.account_uri
      → record_live (some (before ++ r.value ∷ later)) p.account_uri p.issuer_domain ≡ true
  record_live-generate hu =
      record_live_extended p.account_uri [] hu
        (trim_space_clear p.account_uri hu ∙ sym (append-nil p.account_uri))
