-- ===== src/Record/Written.antt =====
-- The record that `Generate` of internal/record/generate.go writes, with its whole text.
use cm_saas_letsencrypt_ca_c.Base.{
  ℕ, zero, suc, ◌≡◌, ◌≢◌, refl, ap, sym, ◌∙◌, Bool, true, false, ◌||◌, [], ◌∷◌, ◌++◌, append-nil,
  Text, text, join, lower, is_empty, All, is_space, trim_left, trim_right, trim_space, trim_prefix,
  trim_suffix, has_prefix, has_suffix, decimal,
}
use cm_saas_letsencrypt_ca_c.Base.Trim.{HasNoSpace, trim_space_clear}
use cm_saas_letsencrypt_ca_c.Base.Affixes.{without, behind_prefix, trim_end, no_end}
use cm_saas_letsencrypt_ca_c.Base.Search.{has_prefix-append}
use cm_saas_letsencrypt_ca_c.Errors.{ok}
use cm_saas_letsencrypt_ca_c.Record.Laws.{IsComplete, generate_complete}
use cm_saas_letsencrypt_ca_c.Record.{
  Params, base_of, is_wildcard, normal_issuer, policy_field, until_field, fields_of, generate,
}

abbrev pub IsBlank : Text → Type 0
IsBlank = All (λ c. is_space c ≡ true)

-- A text between white space.
pub record IsPadded (given inner : Text) : Type 0 where
  pub before : Text
  pub behind : Text
  pub blank_before : IsBlank before
  pub blank_behind : IsBlank behind
  pub shape : given ≡ before ++ (inner ++ behind)
  pub solid : HasNoSpace inner
  pub some_there : inner ≢ []

left_blank : (b t : Text) → IsBlank b → trim_left is_space (b ++ t) ≡ trim_left is_space t
left_blank [] t h = refl
left_blank (c ∷ b) t h = rw h.0 (left_blank b t h.1)

right_blank : (b : Text) → IsBlank b → trim_right is_space b ≡ []
right_blank [] h = refl
right_blank (c ∷ b) h = rw (right_blank b h.1) (rw h.0 refl)

right_solid : (t b : Text) → t ≢ [] → HasNoSpace t → IsBlank b → trim_right is_space (t ++ b) ≡ t
right_solid [] b n h k = absurd (n refl)
right_solid (c ∷ []) b n h k = rw (right_blank b k) (rw h.0 refl)
right_solid (c ∷ d ∷ t) b n h k = rw (right_solid (d ∷ t) b (λ e. cc) h.1 k) refl

left_solid : (t b : Text) → t ≢ [] → HasNoSpace t → trim_left is_space (t ++ b) ≡ t ++ b
left_solid [] b n h = absurd (n refl)
left_solid (c ∷ t) b n h = rw h.0 refl

pub trim_space_padded : (given inner : Text) → IsPadded given inner → trim_space given ≡ inner
unfolding trim_space
trim_space_padded given inner h =
    ap (λ (t : Text). trim_right is_space (trim_left is_space t)) h.shape
    ∙ (ap (trim_right is_space) (
          left_blank h.before (inner ++ h.behind) h.blank_before
          ∙ left_solid inner h.behind h.some_there h.solid)
        ∙ right_solid inner h.behind h.some_there h.solid h.blank_behind)

abbrev pub star : Bool → Text
star true = text "*."
star false = []

abbrev pub dot : Bool → Text
dot true = text "."
dot false = []

-- The way in which a domain was given: between white space, as a wildcard or not, and with a dot at
-- its end or not.
pub record IsGiven (given domain : Text) (starred dotted : Bool) : Type 0 where
  pub padded : IsPadded given (star starred ++ (domain ++ dot dotted))
  pub solid : HasNoSpace (domain ++ dot dotted)
  pub some_there : domain ≢ []
  pub no_star : has_prefix (domain ++ dot dotted) (text "*.") ≡ false
  pub no_dot : has_suffix domain (text ".") ≡ false

star_off :
    (starred : Bool) (t : Text)
    → has_prefix t (text "*.") ≡ false
    → trim_prefix (star starred ++ t) (text "*.") ≡ t
star_off true t h = behind_prefix (text "*.") t
star_off false t h = without t (text "*.") h

dot_off :
    (dotted : Bool) (d : Text)
    → has_suffix d (text ".") ≡ false
    → trim_suffix (d ++ dot dotted) (text ".") ≡ d
dot_off true d h = trim_end d
dot_off false d h = ap (λ (t : Text). trim_suffix t (text ".")) (append-nil d) ∙ no_end d h

base_of_given :
    (given domain : Text) (starred dotted : Bool)
    → IsGiven given domain starred dotted
    → base_of given ≡ lower domain
unfolding base_of
base_of_given given domain starred dotted h =
    ap (λ (t : Text). lower (trim_suffix (trim_space (trim_prefix t (text "*."))) (text ".")))
      (trim_space_padded given _ h.padded)
    ∙ (ap (λ (t : Text). lower (trim_suffix (trim_space t) (text ".")))
          (star_off starred (domain ++ dot dotted) h.no_star)
        ∙ (ap (λ (t : Text). lower (trim_suffix t (text "."))) (trim_space_clear _ h.solid)
            ∙ ap lower (dot_off dotted domain h.no_dot)))

starred_lem :
    (starred : Bool) (t : Text)
    → has_prefix t (text "*.") ≡ false
    → has_prefix (star starred ++ t) (text "*.") ≡ starred
starred_lem true t h = has_prefix-append (text "*.") t
starred_lem false t h = h

abbrev pub policy_text : Bool → Text
policy_text true = text "; policy=wildcard"
policy_text false = []

abbrev pub until_text : ℕ → Text
until_text zero = []
until_text (suc n) = text "; persistUntil=" ++ decimal (suc n)

value_lem :
    (issuer uri : Text) (wildcard : Bool) (until : ℕ)
    → join
        (issuer ∷ (text "accounturi=" ++ uri) ∷ (policy_field wildcard ++ until_field until))
        (text "; ")
      ≡ issuer ++ (text "; accounturi=" ++ (uri ++ (policy_text wildcard ++ until_text until)))
unfolding join text
value_lem issuer uri true zero = refl
value_lem issuer uri true (suc n) = refl
value_lem issuer uri false zero =
    ap (λ (t : Text). issuer ++ (text "; accounturi=" ++ t)) (sym (append-nil uri))
value_lem issuer uri false (suc n) = refl

lower_there : (t : Text) → t ≢ [] → is_empty (lower t) ≡ false
lower_there [] n = absurd (n refl)
lower_there (c ∷ t) n = refl

there : (t : Text) → t ≢ [] → is_empty t ≡ false
there [] n = absurd (n refl)
there (c ∷ t) n = refl

module _ (p : Params) (domain issuer uri : Text) (starred dotted : Bool)
    (d : IsGiven p.domain domain starred dotted) (i : IsPadded p.issuer_domain issuer)
    (u : IsPadded p.account_uri uri) where
  issuer_lem : normal_issuer p.issuer_domain ≡ lower issuer
  unfolding normal_issuer
  issuer_lem = ap lower (trim_space_padded p.issuer_domain issuer i)

  uri_lem : trim_space p.account_uri ≡ uri
  uri_lem = trim_space_padded p.account_uri uri u

  wildcard_lem : is_wildcard p ≡ (p.wildcard || starred)
  unfolding is_wildcard
  wildcard_lem =
      ap (λ (t : Text). p.wildcard || has_prefix t (text "*."))
        (trim_space_padded p.domain _ d.padded)
      ∙ ap (λ b. p.wildcard || b) (starred_lem starred (domain ++ dot dotted) d.no_star)

  value_written :
      join (fields_of p) (text "; ")
      ≡ lower issuer
        ++ (text "; accounturi="
            ++ (uri ++ (policy_text (p.wildcard || starred) ++ until_text p.persist_until)))
  unfolding fields_of
  value_written =
      value_lem (normal_issuer p.issuer_domain) (trim_space p.account_uri) (is_wildcard p)
        p.persist_until
      ∙ (ap (λ (t : Text). written t (trim_space p.account_uri) (is_wildcard p)) issuer_lem
          ∙ (ap (λ (t : Text). written (lower issuer) t (is_wildcard p)) uri_lem
              ∙ ap (λ b. written (lower issuer) uri b) wildcard_lem))
    where
      written : Text → Text → Bool → Text
      written t v b =
          t ++ (text "; accounturi=" ++ (v ++ (policy_text b ++ until_text p.persist_until)))

  complete : IsComplete p
  complete = (
    ap is_empty (base_of_given p.domain domain starred dotted d) ∙ lower_there domain d.some_there,
    ap is_empty issuer_lem ∙ lower_there issuer i.some_there,
    ap is_empty uri_lem ∙ there uri u.some_there,
  )

-- For a domain, an issuer and an account URI, none empty and none with white space inside, between
-- white space, the domain as a wildcard or not and with one dot at its end or none, Generate writes the TXT record of the domain in lower case behind
-- "_validation-persist.": the issuer in lower case, the URI, the wildcard policy exactly if it is
-- asked for or the domain has a star, and the expiry exactly if there is one.
pub generate_written :
    (p : Params) (domain issuer uri : Text) (starred dotted : Bool)
    → IsGiven p.domain domain starred dotted
    → IsPadded p.issuer_domain issuer
    → IsPadded p.account_uri uri
    → generate p
      ≡ ok (record {
        fqdn = text "_validation-persist." ++ lower domain;
        kind = text "TXT";
        value =
            lower issuer
            ++ (text "; accounturi="
                ++ (uri ++ (policy_text (p.wildcard || starred) ++ until_text p.persist_until)));
      })
unfolding text
generate_written p domain issuer uri starred dotted d i u =
    generate_complete p (complete p domain issuer uri starred dotted d i u)
    ∙ (ap
          (λ (t : Text). ok (record {
            fqdn = text "_validation-persist." ++ t;
            kind = text "TXT";
            value = join (fields_of p) (text "; ");
          }))
          (base_of_given p.domain domain starred dotted d)
        ∙ ap
            (λ (t : Text). ok (record {
              fqdn = text "_validation-persist." ++ lower domain;
              kind = text "TXT";
              value = t;
            }))
            (value_written p domain issuer uri starred dotted d i u))
