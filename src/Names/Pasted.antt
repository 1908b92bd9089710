-- ===== src/Names/Pasted.antt =====
-- Reading a pasted list of domains back: `parseDomainList` of internal/app/service/connection.go.
use cm_saas_letsencrypt_ca_c.Base.{
  ℕ, ◌≡◌, ◌≢◌, refl, ap, sym, ◌∙◌, arith, Bool, true, false, ◌||◌, List, [], ◌∷◌, ◌++◌,
  append_assoc, map, Text, text, join, lower, is_empty, All, is_space, trim, trim_right,
  trim_prefix, has_prefix, ◌==◌, Bool-cases, ◌⊎◌, inl, inr,
}
use cm_saas_letsencrypt_ca_c.Base.Fields.{IsWord, fields_func-join}
use cm_saas_letsencrypt_ca_c.Base.Trim.{trim_space_clear}
use cm_saas_letsencrypt_ca_c.Base.Affixes.{without, behind_prefix}
use cm_saas_letsencrypt_ca_c.Names.{collect, is_separator, is_dot, clean_domain, parse_domain_list}
use cm_saas_letsencrypt_ca_c.Names.Once.{each_once, collect-each_once}
use cm_saas_letsencrypt_ca_c.Names.Dots.{AreDots, lower-trim, left-dots, right-last, left_clear}

-- What separates two domains: a line feed, a carriage return, a comma, a space, a tab, a semicolon.
abbrev pub separates : ℕ → Bool
separates c = c == 10 || (c == 13 || (c == 44 || (c == 32 || (c == 9 || c == 59))))

-- A domain in lower case, which neither begins nor ends with a dot, as the text before its last
-- character and that character.
pub record IsDomain (d : Text) : Type 0 where
  pub start : Text
  pub last : ℕ
  pub ends : d ≡ start ++ last ∷ []
  pub no_dot_behind : (last == b'.') ≡ false
  pub no_dot_before : has_prefix d (text ".") ≡ false
  pub no_label : has_prefix d (text "_validation-persist.") ≡ false
  pub no_star : has_prefix d (text "*.") ≡ false

-- What may stand before a pasted domain: nothing, the label of its record, a wildcard, or both.
abbrev pub IsLead : Text → Type 0
IsLead p =
    (p ≡ [])
    ⊎ ((p ≡ text "_validation-persist.") ⊎ ((p ≡ text "*.") ⊎ (p ≡ text "_validation-persist.*.")))

-- A domain and the way in which it was pasted: in any case, behind a lead, between dots, and without
-- a separator or white space inside.
pub record Item : Type 0 where
  pub field : Text
  pub domain : Text

pub record IsPasted (i : Item) : Type 0 where
  pub is_domain : IsDomain i.domain
  pub before : Text
  pub lead : Text
  pub behind : Text
  pub dots_before : AreDots before
  pub is_lead : IsLead lead
  pub dots_behind : AreDots behind
  pub shape : lower i.field ≡ before ++ (lead ++ (i.domain ++ behind))
  pub some_there : i.field ≢ []
  pub together : All (λ c. (separates c ≡ false) × (is_space c ≡ false)) i.field

is_separator_lem : (c : ℕ) → is_separator c ≡ separates c
unfolding is_separator
is_separator_lem c = ground arith

-- The two trims of a lead.
lead_off :
    (lead d : Text)
    → IsLead lead
    → IsDomain d
    → trim_prefix (trim_prefix (lead ++ d) (text "_validation-persist.")) (text "*.") ≡ d
unfolding text
lead_off lead d (inl e) h =
    ap (λ p. trim_prefix (trim_prefix (p ++ d) (text "_validation-persist.")) (text "*.")) e
    ∙ (ap (λ t. trim_prefix t (text "*.")) (without d (text "_validation-persist.") h.no_label)
        ∙ without d (text "*.") h.no_star)
lead_off lead d (inr (inl e)) h =
    ap (λ p. trim_prefix (trim_prefix (p ++ d) (text "_validation-persist.")) (text "*.")) e
    ∙ (ap (λ t. trim_prefix t (text "*.")) (behind_prefix (text "_validation-persist.") d)
        ∙ without d (text "*.") h.no_star)
lead_off lead d (inr (inr (inl e))) h =
    ap (λ p. trim_prefix (trim_prefix (p ++ d) (text "_validation-persist.")) (text "*.")) e
    ∙ behind_prefix (text "*.") d
lead_off lead d (inr (inr (inr e))) h =
    ap (λ p. trim_prefix (trim_prefix (p ++ d) (text "_validation-persist.")) (text "*.")) e
    ∙ (ap (λ t. trim_prefix t (text "*."))
          (behind_prefix (text "_validation-persist.") (text "*." ++ d))
        ∙ behind_prefix (text "*.") d)

first_decides : (c : ℕ) (s t : Text) → has_prefix (c ∷ s) (text ".") ≡ has_prefix (c ∷ t) (text ".")
unfolding text
first_decides c s t = elim (Bool-cases (b'.' == c)) [ inl y ↦ rw y refl | inr n ↦ rw n refl ]

domain_clear :
    (d t : Text) → d ≢ [] → has_prefix d (text ".") ≡ false → has_prefix (d ++ t) (text ".") ≡ false
domain_clear [] t n h = absurd (n refl)
domain_clear (c ∷ d) t n h = first_decides c (d ++ t) d ∙ h

not_nil : (start : Text) (last : ℕ) → start ++ last ∷ [] ≢ []
not_nil [] last e = cc
not_nil (c ∷ start) last e = cc

domain-ne-nil : (d : Text) → IsDomain d → d ≢ []
domain-ne-nil d h e = not_nil h.start h.last (sym h.ends ∙ e)

lead_clear :
    (lead d t : Text) → IsLead lead → IsDomain d → has_prefix (lead ++ (d ++ t)) (text ".") ≡ false
unfolding text
lead_clear lead d t (inl e) h =
    ap (λ p. has_prefix (p ++ (d ++ t)) (text ".")) e
    ∙ domain_clear d t (domain-ne-nil d h) h.no_dot_before
lead_clear lead d t (inr (inl e)) h = ap (λ p. has_prefix (p ++ (d ++ t)) (text ".")) e
lead_clear lead d t (inr (inr (inl e))) h = ap (λ p. has_prefix (p ++ (d ++ t)) (text ".")) e
lead_clear lead d t (inr (inr (inr e))) h = ap (λ p. has_prefix (p ++ (d ++ t)) (text ".")) e

trimmed :
    (before lead d behind : Text)
    → AreDots before
    → IsLead lead
    → IsDomain d
    → AreDots behind
    → trim is_dot (before ++ (lead ++ (d ++ behind))) ≡ lead ++ d
trimmed before lead d behind b l h k =
    ap (trim_right is_dot) (left-dots before _ b ∙ left_clear _ (lead_clear lead d behind l h))
    ∙ (ap (trim_right is_dot) parted
        ∙ (right-last (lead ++ h.start) h.last behind h.no_dot_behind k ∙ joined))
  where
    parted : lead ++ (d ++ behind) ≡ (lead ++ h.start) ++ (h.last ∷ behind)
    parted =
        ap (λ (t : Text). lead ++ (t ++ behind)) h.ends
        ∙ (ap (λ (t : Text). lead ++ t) (append_assoc h.start (h.last ∷ []) behind)
            ∙ sym (append_assoc lead h.start (h.last ∷ behind)))

    joined : (lead ++ h.start) ++ (h.last ∷ []) ≡ lead ++ d
    joined = append_assoc lead h.start (h.last ∷ []) ∙ ap (λ (t : Text). lead ++ t) (sym h.ends)

solid_field :
    (f : Text)
    → All (λ c. (separates c ≡ false) × (is_space c ≡ false)) f
    → All (λ c. is_space c ≡ false) f
solid_field [] h = tt
solid_field (c ∷ f) h = (h.0.1, solid_field f h.1)

word_field :
    (f : Text)
    → All (λ c. (separates c ≡ false) × (is_space c ≡ false)) f
    → All (λ c. is_separator c ≡ false) f
word_field [] h = tt
word_field (c ∷ f) h = (is_separator_lem c ∙ h.0.0, word_field f h.1)

clean_pasted : (i : Item) → IsPasted i → clean_domain i.field ≡ i.domain
unfolding clean_domain text
clean_pasted i h =
    ap
      (λ (t : Text).
        trim_prefix (trim_prefix (lower (trim is_dot t)) (text "_validation-persist.")) (text "*."))
      (trim_space_clear i.field (solid_field i.field h.together))
    ∙ (ap (λ (t : Text). trim_prefix (trim_prefix t (text "_validation-persist.")) (text "*."))
          (lower-trim i.field
            ∙ (ap (trim is_dot) h.shape
                ∙ trimmed h.before h.lead i.domain h.behind h.dots_before h.is_lead h.is_domain
                    h.dots_behind))
        ∙ lead_off h.lead i.domain h.is_lead h.is_domain)

gap_lem : (sep : Text) → All (λ c. separates c ≡ true) sep → All (λ c. is_separator c ≡ true) sep
gap_lem [] h = tt
gap_lem (c ∷ sep) h = (is_separator_lem c ∙ h.0, gap_lem sep h.1)

abbrev pub fields_of : List Item → List Text
fields_of [] = []
fields_of (i ∷ items) = i.field ∷ fields_of items

abbrev pub domains_of : List Item → List Text
domains_of [] = []
domains_of (i ∷ items) = i.domain ∷ domains_of items

words_of : (items : List Item) → All IsPasted items → All (IsWord is_separator) (fields_of items)
words_of [] h = tt
words_of (i ∷ items) h = ((h.0.some_there, word_field i.field h.0.together), words_of items h.1)

cleaned :
    (items : List Item) → All IsPasted items → map clean_domain (fields_of items) ≡ domains_of items
cleaned [] h = refl
cleaned (i ∷ items) h = cc (clean_pasted i h.0, cleaned items h.1)

not_empty : (d : Text) → d ≢ [] → is_empty d ≡ false
not_empty [] n = absurd (n refl)
not_empty (c ∷ d) n = refl

none_empty :
    (items : List Item)
    → All IsPasted items
    → All (λ f. is_empty (clean_domain f) ≡ false) (fields_of items)
none_empty [] h = tt
none_empty (i ∷ items) h = (
  ap is_empty (clean_pasted i h.0) ∙ not_empty i.domain (domain-ne-nil i.domain h.0.is_domain),
  none_empty items h.1,
)

-- Domains that are pasted in any case, behind the label of their record, a wildcard or both, and
-- between dots, without a separator or white space inside, with any run of separators between them, are read as the plain domains in lower case,
-- each one once and in the order in which they come first.
pub parse_domain_list-join :
    (items : List Item) (sep : Text)
    → sep ≢ []
    → All (λ c. separates c ≡ true) sep
    → All IsPasted items
    → parse_domain_list (join (fields_of items) sep) ≡ each_once (domains_of items)
unfolding parse_domain_list
parse_domain_list-join items sep n g h =
    ap (λ (fs : List Text). collect clean_domain fs [] [])
      (fields_func-join is_separator (fields_of items) sep (n, gap_lem sep g) (words_of items h))
    ∙ (collect-each_once clean_domain (fields_of items) (none_empty items h)
        ∙ ap each_once (cleaned items h))
