-- ===== src/Onboard/Scoped.antt =====
-- cmd/dnspersist-tool/cm.go: the names that the patterns of cnSanRegexes allow in a certificate.
use cm_saas_letsencrypt_ca_c.Base.{
  ℕ, Bool, true, false, ◌||◌, ◌&&◌, ◌≡◌, ◌≢◌, ◌↔◌, refl, sym, ◌∙◌, arith, Option, none, some, List,
  [], ◌∷◌, ◌++◌, map, ◌==◌, Text, text, text_eq, text_eq_iff, text_eq_refl, is_empty, member,
  after_prefix, not, if◌then◌else◌, Bool-cases, ◌⊎◌, inl, inr,
}
use cm_saas_letsencrypt_ca_c.Base.Search.{after_prefix-append}
use cm_saas_letsencrypt_ca_c.Onboard.Templates.{is_meta, quote_meta, subdomains, cn_san_regexes}

-- The characters with a meaning of their own in the syntax of RE2.
abbrev pub operators : List ℕ
operators =
    b'$' ∷ b'(' ∷ b')' ∷ b'*' ∷ b'+' ∷ b'.' ∷ b'?' ∷ b'[' ∷ b'\\' ∷ b']' ∷ b'^' ∷ b'{' ∷ b'|' ∷ b'}'
    ∷ []

abbrev pub among : ℕ → List ℕ → Bool
among c [] = false
among c (m ∷ ms) = c == m || among c ms

unfoldable pub is_operator : ℕ → Bool
is_operator c = among c operators

-- The anchored match of a regular expression of plain and escaped characters, in the syntax of
-- RE2; with `true`, behind a backslash.
unfoldable pub literal : Bool → Text → Text → Bool
literal false [] s = is_empty s
literal true [] s = false
literal false (c ∷ r) [] = false
literal true (c ∷ r) [] = false
literal true (c ∷ r) (e ∷ s) = (c == e) && literal false r s
literal false (c ∷ r) (e ∷ s) =
    let behind = literal true r (e ∷ s) in
    let next = literal false r s in
    if c == b'\\' then behind else if is_operator c then false else (c == e) && next

-- `.*\.` in front of the rest: any text of one line, and a dot.
unfoldable pub below : Text → Text → Bool
below r [] = false
below r (e ∷ s) = ((e == b'.') && literal false r s) || (not (e == b'\n') && below r s)

unfoldable pub optional : Option Text → Text → Text → Bool
optional none r s = literal false r s
optional (some rest) r s = literal false rest s || below rest s

-- The anchored match of a pattern that may begin with the group `(.*\.)?`.
abbrev pub regex_matches : Text → Text → Bool
regex_matches r s = optional (after_prefix (text "(.*\\.)?") r) r s

abbrev pub allowed : List Text → Text → Bool
allowed [] s = false
allowed (r ∷ rs) s = regex_matches r s || allowed rs s

or_false : (a b : Bool) → (a || b) ≡ false → a ≡ false
or_false a b h = ground arith

either : (a : Bool) → (a || true) ≡ true
either a = ground arith

not_backslash : (c : ℕ) → is_meta c ≡ false → (c == b'\\') ≡ false
unfolding is_meta
not_backslash c h = or_false _ _ h

plain_lem : (c : ℕ) → is_meta c ≡ false → is_operator c ≡ false
unfolding is_meta is_operator
plain_lem c h = ground arith

literal-meta :
    (c e : ℕ) (r s : Text)
    → literal false ((if is_meta c then b'\\' ∷ c ∷ [] else c ∷ []) ++ r) (e ∷ s)
      ≡ ((c == e) && literal false r s)
unfolding literal
literal-meta c e r s = elim (Bool-cases (is_meta c)) [
  | inl y ↦ rw y refl
  | inr n ↦ rw (n, not_backslash c n, plain_lem c n) refl
]

literal-meta_nil :
    (c : ℕ) (r : Text)
    → literal false ((if is_meta c then b'\\' ∷ c ∷ [] else c ∷ []) ++ r) [] ≡ false
unfolding literal
literal-meta_nil c r = elim (Bool-cases (is_meta c)) [ inl y ↦ rw y refl | inr n ↦ rw n refl ]

literal-quote_meta : (d s : Text) → literal false (quote_meta d) s ≡ text_eq d s
unfolding quote_meta literal
literal-quote_meta [] [] = refl
literal-quote_meta [] (e ∷ s) = refl
literal-quote_meta (c ∷ d) [] = literal-meta_nil c (quote_meta d)
literal-quote_meta (c ∷ d) (e ∷ s) =
    rw (literal-meta c e (quote_meta d) s, literal-quote_meta d s) refl

-- A text that ends in a dot and the domain, with no line break before it.
abbrev pub IsOneLine : Text → Type 0
IsOneLine [] = Unit
IsOneLine (c ∷ s) = ((c == b'\n') ≡ false) × IsOneLine s

abbrev pub IsWithin : Text → Text → Type 0
IsWithin d s = (s ≡ d) ⊎ ((u : Text) × IsOneLine u × (s ≡ u ++ b'.' ∷ d))

-- What one step of `below` finds out.
below_step :
    (e : ℕ) (here further : Bool)
    → (((e == b'.') && here) || (not (e == b'\n') && further)) ≡ true
    → ((e ≡ b'.') × (here ≡ true)) ⊎ (((e == b'\n') ≡ false) × (further ≡ true))
below_step e here further h = ground arith

below-IsWithin :
    (d s : Text) → below (quote_meta d) s ≡ true → (u : Text) × IsOneLine u × (s ≡ u ++ b'.' ∷ d)
unfolding below
below-IsWithin d [] h = cc
below-IsWithin d (e ∷ s) h =
    elim (below_step e (literal false (quote_meta d) s) (below (quote_meta d) s) h) [
      | inl (dot, found) ↦
          let same = (text_eq_iff d s).0 (sym (literal-quote_meta d s) ∙ found) in
          ([], tt, cc (dot, same))
      | inr (line, further) ↦
          let (u, one_line, there) = below-IsWithin d s further in
          (e ∷ u, (line, one_line), cc there)
    ]

IsWithin-below : (d u : Text) → IsOneLine u → below (quote_meta d) (u ++ b'.' ∷ d) ≡ true
unfolding below
IsWithin-below d [] h = rw (literal-quote_meta d d, text_eq_refl d) refl
IsWithin-below d (c ∷ u) (line, h) = rw (line, IsWithin-below d u h) (either _)

regex_matches-IsWithin :
    (d s : Text) → (regex_matches (subdomains ++ quote_meta d) s ≡ true) ↔ IsWithin d s
unfolding optional
regex_matches-IsWithin d s = rw (after_prefix-append subdomains (quote_meta d)) (to, from)
  where
    to : (literal false (quote_meta d) s || below (quote_meta d) s) ≡ true → IsWithin d s
    to h = elim (Bool-cases (literal false (quote_meta d) s)) [
      | inl y ↦ inl (sym ((text_eq_iff d s).0 (sym (literal-quote_meta d s) ∙ y)))
      | inr n ↦ inr (below-IsWithin d s (rw n at h))
    ]

    from : IsWithin d s → (literal false (quote_meta d) s || below (quote_meta d) s) ≡ true
    from (inl e) = rw (literal-quote_meta d s, e, text_eq_refl d) refl
    from (inr (u, line, e)) = rw (e, IsWithin-below d u line) (either _)

abbrev pattern_of : Text → Text
pattern_of d = subdomains ++ quote_meta d

-- A name that is within one of the domains.
abbrev pub IsInside : List Text → Text → Type 0
IsInside domains s = (d : Text) × (member d domains ≡ true) × IsWithin d s

allowed-IsInside :
    (domains : List Text) (s : Text)
    → allowed (map pattern_of domains) s ≡ true
    → IsInside domains s
allowed-IsInside [] s h = cc
allowed-IsInside (d ∷ ds) s h = elim (Bool-cases (regex_matches (pattern_of d) s)) [
  | inl y ↦ (d, rw (text_eq_refl d) refl, (regex_matches-IsWithin d s).0 y)
  | inr n ↦ let (e, m, w) = allowed-IsInside ds s (rw n at h) in (e, rw m (either _), w)
]

IsInside-allowed :
    (domains : List Text) (s : Text)
    → IsInside domains s
    → allowed (map pattern_of domains) s ≡ true
IsInside-allowed [] s (e, m, w) = cc
IsInside-allowed (d ∷ ds) s (e, m, w) = elim (Bool-cases (text_eq d e)) [
  | inl y ↦ rw ((regex_matches-IsWithin d s).1 (rw ((text_eq_iff d e).0 y) w)) refl
  | inr n ↦ rw (IsInside-allowed ds s (e, rw n at m, w)) (either _)
]

-- With at least one domain, the patterns that cnSanRegexes puts into the issuing template allow
-- exactly the names that are one of the domains or end in a dot and one of them, without a line
-- break before it, for a reader of the patterns that matches the whole name.
pub cn_san_regexes-IsWithin :
    (domains : List Text) (s : Text)
    → domains ≢ []
    → (allowed (cn_san_regexes domains) s ≡ true) ↔ IsInside domains s
unfolding cn_san_regexes
cn_san_regexes-IsWithin [] s h = absurd (h refl)
cn_san_regexes-IsWithin (d ∷ ds) s h = (allowed-IsInside (d ∷ ds) s, IsInside-allowed (d ∷ ds) s)
