-- ===== src/Names/Distinct.antt =====
-- What the lists of names hold: each cleaned name once, and no empty one.
use mathlib.Core.Path.{fun_ext, subst}
use cm_saas_letsencrypt_ca_c.Base.{
  ℕ, ◌≡◌, refl, sym, ap, ◌∙◌, Bool, true, false, not, ◌&&◌, ◌||◌, List, [], ◌∷◌, ◌++◌, append_assoc,
  append-nil, Text, lower, trim_space, fields_func, member, is_empty, if◌then◌else◌, Bool-cases,
  inl, inr, text_eq, text_eq_iff, text_eq_refl, arith,
}
use cm_saas_letsencrypt_ca_c.Base.Trim.{lower_idem, trim_space_idem, lower-trim_space}
use cm_saas_letsencrypt_ca_c.Names.{
  collect, is_separator, is_delimiter, clean_domain, parse_domain_list, split_domains, clean_name,
  dedupe_lower,
}

-- No text twice.
abbrev pub Distinct : List Text → Type 0
Distinct [] = Unit
Distinct (t ∷ ts) = (member t ts ≡ false) × Distinct ts

-- Some field has the cleaned form `d`.
abbrev pub occurs : (Text → Text) → Text → List Text → Bool
occurs clean d [] = false
occurs clean d (f ∷ fs) = text_eq (clean f) d || occurs clean d fs

module _ (clean : Text → Text) where
  -- What the loop adds behind `out`, from what it has seen.
  unfoldable pub fresh : List Text → List Text → List Text
  fresh [] seen = []
  fresh (f ∷ fs) seen =
      let skip = fresh fs seen in
      let keep = clean f ∷ fresh fs (clean f ∷ seen) in
      if is_empty (clean f) || member (clean f) seen then skip else keep

  pub collect-fresh : (fs seen out : List Text) → collect clean fs seen out ≡ out ++ fresh fs seen
  unfolding collect fresh
  collect-fresh [] seen out = sym (append-nil out)
  collect-fresh (f ∷ fs) seen out =
      elim (Bool-cases (is_empty (clean f) || member (clean f) seen)) [
        | inl y ↦ rw y (collect-fresh fs seen out)
        | inr n ↦ rw n (
            collect-fresh fs (clean f ∷ seen) (out ++ clean f ∷ [])
            ∙ append_assoc out (clean f ∷ []) _)
      ]

  member-fresh :
      (d : Text) (fs seen : List Text)
      → member d (fresh fs seen) ≡ (not (is_empty d) && (not (member d seen) && occurs clean d fs))
  unfolding fresh
  member-fresh d [] seen = ground arith
  member-fresh d (f ∷ fs) seen =
      ground
        (arith, text_eq_iff (clean f) d, member-fresh d fs seen, member-fresh d fs (clean f ∷ seen))

  fresh-Distinct : (fs seen : List Text) → Distinct (fresh fs seen)
  unfolding fresh
  fresh-Distinct [] seen = tt
  fresh-Distinct (f ∷ fs) seen = elim (Bool-cases (is_empty (clean f) || member (clean f) seen)) [
    | inl y ↦ rw y (fresh-Distinct fs seen)
    | inr n ↦ rw n (
        ground (
          arith,
          member-fresh (clean f) fs (clean f ∷ seen),
          text_eq_refl (clean f),
          fresh-Distinct fs (clean f ∷ seen),
        ))
  ]

  -- Fields that are clean, not empty and distinct go through unchanged.
  fresh_self :
      (fs seen : List Text)
      → Distinct fs
      → ((d : Text)
          → member d fs ≡ true
          → (clean d ≡ d) × (is_empty d ≡ false) × (member d seen ≡ false))
      → fresh fs seen ≡ fs
  unfolding fresh
  fresh_self [] seen u h = refl
  fresh_self (f ∷ fs) seen u h =
      let here = h f (ground (arith, text_eq_refl f)) in
      let later = λ (d : Text) (m : member d fs ≡ true). separate d m (h d (ground arith)) in
      let rest = fresh_self fs (f ∷ seen) u.1 later in rw here.0 (ground (arith, rest))
    where
      separate :
          (d : Text)
          → member d fs ≡ true
          → (clean d ≡ d) × (is_empty d ≡ false) × (member d seen ≡ false)
          → (clean d ≡ d) × (is_empty d ≡ false) × (member d (f ∷ seen) ≡ false)
      separate d m (a, b, c) = (a, b, ground (arith, text_eq_iff f d))

  -- The loop's result holds the cleaned form of each field that has one, and nothing else.
  pub member-collect :
      (d : Text) (fs : List Text)
      → member d (collect clean fs [] []) ≡ (not (is_empty d) && occurs clean d fs)
  member-collect d fs = rw collect-fresh (member-fresh d fs [])

  pub collect-Distinct : (fs : List Text) → Distinct (collect clean fs [] [])
  collect-Distinct fs = rw collect-fresh (fresh-Distinct fs [])

  pub collect_self :
      (fs : List Text)
      → Distinct fs
      → ((d : Text) → member d fs ≡ true → (clean d ≡ d) × (is_empty d ≡ false))
      → collect clean fs [] [] ≡ fs
  collect_self fs u h =
      collect-fresh fs [] [] ∙ fresh_self fs [] u (λ d m. ((h d m).0, (h d m).1, refl))

pub is_delimiter-is_separator : (r : ℕ) → is_delimiter r ≡ is_separator r
unfolding is_delimiter is_separator
is_delimiter-is_separator r = ground arith

-- The list reader of the onboarding tool and that of the connector are one function.
pub split_domains-parse_domain_list : (s : Text) → split_domains s ≡ parse_domain_list s
unfolding split_domains parse_domain_list
split_domains-parse_domain_list s =
    ap (λ (p : ℕ → Bool). collect clean_domain (fields_func p s) [] [])
      (fun_ext is_delimiter-is_separator)

pub clean_name_idem : (s : Text) → clean_name (clean_name s) ≡ clean_name s
unfolding clean_name
clean_name_idem s =
    ap lower (sym (lower-trim_space (trim_space s)))
    ∙ (lower_idem (trim_space (trim_space s)) ∙ ap lower (trim_space_idem s))

-- The texts that `occurs` finds are cleaned forms.
occurs-clean_name : (d : Text) (fs : List Text) → occurs clean_name d fs ≡ true → clean_name d ≡ d
occurs-clean_name d [] h = cc
occurs-clean_name d (f ∷ fs) h = elim (Bool-cases (text_eq (clean_name f) d)) [
  | inl y ↦ subst (λ t. clean_name t ≡ t) ((text_eq_iff (clean_name f) d).0 y) (clean_name_idem f)
  | inr n ↦ occurs-clean_name d fs (ground arith)
]

-- The order's identifiers are exactly the cleaned names of the request that are not empty: a name
-- is among them if and only if it is not empty and is the trimmed, lowered form of a given name.
pub member-dedupe_lower :
    (d : Text) (xs : List Text)
    → member d (dedupe_lower xs) ≡ (not (is_empty d) && occurs clean_name d xs)
unfolding dedupe_lower
member-dedupe_lower d xs = member-collect clean_name d xs

-- No identifier is ordered twice.
pub dedupe_lower-Distinct : (xs : List Text) → Distinct (dedupe_lower xs)
unfolding dedupe_lower
dedupe_lower-Distinct xs = collect-Distinct clean_name xs

-- Cleaning a list of identifiers again changes nothing, not even the order.
pub dedupe_lower_idem : (xs : List Text) → dedupe_lower (dedupe_lower xs) ≡ dedupe_lower xs
unfolding dedupe_lower
dedupe_lower_idem xs =
    collect_self clean_name (dedupe_lower xs) (dedupe_lower-Distinct xs)
      λ d m. ground (arith, member-collect clean_name d xs, occurs-clean_name d xs)

-- A list of domains names each domain once.
pub parse_domain_list-Distinct : (raw : Text) → Distinct (parse_domain_list raw)
unfolding parse_domain_list
parse_domain_list-Distinct raw = collect-Distinct clean_domain (fields_func is_separator raw)
