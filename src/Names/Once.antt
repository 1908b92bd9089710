-- ===== src/Names/Once.antt =====
-- Each name once: what the loop of the list readers keeps.
use cm_saas_letsencrypt_ca_c.Base.{
  ◌≡◌, refl, ap, sym, ◌∙◌, Bool, true, false, not, List, [], ◌∷◌, map, Text, text_eq, text_eq_iff,
  member, is_empty, All, if◌then◌else◌, Bool-cases, inl, inr,
}
use cm_saas_letsencrypt_ca_c.Names.{collect}
use cm_saas_letsencrypt_ca_c.Names.Distinct.{fresh, collect-fresh}

abbrev pub keep : (Text → Bool) → List Text → List Text
keep p [] = []
keep p (t ∷ ts) = let rest = keep p ts in if p t then t ∷ rest else rest

-- The first of each name, in their order.
abbrev pub each_once : List Text → List Text
each_once [] = []
each_once (d ∷ ds) = d ∷ keep (λ t. not (text_eq d t)) (each_once ds)

-- The names that were not seen.
abbrev unseen : List Text → List Text → List Text
unseen seen = keep (λ t. not (member t seen))

unseen_known :
    (d : Text) (seen ts : List Text)
    → member d seen ≡ true
    → unseen seen (keep (λ t. not (text_eq d t)) ts) ≡ unseen seen ts
unseen_known d seen [] h = refl
unseen_known d seen (t ∷ ts) h = elim (Bool-cases (text_eq d t)) [
  | inl y ↦ rw y (rw (same y) (unseen_known d seen ts h))
  | inr n ↦
      rw n (
        ap (λ (r : List Text). if not (member t seen) then t ∷ r else r) (unseen_known d seen ts h))
]
  where
    same : text_eq d t ≡ true → member t seen ≡ true
    same y = ap (λ u. member u seen) (sym ((text_eq_iff d t).0 y)) ∙ h

unseen_next :
    (d : Text) (seen ts : List Text)
    → unseen seen (keep (λ t. not (text_eq d t)) ts) ≡ unseen (d ∷ seen) ts
unseen_next d seen [] = refl
unseen_next d seen (t ∷ ts) = elim (Bool-cases (text_eq d t)) [
  | inl y ↦ rw y (unseen_next d seen ts)
  | inr n ↦
      rw n
        (ap (λ (r : List Text). if not (member t seen) then t ∷ r else r) (unseen_next d seen ts))
]

module _ (clean : Text → Text) where
  fresh-unseen :
      (fs seen : List Text)
      → All (λ f. is_empty (clean f) ≡ false) fs
      → fresh clean fs seen ≡ unseen seen (each_once (map clean fs))
  unfolding fresh
  fresh-unseen [] seen h = refl
  fresh-unseen (f ∷ fs) seen h = elim (Bool-cases (member (clean f) seen)) [
    | inl y ↦
        rw (h.0, y)
          (fresh-unseen fs seen h.1
            ∙ sym (unseen_known (clean f) seen (each_once (map clean fs)) y))
    | inr n ↦
        rw (h.0, n)
          (ap (λ (r : List Text). clean f ∷ r)
            (fresh-unseen fs (clean f ∷ seen) h.1
              ∙ sym (unseen_next (clean f) seen (each_once (map clean fs)))))
  ]

  unseen_none : (ts : List Text) → unseen [] ts ≡ ts
  unseen_none [] = refl
  unseen_none (t ∷ ts) = ap (λ (r : List Text). t ∷ r) (unseen_none ts)

  pub collect-each_once :
      (fs : List Text)
      → All (λ f. is_empty (clean f) ≡ false) fs
      → collect clean fs [] [] ≡ each_once (map clean fs)
  collect-each_once fs h =
      collect-fresh clean fs [] [] ∙ (fresh-unseen fs [] h ∙ unseen_none (each_once (map clean fs)))
