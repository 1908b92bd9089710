-- ===== src/Acme/Persist/Issuer.antt =====
-- `ValidateIssuer` and `FindDNSPersistChallenge` of internal/acme/dnspersist.go.
use cm_saas_letsencrypt_ca_c.Base.{
  ◌≡◌, refl, arith, ◌↔◌, ◌⊎◌, inl, inr, true, false, List, [], ◌∷◌, Text, lower, trim_space,
  eq_fold, is_empty, text_eq, text_eq_iff, Bool-cases,
}
use cm_saas_letsencrypt_ca_c.Errors.{ok}
use cm_saas_letsencrypt_ca_c.Acme.Types.{Challenge}
use cm_saas_letsencrypt_ca_c.Acme.Persist.{names_issuer, validate_issuer}

-- Some listed name is the issuer, up to case and the space around the name.
abbrev pub Offers : Text → List Text → Type 0
Offers issuer [] = ⊥
Offers issuer (d ∷ ds) = (lower (trim_space d) ≡ lower issuer) ⊎ Offers issuer ds

names_issuer-Offers :
    (want : Text) (ds : List Text) → (names_issuer want ds ≡ true) ↔ Offers want ds
unfolding names_issuer eq_fold
names_issuer-Offers want [] = (λ h. cc, λ h. absurd h)
names_issuer-Offers want (d ∷ ds) =
    let same = text_eq_iff (lower (trim_space d)) (lower want) in
    let rest = names_issuer-Offers want ds in
    elim (Bool-cases (text_eq (lower (trim_space d)) (lower want))) [
      | inl y ↦ (λ h. inl (same.0 y), λ h. rw y refl)
      | inr n ↦ (
        λ h. inr (rest.0 (ground arith)),
        λ h. elim h [ inl e ↦ ground (arith, same.1 e) | inr o ↦ ground (arith, rest.1 o) ],
      )
    ]

-- A challenge passes the check exactly if the configured issuer is not blank and the challenge
-- offers it, up to case and surrounding space.
pub validate_issuer-Offers :
    (ch : Challenge) (issuer_domain : Text)
    → (validate_issuer ch issuer_domain ≡ ok tt) ↔ (
        (is_empty (lower (trim_space issuer_domain)) ≡ false)
        × Offers (lower (trim_space issuer_domain)) ch.issuer_domain_names)
unfolding validate_issuer
validate_issuer-Offers ch issuer_domain =
    let want = lower (trim_space issuer_domain) in
    let offers = names_issuer-Offers want ch.issuer_domain_names in
    elim (Bool-cases (is_empty want)) [
      | inl y ↦ (rw y (λ h. cc), λ h. let n = h.0 in cc)
      | inr n ↦ elim (Bool-cases (names_issuer want ch.issuer_domain_names)) [
        | inl o ↦ (λ h. (n, offers.0 o), λ h. rw n (rw o refl))
        | inr o ↦ (rw n (rw o (λ h. cc)), λ h. let o' = offers.1 h.1 in cc)
      ]
    ]
