-- ===== src/Acme/Pem/Repaired.antt =====
-- `normalizePEM` on a key whose line breaks were flattened.
use cm_saas_letsencrypt_ca_c.Base.{
  take-append, drop-append, ℕ, ◌+◌, ◌-◌, ◌≡◌, refl, ap, ◌∙◌, arith, true, false, Option, none, some,
  [], ◌∷◌, ◌++◌, append_assoc, Text, text, length, length-append, drop, take, index_of, trim_space,
  leb, ◌==◌,
}
use cm_saas_letsencrypt_ca_c.Base.Search.{has_prefix-append}
use cm_saas_letsencrypt_ca_c.Acme.Pem.{
  Block, KeyReader, begin_prefix, end_prefix, dashes, strip_space, pem_text, if_no_pem, rebuild,
  repair_at, repair, normalize_pem,
}
use cm_saas_letsencrypt_ca_c.Acme.Pem.Slices.{HasNoDash, header-index, behind_header}

-- A text that begins with a dash is found later by the length of a text without dashes before it.
index_of-shift :
    (a p t : Text) (k : ℕ)
    → HasNoDash a
    → index_of t (b'-' ∷ p) ≡ some k
    → index_of (a ++ t) (b'-' ∷ p) ≡ some (length a + k)
unfolding index_of
index_of-shift [] p t k h e = e ∙ ap some (omega arith)
index_of-shift (c ∷ a) p t k h e =
    rw h.0 (rw (index_of-shift a p t k h.1 e) (ap some (omega arith)))

index_of-here : (p t : Text) → index_of ((b'-' ∷ p) ++ t) (b'-' ∷ p) ≡ some 0
unfolding index_of
index_of-here p t = rw (has_prefix-append (b'-' ∷ p) t) refl

module _ (kind : Text) (c : ℕ) (body rest : Text) (kind_clear : HasNoDash kind)
    (body_clear : HasNoDash (c ∷ body)) (not_e : (b'E' == c) ≡ false) where
  abbrev tail_text : Text
  tail_text = (c ∷ body) ++ (end_prefix ++ rest)

  closing : index_of (kind ++ (dashes ++ tail_text)) dashes ≡ some (length kind)
  unfolding text
  closing =
      index_of-shift kind (text "----") (dashes ++ tail_text) 0 kind_clear
        (index_of-here (text "----") tail_text)
      ∙ ap some (omega arith)

  body-index : index_of (body ++ (end_prefix ++ rest)) end_prefix ≡ some (length body + 0)
  unfolding text
  body-index =
      index_of-shift body (text "----END ") (end_prefix ++ rest) 0 body_clear.1
        (index_of-here (text "----END ") rest)

  dashes-index : index_of (dashes ++ tail_text) end_prefix ≡ some (6 + length body)
  unfolding index_of text
  dashes-index = rw not_e (rw body_clear.0 (rw body-index (ap some (omega arith))))

  kind-index :
      index_of (kind ++ (dashes ++ tail_text)) end_prefix ≡ some (length kind + (6 + length body))
  unfolding text
  kind-index =
      index_of-shift kind (text "----END ") (dashes ++ tail_text) (6 + length body) kind_clear
        dashes-index

  footer :
      index_of (begin_prefix ++ (kind ++ (dashes ++ tail_text))) end_prefix
      ≡ some (11 + (length kind + (6 + length body)))
  unfolding index_of text
  footer = rw kind-index (ap some (omega arith))

  -- The part before the footer, and the parts of it.
  cut :
      take (length kind + (6 + length body)) (kind ++ (dashes ++ tail_text))
      ≡ (kind ++ dashes) ++ (c ∷ body)
  unfolding text
  cut =
      let whole = (kind ++ dashes) ++ (c ∷ body) in
      ap (λ (t : Text). take (length kind + (6 + length body)) t) joined
      ∙ (ap (λ n. take n (whole ++ (end_prefix ++ rest))) measured
          ∙ (take-append whole (end_prefix ++ rest)))
    where
      joined :
          kind ++ (dashes ++ tail_text) ≡ ((kind ++ dashes) ++ (c ∷ body)) ++ (end_prefix ++ rest)
      joined = simp append_assoc

      measured : length kind + (6 + length body) ≡ length ((kind ++ dashes) ++ (c ∷ body))
      measured = omega (arith, length-append (kind ++ dashes) (c ∷ body), length-append kind dashes)

  rest_of : drop (length kind + 5) ((kind ++ dashes) ++ (c ∷ body)) ≡ c ∷ body
  unfolding text
  rest_of =
      ap (λ n. drop n ((kind ++ dashes) ++ (c ∷ body))) measured
      ∙ (drop-append (kind ++ dashes) (c ∷ body))
    where
      measured : length kind + 5 ≡ length (kind ++ dashes)
      measured = omega (arith, length-append kind dashes)

  rebuilt :
      (original : Text)
      → rebuild original
          (kind ++ (dashes ++ tail_text))
          (length kind + (6 + length body))
          (some (length kind))
        ≡ some (pem_text kind (strip_space (c ∷ body)))
  rebuilt original =
      rw (fits (length kind) (length body))
        (rw cut (rw rest_of (rw (take-append kind (dashes ++ tail_text)) refl)))
    where
      fits : (k b : ℕ) → leb (k + 5) (k + (6 + b)) ≡ true
      fits k b = ground arith

  repair_at-rebuilt :
      (original s : Text)
      → drop (0 + 11) s ≡ kind ++ (dashes ++ tail_text)
      → repair_at original s (some 0) (some (11 + (length kind + (6 + length body))))
        ≡ some (pem_text kind (strip_space (c ∷ body)))
  repair_at-rebuilt original s d =
      rw (not_before (length kind + (6 + length body)))
        (rw d (rw closing (rw (same (length kind + (6 + length body))) (rebuilt original))))
    where
      not_before : (n : ℕ) → leb (11 + n) 0 ≡ false
      not_before n = ground arith

      same : (n : ℕ) → 11 + n - (0 + 11) ≡ n
      same n = omega arith

  repair-rebuilt :
      (original : Text)
      → trim_space original ≡ begin_prefix ++ (kind ++ (dashes ++ tail_text))
      → repair original ≡ some (pem_text kind (strip_space (c ∷ body)))
  unfolding repair
  repair-rebuilt original e = rw e (
      rw (header-index (kind ++ (dashes ++ tail_text))) (
        rw footer (
          repair_at-rebuilt original (begin_prefix ++ (kind ++ (dashes ++ tail_text)))
            (behind_header (kind ++ (dashes ++ tail_text))))))

  pub normalize_pem_rebuilt :
      (K : KeyReader) (original : Text)
      → K.pem_decode original ≡ none
      → trim_space original
        ≡ begin_prefix ++ (kind ++ (dashes ++ ((c ∷ body) ++ (end_prefix ++ rest))))
      → normalize_pem K original ≡ some (pem_text kind (strip_space (c ∷ body)))
  unfolding normalize_pem
  normalize_pem_rebuilt K original no_pem e =
      ap (λ (o : Option (Block × Text)). if_no_pem K original o) no_pem ∙ repair-rebuilt original e
