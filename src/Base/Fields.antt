-- ===== src/Base/Fields.antt =====
-- Cutting a text into fields: the fields of joined words are the words.
use cm_saas_letsencrypt_ca_c.Base.{
  ℕ, ◌≡◌, ◌≢◌, refl, sym, ap, ◌∙◌, Bool, true, false, List, [], ◌∷◌, ◌++◌, append-nil, Text,
  push_field, close_fields, open_fields, fields_func, join, All,
}

module _ (p : ℕ → Bool) where
  -- A word is a run of characters that fail the test, and not empty.
  abbrev pub IsWord : Text → Type 0
  IsWord w = (w ≢ []) × All (λ c. p c ≡ false) w

  abbrev pub IsGap : Text → Type 0
  IsGap s = (s ≢ []) × All (λ c. p c ≡ true) s

  push_field-true : (c : ℕ) (r : Text × List Text) → push_field true c r ≡ ([], close_fields r)
  push_field-true c ([], fs) = refl
  push_field-true c (d ∷ w, fs) = refl

  open_fields-gap :
      (s rest : Text)
      → IsGap s
      → open_fields p (s ++ rest) ≡ ([], close_fields (open_fields p rest))
  open_fields-gap [] rest h = absurd (h.0 refl)
  open_fields-gap (c ∷ []) rest (_, (hc, _)) = rw hc (push_field-true c (open_fields p rest))
  open_fields-gap (c ∷ d ∷ s) rest (_, (hc, hs)) =
      rw (hc, open_fields-gap (d ∷ s) rest (λ e. cc, hs))

  open_fields-word :
      (w rest : Text)
      → All (λ c. p c ≡ false) w
      → open_fields p (w ++ rest) ≡ (w ++ (open_fields p rest).0, (open_fields p rest).1)
  open_fields-word [] rest h = refl
  open_fields-word (c ∷ w) rest (hc, hw) = rw (hc, open_fields-word w rest hw)

  close_fields-word : (w : Text) (fs : List Text) → w ≢ [] → close_fields (w ++ [], fs) ≡ w ∷ fs
  close_fields-word [] fs h = absurd (h refl)
  close_fields-word (c ∷ w) fs h = rw append-nil

  pub fields_func-word : (w : Text) → IsWord w → fields_func p w ≡ w ∷ []
  unfolding fields_func
  fields_func-word w (h, hw) =
      ap (λ (t : Text). close_fields (open_fields p t)) (sym (append-nil w))
      ∙ (ap close_fields (open_fields-word w [] hw) ∙ close_fields-word w [] h)

  pub fields_func-append :
      (w sep rest : Text)
      → IsWord w
      → IsGap sep
      → fields_func p (w ++ (sep ++ rest)) ≡ w ∷ fields_func p rest
  unfolding fields_func
  fields_func-append w sep rest (h, hw) g =
      rw (open_fields-word w (sep ++ rest) hw, open_fields-gap sep rest g) (close_fields-word w _ h)

  -- Words that are joined by a gap are cut apart again.
  pub fields_func-join :
      (ws : List Text) (sep : Text) → IsGap sep → All IsWord ws → fields_func p (join ws sep) ≡ ws
  unfolding join
  fields_func-join [] sep g h = unfold fields_func in refl
  fields_func-join (w ∷ []) sep g (hw, _) = fields_func-word w hw
  fields_func-join (w ∷ v ∷ ws) sep g (hw, hs) =
      fields_func-append w sep _ hw g
      ∙ ap (λ (t : List Text). w ∷ t) (fields_func-join (v ∷ ws) sep g hs)
