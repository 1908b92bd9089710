-- ===== src/Base/Trim.antt =====
-- Trimming and lowering: when they change nothing, and in which order they can be done.
use cm_saas_letsencrypt_ca_c.Base.{
  ℕ, ◌≡◌, refl, ap, ◌∙◌, Bool, false, [], ◌∷◌, arith, Text, is_space, lower_char, lower, trim_left,
  keep_right, trim_right, trim, trim_space, All, Bool-cases, inl, inr,
}

abbrev pub HasNoSpace : Text → Type 0
HasNoSpace = All (λ c. is_space c ≡ false)

module _ (p : ℕ → Bool) where
  trim_left_clear : (s : Text) → All (λ c. p c ≡ false) s → trim_left p s ≡ s
  trim_left_clear [] h = refl
  trim_left_clear (c ∷ s) h = rw h.0

  trim_right_clear : (s : Text) → All (λ c. p c ≡ false) s → trim_right p s ≡ s
  trim_right_clear [] h = refl
  trim_right_clear (c ∷ []) h = rw h.0
  trim_right_clear (c ∷ d ∷ s) h = rw (trim_right_clear (d ∷ s) h.1)

  trim_clear : (s : Text) → All (λ c. p c ≡ false) s → trim p s ≡ s
  trim_clear s h = ap (trim_right p) (trim_left_clear s h) ∙ trim_right_clear s h

  keep_right_idem :
      (c : ℕ) (r : Text) → trim_right p r ≡ r → trim_right p (keep_right p c r) ≡ keep_right p c r
  keep_right_idem c [] e = elim (Bool-cases (p c)) [ inl y ↦ rw (y) | inr n ↦ rw (n, n) ]
  keep_right_idem c (d ∷ t) e = rw e

  trim_right_idem : (s : Text) → trim_right p (trim_right p s) ≡ trim_right p s
  trim_right_idem [] = refl
  trim_right_idem (c ∷ s) = keep_right_idem c (trim_right p s) (trim_right_idem s)

  -- A kept first character stays first.
  left-keep_right :
      (c : ℕ) (r : Text) → p c ≡ false → trim_left p (keep_right p c r) ≡ keep_right p c r
  left-keep_right c [] e = rw (e, e)
  left-keep_right c (d ∷ t) e = rw e

  left-right-left :
      (s : Text) → trim_left p (trim_right p (trim_left p s)) ≡ trim_right p (trim_left p s)
  left-right-left [] = refl
  left-right-left (c ∷ s) = elim (Bool-cases (p c)) [
    | inl y ↦ rw y (left-right-left s)
    | inr n ↦ rw n (left-keep_right c (trim_right p s) n)
  ]

  pub trim_idem : (s : Text) → trim p (trim p s) ≡ trim p s
  trim_idem s = ap (trim_right p) (left-right-left s) ∙ trim_right_idem (trim_left p s)

pub trim_space_clear : (s : Text) → HasNoSpace s → trim_space s ≡ s
unfolding trim_space
trim_space_clear s h = trim_clear is_space s h

pub trim_space_idem : (s : Text) → trim_space (trim_space s) ≡ trim_space s
unfolding trim_space
trim_space_idem s = trim_idem is_space s

pub lower_char_idem : (c : ℕ) → lower_char (lower_char c) ≡ lower_char c
unfolding lower_char
lower_char_idem c = ground arith

pub lower_idem : (s : Text) → lower (lower s) ≡ lower s
lower_idem [] = refl
lower_idem (c ∷ s) = cc (lower_char_idem c, lower_idem s)

pub is_space-lower_char : (c : ℕ) → is_space (lower_char c) ≡ is_space c
unfolding lower_char
is_space-lower_char c = ground arith

lower-trim_left : (s : Text) → lower (trim_left is_space s) ≡ trim_left is_space (lower s)
lower-trim_left [] = refl
lower-trim_left (c ∷ s) =
    rw is_space-lower_char
      (elim (Bool-cases (is_space c)) [ inl y ↦ rw y (lower-trim_left s) | inr n ↦ rw n ])

lower-keep_right :
    (c : ℕ) (r : Text)
    → lower (keep_right is_space c r) ≡ keep_right is_space (lower_char c) (lower r)
lower-keep_right c [] =
    rw is_space-lower_char (elim (Bool-cases (is_space c)) [ inl y ↦ rw y | inr n ↦ rw n ])
lower-keep_right c (d ∷ t) = refl

lower-trim_right : (s : Text) → lower (trim_right is_space s) ≡ trim_right is_space (lower s)
lower-trim_right [] = refl
lower-trim_right (c ∷ s) =
    lower-keep_right c (trim_right is_space s)
    ∙ ap (keep_right is_space (lower_char c)) (lower-trim_right s)

-- Lowering and trimming commute.
pub lower-trim_space : (s : Text) → lower (trim_space s) ≡ trim_space (lower s)
unfolding trim_space
lower-trim_space s =
    lower-trim_right (trim_left is_space s) ∙ ap (trim_right is_space) (lower-trim_left s)
