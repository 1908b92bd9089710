-- ===== src/Names/Dots.antt =====
-- Trimming the dots around a text, as the list readers of internal/app/service/connection.go do.
use cm_saas_letsencrypt_ca_c.Base.{
  ℕ, ◌≡◌, refl, ap, sym, ◌∙◌, arith, false, [], ◌∷◌, ◌++◌, Text, text, lower, lower_char, All, trim,
  trim_left, trim_right, keep_right, has_prefix, ◌==◌, ==_iff, Bool-cases, inl, inr,
}
use cm_saas_letsencrypt_ca_c.Names.{is_dot}

abbrev pub AreDots : Text → Type 0
AreDots = All (λ c. c ≡ b'.')

pub is_dot-lower_char : (c : ℕ) → is_dot (lower_char c) ≡ is_dot c
unfolding lower_char
is_dot-lower_char c = ground arith

pub lower-trim_left : (s : Text) → lower (trim_left is_dot s) ≡ trim_left is_dot (lower s)
lower-trim_left [] = refl
lower-trim_left (c ∷ s) =
    rw is_dot-lower_char
      (elim (Bool-cases (is_dot c)) [ inl y ↦ rw y (lower-trim_left s) | inr n ↦ rw n ])

pub lower-keep_right :
    (c : ℕ) (r : Text) → lower (keep_right is_dot c r) ≡ keep_right is_dot (lower_char c) (lower r)
lower-keep_right c [] =
    rw is_dot-lower_char (elim (Bool-cases (is_dot c)) [ inl y ↦ rw y | inr n ↦ rw n ])
lower-keep_right c (d ∷ t) = refl

pub lower-trim_right : (s : Text) → lower (trim_right is_dot s) ≡ trim_right is_dot (lower s)
lower-trim_right [] = refl
lower-trim_right (c ∷ s) =
    lower-keep_right c (trim_right is_dot s)
    ∙ ap (keep_right is_dot (lower_char c)) (lower-trim_right s)

pub lower-trim : (s : Text) → lower (trim is_dot s) ≡ trim is_dot (lower s)
lower-trim s = lower-trim_right (trim_left is_dot s) ∙ ap (trim_right is_dot) (lower-trim_left s)

-- Dots in front go.
pub left-dots : (dots t : Text) → AreDots dots → trim_left is_dot (dots ++ t) ≡ trim_left is_dot t
left-dots [] t h = refl
left-dots (c ∷ dots) t h = rw h.0 (left-dots dots t h.1)

pub right-dots : (dots : Text) → AreDots dots → trim_right is_dot dots ≡ []
right-dots [] h = refl
right-dots (c ∷ dots) h = rw (right-dots dots h.1) (rw h.0 refl)

-- Dots behind a character that is none go, and what stands before it stays.
pub right-last :
    (s : Text) (c : ℕ) (dots : Text)
    → (c == b'.') ≡ false
    → AreDots dots
    → trim_right is_dot (s ++ (c ∷ dots)) ≡ s ++ c ∷ []
right-last [] c dots n h = rw (right-dots dots h) (rw n refl)
right-last (d ∷ s) c dots n h = rw (right-last s c dots n h) (kept d s c)
  where
    kept : (d : ℕ) (s : Text) (c : ℕ) → keep_right is_dot d (s ++ c ∷ []) ≡ d ∷ s ++ c ∷ []
    kept d [] c = refl
    kept d (e ∷ s) c = refl

pub left_clear : (t : Text) → has_prefix t (text ".") ≡ false → trim_left is_dot t ≡ t
unfolding text
left_clear [] h = refl
left_clear (c ∷ t) h = elim (Bool-cases (c == b'.')) [
  | inl y ↦ let q = sym h ∙ ap (λ x. has_prefix (x ∷ t) (text ".")) ((==_iff c b'.').0 y) in cc
  | inr n ↦ rw n refl
]
