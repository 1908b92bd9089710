-- ===== src/Base/Search.antt =====
-- Prefixes, substrings and replacement in a concatenation.
use cm_saas_letsencrypt_ca_c.Base.{
  ℕ, ◌≡◌, refl, ap, true, false, some, [], ◌∷◌, ◌++◌, arith, Text, append_assoc, after_prefix,
  has_prefix, contains, replace_char, lower, lower_char, All, ◌==◌, Bool-cases, inl, inr,
}

pub after_prefix-append : (p s : Text) → after_prefix p (p ++ s) ≡ some s
after_prefix-append [] s = refl
after_prefix-append (c ∷ p) s = ground (arith, after_prefix-append p s)

pub has_prefix-append : (p s : Text) → has_prefix (p ++ s) p ≡ true
has_prefix-append p s = rw after_prefix-append

contains-cons : (c : ℕ) (s p : Text) → contains s p ≡ true → contains (c ∷ s) p ≡ true
unfolding contains
contains-cons c s p h = elim (Bool-cases (has_prefix (c ∷ s) p)) [
  | inl y ↦ rw y
  | inr n ↦ rw (n, h)
]

contains_of_prefix : (s p : Text) → has_prefix s p ≡ true → contains s p ≡ true
unfolding contains
contains_of_prefix [] p h = h
contains_of_prefix (c ∷ s) p h = rw h

-- A text contains what stands anywhere in it.
pub contains-append : (a p b : Text) → contains (a ++ (p ++ b)) p ≡ true
contains-append [] p b = contains_of_prefix (p ++ b) p (has_prefix-append p b)
contains-append (c ∷ a) p b = contains-cons c (a ++ (p ++ b)) p (contains-append a p b)

pub replace_char-append :
    (c : ℕ) (new s t : Text)
    → replace_char c new (s ++ t) ≡ replace_char c new s ++ replace_char c new t
unfolding replace_char
replace_char-append c new [] t = refl
replace_char-append c new (d ∷ s) t = simp (replace_char-append c new s t, append_assoc)

-- Removing a character that does not occur changes nothing.
pub replace_char_absent :
    (c : ℕ) (new s : Text) → All (λ d. (d == c) ≡ false) s → replace_char c new s ≡ s
unfolding replace_char
replace_char_absent c new [] h = refl
replace_char_absent c new (d ∷ s) h = rw (h.0, replace_char_absent c new s h.1)

pub lower-append : (s t : Text) → lower (s ++ t) ≡ lower s ++ lower t
lower-append [] t = refl
lower-append (c ∷ s) t = ap (λ (r : Text). lower_char c ∷ r) (lower-append s t)
