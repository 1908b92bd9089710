-- ===== src/Base/Affixes.antt =====
-- Prefixes and suffixes that are cut off, or are not there.
use mathlib.Core.List.{reverse, reverse-append, reverse-reverse}
use cm_saas_letsencrypt_ca_c.Base.{
  ◌≡◌, refl, Option, none, some, false, [], ◌∷◌, ◌++◌, Text, text, after_prefix, is_some, or_else,
  has_prefix, has_suffix, trim_prefix, trim_suffix,
}
use cm_saas_letsencrypt_ca_c.Base.Search.{after_prefix-append}

bare : (o : Option Text) (t : Text) → is_some o ≡ false → or_else o t ≡ t
bare none t h = refl
bare (some r) t h = cc

pub without : (t p : Text) → has_prefix t p ≡ false → trim_prefix t p ≡ t
without t p h = bare (after_prefix p t) t h

pub behind_prefix : (p t : Text) → trim_prefix (p ++ t) p ≡ t
behind_prefix p t = rw (after_prefix-append p t) refl

pub trim_end : (t : Text) → trim_suffix (t ++ text ".") (text ".") ≡ t
unfolding trim_suffix text
trim_end t = rw (reverse-append t (b'.' ∷ [])) (reverse-reverse t)

unended :
    (o : Option Text) (t : Text)
    → is_some o ≡ false
    → or_else {A = Text} (elim o [ none ↦ none | some r ↦ some (reverse r) ]) t ≡ t
unended none t h = refl
unended (some r) t h = cc

pub no_end : (t : Text) → has_suffix t (text ".") ≡ false → trim_suffix t (text ".") ≡ t
unfolding trim_suffix has_suffix
no_end t h = unended (after_prefix (reverse (text ".")) (reverse t)) t h
