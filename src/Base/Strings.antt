-- ===== src/Base/Strings.antt =====
-- Texts as lists of character codes, with the functions of Go's `strings` that the code calls.
-- All of them are read on ASCII text, where a character is a byte.
use Prim.Native.Nat.{ℕ, suc, ◌+◌}
use Prim.Native.Char.{code}
use Prim.Native.String.{String}
use mathlib.Core.Path.{◌≡◌, refl}
use mathlib.Core.Logic.{◌↔◌}
use mathlib.Core.Bool.{Bool, true, false, ◌||◌, ◌&&◌}
use mathlib.Core.Option.{Option, none, some}
use mathlib.Core.List.{List, [], ◌∷◌, ◌++◌, map, reverse}
use native.Mathlib.Omega.{arith}
use cm_saas_letsencrypt_ca_c.Base.Tests.{leb, ◌==◌, if◌then◌else◌}

abbrev pub Text : Type 0
Text = List ℕ

-- A literal of the source. It is shut, so that long messages stay small in proofs.
unfoldable pub text : String → Text
text String.[] = []
text (String.◌∷◌ c s) = code c ∷ text s

-- `a == b` on texts
abbrev pub text_eq : Text → Text → Bool
text_eq [] [] = true
text_eq [] (d ∷ t) = false
text_eq (c ∷ s) [] = false
text_eq (c ∷ s) (d ∷ t) = c == d && text_eq s t

-- `unicode.IsSpace` on ASCII
abbrev pub is_space : ℕ → Bool
is_space c = c == 32 || (leb 9 c && leb c 13)

unfoldable pub lower_char : ℕ → ℕ
lower_char c = if leb b'A' c && leb c b'Z' then c + 32 else c

-- `strings.ToLower`
abbrev pub lower : Text → Text
lower = map lower_char

-- `strings.EqualFold`
unfoldable pub eq_fold : Text → Text → Bool
eq_fold s t = text_eq (lower s) (lower t)

module _ (p : ℕ → Bool) where
  -- `strings.TrimLeftFunc`
  abbrev pub trim_left : Text → Text
  trim_left [] = []
  trim_left (c ∷ s) = let rest = trim_left s in if p c then rest else c ∷ s

  -- What `trim_right` keeps of `c ∷ s`, from what it keeps of `s`.
  abbrev pub keep_right : ℕ → Text → Text
  keep_right c [] = if p c then [] else c ∷ []
  keep_right c (d ∷ t) = c ∷ d ∷ t

  -- `strings.TrimRightFunc`
  abbrev pub trim_right : Text → Text
  trim_right [] = []
  trim_right (c ∷ s) = keep_right c (trim_right s)

  -- `strings.TrimFunc`
  abbrev pub trim : Text → Text
  trim s = trim_right (trim_left s)

-- `strings.TrimSpace`
unfoldable pub trim_space : Text → Text
trim_space = trim is_space

-- The rest of a text behind a prefix, if it has the prefix.
abbrev pub after_prefix : Text → Text → Option Text
after_prefix [] s = some s
after_prefix (c ∷ p) [] = none
after_prefix (c ∷ p) (d ∷ s) = if c == d then after_prefix p s else none

abbrev pub is_some {ℓ} : {A : Type ℓ} → Option A → Bool
is_some none = false
is_some (some a) = true

abbrev pub or_else {ℓ} : {A : Type ℓ} → Option A → A → A
or_else none b = b
or_else (some a) b = a

-- `strings.HasPrefix`
abbrev pub has_prefix : Text → Text → Bool
has_prefix s p = is_some (after_prefix p s)

-- `strings.TrimPrefix`
abbrev pub trim_prefix : Text → Text → Text
trim_prefix s p = or_else (after_prefix p s) s

-- `strings.HasSuffix`
unfoldable pub has_suffix : Text → Text → Bool
has_suffix s p = has_prefix (reverse s) (reverse p)

-- `strings.TrimSuffix`
unfoldable pub trim_suffix : Text → Text → Text
trim_suffix s p =
    or_else {A = Text}
      (elim (after_prefix (reverse p) (reverse s)) [ none ↦ none | some r ↦ some (reverse r) ]) s

-- `strings.Contains`
unfoldable pub contains : Text → Text → Bool
contains [] p = has_prefix [] p
contains (c ∷ s) p = has_prefix (c ∷ s) p || contains s p

-- `strings.Index`; `none` for -1
unfoldable pub index_of : Text → Text → Option ℕ
index_of [] p = if has_prefix [] p then some 0 else none
index_of (c ∷ s) p =
    let rest = index_of s p in
    if has_prefix (c ∷ s) p then some 0 else elim rest [ none ↦ none | some i ↦ some (suc i) ]

-- `strings.ReplaceAll` of a text of one character
unfoldable pub replace_char : ℕ → Text → Text → Text
replace_char c new [] = []
replace_char c new (d ∷ s) = (if d == c then new else d ∷ []) ++ replace_char c new s

-- `strings.Join`
unfoldable pub join : List Text → Text → Text
join [] sep = []
join (p ∷ []) sep = p
join (p ∷ q ∷ ps) sep = p ++ (sep ++ join (q ∷ ps) sep)

-- The field that stands at the front and the fields behind it, from the next character.
abbrev pub push_field : Bool → ℕ → Text × List Text → Text × List Text
push_field true c ([], fs) = ([], fs)
push_field true c (d ∷ w, fs) = ([], (d ∷ w) ∷ fs)
push_field false c (w, fs) = (c ∷ w, fs)

abbrev pub close_fields : Text × List Text → List Text
close_fields ([], fs) = fs
close_fields (d ∷ w, fs) = (d ∷ w) ∷ fs

abbrev pub open_fields : (ℕ → Bool) → Text → Text × List Text
open_fields p [] = ([], [])
open_fields p (c ∷ s) = push_field (p c) c (open_fields p s)

-- `strings.FieldsFunc`: the maximal runs of characters that fail the test.
unfoldable pub fields_func : (ℕ → Bool) → Text → List Text
fields_func p s = close_fields (open_fields p s)

-- `seen[t]`, for a set kept as the list of its members
abbrev pub member : Text → List Text → Bool
member t [] = false
member t (u ∷ us) = text_eq u t || member t us

pub text_eq_refl : (s : Text) → text_eq s s ≡ true
text_eq_refl [] = refl
text_eq_refl (c ∷ s) = ground (arith, text_eq_refl s)

pub text_eq→eq : (s t : Text) → text_eq s t ≡ true → s ≡ t
text_eq→eq [] [] h = refl
text_eq→eq [] (d ∷ t) h = cc
text_eq→eq (c ∷ s) [] h = cc
text_eq→eq (c ∷ s) (d ∷ t) h = ground (arith, text_eq→eq s t)

pub text_eq_iff : (s t : Text) → (text_eq s t ≡ true) ↔ (s ≡ t)
text_eq_iff s t = (text_eq→eq s t, λ e. subst_eq e)
  where
    subst_eq : s ≡ t → text_eq s t ≡ true
    subst_eq e = cc (text_eq_refl t, e)
