-- ===== src/Acme/Pem/Lines.antt =====
-- The PEM text that `normalizePEM` of internal/acme/jws.go writes for a flattened key.
use cm_saas_letsencrypt_ca_c.Base.{
  ℕ, zero, suc, ◌≡◌, ◌≤◌, ◌<◌, refl, ap, sym, ◌∙◌, arith, Bool, true, false, ◌||◌, none, some, List,
  [], ◌∷◌, ◌++◌, append-nil, length-append, take-append-drop, Text, text, length, drop, take,
  trim_space, join, fields_func, open_fields, close_fields, push_field, is_space, Bool-cases, inl,
  inr, ◌==◌, if◌then◌else◌,
}
use cm_saas_letsencrypt_ca_c.Acme.Pem.{KeyReader, strip_space, lines_of, pem_text, normalize_pem}
use cm_saas_letsencrypt_ca_c.Acme.Pem.Columns.{length-drop}
use cm_saas_letsencrypt_ca_c.Acme.Pem.Slices.{HasNoDash}
use cm_saas_letsencrypt_ca_c.Acme.Pem.Repaired.{normalize_pem_rebuilt}

-- The white space of ASCII: tab, line feed, vertical tab, form feed, carriage return and space.
abbrev is_white : ℕ → Bool
is_white c = c == 9 || (c == 10 || (c == 11 || (c == 12 || (c == 13 || c == 32))))

-- The text without its white space.
abbrev pub solid : Text → Text
solid [] = []
solid (c ∷ s) = let rest = solid s in if is_white c then rest else c ∷ rest

-- Rows of 64 characters, and a last one that may be shorter, but is not empty.
abbrev pub AreRows : List Text → Type 0
AreRows [] = Unit
AreRows (row ∷ []) = (0 < length row) × (length row ≤ 64)
AreRows (row ∷ next ∷ rows) = (length row ≡ 64) × AreRows (next ∷ rows)

abbrev pub flat : List Text → Text
flat [] = []
flat (row ∷ rows) = row ++ flat rows

abbrev pub terminated : List Text → Text
terminated [] = []
terminated (row ∷ rows) = row ++ (b'\n' ∷ terminated rows)

is_white_lem : (c : ℕ) → is_space c ≡ is_white c
is_white_lem c = ground arith

glued : Text × List Text → Text
glued (w, fs) = w ++ join fs []

join_nil : (w : Text) (fs : List Text) → join (w ∷ fs) [] ≡ w ++ join fs []
unfolding join
join_nil w [] = sym (append-nil w)
join_nil w (f ∷ fs) = refl

glued_close : (r : Text × List Text) → join (close_fields r) [] ≡ glued r
unfolding glued
glued_close ([], fs) = refl
glued_close (d ∷ w, fs) = join_nil (d ∷ w) fs

glued_push_space : (c : ℕ) (r : Text × List Text) → glued (push_field true c r) ≡ glued r
unfolding glued
glued_push_space c ([], fs) = refl
glued_push_space c (d ∷ w, fs) = join_nil (d ∷ w) fs

glued-solid : (s : Text) → glued (open_fields is_space s) ≡ solid s
unfolding glued
glued-solid [] = unfold join in refl
glued-solid (c ∷ s) = elim (Bool-cases (is_space c)) [
  | inl y ↦
      rw y (
        rw (sym (is_white_lem c) ∙ y) (glued_push_space c (open_fields is_space s) ∙ glued-solid s))
  | inr n ↦ rw n (rw (sym (is_white_lem c) ∙ n) (ap (λ (t : Text). c ∷ t) (glued-solid s)))
]

strip_space-solid : (s : Text) → strip_space s ≡ solid s
unfolding strip_space fields_func
strip_space-solid s = glued_close (open_fields is_space s) ∙ glued-solid s

length-take : (n : ℕ) (s : Text) → length (take n s) ≤ n
length-take zero s = omega arith
length-take (suc n) [] = omega arith
length-take (suc n) (c ∷ s) = omega (arith, length-take n s)

-- A row is full if something is left behind it.
full_lem : (n : ℕ) (s : Text) → 0 < length (drop n s) → length (take n s) ≡ n
full_lem zero s h = refl
full_lem (suc n) [] h = absurd (omega (arith, h))
full_lem (suc n) (c ∷ s) h = ap (λ m. suc m) (full_lem n s h)

rows_left : (row : Text) (rows : List Text) → AreRows (row ∷ rows) → 0 < length (flat (row ∷ rows))
rows_left row [] h = omega (arith, h.0, length-append row [])
rows_left row (next ∷ rows) h = omega (arith, h.0, length-append row (flat (next ∷ rows)))

AreRows-cons :
    (row : Text) (rows : List Text)
    → 0 < length row
    → length row ≤ 64
    → (0 < length (flat rows) → length row ≡ 64)
    → AreRows rows
    → AreRows (row ∷ rows)
AreRows-cons row [] some_there fits full h = (some_there, fits)
AreRows-cons row (next ∷ rows) some_there fits full h = (full (rows_left next rows h), h)

-- The lines of a body, as rows.
rows_of :
    (fuel : ℕ) (body : Text)
    → length body ≤ fuel
    → (rows : List Text) × (lines_of fuel body ≡ terminated rows)
      × (flat rows ≡ body)
      × AreRows rows
unfolding lines_of
rows_of zero [] h = ([], refl, refl, tt)
rows_of zero (c ∷ body) h = absurd (omega (arith, h))
rows_of (suc fuel) [] h = ([], refl, refl, tt)
rows_of (suc fuel) (c ∷ body) h =
    let (rows, lines, text_of, are) =
      rows_of fuel (drop 63 body) (omega (arith, h, length-drop 63 body)) in
    let row = c ∷ take 63 body in
    (
      row ∷ rows,
      ap (λ (t : Text). row ++ (b'\n' ∷ t)) lines,
      ap (λ (t : Text). row ++ t) text_of ∙ ap (λ (t : Text). c ∷ t) (take-append-drop 63 body),
      AreRows-cons row rows (omega arith) (omega (arith, length-take 63 body))
          (λ left. ap (λ n. suc n) (full_lem 63 body (rw text_of at left))) are,
    )

-- A key that does not decode as PEM and reads, trimmed, as a header with its dashes, a body and a
-- footer is repaired: the header on a line of its own, then rows of 64 characters, and a last one that
-- may be shorter, which together are the body without its white space, and the footer for the header's
-- type, each line with a line feed at its end. The type and the body have no dashes, and the body is
-- not empty and does not begin with "E".
pub normalize_pem-rebuilt :
    (kind : Text) (c : ℕ) (body rest : Text)
    → HasNoDash kind
    → HasNoDash (c ∷ body)
    → (b'E' == c) ≡ false
    → (K : KeyReader) (original : Text) → K.pem_decode original ≡ none
    → trim_space original
      ≡ text "-----BEGIN " ++ (kind ++ (text "-----" ++ ((c ∷ body) ++ (text "-----END " ++ rest))))
    → (rows : List Text) × AreRows rows
      × (flat rows ≡ solid (c ∷ body))
      × (normalize_pem K original
          ≡ some (
              text "-----BEGIN "
              ++ (kind
                  ++ (text "-----\n"
                      ++ (terminated rows ++ (text "-----END " ++ (kind ++ text "-----\n")))))))
unfolding pem_text
normalize_pem-rebuilt kind c body rest kind_clear body_clear not_e K original no_pem e =
    let clean = strip_space (c ∷ body) in
    let (rows, lines, text_of, are) = rows_of (length clean) clean (omega arith) in
    (
      rows,
      are,
      text_of ∙ strip_space-solid (c ∷ body),
      normalize_pem_rebuilt kind c body rest kind_clear body_clear not_e K original no_pem e
          ∙ ap
              (λ (t : Text). some (
                text "-----BEGIN "
                ++ (kind
                    ++ (text "-----\n" ++ (t ++ (text "-----END " ++ (kind ++ text "-----\n")))))))
              lines,
    )
