-- ===== src/Record/Quoting.antt =====
-- `ZoneFile` of internal/record/generate.go: its quoted value can be read back.
use cm_saas_letsencrypt_ca_c.Base.{
  ℕ, ◌≤◌, ◌≢◌, All, arith, ◌≡◌, refl, Bool, true, false, Option, none, some, [], ◌∷◌, ◌++◌, Text,
  text, if◌then◌else◌, ◌==◌, Bool-cases, inl, inr,
}
use cm_saas_letsencrypt_ca_c.Record.{Record, is_control, quote_body, zone_file}

abbrev prepend : ℕ → Option (Text × Text) → Option (Text × Text)
prepend c none = none
prepend c (some (s, rest)) = some (c ∷ s, rest)

-- The reader of a quoted string behind its opening quote, with what stands behind the closing one.
-- The flag says that the last character was a backslash.
pub read_quoted : Bool → Text → Option (Text × Text)
read_quoted escaped [] = none
read_quoted true (c ∷ s) = prepend c (read_quoted false s)
read_quoted false (c ∷ s) =
    let plain = prepend c (read_quoted false s) in
    let behind = read_quoted true s in
    if c == b'"' then some ([], s) else if c == b'\\' then behind else plain

-- A text without the control characters of ASCII.
abbrev pub IsPrintable : Text → Type 0
IsPrintable = All (λ c. (32 ≤ c) × (c ≢ 127))

not_control : (c : ℕ) → 32 ≤ c → c ≢ 127 → is_control c ≡ false
not_control c h n = ground arith

read_quoted-quote_body :
    (s rest : Text)
    → IsPrintable s
    → read_quoted false (quote_body s ++ (b'"' ∷ rest)) ≡ some (s, rest)
unfolding read_quoted quote_body
read_quoted-quote_body [] rest p = refl
read_quoted-quote_body (c ∷ s) rest p =
    let ih = read_quoted-quote_body s rest p.1 in
    elim (Bool-cases (c == b'"')) [
      | inl y ↦ rw y (rw ih refl)
      | inr n ↦ elim (Bool-cases (c == b'\\')) [
        | inl y ↦ rw n (rw y (rw ih refl))
        | inr m ↦ rw (n, m, not_control c p.0.0 p.0.1) (rw (n, m) (rw ih refl))
      ]
    ]

-- A line of a zone file for a value without control characters is the name, the class and type, and
-- a quoted string from which exactly the value is read back, with nothing behind it, whatever quotes
-- and backslashes the value has.
pub zone_file-read_quoted :
    (r : Record)
    → IsPrintable r.value
    → (line : Text) × (zone_file r ≡ r.fqdn ++ (text ". IN TXT " ++ (b'"' ∷ line)))
      × (read_quoted false line ≡ some (r.value, []))
unfolding zone_file text
zone_file-read_quoted r p =
    (quote_body r.value ++ (b'"' ∷ []), refl, read_quoted-quote_body r.value [] p)
