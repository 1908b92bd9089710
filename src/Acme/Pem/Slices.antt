-- ===== src/Acme/Pem/Slices.antt =====
-- `normalizePEM`: the slice of the body.
use cm_saas_letsencrypt_ca_c.Base.{
  ℕ, ◌+◌, ◌-◌, ◌<◌, ◌≡◌, refl, ap, ◌∙◌, arith, false, Option, none, some, [], ◌∷◌, ◌++◌, Text, text,
  All, length, drop, index_of, trim_space, leb, ◌==◌,
}
use cm_saas_letsencrypt_ca_c.Base.Search.{has_prefix-append}
use cm_saas_letsencrypt_ca_c.Errors.{err, panicked}
use cm_saas_letsencrypt_ca_c.Acme.Pem.{
  Block, KeyReader, if_no_pem, begin_prefix, end_prefix, dashes, rebuild, repair_at, repair,
  normalize_pem, read_normal, parse_account_key,
}

abbrev pub HasNoDash : Text → Type 0
HasNoDash = All (λ c. (b'-' == c) ≡ false)

-- A text that begins with a dash is first found behind a text without dashes.
index_of-behind :
    (a p rest : Text)
    → HasNoDash a
    → index_of (a ++ ((b'-' ∷ p) ++ rest)) (b'-' ∷ p) ≡ some (length a)
unfolding index_of
index_of-behind [] p rest h = rw (has_prefix-append (b'-' ∷ p) rest) refl
index_of-behind (c ∷ a) p rest h = rw h.0 (rw (index_of-behind a p rest h.1) refl)

footer-index :
    (kind rest : Text)
    → HasNoDash kind
    → index_of (begin_prefix ++ (kind ++ (end_prefix ++ rest))) end_prefix ≡ some (11 + length kind)
unfolding index_of text
footer-index kind rest h =
    rw (index_of-behind kind (text "----END ") rest h) (ap some (omega arith))

rebuild_panics :
    (original behind : Text) (to_end close : ℕ)
    → to_end < close + 5
    → rebuild original behind to_end (some close) ≡ none
rebuild_panics original behind to_end close h = ground arith

pub header-index : (t : Text) → index_of (begin_prefix ++ t) begin_prefix ≡ some 0
unfolding index_of text
header-index t = refl

-- The closing dashes of the header are those of the footer.
closing-index :
    (kind rest : Text)
    → HasNoDash kind
    → index_of (kind ++ (end_prefix ++ rest)) dashes ≡ some (length kind)
unfolding text
closing-index kind rest h = index_of-behind kind (text "----") (text "END " ++ rest) h

pub behind_header : (t : Text) → drop (0 + 11) (begin_prefix ++ t) ≡ t
unfolding text
behind_header t = refl

repair_at_panics :
    (original s behind : Text) (n : ℕ)
    → drop (0 + 11) s ≡ behind
    → index_of behind dashes ≡ some n
    → repair_at original s (some 0) (some (11 + n)) ≡ none
repair_at_panics original s behind n d i =
    rw (not_before n)
      (rw d (rw i (rebuild_panics original behind (11 + n - (0 + 11)) n (omega arith))))
  where
    not_before : (n : ℕ) → leb (11 + n) 0 ≡ false
    not_before n = ground arith

repair_panics :
    (original kind rest : Text)
    → trim_space original ≡ begin_prefix ++ (kind ++ (end_prefix ++ rest))
    → HasNoDash kind
    → repair original ≡ none
unfolding repair
repair_panics original kind rest e h = rw e (
    rw (header-index (kind ++ (end_prefix ++ rest))) (
      rw (footer-index kind rest h) (
        repair_at_panics original (begin_prefix ++ (kind ++ (end_prefix ++ rest)))
          (kind ++ (end_prefix ++ rest)) (length kind)
          (behind_header (kind ++ (end_prefix ++ rest))) (closing-index kind rest h))))

-- A key text whose header runs into its footer, so that the closing dashes of the one are the opening
-- dashes of the other, makes `ParseAccountKey` panic: the slice of the body would start behind its
-- end. It holds for every text that is no PEM and, trimmed, is such a header with anything behind
-- the footer's opening, for a block type without dashes.
pub parse_account_key-panics :
    (K : KeyReader) (original kind rest : Text)
    → K.pem_decode original ≡ none
    → trim_space original ≡ begin_prefix ++ (kind ++ (end_prefix ++ rest))
    → HasNoDash kind
    → parse_account_key K original ≡ err panicked
unfolding parse_account_key normalize_pem
parse_account_key-panics K original kind rest no_pem e h =
    ap (λ (o : Option (Block × Text)). read_normal K (if_no_pem K original o)) no_pem
    ∙ ap (read_normal K) (repair_panics original kind rest e h)
