-- ===== src/Acme/Pem.antt =====
-- `normalizePEM` and `ParseAccountKey` of internal/acme/jws.go.
pub mod Slices
pub mod Repaired
pub mod Lines
pub mod Columns
use cm_saas_letsencrypt_ca_c.Base.{
  ℕ, zero, suc, ◌+◌, ◌-◌, Option, none, some, [], ◌∷◌, ◌++◌, Text, text, text_eq, trim_space,
  index_of, is_space, fields_func, join, if◌then◌else◌, leb, length, drop, take,
}
use cm_saas_letsencrypt_ca_c.Errors.{fail, panicked, wrap_result, Result, ok, err, ◌>>=◌}
use cm_saas_letsencrypt_ca_c.Record.{quoted}
use cm_saas_letsencrypt_ca_c.Acme.Types.{AccountKey}

pub record Block : Type 0 where
  pub kind : Text
  pub bytes : Text

-- `pem.Decode` with the rest behind the block, and the two parsers of `crypto/x509`, of which the
-- second gives `none` for a key that is not ECDSA.
pub record KeyReader : Type 0 where
  pub pem_decode : Text → Option (Block × Text)
  pub parse_ec : Text → Result AccountKey
  pub parse_pkcs8 : Text → Result (Option AccountKey)

abbrev pub begin_prefix : Text
begin_prefix = text "-----BEGIN "

abbrev pub end_prefix : Text
end_prefix = text "-----END "

abbrev pub dashes : Text
dashes = text "-----"

-- `strings.Join(strings.Fields(body), "")`
unfoldable pub strip_space : Text → Text
strip_space body = join (fields_func is_space body) []

-- The loop that cuts the body into lines of 64, on fuel: each round takes a character at least, so
-- the body's length is enough.
unfoldable pub lines_of : ℕ → Text → Text
lines_of zero body = []
lines_of (suc fuel) [] = []
lines_of (suc fuel) (c ∷ body) = take 64 (c ∷ body) ++ (b'\n' ∷ lines_of fuel (drop 64 (c ∷ body)))

-- A PEM text with its line breaks, from the type and the base64 body.
unfoldable pub pem_text : Text → Text → Text
pem_text kind body =
    begin_prefix
    ++ (kind
        ++ (text "-----\n"
            ++ (lines_of (length body) body ++ (end_prefix ++ (kind ++ text "-----\n")))))

-- The repair, from the text behind the header's opening and the distance of the footer from there.
-- `none` is the panic of a slice whose start lies behind its end: the footer begins before the
-- header's closing dashes end.
abbrev pub rebuild : Text → Text → ℕ → Option ℕ → Option Text
rebuild original behind to_end none = some original
rebuild original behind to_end (some close) =
    if leb (close + 5) to_end
    then some (pem_text (take close behind) (strip_space (drop (close + 5) (take to_end behind))))
    else none

abbrev pub repair_at : Text → Text → Option ℕ → Option ℕ → Option Text
repair_at original s none ei = some original
repair_at original s (some bi) none = some original
repair_at original s (some bi) (some ei) =
    if leb ei bi
    then some original
    else let behind = drop (bi + 11) s in
      rebuild original behind (ei - (bi + 11)) (index_of behind dashes)

unfoldable pub repair : Text → Option Text
repair original =
    let s = trim_space original in
    repair_at original s (index_of s begin_prefix) (index_of s end_prefix)

module _ (K : KeyReader) where
  -- The data as it is, if it decodes.
  abbrev pub if_no_pem : Text → Option (Block × Text) → Option Text
  if_no_pem original (some b) = some original
  if_no_pem original none = repair original

  -- `normalizePEM`; `none` is a panic.
  unfoldable pub normalize_pem : Text → Option Text
  normalize_pem original = if_no_pem original (K.pem_decode original)

  abbrev pub ecdsa_only : Option AccountKey → Result AccountKey
  ecdsa_only none = err (fail (text "acme: account key must be ECDSA"))
  ecdsa_only (some k) = ok k

  unfoldable pub read_block : Block → Result AccountKey
  read_block b =
      if text_eq b.kind (text "EC PRIVATE KEY")
      then wrap_result (text "acme: parse EC private key") (K.parse_ec b.bytes)
      else if text_eq b.kind (text "PRIVATE KEY")
      then (do
        k ← wrap_result (text "acme: parse PKCS#8 key") (K.parse_pkcs8 b.bytes)
        ecdsa_only k)
      else err (fail (text "acme: unsupported account key PEM type " ++ quoted b.kind))

  abbrev pub read_normal : Option Text → Result AccountKey
  read_normal none = err panicked
  read_normal (some pem) = elim (K.pem_decode pem) [
    | none ↦ err (fail (text "acme: account key is not valid PEM"))
    | some (b, rest) ↦ read_block b
  ]

  unfoldable pub parse_account_key : Text → Result AccountKey
  parse_account_key pem = read_normal (normalize_pem pem)
