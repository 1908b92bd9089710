-- ===== src/Tool/Lines.antt =====
-- The records that the tool prints, against the checks of the tool and of the connector.
use mathlib.Core.Path.{subst}
use cm_saas_letsencrypt_ca_c.Base.{
  suc, ◌≡◌, refl, ap, sym, ◌∙◌, Bool, true, Option, none, some, List, [], ◌∷◌, ◌++◌, Text, text,
  lower, lower_char, trim_space, All, length,
}
use cm_saas_letsencrypt_ca_c.Base.Trim.{HasNoSpace}
use cm_saas_letsencrypt_ca_c.Errors.{Err, Result, ok, err, wrap_result, ◌>>=◌}
use cm_saas_letsencrypt_ca_c.Errors.Laws.{wrap_result-err}
use cm_saas_letsencrypt_ca_c.Record.{Record, generate}
use cm_saas_letsencrypt_ca_c.Live.{
  wanted, any_names_account, record_live, tool_issuer, tool_record_live,
}
use cm_saas_letsencrypt_ca_c.Live.Accepts.{record_live-generate}
use cm_saas_letsencrypt_ca_c.Tool.Records.{RecordLine, tool_params, line_of, record_lines}

issuer_clean : lower (trim_space tool_issuer) ≡ tool_issuer
unfolding text trim_space lower_char
issuer_clean = refl

issuer-HasNoSpace : HasNoSpace (trim_space tool_issuer)
unfolding text trim_space
issuer-HasNoSpace = (
  refl,
  (
    refl,
    (
      refl,
      (
        refl,
        (refl, (refl, (refl, (refl, (refl, (refl, (refl, (refl, (refl, (refl, (refl, tt))))))))))),
      ),
    ),
  ),
)

-- The onboarding tool and the connector agree on which answers of DNS bind a domain to an account,
-- for the issuer that the tool fixes.
pub tool_record_live-record_live :
    (txts : Option (List Text)) (uri : Text)
    → tool_record_live txts uri ≡ record_live txts uri tool_issuer
unfolding tool_record_live record_live
tool_record_live-record_live none uri = refl
tool_record_live-record_live (some txts) uri =
    ap (λ (issuer : Text). any_names_account issuer (wanted uri) txts) (sym issuer_clean)

-- Once DNS answers the line's value, among others, the check of the tool passes.
abbrev pub IsAccepted : Text → RecordLine → Type 0
IsAccepted uri line =
    (before later : List Text) → tool_record_live (some (before ++ line.value ∷ later)) uri ≡ true

line-IsAccepted :
    (uri d : Text) (wildcard : Bool) (rec : Record)
    → HasNoSpace uri
    → generate (tool_params uri wildcard d) ≡ ok rec
    → IsAccepted uri (line_of rec)
line-IsAccepted uri d wildcard rec clear g before later =
    tool_record_live-record_live (some (before ++ rec.value ∷ later)) uri
    ∙ record_live-generate (tool_params uri wildcard d) rec g issuer-HasNoSpace before later clear

no_lines :
    (r : Result Record)
    → (e : Err) × (r ≡ err e)
    → (next : Record → Result (List RecordLine)) (lines : List RecordLine) → (r >>= next) ≡ ok lines
    → ⊥
no_lines (ok rec) h next lines k = let e = h.1 in cc
no_lines (err e) h next lines k = cc

-- What a loop that succeeds has done for its first domain and for the others.
first_line :
    (uri d : Text) (wildcard : Bool) (ds : List Text) (r : Result Record)
    (rest : Result (List RecordLine)) (lines : List RecordLine)
    → (wrap_result d r >>= λ rec. rest >>= λ ls. ok (line_of rec ∷ ls)) ≡ ok lines
    → (rec : Record) × (ls : List RecordLine) × (r ≡ ok rec)
      × (rest ≡ ok ls)
      × (lines ≡ line_of rec ∷ ls)
first_line uri d wildcard ds (ok rec) (ok ls) lines h = (rec, ls, refl, refl, cc)
first_line uri d wildcard ds (ok rec) (err e) lines h = cc
first_line uri d wildcard ds (err e) rest lines h =
    absurd (no_lines _ (wrap_result-err d e) _ lines h)

-- When `opRecords` succeeds, it prints one line for each domain, and each line is accepted by the
-- tool's check of the same account once DNS answers its value, whatever other TXT values stand beside
-- it, with or without the wildcard policy, if the account URI has no space.
pub record_lines-IsAccepted :
    (uri : Text) (wildcard : Bool) (ds : List Text) (lines : List RecordLine)
    → HasNoSpace uri
    → record_lines uri wildcard ds ≡ ok lines
    → (length lines ≡ length ds) × All (IsAccepted uri) lines
unfolding record_lines
record_lines-IsAccepted uri wildcard [] [] clear h = (refl, tt)
record_lines-IsAccepted uri wildcard [] (l ∷ lines) clear h = cc
record_lines-IsAccepted uri wildcard (d ∷ ds) lines clear h =
    let (rec, ls, g, r, e) =
      first_line uri d wildcard ds (generate (tool_params uri wildcard d))
        (record_lines uri wildcard ds) lines h in
    let ih = record_lines-IsAccepted uri wildcard ds ls clear r in
    subst (λ (x : List RecordLine). (length x ≡ suc (length ds)) × All (IsAccepted uri) x) (sym e)
      (ap (λ n. suc n) ih.0, (line-IsAccepted uri d wildcard rec clear g, ih.1))
