-- ===== src/Tool/Cli/Verdicts.antt =====
-- cmd/dnspersist-tool/main.go: when `validate` and `plan` succeed.
use mathlib.Core.Path.{subst}
use cm_saas_letsencrypt_ca_c.Base.{
  ℕ, ◌+◌, ◌≤◌, ◌==◌, ◌≡◌, ◌≢◌, ◌↔◌, ◌⊎◌, refl, arith, ltb, Bool, true, false, ◌||◌, Option, none,
  some, List, [], ◌∷◌, All, length, Text, is_empty, Bool-cases, inl, inr, ==_iff,
}
use cm_saas_letsencrypt_ca_c.Errors.{Result, ok, err}
use cm_saas_letsencrypt_ca_c.Record.{Record, generate}
use cm_saas_letsencrypt_ca_c.Live.{tool_record_live}
use cm_saas_letsencrypt_ca_c.Acme.Types.{AccountKey}
use cm_saas_letsencrypt_ca_c.Acme.Outside.{Event}
use cm_saas_letsencrypt_ca_c.Acme.Act.{Session}
use cm_saas_letsencrypt_ca_c.Acme.Act
use cm_saas_letsencrypt_ca_c.Acme.Account.{register}
use cm_saas_letsencrypt_ca_c.Acme.Pem.{parse_account_key}
use cm_saas_letsencrypt_ca_c.Service.{Platform}
use cm_saas_letsencrypt_ca_c.Errors.Doing.{pure, lift, ◌>>=◌}
use cm_saas_letsencrypt_ca_c.Names.{split_domains}
use cm_saas_letsencrypt_ca_c.Tool.{with_key, is_live, validate_domains, op_validate, op_plan}
use cm_saas_letsencrypt_ca_c.Tool.Records.{
  DomainResult, PlanRecord, ZonePlan, tool_params, tool_client,
}
use cm_saas_letsencrypt_ca_c.Tool.Machine.{Bench, Machine, file_at, on_events, print, read_file}
use cm_saas_letsencrypt_ca_c.Tool.Cli.{
  validate_verdict, report_results, cmd_validate, report_plan, cmd_plan,
}
use cm_saas_letsencrypt_ca_c.Tool.Cli.Reports.{verdict_lines, missing, plan_lines, zone_lines}
use cm_saas_letsencrypt_ca_c.Tool.Cli.Flags.{ValidateFlags, PlanFlags}

abbrev pub IsLive : DomainResult → Type 0
IsLive r = r.live ≡ true

count_lem : (results : List DomainResult) → (verdict_lines results).1 ≤ length results
unfolding verdict_lines
count_lem [] = omega arith
count_lem (r ∷ results) = ground (arith, count_lem results)

-- All records are live exactly if as many are live as there are.
count-eq_iff :
    (results : List DomainResult)
    → ((verdict_lines results).1 ≡ length results) ↔ All IsLive results
unfolding verdict_lines
count-eq_iff [] = (λ e. tt, λ a. refl)
count-eq_iff (r ∷ results) = ground (arith, count-eq_iff results, count_lem results)

verdict_iff :
    (results : List DomainResult) (s : Machine)
    → ((validate_verdict results s).0 ≡ ok tt) ↔ All IsLive results
unfolding pure lift
verdict_iff results s = elim (Bool-cases ((verdict_lines results).1 == length results)) [
  | inl all ↦ (λ e. (count-eq_iff results).0 ((==_iff _ _).0 all), λ a. rw all refl)
  | inr some_missing ↦ (
    λ e. let q = rw some_missing at e in cc,
    λ a. let q = (==_iff _ _).1 ((count-eq_iff results).1 a) in cc,
  )
]

report_results_iff :
    (results : List DomainResult) (s : Machine)
    → ((report_results results s).0 ≡ ok tt) ↔ All IsLive results
unfolding report_results ◌>>=◌ print
report_results_iff results s = verdict_iff results _

-- The name has a standing record for the account, and what a lookup of it finds passes the check.
pub record HasLiveRecord (W : Platform) (uri : Text) (log : List Event) (d : Text) : Type 0 where
  pub standing : Record
  pub generated : generate (tool_params uri false d) ≡ ok standing
  pub found : tool_record_live (W.lookup_txt log standing.fqdn) uri ≡ true

is_live_iff :
    (W : Platform) (uri : Text) (log : List Event) (d : Text) (r : Result Record)
    → generate (tool_params uri false d) ≡ r
    → (is_live W uri log r ≡ true) ↔ HasLiveRecord W uri log d
is_live_iff W uri log d (err e) g = (λ h. cc, λ h. let g' = h.generated in cc)
is_live_iff W uri log d (ok rec) g = (
  λ h. record { standing = rec; generated = g; found = h },
  λ h.
      subst (λ (x : Record). tool_record_live (W.lookup_txt log x.fqdn) uri ≡ true)
        (one_record h.standing h.generated) h.found,
)
  where
    one_record : (x : Record) → generate (tool_params uri false d) ≡ ok x → x ≡ rec
    one_record x e = cc

validated :
    (W : Platform) (uri : Text) (log : List Event) (ds : List Text)
    → All IsLive (validate_domains W uri log ds) ↔ All (HasLiveRecord W uri log) ds
unfolding validate_domains
validated W uri log [] = (λ h. tt, λ h. tt)
validated W uri log (d ∷ ds) =
    let (to, from) = is_live_iff W uri log d _ refl in
    let (rest_to, rest_from) = validated W uri log ds in
    (λ h. (to h.0, rest_to h.1), λ h. (from h.0, rest_from h.1))

-- What `opValidate` answers once the account of the key is there.
op_validate_lem :
    (W : Platform) (key_pem : Text) (ds : List Text) (prod : Bool) (key : AccountKey)
    (log : List Event) (t : Session)
    → parse_account_key W.keys key_pem ≡ ok key
    → register W.outside [] (record { client = tool_client prod key; log = log }) ≡ (ok tt, t)
    → (op_validate W key_pem ds prod log).0
      ≡ ok (t.client.account_url, validate_domains W t.client.account_url t.log ds)
unfolding op_validate with_key Act.◌>>=◌ Act.gets Act.lift Act.in_context
op_validate_lem W key_pem ds prod key log t parsed registered = rw (parsed, registered) refl

-- With its flags and a key file with an account key, and once the account is registered, `validate`
-- succeeds exactly if each of the given domains has a standing record for the account, and the values
-- that DNS answers for its name pass the live check.
pub cmd_validate-IsLive :
    (B : Bench) (f : ValidateFlags) (s : Machine) (key_pem : Text) (key : AccountKey) (t : Session)
    → (is_empty f.key || is_empty f.domains) ≡ false
    → file_at f.key s.files ≡ some key_pem
    → parse_account_key B.platform.keys key_pem ≡ ok key
    → register B.platform.outside [] (record { client = tool_client f.prod key; log = s.events })
      ≡ (ok tt, t)
    → ((cmd_validate B f s).0 ≡ ok tt)
      ↔ All (HasLiveRecord B.platform t.client.account_url t.log) (split_domains f.domains)
unfolding cmd_validate ◌>>=◌ read_file on_events
cmd_validate-IsLive B f s key_pem key t given there parsed registered =
    let answered =
      op_validate_lem B.platform key_pem (split_domains f.domains) f.prod key s.events t parsed
        registered in
    let (to, from) = validated B.platform t.client.account_url t.log (split_domains f.domains) in
    rw (given, there, answered)
      (λ h. to ((report_results_iff _ _).0 h), λ h. (report_results_iff _ _).1 (from h))

abbrev pub IsPlanned : PlanRecord → Type 0
IsPlanned r = r.live ≢ some false

abbrev pub HasAll : ZonePlan → Type 0
HasAll z = All IsPlanned z.records

live_cases :
    {P : Type 0} (live : Option Bool) (n : ℕ)
    → (n ≡ 0) ↔ P
    → (missing live + n ≡ 0) ↔ ((live ≢ some false) × P)
live_cases none n h = (λ e. (λ x. cc, h.0 (omega (arith, e))), λ a. omega (arith, h.1 a.1))
live_cases (some true) n h = (λ e. (λ x. cc, h.0 (omega (arith, e))), λ a. omega (arith, h.1 a.1))
live_cases (some false) n h = (λ e. absurd (omega (arith, e)), λ a. absurd (a.0 refl))

plan_lines_iff : (recs : List PlanRecord) → ((plan_lines recs).1 ≡ 0) ↔ All IsPlanned recs
unfolding plan_lines
plan_lines_iff [] = (λ e. tt, λ a. refl)
plan_lines_iff (r ∷ recs) = live_cases r.live _ (plan_lines_iff recs)

zone_lines_iff : (zones : List ZonePlan) → ((zone_lines zones).1 ≡ 0) ↔ All HasAll zones
unfolding zone_lines
zone_lines_iff [] = (λ e. tt, λ a. refl)
zone_lines_iff (z ∷ zones) =
    let (own_to, own_from) = plan_lines_iff z.records in
    let (to, from) = zone_lines_iff zones in
    (
      λ e. (own_to (omega (arith, e)), to (omega (arith, e))),
      λ a. omega (arith, own_from a.0, from a.1),
    )

present : {n : ℕ} → ltb 0 n ≡ true → n ≢ 0
present h e = let q = rw e at h in cc

report_plan_iff :
    (validate : Bool) (uri : Text) (zones : List ZonePlan) (n : ℕ) (s : Machine)
    → ((report_plan validate uri zones n s).0 ≡ ok tt) ↔ ((validate ≡ false) ⊎ All HasAll zones)
unfolding report_plan ◌>>=◌ print pure lift
report_plan_iff false uri zones n s = (λ e. inl refl, λ a. refl)
report_plan_iff true uri zones n s = elim (Bool-cases (ltb 0 (zone_lines zones).1)) [
  | inl some_missing ↦ (
    λ e. let q = rw some_missing at e in cc,
    λ a. elim a [
      | inl off ↦ cc
      | inr all ↦ absurd (present some_missing ((zone_lines_iff zones).1 all))
    ],
  )
  | inr all ↦ (λ e. inr ((zone_lines_iff zones).0 (ground (arith, all))), λ a. rw all refl)
]

-- With its flags and its files, and once the plan has been made, `plan` succeeds exactly if it was
-- not asked to validate or no planned record is missing.
pub cmd_plan-HasAll :
    (B : Bench) (f : PlanFlags) (s : Machine) (cert_data key_pem uri : Text) (zones : List ZonePlan)
    (n : ℕ)
    → (is_empty f.cert || is_empty f.key) ≡ false
    → file_at f.cert s.files ≡ some cert_data
    → file_at f.key s.files ≡ some key_pem
    → (op_plan B.platform B.parse_names B.etld_plus_one cert_data key_pem f.prod f.validate
        s.events).0
      ≡ ok (uri, (zones, n))
    → ((cmd_plan B f s).0 ≡ ok tt) ↔ ((f.validate ≡ false) ⊎ All HasAll zones)
unfolding cmd_plan ◌>>=◌ read_file on_events
cmd_plan-HasAll B f s cert_data key_pem uri zones n given has_cert has_key answered =
    rw (given, has_cert, has_key, answered) (report_plan_iff f.validate uri zones n _)
