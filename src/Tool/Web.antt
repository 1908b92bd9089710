-- ===== src/Tool/Web.antt =====
-- cmd/dnspersist-tool/web.go: the web UI of the tool.
pub mod Kept
use cm_saas_letsencrypt_ca_c.Base.{
  ℕ, Bool, true, false, not, ◌&&◌, ◌||◌, List, [], ◌∷◌, ◌++◌, Text, text, text_eq, is_empty,
  if◌then◌else◌,
}
use cm_saas_letsencrypt_ca_c.Errors.{err_text, Result, ok, err}
use cm_saas_letsencrypt_ca_c.Errors.Doing.{answer, proceed}
use cm_saas_letsencrypt_ca_c.Names.{split_domains}
use cm_saas_letsencrypt_ca_c.Onboard.{OnboardResult, run_onboard}
use cm_saas_letsencrypt_ca_c.Tool.{op_records, op_validate, op_plan}
use cm_saas_letsencrypt_ca_c.Tool.Records.{
  dir_url, record_value, RecordLine, DomainResult, ZonePlan,
}
use cm_saas_letsencrypt_ca_c.Tool.Email.{op_email}
use cm_saas_letsencrypt_ca_c.Tool.Machine.{
  Bench, Machine, Job, on_events, on_exchanges, op_new_account,
}

pub record WebRequest : Type 0 where
  pub path : Text
  pub body : Text

-- The bodies of the requests.
pub record NewAccountBody : Type 0 where
  pub prod : Bool
  pub contact : Text

pub record RecordsBody : Type 0 where
  pub key : Text
  pub domains : Text
  pub wildcard : Bool
  pub prod : Bool

pub record OnboardBody : Type 0 where
  pub cm_key : Text
  pub name : Text
  pub key : Text
  pub domains : Text
  pub gen_key : Bool
  pub app : Bool
  pub prod : Bool

pub record ValidateBody : Type 0 where
  pub key : Text
  pub domains : Text
  pub prod : Bool

pub record PlanBody : Type 0 where
  pub cert : Text
  pub key : Text
  pub prod : Bool
  pub validate : Bool

-- `json.NewDecoder(r.Body).Decode` at each type of body.
pub record Decoder : Type 0 where
  pub decode_new_account : Text → Result NewAccountBody
  pub decode_records : Text → Result RecordsBody
  pub decode_onboard : Text → Result OnboardBody
  pub decode_validate : Text → Result ValidateBody
  pub decode_plan : Text → Result PlanBody

-- What is written: the page, and the values that `writeJSON` encodes.
pub data WebReply : Type 0 where
  page : WebReply
  not_found : WebReply
  error : Text → WebReply
  account : Text → Text → Text → WebReply
  record_list : Text → List RecordLine → WebReply
  email_text : Text → Text → WebReply
  onboarding : OnboardResult → WebReply
  checks : Text → List DomainResult → WebReply
  zone_list : Text → List ZonePlan → ℕ → WebReply

pub record WebResponse : Type 0 where
  pub code : ℕ
  pub reply : WebReply

-- `writeJSON`
abbrev pub write_json : ℕ → WebReply → WebResponse
write_json code reply = record { code = code; reply = reply }

abbrev pub bad_gateway : Text → WebResponse
bad_gateway message = write_json 502 (error message)

-- `decode`: a body that cannot be read ends the request.
unfoldable pub decoded_body : {A : Type 0} → Result A → (A → Job WebResponse) → Job WebResponse
decoded_body (err e) f s = (ok (write_json 400 (error (text "invalid request: " ++ err_text e))), s)
decoded_body (ok a) f s = f a s

-- The end of a handler: an error of the operation is answered with the status 502.
unfoldable pub answered :
    {A : Type 0} → (Text → WebResponse) → (A → WebReply) → Job A → Job WebResponse
answered bad good m s = let (r, s') = m s in (answer bad (λ a. write_json 200 (good a)) r, s')

-- The result with the key that was generated for it.
abbrev pub with_key : Text → Text → OnboardResult → WebReply
with_key pem uri r = onboarding (record r { generated_key_pem = pem; account_uri = uri })

module _ (B : Bench) (D : Decoder) where
  unfoldable pub api_new_account : WebRequest → Job WebResponse
  api_new_account r = decoded_body (D.decode_new_account r.body) λ req.
      answered bad_gateway (λ made. account made.0 made.1 (record_value made.1))
        (on_events (op_new_account B req.prod req.contact))

  unfoldable pub api_records : WebRequest → Job WebResponse
  api_records r = decoded_body (D.decode_records r.body) λ req.
      answered bad_gateway (λ found. record_list found.0 found.1)
        (on_events
          (op_records B.platform req.key (split_domains req.domains) req.wildcard req.prod))

  unfoldable pub api_email : WebRequest → Job WebResponse
  api_email r = decoded_body (D.decode_records r.body) λ req.
      answered bad_gateway (λ mail. email_text mail.0 mail.1)
        (on_events (op_email B.platform req.key (split_domains req.domains) req.wildcard req.prod))

  -- `runOnboard` with the key, and with what is told of a generated one.
  unfoldable pub api_run_onboard : OnboardBody → Text → Text → Text → Job WebResponse
  api_run_onboard req key gen_pem gen_uri = answered bad_gateway (with_key gen_pem gen_uri) (
      on_exchanges (
        run_onboard B.manager req.cm_key [] req.name key (dir_url req.prod)
          (split_domains req.domains) req.app))

  abbrev pub after_account : OnboardBody → Result (Text × Text) → Job WebResponse
  after_account req (ok (pem, uri)) s = api_run_onboard req pem pem uri s
  after_account req (err e) s = (
    answer (λ message. bad_gateway (text "generate account: " ++ message)) (λ (m : WebResponse). m)
        (err e),
    s,
  )

  unfoldable pub api_generate_and_onboard : OnboardBody → Job WebResponse
  api_generate_and_onboard req s =
      let (r, s') = on_events (op_new_account B req.prod []) s in after_account req r s'

  unfoldable pub api_onboard_with : OnboardBody → Job WebResponse
  api_onboard_with req =
      if req.gen_key then api_generate_and_onboard req else api_run_onboard req req.key [] []

  abbrev pub bad_body : Text → Job WebResponse
  bad_body message s = (ok (write_json 400 (error message)), s)

  unfoldable pub api_onboard : WebRequest → Job WebResponse
  api_onboard r = decoded_body (D.decode_onboard r.body) λ req.
      if is_empty req.cm_key || is_empty req.name
      then bad_body (text "CM API key and customer name are required")
      else if is_empty req.key && not req.gen_key
      then bad_body (text "paste an account key, or check 'generate a new account key'")
      else api_onboard_with req

  unfoldable pub api_validate : WebRequest → Job WebResponse
  api_validate r = decoded_body (D.decode_validate r.body) λ req.
      answered bad_gateway (λ found. checks found.0 found.1)
        (on_events (op_validate B.platform req.key (split_domains req.domains) req.prod))

  unfoldable pub api_plan : WebRequest → Job WebResponse
  api_plan r = decoded_body (D.decode_plan r.body) λ req.
      answered bad_gateway (λ plan. zone_list plan.0 plan.1.0 plan.1.1)
        (on_events
          (op_plan B.platform B.parse_names B.etld_plus_one req.cert req.key req.prod req.validate))

  abbrev pub index : WebRequest → Job WebResponse
  index r s = (
    ok (
        if text_eq r.path (text "/")
        then record { code = 200; reply = page }
        else record { code = 404; reply = not_found }),
    s,
  )

  -- The handlers that `cmdServe` registers; the path "/" takes what no other path does.
  unfoldable pub serve_web : WebRequest → Job WebResponse
  serve_web r =
      if text_eq r.path (text "/api/new-account")
      then api_new_account r
      else if text_eq r.path (text "/api/records")
      then api_records r
      else if text_eq r.path (text "/api/email")
      then api_email r
      else if text_eq r.path (text "/api/validate")
      then api_validate r
      else if text_eq r.path (text "/api/plan")
      then api_plan r
      else if text_eq r.path (text "/api/onboard")
      then api_onboard r
      else index r
