-- ===== src/Onboard/Calls.antt =====
-- cmd/dnspersist-tool/cm.go, the client of the certificate manager: its requests, the trace of what
-- it has sent, and `do`, with `truncate`.
use cm_saas_letsencrypt_ca_c.Base.{
  ℕ, zero, suc, Bool, Option, List, [], ◌∷◌, ◌++◌, length, leb, ltb, Text, text, decimal, is_empty,
  if◌then◌else◌,
}
use cm_saas_letsencrypt_ca_c.Errors.{Err, fail, Result, ok, err}
use cm_saas_letsencrypt_ca_c.Errors.Doing.{Doing, lift, ◌>>=◌}

-- The values that the client sends: nested `map[string]any` and slices.
mutual
  pub data Json : Type 0 where
    str : Text → Json
    num : ℕ → Json
    flag : Bool → Json
    arr : Elems → Json
    obj : Props → Json

  pub data Elems : Type 0 where
    nil : Elems
    cons : Json → Elems → Elems

  pub data Props : Type 0 where
    end : Props
    prop : Text → Json → Props → Props

pub data Method : Type 0 where
  get post : Method

abbrev pub method_name : Method → Text
method_name get = text "GET"
method_name post = text "POST"

pub record CmRequest : Type 0 where
  pub method : Method
  pub url : Text
  -- the header `tppl-api-key`
  pub api_key : Text
  pub body : Option Json

-- A request with the status and the body of its answer, or an error. The newest comes first.
pub record Exchange : Type 0 where
  pub request : CmRequest
  pub answer : Result (ℕ × Text)

-- The fields of `caAccountsResp` that are read: the id, the key, the ids of the product options.
pub record CaAccount : Type 0 where
  pub id : Text
  pub key : Text
  pub product_options : List Text

pub record EdgeInstance : Type 0 where
  pub id : Text
  pub encryption_key_id : Text

pub record IssuingTemplate : Type 0 where
  pub id : Text
  pub name : Text

-- The ids of the applications, and the id beside them.
pub record CreatedApplication : Type 0 where
  pub applications : List Text
  pub id : Text

-- What the client calls and does not implement: HTTP, base64, the sealed box and the JSON decoder.
pub record Manager : Type 0 where
  -- `http.NewRequest`, which refuses a URL that does not parse
  pub check_url : Text → Result (Unit {0})
  pub send : List Exchange → CmRequest → Result (ℕ × Text)
  pub b64_std : Text → Text
  pub b64_std_decode : Text → Result Text
  -- `box.GenerateKey(rand.Reader)`: the public and the secret key
  pub generate_key : List Exchange → Result (Text × Text)
  -- `blake2b.New(24, nil)` and the sum over all that was written
  pub new_hash : Result (Unit {0})
  pub blake2b : Text → Text
  -- `box.Seal` behind the bytes that it appends to: message, nonce, recipient, secret key
  pub box : Text → Text → Text → Text → Text
  pub read_accounts : Text → Result (List CaAccount)
  pub read_edges : Text → Result (List EdgeInstance)
  pub read_key : Text → Result Text
  pub read_teams : Text → Result (List Text)
  pub read_id : Text → Result Text
  pub read_templates : Text → Result (List IssuingTemplate)
  pub read_application : Text → Result CreatedApplication

-- `cmClient`
pub record CmClient : Type 0 where
  pub key : Text
  pub plugin_id : Text

abbrev pub cm_base : Text
cm_base = text "https://api.venafi.cloud"

abbrev pub default_plugin_id : Text
default_plugin_id = text "37ec5f37-6b75-11f1-9ea5-20c33ba661e3"

abbrev pub cm_product_name : Text
cm_product_name = text "Let's Encrypt (dns-persist-01)"

unfoldable pub new_cm_client : Text → Text → CmClient
new_cm_client key plugin_id = record {
  key = key;
  plugin_id = if is_empty plugin_id then default_plugin_id else plugin_id;
}

-- Methods of the client: what was sent before an error stays sent.
abbrev pub Steps : Type 0 → Type 0
Steps = Doing (List Exchange)

abbrev pub take : ℕ → Text → Text
take zero s = []
take (suc n) [] = []
take (suc n) (c ∷ s) = c ∷ take n s

-- The three bytes of "…"
abbrev pub ellipsis : Text
ellipsis = 226 ∷ 128 ∷ 166 ∷ []

unfoldable pub truncate : Text → ℕ → Text
truncate s n = if ltb n (length s) then take n s ++ ellipsis else s

-- The message of `do` for a status of 300 or more.
unfoldable pub status_error : Method → Text → ℕ → Text → Err
status_error method path status body = fail (
    text "CM "
    ++ (method_name method
        ++ (text " "
            ++ (path
                ++ (text " -> HTTP " ++ (decimal status ++ (text ": " ++ truncate body 400)))))))

-- The answer of `do` before it is decoded.
abbrev pub body_of : Method → Text → Result (ℕ × Text) → Result Text
body_of method path (err e) = err e
body_of method path (ok (status, body)) =
    if leb 300 status then err (status_error method path status body) else ok body

abbrev pub request_of : CmClient → Method → Text → Option Json → CmRequest
request_of c method path body = record {
  method = method;
  url = cm_base ++ path;
  api_key = c.key;
  body = body;
}

abbrev pub exchange : CmRequest → Result (ℕ × Text) → Exchange
exchange request answer = record { request = request; answer = answer }

module _ (M : Manager) where
  abbrev pub transmit : Result (Unit {0}) → Method → Text → CmRequest → Steps Text
  transmit (err e) method path request log = (err e, log)
  transmit (ok _) method path request log =
      (body_of method path (M.send log request), exchange request (M.send log request) ∷ log)

  -- `do` without a value to decode into.
  unfoldable pub call : CmClient → Method → Text → Option Json → Steps Text
  call c method path body =
      transmit (M.check_url (cm_base ++ path)) method path (request_of c method path body)

  -- The decoding at the end of `do`: an empty body leaves the zero value.
  abbrev pub decoded : {A : Type 0} → (Text → Result A) → A → Text → Result A
  decoded read zero_value [] = ok zero_value
  decoded read zero_value (c ∷ body) = read (c ∷ body)

  -- `do` with a value to decode into.
  unfoldable pub call_into :
      {A : Type 0} → CmClient → Method → Text → Option Json → (Text → Result A) → A → Steps A
  call_into c method path body read zero_value =
      call c method path body >>= λ answer. lift (decoded read zero_value answer)
