-- ===== src/Examples/Portal.antt =====
-- A certificate manager that remembers what was posted for one customer.
use cm_saas_letsencrypt_ca_c.Base.{
  ℕ, zero, suc, Bool, true, false, ◌&&◌, List, [], ◌∷◌, ◌++◌, Text, text_eq, leb, if◌then◌else◌,
}
use cm_saas_letsencrypt_ca_c.Errors.{Result, ok, err, outside}
use cm_saas_letsencrypt_ca_c.Onboard.Calls.{
  Method, get, post, CmRequest, Exchange, CaAccount, IssuingTemplate, Manager, cm_base,
}
use cm_saas_letsencrypt_ca_c.Onboard.Accounts.{accounts_path, options_path}
use cm_saas_letsencrypt_ca_c.Onboard.Templates.{templates_path}
use cm_saas_letsencrypt_ca_c.Onboard.{template_of}
use cm_saas_letsencrypt_ca_c.Onboard.Reuse.{World}

abbrev pub portal_name : Text
portal_name = 110 ∷ []

abbrev pub portal_ca : Text
portal_ca = 99 ∷ []

abbrev pub at_accounts : CmRequest → Bool
at_accounts r = text_eq r.url (cm_base ++ accounts_path)

abbrev pub at_options : CmRequest → Bool
at_options r = text_eq r.url (cm_base ++ options_path portal_ca)

abbrev pub at_templates : CmRequest → Bool
at_templates r = text_eq r.url (cm_base ++ templates_path)

abbrev pub is_post : Method → Bool
is_post get = false
is_post post = true

abbrev pub is_ok : {A : Type 0} → Result A → Bool
is_ok (ok a) = true
is_ok (err e) = false

-- Whether something was posted where the test says.
abbrev pub made : (CmRequest → Bool) → List Exchange → ℕ
made here [] = 0
made here (e ∷ log) =
    let rest = made here log in
    if here e.request && is_post e.request.method && is_ok e.answer then 1 else rest

abbrev pub accounts_of : ℕ → ℕ → List CaAccount
accounts_of zero o = []
accounts_of (suc a) zero = record { id = portal_ca; key = portal_name; product_options = [] } ∷ []
accounts_of (suc a) (suc o) =
    record { id = portal_ca; key = portal_name; product_options = (111 ∷ []) ∷ [] } ∷ []

abbrev pub templates_of : ℕ → List IssuingTemplate
templates_of zero = []
templates_of (suc t) = record { id = 116 ∷ []; name = template_of portal_name } ∷ []

abbrev pub portal_world : List Exchange → World
portal_world log = record {
  accounts = accounts_of (made at_accounts log) (made at_options log);
  templates = templates_of (made at_templates log);
}

abbrev pub respond : (accounts options templates : Bool) → Method → (a o t : ℕ) → ℕ × Text
respond true options templates get a o t = (200, b'{' ∷ a ∷ o ∷ [])
respond true options templates post a o t = (201, [])
respond false true templates get a o t = (404, [])
respond false true templates post zero o t = (404, [])
respond false true templates post (suc a) o t = (201, 111 ∷ [])
respond false false true get a o t = (200, b'{' ∷ t ∷ [])
respond false false true post a o t = (201, [])
respond false false false k a o t = (200, b'{' ∷ [])

abbrev pub portal_send : List Exchange → CmRequest → ℕ × Text
portal_send log r =
    respond (at_accounts r) (at_options r) (at_templates r) r.method (made at_accounts log)
      (made at_options log) (made at_templates log)

abbrev pub two_numbers : {A : Type 0} → (ℕ → ℕ → A) → Text → Result A
two_numbers f (c ∷ a ∷ o ∷ s) = ok (f a o)
two_numbers f s = err (outside [])

abbrev pub one_number : {A : Type 0} → (ℕ → A) → Text → Result A
one_number f (c ∷ t ∷ s) = ok (f t)
one_number f s = err (outside [])

abbrev pub object_id : Text → Result Text
object_id [] = ok []
object_id (c ∷ s) = if leb 123 c then err (outside []) else ok (c ∷ s)

-- Every key is 32 times the same byte, and a box is its message.
abbrev pub portal_key : Text
portal_key =
    7 ∷ 7 ∷ 7 ∷ 7 ∷ 7 ∷ 7 ∷ 7 ∷ 7 ∷ 7 ∷ 7 ∷ 7 ∷ 7 ∷ 7 ∷ 7 ∷ 7 ∷ 7 ∷ 7 ∷ 7 ∷ 7 ∷ 7 ∷ 7 ∷ 7 ∷ 7 ∷ 7
    ∷ 7 ∷ 7 ∷ 7 ∷ 7 ∷ 7 ∷ 7 ∷ 7 ∷ 7 ∷ []

abbrev pub portal : Manager
portal = record {
  check_url = λ url. ok tt;
  send = λ log r. ok (portal_send log r);
  b64_std = λ s. s;
  b64_std_decode = ok;
  generate_key = λ log. ok (portal_key, 1 ∷ []);
  new_hash = ok tt;
  blake2b = λ s. s;
  box = λ message nonce rpk esk. message;
  read_accounts = two_numbers accounts_of;
  read_edges = λ s. ok (record { id = 101 ∷ []; encryption_key_id = 107 ∷ [] } ∷ []);
  read_key = λ s. ok portal_key;
  read_teams = λ s. ok ((116 ∷ []) ∷ []);
  read_id = object_id;
  read_templates = one_number templates_of;
  read_application = λ s. ok (record { applications = []; id = 112 ∷ [] });
}
