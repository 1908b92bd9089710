-- ===== src/Onboard.antt =====
-- cmd/dnspersist-tool/cm.go: the onboarding of a customer at the certificate manager.
pub mod Calls
pub mod Accounts
pub mod Templates
pub mod Posts
pub mod Reuse
pub mod Gives
pub mod Again
pub mod Twice
pub mod Sealing
pub mod Scoped
use cm_saas_letsencrypt_ca_c.Base.{
  Bool, true, false, Option, none, some, List, [], ◌++◌, Text, text, if◌then◌else◌,
}
use cm_saas_letsencrypt_ca_c.Errors.Doing.{pure, in_context, ◌>>=◌}
use cm_saas_letsencrypt_ca_c.Onboard.Calls.{Manager, CmClient, new_cm_client, Steps}
use cm_saas_letsencrypt_ca_c.Onboard.Accounts.{create_ca, register_product}
use cm_saas_letsencrypt_ca_c.Onboard.Templates.{create_template, create_application}

pub record OnboardResult : Type 0 where
  pub ca_id : Text
  pub product_option_id : Text
  pub template_name : Text
  pub template_id : Text
  pub app_name : Text
  pub app_id : Text
  pub generated_key_pem : Text
  pub account_uri : Text

abbrev pub template_of : Text → Text
template_of name = name ++ text " template"

abbrev pub app_of : Text → Text
app_of name = name ++ text " app"

abbrev pub onboarded : Text → Text → Text → Text → OnboardResult
onboarded name ca_id product_option_id template_id = record {
  ca_id = ca_id;
  product_option_id = product_option_id;
  template_name = template_of name;
  template_id = template_id;
  app_name = [];
  app_id = [];
  generated_key_pem = [];
  account_uri = [];
}

module _ (M : Manager) where
  -- The application at the end of `runOnboard`, where one is asked for.
  abbrev pub with_app : CmClient → Text → Bool → OnboardResult → Steps OnboardResult
  with_app c name false r = pure r
  with_app c name true r =
      in_context (text "create application")
        (create_application M c (app_of name) r.template_name r.template_id)
      >>= λ id. pure (record r { app_name = app_of name; app_id = id })

  -- `runOnboard` behind the client.
  unfoldable pub onboard_with :
      CmClient → Text → Text → Text → List Text → Bool → Steps OnboardResult
  onboard_with c name account_key_pem directory_url domains create_app = do
    ca_id ←
        in_context (text "create CA account")
          (create_ca M c name account_key_pem directory_url false)
    option_id ← in_context (text "register product option") (register_product M c ca_id)
    template_id ←
        in_context (text "create issuing template")
          (create_template M c (template_of name) option_id domains)
    with_app c name create_app (onboarded name ca_id option_id template_id)

  -- `runOnboard`
  unfoldable pub run_onboard :
      Text → Text → Text → Text → Text → List Text → Bool → Steps OnboardResult
  run_onboard cm_key plugin_id name account_key_pem directory_url domains create_app =
      onboard_with (new_cm_client cm_key plugin_id) name account_key_pem directory_url domains
        create_app
