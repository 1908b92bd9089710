-- ===== src/Examples/Witnesses/Onboarding.antt =====
-- The theorems on the onboarding tool at concrete inputs.
use cm_saas_letsencrypt_ca_c.Base.{
  ◌↔◌, ◌≡◌, true, [], ◌∷◌, text, ◌+◌, ◌≢◌, refl, false, some, List, ◌++◌, Text, if◌then◌else◌,
}
use cm_saas_letsencrypt_ca_c.Onboard.Templates.{
  cn_san_regexes, template_named, team_id, template_id_by_name, create_new_template,
  create_template, create_application,
}
use cm_saas_letsencrypt_ca_c.Onboard.Scoped.{allowed, IsInside, cn_san_regexes-IsWithin}
use cm_saas_letsencrypt_ca_c.Errors.{ok}
use cm_saas_letsencrypt_ca_c.Errors.Doing.{pure, ignoring_error, lift, in_context, ◌>>=◌}
use cm_saas_letsencrypt_ca_c.Onboard.Calls.{Exchange, new_cm_client, call, call_into}
use cm_saas_letsencrypt_ca_c.Onboard.Accounts.{
  find_named, first_option, chosen_edge, seal_box, edge_info, find_account, create_new_ca,
  create_ca, account_product_option_id, register_product,
}
use cm_saas_letsencrypt_ca_c.Onboard.{OnboardResult, onboarded, onboard_with, run_onboard}
use cm_saas_letsencrypt_ca_c.Onboard.Posts.{posts, Added, run_onboard-Added}
use cm_saas_letsencrypt_ca_c.Onboard.Twice.{Requested, run_onboard_again, run_onboard_new_app}
use cm_saas_letsencrypt_ca_c.Onboard.Sealing.{Unbox, Boxes, open_sealed, seal_box-open_sealed}
use cm_saas_letsencrypt_ca_c.Examples.Portal.{portal, portal_key, portal_name, portal_world}
use cm_saas_letsencrypt_ca_c.Examples.Remembering.{portal-Remembers}

abbrev first_result : OnboardResult
first_result = onboarded portal_name (99 ∷ []) (111 ∷ []) (116 ∷ [])

onboarding : Unit {0}
unfolding run_onboard onboard_with create_ca create_new_ca edge_info find_account register_product
    account_product_option_id create_template create_new_template template_id_by_name
    create_application team_id seal_box chosen_edge find_named first_option template_named
    new_cm_client call call_into ◌>>=◌ pure lift ignoring_error in_context
onboarding = tt

abbrev first_log : List Exchange
first_log = (run_onboard portal [] [] portal_name [] [] [] false []).1

first_run : run_onboard portal [] [] portal_name [] [] [] false [] ≡ (ok first_result, first_log)
unfolding onboarding text
first_run = refl

run_onboard-Added_example :
    Added
      (3 + (if true then 1 else 0))
      first_log
      (run_onboard portal [] [] portal_name [] [] [] true first_log).1
run_onboard-Added_example = run_onboard-Added portal [] [] portal_name [] [] [] true first_log

has_option : first_result.product_option_id ≢ []
has_option = λ h. cc

run_onboard_again_example :
    ((run_onboard portal [] [] portal_name [] [] [] false first_log).0 ≡ ok first_result)
    × (posts (run_onboard portal [] [] portal_name [] [] [] false first_log).1 ≡ posts first_log)
run_onboard_again_example =
    run_onboard_again portal portal_world portal-Remembers [] [] [] [] portal_name [] [] [] [] [] []
      false [] first_result first_log [] first_run has_option

abbrev second_result : OnboardResult
second_result = record first_result { app_name = portal_name ++ text " app"; app_id = 112 ∷ [] }

abbrev second_log : List Exchange
second_log = (run_onboard portal [] [] portal_name [] [] [] true first_log).1

second_run :
    run_onboard portal [] [] portal_name [] [] [] true first_log ≡ (ok second_result, second_log)
unfolding onboarding text
second_run = refl

run_onboard_new_app_example :
    Requested
      (portal_name ++ text " app")
      (portal_name ++ text " template")
      (116 ∷ [])
      first_log
      second_log
run_onboard_new_app_example =
    run_onboard_new_app portal portal_world portal-Remembers [] [] [] [] portal_name [] [] [] [] []
      [] false [] first_result first_log [] second_result second_log first_run has_option second_run

abbrev box_open : Unbox
box_open nonce epk rsk cipher = some cipher

portal-Boxes : Boxes portal box_open portal_key (2 ∷ [])
portal-Boxes = record {
  decodes = λ s. refl;
  hashes = refl;
  key_length = λ log epk esk h. let e : portal_key ≡ epk = cc in rw (← e) refl;
  opens = λ log epk esk message nonce h. refl;
}

seal_box-open_sealed_example :
    (sealed : Text) × (seal_box portal (110 ∷ []) portal_key [] ≡ ok sealed)
    × (open_sealed portal box_open portal_key (2 ∷ []) sealed ≡ some (110 ∷ []))
seal_box-open_sealed_example =
    seal_box-open_sealed portal box_open portal_key (2 ∷ []) portal-Boxes (110 ∷ []) [] portal_key
      (1 ∷ []) refl refl

cn_san_regexes-IsWithin_example :
    (allowed (cn_san_regexes (text "acme.dev" ∷ text "acme.io" ∷ [])) (text "www.acme.io") ≡ true)
    ↔ IsInside (text "acme.dev" ∷ text "acme.io" ∷ []) (text "www.acme.io")
cn_san_regexes-IsWithin_example =
    cn_san_regexes-IsWithin (text "acme.dev" ∷ text "acme.io" ∷ []) (text "www.acme.io") (λ e. cc)
