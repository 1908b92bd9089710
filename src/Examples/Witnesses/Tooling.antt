-- ===== src/Examples/Witnesses/Tooling.antt =====
-- The theorems on the commands and the web UI of the onboarding tool at concrete inputs.
use cm_saas_letsencrypt_ca_c.Base.{
  ◌≡◌, ◌↔◌, refl, true, false, some, [], ◌∷◌, All, text, is_empty, ◌||◌,
}
use cm_saas_letsencrypt_ca_c.Errors.{ok, err, outside}
use cm_saas_letsencrypt_ca_c.Names.{split_domains}
use cm_saas_letsencrypt_ca_c.Acme.Act.{Session}
use cm_saas_letsencrypt_ca_c.Acme.Account.{register}
use cm_saas_letsencrypt_ca_c.Acme.Pem.{parse_account_key}
use cm_saas_letsencrypt_ca_c.Examples.Lab.{lab_key}
use cm_saas_letsencrypt_ca_c.Tool.Records.{tool_client}
use cm_saas_letsencrypt_ca_c.Tool.Machine.{file_at}
use cm_saas_letsencrypt_ca_c.Tool.Cli.{cmd_new_account, cmd_validate, cmd_onboard}
use cm_saas_letsencrypt_ca_c.Tool.Cli.Flags.{ValidateFlags, OnboardFlags}
use cm_saas_letsencrypt_ca_c.Tool.Cli.Verdicts.{HasLiveRecord, cmd_validate-IsLive}
use cm_saas_letsencrypt_ca_c.Tool.Cli.Files.{cmd_new_account-file_at, cmd_onboard-overwrites}
use cm_saas_letsencrypt_ca_c.Tool.Web.{WebRequest, Decoder, serve_web}
use cm_saas_letsencrypt_ca_c.Tool.Web.Kept.{serve_web-files}
use cm_saas_letsencrypt_ca_c.Examples.Workshop.{
  lab_bench, key_path, old_key, workshop, tool_runs, new_account_runs,
}

abbrev check_flags : ValidateFlags
check_flags = record { key = key_path; domains = text "a.example,b.example"; prod = false }

abbrev tool_session : Session
tool_session =
    (register lab_bench.platform.outside []
      (record { client = tool_client false lab_key; log = [] })).1

key_runs : parse_account_key lab_bench.platform.keys old_key ≡ ok lab_key
unfolding tool_runs
key_runs = refl

registration_of_tool :
    register lab_bench.platform.outside [] (record { client = tool_client false lab_key; log = [] })
    ≡ (ok tt, tool_session)
unfolding tool_runs
registration_of_tool = refl

key_there : file_at key_path workshop.files ≡ some old_key
unfolding file_at
key_there = refl

flags_given : (is_empty check_flags.key || is_empty check_flags.domains) ≡ false
unfolding text
flags_given = refl

cmd_validate-IsLive_example :
    ((cmd_validate lab_bench check_flags workshop).0 ≡ ok tt)
    ↔ All
        (HasLiveRecord lab_bench.platform tool_session.client.account_url tool_session.log)
        (split_domains check_flags.domains)
cmd_validate-IsLive_example =
    cmd_validate-IsLive lab_bench check_flags workshop old_key lab_key tool_session flags_given
      key_there key_runs registration_of_tool

cmd_new_account-file_at_example :
    file_at key_path
      (cmd_new_account lab_bench
        (record { out = 111 ∷ []; contact = []; prod = false })
        workshop).1.files
    ≡ some old_key
cmd_new_account-file_at_example =
    cmd_new_account-file_at lab_bench (record { out = 111 ∷ []; contact = []; prod = false })
      workshop key_path old_key key_there

abbrev onboard_flags : OnboardFlags
onboard_flags = record {
  cm_key = 1 ∷ [];
  name = 110 ∷ [];
  key = [];
  gen_key = true;
  out = key_path;
  domains = [];
  plugin = [];
  app = false;
  prod = false;
}

cmd_onboard-overwrites_example :
    file_at key_path (cmd_onboard lab_bench onboard_flags workshop).1.files ≡ some (45 ∷ 1 ∷ [])
cmd_onboard-overwrites_example =
    cmd_onboard-overwrites lab_bench onboard_flags workshop (45 ∷ 1 ∷ []) (2 ∷ []) old_key refl refl
      new_account_runs refl key_there

abbrev no_json : Decoder
no_json = record {
  decode_new_account = λ s. ok (record { prod = false; contact = [] });
  decode_records = λ s. err (outside []);
  decode_onboard = λ s. err (outside []);
  decode_validate = λ s. err (outside []);
  decode_plan = λ s. err (outside []);
}

abbrev account_request : WebRequest
account_request = record { path = text "/api/new-account"; body = [] }

serve_web-files_example :
    ((serve_web lab_bench no_json account_request workshop).1.files ≡ workshop.files)
    × ((serve_web lab_bench no_json account_request workshop).1.output ≡ workshop.output)
serve_web-files_example = serve_web-files lab_bench no_json account_request workshop
