-- ===== src/Tool/Cli/Main.antt =====
-- cmd/dnspersist-tool/main.go: `main`, which picks the command and sets the exit status, with
-- `cmdServe` of web.go as far as the command line goes.
use cm_saas_letsencrypt_ca_c.Base.{
  ℕ, Bool, true, false, ◌||◌, List, [], ◌∷◌, ◌++◌, Text, text, text_eq, if◌then◌else◌,
}
use cm_saas_letsencrypt_ca_c.Errors.{
  fail, wrap, acme, outside, panicked, spinning, err_text, Result, ok, err,
}
use cm_saas_letsencrypt_ca_c.Errors.Doing.{lift, ◌>>◌}
use cm_saas_letsencrypt_ca_c.Record.{quoted}
use cm_saas_letsencrypt_ca_c.Tool.Machine.{Bench, Machine, Job, print}
use cm_saas_letsencrypt_ca_c.Tool.Cli.{
  cmd_new_account, cmd_records, cmd_validate, cmd_plan, cmd_onboard,
}
use cm_saas_letsencrypt_ca_c.Tool.Cli.Flags.{
  NewAccountFlags, RecordsFlags, ValidateFlags, PlanFlags, OnboardFlags,
}

-- The library `flag` on the arguments of a command: the flags with their defaults, or the status
-- with which it ends the program.
pub data Parsed (A : Type 0) : Type 0 where
  exits : ℕ → Parsed A
  flags : A → Parsed A

pub record FlagSets : Type 0 where
  pub new_account_flags : List Text → Parsed NewAccountFlags
  pub records_flags : List Text → Parsed RecordsFlags
  pub validate_flags : List Text → Parsed ValidateFlags
  pub plan_flags : List Text → Parsed PlanFlags
  pub onboard_flags : List Text → Parsed OnboardFlags
  pub serve_flags : List Text → Parsed Text

pub data Command : Type 0 where
  new_account records validate plan onboard serve help unknown : Command

-- The `switch` of `main`.
unfoldable pub command_of : Text → Command
command_of name =
    if text_eq name (text "new-account")
    then new_account
    else if text_eq name (text "records") || text_eq name (text "add-domains")
    then records
    else if text_eq name (text "validate")
    then validate
    else if text_eq name (text "plan")
    then plan
    else if text_eq name (text "onboard")
    then onboard
    else if text_eq name (text "serve")
    then serve
    else if text_eq name (text "-h") || (text_eq name (text "--help") || text_eq name (text "help"))
    then help
    else unknown

-- How the program ends: the exit status, what it wrote to stderr, and whether the usage was shown.
-- A panic ends it too.
pub data Ending : Type 0 where
  exit : ℕ → Text → Bool → Ending
  crashed : Ending

abbrev pub ending : Result (Unit {0}) → Ending
ending (ok _) = exit 0 [] false
ending (err panicked) = crashed
ending (err spinning) = crashed
ending (err (fail m)) = exit 1 (text "error: " ++ (err_text (fail m) ++ text "\n")) false
ending (err (wrap c e)) = exit 1 (text "error: " ++ (err_text (wrap c e) ++ text "\n")) false
ending (err (acme p)) = exit 1 (text "error: " ++ (err_text (acme p) ++ text "\n")) false
ending (err (outside m)) = exit 1 (text "error: " ++ (err_text (outside m) ++ text "\n")) false

abbrev pub run_command : {F : Type 0} → Parsed F → (F → Job (Unit {0})) → Machine → Ending × Machine
run_command (exits status) command s = (exit status [] true, s)
run_command (flags f) command s = let (r, s') = command f s in (ending r, s')

module _ (B : Bench) (P : FlagSets) where
  -- `cmdServe`: the banner, then the server.
  unfoldable pub cmd_serve : Text → Job (Unit {0})
  cmd_serve addr = do
    print (text "dnspersist web UI: http://" ++ (addr ++ text "\n"))
    print (text "Keys are generated/used in memory only and never stored server-side.\n")
    print (text "If you expose this beyond localhost, put it behind TLS + authentication.\n")
    lift (B.listen addr)

  abbrev pub dispatch : Command → Text → List Text → Machine → Ending × Machine
  dispatch new_account name args s = run_command (P.new_account_flags args) (cmd_new_account B) s
  dispatch records name args s = run_command (P.records_flags args) (cmd_records B) s
  dispatch validate name args s = run_command (P.validate_flags args) (cmd_validate B) s
  dispatch plan name args s = run_command (P.plan_flags args) (cmd_plan B) s
  dispatch onboard name args s = run_command (P.onboard_flags args) (cmd_onboard B) s
  dispatch serve name args s = run_command (P.serve_flags args) cmd_serve s
  dispatch help name args s = (exit 0 [] true, s)
  dispatch unknown name args s =
      (exit 2 (text "unknown command " ++ (quoted name ++ text "\n\n")) true, s)

  -- `main`, on the arguments behind the name of the program.
  unfoldable pub main : List Text → Machine → Ending × Machine
  main [] s = (exit 2 [] true, s)
  main (name ∷ args) s = dispatch (command_of name) name args s
