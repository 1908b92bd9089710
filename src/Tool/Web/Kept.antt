-- ===== src/Tool/Web/Kept.antt =====
-- cmd/dnspersist-tool/web.go: keys are never written to disk.
use cm_saas_letsencrypt_ca_c.Base.{◌≡◌, refl, Bool, true, false, List, Text, if◌then◌else◌}
use cm_saas_letsencrypt_ca_c.Errors.{Result, ok, err}
use cm_saas_letsencrypt_ca_c.Acme.Outside.{Event}
use cm_saas_letsencrypt_ca_c.Onboard.Calls.{Steps}
use cm_saas_letsencrypt_ca_c.Tool.Machine.{Bench, Machine, Job, on_events, on_exchanges}
use cm_saas_letsencrypt_ca_c.Tool.Web.{
  WebRequest, WebReply, WebResponse, OnboardBody, Decoder, decoded_body, answered, after_account,
  bad_body, index, api_new_account, api_records, api_email, api_run_onboard,
  api_generate_and_onboard, api_onboard_with, api_onboard, api_validate, api_plan, serve_web,
}

-- What the job does leaves the files and the terminal alone.
pub record LeavesFiles {A : Type 0} (m : Job A) : Type 0 where
  pub files : (s : Machine) → (m s).1.files ≡ s.files
  pub output : (s : Machine) → (m s).1.output ≡ s.output

module _ {A : Type 0} where
  LeavesFiles-on_events : (m : List Event → Result A × List Event) → LeavesFiles (on_events m)
  unfolding on_events
  LeavesFiles-on_events m = record { files = λ s. refl; output = λ s. refl }

  LeavesFiles-on_exchanges : (m : Steps A) → LeavesFiles (on_exchanges m)
  unfolding on_exchanges
  LeavesFiles-on_exchanges m = record { files = λ s. refl; output = λ s. refl }

  LeavesFiles-answered :
      (bad : Text → WebResponse) (good : A → WebReply) (m : Job A)
      → LeavesFiles m
      → LeavesFiles (answered bad good m)
  unfolding answered
  LeavesFiles-answered bad good m k = record { files = k.files; output = k.output }

  LeavesFiles-decoded_body :
      (r : Result A) (f : A → Job WebResponse)
      → ((a : A) → LeavesFiles (f a))
      → LeavesFiles (decoded_body r f)
  unfolding decoded_body
  LeavesFiles-decoded_body (err e) f k = record { files = λ s. refl; output = λ s. refl }
  LeavesFiles-decoded_body (ok a) f k = record { files = (k a).files; output = (k a).output }

  LeavesFiles-if :
      (b : Bool) (m n : Job A) → LeavesFiles m → LeavesFiles n → LeavesFiles (if b then m else n)
  LeavesFiles-if true m n hm hn = hm
  LeavesFiles-if false m n hm hn = hn

ruleset leaves_files = (
  LeavesFiles-on_events, LeavesFiles-on_exchanges, LeavesFiles-answered, LeavesFiles-decoded_body,
  LeavesFiles-if,
)

module _ (B : Bench) (D : Decoder) where
  LeavesFiles-bad_body : (m : Text) → LeavesFiles (bad_body B D m)
  LeavesFiles-bad_body m = record { files = λ s. refl; output = λ s. refl }

  LeavesFiles-index : (r : WebRequest) → LeavesFiles (index B D r)
  LeavesFiles-index r = record { files = λ s. refl; output = λ s. refl }

  LeavesFiles-run_onboard :
      (req : OnboardBody) (key pem uri : Text) → LeavesFiles (api_run_onboard B D req key pem uri)
  unfolding api_run_onboard
  LeavesFiles-run_onboard req key pem uri = search leaves_files

  LeavesFiles-after_account :
      (req : OnboardBody) (r : Result (Text × Text)) → LeavesFiles (after_account B D req r)
  LeavesFiles-after_account req (err e) = record { files = λ s. refl; output = λ s. refl }
  LeavesFiles-after_account req (ok (pem, uri)) =
      let k = LeavesFiles-run_onboard req pem pem uri in
      record { files = k.files; output = k.output }

  LeavesFiles-generate : (req : OnboardBody) → LeavesFiles (api_generate_and_onboard B D req)
  unfolding api_generate_and_onboard on_events
  LeavesFiles-generate req = record {
    files = λ s. (LeavesFiles-after_account req _).files _;
    output = λ s. (LeavesFiles-after_account req _).output _;
  }

  LeavesFiles-serve_web : (r : WebRequest) → LeavesFiles (serve_web B D r)
  unfolding serve_web api_new_account api_records api_email api_validate api_plan api_onboard
      api_onboard_with
  LeavesFiles-serve_web r =
      search
        (
          leaves_files, LeavesFiles-bad_body, LeavesFiles-index, LeavesFiles-run_onboard,
          LeavesFiles-generate,
        )
        depth 20

-- Whatever the web UI is asked, it leaves the files of the machine and its terminal as they are.
pub serve_web-files :
    (B : Bench) (D : Decoder) (r : WebRequest) (s : Machine)
    → ((serve_web B D r s).1.files ≡ s.files) × ((serve_web B D r s).1.output ≡ s.output)
serve_web-files B D r s =
    ((LeavesFiles-serve_web B D r).files s, (LeavesFiles-serve_web B D r).output s)
