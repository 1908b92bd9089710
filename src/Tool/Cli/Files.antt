-- ===== src/Tool/Cli/Files.antt =====
-- cmd/dnspersist-tool/main.go: what the commands that generate account keys do to the files.
use cm_saas_letsencrypt_ca_c.Base.{
  ◌≡◌, ◌⊎◌, refl, ap, ◌∙◌, Bool, true, false, not, ◌&&◌, ◌||◌, some, List, [], ◌∷◌, Text, text_eq,
  text_eq_refl, text_eq→eq, is_some, is_empty, if◌then◌else◌, Bool-cases, inl, inr,
}
use cm_saas_letsencrypt_ca_c.Errors.{Err, Result, ok, err}
use cm_saas_letsencrypt_ca_c.Errors.Doing.{pure, in_context, ◌>>=◌, proceed}
use cm_saas_letsencrypt_ca_c.Tool.Machine.{
  Bench, Machine, Job, file_at, on_events, on_exchanges, print, read_file, write_file,
  op_new_account,
}
use cm_saas_letsencrypt_ca_c.Tool.Cli.{
  check_absent, cmd_new_account, generated_key, onboard_key, onboard_customer, cmd_onboard,
}
use cm_saas_letsencrypt_ca_c.Tool.Cli.Reports.{key_file}
use cm_saas_letsencrypt_ca_c.Tool.Cli.Flags.{NewAccountFlags, OnboardFlags}

Result-cases : {A : Type 0} (r : Result A) → ((a : A) × (r ≡ ok a)) ⊎ ((e : Err) × (r ≡ err e))
Result-cases (ok a) = inl (a, refl)
Result-cases (err e) = inr (e, refl)

file_at-cons :
    (path p content : Text) (files : List (Text × Text)) (old : Text)
    → is_some (file_at p files) ≡ false
    → file_at path files ≡ some old
    → file_at path ((p, content) ∷ files) ≡ some old
unfolding file_at
file_at-cons path p content files old absent h = elim (Bool-cases (text_eq p path)) [
  | inl same ↦ let q = rw (text_eq→eq p path same, h) at absent in cc
  | inr other ↦ rw other h
]

-- Whatever becomes of `new-account`, each file that was there keeps its content.
pub cmd_new_account-file_at :
    (B : Bench) (f : NewAccountFlags) (s : Machine) (path old : Text)
    → file_at path s.files ≡ some old
    → file_at path (cmd_new_account B f s).1.files ≡ some old
unfolding cmd_new_account ◌>>=◌ check_absent on_events write_file print
cmd_new_account-file_at B f s path old h = elim (Bool-cases (is_some (file_at f.out s.files))) [
  | inl there ↦ rw there h
  | inr absent ↦ elim (Result-cases (op_new_account B f.prod f.contact s.events).0) [
    | inr (e, failed) ↦ rw (absent, failed) h
    | inl (made, done) ↦ elim (Result-cases (B.may_write s.files f.out)) [
      | inr (e, refused) ↦ rw (absent, done) (rw refused h)
      | inl (_, allowed) ↦
          rw (absent, done) (rw allowed (file_at-cons path f.out made.0 s.files old absent h))
    ]
  ]
]

proceed-files :
    {A : Type 0} (r : Result A) (k : A → Job (Unit {0})) (s : Machine)
    → ((a : A) (s' : Machine) → (k a s').1.files ≡ s'.files)
    → (proceed r k s).1.files ≡ s.files
proceed-files (ok a) k s h = h a s
proceed-files (err e) k s h = refl

and_false : (b : Bool) → (b && false) ≡ false
and_false true = refl
and_false false = refl

file_at-here :
    (path content : Text) (files : List (Text × Text))
    → file_at path ((path, content) ∷ files) ≡ some content
unfolding file_at
file_at-here path content files = rw (text_eq_refl path) refl

onboard_customer-files :
    (B : Bench) (f : OnboardFlags) (pem : Text) (s : Machine)
    → (onboard_customer B f pem s).1.files ≡ s.files
unfolding onboard_customer ◌>>=◌ on_exchanges print
onboard_customer-files B f pem s = proceed-files _ _ (record s { exchanges = _ }) (λ r s'. refl)

generated_key_lem :
    (B : Bench) (f : OnboardFlags) (s : Machine) (pem uri : Text)
    → (op_new_account B f.prod [] s.events).0 ≡ ok (pem, uri)
    → B.may_write s.files (key_file f) ≡ ok tt
    → (s' : Machine) × (generated_key B f s ≡ (ok pem, s'))
      × (s'.files ≡ (key_file f, pem) ∷ s.files)
unfolding generated_key ◌>>=◌ in_context on_events write_file print pure
generated_key_lem B f s pem uri made allowed =
    let given : (generated_key B f s).0 ≡ ok pem = rw made (rw allowed refl) in
    ((generated_key B f s).1, (λ i. (given i, (generated_key B f s).1)), rw made (rw allowed refl))

onboard_key_lem :
    (B : Bench) (f : OnboardFlags) → f.gen_key ≡ true → onboard_key B f ≡ generated_key B f
unfolding onboard_key
onboard_key_lem B f generated =
    ap (λ b. if b then generated_key B f else read_file B f.key) generated

cmd_onboard_lem :
    (B : Bench) (f : OnboardFlags) (s : Machine) (pem : Text) (s' : Machine)
    → (is_empty f.cm_key || is_empty f.name) ≡ false
    → f.gen_key ≡ true
    → generated_key B f s ≡ (ok pem, s')
    → cmd_onboard B f s ≡ onboard_customer B f pem s'
unfolding cmd_onboard ◌>>=◌
cmd_onboard_lem B f s pem s' given generated done =
    let allowed : (is_empty f.key && not f.gen_key) ≡ false =
      ap (λ b. is_empty f.key && not b) generated ∙ and_false (is_empty f.key) in
    rw (given, allowed) (rw (onboard_key_lem B f generated) (rw done refl))

-- `onboard` with a generated key makes no check that `new-account` makes: once an account has been
-- generated and the file may be written, the new key stands in the key file, whatever was there, and
-- whether or not the onboarding behind it succeeds.
pub cmd_onboard-overwrites :
    (B : Bench) (f : OnboardFlags) (s : Machine) (pem uri old : Text)
    → (is_empty f.cm_key || is_empty f.name) ≡ false
    → f.gen_key ≡ true
    → (op_new_account B f.prod [] s.events).0 ≡ ok (pem, uri)
    → B.may_write s.files (key_file f) ≡ ok tt
    → file_at (key_file f) s.files ≡ some old
    → file_at (key_file f) (cmd_onboard B f s).1.files ≡ some pem
cmd_onboard-overwrites B f s pem uri old given generated made allowed there =
    let (s', done, files) = generated_key_lem B f s pem uri made allowed in
    rw (cmd_onboard_lem B f s pem s' given generated done)
      (rw (onboard_customer-files B f pem s', files) (file_at-here (key_file f) pem s.files))
