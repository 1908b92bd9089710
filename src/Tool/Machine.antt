-- ===== src/Tool/Machine.antt =====
-- cmd/dnspersist-tool: what the commands and the web UI of the tool work on, and `opNewAccount` of
-- core.go.
use cm_saas_letsencrypt_ca_c.Base.{
  Bool, Option, none, some, List, [], ◌∷◌, ◌++◌, Text, text, text_eq, if◌then◌else◌,
}
use cm_saas_letsencrypt_ca_c.Errors.{Err, Result, ok, err, ◌>>=◌}
use cm_saas_letsencrypt_ca_c.Errors.Doing.{Doing}
use cm_saas_letsencrypt_ca_c.Names.{normalize_contact}
use cm_saas_letsencrypt_ca_c.Acme.Types.{AccountKey}
use cm_saas_letsencrypt_ca_c.Acme.Outside.{Event}
use cm_saas_letsencrypt_ca_c.Acme.Act.{Act, gets, in_context}
use cm_saas_letsencrypt_ca_c.Acme.Act
use cm_saas_letsencrypt_ca_c.Acme.Account.{register}
use cm_saas_letsencrypt_ca_c.Acme.Fresh.{KeyMaker, generate_account_key, key_pem}
use cm_saas_letsencrypt_ca_c.Service.{Platform, run_with}
use cm_saas_letsencrypt_ca_c.Tool.Records.{contact_list, tool_client}
use cm_saas_letsencrypt_ca_c.Onboard.Calls.{Exchange, Manager, Steps}

-- The libraries and the system around the tool.
pub record Bench : Type 0 where
  pub platform : Platform
  pub key_maker : KeyMaker
  pub manager : Manager
  -- the names and the common name of a certificate
  pub parse_names : Text → Result (List Text × Text)
  -- `publicsuffix.EffectiveTLDPlusOne`, `none` for an error
  pub etld_plus_one : Text → Option Text
  -- the error of `os.ReadFile` at a path where no file is
  pub no_file : Text → Err
  -- `os.WriteFile`; a write that is refused leaves the files as they are
  pub may_write : List (Text × Text) → Text → Result (Unit {0})
  -- `http.Server.ListenAndServe`
  pub listen : Text → Result (Unit {0})

-- The traces of the CA and of the certificate manager, the files with the last write first, and what
-- was printed.
pub record Machine : Type 0 where
  pub events : List Event
  pub exchanges : List Exchange
  pub files : List (Text × Text)
  pub output : Text

abbrev pub Job : Type 0 → Type 0
Job = Doing Machine

unfoldable pub file_at : Text → List (Text × Text) → Option Text
file_at path [] = none
file_at path ((p, content) ∷ files) =
    let rest = file_at path files in if text_eq p path then some content else rest

module _ {A : Type 0} where
  -- A call of the CA or of DNS.
  unfoldable pub on_events : (List Event → Result A × List Event) → Job A
  on_events m s = let (r, log) = m s.events in (r, record s { events = log })

  -- A call of the certificate manager.
  unfoldable pub on_exchanges : Steps A → Job A
  on_exchanges m s = let (r, log) = m s.exchanges in (r, record s { exchanges = log })

unfoldable pub print : Text → Job (Unit {0})
print t s = (ok tt, record s { output = s.output ++ t })

abbrev pub found : Err → Option Text → Result Text
found e none = err e
found e (some content) = ok content

module _ (B : Bench) where
  -- `os.ReadFile`
  unfoldable pub read_file : Text → Job Text
  read_file path s = (found (B.no_file path) (file_at path s.files), s)

  abbrev pub written : Result (Unit {0}) → Text → Text → Job (Unit {0})
  written (err e) path content s = (err e, s)
  written (ok _) path content s = (ok tt, record s { files = (path, content) ∷ s.files })

  unfoldable pub write_file : Text → Text → Job (Unit {0})
  write_file path content s = written (B.may_write s.files path) path content s

  -- A new key with its PEM text.
  abbrev pub fresh_key : List Event → Result (AccountKey × Text)
  fresh_key log = generate_account_key B.key_maker log >>= λ key.
      key_pem B.key_maker key >>= λ pem. ok (key, pem)

  abbrev pub register_fresh :
      Bool → Text → Result (AccountKey × Text) → List Event → Result (Text × Text) × List Event
  register_fresh prod contact (err e) log = (err e, log)
  register_fresh prod contact (ok (key, pem)) log =
      run_with (ok (tool_client prod key))
        (Act.◌>>=◌
          (in_context (text "register ACME account")
            (register B.platform.outside (contact_list (normalize_contact contact))))
          λ _. Act.◌>>=◌ (gets (λ s. s.client.account_url)) λ uri. Act.pure (pem, uri))
        log

  -- `opNewAccount`: the PEM text of the key, and the account URI.
  unfoldable pub op_new_account : Bool → Text → List Event → Result (Text × Text) × List Event
  op_new_account prod contact log = register_fresh prod contact (fresh_key log) log
