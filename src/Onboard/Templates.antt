-- ===== src/Onboard/Templates.antt =====
-- cmd/dnspersist-tool/cm.go: the issuing template and the application of a customer.
use cm_saas_letsencrypt_ca_c.Base.{
  ℕ, Bool, true, false, ◌||◌, none, some, List, [], ◌∷◌, ◌++◌, map, ◌==◌, Text, text, text_eq,
  is_empty, if◌then◌else◌,
}
use cm_saas_letsencrypt_ca_c.Errors.{fail, Result, ok, err}
use cm_saas_letsencrypt_ca_c.Record.{quoted}
use cm_saas_letsencrypt_ca_c.Errors.Doing.{pure, lift, ignoring_error, ◌>>=◌, ◌>>◌}
use cm_saas_letsencrypt_ca_c.Onboard.Calls.{
  Json, str, num, flag, arr, obj, Elems, nil, cons, end, prop, get, post, IssuingTemplate,
  CreatedApplication, Manager, CmClient, cm_product_name, Steps, call, call_into,
}
use cm_saas_letsencrypt_ca_c.Onboard.Accounts.{connector_field, option_or}

abbrev pub templates_path : Text
templates_path = text "/v1/certificateissuingtemplates"

-- The loop of `templateIDByName`.
unfoldable pub template_named : Text → List IssuingTemplate → Text
template_named name [] = []
template_named name (t ∷ templates) =
    let rest = template_named name templates in if text_eq t.name name then t.id else rest

-- The characters that `regexp.QuoteMeta` puts a backslash before.
unfoldable pub is_meta : ℕ → Bool
is_meta c =
    c == b'\\'
    || (c == b'.'
        || (c == b'+'
            || (c == b'*'
                || (c == b'?'
                    || (c == b'('
                        || (c == b')'
                            || (c == b'|'
                                || (c == b'['
                                    || (c == b']'
                                        || (c == b'{'
                                            || (c == b'}' || (c == b'^' || c == b'$'))))))))))))

-- `regexp.QuoteMeta`
unfoldable pub quote_meta : Text → Text
quote_meta [] = []
quote_meta (c ∷ s) = (if is_meta c then b'\\' ∷ c ∷ [] else c ∷ []) ++ quote_meta s

abbrev pub subdomains : Text
subdomains = text "(.*\\.)?"

abbrev pub any_name : Text
any_name = text ".*"

-- `cnSanRegexes`
unfoldable pub cn_san_regexes : List Text → List Text
cn_san_regexes [] = any_name ∷ []
cn_san_regexes (d ∷ domains) = map (λ (d : Text). subdomains ++ quote_meta d) (d ∷ domains)

abbrev pub strings : List Text → Elems
strings [] = nil
strings (t ∷ ts) = cons (str t) (strings ts)

abbrev pub any_names : Json
any_names = arr (strings (any_name ∷ []))

abbrev pub application_id : CreatedApplication → Text
application_id created = option_or created.applications created.id

abbrev pub template_product : Json
template_product = obj (
    connector_field (
      prop (text "productName") (str cm_product_name)
        (prop (text "validityPeriod") (str (text "P90D")) end)))

abbrev pub template_keys : Json
template_keys = arr (
    cons
      (obj (
        prop (text "keyType") (str (text "RSA")) (
          prop (text "keyLengths") (arr (cons (num 2048) (cons (num 3072) (cons (num 4096) nil))))
            end)))
      nil)

abbrev pub template_payload : Text → Text → List Text → Json
template_payload name product_option_id reg = obj (
    prop (text "name") (str name) (
      connector_field (
        prop (text "certificateAuthorityProductOptionId") (str product_option_id) (
          prop (text "product") template_product (
            prop (text "keyTypes") template_keys (
              prop (text "keyReuse") (flag false) (
                prop (text "csrUploadAllowed") (flag true) (
                  prop (text "keyGeneratedByVenafiAllowed") (flag true) (
                    prop (text "subjectCNRegexes") (arr (strings reg)) (
                      prop (text "subjectORegexes") any_names (
                        prop (text "subjectOURegexes") any_names (
                          prop (text "subjectLRegexes") any_names (
                            prop (text "subjectSTRegexes") any_names (
                              prop (text "subjectCValues") any_names
                                (prop (text "sanRegexes") (arr (strings reg)) end)))))))))))))))

abbrev pub application_payload : Text → Text → Text → Text → Json
application_payload name team template_name template_id = obj (
    prop (text "name") (str name) (
      prop (text "ownerIdsAndTypes")
        (arr (
          cons
            (obj
              (prop (text "ownerId") (str team) (prop (text "ownerType") (str (text "TEAM")) end)))
            nil))
        (prop (text "certificateIssuingTemplateAliasIdMap")
          (obj (prop template_name (str template_id) end)) end)))

abbrev pub first_team : List Text → Result Text
first_team [] = err (fail (text "no teams found to own the application"))
first_team (t ∷ teams) = ok t

module _ (M : Manager) (c : CmClient) where
  unfoldable pub team_id : Steps Text
  team_id =
      call_into M c get (text "/v1/teams") none M.read_teams [] >>= λ teams. lift (first_team teams)

  unfoldable pub template_id_by_name : Text → Steps Text
  template_id_by_name name =
      call_into M c get templates_path none M.read_templates [] >>= λ templates.
      pure (template_named name templates)

  abbrev pub created_template : Text → Text → Steps Text
  created_template name id = lift (
      if is_empty id
      then err
          (fail (text "issuing template " ++ (quoted name ++ text " not found after creation")))
      else ok id)

  -- `createTemplate` where no template of the name was found.
  unfoldable pub create_new_template : Text → Text → List Text → Steps Text
  create_new_template name product_option_id domains = do
    call M c post templates_path
        (some (template_payload name product_option_id (cn_san_regexes domains)))
    id ← template_id_by_name name
    created_template name id

  -- `createTemplate`
  unfoldable pub create_template : Text → Text → List Text → Steps Text
  create_template name product_option_id domains = do
    id ← ignoring_error [] (template_id_by_name name)
    if is_empty id then create_new_template name product_option_id domains else pure id

  -- `createApplication`
  unfoldable pub create_application : Text → Text → Text → Steps Text
  create_application name template_name template_id = do
    team ← team_id
    created ←
        call_into M c post (text "/outagedetection/v1/applications")
          (some (application_payload name team template_name template_id)) M.read_application
          (record { applications = []; id = [] })
    pure (application_id created)
