-- ===== src/Onboard/Accounts.antt =====
-- cmd/dnspersist-tool/cm.go: sealing the account key, and the CA account with its product option.
use cm_saas_letsencrypt_ca_c.Base.{
  ℕ, ◌==◌, Bool, Option, none, some, List, [], ◌∷◌, ◌++◌, length, Text, text, text_eq, is_empty,
  if◌then◌else◌,
}
use cm_saas_letsencrypt_ca_c.Errors.{Err, fail, Result, ok, err, err_text}
use cm_saas_letsencrypt_ca_c.Errors
use cm_saas_letsencrypt_ca_c.Record.{quoted}
use cm_saas_letsencrypt_ca_c.Errors.Doing.{pure, lift, ignoring_error, ◌>>=◌, ◌>>◌}
use cm_saas_letsencrypt_ca_c.Onboard.Calls.{
  Json, str, obj, Props, end, prop, get, post, Exchange, CaAccount, EdgeInstance, Manager, CmClient,
  cm_product_name, Steps, call, call_into,
}

abbrev pub accounts_path : Text
accounts_path = text "/v1/certificateauthorities/CONNECTOR/accounts"

abbrev pub options_path : Text → Text
options_path account_id =
    text "/v1/certificateauthorities/CONNECTOR/accounts/" ++ (account_id ++ text "/productoptions")

-- A field, then further fields.
abbrev pub connector_field : Props → Props
connector_field more = prop (text "certificateAuthority") (str (text "CONNECTOR")) more

-- The choice of `edgeInfo`: the first instance with an encryption key, else the first of all.
abbrev pub first_keyed : List EdgeInstance → Option EdgeInstance
first_keyed [] = none
first_keyed (e ∷ es) =
    let rest = first_keyed es in if is_empty e.encryption_key_id then rest else some e

abbrev pub or_first : Option EdgeInstance → List EdgeInstance → Result EdgeInstance
or_first (some e) es = ok e
or_first none [] = err (fail (text "no edge instances (vSatellite) found"))
or_first none (e ∷ es) = ok e

unfoldable pub chosen_edge : List EdgeInstance → Result EdgeInstance
chosen_edge es = or_first (first_keyed es) es

-- The loop of `findAccount`: the id and the number of product options.
unfoldable pub find_named : Text → List CaAccount → Text × ℕ
find_named name [] = ([], 0)
find_named name (a ∷ accounts) =
    let rest = find_named name accounts in
    if text_eq a.key name then (a.id, length a.product_options) else rest

abbrev pub option_or : List Text → Text → Text
option_or [] rest = rest
option_or (o ∷ options) rest = o

-- The loop of `accountProductOptionID`.
unfoldable pub first_option : Text → List CaAccount → Text
first_option account_id [] = []
first_option account_id (a ∷ accounts) =
    let rest = first_option account_id accounts in
    if text_eq a.id account_id then option_or a.product_options rest else rest

module _ (M : Manager) where
  -- `%v` of the error of the decoder, which may be nil.
  abbrev pub key_error : Text → Err
  key_error cause = fail (text "invalid recipient public key (want 32 bytes base64): " ++ cause)

  abbrev pub checked_key : Result Text → Result Text
  checked_key (err e) = err (key_error (err_text e))
  checked_key (ok rpk) = if length rpk == 32 then ok rpk else err (key_error (text "<nil>"))

  -- The ephemeral key, then the box under the nonce of both keys.
  abbrev pub seal_with : Text → Text → Text × Text → Text
  seal_with message rpk (epk, esk) =
      M.b64_std (epk ++ M.box message (M.blake2b (epk ++ rpk)) rpk esk)

  -- `sealBox`
  unfoldable pub seal_box : Text → Text → List Exchange → Result Text
  seal_box message recipient_pub log =
      Errors.◌>>=◌ (checked_key (M.b64_std_decode recipient_pub)) λ rpk.
        Errors.◌>>=◌ (M.generate_key log)
          λ keys. Errors.◌>>=◌ M.new_hash λ _. ok (seal_with message rpk keys)

  module _ (c : CmClient) where
    -- `edgeInfo`: the instance, with the public key of its encryption key.
    unfoldable pub edge_info : Steps (EdgeInstance × Text)
    edge_info = do
      edges ← call_into M c get (text "/v1/edgeinstances") none M.read_edges []
      edge ← lift (chosen_edge edges)
      pub_key ←
          call_into M c get (text "/v1/edgeencryptionkeys/" ++ edge.encryption_key_id) none
            M.read_key []
      pure (edge, pub_key)

    abbrev pub list_accounts : Steps (List CaAccount)
    list_accounts = call_into M c get accounts_path none M.read_accounts []

    unfoldable pub find_account : Text → Steps (Text × ℕ)
    find_account name = list_accounts >>= λ accounts. pure (find_named name accounts)

    abbrev pub account_payload : Text → Text → EdgeInstance → Text → Json
    account_payload name directory_url edge sealed = obj (
        prop (text "pluginId") (str c.plugin_id) (
          prop (text "key") (str name) (
            prop (text "dekId") (str edge.encryption_key_id) (
              prop (text "edgeInstanceId") (str edge.id) (
                prop (text "caAccountConfiguration")
                  (obj (
                    connector_field (
                      prop (text "configuration")
                        (obj (
                          prop (text "directoryUrl") (str directory_url)
                            (prop (text "dnsProvider") (str (text "none")) end)))
                        end)))
                  (prop (text "credentials")
                    (obj (
                      connector_field (
                        prop (text "credentials") (obj (prop (text "accountKey") (str sealed) end))
                          end)))
                    end))))))

    abbrev pub sealed_key : Text → Text → Steps Text
    sealed_key pem pub_key log = (seal_box pem pub_key log, log)

    -- The id of the account that was just created.
    abbrev pub created_id : Text → Text → Steps Text
    created_id name id = lift (
        if is_empty id
        then err
            (fail (text "CA account " ++ (quoted name ++ text " was not found after creation")))
        else ok id)

    -- `createCA` where no account of the name was found.
    unfoldable pub create_new_ca : Text → Text → Text → Steps Text
    create_new_ca name account_key_pem directory_url = do
      (edge, pub_key) ← edge_info
      sealed ← sealed_key account_key_pem pub_key
      call M c post accounts_path (some (account_payload name directory_url edge sealed))
      (id, _) ← find_account name
      created_id name id

    -- `createCA`, whose last argument is not used.
    unfoldable pub create_ca : Text → Text → Text → Bool → Steps Text
    create_ca name account_key_pem directory_url prod = do
      (id, _) ← ignoring_error ([], 0) (find_account name)
      if is_empty id then create_new_ca name account_key_pem directory_url else pure id

    unfoldable pub account_product_option_id : Text → Steps Text
    account_product_option_id account_id =
        list_accounts >>= λ accounts. pure (first_option account_id accounts)

    abbrev pub product_payload : Json
    product_payload = obj (
        prop (text "caProduct")
          (obj (connector_field (prop (text "productName") (str cm_product_name) end))) end)

    -- `registerProduct`
    unfoldable pub register_product : Text → Steps Text
    register_product account_id = do
      id ← ignoring_error [] (account_product_option_id account_id)
      if is_empty id
          then call_into M c post (options_path account_id) (some product_payload) M.read_id []
          else pure id
