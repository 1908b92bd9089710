-- ===== src/Examples/Runs.antt =====
-- Runs of the program in the lab, as computed.
use cm_saas_letsencrypt_ca_c.Acme.Types.{Client}
use cm_saas_letsencrypt_ca_c.Acme.Act.{
  Session, pure, raise, lift, gets, in_context, emit, update, ◌>>=◌,
}
use cm_saas_letsencrypt_ca_c.Service.{
  new_client, directory_url_of, issuer_of, is_auto_mode, build_client, ensure_account,
  new_publisher, call_provider, with_client,
}
use cm_saas_letsencrypt_ca_c.Examples.Lab.{
  lab_key, lab_order, lab, lab_ca, lab_session, lab_authorization, manual_connection,
  auto_connection,
}
use cm_saas_letsencrypt_ca_c.Acme.Order.{get_order, new_order, get_authorization, finalize}
use cm_saas_letsencrypt_ca_c.Domain.{
  CertificateDetails, CertificateStatus, OrderDetails, OrderStatus,
}
use cm_saas_letsencrypt_ca_c.Service.Check.{
  ask_order, check_order, order_details, ask_certificate, check_certificate, certificate_of,
}
use cm_saas_letsencrypt_ca_c.Base.{
  true, trim_suffix, join, ◌≡◌, refl, false, Text, List, [], ◌∷◌, text, lower_char, eq_fold,
  trim_space, has_suffix, contains, index_of, replace_char, fields_func,
}
use cm_saas_letsencrypt_ca_c.Record.{base_of, is_wildcard, normal_issuer, fields_of, generate}
use cm_saas_letsencrypt_ca_c.Errors.{ok}
use cm_saas_letsencrypt_ca_c.Names.{
  collect, is_separator, clean_domain, parse_domain_list, clean_name, dedupe_lower,
}
use cm_saas_letsencrypt_ca_c.Acme.Account.{set_account, register}
use cm_saas_letsencrypt_ca_c.Acme.Client.{
  parse_problem, send, set_dir, fetch_directory, directory, set_nonce, fetch_nonce, get_nonce,
  post_once, post_loop, post_signed,
}
use cm_saas_letsencrypt_ca_c.Acme.Jws.{protected_header, encode_payload, signature_bytes, sign_jws}
use cm_saas_letsencrypt_ca_c.Acme.Pem.{normalize_pem, read_block, parse_account_key}
use cm_saas_letsencrypt_ca_c.Acme.Persist.{
  with_defaults, rounds_of, pause, poll_loop, poll_until, wait_for_authz, resolve_authorization,
  default_poll,
}
use cm_saas_letsencrypt_ca_c.Service.Certs.{parse_csr}
use cm_saas_letsencrypt_ca_c.Service.Issue.{
  ensure_all, ensure_standing_records, resolve_all, issue, request_certificate,
}

abbrev pub lab_details : OrderDetails
lab_details = record {
  id = 3 ∷ [];
  status = OrderStatus.processing;
  certificate_id = [];
  error_message = [];
}

pub request_runs : (request_certificate lab manual_connection [] []).0 ≡ ok lab_details
unfolding text lower_char eq_fold trim_space has_suffix trim_suffix contains index_of replace_char
    join fields_func pure raise lift gets in_context emit update ◌>>=◌ parse_problem send set_dir
    fetch_directory directory set_nonce fetch_nonce get_nonce post_once post_loop post_signed
    protected_header encode_payload signature_bytes sign_jws set_account register new_order
    get_authorization finalize normalize_pem read_block parse_account_key with_defaults rounds_of
    pause poll_loop poll_until wait_for_authz resolve_authorization parse_csr ensure_all
    ensure_standing_records resolve_all issue request_certificate directory_url_of issuer_of
    is_auto_mode build_client ensure_account new_publisher call_provider with_client collect
    is_separator clean_domain parse_domain_list clean_name dedupe_lower
request_runs = refl

pub auto_mode : is_auto_mode auto_connection ≡ true
unfolding text lower_char trim_space is_auto_mode
auto_mode = refl

pub auto_request_runs : (request_certificate lab auto_connection [] []).0 ≡ ok lab_details
unfolding text lower_char eq_fold trim_space has_suffix trim_suffix contains index_of replace_char
    join fields_func pure raise lift gets in_context emit update ◌>>=◌ parse_problem send set_dir
    fetch_directory directory set_nonce fetch_nonce get_nonce post_once post_loop post_signed
    protected_header encode_payload signature_bytes sign_jws set_account register new_order
    get_authorization finalize normalize_pem read_block parse_account_key with_defaults rounds_of
    pause poll_loop poll_until wait_for_authz resolve_authorization parse_csr ensure_all
    ensure_standing_records resolve_all issue request_certificate directory_url_of issuer_of
    is_auto_mode build_client ensure_account new_publisher call_provider with_client collect
    is_separator clean_domain parse_domain_list clean_name dedupe_lower base_of is_wildcard
    normal_issuer fields_of generate
auto_request_runs = refl

pub check_order_runs :
    (check_order lab manual_connection (3 ∷ []) []).0 ≡ ok (order_details (3 ∷ []) lab_order)
unfolding text lower_char eq_fold trim_space has_suffix trim_suffix contains index_of replace_char
    join fields_func pure raise lift gets in_context emit update ◌>>=◌ parse_problem send set_dir
    fetch_directory directory set_nonce fetch_nonce get_nonce post_once post_loop post_signed
    protected_header encode_payload signature_bytes sign_jws set_account register new_order
    get_authorization finalize normalize_pem read_block parse_account_key with_defaults rounds_of
    pause poll_loop poll_until wait_for_authz resolve_authorization parse_csr ensure_all
    ensure_standing_records resolve_all issue request_certificate directory_url_of issuer_of
    is_auto_mode build_client ensure_account new_publisher call_provider with_client collect
    is_separator clean_domain parse_domain_list clean_name dedupe_lower get_order ask_order
    check_order order_details
check_order_runs = refl

abbrev pub lab_certificate : CertificateDetails
lab_certificate = record {
  id = 3 ∷ [];
  status = CertificateStatus.pending;
  certificate = [];
  chain = [];
  error_message = [];
}

pub check_certificate_runs :
    (check_certificate lab manual_connection (3 ∷ []) []).0 ≡ ok lab_certificate
unfolding text lower_char eq_fold trim_space has_suffix trim_suffix contains index_of replace_char
    join fields_func pure raise lift gets in_context emit update ◌>>=◌ parse_problem send set_dir
    fetch_directory directory set_nonce fetch_nonce get_nonce post_once post_loop post_signed
    protected_header encode_payload signature_bytes sign_jws set_account register new_order
    get_authorization finalize normalize_pem read_block parse_account_key with_defaults rounds_of
    pause poll_loop poll_until wait_for_authz resolve_authorization parse_csr ensure_all
    ensure_standing_records resolve_all issue request_certificate directory_url_of issuer_of
    is_auto_mode build_client ensure_account new_publisher call_provider with_client collect
    is_separator clean_domain parse_domain_list clean_name dedupe_lower get_order ask_certificate
    check_certificate certificate_of
check_certificate_runs = refl

pub resolve_runs : (resolve_authorization lab_ca (5 ∷ []) default_poll lab_session).0 ≡ ok tt
unfolding text lower_char eq_fold trim_space has_suffix trim_suffix contains index_of replace_char
    join fields_func pure raise lift gets in_context emit update ◌>>=◌ parse_problem send set_dir
    fetch_directory directory set_nonce fetch_nonce get_nonce post_once post_loop post_signed
    protected_header encode_payload signature_bytes sign_jws set_account register new_order
    get_authorization finalize normalize_pem read_block parse_account_key with_defaults rounds_of
    pause poll_loop poll_until wait_for_authz resolve_authorization
resolve_runs = refl

pub wait_runs : (wait_for_authz lab_ca (5 ∷ []) default_poll lab_session).0 ≡ ok lab_authorization
unfolding text lower_char eq_fold trim_space has_suffix trim_suffix contains index_of replace_char
    join fields_func pure raise lift gets in_context emit update ◌>>=◌ parse_problem send set_dir
    fetch_directory directory set_nonce fetch_nonce get_nonce post_once post_loop post_signed
    protected_header encode_payload signature_bytes sign_jws set_account register new_order
    get_authorization finalize normalize_pem read_block parse_account_key with_defaults rounds_of
    pause poll_loop poll_until wait_for_authz resolve_authorization
wait_runs = refl

pub manual_mode : is_auto_mode manual_connection ≡ false
unfolding text lower_char eq_fold trim_space has_suffix trim_suffix contains index_of replace_char
    join fields_func directory_url_of issuer_of is_auto_mode build_client ensure_account
    new_publisher call_provider with_client
manual_mode = refl

abbrev pub manual_client : Client
manual_client = new_client manual_connection lab_key

abbrev pub registered : Session
registered = (ensure_account lab manual_connection (record { client = manual_client; log = [] })).1

pub client_runs : build_client lab manual_connection ≡ ok manual_client
unfolding text lower_char eq_fold trim_space has_suffix trim_suffix contains index_of replace_char
    join fields_func normalize_pem read_block parse_account_key directory_url_of issuer_of
    is_auto_mode build_client
client_runs = refl

pub registration_runs :
    ensure_account lab manual_connection (record { client = manual_client; log = [] })
    ≡ (ok tt, registered)
unfolding text lower_char eq_fold trim_space has_suffix trim_suffix contains index_of replace_char
    join fields_func pure raise lift gets in_context emit update ◌>>=◌ parse_problem send set_dir
    fetch_directory directory set_nonce fetch_nonce get_nonce post_once post_loop post_signed
    protected_header encode_payload signature_bytes sign_jws set_account register directory_url_of
    issuer_of is_auto_mode build_client ensure_account
registration_runs = refl

abbrev pub two_names : List Text
two_names = (97 ∷ []) ∷ (98 ∷ []) ∷ []

pub publish_runs : (ensure_standing_records lab auto_connection two_names lab_session).0 ≡ ok tt
unfolding text lower_char eq_fold trim_space has_suffix trim_suffix contains index_of replace_char
    join fields_func pure raise lift gets in_context emit update ◌>>=◌ parse_problem send set_dir
    fetch_directory directory set_nonce fetch_nonce get_nonce post_once post_loop post_signed
    protected_header encode_payload signature_bytes sign_jws set_account register new_order
    get_authorization finalize normalize_pem read_block parse_account_key with_defaults rounds_of
    pause poll_loop poll_until wait_for_authz resolve_authorization parse_csr ensure_all
    ensure_standing_records resolve_all issue request_certificate directory_url_of issuer_of
    is_auto_mode build_client ensure_account new_publisher call_provider with_client collect
    is_separator clean_domain parse_domain_list clean_name dedupe_lower base_of is_wildcard
    normal_issuer fields_of generate
publish_runs = refl
